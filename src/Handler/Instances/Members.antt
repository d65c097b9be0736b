-- ===== src/Handler/Instances/Members.antt =====
-- Which devices are known, and which are offline, after a list of removals or registrations.
use echonet_list.Base.{
  ℕ, ◌<◌, ◌^◌, ◌≡◌, refl, sym, ap, ◌∙◌, arith, Bool, true, false, not, ◌&&◌, ◌||◌, List, [], ◌∷◌,
  All, none, some, Bool-cases, inl, inr,
}
use echonet_list.Base.Keys.{Text, ◌=?◌, nat_eq, text_eq, text_beq_iff}
use echonet_list.Base.Maps.{has}
use echonet_list.Handler.Identifiers.{Device, device_key}
use echonet_list.Handler.Identifiers.Keys.{device_key_injective}
use echonet_list.Handler.Devices.{Devices, is_known_device, is_offline, at_ip}
use echonet_list.Handler.Devices.Offline.{is_offline-set_offline}
use echonet_list.Handler.Devices.Known.{
  same_device, same_device_lem, is_known_device-ensure_device_exists, is_known_device-remove_device,
  is_offline-ensure_device_exists, is_offline-remove_device, is_known_device-set_offline,
}
use echonet_list.Handler.Instances.{
  register_device, remove_known_device, remove_each, register_online, register_each,
}

-- The device is in the list.
abbrev pub listed : Device → List Device → Bool
listed other [] = false
listed other (device ∷ devices) = same_device device other || listed other devices

-- An object code of three bytes.
abbrev pub IsEoj : ℕ → Type 0
IsEoj eoj = eoj < 2 ^ 24

abbrev pub AreEojs : List Device → Type 0
AreEojs = All (λ device. IsEoj device.eoj)

-- With codes of three bytes, keys tell devices apart.
pub key_is :
    (device other : Device)
    → IsEoj device.eoj
    → IsEoj other.eoj
    → (device_key device =? device_key other) ≡ same_device device other
key_is device other h h' = elim (Bool-cases (same_device device other)) [
  | inl same ↦
      let (ip, eoj) = same_device_lem device other same in
      let one : device ≡ other = cc in rw same ((text_beq_iff _ _).1 (ap device_key one))
  | inr apart ↦ elim (Bool-cases (device_key device =? device_key other)) [
    | inr differ ↦ rw (apart, differ) refl
    | inl equal ↦
        let (ip, eoj) = device_key_injective device other h h' ((text_beq_iff _ _).0 equal) in
        absurd (ground (arith, (text_beq_iff device.ip other.ip).1 ip))
  ]
]

register_online-known :
    (device other : Device) (d : Devices)
    → is_known_device other (register_online device d)
      ≡ (same_device device other || is_known_device other d)
unfolding register_online register_device
register_online-known device other d =
    let d' : Devices = register_device device d in
    elim (Bool-cases (is_offline device d')) [
      | inl off ↦
          rw (register_online, off, is_known_device-set_offline device other false d')
            (is_known_device-ensure_device_exists device other d)
      | inr on ↦ rw (register_online, on) (is_known_device-ensure_device_exists device other d)
    ]

register_online-offline :
    (device other : Device) (d : Devices)
    → is_offline other (register_online device d)
      ≡ (not (device_key device =? device_key other) && is_offline other d)
unfolding register_online register_device is_offline
register_online-offline device other d =
    let d' : Devices = register_device device d in
    let before : is_offline other d' ≡ is_offline other d =
      is_offline-ensure_device_exists device other d in
    elim (Bool-cases (is_offline device d')) [
      | inl off ↦
          rw (register_online, off) (is_offline-set_offline device other false d' ∙ ground arith)
      | inr on ↦
          rw (register_online, on)
            (before ∙ elim (Bool-cases (device_key device =? device_key other)) [
              | inl equal ↦ rw equal (
                  sym before
                  ∙ ap (λ k. has k d'.offline_devices) (sym ((text_beq_iff _ _).0 equal))
                  ∙ on)
              | inr differ ↦ rw differ refl
            ])
    ]

-- The device that `remove_each` takes away, if it is known.
removed_one : Device → Devices → Devices
removed_one device d = elim (remove_known_device device d) [ none ↦ d | some d' ↦ d' ]

same_known :
    (device other : Device) (d : Devices)
    → same_device device other ≡ true
    → is_known_device other d ≡ is_known_device device d
same_known device other d same =
    let (ip, eoj) = same_device_lem device other same in
    let one : other ≡ device = cc in ap (λ x. is_known_device x d) one

removed_one-known :
    (device other : Device) (d : Devices)
    → is_known_device other (removed_one device d)
      ≡ (not (same_device device other) && is_known_device other d)
unfolding removed_one remove_known_device
removed_one-known device other d = elim (Bool-cases (is_known_device device d)) [
  | inl known ↦ rw (removed_one, known) (is_known_device-remove_device device other d)
  | inr unknown ↦
      rw (removed_one, unknown)
        (elim (Bool-cases (same_device device other)) [
          | inl same ↦ rw (same, same_known device other d same) unknown
          | inr apart ↦ rw apart refl
        ])
]

removed_one-offline :
    (device other : Device) (d : Devices)
    → IsEoj device.eoj
    → IsEoj other.eoj
    → is_offline other (removed_one device d)
      ≡ (not (same_device device other && is_known_device other d) && is_offline other d)
unfolding removed_one remove_known_device
removed_one-offline device other d h h' = elim (Bool-cases (is_known_device device d)) [
  | inl known ↦
      rw (removed_one, known)
        (is_offline-remove_device device other d
          ∙ ground (arith, key_is device other h h', same_known device other d))
  | inr unknown ↦ rw (removed_one, unknown) (ground (arith, same_known device other d))
]

pub remove_each-known :
    (devices : List Device) (other : Device) (d : Devices)
    → is_known_device other (remove_each devices d)
      ≡ (not (listed other devices) && is_known_device other d)
unfolding remove_each removed_one
remove_each-known [] other d = refl
remove_each-known (device ∷ devices) other d =
    remove_each-known devices other (removed_one device d)
    ∙ ground (arith, removed_one-known device other d)

pub remove_each-offline :
    (devices : List Device) (other : Device) (d : Devices)
    → AreEojs devices
    → IsEoj other.eoj
    → is_offline other (remove_each devices d)
      ≡ (not (listed other devices && is_known_device other d) && is_offline other d)
unfolding remove_each removed_one
remove_each-offline [] other d h h' = refl
remove_each-offline (device ∷ devices) other d (hd, h) h' =
    remove_each-offline devices other (removed_one device d) h h'
    ∙ ground (arith, removed_one-known device other d, removed_one-offline device other d hd h')

pub register_each-known :
    (ip : Text) (eojs : List ℕ) (other : Device) (d : Devices)
    → is_known_device other (register_each ip eojs d)
      ≡ (listed other (at_ip ip eojs) || is_known_device other d)
unfolding register_each at_ip
register_each-known ip [] other d = refl
register_each-known ip (eoj ∷ eojs) other d =
    let device : Device = record { ip = ip; eoj = eoj } in
    register_each-known ip eojs other (register_online device d)
    ∙ ground (arith, register_online-known device other d)

pub register_each-offline :
    (ip : Text) (eojs : List ℕ) (other : Device) (d : Devices)
    → All IsEoj eojs
    → IsEoj other.eoj
    → is_offline other (register_each ip eojs d)
      ≡ (not (listed other (at_ip ip eojs)) && is_offline other d)
unfolding register_each at_ip
register_each-offline ip [] other d h h' = refl
register_each-offline ip (eoj ∷ eojs) other d (hd, h) h' =
    let device : Device = record { ip = ip; eoj = eoj } in
    register_each-offline ip eojs other (register_online device d) h h'
    ∙ ground (arith, register_online-offline device other d, key_is device other hd h')
