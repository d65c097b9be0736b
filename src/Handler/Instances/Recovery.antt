-- ===== src/Handler/Instances/Recovery.antt =====
-- What a node that comes back, at its own or at a new address, changes in the store.
use echonet_list.Base.{
  ℕ, ◌≡◌, refl, ap, ◌∙◌, arith, Bool, false, not, ◌&&◌, List, [], ◌∷◌, All, none, or_else,
  Bool-cases, inl, inr,
}
use echonet_list.Base.Keys.{Text, ◌=?◌, nat_eq, text_eq, text_beq_iff}
use echonet_list.Base.Maps.{contains, Distinct, keys, lookup, has-delete, has-lookup, has-contains}
use echonet_list.EchonetLite.Object.{node_profile_object}
use echonet_list.Handler.Identifiers.{Device, device_key}
use echonet_list.Handler.LocalObjects.{DeviceProperties}
use echonet_list.Handler.Devices.{
  Devices, objects_at, is_known_device, is_offline, forget_each, remove_all_devices_by_ip,
}
use echonet_list.Handler.Devices.Properties.{send-offline_devices}
use echonet_list.Handler.Devices.Known.{objects_at-remove_all, known-remove_all}
use echonet_list.Handler.Instances.{
  has_id, find_ips, find_ips_with_same_node_profile_id, migrate_from, migrate_each,
  migrate_devices_from_old_ip,
}
use echonet_list.Handler.Instances.Members.{IsEoj, key_is}

-- The codes in the store have three bytes.
abbrev pub AllEojs : Devices → Type 0
AllEojs d = (ip : Text) → All IsEoj (keys (objects_at ip d))

forget_each-offline :
    (ip : Text) (eojs : List ℕ) (other : Device) (d : Devices)
    → All IsEoj eojs
    → IsEoj other.eoj
    → (ip =? other.ip) ≡ false
    → is_offline other (forget_each ip eojs d) ≡ is_offline other d
unfolding forget_each is_offline
forget_each-offline ip [] other d h h' apart = refl
forget_each-offline ip (eoj ∷ eojs) other d (hd, h) h' apart =
    let device : Device = record { ip = ip; eoj = eoj } in
    forget_each-offline ip eojs other _ h h' apart
    ∙ rw send-offline_devices (
        has-delete (device_key device) (device_key other) d.offline_devices
        ∙ ground (arith, key_is device other hd h'))

offline-remove_all :
    (ip : Text) (other : Device) (d : Devices)
    → AllEojs d
    → IsEoj other.eoj
    → (ip =? other.ip) ≡ false
    → is_offline other (remove_all_devices_by_ip ip d).1 ≡ is_offline other d
unfolding remove_all_devices_by_ip is_offline
offline-remove_all ip other d sound h apart =
    unfold is_offline in forget_each-offline ip (keys (objects_at ip d)) other d (sound ip) h apart

AllEojs-remove_all :
    (ip : Text) (d : Devices) → AllEojs d → AllEojs (remove_all_devices_by_ip ip d).1
AllEojs-remove_all ip d sound ip' =
    rw (objects_at-remove_all ip ip' d) (elim (Bool-cases (ip =? ip')) [
      | inl here ↦ rw here (unfold keys in tt)
      | inr apart ↦ rw apart (sound ip')
    ])

-- The address reads as one, and its node profile is offline.
abbrev pub left : (Text → Bool) → Text → Devices → Bool
left parses ip d = parses ip && is_offline (record { ip = ip; eoj = node_profile_object }) d

migrate_from-known :
    (parses : Text → Bool) (ip : Text) (other : Device) (d : Devices)
    → is_known_device other (migrate_from parses ip d)
      ≡ (not (ip =? other.ip && left parses ip d) && is_known_device other d)
unfolding migrate_from
migrate_from-known parses ip other d = elim (Bool-cases (left parses ip d)) [
  | inl gone ↦ rw (migrate_from, gone) (known-remove_all ip other d ∙ ground arith)
  | inr stays ↦ rw (migrate_from, stays) (ground arith)
]

migrate_from-left :
    (parses : Text → Bool) (ip ip' : Text) (d : Devices)
    → AllEojs d
    → (ip =? ip') ≡ false
    → left parses ip' (migrate_from parses ip d) ≡ left parses ip' d
unfolding migrate_from
migrate_from-left parses ip ip' d sound apart = elim (Bool-cases (left parses ip d)) [
  | inl gone ↦
      rw (migrate_from, gone)
        (ap (λ b. parses ip' && b)
          (offline-remove_all ip (record { ip = ip'; eoj = node_profile_object }) d sound
            (omega arith) apart))
  | inr stays ↦ rw (migrate_from, stays) refl
]

migrate_from-AllEojs :
    (parses : Text → Bool) (ip : Text) (d : Devices)
    → AllEojs d
    → AllEojs (migrate_from parses ip d)
unfolding migrate_from
migrate_from-AllEojs parses ip d sound ip' = elim (Bool-cases (left parses ip d)) [
  | inl gone ↦ rw (migrate_from, gone) (AllEojs-remove_all ip d sound ip')
  | inr stays ↦ rw (migrate_from, stays) (sound ip')
]

migrate_each-known :
    (parses : Text → Bool) (ips : List Text) (other : Device) (d : Devices)
    → AllEojs d
    → is_known_device other (migrate_each parses ips d)
      ≡ (not (contains ips other.ip && left parses other.ip d) && is_known_device other d)
unfolding migrate_each
migrate_each-known parses [] other d sound = refl
migrate_each-known parses (ip ∷ ips) other d sound =
    let d' : Devices = migrate_from parses ip d in
    migrate_each-known parses ips other d' (migrate_from-AllEojs parses ip d sound)
    ∙ elim (Bool-cases (ip =? other.ip)) [
      | inr apart ↦ ground (
        arith,
        migrate_from-known parses ip other d,
        migrate_from-left parses ip other.ip d sound apart,
      )
      | inl here ↦
          let same : ip ≡ other.ip = (text_beq_iff _ _).0 here in
          let one : left parses ip d ≡ left parses other.ip d = ap (λ i. left parses i d) same in
          elim (Bool-cases (left parses ip d)) [
            | inl gone ↦ ground (arith, migrate_from-known parses ip other d)
            | inr stays ↦
                let still : d' ≡ d = unfold migrate_from in rw stays refl in rw still (ground arith)
          ]
    ]

contains-find_ips :
    (id_edt : List ℕ) (exclude_ip ip : Text) (table : List (Text × DeviceProperties))
    → Distinct (keys table)
    → contains (find_ips id_edt exclude_ip table) ip
      ≡ (not (ip =? exclude_ip) && has_id id_edt (or_else (lookup ip table) []))
unfolding find_ips keys lookup
contains-find_ips id_edt exclude_ip ip [] h = unfold has_id lookup in ground arith
contains-find_ips id_edt exclude_ip ip ((i, objects) ∷ table) (hi, h) =
    elim (Bool-cases (i =? ip)) [
      | inr apart ↦ ground (arith, contains-find_ips id_edt exclude_ip ip table h)
      | inl here ↦
          let same : i ≡ ip = (text_beq_iff _ _).0 here in
          let later : lookup ip table ≡ none =
            has-lookup ip table (has-contains ip table ∙ rw same at hi) in
          let nothing : has_id id_edt [] ≡ false = unfold has_id lookup in refl in
          let rest : contains (find_ips id_edt exclude_ip table) ip ≡ false =
            contains-find_ips id_edt exclude_ip ip table h ∙ rw (later, nothing) (ground arith) in
          let tests : (i =? exclude_ip) ≡ (ip =? exclude_ip) = ap (λ x. x =? exclude_ip) same in
          ground arith
    ]

-- Another address than `current`, whose node profile has this number, reads as an address and is offline.
abbrev pub is_old : (Text → Bool) → Text → List ℕ → Text → Devices → Bool
is_old parses current [] ip d = false
is_old parses current (b ∷ bs) ip d =
    not (ip =? current) && has_id (b ∷ bs) (objects_at ip d) && left parses ip d

-- When a node profile's identification number is registered, exactly the devices of the other
-- addresses that have the same number and an offline node profile are forgotten; an empty number
-- moves nothing.
pub is_known_device-migrate_devices_from_old_ip :
    (parses : Text → Bool) (device : Device) (id_edt : List ℕ) (other : Device) (d : Devices)
    → Distinct (keys d.data_by_ip)
    → AllEojs d
    → is_known_device other (migrate_devices_from_old_ip parses device id_edt d)
      ≡ (not (is_old parses device.ip id_edt other.ip d) && is_known_device other d)
unfolding migrate_devices_from_old_ip find_ips_with_same_node_profile_id objects_at migrate_each
is_known_device-migrate_devices_from_old_ip parses device [] other d distinct sound = refl
is_known_device-migrate_devices_from_old_ip parses device (b ∷ bs) other d distinct sound =
    migrate_each-known parses (find_ips (b ∷ bs) device.ip d.data_by_ip) other d sound
    ∙ ground (arith, contains-find_ips (b ∷ bs) device.ip other.ip d.data_by_ip distinct)
