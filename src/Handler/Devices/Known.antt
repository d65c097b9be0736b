-- ===== src/Handler/Devices/Known.antt =====
-- Which devices are known, and which are offline, after a registration or a removal.
use echonet_list.Base.{
  ℕ, ◌≡◌, refl, sym, ap, ◌∙◌, arith, Bool, true, false, not, ◌&&◌, ◌||◌, List, [], ◌∷◌, ◌==◌,
  or_else, if◌then◌else◌, Bool-cases, inl, inr,
}
use echonet_list.Base.Keys.{Text, ◌=?◌, nat_eq, text_eq, text_beq_iff}
use echonet_list.Base.Maps.{
  lookup, has, insert, delete, contains, keys, has-contains, has-insert, has-delete, lookup-insert,
  lookup-delete,
}
use echonet_list.EchonetLite.Property.{Property}
use echonet_list.Handler.Identifiers.{Device, device_key}
use echonet_list.Handler.LocalObjects.{EpcPropertyMap, DeviceProperties, set_all}
use echonet_list.Handler.Devices.{
  Devices, objects_at, has_ip, is_known_device, is_offline, set_offline, ensure_device_exists,
  remove_device, register_properties, remove_all_devices_by_ip,
}
use echonet_list.Handler.Devices.Properties.{send-data_by_ip, send-offline_devices}
use echonet_list.Handler.Devices.Reachable.{forget_each-data_by_ip}
use echonet_list.Handler.Devices.Removal.{put_back-lookup, remaining, remove_device-data_by_ip}

abbrev pub same_device : Device → Device → Bool
same_device a b = a.ip =? b.ip && a.eoj == b.eoj

-- The objects of an address in a table.
objects_in : Text → List (Text × DeviceProperties) → DeviceProperties
objects_in ip table = or_else (lookup ip table) []

-- A missing address has no objects, so the object alone decides.
known_in :
    (ip : Text) (eoj : ℕ) (table : List (Text × DeviceProperties))
    → (has ip table && has eoj (objects_in ip table)) ≡ has eoj (objects_in ip table)
unfolding objects_in has lookup
known_in ip eoj [] = refl
known_in ip eoj ((i, objects) ∷ table) = ground (arith, known_in ip eoj table)

is_known_device-has :
    (device : Device) (d : Devices)
    → is_known_device device d ≡ has device.eoj (objects_in device.ip d.data_by_ip)
unfolding is_known_device has_ip objects_at objects_in
is_known_device-has device d = known_in device.ip device.eoj d.data_by_ip

added :
    (m : EpcPropertyMap) (device other : Device) (d : Devices)
    → has other.eoj (
        if device.ip =? other.ip
        then insert device.eoj m (objects_in device.ip d.data_by_ip)
        else objects_in other.ip d.data_by_ip)
      ≡ (same_device device other || has other.eoj (objects_in other.ip d.data_by_ip))
added m device other d = elim (Bool-cases (device.ip =? other.ip)) [
  | inr apart ↦ rw apart refl
  | inl here ↦
      let ip : device.ip ≡ other.ip = (text_beq_iff _ _).0 here in
      rw here (
        has-insert device.eoj other.eoj m (objects_in device.ip d.data_by_ip)
        ∙ ap (λ i. device.eoj == other.eoj || has other.eoj (objects_in i d.data_by_ip)) ip)
]

taken :
    (device other : Device) (d : Devices)
    → has other.eoj (
        if device.ip =? other.ip
        then delete device.eoj (objects_in device.ip d.data_by_ip)
        else objects_in other.ip d.data_by_ip)
      ≡ (not (same_device device other) && has other.eoj (objects_in other.ip d.data_by_ip))
taken device other d = elim (Bool-cases (device.ip =? other.ip)) [
  | inr apart ↦ rw apart refl
  | inl here ↦
      let ip : device.ip ≡ other.ip = (text_beq_iff _ _).0 here in
      rw here (
        has-delete device.eoj other.eoj (objects_in device.ip d.data_by_ip)
        ∙ ap (λ i. not (device.eoj == other.eoj) && has other.eoj (objects_in i d.data_by_ip)) ip)
]

objects_in-insert :
    (ip ip' : Text) (objects : DeviceProperties) (table : List (Text × DeviceProperties))
    → objects_in ip' (insert ip objects table)
      ≡ (if ip =? ip' then objects else objects_in ip' table)
unfolding objects_in
objects_in-insert ip ip' objects table = ground (arith, lookup-insert ip ip' objects table)

pub same_device_lem :
    (device other : Device)
    → same_device device other ≡ true
    → (device.ip ≡ other.ip) × (device.eoj ≡ other.eoj)
same_device_lem device other h = ((text_beq_iff _ _).0 (ground arith), ground arith)

same_objects :
    (device other : Device) (table : List (Text × DeviceProperties))
    → same_device device other ≡ true
    → has other.eoj (objects_in other.ip table) ≡ has device.eoj (objects_in device.ip table)
same_objects device other table h =
    let (ip, eoj) = same_device_lem device other h in
    ap (λ i. has other.eoj (objects_in i table)) (sym ip)
    ∙ ap (λ e. has e (objects_in device.ip table)) (sym eoj)

-- An object that is there already need not be added, and one that is not need not be removed.
added_known :
    (device other : Device) (d : Devices)
    → has device.eoj (objects_in device.ip d.data_by_ip) ≡ true
    → has other.eoj (objects_in other.ip d.data_by_ip)
      ≡ (same_device device other || has other.eoj (objects_in other.ip d.data_by_ip))
added_known device other d known = elim (Bool-cases (same_device device other)) [
  | inl same ↦ rw (same, same_objects device other d.data_by_ip same) known
  | inr apart ↦ rw apart refl
]

removed_unknown :
    (device other : Device) (d : Devices)
    → has device.eoj (objects_in device.ip d.data_by_ip) ≡ false
    → has other.eoj (objects_in other.ip d.data_by_ip)
      ≡ (not (same_device device other) && has other.eoj (objects_in other.ip d.data_by_ip))
removed_unknown device other d unknown = elim (Bool-cases (same_device device other)) [
  | inl same ↦ rw (same, same_objects device other d.data_by_ip same) unknown
  | inr apart ↦ rw apart refl
]

-- `ensureDeviceExists` adds this device to those that are known.
pub is_known_device-ensure_device_exists :
    (device other : Device) (d : Devices)
    → is_known_device other (ensure_device_exists device d)
      ≡ (same_device device other || is_known_device other d)
unfolding ensure_device_exists objects_at objects_in
is_known_device-ensure_device_exists device other d =
    rw (is_known_device-has other d, is_known_device-has other (ensure_device_exists device d))
      (elim (Bool-cases (has device.eoj (objects_at device.ip d))) [
        | inl known ↦ rw (known, ensure_device_exists) (added_known device other d known)
        | inr new ↦
            rw (new, ensure_device_exists, send-data_by_ip)
              (ap (has other.eoj) (
                  objects_in-insert device.ip other.ip
                    (insert device.eoj [] (objects_at device.ip d)) d.data_by_ip)
                ∙ added [] device other d)
      ])

-- `RegisterProperties` adds no other device.
pub is_known_device-register_properties :
    (device other : Device) (ps : List Property) (now : ℕ) (d : Devices)
    → is_known_device other (register_properties device ps now d)
      ≡ is_known_device other (ensure_device_exists device d)
unfolding register_properties objects_at objects_in
is_known_device-register_properties device other ps now d =
    let d' : Devices = ensure_device_exists device d in
    let m : EpcPropertyMap =
      set_all ps (or_else (lookup device.eoj (objects_at device.ip d')) []) in
    let there : is_known_device other d' ≡ (same_device device other || is_known_device other d') =
      is_known_device-ensure_device_exists device other d
      ∙ ground (arith, is_known_device-ensure_device_exists device other d) in
    is_known_device-has other (register_properties device ps now d)
    ∙ ap (has other.eoj) (
        objects_in-insert device.ip other.ip (insert device.eoj m (objects_at device.ip d'))
          d'.data_by_ip)
    ∙ added m device other d'
    ∙ ap (λ b. same_device device other || b) (sym (is_known_device-has other d'))
    ∙ sym there

-- `RemoveDevice` takes this device from those that are known.
pub is_known_device-remove_device :
    (device other : Device) (d : Devices)
    → is_known_device other (remove_device device d)
      ≡ (not (same_device device other) && is_known_device other d)
unfolding remaining objects_in objects_at
is_known_device-remove_device device other d =
    rw
      (
        is_known_device-has other d,
        is_known_device-has other (remove_device device d),
        remove_device-data_by_ip device d,
        is_known_device-has device d,
      )
      (elim (Bool-cases (has device.eoj (objects_in device.ip d.data_by_ip))) [
        | inl known ↦ rw known (
            ap (has other.eoj) (
              put_back-lookup device.ip other.ip (delete device.eoj (objects_at device.ip d))
                d.data_by_ip)
            ∙ taken device other d)
        | inr unknown ↦ rw unknown (removed_unknown device other d unknown)
      ])

-- Neither registration touches the offline state.
pub is_offline-ensure_device_exists :
    (device other : Device) (d : Devices)
    → is_offline other (ensure_device_exists device d) ≡ is_offline other d
unfolding is_offline ensure_device_exists
is_offline-ensure_device_exists device other d =
    elim (Bool-cases (has device.eoj (objects_at device.ip d))) [
      | inl known ↦ rw known refl
      | inr new ↦ rw (new, send-offline_devices) refl
    ]

pub is_offline-remove_device :
    (device other : Device) (d : Devices)
    → is_offline other (remove_device device d)
      ≡ (not (device_key device =? device_key other) && is_offline other d)
unfolding is_offline remove_device
is_offline-remove_device device other d = elim (Bool-cases (is_known_device device d)) [
  | inl known ↦
      rw (known, send-offline_devices)
        (has-delete (device_key device) (device_key other) d.offline_devices)
  | inr unknown ↦ rw unknown (has-delete (device_key device) (device_key other) d.offline_devices)
]

-- `SetOffline` leaves which devices are known.
pub is_known_device-set_offline :
    (device other : Device) (offline : Bool) (d : Devices)
    → is_known_device other (set_offline device offline d) ≡ is_known_device other d
unfolding is_known_device has_ip objects_at set_offline
is_known_device-set_offline device other true d = elim (Bool-cases (is_offline device d)) [
  | inl off ↦ rw off refl
  | inr on ↦ rw (on, send-data_by_ip) refl
]
is_known_device-set_offline device other false d = elim (Bool-cases (is_offline device d)) [
  | inl off ↦ rw (off, send-data_by_ip) refl
  | inr on ↦ rw on refl
]

pub is_known_device-keys :
    (device : Device) (d : Devices)
    → is_known_device device d ≡ contains (keys (objects_at device.ip d)) device.eoj
unfolding objects_at objects_in
is_known_device-keys device d =
    is_known_device-has device d ∙ has-contains device.eoj (objects_at device.ip d)

pub objects_at-remove_all :
    (ip ip' : Text) (d : Devices)
    → objects_at ip' (remove_all_devices_by_ip ip d).1
      ≡ (if ip =? ip' then [] else objects_at ip' d)
unfolding remove_all_devices_by_ip objects_at
objects_at-remove_all ip ip' d =
    rw forget_each-data_by_ip (ground (arith, lookup-delete ip ip' d.data_by_ip))

-- `RemoveAllDevicesByIP` takes the devices of the address from those that are known.
pub known-remove_all :
    (ip : Text) (other : Device) (d : Devices)
    → is_known_device other (remove_all_devices_by_ip ip d).1
      ≡ (not (ip =? other.ip) && is_known_device other d)
known-remove_all ip other d =
    rw
      (
        is_known_device-keys other d,
        is_known_device-keys other (remove_all_devices_by_ip ip d).1,
        objects_at-remove_all ip other.ip d,
      )
      (elim (Bool-cases (ip =? other.ip)) [
        | inl here ↦ rw here (unfold keys in refl)
        | inr apart ↦ rw apart refl
      ])
