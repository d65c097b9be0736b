-- ===== src/Handler/Devices/Removal.antt =====
-- What is left after a removal.
use echonet_list.Base.{
  ℕ, ◌≡◌, refl, ap, arith, false, ◌&&◌, List, [], ◌∷◌, none, ◌==◌, or_else, if◌then◌else◌,
  Bool-cases, inl, inr,
}
use echonet_list.Base.Keys.{Text, ◌=?◌, nat_eq, text_eq, text_beq_iff}
use echonet_list.Base.Maps.{lookup, has, delete, lookup-insert, lookup-delete, has-delete, =?_refl}
use echonet_list.Handler.Identifiers.{Device, device_key}
use echonet_list.Handler.LocalObjects.{DeviceProperties}
use echonet_list.Handler.Devices.{
  Devices, objects_at, has_ip, is_known_device, is_offline, get_property, put_back,
  get_last_update_time, remove_device,
}
use echonet_list.Handler.Devices.Properties.{send-data_by_ip, send-timestamps, send-offline_devices}

pub put_back-lookup :
    (ip ip' : Text) (objects : DeviceProperties) (table : List (Text × DeviceProperties))
    → or_else (lookup ip' (put_back ip objects table)) []
      ≡ (if ip =? ip' then objects else or_else (lookup ip' table) [])
unfolding put_back
put_back-lookup ip ip' [] table = ground (arith, lookup-delete ip ip' table)
put_back-lookup ip ip' (o ∷ objects) table =
    ground (arith, lookup-insert ip ip' (o ∷ objects) table)

-- The removed device's data, as a table.
unfoldable pub remaining : Device → Devices → List (Text × DeviceProperties)
remaining device d =
    if is_known_device device d
    then put_back device.ip (delete device.eoj (objects_at device.ip d)) d.data_by_ip
    else d.data_by_ip

pub remove_device-data_by_ip :
    (device : Device) (d : Devices) → (remove_device device d).data_by_ip ≡ remaining device d
unfolding remove_device remaining
remove_device-data_by_ip device d = elim (Bool-cases (is_known_device device d)) [
  | inl e ↦ rw e (rw send-data_by_ip refl)
  | inr e ↦ rw e refl
]

unknown_after :
    (device : Device) (d : Devices)
    → (has device.ip (remaining device d)
        && has device.eoj (or_else (lookup device.ip (remaining device d)) []))
      ≡ false
unfolding remaining
unknown_after device d = elim (Bool-cases (is_known_device device d)) [
  | inl e ↦ rw e (
      ground (
        arith,
        put_back-lookup device.ip device.ip (delete device.eoj (objects_at device.ip d))
            d.data_by_ip,
        =?_refl device.ip,
        has-delete device.eoj device.eoj (objects_at device.ip d),
      ))
  | inr e ↦ rw e (unfold is_known_device has_ip objects_at in e)
]

remaining_other :
    (device other : Device) (d : Devices)
    → ¬ ((device.ip ≡ other.ip) × (device.eoj ≡ other.eoj))
    → or_else (lookup other.eoj (or_else (lookup other.ip (remaining device d)) [])) []
      ≡ or_else (lookup other.eoj (or_else (lookup other.ip d.data_by_ip) [])) []
unfolding remaining objects_at
remaining_other device other d apart = elim (Bool-cases (is_known_device device d)) [
  | inr e ↦ rw e refl
  | inl e ↦ rw e (elim (Bool-cases (device.ip =? other.ip)) [
    | inl here ↦
        let same : device.ip ≡ other.ip = (text_beq_iff _ _).0 here in
        let differ : (device.eoj == other.eoj) ≡ false = ground (arith, apart) in
        ground (
          arith,
          put_back-lookup device.ip other.ip
              (delete device.eoj (or_else (lookup device.ip d.data_by_ip) [])) d.data_by_ip,
          lookup-delete device.eoj other.eoj (or_else (lookup device.ip d.data_by_ip) []),
        )
    | inr there ↦ ground (
      arith,
      put_back-lookup device.ip other.ip
          (delete device.eoj (or_else (lookup device.ip d.data_by_ip) [])) d.data_by_ip,
    )
  ])
]

offline_gone : (device : Device) (d : Devices) → is_offline device (remove_device device d) ≡ false
unfolding remove_device is_offline
offline_gone device d = elim (Bool-cases (is_known_device device d)) [
  | inl e ↦ rw e (rw send-offline_devices (gone d.offline_devices))
  | inr e ↦ rw e (gone d.offline_devices)
]
  where
    gone :
        (m : List (Text × Unit {0}))
        → has (device_key device) (delete (device_key device) m) ≡ false
    gone m = rw (has-delete, =?_refl (device_key device)) refl

time_gone :
    (device : Device) (d : Devices) → get_last_update_time device (remove_device device d) ≡ none
unfolding remove_device get_last_update_time
time_gone device d = elim (Bool-cases (is_known_device device d)) [
  | inl e ↦ rw e (rw send-timestamps (gone d.timestamps))
  | inr e ↦ rw e (gone d.timestamps)
]
  where
    gone : (m : List (Text × ℕ)) → lookup (device_key device) (delete (device_key device) m) ≡ none
    gone m = rw (lookup-delete, =?_refl (device_key device)) refl

-- `RemoveDevice` makes the device unknown, online, and without a time of update.
remove_device_forgets :
    (device : Device) (d : Devices)
    → (is_known_device device (remove_device device d) ≡ false)
      × (is_offline device (remove_device device d) ≡ false)
      × (get_last_update_time device (remove_device device d) ≡ none)
remove_device_forgets device d = (
  unfold is_known_device has_ip objects_at in
      rw (remove_device-data_by_ip device d) (unknown_after device d),
  offline_gone device d,
  time_gone device d,
)

-- `RemoveDevice` leaves the properties of every other device.
get_property-remove_device :
    (device other : Device) (epc : ℕ) (d : Devices)
    → ¬ ((device.ip ≡ other.ip) × (device.eoj ≡ other.eoj))
    → get_property other epc (remove_device device d) ≡ get_property other epc d
unfolding get_property objects_at
get_property-remove_device device other epc d apart =
    rw (remove_device-data_by_ip device d) (ap (lookup epc) (remaining_other device other d apart))
