-- ===== src/Handler/Devices/Reachable.antt =====
-- The stores that the operations of `Devices` reach from the empty one.
use echonet_list.Base.{
  ℕ, ◌<◌, ◌^◌, ◌≡◌, refl, ap, ◌∙◌, Bool, true, false, List, [], ◌∷◌, Option, or_else, if◌then◌else◌,
  Bool-cases, inl, inr,
}
use echonet_list.Base.Keys.{Text, nat_eq, text_eq}
use echonet_list.Base.Maps.{keys, lookup, has, insert, delete, delete-Distinct}
use echonet_list.EchonetLite.Property.{Property}
use echonet_list.Handler.Identifiers.{Device}
use echonet_list.Handler.LocalObjects.{DeviceProperties, set_all}
use echonet_list.Handler.Devices.{
  Devices, objects_at, is_known_device, is_offline, set_offline, set_offline_each,
  set_offline_by_ip, ensure_device_exists, register_properties, put_back, remove_device,
  forget_each, remove_all_devices_by_ip,
}
use echonet_list.Handler.Devices.Properties.{send-data_by_ip}
use echonet_list.Handler.Devices.Removal.{remaining, remove_device-data_by_ip}
use echonet_list.Handler.Devices.Tables.{
  insert-IsTable, delete-IsTable, put_back-IsTable, insert-IsObjects, All-delete, IsTable,
}

-- `NewDevices`, with the free slots of its event channel.
unfoldable pub new_devices : Option ℕ → Devices
new_devices room = record {
  data_by_ip = [];
  timestamps = [];
  offline_devices = [];
  room = room;
  sent = [];
}

-- One call of the store, for a device whose object code has three bytes.
pub data Step : Devices → Devices → Type 0 where
  registers :
      (device : Device) (d : Devices) → device.eoj < 2 ^ 24 → Step d (ensure_device_exists device d)
  registers_properties :
      (device : Device) (ps : List Property) (now : ℕ) (d : Devices)
      → device.eoj < 2 ^ 24
      → Step d (register_properties device ps now d)
  sets_offline :
      (device : Device) (offline : Bool) (d : Devices) → Step d (set_offline device offline d)
  sets_offline_by_ip :
      (ip : Text) (offline : Bool) (d : Devices) → Step d (set_offline_by_ip ip offline d)
  removes : (device : Device) (d : Devices) → Step d (remove_device device d)
  removes_all : (ip : Text) (d : Devices) → Step d (remove_all_devices_by_ip ip d).1

pub data Reaches (d : Devices) : Devices → Type 0 where
  here : Reaches d d
  next : {a b : Devices} → Reaches d a → Step a b → Reaches d b

same-IsTable : (a b : List (Text × DeviceProperties)) → a ≡ b → IsTable b → IsTable a
same-IsTable a b e h = rw e h

ensured : Device → Devices → List (Text × DeviceProperties)
ensured device d =
    if has device.eoj (objects_at device.ip d)
    then d.data_by_ip
    else insert device.ip (insert device.eoj [] (objects_at device.ip d)) d.data_by_ip

ensured_lem :
    (device : Device) (d : Devices) → (ensure_device_exists device d).data_by_ip ≡ ensured device d
unfolding ensure_device_exists ensured
ensured_lem device d = elim (Bool-cases (has device.eoj (objects_at device.ip d))) [
  | inl known ↦ rw known refl
  | inr new ↦ rw (new, send-data_by_ip) refl
]

ensure-IsTable :
    (device : Device) (d : Devices)
    → device.eoj < 2 ^ 24
    → IsTable d.data_by_ip
    → IsTable (ensure_device_exists device d).data_by_ip
unfolding ensured objects_at
ensure-IsTable device d h hs =
    same-IsTable _ _ (ensured_lem device d)
      (elim (has device.eoj (objects_at device.ip d))
        as (λ b. IsTable (
          if b
          then d.data_by_ip
          else insert device.ip (insert device.eoj [] (objects_at device.ip d)) d.data_by_ip)) [
            | true ↦ hs
            | false ↦
                insert-IsTable device.ip (insert device.eoj [] (objects_at device.ip d))
                  d.data_by_ip
                  (insert-IsObjects device.eoj [] (objects_at device.ip d) h (hs.1 device.ip)) hs
          ])

register-IsTable :
    (device : Device) (ps : List Property) (now : ℕ) (d : Devices)
    → device.eoj < 2 ^ 24
    → IsTable d.data_by_ip
    → IsTable (register_properties device ps now d).data_by_ip
unfolding register_properties objects_at
register-IsTable device ps now d h hs =
    let d' : Devices = ensure_device_exists device d in
    let hs' : IsTable d'.data_by_ip = ensure-IsTable device d h hs in
    insert-IsTable device.ip _ d'.data_by_ip
      (insert-IsObjects device.eoj
        (set_all ps (or_else (lookup device.eoj (objects_at device.ip d')) []))
        (objects_at device.ip d') h (hs'.1 device.ip))
      hs'

set_offline-data_by_ip :
    (device : Device) (offline : Bool) (d : Devices)
    → (set_offline device offline d).data_by_ip ≡ d.data_by_ip
unfolding set_offline
set_offline-data_by_ip device true d = elim (Bool-cases (is_offline device d)) [
  | inl off ↦ rw off refl
  | inr on ↦ rw (on, send-data_by_ip) refl
]
set_offline-data_by_ip device false d = elim (Bool-cases (is_offline device d)) [
  | inl off ↦ rw (off, send-data_by_ip) refl
  | inr on ↦ rw on refl
]

set_offline_each-data_by_ip :
    (ip : Text) (eojs : List ℕ) (offline : Bool) (d : Devices)
    → (set_offline_each ip eojs offline d).data_by_ip ≡ d.data_by_ip
unfolding set_offline_each
set_offline_each-data_by_ip ip [] offline d = refl
set_offline_each-data_by_ip ip (eoj ∷ eojs) offline d =
    set_offline_each-data_by_ip ip eojs offline _
    ∙ set_offline-data_by_ip (record { ip = ip; eoj = eoj }) offline d

remove-IsTable :
    (device : Device) (d : Devices)
    → IsTable d.data_by_ip
    → IsTable (remove_device device d).data_by_ip
unfolding remaining objects_at
remove-IsTable device d hs =
    same-IsTable _ _ (remove_device-data_by_ip device d)
      (elim (is_known_device device d)
        as (λ b. IsTable (
          if b
          then put_back device.ip (delete device.eoj (objects_at device.ip d)) d.data_by_ip
          else d.data_by_ip)) [
            | true ↦
                put_back-IsTable device.ip (delete device.eoj (objects_at device.ip d)) d.data_by_ip
                  (
                    delete-Distinct device.eoj (objects_at device.ip d) (hs.1 device.ip).0,
                    All-delete device.eoj (objects_at device.ip d) (hs.1 device.ip).1,
                  )
                  hs
            | false ↦ hs
          ])

pub forget_each-data_by_ip :
    (ip : Text) (eojs : List ℕ) (d : Devices) → (forget_each ip eojs d).data_by_ip ≡ d.data_by_ip
unfolding forget_each
forget_each-data_by_ip ip [] d = refl
forget_each-data_by_ip ip (eoj ∷ eojs) d =
    forget_each-data_by_ip ip eojs _ ∙ rw send-data_by_ip refl

remove_all-IsTable :
    (ip : Text) (d : Devices)
    → IsTable d.data_by_ip
    → IsTable (remove_all_devices_by_ip ip d).1.data_by_ip
unfolding remove_all_devices_by_ip
remove_all-IsTable ip d hs =
    same-IsTable _ (delete ip d.data_by_ip) (ap (delete ip) (forget_each-data_by_ip ip _ d))
      (delete-IsTable ip d.data_by_ip hs)

Step-IsTable : {a b : Devices} → Step a b → IsTable a.data_by_ip → IsTable b.data_by_ip
unfolding set_offline_by_ip
Step-IsTable (registers device d h) hs = ensure-IsTable device d h hs
Step-IsTable (registers_properties device ps now d h) hs = register-IsTable device ps now d h hs
Step-IsTable (sets_offline device offline d) hs =
    same-IsTable _ _ (set_offline-data_by_ip device offline d) hs
Step-IsTable (sets_offline_by_ip ip offline d) hs =
    same-IsTable _ _ (set_offline_each-data_by_ip ip (keys (objects_at ip d)) offline d) hs
Step-IsTable (removes device d) hs = remove-IsTable device d hs
Step-IsTable (removes_all ip d) hs = remove_all-IsTable ip d hs

Reaches-IsTable : {a b : Devices} → Reaches a b → IsTable a.data_by_ip → IsTable b.data_by_ip
Reaches-IsTable here hs = hs
Reaches-IsTable (next r s) hs = Step-IsTable s (Reaches-IsTable r hs)

-- In every store that calls of the operations of `Devices` make from an empty one, if the codes of the
-- devices they register have three bytes, no address and no object of an address comes twice, and
-- every object code has three bytes.
pub new_devices-IsTable :
    (room : Option ℕ) (d : Devices) → Reaches (new_devices room) d → IsTable d.data_by_ip
unfolding new_devices
new_devices-IsTable room d r = Reaches-IsTable r (unfold keys lookup in (tt, λ ip. (tt, tt)))
