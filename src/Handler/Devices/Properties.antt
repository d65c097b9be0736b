-- ===== src/Handler/Devices/Properties.antt =====
-- What the store knows after a registration.
use echonet_list.Base.{
  ℕ, ◌≡◌, refl, ap, ◌∙◌, arith, Bool, true, ◌&&◌, List, [], ◌∷◌, ◌==◌, or_else, if◌then◌else◌,
  Bool-cases, inl, inr,
}
use echonet_list.Base.Keys.{Text, ◌=?◌, nat_eq, text_eq, text_beq_iff}
use echonet_list.Base.Maps.{lookup, has, insert, lookup-insert, has-lookup}
use echonet_list.EchonetLite.Property.{Property}
use echonet_list.Handler.Identifiers.{Device}
use echonet_list.Handler.LocalObjects.{EpcPropertyMap, DeviceProperties, set_all}
use echonet_list.Handler.LocalObjects.Writes.{last_write}
use echonet_list.Handler.Devices.{
  Devices, DeviceEvent, send, objects_at, ensure_device_exists, register_properties, get_property,
}

-- An event changes nothing but the channel.
pub send-data_by_ip : (e : DeviceEvent) (d : Devices) → (send e d).data_by_ip ≡ d.data_by_ip
unfolding send
send-data_by_ip e d = ground arith

pub send-timestamps : (e : DeviceEvent) (d : Devices) → (send e d).timestamps ≡ d.timestamps
unfolding send
send-timestamps e d = ground arith

pub send-offline_devices :
    (e : DeviceEvent) (d : Devices) → (send e d).offline_devices ≡ d.offline_devices
unfolding send
send-offline_devices e d = ground arith

abbrev pub always : ℕ → Bool
always epc = true

lookup-set_all :
    (epc : ℕ) (ps : List Property) (m : EpcPropertyMap)
    → lookup epc (set_all ps m) ≡ last_write always epc ps (lookup epc m)
unfolding set_all
lookup-set_all epc [] m = refl
lookup-set_all epc (p ∷ ps) m =
    lookup-set_all epc ps (insert p.epc p m)
    ∙ ap (last_write always epc ps) (lookup-insert p.epc epc p m ∙ ground arith)

-- The properties of an object, as `data_by_ip` holds them.
abbrev stored : List (Text × DeviceProperties) → Text → ℕ → EpcPropertyMap
stored table ip eoj = or_else (lookup eoj (or_else (lookup ip table) [])) []

stored-insert :
    (table : List (Text × DeviceProperties)) (ip ip' : Text) (eoj eoj' : ℕ) (m : EpcPropertyMap)
    → stored (insert ip (insert eoj m (or_else (lookup ip table) [])) table) ip' eoj'
      ≡ (if ip =? ip' && eoj == eoj' then m else stored table ip' eoj')
stored-insert table ip ip' eoj eoj' m = ground (
  arith,
  lookup-insert ip ip' (insert eoj m (or_else (lookup ip table) [])) table,
  lookup-insert eoj eoj' m (or_else (lookup ip table) []),
  text_beq_iff ip ip',
)

ensure_device_exists-stored :
    (device : Device) (d : Devices) (ip : Text) (eoj : ℕ)
    → stored (ensure_device_exists device d).data_by_ip ip eoj ≡ stored d.data_by_ip ip eoj
unfolding ensure_device_exists objects_at
ensure_device_exists-stored device d ip eoj =
    let objects : DeviceProperties = or_else (lookup device.ip d.data_by_ip) [] in
    elim (Bool-cases (has device.eoj objects)) [
      | inl there ↦ rw there refl
      | inr new ↦ rw new (
          rw send-data_by_ip (
            stored-insert d.data_by_ip device.ip ip device.eoj eoj []
            ∙ ground (arith, has-lookup device.eoj objects new, text_beq_iff device.ip ip)))
    ]

-- After `RegisterProperties` the device holds, for each code, the last property registered for it, or
-- what it held before; every other device holds what it held.
pub get_property-register_properties :
    (device other : Device) (ps : List Property) (now epc : ℕ) (d : Devices)
    → get_property other epc (register_properties device ps now d) ≡ (
        if device.ip =? other.ip && device.eoj == other.eoj
        then last_write always epc ps (get_property device epc d)
        else get_property other epc d)
unfolding get_property register_properties objects_at
get_property-register_properties device other ps now epc d =
    let d1 : Devices = ensure_device_exists device d in
    let old : EpcPropertyMap = stored d1.data_by_ip device.ip device.eoj in
    ap (lookup epc)
      (stored-insert d1.data_by_ip device.ip other.ip device.eoj other.eoj (set_all ps old))
    ∙ ground (
      arith,
      lookup-set_all epc ps old,
      ensure_device_exists-stored device d device.ip device.eoj,
      ensure_device_exists-stored device d other.ip other.eoj,
    )
