-- ===== src/Handler/Devices.antt =====
-- The store of the devices on the network: `Devices` in echonet_lite/handler/Devices.go.
-- Each method is one step, since it runs under the store's mutex.
pub mod Properties
pub mod Offline
pub mod Removal
pub mod Selection
pub mod Known
pub mod Tables
pub mod Reachable
pub mod Events
use echonet_list.Base.{
  ℕ, zero, suc, Bool, true, false, not, ◌&&◌, ◌||◌, List, [], ◌∷◌, ◌++◌, Option, none, some, any,
  ◌==◌, or_else, if◌then◌else◌,
}
use echonet_list.Base.Keys.{Text, ◌=?◌, nat_eq, text_eq}
use echonet_list.Base.Maps.{lookup, has, insert, delete, keys}
use echonet_list.EchonetLite.Object.{class_code, instance_code, node_profile_object}
use echonet_list.EchonetLite.Property.{Property, edt_bytes}
use echonet_list.Handler.Identifiers.{Device, device_key}
use echonet_list.Handler.LocalObjects.{EpcPropertyMap, DeviceProperties, set_all}

-- `DeviceEventType`
pub data EventType : Type 0 where
  added removed went_offline went_online : EventType

pub record DeviceEvent : Type 0 where
  pub device : Device
  pub event_type : EventType

-- `room` is none for a nil channel, and else the free slots of its buffer; `sent` is what went in.
pub record Devices : Type 0 where
  pub data_by_ip : List (Text × DeviceProperties)
  pub timestamps : List (Text × ℕ)
  pub offline_devices : List (Text × Unit {0})
  pub room : Option ℕ
  pub sent : List DeviceEvent

-- `select { case ch <- event: default: }`: without room the event is dropped.
unfoldable pub send : DeviceEvent → Devices → Devices
send e d = elim d.room [
  | none ↦ d
  | some n ↦ elim n [ zero ↦ d | suc m ↦ record d { room = some m; sent = d.sent ++ (e ∷ []) } ]
]

-- `d.data[ip]`, empty for a missing address.
unfoldable pub objects_at : Text → Devices → DeviceProperties
objects_at ip d = or_else (lookup ip d.data_by_ip) []

unfoldable pub has_ip : Text → Devices → Bool
has_ip ip d = has ip d.data_by_ip

unfoldable pub is_known_device : Device → Devices → Bool
is_known_device device d = has_ip device.ip d && has device.eoj (objects_at device.ip d)

unfoldable pub is_offline : Device → Devices → Bool
is_offline device d = has (device_key device) d.offline_devices

-- `SetOffline`
unfoldable pub set_offline : Device → Bool → Devices → Devices
set_offline device true d =
    let key = device_key device in
    if is_offline device d
    then d
    else send (record { device = device; event_type = went_offline })
        (record d { offline_devices = insert key tt d.offline_devices })
set_offline device false d =
    let key = device_key device in
    if is_offline device d
    then send (record { device = device; event_type = went_online })
        (record d { offline_devices = delete key d.offline_devices })
    else d

unfoldable pub set_offline_each : Text → List ℕ → Bool → Devices → Devices
set_offline_each ip [] offline d = d
set_offline_each ip (eoj ∷ eojs) offline d =
    set_offline_each ip eojs offline (set_offline (record { ip = ip; eoj = eoj }) offline d)

-- `SetOfflineByIP`: its loop body is that of `SetOffline`, for every object of the address.
unfoldable pub set_offline_by_ip : Text → Bool → Devices → Devices
set_offline_by_ip ip offline d = set_offline_each ip (keys (objects_at ip d)) offline d

-- `ensureDeviceExists`
unfoldable pub ensure_device_exists : Device → Devices → Devices
ensure_device_exists device d =
    if has device.eoj (objects_at device.ip d)
    then d
    else send (record { device = device; event_type = added })
        (record d {
          data_by_ip =
              insert device.ip (insert device.eoj [] (objects_at device.ip d)) d.data_by_ip;
        })

-- `RegisterProperties`; `now` is the time that the caller passes.
unfoldable pub register_properties : Device → List Property → ℕ → Devices → Devices
register_properties device ps now d0 =
    let d = ensure_device_exists device d0 in
    let objects = objects_at device.ip d in
    let props = or_else (lookup device.eoj objects) [] in
    record d {
      data_by_ip = insert device.ip (insert device.eoj (set_all ps props) objects) d.data_by_ip;
      timestamps = insert (device_key device) now d.timestamps;
    }

-- `RegisterProperty`
unfoldable pub register_property : Device → Property → ℕ → Devices → Devices
register_property device p now d = register_properties device (p ∷ []) now d

-- `GetProperty`
unfoldable pub get_property : Device → ℕ → Devices → Option Property
get_property device epc d = lookup epc (or_else (lookup device.eoj (objects_at device.ip d)) [])

-- `GetLastUpdateTime`; `none` stands for the zero time.
unfoldable pub get_last_update_time : Device → Devices → Option ℕ
get_last_update_time device d = lookup (device_key device) d.timestamps

-- `FilterCriteria`, with the fields of its `DeviceSpecifier`.
pub record FilterCriteria : Type 0 where
  pub ip : Option Text
  pub class_filter : Option ℕ
  pub instance_filter : Option ℕ
  pub property_values : List Property
  pub exclude_offline : Bool

unfoldable pub allows : Option ℕ → ℕ → Bool
allows none x = true
allows (some y) x = x == y

unfoldable pub allows_ip : Option Text → Text → Bool
allows_ip none ip = true
allows_ip (some wanted) ip = ip =? wanted

-- Some wanted property is there with that very value.
unfoldable pub value_matches : List Property → EpcPropertyMap → Bool
value_matches [] props = false
value_matches (p ∷ ps) props =
    elim (lookup p.epc props) [ none ↦ false | some q ↦ edt_bytes q.edt =? edt_bytes p.edt ]
    || value_matches ps props

unfoldable pub no_filter : List Property → Bool
no_filter [] = true
no_filter (p ∷ ps) = false

-- The tests on one object in the loop of `Filter`. `parses ip` tells whether `net.ParseIP` reads `ip`.
unfoldable pub matches : (Text → Bool) → FilterCriteria → Devices → Text → ℕ → EpcPropertyMap → Bool
matches parses c d ip eoj props =
    allows c.class_filter (class_code eoj)
    && allows c.instance_filter (instance_code eoj)
    && not (c.exclude_offline && parses ip && is_offline (record { ip = ip; eoj = eoj }) d)
    && (no_filter c.property_values || value_matches c.property_values props)

unfoldable pub select : (ℕ → EpcPropertyMap → Bool) → DeviceProperties → DeviceProperties
select keep [] = []
select keep ((eoj, props) ∷ objects) =
    let rest = select keep objects in if keep eoj props then (eoj, props) ∷ rest else rest

-- An address without a selected object gets no entry.
unfoldable pub keep_nonempty :
    Text → DeviceProperties → List (Text × DeviceProperties) → List (Text × DeviceProperties)
keep_nonempty ip [] rest = rest
keep_nonempty ip (o ∷ objects) rest = (ip, o ∷ objects) ∷ rest

unfoldable pub filter_data :
    (Text → Bool)
    → FilterCriteria
    → Devices
    → List (Text × DeviceProperties)
    → List (Text × DeviceProperties)
filter_data parses c d [] = []
filter_data parses c d ((ip, objects) ∷ data_by_ip) =
    let rest = filter_data parses c d data_by_ip in
    if allows_ip c.ip ip
    then keep_nonempty ip (select (matches parses c d ip) objects) rest
    else rest

-- `Filter`: the result is a new store with nothing but the selected data.
unfoldable pub filter : (Text → Bool) → FilterCriteria → Devices → Devices
filter parses c d = record {
  data_by_ip = filter_data parses c d d.data_by_ip;
  timestamps = [];
  offline_devices = [];
  room = none;
  sent = [];
}

-- `delete(d.data, ip)` when the last object of an address goes.
unfoldable pub put_back :
    Text → DeviceProperties → List (Text × DeviceProperties) → List (Text × DeviceProperties)
put_back ip [] data_by_ip = delete ip data_by_ip
put_back ip (o ∷ objects) data_by_ip = insert ip (o ∷ objects) data_by_ip

-- `RemoveDevice`
unfoldable pub remove_device : Device → Devices → Devices
remove_device device d =
    let known = is_known_device device d in
    let cleared : Devices = record d {
      data_by_ip =
          if known
          then put_back device.ip (delete device.eoj (objects_at device.ip d)) d.data_by_ip
          else d.data_by_ip;
      timestamps = delete (device_key device) d.timestamps;
      offline_devices = delete (device_key device) d.offline_devices;
    } in
    if known then send (record { device = device; event_type = removed }) cleared else cleared

unfoldable pub forget_each : Text → List ℕ → Devices → Devices
forget_each ip [] d = d
forget_each ip (eoj ∷ eojs) d =
    let device : Device = record { ip = ip; eoj = eoj } in
    forget_each ip eojs (
      send (record { device = device; event_type = removed })
        (record d {
          timestamps = delete (device_key device) d.timestamps;
          offline_devices = delete (device_key device) d.offline_devices;
        }))

unfoldable pub at_ip : Text → List ℕ → List Device
at_ip ip [] = []
at_ip ip (eoj ∷ eojs) = record { ip = ip; eoj = eoj } ∷ at_ip ip eojs

-- `RemoveAllDevicesByIP`, with the list of the removed devices.
unfoldable pub remove_all_devices_by_ip : Text → Devices → List Device × Devices
remove_all_devices_by_ip ip d =
    let eojs = keys (objects_at ip d) in
    let d' = forget_each ip eojs d in
    (at_ip ip eojs, record d' { data_by_ip = delete ip d'.data_by_ip })
