-- ===== src/Handler/Instances.antt =====
-- The instance lists that nodes announce, and what they make of the store of devices:
-- `onInstanceList` and its kin in echonet_lite/handler/handler_communication.go, with the listings of
-- Devices.go. `parses` tells whether `net.ParseIP` reads an address; one it does not read is nil.
pub mod Members
pub mod Sync
pub mod Recovery
use echonet_list.Base.{
  ℕ, zero, suc, ◌+◌, Bool, true, false, not, ◌&&◌, List, [], ◌∷◌, ◌++◌, Option, none, some, ◌==◌,
  length, if◌then◌else◌,
}
use echonet_list.Base.Keys.{Text, ◌=?◌, nat_eq, text_eq}
use echonet_list.Base.Maps.{contains, keys, lookup}
use echonet_list.EchonetLite.Object.{node_profile_object}
use echonet_list.EchonetLite.Property.{edt_bytes}
use echonet_list.Handler.Identifiers.{Device, device_key}
use echonet_list.Handler.LocalObjects.{DeviceProperties, epc_get_property_map}
use echonet_list.Handler.Devices.{
  Devices, objects_at, is_known_device, is_offline, set_offline, ensure_device_exists,
  FilterCriteria, filter, remove_device, remove_all_devices_by_ip, at_ip,
}
use echonet_list.Handler.Node.{Packet, Node, start_get_properties_with_retry}

-- `String` of the nil address.
abbrev pub nil_ip : Text
nil_ip = b'<' ∷ b'n' ∷ b'i' ∷ b'l' ∷ b'>' ∷ []

unfoldable pub parse_ip : (Text → Bool) → Text → Text
parse_ip parses ip = if parses ip then ip else nil_ip

unfoldable pub list_each : (Text → Bool) → List (Text × DeviceProperties) → List Device
list_each parses [] = []
list_each parses ((ip, objects) ∷ table) =
    at_ip (parse_ip parses ip) (keys objects) ++ list_each parses table

-- `Devices.ListIPAndEOJ`
unfoldable pub list_ip_and_eoj : (Text → Bool) → Devices → List Device
list_ip_and_eoj parses d = list_each parses d.data_by_ip

-- `Devices.Len`: the number of addresses.
unfoldable pub len : Devices → ℕ
len d = length d.data_by_ip

unfoldable pub count_each : List (Text × DeviceProperties) → ℕ
count_each [] = 0
count_each ((ip, objects) ∷ table) = length objects + count_each table

-- `Devices.CountAll`
unfoldable pub count_all : Devices → ℕ
count_all d = count_each d.data_by_ip

-- `RegisterDevice`
unfoldable pub register_device : Device → Devices → Devices
register_device device d = ensure_device_exists device d

-- `DataManagementHandler.RemoveDevice`; none is its error.
unfoldable pub remove_known_device : Device → Devices → Option Devices
remove_known_device device d =
    if is_known_device device d then some (remove_device device d) else none

unfoldable pub by_ip : Text → FilterCriteria
by_ip ip = record {
  ip = some ip;
  class_filter = none;
  instance_filter = none;
  property_values = [];
  exclude_offline = false;
}

unfoldable pub device_keys : List Device → List Text
device_keys [] = []
device_keys (device ∷ devices) = device_key device ∷ device_keys devices

-- The devices of the address whose key is not in the new set.
unfoldable pub devices_to_remove : Text → List Text → List Device → List Device
devices_to_remove ip new_set [] = []
devices_to_remove ip new_set (device ∷ devices) =
    let rest = devices_to_remove ip new_set devices in
    if device.ip =? ip && not (contains new_set (device_key device)) then device ∷ rest else rest

-- An error of the removal is only logged.
unfoldable pub remove_each : List Device → Devices → Devices
remove_each [] d = d
remove_each (device ∷ devices) d =
    remove_each devices (elim (remove_known_device device d) [ none ↦ d | some d' ↦ d' ])

-- One round of the loop that registers the listed objects.
unfoldable pub register_online : Device → Devices → Devices
register_online device d =
    let d' = register_device device d in
    if is_offline device d' then set_offline device false d' else d'

unfoldable pub register_each : Text → List ℕ → Devices → Devices
register_each ip [] d = d
register_each ip (eoj ∷ eojs) d =
    register_each ip eojs (register_online (record { ip = ip; eoj = eoj }) d)

-- The list with the node profile object.
unfoldable pub with_node_profile : List ℕ → List ℕ
with_node_profile il = il ++ (node_profile_object ∷ [])

-- `onInstanceList` on the store.
unfoldable pub sync_instance_list : (Text → Bool) → Text → List ℕ → Devices → Devices
sync_instance_list parses ip il d =
    let existing = list_ip_and_eoj parses (filter parses (by_ip ip) d) in
    let new_set = device_keys (at_ip ip (with_node_profile il)) in
    register_each ip (with_node_profile il) (remove_each (devices_to_remove ip new_set existing) d)

-- `processInstanceListForOfflineRecovery`
unfoldable pub process_instance_list_for_offline_recovery : Text → List ℕ → Devices → Devices
process_instance_list_for_offline_recovery ip il d = register_each ip (with_node_profile il) d

-- `GetGetPropertyMap`; `callback` is the number of `onGetPropertyMap`.
unfoldable pub get_get_property_map : (Packet → Bool) → ℕ → Device → Node → Bool × Node
get_get_property_map works callback device n =
    start_get_properties_with_retry works device (epc_get_property_map ∷ []) callback n

unfoldable pub get_each_map : (Packet → Bool) → ℕ → Text → List ℕ → Node → Node
get_each_map works callback ip [] n = n
get_each_map works callback ip (eoj ∷ eojs) n =
    get_each_map works callback ip eojs
      (get_get_property_map works callback (record { ip = ip; eoj = eoj }) n).1

-- `onInstanceList`: it returns no error, since those of the requests are only logged.
unfoldable pub on_instance_list : (Packet → Bool) → (Text → Bool) → ℕ → Text → List ℕ → Node → Node
on_instance_list works parses callback ip il n =
    get_each_map works callback ip (with_node_profile il)
      (record n { devices = sync_instance_list parses ip il n.devices })

abbrev pub epc_id_number : ℕ
epc_id_number = 0x83

-- The node profile of an address has this identification number.
unfoldable pub has_id : List ℕ → DeviceProperties → Bool
has_id id_edt objects = elim (lookup node_profile_object objects) [
  | none ↦ false
  | some props ↦ elim (lookup epc_id_number props) [
    | none ↦ false
    | some p ↦ edt_bytes p.edt =? id_edt
  ]
]

unfoldable pub find_ips : List ℕ → Text → List (Text × DeviceProperties) → List Text
find_ips id_edt exclude_ip [] = []
find_ips id_edt exclude_ip ((ip, objects) ∷ table) =
    let rest = find_ips id_edt exclude_ip table in
    if not (ip =? exclude_ip) && has_id id_edt objects then ip ∷ rest else rest

-- `FindIPsWithSameNodeProfileID`
unfoldable pub find_ips_with_same_node_profile_id : List ℕ → Text → Devices → List Text
find_ips_with_same_node_profile_id [] exclude_ip d = []
find_ips_with_same_node_profile_id (b ∷ bs) exclude_ip d = find_ips (b ∷ bs) exclude_ip d.data_by_ip

-- One round of the loop of `migrateDevicesFromOldIP`.
unfoldable pub migrate_from : (Text → Bool) → Text → Devices → Devices
migrate_from parses old_ip d =
    if parses old_ip && is_offline (record { ip = old_ip; eoj = node_profile_object }) d
    then (remove_all_devices_by_ip old_ip d).1
    else d

unfoldable pub migrate_each : (Text → Bool) → List Text → Devices → Devices
migrate_each parses [] d = d
migrate_each parses (ip ∷ ips) d = migrate_each parses ips (migrate_from parses ip d)

-- `migrateDevicesFromOldIP`
unfoldable pub migrate_devices_from_old_ip : (Text → Bool) → Device → List ℕ → Devices → Devices
migrate_devices_from_old_ip parses device id_edt d =
    migrate_each parses (find_ips_with_same_node_profile_id id_edt device.ip d) d
