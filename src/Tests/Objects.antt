-- ===== src/Tests/Objects.antt =====
-- The objects of this node, identifiers and the device store, at concrete data.
use echonet_list.Base.{
  ok, length, ℕ, ◌<◌, ◌≡◌, ◌↔◌, refl, arith, Bool, true, ◌||◌, List, [], ◌∷◌, map, all, none, some,
  ◌==◌,
}
use echonet_list.Base.Keys.{Text, ◌=?◌, nat_eq, text_eq}
use echonet_list.Base.Maps.{contains, lookup, keys}
use echonet_list.EchonetLite.Object.{instance_code, class_code, node_profile_object}
use echonet_list.EchonetLite.Property.{Property}
use echonet_list.EchonetLite.PropertyMap.{has_epc, decode_map}
use echonet_list.Handler.LocalObjects.{
  DeviceProperties, properties_of, get, get_instance_list, set_properties, epc_get_property_map,
}
use echonet_list.Handler.LocalObjects.Laws.{IsMappable, writable, get-get_property_map}
use echonet_list.Handler.LocalObjects.Writes.{
  answer, last_write, set_properties_answers, set_properties_values,
}
use echonet_list.Handler.Identifiers.{Device, device_key}
use echonet_list.EchonetLite.Descriptions.{to_int}
use echonet_list.EchonetLite.NodeProfile.{decode_instance_list}
use echonet_list.Base.Int.{pos}
use echonet_list.Handler.LocalObjects.Profile.{
  ProfileError, self_node_instances, self_node_instance_list_s, instances_desc,
  update_profile_object_properties,
}
use echonet_list.Handler.LocalObjects.Profile.Announced.{update_profile_object_properties_lem}
use echonet_list.Handler.Devices.{Devices, FilterCriteria, objects_at, filter}
use echonet_list.Handler.Devices.Selection.{IsWanted, filter-IsWanted}

abbrev status : Property
status = record { epc = 0x80; edt = some (0x30 ∷ []) }

abbrev mode : Property
mode = record { epc = 0xb0; edt = some (0x41 ∷ []) }

abbrev cooling : Property
cooling = record { epc = 0xb0; edt = some (0x42 ∷ []) }

-- One air conditioner.
abbrev node : DeviceProperties
node = (0x013001, (0x80, status) ∷ (0xb0, mode) ∷ []) ∷ []

node-IsMappable : IsMappable 0x013001 node
unfolding properties_of lookup keys
node-IsMappable = (((omega arith, omega arith), ((omega arith, omega arith), tt)), omega arith)

set_properties_answers_example :
    ((set_properties 0x013001 (cooling ∷ status ∷ []) node).0
      ≡ map (answer (writable 0x013001 node)) (cooling ∷ status ∷ []))
    × ((set_properties 0x013001 (cooling ∷ status ∷ []) node).1
        ≡ all (λ p. writable 0x013001 node p.epc) (cooling ∷ status ∷ []))
set_properties_answers_example =
    set_properties_answers 0x013001 node node-IsMappable (cooling ∷ status ∷ [])
      (omega arith, (omega arith, tt))

set_properties_values_example :
    lookup 0xb0 (properties_of 0x013001 (set_properties 0x013001 (cooling ∷ status ∷ []) node).2)
    ≡ last_write
        (writable 0x013001 node)
        0xb0
        (cooling ∷ status ∷ [])
        (lookup 0xb0 (properties_of 0x013001 node))
unfolding instance_code
set_properties_values_example =
    set_properties_values 0x013001 node node-IsMappable (cooling ∷ status ∷ [])
      (omega arith, (omega arith, tt)) 0xb0 (omega arith)

get-get_property_map_example :
    (b m : List ℕ) × (get 0x013001 epc_get_property_map node
      ≡ some (record { epc = epc_get_property_map; edt = some b }))
    × (decode_map b ≡ some m)
    × ((x : ℕ)
        → x < 256
        → has_epc x m ≡ (
            x == 0x9d || x == 0x9e || x == 0x9f || contains (keys (properties_of 0x013001 node)) x))
unfolding properties_of lookup keys
get-get_property_map_example =
    get-get_property_map 0x013001 node
      ((omega arith, omega arith), ((omega arith, omega arith), tt)) (omega arith)

update_profile_object_properties_lem_example :
    (d' : DeviceProperties) × (count edt : List ℕ) × (update_profile_object_properties node ≡ ok d')
    × (lookup self_node_instances (properties_of node_profile_object d')
        ≡ some (record { epc = self_node_instances; edt = some count }))
    × (to_int {E = ProfileError} instances_desc count
        ≡ ok (some (pos (length (get_instance_list node)))))
    × (lookup self_node_instance_list_s (properties_of node_profile_object d')
        ≡ some (record { epc = self_node_instance_list_s; edt = some edt }))
    × (decode_instance_list {E = ProfileError} edt ≡ ok (some (get_instance_list node)))
unfolding get_instance_list class_code
update_profile_object_properties_lem_example =
    update_profile_object_properties_lem node (omega arith) (omega arith, tt)

-- "10.0.0.1" and "10.0.0.2"
abbrev ip_1 : Text
ip_1 = 49 ∷ 48 ∷ 46 ∷ 48 ∷ 46 ∷ 48 ∷ 46 ∷ 49 ∷ []

abbrev ip_2 : Text
ip_2 = 49 ∷ 48 ∷ 46 ∷ 48 ∷ 46 ∷ 48 ∷ 46 ∷ 50 ∷ []

abbrev cooler : Device
cooler = record { ip = ip_1; eoj = 0x013001 }

abbrev lamp : Device
lamp = record { ip = ip_2; eoj = 0x029101 }

abbrev store : Devices
store = record {
  data_by_ip = (ip_1, node) ∷ (ip_2, (0x029101, (0x80, status) ∷ []) ∷ []) ∷ [];
  timestamps = (device_key cooler, 5) ∷ [];
  offline_devices = (device_key lamp, tt) ∷ [];
  room = some 2;
  sent = [];
}

abbrev criteria : FilterCriteria
criteria = record {
  ip = none;
  class_filter = some 0x0130;
  instance_filter = none;
  property_values = mode ∷ [];
  exclude_offline = true;
}

-- `net.ParseIP`, on the two addresses.
abbrev parses : Text → Bool
parses ip = ip =? ip_1 || ip =? ip_2

filter-IsWanted_example :
    (lookup 0x013001 (objects_at ip_1 (filter parses criteria store))
      ≡ some ((0x80, status) ∷ (0xb0, mode) ∷ []))
    ↔ ((lookup 0x013001 (objects_at ip_1 store) ≡ some ((0x80, status) ∷ (0xb0, mode) ∷ []))
        × IsWanted parses criteria store ip_1 0x013001 ((0x80, status) ∷ (0xb0, mode) ∷ []))
unfolding objects_at lookup keys
filter-IsWanted_example =
    filter-IsWanted parses criteria store ip_1 0x013001 ((0x80, status) ∷ (0xb0, mode) ∷ [])
      (refl, (refl, tt)) (refl, tt)
