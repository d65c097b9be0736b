-- ===== src/Handler/LocalObjects/Profile.antt =====
-- The lists of objects and classes that the node profile announces: `UpdateProfileObjectProperties` in
-- echonet_lite/handler/Devices.go, with `PropertyFromInt` of echonet_lite/PropertyTables.go and the
-- entries of echonet_lite/prop_NodeProfileObject.go that it uses.
pub mod Announced
use echonet_list.Base.{ℕ, List, [], ◌∷◌, Option, none, some, Result, ok, err, panic, ◌>>=◌, length}
use echonet_list.Base.Int.{pos}
use echonet_list.Base.Keys.{nat_eq}
use echonet_list.Base.Maps.{insert, keys}
use echonet_list.EchonetLite.Object.{class_code, node_profile_object}
use echonet_list.EchonetLite.Property.{Property}
use echonet_list.EchonetLite.NodeProfile.{instance_list_edt, class_list_edt}
use echonet_list.EchonetLite.Descriptions.{NumberDesc, from_int}
use echonet_list.Handler.LocalObjects.{DeviceProperties, set, get_instance_list}

pub data ProfileError : Type 0 where
  bad_number no_instance : ProfileError

abbrev pub self_node_instances : ℕ
self_node_instances = 0xd3

abbrev pub self_node_classes : ℕ
self_node_classes = 0xd4

abbrev pub self_node_instance_list_s : ℕ
self_node_instance_list_s = 0xd6

abbrev pub self_node_class_list_s : ℕ
self_node_class_list_s = 0xd7

-- The entries of the property table for the two counts.
abbrev pub instances_desc : NumberDesc
instances_desc = record { min = pos 0; max = pos 16777215; offset = pos 0; unit = []; edt_len = 3 }

abbrev pub classes_desc : NumberDesc
classes_desc = record { min = pos 0; max = pos 65535; offset = pos 0; unit = []; edt_len = 2 }

-- `PropertyFromInt` for a code whose entry has the given description.
unfoldable pub property_from_int : ℕ → NumberDesc → ℕ → Result ProfileError Property
property_from_int epc desc value = from_int desc (pos value) >>= λ edt. elim edt [
  | none ↦ err bad_number
  | some b ↦ ok (record { epc = epc; edt = some b })
]

-- The keys of the map `classes`.
unfoldable pub add_classes : List ℕ → List (ℕ × Unit {0}) → List (ℕ × Unit {0})
add_classes [] classes = classes
add_classes (eoj ∷ eojs) classes = add_classes eojs (insert (class_code eoj) tt classes)

unfoldable pub set_result : Option DeviceProperties → Result ProfileError DeviceProperties
set_result none = err no_instance
set_result (some d) = ok d

-- `UpdateProfileObjectProperties`
unfoldable pub update_profile_object_properties :
    DeviceProperties → Result ProfileError DeviceProperties
update_profile_object_properties d =
    let eojs = get_instance_list d in
    let classes = keys (add_classes eojs []) in
    do
      instances ← property_from_int self_node_instances instances_desc (length eojs)
      class_count ← property_from_int self_node_classes classes_desc (length classes)
      eoj_bytes ← instance_list_edt eojs
      class_bytes ← class_list_edt classes
      set_result (
          set node_profile_object
            (instances
              ∷ record { epc = self_node_instance_list_s; edt = some eoj_bytes }
              ∷ class_count
              ∷ record { epc = self_node_class_list_s; edt = some class_bytes }
              ∷ [])
            d)
