-- ===== src/Handler/Registration.antt =====
-- The registration of properties with its notifications and hooks: `RegisterProperties` of
-- echonet_lite/handler/handler_data_management.go, and `ProcessPropertyUpdateHooks` of
-- handler_communication.go. `edt_string` is `Property.EDTString`, and `now` the time of the call.
pub mod Changes
use echonet_list.Base.{
  ℕ, Bool, true, false, not, ◌&&◌, List, [], ◌∷◌, Option, none, some, Result, ok, err, ◌>>=◌, ◌==◌,
  if◌then◌else◌,
}
use echonet_list.Base.Keys.{Text, ◌=?◌, nat_eq, text_eq}
use echonet_list.EchonetLite.Object.{class_code, node_profile_object}
use echonet_list.EchonetLite.Property.{Property, edt_bytes}
use echonet_list.EchonetLite.NodeProfile.{decode_instance_list}
use echonet_list.Handler.Identifiers.{Device}
use echonet_list.Handler.Devices.{Devices, get_property, register_properties}
use echonet_list.Handler.Core.{Channel, PropertyChange, relay_property_change_event}
use echonet_list.Handler.Node.{Node, CallbackError, not_decoded, epc_self_node_instance_list_s}
use echonet_list.Handler.Instances.{
  process_instance_list_for_offline_recovery, migrate_devices_from_old_ip, epc_id_number,
}

-- `ChangedProperty`
pub record ChangedProperty : Type 0 where
  pub epc : ℕ
  pub before_edt : Option (List ℕ)
  pub after_edt : Option (List ℕ)

-- `ChangedProperty.After`
unfoldable pub after : ChangedProperty → Property
after c = record { epc = c.epc; edt = c.after_edt }

-- The change of one property, if it is one and shows.
unfoldable pub change_of :
    (ℕ → Property → Text) → Device → Devices → Property → Option ChangedProperty
change_of edt_string device d p =
    let current = get_property device p.epc d in
    let before : Property = elim current [
      | none ↦ record { epc = p.epc; edt = some [] }
      | some q ↦ q
    ] in
    let same : Bool = elim current [ none ↦ false | some q ↦ edt_bytes q.edt =? edt_bytes p.edt ] in
    if not same
      && not (edt_string (class_code device.eoj) before =? edt_string (class_code device.eoj) p)
    then some (record { epc = p.epc; before_edt = before.edt; after_edt = p.edt })
    else none

-- The first loop of `detectAndRegisterPropertyChanges`.
unfoldable pub changed_properties :
    (ℕ → Property → Text) → Device → Devices → List Property → List ChangedProperty
changed_properties edt_string device d [] = []
changed_properties edt_string device d (p ∷ ps) =
    let rest = changed_properties edt_string device d ps in
    elim (change_of edt_string device d p) [ none ↦ rest | some c ↦ c ∷ rest ]

unfoldable pub relay_each :
    Device → List ChangedProperty → Channel PropertyChange → Channel PropertyChange
relay_each device [] c = c
relay_each device (change ∷ changes) c =
    relay_each device changes (relay_property_change_event device (after change) c)

-- `detectAndRegisterPropertyChanges`
unfoldable pub detect_and_register_property_changes :
    (ℕ → Property → Text) → Device → List Property → ℕ → Node → List ChangedProperty × Node
detect_and_register_property_changes edt_string device ps now n =
    let changes = changed_properties edt_string device n.devices ps in
    (
      changes,
      record n {
        devices = register_properties device ps now n.devices;
        property_changes = relay_each device changes n.property_changes;
      },
    )

-- `processInstanceListFromProperty`
unfoldable pub process_instance_list_from_property :
    Device → Property → Devices → Result CallbackError (Option CallbackError × Devices)
process_instance_list_from_property device p d = do
  list ← decode_instance_list (edt_bytes p.edt)
  elim list [
    | none ↦ ok (some not_decoded, d)
    | some il ↦ ok (none, process_instance_list_for_offline_recovery device.ip il d)
  ]

-- The loop of `ProcessPropertyUpdateHooks`: an instance list ends it.
unfoldable pub hook_each :
    (Text → Bool)
    → Device
    → List Property
    → Devices
    → Result CallbackError (Option CallbackError × Devices)
hook_each parses device [] d = ok (none, d)
hook_each parses device (p ∷ ps) d =
    let rest = hook_each parses device ps (
      if p.epc == epc_id_number
      then migrate_devices_from_old_ip parses device (edt_bytes p.edt) d
      else d) in
    if p.epc == epc_self_node_instance_list_s
    then process_instance_list_from_property device p d
    else rest

-- `ProcessPropertyUpdateHooks`
unfoldable pub process_property_update_hooks :
    (Text → Bool)
    → Device
    → List Property
    → Devices
    → Result CallbackError (Option CallbackError × Devices)
process_property_update_hooks parses device ps d =
    if device.eoj == node_profile_object then hook_each parses device ps d else ok (none, d)

-- `RegisterProperties`; an error of the hooks is only logged.
unfoldable pub register_with_hooks :
    (ℕ → Property → Text)
    → (Text → Bool)
    → Device
    → List Property
    → ℕ
    → Node
    → Result CallbackError (List ChangedProperty × Node)
register_with_hooks edt_string parses device ps now n0 =
    let (changes, n) = detect_and_register_property_changes edt_string device ps now n0 in
    do
      (error, d) ← process_property_update_hooks parses device ps n.devices
      ok (changes, record n { devices = d })
