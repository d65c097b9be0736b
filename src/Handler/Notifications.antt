-- ===== src/Handler/Notifications.antt =====
-- The notifications of other nodes: `onInfMessage` in echonet_lite/handler/handler_communication.go.
pub mod Returns
pub mod Requests
pub mod Confirmation
pub mod Values
use echonet_list.Base.{
  ℕ, Bool, true, false, not, List, [], ◌∷◌, Option, none, some, Result, ok, err, panic, ◌>>=◌, ◌==◌,
  if◌then◌else◌,
}
use echonet_list.Base.Keys.{Text, nat_eq}
use echonet_list.EchonetLite.Esv
use echonet_list.EchonetLite.Object.{class_code, node_profile_class_code, node_profile_object}
use echonet_list.EchonetLite.Property.{Property, edt_bytes}
use echonet_list.EchonetLite.NodeProfile.{decode_instance_list}
use echonet_list.EchonetLite.Message.{Message}
use echonet_list.Handler.Identifiers.{Device}
use echonet_list.Handler.LocalObjects.{find_eoj}
use echonet_list.Handler.Devices.{has_ip, is_known_device, set_offline}
use echonet_list.Handler.Session.{signal_device_alive}
use echonet_list.Handler.Node.{
  Packet, Node, CallbackError, send_failed, send_response, start_get_properties,
  epc_self_node_instance_list_s, self_node_instances,
}
use echonet_list.Handler.Instances.{on_instance_list, get_get_property_map}
use echonet_list.Handler.Registration.{register_with_hooks}

-- What the handler is given: which packets the connection takes, which addresses are read and which
-- are the node's own, `EDTString`, and the numbers of the two callbacks that it registers.
pub record Environment : Type 0 where
  pub works : Packet → Bool
  pub parses : Text → Bool
  pub is_local : Text → Bool
  pub edt_string : ℕ → Property → Text
  pub list_callback : ℕ
  pub map_callback : ℕ

abbrev pub epc_instance_list_notification : ℕ
epc_instance_list_notification = 0xd5

-- What a handler returns: its error, if any, and the node after it.
abbrev pub InfResult : Type 0
InfResult = Result CallbackError (Option CallbackError × Node)

-- `GetSelfNodeInstanceListS` of one address: whether its request went out.
unfoldable pub get_self_node_instance_list_s : Environment → Text → Node → Bool × Node
get_self_node_instance_list_s env ip n =
    let (key, n') =
      start_get_properties env.works (record { ip = ip; eoj = node_profile_object })
        (epc_self_node_instance_list_s ∷ []) env.list_callback n in
    (elim key [ none ↦ false | some k ↦ true ], n')

-- The case of `EPC_NPO_InstanceListNotification`, which ends the loop.
unfoldable pub inf_of_instance_list :
    Environment
    → Text
    → Property
    → Node
    → Result CallbackError (Option (Option CallbackError) × Node)
inf_of_instance_list env ip p n = do
  list ← decode_instance_list (edt_bytes p.edt)
  elim list [
    | none ↦ ok (some none, n)
    | some il ↦ ok (some none, on_instance_list env.works env.parses env.map_callback ip il n)
  ]

-- The switch over one property of a node profile; `none` goes on to the next property.
unfoldable pub inf_of_node_profile_one :
    Environment
    → Text
    → Property
    → Node
    → Result CallbackError (Option (Option CallbackError) × Node)
inf_of_node_profile_one env ip p n =
    if p.epc == epc_self_node_instance_list_s
    then elim (self_node_instances true p) [
      | ok il ↦ ok (none, on_instance_list env.works env.parses env.map_callback ip il n)
      | err e ↦ ok (some (some e), n)
      | panic ↦ panic
    ]
    else if p.epc == epc_instance_list_notification
    then inf_of_instance_list env ip p n
    else ok (none, n)

unfoldable pub inf_of_node_profile : Environment → Text → List Property → Node → InfResult
inf_of_node_profile env ip [] n = ok (none, n)
inf_of_node_profile env ip (p ∷ ps) n = do
  (done, n') ← inf_of_node_profile_one env ip p n
  elim done [ none ↦ inf_of_node_profile env ip ps n' | some e ↦ ok (e, n') ]

-- The end of the branch of the other objects.
unfoldable pub inf_values : Environment → Device → List Property → ℕ → Node → InfResult
inf_values env device [] now n = ok (none, n)
inf_values env device (p ∷ ps) now n = do
  (changes, n') ← register_with_hooks env.edt_string env.parses device (p ∷ ps) now n
  ok (none, record n' { devices = set_offline device false n'.devices })

-- An unknown device is asked for its property map.
unfoldable pub inf_known : Environment → Device → List Property → ℕ → Node → InfResult
inf_known env device ps now n =
    let (sent, n') = get_get_property_map env.works env.map_callback device n in
    if is_known_device device n.devices
    then inf_values env device ps now n
    else if sent
    then inf_values env device ps now n'
    else ok (some send_failed, n')

-- An unknown address is asked for its instance list first.
unfoldable pub inf_of_other : Environment → Text → Message → ℕ → Node → InfResult
inf_of_other env ip m now n =
    let device : Device = record { ip = ip; eoj = m.seoj } in
    let (sent, n') = get_self_node_instance_list_s env ip n in
    if has_ip ip n.devices
    then inf_known env device m.properties now n
    else if sent
    then inf_known env device m.properties now n'
    else ok (some send_failed, n')

unfoldable pub without_values : List Property → List Property
without_values [] = []
without_values (p ∷ ps) = record { epc = p.epc; edt = none } ∷ without_values ps

-- The deferred answer to an INFC; its error is only logged.
unfoldable pub confirm : Environment → Text → Message → Node → Node
confirm env ip m n =
    if m.esv == Esv.infc
    then (send_response env.works ip m Esv.infc_res (without_values m.properties) [] n).1
    else n

unfoldable pub inf_body : Environment → Text → Message → ℕ → Node → InfResult
inf_body env ip m now n =
    if class_code m.seoj == node_profile_class_code
    then inf_of_node_profile env ip m.properties n
    else inf_of_other env ip m now n

-- The message to an object of this node, with the answer that is deferred.
unfoldable pub inf_for : Environment → Text → Message → ℕ → Node → InfResult
inf_for env ip m now n = do (e, n') ← inf_body env ip m now n; ok (e, confirm env ip m n')

-- `onInfMessage`
unfoldable pub on_inf_message : Environment → Text → Message → ℕ → Node → InfResult
on_inf_message env ip m now n =
    let n' : Node = record n {
      session = signal_device_alive (record { ip = ip; eoj = m.seoj }) now n.session;
    } in
    if env.is_local ip then ok (none, n) else elim (find_eoj m.deoj n'.local_devices) [
      | [] ↦ ok (none, n')
      | eoj ∷ _ ↦ inf_for env ip (record m { deoj = eoj }) now n'
    ]
