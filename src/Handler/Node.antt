-- ===== src/Handler/Node.antt =====
-- The state that the handlers of echonet_lite/handler share, and what they send through the
-- session: `SendResponse`, `Broadcast` and the start of a Get request in Session.go.
-- A packet is kept as its message; `works` tells which packets the connection takes.
pub mod Panics
use echonet_list.Base.{
  ℕ, Bool, true, false, not, List, [], ◌∷◌, ◌++◌, Option, none, some, Result, ok, err, or_panic,
  ◌>>=◌, get_elem?, ◌==◌, if◌then◌else◌,
}
use echonet_list.Base.Keys.{Text}
use echonet_list.EchonetLite.Esv
use echonet_list.EchonetLite.Object.{node_profile_object}
use echonet_list.EchonetLite.Property.{Property, edt_bytes}
use echonet_list.EchonetLite.PropertyMap.{decode_map}
use echonet_list.EchonetLite.NodeProfile.{decode_instance_list}
use echonet_list.EchonetLite.Message.{Message}
use echonet_list.Handler.Identifiers.{Device}
use echonet_list.Handler.LocalObjects.{DeviceProperties, epc_get_property_map}
use echonet_list.Handler.Devices.{Devices}
use echonet_list.Handler.Core.{Channel, PropertyChange}
use echonet_list.Handler.Session.{
  Session, new_tid, register_callback, unregister_callback, create_get_property_message, classify,
}

pub data Packet : Type 0 where
  unicast : Text → Message → Packet
  multicast : Message → Packet

pub record Node : Type 0 where
  pub local_devices : DeviceProperties
  pub session : Session
  pub devices : Devices
  pub sent : List Packet
  pub property_changes : Channel PropertyChange

-- `sendMessage`: whether it was sent.
unfoldable pub send_message : (Packet → Bool) → Packet → Node → Bool × Node
send_message works p n =
    (works p, record n { sent = if works p then n.sent ++ (p ∷ []) else n.sent })

-- The message of `SendResponse`.
unfoldable pub response_to : Message → ℕ → List Property → List Property → Message
response_to m esv properties set_get_properties = record {
  ehd = 0;
  tid = m.tid;
  seoj = m.deoj;
  deoj = m.seoj;
  esv = esv;
  properties = properties;
  set_get_properties = set_get_properties;
}

unfoldable pub send_response :
    (Packet → Bool) → Text → Message → ℕ → List Property → List Property → Node → Bool × Node
send_response works ip m esv ps qs n = send_message works (unicast ip (response_to m esv ps qs)) n

-- `Broadcast`
unfoldable pub broadcast : (Packet → Bool) → ℕ → ℕ → List Property → Node → Bool × Node
broadcast works seoj esv ps n =
    let (t, s) = new_tid n.session in
    send_message works
      (multicast (record {
        ehd = 0;
        tid = t;
        seoj = seoj;
        deoj = node_profile_object;
        esv = esv;
        properties = ps;
        set_get_properties = [];
      }))
      (record n { session = s })

-- `prepareStartGetProperties`: the request, and the session with its registration.
unfoldable pub prepare_start_get_properties : Device → List ℕ → ℕ → Session → Message × Session
prepare_start_get_properties device epcs callback s =
    let (m, s') = create_get_property_message device epcs s in
    (m, register_callback m.tid (Esv.response_esvs m.esv) callback s')

-- `StartGetProperties`: the key of the registration, or none for the error of the connection.
unfoldable pub start_get_properties : (Packet → Bool) → Device → List ℕ → ℕ → Node → Option ℕ × Node
start_get_properties works device epcs callback n =
    let (m, s) = prepare_start_get_properties device epcs callback n.session in
    let (sent, n') = send_message works (unicast device.ip m) (record n { session = s }) in
    (if sent then some m.tid else none, n')

-- `StartGetPropertiesWithRetry` up to the start of its goroutine.
unfoldable pub start_get_properties_with_retry :
    (Packet → Bool) → Device → List ℕ → ℕ → Node → Bool × Node
start_get_properties_with_retry works device epcs callback n =
    let (m, s) = prepare_start_get_properties device epcs callback n.session in
    let (sent, n') = send_message works (unicast device.ip m) (record n { session = s }) in
    (sent, if sent then n' else record n' { session = unregister_callback m.tid n'.session })

-- What the registered callback hands on for an answer: success, the properties, the failed codes.
unfoldable pub callback_arguments : Message → Bool × List Property × List ℕ
callback_arguments m =
    let (good, bad) = classify m.properties in
    if m.esv == Esv.get_res then (true, m.properties, []) else (false, good, bad)

abbrev pub epc_self_node_instance_list_s : ℕ
epc_self_node_instance_list_s = 0xd6

pub data CallbackError : Type 0 where
  not_success unexpected_epc not_decoded invalid_property_map send_failed : CallbackError

-- `onSelfNodeInstanceListS` up to `onInstanceList`: the objects that are listed.
unfoldable pub self_node_instances : Bool → Property → Result CallbackError (List ℕ)
self_node_instances success p =
    if not success
    then err not_success
    else if not (p.epc == epc_self_node_instance_list_s)
    then err unexpected_epc
    else do
      list ← decode_instance_list (edt_bytes p.edt)
      elim list [ none ↦ err not_decoded | some eojs ↦ ok eojs ]

-- The callback of `GetSelfNodeInstanceListS`: `p[0]` is read before the success is looked at.
unfoldable pub instance_list_callback : Message → Result CallbackError (List ℕ)
instance_list_callback m =
    let (success, ps, failed) = callback_arguments m in
    do p ← or_panic (get_elem? ps 0); self_node_instances success p

unfoldable pub get_property_map_epcs : Property → Result CallbackError (List ℕ)
get_property_map_epcs p =
    if not (p.epc == epc_get_property_map) then ok [] else elim (decode_map (edt_bytes p.edt)) [
      | none ↦ err invalid_property_map
      | some epcs ↦ ok epcs
    ]

-- `onGetPropertyMap`: the codes to ask for next.
unfoldable pub get_property_map_callback : Bool → List Property → Result CallbackError (List ℕ)
get_property_map_callback success ps =
    if not success then ok [] else do p ← or_panic (get_elem? ps 0); get_property_map_epcs p

-- `onGetPropertyMap` with the request that it starts.
unfoldable pub on_get_property_map :
    (Packet → Bool) → Device → ℕ → Bool → List Property → Node → Result CallbackError (Bool × Node)
on_get_property_map works device callback success ps n = do
  epcs ← get_property_map_callback success ps
  elim epcs [
    | [] ↦ ok (true, n)
    | epc ∷ rest ↦ ok (start_get_properties_with_retry works device (epc ∷ rest) callback n)
  ]
