-- ===== src/Handler/Receive.antt =====
-- The requests that other nodes send to the objects of this node: `onReceiveMessage` in
-- echonet_lite/handler/handler_communication.go.
pub mod Packets
pub mod Answers
pub mod Values
pub mod Delivery
use echonet_list.Base.{
  ℕ, Bool, true, false, not, ◌&&◌, ◌||◌, List, [], ◌∷◌, Option, none, some, ◌==◌, if◌then◌else◌,
}
use echonet_list.Base.Keys.{Text}
use echonet_list.EchonetLite.Esv
use echonet_list.EchonetLite.Property.{Property}
use echonet_list.EchonetLite.Message.{Message}
use echonet_list.Handler.LocalObjects.{
  DeviceProperties, get, get_properties, set_properties, find_eoj, is_announcement_target,
}
use echonet_list.Handler.Node.{Packet, Node, send_response, broadcast}

-- The two errors that `onReceiveMessage` returns.
pub data ReceiveError : Type 0 where
  object_not_found send_failed : ReceiveError

-- The result of `sendMessage`, as the error of the handler.
unfoldable pub sent_or_failed : Bool × Node → Option ReceiveError × Node
sent_or_failed (sent, n) = (if sent then none else some send_failed, n)

-- The properties that `sendAnnouncementForChangedProperties` collects, with their current values.
unfoldable pub announced : ℕ → List Property → DeviceProperties → List Property
announced eoj [] d = []
announced eoj (p ∷ ps) d =
    let rest = announced eoj ps d in
    if is_announcement_target eoj p.epc d
    then elim (get eoj p.epc d) [ none ↦ rest | some q ↦ q ∷ rest ]
    else rest

-- `sendAnnouncementForChangedProperties`; an error of the connection is only logged.
unfoldable pub send_announcement : (Packet → Bool) → ℕ → List Property → Node → Node
send_announcement works eoj ps n = elim (announced eoj ps n.local_devices) [
  | [] ↦ n
  | q ∷ qs ↦ (broadcast works eoj Esv.inf (q ∷ qs) n).1
]

-- `SetProperties` on the local objects, with the announcement that follows a full success.
unfoldable pub set_local : (Packet → Bool) → ℕ → List Property → Node → List Property × Bool × Node
set_local works eoj ps n =
    let (reps, success, d) = set_properties eoj ps n.local_devices in
    let n' : Node = record n { local_devices = d } in
    (reps, success, if success then send_announcement works eoj ps n' else n')

unfoldable pub receive_get :
    (Packet → Bool) → Text → ℕ → Message → Node → Option ReceiveError × Node
receive_get works ip eoj m n =
    let (reps, success) = get_properties eoj m.properties n.local_devices in
    sent_or_failed
      (send_response works ip m (if success then Esv.get_res else Esv.get_sna) reps [] n)

-- `SetC` and `SetI`: a SetI that succeeds is not answered.
unfoldable pub receive_set :
    (Packet → Bool) → Text → ℕ → Message → Node → Option ReceiveError × Node
receive_set works ip eoj m n =
    let (reps, success, n') = set_local works eoj m.properties n in
    if not (m.esv == Esv.set_i) || not success
    then sent_or_failed (
        send_response works ip m
          (if m.esv == Esv.set_c
            then if success then Esv.set_res else Esv.set_c_sna
            else Esv.set_i_sna)
          reps [] n')
    else (none, n')

unfoldable pub receive_set_get :
    (Packet → Bool) → Text → ℕ → Message → Node → Option ReceiveError × Node
receive_set_get works ip eoj m n =
    let (sets, set_success, d) = set_properties eoj m.properties n.local_devices in
    let (gets, get_success) = get_properties eoj m.set_get_properties d in
    let n' : Node = record n { local_devices = d } in
    sent_or_failed (
      send_response works ip m
        (if set_success && get_success then Esv.set_get_res else Esv.set_get_sna) sets gets
        (if set_success then send_announcement works eoj m.properties n' else n'))

-- `INF_REQ` is answered to all, a refusal to the sender alone.
unfoldable pub receive_inf_req :
    (Packet → Bool) → Text → ℕ → Message → Node → Option ReceiveError × Node
receive_inf_req works ip eoj m n =
    let (reps, success) = get_properties eoj m.properties n.local_devices in
    if success
    then sent_or_failed (broadcast works eoj Esv.inf reps n)
    else sent_or_failed (send_response works ip m Esv.inf_req_sna reps [] n)

-- The switch over the services, once the object is known.
unfoldable pub receive_for :
    (Packet → Bool) → Text → ℕ → Message → Node → Option ReceiveError × Node
receive_for works ip eoj m n =
    if m.esv == Esv.get
    then receive_get works ip eoj m n
    else if m.esv == Esv.set_c || m.esv == Esv.set_i
    then receive_set works ip eoj m n
    else if m.esv == Esv.set_get
    then receive_set_get works ip eoj m n
    else if m.esv == Esv.inf_req
    then receive_inf_req works ip eoj m n
    else (none, n)

-- `onReceiveMessage`: the first object that is found answers for all.
unfoldable pub on_receive_message :
    (Packet → Bool) → Text → Message → Node → Option ReceiveError × Node
on_receive_message works ip m n = elim (find_eoj m.deoj n.local_devices) [
  | [] ↦ (some object_not_found, n)
  | eoj ∷ _ ↦ receive_for works ip eoj (record m { deoj = eoj }) n
]
