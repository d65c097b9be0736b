-- ===== src/Handler/Receive/Delivery.antt =====
-- From a Get request of one node, over the wire, to the callback that its answer reaches.
use echonet_list.Base.{
  ℕ, suc, ◌<◌, ◌^◌, ◌≡◌, refl, ap, arith, Bool, true, false, List, [], ◌∷◌, ◌++◌, map, none, ok,
  ◌>>=◌, length, all, All, ◌==◌, if◌then◌else◌, Bool-cases, inl, inr,
}
use echonet_list.Base.Keys.{Text, nat_eq}
use echonet_list.Base.Maps.{contains}
use echonet_list.EchonetLite.Esv
use echonet_list.EchonetLite.Esv.{response_esvs, is_set_get}
use echonet_list.EchonetLite.Message.{Message, parse_message, encode_message}
use echonet_list.EchonetLite.Message.RoundTrip.{
  received, IsSendable, header, parse_message-encode_message,
}
use echonet_list.Handler.Identifiers.{Device}
use echonet_list.Handler.LocalObjects.{DeviceProperties, get_properties, find_eoj}
use echonet_list.Handler.Session.{
  Session, callback_of, request_epcs, create_get_property_message, is_answer, dispatch,
}
use echonet_list.Handler.Session.Dispatch.{dispatch-register_callback}
use echonet_list.Handler.Node.{
  Packet, unicast, Node, send_message, response_to, send_response, prepare_start_get_properties,
  callback_arguments,
}
use echonet_list.Handler.Receive.{sent_or_failed, receive_get, receive_for, on_receive_message}
use echonet_list.Handler.Receive.Values.{
  reps, reps-received, success-all, length-reps, reps-Fits, value_of, found, answer_of, handed_on,
}

-- The answer that goes out for the request `m` of codes `epcs`.
abbrev pub get_answer : ℕ → DeviceProperties → List ℕ → Message → Message
get_answer eoj d epcs m =
    let (reps, success) = get_properties eoj (request_epcs epcs) d in
    response_to (record m { deoj = eoj }) (if success then Esv.get_res else Esv.get_sna) reps []

request_epcs-received : (epcs : List ℕ) → map received (request_epcs epcs) ≡ request_epcs epcs
unfolding request_epcs
request_epcs-received [] = refl
request_epcs-received (epc ∷ epcs) =
    ap (◌∷◌ (record { epc = epc; edt = none })) (request_epcs-received epcs)

-- `onReceiveMessage` on a Get request.
on_receive_message-get :
    (works : Packet → Bool) (ip : Text) (m : Message) (n : Node) (epcs : List ℕ) (eoj : ℕ)
    (others : List ℕ)
    → m.esv ≡ Esv.get
    → m.properties ≡ request_epcs epcs
    → find_eoj m.deoj n.local_devices ≡ eoj ∷ others
    → works (unicast ip (get_answer eoj n.local_devices epcs m)) ≡ true
    → on_receive_message works ip m n ≡ (
      none,
      record n { sent = n.sent ++ (unicast ip (get_answer eoj n.local_devices epcs m) ∷ []) },
    )
unfolding on_receive_message receive_for receive_get sent_or_failed send_response send_message
    response_to
on_receive_message-get works ip m n epcs eoj others service asked known takes =
    let is_get : (m.esv == Esv.get) ≡ true = ground arith in
    let answered : receive_get works ip eoj (record m { deoj = eoj }) n ≡ (
      none,
      record n { sent = n.sent ++ (unicast ip (get_answer eoj n.local_devices epcs m) ∷ []) },
    ) =
      rw (receive_get, asked, takes) refl in
    rw (on_receive_message, known, receive_for, is_get) answered

callback_arguments-answer :
    (eoj : ℕ) (d : DeviceProperties) (epcs : List ℕ) (r : Message)
    → r.esv ≡ (if all (found eoj d) epcs then Esv.get_res else Esv.get_sna)
    → r.properties ≡ map (answer_of eoj d) epcs
    → callback_arguments r ≡ handed_on eoj d epcs
unfolding callback_arguments
callback_arguments-answer eoj d epcs r service answers =
    elim (Bool-cases (all (found eoj d) epcs)) [
      | inl success ↦
          let res : (r.esv == Esv.get_res) ≡ true = ground arith in rw (res, success, answers) refl
      | inr failure ↦
          let sna : (r.esv == Esv.get_res) ≡ false = ground arith in rw (sna, failure, answers) refl
    ]

get_answer-IsSendable :
    (eoj : ℕ) (d : DeviceProperties) (epcs : List ℕ) (m : Message)
    → m.tid < 65536
    → m.seoj < 2 ^ 24
    → eoj < 2 ^ 24
    → length epcs < 256
    → All (λ epc. length (value_of eoj d epc) < 256) epcs
    → IsSendable (get_answer eoj d epcs m)
unfolding response_to reps
get_answer-IsSendable eoj d epcs m tid seoj deoj count fits = record {
  ehd_fits = omega arith;
  tid_fits = tid;
  seoj_fits = deoj;
  deoj_fits = seoj;
  count_fits = omega (arith, length-reps eoj d epcs);
  edts_fit = reps-Fits eoj d epcs fits;
}

service_of : Bool → ℕ
service_of success = if success then Esv.get_res else Esv.get_sna

service_of-is_answer : (b : Bool) → is_answer (service_of b) ≡ true
unfolding service_of is_answer
service_of-is_answer true = refl
service_of-is_answer false = refl

service_of-awaited : (b : Bool) → contains (response_esvs Esv.get) (service_of b) ≡ true
unfolding service_of response_esvs
service_of-awaited true = refl
service_of-awaited false = refl

service_of-not_set_get : (b : Bool) → is_set_get (service_of b) ≡ false
unfolding service_of is_set_get
service_of-not_set_get true = refl
service_of-not_set_get false = refl

length-request_epcs : (epcs : List ℕ) → length (request_epcs epcs) ≡ length epcs
unfolding request_epcs
length-request_epcs [] = refl
length-request_epcs (epc ∷ epcs) = ap suc (length-request_epcs epcs)

-- The message that a reader finds in place of `m`.
abbrev pub transmitted : Message → Message
transmitted m = record m {
  ehd = header m;
  properties = map received m.properties;
  set_get_properties = [];
}

-- A Get request of `device` travels to a node, and the node's answer back: if both fit their fields
-- and the node has the object and can send, then the node sends the answer alone and changes
-- nothing else, the answer reaches the registered callback and nobody else, whatever was
-- registered before, and that callback is handed, in the order of the request: success and every
-- value if the object has all the codes, and else the values with bytes and the codes without.
pub get_properties_delivered :
    (works : Packet → Bool) (finishes : ℕ → Message → Bool) (device : Device) (ip : Text)
    (epcs : List ℕ) (callback : ℕ) (s : Session) (n : Node) (eoj : ℕ) (others : List ℕ)
    → IsSendable (prepare_start_get_properties device epcs callback s).0
    → find_eoj device.eoj n.local_devices ≡ eoj ∷ others
    → eoj < 2 ^ 24
    → All (λ epc. length (value_of eoj n.local_devices epc) < 256) epcs
    → ((r : Message) → works (unicast ip r) ≡ true)
    → (request : Message) × (answer : Message) × (arrived : Message) × ((encode_message
            (prepare_start_get_properties device epcs callback s).0
          >>= parse_message)
        ≡ ok request)
      × (on_receive_message works ip request n
          ≡ (none, record n { sent = n.sent ++ (unicast ip answer ∷ []) }))
      × ((encode_message answer >>= parse_message) ≡ ok arrived)
      × ((dispatch finishes arrived (prepare_start_get_properties device epcs callback s).1).0
          ≡ callback_of callback)
      × (callback_arguments arrived ≡ handed_on eoj n.local_devices epcs)
unfolding prepare_start_get_properties create_get_property_message service_of response_to
get_properties_delivered works finishes device ip epcs callback s n eoj others sendable known fits
      values works_for =
    let m : Message = (prepare_start_get_properties device epcs callback s).0 in
    let request : Message = transmitted m in
    let answer : Message = get_answer eoj n.local_devices epcs request in
    let count : length epcs < 256 = omega (arith, length-request_epcs epcs, sendable.count_fits) in
    let service : answer.esv ≡ service_of (all (found eoj n.local_devices) epcs) =
      ap service_of (success-all eoj n.local_devices epcs) in
    (
      request,
      answer,
      transmitted answer,
      parse_message-encode_message m sendable (unfold is_set_get in refl),
      on_receive_message-get works ip request n epcs eoj others refl (request_epcs-received epcs)
          known (works_for answer),
      parse_message-encode_message answer
          (get_answer-IsSendable eoj n.local_devices epcs request sendable.tid_fits
            sendable.seoj_fits fits count values)
          (service_of-not_set_get _),
      ap (λ r. r.0)
          (dispatch-register_callback finishes (transmitted answer) (response_esvs Esv.get) callback
            _ (service_of-is_answer _) (service_of-awaited _)),
      callback_arguments-answer eoj n.local_devices epcs (transmitted answer) service
          (unfold reps in reps-received eoj n.local_devices epcs),
    )
