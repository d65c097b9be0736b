-- ===== src/Handler/Session.antt =====
-- Requests and their answers: echonet_lite/handler/Session.go.
-- Callbacks are numbered, and `finishes` tells what the numbered callback returns for a message.
-- A wait is a run over the events that its `select` receives.
pub mod Dispatch
pub mod Failures
pub mod Retries
pub mod Answers
use echonet_list.Base.{
  ℕ, zero, suc, ◌+◌, ◌/◌, ◌%◌, Bool, true, false, not, ◌&&◌, ◌||◌, List, [], ◌∷◌, ◌++◌, Option,
  none, some, Result, ok, err, or_panic, ◌>>=◌, get_elem?, ◌==◌, ltb, leb, or_else, if◌then◌else◌,
}
use echonet_list.Base.Keys.{Text, nat_eq, text_eq}
use echonet_list.Base.Maps.{contains, lookup, insert, delete}
use echonet_list.EchonetLite.Esv
use echonet_list.EchonetLite.Property.{Property}
use echonet_list.EchonetLite.Message.{Message}
use echonet_list.EchonetLite.Object.{class_code, instance_code}
use echonet_list.Handler.Identifiers.{Device, device_key, hex_digit, hex4}

-- `Entry` of the dispatch table, whose key is the transaction id.
pub record Entry : Type 0 where
  pub esvs : List ℕ
  pub callback : ℕ

pub record Session : Type 0 where
  pub dispatch_table : List (ℕ × Entry)
  pub has_inf_callback : Bool
  pub has_receive_callback : Bool
  pub tid : ℕ
  pub eoj : ℕ
  pub max_retries : ℕ
  pub failed_epcs : List (Text × List ℕ)
  pub last_alive_time : List (Text × ℕ)

-- Who is called for a message.
pub data Target : Type 0 where
  callback_of : ℕ → Target
  inf_callback receive_callback nobody : Target

-- `newTID`, on uint16.
unfoldable pub new_tid : Session → ℕ × Session
new_tid s = let t = (s.tid + 1) % 65536 in (t, record s { tid = t })

unfoldable pub register_callback : ℕ → List ℕ → ℕ → Session → Session
register_callback key esvs callback s = record s {
  dispatch_table = insert key (record { esvs = esvs; callback = callback }) s.dispatch_table;
}

unfoldable pub unregister_callback : ℕ → Session → Session
unregister_callback key s = record s { dispatch_table = delete key s.dispatch_table }

-- The three groups of the switch in `MainLoop`.
unfoldable pub is_answer : ℕ → Bool
is_answer e =
    e == Esv.set_res
    || e == Esv.set_i_sna
    || e == Esv.set_c_sna
    || e == Esv.get_res
    || e == Esv.get_sna
    || e == Esv.infc_res
    || e == Esv.inf_req_sna
    || e == Esv.set_get_res
    || e == Esv.set_get_sna

unfoldable pub is_inf : ℕ → Bool
is_inf e = e == Esv.inf || e == Esv.infc

unfoldable pub is_request : ℕ → Bool
is_request e = e == Esv.get || e == Esv.set_c || e == Esv.set_i || e == Esv.inf_req

-- The answer of a registered request; a callback that finishes is taken off the table.
unfoldable pub dispatch_answer : (ℕ → Message → Bool) → Message → Session → Target × Session
dispatch_answer finishes m s = elim (lookup m.tid s.dispatch_table) [
  | none ↦ (nobody, s)
  | some entry ↦
      if contains entry.esvs m.esv
      then (
        callback_of entry.callback,
        if finishes entry.callback m then unregister_callback m.tid s else s,
      )
      else (nobody, s)
]

-- One round of `MainLoop` on a message that was read.
unfoldable pub dispatch : (ℕ → Message → Bool) → Message → Session → Target × Session
dispatch finishes m s =
    if is_answer m.esv
    then dispatch_answer finishes m s
    else if is_inf m.esv
    then (if s.has_inf_callback then inf_callback else nobody, s)
    else if is_request m.esv
    then (if s.has_receive_callback then receive_callback else nobody, s)
    else (nobody, s)

-- The rounds of `MainLoop` on the messages that are read one after the other.
unfoldable pub dispatch_all : (ℕ → Message → Bool) → List Message → Session → Session
dispatch_all finishes [] s = s
dispatch_all finishes (m ∷ ms) s = dispatch_all finishes ms (dispatch finishes m s).1

unfoldable pub request_epcs : List ℕ → List Property
request_epcs [] = []
request_epcs (epc ∷ epcs) = record { epc = epc; edt = none } ∷ request_epcs epcs

-- `CreateGetPropertyMessage`; the header 0 is filled in by the encoder.
unfoldable pub create_get_property_message : Device → List ℕ → Session → Message × Session
create_get_property_message device epcs s =
    let (t, s') = new_tid s in
    (
      record {
        ehd = 0;
        tid = t;
        seoj = s'.eoj;
        deoj = device.eoj;
        esv = Esv.get;
        properties = request_epcs epcs;
        set_get_properties = [];
      },
      s',
    )

-- `CreateSetPropertyMessage`
unfoldable pub create_set_property_message : Device → List Property → Session → Message × Session
create_set_property_message device ps s =
    let (t, s') = new_tid s in
    (
      record {
        ehd = 0;
        tid = t;
        seoj = s'.eoj;
        deoj = device.eoj;
        esv = Esv.set_c;
        properties = ps;
        set_get_properties = [];
      },
      s',
    )

-- `makeAliveKey`, which is `"%s:%04X:%02X"`.
unfoldable pub make_alive_key : Device → Text
make_alive_key device =
    device.ip
    ++ (b':'
        ∷ (hex4 (class_code device.eoj)
            ++ (b':'
                ∷ hex_digit (instance_code device.eoj / 16 % 16)
                ∷ hex_digit (instance_code device.eoj % 16)
                ∷ [])))

-- `SignalDeviceAlive`
unfoldable pub signal_device_alive : Device → ℕ → Session → Session
signal_device_alive device now s = record s {
  last_alive_time = insert (make_alive_key device) now s.last_alive_time;
}

-- `getLastAliveTime`; none stands for the zero time.
unfoldable pub get_last_alive_time : Device → Session → Option ℕ
get_last_alive_time device s = lookup (make_alive_key device) s.last_alive_time

-- What `waitForResponseWithRetry` receives: the end of its context, the response, or its timer, with
-- the time, the last sign of life of the device (none before the first), and whether a resend works.
pub data WaitEvent : Type 0 where
  cancelled : WaitEvent
  response : Message → WaitEvent
  timer : (now : ℕ) → (last_alive : Option ℕ) → (sends : Bool) → WaitEvent

pub data Outcome : Type 0 where
  context_error max_retries_reached resend_failed : Outcome
  answered : Message → Outcome

-- The loop's variables, and the resends so far.
pub record Wait : Type 0 where
  pub retry_count : ℕ
  pub last_retry_time : ℕ
  pub resends : ℕ

-- `!lastAlive.IsZero() && lastAlive.After(lastRetryTime)`
unfoldable pub alive_since : Option ℕ → ℕ → Bool
alive_since none t = false
alive_since (some alive) t = ltb t alive

unfoldable pub next_retry_count : Option ℕ → Wait → ℕ
next_retry_count last_alive w =
    if alive_since last_alive w.last_retry_time then 0 else w.retry_count + 1

-- `none` for the outcome means that the wait goes on.
unfoldable pub wait_step : ℕ → WaitEvent → Wait → Option Outcome × Wait
wait_step max cancelled w = (some context_error, w)
wait_step max (response m) w = (some (answered m), w)
wait_step max (timer now last_alive sends) w =
    let count = next_retry_count last_alive w in
    let w' : Wait = record w { retry_count = count; last_retry_time = now } in
    if leb max count
    then (some max_retries_reached, w')
    else if sends
    then (none, record w' { resends = w.resends + 1 })
    else (some resend_failed, w')

-- `waitForResponseWithRetry` on the events up to its return.
unfoldable pub wait_run : ℕ → List WaitEvent → Wait → Option Outcome × Wait
wait_run max [] w = (none, w)
wait_run max (e ∷ es) w =
    let (done, w') = wait_step max e w in
    let rest = wait_run max es w' in elim done [ none ↦ rest | some o ↦ (some o, w') ]

-- The goroutine of `StartGetPropertiesWithRetry`: its context ends, or its timer fires.
pub data RetryEvent : Type 0 where
  context_done : RetryEvent
  retry_timer : (sends : Bool) → RetryEvent

-- The state is the retry count; the result tells whether the goroutine has returned. The timeout event
-- that it sends on `TimeoutCh` when it gives up is left out.
unfoldable pub retry_step : ℕ → RetryEvent → ℕ → Session → Bool × ℕ × Session
retry_step key context_done count s = (true, count, unregister_callback key s)
retry_step key (retry_timer sends) count s =
    if leb s.max_retries (count + 1) then (true, count + 1, s) else (not sends, count + 1, s)

unfoldable pub retry_run : ℕ → List RetryEvent → ℕ → Session → Bool × ℕ × Session
retry_run key [] count s = (false, count, s)
retry_run key (e ∷ es) count s =
    let (done, count', s') = retry_step key e count s in
    let rest = retry_run key es count' s' in if done then (true, count', s') else rest

-- The properties with an EDT, and the codes of those without.
unfoldable pub classify : List Property → List Property × List ℕ
classify [] = ([], [])
classify (p ∷ ps) =
    let (good, bad) = classify ps in
    elim p.edt [ none ↦ (good, p.epc ∷ bad) | some b ↦ (p ∷ good, bad) ]

unfoldable pub epcs_of : List Property → List ℕ
epcs_of [] = []
epcs_of (p ∷ ps) = p.epc ∷ epcs_of ps

-- The recorded failures without the codes that succeeded now.
unfoldable pub still_failed : List ℕ → List ℕ → List ℕ
still_failed succeeded [] = []
still_failed succeeded (epc ∷ epcs) =
    let rest = still_failed succeeded epcs in if contains succeeded epc then rest else epc ∷ rest

-- The failures that were not recorded yet, each once, and the list with them appended.
unfoldable pub add_failed : List ℕ → List ℕ → List ℕ × List ℕ
add_failed recorded [] = ([], recorded)
add_failed recorded (epc ∷ failed) =
    let known = contains recorded epc in
    let (newly, recorded') =
      add_failed (if known then recorded else recorded ++ (epc ∷ [])) failed in
    (if known then newly else epc ∷ newly, recorded')

unfoldable pub store_failed : Text → List ℕ → List (Text × List ℕ) → List (Text × List ℕ)
store_failed key [] m = delete key m
store_failed key (epc ∷ epcs) m = insert key (epc ∷ epcs) m

-- `updateFailedEPCs`
unfoldable pub update_failed_epcs : Device → List Property → List ℕ → Session → List ℕ × Session
update_failed_epcs device success failed s =
    let key = device_key device in
    let before = still_failed (epcs_of success) (or_else (lookup key s.failed_epcs) []) in
    let (newly, recorded) = add_failed before failed in
    (newly, record s { failed_epcs = store_failed key recorded s.failed_epcs })

-- `processGetPropertiesResponse`
unfoldable pub process_get_properties_response :
    Device → Message → Session → Bool × List Property × List ℕ × Session
process_get_properties_response device m s =
    let (good, bad) = classify m.properties in
    let (newly, s') = update_failed_epcs device good bad s in
    (m.esv == Esv.get_res, good, newly, s')

-- The loop of `SetProperties` over the response, from index `i` on: a nil EDT is a success, and the
-- request's property at that index is reported; past the request's end the index panics.
unfoldable pub classify_set :
    List Property → ℕ → List Property → Result (Unit {0}) (List Property × List ℕ)
classify_set requested i [] = ok ([], [])
classify_set requested i (p ∷ ps) = elim p.edt [
  | none ↦ do
    q ← or_panic (get_elem? requested i)
    (good, bad) ← classify_set requested (i + 1) ps
    ok (q ∷ good, bad)
  | some b ↦ do (good, bad) ← classify_set requested (i + 1) ps; ok (good, p.epc ∷ bad)
]

-- The end of `SetProperties`, once its response is there.
unfoldable pub set_properties_response :
    List Property → Message → Result (Unit {0}) (Bool × List Property × List ℕ)
set_properties_response requested m = do
  (good, bad) ← classify_set requested 0 m.properties
  ok (m.esv == Esv.set_res, good, bad)
