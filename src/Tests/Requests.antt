-- ===== src/Tests/Requests.antt =====
-- Requests, retries and answers, at concrete sessions.
use echonet_list.Base.{
  ℕ, ◌+◌, ◌≡◌, ◌↔◌, refl, arith, Bool, true, false, not, ◌&&◌, ◌||◌, List, [], ◌∷◌, none, some,
  panic, length,
}
use echonet_list.Base.Keys.{nat_eq}
use echonet_list.Base.Maps.{contains}
use echonet_list.EchonetLite.Property.{Property}
use echonet_list.EchonetLite.Message.{Message}
use echonet_list.Handler.Identifiers.{Device}
use echonet_list.Handler.Session.{
  Session, callback_of, nobody, register_callback, is_answer, dispatch, dispatch_all,
  max_retries_reached, WaitEvent, timer, Wait, alive_since, wait_run, retry_run, epcs_of,
  update_failed_epcs, set_properties_response,
}
use echonet_list.Handler.Session.Dispatch.{finished_once}
use echonet_list.Handler.Session.Failures.{failures, failures-update_failed_epcs}
use echonet_list.Handler.Session.Retries.{
  timers, wait_run-gives_up, wait_run-alive, retry_run-gives_up,
}
use echonet_list.Handler.Session.Answers.{Unmatched, set_properties_response-panic_iff}

abbrev lamp : Device
lamp = record { ip = 49 ∷ []; eoj = 0x029101 }

abbrev session : Session
session = record {
  dispatch_table = [];
  has_inf_callback = true;
  has_receive_callback = false;
  tid = 6;
  eoj = 0x05ff01;
  max_retries = 3;
  failed_epcs = [];
  last_alive_time = [];
}

abbrev status : Property
status = record { epc = 0x80; edt = some (0x30 ∷ []) }

abbrev no_data : Property
no_data = record { epc = 0xb0; edt = none }

abbrev response : Message
response = record {
  ehd = 0x1081;
  tid = 7;
  seoj = 0x029101;
  deoj = 0x05ff01;
  esv = 0x72;
  properties = status ∷ no_data ∷ [];
  set_get_properties = [];
}

abbrev once : ℕ → Message → Bool
once callback m = true

-- An answer of another transaction.
abbrev foreign : Message
foreign = record response { tid = 8 }

finished_once_example :
    (answered : Session) × (dispatch once response
        (dispatch_all once (foreign ∷ []) (register_callback 7 (0x72 ∷ 0x52 ∷ []) 4 session))
      ≡ (callback_of 4, answered))
    × ((dispatch once response (dispatch_all once (foreign ∷ response ∷ []) answered)).0 ≡ nobody)
unfolding is_answer
finished_once_example =
    finished_once once (foreign ∷ []) (foreign ∷ response ∷ []) response response (0x72 ∷ 0x52 ∷ [])
      4 session ((λ same. absurd (omega arith)), tt) refl refl refl refl refl

failures-update_failed_epcs_example :
    contains (failures lamp (update_failed_epcs lamp (status ∷ []) (0xb0 ∷ []) session).1) 0xb0 ≡ (
      (contains (failures lamp session) 0xb0 && not (contains (epcs_of (status ∷ [])) 0xb0))
      || contains {K = ℕ} (0xb0 ∷ []) 0xb0)
failures-update_failed_epcs_example =
    failures-update_failed_epcs lamp (status ∷ []) (0xb0 ∷ []) session 0xb0

abbrev start : Wait
start = record { retry_count = 0; last_retry_time = 10; resends = 0 }

abbrev three_timers : List WaitEvent
three_timers = timer 20 none true ∷ timer 30 (some 15) true ∷ timer 40 (some 15) true ∷ []

abbrev lively : List WaitEvent
lively =
    timer 20 (some 15) true
    ∷ timer 30 (some 25) true
    ∷ timer 40 (some 35) true
    ∷ timer 50 (some 45) true
    ∷ []

wait_run-gives_up_example :
    ((wait_run 3 three_timers start).0 ≡ some max_retries_reached)
    × ((wait_run 3 three_timers start).1.retry_count ≡ 3)
    × ((wait_run 3 three_timers start).1.resends + start.retry_count + 1 ≡ start.resends + 3)
unfolding alive_since
wait_run-gives_up_example =
    wait_run-gives_up 3 three_timers start (refl, (refl, (refl, tt))) (omega arith) refl

wait_run-alive_example :
    ((wait_run 3 lively start).0 ≡ none)
    × ((wait_run 3 lively start).1.resends ≡ start.resends + length lively)
unfolding alive_since
wait_run-alive_example =
    wait_run-alive 3 lively start (omega arith) (refl, (refl, (refl, (refl, tt))))

retry_run-gives_up_example : retry_run 7 (timers 3) 0 session ≡ (true, session.max_retries, session)
retry_run-gives_up_example = retry_run-gives_up 7 3 0 session (omega arith) refl

-- A response with one property more than the request.
abbrev longer : Message
longer = record response { properties = status ∷ no_data ∷ [] }

set_properties_response-panic_iff_example :
    (set_properties_response (status ∷ []) longer ≡ panic)
    ↔ Unmatched (status ∷ []) 0 longer.properties
set_properties_response-panic_iff_example = set_properties_response-panic_iff (status ∷ []) longer

longer-panic : set_properties_response (status ∷ []) longer ≡ panic
longer-panic =
    (set_properties_response-panic_iff (status ∷ []) longer).1 (1, omega arith, no_data, refl, refl)
