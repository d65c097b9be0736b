-- ===== src/Handler/Session/Retries.antt =====
-- How long a wait goes on, and what the retry goroutine leaves behind.
use echonet_list.Base.{
  ℕ, zero, suc, ◌+◌, ◌<◌, ◌≡◌, refl, ap, ◌∙◌, arith, true, false, List, [], ◌∷◌, ◌++◌, Option, none,
  some, length, leb, Bool-cases, inl, inr,
}
use echonet_list.Base.Keys.{nat_eq}
use echonet_list.Handler.Session.{
  Session, Outcome, max_retries_reached, WaitEvent, timer, Wait, alive_since, next_retry_count,
  wait_step, wait_run, RetryEvent, context_done, retry_timer, unregister_callback, retry_step,
  retry_run,
}

-- No timer of the list sees a sign of life since the round before it, and each resend works.
abbrev pub AllSilent : ℕ → List WaitEvent → Type 0
AllSilent t [] = Unit {0}
AllSilent t (timer now last_alive true ∷ es) = (alive_since last_alive t ≡ false) × AllSilent now es
AllSilent t (e ∷ es) = ⊥

continues :
    (max : ℕ) (e : WaitEvent) (es : List WaitEvent) (w : Wait) {w' : Wait}
    → wait_step max e w ≡ (none, w')
    → wait_run max (e ∷ es) w ≡ wait_run max es w'
unfolding wait_run
continues max e es w h = rw (wait_run, h) (rw h refl)

ends :
    (max : ℕ) (e : WaitEvent) (es : List WaitEvent) (w : Wait) {w' : Wait} {o : Outcome}
    → wait_step max e w ≡ (some o, w')
    → wait_run max (e ∷ es) w ≡ (some o, w')
unfolding wait_run
ends max e es w h = rw (wait_run, h) (rw h refl)

-- The state after a timer whose resend works.
abbrev resent : ℕ → ℕ → Wait → Wait
resent count now w = record { retry_count = count; last_retry_time = now; resends = w.resends + 1 }

silent_step :
    (max now : ℕ) (last_alive : Option ℕ) (w : Wait)
    → alive_since last_alive w.last_retry_time ≡ false
    → leb max (w.retry_count + 1) ≡ false
    → wait_step max (timer now last_alive true) w ≡ (none, resent (w.retry_count + 1) now w)
unfolding wait_step next_retry_count
silent_step max now last_alive w quiet more = rw (wait_step, quiet, more) refl

last_step :
    (max now : ℕ) (last_alive : Option ℕ) (w : Wait)
    → alive_since last_alive w.last_retry_time ≡ false
    → leb max (w.retry_count + 1) ≡ true
    → wait_step max (timer now last_alive true) w ≡ (
      some max_retries_reached,
      record w { retry_count = w.retry_count + 1; last_retry_time = now },
    )
unfolding wait_step next_retry_count
last_step max now last_alive w quiet last = rw (wait_step, quiet, last) refl

alive_step :
    (max now : ℕ) (last_alive : Option ℕ) (w : Wait)
    → 0 < max
    → alive_since last_alive w.last_retry_time ≡ true
    → wait_step max (timer now last_alive true) w ≡ (none, resent 0 now w)
unfolding wait_step next_retry_count
alive_step max now last_alive w h alive =
    let goes : leb max 0 ≡ false = ground arith in rw (wait_step, alive, goes) refl

-- While no timer sees a sign of life of the device since the round before it, each resend works,
-- and the count stays below `max`, the wait goes on, and every timer has sent the request once
-- more.
wait_run-silent :
    (max : ℕ) (es : List WaitEvent) (w : Wait)
    → AllSilent w.last_retry_time es
    → w.retry_count + length es < max
    → ((wait_run max es w).0 ≡ none)
      × ((wait_run max es w).1.retry_count ≡ w.retry_count + length es)
      × ((wait_run max es w).1.resends ≡ w.resends + length es)
wait_run-silent max [] w h lt = unfold wait_run in (refl, omega arith, omega arith)
wait_run-silent max (timer now last_alive true ∷ es) w (quiet, h) lt =
    let (e1, e2, e3) = wait_run-silent max es (resent (w.retry_count + 1) now w) h (omega arith) in
    rw
      (continues max (timer now last_alive true) es w
        (silent_step max now last_alive w quiet (ground arith)))
      (e1, omega (arith, e2), omega (arith, e3))
wait_run-silent max (timer now last_alive false ∷ es) w h lt = absurd h
wait_run-silent max (WaitEvent.cancelled ∷ es) w h lt = absurd h
wait_run-silent max (WaitEvent.response m ∷ es) w h lt = absurd h

-- A wait whose count is below `max` gives up at the timer that brings the count to `max`, when no
-- timer sees a sign of life of the device since the round before it and each resend works. By then
-- it has resent the request at every timer but the last.
pub wait_run-gives_up :
    (max : ℕ) (es : List WaitEvent) (w : Wait)
    → AllSilent w.last_retry_time es
    → w.retry_count < max
    → w.retry_count + length es ≡ max
    → ((wait_run max es w).0 ≡ some max_retries_reached)
      × ((wait_run max es w).1.retry_count ≡ max)
      × ((wait_run max es w).1.resends + w.retry_count + 1 ≡ w.resends + max)
wait_run-gives_up max [] w h lt e = absurd (omega arith)
wait_run-gives_up max (timer now last_alive true ∷ es) w (quiet, h) lt e =
    elim (Bool-cases (leb max (w.retry_count + 1))) [
      | inl last ↦
          rw (ends max (timer now last_alive true) es w (last_step max now last_alive w quiet last))
            (refl, ground arith, ground arith)
      | inr more ↦
          let (e1, e2, e3) =
            wait_run-gives_up max es (resent (w.retry_count + 1) now w) h (ground arith)
              (omega arith) in
          rw
            (continues max (timer now last_alive true) es w
              (silent_step max now last_alive w quiet more))
            (e1, e2, omega (arith, e3))
    ]
wait_run-gives_up max (timer now last_alive false ∷ es) w h lt e = absurd h
wait_run-gives_up max (WaitEvent.cancelled ∷ es) w h lt e = absurd h
wait_run-gives_up max (WaitEvent.response m ∷ es) w h lt e = absurd h

-- Every timer of the list sees a sign of life since the round before it, and its resend works.
abbrev pub AllAlive : ℕ → List WaitEvent → Type 0
AllAlive t [] = Unit {0}
AllAlive t (timer now last_alive true ∷ es) = (alive_since last_alive t ≡ true) × AllAlive now es
AllAlive t (e ∷ es) = ⊥

-- As long as every timer sees a sign of life of the device since the round before it and each
-- resend works, a wait with at least one retry never ends, however many timers fire.
pub wait_run-alive :
    (max : ℕ) (es : List WaitEvent) (w : Wait)
    → 0 < max
    → AllAlive w.last_retry_time es
    → ((wait_run max es w).0 ≡ none) × ((wait_run max es w).1.resends ≡ w.resends + length es)
wait_run-alive max [] w lt h = unfold wait_run in (refl, omega arith)
wait_run-alive max (timer now last_alive true ∷ es) w lt (alive, h) =
    let (e1, e2) = wait_run-alive max es (resent 0 now w) lt h in
    rw (continues max (timer now last_alive true) es w (alive_step max now last_alive w lt alive))
      (e1, omega (arith, e2))
wait_run-alive max (timer now last_alive false ∷ es) w lt h = absurd h
wait_run-alive max (WaitEvent.cancelled ∷ es) w lt h = absurd h
wait_run-alive max (WaitEvent.response m ∷ es) w lt h = absurd h

-- `n` timers whose resends work.
abbrev pub timers : ℕ → List RetryEvent
timers zero = []
timers (suc n) = retry_timer true ∷ timers n

-- When the resends work, the goroutine of `StartGetPropertiesWithRetry` with a count below the
-- maximum returns at the timer that brings the count to the maximum, and leaves the session as it
-- was: its callback stays in the dispatch table.
pub retry_run-gives_up :
    (key n count : ℕ) (s : Session)
    → count < s.max_retries
    → count + n ≡ s.max_retries
    → retry_run key (timers n) count s ≡ (true, s.max_retries, s)
unfolding retry_run retry_step
retry_run-gives_up key zero count s lt e = absurd (omega arith)
retry_run-gives_up key (suc n) count s lt e = elim (Bool-cases (leb s.max_retries (count + 1))) [
  | inl last ↦
      let same : count + 1 ≡ s.max_retries = ground arith in rw (retry_step, last) (rw same refl)
  | inr more ↦
      rw (retry_step, more) (retry_run-gives_up key n (count + 1) s (ground arith) (omega arith))
]

-- When the context ends before that, the goroutine returns with its callback gone.
retry_run-context_done :
    (key n count : ℕ) (s : Session)
    → count + n < s.max_retries
    → retry_run key (timers n ++ (context_done ∷ [])) count s
      ≡ (true, count + n, unregister_callback key s)
unfolding retry_run retry_step
retry_run-context_done key zero count s lt =
    let same : count + 0 ≡ count = omega arith in rw same refl
retry_run-context_done key (suc n) count s lt =
    let more : leb s.max_retries (count + 1) ≡ false = ground arith in
    let same : count + 1 + n ≡ count + suc n = omega arith in
    rw (retry_step, more)
      (retry_run-context_done key n (count + 1) s (omega arith)
        ∙ ap (λ c. (true, c, unregister_callback key s)) same)
