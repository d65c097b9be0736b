-- ===== src/Handler/Session/Dispatch.antt =====
-- Which callback an answer reaches, and the dispatch table after it.
use echonet_list.Base.{
  ℕ, ◌≡◌, ◌≢◌, refl, ap, ◌∙◌, arith, Bool, true, false, List, [], ◌∷◌, none, some, All, ◌==◌,
  Bool-cases, inl, inr, if◌then◌else◌,
}
use echonet_list.Base.Keys.{nat_eq}
use echonet_list.Base.Maps.{contains, lookup, lookup-insert_self, lookup-delete, =?_refl}
use echonet_list.EchonetLite.Esv
use echonet_list.EchonetLite.Message.{Message}
use echonet_list.Handler.Session.{
  Entry, Session, dispatch_all, callback_of, nobody, register_callback, unregister_callback,
  is_answer, dispatch_answer, dispatch,
}

dispatch_of_answer :
    (finishes : ℕ → Message → Bool) (m : Message) (s : Session)
    → is_answer m.esv ≡ true
    → dispatch finishes m s ≡ dispatch_answer finishes m s
unfolding dispatch
dispatch_of_answer finishes m s h = rw h refl

-- Of a key that is gone nobody is told.
silent :
    (finishes : ℕ → Message → Bool) (m : Message) (s : Session)
    → lookup m.tid s.dispatch_table ≡ none
    → dispatch_answer finishes m s ≡ (nobody, s)
unfolding dispatch_answer
silent finishes m s h = rw (dispatch_answer, h) refl

-- A message leaves the registrations of all other transactions.
dispatch_others :
    (finishes : ℕ → Message → Bool) (m : Message) (s : Session) (key : ℕ)
    → m.tid ≢ key
    → lookup key (dispatch finishes m s).1.dispatch_table ≡ lookup key s.dispatch_table
unfolding dispatch dispatch_answer unregister_callback
dispatch_others finishes m s key ne = ground (arith, lookup-delete m.tid key s.dispatch_table)

-- The message does not end the registration of the transaction.
abbrev pub IsPassing : (ℕ → Message → Bool) → ℕ → Entry → Message → Type 0
IsPassing finishes tid entry m =
    m.tid ≡ tid → contains entry.esvs m.esv ≡ true → finishes entry.callback m ≡ false

reaches :
    (finishes : ℕ → Message → Bool) (m : Message) (entry : Entry) (s : Session)
    → lookup m.tid s.dispatch_table ≡ some entry
    → is_answer m.esv ≡ true
    → contains entry.esvs m.esv ≡ true
    → dispatch finishes m s ≡ (
      callback_of entry.callback,
      if finishes entry.callback m then unregister_callback m.tid s else s,
    )
unfolding dispatch_answer
reaches finishes m entry s here answer waits =
    dispatch_of_answer finishes m s answer ∙ rw (dispatch_answer, here) (rw waits refl)

unanswered :
    (finishes : ℕ → Message → Bool) (m : Message) (s : Session)
    → is_answer m.esv ≡ false
    → (dispatch finishes m s).1 ≡ s
unfolding dispatch
unanswered finishes m s other = ground arith

passes_by :
    (finishes : ℕ → Message → Bool) (m : Message) (entry : Entry) (s : Session)
    → lookup m.tid s.dispatch_table ≡ some entry
    → (contains entry.esvs m.esv ≡ true → finishes entry.callback m ≡ false)
    → (dispatch finishes m s).1 ≡ s
unfolding dispatch_answer
passes_by finishes m entry s here passes = elim (Bool-cases (is_answer m.esv)) [
  | inr other ↦ unanswered finishes m s other
  | inl answer ↦ elim (Bool-cases (contains entry.esvs m.esv)) [
    | inl waits ↦
        ap (λ r. r.1) (reaches finishes m entry s here answer waits) ∙ rw (passes waits) refl
    | inr ignores ↦
        ap (λ r. r.1) (dispatch_of_answer finishes m s answer)
        ∙ rw (dispatch_answer, here) (rw ignores refl)
  ]
]

-- An answer whose service the registered caller waits for reaches that caller, whatever was
-- registered before.
pub dispatch-register_callback :
    (finishes : ℕ → Message → Bool) (m : Message) (esvs : List ℕ) (callback : ℕ) (s : Session)
    → is_answer m.esv ≡ true
    → contains esvs m.esv ≡ true
    → dispatch finishes m (register_callback m.tid esvs callback s) ≡ (
      callback_of callback,
      if finishes callback m
          then unregister_callback m.tid (register_callback m.tid esvs callback s)
          else register_callback m.tid esvs callback s,
    )
unfolding register_callback
dispatch-register_callback finishes m esvs callback s answer waits =
    let entry : Entry = record { esvs = esvs; callback = callback } in
    reaches finishes m entry (register_callback m.tid esvs callback s)
      (lookup-insert_self m.tid entry s.dispatch_table) answer waits

passing-lookup :
    (finishes : ℕ → Message → Bool) (m : Message) (entry : Entry) (s : Session) (tid : ℕ)
    → lookup tid s.dispatch_table ≡ some entry
    → IsPassing finishes tid entry m
    → lookup tid (dispatch finishes m s).1.dispatch_table ≡ some entry
passing-lookup finishes m entry s tid here passes = elim (Bool-cases (m.tid == tid)) [
  | inr apart ↦ dispatch_others finishes m s tid (ground arith) ∙ here
  | inl this ↦
      let same : m.tid ≡ tid = ground arith in
      rw (passes_by finishes m entry s (rw same here) (passes same)) here
]

passing_each-lookup :
    (finishes : ℕ → Message → Bool) (ms : List Message) (entry : Entry) (s : Session) (tid : ℕ)
    → lookup tid s.dispatch_table ≡ some entry
    → All (IsPassing finishes tid entry) ms
    → lookup tid (dispatch_all finishes ms s).dispatch_table ≡ some entry
unfolding dispatch_all
passing_each-lookup finishes [] entry s tid here passes = here
passing_each-lookup finishes (m ∷ ms) entry s tid here (one, rest) =
    passing_each-lookup finishes ms entry (dispatch finishes m s).1 tid
      (passing-lookup finishes m entry s tid here one) rest

gone : (key : ℕ) (t : Session) → lookup key (unregister_callback key t).dispatch_table ≡ none
unfolding unregister_callback
gone key t = lookup-delete key key t.dispatch_table ∙ rw (=?_refl key) refl

gone_for_good :
    (finishes : ℕ → Message → Bool) (ms : List Message) (s : Session) (tid : ℕ)
    → lookup tid s.dispatch_table ≡ none
    → lookup tid (dispatch_all finishes ms s).dispatch_table ≡ none
unfolding dispatch_all dispatch dispatch_answer unregister_callback
gone_for_good finishes [] s tid h = h
gone_for_good finishes (m ∷ ms) s tid h =
    gone_for_good finishes ms (dispatch finishes m s).1 tid
      (ground (arith, lookup-delete m.tid tid s.dispatch_table))

-- A callback that is registered for a transaction, while nothing else is registered, stays registered
-- through any messages that it does not finish on, an answer that it waits for reaches it, and, once it
-- has finished on that one, whatever messages follow, no answer of the transaction reaches anybody.
pub finished_once :
    (finishes : ℕ → Message → Bool) (before later : List Message) (m late : Message) (esvs : List ℕ)
    (callback : ℕ) (s : Session)
    → All (IsPassing finishes m.tid (record { esvs = esvs; callback = callback })) before
    → is_answer m.esv ≡ true
    → contains esvs m.esv ≡ true
    → finishes callback m ≡ true
    → is_answer late.esv ≡ true
    → late.tid ≡ m.tid
    → (answered : Session) × (dispatch finishes m
          (dispatch_all finishes before (register_callback m.tid esvs callback s))
        ≡ (callback_of callback, answered))
      × ((dispatch finishes late (dispatch_all finishes later answered)).0 ≡ nobody)
unfolding register_callback
finished_once finishes before later m late esvs callback s passes answer waits done answer' same =
    let entry : Entry = record { esvs = esvs; callback = callback } in
    let waiting : Session =
      dispatch_all finishes before (register_callback m.tid esvs callback s) in
    let here : lookup m.tid waiting.dispatch_table ≡ some entry =
      passing_each-lookup finishes before entry (register_callback m.tid esvs callback s) m.tid
        (lookup-insert_self m.tid entry s.dispatch_table) passes in
    let after : Session = dispatch_all finishes later (unregister_callback m.tid waiting) in
    (
      unregister_callback m.tid waiting,
      reaches finishes m entry waiting here answer waits ∙ rw done refl,
      ap (λ r. r.0)
          (dispatch_of_answer finishes late after answer'
            ∙ silent finishes late after
                (rw same (gone_for_good finishes later _ m.tid (gone m.tid waiting)))),
    )

-- Every service that answers a request is dispatched as an answer, but for the notification INF.
response_esvs-is_answer :
    (request e : ℕ)
    → contains (Esv.response_esvs request) e ≡ true
    → e ≢ Esv.inf
    → is_answer e ≡ true
unfolding Esv.response_esvs is_answer
response_esvs-is_answer request e h ne = ground arith
