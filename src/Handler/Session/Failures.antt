-- ===== src/Handler/Session/Failures.antt =====
-- The record of the property codes that a device could not answer.
use echonet_list.Base.{
  ℕ, ◌≡◌, refl, sym, ap, ◌∙◌, arith, Bool, true, false, not, ◌&&◌, ◌||◌, List, [], ◌∷◌, ◌++◌, ◌==◌,
  or_else, if◌then◌else◌, Bool-cases, inl, inr,
}
use echonet_list.Base.Keys.{Text, nat_eq, text_eq, ◌=?◌}
use echonet_list.Base.Maps.{
  contains, contains-append, contains_absorbed, snoc-Distinct, Distinct, lookup, lookup-insert,
  lookup-delete, =?_refl,
}
use echonet_list.EchonetLite.Property.{Property}
use echonet_list.Handler.Identifiers.{Device, device_key}
use echonet_list.Handler.Session.{
  Session, epcs_of, still_failed, add_failed, store_failed, update_failed_epcs,
}

contains-still_failed :
    (good xs : List ℕ) (a : ℕ)
    → contains (still_failed good xs) a ≡ (contains xs a && not (contains good a))
unfolding still_failed
contains-still_failed good [] a = refl
contains-still_failed good (x ∷ xs) a = elim (Bool-cases (x == a)) [
  | inl e ↦
      let same : x ≡ a = ground arith in rw same (ground (arith, contains-still_failed good xs a))
  | inr e ↦ ground (arith, contains-still_failed good xs a)
]

contains-add_failed :
    (recorded failed : List ℕ) (a : ℕ)
    → contains (add_failed recorded failed).1 a ≡ (contains recorded a || contains failed a)
unfolding add_failed
contains-add_failed recorded [] a = ground arith
contains-add_failed recorded (x ∷ failed) a = elim (Bool-cases (contains recorded x)) [
  | inl known ↦
      rw known (contains-add_failed recorded failed a ∙ contains_absorbed recorded failed x a known)
  | inr new ↦ rw new (
      contains-add_failed (recorded ++ (x ∷ [])) failed a
      ∙ rw (contains-append recorded (x ∷ []) a) (ground arith))
]

-- The codes that are reported as new failures are those that failed and were not recorded.
contains-newly :
    (recorded failed : List ℕ) (a : ℕ)
    → contains (add_failed recorded failed).0 a ≡ (contains failed a && not (contains recorded a))
unfolding add_failed
contains-newly recorded [] a = refl
contains-newly recorded (x ∷ failed) a = elim (Bool-cases (contains recorded x)) [
  | inl known ↦ rw known (
      contains-newly recorded failed a ∙ elim (Bool-cases (x == a)) [
        | inl e ↦ rw (e, here e known) (ground arith)
        | inr e ↦ rw e refl
      ])
  | inr new ↦ rw new (elim (Bool-cases (x == a)) [
    | inl e ↦ rw (e, here e new) refl
    | inr e ↦ rw e (
        contains-newly (recorded ++ (x ∷ [])) failed a
        ∙ rw (contains-append recorded (x ∷ []) a, e) (ground arith))
  ])
]
  where
    here : {b : Bool} → (x == a) ≡ true → contains recorded x ≡ b → contains recorded a ≡ b
    here e known = let same : x ≡ a = ground arith in ap (contains recorded) (sym same) ∙ known

-- No code stands twice in what `add_failed` records, if none did before.
add_failed-Distinct :
    (recorded failed : List ℕ) → Distinct recorded → Distinct (add_failed recorded failed).1
unfolding add_failed
add_failed-Distinct recorded [] h = h
add_failed-Distinct recorded (x ∷ failed) h = elim (Bool-cases (contains recorded x)) [
  | inl known ↦ rw known (add_failed-Distinct recorded failed h)
  | inr new ↦
      rw new (add_failed-Distinct (recorded ++ (x ∷ [])) failed (snoc-Distinct recorded x h new))
]

still_failed-Distinct : (good xs : List ℕ) → Distinct xs → Distinct (still_failed good xs)
unfolding still_failed
still_failed-Distinct good [] h = tt
still_failed-Distinct good (x ∷ xs) (hx, h) = elim (Bool-cases (contains good x)) [
  | inl e ↦ rw e (still_failed-Distinct good xs h)
  | inr e ↦ rw e (rw (contains-still_failed good xs x, hx) refl, still_failed-Distinct good xs h)
]

-- The failures that are recorded for a device.
unfoldable pub failures : Device → Session → List ℕ
failures device s = or_else (lookup (device_key device) s.failed_epcs) []

lookup-store_failed :
    (key key' : Text) (xs : List ℕ) (m : List (Text × List ℕ))
    → or_else (lookup key' (store_failed key xs m)) []
      ≡ (if key =? key' then xs else or_else (lookup key' m) [])
unfolding store_failed
lookup-store_failed key key' [] m = ground (arith, lookup-delete key key' m)
lookup-store_failed key key' (x ∷ xs) m = ground (arith, lookup-insert key key' (x ∷ xs) m)

after : Device → List Property → List ℕ → Session → List ℕ
after device good bad s = (add_failed (still_failed (epcs_of good) (failures device s)) bad).1

failures-after :
    (device other : Device) (good : List Property) (bad : List ℕ) (s : Session)
    → failures other (update_failed_epcs device good bad s).1 ≡ (
        if device_key device =? device_key other then after device good bad s else failures other s)
unfolding failures update_failed_epcs after
failures-after device other good bad s =
    lookup-store_failed (device_key device) (device_key other)
      (add_failed
        (still_failed (epcs_of good) (or_else (lookup (device_key device) s.failed_epcs) [])) bad).1
      s.failed_epcs

-- After an answer the recorded failures of its device are the codes that failed now, and those
-- recorded before that did not succeed now.
pub failures-update_failed_epcs :
    (device : Device) (good : List Property) (bad : List ℕ) (s : Session) (epc : ℕ)
    → contains (failures device (update_failed_epcs device good bad s).1) epc ≡ (
        (contains (failures device s) epc && not (contains (epcs_of good) epc)) || contains bad epc)
failures-update_failed_epcs device good bad s epc =
    rw (failures-after device device good bad s, =?_refl (device_key device))
      (unfold after in
        rw
          (
            contains-add_failed (still_failed (epcs_of good) (failures device s)) bad epc,
            contains-still_failed (epcs_of good) (failures device s) epc,
          )
          refl)

-- What is returned as new are the codes that failed now and were not recorded, or succeeded now too.
newly-update_failed_epcs :
    (device : Device) (good : List Property) (bad : List ℕ) (s : Session) (epc : ℕ)
    → contains (update_failed_epcs device good bad s).0 epc ≡ (
        contains bad epc
        && not (contains (failures device s) epc && not (contains (epcs_of good) epc)))
unfolding update_failed_epcs failures
newly-update_failed_epcs device good bad s epc =
    contains-newly (still_failed (epcs_of good) (failures device s)) bad epc
    ∙ rw (contains-still_failed (epcs_of good) (failures device s) epc) refl

-- If no code is recorded twice for any device before an answer, none is after it.
update_failed_epcs-Distinct :
    (device : Device) (good : List Property) (bad : List ℕ) (s : Session)
    → ((d : Device) → Distinct (failures d s))
    → (d : Device) → Distinct (failures d (update_failed_epcs device good bad s).1)
update_failed_epcs-Distinct device good bad s h d =
    rw (failures-after device d good bad s) (pick (device_key device =? device_key d))
  where
    pick : (b : Bool) → Distinct (if b then after device good bad s else failures d s)
    pick true =
        unfold after in
        add_failed-Distinct (still_failed (epcs_of good) (failures device s)) bad
          (still_failed-Distinct (epcs_of good) (failures device s) (h device))
    pick false = h d
