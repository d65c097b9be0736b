-- ===== src/Handler/Session/Answers.antt =====
-- The answer to a Set request, matched with the request by position.
use echonet_list.Base.{
  ℕ, zero, suc, ◌+◌, ◌≤◌, ◌≡◌, ◌≢◌, ◌↔◌, refl, arith, List, [], ◌∷◌, none, some, Result, ok, err,
  panic, ◌>>=◌, length, get_elem?, get_elem?-some, get_elem?-none, Option-cases, ltb, Bool-cases,
  inl, inr,
}
use echonet_list.EchonetLite.Property.{Property}
use echonet_list.EchonetLite.Message.{Message}
use echonet_list.Handler.Session.{classify_set, set_properties_response}

-- A property without data that the request has no counterpart for.
abbrev pub Unmatched : List Property → ℕ → List Property → Type 0
Unmatched requested k ps =
    (i : ℕ) × (length requested ≤ k + i)
    × (p : Property) × (get_elem? ps i ≡ some p)
    × (p.edt ≡ none)

Answer : Type 0
Answer = List Property × List ℕ

bind_panic :
    {A B : Type 0} (r : Result (Unit {0}) A) (f : A → Result (Unit {0}) B)
    → ((a : A) → f a ≢ panic)
    → (r >>= f) ≡ panic
    → r ≡ panic
bind_panic (ok a) f h e = absurd (h a e)
bind_panic (err x) f h e = cc
bind_panic panic f h e = refl

beyond : {A : Type 0} (xs : List A) (k : ℕ) → get_elem? xs k ≡ none → length xs ≤ k
beyond xs k e = elim (Bool-cases (ltb k (length xs))) [
  | inl inside ↦ let (x, e') = get_elem?-some xs k (ground arith) in cc
  | inr outside ↦ ground arith
]

later :
    (requested : List Property) (k : ℕ) (p : Property) (ps : List Property)
    → Unmatched requested (k + 1) ps
    → Unmatched requested k (p ∷ ps)
later requested k p ps (i, h, p', e, nil) = (suc i, omega arith, p', e, nil)

classify_set-panic :
    (requested : List Property) (k : ℕ) (ps : List Property)
    → classify_set requested k ps ≡ panic
    → Unmatched requested k ps
unfolding classify_set
classify_set-panic requested k [] e = cc
classify_set-panic requested k (p ∷ ps) e = elim (Option-cases p.edt) [
  | inr (b, full) ↦ later requested k p ps (
      classify_set-panic requested (k + 1) ps
        (bind_panic (classify_set requested (k + 1) ps) _ (λ a h. cc) (rw full at e)))
  | inl nil ↦ elim (Option-cases (get_elem? requested k)) [
    | inl missing ↦ (0, omega (arith, beyond requested k missing), p, refl, nil)
    | inr (q, found) ↦ later requested k p ps (
        classify_set-panic requested (k + 1) ps
          (bind_panic (classify_set requested (k + 1) ps) _ (λ a h. cc) (rw (nil, found) at e)))
  ]
]

panic-classify_set :
    (requested : List Property) (k : ℕ) (ps : List Property)
    → Unmatched requested k ps
    → classify_set requested k ps ≡ panic
unfolding classify_set
panic-classify_set requested k [] (i, h, p, e, nil) = cc
panic-classify_set requested k (q ∷ ps) (zero, h, p, e, nil) =
    let same : q ≡ p = cc in rw (same, nil, get_elem?-none requested k (omega arith)) refl
panic-classify_set requested k (q ∷ ps) (suc i, h, p, e, nil) =
    let rest : classify_set requested (k + 1) ps ≡ panic =
      panic-classify_set requested (k + 1) ps (i, omega arith, p, e, nil) in
    elim (Option-cases q.edt) [
      | inr (b, full) ↦ rw (full, rest) refl
      | inl none_q ↦ elim (Option-cases (get_elem? requested k)) [
        | inl missing ↦ rw (none_q, missing) refl
        | inr (r, found) ↦ rw (none_q, found, rest) refl
      ]
    ]

-- `SetProperties` panics on a response exactly when some property of the response, without data, has
-- an index past the end of the request.
pub set_properties_response-panic_iff :
    (requested : List Property) (m : Message)
    → (set_properties_response requested m ≡ panic) ↔ Unmatched requested 0 m.properties
unfolding set_properties_response
set_properties_response-panic_iff requested m = (
  λ e.
      classify_set-panic requested 0 m.properties
        (bind_panic (classify_set requested 0 m.properties) _ (λ a h. cc) e),
  λ u. rw (panic-classify_set requested 0 m.properties u) refl,
)

-- A response with no more properties than the request never makes it panic.
set_properties_response_total :
    (requested : List Property) (m : Message)
    → length m.properties ≤ length requested
    → set_properties_response requested m ≢ panic
set_properties_response_total requested m h e =
    let (i, past, p, at_i, nil) = (set_properties_response-panic_iff requested m).0 e in
    let out : get_elem? m.properties i ≡ none = get_elem?-none m.properties i (omega arith) in cc
