-- ===== src/Handler/Receive/Values.antt =====
-- What a Get request of this node's objects is answered with.
use echonet_list.Base.{
  ℕ, suc, ◌<◌, ◌≡◌, refl, ap, ◌∙◌, arith, Bool, true, false, ◌&&◌, List, [], ◌∷◌, map, none, some,
  length, all, All, if◌then◌else◌, Option-cases, inl, inr,
}
use echonet_list.Base.Keys.{nat_eq}
use echonet_list.EchonetLite.Property.{Property, edt_bytes}
use echonet_list.EchonetLite.Message.RoundTrip.{received_edt, received, Fits}
use echonet_list.Handler.LocalObjects.{DeviceProperties, get, get_one, get_properties}
use echonet_list.Handler.Session.{request_epcs, classify}

module _ (eoj : ℕ) (d : DeviceProperties) where
  -- The bytes that the object answers for a code: those of its value, or none.
  abbrev pub value_of : ℕ → List ℕ
  value_of epc = elim (get eoj epc d) [ none ↦ [] | some q ↦ edt_bytes q.edt ]

  abbrev pub found : ℕ → Bool
  found epc = elim (get eoj epc d) [ none ↦ false | some q ↦ true ]

  -- The answer for a code, as it is read from the wire.
  abbrev pub answer_of : ℕ → Property
  answer_of epc = record { epc = epc; edt = received_edt (value_of epc) }

  -- What `prepareStartGetProperties` hands on: all answers if every code was found, and
  -- else the answers with bytes, and the codes without.
  abbrev pub handed_on : List ℕ → Bool × List Property × List ℕ
  handed_on epcs =
      if all found epcs
      then (true, map answer_of epcs, [])
      else (false, (classify (map answer_of epcs)).0, (classify (map answer_of epcs)).1)

  unfoldable pub reps : List ℕ → List Property
  reps epcs = (get_properties eoj (request_epcs epcs) d).0

  one : ℕ → Property × Bool
  one epc = get_one eoj d (record { epc = epc; edt = none })

  one-received : (epc : ℕ) → received (one epc).0 ≡ answer_of epc
  unfolding one get_one
  one-received epc = elim (Option-cases (get eoj epc d)) [
    | inl missing ↦ rw (one, get_one, value_of, missing) refl
    | inr (q, here) ↦ rw (one, get_one, value_of, here) refl
  ]

  one-found : (epc : ℕ) → (one epc).1 ≡ found epc
  unfolding one get_one
  one-found epc = elim (Option-cases (get eoj epc d)) [
    | inl missing ↦ rw (one, get_one, found, missing) refl
    | inr (q, here) ↦ rw (one, get_one, found, here) refl
  ]

  one-Fits : (epc : ℕ) → length (value_of epc) < 256 → Fits (one epc).0
  unfolding one get_one
  one-Fits epc fits = elim (Option-cases (get eoj epc d)) [
    | inl missing ↦ rw (one, get_one, missing) (omega arith)
    | inr (q, here) ↦ rw (one, get_one, here) (rw (value_of, here) at fits)
  ]

  pub reps-received : (epcs : List ℕ) → map received (reps epcs) ≡ map answer_of epcs
  unfolding reps get_properties one request_epcs
  reps-received [] = refl
  reps-received (epc ∷ epcs) =
      ap (λ p. p ∷ map received (reps epcs)) (one-received epc)
      ∙ ap (◌∷◌ (answer_of epc)) (reps-received epcs)

  pub success-all : (epcs : List ℕ) → (get_properties eoj (request_epcs epcs) d).1 ≡ all found epcs
  unfolding get_properties one request_epcs
  success-all [] = refl
  success-all (epc ∷ epcs) =
      ap (λ b. b && (get_properties eoj (request_epcs epcs) d).1) (one-found epc)
      ∙ ap (λ b. found epc && b) (success-all epcs)

  pub length-reps : (epcs : List ℕ) → length (reps epcs) ≡ length epcs
  unfolding reps get_properties request_epcs
  length-reps [] = refl
  length-reps (epc ∷ epcs) = ap suc (length-reps epcs)

  pub reps-Fits :
      (epcs : List ℕ) → All (λ epc. length (value_of epc) < 256) epcs → All Fits (reps epcs)
  unfolding reps get_properties one request_epcs
  reps-Fits [] h = tt
  reps-Fits (epc ∷ epcs) (fits, h) = (one-Fits epc fits, reps-Fits epcs h)
