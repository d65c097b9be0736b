-- ===== src/Handler/Node/Panics.antt =====
-- Which answers make the callbacks of the Get requests panic.
use echonet_list.Base.{
  ℕ, ◌≡◌, ◌≢◌, ◌↔◌, refl, arith, Bool, true, false, List, [], ◌∷◌, Option, none, some, ok, err,
  panic, or_panic, ◌>>=◌, get_elem?, All, ◌==◌, Bool-cases, Option-cases, inl, inr, length, ltb,
  ◌*◌, ◌+◌, ◌%◌, ◌⊎◌, zero, suc, take, drop,
}
use echonet_list.EchonetLite.Esv
use echonet_list.EchonetLite.Object.{decode_eoj, make_eoj}
use echonet_list.EchonetLite.Bytes.{bytes_to_uint32, bytes_to_uint32_loop}
use echonet_list.EchonetLite.Property.{Property, edt_bytes}
use echonet_list.EchonetLite.PropertyMap.{decode_map}
use echonet_list.EchonetLite.NodeProfile.{decode_instance_list, decode_instances}
use echonet_list.EchonetLite.Message.{Message}
use echonet_list.Handler.LocalObjects.{epc_get_property_map}
use echonet_list.Handler.Session.{classify}
use echonet_list.Handler.Node.{
  CallbackError, not_decoded, callback_arguments, epc_self_node_instance_list_s,
  self_node_instances, instance_list_callback, get_property_map_epcs, get_property_map_callback,
}

-- No property of the list has data.
abbrev pub NoData : List Property → Type 0
NoData = All (λ p. p.edt ≡ none)

decode_eoj_ok : {E : Type 0} (b : List ℕ) → (n : ℕ) × (decode_eoj {E = E} b ≡ ok n)
unfolding decode_eoj bytes_to_uint32
decode_eoj_ok (x ∷ y ∷ z ∷ []) = (make_eoj (bytes_to_uint32_loop 0 (x ∷ y ∷ []) % 65536) z, refl)
decode_eoj_ok [] = (0, refl)
decode_eoj_ok (x ∷ []) = (0, refl)
decode_eoj_ok (x ∷ y ∷ []) = (0, refl)
decode_eoj_ok (x ∷ y ∷ z ∷ w ∷ r) = (0, refl)

decode_instances_ok :
    {E : Type 0} (n : ℕ) (b : List ℕ) → (eojs : List ℕ) × (decode_instances {E = E} n b ≡ ok eojs)
unfolding decode_instances
decode_instances_ok zero b = ([], refl)
decode_instances_ok {E} (suc n) b =
    let (eoj, e) = decode_eoj_ok {E = E} (take 3 b) in
    let (eojs, e') = decode_instances_ok {E = E} n (drop 3 b) in (eoj ∷ eojs, rw (e, e') refl)

pub decode_instance_list_ok :
    {E : Type 0} (b : List ℕ) → (r : Option (List ℕ)) × (decode_instance_list {E = E} b ≡ ok r)
unfolding decode_instance_list
decode_instance_list_ok [] = (none, refl)
decode_instance_list_ok {E} (n ∷ b) = elim (Bool-cases (ltb (length (n ∷ b)) (1 + n * 3))) [
  | inl short ↦ (none, rw short refl)
  | inr long ↦ let (eojs, e) = decode_instances_ok {E = E} n b in (some eojs, rw (long, e) refl)
]

pub self_node_instances-ne-panic :
    (success : Bool) (p : Property) → self_node_instances success p ≢ panic
unfolding self_node_instances
self_node_instances-ne-panic false p e = cc
self_node_instances-ne-panic true p e = elim (Bool-cases (p.epc == epc_self_node_instance_list_s)) [
  | inr other ↦ cc (rw other at e)
  | inl this ↦ found (decode_instance_list_ok (edt_bytes p.edt)) (rw this at e)
]
  where
    found :
        (r : Option (List ℕ)) × (decode_instance_list {E = CallbackError} (edt_bytes p.edt) ≡ ok r)
        → (decode_instance_list (edt_bytes p.edt) >>= λ list. elim list [
          | none ↦ err not_decoded
          | some eojs ↦ ok eojs
        ])
          ≢ panic
    found (none, h) e = cc (rw h at e)
    found (some eojs, h) e = cc (rw h at e)

-- What is left of a list when nothing in it has data.
no_success : (ps : List Property) → (get_elem? (classify ps).0 0 ≡ none) ↔ NoData ps
unfolding classify
no_success [] = (λ e. tt, λ h. refl)
no_success (p ∷ ps) = elim (Option-cases p.edt) [
  | inl nil ↦ (λ e. (nil, (no_success ps).0 (rw nil at e)), λ h. rw nil ((no_success ps).1 h.1))
  | inr (b, full) ↦ (λ e. cc (rw full at e), λ h. cc)
]

first_panics :
    (ps : List Property) (success : Bool)
    → ((or_panic (get_elem? ps 0) >>= self_node_instances success) ≡ panic)
      ↔ (get_elem? ps 0 ≡ none)
first_panics [] success = (λ e. refl, λ e. refl)
first_panics (p ∷ ps) success = (λ e. absurd (self_node_instances-ne-panic success p e), λ e. cc)

-- The callback of `GetSelfNodeInstanceListS` panics exactly on a Get_Res with no property at all, and
-- on any other answer, such as the refusal Get_SNA, none of whose properties has data.
pub instance_list_callback-panic_iff :
    (m : Message)
    → (instance_list_callback m ≡ panic) ↔ (
        ((m.esv ≡ Esv.get_res) × (get_elem? m.properties 0 ≡ none))
        ⊎ ((m.esv ≢ Esv.get_res) × NoData m.properties))
unfolding instance_list_callback callback_arguments
instance_list_callback-panic_iff m = elim (Bool-cases (m.esv == Esv.get_res)) [
  | inl res ↦
      let same : m.esv ≡ Esv.get_res = ground arith in
      rw res (
        (λ e. inl (same, (first_panics m.properties true).0 e)),
        λ c. elim c [
          | inl (_, e) ↦ (first_panics m.properties true).1 e
          | inr (ne, _) ↦ absurd (ne same)
        ],
      )
  | inr sna ↦
      let other : m.esv ≢ Esv.get_res = ground arith in
      rw sna (
        (λ e. inr (
          other,
          (no_success m.properties).0 ((first_panics (classify m.properties).0 false).0 e),
        )),
        λ c. elim c [
          | inl (same, _) ↦ absurd (other same)
          | inr (_, h) ↦
              (first_panics (classify m.properties).0 false).1 ((no_success m.properties).1 h)
        ],
      )
]

get_property_map_epcs-ne-panic : (p : Property) → get_property_map_epcs p ≢ panic
unfolding get_property_map_epcs
get_property_map_epcs-ne-panic p e = elim (Bool-cases (p.epc == epc_get_property_map)) [
  | inr other ↦ cc (rw other at e)
  | inl this ↦ elim (Option-cases (decode_map (edt_bytes p.edt))) [
    | inl bad ↦ cc (rw (this, bad) at e)
    | inr (epcs, good) ↦ cc (rw (this, good) at e)
  ]
]

-- `onGetPropertyMap` panics exactly when it is told of a success without any property.
pub get_property_map_callback-panic_iff :
    (success : Bool) (ps : List Property)
    → (get_property_map_callback success ps ≡ panic) ↔ ((success ≡ true) × (get_elem? ps 0 ≡ none))
unfolding get_property_map_callback
get_property_map_callback-panic_iff false ps = (λ e. cc, λ h. cc)
get_property_map_callback-panic_iff true [] = (λ e. (refl, refl), λ h. refl)
get_property_map_callback-panic_iff true (p ∷ ps) =
    (λ e. absurd (get_property_map_epcs-ne-panic p e), λ h. cc)
