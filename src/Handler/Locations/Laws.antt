-- ===== src/Handler/Locations/Laws.antt =====
-- What the order of the locations guarantees.
use echonet_list.Base.{
  ◌≡◌, refl, sym, ap, ◌∙◌, arith, true, false, not, ◌&&◌, ◌||◌, List, [], ◌∷◌, ◌++◌, Bool-cases,
  inl, inr,
}
use echonet_list.Base.Keys.{Text, ◌=?◌, text_eq, text_beq_iff}
use echonet_list.Base.Maps.{
  contains, contains-append, Distinct, has, insert, delete, keys, has-insert, has-delete,
  has-contains, insert-Distinct, delete-Distinct, =?_refl,
}
use echonet_list.Base.Sorting.{sort_texts, contains-sort_texts, sort_texts-Distinct}
use echonet_list.Handler.Locations.{ensure_location, location_set, pick, apply_order}

append-Distinct :
    (xs ys : List Text)
    → Distinct xs
    → Distinct ys
    → ((a : Text) → (contains xs a && contains ys a) ≡ false)
    → Distinct (xs ++ ys)
append-Distinct [] ys h k apart = k
append-Distinct (x ∷ xs) ys (hx, h) k apart = (
  rw (contains-append xs ys x) (ground (arith, apart x, =?_refl x)),
  append-Distinct xs ys h k (λ a. ground (arith, apart a)),
)

has-location_set :
    (locations : List Text) (set : List (Text × Unit {0})) (a : Text)
    → has a (location_set locations set) ≡ (contains locations a || has a set)
unfolding location_set
has-location_set [] set a = refl
has-location_set (x ∷ locations) set a =
    has-location_set locations (insert x tt set) a ∙ rw (has-insert x a tt set) (ground arith)

location_set-Distinct :
    (locations : List Text) (set : List (Text × Unit {0}))
    → Distinct (keys set)
    → Distinct (keys (location_set locations set))
unfolding location_set
location_set-Distinct [] set h = h
location_set-Distinct (x ∷ locations) set h =
    location_set-Distinct locations (insert x tt set) (insert-Distinct x tt set h)

has-pick :
    (order : List Text) (set : List (Text × Unit {0})) (a : Text)
    → (contains (pick order set).0 a ≡ (has a set && contains order a))
      × (has a (pick order set).1 ≡ (has a set && not (contains order a)))
unfolding pick
has-pick [] set a = (ground arith, ground arith)
has-pick (x ∷ order) set a = elim (Bool-cases (has x set)) [
  | inl here ↦
      let (e0, e1) = has-pick order (delete x set) a in
      rw here (elim (Bool-cases (x =? a)) [
        | inl e ↦
            let same : x ≡ a = (text_beq_iff x a).0 e in
            let here' : has a set ≡ true = ap (λ t. has t set) (sym same) ∙ here in
            (rw (e, here') refl, rw (e, e1, has-delete x a set) (rw (e, here') refl))
        | inr e ↦
            (rw (e, e0, has-delete x a set) (rw e refl), rw (e, e1, has-delete x a set) (rw e refl))
      ])
  | inr missing ↦
      let (e0, e1) = has-pick order set a in
      rw missing (elim (Bool-cases (x =? a)) [
        | inl e ↦
            let same : x ≡ a = (text_beq_iff x a).0 e in
            let missing' : has a set ≡ false = ap (λ t. has t set) (sym same) ∙ missing in
            (rw (e, e0, missing') refl, rw (e, e1, missing') refl)
        | inr e ↦ (rw (e, e0) refl, rw (e, e1) refl)
      ])
]

pick-Distinct :
    (order : List Text) (set : List (Text × Unit {0}))
    → Distinct (keys set)
    → Distinct (pick order set).0 × Distinct (keys (pick order set).1)
unfolding pick
pick-Distinct [] set h = (tt, h)
pick-Distinct (x ∷ order) set h = elim (Bool-cases (has x set)) [
  | inl here ↦
      let (d0, d1) = pick-Distinct order (delete x set) (delete-Distinct x set h) in
      rw here
        ((rw ((has-pick order (delete x set) x).0, has-delete x x set, =?_refl x) refl, d0), d1)
  | inr missing ↦ rw missing (pick-Distinct order set h)
]

-- `ApplyOrder` returns exactly the given locations, whatever the order holds.
contains-apply_order :
    (order locations : List Text) (a : Text)
    → contains (apply_order order locations) a ≡ contains locations a
unfolding apply_order
contains-apply_order [] locations a = contains-sort_texts locations a
contains-apply_order (first ∷ order) locations a =
    let set : List (Text × Unit {0}) = location_set locations [] in
    let (e0, e1) = has-pick (first ∷ order) set a in
    contains-append (pick (first ∷ order) set).0 (sort_texts (keys (pick (first ∷ order) set).1)) a
    ∙ rw
        (
          contains-sort_texts (keys (pick (first ∷ order) set).1) a,
          sym (has-contains a (pick (first ∷ order) set).1),
          e0,
          e1,
          has-location_set locations [] a,
        )
        (unfold has in ground arith)

-- With an order that is not empty it returns each location once, even if the order or the given
-- locations repeat themselves.
apply_order-Distinct :
    (first : Text) (order locations : List Text) → Distinct (apply_order (first ∷ order) locations)
unfolding apply_order
apply_order-Distinct first order locations =
    let set : List (Text × Unit {0}) = location_set locations [] in
    let left : List (Text × Unit {0}) = (pick (first ∷ order) set).1 in
    let (d0, d1) =
      pick-Distinct (first ∷ order) set (location_set-Distinct locations [] (unfold keys in tt)) in
    append-Distinct (pick (first ∷ order) set).0 (sort_texts (keys left)) d0
      (sort_texts-Distinct (keys left) d1)
      (λ a.
        rw
          (
            contains-sort_texts (keys left) a,
            sym (has-contains a left),
            (has-pick (first ∷ order) set a).0,
            (has-pick (first ∷ order) set a).1,
          )
          (ground arith))

-- After `EnsureLocation` the location is in the order, everything that was there still is, and an
-- order without duplicates stays one; it reports true exactly when the location was missing.
ensure_location_lem :
    (location : Text) (order : List Text)
    → Distinct order
    → ((ensure_location location order).0 ≡ not (contains order location))
      × ((a : Text)
          → contains (ensure_location location order).1 a ≡ (contains order a || location =? a))
      × Distinct (ensure_location location order).1
unfolding ensure_location
ensure_location_lem location order h = elim (Bool-cases (contains order location)) [
  | inl here ↦ rw here (refl, (λ a. known a here), h)
  | inr missing ↦ rw missing (
    refl,
    (λ a. contains-append order (location ∷ []) a ∙ ground arith),
    append-Distinct order (location ∷ []) h (refl, tt) (λ a. apart a missing),
  )
]
  where
    known :
        (a : Text)
        → contains order location ≡ true
        → contains order a ≡ (contains order a || location =? a)
    known a here = elim (Bool-cases (location =? a)) [
      | inl e ↦
          let here' : contains order a ≡ true =
            ap (contains order) (sym ((text_beq_iff location a).0 e)) ∙ here in
          rw here' refl
      | inr e ↦ rw e (ground arith)
    ]

    apart :
        (a : Text)
        → contains order location ≡ false
        → (contains order a && (location =? a || false)) ≡ false
    apart a missing = elim (Bool-cases (location =? a)) [
      | inl e ↦
          let gone : contains order a ≡ false =
            ap (contains order) (sym ((text_beq_iff location a).0 e)) ∙ missing in
          rw gone refl
      | inr e ↦ rw e (ground arith)
    ]
