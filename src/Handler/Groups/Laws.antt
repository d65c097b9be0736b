-- ===== src/Handler/Groups/Laws.antt =====
-- What a group holds after each operation.
use echonet_list.Base.{
  ◌≡◌, ◌≢◌, refl, sym, ◌∙◌, arith, true, false, not, ◌&&◌, ◌||◌, List, [], ◌∷◌, ◌++◌, some, Result,
  ok, or_else, if◌then◌else◌, Bool-cases, Option-cases, >>=-eq-ok, inl, inr,
}
use echonet_list.Base.Keys.{Text, ◌=?◌, text_eq, text_beq_iff}
use echonet_list.Base.Maps.{
  contains, contains-append, contains_absorbed, snoc-Distinct, Distinct, lookup, insert,
  lookup-insert, lookup-delete, =?_refl,
}
use echonet_list.Handler.Groups.{
  Groups, GroupError, validate_group_name, append_new, group_add, without, store_group, no_devices,
  group_remove,
}

-- The devices of a group; none for an unknown one.
unfoldable pub devices_of : Text → Groups → List Text
devices_of name g = or_else (lookup name g) []

contains-append_new :
    (existing devices : List Text) (a : Text)
    → contains (append_new existing devices) a ≡ (contains existing a || contains devices a)
unfolding append_new
contains-append_new existing [] a = ground arith
contains-append_new existing (x ∷ devices) a = elim (Bool-cases (contains existing x)) [
  | inl known ↦
      rw known
        (contains-append_new existing devices a ∙ contains_absorbed existing devices x a known)
  | inr new ↦ rw new (
      contains-append_new (existing ++ (x ∷ [])) devices a
      ∙ rw (contains-append existing (x ∷ []) a) (ground arith))
]

append_new-Distinct :
    (existing devices : List Text) → Distinct existing → Distinct (append_new existing devices)
unfolding append_new
append_new-Distinct existing [] h = h
append_new-Distinct existing (x ∷ devices) h = elim (Bool-cases (contains existing x)) [
  | inl known ↦ rw known (append_new-Distinct existing devices h)
  | inr new ↦
      rw new (append_new-Distinct (existing ++ (x ∷ [])) devices (snoc-Distinct existing x h new))
]

contains-without :
    (devices existing : List Text) (a : Text)
    → contains (without devices existing) a ≡ (contains existing a && not (contains devices a))
unfolding without
contains-without devices [] a = refl
contains-without devices (x ∷ existing) a = elim (Bool-cases (x =? a)) [
  | inl e ↦
      let same : x ≡ a = (text_beq_iff x a).0 e in
      rw same (ground (arith, contains-without devices existing a, =?_refl a))
  | inr e ↦ ground (arith, contains-without devices existing a)
]

without-Distinct :
    (devices existing : List Text) → Distinct existing → Distinct (without devices existing)
unfolding without
without-Distinct devices [] h = tt
without-Distinct devices (x ∷ existing) (hx, h) = elim (Bool-cases (contains devices x)) [
  | inl e ↦ rw e (without-Distinct devices existing h)
  | inr e ↦
      rw e (rw (contains-without devices existing x, hx) refl, without-Distinct devices existing h)
]

lookup-store_group :
    (name other : Text) (left : List Text) (g : Groups)
    → devices_of other (store_group name left g)
      ≡ (if name =? other then left else devices_of other g)
unfolding store_group devices_of
lookup-store_group name other [] g = ground (arith, lookup-delete name other g)
lookup-store_group name other (x ∷ left) g = ground (arith, lookup-insert name other (x ∷ left) g)

-- `GroupAdd` with a valid name succeeds; the group then holds what it held and the given devices, and
-- every other group is as it was.
group_add-devices_of :
    (name : Text) (devices : List Text) (g : Groups)
    → validate_group_name name ≡ ok tt
    → (g' : Groups) × (group_add name devices g ≡ ok g')
      × ((a : Text)
          → contains (devices_of name g') a
            ≡ (contains (devices_of name g) a || contains devices a))
      × ((other : Text) → name ≢ other → lookup other g' ≡ lookup other g)
unfolding devices_of group_add
group_add-devices_of name devices g valid = (
  insert name (append_new (devices_of name g) devices) g,
  rw valid refl,
  (λ a.
      rw (lookup-insert name name (append_new (devices_of name g) devices) g, =?_refl name)
        (contains-append_new (devices_of name g) devices a)),
  λ other ne.
      lookup-insert name other (append_new (devices_of name g) devices) g
      ∙ ground (arith, text_beq_iff name other),
)

no_devices-contains :
    (devices : List Text) (a : Text) → no_devices devices ≡ true → contains devices a ≡ false
unfolding no_devices
no_devices-contains [] a h = refl
no_devices-contains (x ∷ devices) a h = cc

-- `GroupRemove` on a known group with a valid name succeeds; the group then holds what it held but
-- for the given devices, and every other group holds what it held.
group_remove-devices_of :
    (name : Text) (devices : List Text) (g : Groups) (existing : List Text)
    → validate_group_name name ≡ ok tt
    → lookup name g ≡ some existing
    → (g' : Groups) × (group_remove name devices g ≡ ok g')
      × ((a : Text)
          → contains (devices_of name g') a
            ≡ (contains (devices_of name g) a && not (contains devices a)))
      × ((other : Text) → name ≢ other → devices_of other g' ≡ devices_of other g)
unfolding group_remove
group_remove-devices_of name devices g existing valid known =
    elim (Bool-cases (no_devices devices)) [
      | inl nothing ↦ (
        g,
        rw (valid, known, nothing) refl,
        (λ a. rw (no_devices-contains devices a nothing) (ground arith)),
        λ other ne. refl,
      )
      | inr some_given ↦ (
        store_group name (without devices existing) g,
        rw (valid, known, some_given) refl,
        (λ a.
            rw (lookup-store_group name name (without devices existing) g, =?_refl name)
              (contains-without devices existing a ∙ unfold devices_of in rw known refl)),
        λ other ne.
            lookup-store_group name other (without devices existing) g
            ∙ ground (arith, text_beq_iff name other),
      )
    ]

-- No device stands twice in a group of the map.
abbrev pub IsWellFormed : Groups → Type 0
IsWellFormed g = (name : Text) → Distinct (devices_of name g)

ok_inj : {a b : Groups} → ◌≡◌ {A = Result GroupError Groups} (ok a) (ok b) → a ≡ b
ok_inj h = cc

insert-IsWellFormed :
    (name : Text) (left : List Text) (g : Groups)
    → IsWellFormed g
    → Distinct left
    → IsWellFormed (insert name left g)
unfolding devices_of
insert-IsWellFormed name left g w h other = elim (Bool-cases (name =? other)) [
  | inl e ↦ rw (lookup-insert name other left g, e) h
  | inr e ↦ rw (lookup-insert name other left g, e) (w other)
]

store_group-IsWellFormed :
    (name : Text) (left : List Text) (g : Groups)
    → IsWellFormed g
    → Distinct left
    → IsWellFormed (store_group name left g)
store_group-IsWellFormed name left g w h other = elim (Bool-cases (name =? other)) [
  | inl e ↦ rw (lookup-store_group name other left g, e) h
  | inr e ↦ rw (lookup-store_group name other left g, e) (w other)
]

-- Adding to a group keeps every group free of duplicates.
group_add-IsWellFormed :
    (name : Text) (devices : List Text) (g g' : Groups)
    → IsWellFormed g
    → group_add name devices g ≡ ok g'
    → IsWellFormed g'
unfolding group_add devices_of
group_add-IsWellFormed name devices g g' w e =
    let (u, valid, done) = >>=-eq-ok (validate_group_name name) _ e in
    rw (sym (ok_inj done)) (
      insert-IsWellFormed name (append_new (devices_of name g) devices) g w
        (append_new-Distinct (devices_of name g) devices (w name)))

-- Removing from a group keeps every group free of duplicates.
group_remove-IsWellFormed :
    (name : Text) (devices : List Text) (g g' : Groups)
    → IsWellFormed g
    → group_remove name devices g ≡ ok g'
    → IsWellFormed g'
unfolding group_remove
group_remove-IsWellFormed name devices g g' w e =
    let (u, valid, done) = >>=-eq-ok (validate_group_name name) _ e in
    elim (Option-cases (lookup name g)) [
      | inl missing ↦ cc (rw missing at done)
      | inr (existing, known) ↦
          let same : devices_of name g ≡ existing = unfold devices_of in rw known refl in
          let here : Distinct (devices_of name g) = w name in
          let kept : Distinct existing = rw same at here in
          elim (Bool-cases (no_devices devices)) [
            | inl nothing ↦ rw (sym (ok_inj (rw (known, nothing) at done))) w
            | inr given ↦ rw (sym (ok_inj (rw (known, given) at done))) (
                store_group-IsWellFormed name (without devices existing) g w
                  (without-Distinct devices existing kept))
          ]
    ]
