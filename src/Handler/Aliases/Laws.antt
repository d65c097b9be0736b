-- ===== src/Handler/Aliases/Laws.antt =====
-- What the aliases are after each operation.
use echonet_list.Base.{
  ◌≡◌, ◌≢◌, ◌⊎◌, refl, sym, ap, ◌∙◌, arith, true, false, [], ◌∷◌, none, some, Result, ok, err,
  if◌then◌else◌, Bool-cases, >>=-eq-ok, inl, inr,
}
use echonet_list.Base.Keys.{Text, ◌=?◌, text_eq, text_beq_iff}
use echonet_list.Base.Maps.{has, insert, lookup-insert, lookup-has, has-insert}
use echonet_list.Handler.Aliases.{
  DeviceAliases, AliasError, validate_device_alias, register, find_by_alias,
  find_aliases_by_id_string, delete_id, delete_by_id_string, id_not_found,
}

-- Registering a valid alias that is not in use makes it name the device, and changes no other alias.
find_by_alias-register :
    (alias id : Text) (a : DeviceAliases)
    → validate_device_alias alias ≡ ok tt
    → find_by_alias alias a ≡ none
    → (a' : DeviceAliases) × (register alias id a ≡ ok a')
      × ((other : Text)
          → find_by_alias other a' ≡ (if alias =? other then some id else find_by_alias other a))
unfolding register find_by_alias
find_by_alias-register alias id a valid free = (
  insert alias id a,
  rw (valid, lookup-has alias a free) refl,
  λ other. lookup-insert alias other id a,
)

-- Every registered alias has a valid spelling.
abbrev pub IsValidated : DeviceAliases → Type 0
IsValidated a = (alias : Text) → has alias a ≡ true → validate_device_alias alias ≡ ok tt

ok_inj : {a b : DeviceAliases} → ◌≡◌ {A = Result AliasError DeviceAliases} (ok a) (ok b) → a ≡ b
ok_inj h = cc

unit_ok : (r : Result AliasError (Unit {0})) (u : Unit {0}) → r ≡ ok u → r ≡ ok tt
unit_ok r tt h = h

-- Registering keeps every registered alias valid.
register-IsValidated :
    (alias id : Text) (a a' : DeviceAliases)
    → IsValidated a
    → register alias id a ≡ ok a'
    → IsValidated a'
unfolding register
register-IsValidated alias id a a' w e =
    let (u, valid, done) = >>=-eq-ok (validate_device_alias alias) _ e in
    elim (Bool-cases (has alias a)) [
      | inl taken ↦ cc (rw taken at done)
      | inr free ↦
          rw (sym (ok_inj (rw free at done)))
            λ other h. stored other h (unit_ok (validate_device_alias alias) u valid)
    ]
  where
    stored :
        (other : Text)
        → has other (insert alias id a) ≡ true
        → validate_device_alias alias ≡ ok tt
        → validate_device_alias other ≡ ok tt
    stored other h valid = elim (Bool-cases (alias =? other)) [
      | inl e ↦ ap validate_device_alias (sym ((text_beq_iff alias other).0 e)) ∙ valid
      | inr e ↦ w other (rw (has-insert alias other id a, e) at h)
    ]

cleared : (id : Text) (a : DeviceAliases) → find_aliases_by_id_string id (delete_id id a).1 ≡ []
unfolding find_aliases_by_id_string delete_id
cleared id [] = refl
cleared id ((alias, registered) ∷ a) = elim (Bool-cases (registered =? id)) [
  | inl e ↦ rw e (cleared id a)
  | inr e ↦ rw e (rw e (cleared id a))
]

others_kept :
    (id other : Text) (a : DeviceAliases)
    → id ≢ other
    → find_aliases_by_id_string other (delete_id id a).1 ≡ find_aliases_by_id_string other a
unfolding find_aliases_by_id_string delete_id
others_kept id other [] ne = refl
others_kept id other ((alias, registered) ∷ a) ne = elim (Bool-cases (registered =? id)) [
  | inl e ↦
      let apart : (registered =? other) ≡ false =
        ground (arith, text_beq_iff registered id, text_beq_iff registered other) in
      rw (e, apart) (others_kept id other a ne)
  | inr e ↦ rw e (rw (others_kept id other a ne) refl)
]

found-delete_id :
    (id : Text) (a : DeviceAliases)
    → (((delete_id id a).0 ≡ true) × (find_aliases_by_id_string id a ≢ []))
      ⊎ (((delete_id id a).0 ≡ false) × (find_aliases_by_id_string id a ≡ []))
unfolding find_aliases_by_id_string delete_id
found-delete_id id [] = inr (refl, refl)
found-delete_id id ((alias, registered) ∷ a) = elim (Bool-cases (registered =? id)) [
  | inl e ↦ inl (rw e refl, rw e (λ nil. cc nil))
  | inr e ↦ elim (found-delete_id id a) [
    | inl (h, some_alias) ↦ inl (rw (e, h) refl, rw e some_alias)
    | inr (h, k) ↦ inr (rw (e, h) refl, rw (e, k) refl)
  ]
]

-- `DeleteByIDString` fails for a device without an alias, and only then. For every other device it
-- leaves none of its aliases, and all the aliases of each other device.
pub delete_by_id_string_lem :
    (id : Text) (a : DeviceAliases)
    → ((find_aliases_by_id_string id a ≡ []) × (delete_by_id_string id a ≡ err (id_not_found id)))
      ⊎ ((find_aliases_by_id_string id a ≢ [])
          × ((a' : DeviceAliases) × (delete_by_id_string id a ≡ ok a')
              × (find_aliases_by_id_string id a' ≡ [])
              × ((other : Text)
                  → id ≢ other
                  → find_aliases_by_id_string other a' ≡ find_aliases_by_id_string other a)))
unfolding delete_by_id_string
delete_by_id_string_lem id a = elim (found-delete_id id a) [
  | inl (h, some_alias) ↦ inr (
    some_alias,
    ((delete_id id a).1, rw h refl, cleared id a, λ other ne. others_kept id other a ne),
  )
  | inr (h, k) ↦ inl (k, rw h refl)
]
