-- ===== src/Handler/Data/Aliasing.antt =====
-- That an alias which was set finds its device.
use echonet_list.Base.{
  ◌≡◌, ◌≢◌, refl, sym, ap, ◌∙◌, arith, Bool, true, ◌||◌, List, [], ◌∷◌, ◌++◌, some, Result, ok, err,
  panic, length, or_else, ◌==◌, ltb, Bool-cases, >>=-eq-ok, inl, inr,
}
use echonet_list.Base.Keys.{Text, ◌=?◌, nat_eq, text_eq, text_beq_iff}
use echonet_list.Base.Maps.{contains, keys, insert, lookup, has, lookup-insert_self, =?_refl}
use echonet_list.Handler.Identifiers.{Device}
use echonet_list.Handler.LocalObjects.{DeviceProperties}
use echonet_list.Handler.Aliases.{
  DeviceAliases, AliasError, validate_device_alias, register, find_by_alias,
}
use echonet_list.Handler.Devices.{
  Devices, FilterCriteria, filter, objects_at, is_known_device, at_ip,
}
use echonet_list.Handler.Devices.Known.{same_device, same_device_lem, is_known_device-keys}
use echonet_list.Handler.Instances.{list_each, list_ip_and_eoj, len, parse_ip}
use echonet_list.Handler.Instances.Members.{listed}
use echonet_list.Handler.Instances.Sync.{listed-at_ip}
use echonet_list.Handler.Data.{
  get_id_string, with_id, find_by_id_string, wrapped, alias_set, alias_get,
}

listed-append :
    (xs ys : List Device) (other : Device)
    → listed other (xs ++ ys) ≡ (listed other xs || listed other ys)
listed-append [] ys other = refl
listed-append (x ∷ xs) ys other = ground (arith, listed-append xs ys other)

-- A known device, whose address reads as one, is in the listing.
listed-list_each :
    (parses : Text → Bool) (device : Device) (table : List (Text × DeviceProperties))
    → parses device.ip ≡ true
    → contains (keys (or_else (lookup device.ip table) [])) device.eoj ≡ true
    → listed device (list_each parses table) ≡ true
unfolding list_each lookup keys
listed-list_each parses device [] reads known = known
listed-list_each parses device ((ip, objects) ∷ table) reads known =
    listed-append (at_ip (parse_ip parses ip) (keys objects)) (list_each parses table) device
    ∙ elim (Bool-cases (ip =? device.ip)) [
      | inr other ↦ ground (arith, listed-list_each parses device table reads (rw other at known))
      | inl this ↦
          let same : ip ≡ device.ip = (text_beq_iff _ _).0 this in
          let here : contains (keys objects) device.eoj ≡ true = rw this at known in
          let read : parse_ip parses ip ≡ device.ip = unfold parse_ip in rw same (rw reads refl) in
          let equal : (device.ip =? device.ip) ≡ true = =?_refl device.ip in
          rw read (ground (arith, listed-at_ip device.ip (keys objects) device))
    ]

-- A listed device with the wanted id is found, or one before it with the same id.
with_id-listed :
    (id : Text) (d : Devices) (devices : List Device) (device : Device)
    → listed device devices ≡ true
    → get_id_string device d ≡ id
    → (x : Device) × (rest : List Device) × (with_id id d devices ≡ x ∷ rest)
      × (get_id_string x d ≡ id)
unfolding with_id
with_id-listed id d [] device here e = cc
with_id-listed id d (y ∷ devices) device here e = elim (Bool-cases (get_id_string y d =? id)) [
  | inl match ↦ (y, with_id id d devices, rw (with_id, match) refl, (text_beq_iff _ _).0 match)
  | inr differs ↦ elim (Bool-cases (same_device y device)) [
    | inl same ↦
        let (i, o) = same_device_lem y device same in
        let one : y ≡ device = cc in
        absurd (
          cc (
            differs,
            (text_beq_iff (get_id_string y d) id).1 (ap (λ x. get_id_string x d) one ∙ e),
          ))
    | inr apart ↦
        let (x, rest, found, same) = with_id-listed id d devices device (ground arith) e in
        (x, rest, rw (with_id, differs) found, same)
  ]
]

wrapped-ok : {A : Type 0} (r : Result AliasError A) (a : A) → wrapped r ≡ ok a → r ≡ ok a
unfolding wrapped
wrapped-ok (ok x) a e = cc e
wrapped-ok (err x) a e = absurd (cc e)
wrapped-ok panic a e = absurd (cc e)

-- What a registration that succeeds stores.
find_by_alias-register :
    (alias id : Text) (a a' : DeviceAliases)
    → register alias id a ≡ ok a'
    → find_by_alias alias a' ≡ some id
unfolding register find_by_alias
find_by_alias-register alias id a a' e =
    let (valid, v, rest) = >>=-eq-ok (validate_device_alias alias) _ e in
    elim (Bool-cases (has alias a)) [
      | inl taken ↦ absurd (cc (rw taken at rest))
      | inr free ↦
          let stored : insert alias id a ≡ a' = cc (rw free at rest) in
          rw (sym stored) (lookup-insert_self alias id a)
    ]

-- An id is a text that is not empty.
find_by_id_string-text :
    (parses : Text → Bool) (id : Text) (d : Devices)
    → id ≢ []
    → find_by_id_string parses id d ≡ with_id id d (list_ip_and_eoj parses d)
unfolding find_by_id_string
find_by_id_string-text parses [] d text = absurd (text refl)
find_by_id_string-text parses (c ∷ id) d text = refl

-- What an alias that was set stands for: the id of the first device that matches.
alias_set-register :
    (parses : Text → Bool) (alias : Text) (c : FilterCriteria) (d : Devices) (a a' : DeviceAliases)
    (found : Device) (others : List Device)
    → list_ip_and_eoj parses (filter parses c d) ≡ found ∷ others
    → alias_set parses alias c d a ≡ ok a'
    → (get_id_string found d ≢ []) × (register alias (get_id_string found d) a ≡ ok a')
unfolding alias_set
alias_set-register parses alias c d a a' found others first set =
    elim (Bool-cases (len (filter parses c d) == 0)) [
      | inl nothing ↦ absurd (cc (rw nothing at set))
      | inr some_device ↦ elim (Bool-cases (ltb 1 (len (filter parses c d)))) [
        | inl many ↦ absurd (cc (rw (some_device, many) at set))
        | inr one ↦ elim (Bool-cases (length (get_id_string found d) == 0)) [
          | inl empty ↦ absurd (cc (rw (some_device, one, first, empty) at set))
          | inr text ↦ (
            λ nil. absurd (cc (rw nil at text)),
            wrapped-ok _ a' (rw (some_device, one, first, text) at set),
          )
        ]
      ]
    ]

-- An alias that was set for a known device whose address reads as one is found again: it gives a
-- device with the same id.
pub alias_get-alias_set :
    (parses : Text → Bool) (alias : Text) (c : FilterCriteria) (d : Devices) (a a' : DeviceAliases)
    (found : Device) (others : List Device)
    → list_ip_and_eoj parses (filter parses c d) ≡ found ∷ others
    → is_known_device found d ≡ true
    → parses found.ip ≡ true
    → alias_set parses alias c d a ≡ ok a'
    → (device : Device) × (alias_get parses (some alias) d a' ≡ ok device)
      × (get_id_string device d ≡ get_id_string found d)
unfolding list_ip_and_eoj objects_at alias_get with_id-listed
alias_get-alias_set parses alias c d a a' found others first known reads set =
    let (text, stored) = alias_set-register parses alias c d a a' found others first set in
    let looked = find_by_alias-register alias (get_id_string found d) a a' stored in
    let inside =
      listed-list_each parses found d.data_by_ip reads
        (sym (is_known_device-keys found d) ∙ known) in
    let (device, rest, met, same) =
      with_id-listed (get_id_string found d) d (list_ip_and_eoj parses d) found inside refl in
    (
      device,
      rw (alias_get, looked, find_by_id_string-text parses (get_id_string found d) d text, met)
          refl,
      same,
    )
