-- ===== src/Handler/Devices/Selection.antt =====
-- What `Filter` selects.
use echonet_list.Base.{
  ℕ, ◌≡◌, ◌↔◌, ◌⊎◌, ◌||◌, refl, sym, ap, ◌∙◌, arith, Bool, true, false, List, [], ◌∷◌, Option, none,
  some, ◌==◌, or_else, if◌then◌else◌, Bool-cases, inl, inr,
}
use echonet_list.Base.Keys.{Text, ◌=?◌, nat_eq, text_eq, text_beq_iff}
use echonet_list.Base.Maps.{lookup, keys, contains, Distinct, has-contains, has-lookup, =?_refl}
use echonet_list.EchonetLite.Object.{class_code, instance_code}
use echonet_list.EchonetLite.Property.{Property, edt_bytes}
use echonet_list.Handler.LocalObjects.{EpcPropertyMap, DeviceProperties}
use echonet_list.Handler.Devices.{
  Devices, FilterCriteria, objects_at, allows_ip, matches, select, keep_nonempty, filter_data,
  filter, allows, value_matches, no_filter, is_offline,
}

-- The properties of an object that passes a test.
abbrev pub passing : (EpcPropertyMap → Bool) → Option EpcPropertyMap → Option EpcPropertyMap
passing keep none = none
passing keep (some props) = if keep props then some props else none

absent :
    (eoj : ℕ) (objects : DeviceProperties)
    → contains (keys objects) eoj ≡ false
    → lookup eoj objects ≡ none
absent eoj objects h = has-lookup eoj objects (has-contains eoj objects ∙ h)

lookup-select :
    (keep : ℕ → EpcPropertyMap → Bool) (eoj : ℕ) (objects : DeviceProperties)
    → Distinct (keys objects)
    → lookup eoj (select keep objects) ≡ passing (keep eoj) (lookup eoj objects)
unfolding select lookup keys
lookup-select keep eoj [] h = refl
lookup-select keep eoj ((i, props) ∷ objects) (hi, h) = elim (Bool-cases (i == eoj)) [
  | inl e ↦
      let same : i ≡ eoj = ground arith in
      let later : lookup eoj objects ≡ none = absent eoj objects (rw same at hi) in
      ground (arith, ap keep same, lookup-select keep eoj objects h, later)
  | inr e ↦ ground (arith, lookup-select keep eoj objects h)
]

keep_nonempty-lookup :
    (ip ip' : Text) (objects : DeviceProperties) (rest : List (Text × DeviceProperties))
    → (ip =? ip') ≡ true
    → or_else (lookup ip' rest) [] ≡ []
    → or_else (lookup ip' (keep_nonempty ip objects rest)) [] ≡ objects
unfolding keep_nonempty lookup
keep_nonempty-lookup ip ip' [] rest e h = h
keep_nonempty-lookup ip ip' (o ∷ objects) rest e h = rw e refl

keep_nonempty-other :
    (ip ip' : Text) (objects : DeviceProperties) (rest : List (Text × DeviceProperties))
    → (ip =? ip') ≡ false
    → lookup ip' (keep_nonempty ip objects rest) ≡ lookup ip' rest
unfolding keep_nonempty lookup
keep_nonempty-other ip ip' [] rest e = refl
keep_nonempty-other ip ip' (o ∷ objects) rest e = rw e refl

module _ (parses : Text → Bool) (c : FilterCriteria) (d : Devices) (ip : Text) where
  not_listed :
      (table : List (Text × DeviceProperties))
      → contains (keys table) ip ≡ false
      → or_else (lookup ip (filter_data parses c d table)) [] ≡ []
  unfolding filter_data lookup keys
  not_listed [] h = refl
  not_listed ((i, objects) ∷ table) h =
      let rest = filter_data parses c d table in
      ground (
        arith,
        not_listed table,
        keep_nonempty-other i ip (select (matches parses c d i) objects) rest,
      )

  selected_at :
      (table : List (Text × DeviceProperties))
      → Distinct (keys table)
      → or_else (lookup ip (filter_data parses c d table)) [] ≡ (
          if allows_ip c.ip ip
          then select (matches parses c d ip) (or_else (lookup ip table) [])
          else [])
  unfolding filter_data keys lookup
  selected_at [] h = unfold select in ground arith
  selected_at ((i, objects) ∷ table) (hi, h) = elim (Bool-cases (i =? ip)) [
    | inl e ↦
        let same : i ≡ ip = (text_beq_iff i ip).0 e in
        let rest = filter_data parses c d table in
        let later : or_else (lookup ip rest) [] ≡ [] = not_listed table (rw same at hi) in
        rw (same, =?_refl ip)
          (elim (Bool-cases (allows_ip c.ip ip)) [
            | inl a ↦ rw a (
                keep_nonempty-lookup ip ip (select (matches parses c d ip) objects) rest
                  (=?_refl ip) later)
            | inr a ↦ rw a later
          ])
    | inr e ↦ ground (
      arith,
      selected_at table h,
      keep_nonempty-other i ip (select (matches parses c d i) objects)
          (filter_data parses c d table),
    )
  ]

selected-objects_at :
    (parses : Text → Bool) (c : FilterCriteria) (d : Devices) (ip : Text) (eoj : ℕ)
    → Distinct (keys d.data_by_ip)
    → Distinct (keys (objects_at ip d))
    → lookup eoj (objects_at ip (filter parses c d)) ≡ (
        if allows_ip c.ip ip
        then passing (matches parses c d ip eoj) (lookup eoj (objects_at ip d))
        else none)
unfolding filter objects_at
selected-objects_at parses c d ip eoj outer inner =
    rw (selected_at parses c d ip d.data_by_ip outer) (elim (Bool-cases (allows_ip c.ip ip)) [
      | inl a ↦
          rw a
            (lookup-select (matches parses c d ip) eoj (or_else (lookup ip d.data_by_ip) []) inner)
      | inr a ↦ rw a (unfold lookup in refl)
    ])

-- One of the wanted properties is stored with the same bytes.
abbrev pub HasValue : List Property → EpcPropertyMap → Type 0
HasValue [] props = ⊥
HasValue (p ∷ ps) props =
    ((q : Property) × (lookup p.epc props ≡ some q) × (edt_bytes q.edt ≡ edt_bytes p.edt))
    ⊎ HasValue ps props

-- What the fields of the criteria ask of an object, one by one.
abbrev pub IsWanted : (Text → Bool) → FilterCriteria → Devices → Text → ℕ → EpcPropertyMap → Type 0
IsWanted parses c d ip eoj props =
    ((wanted : Text) → c.ip ≡ some wanted → ip ≡ wanted)
    × ((class : ℕ) → c.class_filter ≡ some class → class_code eoj ≡ class)
    × ((instance_wanted : ℕ)
        → c.instance_filter ≡ some instance_wanted
        → instance_code eoj ≡ instance_wanted)
    × (c.exclude_offline ≡ true
        → parses ip ≡ true
        → is_offline (record { ip = ip; eoj = eoj }) d ≡ false)
    × ((c.property_values ≡ []) ⊎ HasValue c.property_values props)

allows-asks : (o : Option ℕ) (x : ℕ) → (allows o x ≡ true) ↔ ((y : ℕ) → o ≡ some y → x ≡ y)
unfolding allows
allows-asks none x = (λ h y e. cc e, λ h. refl)
allows-asks (some z) x =
    (λ h y e. let same : z ≡ y = cc e in ground arith, λ h. let same = h z refl in ground arith)

allows_ip-asks :
    (o : Option Text) (ip : Text) → (allows_ip o ip ≡ true) ↔ ((y : Text) → o ≡ some y → ip ≡ y)
unfolding allows_ip
allows_ip-asks none ip = (λ h y e. cc e, λ h. refl)
allows_ip-asks (some z) ip =
    (λ h y e. (text_beq_iff ip z).0 h ∙ cc e, λ h. (text_beq_iff ip z).1 (h z refl))

abbrev holds : Property → Option Property → Bool
holds p none = false
holds p (some q) = edt_bytes q.edt =? edt_bytes p.edt

holds-some :
    (p : Property) (o : Option Property)
    → (holds p o ≡ true) ↔ ((q : Property) × (o ≡ some q) × (edt_bytes q.edt ≡ edt_bytes p.edt))
holds-some p none = (λ h. absurd (cc h), λ found. absurd (cc found.1))
holds-some p (some r) = (
  λ h. (r, refl, (text_beq_iff _ _).0 h),
  λ found.
      let same : r ≡ found.0 = cc found.1 in
      (text_beq_iff _ _).1 (ap (λ q. edt_bytes q.edt) same ∙ found.2),
)

or-true : (a b : Bool) → ((a || b) ≡ true) ↔ ((a ≡ true) ⊎ (b ≡ true))
or-true true b = (λ h. inl refl, λ h. refl)
or-true false b = (λ h. inr h, λ h. elim h [ inl e ↦ absurd (cc e) | inr e ↦ e ])

value_matches-step :
    (p : Property) (ps : List Property) (props : EpcPropertyMap)
    → value_matches (p ∷ ps) props ≡ (holds p (lookup p.epc props) || value_matches ps props)
unfolding value_matches
value_matches-step p ps props =
    elim (lookup p.epc props)
      as (λ o.
        (elim o as (λ x. Bool) [ none ↦ false | some q ↦ edt_bytes q.edt =? edt_bytes p.edt ]
          || value_matches ps props)
        ≡ (holds p o || value_matches ps props)) [ none ↦ refl | some q ↦ refl ]

value_matches-HasValue :
    (ps : List Property) (props : EpcPropertyMap)
    → (value_matches ps props ≡ true) ↔ HasValue ps props
value_matches-HasValue [] props = (λ h. absurd (unfold value_matches in cc h), λ h. absurd h)
value_matches-HasValue (p ∷ ps) props =
    let (there, back) = holds-some p (lookup p.epc props) in
    let (rest, rest') = value_matches-HasValue ps props in
    let (split, join) = or-true (holds p (lookup p.epc props)) (value_matches ps props) in
    let step = value_matches-step p ps props in
    (
      λ h. elim (split (sym step ∙ h)) [ inl e ↦ inl (there e) | inr e ↦ inr (rest e) ],
      λ h. step ∙ join (elim h [ inl e ↦ inl (back e) | inr e ↦ inr (rest' e) ]),
    )

values-asks :
    (ps : List Property) (props : EpcPropertyMap)
    → ((no_filter ps || value_matches ps props) ≡ true) ↔ ((ps ≡ []) ⊎ HasValue ps props)
unfolding no_filter
values-asks [] props = (λ h. inl refl, λ h. refl)
values-asks (p ∷ ps) props =
    let (there, back) = value_matches-HasValue (p ∷ ps) props in
    (λ h. inr (there h), λ h. elim h [ inl e ↦ absurd (cc e) | inr e ↦ back e ])

-- The tests of the loop ask for what the criteria say.
tests-IsWanted :
    (parses : Text → Bool) (c : FilterCriteria) (d : Devices) (ip : Text) (eoj : ℕ)
    (props : EpcPropertyMap)
    → ((allows_ip c.ip ip ≡ true) × (matches parses c d ip eoj props ≡ true))
      ↔ IsWanted parses c d ip eoj props
unfolding matches
tests-IsWanted parses c d ip eoj props =
    let (a, a') = allows_ip-asks c.ip ip in
    let (k, k') = allows-asks c.class_filter (class_code eoj) in
    let (i, i') = allows-asks c.instance_filter (instance_code eoj) in
    let (v, v') = values-asks c.property_values props in
    (
      λ h. (
        a h.0,
        k (ground (arith, h.1)),
        i (ground (arith, h.1)),
        λ x y. ground (arith, h.1),
        v (ground (arith, h.1)),
      ),
      λ w.
          let class = k' w.1 in
          let object = i' w.2 in let values = v' w.4 in (a' w.0, ground (arith, w.3)),
    )

passing-some :
    (keep : EpcPropertyMap → Bool) (o : Option EpcPropertyMap) (props : EpcPropertyMap)
    → (passing keep o ≡ some props) ↔ ((o ≡ some props) × (keep props ≡ true))
passing-some keep none props = (λ h. absurd (cc h), λ h. absurd (cc h.0))
passing-some keep (some x) props = elim (Bool-cases (keep x)) [
  | inl kept ↦ (
    λ h. let same = rw kept at h in (same, let one : x ≡ props = cc same in rw (sym one) kept),
    λ h. rw kept h.0,
  )
  | inr dropped ↦ (
    λ h. absurd (cc (rw dropped at h)),
    λ h. let one : x ≡ props = cc h.0 in absurd (cc (dropped, ap keep one ∙ h.1)),
  )
]

-- In a store without repeated keys, an object is in the result of `Filter`, with certain properties,
-- exactly when the store has it with these properties and it is wanted: its address, class and
-- instance are those of the criteria, where they name one; it is not offline, where offline
-- devices are excluded and its address can be read; and one of the wanted property values is
-- stored, where there are any.
pub filter-IsWanted :
    (parses : Text → Bool) (c : FilterCriteria) (d : Devices) (ip : Text) (eoj : ℕ)
    (props : EpcPropertyMap)
    → Distinct (keys d.data_by_ip)
    → Distinct (keys (objects_at ip d))
    → (lookup eoj (objects_at ip (filter parses c d)) ≡ some props)
      ↔ ((lookup eoj (objects_at ip d) ≡ some props) × IsWanted parses c d ip eoj props)
filter-IsWanted parses c d ip eoj props outer inner =
    let all = selected-objects_at parses c d ip eoj outer inner in
    let (wanted, tested) = tests-IsWanted parses c d ip eoj props in
    let (there, back) =
      passing-some (matches parses c d ip eoj) (lookup eoj (objects_at ip d)) props in
    elim (Bool-cases (allows_ip c.ip ip)) [
      | inl here ↦ (
        λ h.
            let (found, passes) = there (sym (rw here at all) ∙ h) in
            (found, wanted (here, passes)),
        λ h. rw here at all ∙ back (h.0, (tested h.1).1),
      )
      | inr away ↦
          (λ h. absurd (cc (sym (rw away at all) ∙ h)), λ h. absurd (cc (away, (tested h.1).0)))
    ]
