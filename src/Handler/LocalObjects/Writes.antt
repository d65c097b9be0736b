-- ===== src/Handler/LocalObjects/Writes.antt =====
-- What `SetProperties` answers and what it leaves in the store.
use echonet_list.Base.{
  ℕ, ◌<◌, ◌≡◌, ◌≢◌, refl, ap, ◌∙◌, arith, Bool, true, false, ◌&&◌, List, [], ◌∷◌, Option, some, All,
  map, all, ◌==◌, if◌then◌else◌, or_else,
}
use echonet_list.Base.Keys.{nat_eq}
use echonet_list.Base.Maps.{lookup, insert, lookup-insert, lookup-insert_self}
use echonet_list.EchonetLite.Object.{instance_code}
use echonet_list.EchonetLite.Property.{Property}
use echonet_list.EchonetLite.PropertyMap.{has_epc}
use echonet_list.Handler.LocalObjects.{
  DeviceProperties, properties_of, set_all, set, writable_map, set_loop, set_properties,
}
use echonet_list.Handler.LocalObjects.Laws.{IsMappable, writable, writable_map_members}

-- The answer for one property: an empty EDT for success, the request itself for a refusal.
abbrev pub answer : (ℕ → Bool) → Property → Property
answer w p = if w p.epc then record p { edt = some [] } else p

-- The value of a code after the accepted writes of a request, in their order.
abbrev pub last_write : (ℕ → Bool) → ℕ → List Property → Option Property → Option Property
last_write w epc [] cur = cur
last_write w epc (p ∷ ps) cur =
    last_write w epc ps (if p.epc == epc && w p.epc then some p else cur)

abbrev written : ℕ → Property → DeviceProperties → DeviceProperties
written eoj p d = or_else (set eoj (p ∷ []) d) d

set-insert :
    (eoj : ℕ) (p : Property) (d : DeviceProperties)
    → instance_code eoj ≢ 0
    → set eoj (p ∷ []) d ≡ some (insert eoj (insert p.epc p (properties_of eoj d)) d)
unfolding set set_all
set-insert eoj p d hi = ground arith

written_value :
    (eoj epc : ℕ) (p : Property) (d : DeviceProperties)
    → instance_code eoj ≢ 0
    → lookup epc (properties_of eoj (written eoj p d))
      ≡ (if p.epc == epc then some p else lookup epc (properties_of eoj d))
unfolding properties_of
written_value eoj epc p d hi =
    rw (set-insert eoj p d hi)
      (rw (lookup-insert_self, or_else) (lookup-insert p.epc epc p (or_else (lookup eoj d) [])))

written_other :
    (eoj other : ℕ) (p : Property) (d : DeviceProperties)
    → eoj ≢ other
    → lookup other (written eoj p d) ≡ lookup other d
unfolding set
written_other eoj other p d ne =
    ground (arith, lookup-insert eoj other (set_all (p ∷ []) (properties_of eoj d)) d)

module _ (eoj : ℕ) (w : ℕ → Bool) (members : List ℕ)
    (known : (epc : ℕ) → epc < 256 → has_epc epc members ≡ w epc) where
  loop_answers :
      (ps : List Property) (d : DeviceProperties)
      → All (λ p. p.epc < 256) ps
      → ((set_loop eoj members ps d).0 ≡ map (answer w) ps)
        × ((set_loop eoj members ps d).1 ≡ all (λ p. w p.epc) ps)
  unfolding set_loop
  loop_answers [] d h = (refl, refl)
  loop_answers (p ∷ ps) d (hp, h) =
      let next : DeviceProperties = if w p.epc then written eoj p d else d in
      let (reps, success) = loop_answers ps next h in
      (
        rw (known p.epc hp) (ap (◌∷◌ (answer w p)) reps),
        rw (known p.epc hp) (ap (◌&&◌ (w p.epc)) success),
      )

  loop_value :
      (ps : List Property) (d : DeviceProperties) (epc : ℕ)
      → instance_code eoj ≢ 0
      → All (λ p. p.epc < 256) ps
      → lookup epc (properties_of eoj (set_loop eoj members ps d).2)
        ≡ last_write w epc ps (lookup epc (properties_of eoj d))
  unfolding set_loop
  loop_value [] d epc hi h = refl
  loop_value (p ∷ ps) d epc hi (hp, h) =
      let next : DeviceProperties = if w p.epc then written eoj p d else d in
      rw (known p.epc hp)
        (loop_value ps next epc hi h ∙ ap (last_write w epc ps) (stored (w p.epc) p d epc hi))
    where
      stored :
          (b : Bool) (p : Property) (d : DeviceProperties) (epc : ℕ)
          → instance_code eoj ≢ 0
          → lookup epc (properties_of eoj (if b then written eoj p d else d))
            ≡ (if p.epc == epc && b then some p else lookup epc (properties_of eoj d))
      stored true p d epc hi = ground (arith, written_value eoj epc p d hi)
      stored false p d epc hi = ground arith

  loop_other :
      (ps : List Property) (d : DeviceProperties) (other : ℕ)
      → eoj ≢ other
      → All (λ p. p.epc < 256) ps
      → lookup other (set_loop eoj members ps d).2 ≡ lookup other d
  unfolding set_loop
  loop_other [] d other ne h = refl
  loop_other (p ∷ ps) d other ne (hp, h) =
      let next : DeviceProperties = if has_epc p.epc members then written eoj p d else d in
      loop_other ps next other ne h ∙ kept (has_epc p.epc members) p d
    where
      kept :
          (b : Bool) (p : Property) (d : DeviceProperties)
          → lookup other (if b then written eoj p d else d) ≡ lookup other d
      kept true p d = written_other eoj other p d ne
      kept false p d = refl

module _ (eoj : ℕ) (d : DeviceProperties) (ok : IsMappable eoj d) (ps : List Property)
    (bytes : All (λ p. p.epc < 256) ps) where
  -- For an object whose codes are property codes, fewer than 256 of them, a Set request of codes
  -- that are bytes answers each writable property with an empty EDT and each other one as it was
  -- requested, and succeeds exactly when all are writable.
  pub set_properties_answers :
      ((set_properties eoj ps d).0 ≡ map (answer (writable eoj d)) ps)
      × ((set_properties eoj ps d).1 ≡ all (λ p. writable eoj d p.epc) ps)
  unfolding set_properties
  set_properties_answers =
      loop_answers eoj (writable eoj d) (writable_map eoj d)
        (λ epc he. writable_map_members eoj epc d ok he) ps d bytes

  known : (epc : ℕ) → epc < 256 → has_epc epc (writable_map eoj d) ≡ writable eoj d epc
  known epc he = writable_map_members eoj epc d ok he

  -- For an object whose codes are property codes, fewer than 256 of them, and whose instance
  -- code is not 0, after a Set request of codes that are bytes every code holds the last value
  -- written to it if it is writable, and what it held before otherwise.
  pub set_properties_values :
      (epc : ℕ)
      → instance_code eoj ≢ 0
      → lookup epc (properties_of eoj (set_properties eoj ps d).2)
        ≡ last_write (writable eoj d) epc ps (lookup epc (properties_of eoj d))
  unfolding set_properties
  set_properties_values epc hi =
      loop_value eoj (writable eoj d) (writable_map eoj d) known ps d epc hi bytes

  -- Such a Set request leaves every other object as it was.
  set_properties_others :
      (other : ℕ) → eoj ≢ other → lookup other (set_properties eoj ps d).2 ≡ lookup other d
  unfolding set_properties
  set_properties_others other ne =
      loop_other eoj (writable eoj d) (writable_map eoj d) known ps d other ne bytes
