-- ===== src/Base/Maps.antt =====
-- A Go map as an association list. The order of the list stands for the order in which one
-- `range` over the map happens to walk it; a lookup does not depend on it.

use mathlib.Core.Path.{◌≡◌, refl, sym, ap, ◌∙◌}
use mathlib.Core.Logic.{inl, inr}
use mathlib.Core.Bool.{Bool, true, false, not, ◌&&◌, ◌||◌}
use mathlib.Core.Option.{Option, none, some}
use mathlib.Core.List.{List, [], ◌∷◌, ◌++◌}
use native.Mathlib.Omega.{arith}
use echonet_list.Base.Tests.{if◌then◌else◌, Bool-cases}
use echonet_list.Base.Keys.{Eq, ◌=?◌}

module _ {ℓ} {K : Type ℓ} ⦃e : Eq K⦄ where
  abbrev pub contains : List K → K → Bool
  contains [] a = false
  contains (x ∷ xs) a = x =? a || contains xs a

  -- No key twice.
  abbrev pub Distinct : List K → Type 0
  Distinct [] = Unit {0}
  Distinct (x ∷ xs) = (contains xs x ≡ false) × Distinct xs

  pub contains-append :
      (xs ys : List K) (a : K) → contains (xs ++ ys) a ≡ (contains xs a || contains ys a)
  contains-append [] ys a = refl
  contains-append (x ∷ xs) ys a = ground (arith, contains-append xs ys a)

  -- What a list holds already may stand behind it once more.
  pub contains_absorbed :
      (xs ys : List K) (x a : K)
      → contains xs x ≡ true
      → (contains xs a || contains ys a) ≡ (contains xs a || (x =? a || contains ys a))
  contains_absorbed xs ys x a known = elim (Bool-cases (x =? a)) [
    | inl h ↦
        let here : contains xs a ≡ true = ap (contains xs) (sym ((e.beq_iff x a).0 h)) ∙ known in
        rw here refl
    | inr h ↦ rw h refl
  ]

  -- A new element behind a list without duplicates.
  pub snoc-Distinct :
      (xs : List K) (x : K) → Distinct xs → contains xs x ≡ false → Distinct (xs ++ (x ∷ []))
  snoc-Distinct [] x h n = (refl, tt)
  snoc-Distinct (y ∷ xs) x (hy, h) n = (
    rw (contains-append xs (x ∷ []) y) (ground (arith, e.beq_iff x y, e.beq_iff y x)),
    snoc-Distinct xs x h (ground arith),
  )

  pub =?_refl : (k : K) → (k =? k) ≡ true
  =?_refl k = (e.beq_iff k k).1 refl

module _ {ℓ} {K V : Type ℓ} ⦃e : Eq K⦄ where
  unfoldable pub lookup : K → List (K × V) → Option V
  lookup k [] = none
  lookup k ((j, v) ∷ m) = if j =? k then some v else lookup k m

  unfoldable pub has : K → List (K × V) → Bool
  has k [] = false
  has k ((j, v) ∷ m) = j =? k || has k m

  unfoldable pub insert : K → V → List (K × V) → List (K × V)
  insert k v [] = (k, v) ∷ []
  insert k v ((j, w) ∷ m) = if j =? k then (k, v) ∷ m else (j, w) ∷ insert k v m

  -- `delete(m, k)`: no entry of the key is left.
  unfoldable pub delete : K → List (K × V) → List (K × V)
  delete k [] = []
  delete k ((j, w) ∷ m) = let rest = delete k m in if j =? k then rest else (j, w) ∷ rest

  unfoldable pub keys : List (K × V) → List K
  keys [] = []
  keys ((k, v) ∷ m) = k ∷ keys m

  pub lookup-insert :
      (k j : K) (v : V) (m : List (K × V))
      → lookup j (insert k v m) ≡ (if k =? j then some v else lookup j m)
  unfolding lookup insert
  lookup-insert k j v [] = refl
  lookup-insert k j v ((i, w) ∷ m) =
      ground (arith, e.beq_iff k j, e.beq_iff i k, e.beq_iff i j, lookup-insert k j v m)

  pub lookup-delete :
      (k j : K) (m : List (K × V)) → lookup j (delete k m) ≡ (if k =? j then none else lookup j m)
  unfolding lookup delete
  lookup-delete k j [] = ground arith
  lookup-delete k j ((i, w) ∷ m) =
      ground (arith, e.beq_iff k j, e.beq_iff i k, e.beq_iff i j, lookup-delete k j m)

  pub lookup-insert_self : (k : K) (v : V) (m : List (K × V)) → lookup k (insert k v m) ≡ some v
  lookup-insert_self k v m = rw (lookup-insert, =?_refl k)

  -- `_, ok := m[k]`
  pub has-lookup : (k : K) (m : List (K × V)) → (has k m ≡ false → lookup k m ≡ none)
  unfolding has lookup
  has-lookup k [] h = refl
  has-lookup k ((i, w) ∷ m) h = ground (arith, has-lookup k m)

  pub lookup-has : (k : K) (m : List (K × V)) → lookup k m ≡ none → has k m ≡ false
  unfolding has lookup
  lookup-has k [] h = refl
  lookup-has k ((i, w) ∷ m) h = ground (arith, lookup-has k m)

  pub has-contains : (k : K) (m : List (K × V)) → has k m ≡ contains (keys m) k
  unfolding has keys
  has-contains k [] = refl
  has-contains k ((i, w) ∷ m) = ground (arith, has-contains k m)

  pub has-insert : (k j : K) (v : V) (m : List (K × V)) → has j (insert k v m) ≡ (k =? j || has j m)
  unfolding has insert
  has-insert k j v [] = refl
  has-insert k j v ((i, w) ∷ m) =
      ground (arith, e.beq_iff k j, e.beq_iff i k, e.beq_iff i j, has-insert k j v m)

  pub has-delete : (k j : K) (m : List (K × V)) → has j (delete k m) ≡ (not (k =? j) && has j m)
  unfolding has delete
  has-delete k j [] = ground arith
  has-delete k j ((i, w) ∷ m) =
      ground (arith, e.beq_iff k j, e.beq_iff i k, e.beq_iff i j, has-delete k j m)

  pub insert-Distinct :
      (k : K) (v : V) (m : List (K × V)) → Distinct (keys m) → Distinct (keys (insert k v m))
  unfolding keys insert
  insert-Distinct k v [] h = (refl, tt)
  insert-Distinct k v ((i, w) ∷ m) (hi, h) = elim (Bool-cases (i =? k)) [
    | inl p ↦ ground (arith, e.beq_iff i k)
    | inr p ↦ ground (
      arith,
      insert-Distinct k v m h,
      has-contains i (insert k v m),
      has-contains i m,
      has-insert k i v m,
      e.beq_iff k i,
      e.beq_iff i k,
    )
  ]

  pub delete-Distinct :
      (k : K) (m : List (K × V)) → Distinct (keys m) → Distinct (keys (delete k m))
  unfolding keys delete
  delete-Distinct k [] h = tt
  delete-Distinct k ((i, w) ∷ m) (hi, h) = ground (
    arith,
    delete-Distinct k m h,
    has-contains i (delete k m),
    has-contains i m,
    has-delete k i m,
  )
