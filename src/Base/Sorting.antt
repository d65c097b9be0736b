-- ===== src/Base/Sorting.antt =====
-- `sort.Strings`: byte strings in their lexicographic order.
use echonet_list.Base.{
  Bool, true, false, ◌&&◌, ◌||◌, List, [], ◌∷◌, ltb, ◌==◌, if◌then◌else◌, Bool-cases, inl, inr,
}
use echonet_list.Base.Keys.{Text, ◌=?◌, text_eq, text_beq_iff, nat_eq}
use echonet_list.Base.Maps.{contains, Distinct}
use echonet_list.Base.{◌≡◌, refl, ap, ◌∙◌, arith}

unfoldable pub text_leb : Text → Text → Bool
text_leb [] t = true
text_leb (a ∷ s) [] = false
text_leb (a ∷ s) (b ∷ t) = ltb a b || (a == b && text_leb s t)

-- By the name of an entry.
unfoldable pub insert_sorted {ℓ} : {A : Type ℓ} → (A → Text) → A → List A → List A
insert_sorted name x [] = x ∷ []
insert_sorted name x (y ∷ ys) =
    let rest = insert_sorted name x ys in
    if text_leb (name x) (name y) then x ∷ y ∷ ys else y ∷ rest

unfoldable pub sort_by {ℓ} : {A : Type ℓ} → (A → Text) → List A → List A
sort_by name [] = []
sort_by name (x ∷ xs) = insert_sorted name x (sort_by name xs)

unfoldable pub sort_texts : List Text → List Text
sort_texts xs = sort_by (λ t. t) xs

contains-insert_sorted :
    (x t : Text) (ys : List Text) → contains (insert_sorted (λ t. t) x ys) t ≡ contains (x ∷ ys) t
unfolding insert_sorted
contains-insert_sorted x t [] = refl
contains-insert_sorted x t (y ∷ ys) = ground (arith, contains-insert_sorted x t ys)

contains-sort_by : (xs : List Text) (t : Text) → contains (sort_by (λ t. t) xs) t ≡ contains xs t
unfolding sort_by
contains-sort_by [] t = refl
contains-sort_by (x ∷ xs) t =
    contains-insert_sorted x t (sort_by (λ t. t) xs) ∙ ap (λ b. x =? t || b) (contains-sort_by xs t)

pub contains-sort_texts : (xs : List Text) (t : Text) → contains (sort_texts xs) t ≡ contains xs t
unfolding sort_texts
contains-sort_texts xs t = contains-sort_by xs t

insert_sorted-Distinct :
    (x : Text) (ys : List Text)
    → contains ys x ≡ false
    → Distinct ys
    → Distinct (insert_sorted (λ t. t) x ys)
unfolding insert_sorted
insert_sorted-Distinct x [] n h = (refl, tt)
insert_sorted-Distinct x (y ∷ ys) n (hy, h) = elim (Bool-cases (text_leb x y)) [
  | inl e ↦ rw e (n, (hy, h))
  | inr e ↦ rw e (
    contains-insert_sorted x y ys ∙ ground (arith, text_beq_iff x y, text_beq_iff y x),
    insert_sorted-Distinct x ys (ground arith) h,
  )
]

sort_by-Distinct : (xs : List Text) → Distinct xs → Distinct (sort_by (λ t. t) xs)
unfolding sort_by
sort_by-Distinct [] h = tt
sort_by-Distinct (x ∷ xs) (hx, h) =
    insert_sorted-Distinct x (sort_by (λ t. t) xs) (contains-sort_by xs x ∙ hx)
      (sort_by-Distinct xs h)

pub sort_texts-Distinct : (xs : List Text) → Distinct xs → Distinct (sort_texts xs)
unfolding sort_texts
sort_texts-Distinct xs h = sort_by-Distinct xs h
