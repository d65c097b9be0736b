-- ===== src/EchonetLite/Descriptions/Texts.antt =====
-- Texts that are written and read back.
use echonet_list.Base.{
  ℕ, zero, suc, ◌-◌, ◌≤◌, ◌≡◌, ◌≢◌, refl, ap, ◌∙◌, arith, true, false, ◌&&◌, List, [], ◌∷◌, ◌++◌,
  All, some, length, length-append, length-replicate, replicate, append-nil, ◌==◌, ltb, leb,
  if◌then◌else◌, Bool-cases, inl, inr, ◌⊎◌,
}
use echonet_list.Base.Keys.{Text, nat_eq}
use echonet_list.EchonetLite.Descriptions.{StringDesc, from_string, until_nul, to_string}

-- No byte of the text is NUL.
abbrev pub NoNul : Text → Type 0
NoNul = All (λ b. b ≢ 0)

until_nul-zeros : (n : ℕ) → until_nul (replicate n 0) ≡ []
unfolding until_nul
until_nul-zeros zero = refl
until_nul-zeros (suc n) = refl

until_nul-NoNul : (s t : Text) → NoNul s → until_nul (s ++ t) ≡ s ++ until_nul t
unfolding until_nul
until_nul-NoNul [] t h = refl
until_nul-NoNul (b ∷ s) t (hb, h) =
    let more : (b == 0) ≡ false = ground arith in rw more (ap (◌∷◌ b) (until_nul-NoNul s t h))

until_nul_id : (s : Text) → NoNul s → until_nul s ≡ s
unfolding until_nul
until_nul_id [] h = refl
until_nul_id (b ∷ s) (hb, h) =
    let more : (b == 0) ≡ false = ground arith in rw more (ap (◌∷◌ b) (until_nul_id s h))

under :
    (max n k min : ℕ)
    → (ltb 0 max && ltb max n) ≡ false
    → k ≡ n
    → (max ≡ 0) ⊎ ((k ≤ max) ⊎ (k ≡ min))
under max n k min fits size = elim (Bool-cases (ltb 0 max)) [
  | inl bounded ↦ inr (inl (ground arith))
  | inr free ↦ inl (ground arith)
]

-- A text without NUL bytes that can be written has at least the least length, is no longer than that
-- or the greatest length, where there is one, and is read back as it was.
pub to_string-from_string :
    (d : StringDesc) (s : Text) (edt : List ℕ)
    → NoNul s
    → from_string d s ≡ some edt
    → (d.min_edt_len ≤ length edt)
      × ((d.max_edt_len ≡ 0) ⊎ ((length edt ≤ d.max_edt_len) ⊎ (length edt ≡ d.min_edt_len)))
      × (to_string d edt ≡ s)
unfolding from_string to_string
to_string-from_string d s edt clean written = elim (Bool-cases (length s == 0)) [
  | inl empty ↦ cc (rw (from_string, empty) at written)
  | inr full ↦ elim (Bool-cases (ltb (length s) d.min_edt_len)) [
    | inl short ↦
        let padding : List ℕ = replicate (d.min_edt_len - length s) 0 in
        let padded : some (s ++ padding) ≡ some edt = rw (from_string, full, short) at written in
        let same : edt ≡ s ++ padding = cc in
        let size : length edt ≡ d.min_edt_len =
          ap length same
          ∙ ground (
            arith,
            length-append s padding,
            length-replicate {A = ℕ} (d.min_edt_len - length s) 0,
          ) in
        let cut : (ltb 0 d.min_edt_len && leb (length edt) d.min_edt_len) ≡ true = ground arith in
        (
          omega arith,
          inr (inr size),
          rw (to_string, cut)
              (ap until_nul same
                ∙ until_nul-NoNul s padding clean
                ∙ ap (◌++◌ s) (until_nul-zeros (d.min_edt_len - length s))
                ∙ append-nil s),
        )
    | inr enough ↦ elim (Bool-cases (ltb 0 d.max_edt_len && ltb d.max_edt_len (length s))) [
      | inl long ↦ cc (rw (from_string, full, enough, long) at written)
      | inr fits ↦
          let plain : some s ≡ some edt = rw (from_string, full, enough, fits) at written in
          let same : edt ≡ s = cc in
          let size : length edt ≡ length s = ap length same in
          (
            ground arith,
            under d.max_edt_len (length s) (length edt) d.min_edt_len fits size,
            rw (to_string, same)
                (elim (ltb 0 d.min_edt_len && leb (length s) d.min_edt_len)
                  as (λ b. (if b then until_nul s else s) ≡ s) [
                    | true ↦ until_nul_id s clean
                    | false ↦ refl
                  ]),
          )
    ]
  ]
]
