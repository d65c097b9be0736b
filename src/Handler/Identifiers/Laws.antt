-- ===== src/Handler/Identifiers/Laws.antt =====
-- Specifiers are read back, and keys tell devices apart.
use echonet_list.Base.{
  ℕ, ◌+◌, ◌*◌, ◌/◌, ◌%◌, ◌^◌, ◌<◌, ◌≡◌, ◌≢◌, refl, ap, ◌∙◌, arith, false, [], ◌∷◌, ◌++◌, some,
  length, All, ok, err, ◌==◌, ltb, leb, Bool-cases, inl, inr,
}
use echonet_list.Base.Keys.{Text}
use echonet_list.EchonetLite.Object.{class_code, instance_code}
use echonet_list.EchonetLite.Object.Laws.{make_eoj_of_parts}
use echonet_list.Handler.Identifiers.{
  hex_digit, hex4, dec_byte, specifier, bad_format, digit_value, parse_digits, parse_uint,
  split_colon, parse_class_code, parse_instance_code, parse_eoj_parts, parse_eoj,
}

pub digit_value-hex_digit : (d : ℕ) → d < 16 → digit_value (hex_digit d) ≡ d
unfolding digit_value hex_digit
digit_value-hex_digit d h = ground arith

digit_value-dec : (d : ℕ) → d < 10 → digit_value (48 + d) ≡ d
unfolding digit_value
digit_value-dec d h = ground arith

pub one_digit :
    (base limit n c d : ℕ) (s : Text)
    → digit_value c ≡ d
    → d < base
    → n * base + d < limit
    → parse_digits base limit n (c ∷ s) ≡ parse_digits base limit (n * base + d) s
unfolding parse_digits
one_digit base limit n c d s e hd hl =
    let digit : leb base d ≡ false = ground arith in
    let fits : leb limit (n * base + d) ≡ false = ground arith in rw e (rw (digit, fits) refl)

pub parse_digits_done : (base limit n m : ℕ) → n ≡ m → parse_digits base limit n [] ≡ some m
unfolding parse_digits
parse_digits_done base limit n m e = ap (λ k. some k) e

hex_step :
    (n d : ℕ) (s : Text)
    → d < 16
    → n * 16 + d < 65536
    → parse_digits 16 65536 n (hex_digit d ∷ s) ≡ parse_digits 16 65536 (n * 16 + d) s
hex_step n d s hd hl = one_digit 16 65536 n (hex_digit d) d s (digit_value-hex_digit d hd) hd hl

dec_step :
    (n d : ℕ) (s : Text)
    → d < 10
    → n * 10 + d < 256
    → parse_digits 10 256 n ((48 + d) ∷ s) ≡ parse_digits 10 256 (n * 10 + d) s
dec_step n d s hd hl = one_digit 10 256 n (48 + d) d s (digit_value-dec d hd) hd hl

parse_uint-hex4 : (c : ℕ) → c < 65536 → parse_uint 16 65536 (hex4 c) ≡ some c
unfolding hex4 parse_uint
parse_uint-hex4 c h =
    let a : ℕ = c / 4096 % 16 in
    let b : ℕ = c / 256 % 16 in
    let d : ℕ = c / 16 % 16 in
    let e : ℕ = c % 16 in
    hex_step 0 a _ (omega arith) (omega arith)
    ∙ hex_step (0 * 16 + a) b _ (omega arith) (omega arith)
    ∙ hex_step ((0 * 16 + a) * 16 + b) d _ (omega arith) (omega arith)
    ∙ hex_step (((0 * 16 + a) * 16 + b) * 16 + d) e _ (omega arith) (omega arith)
    ∙ parse_digits_done 16 65536 _ c (omega arith)

parse_uint-dec_byte : (i : ℕ) → i < 256 → parse_uint 10 256 (dec_byte i) ≡ some i
unfolding dec_byte
parse_uint-dec_byte i h = elim (Bool-cases (ltb i 10)) [
  | inl one ↦ rw one (
      unfold parse_uint in
      dec_step 0 i _ (ground arith) (omega arith) ∙ parse_digits_done 10 256 _ i (omega arith))
  | inr more ↦ elim (Bool-cases (ltb i 100)) [
    | inl two ↦
        rw (more, two)
          (unfold parse_uint in
            dec_step 0 (i / 10) _ (ground arith) (omega arith)
            ∙ dec_step (0 * 10 + i / 10) (i % 10) _ (omega arith) (omega arith)
            ∙ parse_digits_done 10 256 _ i (omega arith))
    | inr three ↦
        rw (more, three)
          (unfold parse_uint in
            dec_step 0 (i / 100) _ (omega arith) (omega arith)
            ∙ dec_step (0 * 10 + i / 100) (i / 10 % 10) _ (omega arith) (omega arith)
            ∙ dec_step ((0 * 10 + i / 100) * 10 + i / 10 % 10) (i % 10) _ (omega arith)
                (omega arith)
            ∙ parse_digits_done 10 256 _ i (omega arith))
  ]
]

pub parse_class_code-hex4 : (c : ℕ) → c < 65536 → parse_class_code (hex4 c) ≡ ok c
unfolding parse_class_code
parse_class_code-hex4 c h = ground (arith, parse_uint-hex4 c h, length_four c)
  where
    length_four : (c : ℕ) → length (hex4 c) ≡ 4
    length_four c = unfold hex4 in refl

parse_instance_code-dec_byte : (i : ℕ) → i < 256 → i ≢ 0 → parse_instance_code (dec_byte i) ≡ ok i
unfolding parse_instance_code
parse_instance_code-dec_byte i h nz = ground (arith, parse_uint-dec_byte i h)

-- A text with no colon in it.
abbrev IsPlain : Text → Type 0
IsPlain = All (λ c. c ≢ b':')

split_colon-plain : (s : Text) → IsPlain s → split_colon s ≡ s ∷ []
unfolding split_colon
split_colon-plain [] h = refl
split_colon-plain (c ∷ s) (hc, h) =
    let other : (c == b':') ≡ false = ground arith in rw (split_colon-plain s h) (rw other refl)

split_colon-two : (s t : Text) → IsPlain s → IsPlain t → split_colon (s ++ (b':' ∷ t)) ≡ s ∷ t ∷ []
unfolding split_colon
split_colon-two [] t hs ht = rw (split_colon-plain t ht) refl
split_colon-two (c ∷ s) t (hc, hs) ht =
    let other : (c == b':') ≡ false = ground arith in rw (split_colon-two s t hs ht) (rw other refl)

pub hex_digit_plain : (d : ℕ) → d < 16 → (hex_digit d ≢ b':') × (hex_digit d ≢ b' ')
unfolding hex_digit
hex_digit_plain d h = (ground arith, ground arith)

hex4-IsPlain : (c : ℕ) → IsPlain (hex4 c)
unfolding hex4
hex4-IsPlain c = (
  (hex_digit_plain (c / 4096 % 16) (omega arith)).0,
  (
    (hex_digit_plain (c / 256 % 16) (omega arith)).0,
    (
      (hex_digit_plain (c / 16 % 16) (omega arith)).0,
      ((hex_digit_plain (c % 16) (omega arith)).0, tt),
    ),
  ),
)

dec_byte-IsPlain : (i : ℕ) → i < 256 → IsPlain (dec_byte i)
unfolding dec_byte
dec_byte-IsPlain i h = ground arith

-- A 24-bit object code with an instance code that is not 0 is read back from its specifier.
pub parse_eoj-specifier :
    (e : ℕ) → e < 2 ^ 24 → instance_code e ≢ 0 → parse_eoj (specifier e) ≡ ok e
unfolding parse_eoj specifier parse_eoj_parts
parse_eoj-specifier e h nz =
    let c : ℕ = class_code e in
    let i : ℕ = instance_code e in
    let nonzero : (instance_code e == 0) ≡ false = ground arith in
    let hc : c < 65536 = unfold class_code in omega arith in
    let hi : i < 256 = unfold instance_code in omega arith in
    rw (nonzero, split_colon-two (hex4 c) (dec_byte i) (hex4-IsPlain c) (dec_byte-IsPlain i hi))
      (rw (parse_class_code-hex4 c hc, parse_instance_code-dec_byte i hi nz)
        (ap (λ n. ok n) (make_eoj_of_parts e h)))

-- The specifier of an object code whose instance code is 0 is never read back: it has no colon.
pub parse_eoj-specifier_zero :
    (e : ℕ) → instance_code e ≡ 0 → parse_eoj (specifier e) ≡ err bad_format
unfolding parse_eoj specifier parse_eoj_parts
parse_eoj-specifier_zero e z =
    rw z (rw (split_colon-plain (hex4 (class_code e)) (hex4-IsPlain (class_code e))) refl)
