-- ===== src/Handler/Identifiers/Keys.antt =====
-- `IPAndEOJ.Key` tells devices apart.
use echonet_list.Base.{
  ℕ, ◌/◌, ◌%◌, ◌^◌, ◌<◌, ◌≡◌, ◌≢◌, refl, sym, ap, ◌∙◌, arith, true, [], ◌∷◌, ◌++◌, All, All-append,
  Result, ok, err, ◌==◌, Bool-cases, inl, inr,
}
use echonet_list.Base.Keys.{Text, text_eq}
use echonet_list.EchonetLite.Object.{class_code, instance_code}
use echonet_list.Handler.Identifiers.{
  hex4, dec_byte, specifier, Device, device_key, ParseError, parse_class_code, parse_eoj,
  bad_format,
}
use echonet_list.Handler.Identifiers.Laws.{
  parse_class_code-hex4, parse_eoj-specifier, parse_eoj-specifier_zero, hex_digit_plain,
}

ok_inj : {a b : ℕ} → ◌≡◌ {A = Result ParseError ℕ} (ok a) (ok b) → a ≡ b
ok_inj h = cc

not_ok : {a : ℕ} → ◌≡◌ {A = Result ParseError ℕ} (err bad_format) (ok a) → ⊥
not_ok h = cc

specifier_zero : (e : ℕ) → (instance_code e == 0) ≡ true → specifier e ≡ hex4 (class_code e)
unfolding specifier
specifier_zero e z = rw z refl

-- Two objects with the same specifier are the same.
specifier_injective : (a b : ℕ) → a < 2 ^ 24 → b < 2 ^ 24 → specifier a ≡ specifier b → a ≡ b
specifier_injective a b ha hb e = elim (Bool-cases (instance_code a == 0)) [
  | inl za ↦ elim (Bool-cases (instance_code b == 0)) [
    | inl zb ↦
        let classes : class_code a ≡ class_code b = ok_inj (
          sym (parse_class_code-hex4 (class_code a) (unfold class_code in omega arith))
          ∙ ap parse_class_code (sym (specifier_zero a za) ∙ e ∙ specifier_zero b zb)
          ∙ parse_class_code-hex4 (class_code b) (unfold class_code in omega arith)) in
        unfold class_code instance_code in ground arith
    | inr nb ↦ absurd (
        not_ok (
          sym (parse_eoj-specifier_zero a (ground arith))
          ∙ ap parse_eoj e
          ∙ parse_eoj-specifier b hb (ground arith)))
  ]
  | inr na ↦ elim (Bool-cases (instance_code b == 0)) [
    | inl zb ↦ absurd (
        not_ok (
          sym (parse_eoj-specifier_zero b (ground arith))
          ∙ ap parse_eoj (sym e)
          ∙ parse_eoj-specifier a ha (ground arith)))
    | inr nb ↦ ok_inj (
        sym (parse_eoj-specifier a ha (ground arith))
        ∙ ap parse_eoj e
        ∙ parse_eoj-specifier b hb (ground arith))
  ]
]

abbrev NoSpace : Text → Type 0
NoSpace = All (λ c. c ≢ b' ')

space_inside : (b t : Text) → NoSpace (b ++ (b' ' ∷ t)) → ⊥
space_inside [] t h = h.0 refl
space_inside (x ∷ b) t h = space_inside b t h.1

tail_eq : {x y : ℕ} {s t : Text} → x ∷ s ≡ y ∷ t → (x ≡ y) × (s ≡ t)
tail_eq h = (cc, cc)

split_at_last_space :
    (a b s t : Text) → NoSpace s → NoSpace t → a ++ (b' ' ∷ s) ≡ b ++ (b' ' ∷ t) → (a ≡ b) × (s ≡ t)
split_at_last_space [] [] s t hs ht e = (refl, (tail_eq e).1)
split_at_last_space [] (x ∷ b) s t hs ht e = absurd (space_inside b t (rw (tail_eq e).1 at hs))
split_at_last_space (x ∷ a) [] s t hs ht e = absurd (space_inside a s (rw (← (tail_eq e).1) at ht))
split_at_last_space (x ∷ a) (y ∷ b) s t hs ht e =
    let (heads, tails) = tail_eq e in
    let (same, rest) = split_at_last_space a b s t hs ht tails in (rw (heads, same) refl, rest)

specifier-NoSpace : (e : ℕ) → NoSpace (specifier e)
unfolding specifier
specifier-NoSpace e = elim (Bool-cases (instance_code e == 0)) [
  | inl z ↦ rw z (hex4-NoSpace (class_code e))
  | inr nz ↦ rw nz (
      All-append _ (hex4 (class_code e)) (b':' ∷ dec_byte (instance_code e))
        (hex4-NoSpace (class_code e))
        (omega arith, dec_byte-NoSpace (instance_code e) (unfold instance_code in omega arith)))
]
  where
    hex4-NoSpace : (c : ℕ) → NoSpace (hex4 c)
    hex4-NoSpace c =
        unfold hex4 in
        (
          (hex_digit_plain (c / 4096 % 16) (omega arith)).1,
          (
            (hex_digit_plain (c / 256 % 16) (omega arith)).1,
            (
              (hex_digit_plain (c / 16 % 16) (omega arith)).1,
              ((hex_digit_plain (c % 16) (omega arith)).1, tt),
            ),
          ),
        )

    dec_byte-NoSpace : (i : ℕ) → i < 256 → NoSpace (dec_byte i)
    dec_byte-NoSpace i h = unfold dec_byte in ground arith

-- Two devices whose object codes have 24 bits have the same key only if they are the same device.
pub device_key_injective :
    (d d' : Device)
    → d.eoj < 2 ^ 24
    → d'.eoj < 2 ^ 24
    → device_key d ≡ device_key d'
    → (d.ip ≡ d'.ip) × (d.eoj ≡ d'.eoj)
unfolding device_key
device_key_injective d d' h h' e =
    let (ips, specifiers) =
      split_at_last_space d.ip d'.ip (specifier d.eoj) (specifier d'.eoj) (specifier-NoSpace d.eoj)
        (specifier-NoSpace d'.eoj) e in
    (ips, specifier_injective d.eoj d'.eoj h h' specifiers)
