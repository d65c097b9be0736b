-- ===== src/Handler/Helpers/RoundTrip.antt =====
-- That the printed bytes and the keys of devices are read back.
use echonet_list.Base.{
  ℕ, ◌+◌, ◌*◌, ◌/◌, ◌%◌, ◌^◌, ◌<◌, ◌≡◌, ◌≢◌, refl, ap, ◌∙◌, arith, Bool, true, false, List, [], ◌∷◌,
  ◌++◌, some, ok, length, All, ◌==◌, Bool-cases, inl, inr, All-append,
}
use echonet_list.Base.Keys.{Text}
use echonet_list.EchonetLite.Object.{class_code, instance_code}
use echonet_list.Handler.Identifiers.{
  Device, hex_digit, hex4, dec_byte, specifier, device_key, parse_uint,
}
use echonet_list.Handler.Identifiers.Laws.{
  one_digit, parse_digits_done, digit_value-hex_digit, parse_eoj-specifier,
}
use echonet_list.Handler.Data.{hex_bytes}
use echonet_list.Handler.Helpers.{
  parse_hex_loop, parse_hex_string, is_space, words, fields, parse_device_parts,
  parse_device_identifier,
}

parse_uint-byte :
    (b : ℕ)
    → b < 256
    → parse_uint 16 256 (hex_digit (b / 16 % 16) ∷ hex_digit (b % 16) ∷ []) ≡ some b
unfolding parse_uint
parse_uint-byte b h =
    let x : ℕ = b / 16 % 16 in
    let y : ℕ = b % 16 in
    one_digit 16 256 0 (hex_digit x) x _ (digit_value-hex_digit x (omega arith)) (omega arith)
      (omega arith)
    ∙ one_digit 16 256 (0 * 16 + x) (hex_digit y) y _ (digit_value-hex_digit y (omega arith))
        (omega arith) (omega arith)
    ∙ parse_digits_done 16 256 _ b (omega arith)

parse_hex_step :
    (c d : ℕ) (s : Text) (b : ℕ) (bs : List ℕ)
    → parse_uint 16 256 (c ∷ d ∷ []) ≡ some b
    → parse_hex_loop s ≡ ok bs
    → parse_hex_loop (c ∷ d ∷ s) ≡ ok (b ∷ bs)
unfolding parse_hex_loop
parse_hex_step c d s b bs e rest = rw (parse_hex_loop, e, rest) refl

parse_hex_loop-hex_bytes :
    (bs : List ℕ) → All (λ b. b < 256) bs → parse_hex_loop (hex_bytes bs) ≡ ok bs
unfolding parse_hex_loop hex_bytes
parse_hex_loop-hex_bytes [] h = refl
parse_hex_loop-hex_bytes (b ∷ bs) (hb, h) =
    parse_hex_step _ _ (hex_bytes bs) b bs (parse_uint-byte b hb) (parse_hex_loop-hex_bytes bs h)

even-hex_bytes : (bs : List ℕ) → length (hex_bytes bs) ≡ 2 * length bs
unfolding hex_bytes
even-hex_bytes [] = refl
even-hex_bytes (b ∷ bs) = let rest = even-hex_bytes bs in omega arith

-- The text of bytes, two digits of `%X` for each, is read back by `ParseHexString`.
pub parse_hex_string-hex_bytes :
    (bs : List ℕ) → All (λ b. b < 256) bs → parse_hex_string (hex_bytes bs) ≡ ok bs
unfolding parse_hex_string
parse_hex_string-hex_bytes bs h =
    let even : length (hex_bytes bs) % 2 ≡ 0 = let e = even-hex_bytes bs in omega arith in
    rw even (parse_hex_loop-hex_bytes bs h)

-- A text with no space in it.
abbrev HasNoSpace : Text → Type 0
HasNoSpace = All (λ c. is_space c ≡ false)

words_one : (s : Text) → HasNoSpace s → words s ≡ (s, [])
unfolding words
words_one [] h = refl
words_one (c ∷ s) (hc, h) = rw (words_one s h, hc) refl

words_letter :
    (c : ℕ) (s word : Text) (rest : List Text)
    → is_space c ≡ false
    → words s ≡ (word, rest)
    → words (c ∷ s) ≡ (c ∷ word, rest)
unfolding words
words_letter c s word rest h e = rw (e, h) refl

words_gap :
    (s : Text) (x : ℕ) (t : Text) (rest : List Text)
    → words s ≡ (x ∷ t, rest)
    → words (b' ' ∷ s) ≡ ([], (x ∷ t) ∷ rest)
unfolding words is_space
words_gap s x t rest e =
    let word : (words s).0 ≡ x ∷ t = ap (λ p. p.0) e in
    let more : (words s).1 ≡ rest = ap (λ p. p.1) e in rw (word, more) refl

words_two :
    (s : Text) (x : ℕ) (t : Text)
    → HasNoSpace s
    → HasNoSpace (x ∷ t)
    → words (s ++ (b' ' ∷ x ∷ t)) ≡ (s, (x ∷ t) ∷ [])
words_two [] x t hs ht = words_gap (x ∷ t) x t [] (words_one (x ∷ t) ht)
words_two (c ∷ s) x t (hc, hs) ht = words_letter c _ s _ hc (words_two s x t hs ht)

fields_of :
    (s : Text) (x : ℕ) (t : Text) (rest : List Text)
    → words s ≡ (x ∷ t, rest)
    → fields s ≡ (x ∷ t) ∷ rest
unfolding fields
fields_of s x t rest e =
    let word : (words s).0 ≡ x ∷ t = ap (λ p. p.0) e in
    let more : (words s).1 ≡ rest = ap (λ p. p.1) e in rw (fields, word, more) refl

fields_two :
    (s t : Text)
    → s ≢ []
    → t ≢ []
    → HasNoSpace s
    → HasNoSpace t
    → fields (s ++ (b' ' ∷ t)) ≡ s ∷ t ∷ []
fields_two [] t some_s some_t hs ht = absurd (some_s refl)
fields_two (c ∷ s) [] some_s some_t hs ht = absurd (some_t refl)
fields_two (c ∷ s) (x ∷ t) some_s some_t hs ht = fields_of _ c s _ (words_two (c ∷ s) x t hs ht)

hex_digit_no_space : (d : ℕ) → d < 16 → is_space (hex_digit d) ≡ false
unfolding hex_digit is_space
hex_digit_no_space d h = ground arith

hex4-HasNoSpace : (c : ℕ) → HasNoSpace (hex4 c)
unfolding hex4
hex4-HasNoSpace c = (
  hex_digit_no_space (c / 4096 % 16) (omega arith),
  (
    hex_digit_no_space (c / 256 % 16) (omega arith),
    (
      hex_digit_no_space (c / 16 % 16) (omega arith),
      (hex_digit_no_space (c % 16) (omega arith), tt),
    ),
  ),
)

dec_byte-HasNoSpace : (i : ℕ) → i < 256 → HasNoSpace (dec_byte i)
unfolding dec_byte is_space
dec_byte-HasNoSpace i h = ground arith

specifier-HasNoSpace : (e : ℕ) → HasNoSpace (specifier e)
unfolding specifier
specifier-HasNoSpace e =
    let i : ℕ = instance_code e in
    let small : i < 256 = unfold instance_code in omega arith in
    elim (Bool-cases (i == 0)) [
      | inl whole ↦ rw whole (hex4-HasNoSpace (class_code e))
      | inr part ↦ rw part (
          All-append (λ c. is_space c ≡ false) (hex4 (class_code e)) (b':' ∷ dec_byte i)
            (hex4-HasNoSpace (class_code e)) (unfold is_space in refl, dec_byte-HasNoSpace i small))
    ]

specifier_nonempty : (e : ℕ) → instance_code e ≢ 0 → specifier e ≢ []
unfolding specifier hex4
specifier_nonempty e h nil =
    let part : (instance_code e == 0) ≡ false = ground arith in cc (rw part at nil)

-- A device whose address reads as one, is not the empty text and has no space in it, and whose 24-bit
-- object code has an instance code that is not 0, is read back from its key by
-- `ParseDeviceIdentifier`.
pub parse_device_identifier-device_key :
    (parses : Text → Bool) (device : Device)
    → parses device.ip ≡ true
    → device.ip ≢ []
    → All (λ c. is_space c ≡ false) device.ip
    → device.eoj < 2 ^ 24
    → instance_code device.eoj ≢ 0
    → parse_device_identifier parses (device_key device) ≡ ok device
unfolding parse_device_identifier device_key parse_device_parts
parse_device_identifier-device_key parses device reads text plain small nz =
    rw
      (
        fields_two device.ip (specifier device.eoj) text (specifier_nonempty device.eoj nz) plain
            (specifier-HasNoSpace device.eoj),
        reads,
        parse_eoj-specifier device.eoj small nz,
      )
      refl
