-- ===== src/Handler/Identifiers.antt =====
-- The texts that name objects and devices: `EOJ.Specifier` and `IPAndEOJ.Key` of echonet_lite, and the
-- parsers of echonet_lite/handler/Helpers.go. A Go string is the list of its bytes, and an IP
-- address is the text that `net.IP.String` gives.
pub mod Laws
pub mod Keys
use echonet_list.Base.{
  ℕ, zero, suc, ◌+◌, ◌-◌, ◌*◌, ◌/◌, ◌%◌, Bool, true, false, ◌&&◌, ◌||◌, List, [], ◌∷◌, ◌++◌, Option,
  none, some, length, Result, ok, err, ◌>>=◌, ◌==◌, ltb, leb, if◌then◌else◌,
}
use echonet_list.Base.Keys.{Text}
use echonet_list.EchonetLite.Object.{class_code, instance_code, make_eoj}

-- One upper-case hexadecimal digit, as `%X` prints it.
unfoldable pub hex_digit : ℕ → ℕ
hex_digit d = if ltb d 10 then 48 + d else 55 + d

-- `%04X` of a class code.
unfoldable pub hex4 : ℕ → Text
hex4 c =
    hex_digit (c / 4096 % 16)
    ∷ hex_digit (c / 256 % 16)
    ∷ hex_digit (c / 16 % 16)
    ∷ hex_digit (c % 16)
    ∷ []

-- `%d` of an instance code.
unfoldable pub dec_byte : ℕ → Text
dec_byte i =
    if ltb i 10
    then (48 + i) ∷ []
    else if ltb i 100
    then (48 + i / 10) ∷ (48 + i % 10) ∷ []
    else (48 + i / 100) ∷ (48 + i / 10 % 10) ∷ (48 + i % 10) ∷ []

-- `EOJ.Specifier`: instance code 0 is left out.
unfoldable pub specifier : ℕ → Text
specifier e =
    if instance_code e == 0
    then hex4 (class_code e)
    else hex4 (class_code e) ++ (b':' ∷ dec_byte (instance_code e))

-- `IPAndEOJ`
pub record Device : Type 0 where
  pub ip : Text
  pub eoj : ℕ

-- `IPAndEOJ.Key`, which is `"%v %v"` of the address and the specifier.
unfoldable pub device_key : Device → Text
device_key d = d.ip ++ (b' ' ∷ specifier d.eoj)

pub data ParseError : Type 0 where
  bad_format bad_class_code bad_instance_code instance_out_of_range : ParseError

-- The value of a digit in `strconv.ParseUint`; 36 stands for a byte that is no digit or letter.
unfoldable pub digit_value : ℕ → ℕ
digit_value c =
    if leb b'0' c && leb c b'9'
    then c - 48
    else if leb b'a' c && leb c b'z'
    then c - 87
    else if leb b'A' c && leb c b'Z'
    then c - 55
    else 36

-- The digits of `strconv.ParseUint(s, base, bits)`; `none` is its error. Past the limit it fails too.
unfoldable pub parse_digits : ℕ → ℕ → ℕ → Text → Option ℕ
parse_digits base limit n [] = some n
parse_digits base limit n (c ∷ s) =
    let rest = parse_digits base limit (n * base + digit_value c) s in
    if leb base (digit_value c)
    then none
    else if leb limit (n * base + digit_value c)
    then none
    else rest

-- `strconv.ParseUint` for a base that is not 0: the empty string is an error.
unfoldable pub parse_uint : ℕ → ℕ → Text → Option ℕ
parse_uint base limit [] = none
parse_uint base limit (c ∷ s) = parse_digits base limit 0 (c ∷ s)

-- `strings.Split(s, ":")`
unfoldable pub split_colon : Text → List Text
split_colon [] = [] ∷ []
split_colon (c ∷ s) = elim (split_colon s) [
  | [] ↦ (c ∷ []) ∷ []
  | w ∷ ws ↦ if c == b':' then [] ∷ w ∷ ws else (c ∷ w) ∷ ws
]

-- `ParseEOJClassCodeString`
unfoldable pub parse_class_code : Text → Result ParseError ℕ
parse_class_code s =
    if length s == 4
    then elim (parse_uint 16 65536 s) [ none ↦ err bad_class_code | some c ↦ ok c ]
    else err bad_class_code

-- `ParseEOJInstanceCodeString`
unfoldable pub parse_instance_code : Text → Result ParseError ℕ
parse_instance_code s = elim (parse_uint 10 256 s) [
  | none ↦ err bad_instance_code
  | some i ↦ if i == 0 || ltb 255 i then err instance_out_of_range else ok i
]

unfoldable pub parse_eoj_parts : List Text → Result ParseError ℕ
parse_eoj_parts (class ∷ instance_text ∷ []) = do
  c ← parse_class_code class
  i ← parse_instance_code instance_text
  ok (make_eoj c i)
parse_eoj_parts _ = err bad_format

-- `ParseEOJString`
unfoldable pub parse_eoj : Text → Result ParseError ℕ
parse_eoj s = parse_eoj_parts (split_colon s)
