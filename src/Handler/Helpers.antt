-- ===== src/Handler/Helpers.antt =====
-- Parsers of what a user types: `ParseEPCString`, `ParseHexString` and `ParseDeviceIdentifier` of
-- echonet_lite/handler/Helpers.go, for texts of ASCII characters. Whether a text is the address that
-- `net.ParseIP` reads and `net.IP.String` prints again is a parameter.
pub mod RoundTrip
use echonet_list.Base.{
  ℕ, ◌%◌, Bool, true, false, not, ◌&&◌, ◌||◌, List, [], ◌∷◌, Option, none, some, length, Result, ok,
  err, panic, ◌>>=◌, ◌==◌, leb, if◌then◌else◌,
}
use echonet_list.Base.Keys.{Text}
use echonet_list.Handler.Identifiers.{Device, ParseError, parse_uint, parse_eoj}

pub data HelperError : Type 0 where
  not_two_digits bad_epc odd_length bad_byte bad_device bad_ip : HelperError
  bad_eoj : ParseError → HelperError

-- `ParseEPCString`
unfoldable pub parse_epc_string : Text → Result HelperError ℕ
parse_epc_string s =
    if not (length s == 2)
    then err not_two_digits
    else elim (parse_uint 16 256 s) [ none ↦ err bad_epc | some epc ↦ ok epc ]

-- The loop of `ParseHexString`, two digits at a time.
unfoldable pub parse_hex_loop : Text → Result HelperError (List ℕ)
parse_hex_loop [] = ok []
parse_hex_loop (c ∷ []) = panic
parse_hex_loop (c ∷ d ∷ s) =
    let rest = parse_hex_loop s in
    elim (parse_uint 16 256 (c ∷ d ∷ [])) [
      | none ↦ err bad_byte
      | some b ↦ rest >>= (λ bs. ok (b ∷ bs))
    ]

-- `ParseHexString`
unfoldable pub parse_hex_string : Text → Result HelperError (List ℕ)
parse_hex_string s = if length s % 2 == 0 then parse_hex_loop s else err odd_length

-- The ASCII characters that `strings.Fields` splits at.
unfoldable pub is_space : ℕ → Bool
is_space c = leb 9 c && leb c 13 || c == b' '

-- The first word of a text, up to a space, and the words after it.
unfoldable pub words : Text → Text × List Text
words [] = ([], [])
words (c ∷ s) =
    let (word, rest) = words s in
    if not (is_space c)
    then (c ∷ word, rest)
    else elim word [ [] ↦ ([], rest) | x ∷ xs ↦ ([], (x ∷ xs) ∷ rest) ]

-- `strings.Fields`
unfoldable pub fields : Text → List Text
fields s = let (word, rest) = words s in elim word [ [] ↦ rest | x ∷ xs ↦ (x ∷ xs) ∷ rest ]

unfoldable pub parse_device_parts : (Text → Bool) → List Text → Result HelperError Device
parse_device_parts parses (ip ∷ eoj_text ∷ []) =
    if parses ip
    then elim (parse_eoj eoj_text) [
      | ok eoj ↦ ok (record { ip = ip; eoj = eoj })
      | err e ↦ err (bad_eoj e)
      | panic ↦ panic
    ]
    else err bad_ip
parse_device_parts parses _ = err bad_device

-- `ParseDeviceIdentifier`
unfoldable pub parse_device_identifier : (Text → Bool) → Text → Result HelperError Device
parse_device_identifier parses s = parse_device_parts parses (fields s)
