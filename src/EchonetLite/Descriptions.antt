-- ===== src/EchonetLite/Descriptions.antt =====
-- The values of properties as numbers and texts: `NumberDesc` and `StringDesc` in
-- echonet_lite/PropertyDesc.go.
pub mod Numbers
pub mod Texts
use echonet_list.Base.{
  ℕ, ◌+◌, ◌-◌, ◌%◌, Bool, true, false, ◌&&◌, not, List, [], ◌∷◌, ◌++◌, Option, none, some, length,
  replicate, Result, ok, ◌>>=◌, ◌==◌, ltb, leb, if◌then◌else◌,
}
use echonet_list.Base.Int.{ℤ, pos, negsuc, ◌+ℤ◌, ◌-ℤ◌, sub_ℕ, ltb_ℤ}
use echonet_list.Base.Keys.{Text, nat_eq}
use echonet_list.EchonetLite.Bytes.{u32, uint32_to_bytes, bytes_to_uint32, bytes_to_int32}

pub record NumberDesc : Type 0 where
  pub min : ℤ
  pub max : ℤ
  pub offset : ℤ
  pub unit : Text
  pub edt_len : ℕ

-- `GetEDTLen`
unfoldable pub get_edt_len : NumberDesc → ℕ
get_edt_len d = if d.edt_len == 0 then 1 else d.edt_len

-- The conversion `uint32(z)`.
unfoldable pub to_uint32 : ℤ → ℕ
to_uint32 (pos n) = n % u32
to_uint32 (negsuc n) = u32 - 1 - n % u32

-- An int32 from its bit pattern.
unfoldable pub int32_of : ℕ → ℤ
int32_of n = if ltb n 2147483648 then pos n else sub_ℕ n u32

-- The conversion `int32(z)`.
unfoldable pub to_int32 : ℤ → ℤ
to_int32 z = int32_of (to_uint32 z)

unfoldable pub in_range : ℤ → ℤ → ℤ → Bool
in_range low high z = not (ltb_ℤ z low) && not (ltb_ℤ high z)

-- `FromInt`
unfoldable pub from_int : {E : Type 0} → NumberDesc → ℤ → Result E (Option (List ℕ))
from_int d num =
    if in_range d.min d.max num
    then (uint32_to_bytes (to_uint32 (num +ℤ d.offset)) (get_edt_len d) >>= λ b. ok (some b))
    else ok none

-- `ToInt` without its unit: the difference is that of two int32.
unfoldable pub to_int : {E : Type 0} → NumberDesc → List ℕ → Result E (Option ℤ)
to_int d edt =
    if length edt == get_edt_len d
    then ((if ltb_ℤ d.min (pos 0) then bytes_to_int32 edt else bytes_to_uint32 edt) >>= λ raw.
        let num = to_int32 (int32_of raw -ℤ to_int32 d.offset) in
        ok (if in_range (to_int32 d.min) (to_int32 d.max) num then some num else none))
    else ok none

pub record StringDesc : Type 0 where
  pub min_edt_len : ℕ
  pub max_edt_len : ℕ

-- `StringDesc.FromString`: a short text is filled up with NUL.
unfoldable pub from_string : StringDesc → Text → Option (List ℕ)
from_string d s =
    if length s == 0
    then none
    else if ltb (length s) d.min_edt_len
    then some (s ++ replicate (d.min_edt_len - length s) 0)
    else if ltb 0 d.max_edt_len && ltb d.max_edt_len (length s)
    then none
    else some s

-- The bytes before the first NUL.
unfoldable pub until_nul : List ℕ → List ℕ
until_nul [] = []
until_nul (b ∷ bs) = let rest = until_nul bs in if b == 0 then [] else b ∷ rest

-- `StringDesc.ToString`
unfoldable pub to_string : StringDesc → List ℕ → Text
to_string d edt =
    if ltb 0 d.min_edt_len && leb (length edt) d.min_edt_len then until_nul edt else edt
