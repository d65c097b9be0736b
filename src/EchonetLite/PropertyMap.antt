-- ===== src/EchonetLite/PropertyMap.antt =====
-- Property maps, the sets of property codes of an object: echonet_lite/PropertyMap.go.
-- The Go map is the list of its keys; its order stands for the order of a `range` over it.
pub mod Sets
pub mod RoundTrip
use echonet_list.Base.{
  ℕ, zero, suc, ◌+◌, ◌-◌, ◌*◌, ◌/◌, ◌%◌, ◌^◌, Bool, not, List, [], ◌∷◌, ◌++◌, Option, none, some,
  length, replicate, ◌==◌, ltb, if◌then◌else◌,
}
use echonet_list.Base.Keys.{nat_eq}
use echonet_list.Base.Maps.{contains}
use Prim.Native.Nat.{bit_and, bit_or}

-- `PropertyMap.Has`
unfoldable pub has_epc : ℕ → List ℕ → Bool
has_epc epc m = contains m epc

-- `PropertyMap.Set`
unfoldable pub set_epc : ℕ → List ℕ → List ℕ
set_epc epc m = if contains m epc then m else epc ∷ m

-- `PropertyMap.Delete`
unfoldable pub delete_epc : ℕ → List ℕ → List ℕ
delete_epc epc [] = []
delete_epc epc (x ∷ m) = let rest = delete_epc epc m in if x == epc then rest else x ∷ rest

-- `bytes[i] |= v`
unfoldable pub or_at : ℕ → ℕ → List ℕ → List ℕ
or_at i v [] = []
or_at zero v (b ∷ bs) = bit_or b v ∷ bs
or_at (suc i) v (b ∷ bs) = b ∷ or_at i v bs

-- `1 << ((epc >> 4) - 8)` on bytes: the subtraction wraps, and a shift by eight or more gives 0.
unfoldable pub row_bit : ℕ → ℕ
row_bit epc = 2 ^ ((epc / 16 + 256 - 8) % 256) % 256

-- The sixteen bytes behind the count: byte `epc & 0x0f` holds the bit of the code.
unfoldable pub bitmap : List ℕ → List ℕ → List ℕ
bitmap [] bs = bs
bitmap (epc ∷ m) bs = bitmap m (or_at (epc % 16) (row_bit epc) bs)

-- `PropertyMap.Encode`
unfoldable pub encode_map : List ℕ → List ℕ
encode_map m =
    if ltb (length m) 16 then length m % 256 ∷ m else length m % 256 ∷ bitmap m (replicate 16 0)

-- `b&(1<<j) != 0`
unfoldable pub test_bit : ℕ → ℕ → Bool
test_bit b j = not (bit_and b (2 ^ j) == 0)

-- The inner loop of `DecodePropertyMap` over the eight bits of byte `i`, from bit `j` on.
unfoldable pub decode_byte : ℕ → ℕ → ℕ → ℕ → List ℕ → List ℕ
decode_byte zero i b j m = m
decode_byte (suc k) i b j m =
    decode_byte k i b (j + 1) (if test_bit b j then set_epc ((i + j * 16 + 0x80) % 256) m else m)

unfoldable pub decode_bitmap : ℕ → List ℕ → List ℕ → List ℕ
decode_bitmap i [] m = m
decode_bitmap i (b ∷ bs) m = decode_bitmap (i + 1) bs (decode_byte 8 i b 0 m)

-- The codes listed one by one.
unfoldable pub collect : List ℕ → List ℕ → List ℕ
collect [] m = m
collect (epc ∷ bs) m = collect bs (set_epc epc m)

-- `DecodePropertyMap`: nil if the length does not fit the count.
unfoldable pub decode_map : List ℕ → Option (List ℕ)
decode_map [] = some []
decode_map (n ∷ bs) =
    if ltb n 16
    then (if length bs == n then some (collect bs []) else none)
    else (if length bs == 16 then some (decode_bitmap 0 bs []) else none)
