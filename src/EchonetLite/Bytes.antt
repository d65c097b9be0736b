-- ===== src/EchonetLite/Bytes.antt =====
-- Integers and byte slices: echonet_lite/utils/utils.go.
-- A `[]byte` is the list of its bytes, and `byte(n >> s)` is `n / 2 ^ s % 256`.
pub mod Laws
use echonet_list.Base.{
  ℕ, zero, suc, ◌+◌, ◌-◌, ◌*◌, ◌/◌, ◌%◌, ◌^◌, ◌≤◌, ◌<◌, Bool, ◌||◌, List, [], ◌∷◌, ◌++◌, length,
  Result, ok, err, panic, ltb, leb, if◌then◌else◌,
}
use Prim.Native.Nat.{bit_or}

abbrev pub IsByte : ℕ → Type 0
IsByte b = b < 256

abbrev pub u32 : ℕ
u32 = 2 ^ 32

-- The loop of `Uint32ToBytes`, with `k = size - i` rounds left: round `i` shifts by `(k - 1) * 8`.
unfoldable pub uint32_to_bytes_loop : ℕ → ℕ → List ℕ
uint32_to_bytes_loop n zero = []
uint32_to_bytes_loop n (suc k) = (n / 2 ^ (k * 8) % 256) ∷ uint32_to_bytes_loop n k

-- The call panics outside sizes 1 to 4; no error value is returned.
unfoldable pub uint32_to_bytes : {E : Type 0} → ℕ → ℕ → Result E (List ℕ)
uint32_to_bytes n size =
    if ltb size 1 || ltb 4 size then panic else ok (uint32_to_bytes_loop n size)

-- The loop of `BytesToUint32`: the byte at the head is shifted by eight bits for each one behind it.
unfoldable pub bytes_to_uint32_loop : ℕ → List ℕ → ℕ
bytes_to_uint32_loop n [] = n
bytes_to_uint32_loop n (b ∷ bs) = bytes_to_uint32_loop (bit_or n (b * 2 ^ (length bs * 8) % u32)) bs

unfoldable pub bytes_to_uint32 : {E : Type 0} → List ℕ → Result E ℕ
bytes_to_uint32 b =
    if ltb (length b) 1 || ltb 4 (length b) then panic else ok (bytes_to_uint32_loop 0 b)

-- `BytesToInt32` works on an int32, kept here as its bit pattern: `n <<= 8; n |= int32(b[i])`.
unfoldable pub bytes_to_int32_loop : ℕ → List ℕ → ℕ
bytes_to_int32_loop n [] = n
bytes_to_int32_loop n (b ∷ bs) = bytes_to_int32_loop (bit_or (n * 256 % u32) b) bs

-- The pattern before the loop: -1 if the top bit of the first byte is set, else 0.
unfoldable pub sign_fill : List ℕ → ℕ
sign_fill [] = 0
sign_fill (b ∷ bs) = if leb 128 b then u32 - 1 else 0

unfoldable pub bytes_to_int32 : {E : Type 0} → List ℕ → Result E ℕ
bytes_to_int32 b =
    if ltb (length b) 1 || ltb 4 (length b) then panic else ok (bytes_to_int32_loop (sign_fill b) b)

-- The chunks one after the other.
unfoldable pub flatten_bytes : List (List ℕ) → List ℕ
flatten_bytes [] = []
flatten_bytes (chunk ∷ chunks) = chunk ++ flatten_bytes chunks
