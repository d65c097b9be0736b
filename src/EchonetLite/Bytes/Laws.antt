-- ===== src/EchonetLite/Bytes/Laws.antt =====
-- What the integer conversions of utils.go compute.
use echonet_list.Base.{
  ℕ, zero, suc, ◌+◌, ◌*◌, ◌%◌, ◌^◌, ◌≤◌, ◌<◌, ◌≡◌, refl, ap, ◌∙◌, arith, List, [], ◌∷◌, length, All,
  false, ok, ltb, ◌>>=◌,
}
use echonet_list.Base.Bits.{bit_or_disjoint}
use echonet_list.EchonetLite.Bytes.{
  IsByte, u32, uint32_to_bytes_loop, uint32_to_bytes, bytes_to_uint32_loop, bytes_to_uint32,
}
use Prim.Native.Nat.{bit_or}
use native.Mathlib.Numerals.{towards_suc}

-- The number that a big-endian byte string stands for.
unfoldable pub be : List ℕ → ℕ
be [] = 0
be (b ∷ bs) = b * 2 ^ (length bs * 8) + be bs

one_more_byte : (k : ℕ) → 2 ^ (suc k * 8) ≡ 256 * 2 ^ (k * 8)
one_more_byte k =
    let e : suc k * 8 ≡ k * 8 + 8 = omega arith in rw e (simp towards_suc (omega arith))

digit-lt : (b r p : ℕ) → b < 256 → r < p → b * p + r < 256 * p
digit-lt b r p hb hr = grind arith

be-lt : (bs : List ℕ) → All IsByte bs → be bs < 2 ^ (length bs * 8)
unfolding be
be-lt [] h = omega arith
be-lt (b ∷ bs) (hb, h) =
    rw (one_more_byte (length bs)) (digit-lt b (be bs) (2 ^ (length bs * 8)) hb (be-lt bs h))

shifted-lt : (b k : ℕ) → b < 256 → k < 4 → b * 2 ^ (k * 8) < u32
shifted-lt b zero hb hk = omega arith
shifted-lt b (suc zero) hb hk = omega arith
shifted-lt b (suc (suc zero)) hb hk = omega arith
shifted-lt b (suc (suc (suc zero))) hb hk = omega arith
shifted-lt b (suc (suc (suc (suc k)))) hb hk = absurd (omega arith)

pos_pow : (k : ℕ) → 0 < 2 ^ (k * 8)
pos_pow zero = omega arith
pos_pow (suc k) = rw (one_more_byte k) (omega (arith, pos_pow k))

below : (b p : ℕ) → b < 256 → 0 < p → b * p < 256 * p
below b p hb hp = grind arith

-- Each round keeps the bytes read so far above the ones to come.
bytes_to_uint32_loop-be :
    (m : ℕ) (bs : List ℕ)
    → length bs ≤ 4
    → All IsByte bs
    → bytes_to_uint32_loop (m * 2 ^ (length bs * 8)) bs ≡ m * 2 ^ (length bs * 8) + be bs
unfolding bytes_to_uint32_loop be
bytes_to_uint32_loop-be m [] hl h = omega arith
bytes_to_uint32_loop-be m (b ∷ bs) hl (hb, h) =
    let p : ℕ = 2 ^ (length bs * 8) in
    let q : ℕ = 2 ^ (suc (length bs) * 8) in
    let fits : b * p % u32 ≡ b * p = omega (arith, shifted-lt b (length bs) hb (omega arith)) in
    let wider : q ≡ 256 * p = one_more_byte (length bs) in
    let joined : bit_or (m * q) (b * p % u32) ≡ (m * 256 + b) * p = rw fits (
      bit_or_disjoint (suc (length bs) * 8) m (b * p)
        (rw wider (below b p hb (pos_pow (length bs))))
      ∙ rw wider (omega arith)) in
    rw joined (bytes_to_uint32_loop-be (m * 256 + b) bs (omega arith) h ∙ rw wider (omega arith))

be-uint32_to_bytes_loop : (n k : ℕ) → k ≤ 4 → be (uint32_to_bytes_loop n k) ≡ n % 2 ^ (k * 8)
unfolding be uint32_to_bytes_loop
be-uint32_to_bytes_loop n zero h = omega arith
be-uint32_to_bytes_loop n (suc zero) h = omega arith
be-uint32_to_bytes_loop n (suc (suc zero)) h = omega arith
be-uint32_to_bytes_loop n (suc (suc (suc zero))) h = omega arith
be-uint32_to_bytes_loop n (suc (suc (suc (suc zero)))) h = omega arith
be-uint32_to_bytes_loop n (suc (suc (suc (suc (suc k))))) h = absurd (omega arith)

pub length-uint32_to_bytes_loop : (n k : ℕ) → length (uint32_to_bytes_loop n k) ≡ k
unfolding uint32_to_bytes_loop
length-uint32_to_bytes_loop n zero = refl
length-uint32_to_bytes_loop n (suc k) = ap suc (length-uint32_to_bytes_loop n k)

uint32_to_bytes_loop-IsByte : (n k : ℕ) → All IsByte (uint32_to_bytes_loop n k)
unfolding uint32_to_bytes_loop
uint32_to_bytes_loop-IsByte n zero = tt
uint32_to_bytes_loop-IsByte n (suc k) = (omega arith, uint32_to_bytes_loop-IsByte n k)

uint32_to_bytes_loop-be :
    (bs : List ℕ) → length bs ≤ 4 → All IsByte bs → uint32_to_bytes_loop (be bs) (length bs) ≡ bs
unfolding uint32_to_bytes_loop be
uint32_to_bytes_loop-be [] hl h = refl
uint32_to_bytes_loop-be (a ∷ []) hl h = ground arith
uint32_to_bytes_loop-be (a ∷ b ∷ []) hl h = ground arith
uint32_to_bytes_loop-be (a ∷ b ∷ c ∷ []) hl h = ground arith
uint32_to_bytes_loop-be (a ∷ b ∷ c ∷ d ∷ []) hl h = ground arith
uint32_to_bytes_loop-be (a ∷ b ∷ c ∷ d ∷ e ∷ r) hl h = absurd (omega arith)

-- A byte string of one to four bytes is read as the number it stands for.
pub bytes_to_uint32-be :
    {E : Type 0} (bs : List ℕ)
    → 1 ≤ length bs
    → length bs ≤ 4
    → All IsByte bs
    → bytes_to_uint32 {E = E} bs ≡ ok (be bs)
unfolding bytes_to_uint32
bytes_to_uint32-be bs lo hi h = ground (arith, bytes_to_uint32_loop-be 0 bs hi h)

pub bytes_to_uint32-uint32_to_bytes_loop :
    {E : Type 0} (n size : ℕ)
    → 1 ≤ size
    → size ≤ 4
    → bytes_to_uint32 {E = E} (uint32_to_bytes_loop n size) ≡ ok (n % 2 ^ (size * 8))
bytes_to_uint32-uint32_to_bytes_loop n size lo hi =
    rw
      (bytes_to_uint32-be (uint32_to_bytes_loop n size)
        (omega (arith, length-uint32_to_bytes_loop n size))
        (omega (arith, length-uint32_to_bytes_loop n size)) (uint32_to_bytes_loop-IsByte n size))
      (ap (λ k. ok k) (be-uint32_to_bytes_loop n size hi))

-- For a size of 1 to 4, reading back what was written gives the number modulo 2 ^ (8 * size).
bytes_to_uint32-uint32_to_bytes :
    {E : Type 0} (n size : ℕ)
    → 1 ≤ size
    → size ≤ 4
    → (uint32_to_bytes {E = E} n size >>= bytes_to_uint32) ≡ ok (n % 2 ^ (size * 8))
unfolding uint32_to_bytes
bytes_to_uint32-uint32_to_bytes {E} n size lo hi =
    let lo' : ltb size 1 ≡ false = ground arith in
    let hi' : ltb 4 size ≡ false = ground arith in
    rw (lo', hi') (bytes_to_uint32-uint32_to_bytes_loop {E = E} n size lo hi)

-- Writing the number that one to four bytes stand for gives those bytes again.
uint32_to_bytes-bytes_to_uint32 :
    {E : Type 0} (bs : List ℕ)
    → 1 ≤ length bs
    → length bs ≤ 4
    → All IsByte bs
    → (bytes_to_uint32 {E = E} bs >>= λ n. uint32_to_bytes n (length bs)) ≡ ok bs
unfolding uint32_to_bytes
uint32_to_bytes-bytes_to_uint32 bs lo hi h =
    rw (bytes_to_uint32-be bs lo hi h) (ground (arith, uint32_to_bytes_loop-be bs hi h))
