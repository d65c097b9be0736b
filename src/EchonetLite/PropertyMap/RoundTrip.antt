-- ===== src/EchonetLite/PropertyMap/RoundTrip.antt =====
-- Decoding an encoded property map.
use echonet_list.Base.{
  ℕ, zero, suc, ◌+◌, ◌-◌, ◌*◌, ◌/◌, ◌%◌, ◌^◌, ◌≤◌, ◌<◌, ◌≡◌, refl, ap, ◌∙◌, arith, Bool, true,
  false, not, ◌&&◌, ◌||◌, List, [], ◌∷◌, some, length, replicate, All, ◌==◌, ltb, leb, Bool-cases,
  inl, inr,
}
use echonet_list.EchonetLite.PropertyMap.{
  has_epc, set_epc, or_at, row_bit, bitmap, encode_map, test_bit, decode_byte, decode_bitmap,
  collect, decode_map,
}
use echonet_list.EchonetLite.PropertyMap.Sets.{has_epc-set_epc, has_epc-collect}
use Prim.Native.Nat.{bit_or}

-- Over a small range, check every value by evaluation.
everywhere : (test : ℕ → Bool) (bound : ℕ) → Bool
everywhere test (suc last) = everywhere test last && test last
everywhere test zero = true

everywhere_at :
    (test : ℕ → Bool) (bound at : ℕ) → at < bound → everywhere test bound ≡ true → test at ≡ true
unfolding everywhere
everywhere_at test (suc last) at inside all_pass = ground (arith, everywhere_at test last at)
everywhere_at test zero at inside all_pass = absurd (omega arith)

same_bool : Bool → Bool → Bool
same_bool true b = b
same_bool false b = not b

same_bool→eq : (a b : Bool) → same_bool a b ≡ true → a ≡ b
unfolding same_bool
same_bool→eq a b h = ground arith

-- The bit `j` of `b | 1 << k`, over all bytes and bits.
bit_table :
    everywhere
      (λ b.
        everywhere
          (λ k.
            everywhere
              (λ j.
                same_bool (test_bit (bit_or b (2 ^ k)) j) (k == j || test_bit b j)
                && ltb (bit_or b (2 ^ k)) 256)
              8)
          8)
      256
    ≡ true
unfolding everywhere same_bool test_bit
bit_table = refl

or_bit :
    (b k j : ℕ)
    → b < 256
    → k < 8
    → j < 8
    → (test_bit (bit_or b (2 ^ k)) j ≡ (k == j || test_bit b j)) × (bit_or b (2 ^ k) < 256)
or_bit b k j hb hk hj =
    let e = everywhere_at _ 8 j hj (everywhere_at _ 8 k hk (everywhere_at _ 256 b hb bit_table)) in
    ground (arith, e, same_bool→eq (test_bit (bit_or b (2 ^ k)) j) (k == j || test_bit b j))

-- Bit `j` of byte `i`.
abbrev bit_at : List ℕ → ℕ → ℕ → Bool
bit_at [] i j = false
bit_at (b ∷ bs) zero j = test_bit b j
bit_at (b ∷ bs) (suc i) j = bit_at bs i j

abbrev IsByte : ℕ → Type 0
IsByte b = b < 256

or_at-length : (i v : ℕ) (bs : List ℕ) → length (or_at i v bs) ≡ length bs
unfolding or_at
or_at-length i v [] = refl
or_at-length zero v (b ∷ bs) = refl
or_at-length (suc i) v (b ∷ bs) = ap suc (or_at-length i v bs)

or_at-IsByte : (i k : ℕ) (bs : List ℕ) → k < 8 → All IsByte bs → All IsByte (or_at i (2 ^ k) bs)
unfolding or_at
or_at-IsByte i k [] hk h = tt
or_at-IsByte zero k (b ∷ bs) hk (hb, h) = ((or_bit b k 0 hb hk (omega arith)).1, h)
or_at-IsByte (suc i) k (b ∷ bs) hk (hb, h) = (hb, or_at-IsByte i k bs hk h)

bit_at-or_at :
    (i k i' j : ℕ) (bs : List ℕ)
    → i < length bs
    → k < 8
    → j < 8
    → All IsByte bs
    → bit_at (or_at i (2 ^ k) bs) i' j ≡ ((i == i' && k == j) || bit_at bs i' j)
unfolding or_at
bit_at-or_at i k i' j [] hi hk hj h = absurd (omega arith)
bit_at-or_at zero k zero j (b ∷ bs) hi hk hj (hb, h) = (or_bit b k j hb hk hj).0
bit_at-or_at zero k (suc i') j (b ∷ bs) hi hk hj (hb, h) = ground arith
bit_at-or_at (suc i) k zero j (b ∷ bs) hi hk hj (hb, h) = ground arith
bit_at-or_at (suc i) k (suc i') j (b ∷ bs) hi hk hj (hb, h) =
    ground (arith, bit_at-or_at i k i' j bs (omega arith) hk hj h)

-- The codes that a bitmap can hold.
abbrev pub IsEpc : ℕ → Type 0
IsEpc x = (128 ≤ x) × (x < 256)

small_power : (k : ℕ) → k < 8 → 2 ^ k % 256 ≡ 2 ^ k
small_power zero h = refl
small_power (suc zero) h = refl
small_power (suc (suc zero)) h = refl
small_power (suc (suc (suc zero))) h = refl
small_power (suc (suc (suc (suc zero)))) h = refl
small_power (suc (suc (suc (suc (suc zero))))) h = refl
small_power (suc (suc (suc (suc (suc (suc zero)))))) h = refl
small_power (suc (suc (suc (suc (suc (suc (suc zero))))))) h = refl
small_power (suc (suc (suc (suc (suc (suc (suc (suc k)))))))) h = absurd (omega arith)

row_bit_row : (x : ℕ) → IsEpc x → row_bit x ≡ 2 ^ (x / 16 - 8)
unfolding row_bit
row_bit_row x (lo, hi) =
    let row : (x / 16 + 256 - 8) % 256 ≡ x / 16 - 8 = omega arith in
    rw row (small_power (x / 16 - 8) (omega arith))

-- A code is known by its column and its row.
same_cell :
    (x y : ℕ) → IsEpc x → IsEpc y → (y % 16 == x % 16 && (y / 16 - 8 == x / 16 - 8)) ≡ (y == x)
same_cell x y hx hy = ground arith

or_regroup : (p q r : Bool) → (p || (q || r)) ≡ ((q || p) || r)
or_regroup p q r = ground arith

bit_at-bitmap :
    (x : ℕ) (m bs : List ℕ)
    → IsEpc x
    → All IsEpc m
    → length bs ≡ 16
    → All IsByte bs
    → bit_at (bitmap m bs) (x % 16) (x / 16 - 8) ≡ (has_epc x m || bit_at bs (x % 16) (x / 16 - 8))
unfolding bitmap
bit_at-bitmap x [] bs hx hm hl hb = unfold has_epc in refl
bit_at-bitmap x (y ∷ m) bs hx (hy, hm) hl hb =
    let k : ℕ = y / 16 - 8 in
    let hk : k < 8 = omega arith in
    rw (row_bit_row y hy) (
      bit_at-bitmap x m (or_at (y % 16) (2 ^ k) bs) hx hm (or_at-length (y % 16) (2 ^ k) bs ∙ hl)
        (or_at-IsByte (y % 16) k bs hk hb)
      ∙ rw (bit_at-or_at (y % 16) k (x % 16) (x / 16 - 8) bs (omega arith) hk (omega arith) hb) (
          rw (same_cell x y hx hy) (
            unfold has_epc in or_regroup (has_epc x m) (y == x) (bit_at bs (x % 16) (x / 16 - 8)))))

has_epc-decode_byte :
    (x k i b j : ℕ) (m : List ℕ)
    → x < 256
    → i < 16
    → j + k ≡ 8
    → has_epc x (decode_byte k i b j m)
      ≡ (has_epc x m || (i == x % 16 && (leb (j + 8) (x / 16) && test_bit b (x / 16 - 8))))
unfolding decode_byte
has_epc-decode_byte x zero i b j m hx hi hj = ground arith
has_epc-decode_byte x (suc k) i b j m hx hi hj = ground (
  arith,
  has_epc-decode_byte x k i b (j + 1) m hx hi (omega arith),
  has_epc-decode_byte x k i b (j + 1) (set_epc ((i + j * 16 + 0x80) % 256) m) hx hi (omega arith),
  has_epc-set_epc x ((i + j * 16 + 0x80) % 256) m,
)

has_epc-decode_bitmap :
    (x i : ℕ) (bs m : List ℕ)
    → x < 256
    → i + length bs ≤ 16
    → has_epc x (decode_bitmap i bs m)
      ≡ (has_epc x m || (leb 128 x && (leb i (x % 16) && bit_at bs (x % 16 - i) (x / 16 - 8))))
unfolding decode_bitmap
has_epc-decode_bitmap x i [] m hx hl = ground arith
has_epc-decode_bitmap x i (b ∷ bs) m hx hl =
    has_epc-decode_bitmap x (i + 1) bs (decode_byte 8 i b 0 m) hx (omega arith)
    ∙ rw (has_epc-decode_byte x 8 i b 0 m hx (omega arith) refl)
        (elim (Bool-cases (leb (i + 1) (x % 16))) [
          | inl later ↦
              let next : x % 16 - i ≡ suc (x % 16 - (i + 1)) = ground arith in
              rw (next, later) (ground arith)
          | inr now ↦ elim (Bool-cases (i == x % 16)) [
            | inl here ↦
                let zero_off : x % 16 - i ≡ 0 = ground arith in
                rw (zero_off, now, here) (ground arith)
            | inr past ↦ rw (now, past) (ground arith)
          ]
        ])

has_epc_below : (x : ℕ) (m : List ℕ) → x < 128 → All IsEpc m → has_epc x m ≡ false
unfolding has_epc
has_epc_below x [] h hm = refl
has_epc_below x (y ∷ m) h (hy, hm) = ground (arith, has_epc_below x m h hm)

blank-IsByte : All IsByte (replicate 16 0)
blank-IsByte = omega arith

zero_table : everywhere (λ j. not (test_bit 0 j)) 8 ≡ true
unfolding everywhere test_bit
zero_table = refl

zero_byte : (j : ℕ) → j < 8 → test_bit 0 j ≡ false
zero_byte j h = ground (arith, everywhere_at _ 8 j h zero_table)

bit_at-blank : (n i j : ℕ) → j < 8 → bit_at (replicate n 0) i j ≡ false
bit_at-blank zero i j h = refl
bit_at-blank (suc n) zero j h = zero_byte j h
bit_at-blank (suc n) (suc i) j h = bit_at-blank n i j h

bitmap-length : (m bs : List ℕ) → length (bitmap m bs) ≡ length bs
unfolding bitmap
bitmap-length [] bs = refl
bitmap-length (x ∷ m) bs =
    bitmap-length m (or_at (x % 16) (row_bit x) bs) ∙ or_at-length (x % 16) (row_bit x) bs

has_epc-nil : (x : ℕ) → has_epc x [] ≡ false
unfolding has_epc
has_epc-nil x = refl

decoded_bitmap :
    (x : ℕ) (m : List ℕ)
    → x < 256
    → All IsEpc m
    → has_epc x (decode_bitmap 0 (bitmap m (replicate 16 0)) []) ≡ has_epc x m
decoded_bitmap x m hx hm =
    has_epc-decode_bitmap x 0 (bitmap m (replicate 16 0)) [] hx
      (omega (arith, bitmap-length m (replicate 16 0)))
    ∙ elim (Bool-cases (leb 128 x)) [
      | inl high ↦
          let hx' : IsEpc x = (ground arith, hx) in
          let same : x % 16 - 0 ≡ x % 16 = omega arith in
          ground (
            arith,
            same,
            has_epc-nil x,
            bit_at-bitmap x m (replicate 16 0) hx' hm refl blank-IsByte,
            bit_at-blank 16 (x % 16) (x / 16 - 8) (omega arith),
          )
      | inr low ↦ ground (arith, has_epc-nil x, has_epc_below x m)
    ]

-- Encoding a set of property codes and decoding it gives the same set. The codes are those from
-- 0x80 to 0xff, and there are fewer than 256 of them.
pub decode_map-encode_map :
    (m : List ℕ)
    → All IsEpc m
    → length m < 256
    → (m' : List ℕ) × (decode_map (encode_map m) ≡ some m')
      × ((x : ℕ) → x < 256 → has_epc x m' ≡ has_epc x m)
decode_map-encode_map m hm hl = elim (Bool-cases (ltb (length m) 16)) [
  | inl short ↦ (
    collect m [],
    unfold decode_map encode_map in ground arith,
    λ x hx. ground (arith, has_epc-collect x m [], has_epc-nil x),
  )
  | inr long ↦ (
    decode_bitmap 0 (bitmap m (replicate 16 0)) [],
    unfold decode_map encode_map in ground (arith, bitmap-length m (replicate 16 0)),
    λ x hx. decoded_bitmap x m hx hm,
  )
]
