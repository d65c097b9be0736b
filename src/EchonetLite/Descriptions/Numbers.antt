-- ===== src/EchonetLite/Descriptions/Numbers.antt =====
-- Numbers that are written and read back.
use echonet_list.Base.{
  ℕ, ◌-◌, ◌*◌, ◌%◌, ◌^◌, ◌≤◌, ◌<◌, ◌≡◌, refl, sym, ap, ◌∙◌, arith, true, false, ◌||◌, List, some,
  length, ok, ◌==◌, ltb, leb,
}
use native.Mathlib.Nat.{mod-eq_of_lt}
use echonet_list.Base.Int.{ℤ, pos, negsuc, pos_part, neg_part, ◌+ℤ◌, ◌-ℤ◌, ltb_ℤ, +ℤ_cancel}
use echonet_list.Base.Keys.{nat_eq}
use echonet_list.EchonetLite.Bytes.{u32, uint32_to_bytes, uint32_to_bytes_loop, bytes_to_uint32}
use echonet_list.EchonetLite.Bytes.Laws.{
  length-uint32_to_bytes_loop, bytes_to_uint32-uint32_to_bytes_loop,
}
use echonet_list.EchonetLite.Descriptions.{
  NumberDesc, get_edt_len, to_uint32, int32_of, to_int32, in_range, from_int, to_int,
}

-- The integer is in the range of an int32.
abbrev pub IsInt32 : ℤ → Type 0
IsInt32 z = (pos_part z < 2147483648) × (neg_part z ≤ 2147483648)

to_int32_id : (z : ℤ) → IsInt32 z → to_int32 z ≡ z
unfolding to_int32 int32_of to_uint32
to_int32_id (pos n) h =
    let small : n % u32 ≡ n = omega arith in
    let low : ltb n 2147483648 ≡ true = ground arith in rw (small, low) refl
to_int32_id (negsuc n) h =
    let small : n % u32 ≡ n = omega arith in
    let high : ltb (u32 - 1 - n) 2147483648 ≡ false = ground arith in
    let below : leb u32 (u32 - 1 - n) ≡ false = ground arith in
    let back : u32 - (u32 - 1 - n) - 1 ≡ n = omega arith in
    rw small (rw high (rw below (ap negsuc back)))

-- What is in a range of int32 is an int32.
in_range-IsInt32 :
    (low high z : ℤ) → IsInt32 low → IsInt32 high → in_range low high z ≡ true → IsInt32 z
unfolding in_range
in_range-IsInt32 (pos l) (pos g) (pos n) hl hh h = (ground arith, omega arith)
in_range-IsInt32 (pos l) (pos g) (negsuc n) hl hh h = (omega arith, ground arith)
in_range-IsInt32 (pos l) (negsuc g) (pos n) hl hh h = (ground arith, omega arith)
in_range-IsInt32 (pos l) (negsuc g) (negsuc n) hl hh h = (omega arith, ground arith)
in_range-IsInt32 (negsuc l) (pos g) (pos n) hl hh h = (ground arith, omega arith)
in_range-IsInt32 (negsuc l) (pos g) (negsuc n) hl hh h = (omega arith, ground arith)
in_range-IsInt32 (negsuc l) (negsuc g) (pos n) hl hh h = (ground arith, omega arith)
in_range-IsInt32 (negsuc l) (negsuc g) (negsuc n) hl hh h = (omega arith, ground arith)

-- When the two bounds and the offset of a description are int32, its lower bound is not negative and
-- its length is one to four bytes, a number in the bounds whose code, the number and the offset
-- together, is not negative and fits those bytes and an int32 is written in that many bytes and read
-- back as it was.
pub to_int-from_int :
    {E : Type 0} (d : NumberDesc) (num : ℤ) (code : ℕ)
    → IsInt32 d.min
    → IsInt32 d.max
    → IsInt32 d.offset
    → ltb_ℤ d.min (pos 0) ≡ false
    → in_range d.min d.max num ≡ true
    → num +ℤ d.offset ≡ pos code
    → 1 ≤ get_edt_len d
    → get_edt_len d ≤ 4
    → code < 2147483648
    → code < 2 ^ (get_edt_len d * 8)
    → (edt : List ℕ) × (length edt ≡ get_edt_len d)
      × (from_int {E = E} d num ≡ ok (some edt))
      × (to_int {E = E} d edt ≡ ok (some num))
unfolding from_int to_int to_uint32 uint32_to_bytes
to_int-from_int {E} d num code hmin hmax hoff unsigned range sum lo hi int fits =
    let size : ℕ = get_edt_len d in
    let edt : List ℕ = uint32_to_bytes_loop code size in
    let len : length edt ≡ size = length-uint32_to_bytes_loop code size in
    let size_ok : (ltb size 1 || ltb 4 size) ≡ false = ground arith in
    let unwrapped : code % u32 ≡ code = omega arith in
    let whole : code % 2 ^ (size * 8) ≡ code = mod-eq_of_lt fits in
    let raw : bytes_to_uint32 {E = E} edt ≡ ok code =
      bytes_to_uint32-uint32_to_bytes_loop code size lo hi ∙ ap (λ k. ok k) whole in
    let positive : int32_of code ≡ pos code =
      unfold int32_of in (let low : ltb code 2147483648 ≡ true = ground arith in rw low refl) in
    let back : pos code -ℤ d.offset ≡ num =
      ap (λ z. z -ℤ d.offset) (sym sum) ∙ +ℤ_cancel num d.offset in
    let num_id : to_int32 num ≡ num =
      to_int32_id num (in_range-IsInt32 d.min d.max num hmin hmax range) in
    let same_size : (length edt == size) ≡ true = ground arith in
    (
      edt,
      len,
      rw (range, sum) (rw (size_ok, unwrapped) refl),
      rw (same_size, unsigned)
          (rw (raw, to_int32_id d.offset hoff, positive)
            (rw (back, num_id, to_int32_id d.min hmin, to_int32_id d.max hmax) (rw range refl))),
    )
