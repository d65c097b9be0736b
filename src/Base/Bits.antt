-- ===== src/Base/Bits.antt =====
-- `|` of disjoint bits is a sum.
use Prim.Native.Nat.{
  ℕ, zero, suc, ◌+◌, ◌*◌, ◌/◌, ◌%◌, ◌^◌, ◌≤◌, ◌<◌, max, bit_or, digits, bit_or-bitwise,
}
use mathlib.Core.Path.{◌≡◌, refl}
use native.Mathlib.Nat.{pow-suc}
use native.Mathlib.Omega.{arith}

abbrev digit_or : ℕ → ℕ → ℕ → ℕ
digit_or fuel x y = digits (λ y. y) max fuel x y

digit_or_fuel : (fuel gas x y : ℕ) → x ≤ fuel → x ≤ gas → digit_or fuel x y ≡ digit_or gas x y
digit_or_fuel zero zero x y hf hg = refl
digit_or_fuel zero (suc gas) zero y hf hg = refl
digit_or_fuel zero (suc gas) (suc x) y hf hg = absurd (omega arith)
digit_or_fuel (suc fuel) zero zero y hf hg = refl
digit_or_fuel (suc fuel) zero (suc x) y hf hg = absurd (omega arith)
digit_or_fuel (suc fuel) (suc gas) zero y hf hg = refl
digit_or_fuel (suc fuel) (suc gas) (suc x) y hf hg =
    omega (arith, digit_or_fuel fuel gas (suc x / 2) (y / 2) (omega arith) (omega arith))

zero-bit_or : (y : ℕ) → bit_or 0 y ≡ y
zero-bit_or y = bit_or-bitwise 0 y

bit_or_step : (x y : ℕ) → bit_or x y ≡ bit_or (x / 2) (y / 2) * 2 + max (x % 2) (y % 2)
bit_or_step zero y = omega (arith, zero-bit_or y, zero-bit_or (y / 2))
bit_or_step (suc x) y = omega (
  arith,
  bit_or-bitwise (suc x) y,
  bit_or-bitwise (suc x / 2) (y / 2),
  digit_or_fuel x (suc x / 2) (suc x / 2) (y / 2) (omega arith) (omega arith),
)

bit_or-zero_fuel : (fuel x : ℕ) → x ≤ fuel → bit_or x 0 ≡ x
bit_or-zero_fuel fuel zero le = refl
bit_or-zero_fuel zero (suc x) le = absurd (omega arith)
bit_or-zero_fuel (suc fuel) (suc x) le =
    omega (arith, bit_or_step (suc x) 0, bit_or-zero_fuel fuel (suc x / 2) (omega arith))

bit_or-zero : (x : ℕ) → bit_or x 0 ≡ x
bit_or-zero x = bit_or-zero_fuel x x (omega arith)

bit_or-double : (x y : ℕ) → bit_or (x * 2) y ≡ bit_or x (y / 2) * 2 + y % 2
bit_or-double x y =
    let half : x * 2 / 2 ≡ x = omega arith in rw (bit_or_step (x * 2) y, half) (omega arith)

-- The left operand has zeros in the k lowest bits, and the right one nothing above them.
pub bit_or_disjoint : (k x y : ℕ) → y < 2 ^ k → bit_or (x * 2 ^ k) y ≡ x * 2 ^ k + y
bit_or_disjoint zero x zero le = omega (arith, bit_or-zero (x * 2 ^ 0))
bit_or_disjoint zero x (suc y) le = absurd (omega arith)
bit_or_disjoint (suc k) x y le =
    let twice : x * 2 ^ suc k ≡ x * 2 ^ k * 2 = rw (pow-suc 2 k) (omega arith) in
    rw twice (
      omega (
        arith,
        bit_or-double (x * 2 ^ k) y,
        bit_or_disjoint k x (y / 2) (omega (arith, pow-suc 2 k)),
      ))
