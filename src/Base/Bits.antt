-- ===== src/Base/Bits.antt =====
-- Bit operations at variables: the digit of a union, and the masks and unions of a byte codec.
use Prim.Native.Nat.{
  ℕ, zero, suc, ◌+◌, ◌*◌, ◌/◌, ◌%◌, ◌≤◌, ◌<◌, max, bit_or, digits, bit_or-bitwise,
}
use mathlib.Core.Path.{◌≡◌, refl, ap}
use mathlib.Core.Bool.{Bool, true, ◌&&◌}
use native.Mathlib.Omega.{arith}

-- A Boolean property of every number below a bound, by evaluation.
unfoldable pub holds_below : ℕ → (ℕ → Bool) → Bool
holds_below zero p = true
holds_below (suc n) p = p n && holds_below n p

pub holds_below_at : (n : ℕ) (p : ℕ → Bool) (x : ℕ) → holds_below n p ≡ true → x < n → p x ≡ true
unfolding holds_below
holds_below_at zero p x h lt = absurd (omega arith)
holds_below_at (suc n) p x h lt = ground (arith, holds_below_at n p x)

abbrev union : ℕ → ℕ → ℕ → ℕ
union n a b = digits (λ b. b) max n a b

union_fuel : (n m a b : ℕ) → a ≤ n → a ≤ m → union n a b ≡ union m a b
union_fuel zero zero a b p q = refl
union_fuel zero (suc m) zero b p q = refl
union_fuel zero (suc m) (suc a) b p q = absurd (omega arith)
union_fuel (suc n) zero zero b p q = refl
union_fuel (suc n) zero (suc a) b p q = absurd (omega arith)
union_fuel (suc n) (suc m) zero b p q = refl
union_fuel (suc n) (suc m) (suc a) b p q =
    omega (arith, union_fuel n m (suc a / 2) (b / 2) (omega arith) (omega arith))

zero-bit_or : (b : ℕ) → bit_or 0 b ≡ b
zero-bit_or b = bit_or-bitwise 0 b

pub bit_or_step : (a b : ℕ) → bit_or a b ≡ bit_or (a / 2) (b / 2) * 2 + max (a % 2) (b % 2)
bit_or_step zero b = omega (arith, zero-bit_or b, zero-bit_or (b / 2))
bit_or_step (suc a) b = omega (
  arith,
  bit_or-bitwise (suc a) b,
  bit_or-bitwise (suc a / 2) (b / 2),
  union_fuel a (suc a / 2) (suc a / 2) (b / 2) (omega arith) (omega arith),
)

bit_or-zero_fuel : (n a : ℕ) → a ≤ n → bit_or a 0 ≡ a
bit_or-zero_fuel n zero h = refl
bit_or-zero_fuel zero (suc a) h = absurd (omega arith)
bit_or-zero_fuel (suc n) (suc a) h =
    omega (arith, bit_or_step (suc a) 0, bit_or-zero_fuel n (suc a / 2) (omega arith))

pub bit_or-zero : (a : ℕ) → bit_or a 0 ≡ a
bit_or-zero a = bit_or-zero_fuel a a (omega arith)

-- A shift by one place moves the union by one place.
bit_or_double : (a b : ℕ) → bit_or (a * 2) b ≡ bit_or a (b / 2) * 2 + b % 2
bit_or_double a b =
    let e : a * 2 / 2 ≡ a = omega arith in rw (bit_or_step (a * 2) b, e) (omega arith)

-- `(a << 6) | b` is a sum, where `b` has six bits.
pub bit_or_six : (a b : ℕ) → b < 64 → bit_or (a * 64) b ≡ a * 64 + b
bit_or_six a b h =
    let e : a * 64 ≡ a * 2 * 2 * 2 * 2 * 2 * 2 = omega arith in
    let z : b / 2 / 2 / 2 / 2 / 2 / 2 ≡ 0 = omega arith in
    rw e (
      omega (
        arith,
        bit_or_double (a * 2 * 2 * 2 * 2 * 2) b,
        bit_or_double (a * 2 * 2 * 2 * 2) (b / 2),
        bit_or_double (a * 2 * 2 * 2) (b / 2 / 2),
        bit_or_double (a * 2 * 2) (b / 2 / 2 / 2),
        bit_or_double (a * 2) (b / 2 / 2 / 2 / 2),
        bit_or_double a (b / 2 / 2 / 2 / 2 / 2),
        ap (bit_or a) z,
        bit_or-zero a,
      ))
