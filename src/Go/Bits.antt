-- ===== src/Go/Bits.antt =====
-- Go's `|` on numbers whose binary digits do not overlap.
use Prim.Native.Nat.{max, bit_or, digits, bit_or-bitwise}
use slopvmrunner.Prelude.{ℕ, zero, suc, ◌+◌, ◌*◌, ◌/◌, ◌%◌, ◌≤◌, ◌<◌, ◌≡◌, refl, ap, arith}

abbrev or_digits : ℕ → ℕ → ℕ → ℕ
or_digits n a b = digits (λ b. b) max n a b

or_digits-fuel : (n m a b : ℕ) → a ≤ n → a ≤ m → or_digits n a b ≡ or_digits m a b
or_digits-fuel zero zero a b p q = refl
or_digits-fuel zero (suc m) zero b p q = refl
or_digits-fuel zero (suc m) (suc a) b p q = absurd (omega arith)
or_digits-fuel (suc n) zero zero b p q = refl
or_digits-fuel (suc n) zero (suc a) b p q = absurd (omega arith)
or_digits-fuel (suc n) (suc m) zero b p q = refl
or_digits-fuel (suc n) (suc m) (suc a) b p q =
    omega (arith, or_digits-fuel n m (suc a / 2) (b / 2) (omega arith) (omega arith))

bit_or-zero : (b : ℕ) → bit_or 0 b ≡ b
bit_or-zero b = bit_or-bitwise 0 b

bit_or_step : (a b : ℕ) → bit_or a b ≡ bit_or (a / 2) (b / 2) * 2 + max (a % 2) (b % 2)
bit_or_step zero b = omega (arith, bit_or-zero b, bit_or-zero (b / 2))
bit_or_step (suc a) b = omega (
  arith,
  bit_or-bitwise (suc a) b,
  bit_or-bitwise (suc a / 2) (b / 2),
  or_digits-fuel a (suc a / 2) (suc a / 2) (b / 2) (omega arith) (omega arith),
)

half : (c : ℕ) → c * 2 / 2 ≡ c
half c = omega arith

bit_or_double : (a c : ℕ) → bit_or a (c * 2) ≡ bit_or (a / 2) c * 2 + a % 2
bit_or_double a c = omega (arith, bit_or_step a (c * 2), ap (bit_or (a / 2)) (half c))

-- `b << k` before it is cut to the width of its type.
abbrev pub shift_left : ℕ → ℕ → ℕ
shift_left zero b = b
shift_left (suc k) b = shift_left k b * 2

-- A number of k digits beside one that is shifted by k digits.
pub bit_or-shift_left :
    (k a b : ℕ) → a < shift_left k 1 → bit_or a (shift_left k b) ≡ a + shift_left k b
bit_or-shift_left zero zero b h = omega (arith, bit_or-zero b)
bit_or-shift_left zero (suc a) b h = absurd (omega arith)
bit_or-shift_left (suc k) a b h =
    omega (arith, bit_or_double a (shift_left k b), bit_or-shift_left k (a / 2) b (omega arith))
