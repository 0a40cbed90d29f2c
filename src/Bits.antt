-- ===== src/Bits.antt =====
-- `|` of a shifted word and a word below the shift: the bits do not meet, so it is a sum.
use Prim.Native.Nat.{bit_or, bit_or-bitwise, digits}
use wasm_hot.Base.{ℕ, zero, suc, ◌+◌, ◌*◌, ◌/◌, ◌%◌, ◌^◌, ◌≤◌, ◌<◌, ◌≡◌, refl, ap, max, arith}

abbrev or_digits : ℕ → ℕ → ℕ → ℕ
or_digits n a b = digits (λ b. b) max n a b

or_digits_fuel : (n m a b : ℕ) → a ≤ n → a ≤ m → or_digits n a b ≡ or_digits m a b
or_digits_fuel zero zero a b p q = refl
or_digits_fuel zero (suc m) zero b p q = refl
or_digits_fuel zero (suc m) (suc a) b p q = absurd (omega arith)
or_digits_fuel (suc n) zero zero b p q = refl
or_digits_fuel (suc n) zero (suc a) b p q = absurd (omega arith)
or_digits_fuel (suc n) (suc m) zero b p q = refl
or_digits_fuel (suc n) (suc m) (suc a) b p q =
    omega (arith, or_digits_fuel n m (suc a / 2) (b / 2) (omega arith) (omega arith))

zero-bit_or : (b : ℕ) → bit_or 0 b ≡ b
zero-bit_or b = bit_or-bitwise 0 b

bit_or_step : (a b : ℕ) → bit_or a b ≡ bit_or (a / 2) (b / 2) * 2 + max (a % 2) (b % 2)
bit_or_step zero b = omega (arith, zero-bit_or b, zero-bit_or (b / 2))
bit_or_step (suc a) b = omega (
  arith,
  bit_or-bitwise (suc a) b,
  bit_or-bitwise (suc a / 2) (b / 2),
  or_digits_fuel a (suc a / 2) (suc a / 2) (b / 2) (omega arith) (omega arith),
)

-- 2 ^ k by doubling, in the form that the induction needs.
abbrev pub double : ℕ → ℕ → ℕ
double zero a = a
double (suc k) a = 2 * double k a

bit_or-zero_fuel : (n a : ℕ) → a ≤ n → bit_or a 0 ≡ a
bit_or-zero_fuel n zero h = zero-bit_or 0
bit_or-zero_fuel zero (suc a) h = absurd (omega arith)
bit_or-zero_fuel (suc n) (suc a) h =
    omega (arith, bit_or_step (suc a) 0, bit_or-zero_fuel n (suc a / 2) (omega arith))

pub bit_or-double : (k a b : ℕ) → b < double k 1 → bit_or (double k a) b ≡ double k a + b
bit_or-double zero a zero h = omega (arith, bit_or-zero_fuel a a)
bit_or-double zero a (suc b) h = absurd (omega arith)
bit_or-double (suc k) a b h =
    let half : 2 * double k a / 2 ≡ double k a = omega arith in
    let even : 2 * double k a % 2 ≡ 0 = omega arith in
    omega (
      arith,
      bit_or_step (2 * double k a) b,
      ap (λ (c : ℕ). bit_or c (b / 2)) half,
      bit_or-double k a (b / 2) (omega arith),
      even,
    )

-- (uint64_t(a) << 32) | b
pub bit_or-shift_32 : (a b : ℕ) → b < 2 ^ 32 → bit_or (a * 2 ^ 32) b ≡ a * 2 ^ 32 + b
bit_or-shift_32 a b h =
    let shifted : double 32 a ≡ a * 2 ^ 32 = omega arith in
    omega (arith, ap (λ (c : ℕ). bit_or c b) shifted, bit_or-double 32 a b (omega arith))
