-- ===== src/Prelude/Bits.antt =====
-- Masks of a 64-bit word: `x & ~15` clears the four low bits.
use Prim.Native.Nat.{
  ℕ, zero, suc, ◌+◌, ◌-◌, ◌*◌, ◌/◌, ◌%◌, ◌^◌, ◌≤◌, ◌<◌, min, max, bit_and, bit_or, digits,
  bit_and-bitwise, bit_or-bitwise,
}
use mathlib.Core.Path.{◌≡◌, refl, ◌∙◌}
use native.Mathlib.Omega.{arith}

-- The conjunction of digits, with a bound on their number.
abbrev meet : ℕ → ℕ → ℕ → ℕ
meet n a b = digits (λ b. zero) min n a b

-- w ones, and w ones above k zeros
abbrev ones : ℕ → ℕ
ones zero = 0
ones (suc w) = 2 * ones w + 1

abbrev mask : ℕ → ℕ → ℕ
mask zero w = ones w
mask (suc k) w = 2 * mask k w

-- The number that the k low digits make, and that of the digits above them.
abbrev low : ℕ → ℕ → ℕ
low zero a = 0
low (suc k) a = 2 * low k (a / 2) + a % 2

abbrev high : ℕ → ℕ → ℕ
high zero a = a
high (suc k) a = high k (a / 2)

half_odd : (b : ℕ) → (2 * b + 1) / 2 ≡ b
half_odd b = omega arith

half_even : (b : ℕ) → 2 * b / 2 ≡ b
half_even b = omega arith

meet-ones : (n w a : ℕ) → a ≤ n → a ≤ ones w → meet n a (ones w) ≡ a
meet-ones zero w zero h k = refl
meet-ones zero w (suc a) h k = absurd (omega arith)
meet-ones (suc n) w zero h k = refl
meet-ones (suc n) zero (suc a) h k = absurd (omega arith)
meet-ones (suc n) (suc w) (suc a) h k =
    let rest = meet-ones n w (suc a / 2) (omega arith) (omega arith) in
    rw (half_odd (ones w)) (omega (arith, rest))

zero_low : (k : ℕ) → low k 0 ≡ 0
zero_low zero = refl
zero_low (suc k) = omega (arith, zero_low k)

meet-mask : (n k w a : ℕ) → a ≤ n → high k a ≤ ones w → meet n a (mask k w) + low k a ≡ a
meet-mask n zero w a h b = omega (arith, meet-ones n w a h b)
meet-mask zero (suc k) w zero h b = omega (arith, zero_low k)
meet-mask zero (suc k) w (suc a) h b = absurd (omega arith)
meet-mask (suc n) (suc k) w zero h b = omega (arith, zero_low k)
meet-mask (suc n) (suc k) w (suc a) h b =
    let rest = meet-mask n k w (suc a / 2) (omega arith) b in
    rw (half_even (mask k w)) (omega (arith, rest))

-- Clearing the four low bits of a word rounds it down to a multiple of 16.
pub bit_and-align : (a : ℕ) → a < 2 ^ 64 → bit_and a (2 ^ 64 - 16) ≡ a - a % 16
bit_and-align a h =
    let cleared = meet-mask a 4 60 a (omega arith) (omega arith) in
    omega (arith, cleared, bit_and-bitwise a (2 ^ 64 - 16))

-- The disjunction of digits, with a bound on their number.
abbrev join : ℕ → ℕ → ℕ → ℕ
join n a b = digits (λ b. b) max n a b

join-zero : (n a : ℕ) → a ≤ n → join n a 0 ≡ a
join-zero zero zero h = refl
join-zero zero (suc a) h = absurd (omega arith)
join-zero (suc n) zero h = refl
join-zero (suc n) (suc a) h = omega (arith, join-zero n (suc a / 2) (omega arith))

-- A number with k low zeros, and one of k digits.
join-add : (n k a b : ℕ) → a ≤ n → low k a ≡ 0 → high k b ≡ 0 → join n a b ≡ a + b
join-add n zero a b h zeros short = rw short (omega (arith, join-zero n a h))
join-add zero (suc k) zero b h zeros short = omega arith
join-add zero (suc k) (suc a) b h zeros short = absurd (omega arith)
join-add (suc n) (suc k) zero b h zeros short = omega arith
join-add (suc n) (suc k) (suc a) b h zeros short =
    let rest = join-add n k (suc a / 2) (b / 2) (omega arith) (omega arith) short in
    omega (arith, rest)

-- x << k, by k doublings
abbrev double : ℕ → ℕ → ℕ
double zero x = x
double (suc k) x = 2 * double k x

low-double : (k x : ℕ) → low k (double k x) ≡ 0
low-double zero x = refl
low-double (suc k) x = rw (half_even (double k x)) (omega (arith, low-double k x))

high_small : (k b : ℕ) → b < double k 1 → high k b ≡ 0
high_small zero b h = omega arith
high_small (suc k) b h = high_small k (b / 2) (omega arith)

bit_or-double : (k x b : ℕ) → b < double k 1 → bit_or (double k x) b ≡ double k x + b
bit_or-double k x b h =
    bit_or-bitwise (double k x) b
    ∙ join-add (double k x) k (double k x) b (omega arith) (low-double k x) (high_small k b h)

-- Bytes that stand side by side.
pub bit_or-24 : (x b : ℕ) → b < 2 ^ 24 → bit_or (x * 2 ^ 24) b ≡ x * 2 ^ 24 + b
bit_or-24 x b h =
    let e : x * 2 ^ 24 ≡ double 24 x = omega arith in rw e (bit_or-double 24 x b (omega arith))

pub bit_or-16 : (x b : ℕ) → b < 2 ^ 16 → bit_or (x * 2 ^ 16) b ≡ x * 2 ^ 16 + b
bit_or-16 x b h =
    let e : x * 2 ^ 16 ≡ double 16 x = omega arith in rw e (bit_or-double 16 x b (omega arith))

pub bit_or-8 : (x b : ℕ) → b < 2 ^ 8 → bit_or (x * 2 ^ 8) b ≡ x * 2 ^ 8 + b
bit_or-8 x b h =
    let e : x * 2 ^ 8 ≡ double 8 x = omega arith in rw e (bit_or-double 8 x b (omega arith))
