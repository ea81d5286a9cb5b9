-- ===== src/Base/Bits.antt =====
-- The binary digits of a number, under `bit_or`, `bit_and` and powers of two.
use Prim.Native.Nat.{
  ℕ, zero, suc, ◌+◌, ◌-◌, ◌*◌, ◌/◌, ◌%◌, ◌^◌, ◌≤◌, ◌<◌, min, max, bit_or, bit_and, digits, bitwise,
  bit_or-bitwise, bit_and-bitwise,
}
use mathlib.Core.Path.{◌≡◌, refl, ap, sym}
use native.Mathlib.Omega.{arith}
use native.Mathlib.Nat.{pow-suc}
use bdtun.Base.Tests.{◌==◌, if◌then◌else◌, Bool-cases}
use mathlib.Core.Logic.{inl, inr}

-- The digit of weight `2 ^ k`.
abbrev pub bit : ℕ → ℕ → ℕ
bit zero n = n % 2
bit (suc k) n = bit k (n / 2)

-- The digit recursion that stands behind `bit_or` and `bit_and`: more steps than digits change
-- nothing, so one step of it splits off the lowest digit.
module _ (rest : ℕ → ℕ) (op : ℕ → ℕ → ℕ) where
  extra_step : (n a b : ℕ) → a ≤ n → digits rest op (suc n) a b ≡ digits rest op n a b
  extra_step zero zero b h = refl
  extra_step (suc n) zero b h = refl
  extra_step zero (suc a) b h = absurd (omega arith)
  extra_step (suc n) (suc a) b h = omega (arith, extra_step n (suc a / 2) (b / 2) (omega arith))

  extra_steps : (d n a b : ℕ) → a ≤ n → digits rest op (n + d) a b ≡ digits rest op n a b
  extra_steps zero n a b h = let same : n + 0 ≡ n = omega arith in rw same refl
  extra_steps (suc d) n a b h =
      let next : n + suc d ≡ suc (n + d) = omega arith in
      rw (next, extra_step (n + d) a b (omega arith)) (extra_steps d n a b h)

  lowest_digit :
      (a b : ℕ)
      → bitwise rest op (suc a) b ≡ bitwise rest op (suc a / 2) (b / 2) * 2 + op (suc a % 2) (b % 2)
  lowest_digit a b =
      let half = suc a / 2 in
      let h : half + (a - half) ≡ a = omega arith in
      omega (
        arith,
        extra_steps (a - half) half half (b / 2) (omega arith),
        ap (λ n. digits rest op n half (b / 2)) h,
      )

pub zero-bit_or : (b : ℕ) → bit_or 0 b ≡ b
zero-bit_or b = bit_or-bitwise 0 b

pub bit_or_step : (a b : ℕ) → bit_or a b ≡ bit_or (a / 2) (b / 2) * 2 + max (a % 2) (b % 2)
bit_or_step zero b = omega (arith, zero-bit_or b, zero-bit_or (b / 2))
bit_or_step (suc a) b =
    rw (bit_or-bitwise (suc a) b, bit_or-bitwise (suc a / 2) (b / 2))
      (lowest_digit (λ b. b) max a b)

-- A digit of an `or` is the larger of the two digits.
pub bit-bit_or : (k a b : ℕ) → bit k (bit_or a b) ≡ max (bit k a) (bit k b)
bit-bit_or zero a b = omega (arith, bit_or_step a b)
bit-bit_or (suc k) a b = rw (half a b) (bit-bit_or k (a / 2) (b / 2))
  where
    half : (a b : ℕ) → bit_or a b / 2 ≡ bit_or (a / 2) (b / 2)
    half a b = omega (arith, bit_or_step a b)

pub bit_of_zero : (k : ℕ) → bit k 0 ≡ 0
bit_of_zero zero = refl
bit_of_zero (suc k) = bit_of_zero k

-- `1 << n` has one digit.
pub bit-pow : (k n : ℕ) → bit k (2 ^ n) ≡ (if k == n then 1 else 0)
bit-pow zero zero = refl
bit-pow zero (suc n) = ground (arith, pow-suc 2 n)
bit-pow (suc k) zero = ground (arith, bit_of_zero k)
bit-pow (suc k) (suc n) = rw (half n) (ground (arith, bit-pow k n))
  where
    half : (n : ℕ) → 2 ^ suc n / 2 ≡ 2 ^ n
    half n = omega (arith, pow-suc 2 n)

pub bit_and_step : (a b : ℕ) → bit_and a b ≡ bit_and (a / 2) (b / 2) * 2 + min (a % 2) (b % 2)
bit_and_step zero b = omega (arith, bit_and-bitwise 0 b, bit_and-bitwise 0 (b / 2))
bit_and_step (suc a) b =
    rw (bit_and-bitwise (suc a) b, bit_and-bitwise (suc a / 2) (b / 2))
      (lowest_digit (λ b. 0) min a b)

bit_and-zero_below : (bound a : ℕ) → a ≤ bound → bit_and a 0 ≡ 0
bit_and-zero_below zero a h =
    let none_left : a ≡ 0 = omega arith in rw none_left (bit_and-bitwise 0 0)
bit_and-zero_below (suc bound) a h =
    omega (arith, bit_and_step a 0, bit_and-zero_below bound (a / 2) (omega arith))

pub bit_and-zero : (a : ℕ) → bit_and a 0 ≡ 0
bit_and-zero a = bit_and-zero_below a a (omega arith)

pub bit-lt-2 : (k a : ℕ) → bit k a < 2
bit-lt-2 zero a = omega arith
bit-lt-2 (suc k) a = bit-lt-2 k (a / 2)

pub pow-pos : (n : ℕ) → 0 < 2 ^ n
pow-pos zero = omega arith
pow-pos (suc n) = omega (arith, pow-suc 2 n, pow-pos n)

-- A mask of one bit picks that bit.
pub bit_and-pow : (a n : ℕ) → bit_and a (2 ^ n) ≡ bit n a * 2 ^ n
bit_and-pow a zero = omega (arith, bit_and_step a 1, bit_and-zero (a / 2))
bit_and-pow a (suc n) =
    let half : 2 ^ suc n / 2 ≡ 2 ^ n = omega (arith, pow-suc 2 n) in
    rw (bit_and_step a (2 ^ suc n), half, bit_and-pow (a / 2) n)
      (omega (arith, pow-suc 2 n, ap (λ t. bit n (a / 2) * t) (pow-suc 2 n)))

bit_and_idem_below : (bound a : ℕ) → a ≤ bound → bit_and a a ≡ a
bit_and_idem_below zero a h =
    let none_left : a ≡ 0 = omega arith in rw none_left (bit_and-bitwise 0 0)
bit_and_idem_below (suc bound) a h =
    omega (arith, bit_and_step a a, bit_and_idem_below bound (a / 2) (omega arith))

pub bit_and_idem : (a : ℕ) → bit_and a a ≡ a
bit_and_idem a = bit_and_idem_below a a (omega arith)

power_below : (bound a : ℕ) → a ≤ bound → 1 ≤ a → bit_and a (a - 1) ≡ 0 → (n : ℕ) × (a ≡ 2 ^ n)
power_below zero a h p e = absurd (omega arith)
power_below (suc bound) a h p e = elim (Bool-cases (a % 2 == 0)) [
  | inl even ↦
      let lower : (a - 1) / 2 ≡ a / 2 - 1 = ground arith in
      let (n, half) =
        power_below bound (a / 2) (ground arith) (ground arith)
          (rw (sym lower) (ground (arith, bit_and_step a (a - 1)))) in
      (suc n, ground (arith, half, pow-suc 2 n))
  | inr odd ↦
      let lower : (a - 1) / 2 ≡ a / 2 = ground arith in
      (0, ground (arith, bit_and_step a (a - 1), ap (bit_and (a / 2)) lower, bit_and_idem (a / 2)))
]

-- A number that shares no bit with its predecessor is a power of two.
pub is_power : (a : ℕ) → 1 ≤ a → bit_and a (a - 1) ≡ 0 → (n : ℕ) × (a ≡ 2 ^ n)
is_power a p e = power_below a a (omega arith) p e
