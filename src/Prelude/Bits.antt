-- ===== src/Prelude/Bits.antt =====
-- Bitwise `|`, `&` and shifts over unsigned words: what the C code uses of them, as laws on numbers.
use Prim.Native.Nat.{
  ℕ, zero, suc, ◌+◌, ◌-◌, ◌*◌, ◌/◌, ◌%◌, ◌^◌, ◌≤◌, ◌<◌, min, max, bit_and, bit_or, digits,
  bit_and-bitwise, bit_or-bitwise,
}
use mathlib.Core.Path.{◌≡◌, refl, ap, ◌∙◌}
use native.Mathlib.Decide.{dec_lt}
use native.Mathlib.Omega.{arith}
use native.Mathlib.Nat.{pow-suc, mod-add-div, div-div-eq-div-mul, div-one}

-- `1 << k` and the shifts, at every width.
abbrev pub shl : ℕ → ℕ → ℕ
shl x k = x * 2 ^ k

abbrev pub shr : ℕ → ℕ → ℕ
shr x k = x / 2 ^ k

-- The native operations run over the digits of the first number; spare rounds change nothing.
module _ (z : ℕ → ℕ) (f : ℕ → ℕ → ℕ) where
  runs_out : (rounds b : ℕ) → digits z f rounds 0 b ≡ z b
  runs_out zero b = refl
  runs_out (suc rounds) b = refl

  spare_rounds :
      (rounds spare a b : ℕ) → a ≤ rounds → digits z f (rounds + spare) a b ≡ digits z f rounds a b
  spare_rounds rounds spare zero b h = omega (arith, runs_out (rounds + spare) b, runs_out rounds b)
  spare_rounds zero spare (suc a) b h = absurd (omega arith)
  spare_rounds (suc rounds) spare (suc a) b h =
      let round : suc rounds + spare ≡ suc (rounds + spare) = omega arith in
      ap (λ n. digits z f n (suc a) b) round
      ∙ ap (λ high. high * 2 + f (suc a % 2) (b % 2))
          (spare_rounds rounds spare (suc a / 2) (b / 2) (omega arith))

  lowest_digit :
      (a b : ℕ)
      → 0 < a
      → digits z f a a b ≡ digits z f (a / 2) (a / 2) (b / 2) * 2 + f (a % 2) (b % 2)
  lowest_digit zero b h = absurd (omega arith)
  lowest_digit (suc a) b h =
      let split : a ≡ suc a / 2 + (a - suc a / 2) = omega arith in
      ap (λ high. high * 2 + f (suc a % 2) (b % 2))
        (ap (λ n. digits z f n (suc a / 2) (b / 2)) split
          ∙ spare_rounds (suc a / 2) (a - suc a / 2) (suc a / 2) (b / 2) (omega arith))

bit_and-left_zero : (b : ℕ) → bit_and 0 b ≡ 0
bit_and-left_zero b = bit_and-bitwise 0 b

pub bit_and_step : (a b : ℕ) → bit_and a b ≡ bit_and (a / 2) (b / 2) * 2 + min (a % 2) (b % 2)
bit_and_step a b = elim (dec_lt 0 a) [
  | yes h ↦
      omega (
        arith,
        lowest_digit (λ b. 0) min a b h,
        bit_and-bitwise a b,
        bit_and-bitwise (a / 2) (b / 2),
      )
  | no h ↦
      let none : a ≡ 0 = omega arith in
      rw none (omega (arith, bit_and-left_zero b, bit_and-left_zero (b / 2)))
]

pub zero-bit_or : (b : ℕ) → bit_or 0 b ≡ b
zero-bit_or b = bit_or-bitwise 0 b

pub bit_or_step : (a b : ℕ) → bit_or a b ≡ bit_or (a / 2) (b / 2) * 2 + max (a % 2) (b % 2)
bit_or_step a b = elim (dec_lt 0 a) [
  | yes h ↦
      omega
        (arith, lowest_digit (λ b. b) max a b h, bit_or-bitwise a b, bit_or-bitwise (a / 2) (b / 2))
  | no h ↦
      let none : a ≡ 0 = omega arith in rw none (omega (arith, zero-bit_or b, zero-bit_or (b / 2)))
]

-- on a bound, since half of a number is not a part of it
bit_and-right_zero : (bound a : ℕ) → a ≤ bound → bit_and a 0 ≡ 0
bit_and-right_zero zero a h = let none : a ≡ 0 = omega arith in rw none (bit_and-left_zero 0)
bit_and-right_zero (suc bound) a h =
    omega (arith, bit_and_step a 0, bit_and-right_zero bound (a / 2) (omega arith))

pub bit_and-zero : (a : ℕ) → bit_and a 0 ≡ 0
bit_and-zero a = bit_and-right_zero a a (omega arith)

pub pow_double : (k : ℕ) → 2 ^ suc k ≡ 2 * 2 ^ k
pow_double k = omega (arith, pow-suc 2 k)

pub pow_pos : (k : ℕ) → 0 < 2 ^ k
pow_pos zero = omega arith
pow_pos (suc k) = omega (arith, pow_double k, pow_pos k)

mod-suc_pow : (k x : ℕ) → x % 2 ^ suc k ≡ 2 * (x / 2 % 2 ^ k) + x % 2
mod-suc_pow k x = rw (pow_double k) (
    omega (
      arith,
      div-div-eq-div-mul x 2 (2 ^ k),
      ap (λ q. 2 * 2 ^ k * q) (div-div-eq-div-mul x 2 (2 ^ k)),
      mod-add-div (x / 2) (2 ^ k),
      mod-add-div x (2 * 2 ^ k),
    ))

-- `x & (2^k - 1)` keeps the low `k` bits.
pub bit_and_mask : (k x : ℕ) → bit_and x (2 ^ k - 1) ≡ x % 2 ^ k
bit_and_mask zero x = omega (arith, bit_and-zero x)
bit_and_mask (suc k) x =
    let half : (2 ^ suc k - 1) / 2 ≡ 2 ^ k - 1 = omega (arith, pow_double k, pow_pos k) in
    let odd : (2 ^ suc k - 1) % 2 ≡ 1 = omega (arith, pow_double k, pow_pos k) in
    omega (
      arith,
      bit_and_step x (2 ^ suc k - 1),
      ap (λ m. bit_and (x / 2) m) half,
      bit_and_mask k (x / 2),
      mod-suc_pow k x,
    )

-- Disjoint bits: `|` adds.
pub bit_or-shl : (k a b : ℕ) → a < 2 ^ k → bit_or a (shl b k) ≡ a + shl b k
bit_or-shl zero a b h = let none : a ≡ 0 = omega arith in rw (none, zero-bit_or) (omega arith)
bit_or-shl (suc k) a b h =
    let half : shl b (suc k) / 2 ≡ shl b k = omega (arith, ap (λ p. b * p) (pow_double k)) in
    omega (
      arith,
      ap (λ p. b * p) (pow_double k),
      bit_or_step a (shl b (suc k)),
      ap (λ m. bit_or (a / 2) m) half,
      bit_or-shl k (a / 2) b (omega (arith, pow_double k)),
    )

-- A shift to the right acts on both sides of `&`.
pub shr-bit_and : (k a b : ℕ) → shr (bit_and a b) k ≡ bit_and (shr a k) (shr b k)
shr-bit_and zero a b = rw (div-one (bit_and a b), div-one a, div-one b)
shr-bit_and (suc k) a b =
    rw
      (
        pow_double k,
        ← div-div-eq-div-mul (bit_and a b) 2 (2 ^ k),
        ← div-div-eq-div-mul a 2 (2 ^ k),
        ← div-div-eq-div-mul b 2 (2 ^ k),
      )
      (let half : bit_and a b / 2 ≡ bit_and (a / 2) (b / 2) = omega (arith, bit_and_step a b) in
        rw half (shr-bit_and k (a / 2) (b / 2)))
