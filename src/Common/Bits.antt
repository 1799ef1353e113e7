-- ===== src/Common/Bits.antt =====
-- `|` of a word with bits above it, as a sum, and `&` with a mask of ones, as a remainder.
use Prim.Native.Nat.{
  ℕ, zero, suc, ◌+◌, ◌-◌, ◌*◌, ◌/◌, ◌%◌, ◌^◌, ◌≤◌, ◌<◌, min, max, bit_and, bit_or, digits,
  bit_and-bitwise, bit_or-bitwise,
}
use mathlib.Core.Path.{◌≡◌, refl, sym, ap, ◌∙◌}
use native.Mathlib.Nat.{
  pow-suc, one-le-pow, mod-lt, mod-eq_of_lt, div-add-mod', add-mul-mod_self_right,
}
use native.Mathlib.Omega.{arith}

-- Rounds beyond the digits of the first number change nothing.
module _ (end : ℕ → ℕ) (digit : ℕ → ℕ → ℕ) where
  no_digits : (n b : ℕ) → digits end digit n 0 b ≡ end b
  no_digits zero b = refl
  no_digits (suc n) b = refl

  spare_rounds : (n m a b : ℕ) → a ≤ n → a ≤ m → digits end digit n a b ≡ digits end digit m a b
  spare_rounds n m zero b p q = rw (no_digits n b, no_digits m b)
  spare_rounds zero m (suc a) b p q = absurd (omega arith)
  spare_rounds (suc n) zero (suc a) b p q = absurd (omega arith)
  spare_rounds (suc n) (suc m) (suc a) b p q =
      ap (λ (t : ℕ). t * 2 + digit (suc a % 2) (b % 2))
        (spare_rounds n m (suc a / 2) (b / 2) (omega arith) (omega arith))

  lowest_digit :
      (a b : ℕ)
      → digits end digit (suc a) (suc a) b
        ≡ digits end digit (suc a / 2) (suc a / 2) (b / 2) * 2 + digit (suc a % 2) (b % 2)
  lowest_digit a b =
      ap (λ (t : ℕ). t * 2 + digit (suc a % 2) (b % 2))
        (spare_rounds a (suc a / 2) (suc a / 2) (b / 2) (omega arith) (omega arith))

pub or_digit : (a b : ℕ) → bit_or a b ≡ bit_or (a / 2) (b / 2) * 2 + max (a % 2) (b % 2)
or_digit zero b = omega (arith, bit_or-bitwise 0 b, bit_or-bitwise 0 (b / 2))
or_digit (suc a) b = omega (
  arith,
  bit_or-bitwise (suc a) b,
  bit_or-bitwise (suc a / 2) (b / 2),
  lowest_digit (λ y. y) max a b,
)

pub shift_up : (q k : ℕ) → q * 2 ^ suc k ≡ q * 2 ^ k * 2
shift_up q k = omega (arith, ap (λ (t : ℕ). q * t) (pow-suc 2 k))

-- `a | (q << k)` is a sum where `a` has `k` bits.
pub bit_or_above : (k a q : ℕ) → a < 2 ^ k → bit_or a (q * 2 ^ k) ≡ a + q * 2 ^ k
bit_or_above zero a q h =
    let z : a ≡ 0 = omega arith in rw z (omega (arith, bit_or-bitwise 0 (q * 1)))
bit_or_above (suc k) a q h =
    let up = shift_up q k in
    let low : a / 2 < 2 ^ k = omega (arith, pow-suc 2 k) in
    let half : q * 2 ^ suc k / 2 ≡ q * 2 ^ k = omega arith in
    let rest : bit_or (a / 2) (q * 2 ^ suc k / 2) ≡ a / 2 + q * 2 ^ k =
      rw half (bit_or_above k (a / 2) q low) in
    omega (arith, or_digit a (q * 2 ^ suc k))

pub and_digit : (a b : ℕ) → bit_and a b ≡ bit_and (a / 2) (b / 2) * 2 + min (a % 2) (b % 2)
and_digit zero b = omega (arith, bit_and-bitwise 0 b, bit_and-bitwise 0 (b / 2))
and_digit (suc a) b = omega (
  arith,
  bit_and-bitwise (suc a) b,
  bit_and-bitwise (suc a / 2) (b / 2),
  lowest_digit (λ y. 0) min a b,
)

and_none : (n a : ℕ) → a ≤ n → bit_and a 0 ≡ 0
and_none n zero h = refl
and_none zero (suc a) h = absurd (omega arith)
and_none (suc n) (suc a) h =
    omega (arith, and_digit (suc a) 0, and_none n (suc a / 2) (omega arith))

mul_two : (q p : ℕ) → q * (p * 2) ≡ q * p * 2
mul_two q p = grind arith

-- The lowest digit of a number, and the others modulo `p`, are the number modulo `2 * p`.
mod_double : (p a : ℕ) → 1 ≤ p → a / 2 % p * 2 + a % 2 ≡ a % (p * 2)
mod_double p a pos =
    let q = a / 2 / p in
    let r = a / 2 % p in
    let whole : q * p + r ≡ a / 2 = div-add-mod' (a / 2) p in
    let low : r < p = mod-lt (a / 2) (omega arith) in
    let split : r * 2 + a % 2 + q * (p * 2) ≡ a = omega (arith, mul_two q p) in
    sym (mod-eq_of_lt (omega arith))
    ∙ sym (add-mul-mod_self_right (r * 2 + a % 2) q (p * 2))
    ∙ ap (λ (t : ℕ). t % (p * 2)) split

-- A mask of `k` ones keeps the lowest `k` bits.
pub bit_and_mask : (k a : ℕ) → bit_and a (2 ^ k - 1) ≡ a % 2 ^ k
bit_and_mask zero a = omega (arith, and_none a a (omega arith))
bit_and_mask (suc k) a =
    let p = 2 ^ k in
    let pos : 1 ≤ p = one-le-pow k 2 (omega arith) in
    let e : 2 ^ suc k ≡ p * 2 = pow-suc 2 k in
    let half : (p * 2 - 1) / 2 ≡ p - 1 = omega (arith, pos) in
    let odd : (p * 2 - 1) % 2 ≡ 1 = omega (arith, pos) in
    let ih = bit_and_mask k (a / 2) in
    rw e (and_digit a (p * 2 - 1) ∙ rw (half, odd, ih) (omega (arith, mod_double p a pos)))
