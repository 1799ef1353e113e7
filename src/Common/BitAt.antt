-- ===== src/Common/BitAt.antt =====
-- The bits of a word: what `|` and `&` do to each, the complement, and a single one.
use Prim.Native.Nat.{
  ℕ, zero, suc, ◌-◌, ◌/◌, ◌%◌, ◌^◌, ◌≤◌, ◌<◌, min, max, bit_and, bit_or, bit_and-bitwise,
}
use mathlib.Core.Path.{◌≡◌, refl, ◌∙◌}
use native.Mathlib.Nat.{pow-suc, one-le-pow}
use native.Mathlib.Omega.{arith}
use cpp_rust_performance_lab.Common.Tests.{◌==◌, if◌then◌else◌}
use cpp_rust_performance_lab.Common.Bits.{or_digit, and_digit}

-- bit `k` of `w`
unfoldable pub bit_at : ℕ → ℕ → ℕ
bit_at zero w = w % 2
bit_at (suc k) w = bit_at k (w / 2)

pub bit_at-le : (k w : ℕ) → bit_at k w ≤ 1
unfolding bit_at
bit_at-le zero w = omega arith
bit_at-le (suc k) w = bit_at-le k (w / 2)

pub bit_at-bit_or : (k a b : ℕ) → bit_at k (bit_or a b) ≡ max (bit_at k a) (bit_at k b)
unfolding bit_at
bit_at-bit_or zero a b = omega (arith, or_digit a b)
bit_at-bit_or (suc k) a b =
    let half : bit_or a b / 2 ≡ bit_or (a / 2) (b / 2) = omega (arith, or_digit a b) in
    rw half (bit_at-bit_or k (a / 2) (b / 2))

pub bit_at-bit_and : (k a b : ℕ) → bit_at k (bit_and a b) ≡ min (bit_at k a) (bit_at k b)
unfolding bit_at
bit_at-bit_and zero a b = omega (arith, and_digit a b)
bit_at-bit_and (suc k) a b =
    let half : bit_and a b / 2 ≡ bit_and (a / 2) (b / 2) = omega (arith, and_digit a b) in
    rw half (bit_at-bit_and k (a / 2) (b / 2))

pub bit_at-zero : (k : ℕ) → bit_at k 0 ≡ 0
unfolding bit_at
bit_at-zero zero = refl
bit_at-zero (suc k) = bit_at-zero k

-- A power of two has one bit.
pub bit_at-pow : (k j : ℕ) → bit_at k (2 ^ j) ≡ (if k == j then 1 else 0)
unfolding bit_at
bit_at-pow zero zero = refl
bit_at-pow (suc k) zero = bit_at-zero k ∙ ground arith
bit_at-pow zero (suc j) =
    let even : 2 ^ suc j % 2 ≡ 0 = omega (arith, pow-suc 2 j) in even ∙ ground arith
bit_at-pow (suc k) (suc j) =
    let half : 2 ^ suc j / 2 ≡ 2 ^ j = omega (arith, pow-suc 2 j) in
    rw half (bit_at-pow k j ∙ ground arith)

-- The complement in a word of `n` bits.
pub bit_at-complement : (n k w : ℕ) → k < n → w < 2 ^ n → bit_at k (2 ^ n - 1 - w) ≡ 1 - bit_at k w
unfolding bit_at
bit_at-complement zero k w h small = absurd (omega arith)
bit_at-complement (suc n) zero w h small =
    let pos : 1 ≤ 2 ^ n = one-le-pow n 2 (omega arith) in omega (arith, pow-suc 2 n)
bit_at-complement (suc n) (suc k) w h small =
    let pos : 1 ≤ 2 ^ n = one-le-pow n 2 (omega arith) in
    let half : (2 ^ suc n - 1 - w) / 2 ≡ 2 ^ n - 1 - w / 2 = omega (arith, pow-suc 2 n) in
    rw half (bit_at-complement n k (w / 2) (omega arith) (omega (arith, pow-suc 2 n)))

pub bit_or-lt : (n a b : ℕ) → a < 2 ^ n → b < 2 ^ n → bit_or a b < 2 ^ n
bit_or-lt zero a b h k =
    let za : a ≡ 0 = omega arith in let zb : b ≡ 0 = omega arith in rw (za, zb) (omega arith)
bit_or-lt (suc n) a b h k =
    let e = pow-suc 2 n in
    let low = bit_or-lt n (a / 2) (b / 2) (omega (arith, e)) (omega (arith, e)) in
    omega (arith, e, low, or_digit a b)

pub bit_and-le : (n a b : ℕ) → a ≤ n → bit_and a b ≤ a
bit_and-le n zero b h = omega (arith, bit_and-bitwise 0 b)
bit_and-le zero (suc a) b h = absurd (omega arith)
bit_and-le (suc n) (suc a) b h =
    omega (arith, and_digit (suc a) b, bit_and-le n (suc a / 2) (b / 2) (omega arith))

-- A word with no bit is 0.
pub no_bits : (n w : ℕ) → w < 2 ^ n → ((k : ℕ) → k < n → bit_at k w ≡ 0) → w ≡ 0
unfolding bit_at
no_bits zero w small h = omega arith
no_bits (suc n) w small h =
    let rest : w / 2 ≡ 0 =
      no_bits n (w / 2) (omega (arith, pow-suc 2 n)) (λ k l. h (suc k) (omega arith)) in
    omega (arith, h 0 (omega arith))
