-- ===== src/BitmapLevels/Words.antt =====
-- cpp/src/bitmap_ladder_order_book.cpp, `best`: what `countl_zero`, `countr_zero` and the loops over
-- the words of a bitmap find.
use cpp_rust_performance_lab.Common.{
  ℕ, zero, suc, ◌+◌, ◌-◌, ◌^◌, ◌≤◌, ◌<◌, ◌≡◌, ◌≢◌, ◌⊎◌, inl, inr, ◌==◌, arith, Bool-cases,
  ℕ_discrete,
}
use cpp_rust_performance_lab.Common.BitAt.{bit_at, bit_at-le, no_bits}
use cpp_rust_performance_lab.BitmapLevels.{zeros_below, countl_zero, zeros_above, countr_zero}

-- Below `n`, `g` is 0 from `from` on; or `i` is the last, or the first, place from `from` on at which
-- it is not.
abbrev pub IsClear : (ℕ → ℕ) → ℕ → ℕ → Type 0
IsClear g from n = (k : ℕ) → from ≤ k → k < n → g k ≡ 0

abbrev pub IsLastMark : (ℕ → ℕ) → ℕ → ℕ → Type 0
IsLastMark g n i = (i < n) × (g i ≡ 1) × IsClear g (suc i) n

abbrev pub IsFirstMark : (ℕ → ℕ) → ℕ → ℕ → ℕ → Type 0
IsFirstMark g from n i = (from ≤ i) × (i < n) × (g i ≡ 1) × IsClear g from i

IsClear-suc : (g : ℕ → ℕ) (from n : ℕ) → g n ≡ 0 → IsClear g from n → IsClear g from (suc n)
IsClear-suc g from n e h k a b = elim (ℕ_discrete k n) [
  | yes same ↦ rw same e
  | no ne ↦ h k a (omega arith)
]

IsClear-pred : (g : ℕ → ℕ) (from n : ℕ) → g from ≡ 0 → IsClear g (suc from) n → IsClear g from n
IsClear-pred g from n e h k a b = elim (ℕ_discrete k from) [
  | yes same ↦ rw same e
  | no ne ↦ h k (omega arith) b
]

module _ (w : ℕ) where
  abbrev bits : ℕ → ℕ
  bits k = bit_at k w

  -- What the counts leave out is 0, and they stop at a bit.
  zeros_below_cases : (r : ℕ) → IsClear bits 0 r ⊎ IsLastMark bits r (r - 1 - zeros_below r w)
  unfolding zeros_below
  zeros_below_cases zero = inl (λ k a b. absurd (omega arith))
  zeros_below_cases (suc r) = elim (Bool-cases (bit_at r w == 0)) [
    | inr e ↦ inr (
        rw (zeros_below, e)
          (let here : suc r - 1 - 0 ≡ r = omega arith in
            rw here (omega arith, ground (arith, bit_at-le r w), λ k a b. absurd (omega arith))))
    | inl e ↦ elim (zeros_below_cases r) [
      | inl clear ↦ inl (IsClear-suc bits 0 r (ground arith) clear)
      | inr (lt, one, clear) ↦ inr (
          rw (zeros_below, e)
            (let same : suc r - 1 - suc (zeros_below r w) ≡ r - 1 - zeros_below r w = omega arith in
              rw same (omega arith, one, IsClear-suc bits _ r (ground arith) clear)))
    ]
  ]

  zeros_above_cases :
      (rounds k : ℕ)
      → IsClear bits k (k + rounds) ⊎ IsFirstMark bits k (k + rounds) (k + zeros_above rounds k w)
  unfolding zeros_above
  zeros_above_cases zero k = inl (λ j a b. absurd (omega arith))
  zeros_above_cases (suc rounds) k = elim (Bool-cases (bit_at k w == 0)) [
    | inr e ↦ inr (
        rw (zeros_above, e)
          (let here : k + 0 ≡ k = omega arith in
            rw here (
              omega arith,
              omega arith,
              ground (arith, bit_at-le k w),
              λ j a b. absurd (omega arith),
            )))
    | inl e ↦
        let next : suc k + rounds ≡ k + suc rounds = omega arith in
        elim (zeros_above_cases rounds (suc k)) [
          | inl clear ↦ inl (IsClear-pred bits k _ (ground arith) (rw next at clear))
          | inr (le, lt, one, clear) ↦ inr (
              rw (zeros_above, e)
                (let same : suc k + zeros_above rounds (suc k) w
                      ≡ k + suc (zeros_above rounds (suc k) w) =
                    omega arith in
                  rw (← same)
                    (omega arith, omega arith, one, IsClear-pred bits k _ (ground arith) clear)))
        ]
  ]

  module _ (small : w < 2 ^ 64) (held : w ≢ 0) where
    pub countl_zero_lem : IsLastMark bits 64 (63 - countl_zero w)
    unfolding countl_zero
    countl_zero_lem = elim (zeros_below_cases 64) [
      | inl clear ↦ absurd (held (no_bits 64 w small (λ k h. clear k (omega arith) h)))
      | inr mark ↦ mark
    ]

    pub countr_zero_lem : IsFirstMark bits 0 64 (countr_zero w)
    unfolding countr_zero
    countr_zero_lem = elim (zeros_above_cases 64 0) [
      | inl clear ↦ absurd (held (no_bits 64 w small (λ k h. clear k (omega arith) h)))
      | inr mark ↦
          let same : 0 + zeros_above 64 0 w ≡ zeros_above 64 0 w = omega arith in rw same at mark
    ]
