-- ===== src/FixedIndex/Ring.antt =====
-- cpp/include/llab/fixed_order_index.hpp: the arithmetic of a ring of slots, `home`, the mask and
-- `distance`.
use cpp_rust_performance_lab.Common.{
  ℕ, zero, suc, ◌+◌, ◌-◌, ◌*◌, ◌%◌, ◌^◌, ◌≤◌, ◌<◌, ◌≡◌, inl, inr, sym, ap, ◌∙◌, leb, u64_mod,
  bit_and, arith, Bool-cases,
}
use native.Mathlib.Nat.{
  pow-suc, one-le-pow, pow-le-pow_right, mod-lt, mod-eq_of_lt, add-mul-mod_self_right,
}
use cpp_rust_performance_lab.Common.Bits.{bit_and_mask, shift_up}
use cpp_rust_performance_lab.Book.Digest.{mix_order_id}
use cpp_rust_performance_lab.ProbeTable.Trail.{step, gap, wrap}
use cpp_rust_performance_lab.FixedIndex.{home, advance, distance}

-- A size that is a power of two.
pub record IsPower (n : ℕ) : Type 0 where
  pub power : ℕ
  pub power_le : power ≤ 63
  pub size : n ≡ 2 ^ power

pow-add : (p k : ℕ) → 2 ^ (p + k) ≡ 2 ^ k * 2 ^ p
pow-add zero k = let e : 0 + k ≡ k = omega arith in rw e (omega arith)
pow-add (suc p) k =
    let e : suc p + k ≡ suc (p + k) = omega arith in
    rw e (omega (arith, pow-suc 2 (p + k), shift_up (2 ^ k) p, pow-add p k))

one_less : (q n : ℕ) → 1 ≤ q → q * n ≡ (q - 1) * n + n
one_less zero n h = absurd (omega arith)
one_less (suc q) n h = let e : suc q - 1 ≡ q = omega arith in rw e (omega arith)

module _ (n : ℕ) (v : IsPower n) where
  n_pos : 1 ≤ n
  n_pos = let pos : 1 ≤ 2 ^ v.power = one-le-pow v.power 2 (omega arith) in omega (arith, v.size)

  pub n_small : n ≤ 2 ^ 63
  n_small =
      let small : 2 ^ v.power ≤ 2 ^ 63 = pow-le-pow_right (omega arith) v.power_le in
      omega (arith, v.size)

  masked : (x : ℕ) → bit_and x (n - 1) ≡ x % n
  masked x = let size = v.size in rw size (bit_and_mask v.power x)

  pub home-lt : (id : ℕ) → home id n < n
  unfolding home
  home-lt id = rw (masked (mix_order_id id)) (mod-lt (mix_order_id id) n_pos)

  pub advance_lem : (i : ℕ) → i < n → advance i n ≡ step n i
  unfolding advance step
  advance_lem i h =
      let e : (i + 1) % u64_mod ≡ suc i = omega (arith, n_small) in
      rw (masked ((i + 1) % u64_mod), e) (wrap n (suc i) (omega arith))

  whole_words : 2 ^ (64 - v.power) * n ≡ u64_mod
  whole_words =
      let e : v.power + (64 - v.power) ≡ 64 = omega (arith, v.power_le) in
      let size = v.size in
      ap (λ (t : ℕ). 2 ^ (64 - v.power) * t) size
      ∙ sym (pow-add v.power (64 - v.power))
      ∙ ap (λ (t : ℕ). 2 ^ t) e

  pub distance_lem : (i w : ℕ) → i < n → w < n → distance i w n ≡ gap n i w
  unfolding distance gap
  distance_lem i w h k = elim (Bool-cases (leb i w)) [
    | inl le ↦
        let same : (w + u64_mod - i) % u64_mod ≡ w - i = ground (arith, n_small) in
        rw (masked ((w + u64_mod - i) % u64_mod), same, le) (mod-eq_of_lt (ground arith))
    | inr gt ↦
        let q = 2 ^ (64 - v.power) in
        let pos : 1 ≤ q = one-le-pow (64 - v.power) 2 (omega arith) in
        let same : (w + u64_mod - i) % u64_mod ≡ w + u64_mod - i = ground (arith, n_small) in
        let split = one_less q n pos in
        let parts : w + u64_mod - i ≡ (w + n - i) + (q - 1) * n =
          ground (arith, whole_words, split) in
        rw
          (
            masked ((w + u64_mod - i) % u64_mod),
            same,
            gt,
            parts,
            add-mul-mod_self_right (w + n - i) (q - 1) n,
          )
          (mod-eq_of_lt (ground arith))
  ]

module _ (n : ℕ) where
  -- Going on from a slot that comes first.
  pub gap-split :
      (a h i : ℕ)
      → a < n
      → h < n
      → i < n
      → gap n a h ≤ gap n a i
      → gap n a i ≡ gap n a h + gap n h i
  unfolding gap
  gap-split a h i p q r lt = ground arith

  pub gap-join :
      (a h i : ℕ)
      → a < n
      → h < n
      → i < n
      → gap n a h + gap n h i < n
      → gap n a i ≡ gap n a h + gap n h i
  unfolding gap
  gap-join a h i p q r lt = ground arith

  pub gap-next :
      (h x : ℕ) → h < n → x < n → suc (gap n h x) < n → gap n h (step n x) ≡ suc (gap n h x)
  unfolding gap step
  gap-next h x p q lt = ground arith

  pub gap_injective : (h x y : ℕ) → h < n → x < n → y < n → gap n h x ≡ gap n h y → x ≡ y
  unfolding gap
  gap_injective h x y p q r e = ground arith
