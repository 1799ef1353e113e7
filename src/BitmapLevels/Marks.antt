-- ===== src/BitmapLevels/Marks.antt =====
-- cpp/src/bitmap_ladder_order_book.cpp: a bitmap as a function from indices to bits, how `|=` and
-- `&= ~` change it, and what the loops of `best` find in it.
use cpp_rust_performance_lab.Common.{
  ℕ, zero, suc, ◌+◌, ◌-◌, ◌*◌, ◌/◌, ◌%◌, ◌^◌, ◌≤◌, ◌<◌, ◌≡◌, ◌≢◌, ◌⊎◌, inl, inr, refl, sym, ap, ◌∙◌,
  List, ◌==◌, if◌then◌else◌, get_or, get_or-set_self, get_or-set_ne, length, length-set, set, arith,
  Bool-cases, u64_max, ℕ_discrete, bit_or, bit_and, false,
}
use native.Mathlib.Nat.{pow-le-pow_right}
use cpp_rust_performance_lab.Common.BitAt.{
  bit_at, bit_at-le, bit_at-bit_or, bit_at-bit_and, bit_at-pow, bit_at-zero, bit_at-complement,
  bit_or-lt, bit_and-le,
}
use cpp_rust_performance_lab.BitmapLevels.{
  price_count, bitmap_words, set_bit, clear_bit, last_index, first_index, countl_zero, countr_zero,
}
use cpp_rust_performance_lab.BitmapLevels.Words.{
  IsClear, IsLastMark, IsFirstMark, countl_zero_lem, countr_zero_lem,
}

-- bit `i` of a bitmap
abbrev pub mark : List ℕ → ℕ → ℕ
mark map i = bit_at (i % 64) (get_or map (i / 64) 0)

pub record IsMap (map : List ℕ) : Type 0 where
  pub size : length map ≡ bitmap_words
  pub small : (w : ℕ) → get_or map w 0 < 2 ^ 64

-- a power of two that fits a word
low_power : (i : ℕ) → 2 ^ (i % 64) < 2 ^ 64
low_power i =
    let few : i % 64 ≤ 63 = omega arith in
    let le : 2 ^ (i % 64) ≤ 2 ^ 63 = pow-le-pow_right (omega arith) few in omega arith

-- A word is written.
module _ (map : List ℕ) (v : IsMap map) (i x : ℕ) (inside : i < price_count) where
  set-IsMap : x < 2 ^ 64 → IsMap (set map (i / 64) x)
  set-IsMap lt = record {
    size = length-set map (i / 64) x ∙ v.size;
    small = λ w. elim (ℕ_discrete (i / 64) w) [
      | yes same ↦ rw (← same, get_or-set_self map (i / 64) x 0 (omega (arith, v.size))) lt
      | no ne ↦ rw (get_or-set_ne map (i / 64) w x 0 ne) (v.small w)
    ];
  }

  -- What a bit is after the write, where the write leaves the other bits of its word.
  mark-set :
      (j b : ℕ)
      → bit_at (i % 64) x ≡ b
      → ((k : ℕ) → k < 64 → k ≢ i % 64 → bit_at k x ≡ bit_at k (get_or map (i / 64) 0))
      → mark (set map (i / 64) x) j ≡ (if j == i then b else mark map j)
  mark-set j b here others = elim (ℕ_discrete (i / 64) (j / 64)) [
    | no ne ↦
        let far : (j == i) ≡ false = ground arith in
        rw (far, get_or-set_ne map (i / 64) (j / 64) x 0 ne) refl
    | yes same ↦
        let read : get_or (set map (i / 64) x) (j / 64) 0 ≡ x =
          ap (λ (t : ℕ). get_or (set map (i / 64) x) t 0) (sym same)
          ∙ get_or-set_self map (i / 64) x 0 (omega (arith, v.size)) in
        rw read (elim (ℕ_discrete j i) [
          | yes e ↦ rw e (here ∙ ground arith)
          | no ne ↦
              let far : (j == i) ≡ false = ground arith in
              rw far (
                others (j % 64) (omega arith) (omega arith)
                ∙ ap (λ (t : ℕ). bit_at (j % 64) (get_or map t 0)) same)
        ])
  ]

module _ (map : List ℕ) (v : IsMap map) (i : ℕ) (inside : i < price_count) where
  pub set_bit-IsMap : IsMap (set_bit i map)
  unfolding set_bit
  set_bit-IsMap =
      set-IsMap map v i (bit_or (get_or map (i / 64) 0) (2 ^ (i % 64))) inside
        (bit_or-lt 64 (get_or map (i / 64) 0) (2 ^ (i % 64)) (v.small (i / 64)) (low_power i))

  pub mark-set_bit : (j : ℕ) → mark (set_bit i map) j ≡ (if j == i then 1 else mark map j)
  unfolding set_bit
  mark-set_bit j =
      let w = get_or map (i / 64) 0 in
      mark-set map v i (bit_or w (2 ^ (i % 64))) inside j 1
        (bit_at-bit_or (i % 64) w (2 ^ (i % 64))
          ∙ ground (arith, bit_at-pow (i % 64) (i % 64), bit_at-le (i % 64) w))
        (λ k h ne. bit_at-bit_or k w (2 ^ (i % 64)) ∙ ground (arith, bit_at-pow k (i % 64)))

  pub clear_bit-IsMap : IsMap (clear_bit i map)
  unfolding clear_bit
  clear_bit-IsMap =
      let w = get_or map (i / 64) 0 in
      let le = bit_and-le w w (u64_max - 2 ^ (i % 64)) (omega arith) in
      set-IsMap map v i (bit_and w (u64_max - 2 ^ (i % 64))) inside
        (omega (arith, le, v.small (i / 64)))

  pub mark-clear_bit : (j : ℕ) → mark (clear_bit i map) j ≡ (if j == i then 0 else mark map j)
  unfolding clear_bit
  mark-clear_bit j =
      let w = get_or map (i / 64) 0 in
      mark-set map v i (bit_and w (u64_max - 2 ^ (i % 64))) inside j 0
        (bit_at-bit_and (i % 64) w (u64_max - 2 ^ (i % 64))
          ∙ ground (
            arith,
            bit_at-complement 64 (i % 64) (2 ^ (i % 64)) (omega arith) (low_power i),
            bit_at-pow (i % 64) (i % 64),
          ))
        (λ k h ne.
          bit_at-bit_and k w (u64_max - 2 ^ (i % 64))
          ∙ ground (
            arith,
            bit_at-complement 64 k (2 ^ (i % 64)) h (low_power i),
            bit_at-pow k (i % 64),
            bit_at-le k w,
          ))

module _ (map : List ℕ) (v : IsMap map) where
  -- the bits of one word among those of the map
  mark_word : (word k : ℕ) → k < 64 → mark map (word * 64 + k) ≡ bit_at k (get_or map word 0)
  mark_word word k h =
      let q : (word * 64 + k) / 64 ≡ word = omega arith in
      let r : (word * 64 + k) % 64 ≡ k = omega arith in rw (q, r) refl

  -- A word that is 0 has no marks.
  word_clear : (word j : ℕ) → get_or map word 0 ≡ 0 → j / 64 ≡ word → mark map j ≡ 0
  word_clear word j z e = rw (e, z) (bit_at-zero (j % 64))

  pub last_index_cases :
      (n : ℕ)
      → ((last_index n map ≡ price_count) × IsClear (mark map) 0 (n * 64))
        ⊎ IsLastMark (mark map) (n * 64) (last_index n map)
  unfolding last_index
  last_index_cases zero = inl (refl, λ k a b. absurd (omega arith))
  last_index_cases (suc n) = elim (Bool-cases (get_or map n 0 == 0)) [
    | inl e ↦ elim (last_index_cases n) [
      | inl (none_below, clear) ↦ inl (
        rw (last_index, e) none_below,
        λ k a b. elim (ℕ_discrete (k / 64) n) [
          | yes at ↦ word_clear n k (ground arith) at
          | no ne ↦ clear k a (omega arith)
        ],
      )
      | inr (lt, one, clear) ↦ inr (
          rw (last_index, e)
            (
              omega arith,
              one,
              λ k a b. elim (ℕ_discrete (k / 64) n) [
                | yes at ↦ word_clear n k (ground arith) at
                | no ne ↦ clear k a (omega arith)
              ],
            ))
    ]
    | inr e ↦
        let (lt, one, clear) = countl_zero_lem (get_or map n 0) (v.small n) (ground arith) in
        let i = 63 - countl_zero (get_or map n 0) in
        inr (
          rw (last_index, e)
            (
              omega arith,
              mark_word n i lt ∙ one,
              λ k a b.
                  (let at : n * 64 + k % 64 ≡ k = omega arith in
                    ap (mark map) (sym at)
                    ∙ mark_word n (k % 64) (omega arith)
                    ∙ clear (k % 64) (omega arith) (omega arith)),
            ))
  ]

  pub first_index_cases :
      (rounds word : ℕ)
      → ((first_index rounds word map ≡ price_count)
          × IsClear (mark map) (word * 64) ((word + rounds) * 64))
        ⊎ IsFirstMark (mark map) (word * 64) ((word + rounds) * 64) (first_index rounds word map)
  unfolding first_index
  first_index_cases zero word = inl (refl, λ k a b. absurd (omega arith))
  first_index_cases (suc rounds) word = elim (Bool-cases (get_or map word 0 == 0)) [
    | inl e ↦ elim (first_index_cases rounds (suc word)) [
      | inl (none_above, clear) ↦ inl (
        rw (first_index, e) none_above,
        λ k a b. elim (ℕ_discrete (k / 64) word) [
          | yes at ↦ word_clear word k (ground arith) at
          | no ne ↦ clear k (omega arith) (omega arith)
        ],
      )
      | inr (le, lt, one, clear) ↦ inr (
          rw (first_index, e)
            (
              omega arith,
              omega arith,
              one,
              λ k a b. elim (ℕ_discrete (k / 64) word) [
                | yes at ↦ word_clear word k (ground arith) at
                | no ne ↦ clear k (omega arith) b
              ],
            ))
    ]
    | inr e ↦
        let (le, lt, one, clear) =
          countr_zero_lem (get_or map word 0) (v.small word) (ground arith) in
        let i = countr_zero (get_or map word 0) in
        inr (
          rw (first_index, e)
            (
              omega arith,
              omega arith,
              mark_word word i lt ∙ one,
              λ k a b.
                  (let at : word * 64 + k % 64 ≡ k = omega arith in
                    ap (mark map) (sym at)
                    ∙ mark_word word (k % 64) (omega arith)
                    ∙ clear (k % 64) (omega arith) (omega arith)),
            ))
  ]
