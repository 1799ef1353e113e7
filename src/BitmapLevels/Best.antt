-- ===== src/BitmapLevels/Best.antt =====
-- cpp/src/bitmap_ladder_order_book.cpp: `best` reads the best prices off the bitmaps, and the levels
-- of a new book.
use cpp_rust_performance_lab.Common.{
  ℕ, ◌+◌, ◌-◌, ◌/◌, ◌%◌, ◌≤◌, ◌<◌, ◌≡◌, inl, inr, refl, sym, ap, ◌∙◌, ◌==◌, get_or, length, arith,
  Bool-cases, u64_mod, true, false, none, some, get_or-replicate, length-replicate, replicate,
}
use cpp_rust_performance_lab.Common.BitAt.{bit_at, bit_at-zero}
use cpp_rust_performance_lab.Book.{Side, bid, ask}
use cpp_rust_performance_lab.Book.Ladder.Best.{IsTop, IsBottom}
use cpp_rust_performance_lab.DenseBook
use cpp_rust_performance_lab.DenseBook.Arrays.{covers}
use cpp_rust_performance_lab.BitmapLevels.{
  Bitmaps, no_levels, occupancy, price_count, bitmap_words, best, best_index, last_index,
  first_index,
}
use cpp_rust_performance_lab.BitmapLevels.Marks.{mark, IsMap, last_index_cases, first_index_cases}
use cpp_rust_performance_lab.BitmapLevels.Laws.{Holds, held, Marks, arrays_of, entry_at}

module _ (m : ℕ) (f : Side → ℕ → ℕ) (l : Bitmaps) (v : Holds m f l) where
  -- A price holds nothing where its mark, if it has one, is 0.
  unmarked :
      (s : Side) (p : ℕ)
      → (covers m price_count p ≡ true → mark (occupancy s l) (p - m) ≡ 0)
      → f s p ≡ 0
  unmarked s p h = elim (Bool-cases (covers m price_count p)) [
    | inr e ↦ v.arrays.outside s p e
    | inl e ↦
        let at : m + (p - m) ≡ p = ground arith in
        let marked = v.marks s (p - m) (ground arith) in
        let none_there : held (f s (m + (p - m))) ≡ 0 = sym marked ∙ h e in
        ap (f s) (sym at) ∙ ground arith
  ]

  -- what `best` returns for an index
  best_at :
      (s : Side) (i : ℕ)
      → i < price_count
      → best_index s l ≡ i
      → mark (occupancy s l) i ≡ 1
      → (best s l ≡ some (record { price_ticks = m + i; quantity = f s (m + i) }))
        × (0 < f s (m + i))
  unfolding best
  best_at s i lt e one =
      let other : (i == price_count) ≡ false = ground arith in
      let low = v.arrays.minimum in
      let whole : (m + i) % u64_mod ≡ m + i = omega (arith, v.arrays.fits) in
      let entry = entry_at m f l v s i lt in
      let marked = v.marks s i lt in (rw (best, e, other, entry, low, whole) refl, ground arith)

  best-none : (s : Side) → best_index s l ≡ price_count → best s l ≡ none
  unfolding best
  best-none s e = rw (best, e) refl

  -- `best` returns the highest bid price and the lowest ask price that hold a quantity, with it.
  pub best_bid_IsTop : IsTop (f bid) (best bid l)
  best_bid_IsTop = elim (last_index_cases l.bid_occupied (v.map bid) bitmap_words) [
    | inl (e, clear) ↦
        rw (best-none bid e) (λ p. unmarked bid p (λ h. clear (p - m) (omega arith) (ground arith)))
    | inr (lt, one, clear) ↦
        let (found, pos) = best_at bid (last_index bitmap_words l.bid_occupied) lt refl one in
        rw found
          (refl, pos, λ p k. unmarked bid p (λ h. clear (p - m) (ground arith) (ground arith)))
  ]

  pub best_ask_IsBottom : IsBottom (f ask) (best ask l)
  best_ask_IsBottom = elim (first_index_cases l.ask_occupied (v.map ask) bitmap_words 0) [
    | inl (e, clear) ↦
        rw (best-none ask e) (λ p. unmarked ask p (λ h. clear (p - m) (omega arith) (ground arith)))
    | inr (le, lt, one, clear) ↦
        let (found, pos) = best_at ask (first_index bitmap_words 0 l.ask_occupied) lt refl one in
        rw found
          (refl, pos, λ p k. unmarked ask p (λ h. clear (p - m) (omega arith) (ground arith)))
  ]

no_marks : (i : ℕ) → mark (replicate bitmap_words 0) i ≡ 0
no_marks i = ap (bit_at (i % 64)) (get_or-replicate bitmap_words (i / 64) 0) ∙ bit_at-zero (i % 64)

no-IsMap : IsMap (replicate bitmap_words 0)
no-IsMap = record {
  size = refl;
  small = λ w. rw (get_or-replicate {A = ℕ} bitmap_words w 0) (omega arith);
}

-- The levels of a new book hold nothing.
pub no_levels-Holds : (m : ℕ) → m + price_count ≤ u64_mod → Holds m (λ s p. 0) (no_levels m)
no_levels-Holds m fits = record {
  arrays = record {
    minimum = refl;
    size = λ s.
        elim s as (λ x. length (DenseBook.ladder x (arrays_of (no_levels m))) ≡ price_count) [
          | bid ↦ length-replicate {A = ℕ} price_count 0
          | ask ↦ length-replicate {A = ℕ} price_count 0
        ];
    fits = fits;
    reads = λ s i h.
        elim s as (λ x. get_or (DenseBook.ladder x (arrays_of (no_levels m))) i 0 ≡ 0) [
          | bid ↦ get_or-replicate {A = ℕ} price_count i 0
          | ask ↦ get_or-replicate {A = ℕ} price_count i 0
        ];
    outside = λ s q h. refl;
    small = λ s q. omega arith;
  };
  map = λ s. elim s as (λ x. IsMap (occupancy x (no_levels m))) [ bid ↦ no-IsMap | ask ↦ no-IsMap ];
  marks = λ s. elim s as (λ x. Marks m (λ p. 0) (occupancy x (no_levels m))) [
    | bid ↦ λ i h. no_marks i
    | ask ↦ λ i h. no_marks i
  ];
}
