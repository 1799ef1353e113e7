-- ===== src/L2Book/Apply.antt =====
-- cpp/include/llab/bybit_l2_order_book.hpp: `apply_delta` is atomic, and makes the changes in any
-- order.
use cpp_rust_performance_lab.Common.{
  ℕ, ◌+◌, ◌≤◌, ◌≡◌, refl, ◌∙◌, Bool, true, false, not, ◌&&◌, none, List, [], ◌∷◌, ◌==◌,
  if◌then◌else◌, arith, length, leb, Bool-cases, inl, inr, u64_max,
}
use cpp_rust_performance_lab.Book.{Side, bid, ask}
use cpp_rust_performance_lab.L2Book.{
  Level, Change, Book, levels_of, delta_fits, apply_delta, invalidate, change_all,
}
use cpp_rust_performance_lab.L2Book.Levels.{IsLevels, quantity_at, IsLevels-ext}
use cpp_rust_performance_lab.L2Book.Changes.{
  fold, select, changed-select, fold-IsLevels, quantity_at-fold, Apart,
}
use cpp_rust_performance_lab.L2Book.Fits.{apart, fits_from_lem}
use cpp_rust_performance_lab.L2Book.Delta.{
  IsBook, sorted, after, after-IsBook, remove_all_lem, place_all_lem,
}

-- A delta is taken where the book is valid, the identifier is the next one, the changes have
-- distinct sides and prices, and the book that they leave keeps both sides within the maximum.
unfoldable pub accepts : ℕ → List Change → Book → Bool
accepts update_id cs b =
    b.valid
    && not (b.update_id == u64_max)
    && update_id == b.update_id + 1
    && (apart [] cs
        && leb (length (fold bid cs b.bids)) b.maximum_levels
        && leb (length (fold ask cs b.asks)) b.maximum_levels)

apart-Apart : (earlier cs : List Change) → apart earlier cs ≡ true → Apart earlier cs
unfolding apart
apart-Apart earlier [] h = tt
apart-Apart earlier (c ∷ cs) h = (ground arith, apart-Apart (c ∷ earlier) cs (ground arith))

fold-select :
    (s : Side) (cs : List Change) (ls : List Level)
    → IsLevels s none ls
    → apart [] cs ≡ true
    → fold s (select false cs) (fold s (select true cs) ls) ≡ fold s cs ls
fold-select s cs ls v h =
    let w = fold-IsLevels s (select true cs) ls v in
    IsLevels-ext s none _ _ (fold-IsLevels s (select false cs) _ w) (fold-IsLevels s cs ls v) (λ p.
      rw
        (
          quantity_at-fold s p (select false cs) (fold s (select true cs) ls) w,
          quantity_at-fold s p (select true cs) ls v,
          quantity_at-fold s p cs ls v,
        )
        (changed-select s p [] cs (quantity_at p ls) (apart-Apart [] cs h)))

module _ (b : Book) (cs : List Change) (v : IsBook b)
    (small : (s : Side) → length (levels_of s b) + length cs ≤ u64_max) where
  delta_fits_lem : delta_fits cs b ≡ (
      apart [] cs
      && leb (length (fold bid cs b.bids)) b.maximum_levels
      && leb (length (fold ask cs b.asks)) b.maximum_levels)
  unfolding delta_fits
  delta_fits_lem =
      fits_from_lem b (λ s. sorted s b v) [] cs (λ s. levels_of s b) (λ s. sorted s b v)
        (λ c h. refl) small

  within :
      delta_fits cs b ≡ true → (s : Side) → length (fold s cs (levels_of s b)) ≤ b.maximum_levels
  within h bid = ground (arith, delta_fits_lem)
  within h ask = ground (arith, delta_fits_lem)

  both_orders :
      apart [] cs ≡ true
      → (s : Side)
      → fold s (select false cs) (levels_of s (after (select true cs) b))
        ≡ fold s cs (levels_of s b)
  both_orders h bid = fold-select bid cs b.bids v.bids_sorted h
  both_orders h ask = fold-select ask cs b.asks v.asks_sorted h

  second_loop :
      delta_fits cs b ≡ true → change_all false cs (after (select true cs) b) ≡ (true, after cs b)
  second_loop fit =
      let h : apart [] cs ≡ true = ground (arith, delta_fits_lem) in
      place_all_lem cs (after (select true cs) b) (after-IsBook (select true cs) b v)
        (λ s. rw (both_orders h s) (within fit s))
      ∙ (λ i. (true, record b { bids = both_orders h bid i; asks = both_orders h ask i }))

  -- `apply_delta` takes exactly the deltas that `accepts` describes, and then holds the levels
  -- that the changes leave in the order of their array; any other delta empties the book and makes
  -- it invalid.
  pub apply_delta_lem :
      (update_id : ℕ)
      → apply_delta update_id cs b ≡ (
          if accepts update_id cs b
          then (true, record (after cs b) { update_id = update_id })
          else invalidate b)
  unfolding apply_delta accepts
  apply_delta_lem update_id = elim (Bool-cases (delta_fits cs b)) [
    | inr no_fit ↦ ground (arith, delta_fits_lem)
    | inl fit ↦ ground (arith, delta_fits_lem, remove_all_lem cs b v, second_loop fit)
  ]
