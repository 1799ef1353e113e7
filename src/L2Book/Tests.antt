-- ===== src/L2Book/Tests.antt =====
-- cpp/include/llab/bybit_l2_order_book.hpp: a snapshot and a delta, and the theorems at this book.
use cpp_rust_performance_lab.Common.{
  ℕ, ◌+◌, ◌≤◌, ◌≡◌, refl, arith, u64_max, true, List, [], ◌∷◌, if◌then◌else◌, length,
}
use cpp_rust_performance_lab.Book.{Side, bid, ask}
use cpp_rust_performance_lab.L2Book.{
  Level, Change, Book, new, levels_of, apply_snapshot, apply_delta, apply_change, change_all,
  change_levels, delta_fits, fits_from, invalidate, best_bid, best_ask, valid_levels,
}
use cpp_rust_performance_lab.L2Book.Levels.{quantity_at}
use cpp_rust_performance_lab.L2Book.Changes.{changed}
use cpp_rust_performance_lab.L2Book.Delta.{after}
use cpp_rust_performance_lab.L2Book.Apply.{accepts, apply_delta_lem}
use cpp_rust_performance_lab.L2Book.Snapshot.{
  IsValid, IsFirst, apply_snapshot-IsValid, apply_delta-IsValid, best_levels,
}

program : Unit {0}
unfolding new apply_snapshot apply_delta apply_change change_all change_levels delta_fits fits_from
    invalidate best_bid valid_levels
program = tt

abbrev level : ℕ → ℕ → Level
level p q = record { price = p; quantity = q }

abbrev change : Side → ℕ → ℕ → Change
change s p q = record { side = s; price = p; quantity = q }

abbrev bids : List Level
bids = level 100 5 ∷ level 99 4 ∷ []

abbrev asks : List Level
asks = level 101 7 ∷ []

abbrev book : Book
book = record { bids = bids; asks = asks; maximum_levels = 2; update_id = 8; valid = true }

-- The new edge comes before the removal that makes room for it.
abbrev changes : List Change
changes = change bid 98 3 ∷ change bid 100 0 ∷ change ask 101 6 ∷ []

snapshot_taken : apply_snapshot 8 bids asks (new 2) ≡ (true, book)
unfolding program
snapshot_taken = refl

delta_taken : apply_delta 9 changes book ≡ (
  true,
  record book { bids = level 99 4 ∷ level 98 3 ∷ []; asks = level 101 6 ∷ []; update_id = 9 },
)
unfolding program
delta_taken = refl

-- A gap in the identifiers empties the book.
gap_refused : (apply_delta 10 changes book).1 ≡ (invalidate book).1
unfolding program
gap_refused = refl

book-IsValid : IsValid book
book-IsValid = record {
  book = record {
    bids_sorted = (refl, omega arith, (refl, omega arith, tt));
    asks_sorted = (refl, omega arith, tt);
  };
  bids_fit = omega arith;
  asks_fit = omega arith;
  cleared = λ h. cc;
}

small : (s : Side) → length (levels_of s book) + length changes ≤ u64_max
small bid = omega arith
small ask = omega arith

apply_delta_lem_example : apply_delta 9 changes book ≡ (
    if accepts 9 changes book
    then (true, record (after changes book) { update_id = 9 })
    else invalidate book)
apply_delta_lem_example = apply_delta_lem book changes book-IsValid.book small 9

apply_delta-IsValid_example :
    let (ok, b') = apply_delta 9 changes book in
    IsValid b'
    × (ok ≡ b'.valid)
    × (ok ≡ true
        → (s : Side) (p : ℕ)
        → quantity_at p (levels_of s b') ≡ changed s p changes (quantity_at p (levels_of s book)))
apply_delta-IsValid_example = apply_delta-IsValid 9 changes book book-IsValid small

apply_snapshot-IsValid_example : IsValid (apply_snapshot 8 bids asks (new 2)).1
apply_snapshot-IsValid_example = apply_snapshot-IsValid 8 bids asks (new 2)

best_levels_example : IsFirst bid bids (best_bid book) × IsFirst ask asks (best_ask book)
best_levels_example = best_levels book book-IsValid
