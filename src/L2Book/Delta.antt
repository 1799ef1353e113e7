-- ===== src/L2Book/Delta.antt =====
-- cpp/include/llab/bybit_l2_order_book.hpp: `apply_delta` against the levels that the changes make
-- in the order of their array.
use cpp_rust_performance_lab.Common.{
  ◌≤◌, ◌≡◌, ◌⊎◌, refl, ◌∙◌, true, false, none, List, [], ◌∷◌, ◌==◌, if◌then◌else◌, arith, length,
  Bool-cases, inl, inr, ap,
}
use cpp_rust_performance_lab.Book.{Side, bid, ask, same_side}
use cpp_rust_performance_lab.OrderBook.Levels.{same_side_refl}
use cpp_rust_performance_lab.L2Book.{
  Level, Change, Book, levels_of, set_levels, change_levels, apply_change, change_all,
}
use cpp_rust_performance_lab.L2Book.Levels.{IsLevels, place, change_levels_lem}
use cpp_rust_performance_lab.L2Book.Changes.{fold, place-side-IsLevels, select, fold-IsLevels}
use cpp_rust_performance_lab.L2Book.Fits.{place-side-length}

-- The book after the changes in their order.
abbrev pub after : List Change → Book → Book
after cs b = record b { bids = fold bid cs b.bids; asks = fold ask cs b.asks }

pub record IsBook (b : Book) : Type 0 where
  pub bids_sorted : IsLevels bid none b.bids
  pub asks_sorted : IsLevels ask none b.asks

abbrev pub sorted : (s : Side) (b : Book) → IsBook b → IsLevels s none (levels_of s b)
sorted bid b v = v.bids_sorted
sorted ask b v = v.asks_sorted

pub after-IsBook : (cs : List Change) (b : Book) → IsBook b → IsBook (after cs b)
after-IsBook cs b v = record {
  bids_sorted = fold-IsLevels bid cs b.bids v.bids_sorted;
  asks_sorted = fold-IsLevels ask cs b.asks v.asks_sorted;
}

-- One change succeeds where its side has room for what it leaves.
apply_change_lem :
    (c : Change) (b : Book)
    → IsBook b
    → ((c.quantity == 0) ≡ true) ⊎ (length (place c (levels_of c.side b)) ≤ b.maximum_levels)
    → apply_change c b ≡ (true, after (c ∷ []) b)
unfolding apply_change fold
apply_change_lem c b v room =
    rw (change_fits c b v room) (ap (λ (b' : Book). (true, b')) (set_place c b c.side))
  where
    set_place :
        (c : Change) (b : Book) (s : Side)
        → set_levels s (place c (levels_of s b)) b ≡ record b {
          bids = if same_side s bid then place c b.bids else b.bids;
          asks = if same_side s ask then place c b.asks else b.asks;
        }
    set_place c b bid = refl
    set_place c b ask = refl

    change_fits :
        (c : Change) (b : Book)
        → IsBook b
        → ((c.quantity == 0) ≡ true) ⊎ (length (place c (levels_of c.side b)) ≤ b.maximum_levels)
        → change_levels b.maximum_levels c (levels_of c.side b)
          ≡ (true, place c (levels_of c.side b))
    change_fits c b v room =
        change_levels_lem b.maximum_levels c none (levels_of c.side b) (sorted c.side b v)
        ∙ ground (
          arith,
          place-side-length c.side c (levels_of c.side b) (same_side_refl c.side)
              (sorted c.side b v),
        )

length-place_of_ne :
    (s : Side) (c : Change) (ls : List Level)
    → same_side c.side s ≡ true
    → IsLevels s none ls
    → (c.quantity == 0) ≡ false
    → length ls ≤ length (place c ls)
length-place_of_ne s c ls h v z = ground (arith, place-side-length s c ls h v)

select_kept :
    (c : Change) (cs : List Change)
    → (c.quantity == 0) ≡ false
    → select false (c ∷ cs) ≡ c ∷ select false cs
unfolding select
select_kept c cs z = rw z

select_dropped :
    (c : Change) (cs : List Change)
    → (c.quantity == 0) ≡ true
    → select false (c ∷ cs) ≡ select false cs
unfolding select
select_dropped c cs z = rw z

fold_hit :
    (s : Side) (c : Change) (cs : List Change) (ls : List Level)
    → same_side c.side s ≡ true
    → fold s (c ∷ cs) ls ≡ fold s cs (place c ls)
unfolding fold
fold_hit s c cs ls h = rw h

fold_miss :
    (s : Side) (c : Change) (cs : List Change) (ls : List Level)
    → same_side c.side s ≡ false
    → fold s (c ∷ cs) ls ≡ fold s cs ls
unfolding fold
fold_miss s c cs ls h = rw h

-- The levels of a side grow while quantities other than 0 are placed.
length-fold :
    (s : Side) (cs : List Change) (ls : List Level)
    → IsLevels s none ls
    → length ls ≤ length (fold s (select false cs) ls)
length-fold s [] ls v = unfold fold select in omega arith
length-fold s (c ∷ cs) ls v = elim (Bool-cases (c.quantity == 0)) [
  | inl z ↦ rw (select_dropped c cs z) (length-fold s cs ls v)
  | inr z ↦ elim (Bool-cases (same_side c.side s)) [
    | inr h ↦ rw (select_kept c cs z, fold_miss s c (select false cs) ls h) (length-fold s cs ls v)
    | inl h ↦
        rw (select_kept c cs z, fold_hit s c (select false cs) ls h)
          (omega (
            arith,
            length-place_of_ne s c ls h v z,
            length-fold s cs (place c ls) (place-side-IsLevels s c ls h v),
          ))
  ]
]

-- The loop over the changes to zero never fails.
pub remove_all_lem :
    (cs : List Change) (b : Book)
    → IsBook b
    → change_all true cs b ≡ (true, after (select true cs) b)
unfolding change_all select fold
remove_all_lem [] b v = refl
remove_all_lem (c ∷ cs) b v = elim (Bool-cases (c.quantity == 0)) [
  | inl z ↦
      rw (z, apply_change_lem c b v (inl z))
        (remove_all_lem cs (after (c ∷ []) b) (after-IsBook (c ∷ []) b v))
  | inr z ↦ rw z (remove_all_lem cs b v)
]

later :
    (s : Side) (c : Change) (cs : List Change) (b : Book)
    → (c.quantity == 0) ≡ false
    → fold s (select false (c ∷ cs)) (levels_of s b)
      ≡ fold s (select false cs) (levels_of s (after (c ∷ []) b))
unfolding fold select
later bid c cs b z = rw z
later ask c cs b z = rw z

room :
    (c : Change) (cs : List Change) (b : Book)
    → IsBook b
    → (c.quantity == 0) ≡ false
    → ((s : Side) → length (fold s (select false (c ∷ cs)) (levels_of s b)) ≤ b.maximum_levels)
    → length (place c (levels_of c.side b)) ≤ b.maximum_levels
room c cs b v z fits =
    let e : fold c.side (select false (c ∷ cs)) (levels_of c.side b)
        ≡ fold c.side (select false cs) (place c (levels_of c.side b)) =
      rw (
        select_kept c cs z,
        fold_hit c.side c (select false cs) (levels_of c.side b) (same_side_refl c.side),
      ) in
    omega (
      arith,
      fits c.side,
      ap length e,
      length-fold c.side cs (place c (levels_of c.side b)) (
          place-side-IsLevels c.side c (levels_of c.side b) (same_side_refl c.side)
            (sorted c.side b v)),
    )

-- The loop over the other changes succeeds where what it leaves fits.
pub place_all_lem :
    (cs : List Change) (b : Book)
    → IsBook b
    → ((s : Side) → length (fold s (select false cs) (levels_of s b)) ≤ b.maximum_levels)
    → change_all false cs b ≡ (true, after (select false cs) b)
unfolding change_all select fold
place_all_lem [] b v fits = refl
place_all_lem (c ∷ cs) b v fits = elim (Bool-cases (c.quantity == 0)) [
  | inl z ↦ rw z (place_all_lem cs b v (λ s. rw z at (fits s)))
  | inr z ↦
      let next = after (c ∷ []) b in
      let fits' : (s : Side)
          → length (fold s (select false cs) (levels_of s next)) ≤ b.maximum_levels =
        λ s. rw (← later s c cs b z) (fits s) in
      rw (z, apply_change_lem c b v (inr (room c cs b v z fits)))
        (place_all_lem cs next (after-IsBook (c ∷ []) b v) fits')
]
