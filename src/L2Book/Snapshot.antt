-- ===== src/L2Book/Snapshot.antt =====
-- cpp/include/llab/bybit_l2_order_book.hpp: snapshots, the invariant of a book through every call,
-- and its best prices.
use cpp_rust_performance_lab.Common.{
  ℕ, ◌+◌, ◌≤◌, ◌<◌, ◌≡◌, ◌↔◌, refl, true, false, not, ◌||◌, Option, none, some, List, [], ◌∷◌, ◌==◌,
  arith, length, ltb, Bool-cases, inl, inr, u64_max, sym,
}
use cpp_rust_performance_lab.Book.{Side, bid, ask}
use cpp_rust_performance_lab.L2Book.{
  Level, Change, Book, levels_of, before, out_of_order, valid_from, valid_levels, apply_snapshot,
  apply_delta, invalidate, best_bid, best_ask, front,
}
use cpp_rust_performance_lab.L2Book.Levels.{
  IsLevels, behind, quantity_at, quantity_at-IsLevels, before_ne, before_asymm,
}
use cpp_rust_performance_lab.L2Book.Changes.{changed, quantity_at-fold}
use cpp_rust_performance_lab.L2Book.Delta.{IsBook, after, after-IsBook}
use cpp_rust_performance_lab.L2Book.Apply.{accepts, apply_delta_lem}

-- The test of the source is the order of the side.
out_of_order-behind : (s : Side) (o : Option ℕ) (p : ℕ) → out_of_order s o p ≡ not (behind s o p)
out_of_order-behind s none p = refl
out_of_order-behind bid (some q) p = ground arith
out_of_order-behind ask (some q) p = ground arith

valid_from-IsLevels :
    (s : Side) (o : Option ℕ) (ls : List Level) → (valid_from s o ls ≡ true) ↔ IsLevels s o ls
unfolding valid_from
valid_from-IsLevels s o [] = (λ h. tt, λ h. refl)
valid_from-IsLevels s o (l ∷ ls) =
    let (to, from) = valid_from-IsLevels s (some l.price) ls in
    (
      λ h. ground (arith, out_of_order-behind s o l.price, to),
      λ h. ground (arith, out_of_order-behind s o l.price, from h.2),
    )

-- `valid_levels` accepts exactly the levels with positive quantities whose prices strictly fall
-- (bids) or rise (asks).
pub valid_levels_iff :
    (s : Side) (ls : List Level) → (valid_levels ls s ≡ true) ↔ IsLevels s none ls
unfolding valid_levels
valid_levels_iff s ls = valid_from-IsLevels s none ls

-- The sides are sorted and within the maximum, and an invalid book is empty.
pub record IsValid (b : Book) : Type 0 where
  pub book : IsBook b
  pub bids_fit : length b.bids ≤ b.maximum_levels
  pub asks_fit : length b.asks ≤ b.maximum_levels
  pub cleared : b.valid ≡ false → (b.bids ≡ []) × (b.asks ≡ [])

invalidate-IsValid : (b : Book) → IsValid (invalidate b).1
unfolding invalidate
invalidate-IsValid b = record {
  book = record { bids_sorted = tt; asks_sorted = tt };
  bids_fit = omega arith;
  asks_fit = omega arith;
  cleared = λ _. (refl, refl);
}

invalidate_agrees : (b : Book) → (invalidate b).0 ≡ (invalidate b).1.valid
unfolding invalidate
invalidate_agrees b = refl

invalidate_false : (b : Book) → (invalidate b).0 ≡ true → ⊥
unfolding invalidate
invalidate_false b e = cc

empty-IsFirst : (ls : List Level) → ls ≡ [] → (p : ℕ) → quantity_at p ls ≡ 0
unfolding quantity_at
empty-IsFirst ls e p = rw e

-- `apply_snapshot` leaves a well-formed book, whatever it is given.
pub apply_snapshot-IsValid :
    (update_id : ℕ) (bids asks : List Level) (b : Book)
    → IsValid (apply_snapshot update_id bids asks b).1
unfolding apply_snapshot
apply_snapshot-IsValid u bids asks b =
    elim (Bool-cases (
      u == 0
      || ltb b.maximum_levels (length bids)
      || ltb b.maximum_levels (length asks)
      || not (valid_levels bids bid)
      || not (valid_levels asks ask))) [
        | inl bad ↦ rw bad (invalidate-IsValid b)
        | inr good ↦ rw good (record {
          book = record {
            bids_sorted = (valid_levels_iff bid bids).0 (ground arith);
            asks_sorted = (valid_levels_iff ask asks).0 (ground arith);
          };
          bids_fit = ground arith;
          asks_fit = ground arith;
          cleared = λ h. cc;
        })
      ]

accepted-IsValid :
    (u : ℕ) (cs : List Change) (b : Book)
    → IsBook b
    → accepts u cs b ≡ true
    → IsValid (record (after cs b) { update_id = u })
unfolding accepts
accepted-IsValid u cs b v h = record {
  book = record {
    bids_sorted = (after-IsBook cs b v).bids_sorted;
    asks_sorted = (after-IsBook cs b v).asks_sorted;
  };
  bids_fit = ground arith;
  asks_fit = ground arith;
  cleared = λ e. ground arith;
}

accepted-valid : (u : ℕ) (cs : List Change) (b : Book) → accepts u cs b ≡ true → b.valid ≡ true
unfolding accepts
accepted-valid u cs b h = ground arith

after_quantities :
    (u : ℕ) (cs : List Change) (b : Book)
    → IsBook b
    → (s : Side) (p : ℕ)
    → quantity_at p (levels_of s (record (after cs b) { update_id = u }))
      ≡ changed s p cs (quantity_at p (levels_of s b))
after_quantities u cs b v bid p = quantity_at-fold bid p cs b.bids v.bids_sorted
after_quantities u cs b v ask p = quantity_at-fold ask p cs b.asks v.asks_sorted

-- `apply_delta` on a well-formed book leaves a well-formed book. Where it returns true, the quantity
-- at each price is that of the change that names the price, and unchanged where none does.
pub apply_delta-IsValid :
    (update_id : ℕ) (cs : List Change) (b : Book)
    → IsValid b
    → ((s : Side) → length (levels_of s b) + length cs ≤ u64_max)
    → let (ok, b') = apply_delta update_id cs b in
      IsValid b'
      × (ok ≡ b'.valid)
      × (ok ≡ true
          → (s : Side) (p : ℕ)
          → quantity_at p (levels_of s b') ≡ changed s p cs (quantity_at p (levels_of s b)))
apply_delta-IsValid u cs b v small = elim (Bool-cases (accepts u cs b)) [
  | inl taken ↦
      rw (apply_delta_lem b cs v.book small u, taken)
        (
          accepted-IsValid u cs b v.book taken,
          sym (accepted-valid u cs b taken),
          λ _. after_quantities u cs b v.book,
        )
  | inr refused ↦
      rw (apply_delta_lem b cs v.book small u, refused)
        (invalidate-IsValid b, invalidate_agrees b, λ e. absurd (invalidate_false b e))
]

-- The best level of a side: its first level, behind which no price holds a quantity.
abbrev pub IsFirst : Side → List Level → Option Level → Type 0
IsFirst s ls none = (p : ℕ) → quantity_at p ls ≡ 0
IsFirst s ls (some l) =
    (quantity_at l.price ls ≡ l.quantity)
    × (0 < l.quantity)
    × ((p : ℕ) → before s p l.price ≡ true → quantity_at p ls ≡ 0)

front-IsFirst : (s : Side) (ls : List Level) → IsLevels s none ls → IsFirst s ls (front ls)
unfolding quantity_at
front-IsFirst s [] v = λ p. refl
front-IsFirst s (l ∷ ls) v = (
  ground arith,
  v.1,
  λ p h. ground (
    arith,
    before_ne s p l.price h,
    quantity_at-IsLevels s (some l.price) p ls v.2,
    before_asymm s p l.price h,
  ),
)

-- On a well-formed book `best_bid` is the highest bid price that holds a quantity and `best_ask`
-- the lowest ask price, each with its quantity; `nullopt` where the side holds none.
pub best_levels :
    (b : Book) → IsValid b → IsFirst bid b.bids (best_bid b) × IsFirst ask b.asks (best_ask b)
unfolding best_bid best_ask
best_levels b v = elim (Bool-cases b.valid) [
  | inl e ↦
      rw e
        (front-IsFirst bid b.bids v.book.bids_sorted, front-IsFirst ask b.asks v.book.asks_sorted)
  | inr e ↦
      let (no_bids, no_asks) = v.cleared e in
      rw e (empty-IsFirst b.bids no_bids, empty-IsFirst b.asks no_asks)
]
