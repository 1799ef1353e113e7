-- ===== src/ParityBook/Queries.antt =====
-- cpp/src/parity_order_book.cpp: the constructor, and what the queries of a book return.
use cpp_rust_performance_lab.Common.{
  ℕ, ◌*◌, ◌%◌, ◌^◌, ◌≤◌, ◌<◌, ◌≡◌, inl, inr, refl, none, some, List, [], ◌∷◌, ◌==◌, if◌then◌else◌,
  u64_mod, u64_max, length, replicate, length-replicate, get_elem?, arith, Bool-cases,
}
use cpp_rust_performance_lab.Book.{Side, bid, ask}
use cpp_rust_performance_lab.Book.Table
use cpp_rust_performance_lab.Book.Table.{Orders, total}
use cpp_rust_performance_lab.Book.Ladder.{Level, quantity_at, IsLadder, last?, first?}
use cpp_rust_performance_lab.Book.Ladder.Best.{
  IsTop, IsBottom, IsTop-congr, IsBottom-congr, last?-IsTop, first?-IsBottom,
}
use cpp_rust_performance_lab.ProbeTable.Capacity.{blank-IsProbe}
use cpp_rust_performance_lab.IndexedBook.Valid.{IsValid}
use cpp_rust_performance_lab.ParityBook.{
  OrderBook, levels_for, Made, made, thrown, endless, new, empty_slot, last_level, best_bid,
  best_ask, level_quantity, live_order_count, lower_bound, is_at,
}
use cpp_rust_performance_lab.ParityBook.Sizing.{table_capacity-Outcome, too_many, stuck, fitting}
use cpp_rust_performance_lab.ParityBook.Vectors.{parity_laws, is_at_lem, quantity_of_lem}

last_level-last? : (ls : List Level) → last_level ls ≡ last? ls
unfolding last_level last?
last_level-last? [] = refl
last_level-last? (l ∷ []) = refl
last_level-last? (l ∷ m ∷ ls) = last_level-last? (m ∷ ls)

front-first? : (ls : List Level) → get_elem? ls 0 ≡ first? ls
unfolding first?
front-first? [] = refl
front-first? (l ∷ ls) = refl

module _ (b : OrderBook) (t : Orders) (v : IsValid parity_laws b t) where
  -- On a book that agrees with a table of orders, `best_bid` is the highest price at which bids of
  -- the table stand, with their total, and `best_ask` the lowest for asks; `nullopt` where there
  -- are none.
  pub parity_best_prices :
      IsTop (λ p. total bid p t) (best_bid b) × IsBottom (λ p. total ask p t) (best_ask b)
  unfolding best_bid best_ask
  parity_best_prices = (
    rw (last_level-last? b.levels.bids) (
        IsTop-congr (λ p. quantity_at p b.levels.bids) (λ p. total bid p t) (last? b.levels.bids)
          (v.holds.reads bid) (last?-IsTop 0 b.levels.bids (v.holds.ladder bid))),
    rw (front-first? b.levels.asks) (
        IsBottom-congr (λ p. quantity_at p b.levels.asks) (λ p. total ask p t)
          (first? b.levels.asks) (v.holds.reads ask)
          (first?-IsBottom 0 b.levels.asks (v.holds.ladder ask))),
  )

  -- `level_quantity` is the total of the orders of a side at a price, `nullopt` where it is 0, and
  -- `live_order_count` is the number of orders, modulo 2 ^ 64.
  pub parity_counts :
      ((s : Side) (p : ℕ)
        → level_quantity s p b ≡ (if total s p t == 0 then none else some (total s p t)))
      × (live_order_count b ≡ length t % u64_mod)
  unfolding level_quantity live_order_count
  parity_counts = (
    λ s p.
        (let ls = levels_for s b.levels in
          let there = is_at_lem p 0 ls (v.holds.ladder s) in
          let reads = v.holds.reads s p in
          elim (Bool-cases (is_at p (get_elem? ls (lower_bound p ls)))) [
            | inl e ↦ rw (e, quantity_of_lem p 0 ls (v.holds.ladder s) e, reads) (ground arith)
            | inr e ↦ rw e (ground arith)
          ]),
    v.counted,
  )

abbrev pub fresh : ℕ → OrderBook
fresh capacity = record {
  slots = replicate capacity empty_slot;
  levels = record { bids = []; asks = [] };
  live = 0;
}

pub fresh-IsValid : (p : ℕ) → p ≤ 63 → IsValid parity_laws (fresh (2 ^ p)) []
unfolding Table.find total quantity_at
fresh-IsValid p high =
    let (index, empty) = blank-IsProbe (2 ^ p) empty_slot refl p high refl in
    record {
      index = index;
      table = tt;
      agrees = empty;
      holds = record {
        ladder = λ s. elim s as (λ x. IsLadder 0 (levels_for x (fresh (2 ^ p)).levels)) [
          | bid ↦ tt
          | ask ↦ tt
        ];
        reads = λ s q. elim s as (λ x. quantity_at q (levels_for x (fresh (2 ^ p)).levels) ≡ 0) [
          | bid ↦ refl
          | ask ↦ refl
        ];
      };
      counted = refl;
    }

-- What the constructor promises: at most 2 ^ 62 orders give a consistent and empty book whose index
-- has at least two slots for an order; more do not fit, by an exception where twice as many pass 64
-- bits, and otherwise by a loop that does not end.
abbrev pub Sized : ℕ → Made OrderBook → Type 0
Sized n (made b) =
    (n ≤ 2 ^ 62) × IsValid parity_laws b [] × (8 ≤ length b.slots) × (n * 2 ≤ length b.slots)
Sized n thrown = u64_max < n * 2
Sized n endless = (2 ^ 62 < n) × (n * 2 ≤ u64_max)

-- The constructor, with fuel for 61 rounds or more of the loop of `table_capacity`, keeps that
-- promise.
pub parity_new_lem : (fuel n : ℕ) → 61 ≤ fuel → n ≤ u64_max → Sized n (new fuel n)
parity_new_lem fuel n enough small = elim (table_capacity-Outcome fuel n enough small) [
  | too_many over size ↦
      let stop : new fuel n ≡ thrown = unfold new in rw (new, size) refl in rw stop over
  | stuck big fits size ↦
      let stop : new fuel n ≡ endless = unfold new in rw (new, size) refl in rw stop (big, fits)
  | fitting p fits high size eight reach ↦
      let stop : new fuel n ≡ made (fresh (2 ^ p)) = unfold new in rw (new, size) refl in
      let slots = length-replicate (2 ^ p) empty_slot in
      rw stop (fits, fresh-IsValid p high, omega (arith, slots), omega (arith, slots))
]
