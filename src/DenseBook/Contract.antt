-- ===== src/DenseBook/Contract.antt =====
-- cpp/src/dense_ladder_order_book.cpp: `apply` against the contract of a bounded book, the best
-- prices, and the constructor.
use cpp_rust_performance_lab.Common.{
  ℕ, ◌+◌, ◌-◌, ◌*◌, ◌%◌, ◌^◌, ◌≤◌, ◌<◌, ◌≡◌, inl, inr, refl, true, ◌||◌, Option, none, some, [],
  ◌==◌, get_or-replicate, ◌⊎◌, ltb, u64_mod, u64_max, max, length, get_or, replicate,
  length-replicate, arith, Bool-cases,
}
use cpp_rust_performance_lab.Book.{Side, bid, ask, Event}
use cpp_rust_performance_lab.Book.Table
use cpp_rust_performance_lab.Book.Table.{Orders, total}
use cpp_rust_performance_lab.Book.Bounded
use cpp_rust_performance_lab.Book.Ladder.{Level}
use cpp_rust_performance_lab.Book.Ladder.Best.{IsTop, IsBottom}
use cpp_rust_performance_lab.ProbeTable.Place.{room}
use cpp_rust_performance_lab.ProbeTable.Capacity.{grow_lem, grow_endless, blank-IsProbe}
use cpp_rust_performance_lab.IndexedBook.Valid.{IsValid, Meets}
use cpp_rust_performance_lab.IndexedBook.Contract.{Kept, indexed-Meets}
use cpp_rust_performance_lab.IndexedBook.Reference.{Alike, indexed-Alike}
use cpp_rust_performance_lab.OrderBook.{OrderBook as ReferenceBook, apply as reference_apply}
use cpp_rust_performance_lab.OrderBook.Valid.{IsValid as ReferenceIsValid}
use cpp_rust_performance_lab.ParityBook.{Made, made, thrown, endless, empty_slot}
use cpp_rust_performance_lab.DenseBook.{
  OrderBook, Ladders, ladder, apply, best_bid, best_ask, level_at, capacity, new,
}
use cpp_rust_performance_lab.DenseBook.Arrays.{Reads, covers, offset_inside, read_price}
use cpp_rust_performance_lab.DenseBook.Best.{Highest, Lowest}
use cpp_rust_performance_lab.DenseBook.Laws.{dense_laws}

-- The dense-ladder book's `apply`, on a book over the `n` prices from `m` up whose index, arrays and
-- best prices agree with a table of orders, does what the contract of a bounded book says of the
-- table: a new order is refused where every slot of the index holds one, or where its price is
-- outside the range. It returns exactly where the contract accepts, agreeing with the accepted
-- table, best prices included; else it throws the exception that the contract names. The book is
-- then unchanged, but for a replacement, after which it still agrees with some table, and for an
-- upsert of an order that is there, which may have left the levels without it.
pub dense_apply-Meets :
    (m n : ℕ) (b : OrderBook) (t : Orders) (e : Event)
    → IsValid (dense_laws m n) b t
    → e.quantity ≤ u64_max
    → Meets
        (dense_laws m n)
        (Kept (dense_laws m n) e.type e b t)
        (apply e b)
        (Bounded.apply (covers m n) (room b.slots) e t)
unfolding apply
dense_apply-Meets m n b t e v small = indexed-Meets (dense_laws m n) b t v e small

-- The dense-ladder book and the reference book, from states that hold the same orders, where the
-- dense book's index has a free slot and the event's price is in its range: an event is accepted by
-- both, and they hold the same orders again, or by neither, and they throw the same exception.
pub dense_apply-Alike :
    (m n : ℕ) (r : ReferenceBook) (b : OrderBook) (e : Event)
    → ReferenceIsValid r
    → IsValid (dense_laws m n) b r.orders
    → room b.slots ≡ true
    → covers m n e.price_ticks ≡ true
    → e.quantity ≤ u64_max
    → Alike (dense_laws m n) (reference_apply e r) (apply e b)
unfolding apply
dense_apply-Alike m n r b e vr vb free inside small =
    indexed-Alike (dense_laws m n) r b e vr vb free inside small

module _ (m n : ℕ) (f : Side → ℕ → ℕ) (l : Ladders) (v : Reads m n f l) where
  -- A price that holds a quantity is inside the range.
  held_inside : (s : Side) (p : ℕ) → 0 < f s p → covers m n p ≡ true
  held_inside s p pos = elim (Bool-cases (covers m n p)) [
    | inl e ↦ e
    | inr e ↦ absurd (omega (arith, v.outside s p e))
  ]

  bid_level :
      (o : Option ℕ)
      → Highest (f bid) o
      → (x : Option Level) × (level_at bid o l ≡ some x) × IsTop (f bid) x
  unfolding level_at
  bid_level none h = (none, refl, h)
  bid_level (some p) h =
      let inside = held_inside bid p h.0 in
      let at = offset_inside m n f l v p inside in
      let reads = read_price m n f l v bid p inside in
      (
        some (record { price_ticks = p; quantity = f bid p }),
        rw (level_at, at, reads) refl,
        (refl, h.0, h.1),
      )

  ask_level :
      (o : Option ℕ)
      → Lowest (f ask) o
      → (x : Option Level) × (level_at ask o l ≡ some x) × IsBottom (f ask) x
  unfolding level_at
  ask_level none h = (none, refl, h)
  ask_level (some p) h =
      let inside = held_inside ask p h.0 in
      let at = offset_inside m n f l v p inside in
      let reads = read_price m n f l v ask p inside in
      (
        some (record { price_ticks = p; quantity = f ask p }),
        rw (level_at, at, reads) refl,
        (refl, h.0, h.1),
      )

module _ (m n : ℕ) (b : OrderBook) (t : Orders) (v : IsValid (dense_laws m n) b t) where
  -- On a book over the `n` prices from `m` up that agrees with a table of orders, `best_bid` does not
  -- throw and is the highest price at which bids of the table stand, with their total, `best_ask`
  -- the lowest for asks; `nullopt` where there are none.
  pub dense_best_prices :
      ((o : Option Level) × (best_bid b ≡ some o) × IsTop (λ p. total bid p t) o)
      × ((o : Option Level) × (best_ask b ≡ some o) × IsBottom (λ p. total ask p t) o)
  unfolding best_bid best_ask
  dense_best_prices =
      let f : Side → ℕ → ℕ = λ s p. total s p t in
      (
        bid_level m n f b.levels v.holds.arrays b.levels.best_bid v.holds.high,
        ask_level m n f b.levels v.holds.arrays b.levels.best_ask v.holds.low,
      )

abbrev pub fresh_ladders : ℕ → ℕ → ℕ → OrderBook
fresh_ladders size m c = record {
  slots = replicate size empty_slot;
  levels = record {
    bids = replicate c 0;
    asks = replicate c 0;
    minimum_price = m;
    best_bid = none;
    best_ask = none;
  };
  live = 0;
}

pub fresh_ladders-IsValid :
    (p m c : ℕ) → p ≤ 63 → m + c ≤ u64_mod → IsValid (dense_laws m c) (fresh_ladders (2 ^ p) m c) []
unfolding Table.find total
fresh_ladders-IsValid p m c high fits =
    let (index, empty) = blank-IsProbe (2 ^ p) empty_slot refl p high refl in
    let l : Ladders = (fresh_ladders (2 ^ p) m c).levels in
    record {
      index = index;
      table = tt;
      agrees = empty;
      holds = record {
        arrays = record {
          minimum = refl;
          size = λ s. elim s as (λ x. length (ladder x l) ≡ c) [
            | bid ↦ length-replicate c 0
            | ask ↦ length-replicate c 0
          ];
          fits = fits;
          reads = λ s i h. elim s as (λ x. get_or (ladder x l) i 0 ≡ 0) [
            | bid ↦ get_or-replicate c i 0
            | ask ↦ get_or-replicate c i 0
          ];
          outside = λ s q h. refl;
          small = λ s q. omega arith;
        };
        high = λ q. refl;
        low = λ q. refl;
      };
      counted = refl;
    }

-- What the constructor promises for `c` prices from `m` up: a consistent and empty book whose index
-- has at least as many slots as twice `n` modulo 2 ^ 64; an exception where the prices are none or
-- do not fit 64 bits, and a loop that does not end where twice `n` modulo 2 ^ 64 passes 2 ^ 63.
abbrev pub Laid : ℕ → ℕ → ℕ → Made OrderBook → Type 0
Laid n m c (made b) =
    IsValid (dense_laws m c) b []
    × (0 < c)
    × (8 ≤ length b.slots)
    × (n * 2 % u64_mod ≤ length b.slots)
Laid n m c thrown = (c ≡ 0) ⊎ (u64_mod < m + c)
Laid n m c endless = 2 ^ 63 < n * 2 % u64_mod

-- The constructor, with fuel for 61 rounds or more of the loop of `capacity`, keeps that promise.
pub dense_new_lem : (fuel n m c : ℕ) → 61 ≤ fuel → c ≤ u64_max → Laid n m c (new fuel n m c)
dense_new_lem fuel n m c enough small = elim (Bool-cases (ltb (2 ^ 63) (n * 2 % u64_mod))) [
  | inl stuck ↦
      let target = max 8 (n * 2 % u64_mod) in
      let big : 2 ^ 63 < target = ground arith in
      let run : capacity fuel n ≡ none =
        unfold capacity in grow_endless fuel 3 target (omega arith) big in
      let stop : new fuel n m c ≡ endless = unfold new in rw (new, run) refl in
      rw stop (ground arith)
  | inr fits ↦
      let target = max 8 (n * 2 % u64_mod) in
      let below : target ≤ 2 ^ 63 = ground arith in
      let (p, low, high, run', reach, least) =
        grow_lem fuel 3 target (omega arith) below (omega arith) in
      let run : capacity fuel n ≡ some (2 ^ p) = unfold capacity in run' in
      let slots = length-replicate (2 ^ p) empty_slot in
      elim (Bool-cases (c == 0 || ltb (u64_max - (c - 1)) m)) [
        | inl bad ↦
            let stop : new fuel n m c ≡ thrown = unfold new in rw (new, run, bad) refl in
            rw stop (ground arith)
        | inr good ↦
            let stop : new fuel n m c ≡ made (fresh_ladders (2 ^ p) m c) =
              unfold new in rw (new, run, good) refl in
            rw stop (
              fresh_ladders-IsValid p m c high (ground arith),
              ground arith,
              omega (arith, slots, reach),
              omega (arith, slots, reach),
            )
      ]
]
