-- ===== src/BackshiftBook/Contract.antt =====
-- cpp/src/bitmap_backshift_order_book.cpp: `apply` against the contract of a bounded book and against
-- the reference book, and the constructor.
use cpp_rust_performance_lab.Common.{
  ℕ, ◌+◌, ◌-◌, ◌*◌, ◌^◌, ◌≤◌, ◌<◌, ◌≡◌, ◌≢◌, ◌⊎◌, inl, inr, refl, sym, ap, ◌∙◌, Bool, true, false,
  not, ◌||◌, none, some, [], ◌==◌, ltb, u64_mod, u64_max, arith, Bool-cases,
}
use cpp_rust_performance_lab.Book.{
  Order, Event, EventType, add, cancel, execute, delete, replace, order_upsert, order_delete, Exit,
  done, raised, Exception,
}
use cpp_rust_performance_lab.Book.Table
use cpp_rust_performance_lab.Book.Table.{Orders, total}
use cpp_rust_performance_lab.Book.Spec
use cpp_rust_performance_lab.Book.Spec.{Verdict, accept, reject}
use cpp_rust_performance_lab.Book.Bounded
use cpp_rust_performance_lab.IndexedBook.{order_of}
use cpp_rust_performance_lab.IndexedBook.Reference.{unbounded}
use cpp_rust_performance_lab.OrderBook.{OrderBook as ReferenceBook, apply as reference_apply}
use cpp_rust_performance_lab.OrderBook.Valid.{IsValid as ReferenceIsValid, Meets as ReferenceMeets}
use cpp_rust_performance_lab.OrderBook.Contract.{Kept as ReferenceKept, apply-Meets}
use cpp_rust_performance_lab.ParityBook.{Made, made, thrown, endless}
use cpp_rust_performance_lab.DenseBook.Arrays.{covers}
use cpp_rust_performance_lab.BitmapLevels.{no_levels, price_count}
use cpp_rust_performance_lab.BitmapLevels.Best.{no_levels-Holds}
use cpp_rust_performance_lab.FixedIndex
use cpp_rust_performance_lab.FixedIndex.{FixedIndex}
use cpp_rust_performance_lab.FixedIndex.Make.{Fitted, index_new_lem}
use cpp_rust_performance_lab.BackshiftBook.{
  BackshiftBook, Run, then_run, blank_order, new, add_order, remove, dispatch, apply,
}
use cpp_rust_performance_lab.BackshiftBook.Valid.{IsValid, Kept, Meets, Meets-weaken, has_room}
use cpp_rust_performance_lab.BackshiftBook.Operations.{
  Added, HasRoom, add_order-Meets, remove-Meets, remove-HasRoom, reduce-Meets,
}
use cpp_rust_performance_lab.BackshiftBook.Upsert.{upsert-Meets}

module _ (m : ℕ) (b : BackshiftBook) (t : Orders) (v : IsValid m b t) (e : Event)
    (small : e.quantity ≤ u64_max) where
  abbrev in_range : ℕ → Bool
  in_range = covers m price_count

  -- The second half of a replacement, from the book that the first leaves.
  place_after :
      (run : Run) (verdict : Verdict)
      → HasRoom run
      → Meets m (λ b'. IsValid m b' t) run verdict
      → Meets m
          (Kept m replace e t)
          (then_run run (λ b'. some (add_order e.replacement_order_id (order_of e) b')))
          (Bounded.then_place in_range e verdict)
  place_after none verdict room g = elim g [ ]
  place_after (some (done b')) (reject y) room g = elim g [ ]
  place_after (some (raised x b')) (accept u) room g = elim g [ ]
  place_after (some (raised x b')) (reject y) room g = (g.0, (t, inl g.1))
  place_after (some (done b')) (accept u) room g =
      let id = e.replacement_order_id in
      let o = order_of e in
      let placed : Meets m (Added m b' u g id o) (some (add_order id o b'))
          (Bounded.place in_range true id o u) =
        rw (← room) (add_order-Meets m b' u g id o small) in
      Meets-weaken m (Added m b' u g id o) (Kept m replace e t) (some (add_order id o b'))
        (Bounded.place in_range true id o u) (λ c k. (u, k)) placed

  Meets-replace :
      Meets m
        (Kept m replace e t)
        (dispatch replace e b)
        (Bounded.dispatch in_range (has_room b.orders) replace e t)
  unfolding dispatch Bounded.dispatch
  Meets-replace = elim (Bool-cases (e.order_id == e.replacement_order_id)) [
    | inl same ↦ rw same (refl, (t, inl v))
    | inr other ↦ rw other (
        place_after (remove e.order_id b) (Spec.drop e.order_id t)
          (remove-HasRoom m b t v e.order_id) (remove-Meets m b t v e.order_id))
  ]

  dispatch-Meets :
      (k : EventType)
      → Meets m
          (Kept m k e t)
          (dispatch k e b)
          (Bounded.dispatch in_range (has_room b.orders) k e t)
  unfolding dispatch Bounded.dispatch
  dispatch-Meets add = add_order-Meets m b t v e.order_id (order_of e) small
  dispatch-Meets cancel = reduce-Meets m b t v e.order_id e.quantity false
  dispatch-Meets execute = reduce-Meets m b t v e.order_id e.quantity true
  dispatch-Meets delete = remove-Meets m b t v e.order_id
  dispatch-Meets order_delete = remove-Meets m b t v e.order_id
  dispatch-Meets replace = Meets-replace
  dispatch-Meets order_upsert = upsert-Meets m b t v e.order_id (order_of e) small

-- The backshift book's `apply`, on a book over the 256 prices from `m` up whose index, arrays and
-- bitmaps agree with a table of orders, ends and does what the contract of a bounded book says of the
-- table: a new order is refused where the index is at its maximum, or where its price is outside the
-- range. It returns exactly where the contract accepts, agreeing with the accepted table; else it
-- throws the exception that the contract names. The book then agrees with the table (of a
-- replacement, with some table), but an event that adds an order may have left that order in the index
-- alone, and an upsert of an order that is there may have left the levels without it.
pub backshift_apply-Meets :
    (m : ℕ) (b : BackshiftBook) (t : Orders) (e : Event)
    → IsValid m b t
    → e.quantity ≤ u64_max
    → Meets m
        (Kept m e.type e t)
        (apply e b)
        (Bounded.apply (covers m price_count) (has_room b.orders) e t)
unfolding apply Bounded.apply
backshift_apply-Meets m b t e v small = dispatch-Meets m b t v e small e.type

-- Both books return, and agree on the live orders, or both throw the same exception.
abbrev pub Alike : ℕ → Exit ReferenceBook → Run → Type 0
Alike m out none = ⊥
Alike m (done r) (some (done b)) = ReferenceIsValid r × IsValid m b r.orders
Alike m (raised x r) (some (raised y b)) = x ≡ y
Alike m (done r) (some (raised y b)) = ⊥
Alike m (raised x r) (some (done b)) = ⊥

both_meet :
    (m : ℕ) (kept : Exception → ReferenceBook → Type 0) (kept' : BackshiftBook → Type 0)
    (out : Exit ReferenceBook) (run : Run) (verdict : Verdict)
    → ReferenceMeets kept out verdict
    → Meets m kept' run verdict
    → Alike m out run
both_meet m kept kept' out none verdict g h = h
both_meet m kept kept' (done r) (some (done b)) (accept t) g h = (g.1, rw g.0 h)
both_meet m kept kept' (raised x r) (some (raised y b)) (reject z) g h = g.0 ∙ sym h.0
both_meet m kept kept' (done r) (some (raised y b)) (accept t) g h = elim h [ ]
both_meet m kept kept' (done r) (some out') (reject z) g h = elim g [ ]
both_meet m kept kept' (raised x r) (some out') (accept t) g h = elim g [ ]
both_meet m kept kept' (raised x r) (some (done b)) (reject z) g h = elim h [ ]

-- The backshift book and the reference book, from states that hold the same orders, where the index of
-- the backshift book is below its maximum and the event's price is in its range: an event is accepted
-- by both, and they hold the same orders again, or by neither, and they throw the same exception.
pub backshift_apply-Alike :
    (m : ℕ) (r : ReferenceBook) (b : BackshiftBook) (e : Event)
    → ReferenceIsValid r
    → IsValid m b r.orders
    → has_room b.orders ≡ true
    → covers m price_count e.price_ticks ≡ true
    → e.quantity ≤ u64_max
    → Alike m (reference_apply e r) (apply e b)
backshift_apply-Alike m r b e vr vb free inside small =
    let same : Bounded.apply (covers m price_count) (has_room b.orders) e r.orders
        ≡ Spec.apply e r.orders =
      ap (λ (f : Bool). Bounded.apply (covers m price_count) f e r.orders) free
      ∙ unbounded (covers m price_count) e r.orders inside in
    both_meet m (ReferenceKept e.type e r) (Kept m e.type e r.orders) (reference_apply e r)
      (apply e b) (Spec.apply e r.orders) (apply-Meets r e vr small)
      (rw (← same) (backshift_apply-Meets m b r.orders e vb small))

-- What the constructor promises for `n` orders and `c` prices from `m` up.
abbrev pub Charted : ℕ → ℕ → ℕ → Made BackshiftBook → Type 0
Charted n m c (made b) =
    IsValid m b []
    × (n ≤ 2 ^ 62)
    × (b.orders.maximum_live_entries ≡ n)
    × (c ≡ price_count)
    × (m + price_count ≤ u64_mod)
Charted n m c thrown = (u64_max < n * 2) ⊎ ((c ≢ price_count) ⊎ (u64_mod < m + price_count))
Charted n m c endless = (2 ^ 62 < n) × (n * 2 ≤ u64_max)

new-Charted :
    (fuel n m c : ℕ) (o : Made (FixedIndex Order))
    → FixedIndex.new blank_order fuel n ≡ o
    → Fitted blank_order n o
    → Charted n m c (new fuel n m c)
unfolding new Table.find total
new-Charted fuel n m c thrown run fit =
    let stop : new fuel n m c ≡ thrown = rw (new, run) refl in rw stop (inl fit)
new-Charted fuel n m c endless run fit =
    let stop : new fuel n m c ≡ endless = rw (new, run) refl in rw stop fit
new-Charted fuel n m c (made orders) run fit =
    elim (Bool-cases (not (c == price_count) || ltb (u64_max - (price_count - 1)) m)) [
      | inl bad ↦
          let stop : new fuel n m c ≡ thrown = rw (new, run, bad) refl in
          rw stop (
            inr (elim (Bool-cases (c == price_count)) [
              | inl all ↦ inr (ground arith)
              | inr few ↦ inl (ground arith)
            ]))
      | inr good ↦
          let fits : m + price_count ≤ u64_mod = ground arith in
          let stop : new fuel n m c
              ≡ made (record { orders = orders; levels = no_levels m; live = 0 }) =
            rw (new, run, good) refl in
          rw stop (
            record {
              index = fit.1;
              table = tt;
              agrees = fit.3;
              holds = no_levels-Holds m fits;
              counted = refl;
            },
            fit.0,
            fit.2,
            ground arith,
            fits,
          )
    ]

-- The constructor for `n` orders and `c` prices from `m` up, with fuel for 61 rounds or more of the
-- loop that sizes the index: what it makes is a consistent and empty book over 256 prices that fit 64
-- bits, whose index has `n` for its maximum; it throws only where twice `n` passes 64 bits, `c` is not
-- 256 or the prices do not fit, and loops without end only for more than 2 ^ 62 orders.
pub backshift_new_lem : (fuel n m c : ℕ) → 61 ≤ fuel → n ≤ u64_max → Charted n m c (new fuel n m c)
backshift_new_lem fuel n m c enough small =
    new-Charted fuel n m c (FixedIndex.new blank_order fuel n) refl
      (index_new_lem blank_order fuel n enough small)
