-- ===== src/OrderBook/Upsert.antt =====
-- cpp/src/order_book.cpp: `upsert_order` against the contract.
use cpp_rust_performance_lab.Common.{
  ℕ, ◌+◌, ◌-◌, ◌≤◌, ◌<◌, ◌≡◌, ◌≢◌, refl, arith, u64_max, ◌==◌, inl, inr, Bool-cases, Option-cases,
  some, none, ltb, if◌then◌else◌, ◌||◌,
}
use cpp_rust_performance_lab.Book.{Side, Order, share, Exception, overflow_error}
use cpp_rust_performance_lab.Book.Ladder
use cpp_rust_performance_lab.Book.Table
use cpp_rust_performance_lab.Book.Table.{Orders, IsTable, total}
use cpp_rust_performance_lab.Book.Spec
use cpp_rust_performance_lab.Book.Spec.{Verdict, accept, reject}
use cpp_rust_performance_lab.OrderBook.{OrderBook, levels_for, upsert_order, add_to_level}
use cpp_rust_performance_lab.OrderBook.Levels.{
  Holds, Holds-orders, add_to_level_fits, add_to_level_overflows, subtract_from_level_fits,
}
use cpp_rust_performance_lab.OrderBook.Valid.{IsValid, Meets, total-le, IsValid-orders, share_self}

-- What an upsert that throws leaves: after an overflow the table holds the new order and the
-- levels do not, so that the book is inconsistent; after any other exception nothing has changed.
abbrev pub Torn : ℕ → Order → OrderBook → Exception → OrderBook → Type 0
Torn id o b overflow_error b' = (Table.find id b'.orders ≡ some o) × (¬ IsValid b')
Torn id o b _ b' = b' ≡ b

-- The last step of an upsert: the table `c.orders` already holds `o`, the levels do not yet.
level_catches_up :
    (c : OrderBook) (f : Side → ℕ → ℕ) (o : Order) (kept : Exception → OrderBook → Type 0)
    → Holds f c
    → IsTable c.orders
    → ((s : Side) (p : ℕ) → total s p c.orders ≡ f s p + share s p o)
    → 0 < o.remaining_quantity
    → o.remaining_quantity ≤ u64_max
    → (¬ IsValid c → kept overflow_error c)
    → Meets kept (add_to_level o.side o.price_ticks o.remaining_quantity c) (
        if ltb (u64_max - f o.side o.price_ticks) o.remaining_quantity
        then reject overflow_error
        else accept c.orders)
level_catches_up c f o kept h t sums pos small torn =
    let room : f o.side o.price_ticks ≤ u64_max = omega (
      arith,
      h.reads o.side o.price_ticks,
      Ladder.quantity_at-le o.price_ticks 0 (levels_for o.side c) (h.ladder o.side),
    ) in
    elim (Bool-cases (ltb (u64_max - f o.side o.price_ticks) o.remaining_quantity)) [
      | inl over ↦
          rw
            (
              over,
              add_to_level_overflows f c o.side o.price_ticks o.remaining_quantity h room small
                  (ground arith),
            )
            (
              refl,
              torn (λ w. ground (
                arith,
                total-le c o.side o.price_ticks w,
                sums o.side o.price_ticks,
                share_self o,
              )),
            )
      | inr fits ↦
          let (c', run, same, h') =
            add_to_level_fits f c o.side o.price_ticks o.remaining_quantity h
              (λ s p. total s p c.orders) pos (ground arith) sums in
          rw (fits, run) (IsValid-orders c'.orders c.orders c' same t h')
    ]

module _ (b : OrderBook) (v : IsValid b) (id : ℕ) where
  upsert_absent :
      (o : Order)
      → id ≢ 0
      → 0 < o.remaining_quantity
      → o.remaining_quantity ≤ u64_max
      → Table.find id b.orders ≡ none
      → Meets (Torn id o b) (upsert_order id o b) (Spec.upsert id o b.orders)
  unfolding Table.emplace total
  upsert_absent o i pos small e =
      let u = Table.emplace id o b.orders in
      let run : upsert_order id o b
          ≡ add_to_level o.side o.price_ticks o.remaining_quantity (record b { orders = u }) =
        unfold upsert_order in ground arith in
      let spec : Spec.upsert id o b.orders ≡ (
          if ltb (u64_max - total o.side o.price_ticks b.orders) o.remaining_quantity
          then reject overflow_error
          else accept u) =
        unfold Spec.upsert in ground arith in
      rw (run, spec)
        (level_catches_up (record b { orders = u }) (λ s p. total s p b.orders) o (Torn id o b)
          (Holds-orders _ u b v.holds) (ground (arith, v.table)) (λ s p. omega arith) pos small
          (λ n. (unfold Table.find in ground arith, n)))

  upsert_present :
      (o old : Order)
      → id ≢ 0
      → 0 < o.remaining_quantity
      → o.remaining_quantity ≤ u64_max
      → Table.find id b.orders ≡ some old
      → Meets (Torn id o b) (upsert_order id o b) (Spec.upsert id o b.orders)
  upsert_present o old i pos small e =
      let t = Table.erase id b.orders in
      let u = Table.assign id o b.orders in
      let (b', sub, same, h) =
        subtract_from_level_fits _ b old.side old.price_ticks old.remaining_quantity v.holds
          (λ s p. total s p t) (Table.find-IsTable id old b.orders v.table e).1
          (omega
            (arith, Table.total-erase id old old.side old.price_ticks b.orders e, share_self old))
          (total-le b old.side old.price_ticks v)
          (λ s p. Table.total-erase id old s p b.orders e) in
      let run : upsert_order id o b
          ≡ add_to_level o.side o.price_ticks o.remaining_quantity (record b' { orders = u }) =
        unfold upsert_order in ground arith in
      let spec : Spec.upsert id o b.orders ≡ (
          if ltb (u64_max - total o.side o.price_ticks t) o.remaining_quantity
          then reject overflow_error
          else accept u) =
        unfold Spec.upsert in ground arith in
      rw (run, spec)
        (level_catches_up (record b' { orders = u }) (λ s p. total s p t) o (Torn id o b)
          (Holds-orders _ u b' h) (Table.assign-IsTable id o old b.orders e v.table pos small)
          (λ s p. omega (
            arith,
            Table.total-assign id o old s p b.orders e,
            Table.total-erase id old s p b.orders e,
          ))
          pos small (λ n. (ground (arith, Table.find-assign id id o old b.orders e), n)))

  -- An overflow leaves the table changed.
  pub upsert_order-Meets :
      (o : Order)
      → o.remaining_quantity ≤ u64_max
      → Meets (Torn id o b) (upsert_order id o b) (Spec.upsert id o b.orders)
  upsert_order-Meets o small = elim (Bool-cases (id == 0 || o.remaining_quantity == 0)) [
    | inl bad ↦ unfold upsert_order Spec.upsert in ground arith
    | inr good ↦ elim (Option-cases (Table.find id b.orders)) [
      | inl e ↦ upsert_absent o (ground arith) (ground arith) small e
      | inr (old, e) ↦ upsert_present o old (ground arith) (ground arith) small e
    ]
  ]
