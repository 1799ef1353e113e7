-- ===== src/OrderBook/Operations.antt =====
-- cpp/src/order_book.cpp: `add_order`, `remove_order` and `subtract_from_order` against the contract.
use cpp_rust_performance_lab.Common.{
  ℕ, ◌+◌, ◌-◌, ◌≤◌, ◌<◌, ◌≡◌, ◌≢◌, arith, u64_max, ◌==◌, inl, inr, Bool-cases, Option-cases, some,
  none, Bool, true, false, ltb, ap, not, ◌&&◌, ℕ_discrete, ◌||◌,
}
use cpp_rust_performance_lab.Book.{Order, done}
use cpp_rust_performance_lab.Book.Table
use cpp_rust_performance_lab.Book.Table.{Orders, IsTable, total}
use cpp_rust_performance_lab.Book.Spec
use cpp_rust_performance_lab.Book.Spec.{Verdict, accept, reject}
use cpp_rust_performance_lab.OrderBook.{OrderBook, add_order, remove_order, subtract_from_order}
use cpp_rust_performance_lab.OrderBook.Levels.{
  add_to_level_fits, add_to_level_overflows, subtract_from_level_fits,
}
use cpp_rust_performance_lab.OrderBook.Valid.{
  IsValid, Meets, total-le, IsValid-orders, share_self, share_split,
}

module _ (b : OrderBook) (v : IsValid b) (id : ℕ) where
  -- a new entry whose level has room
  place_fits :
      (o : Order)
      → id ≢ 0
      → o.remaining_quantity ≢ 0
      → Table.find id b.orders ≡ none
      → total o.side o.price_ticks b.orders + o.remaining_quantity ≤ u64_max
      → Meets (λ _ b'. b' ≡ b) (add_order id o b) (accept (Table.emplace id o b.orders))
  unfolding Table.emplace total
  place_fits o i q e fits =
      let u = Table.emplace id o b.orders in
      let (b', run, same, h) =
        add_to_level_fits _ b o.side o.price_ticks o.remaining_quantity v.holds (λ s p. total s p u)
          (omega arith) fits (λ s p. omega arith) in
      let stop : add_order id o b ≡ done (record b' { orders = Table.emplace id o b'.orders }) =
        unfold add_order in ground arith in
      rw stop (IsValid-orders _ u b' (ap (Table.emplace id o) same) (ground (arith, v.table)) h)

  pub add_order-Meets :
      (o : Order)
      → o.remaining_quantity ≤ u64_max
      → Meets (λ _ b'. b' ≡ b) (add_order id o b) (Spec.place id o b.orders)
  unfolding add_order Spec.place
  add_order-Meets o small = elim (Option-cases (Table.find id b.orders)) [
    | inr (old, e) ↦ ground arith
    | inl e ↦
        elim (Bool-cases
          (ltb (u64_max - total o.side o.price_ticks b.orders) o.remaining_quantity)) [
            | inl over ↦ ground (
              arith,
              add_to_level_overflows _ b o.side o.price_ticks o.remaining_quantity v.holds,
              total-le b o.side o.price_ticks v,
            )
            | inr fits ↦ ground (arith, place_fits o)
          ]
  ]

  pub remove_order-Meets : Meets (λ _ b'. b' ≡ b) (remove_order id b) (Spec.drop id b.orders)
  unfolding remove_order Spec.drop
  remove_order-Meets = elim (Option-cases (Table.find id b.orders)) [
    | inl e ↦ ground arith
    | inr (o, e) ↦
        let u = Table.erase id b.orders in
        let (i, pos, small) = Table.find-IsTable id o b.orders v.table e in
        let (b', run, same, h) =
          subtract_from_level_fits _ b o.side o.price_ticks o.remaining_quantity v.holds
            (λ s p. total s p u) pos
            (omega (arith, Table.total-erase id o o.side o.price_ticks b.orders e, share_self o))
            (total-le b o.side o.price_ticks v) (λ s p. Table.total-erase id o s p b.orders e) in
        let stop : remove_order id b ≡ done (record b' { orders = Table.erase id b'.orders }) =
          ground arith in
        rw (stop, Spec.drop, e)
          (IsValid-orders _ u b' (ap (Table.erase id) same)
            (Table.erase-IsTable id b.orders v.table) h)
  ]

  -- a reduction that leaves the order in the book
  reduce_partly :
      (o : Order) (q : ℕ) (full : Bool)
      → Table.find id b.orders ≡ some o
      → q ≢ 0
      → q < o.remaining_quantity
      → let o' : Order = record o { remaining_quantity = o.remaining_quantity - q } in
        Meets
          (λ _ b'. b' ≡ b)
          (subtract_from_order id q full b)
          (accept (Table.assign id o' b.orders))
  reduce_partly o q full e pos part =
      let o' : Order = record o { remaining_quantity = o.remaining_quantity - q } in
      let u = Table.assign id o' b.orders in
      let (i, _, small) = Table.find-IsTable id o b.orders v.table e in
      let (b', run, same, h) =
        subtract_from_level_fits _ b o.side o.price_ticks q v.holds (λ s p. total s p u)
          (omega arith)
          (omega (arith, Table.total-erase id o o.side o.price_ticks b.orders e, share_self o))
          (total-le b o.side o.price_ticks v)
          (λ s p. omega (
            arith,
            Table.total-assign id o' o s p b.orders e,
            share_split s p q o (omega arith),
          )) in
      let stop : subtract_from_order id q full b
          ≡ done (record b' { orders = Table.assign id o' b'.orders }) =
        unfold subtract_from_order in ground arith in
      rw stop (
        IsValid-orders _ u b' (ap (Table.assign id o') same)
          (Table.assign-IsTable id o' o b.orders e v.table (omega arith) (omega arith)) h)

  -- a reduction that takes all of the order is its removal
  reduce_fully :
      (o : Order) (full : Bool)
      → Table.find id b.orders ≡ some o
      → full ≡ true
      → subtract_from_order id o.remaining_quantity full b ≡ remove_order id b
  unfolding subtract_from_order remove_order
  reduce_fully o full e f = ground (arith, Table.find-IsTable id o b.orders v.table e)

  drop_fully :
      (o : Order) (full : Bool)
      → Table.find id b.orders ≡ some o
      → full ≡ true
      → Spec.reduce id o.remaining_quantity full b.orders ≡ Spec.drop id b.orders
  unfolding Spec.reduce Spec.drop
  drop_fully o full e f = ground (arith, Table.find-IsTable id o b.orders v.table e)

  reduce-Meets :
      (o : Order) (q : ℕ) (full : Bool)
      → Table.find id b.orders ≡ some o
      → (q == 0 || ltb o.remaining_quantity q || (not full && q == o.remaining_quantity)) ≡ false
      → Meets (λ _ b'. b' ≡ b) (subtract_from_order id q full b) (Spec.reduce id q full b.orders)
  reduce-Meets o q full e h = elim (ℕ_discrete q o.remaining_quantity) [
    | yes all ↦
        rw (all, reduce_fully o full e (ground arith), drop_fully o full e (ground arith))
          remove_order-Meets
    | no part ↦ unfold Spec.reduce in ground (arith, reduce_partly o q full)
  ]

  pub subtract_from_order-Meets :
      (q : ℕ) (full : Bool)
      → Meets (λ _ b'. b' ≡ b) (subtract_from_order id q full b) (Spec.reduce id q full b.orders)
  subtract_from_order-Meets q full = elim (Option-cases (Table.find id b.orders)) [
    | inl e ↦ unfold subtract_from_order Spec.reduce in ground arith
    | inr (o, e) ↦
        elim (Bool-cases
          (q == 0 || ltb o.remaining_quantity q || (not full && q == o.remaining_quantity))) [
            | inl bad ↦ unfold subtract_from_order Spec.reduce in ground arith
            | inr good ↦ reduce-Meets o q full e good
          ]
  ]
