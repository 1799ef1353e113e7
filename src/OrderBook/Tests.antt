-- ===== src/OrderBook/Tests.antt =====
-- cpp/src/order_book.cpp: runs on small inputs, and the theorems at concrete books.
use cpp_rust_performance_lab.Common.{ℕ, ◌≡◌, refl, arith, none, some, [], ◌∷◌, if◌then◌else◌, ◌==◌}
use cpp_rust_performance_lab.Book.{
  Side, bid, ask, Event, add, execute, replace, Order, Exit, done, ◌>>=◌,
}
use cpp_rust_performance_lab.Book.Ladder
use cpp_rust_performance_lab.Book.Ladder.Best.{IsTop, IsBottom}
use cpp_rust_performance_lab.Book.Spec
use cpp_rust_performance_lab.Book.Table
use cpp_rust_performance_lab.Book.Table.{total}
use cpp_rust_performance_lab.OrderBook.{
  OrderBook, levels_for, new, apply, add_to_level, subtract_from_level, add_order, remove_order,
  subtract_from_order, upsert_order, best_bid, best_ask, level_quantity,
}
use cpp_rust_performance_lab.OrderBook.Levels.{Holds}
use cpp_rust_performance_lab.OrderBook.Valid.{IsValid, Meets}
use cpp_rust_performance_lab.OrderBook.Contract.{Kept, apply-Meets}
use cpp_rust_performance_lab.OrderBook.Queries.{best_prices, level_quantity_lem}

program : Unit {0}
unfolding new apply add_to_level subtract_from_level add_order remove_order subtract_from_order
    upsert_order Ladder.find Ladder.put Ladder.subscript Ladder.quantity_at Ladder.erase Table.find
    Table.emplace Table.assign Table.erase best_bid best_ask level_quantity
program = tt

abbrev event : Event
event = record {
  type = add;
  order_id = 1;
  replacement_order_id = 0;
  side = bid;
  price_ticks = 100;
  quantity = 10;
}

-- two bids at 100, one at 99, an ask at 101
abbrev script : Exit OrderBook
script =
    apply event new
    >>= apply (record event { order_id = 2; quantity = 5 })
    >>= apply (record event { order_id = 3; price_ticks = 99; quantity = 7 })
    >>= apply (record event { order_id = 4; side = ask; price_ticks = 101; quantity = 1 })
    >>= apply (record event { type = execute; order_id = 1; quantity = 4 })
    >>= apply
        (record event { type = replace; order_id = 2; replacement_order_id = 9; price_ticks = 98 })

abbrev order : ℕ → ℕ → Order
order p q = record { side = bid; price_ticks = p; remaining_quantity = q }

abbrev level : ℕ → ℕ → Ladder.Level
level p q = record { price_ticks = p; quantity = q }

abbrev script_book : OrderBook
script_book = record {
  orders =
      (9, order 98 10)
      ∷ (4, record (order 101 1) { side = ask })
      ∷ (3, order 99 7)
      ∷ (1, order 100 6)
      ∷ [];
  bids = level 98 10 ∷ level 99 7 ∷ level 100 6 ∷ [];
  asks = level 101 1 ∷ [];
}

script_runs : script ≡ done script_book
unfolding program
script_runs = refl

abbrev small_book : OrderBook
small_book = record { orders = (1, order 100 6) ∷ []; bids = level 100 6 ∷ []; asks = [] }

small_book-Holds : Holds (λ s p. total s p small_book.orders) small_book
unfolding total Ladder.quantity_at
small_book-Holds = record { ladder = ladder; reads = reads }
  where
    ladder : (s : Side) → Ladder.IsLadder 0 (levels_for s small_book)
    ladder bid = omega arith
    ladder ask = tt

    reads :
        (s : Side) (p : ℕ)
        → Ladder.quantity_at p (levels_for s small_book) ≡ total s p small_book.orders
    reads bid p = ground arith
    reads ask p = ground arith

small_book-IsValid : IsValid small_book
unfolding Table.find
small_book-IsValid = record {
  table = (omega arith, refl, omega arith, omega arith, tt);
  holds = small_book-Holds;
}

abbrev reduction : Event
reduction = record event { type = execute; quantity = 2 }

apply-Meets_example :
    Meets
      (Kept execute reduction small_book)
      (apply reduction small_book)
      (Spec.apply reduction small_book.orders)
apply-Meets_example = apply-Meets small_book reduction small_book-IsValid (omega arith)

best_prices_example :
    IsTop (λ p. total bid p small_book.orders) (best_bid small_book)
    × IsBottom (λ p. total ask p small_book.orders) (best_ask small_book)
best_prices_example = best_prices small_book small_book-IsValid

level_quantity_lem_example : level_quantity bid 100 small_book ≡ (
    if total bid 100 small_book.orders == 0 then none else some (total bid 100 small_book.orders))
level_quantity_lem_example = level_quantity_lem small_book bid 100 small_book-IsValid
