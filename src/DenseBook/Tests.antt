-- ===== src/DenseBook/Tests.antt =====
-- Runs of the book of cpp/src/dense_ladder_order_book.cpp, and where its theorems apply.
use cpp_rust_performance_lab.Common.{◌^◌, ◌≡◌, refl, true, Option, some, [], arith}
use cpp_rust_performance_lab.Book.{bid, ask, Event, add, execute, done, raised, Exit}
use cpp_rust_performance_lab.Book.Bounded
use cpp_rust_performance_lab.Book.Spec
use cpp_rust_performance_lab.Book.Table
use cpp_rust_performance_lab.Book.Table.{total}
use cpp_rust_performance_lab.Book.Ladder.{Level}
use cpp_rust_performance_lab.Book.Ladder.Best.{IsTop, IsBottom}
use cpp_rust_performance_lab.Book.Digest.{mix_order_id}
use cpp_rust_performance_lab.OrderBook.{apply as reference_apply}
use cpp_rust_performance_lab.ProbeTable.{home, insertion_slot, insertion_from}
use cpp_rust_performance_lab.ProbeTable.Place.{room}
use cpp_rust_performance_lab.IndexedBook
use cpp_rust_performance_lab.IndexedBook.Valid.{IsValid, Meets}
use cpp_rust_performance_lab.IndexedBook.Contract.{Kept}
use cpp_rust_performance_lab.IndexedBook.Reference.{Alike}
use cpp_rust_performance_lab.IndexedBook.Samples.{
  buy, sell_all, one_order, reference, reference-IsValid,
}
use cpp_rust_performance_lab.DenseBook.{
  OrderBook, new, apply, best_bid, best_ask, add_level, offset, level_at,
}
use cpp_rust_performance_lab.DenseBook.Arrays.{covers}
use cpp_rust_performance_lab.DenseBook.Laws.{dense_laws}
use cpp_rust_performance_lab.DenseBook.Contract.{
  Laid, fresh_ladders, fresh_ladders-IsValid, dense_apply-Meets, dense_apply-Alike,
  dense_best_prices, dense_new_lem,
}

abbrev empty_book : OrderBook
empty_book = fresh_ladders (2 ^ 3) 98 5

abbrev after : Exit OrderBook → OrderBook
after (done b) = b
after (raised x b) = b

empty_book-IsValid : IsValid (dense_laws 98 5) empty_book []
empty_book-IsValid = fresh_ladders-IsValid 3 98 5 (omega arith) (omega arith)

abbrev one_book : OrderBook
one_book = after (apply buy empty_book)

buys : best_bid one_book ≡ some (some (record { price_ticks = 100; quantity = 5 }))
unfolding best_bid level_at offset apply IndexedBook.apply IndexedBook.dispatch
    IndexedBook.add_order add_level insertion_slot insertion_from home mix_order_id
buys = refl

buy-Meets :
    Meets
      (dense_laws 98 5)
      (Kept (dense_laws 98 5) add buy empty_book [])
      (apply buy empty_book)
      (Bounded.apply (covers 98 5) (room empty_book.slots) buy [])
buy-Meets = dense_apply-Meets 98 5 empty_book [] buy empty_book-IsValid (omega arith)

one_book-IsValid : IsValid (dense_laws 98 5) one_book one_order
unfolding apply IndexedBook.apply IndexedBook.dispatch IndexedBook.add_order add_level offset
    insertion_slot insertion_from home mix_order_id Bounded.apply Bounded.dispatch Bounded.place
    Spec.place room Table.find Table.emplace Table.total
one_book-IsValid = buy-Meets

one_book_room : room one_book.slots ≡ true
unfolding apply IndexedBook.apply IndexedBook.dispatch IndexedBook.add_order add_level offset
    insertion_slot insertion_from home mix_order_id room
one_book_room = refl

dense_apply-Meets_example :
    Meets
      (dense_laws 98 5)
      (Kept (dense_laws 98 5) execute sell_all one_book one_order)
      (apply sell_all one_book)
      (Bounded.apply (covers 98 5) (room one_book.slots) sell_all one_order)
dense_apply-Meets_example =
    dense_apply-Meets 98 5 one_book one_order sell_all one_book-IsValid (omega arith)

-- a second bid, at a price that the levels cover
abbrev bid_lower : Event
bid_lower = record {
  type = add;
  order_id = 12;
  replacement_order_id = 0;
  side = bid;
  price_ticks = 99;
  quantity = 7;
}

dense_apply-Alike_example :
    Alike (dense_laws 98 5) (reference_apply bid_lower reference) (apply bid_lower one_book)
dense_apply-Alike_example =
    dense_apply-Alike 98 5 reference one_book bid_lower reference-IsValid one_book-IsValid
      one_book_room refl (omega arith)

dense_best_prices_example :
    ((o : Option Level) × (best_bid one_book ≡ some o) × IsTop (λ p. total bid p one_order) o)
    × ((o : Option Level) × (best_ask one_book ≡ some o) × IsBottom (λ p. total ask p one_order) o)
dense_best_prices_example = dense_best_prices 98 5 one_book one_order one_book-IsValid

dense_new_lem_example : Laid 1000 98 5 (new 64 1000 98 5)
dense_new_lem_example = dense_new_lem 64 1000 98 5 (omega arith) (omega arith)
