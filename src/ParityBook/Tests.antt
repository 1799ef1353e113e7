-- ===== src/ParityBook/Tests.antt =====
-- Runs of the book of cpp/src/parity_order_book.cpp, and where its theorems apply.
use cpp_rust_performance_lab.Common.{
  ℕ, ◌^◌, ◌≡◌, refl, true, none, some, [], length, u64_mod, ◌%◌, if◌then◌else◌, ◌==◌, arith,
}
use cpp_rust_performance_lab.Book.{Side, bid, ask, add, execute, done, raised, Exit}
use cpp_rust_performance_lab.Book.Bounded
use cpp_rust_performance_lab.Book.Spec
use cpp_rust_performance_lab.Book.Table
use cpp_rust_performance_lab.Book.Table.{Orders, total}
use cpp_rust_performance_lab.Book.Ladder.Best.{IsTop, IsBottom}
use cpp_rust_performance_lab.Book.Digest.{mix_order_id}
use cpp_rust_performance_lab.OrderBook.{apply as reference_apply}
use cpp_rust_performance_lab.ProbeTable.{home, insertion_slot, insertion_from}
use cpp_rust_performance_lab.ProbeTable.Place.{room}
use cpp_rust_performance_lab.IndexedBook
use cpp_rust_performance_lab.IndexedBook.Valid.{IsValid, Meets}
use cpp_rust_performance_lab.IndexedBook.Contract.{Kept}
use cpp_rust_performance_lab.IndexedBook.Reference.{Alike}
use cpp_rust_performance_lab.IndexedBook.Samples.{
  buy, sell_all, one_order, reference, reference-IsValid,
}
use cpp_rust_performance_lab.ParityBook.{
  OrderBook, new, apply, best_bid, best_ask, level_quantity, live_order_count, lower_bound,
  insert_at, add_levels, last_level,
}
use cpp_rust_performance_lab.ParityBook.Vectors.{parity_laws}
use cpp_rust_performance_lab.ParityBook.Contract.{parity_apply-Meets, parity_apply-Alike}
use cpp_rust_performance_lab.ParityBook.Queries.{
  Sized, fresh, fresh-IsValid, parity_best_prices, parity_counts, parity_new_lem,
}

abbrev empty_book : OrderBook
empty_book = fresh (2 ^ 3)

abbrev after : Exit OrderBook → OrderBook
after (done b) = b
after (raised x b) = b

empty_book-IsValid : IsValid parity_laws empty_book []
empty_book-IsValid = fresh-IsValid 3 (omega arith)

free_slot : room empty_book.slots ≡ true
unfolding room
free_slot = refl

buys : best_bid (after (apply buy empty_book)) ≡ some (record { price_ticks = 100; quantity = 5 })
unfolding best_bid last_level apply IndexedBook.apply IndexedBook.dispatch IndexedBook.add_order
    add_levels lower_bound insert_at insertion_slot insertion_from home mix_order_id
buys = refl

buy-Meets :
    Meets parity_laws
      (Kept parity_laws add buy empty_book [])
      (apply buy empty_book)
      (Bounded.apply (λ p. true) (room empty_book.slots) buy [])
buy-Meets = parity_apply-Meets empty_book [] buy empty_book-IsValid (omega arith)

one_book-IsValid : IsValid parity_laws (after (apply buy empty_book)) one_order
unfolding apply IndexedBook.apply IndexedBook.dispatch IndexedBook.add_order add_levels lower_bound
    insert_at insertion_slot insertion_from home mix_order_id Bounded.apply Bounded.dispatch
    Bounded.place Spec.place room Table.find Table.emplace Table.total
one_book-IsValid = buy-Meets

abbrev one_book : OrderBook
one_book = after (apply buy empty_book)

one_book_room : room one_book.slots ≡ true
unfolding apply IndexedBook.apply IndexedBook.dispatch IndexedBook.add_order add_levels lower_bound
    insert_at insertion_slot insertion_from home mix_order_id room
one_book_room = refl

parity_apply-Meets_example :
    Meets parity_laws
      (Kept parity_laws execute sell_all one_book one_order)
      (apply sell_all one_book)
      (Bounded.apply (λ p. true) (room one_book.slots) sell_all one_order)
parity_apply-Meets_example =
    parity_apply-Meets one_book one_order sell_all one_book-IsValid (omega arith)

parity_apply-Alike_example :
    Alike parity_laws (reference_apply sell_all reference) (apply sell_all one_book)
parity_apply-Alike_example =
    parity_apply-Alike reference one_book sell_all reference-IsValid one_book-IsValid one_book_room
      (omega arith)

parity_new_lem_example : Sized 1000 (new 64 1000)
parity_new_lem_example = parity_new_lem 64 1000 (omega arith) (omega arith)

parity_best_prices_example :
    IsTop (λ p. total bid p one_order) (best_bid one_book)
    × IsBottom (λ p. total ask p one_order) (best_ask one_book)
parity_best_prices_example = parity_best_prices one_book one_order one_book-IsValid

parity_counts_example :
    ((s : Side) (p : ℕ)
      → level_quantity s p one_book
        ≡ (if total s p one_order == 0 then none else some (total s p one_order)))
    × (live_order_count one_book ≡ length one_order % u64_mod)
parity_counts_example = parity_counts one_book one_order one_book-IsValid
