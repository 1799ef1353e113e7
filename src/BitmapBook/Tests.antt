-- ===== src/BitmapBook/Tests.antt =====
-- Runs of the book of cpp/src/bitmap_ladder_order_book.cpp, and where its theorems apply.
use cpp_rust_performance_lab.Common.{◌^◌, ◌≡◌, refl, true, some, [], arith}
use cpp_rust_performance_lab.Book.{bid, ask, Event, add, execute, done, raised, Exit}
use cpp_rust_performance_lab.Book.Bounded
use cpp_rust_performance_lab.Book.Spec
use cpp_rust_performance_lab.Book.Table
use cpp_rust_performance_lab.Book.Table.{total}
use cpp_rust_performance_lab.Book.Ladder.Best.{IsTop, IsBottom}
use cpp_rust_performance_lab.Book.Digest.{mix_order_id}
use cpp_rust_performance_lab.OrderBook.{apply as reference_apply}
use cpp_rust_performance_lab.ProbeTable.{home, insertion_slot, insertion_from}
use cpp_rust_performance_lab.ProbeTable.Place.{room}
use cpp_rust_performance_lab.IndexedBook.Valid.{IsValid, Meets}
use cpp_rust_performance_lab.IndexedBook.Contract.{Kept}
use cpp_rust_performance_lab.IndexedBook.Reference.{Alike}
use cpp_rust_performance_lab.IndexedBook.Samples.{
  buy, sell_all, one_order, reference, reference-IsValid,
}
use cpp_rust_performance_lab.DenseBook.Arrays.{covers}
use cpp_rust_performance_lab.BitmapLevels.{
  add_level, offset, set_bit, best, countl_zero, zeros_below, last_index, price_count,
}
use cpp_rust_performance_lab.BitmapLevels.Laws.{bitmap_laws}
use cpp_rust_performance_lab.BitmapBook
use cpp_rust_performance_lab.BitmapBook.{
  BitmapBook, new, make, side_of, offset_of, price_of, best_bid, best_ask,
}
use cpp_rust_performance_lab.BitmapBook.View.{view, view_exit}
use cpp_rust_performance_lab.BitmapBook.Contract.{
  Charted, fresh_bitmaps, fresh_bitmaps-IsValid, bitmap_apply-Meets, bitmap_apply-Alike,
  bitmap_best_prices, bitmap_new_lem,
}
use cpp_rust_performance_lab.Common.BitAt.{bit_at}

abbrev empty_book : BitmapBook
empty_book = fresh_bitmaps (2 ^ 3) 98

abbrev after : Exit BitmapBook → BitmapBook
after (done b) = b
after (raised x b) = b

empty_book-IsValid : IsValid (bitmap_laws 98) (view 98 empty_book) []
empty_book-IsValid = fresh_bitmaps-IsValid 3 98 (omega arith) (omega arith)

abbrev one_book : BitmapBook
one_book = after (BitmapBook.apply buy empty_book)

buys : best_bid one_book ≡ some (record { price_ticks = 100; quantity = 5 })
unfolding best_bid best last_index countl_zero zeros_below bit_at offset BitmapBook.apply
    BitmapBook.dispatch BitmapBook.add_order add_level set_bit make insertion_slot insertion_from
    home mix_order_id
buys = refl

buy-Meets :
    Meets
      (bitmap_laws 98)
      (Kept (bitmap_laws 98) add buy (view 98 empty_book) [])
      (view_exit 98 (BitmapBook.apply buy empty_book))
      (Bounded.apply (covers 98 price_count) (room empty_book.slots) buy [])
buy-Meets = bitmap_apply-Meets 98 empty_book [] buy empty_book-IsValid (omega arith)

one_book-IsValid : IsValid (bitmap_laws 98) (view 98 one_book) one_order
unfolding BitmapBook.apply BitmapBook.dispatch BitmapBook.add_order add_level offset set_bit make
    insertion_slot insertion_from home mix_order_id Bounded.apply Bounded.dispatch Bounded.place
    Spec.place room Table.find Table.emplace Table.total
one_book-IsValid = buy-Meets

one_book_room : room one_book.slots ≡ true
unfolding BitmapBook.apply BitmapBook.dispatch BitmapBook.add_order add_level offset set_bit make
    insertion_slot insertion_from home mix_order_id room
one_book_room = refl

bitmap_apply-Meets_example :
    Meets
      (bitmap_laws 98)
      (Kept (bitmap_laws 98) execute sell_all (view 98 one_book) one_order)
      (view_exit 98 (BitmapBook.apply sell_all one_book))
      (Bounded.apply (covers 98 price_count) (room one_book.slots) sell_all one_order)
bitmap_apply-Meets_example =
    bitmap_apply-Meets 98 one_book one_order sell_all one_book-IsValid (omega arith)

-- a second bid, at a price that the levels cover
abbrev bid_lower : Event
bid_lower = record {
  type = add;
  order_id = 12;
  replacement_order_id = 0;
  side = bid;
  price_ticks = 99;
  quantity = 7;
}

bitmap_apply-Alike_example :
    Alike
      (bitmap_laws 98)
      (reference_apply bid_lower reference)
      (view_exit 98 (BitmapBook.apply bid_lower one_book))
bitmap_apply-Alike_example =
    bitmap_apply-Alike 98 reference one_book bid_lower reference-IsValid one_book-IsValid
      one_book_room refl (omega arith)

bitmap_best_prices_example :
    IsTop (λ p. total bid p one_order) (best_bid one_book)
    × IsBottom (λ p. total ask p one_order) (best_ask one_book)
bitmap_best_prices_example = bitmap_best_prices 98 one_book one_order one_book-IsValid

bitmap_new_lem_example : Charted 1000 98 price_count (new 64 1000 98 price_count)
bitmap_new_lem_example = bitmap_new_lem 64 1000 98 price_count (omega arith)
