-- ===== src/BackshiftBook/Tests.antt =====
-- Runs of the book of cpp/src/bitmap_backshift_order_book.cpp, and where its theorems apply.
use cpp_rust_performance_lab.Common.{◌^◌, ◌≡◌, refl, true, none, some, [], arith}
use cpp_rust_performance_lab.Book.{bid, Event, add, execute, done, raised}
use cpp_rust_performance_lab.Book.Bounded
use cpp_rust_performance_lab.Book.Spec
use cpp_rust_performance_lab.Book.Table
use cpp_rust_performance_lab.Book.Table.{total}
use cpp_rust_performance_lab.Book.Digest.{mix_order_id}
use cpp_rust_performance_lab.OrderBook.{apply as reference_apply}
use cpp_rust_performance_lab.IndexedBook.Samples.{
  buy, sell_all, one_order, reference, reference-IsValid,
}
use cpp_rust_performance_lab.DenseBook.Arrays.{covers}
use cpp_rust_performance_lab.BitmapLevels.{
  no_levels, add_level, offset, set_bit, best, countl_zero, zeros_below, last_index, price_count,
}
use cpp_rust_performance_lab.Common.BitAt.{bit_at}
use cpp_rust_performance_lab.FixedIndex.{insert, insert_from, home}
use cpp_rust_performance_lab.BackshiftBook
use cpp_rust_performance_lab.BackshiftBook.{
  BackshiftBook, Run, new, blank_order, best_bid, best_ask,
}
use cpp_rust_performance_lab.BackshiftBook.Valid.{IsValid, Kept, Meets, has_room}
use cpp_rust_performance_lab.BackshiftBook.Contract.{
  Charted, Alike, backshift_apply-Meets, backshift_apply-Alike, backshift_new_lem,
}
use cpp_rust_performance_lab.FixedIndex.Make.{blanks, blanks-Fitted}
use cpp_rust_performance_lab.BitmapLevels.Best.{no_levels-Holds}

abbrev empty_book : BackshiftBook
empty_book = record { orders = blanks blank_order (2 ^ 3) 4; levels = no_levels 98; live = 0 }

abbrev after : Run → BackshiftBook
after (some (done b)) = b
after (some (raised x b)) = b
after none = empty_book

empty_book-IsValid : IsValid 98 empty_book []
unfolding Table.find total
empty_book-IsValid =
    let fit =
      blanks-Fitted blank_order 3 4 (omega arith) (omega arith) (omega arith) (omega arith) in
    record {
      index = fit.1;
      table = tt;
      agrees = fit.3;
      holds = no_levels-Holds 98 (omega arith);
      counted = refl;
    }

abbrev one_book : BackshiftBook
one_book = after (BackshiftBook.apply buy empty_book)

buys : best_bid one_book ≡ some (record { price_ticks = 100; quantity = 5 })
unfolding best_bid best last_index countl_zero zeros_below bit_at offset BackshiftBook.apply
    BackshiftBook.dispatch BackshiftBook.add_order add_level set_bit insert insert_from home
    mix_order_id
buys = refl

buy-Meets :
    Meets 98
      (Kept 98 add buy [])
      (BackshiftBook.apply buy empty_book)
      (Bounded.apply (covers 98 price_count) (has_room empty_book.orders) buy [])
buy-Meets = backshift_apply-Meets 98 empty_book [] buy empty_book-IsValid (omega arith)

one_book-IsValid : IsValid 98 one_book one_order
unfolding BackshiftBook.apply BackshiftBook.dispatch BackshiftBook.add_order add_level offset
    set_bit insert insert_from home mix_order_id Bounded.apply Bounded.dispatch Bounded.place
    Spec.place Table.find Table.emplace Table.total
one_book-IsValid = buy-Meets

one_book_room : has_room one_book.orders ≡ true
unfolding BackshiftBook.apply BackshiftBook.dispatch BackshiftBook.add_order add_level offset
    set_bit insert insert_from home mix_order_id
one_book_room = refl

backshift_apply-Meets_example :
    Meets 98
      (Kept 98 execute sell_all one_order)
      (BackshiftBook.apply sell_all one_book)
      (Bounded.apply (covers 98 price_count) (has_room one_book.orders) sell_all one_order)
backshift_apply-Meets_example =
    backshift_apply-Meets 98 one_book one_order sell_all one_book-IsValid (omega arith)

-- a second bid, at a price that the levels cover
abbrev bid_lower : Event
bid_lower = record {
  type = add;
  order_id = 12;
  replacement_order_id = 0;
  side = bid;
  price_ticks = 99;
  quantity = 7;
}

backshift_apply-Alike_example :
    Alike 98 (reference_apply bid_lower reference) (BackshiftBook.apply bid_lower one_book)
backshift_apply-Alike_example =
    backshift_apply-Alike 98 reference one_book bid_lower reference-IsValid one_book-IsValid
      one_book_room refl (omega arith)

backshift_new_lem_example : Charted 1000 98 price_count (new 64 1000 98 price_count)
backshift_new_lem_example = backshift_new_lem 64 1000 98 price_count (omega arith) (omega arith)
