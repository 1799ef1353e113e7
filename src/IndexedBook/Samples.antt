-- ===== src/IndexedBook/Samples.antt =====
-- Two events, a table with one order and the reference book that holds it, for the tests of the
-- books that are compared with it.
use cpp_rust_performance_lab.Common.{◌≡◌, refl, [], ◌∷◌, arith}
use cpp_rust_performance_lab.Book.{bid, ask, Event, add, execute}
use cpp_rust_performance_lab.Book.Table
use cpp_rust_performance_lab.Book.Table.{Orders, total}
use cpp_rust_performance_lab.Book.Ladder
use cpp_rust_performance_lab.OrderBook.{OrderBook as ReferenceBook, levels_for as reference_levels}
use cpp_rust_performance_lab.OrderBook.Valid.{IsValid as ReferenceIsValid}

abbrev pub buy : Event
buy = record {
  type = add;
  order_id = 11;
  replacement_order_id = 0;
  side = bid;
  price_ticks = 100;
  quantity = 5;
}

abbrev pub sell_all : Event
sell_all = record {
  type = execute;
  order_id = 11;
  replacement_order_id = 0;
  side = bid;
  price_ticks = 0;
  quantity = 5;
}

-- the orders after the first event
abbrev pub one_order : Orders
one_order = (11, record { side = bid; price_ticks = 100; remaining_quantity = 5 }) ∷ []

abbrev pub reference : ReferenceBook
reference = record {
  orders = one_order;
  bids = record { price_ticks = 100; quantity = 5 } ∷ [];
  asks = [];
}

pub reference-IsValid : ReferenceIsValid reference
unfolding Table.find Table.total Ladder.quantity_at
reference-IsValid = record {
  table = (omega arith, refl, omega arith, omega arith, tt);
  holds = record {
    ladder = λ s. elim s as (λ x. Ladder.IsLadder 0 (reference_levels x reference)) [
      | bid ↦ omega arith
      | ask ↦ tt
    ];
    reads = λ s p.
        elim s as (λ x. Ladder.quantity_at p (reference_levels x reference) ≡ total x p one_order) [
          | bid ↦ ground arith
          | ask ↦ ground arith
        ];
  };
}
