-- ===== src/OrderBook/Queries.antt =====
-- cpp/src/order_book.cpp: what `best_bid`, `best_ask` and `level_quantity` say of the live orders,
-- and where an upsert that throws leaves the book inconsistent.
use cpp_rust_performance_lab.Common.{ℕ, ◌≡◌, ◌==◌, some, none, if◌then◌else◌}
use cpp_rust_performance_lab.Book.{Side, bid, ask}
use cpp_rust_performance_lab.Book.Ladder
use cpp_rust_performance_lab.Book.Ladder.{Level}
use cpp_rust_performance_lab.Book.Ladder.Best.{
  IsTop, IsBottom, IsTop-congr, IsBottom-congr, last?-IsTop, first?-IsBottom,
}
use cpp_rust_performance_lab.Book.Table.{total}
use cpp_rust_performance_lab.OrderBook.{OrderBook, best_bid, best_ask, level_quantity, levels_for}
use cpp_rust_performance_lab.OrderBook.Valid.{IsValid}

-- On a consistent book `best_bid` is the highest price at which live bids hold a quantity, with
-- the total quantity there, and `best_ask` the lowest for asks; each is `nullopt` exactly where
-- its side has no live order.
pub best_prices :
    (b : OrderBook)
    → IsValid b
    → IsTop (λ p. total bid p b.orders) (best_bid b)
      × IsBottom (λ p. total ask p b.orders) (best_ask b)
unfolding best_bid best_ask
best_prices b v = (
  IsTop-congr _ _ (Ladder.last? b.bids) (v.holds.reads bid)
      (last?-IsTop 0 b.bids (v.holds.ladder bid)),
  IsBottom-congr _ _ (Ladder.first? b.asks) (v.holds.reads ask)
      (first?-IsBottom 0 b.asks (v.holds.ladder ask)),
)

-- On a consistent book `level_quantity` is the total of the live orders of that side at that
-- price, and `nullopt` where the total is 0.
pub level_quantity_lem :
    (b : OrderBook) (s : Side) (p : ℕ)
    → IsValid b
    → level_quantity s p b ≡ (if total s p b.orders == 0 then none else some (total s p b.orders))
unfolding level_quantity
level_quantity_lem b s p v =
    rw (Ladder.find-quantity_at p 0 (levels_for s b) (v.holds.ladder s), v.holds.reads s p)
