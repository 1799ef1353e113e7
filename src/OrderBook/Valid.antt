-- ===== src/OrderBook/Valid.antt =====
-- cpp/src/order_book.cpp: when a book is consistent, and what it means to meet the contract.
use cpp_rust_performance_lab.Common.{ℕ, ◌+◌, ◌-◌, ◌≤◌, ◌≡◌, arith, u64_max}
use cpp_rust_performance_lab.Book.{Side, Order, share, Exception, Exit, done, raised}
use cpp_rust_performance_lab.Book.Ladder
use cpp_rust_performance_lab.Book.Table.{Orders, IsTable, total}
use cpp_rust_performance_lab.Book.Spec.{Verdict, accept, reject}
use cpp_rust_performance_lab.OrderBook.{OrderBook, levels_for}
use cpp_rust_performance_lab.OrderBook.Levels.{Holds, Holds-orders, lot, same_side_refl}

-- The table is well formed, and every level is the total of the orders at its price.
pub record IsValid (b : OrderBook) : Type 0 where
  pub table : IsTable b.orders
  pub holds : Holds (λ s p. total s p b.orders) b

-- A normal return leaves a valid book over the accepted table; an exception is the one that the
-- contract names, and leaves a book that `kept` describes.
abbrev pub Meets : (Exception → OrderBook → Type 0) → Exit OrderBook → Verdict → Type 0
Meets kept (done b) (accept t) = (b.orders ≡ t) × IsValid b
Meets kept (raised x b) (reject y) = (x ≡ y) × kept x b
Meets kept _ _ = ⊥

pub total-le : (b : OrderBook) (s : Side) (p : ℕ) → IsValid b → total s p b.orders ≤ u64_max
total-le b s p v =
    omega (arith, v.holds.reads s p, Ladder.quantity_at-le p 0 (levels_for s b) (v.holds.ladder s))

-- A book with new levels and a new table.
pub IsValid-orders :
    (t u : Orders) (b : OrderBook)
    → t ≡ u
    → IsTable u
    → Holds (λ s p. total s p u) b
    → (t ≡ u) × IsValid (record b { orders = t })
IsValid-orders t u b e v h = (e, record { table = rw e v; holds = Holds-orders _ t b (rw e h) })

pub share_self : (o : Order) → share o.side o.price_ticks o ≡ o.remaining_quantity
share_self o = ground (arith, same_side_refl o.side)

pub share_split :
    (s : Side) (p q : ℕ) (o : Order)
    → q ≤ o.remaining_quantity
    → share s p (record o { remaining_quantity = o.remaining_quantity - q })
        + share s p (lot o.side o.price_ticks q)
      ≡ share s p o
share_split s p q o h = ground arith
