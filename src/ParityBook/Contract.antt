-- ===== src/ParityBook/Contract.antt =====
-- cpp/src/parity_order_book.cpp: `apply` against the contract of a book, and against the reference
-- book of cpp/src/order_book.cpp.
use cpp_rust_performance_lab.Common.{◌≤◌, ◌≡◌, refl, true, u64_max}
use cpp_rust_performance_lab.Book.{Event}
use cpp_rust_performance_lab.Book.Table.{Orders}
use cpp_rust_performance_lab.Book.Bounded
use cpp_rust_performance_lab.OrderBook.{OrderBook as ReferenceBook, apply as reference_apply}
use cpp_rust_performance_lab.OrderBook.Valid.{IsValid as ReferenceIsValid}
use cpp_rust_performance_lab.ProbeTable.Place.{room}
use cpp_rust_performance_lab.IndexedBook.Valid.{IsValid, Meets}
use cpp_rust_performance_lab.IndexedBook.Contract.{Kept, indexed-Meets}
use cpp_rust_performance_lab.IndexedBook.Reference.{Alike, indexed-Alike}
use cpp_rust_performance_lab.ParityBook.{OrderBook, apply}
use cpp_rust_performance_lab.ParityBook.Vectors.{parity_laws}

-- The parity book's `apply`, on a book whose index and levels agree with a table of orders, does
-- what the contract of a bounded book says of the table: a new order is refused where every slot
-- of the index holds one, and no price is. It returns exactly where the contract accepts, agreeing
-- with the accepted table; else it throws the exception that the contract names. The book is then
-- unchanged, but for a replacement, after which it still agrees with some table, and for an upsert
-- of an order that is there, which may have left the levels without it.
pub parity_apply-Meets :
    (b : OrderBook) (t : Orders) (e : Event)
    → IsValid parity_laws b t
    → e.quantity ≤ u64_max
    → Meets parity_laws
        (Kept parity_laws e.type e b t)
        (apply e b)
        (Bounded.apply (λ p. true) (room b.slots) e t)
unfolding apply
parity_apply-Meets b t e v small = indexed-Meets parity_laws b t v e small

-- The parity book and the reference book, from states that hold the same orders, where the parity
-- book's index has a free slot: an event is accepted by both, and they hold the same orders
-- again, or by neither, and they throw the same exception.
pub parity_apply-Alike :
    (r : ReferenceBook) (b : OrderBook) (e : Event)
    → ReferenceIsValid r
    → IsValid parity_laws b r.orders
    → room b.slots ≡ true
    → e.quantity ≤ u64_max
    → Alike parity_laws (reference_apply e r) (apply e b)
unfolding apply
parity_apply-Alike r b e vr vb free small = indexed-Alike parity_laws r b e vr vb free refl small
