-- ===== src/OrderBook/Contract.antt =====
-- cpp/src/order_book.cpp: `apply` against the contract of a level-three book.
use cpp_rust_performance_lab.Common.{
  ◌≤◌, ◌≡◌, refl, u64_max, ◌==◌, inl, inr, Bool-cases, true, false,
}
use cpp_rust_performance_lab.Book.{
  Event, EventType, add, cancel, execute, delete, replace, order_upsert, order_delete, Exception,
  Exit, ◌>>=◌, done, raised,
}
use cpp_rust_performance_lab.Book.Spec
use cpp_rust_performance_lab.Book.Spec.{Verdict, accept, reject}
use cpp_rust_performance_lab.OrderBook.{
  OrderBook, add_order, remove_order, dispatch, apply, order_of,
}
use cpp_rust_performance_lab.OrderBook.Valid.{IsValid, Meets}
use cpp_rust_performance_lab.OrderBook.Operations.{
  add_order-Meets, remove_order-Meets, subtract_from_order-Meets,
}
use cpp_rust_performance_lab.OrderBook.Upsert.{Torn, upsert_order-Meets}

-- An exception of an event other than a replacement or an upsert leaves the book as it was.
abbrev pub Kept : EventType → Event → OrderBook → Exception → OrderBook → Type 0
Kept replace e b x b' = IsValid b'
Kept order_upsert e b x b' = Torn e.order_id (order_of e) b x b'
Kept _ e b x b' = b' ≡ b

-- Two operations in a row, the second from the book that the first leaves.
module _ (b : OrderBook) (f : OrderBook → Exit OrderBook) (e : Event)
    (kept : Exception → OrderBook → Type 0) where
  Meets-then_place :
      (out : Exit OrderBook) (verdict : Verdict)
      → Meets (λ _ b'. b' ≡ b) out verdict
      → ((x : Exception) → kept x b)
      → ((b' : OrderBook)
          → IsValid b'
          → Meets kept (f b') (Spec.place e.replacement_order_id (Spec.new_order e) b'.orders))
      → Meets kept (out >>= f) (Spec.then_place e verdict)
  Meets-then_place (done b') (accept t) m k h = rw (← m.0) (h b' m.1)
  Meets-then_place (raised x b') (reject y) m k h = (m.0, rw m.1 (k x))
  Meets-then_place (done b') (reject y) m k h = elim m [ ]
  Meets-then_place (raised x b') (accept t) m k h = elim m [ ]

Meets-weaken :
    (kept kept' : Exception → OrderBook → Type 0) (out : Exit OrderBook) (verdict : Verdict)
    → ((x : Exception) (b : OrderBook) → kept x b → kept' x b)
    → Meets kept out verdict
    → Meets kept' out verdict
Meets-weaken kept kept' (done b) (accept t) h m = m
Meets-weaken kept kept' (raised x b) (reject y) h m = (m.0, h x b m.1)
Meets-weaken kept kept' (done b) (reject y) h m = elim m [ ]
Meets-weaken kept kept' (raised x b) (accept t) h m = elim m [ ]

Meets-replace :
    (b : OrderBook) (e : Event)
    → IsValid b
    → e.quantity ≤ u64_max
    → Meets (Kept replace e b) (dispatch replace e b) (Spec.dispatch replace e b.orders)
unfolding dispatch Spec.dispatch
Meets-replace b e v small = elim (Bool-cases (e.replacement_order_id == e.order_id)) [
  | inl same ↦ rw same (refl, v)
  | inr other ↦ rw other (
      Meets-then_place b (add_order e.replacement_order_id (order_of e)) e (λ _ c. IsValid c)
        (remove_order e.order_id b) (Spec.drop e.order_id b.orders)
        (remove_order-Meets b v e.order_id) (λ _. v)
        (λ b' v'.
          Meets-weaken (λ _ c. c ≡ b') (λ _ c. IsValid c)
            (add_order e.replacement_order_id (order_of e) b') _ (λ x c same. rw same v')
            (add_order-Meets b' v' e.replacement_order_id (order_of e) small)))
]

dispatch-Meets :
    (k : EventType) (b : OrderBook) (e : Event)
    → IsValid b
    → e.quantity ≤ u64_max
    → Meets (Kept k e b) (dispatch k e b) (Spec.dispatch k e b.orders)
unfolding dispatch Spec.dispatch
dispatch-Meets add b e v small = add_order-Meets b v e.order_id (order_of e) small
dispatch-Meets cancel b e v small = subtract_from_order-Meets b v e.order_id e.quantity false
dispatch-Meets execute b e v small = subtract_from_order-Meets b v e.order_id e.quantity true
dispatch-Meets delete b e v small = remove_order-Meets b v e.order_id
dispatch-Meets order_delete b e v small = remove_order-Meets b v e.order_id
dispatch-Meets replace b e v small = Meets-replace b e v small
dispatch-Meets order_upsert b e v small = upsert_order-Meets b v e.order_id (order_of e) small

-- `apply` on a consistent book does what the contract says: it returns exactly where the contract
-- accepts, with the accepted table and levels that equal its totals; else it throws the exception
-- that the contract names. The book is then unchanged, but for a replacement, after which it is
-- still consistent, and an upsert.
pub apply-Meets :
    (b : OrderBook) (e : Event)
    → IsValid b
    → e.quantity ≤ u64_max
    → Meets (Kept e.type e b) (apply e b) (Spec.apply e b.orders)
unfolding apply Spec.apply
apply-Meets b e v small = dispatch-Meets e.type b e v small
