-- ===== src/IndexedBook/Contract.antt =====
-- cpp/src/parity_order_book.cpp: `apply` against the contract of a bounded book.
use cpp_rust_performance_lab.Common.{
  ℕ, ◌≤◌, ◌≡◌, inl, inr, refl, Bool, true, false, u64_max, ◌==◌, Bool-cases,
}
use cpp_rust_performance_lab.Book.{
  Event, EventType, add, cancel, execute, delete, replace, order_upsert, order_delete, Exception,
  Exit, ◌>>=◌, done, raised,
}
use cpp_rust_performance_lab.Book.Table.{Orders}
use cpp_rust_performance_lab.Book.Spec
use cpp_rust_performance_lab.Book.Spec.{Verdict, accept, reject}
use cpp_rust_performance_lab.Book.Bounded
use cpp_rust_performance_lab.ProbeTable.Place.{room}
use cpp_rust_performance_lab.IndexedBook.{
  LevelOps, Book, add_order, remove_order, dispatch, apply, order_of,
}
use cpp_rust_performance_lab.IndexedBook.Levels.{LevelLaws}
use cpp_rust_performance_lab.IndexedBook.Valid.{IsValid, Meets}
use cpp_rust_performance_lab.IndexedBook.Operations.{
  HasRoom, add_order-Meets, remove_order-Meets, remove_order-HasRoom, subtract_from_order-Meets,
}
use cpp_rust_performance_lab.IndexedBook.Upsert.{Torn, Meets-weaken, upsert_order-Meets}

module _ {L : Type 0} {ops : LevelOps L} {in_range : ℕ → Bool} (laws : LevelLaws ops in_range) where
  -- An exception of an event other than a replacement or an upsert leaves the book as it was; one of
  -- a replacement leaves a consistent book.
  abbrev pub Kept : EventType → Event → Book L → Orders → Exception → Book L → Type 0
  Kept replace e b t x b' = (u : Orders) × IsValid laws b' u
  Kept order_upsert e b t x b' = Torn laws b t e.order_id x b'
  Kept _ e b t x b' = b' ≡ b

  module _ (b : Book L) (t : Orders) (v : IsValid laws b t) (e : Event)
      (small : e.quantity ≤ u64_max) where
    -- The order that a removal takes out leaves a slot free.
    place_after :
        (out : Exit (Book L)) (verdict : Verdict)
        → HasRoom out
        → Meets laws (λ _ b'. b' ≡ b) out verdict
        → Meets laws
            (Kept replace e b t)
            (out >>= add_order ops e.replacement_order_id (order_of e))
            (Bounded.then_place in_range e verdict)
    place_after (done b') (accept u) free m =
        let id = e.replacement_order_id in
        let o = order_of e in
        let placed : Meets laws (λ _ c. c ≡ b') (add_order ops id o b')
            (Bounded.place in_range true id o u) =
          rw (← free) (add_order-Meets laws b' u m id o small) in
        Meets-weaken laws (λ _ c. c ≡ b') (Kept replace e b t) (add_order ops id o b')
          (Bounded.place in_range true id o u) (λ x c same. (u, rw same m)) placed
    place_after (raised x b') (reject y) free m = (m.0, (t, rw m.1 v))
    place_after (done b') (reject y) free m = elim m [ ]
    place_after (raised x b') (accept u) free m = elim m [ ]

    Meets-replace :
        Meets laws
          (Kept replace e b t)
          (dispatch ops replace e b)
          (Bounded.dispatch in_range (room b.slots) replace e t)
    unfolding dispatch Bounded.dispatch
    Meets-replace = elim (Bool-cases (e.order_id == e.replacement_order_id)) [
      | inl same ↦ rw same (refl, (t, v))
      | inr other ↦ rw other (
          place_after (remove_order ops e.order_id b) (Spec.drop e.order_id t)
            (remove_order-HasRoom laws b t v e.order_id) (remove_order-Meets laws b t v e.order_id))
    ]

    dispatch-Meets :
        (k : EventType)
        → Meets laws
            (Kept k e b t)
            (dispatch ops k e b)
            (Bounded.dispatch in_range (room b.slots) k e t)
    unfolding dispatch Bounded.dispatch
    dispatch-Meets add = add_order-Meets laws b t v e.order_id (order_of e) small
    dispatch-Meets cancel = subtract_from_order-Meets laws b t v e.order_id e.quantity false
    dispatch-Meets execute = subtract_from_order-Meets laws b t v e.order_id e.quantity true
    dispatch-Meets delete = remove_order-Meets laws b t v e.order_id
    dispatch-Meets order_delete = remove_order-Meets laws b t v e.order_id
    dispatch-Meets replace = Meets-replace
    dispatch-Meets order_upsert = upsert_order-Meets laws b t v e.order_id (order_of e) small

    -- `apply` on a book that agrees with a table of orders does what the contract of a bounded book
    -- says of that table, whatever the levels are.
    pub indexed-Meets :
        Meets laws (Kept e.type e b t) (apply ops e b) (Bounded.apply in_range (room b.slots) e t)
    unfolding apply Bounded.apply
    indexed-Meets = dispatch-Meets e.type
