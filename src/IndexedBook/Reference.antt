-- ===== src/IndexedBook/Reference.antt =====
-- cpp/src/parity_order_book.cpp and dense_ladder_order_book.cpp: `apply` against the reference book
-- of cpp/src/order_book.cpp.
use cpp_rust_performance_lab.Common.{
  ℕ, ◌≤◌, ◌≡◌, refl, sym, ap, ◌∙◌, inl, inr, Bool-cases, arith, Bool, true, false, u64_max, ◌==◌,
}
use cpp_rust_performance_lab.Book.{
  Event, EventType, add, cancel, execute, delete, replace, order_upsert, order_delete, Exception,
  Exit, done, raised,
}
use cpp_rust_performance_lab.Book.Table.{Orders}
use cpp_rust_performance_lab.Book.Bounded
use cpp_rust_performance_lab.Book.Spec
use cpp_rust_performance_lab.Book.Spec.{Verdict, accept, reject}
use cpp_rust_performance_lab.OrderBook.{OrderBook as ReferenceBook, apply as reference_apply}
use cpp_rust_performance_lab.OrderBook.Valid.{IsValid as ReferenceIsValid, Meets as ReferenceMeets}
use cpp_rust_performance_lab.OrderBook.Contract.{Kept as ReferenceKept, apply-Meets}
use cpp_rust_performance_lab.ProbeTable.Place.{room}
use cpp_rust_performance_lab.IndexedBook.{LevelOps, Book, apply}
use cpp_rust_performance_lab.IndexedBook.Levels.{LevelLaws}
use cpp_rust_performance_lab.IndexedBook.Valid.{IsValid, Meets}
use cpp_rust_performance_lab.IndexedBook.Contract.{Kept, indexed-Meets}

-- An event whose price is inside, on a book with a free slot, is under no bound.
module _ (in_range : ℕ → Bool) (e : Event) (t : Orders)
    (inside : in_range e.price_ticks ≡ true) where
  place_inside : (v : Verdict) → Bounded.then_place in_range e v ≡ Spec.then_place e v
  unfolding Bounded.place
  place_inside (accept u) = rw inside refl
  place_inside (reject x) = refl

  bounded_by_type : (k : EventType) → Bounded.dispatch in_range true k e t ≡ Spec.dispatch k e t
  unfolding Bounded.dispatch Spec.dispatch Bounded.place Bounded.upsert
  bounded_by_type add = rw inside refl
  bounded_by_type cancel = refl
  bounded_by_type execute = refl
  bounded_by_type delete = refl
  bounded_by_type order_delete = refl
  bounded_by_type order_upsert = rw inside refl
  bounded_by_type replace = elim (Bool-cases (e.order_id == e.replacement_order_id)) [
    | inl same ↦
        (let turned : (e.replacement_order_id == e.order_id) ≡ true = ground arith in
          rw (same, turned) refl)
    | inr other ↦
        (let turned : (e.replacement_order_id == e.order_id) ≡ false = ground arith in
          rw (other, turned) (place_inside (Spec.drop e.order_id t)))
  ]

  pub unbounded : Bounded.apply in_range true e t ≡ Spec.apply e t
  unfolding Bounded.apply Spec.apply
  unbounded = bounded_by_type e.type

module _ {L : Type 0} {ops : LevelOps L} {in_range : ℕ → Bool} (laws : LevelLaws ops in_range) where
  -- Both books return, and agree on the live orders, or both throw the same exception.
  abbrev pub Alike : Exit ReferenceBook → Exit (Book L) → Type 0
  Alike (done r) (done b) = ReferenceIsValid r × IsValid laws b r.orders
  Alike (raised x r) (raised y b) = x ≡ y
  Alike _ _ = ⊥

  both_meet :
      (kept : Exception → ReferenceBook → Type 0) (kept' : Exception → Book L → Type 0)
      (out : Exit ReferenceBook) (out' : Exit (Book L)) (verdict : Verdict)
      → ReferenceMeets kept out verdict
      → Meets laws kept' out' verdict
      → Alike out out'
  both_meet kept kept' (done r) (done b) (accept t) m n = (m.1, rw m.0 n)
  both_meet kept kept' (raised x r) (raised y b) (reject z) m n = m.0 ∙ sym n.0
  both_meet kept kept' (done r) (raised y b) (accept t) m n = elim n [ ]
  both_meet kept kept' (done r) out' (reject z) m n = elim m [ ]
  both_meet kept kept' (raised x r) out' (accept t) m n = elim m [ ]
  both_meet kept kept' (raised x r) (done b) (reject z) m n = elim n [ ]

  pub indexed-Alike :
      (r : ReferenceBook) (b : Book L) (e : Event)
      → ReferenceIsValid r
      → IsValid laws b r.orders
      → room b.slots ≡ true
      → in_range e.price_ticks ≡ true
      → e.quantity ≤ u64_max
      → Alike (reference_apply e r) (apply ops e b)
  indexed-Alike r b e vr vb free inside small =
      let same : Bounded.apply in_range (room b.slots) e r.orders ≡ Spec.apply e r.orders =
        ap (λ (f : Bool). Bounded.apply in_range f e r.orders) free
        ∙ unbounded in_range e r.orders inside in
      both_meet (ReferenceKept e.type e r) (Kept laws e.type e b r.orders) (reference_apply e r)
        (apply ops e b) (Spec.apply e r.orders) (apply-Meets r e vr small)
        (rw (← same) (indexed-Meets laws b r.orders vb e small))
