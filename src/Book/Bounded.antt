-- ===== src/Book/Bounded.antt =====
-- The contract of Book/Spec for a book whose index and whose prices are bounded (the books of
-- cpp/src/parity_order_book.cpp and dense_ladder_order_book.cpp): `room` says whether the index has
-- a slot for one more order, `in_range` which prices the levels cover.
use cpp_rust_performance_lab.Common.{
  ℕ, Bool, true, false, ◌&&◌, ◌||◌, none, some, ◌==◌, if◌then◌else◌,
}
use cpp_rust_performance_lab.Book.{
  Event, Order, invalid_argument, EventType, add, cancel, execute, delete, replace, order_upsert,
  order_delete,
}
use cpp_rust_performance_lab.Book.Table.{Orders, find}
use cpp_rust_performance_lab.Book.Spec
use cpp_rust_performance_lab.Book.Spec.{Verdict, accept, reject, new_order}

abbrev pub contains : ℕ → Orders → Bool
contains id t = elim (find id t) [ none ↦ false | some _ ↦ true ]

module _ (in_range : ℕ → Bool) where
  unfoldable pub place : Bool → ℕ → Order → Orders → Verdict
  place room id o t =
      if room && in_range o.price_ticks then Spec.place id o t else reject invalid_argument

  unfoldable pub upsert : Bool → ℕ → Order → Orders → Verdict
  upsert room id o t =
      if (room || contains id t) && in_range o.price_ticks
      then Spec.upsert id o t
      else reject invalid_argument

  -- The order that leaves makes room.
  abbrev pub then_place : Event → Verdict → Verdict
  then_place e (accept t) = place true e.replacement_order_id (new_order e) t
  then_place e (reject x) = reject x

  unfoldable pub dispatch : Bool → EventType → Event → Orders → Verdict
  unfolding place upsert
  dispatch room add e t = place room e.order_id (new_order e) t
  dispatch room cancel e t = Spec.reduce e.order_id e.quantity false t
  dispatch room execute e t = Spec.reduce e.order_id e.quantity true t
  dispatch room delete e t = Spec.drop e.order_id t
  dispatch room order_delete e t = Spec.drop e.order_id t
  dispatch room replace e t =
      if e.order_id == e.replacement_order_id
      then reject invalid_argument
      else then_place e (Spec.drop e.order_id t)
  dispatch room order_upsert e t = upsert room e.order_id (new_order e) t

  unfoldable pub apply : Bool → Event → Orders → Verdict
  unfolding dispatch
  apply room e t = dispatch room e.type e t
