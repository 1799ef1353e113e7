-- ===== src/Book/Spec.antt =====
-- The contract of a level-three book (specs/l3_order_book.md): what an event does to the table of
-- live orders. It keeps no levels: the quantity at a price is the total of the orders there.
use cpp_rust_performance_lab.Common.{
  ℕ, ◌-◌, Bool, true, false, ◌&&◌, ◌||◌, not, none, some, ltb, ◌==◌, if◌then◌else◌, u64_max,
}
use cpp_rust_performance_lab.Book.{
  Event, Order, Exception, invalid_argument, overflow_error, EventType, add, cancel, execute,
  delete, replace, order_upsert, order_delete,
}
use cpp_rust_performance_lab.Book.Table.{Orders, find, emplace, assign, erase, total}

pub data Verdict : Type 0 where
  accept : Orders → Verdict
  reject : Exception → Verdict

-- A new order fits where its level stays a 64-bit number.
unfoldable pub place : ℕ → Order → Orders → Verdict
place id o t =
    if id == 0 || o.remaining_quantity == 0 then reject invalid_argument else elim (find id t) [
      | some _ ↦ reject invalid_argument
      | none ↦
          if ltb (u64_max - total o.side o.price_ticks t) o.remaining_quantity
          then reject overflow_error
          else accept (emplace id o t)
    ]

unfoldable pub drop : ℕ → Orders → Verdict
drop id t = elim (find id t) [ none ↦ reject invalid_argument | some _ ↦ accept (erase id t) ]

-- `full` allows the reduction to take all that is left.
unfoldable pub reduce : ℕ → ℕ → Bool → Orders → Verdict
reduce id q full t = elim (find id t) [
  | none ↦ reject invalid_argument
  | some o ↦
      if q == 0 || ltb o.remaining_quantity q || (not full && q == o.remaining_quantity)
      then reject invalid_argument
      else if q == o.remaining_quantity
      then accept (erase id t)
      else accept (assign id (record o { remaining_quantity = o.remaining_quantity - q }) t)
]

-- The order that an upsert replaces does not count against the new one.
unfoldable pub upsert : ℕ → Order → Orders → Verdict
upsert id o t =
    if id == 0 || o.remaining_quantity == 0 then reject invalid_argument else elim (find id t) [
      | some _ ↦
          if ltb (u64_max - total o.side o.price_ticks (erase id t)) o.remaining_quantity
          then reject overflow_error
          else accept (assign id o t)
      | none ↦
          if ltb (u64_max - total o.side o.price_ticks t) o.remaining_quantity
          then reject overflow_error
          else accept (emplace id o t)
    ]

abbrev pub new_order : Event → Order
new_order e = record { side = e.side; price_ticks = e.price_ticks; remaining_quantity = e.quantity }

abbrev pub then_place : Event → Verdict → Verdict
then_place e (accept t) = place e.replacement_order_id (new_order e) t
then_place e (reject x) = reject x

unfoldable pub dispatch : EventType → Event → Orders → Verdict
unfolding place drop reduce upsert
dispatch add e t = place e.order_id (new_order e) t
dispatch cancel e t = reduce e.order_id e.quantity false t
dispatch execute e t = reduce e.order_id e.quantity true t
dispatch delete e t = drop e.order_id t
dispatch order_delete e t = drop e.order_id t
dispatch replace e t =
    if e.replacement_order_id == e.order_id
    then reject invalid_argument
    else then_place e (drop e.order_id t)
dispatch order_upsert e t = upsert e.order_id (new_order e) t

unfoldable pub apply : Event → Orders → Verdict
unfolding dispatch
apply e t = dispatch e.type e t
