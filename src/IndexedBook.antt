-- ===== src/IndexedBook.antt =====
-- What cpp/src/parity_order_book.cpp and cpp/src/dense_ladder_order_book.cpp have in common, word for
-- word but for names: the methods of a book that keeps its orders in a probe table. They use the
-- price levels through two operations, which the two books implement each in its way.
pub mod Levels
pub mod Mapped
pub mod Valid
pub mod Operations
pub mod Upsert
pub mod Contract
pub mod Reference
pub mod Samples
use cpp_rust_performance_lab.Common.{
  ℕ, ◌+◌, ◌-◌, ◌%◌, Bool, true, false, not, ◌&&◌, ◌||◌, Option, none, some, List, [], ◌∷◌, ltb,
  ◌==◌, if◌then◌else◌, u64_mod, u64_max, length, set, get_elem?,
}
use cpp_rust_performance_lab.Book.{
  Side, Event, EventType, add, cancel, execute, delete, replace, order_upsert, order_delete, Order,
  invalid_argument, Exit, done, raised, ◌>>=◌,
}
use cpp_rust_performance_lab.ProbeTable.{Slot, occupied, tombstone, find_slot, insertion_slot}

-- `add_to_level` and `subtract_from_level` of a book
pub record LevelOps (L : Type 0) : Type 0 where
  pub add_to_level : Side → ℕ → ℕ → L → Exit L
  pub subtract_from_level : Side → ℕ → ℕ → L → Exit L

pub record Book (L : Type 0) : Type 0 where
  pub slots : List (Slot Order)
  pub levels : L
  pub live : ℕ

-- the `Order` that an event's fields make up
abbrev pub order_of : Event → Order
order_of e = record { side = e.side; price_ticks = e.price_ticks; remaining_quantity = e.quantity }

-- `require_slot`: the index and the slot; `none` where it throws
unfoldable pub require_slot {ℓ} : {A : Type ℓ} → ℕ → List (Slot A) → Option (ℕ × Slot A)
require_slot id slots =
    let i = find_slot id slots in
    if i == length slots
    then none
    else elim (get_elem? slots i) [ none ↦ none | some s ↦ some (i, s) ]

module _ {L : Type 0} where
  -- the levels changed, or left behind by an exception
  abbrev pub with_levels : Book L → Exit L → Exit (Book L)
  with_levels b (done l) = done (record b { levels = l })
  with_levels b (raised x l) = raised x (record b { levels = l })

  -- `slot.state = Tombstone; --live_order_count_`
  abbrev pub bury : ℕ → Slot Order → Book L → Book L
  bury i s b = record b {
    slots = set b.slots i (record s { state = tombstone });
    live = (b.live + u64_max) % u64_mod;
  }

  -- a write of `slot.order`
  abbrev pub write_order : ℕ → Slot Order → Order → Book L → Book L
  write_order i s o b = record b { slots = set b.slots i (record s { order = o }) }

  module _ (ops : LevelOps L) where
    unfoldable pub add_order : ℕ → Order → Book L → Exit (Book L)
    add_order id o b =
        let i = insertion_slot id b.slots in
        if id == 0 || o.remaining_quantity == 0
        then raised invalid_argument b
        else if i == length b.slots
        then raised invalid_argument b
        else do
          b' ← with_levels b (ops.add_to_level o.side o.price_ticks o.remaining_quantity b.levels)
          done (record b' {
            slots = set b'.slots i (record { order_id = id; order = o; state = occupied });
            live = (b'.live + 1) % u64_mod;
          })

    unfoldable pub remove_order : ℕ → Book L → Exit (Book L)
    remove_order id b = elim (require_slot id b.slots) [
      | none ↦ raised invalid_argument b
      | some (i, s) ↦ do
        b' ← with_levels b (
            ops.subtract_from_level s.order.side s.order.price_ticks s.order.remaining_quantity
              b.levels)
        done (bury i s b')
    ]

    unfoldable pub subtract_from_order : ℕ → ℕ → Bool → Book L → Exit (Book L)
    subtract_from_order id q full b = elim (require_slot id b.slots) [
      | none ↦ raised invalid_argument b
      | some (i, s) ↦
          if q == 0
            || ltb s.order.remaining_quantity q
            || (not full && q == s.order.remaining_quantity)
          then raised invalid_argument b
          else with_levels b (ops.subtract_from_level s.order.side s.order.price_ticks q b.levels)
            >>= λ b'.
                if q == s.order.remaining_quantity
                then done (bury i s b')
                else done (
                    write_order i s
                      (record (s.order) { remaining_quantity = s.order.remaining_quantity - q }) b')
    ]

    unfoldable pub upsert_order : ℕ → Order → Book L → Exit (Book L)
    upsert_order id o b =
        if id == 0 || o.remaining_quantity == 0
        then raised invalid_argument b
        else elim (require_slot id b.slots) [
          | none ↦ add_order id o b
          | some (i, s) ↦ do
            b' ← with_levels b (
                ops.subtract_from_level s.order.side s.order.price_ticks s.order.remaining_quantity
                  b.levels)
            b'' ←
                with_levels b'
                  (ops.add_to_level o.side o.price_ticks o.remaining_quantity b'.levels)
            done (write_order i s o b'')
        ]

    -- the cases of the `switch`
    unfoldable pub dispatch : EventType → Event → Book L → Exit (Book L)
    dispatch add e b = add_order e.order_id (order_of e) b
    dispatch cancel e b = subtract_from_order e.order_id e.quantity false b
    dispatch execute e b = subtract_from_order e.order_id e.quantity true b
    dispatch delete e b = remove_order e.order_id b
    dispatch order_delete e b = remove_order e.order_id b
    dispatch replace e b =
        if e.order_id == e.replacement_order_id
        then raised invalid_argument b
        else do b' ← remove_order e.order_id b; add_order e.replacement_order_id (order_of e) b'
    dispatch order_upsert e b = upsert_order e.order_id (order_of e) b

    unfoldable pub apply : Event → Book L → Exit (Book L)
    unfolding dispatch
    apply e b = dispatch e.type e b
