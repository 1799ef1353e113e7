-- ===== src/OrderBook.antt =====
-- The reference book: cpp/include/llab/order_book.hpp and cpp/src/order_book.cpp.
-- A method that is not `const` maps the book to the book in which it stops, `Exit`.
pub mod Levels
pub mod Valid
pub mod Operations
pub mod Upsert
pub mod Contract
pub mod Queries
mod Tests
use cpp_rust_performance_lab.Common.{
  ℕ, ◌+◌, ◌-◌, ◌%◌, Bool, true, false, not, ◌&&◌, ◌||◌, Option, none, some, List, [], ◌∷◌, ltb,
  ◌==◌, if◌then◌else◌, u64_mod, u64_max, length,
}
use cpp_rust_performance_lab.Book.{
  Side, bid, ask, Event, EventType, add, cancel, execute, delete, replace, order_upsert,
  order_delete, Order, invalid_argument, overflow_error, logic_error, Exit, done, raised, ◌>>=◌,
}
use cpp_rust_performance_lab.Book.Ladder
use cpp_rust_performance_lab.Book.Ladder.{Level}
use cpp_rust_performance_lab.Book.Table
use cpp_rust_performance_lab.Book.Table.{Orders}
use cpp_rust_performance_lab.Book.Digest.{
  fnv_offset_basis, hash_byte, hash_u64, hash_side, side_byte, sort_ids,
}

pub record OrderBook : Type 0 where
  pub orders : Orders
  pub bids : List Level
  pub asks : List Level

-- `OrderBook(expected_order_capacity)`; the reservation is no part of the state.
unfoldable pub new : OrderBook
new = record { orders = []; bids = []; asks = [] }

abbrev pub levels_for : Side → OrderBook → List Level
levels_for bid b = b.bids
levels_for ask b = b.asks

abbrev pub set_levels : Side → List Level → OrderBook → OrderBook
set_levels bid ls b = record b { bids = ls }
set_levels ask ls b = record b { asks = ls }

unfoldable pub add_to_level : Side → ℕ → ℕ → OrderBook → Exit OrderBook
add_to_level side p q b =
    let levels = Ladder.subscript p (levels_for side b) in
    let level = Ladder.quantity_at p levels in
    if ltb (u64_max - level) q
    then raised overflow_error (set_levels side levels b)
    else done (set_levels side (Ladder.put p ((level + q) % u64_mod) levels) b)

-- `it->second -= quantity` runs only where `quantity` is at most the level.
unfoldable pub subtract_from_level : Side → ℕ → ℕ → OrderBook → Exit OrderBook
subtract_from_level side p q b = elim (Ladder.find p (levels_for side b)) [
  | none ↦ raised logic_error b
  | some level ↦
      if q == 0 || ltb level q
      then raised logic_error b
      else if level - q == 0
      then done (set_levels side (Ladder.erase p (levels_for side b)) b)
      else done (set_levels side (Ladder.put p (level - q) (levels_for side b)) b)
]

abbrev pub contains : ℕ → Orders → Bool
contains id t = elim (Table.find id t) [ none ↦ false | some _ ↦ true ]

unfoldable pub add_order : ℕ → Order → OrderBook → Exit OrderBook
add_order id o b =
    if id == 0 || o.remaining_quantity == 0 || contains id b.orders
    then raised invalid_argument b
    else do
      b' ← add_to_level o.side o.price_ticks o.remaining_quantity b
      done (record b' { orders = Table.emplace id o b'.orders })

unfoldable pub remove_order : ℕ → OrderBook → Exit OrderBook
remove_order id b = elim (Table.find id b.orders) [
  | none ↦ raised invalid_argument b
  | some o ↦ do
    b' ← subtract_from_level o.side o.price_ticks o.remaining_quantity b
    done (record b' { orders = Table.erase id b'.orders })
]

unfoldable pub subtract_from_order : ℕ → ℕ → Bool → OrderBook → Exit OrderBook
subtract_from_order id q full b = elim (Table.find id b.orders) [
  | none ↦ raised invalid_argument b
  | some o ↦
      if q == 0 || ltb o.remaining_quantity q || (not full && q == o.remaining_quantity)
      then raised invalid_argument b
      else subtract_from_level o.side o.price_ticks q b >>= λ b'.
          if q == o.remaining_quantity
          then done (record b' { orders = Table.erase id b'.orders })
          else done (record b' {
            orders =
                Table.assign id (record o { remaining_quantity = o.remaining_quantity - q })
                  b'.orders;
          })
]

-- The table is written before `add_to_level`, which can throw.
unfoldable pub upsert_order : ℕ → Order → OrderBook → Exit OrderBook
upsert_order id o b = if id == 0 || o.remaining_quantity == 0 then raised invalid_argument b else do
  b' ← (elim (Table.find id b.orders) [
    | some old ↦ do
      b'' ← subtract_from_level old.side old.price_ticks old.remaining_quantity b
      done (record b'' { orders = Table.assign id o b''.orders })
    | none ↦ done (record b { orders = Table.emplace id o b.orders })
  ])
  add_to_level o.side o.price_ticks o.remaining_quantity b'

-- the `Order` that an event's fields make up
abbrev pub order_of : Event → Order
order_of e = record { side = e.side; price_ticks = e.price_ticks; remaining_quantity = e.quantity }

-- the cases of the `switch`; an `EventType` has no other value
unfoldable pub dispatch : EventType → Event → OrderBook → Exit OrderBook
dispatch add e b = add_order e.order_id (order_of e) b
dispatch cancel e b = subtract_from_order e.order_id e.quantity false b
dispatch execute e b = subtract_from_order e.order_id e.quantity true b
dispatch delete e b = remove_order e.order_id b
dispatch order_delete e b = remove_order e.order_id b
dispatch replace e b =
    if e.replacement_order_id == e.order_id
    then raised invalid_argument b
    else do b' ← remove_order e.order_id b; add_order e.replacement_order_id (order_of e) b'
dispatch order_upsert e b = upsert_order e.order_id (order_of e) b

unfoldable pub apply : Event → OrderBook → Exit OrderBook
unfolding dispatch
apply e b = dispatch e.type e b

unfoldable pub best_bid : OrderBook → Option Level
unfolding Ladder.last?
best_bid b = Ladder.last? b.bids

unfoldable pub best_ask : OrderBook → Option Level
unfolding Ladder.first?
best_ask b = Ladder.first? b.asks

unfoldable pub level_quantity : Side → ℕ → OrderBook → Option ℕ
unfolding Ladder.find
level_quantity side p b = Ladder.find p (levels_for side b)

unfoldable pub live_order_count : OrderBook → ℕ
live_order_count b = length b.orders

-- the keys that the loop over the table collects
unfoldable pub ids : Orders → List ℕ
ids [] = []
ids ((id, o) ∷ r) = id ∷ ids r

-- the loop over the sorted keys; `none` where `at` would throw
unfoldable pub hash_orders : ℕ → List ℕ → Orders → Option ℕ
hash_orders hash [] t = some hash
hash_orders hash (id ∷ r) t = elim (Table.find id t) [
  | none ↦ none
  | some o ↦
      hash_orders
        (hash_u64 (hash_u64 (hash_byte (hash_u64 hash id) (side_byte o.side)) o.price_ticks)
          o.remaining_quantity)
        r t
]

unfoldable pub state_digest : OrderBook → Option ℕ
unfolding hash_orders ids
state_digest b =
    let h₀ = hash_u64 fnv_offset_basis (length b.orders) in
    let h₁ = hash_side h₀ b.bids in
    let h₂ = hash_side h₁ b.asks in hash_orders h₂ (sort_ids (ids b.orders)) b.orders
