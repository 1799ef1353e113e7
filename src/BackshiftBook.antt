-- ===== src/BackshiftBook.antt =====
-- The backshift book: cpp/include/llab/bitmap_backshift_order_book.hpp and
-- cpp/src/bitmap_backshift_order_book.cpp. Its order index is FixedIndex, its levels are BitmapLevels,
-- and here are its methods.
pub mod Valid
pub mod Operations
pub mod Upsert
pub mod Contract
mod Tests
use cpp_rust_performance_lab.Common.{
  ℕ, ◌+◌, ◌-◌, ◌%◌, Bool, true, false, not, ◌&&◌, ◌||◌, Option, none, some, List, [], ◌∷◌, ltb, leb,
  ◌==◌, if◌then◌else◌, u64_mod, u64_max,
}
use cpp_rust_performance_lab.Book.{
  Side, bid, ask, Event, EventType, add, cancel, execute, delete, replace, order_upsert,
  order_delete, Order, invalid_argument, Exit, done, raised, ◌>>=◌,
}
use cpp_rust_performance_lab.Book.Ladder.{Level}
use cpp_rust_performance_lab.Book.Digest.{fnv_offset_basis, hash_byte, hash_u64, side_byte}
use cpp_rust_performance_lab.IndexedBook.{order_of}
use cpp_rust_performance_lab.ParityBook.{Made, made, thrown, endless}
use cpp_rust_performance_lab.DenseBook.{hash_ladder}
use cpp_rust_performance_lab.BitmapLevels
use cpp_rust_performance_lab.BitmapLevels.{
  Bitmaps, no_levels, price_count, add_level, subtract_level, best,
}
use cpp_rust_performance_lab.FixedIndex
use cpp_rust_performance_lab.FixedIndex.{
  FixedIndex, insert, find, erase, assign, capacity, entries, probe_summary,
}

pub record BackshiftBook : Type 0 where
  pub orders : FixedIndex Order
  pub levels : Bitmaps
  pub live : ℕ

-- What a method ends in; `none` where the loop of the index's `erase_at` is out of fuel.
abbrev pub Run : Type 0
Run = Option (Exit BackshiftBook)

-- what follows a call
abbrev pub then_run : Run → (BackshiftBook → Run) → Run
then_run none f = none
then_run (some (raised x b)) f = some (raised x b)
then_run (some (done b)) f = f b

-- `Order{}`
abbrev pub blank_order : Order
blank_order = record { side = bid; price_ticks = 0; remaining_quantity = 0 }

abbrev pub charted : ℕ → ℕ → FixedIndex Order → Made BackshiftBook
charted minimum count orders =
    if not (count == price_count) || ltb (u64_max - (price_count - 1)) minimum
    then thrown
    else made (record { orders = orders; levels = no_levels minimum; live = 0 })

-- the constructor, whose members are initialised before its body checks the range
unfoldable pub new : ℕ → ℕ → ℕ → ℕ → Made BackshiftBook
new fuel maximum_live_orders minimum count =
    elim (FixedIndex.new blank_order fuel maximum_live_orders) [
      | made orders ↦ charted minimum count orders
      | thrown ↦ thrown
      | endless ↦ endless
    ]

-- the levels changed, or left behind by an exception
abbrev pub with_levels : BackshiftBook → Exit Bitmaps → Exit BackshiftBook
with_levels b (done l) = done (record b { levels = l })
with_levels b (raised x l) = raised x (record b { levels = l })

unfoldable pub add_order : ℕ → Order → BackshiftBook → Exit BackshiftBook
add_order id o b =
    let (accepted, orders) = insert id o b.orders in
    if id == 0 || o.remaining_quantity == 0
    then raised invalid_argument b
    else if not accepted
    then raised invalid_argument (record b { orders = orders })
    else do
      b' ←
          with_levels (record b { orders = orders })
            (add_level o.side o.price_ticks o.remaining_quantity b.levels)
      done (record b' { live = (b'.live + 1) % u64_mod })

-- `orders_.erase(id); --live_`
abbrev pub drop_from : BackshiftBook → Option (Option Order × FixedIndex Order) → Run
drop_from b none = none
drop_from b (some (o, orders)) =
    some (done (record b { orders = orders; live = (b.live + u64_max) % u64_mod }))

unfoldable pub drop : ℕ → BackshiftBook → Run
drop id b = drop_from b (erase id b.orders)

unfoldable pub remove : ℕ → BackshiftBook → Run
unfolding drop
remove id b = elim (find id b.orders) [
  | none ↦ some (raised invalid_argument b)
  | some o ↦
      then_run
        (some (with_levels b (subtract_level o.side o.price_ticks o.remaining_quantity b.levels)))
        (drop id)
]

unfoldable pub reduce : ℕ → ℕ → Bool → BackshiftBook → Run
unfolding drop
reduce id q full b = elim (find id b.orders) [
  | none ↦ some (raised invalid_argument b)
  | some o ↦
      if q == 0 || ltb o.remaining_quantity q || (not full && q == o.remaining_quantity)
      then some (raised invalid_argument b)
      else then_run (some (with_levels b (subtract_level o.side o.price_ticks q b.levels))) (λ b'.
        if q == o.remaining_quantity
        then drop id b'
        else some (
            done (record b' {
              orders =
                  assign id (record o { remaining_quantity = o.remaining_quantity - q }) b'.orders;
            })))
]

unfoldable pub upsert : ℕ → Order → BackshiftBook → Exit BackshiftBook
upsert id o b =
    if id == 0 || o.remaining_quantity == 0
    then raised invalid_argument b
    else elim (find id b.orders) [
      | none ↦ add_order id o b
      | some old ↦ do
        b' ← with_levels b (subtract_level old.side old.price_ticks old.remaining_quantity b.levels)
        b'' ← with_levels b' (add_level o.side o.price_ticks o.remaining_quantity b'.levels)
        done (record b'' { orders = assign id o b''.orders })
    ]

-- the cases of the `switch`
unfoldable pub dispatch : EventType → Event → BackshiftBook → Run
dispatch add e b = some (add_order e.order_id (order_of e) b)
dispatch cancel e b = reduce e.order_id e.quantity false b
dispatch execute e b = reduce e.order_id e.quantity true b
dispatch delete e b = remove e.order_id b
dispatch order_delete e b = remove e.order_id b
dispatch replace e b =
    if e.order_id == e.replacement_order_id
    then some (raised invalid_argument b)
    else then_run (remove e.order_id b)
        (λ b'. some (add_order e.replacement_order_id (order_of e) b'))
dispatch order_upsert e b = some (upsert e.order_id (order_of e) b)

unfoldable pub apply : Event → BackshiftBook → Run
unfolding dispatch
apply e b = dispatch e.type e b

unfoldable pub best_bid : BackshiftBook → Option Level
best_bid b = best bid b.levels

unfoldable pub best_ask : BackshiftBook → Option Level
best_ask b = best ask b.levels

unfoldable pub live_order_count : BackshiftBook → ℕ
live_order_count b = b.live

unfoldable pub order_index_capacity : BackshiftBook → ℕ
order_index_capacity b = capacity b.orders

unfoldable pub order_index_total_probes : BackshiftBook → ℕ
order_index_total_probes b = (probe_summary b.orders).total_probes

unfoldable pub order_index_maximum_probes : BackshiftBook → ℕ
order_index_maximum_probes b = (probe_summary b.orders).maximum_probes

-- `std::sort` by identifier
unfoldable pub insert_entry : ℕ × Order → List (ℕ × Order) → List (ℕ × Order)
insert_entry e [] = e ∷ []
insert_entry e (f ∷ r) = if leb e.0 f.0 then e ∷ f ∷ r else f ∷ insert_entry e r

unfoldable pub sort_entries : List (ℕ × Order) → List (ℕ × Order)
unfolding insert_entry
sort_entries [] = []
sort_entries (e ∷ r) = insert_entry e (sort_entries r)

unfoldable pub hash_entries : ℕ → List (ℕ × Order) → ℕ
hash_entries hash [] = hash
hash_entries hash ((id, o) ∷ r) =
    hash_entries
      (hash_u64 (hash_u64 (hash_byte (hash_u64 hash id) (side_byte o.side)) o.price_ticks)
        o.remaining_quantity)
      r

unfoldable pub state_digest : BackshiftBook → ℕ
unfolding hash_entries sort_entries
state_digest b =
    let h₀ = hash_u64 fnv_offset_basis b.live in
    let h₁ = hash_ladder h₀ b.levels.minimum_price b.levels.bids in
    let h₂ = hash_ladder h₁ b.levels.minimum_price b.levels.asks in
    hash_entries h₂ (sort_entries (entries b.orders.slots))
