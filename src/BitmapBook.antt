-- ===== src/BitmapBook.antt =====
-- The bitmap-ladder book: cpp/include/llab/bitmap_ladder_order_book.hpp and
-- cpp/src/bitmap_ladder_order_book.cpp. Its order index is ProbeTable, its levels are BitmapLevels,
-- and here are its orders, which keep the side and the offset of the price in one word, and its
-- methods.
pub mod Packing
pub mod View
pub mod Contract
mod Tests
use cpp_rust_performance_lab.Common.{
  ℕ, ◌+◌, ◌-◌, ◌*◌, ◌%◌, ◌^◌, Bool, true, false, not, ◌&&◌, ◌||◌, Option, none, some, List, [], ◌∷◌,
  ltb, ◌==◌, if◌then◌else◌, u64_mod, u64_max, length, set, replicate, bit_or, bit_and,
}
use cpp_rust_performance_lab.Book.{
  Side, bid, ask, Event, EventType, add, cancel, execute, delete, replace, order_upsert,
  order_delete, Order, invalid_argument, Exit, done, raised, ◌>>=◌,
}
use cpp_rust_performance_lab.Book.Ladder.{Level}
use cpp_rust_performance_lab.Book.Digest.{
  fnv_offset_basis, hash_byte, hash_u64, side_byte, sort_ids,
}
use cpp_rust_performance_lab.ProbeTable.{
  Slot, empty, occupied, tombstone, find_slot, insertion_slot,
}
use cpp_rust_performance_lab.IndexedBook.{order_of, require_slot}
use cpp_rust_performance_lab.ParityBook.{Made, made, thrown, endless, prepend_live}
use cpp_rust_performance_lab.DenseBook.{capacity, hash_ladder}
use cpp_rust_performance_lab.BitmapLevels
use cpp_rust_performance_lab.BitmapLevels.{
  Bitmaps, no_levels, price_count, offset, add_level, subtract_level, best,
}

-- `Order`
pub record Packed : Type 0 where
  pub side_and_offset : ℕ
  pub quantity : ℕ

-- `kAskBit`
abbrev pub ask_bit : ℕ
ask_bit = 2 ^ 63

abbrev pub side_mask : Side → ℕ
side_mask bid = 0
side_mask ask = ask_bit

-- `Order::make`
unfoldable pub make : Side → ℕ → ℕ → Packed
make side offset q = record { side_and_offset = bit_or offset (side_mask side); quantity = q }

-- `Order::side`
unfoldable pub side_of : Packed → Side
side_of o = if bit_and o.side_and_offset ask_bit == 0 then bid else ask

-- `Order::offset`
unfoldable pub offset_of : Packed → ℕ
offset_of o = bit_and o.side_and_offset (u64_max - ask_bit)

pub record BitmapBook : Type 0 where
  pub slots : List (Slot Packed)
  pub levels : Bitmaps
  pub live : ℕ

-- `Slot{}`
abbrev pub empty_slot : Slot Packed
empty_slot = record {
  order_id = 0;
  order = record { side_and_offset = 0; quantity = 0 };
  state = empty;
}

-- the constructor, whose members are initialised before its body checks the range
unfoldable pub new : ℕ → ℕ → ℕ → ℕ → Made BitmapBook
new fuel maximum_live_orders minimum count = elim (capacity fuel maximum_live_orders) [
  | none ↦ endless
  | some size ↦
      if not (count == price_count) || ltb (u64_max - (price_count - 1)) minimum
      then thrown
      else made (record { slots = replicate size empty_slot; levels = no_levels minimum; live = 0 })
]

-- `minimum_price_ + o.offset()`
unfoldable pub price_of : ℕ → Packed → ℕ
price_of minimum o = (minimum + offset_of o) % u64_mod

-- the levels changed, or left behind by an exception
abbrev pub with_levels : BitmapBook → Exit Bitmaps → Exit BitmapBook
with_levels b (done l) = done (record b { levels = l })
with_levels b (raised x l) = raised x (record b { levels = l })

-- `slots_[i].state = Tombstone; --live_`
abbrev pub bury : ℕ → Slot Packed → BitmapBook → BitmapBook
bury i s b = record b {
  slots = set b.slots i (record s { state = tombstone });
  live = (b.live + u64_max) % u64_mod;
}

abbrev pub write_order : ℕ → Slot Packed → Packed → BitmapBook → BitmapBook
write_order i s o b = record b { slots = set b.slots i (record s { order = o }) }

unfoldable pub add_order : ℕ → Order → BitmapBook → Exit BitmapBook
add_order id o b =
    if id == 0 || o.remaining_quantity == 0
    then raised invalid_argument b
    else elim (offset o.price_ticks b.levels) [
      | none ↦ raised invalid_argument b
      | some price_offset ↦
          let i = insertion_slot id b.slots in
          if i == length b.slots then raised invalid_argument b else do
            b' ← with_levels b (add_level o.side o.price_ticks o.remaining_quantity b.levels)
            done (record b' {
              slots = set b'.slots i (record {
                order_id = id;
                order = make o.side price_offset o.remaining_quantity;
                state = occupied;
              });
              live = (b'.live + 1) % u64_mod;
            })
    ]

unfoldable pub remove : ℕ → BitmapBook → Exit BitmapBook
remove id b = elim (require_slot id b.slots) [
  | none ↦ raised invalid_argument b
  | some (i, s) ↦ do
    b' ← with_levels b (
        subtract_level (side_of s.order) (price_of b.levels.minimum_price s.order) s.order.quantity
          b.levels)
    done (bury i s b')
]

unfoldable pub reduce : ℕ → ℕ → Bool → BitmapBook → Exit BitmapBook
reduce id q full b = elim (require_slot id b.slots) [
  | none ↦ raised invalid_argument b
  | some (i, s) ↦
      if q == 0 || ltb s.order.quantity q || (not full && q == s.order.quantity)
      then raised invalid_argument b
      else with_levels b
          (subtract_level (side_of s.order) (price_of b.levels.minimum_price s.order) q b.levels)
        >>= λ b'.
            if q == s.order.quantity
            then done (bury i s b')
            else done (write_order i s (record (s.order) { quantity = s.order.quantity - q }) b')
]

unfoldable pub upsert : ℕ → Order → BitmapBook → Exit BitmapBook
upsert id o b =
    if id == 0 || o.remaining_quantity == 0
    then raised invalid_argument b
    else elim (require_slot id b.slots) [
      | none ↦ add_order id o b
      | some (i, s) ↦ elim (offset o.price_ticks b.levels) [
        | none ↦ raised invalid_argument b
        | some price_offset ↦ do
          b' ← with_levels b (
              subtract_level (side_of s.order) (price_of b.levels.minimum_price s.order)
                s.order.quantity b.levels)
          b'' ← with_levels b' (add_level o.side o.price_ticks o.remaining_quantity b'.levels)
          done (write_order i s (make o.side price_offset o.remaining_quantity) b'')
      ]
    ]

-- the cases of the `switch`
unfoldable pub dispatch : EventType → Event → BitmapBook → Exit BitmapBook
dispatch add e b = add_order e.order_id (order_of e) b
dispatch cancel e b = reduce e.order_id e.quantity false b
dispatch execute e b = reduce e.order_id e.quantity true b
dispatch delete e b = remove e.order_id b
dispatch order_delete e b = remove e.order_id b
dispatch replace e b =
    if e.order_id == e.replacement_order_id
    then raised invalid_argument b
    else do b' ← remove e.order_id b; add_order e.replacement_order_id (order_of e) b'
dispatch order_upsert e b = upsert e.order_id (order_of e) b

unfoldable pub apply : Event → BitmapBook → Exit BitmapBook
unfolding dispatch
apply e b = dispatch e.type e b

unfoldable pub best_bid : BitmapBook → Option Level
best_bid b = best bid b.levels

unfoldable pub best_ask : BitmapBook → Option Level
best_ask b = best ask b.levels

unfoldable pub live_order_count : BitmapBook → ℕ
live_order_count b = b.live

unfoldable pub order_index_capacity : BitmapBook → ℕ
order_index_capacity b = length b.slots

-- the identifiers of the occupied slots
unfoldable pub live_ids : List (Slot Packed) → List ℕ
live_ids [] = []
live_ids (s ∷ slots) = prepend_live s.state s.order_id (live_ids slots)

-- the loop over the sorted identifiers; `none` where `find` would miss
unfoldable pub hash_orders : ℕ → ℕ → List ℕ → List (Slot Packed) → Option ℕ
hash_orders minimum hash [] slots = some hash
hash_orders minimum hash (id ∷ r) slots = elim (require_slot id slots) [
  | none ↦ none
  | some (i, s) ↦
      hash_orders minimum
        (hash_u64
          (hash_u64 (hash_byte (hash_u64 hash id) (side_byte (side_of s.order)))
            (price_of minimum s.order))
          s.order.quantity)
        r slots
]

unfoldable pub state_digest : BitmapBook → Option ℕ
unfolding hash_orders live_ids
state_digest b =
    let h₀ = hash_u64 fnv_offset_basis b.live in
    let h₁ = hash_ladder h₀ b.levels.minimum_price b.levels.bids in
    let h₂ = hash_ladder h₁ b.levels.minimum_price b.levels.asks in
    hash_orders b.levels.minimum_price h₂ (sort_ids (live_ids b.slots)) b.slots
