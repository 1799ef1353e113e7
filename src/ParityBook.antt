-- ===== src/ParityBook.antt =====
-- The parity book: cpp/include/llab/parity_order_book.hpp and cpp/src/parity_order_book.cpp. Its
-- order index is ProbeTable, its methods are those of IndexedBook, and here are its levels: a vector
-- for each side, sorted by ascending price.
pub mod Vectors
pub mod Contract
pub mod Sizing
pub mod Queries
mod Tests
use cpp_rust_performance_lab.Common.{
  ℕ, zero, suc, ◌+◌, ◌-◌, ◌*◌, ◌/◌, ◌%◌, Bool, true, false, not, ◌&&◌, ◌||◌, Option, none, some,
  List, [], ◌∷◌, ltb, ◌==◌, if◌then◌else◌, u64_mod, u64_max, length, set, get_elem?, replicate, max,
}
use cpp_rust_performance_lab.Book.{
  Side, bid, ask, Event, Order, Exit, done, raised, overflow_error, logic_error,
}
use cpp_rust_performance_lab.Book.Ladder.{Level}
use cpp_rust_performance_lab.Book.Digest.{
  fnv_offset_basis, hash_byte, hash_u64, hash_side, side_byte, sort_ids,
}
use cpp_rust_performance_lab.ProbeTable.{Slot, SlotState, empty, occupied, tombstone, grow}
use cpp_rust_performance_lab.IndexedBook
use cpp_rust_performance_lab.IndexedBook.{LevelOps, Book, require_slot}

pub record Levels : Type 0 where
  pub bids : List Level
  pub asks : List Level

abbrev pub OrderBook : Type 0
OrderBook = Book Levels

-- What a constructor ends in: an object, an exception, or a loop that does not end within the fuel.
pub data Made {ℓ} (S : Type ℓ) : Type ℓ where
  made : S → Made S
  thrown : Made S
  endless : Made S

abbrev pub no_order : Order
no_order = record { side = bid; price_ticks = 0; remaining_quantity = 0 }

-- `Slot{}`
abbrev pub empty_slot : Slot Order
empty_slot = record { order_id = 0; order = no_order; state = empty }

-- `table_capacity`
unfoldable pub table_capacity : ℕ → ℕ → Made ℕ
table_capacity fuel maximum_live_orders =
    if ltb (u64_max / 2) maximum_live_orders
    then thrown
    else elim (grow fuel 8 (max 8 (maximum_live_orders * 2 % u64_mod))) [
      | none ↦ endless
      | some capacity ↦ made capacity
    ]

-- the constructor
unfoldable pub new : ℕ → ℕ → Made OrderBook
new fuel maximum_live_orders = elim (table_capacity fuel maximum_live_orders) [
  | made capacity ↦ made (record {
    slots = replicate capacity empty_slot;
    levels = record { bids = []; asks = [] };
    live = 0;
  })
  | thrown ↦ thrown
  | endless ↦ endless
]

-- `levels_for`
abbrev pub levels_for : Side → Levels → List Level
levels_for bid l = l.bids
levels_for ask l = l.asks

abbrev pub with_side : Side → Levels → Exit (List Level) → Exit Levels
with_side bid l (done ls) = done (record l { bids = ls })
with_side ask l (done ls) = done (record l { asks = ls })
with_side bid l (raised x ls) = raised x (record l { bids = ls })
with_side ask l (raised x ls) = raised x (record l { asks = ls })

-- `std::lower_bound`: how many levels have a lower price
unfoldable pub lower_bound : ℕ → List Level → ℕ
lower_bound p [] = 0
lower_bound p (l ∷ ls) = if ltb l.price_ticks p then suc (lower_bound p ls) else 0

-- `levels.insert(it, level)`
unfoldable pub insert_at : ℕ → Level → List Level → List Level
insert_at zero v ls = v ∷ ls
insert_at (suc i) v [] = v ∷ []
insert_at (suc i) v (l ∷ ls) = l ∷ insert_at i v ls

-- `levels.erase(it)`
unfoldable pub erase_at : ℕ → List Level → List Level
erase_at i [] = []
erase_at zero (l ∷ ls) = ls
erase_at (suc i) (l ∷ ls) = l ∷ erase_at i ls

-- `it != levels.end() && it->price_ticks == price`
abbrev pub is_at : ℕ → Option Level → Bool
is_at p none = false
is_at p (some l) = l.price_ticks == p

-- `it->quantity`, read only where `it` points at a level
abbrev pub quantity_of : Option Level → ℕ
quantity_of none = 0
quantity_of (some l) = l.quantity

-- `add_to_level` on the levels of its side
unfoldable pub add_levels : ℕ → ℕ → List Level → Exit (List Level)
add_levels p q ls =
    let i = lower_bound p ls in
    let level = quantity_of (get_elem? ls i) in
    if is_at p (get_elem? ls i)
    then (if ltb (u64_max - level) q
        then raised overflow_error ls
        else done (set ls i (record { price_ticks = p; quantity = (level + q) % u64_mod })))
    else done (insert_at i (record { price_ticks = p; quantity = q }) ls)

-- `subtract_from_level` on the levels of its side
unfoldable pub subtract_levels : ℕ → ℕ → List Level → Exit (List Level)
subtract_levels p q ls =
    let i = lower_bound p ls in
    let level = quantity_of (get_elem? ls i) in
    if not (is_at p (get_elem? ls i)) || q == 0 || ltb level q
    then raised logic_error ls
    else if level - q == 0
    then done (erase_at i ls)
    else done (set ls i (record { price_ticks = p; quantity = level - q }))

abbrev pub parity_levels : LevelOps Levels
parity_levels = record {
  add_to_level = λ side p q l. with_side side l (add_levels p q (levels_for side l));
  subtract_from_level = λ side p q l. with_side side l (subtract_levels p q (levels_for side l));
}

unfoldable pub apply : Event → OrderBook → Exit OrderBook
apply e b = IndexedBook.apply parity_levels e b

-- `bids_.back()` of a vector that is not empty
unfoldable pub last_level : List Level → Option Level
last_level [] = none
last_level (l ∷ []) = some l
last_level (l ∷ m ∷ ls) = last_level (m ∷ ls)

unfoldable pub best_bid : OrderBook → Option Level
unfolding last_level
best_bid b = last_level b.levels.bids

unfoldable pub best_ask : OrderBook → Option Level
best_ask b = get_elem? b.levels.asks 0

unfoldable pub level_quantity : Side → ℕ → OrderBook → Option ℕ
unfolding lower_bound
level_quantity side p b =
    let ls = levels_for side b.levels in
    let it = get_elem? ls (lower_bound p ls) in if is_at p it then some (quantity_of it) else none

unfoldable pub live_order_count : OrderBook → ℕ
live_order_count b = b.live

unfoldable pub order_index_capacity : OrderBook → ℕ
order_index_capacity b = length b.slots

-- the loop of `state_digest` that collects the identifiers
abbrev pub prepend_live : SlotState → ℕ → List ℕ → List ℕ
prepend_live occupied id r = id ∷ r
prepend_live empty id r = r
prepend_live tombstone id r = r

unfoldable pub live_ids : List (Slot Order) → List ℕ
live_ids [] = []
live_ids (s ∷ slots) = prepend_live s.state s.order_id (live_ids slots)

-- the loop over the sorted identifiers; `none` where `require_slot` would throw
unfoldable pub hash_orders : ℕ → List ℕ → List (Slot Order) → Option ℕ
hash_orders hash [] slots = some hash
hash_orders hash (id ∷ r) slots = elim (require_slot id slots) [
  | none ↦ none
  | some (i, s) ↦
      hash_orders
        (hash_u64
          (hash_u64 (hash_byte (hash_u64 hash id) (side_byte s.order.side)) s.order.price_ticks)
          s.order.remaining_quantity)
        r slots
]

unfoldable pub state_digest : OrderBook → Option ℕ
unfolding hash_orders live_ids
state_digest b =
    let h₀ = hash_u64 fnv_offset_basis b.live in
    let h₁ = hash_side h₀ b.levels.bids in
    let h₂ = hash_side h₁ b.levels.asks in hash_orders h₂ (sort_ids (live_ids b.slots)) b.slots
