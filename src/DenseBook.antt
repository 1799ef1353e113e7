-- ===== src/DenseBook.antt =====
-- The dense-ladder book: cpp/include/llab/dense_ladder_order_book.hpp and
-- cpp/src/dense_ladder_order_book.cpp. Its order index is ProbeTable, its methods are those of
-- IndexedBook, and here are its levels: an array of quantities for each side over a range of
-- prices, and the best price of each side.
pub mod Best
pub mod Arrays
pub mod Laws
pub mod Contract
mod Tests
use cpp_rust_performance_lab.Common.{
  ℕ, zero, suc, ◌+◌, ◌-◌, ◌*◌, ◌%◌, Bool, true, false, not, ◌&&◌, ◌||◌, Option, none, some, List,
  [], ◌∷◌, ltb, ◌==◌, if◌then◌else◌, u64_mod, u64_max, length, set, get_or, replicate, max,
}
use cpp_rust_performance_lab.Book.{
  Side, bid, ask, Event, Order, Exit, done, raised, invalid_argument, overflow_error, logic_error,
}
use cpp_rust_performance_lab.Book.Ladder.{Level}
use cpp_rust_performance_lab.Book.Digest.{fnv_offset_basis, hash_u64, sort_ids}
use cpp_rust_performance_lab.ProbeTable.{grow}
use cpp_rust_performance_lab.IndexedBook
use cpp_rust_performance_lab.IndexedBook.{LevelOps, Book}
use cpp_rust_performance_lab.ParityBook.{
  Made, made, thrown, endless, empty_slot, live_ids, hash_orders,
}

pub record Ladders : Type 0 where
  pub bids : List ℕ
  pub asks : List ℕ
  pub minimum_price : ℕ
  pub best_bid : Option ℕ
  pub best_ask : Option ℕ

abbrev pub OrderBook : Type 0
OrderBook = Book Ladders

-- `capacity`, in which the product may wrap
unfoldable pub capacity : ℕ → ℕ → Option ℕ
capacity fuel n = grow fuel 8 (max 8 (n * 2 % u64_mod))

-- the constructor, whose members are initialised before its body checks the range
unfoldable pub new : ℕ → ℕ → ℕ → ℕ → Made OrderBook
new fuel maximum_live_orders minimum_price price_count = elim (capacity fuel maximum_live_orders) [
  | none ↦ endless
  | some size ↦
      if price_count == 0 || ltb (u64_max - (price_count - 1)) minimum_price
      then thrown
      else made (record {
        slots = replicate size empty_slot;
        levels = record {
          bids = replicate price_count 0;
          asks = replicate price_count 0;
          minimum_price = minimum_price;
          best_bid = none;
          best_ask = none;
        };
        live = 0;
      })
]

-- `ladder`
abbrev pub ladder : Side → Ladders → List ℕ
ladder bid l = l.bids
ladder ask l = l.asks

abbrev pub set_ladder : Side → List ℕ → Ladders → Ladders
set_ladder bid qs l = record l { bids = qs }
set_ladder ask qs l = record l { asks = qs }

-- `offset`; `none` where it throws
unfoldable pub offset : ℕ → Ladders → Option ℕ
offset price l =
    if ltb price l.minimum_price || not (ltb (price - l.minimum_price) (length l.bids))
    then none
    else some (price - l.minimum_price)

abbrev pub higher : ℕ → Option ℕ → Option ℕ
higher price none = some price
higher price (some best) = if ltb best price then some price else some best

abbrev pub lower : ℕ → Option ℕ → Option ℕ
lower price none = some price
lower price (some best) = if ltb price best then some price else some best

-- the end of `add_level`
abbrev pub raise_best : Side → ℕ → Ladders → Ladders
raise_best bid price l = record l { best_bid = higher price l.best_bid }
raise_best ask price l = record l { best_ask = lower price l.best_ask }

unfoldable pub add_level : Side → ℕ → ℕ → Ladders → Exit Ladders
add_level side price q l = elim (offset price l) [
  | none ↦ raised invalid_argument l
  | some i ↦
      let level = get_or (ladder side l) i 0 in
      if ltb (u64_max - level) q
      then raised overflow_error l
      else done (
          raise_best side price (set_ladder side (set (ladder side l) i ((level + q) % u64_mod)) l))
]

-- `for (i = l.size(); i-- > 0;)`: the last index below `i` that holds a quantity
unfoldable pub last_from : ℕ → List ℕ → Option ℕ
last_from zero qs = none
last_from (suc i) qs = elim (get_or qs i 0 == 0) [ true ↦ last_from i qs | false ↦ some i ]

-- the loop from index `i` up, with the rounds left
unfoldable pub first_from : ℕ → ℕ → List ℕ → Option ℕ
first_from zero i qs = none
first_from (suc rounds) i qs = elim (get_or qs i 0 == 0) [
  | true ↦ first_from rounds (suc i) qs
  | false ↦ some i
]

-- the price at an index
abbrev pub price_at : ℕ → Option ℕ → Option ℕ
price_at minimum none = none
price_at minimum (some i) = some ((minimum + i) % u64_mod)

unfoldable pub refresh_best : Side → Ladders → Ladders
refresh_best bid l = record l {
  best_bid = price_at l.minimum_price (last_from (length l.bids) l.bids);
}
refresh_best ask l = record l {
  best_ask = price_at l.minimum_price (first_from (length l.asks) 0 l.asks);
}

-- `best && price == *best`
abbrev pub is_price : ℕ → Option ℕ → Bool
is_price price none = false
is_price price (some best) = price == best

abbrev pub best_of : Side → Ladders → Option ℕ
best_of bid l = l.best_bid
best_of ask l = l.best_ask

unfoldable pub subtract_level : Side → ℕ → ℕ → Ladders → Exit Ladders
subtract_level side price q l = elim (offset price l) [
  | none ↦ raised invalid_argument l
  | some i ↦
      let level = get_or (ladder side l) i 0 in
      let after = set_ladder side (set (ladder side l) i (level - q)) l in
      if q == 0 || ltb level q
      then raised logic_error l
      else if level - q == 0 && is_price price (best_of side l)
      then done (refresh_best side after)
      else done after
]

abbrev pub dense_levels : LevelOps Ladders
dense_levels = record { add_to_level = add_level; subtract_from_level = subtract_level }

unfoldable pub apply : Event → OrderBook → Exit OrderBook
apply e b = IndexedBook.apply dense_levels e b

-- `best_bid_ ? optional{{*best_bid_, bids_[offset(*best_bid_)]}} : nullopt`; `none` where `offset`
-- throws, `some none` for `nullopt`
unfoldable pub level_at : Side → Option ℕ → Ladders → Option (Option Level)
level_at side none l = some none
level_at side (some price) l = elim (offset price l) [
  | none ↦ none
  | some i ↦ some (some (record { price_ticks = price; quantity = get_or (ladder side l) i 0 }))
]

unfoldable pub best_bid : OrderBook → Option (Option Level)
best_bid b = level_at bid b.levels.best_bid b.levels

unfoldable pub best_ask : OrderBook → Option (Option Level)
best_ask b = level_at ask b.levels.best_ask b.levels

unfoldable pub live_order_count : OrderBook → ℕ
live_order_count b = b.live

unfoldable pub order_index_capacity : OrderBook → ℕ
order_index_capacity b = length b.slots

-- the two loops of `state_digest` over an array
unfoldable pub count_held : List ℕ → ℕ
count_held [] = 0
count_held (q ∷ qs) = if q == 0 then count_held qs else suc (count_held qs)

unfoldable pub hash_held : ℕ → ℕ → List ℕ → ℕ
hash_held hash price [] = hash
hash_held hash price (q ∷ qs) =
    hash_held (if q == 0 then hash else hash_u64 (hash_u64 hash (price % u64_mod)) q) (suc price) qs

unfoldable pub hash_ladder : ℕ → ℕ → List ℕ → ℕ
unfolding count_held hash_held
hash_ladder hash minimum qs = hash_held (hash_u64 hash (count_held qs)) minimum qs

unfoldable pub state_digest : OrderBook → Option ℕ
unfolding hash_ladder
state_digest b =
    let h₀ = hash_u64 fnv_offset_basis b.live in
    let h₁ = hash_ladder h₀ b.levels.minimum_price b.levels.bids in
    let h₂ = hash_ladder h₁ b.levels.minimum_price b.levels.asks in
    hash_orders h₂ (sort_ids (live_ids b.slots)) b.slots
