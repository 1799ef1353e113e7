-- ===== src/BitmapLevels.antt =====
-- What cpp/src/bitmap_ladder_order_book.cpp, bitmap_packed_order_book.cpp and
-- bitmap_backshift_order_book.cpp have in common, word for word: the levels of a book over 256
-- prices, an array of quantities for each side and a bitmap of the prices that hold one.
pub mod Words
pub mod Marks
pub mod Laws
pub mod Best
use cpp_rust_performance_lab.Common.{
  ℕ, zero, suc, ◌+◌, ◌-◌, ◌*◌, ◌/◌, ◌%◌, ◌^◌, not, ◌||◌, Option, none, some, List, true, false, ltb,
  ◌==◌, if◌then◌else◌, u64_mod, u64_max, set, get_or, replicate, bit_or, bit_and,
}
use cpp_rust_performance_lab.Common.BitAt.{bit_at}
use cpp_rust_performance_lab.Book.{
  Side, bid, ask, Exit, done, raised, invalid_argument, overflow_error, logic_error,
}
use cpp_rust_performance_lab.Book.Ladder.{Level}
use cpp_rust_performance_lab.IndexedBook.{LevelOps}

-- `kPriceCount` and `kBitmapWords`
abbrev pub price_count : ℕ
price_count = 256

abbrev pub bitmap_words : ℕ
bitmap_words = 4

pub record Bitmaps : Type 0 where
  pub bids : List ℕ
  pub asks : List ℕ
  pub bid_occupied : List ℕ
  pub ask_occupied : List ℕ
  pub minimum_price : ℕ

-- the members as a constructor initialises them
abbrev pub no_levels : ℕ → Bitmaps
no_levels minimum = record {
  bids = replicate price_count 0;
  asks = replicate price_count 0;
  bid_occupied = replicate bitmap_words 0;
  ask_occupied = replicate bitmap_words 0;
  minimum_price = minimum;
}

abbrev pub ladder : Side → Bitmaps → List ℕ
ladder bid l = l.bids
ladder ask l = l.asks

abbrev pub set_ladder : Side → List ℕ → Bitmaps → Bitmaps
set_ladder bid qs l = record l { bids = qs }
set_ladder ask qs l = record l { asks = qs }

abbrev pub occupancy : Side → Bitmaps → List ℕ
occupancy bid l = l.bid_occupied
occupancy ask l = l.ask_occupied

abbrev pub set_occupancy : Side → List ℕ → Bitmaps → Bitmaps
set_occupancy bid map l = record l { bid_occupied = map }
set_occupancy ask map l = record l { ask_occupied = map }

-- `none` where it throws
unfoldable pub offset : ℕ → Bitmaps → Option ℕ
offset price l =
    if ltb price l.minimum_price || not (ltb (price - l.minimum_price) price_count)
    then none
    else some (price - l.minimum_price)

-- `map[i / 64] |= 1 << (i % 64)`
unfoldable pub set_bit : ℕ → List ℕ → List ℕ
set_bit i map = set map (i / 64) (bit_or (get_or map (i / 64) 0) (2 ^ (i % 64)))

-- `map[i / 64] &= ~(1 << (i % 64))`
unfoldable pub clear_bit : ℕ → List ℕ → List ℕ
clear_bit i map = set map (i / 64) (bit_and (get_or map (i / 64) 0) (u64_max - 2 ^ (i % 64)))

unfoldable pub add_level : Side → ℕ → ℕ → Bitmaps → Exit Bitmaps
add_level side price q l = elim (offset price l) [
  | none ↦ raised invalid_argument l
  | some i ↦
      let level = get_or (ladder side l) i 0 in
      let map = if level == 0 then set_bit i (occupancy side l) else occupancy side l in
      if ltb (u64_max - level) q
      then raised overflow_error l
      else done (
          set_ladder side (set (ladder side l) i ((level + q) % u64_mod))
            (set_occupancy side map l))
]

unfoldable pub subtract_level : Side → ℕ → ℕ → Bitmaps → Exit Bitmaps
subtract_level side price q l = elim (offset price l) [
  | none ↦ raised invalid_argument l
  | some i ↦
      let level = get_or (ladder side l) i 0 in
      let map = if level - q == 0 then clear_bit i (occupancy side l) else occupancy side l in
      if q == 0 || ltb level q
      then raised logic_error l
      else done (set_ladder side (set (ladder side l) i (level - q)) (set_occupancy side map l))
]

abbrev pub bitmap_levels : LevelOps Bitmaps
bitmap_levels = record { add_to_level = add_level; subtract_from_level = subtract_level }

-- `std::countl_zero`, with the bits left below
unfoldable pub zeros_below : ℕ → ℕ → ℕ
zeros_below zero w = 0
zeros_below (suc k) w = elim (bit_at k w == 0) [ true ↦ suc (zeros_below k w) | false ↦ 0 ]

unfoldable pub countl_zero : ℕ → ℕ
countl_zero w = zeros_below 64 w

-- `std::countr_zero`, with the rounds left, from bit `k` on
unfoldable pub zeros_above : ℕ → ℕ → ℕ → ℕ
zeros_above zero k w = 0
zeros_above (suc rounds) k w = elim (bit_at k w == 0) [
  | true ↦ suc (zeros_above rounds (suc k) w)
  | false ↦ 0
]

unfoldable pub countr_zero : ℕ → ℕ
countr_zero w = zeros_above 64 0 w

-- `for (word = kBitmapWords; word-- > 0;)`: the index of the highest bit below word `word`
unfoldable pub last_index : ℕ → List ℕ → ℕ
last_index zero map = price_count
last_index (suc word) map =
    let bits = get_or map word 0 in
    elim (bits == 0) [ true ↦ last_index word map | false ↦ word * 64 + (63 - countl_zero bits) ]

-- the loop from word `word` up, with the rounds left
unfoldable pub first_index : ℕ → ℕ → List ℕ → ℕ
first_index zero word map = price_count
first_index (suc rounds) word map =
    let bits = get_or map word 0 in
    elim (bits == 0) [
      | true ↦ first_index rounds (suc word) map
      | false ↦ word * 64 + countr_zero bits
    ]

-- the index that the loops of `best` leave, `kPriceCount` where there is none
abbrev pub best_index : Side → Bitmaps → ℕ
best_index bid l = last_index bitmap_words l.bid_occupied
best_index ask l = first_index bitmap_words 0 l.ask_occupied

unfoldable pub best : Side → Bitmaps → Option Level
best side l =
    let index = best_index side l in
    if index == price_count
    then none
    else some (record {
      price_ticks = (l.minimum_price + index) % u64_mod;
      quantity = get_or (ladder side l) index 0;
    })
