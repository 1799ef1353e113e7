-- ===== src/L2Book.antt =====
-- The level-two book of the Bybit feed: cpp/include/llab/bybit_l2_order_book.hpp.
-- A method that changes the book returns its result and the new book.
pub mod Levels
pub mod Changes
pub mod Fits
pub mod Delta
pub mod Apply
pub mod Snapshot
mod Tests
use cpp_rust_performance_lab.Common.{
  ℕ, zero, suc, ◌+◌, ◌-◌, ◌%◌, ◌≡◌, Bool, true, false, not, ◌&&◌, ◌||◌, Option, none, some, List,
  [], ◌∷◌, ltb, leb, ◌==◌, if◌then◌else◌, u64_mod, u64_max, length, get_elem?, take, min, set,
}
use cpp_rust_performance_lab.Book.{Side, bid, ask, same_side}
use cpp_rust_performance_lab.Book.Digest.{fnv_offset_basis, hash_u64}

pub record Level : Type 0 where
  pub price : ℕ
  pub quantity : ℕ

pub record Change : Type 0 where
  pub side : Side
  pub price : ℕ
  pub quantity : ℕ

pub record Book : Type 0 where
  pub bids : List Level
  pub asks : List Level
  pub maximum_levels : ℕ
  pub update_id : ℕ
  pub valid : Bool

-- the constructor
unfoldable pub new : ℕ → Book
new maximum = record {
  bids = [];
  asks = [];
  maximum_levels = maximum;
  update_id = 0;
  valid = false;
}

abbrev pub levels_of : Side → Book → List Level
levels_of bid b = b.bids
levels_of ask b = b.asks

abbrev pub set_levels : Side → List Level → Book → Book
set_levels bid ls b = record b { bids = ls }
set_levels ask ls b = record b { asks = ls }

unfoldable pub invalidate : Book → Bool × Book
invalidate b = (false, record b { bids = []; asks = []; update_id = 0; valid = false })

-- The order of a side: a level at price `p` stands before one at price `q`.
abbrev pub before : Side → ℕ → ℕ → Bool
before bid p q = ltb q p
before ask p q = ltb p q

-- `i &&` and the comparison with `levels[i - 1]`
abbrev pub out_of_order : Side → Option ℕ → ℕ → Bool
out_of_order side none p = false
out_of_order bid (some previous) p = leb previous p
out_of_order ask (some previous) p = leb p previous

-- the loop of `valid_levels` from the level behind `previous` on
unfoldable pub valid_from : Side → Option ℕ → List Level → Bool
valid_from side previous [] = true
valid_from side previous (l ∷ ls) =
    if l.quantity == 0 || out_of_order side previous l.price
    then false
    else valid_from side (some l.price) ls

unfoldable pub valid_levels : List Level → Side → Bool
unfolding valid_from
valid_levels ls side = valid_from side none ls

unfoldable pub apply_snapshot : ℕ → List Level → List Level → Book → Bool × Book
unfolding invalidate
apply_snapshot update_id bids asks b =
    if update_id == 0
      || ltb b.maximum_levels (length bids)
      || ltb b.maximum_levels (length asks)
      || not (valid_levels bids bid)
      || not (valid_levels asks ask)
    then invalidate b
    else (true, record b { bids = bids; asks = asks; update_id = update_id; valid = true })

-- the inner loop of `delta_fits`: an earlier change of the same side and price
unfoldable pub repeated : Change → List Change → Bool
repeated c [] = false
repeated c (e ∷ earlier) = (same_side e.side c.side && e.price == c.price) || repeated c earlier

-- `std::any_of`
unfoldable pub exists : ℕ → List Level → Bool
exists p [] = false
exists p (l ∷ ls) = l.price == p || exists p ls

-- what one change does to the count of its side; `size_t` wraps
unfoldable pub recount : Side → Change → List Level → ℕ → ℕ
unfolding exists
recount side c ls count =
    if same_side c.side side
    then (if c.quantity == 0 && exists c.price ls
        then (count + u64_max) % u64_mod
        else if not (c.quantity == 0) && not (exists c.price ls)
        then (count + 1) % u64_mod
        else count)
    else count

-- the outer loop; `earlier` holds the changes before the present one
unfoldable pub fits_from : List Change → ℕ → ℕ → List Change → Book → Bool
unfolding repeated recount
fits_from earlier bid_count ask_count [] b =
    leb bid_count b.maximum_levels && leb ask_count b.maximum_levels
fits_from earlier bid_count ask_count (c ∷ cs) b =
    if repeated c earlier
    then false
    else fits_from (c ∷ earlier) (recount bid c b.bids bid_count) (recount ask c b.asks ask_count)
        cs b

unfoldable pub delta_fits : List Change → Book → Bool
delta_fits changes b = fits_from [] (length b.bids) (length b.asks) changes b

-- `std::lower_bound`: how many levels stand before the price
unfoldable pub lower_bound : Side → ℕ → List Level → ℕ
lower_bound side p [] = 0
lower_bound side p (l ∷ ls) = if before side l.price p then suc (lower_bound side p ls) else 0

unfoldable pub erase_at : ℕ → List Level → List Level
erase_at i [] = []
erase_at zero (l ∷ ls) = ls
erase_at (suc i) (l ∷ ls) = l ∷ erase_at i ls

unfoldable pub insert_at : ℕ → Level → List Level → List Level
insert_at zero v ls = v ∷ ls
insert_at (suc i) v [] = v ∷ []
insert_at (suc i) v (l ∷ ls) = l ∷ insert_at i v ls

-- `before != levels.end() && before->price == change.price`
abbrev pub is_at : ℕ → Option Level → Bool
is_at p none = false
is_at p (some l) = l.price == p

-- `apply_change` on the levels of its side, which may hold `maximum`
unfoldable pub change_levels : ℕ → Change → List Level → Bool × List Level
unfolding lower_bound erase_at insert_at
change_levels maximum c ls =
    let i = lower_bound c.side c.price ls in
    if is_at c.price (get_elem? ls i)
    then (
      true,
      if c.quantity == 0
          then erase_at i ls
          else set ls i (record { price = c.price; quantity = c.quantity }),
    )
    else if c.quantity == 0
    then (true, ls)
    else if length ls == maximum
    then (false, ls)
    else (true, insert_at i (record { price = c.price; quantity = c.quantity }) ls)

unfoldable pub apply_change : Change → Book → Bool × Book
apply_change c b =
    let (done, ls) = change_levels b.maximum_levels c (levels_of c.side b) in
    (done, set_levels c.side ls b)

-- One of the two loops of `apply_delta`: the changes to zero, or the others. `false` where
-- `apply_change` failed.
unfoldable pub change_all : Bool → List Change → Book → Bool × Book
change_all zeros [] b = (true, b)
change_all zeros (c ∷ cs) b =
    let (done, b') =
      if c.quantity == 0
      then (if zeros then apply_change c b else (true, b))
      else (if zeros then (true, b) else apply_change c b) in
    let rest = change_all zeros cs b' in if done then rest else (false, b')

unfoldable pub apply_delta : ℕ → List Change → Book → Bool × Book
apply_delta update_id changes b =
    if not b.valid
      || b.update_id == u64_max
      || not (update_id == b.update_id + 1)
      || not (delta_fits changes b)
    then invalidate b
    else (let (removed, b₁) = change_all true changes b in
        let (placed, b₂) = change_all false changes b₁ in
        if not removed
        then invalidate b₁
        else if not placed
        then invalidate b₂
        else (true, record b₂ { update_id = update_id }))

abbrev pub front : List Level → Option Level
front [] = none
front (l ∷ ls) = some l

unfoldable pub best_bid : Book → Option Level
best_bid b = if b.valid then front b.bids else none

unfoldable pub best_ask : Book → Option Level
best_ask b = if b.valid then front b.asks else none

unfoldable pub level_count : Book → ℕ
level_count b = length b.bids + length b.asks

unfoldable pub top_levels : Side → ℕ → Book → List Level
top_levels side maximum b =
    if b.valid then take (min maximum (length (levels_of side b))) (levels_of side b) else []

unfoldable pub sum_quantities : ℕ → List Level → ℕ
sum_quantities total [] = total
sum_quantities total (l ∷ ls) = sum_quantities ((total + l.quantity) % u64_mod) ls

unfoldable pub depth_quantity : Side → ℕ → Book → ℕ
unfolding sum_quantities
depth_quantity side depth b =
    sum_quantities 0 (take (min depth (length (levels_of side b))) (levels_of side b))

unfoldable pub hash_levels : ℕ → List Level → ℕ
hash_levels hash [] = hash
hash_levels hash (l ∷ ls) = hash_levels (hash_u64 (hash_u64 hash l.price) l.quantity) ls

unfoldable pub state_digest : Book → ℕ
unfolding hash_levels
state_digest b =
    let h = hash_levels (hash_u64 fnv_offset_basis (length b.bids)) b.bids in
    hash_levels (hash_u64 h (length b.asks)) b.asks
