-- ===== src/Labels.antt =====
-- Labels of a sequence of books: cpp/include/llab/bybit_l2_labels.hpp.
pub mod Horizon
pub mod Directions
mod Tests
use cpp_rust_performance_lab.Common.{
  ℕ, suc, ◌+◌, ◌-◌, ◌%◌, Bool, false, ◌&&◌, Option, none, some, List, [], ◌∷◌, ltb, leb, ◌==◌,
  if◌then◌else◌, u64_mod, length, drop,
}

-- `timestamps[current] < timestamps[current - 1]`, where there is an earlier one
abbrev pub decreases : Option ℕ → ℕ → Bool
decreases none t = false
decreases (some previous) t = ltb t previous

-- the `while` loop: `future` passes the timestamps below the limit
unfoldable pub pass : ℕ → ℕ → List ℕ → ℕ
pass limit future [] = future
pass limit future (t ∷ rest) = if ltb t limit then pass limit (suc future) rest else future

abbrev pub prepend : ℕ → Option (List ℕ) → Option (List ℕ)
prepend r none = none
prepend r (some rs) = some (r ∷ rs)

module _ (timestamps : List ℕ) (horizon_ms : ℕ) where
  -- where `future` comes to stand for the timestamp `t` at `current`
  unfoldable pub future_of : ℕ → ℕ → ℕ → ℕ
  unfolding pass
  future_of current future t =
      let start = if ltb future (current + 1) then current + 1 else future in
      pass ((t + horizon_ms) % u64_mod) start (drop start timestamps)

  -- the `for` loop from `current` on; `none` where it throws `std::invalid_argument`
  unfoldable pub indices_from : ℕ → Option ℕ → ℕ → List ℕ → Option (List ℕ)
  indices_from current previous future [] = some []
  indices_from current previous future (t ∷ rest) =
      let found = future_of current future t in
      if decreases previous t
      then none
      else prepend found (indices_from (suc current) (some t) found rest)

  unfoldable pub first_future_indices : Option (List ℕ)
  unfolding indices_from
  first_future_indices = indices_from 0 none 0 timestamps

pub data Direction : Type 0 where
  up : Direction
  down : Direction
  flat : Direction

-- a difference of two 64-bit numbers, which wraps
abbrev minus : ℕ → ℕ → ℕ
minus a b = (a + u64_mod - b) % u64_mod

-- `none` where it throws `std::invalid_argument`; 1 is up, -1 is down and 0 is flat
unfoldable pub direction_label : ℕ → ℕ → ℕ → Option Direction
direction_label current_mid future_mid threshold =
    if threshold == 0
    then none
    else if leb current_mid future_mid && leb threshold (minus future_mid current_mid)
    then some up
    else if leb future_mid current_mid && leb threshold (minus current_mid future_mid)
    then some down
    else some flat
