-- ===== src/FeedRecovery.antt =====
-- The recovery of a sequenced feed: cpp/include/llab/feed_sequence_recovery.hpp, over any type of
-- events. The vector `ready`, to which a call appends, is an argument and a result, and the library's
-- sort an argument.
pub mod Replay
pub mod Sorting
pub mod Contract
mod Tests
use cpp_rust_performance_lab.Common.{
  ℕ, ◌+◌, ◌%◌, Bool, true, false, Option, none, some, List, [], ◌∷◌, ◌++◌, ltb, leb, ◌==◌,
  if◌then◌else◌, u64_mod, length,
}

pub data State : Type 0 where
  live awaiting_snapshot snapshotting : State

pub data IncrementalResult : Type 0 where
  apply ignore_stale gap buffered buffer_full : IncrementalResult

pub record Buffered {ℓ} (E : Type ℓ) : Type ℓ where
  pub sequence : ℕ
  pub event : E

-- `replay` is the used part of the vector `replay_`, whose first `replay_size_` entries alone are
-- read; `capacity` is the size of the vector.
pub record Recovery {ℓ} (E : Type ℓ) : Type ℓ where
  pub replay : List (Buffered E)
  pub capacity : ℕ
  pub state : State
  pub expected : ℕ
  pub snapshot_last : ℕ

module _ {ℓ} {E : Type ℓ} where
  unfoldable pub new : ℕ → Recovery E
  new maximum = record {
    replay = [];
    capacity = maximum;
    state = awaiting_snapshot;
    expected = 0;
    snapshot_last = 0;
  }

  unfoldable pub expected_sequence : Recovery E → Option ℕ
  expected_sequence r = elim r.state [ live ↦ some r.expected | _ ↦ none ]

  -- the branch of `on_incremental` for each state
  unfoldable pub incremental_in :
      State → ℕ → E → List E → Recovery E → IncrementalResult × List E × Recovery E
  incremental_in awaiting_snapshot sequence event ready r = (gap, ready, r)
  incremental_in snapshotting sequence event ready r =
      if leb sequence r.snapshot_last
      then (ignore_stale, ready, r)
      else if length r.replay == r.capacity
      then (buffer_full, ready, record r { state = awaiting_snapshot })
      else (
        buffered,
        ready,
        record r { replay = r.replay ++ (record { sequence = sequence; event = event } ∷ []) },
      )
  incremental_in live sequence event ready r =
      if ltb sequence r.expected
      then (ignore_stale, ready, r)
      else if ltb r.expected sequence
      then (gap, ready, record r { state = awaiting_snapshot })
      else (apply, ready ++ (event ∷ []), record r { expected = (r.expected + 1) % u64_mod })

  unfoldable pub on_incremental :
      ℕ → E → List E → Recovery E → IncrementalResult × List E × Recovery E
  unfolding incremental_in
  on_incremental sequence event ready r = incremental_in r.state sequence event ready r

  unfoldable pub begin_snapshot : ℕ → Recovery E → Recovery E
  begin_snapshot last_sequence r = record r {
    state = snapshotting;
    snapshot_last = last_sequence;
    replay = [];
  }

  -- the loop that advances `first`
  unfoldable pub skip_below : ℕ → List (Buffered E) → List (Buffered E)
  skip_below expected [] = []
  skip_below expected (b ∷ bs) = if ltb b.sequence expected then skip_below expected bs else b ∷ bs

  -- the loop that looks for a gap: the next number, `none` at a gap
  unfoldable pub check : ℕ → List (Buffered E) → Option ℕ
  check next [] = some next
  check next (b ∷ bs) =
      if ltb next b.sequence
      then none
      else check (if ltb b.sequence next then next else (next + 1) % u64_mod) bs

  -- the loop that emits
  unfoldable pub emit : ℕ → List E → List (Buffered E) → List E
  emit sequence ready [] = ready
  emit sequence ready (b ∷ bs) =
      emit (if b.sequence == sequence then (sequence + 1) % u64_mod else sequence)
        (if b.sequence == sequence then ready ++ (b.event ∷ []) else ready) bs

  unfoldable pub finish_from : List (Buffered E) → List E → Recovery E → Bool × List E × Recovery E
  finish_from sorted ready r =
      let expected = (r.snapshot_last + 1) % u64_mod in
      let rest = skip_below expected sorted in
      elim (check expected rest) [
        | none ↦ (false, ready, record r { state = awaiting_snapshot; replay = [] })
        | some next ↦ (
          true,
          emit expected ready rest,
          record r { replay = []; expected = next; state = live },
        )
      ]

  -- `sort` is `std::sort` by the sequence number, which leaves entries with one number in an order
  -- of its own.
  unfoldable pub finish_in :
      (List (Buffered E) → List (Buffered E))
      → State
      → List E
      → Recovery E
      → Bool × List E × Recovery E
  finish_in sort snapshotting ready r = finish_from (sort r.replay) ready r
  finish_in sort live ready r = (false, ready, r)
  finish_in sort awaiting_snapshot ready r = (false, ready, r)

  unfoldable pub finish_snapshot :
      (List (Buffered E) → List (Buffered E)) → List E → Recovery E → Bool × List E × Recovery E
  unfolding finish_in finish_from
  finish_snapshot sort ready r = finish_in sort r.state ready r
