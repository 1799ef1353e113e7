-- ===== src/FeedRecovery/Tests.antt =====
-- cpp/include/llab/feed_sequence_recovery.hpp: a recovery with and without a gap, and the theorems
-- at these runs.
use cpp_rust_performance_lab.Common.{
  ℕ, ◌+◌, ◌≤◌, ◌≡◌, ◌⊎◌, refl, arith, true, false, List, [], ◌∷◌, ◌++◌, length, ltb, if◌then◌else◌,
  Bool-cases, inl, inr,
}
use mathlib.Core.List.{Perm}
use mathlib.Core.List.Perm
use cpp_rust_performance_lab.FeedRecovery.{
  Buffered, Recovery, live, awaiting_snapshot, snapshotting, new, begin_snapshot, on_incremental,
  finish_snapshot, skip_below, check, emit,
}
use cpp_rust_performance_lab.FeedRecovery.Replay.{first_with, IsSorted, Complete, Broken}
use cpp_rust_performance_lab.FeedRecovery.Sorting.{Sorts, Drawn}
use cpp_rust_performance_lab.FeedRecovery.Contract.{
  IsValid, Stepped, on_incremental_lem, finish_snapshot_lem,
}

-- one sort by the sequence number, by insertion
unfoldable insert_sorted : Buffered ℕ → List (Buffered ℕ) → List (Buffered ℕ)
insert_sorted b [] = b ∷ []
insert_sorted b (c ∷ cs) =
    let rest = insert_sorted b cs in if ltb c.sequence b.sequence then c ∷ rest else b ∷ c ∷ cs

unfoldable insertion_sort : List (Buffered ℕ) → List (Buffered ℕ)
unfolding insert_sorted
insertion_sort [] = []
insertion_sort (b ∷ bs) = insert_sorted b (insertion_sort bs)

insert_sorted-IsSorted :
    (b : Buffered ℕ) (m : ℕ) (bs : List (Buffered ℕ))
    → IsSorted m bs
    → m ≤ b.sequence
    → IsSorted m (insert_sorted b bs)
unfolding insert_sorted
insert_sorted-IsSorted b m [] s h = (h, tt)
insert_sorted-IsSorted b m (c ∷ cs) s h = ground (arith, insert_sorted-IsSorted b c.sequence cs)

insert_sorted-perm : (b : Buffered ℕ) (bs : List (Buffered ℕ)) → Perm (insert_sorted b bs) (b ∷ bs)
unfolding insert_sorted
insert_sorted-perm b [] = Perm.refl (b ∷ [])
insert_sorted-perm b (c ∷ cs) = elim (Bool-cases (ltb c.sequence b.sequence)) [
  | inl after ↦ rw after (Perm.trans (Perm.cons c (insert_sorted-perm b cs)) (Perm.swap b c cs))
  | inr before ↦ rw before (Perm.refl (b ∷ c ∷ cs))
]

insertion_sort-IsSorted : (bs : List (Buffered ℕ)) → IsSorted 0 (insertion_sort bs)
unfolding insertion_sort
insertion_sort-IsSorted [] = tt
insertion_sort-IsSorted (b ∷ bs) =
    insert_sorted-IsSorted b 0 (insertion_sort bs) (insertion_sort-IsSorted bs) (omega arith)

insertion_sort-perm : (bs : List (Buffered ℕ)) → Perm (insertion_sort bs) bs
unfolding insertion_sort
insertion_sort-perm [] = Perm.refl []
insertion_sort-perm (b ∷ bs) =
    Perm.trans (insert_sorted-perm b (insertion_sort bs)) (Perm.cons b (insertion_sort-perm bs))

insertion_sort-Sorts : Sorts insertion_sort
insertion_sort-Sorts = record { sorted = insertion_sort-IsSorted; perm = insertion_sort-perm }

program : Unit {0}
unfolding new begin_snapshot on_incremental finish_snapshot insertion_sort skip_below check emit
    first_with
program = tt

abbrev entry : ℕ → ℕ → Buffered ℕ
entry n e = record { sequence = n; event = e }

-- 7 and 6 wait behind the snapshot at 5, 6 twice.
abbrev waiting : Recovery ℕ
waiting = record {
  replay = entry 7 70 ∷ entry 6 60 ∷ entry 6 61 ∷ [];
  capacity = 4;
  state = snapshotting;
  expected = 0;
  snapshot_last = 5;
}

buffered_in_turn :
    (on_incremental 6 61 []
      (on_incremental 6 60 [] (on_incremental 7 70 [] (begin_snapshot 5 (new 4))).2).2).2
    ≡ waiting
unfolding program
buffered_in_turn = refl

finished :
    finish_snapshot insertion_sort (1 ∷ []) waiting
    ≡ (true, 1 ∷ 60 ∷ 70 ∷ [], record waiting { replay = []; expected = 8; state = live })
unfolding program
finished = refl

waiting-IsValid : IsValid waiting
unfolding first_with
waiting-IsValid = record { room = omega arith; newer = λ h n k. ground arith }

on_incremental_lem_example : Stepped 8 80 [] waiting (on_incremental 8 80 [] waiting)
on_incremental_lem_example = on_incremental_lem 8 80 [] waiting waiting-IsValid

finish_snapshot_lem_example :
    ((es : List ℕ) × Complete 6 (length es) waiting.replay
      × Drawn 6 es waiting.replay
      × (finish_snapshot insertion_sort [] waiting ≡ (
        true,
        [] ++ es,
        record waiting { replay = []; expected = 6 + length es; state = live },
      )))
    ⊎ (Broken 6 waiting.replay
        × (finish_snapshot insertion_sort [] waiting
            ≡ (false, [], record waiting { replay = []; state = awaiting_snapshot })))
finish_snapshot_lem_example =
    finish_snapshot_lem insertion_sort insertion_sort-Sorts [] waiting refl (omega arith)
