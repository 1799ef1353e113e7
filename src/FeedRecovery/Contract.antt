-- ===== src/FeedRecovery/Contract.antt =====
-- cpp/include/llab/feed_sequence_recovery.hpp: when a snapshot is finished, what is then emitted,
-- and which incremental messages are applied.
use cpp_rust_performance_lab.Common.{
  ℕ, ◌+◌, ◌%◌, ◌≤◌, ◌<◌, ◌≡◌, ◌↔◌, ◌≢◌, ◌⊎◌, inl, inr, refl, ap, ◌∙◌, true, false, some, none, List,
  [], ◌∷◌, ◌++◌, ltb, leb, ◌==◌, u64_mod, length, length-append, arith, Bool-cases,
}
use mathlib.Core.Path.{subst}
use mathlib.Core.List.{Mem}
use mathlib.Core.List.Perm
use cpp_rust_performance_lab.FeedRecovery.{
  Buffered, Recovery, State, live, awaiting_snapshot, snapshotting, IncrementalResult, apply,
  ignore_stale, gap, buffered, buffer_full, incremental_in, skip_below, check, emit, on_incremental,
  finish_snapshot,
}
use cpp_rust_performance_lab.FeedRecovery.Replay.{
  first_with, is_some, has, collect, Complete, Broken, check_lem, emit_lem, first_with-skip_below,
  skip_below-IsSorted, length-skip_below,
}
use cpp_rust_performance_lab.FeedRecovery.Sorting.{
  Sorts, has-perm, length-perm, mem-skip_below, Drawn, Drawn-mono, collect-Drawn,
}

-- the state that a result leaves
abbrev pub state_after : IncrementalResult → State → State
state_after gap s = awaiting_snapshot
state_after buffer_full s = awaiting_snapshot
state_after _ s = s

module _ {ℓ} {E : Type ℓ} (sort : List (Buffered E) → List (Buffered E)) (sorts : Sorts sort) where
  -- the numbers that the loops of `finish_snapshot` see are those that arrived
  same_numbers :
      (e n : ℕ) (bs : List (Buffered E)) → e ≤ n → has n (skip_below e (sort bs)) ≡ has n bs
  same_numbers e n bs h =
      ap is_some (first_with-skip_below e n (sort bs) h) ∙ has-perm n (sort bs) bs (sorts.perm bs)

  seen_arrived :
      (e : ℕ) (bs : List (Buffered E)) (b : Buffered E) → Mem b (skip_below e (sort bs)) → Mem b bs
  seen_arrived e bs b m = (Perm.mem_iff (sorts.perm bs)).0 (mem-skip_below e b (sort bs) m)

  module _ (ready : List E) (r : Recovery E) where
    finish_found :
        (next : ℕ)
        → r.state ≡ snapshotting
        → r.snapshot_last + 1 < u64_mod
        → check (r.snapshot_last + 1) (skip_below (r.snapshot_last + 1) (sort r.replay)) ≡ some next
        → finish_snapshot sort ready r ≡ (
          true,
          emit (r.snapshot_last + 1) ready (skip_below (r.snapshot_last + 1) (sort r.replay)),
          record r { replay = []; expected = next; state = live },
        )
    unfolding finish_snapshot
    finish_found next st small e = ground arith

    finish_gap :
        r.state ≡ snapshotting
        → r.snapshot_last + 1 < u64_mod
        → check (r.snapshot_last + 1) (skip_below (r.snapshot_last + 1) (sort r.replay)) ≡ none
        → finish_snapshot sort ready r
          ≡ (false, ready, record r { replay = []; state = awaiting_snapshot })
    unfolding finish_snapshot
    finish_gap st small e = ground arith

  -- `finish_snapshot` while a snapshot is taken, where the numbers do not pass 64 bits, for any sort
  -- by the sequence number. If the buffered numbers above the snapshot's last are consecutive from it
  -- on, it returns true, appends in their order one event for each, which was buffered under that
  -- number, and is live with the next number expected. If one is missing below a buffered one, it
  -- returns false, appends nothing and awaits a snapshot. The buffer is empty after it.
  pub finish_snapshot_lem :
      (ready : List E) (r : Recovery E)
      → r.state ≡ snapshotting
      → r.snapshot_last + 1 + length r.replay < u64_mod
      → let first = r.snapshot_last + 1 in
        ((es : List E) × Complete first (length es) r.replay
          × Drawn first es r.replay
          × (finish_snapshot sort ready r ≡ (
            true,
            ready ++ es,
            record r { replay = []; expected = first + length es; state = live },
          )))
        ⊎ (Broken first r.replay
            × (finish_snapshot sort ready r
                ≡ (false, ready, record r { replay = []; state = awaiting_snapshot })))
  finish_snapshot_lem ready r st small =
      let first = r.snapshot_last + 1 in
      let rest = skip_below first (sort r.replay) in
      let sorted = skip_below-IsSorted first 0 (sort r.replay) (sorts.sorted r.replay) in
      let short : first + length rest < u64_mod = omega (
        arith,
        length-skip_below first (sort r.replay),
        length-perm (sort r.replay) r.replay (sorts.perm r.replay),
      ) in
      elim (check_lem first 0 rest sorted short) [
        | inl (k, e, c) ↦
            let es = collect k first rest in
            let (count, drawn) = collect-Drawn k first rest c.0 in
            let complete : Complete first k r.replay = (
              (λ i p q. rw (← same_numbers first i r.replay p) (c.0 i p q)),
              λ i p. rw (← same_numbers first i r.replay (omega arith)) (c.1 i p),
            ) in
            inl (
              es,
              rw count complete,
              Drawn-mono first es rest r.replay (seen_arrived first r.replay) drawn,
              rw count (
                  ground (
                    arith,
                    finish_found ready r (first + k) st (omega arith) e,
                    emit_lem first k 0 ready rest sorted short c,
                  )),
            )
        | inr (e, (g, i, p, q, x, y)) ↦ inr (
          (
            g,
            i,
            p,
            q,
            rw (← same_numbers first g r.replay p) x,
            rw (← same_numbers first i r.replay (omega arith)) y,
          ),
          finish_gap ready r st (omega arith) e,
        )
      ]

module _ {ℓ} {E : Type ℓ} where
  -- The buffer is within the vector, and holds nothing that the snapshot has.
  pub record IsValid (r : Recovery E) : Type 0 where
    pub room : length r.replay ≤ r.capacity
    pub newer : r.state ≡ snapshotting → (n : ℕ) → n ≤ r.snapshot_last → has n r.replay ≡ false

  has-append :
      (n : ℕ) (b : Buffered E) (bs : List (Buffered E))
      → (b.sequence == n) ≡ false
      → has n bs ≡ false
      → has n (bs ++ (b ∷ [])) ≡ false
  unfolding first_with
  has-append n b [] h k = ground arith
  has-append n b (c ∷ cs) h k = ground (arith, has-append n b cs)

  abbrev pub appended : IncrementalResult → E → List E → List E
  appended apply event ready = ready ++ (event ∷ [])
  appended _ event ready = ready

  -- what the buffer and the expected number become
  abbrev pub buffer_after : IncrementalResult → ℕ → E → Recovery E → List (Buffered E)
  buffer_after buffered sequence event r =
      r.replay ++ (record { sequence = sequence; event = event } ∷ [])
  buffer_after _ sequence event r = r.replay

  abbrev pub expected_after : IncrementalResult → Recovery E → ℕ
  expected_after apply r = (r.expected + 1) % u64_mod
  expected_after _ r = r.expected

  -- when a call answers so
  abbrev pub Answers : IncrementalResult → ℕ → Recovery E → Type 0
  Answers apply sequence r = (r.state ≡ live) × (sequence ≡ r.expected)
  Answers ignore_stale sequence r =
      ((r.state ≡ live) × (sequence < r.expected))
      ⊎ ((r.state ≡ snapshotting) × (sequence ≤ r.snapshot_last))
  Answers gap sequence r =
      (r.state ≡ awaiting_snapshot) ⊎ ((r.state ≡ live) × (r.expected < sequence))
  Answers buffered sequence r =
      (r.state ≡ snapshotting) × (r.snapshot_last < sequence) × (length r.replay < r.capacity)
  Answers buffer_full sequence r =
      (r.state ≡ snapshotting) × (r.snapshot_last < sequence) × (length r.replay ≡ r.capacity)

  -- What a call must have answered and done. No two of the conditions of `Answers` hold at once.
  abbrev pub Stepped :
      ℕ → E → List E → Recovery E → IncrementalResult × List E × Recovery E → Type ℓ
  Stepped sequence event ready r (res, ready', r') =
      IsValid r'
      × ((a : IncrementalResult) → (res ≡ a) ↔ Answers a sequence r)
      × (ready' ≡ appended res event ready)
      × (r' ≡ record r {
        replay = buffer_after res sequence event r;
        state = state_after res r.state;
        expected = expected_after res r;
      })

  module _ (sequence : ℕ) (event : E) (ready : List E) (r : Recovery E) (v : IsValid r) where
    -- The conditions exclude each other.
    Answers-once :
        (res a : IncrementalResult) → Answers res sequence r → Answers a sequence r → res ≡ a
    Answers-once apply apply p q = refl
    Answers-once apply ignore_stale p q = absurd (ground arith)
    Answers-once apply gap p q = absurd (ground arith)
    Answers-once apply buffered p q = absurd (ground arith)
    Answers-once apply buffer_full p q = absurd (ground arith)
    Answers-once ignore_stale apply p q = absurd (ground arith)
    Answers-once ignore_stale ignore_stale p q = refl
    Answers-once ignore_stale gap p q = absurd (ground arith)
    Answers-once ignore_stale buffered p q = absurd (ground arith)
    Answers-once ignore_stale buffer_full p q = absurd (ground arith)
    Answers-once gap apply p q = absurd (ground arith)
    Answers-once gap ignore_stale p q = absurd (ground arith)
    Answers-once gap gap p q = refl
    Answers-once gap buffered p q = absurd (ground arith)
    Answers-once gap buffer_full p q = absurd (ground arith)
    Answers-once buffered apply p q = absurd (ground arith)
    Answers-once buffered ignore_stale p q = absurd (ground arith)
    Answers-once buffered gap p q = absurd (ground arith)
    Answers-once buffered buffered p q = refl
    Answers-once buffered buffer_full p q = absurd (ground arith)
    Answers-once buffer_full apply p q = absurd (ground arith)
    Answers-once buffer_full ignore_stale p q = absurd (ground arith)
    Answers-once buffer_full gap p q = absurd (ground arith)
    Answers-once buffer_full buffered p q = absurd (ground arith)
    Answers-once buffer_full buffer_full p q = refl

    -- A call whose answer has its condition.
    answered :
        (res : IncrementalResult) (ready' : List E) (r' : Recovery E)
        → Answers res sequence r
        → IsValid r'
        → ready' ≡ appended res event ready
        → r' ≡ record r {
          replay = buffer_after res sequence event r;
          state = state_after res r.state;
          expected = expected_after res r;
        }
        → Stepped sequence event ready r (res, ready', r')
    answered res ready' r' why valid out effect = (
      valid,
      λ a. (
        (λ e. subst (λ (x : IncrementalResult). Answers x sequence r) e why),
        λ other. Answers-once res a why other,
      ),
      out,
      effect,
    )

    -- the state set to what it was
    state_is : (s : State) → r.state ≡ s → r ≡ record r { state = s }
    state_is s e = λ i. record r { state = e i }

    kept-IsValid :
        (s : State) → (s ≡ snapshotting → r.state ≡ snapshotting) → IsValid (record r { state = s })
    kept-IsValid s back = record { room = v.room; newer = λ h n k. v.newer (back h) n k }

    buffered-IsValid :
        r.state ≡ snapshotting
        → length r.replay ≢ r.capacity
        → r.snapshot_last < sequence
        → IsValid
            (record r { replay = r.replay ++ (record { sequence = sequence; event = event } ∷ []) })
    buffered-IsValid st room late =
        let b : Buffered E = record { sequence = sequence; event = event } in
        record {
          room = omega (arith, v.room, length-append r.replay (b ∷ []));
          newer = λ h n k. has-append n b r.replay (ground arith) (v.newer h n k);
        }

    Stepped-in :
        (s : State)
        → r.state ≡ s
        → Stepped sequence event ready r (incremental_in s sequence event ready r)
    unfolding incremental_in
    Stepped-in awaiting_snapshot e =
        answered gap ready r (inl e) v refl (state_is awaiting_snapshot e)
    Stepped-in snapshotting e = elim (Bool-cases (leb sequence r.snapshot_last)) [
      | inl old ↦ rw old (answered ignore_stale ready r (inr (e, ground arith)) v refl refl)
      | inr new ↦ elim (Bool-cases (length r.replay == r.capacity)) [
        | inl full ↦
            rw (new, full)
              (answered buffer_full ready (record r { state = awaiting_snapshot })
                (e, ground arith, ground arith) (kept-IsValid awaiting_snapshot (λ h. cc)) refl
                refl)
        | inr free ↦
            let b : Buffered E = record { sequence = sequence; event = event } in
            let other : length r.replay ≢ r.capacity = ground arith in
            rw (new, free)
              (answered buffered ready (record r { replay = r.replay ++ (b ∷ []) })
                (e, ground arith, omega (arith, v.room, other))
                (buffered-IsValid e other (ground arith)) refl refl)
      ]
    ]
    Stepped-in live e = elim (Bool-cases (ltb sequence r.expected)) [
      | inl old ↦ rw old (answered ignore_stale ready r (inl (e, ground arith)) v refl refl)
      | inr new ↦ elim (Bool-cases (ltb r.expected sequence)) [
        | inl far ↦
            rw (new, far)
              (answered gap ready (record r { state = awaiting_snapshot }) (inr (e, ground arith))
                (kept-IsValid awaiting_snapshot (λ h. cc)) refl refl)
        | inr next ↦
            rw (new, next)
              (answered apply (ready ++ (event ∷ []))
                (record r { expected = (r.expected + 1) % u64_mod }) (e, ground arith)
                (record { room = v.room; newer = v.newer }) refl refl)
      ]
    ]

    -- `on_incremental` keeps the buffer within its vector and above the snapshot. It applies a message
    -- exactly in the live state at the expected number; it ignores one exactly below the expected
    -- number or not above the snapshot; it reports a gap exactly while a snapshot is awaited, or live
    -- above the expected number; and while a snapshot is taken, it buffers any other message exactly
    -- where the vector has room, and reports it full where not. Applying appends the event and moves
    -- to the next number, buffering appends the entry, a gap and a full buffer await a new snapshot,
    -- and nothing else changes.
    pub on_incremental_lem : Stepped sequence event ready r (on_incremental sequence event ready r)
    unfolding on_incremental
    on_incremental_lem = Stepped-in r.state refl
