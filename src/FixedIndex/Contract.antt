-- ===== src/FixedIndex/Contract.antt =====
-- cpp/include/llab/fixed_order_index.hpp: what `erase`, and a write through the pointer that `find`
-- returns, do to the map that the index stands for.
use cpp_rust_performance_lab.Common.{
  ℕ, suc, ◌+◌, ◌%◌, ◌<◌, ◌≡◌, ◌≢◌, ◌↔◌, inl, inr, refl, sym, ap, ◌∙◌, true, false, Option, none,
  some, List, ◌==◌, if◌then◌else◌, length, arith, ℕ_discrete, u64_mod, u64_max,
}
use cpp_rust_performance_lab.ProbeTable.Trail.{step, step_lt, gap, gap_zero, gap_lt, gap_self}
use cpp_rust_performance_lab.FixedIndex.{
  Slot, FixedIndex, entry_at, find_slot, find, entries, erase_at, erase,
}
use cpp_rust_performance_lab.FixedIndex.Ring.{advance_lem, gap-next, n_small}
use cpp_rust_performance_lab.FixedIndex.Search.{IsIndex, entry_lt, find_slot-cases}
use cpp_rust_performance_lab.FixedIndex.Shift.{IsHole, Besides, Within}
use cpp_rust_performance_lab.FixedIndex.Loop.{Shifted, shift_back_lem}
use cpp_rust_performance_lab.FixedIndex.View.{
  IsTable, option_ext, find_absent, find-Within, entries_le,
}

module _ {V : Type 0} where
  -- An entry to erase is a hole.
  opened :
      (slots : List (Slot V)) (i id : ℕ) (v : V)
      → IsIndex slots
      → entry_at slots i ≡ some (id, v)
      → IsHole slots i (step (length slots) i)
  opened slots i id v good e =
      let n = length slots in
      let lt = entry_lt slots i id v e in
      let apart : i ≢ good.free.0 = λ q.
        (let both : ◌≡◌ {A = Option (ℕ × V)} (some (id, v)) none =
            sym e ∙ ap (entry_at slots) q ∙ good.free.2 in
          absurd cc) in
      let many : 1 < n = omega (arith, good.free.1) in
      let ahead : gap n i (step n i) ≡ 1 =
        gap-next n i i lt lt (omega (arith, gap_self n i)) ∙ ap suc (gap_self n i) in
      record {
        power = good.power;
        hole_lt = lt;
        next_lt = step_lt n i lt;
        behind = omega (arith, ahead);
        filled = λ j lj near gone.
            (let at : i ≡ j = gap_zero n i j lt (omega (arith, ahead)) in
              let both : ◌≡◌ {A = Option (ℕ × V)} (some (id, v)) none =
                sym e ∙ ap (entry_at slots) at ∙ gone in
              absurd cc);
        reach = λ k key x ne f. good.reach k key x f;
        clear = λ k key x ne f near. absurd (ne (sym (gap_zero n i k lt (omega (arith, ahead)))));
        unique = λ k l key x y nk nl f g. good.unique k l key x y f g;
        nonzero = λ k key x ne f. good.nonzero k key x f;
        free = good.free;
      }

  -- what an erasure of `id` leaves
  abbrev pub without : ℕ → ℕ → FixedIndex V → Option V
  without id j t = if j == id then none else find j t

  pub record IsErased (id : ℕ) (t u : FixedIndex V) : Type 0 where
    pub table : IsTable u
    pub found : (j : ℕ) → find j u ≡ without id j t
    pub maximum : u.maximum_live_entries ≡ t.maximum_live_entries
    pub size : find id t ≢ none → u.size + 1 ≡ t.size

  module _ (t : FixedIndex V) (good : IsTable t) (id : ℕ) where
    erase_missing : find_slot id t.slots ≡ length t.slots → erase id t ≡ some (none, t)
    unfolding erase
    erase_missing missed =
        let self : (length t.slots == length t.slots) ≡ true = ground arith in
        rw (missed, self) refl

    abbrev emptied : List (Slot V) → FixedIndex V
    emptied slots = record t { slots = slots; size = (t.size + u64_max) % u64_mod }

    erase_found :
        (slots : List (Slot V))
        → find_slot id t.slots < length t.slots
        → erase_at (find_slot id t.slots) t.slots ≡ some slots
        → erase id t ≡ some (find id t, emptied slots)
    unfolding erase find
    erase_found slots lt run =
        let other : (find_slot id t.slots == length t.slots) ≡ false = ground arith in
        rw (other, run) refl

    erase_at_lem :
        (i : ℕ) (v : V)
        → entry_at t.slots i ≡ some (id, v)
        → (out : List (Slot V)) × (erase_at i t.slots ≡ some out) × Shifted t.slots i out
    unfolding erase_at
    erase_at_lem i v e =
        let n = length t.slots in
        let lt = entry_lt t.slots i id v e in
        rw (advance_lem n good.index.power i lt) (
          shift_back_lem n t.slots i (step n i) good.index.free.0
            (opened t.slots i id v good.index e) good.index.free.1 good.index.free.2
            (gap_lt n (step n i) good.index.free.0 (step_lt n i lt) good.index.free.1))

    -- The entry at the hole is the one of `id`.
    besides :
        (i : ℕ) (v : V)
        → entry_at t.slots i ≡ some (id, v)
        → (j : ℕ) (x : V) → Besides t.slots i j x ↔ ((j ≢ id) × Within t.slots j x)
    besides i v e j x = (
      λ b. (
        (λ same. b.1 (good.index.unique b.0 i id x v (b.2 ∙ ap (λ (k : ℕ). some (k, x)) same) e)),
        (b.0, b.2),
      ),
      λ b. (
        b.1.0,
        (λ at.
            (let both : ◌≡◌ {A = Option (ℕ × V)} (some (id, v)) (some (j, x)) =
                sym e ∙ ap (entry_at t.slots) (sym at) ∙ b.1.1 in
              absurd (b.0 cc))),
        b.1.1,
      ),
    )

    emptied-IsErased :
        (i : ℕ) (v : V) (out : List (Slot V))
        → entry_at t.slots i ≡ some (id, v)
        → Shifted t.slots i out
        → IsErased id t (emptied out)
    emptied-IsErased i v out e shifted =
        let less : (t.size + u64_max) % u64_mod ≡ length (entries out) = omega (
          arith,
          good.counted,
          shifted.count,
          entries_le t.slots,
          n_small (length t.slots) good.index.power,
        ) in
        record {
          table = record {
            index = shifted.index;
            counted = less;
            size_le = omega (arith, less, good.counted, good.size_le, shifted.count);
            roomy = omega (arith, shifted.size, good.roomy);
            eight_le = omega (arith, shifted.size, good.eight_le);
          };
          maximum = refl;
          size = λ there. omega (arith, less, shifted.count, good.counted);
          found = λ j. elim (ℕ_discrete j id) [
            | yes same ↦
                let self : (j == id) ≡ true = ground arith in
                rw self (
                  option_ext (find j (emptied out)) none (λ x. (
                    λ f.
                        (let b =
                            (shifted.same j x).1
                              ((find-Within (emptied out) shifted.index j x).0 f) in
                          absurd (((besides i v e j x).0 b).0 same)),
                    λ f. absurd cc,
                  )))
            | no ne ↦
                let other : (j == id) ≡ false = ground arith in
                rw other (
                  option_ext (find j (emptied out)) (find j t) (λ x. (
                    λ f.
                        (let b =
                            (shifted.same j x).1
                              ((find-Within (emptied out) shifted.index j x).0 f) in
                          (find-Within t good.index j x).1 (((besides i v e j x).0 b).1)),
                    λ f.
                        (let b = (besides i v e j x).1 (ne, (find-Within t good.index j x).0 f) in
                          (find-Within (emptied out) shifted.index j x).1 ((shifted.same j x).0 b)),
                  )))
          ];
        }

    -- With the loop of `erase_at` on fuel for as many rounds as there are slots, an erasure from a
    -- consistent index ends. It returns what `find` returned and leaves a consistent index with the
    -- same maximum, in which `find` misses the identifier and returns for any other what it did, and
    -- whose count is one less where there was an entry.
    pub erase_lem : (u : FixedIndex V) × (erase id t ≡ some (find id t, u)) × IsErased id t u
    erase_lem = elim (find_slot-cases t.slots id good.index) [
      | inl (missed, absent) ↦
          let gone = find_absent t good.index id missed in
          (
            t,
            rw gone (erase_missing missed),
            record {
              maximum = refl;
              size = λ there. absurd (there gone);
              table = good;
              found = λ j. elim (ℕ_discrete j id) [
                | yes same ↦ let self : (j == id) ≡ true = ground arith in rw (self, same) gone
                | no ne ↦ let other : (j == id) ≡ false = ground arith in rw other refl
              ];
            },
          )
      | inr (lt, v, e) ↦
          let (out, run, shifted) = erase_at_lem (find_slot id t.slots) v e in
          (
            emptied out,
            erase_found out lt run,
            emptied-IsErased (find_slot id t.slots) v out e shifted,
          )
    ]
