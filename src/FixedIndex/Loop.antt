-- ===== src/FixedIndex/Loop.antt =====
-- cpp/include/llab/fixed_order_index.hpp: the loop of `erase_at`, from its rounds to its end.
use cpp_rust_performance_lab.Common.{
  ℕ, zero, suc, ◌+◌, ◌≤◌, ◌<◌, ◌≡◌, ◌≢◌, ◌↔◌, inl, inr, refl, sym, ap, ◌∙◌, true, false, Option,
  none, some, List, ◌==◌, leb, length, length-set, set, get_elem?, arith, Bool-cases, Option-cases,
}
use cpp_rust_performance_lab.ProbeTable.Trail.{step, gap, gap-step}
use cpp_rust_performance_lab.FixedIndex.{
  Slot, home, distance, entry, entry_at, entries, vacate_slot, shift_back,
}
use cpp_rust_performance_lab.FixedIndex.Ring.{home-lt, advance_lem, distance_lem}
use cpp_rust_performance_lab.FixedIndex.Search.{IsIndex}
use cpp_rust_performance_lab.FixedIndex.Shift.{
  IsHole, Besides, Within, held, entries-set, hole_filled, kept, back, vacated-IsIndex,
}
use cpp_rust_performance_lab.FixedIndex.Moves.{stay, move, moved_at, moved-Besides, moved-count}

module _ {V : Type 0} where
  -- What the loop leaves.
  pub record Shifted (slots : List (Slot V)) (hole : ℕ) (out : List (Slot V)) : Type 0 where
    pub index : IsIndex out
    pub size : length out ≡ length slots
    pub count : length (entries out) + 1 ≡ length (entries slots)
    pub same : (id : ℕ) (v : V) → Besides slots hole id v ↔ Within out id v

  -- the rounds of the loop
  module _ (slots : List (Slot V)) (hole next : ℕ) (h : IsHole slots hole next) (fuel : ℕ) where
    round_stop :
        entry_at slots next ≡ none
        → shift_back (suc fuel) hole next slots
          ≡ some (vacate_slot (get_elem? slots hole) hole slots)
    unfolding shift_back
    round_stop e = rw (shift_back, e) refl

    module _ (w : ℕ) (x : V) (here : entry_at slots next ≡ some (w, x)) where
      test :
          leb
            (distance (home w (length slots)) hole (length slots))
            (distance (home w (length slots)) next (length slots))
          ≡ leb
              (gap (length slots) (home w (length slots)) hole)
              (gap (length slots) (home w (length slots)) next)
      test =
          let start = home-lt (length slots) h.power w in
          rw
            (
              distance_lem (length slots) h.power (home w (length slots)) hole start h.hole_lt,
              distance_lem (length slots) h.power (home w (length slots)) next start h.next_lt,
            )
            refl

      round_stay :
          gap (length slots) (home w (length slots)) next
            < gap (length slots) (home w (length slots)) hole
          → shift_back (suc fuel) hole next slots
            ≡ shift_back fuel hole (step (length slots) next) slots
      unfolding shift_back
      round_stay short =
          let no_move : leb (distance (home w (length slots)) hole (length slots))
                (distance (home w (length slots)) next (length slots))
              ≡ false =
            test ∙ ground arith in
          rw (shift_back, here, no_move, advance_lem (length slots) h.power next h.next_lt) refl

      round_move :
          (s : Slot V)
          → get_elem? slots next ≡ some s
          → gap (length slots) (home w (length slots)) hole
            ≤ gap (length slots) (home w (length slots)) next
          → shift_back (suc fuel) hole next slots
            ≡ shift_back fuel next (step (length slots) next) (set slots hole s)
      unfolding shift_back
      round_move s slot long =
          let moves : leb (distance (home w (length slots)) hole (length slots))
                (distance (home w (length slots)) next (length slots))
              ≡ true =
            test ∙ ground arith in
          rw (shift_back, here, moves, advance_lem (length slots) h.power next h.next_lt, slot) refl

  -- Where the loop ends.
  stopped :
      (slots : List (Slot V)) (hole next fuel : ℕ)
      → IsHole slots hole next
      → entry_at slots next ≡ none
      → (out : List (Slot V)) × (shift_back (suc fuel) hole next slots ≡ some out)
        × Shifted slots hole out
  stopped slots hole next fuel h stop = elim (Option-cases (get_elem? slots hole)) [
    | inl e ↦ absurd (hole_filled slots hole next h (ap entry e))
    | inr (s, there) ↦ (
      set slots hole (record s { occupied = false }),
      round_stop slots hole next h fuel stop ∙ rw there refl,
      record {
        index = vacated-IsIndex slots hole next h s there stop;
        size = length-set slots hole (record s { occupied = false });
        count = elim (Option-cases (entry_at slots hole)) [
          | inl e ↦ absurd (hole_filled slots hole next h e)
          | inr (y, e) ↦
              let was : held (entry_at slots hole) ≡ 1 = ap held e in
              omega (arith, entries-set slots hole (record s { occupied = false }) h.hole_lt, was)
        ];
        same = λ id v. (
          λ b. (b.0, back slots hole next h s there stop b.0 id v b.1 b.2),
          λ b. (let (ne, e) = kept slots hole next h s there stop b.0 id v b.1 in (b.0, ne, e)),
        );
      },
    )
  ]

  -- With fuel for the way to a free slot the loop ends.
  pub shift_back_lem :
      (fuel : ℕ) (slots : List (Slot V)) (hole next f : ℕ)
      → IsHole slots hole next
      → f < length slots
      → entry_at slots f ≡ none
      → gap (length slots) next f < fuel
      → (out : List (Slot V)) × (shift_back fuel hole next slots ≡ some out)
        × Shifted slots hole out
  shift_back_lem zero slots hole next f h lf free few = absurd (omega arith)
  shift_back_lem (suc fuel) slots hole next f h lf free few =
      elim (Option-cases (entry_at slots next)) [
        | inl stop ↦ stopped slots hole next fuel h stop
        | inr ((w, x), here) ↦
            let n = length slots in
            let ne : next ≢ f = λ q.
              (let both : ◌≡◌ {A = Option (ℕ × V)} none (some (w, x)) =
                  sym free ∙ ap (entry_at slots) (sym q) ∙ here in
                absurd cc) in
            let closer = gap-step n next f h.next_lt lf ne in
            elim (Bool-cases (leb (gap n (home w n) hole) (gap n (home w n) next))) [
              | inr short ↦
                  let (out, run, good) =
                    shift_back_lem fuel slots hole (step n next) f
                      (stay slots hole next h w x here (ground arith)) lf free
                      (omega (arith, closer)) in
                  (out, round_stay slots hole next h fuel w x here (ground arith) ∙ run, good)
              | inl long ↦ elim (Option-cases (get_elem? slots next)) [
                | inl e ↦
                    (let both : ◌≡◌ {A = Option (ℕ × V)} none (some (w, x)) =
                        sym (ap entry e) ∙ here in
                      absurd cc)
                | inr (s, slot) ↦
                    let le : gap n (home w n) hole ≤ gap n (home w n) next = ground arith in
                    let size = length-set slots hole s in
                    let other : (f == hole) ≡ false = elim (Bool-cases (f == hole)) [
                      | inr e ↦ e
                      | inl e ↦
                          let at : f ≡ hole = ground arith in
                          absurd
                            (hole_filled slots hole next h (ap (entry_at slots) (sym at) ∙ free))
                    ] in
                    let (out, run, good) =
                      shift_back_lem fuel (set slots hole s) next (step n next) f
                        (move slots hole next h w x here s slot le) (rw size lf)
                        (moved_at slots hole next h w x here s slot le f ∙ rw other free)
                        (rw size (omega (arith, closer))) in
                    (
                      out,
                      round_move slots hole next h fuel w x here s slot le ∙ run,
                      record {
                        index = good.index;
                        size = good.size ∙ size;
                        count = good.count ∙ moved-count slots hole next h w x here s slot le;
                        same = λ id v.
                            (let step_over =
                                moved-Besides slots hole next h w x here s slot le id v in
                              (
                                λ b. (good.same id v).0 (step_over.0 b),
                                λ b. step_over.1 ((good.same id v).1 b),
                              ));
                      },
                    )
              ]
            ]
      ]
