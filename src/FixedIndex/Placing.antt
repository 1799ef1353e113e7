-- ===== src/FixedIndex/Placing.antt =====
-- cpp/include/llab/fixed_order_index.hpp: where the loop of `insert` puts an entry.
use cpp_rust_performance_lab.Common.{
  ℕ, zero, suc, ◌<◌, ◌≡◌, ◌≢◌, inl, inr, refl, sym, ap, ◌∙◌, true, false, Option, none, some, List,
  ◌==◌, length, set, arith, Option-cases, ℕ_discrete,
}
use cpp_rust_performance_lab.ProbeTable.Trail.{step, step_lt, gap, gap-step, gap_self}
use cpp_rust_performance_lab.FixedIndex.{Slot, entry_at, insert_from}
use cpp_rust_performance_lab.FixedIndex.Ring.{IsPower, advance_lem}
use cpp_rust_performance_lab.FixedIndex.Search.{IsAbsent}

module _ {V : Type 0} (slots : List (Slot V)) (power : IsPower (length slots)) (id : ℕ)
    (v : V) where
  abbrev pub fresh : Slot V
  fresh = record { id = id; value = v; occupied = true }

  -- the rounds of the loop
  insert_from_free :
      (rounds i : ℕ)
      → entry_at slots i ≡ none
      → insert_from (suc rounds) i id v slots ≡ some (set slots i fresh)
  unfolding insert_from
  insert_from_free rounds i e = rw (insert_from, e) refl

  insert_from_own :
      (rounds i : ℕ) (w : V)
      → entry_at slots i ≡ some (id, w)
      → insert_from (suc rounds) i id v slots ≡ none
  unfolding insert_from
  insert_from_own rounds i w e =
      let same : (id == id) ≡ true = ground arith in rw (insert_from, e, same) refl

  insert_from_on :
      (rounds i j : ℕ) (w : V)
      → i < length slots
      → entry_at slots i ≡ some (j, w)
      → j ≢ id
      → insert_from (suc rounds) i id v slots
        ≡ insert_from rounds (step (length slots) i) id v slots
  unfolding insert_from
  insert_from_on rounds i j w h e ne =
      let other : (j == id) ≡ false = ground arith in
      rw (insert_from, e, other, advance_lem (length slots) power i h) refl

  -- The loop comes to the identifier and refuses.
  pub insert_from_refused :
      (rounds i w : ℕ) (x : V)
      → i < length slots
      → w < length slots
      → entry_at slots w ≡ some (id, x)
      → ((j : ℕ)
          → j < length slots
          → gap (length slots) i j < gap (length slots) i w
          → entry_at slots j ≢ none)
      → insert_from rounds i id v slots ≡ none
  insert_from_refused zero i w x h l here between = unfold insert_from in refl
  insert_from_refused (suc rounds) i w x h l here between = elim (Option-cases (entry_at slots i)) [
    | inl e ↦ elim (ℕ_discrete i w) [
      | yes same ↦
          (let both : ◌≡◌ {A = Option (ℕ × V)} none (some (id, x)) =
              sym e ∙ ap (entry_at slots) same ∙ here in
            absurd cc)
      | no ne ↦ absurd (
          between i h (omega (arith, gap-step (length slots) i w h l ne, gap_self (length slots) i))
            e)
    ]
    | inr ((j, y), e) ↦ elim (ℕ_discrete j id) [
      | yes same ↦ insert_from_own rounds i y (e ∙ ap (λ (t : ℕ). some (t, y)) same)
      | no other ↦ elim (ℕ_discrete i w) [
        | yes at ↦
            (let both : ◌≡◌ {A = Option (ℕ × V)} (some (j, y)) (some (id, x)) =
                sym e ∙ ap (entry_at slots) at ∙ here in
              absurd (other cc))
        | no ne ↦
            let n = length slots in
            insert_from_on rounds i j y h e other
            ∙ insert_from_refused rounds (step n i) w x (step_lt n i h) l here (λ k lk near.
              elim (ℕ_discrete i k) [
                | yes same ↦ λ gone.
                    (let both : ◌≡◌ {A = Option (ℕ × V)} none (some (j, y)) =
                        sym gone ∙ ap (entry_at slots) (sym same) ∙ e in
                      absurd cc)
                | no apart ↦
                    between k lk (omega (arith, gap-step n i w h l ne, gap-step n i k h lk apart))
              ])
      ]
    ]
  ]

  -- where an entry goes
  pub record Placed (rounds i : ℕ) : Type 0 where
    pub place : ℕ
    pub place_lt : place < length slots
    pub vacant : entry_at slots place ≡ none
    pub passed :
        (j : ℕ)
        → j < length slots
        → gap (length slots) i j < gap (length slots) i place
        → entry_at slots j ≢ none
    pub run : insert_from rounds i id v slots ≡ some (set slots place fresh)

  -- Without the identifier the loop comes to a free slot.
  pub insert_from-Placed :
      (rounds i f : ℕ)
      → i < length slots
      → f < length slots
      → gap (length slots) i f < rounds
      → entry_at slots f ≡ none
      → IsAbsent id slots
      → Placed rounds i
  insert_from-Placed zero i f h l few free absent = absurd (omega arith)
  insert_from-Placed (suc rounds) i f h l few free absent = elim (Option-cases (entry_at slots i)) [
    | inl e ↦ record {
      place = i;
      place_lt = h;
      vacant = e;
      passed = λ j lj near. absurd (omega (arith, gap_self (length slots) i));
      run = insert_from_free rounds i e;
    }
    | inr ((j, y), e) ↦
        let n = length slots in
        let other : j ≢ id = λ same. absent i y (e ∙ ap (λ (t : ℕ). some (t, y)) same) in
        let filled : entry_at slots i ≢ none = λ gone.
          (let both : ◌≡◌ {A = Option (ℕ × V)} none (some (j, y)) = sym gone ∙ e in absurd cc) in
        let ne : i ≢ f = λ q. filled (ap (entry_at slots) q ∙ free) in
        let rest =
          insert_from-Placed rounds (step n i) f (step_lt n i h) l
            (omega (arith, gap-step n i f h l ne)) free absent in
        record {
          place = rest.place;
          place_lt = rest.place_lt;
          vacant = rest.vacant;
          passed = λ k lk near. elim (ℕ_discrete i k) [
            | yes same ↦ λ gone. filled (ap (entry_at slots) same ∙ gone)
            | no apart ↦
                let off : i ≢ rest.place = λ q. filled (ap (entry_at slots) q ∙ rest.vacant) in
                rest.passed k lk (
                  omega
                    (arith, gap-step n i k h lk apart, gap-step n i rest.place h rest.place_lt off))
          ];
          run = insert_from_on rounds i j y h e other ∙ rest.run;
        }
  ]
