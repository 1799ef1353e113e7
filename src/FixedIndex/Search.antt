-- ===== src/FixedIndex/Search.antt =====
-- cpp/include/llab/fixed_order_index.hpp: a consistent index, and what the loops of `find_slot` and
-- `insert` find in it.
use cpp_rust_performance_lab.Common.{
  ℕ, zero, suc, ◌<◌, ◌≡◌, ◌≢◌, ◌⊎◌, inl, inr, refl, ap, ◌∙◌, true, false, none, some, List, [], ◌∷◌,
  ◌==◌, length, arith, Bool-cases, Option-cases, ℕ_discrete,
}
use cpp_rust_performance_lab.ProbeTable.Trail.{step, step_lt, gap, gap-step, gap_lt}
use cpp_rust_performance_lab.FixedIndex.{Slot, home, entry_at, find_from, find_slot}
use cpp_rust_performance_lab.FixedIndex.Ring.{IsPower, home-lt, advance_lem}

module _ {V : Type 0} where
  -- Every entry is on the way of a search that starts at its home, none has identifier 0, no two have
  -- the same identifier, and some slot is free.
  pub record IsIndex (slots : List (Slot V)) : Type 0 where
    pub power : IsPower (length slots)
    pub reach :
        (i id : ℕ) (v : V)
        → entry_at slots i ≡ some (id, v)
        → (j : ℕ) → j < length slots
        → gap (length slots) (home id (length slots)) j
          < gap (length slots) (home id (length slots)) i
        → entry_at slots j ≢ none
    pub unique :
        (i j id : ℕ) (v w : V)
        → entry_at slots i ≡ some (id, v)
        → entry_at slots j ≡ some (id, w)
        → i ≡ j
    pub nonzero : (i id : ℕ) (v : V) → entry_at slots i ≡ some (id, v) → id ≢ 0
    pub free : (i : ℕ) × (i < length slots) × (entry_at slots i ≡ none)

  pub entry_lt :
      (slots : List (Slot V)) (i id : ℕ) (v : V)
      → entry_at slots i ≡ some (id, v)
      → i < length slots
  entry_lt [] i id v e = absurd cc
  entry_lt (s ∷ slots) zero id v e = omega arith
  entry_lt (s ∷ slots) (suc i) id v e = omega (arith, entry_lt slots i id v e)

  -- The identifier is nowhere.
  abbrev pub IsAbsent : ℕ → List (Slot V) → Type 0
  IsAbsent id slots = (i : ℕ) (v : V) → entry_at slots i ≢ some (id, v)

  module _ (slots : List (Slot V)) (power : IsPower (length slots)) (id : ℕ) where
    -- the rounds of the loops
    find_from_free :
        (rounds i : ℕ) → entry_at slots i ≡ none → find_from (suc rounds) i id slots ≡ length slots
    unfolding find_from
    find_from_free rounds i e = rw (find_from, e) refl

    find_from_own :
        (rounds i : ℕ) (v : V)
        → entry_at slots i ≡ some (id, v)
        → find_from (suc rounds) i id slots ≡ i
    unfolding find_from
    find_from_own rounds i v e =
        let same : (id == id) ≡ true = ground arith in rw (find_from, e, same) refl

    find_from_on :
        (rounds i j : ℕ) (v : V)
        → i < length slots
        → entry_at slots i ≡ some (j, v)
        → j ≢ id
        → find_from (suc rounds) i id slots ≡ find_from rounds (step (length slots) i) id slots
    unfolding find_from
    find_from_on rounds i j v h e ne =
        let other : (j == id) ≡ false = ground arith in
        rw (find_from, e, other, advance_lem (length slots) power i h) refl

    -- Where the loop ends.
    pub find_from-Found :
        (rounds i : ℕ)
        → i < length slots
        → (find_from rounds i id slots ≡ length slots)
          ⊎ ((v : V) × (entry_at slots (find_from rounds i id slots) ≡ some (id, v)))
    find_from-Found zero i h = unfold find_from in inl refl
    find_from-Found (suc rounds) i h = elim (Option-cases (entry_at slots i)) [
      | inl e ↦ inl (find_from_free rounds i e)
      | inr ((j, v), e) ↦ elim (ℕ_discrete j id) [
        | yes same ↦
            let here : entry_at slots i ≡ some (id, v) = e ∙ ap (λ (t : ℕ). some (t, v)) same in
            inr (v, rw (find_from_own rounds i v here) here)
        | no ne ↦
            rw (find_from_on rounds i j v h e ne)
              (find_from-Found rounds (step (length slots) i) (step_lt (length slots) i h))
      ]
    ]

    -- The loop comes to the identifier, when nothing but other entries is in between.
    pub find_from_reaches :
        (rounds i w : ℕ) (v : V)
        → i < length slots
        → w < length slots
        → gap (length slots) i w < rounds
        → entry_at slots w ≡ some (id, v)
        → ((j : ℕ)
            → j < length slots
            → gap (length slots) i j < gap (length slots) i w
            → (k : ℕ) × (x : V) × (entry_at slots j ≡ some (k, x)) × (k ≢ id))
        → find_from rounds i id slots ≡ w
    find_from_reaches zero i w v h l few here between = absurd (omega arith)
    find_from_reaches (suc rounds) i w v h l few here between = elim (ℕ_discrete i w) [
      | yes same ↦ rw same (find_from_own rounds w v here)
      | no ne ↦
          let n = length slots in
          let closer = gap-step n i w h l ne in
          let at_start : gap n i i ≡ 0 = unfold gap in ground arith in
          let (k, x, e, other) = between i h (omega (arith, closer, at_start)) in
          find_from_on rounds i k x h e other
          ∙ find_from_reaches rounds (step n i) w v (step_lt n i h) l (omega arith) here
              (λ j lj closer'. between j lj (elim (ℕ_discrete i j) [
                | yes same ↦ rw (← same) (omega (arith, closer, at_start))
                | no apart ↦ omega (arith, closer, gap-step n i j h lj apart)
              ]))
    ]

  -- `find_slot` decides whether the index holds the identifier.
  pub find_slot-cases :
      (slots : List (Slot V)) (id : ℕ)
      → IsIndex slots
      → ((find_slot id slots ≡ length slots) × IsAbsent id slots)
        ⊎ ((find_slot id slots < length slots)
            × (v : V) × (entry_at slots (find_slot id slots) ≡ some (id, v)))
  unfolding find_slot
  find_slot-cases slots id t = elim (Bool-cases (id == 0)) [
    | inl z ↦ inl (rw z refl, λ i v e. t.nonzero i id v e (ground arith))
    | inr nz ↦
        let n = length slots in
        let start = home-lt n t.power id in
        elim (find_from-Found slots t.power id n (home id n) start) [
          | inr (v, e) ↦
              rw nz (inr (entry_lt slots (find_from n (home id n) id slots) id v e, v, e))
          | inl missed ↦ rw nz (
              inl (
                missed,
                λ i v e.
                    (let lt = entry_lt slots i id v e in
                      let found =
                        find_from_reaches slots t.power id n (home id n) i v start lt
                          (gap_lt n (home id n) i start lt) e
                          (λ j lj closer. elim (Option-cases (entry_at slots j)) [
                            | inl z ↦ absurd (t.reach i id v e j lj closer z)
                            | inr ((k, x), g) ↦ (
                              k,
                              x,
                              g,
                              λ same.
                                  (let both : entry_at slots j ≡ some (id, x) =
                                      g ∙ ap (λ (t : ℕ). some (t, x)) same in
                                    let at : i ≡ j = t.unique i j id v x e both in
                                    ground (arith, at)),
                            )
                          ]) in
                      omega arith),
              ))
        ]
  ]
