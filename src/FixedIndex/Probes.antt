-- ===== src/FixedIndex/Probes.antt =====
-- cpp/include/llab/fixed_order_index.hpp: what `probe_summary` sums up.
use cpp_rust_performance_lab.Common.{
  ℕ, zero, suc, ◌+◌, ◌%◌, ◌^◌, ◌≤◌, ◌<◌, ◌≡◌, ◌⊎◌, ap, ltb, inl, inr, refl, sym, ◌∙◌, true, false,
  Bool, Option, none, some, List, [], ◌∷◌, length, max, arith, Bool-cases, u64_mod,
}
use cpp_rust_performance_lab.ProbeTable.Trail.{gap, gap_lt}
use cpp_rust_performance_lab.FixedIndex.{
  Slot, FixedIndex, ProbeSummary, entry_at, home, distance, entries, summarise, probe_summary,
}
use cpp_rust_performance_lab.FixedIndex.Ring.{IsPower, home-lt, n_small, distance_lem}
use cpp_rust_performance_lab.FixedIndex.View.{IsTable}

module _ (n : ℕ) (power : IsPower n) where
  probes_of :
      (id index : ℕ)
      → index < n
      → (distance (home id n) index n + 1) % u64_mod ≡ suc (gap n (home id n) index)
  probes_of id index lt =
      let start = home-lt n power id in
      rw (distance_lem n power (home id n) index start lt)
        (omega (arith, gap_lt n (home id n) index start lt, n_small n power))

module _ {V : Type 0} (n : ℕ) (power : IsPower n) where
  abbrev counted : Slot V → ℕ → ProbeSummary → ProbeSummary
  counted s index summary = record {
    occupied = (summary.occupied + 1) % u64_mod;
    total_probes =
        (summary.total_probes + ((distance (home s.id n) index n + 1) % u64_mod)) % u64_mod;
    maximum_probes = max summary.maximum_probes ((distance (home s.id n) index n + 1) % u64_mod);
  }

  summarise_full :
      (index : ℕ) (summary : ProbeSummary) (s : Slot V) (slots : List (Slot V))
      → s.occupied ≡ true
      → summarise n index summary (s ∷ slots)
        ≡ summarise n (suc index) (counted s index summary) slots
  unfolding summarise
  summarise_full index summary s slots e = rw (summarise, e) refl

  summarise_free :
      (index : ℕ) (summary : ProbeSummary) (s : Slot V) (slots : List (Slot V))
      → s.occupied ≡ false
      → summarise n index summary (s ∷ slots) ≡ summarise n (suc index) summary slots
  unfolding summarise
  summarise_free index summary s slots e = rw (summarise, e) refl

  entries_full :
      (s : Slot V) (slots : List (Slot V))
      → s.occupied ≡ true
      → length (entries (s ∷ slots)) ≡ suc (length (entries slots))
  unfolding entries
  entries_full s slots e = rw e refl

  entries_free :
      (s : Slot V) (slots : List (Slot V))
      → s.occupied ≡ false
      → length (entries (s ∷ slots)) ≡ length (entries slots)
  unfolding entries
  entries_free s slots e = rw e refl

  -- the count of the entries
  summarise-occupied :
      (index : ℕ) (summary : ProbeSummary) (slots : List (Slot V))
      → summary.occupied + length slots ≤ 2 ^ 63
      → (summarise n index summary slots).occupied ≡ summary.occupied + length (entries slots)
  summarise-occupied index summary [] small = unfold summarise entries in omega arith
  summarise-occupied index summary (s ∷ slots) small = elim (Bool-cases s.occupied) [
    | inl e ↦
        let next : (summary.occupied + 1) % u64_mod ≡ suc summary.occupied = omega arith in
        rw (summarise_full index summary s slots e) (
          summarise-occupied (suc index) (counted s index summary) slots (omega (arith, next))
          ∙ omega (arith, next, entries_full s slots e))
    | inr e ↦ rw (summarise_free index summary s slots e) (
        summarise-occupied (suc index) summary slots (omega arith)
        ∙ omega (arith, entries_free s slots e))
  ]

  -- The maximum only grows, and no entry is further from its home.
  summarise-maximum :
      (index : ℕ) (summary : ProbeSummary) (slots : List (Slot V))
      → index + length slots ≤ n
      → (summary.maximum_probes ≤ (summarise n index summary slots).maximum_probes)
        × ((i id : ℕ) (v : V)
            → entry_at slots i ≡ some (id, v)
            → suc (gap n (home id n) (index + i))
              ≤ (summarise n index summary slots).maximum_probes)
  summarise-maximum index summary [] fits = unfold summarise in (omega arith, λ i id v e. absurd cc)
  summarise-maximum index summary (s ∷ slots) fits = elim (Bool-cases s.occupied) [
    | inl full ↦
        let rest = summarise-maximum (suc index) (counted s index summary) slots (omega arith) in
        let own = probes_of n power s.id index (omega arith) in
        rw (summarise_full index summary s slots full) (
          ground (arith, rest.0),
          λ i id v e.
              at_entry index (counted s index summary) s slots rest.1
                (λ i'.
                  (let first : suc (gap n (home s.id n) index)
                        ≤ (counted s index summary).maximum_probes =
                      rw own (ground arith) in
                    omega (arith, first, rest.0)))
                i id v e,
        )
    | inr free ↦
        let rest = summarise-maximum (suc index) summary slots (omega arith) in
        rw (summarise_free index summary s slots free) (
          rest.0,
          λ i id v e.
              at_entry index summary s slots rest.1 (λ full. absurd (no_both s full free)) i id v e,
        )
  ]
    where
      no_both : (s : Slot V) → s.occupied ≡ true → s.occupied ≡ false → ⊥
      no_both s f g = (let both : ◌≡◌ {A = Bool} true false = sym f ∙ g in absurd cc)

      at_entry :
          (index : ℕ) (summary : ProbeSummary) (s : Slot V) (slots : List (Slot V))
          → ((i id : ℕ) (v : V)
              → entry_at slots i ≡ some (id, v)
              → suc (gap n (home id n) (suc index + i))
                ≤ (summarise n (suc index) summary slots).maximum_probes)
          → (s.occupied ≡ true
              → suc (gap n (home s.id n) index)
                ≤ (summarise n (suc index) summary slots).maximum_probes)
          → (i id : ℕ) (v : V) → entry_at (s ∷ slots) i ≡ some (id, v)
          → suc (gap n (home id n) (index + i))
            ≤ (summarise n (suc index) summary slots).maximum_probes
      at_entry index summary s slots tail head (suc i) id v e =
          let at : index + suc i ≡ suc index + i = omega arith in rw at (tail i id v e)
      at_entry index summary s slots tail head zero id v e = elim (Bool-cases s.occupied) [
        | inl full ↦
            (let both : ◌≡◌ {A = Option (ℕ × V)} (some (s.id, s.value)) (some (id, v)) =
                rw full at e in
              let same : s.id ≡ id = cc in
              let at : index + 0 ≡ index = omega arith in rw (at, ← same) (head full))
        | inr free ↦
            (let both : ◌≡◌ {A = Option (ℕ × V)} none (some (id, v)) = rw free at e in absurd cc)
      ]

-- a sum over the numbers below `k`
unfoldable pub sum_below : ℕ → (ℕ → ℕ) → ℕ
sum_below zero g = 0
sum_below (suc k) g = g 0 + sum_below k (λ i. g (suc i))

sum_below-congr : (k : ℕ) (g h : ℕ → ℕ) → ((i : ℕ) → g i ≡ h i) → sum_below k g ≡ sum_below k h
unfolding sum_below
sum_below-congr zero g h same = refl
sum_below-congr (suc k) g h same =
    omega (arith, same 0, sum_below-congr k (λ i. g (suc i)) (λ i. h (suc i)) (λ i. same (suc i)))

module _ {V : Type 0} (n : ℕ) where
  -- how many slots a search for the entry of slot `i`, if there is one, looks at
  abbrev pub looks : ℕ → Option (ℕ × V) → ℕ
  looks i none = 0
  looks i (some (id, v)) = suc (gap n (home id n) i)

  sum_below-cons :
      (index : ℕ) (s : Slot V) (slots : List (Slot V))
      → sum_below (length (s ∷ slots)) (λ i. looks (index + i) (entry_at (s ∷ slots) i))
        ≡ looks index (entry_at (s ∷ slots) 0)
          + sum_below (length slots) (λ i. looks (suc index + i) (entry_at slots i))
  unfolding sum_below
  sum_below-cons index s slots =
      let start : index + 0 ≡ index = omega arith in
      let rest =
        sum_below-congr (length slots) (λ i. looks (index + suc i) (entry_at slots i))
          (λ i. looks (suc index + i) (entry_at slots i))
          (λ i.
            (let at : index + suc i ≡ suc index + i = omega arith in
              ap (λ (k : ℕ). looks k (entry_at slots i)) at)) in
      let first = ap (λ (k : ℕ). looks k (entry_at (s ∷ slots) 0)) start in
      omega (arith, rest, first)

  -- the total of the slots looked at
  summarise-total :
      (power : IsPower n) (index : ℕ) (summary : ProbeSummary) (slots : List (Slot V))
      → index + length slots ≤ n
      → summary.total_probes < u64_mod
      → (summarise n index summary slots).total_probes
        ≡ (summary.total_probes
            + sum_below (length slots) (λ i. looks (index + i) (entry_at slots i)))
          % u64_mod
  summarise-total power index summary [] fits small = unfold summarise sum_below in omega arith
  summarise-total power index summary (s ∷ slots) fits small =
      let split = sum_below-cons index s slots in
      elim (Bool-cases s.occupied) [
        | inl full ↦
            let own = probes_of n power s.id index (omega arith) in
            let here : looks index (entry_at (s ∷ slots) 0) ≡ suc (gap n (home s.id n) index) =
              rw full refl in
            rw (summarise_full n power index summary s slots full) (
              summarise-total power (suc index) (counted n power s index summary) slots
                (omega arith) (omega arith)
              ∙ omega (arith, own, here, split))
        | inr free ↦
            let here : looks index (entry_at (s ∷ slots) 0) ≡ 0 = rw free refl in
            rw (summarise_free n power index summary s slots free) (
              summarise-total power (suc index) summary slots (omega arith) small
              ∙ omega (arith, here, split))
      ]

  -- Some entry is as far from its home as the maximum says.
  abbrev pub Reached : ℕ → ℕ → List (Slot V) → Type 0
  Reached m index slots =
      (i : ℕ) × (id : ℕ) × (v : V) × (entry_at slots i ≡ some (id, v))
      × (suc (gap n (home id n) (index + i)) ≡ m)

  later-Reached :
      (m index : ℕ) (s : Slot V) (slots : List (Slot V))
      → Reached m (suc index) slots
      → Reached m index (s ∷ slots)
  later-Reached m index s slots (i, id, v, e, same) =
      let at : index + suc i ≡ suc index + i = omega arith in (suc i, id, v, e, rw at same)

  summarise-Reached :
      (power : IsPower n) (index : ℕ) (summary : ProbeSummary) (slots : List (Slot V))
      → index + length slots ≤ n
      → let m = (summarise n index summary slots).maximum_probes in
        (m ≡ summary.maximum_probes) ⊎ Reached m index slots
  summarise-Reached power index summary [] fits = unfold summarise in inl refl
  summarise-Reached power index summary (s ∷ slots) fits = elim (Bool-cases s.occupied) [
    | inr free ↦
        rw (summarise_free n power index summary s slots free)
          (elim (summarise-Reached power (suc index) summary slots (omega arith)) [
            | inl same ↦ inl same
            | inr there ↦ inr (
                later-Reached (summarise n (suc index) summary slots).maximum_probes index s slots
                  there)
          ])
    | inl full ↦
        let own = probes_of n power s.id index (omega arith) in
        let next = counted n power s index summary in
        let start : index + 0 ≡ index = omega arith in
        rw (summarise_full n power index summary s slots full)
          (elim (summarise-Reached power (suc index) next slots (omega arith)) [
            | inr there ↦ inr (
                later-Reached (summarise n (suc index) next slots).maximum_probes index s slots
                  there)
            | inl same ↦
                elim (Bool-cases (ltb summary.maximum_probes (suc (gap n (home s.id n) index)))) [
                  | inl more ↦
                      inr (0, s.id, s.value, rw full refl, rw start (ground (arith, same, own)))
                  | inr less ↦ inl (ground (arith, same, own))
                ]
          ])
  ]

-- In a consistent index `probe_summary` counts the entries that `size` counts; its total is, modulo
-- 2 ^ 64, the sum over all entries of the slots that a search for the entry looks at, from its home to
-- its slot; its maximum is the greatest of these numbers, and 0 only where there is no entry.
pub probe_summary_lem :
    {V : Type 0} (t : FixedIndex V)
    → IsTable t
    → let n = length t.slots in
      let maximum = (probe_summary t).maximum_probes in
      ((probe_summary t).occupied ≡ t.size)
      × ((probe_summary t).total_probes
          ≡ sum_below n (λ i. looks n i (entry_at t.slots i)) % u64_mod)
      × ((i id : ℕ) (v : V)
          → entry_at t.slots i ≡ some (id, v)
          → suc (gap n (home id n) i) ≤ maximum)
      × ((maximum ≡ 0)
          ⊎ ((i : ℕ) × (id : ℕ) × (v : V) × (entry_at t.slots i ≡ some (id, v))
              × (suc (gap n (home id n) i) ≡ maximum)))
unfolding probe_summary
probe_summary_lem t good =
    let start : ProbeSummary = record { occupied = 0; total_probes = 0; maximum_probes = 0 } in
    let n = length t.slots in
    let power = good.index.power in
    let none_before : (i : ℕ) → 0 + i ≡ i = λ i. omega arith in
    let same =
      sum_below-congr n (λ i. looks n (0 + i) (entry_at t.slots i))
        (λ i. looks n i (entry_at t.slots i))
        (λ i. ap (λ (k : ℕ). looks n k (entry_at t.slots i)) (none_before i)) in
    (
      summarise-occupied n power 0 start t.slots (omega (arith, n_small n power))
          ∙ omega (arith, good.counted),
      summarise-total n power 0 start t.slots (omega arith) (omega arith) ∙ omega (arith, same),
      λ i id v e.
          (let at = none_before i in
            rw at at ((summarise-maximum n power 0 start t.slots (omega arith)).1 i id v e)),
      elim (summarise-Reached n power 0 start t.slots (omega arith)) [
        | inl e ↦ inl e
        | inr (i, id, v, e, reached) ↦ let at = none_before i in inr (i, id, v, e, rw at at reached)
      ],
    )
