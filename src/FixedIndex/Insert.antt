-- ===== src/FixedIndex/Insert.antt =====
-- cpp/include/llab/fixed_order_index.hpp: what `insert` does to the map that the index stands for.
use cpp_rust_performance_lab.Common.{
  ℕ, ◌+◌, ◌%◌, ◌<◌, ◌≡◌, ◌≢◌, ◌↔◌, ◌⊎◌, inl, inr, refl, sym, ap, ◌∙◌, true, false, Bool, ◌&&◌,
  Option, none, some, List, ◌==◌, if◌then◌else◌, length, length-set, set, arith, Bool-cases,
  ℕ_discrete, u64_mod,
}
use cpp_rust_performance_lab.ProbeTable.Trail.{gap, gap_lt}
use cpp_rust_performance_lab.FixedIndex.{
  Slot, FixedIndex, entry_at, home, find_slot, find, entries, insert,
}
use cpp_rust_performance_lab.FixedIndex.Ring.{home-lt, n_small}
use cpp_rust_performance_lab.FixedIndex.Search.{IsIndex, IsAbsent, find_slot-cases}
use cpp_rust_performance_lab.FixedIndex.Shift.{Within, held, entry_at-set, entries-set}
use cpp_rust_performance_lab.FixedIndex.View.{
  IsTable, option_ext, find_absent, find_present, find-Within, free_slot,
}
use cpp_rust_performance_lab.FixedIndex.Placing.{insert_from_refused, Placed, insert_from-Placed}

module _ {V : Type 0} (t : FixedIndex V) (good : IsTable t) (id : ℕ) (v : V) where
  abbrev pub present : Option V → Bool
  present none = false
  present (some x) = true

  -- whether `insert` accepts an entry
  abbrev pub accepts : Bool
  accepts =
      if id == 0
      then false
      else if t.size == t.maximum_live_entries
      then false
      else if present (find id t)
      then false
      else true

  pub record IsInserted (b : Bool) (u : FixedIndex V) : Type 0 where
    pub table : IsTable u
    pub found : (j : ℕ) → find j u ≡ (if b && j == id then some v else find j t)

  abbrev filled_with : List (Slot V) → FixedIndex V
  filled_with slots = record t { slots = slots; size = (t.size + 1) % u64_mod }

  module _ (nz : id ≢ 0) (less : t.size ≢ t.maximum_live_entries) (absent : IsAbsent id t.slots)
      (p : Placed t.slots good.index.power id v (length t.slots) (home id (length t.slots))) where
    abbrev slots' : List (Slot V)
    slots' = set t.slots p.place (record { id = id; value = v; occupied = true })

    same_size : length slots' ≡ length t.slots
    same_size = length-set t.slots p.place (record { id = id; value = v; occupied = true })

    slots'_at :
        (j : ℕ) → entry_at slots' j ≡ (if j == p.place then some (id, v) else entry_at t.slots j)
    slots'_at j =
        entry_at-set t.slots p.place j (record { id = id; value = v; occupied = true }) p.place_lt

    abbrev Origin : ℕ → ℕ → V → Type 0
    Origin i j x =
        ((i ≡ p.place) × (j ≡ id) × (x ≡ v)) ⊎ ((i ≢ p.place) × (entry_at t.slots i ≡ some (j, x)))

    origin : (i j : ℕ) (x : V) → entry_at slots' i ≡ some (j, x) → Origin i j x
    origin i j x e = elim (Bool-cases (i == p.place)) [
      | inl same ↦
          let both : ◌≡◌ {A = Option (ℕ × V)} (some (id, v)) (some (j, x)) =
            rw same at (sym (slots'_at i) ∙ e) in
          inl (ground arith, cc, cc)
      | inr other ↦ inr (ground arith, rw other at (sym (slots'_at i) ∙ e))
    ]

    still : (j : ℕ) → entry_at t.slots j ≢ none → entry_at slots' j ≢ none
    still j full gone = elim (Bool-cases (j == p.place)) [
      | inl e ↦
          (let both : ◌≡◌ {A = Option (ℕ × V)} (some (id, v)) none =
              rw e at (sym (slots'_at j) ∙ gone) in
            absurd cc)
      | inr e ↦ full (rw e at (sym (slots'_at j) ∙ gone))
    ]

    count : length (entries slots') ≡ length (entries t.slots) + 1
    count =
        let was : held (entry_at t.slots p.place) ≡ 0 = ap held p.vacant in
        omega (
          arith,
          entries-set t.slots p.place (record { id = id; value = v; occupied = true }) p.place_lt,
          was,
        )

    slots'-IsIndex : IsIndex slots'
    slots'-IsIndex = record {
      power = rw same_size good.index.power;
      reach = λ i j x e k lk near.
          (let lk' : k < length t.slots = rw same_size at lk in
            let near' : gap (length t.slots) (home j (length t.slots)) k
                < gap (length t.slots) (home j (length t.slots)) i =
              rw same_size at near in
            still k (elim (origin i j x e) [
              | inl (at, own, val) ↦
                  let close : gap (length t.slots) (home id (length t.slots)) k
                      < gap (length t.slots) (home id (length t.slots)) p.place =
                    rw (← at, ← own) near' in
                  p.passed k lk' close
              | inr (ne, f) ↦ good.index.reach i j x f k lk' near'
            ]));
      unique = λ i j k x y e f. elim (origin i k x e) [
        | inl (at, own, val) ↦ elim (origin j k y f) [
          | inl (at', own', val') ↦ at ∙ sym at'
          | inr (ne, g) ↦ absurd (absent j y (g ∙ ap (λ (m : ℕ). some (m, y)) own))
        ]
        | inr (ne, g) ↦ elim (origin j k y f) [
          | inl (at', own', val') ↦ absurd (absent i x (g ∙ ap (λ (m : ℕ). some (m, x)) own'))
          | inr (ne', g') ↦ good.index.unique i j k x y g g'
        ]
      ];
      nonzero = λ i j x e. elim (origin i j x e) [
        | inl (at, own, val) ↦ λ z. nz (sym own ∙ z)
        | inr (ne, f) ↦ good.index.nonzero i j x f
      ];
      free =
          free_slot slots' (
            omega (arith, count, same_size, good.counted, good.size_le, good.roomy, good.eight_le));
    }

    filled-Within : (j : ℕ) (x : V) → (find j (filled_with slots') ≡ some x) ↔ Within slots' j x
    filled-Within j x = find-Within (filled_with slots') slots'-IsIndex j x

    found_new : find id (filled_with slots') ≡ some v
    found_new =
        let self : (p.place == p.place) ≡ true = ground arith in
        (filled-Within id v).1 (p.place, slots'_at p.place ∙ rw self refl)

    found_old : (j : ℕ) → j ≢ id → find j (filled_with slots') ≡ find j t
    found_old j ne = option_ext (find j (filled_with slots')) (find j t) (λ x. (
      λ f.
          (let b = (filled-Within j x).0 f in
            elim (origin b.0 j x b.1) [
              | inl (at, own, val) ↦ absurd (ne own)
              | inr (off, e) ↦ (find-Within t good.index j x).1 (b.0, e)
            ]),
      λ f.
          (let b = (find-Within t good.index j x).0 f in
            (filled-Within j x).1 (
              b.0,
              slots'_at b.0 ∙ elim (Bool-cases (b.0 == p.place)) [
                | inr other ↦ rw other b.1
                | inl same ↦
                    let at : b.0 ≡ p.place = ground arith in
                    (let both : ◌≡◌ {A = Option (ℕ × V)} none (some (j, x)) =
                        sym p.vacant ∙ ap (entry_at t.slots) (sym at) ∙ b.1 in
                      absurd cc)
              ],
            )),
    ))

    placed-IsInserted : IsInserted true (filled_with slots')
    placed-IsInserted =
        let more : (t.size + 1) % u64_mod ≡ length (entries slots') = omega (
          arith,
          count,
          good.counted,
          good.size_le,
          good.roomy,
          n_small (length t.slots) good.index.power,
        ) in
        record {
          table = record {
            index = slots'-IsIndex;
            counted = more;
            size_le = omega (arith, more, count, good.counted, good.size_le);
            roomy = omega (arith, same_size, good.roomy);
            eight_le = omega (arith, same_size, good.eight_le);
          };
          found = λ j. elim (ℕ_discrete j id) [
            | yes same ↦
                let self : (j == id) ≡ true = ground arith in
                rw self (ap (λ (k : ℕ). find k (filled_with slots')) same ∙ found_new)
            | no ne ↦ let other : (j == id) ≡ false = ground arith in rw other (found_old j ne)
          ];
        }

  refuse : (b : Bool) → b ≡ false → IsInserted b t
  refuse b e = rw e (record { table = good; found = λ j. refl })

  -- `insert` returns true in a consistent index just when the identifier is not 0, the index does not
  -- hold it, and the index is not at its maximum. It leaves a consistent index, in which `find`
  -- returns the new value for the identifier when `insert` returned true, and otherwise, and for any
  -- other identifier, what it did.
  pub insert_lem : (u : FixedIndex V) × (insert id v t ≡ (accepts, u)) × IsInserted accepts u
  unfolding insert
  insert_lem = elim (Bool-cases (id == 0)) [
    | inl z ↦ rw z (t, refl, refuse false refl)
    | inr nz ↦ elim (Bool-cases (t.size == t.maximum_live_entries)) [
      | inl full ↦ rw (nz, full) (t, refl, refuse false refl)
      | inr more ↦
          let n = length t.slots in
          let start = home-lt n good.index.power id in
          elim (find_slot-cases t.slots id good.index) [
            | inr (lt, x, e) ↦
                let there = find_present t good.index id x lt e in
                let w = find_slot id t.slots in
                let stop =
                  insert_from_refused t.slots good.index.power id v n (home id n) w x start lt e
                    (good.index.reach w id x e) in
                rw (nz, more, there, stop) (t, refl, refuse false refl)
            | inl (missed, absent) ↦
                let gone = find_absent t good.index id missed in
                let p =
                  insert_from-Placed t.slots good.index.power id v n (home id n) good.index.free.0
                    start good.index.free.1
                    (gap_lt n (home id n) good.index.free.0 start good.index.free.1)
                    good.index.free.2 absent in
                let run = p.run in
                rw (nz, more, gone, run)
                  (
                    filled_with (slots' (ground arith) (ground arith) absent p),
                    refl,
                    placed-IsInserted (ground arith) (ground arith) absent p,
                  )
          ]
    ]
  ]
