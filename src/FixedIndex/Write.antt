-- ===== src/FixedIndex/Write.antt =====
-- cpp/include/llab/fixed_order_index.hpp: a write through the pointer that `find` returned.
use cpp_rust_performance_lab.Common.{
  ℕ, ◌≡◌, ◌≢◌, inl, inr, refl, sym, ap, ◌∙◌, true, false, Option, none, some, List, [], ◌∷◌, ◌==◌,
  if◌then◌else◌, length, length-set, set, get_elem?, arith, Bool-cases, Option-cases, ℕ_discrete,
}
use cpp_rust_performance_lab.FixedIndex.{
  Slot, FixedIndex, entry, entry_at, find_slot, find, entries, assign,
}
use cpp_rust_performance_lab.FixedIndex.Search.{IsIndex, entry_lt, find_slot-cases}
use cpp_rust_performance_lab.FixedIndex.Shift.{held, entry_at-set, entries-set}
use cpp_rust_performance_lab.FixedIndex.View.{
  IsTable, option_ext, find_absent, find_present, find-Within,
}

module _ {V : Type 0} (t : FixedIndex V) (good : IsTable t) (id : ℕ) (v : V) where
  -- what the identifier has after the write
  abbrev pub written : Option V → Option V
  written none = none
  written (some old) = some v

  pub record IsWritten (u : FixedIndex V) : Type 0 where
    pub table : IsTable u
    pub found : (j : ℕ) → find j u ≡ (if j == id then written (find id t) else find j t)

  module _ (i : ℕ) (s : Slot V) (old : V) (there : get_elem? t.slots i ≡ some s)
      (e : entry_at t.slots i ≡ some (id, old)) where
    abbrev slots' : List (Slot V)
    slots' = set t.slots i (record s { value = v })

    abbrev updated : FixedIndex V
    updated = record t { slots = slots' }

    same_size : length slots' ≡ length t.slots
    same_size = length-set t.slots i (record s { value = v })

    new_entry : entry (some (record s { value = v })) ≡ some (id, v)
    new_entry =
        let was : entry (some s) ≡ some (id, old) = sym (ap entry there) ∙ e in
        elim (Bool-cases s.occupied) [
          | inl full ↦
              (let both : ◌≡◌ {A = Option (ℕ × V)} (some (s.id, s.value)) (some (id, old)) =
                  rw full at was in
                let same : s.id ≡ id = cc in rw (full, same) refl)
          | inr free ↦
              (let both : ◌≡◌ {A = Option (ℕ × V)} none (some (id, old)) = rw free at was in
                absurd cc)
        ]

    slots'_at : (j : ℕ) → entry_at slots' j ≡ (if j == i then some (id, v) else entry_at t.slots j)
    slots'_at j =
        let new = new_entry in
        entry_at-set t.slots i j (record s { value = v }) (entry_lt t.slots i id old e)
        ∙ rw new refl

    -- The slot holds another value, and any other what it did.
    before :
        (j key : ℕ) (x : V)
        → entry_at slots' j ≡ some (key, x)
        → (y : V) × (entry_at t.slots j ≡ some (key, y)) × (key ≢ id → y ≡ x) × (key ≡ id → x ≡ v)
    before j key x f = elim (Bool-cases (j == i)) [
      | inl same ↦
          (let both : ◌≡◌ {A = Option (ℕ × V)} (some (id, v)) (some (key, x)) =
              rw same at (sym (slots'_at j) ∙ f) in
            let own : id ≡ key = cc in
            let at : j ≡ i = ground arith in
            (
              old,
              ap (entry_at t.slots) at ∙ e ∙ ap (λ (k : ℕ). some (k, old)) own,
              λ ne. absurd (ne (sym own)),
              λ q. cc,
            ))
      | inr other ↦
          (let g : entry_at t.slots j ≡ some (key, x) = rw other at (sym (slots'_at j) ∙ f) in
            (
              x,
              g,
              λ ne. refl,
              λ own. absurd (
                  let at = good.index.unique j i id x old (g ∙ ap (λ (k : ℕ). some (k, x)) own) e in
                  ground arith),
            ))
    ]

    still : (j : ℕ) → entry_at t.slots j ≢ none → entry_at slots' j ≢ none
    still j full gone = elim (Bool-cases (j == i)) [
      | inl q ↦
          (let both : ◌≡◌ {A = Option (ℕ × V)} (some (id, v)) none =
              rw q at (sym (slots'_at j) ∙ gone) in
            absurd cc)
      | inr q ↦ full (rw q at (sym (slots'_at j) ∙ gone))
    ]

    slots'-IsIndex : IsIndex slots'
    slots'-IsIndex = record {
      power = rw same_size good.index.power;
      reach = λ j key x f k lk near.
          (let (y, g, ne, own) = before j key x f in
            still k (good.index.reach j key y g k (rw same_size at lk) (rw same_size at near)));
      unique = λ j k key x y f g.
          (let (x', f', a, b) = before j key x f in
            let (y', g', c, d) = before k key y g in good.index.unique j k key x' y' f' g');
      nonzero = λ j key x f. (let (y, g, a, b) = before j key x f in good.index.nonzero j key y g);
      free = (
        good.index.free.0,
        rw same_size good.index.free.1,
        elim (Bool-cases (good.index.free.0 == i)) [
          | inr other ↦ slots'_at good.index.free.0 ∙ rw other good.index.free.2
          | inl same ↦
              (let at : good.index.free.0 ≡ i = ground arith in
                let both : ◌≡◌ {A = Option (ℕ × V)} none (some (id, old)) =
                  sym good.index.free.2 ∙ ap (entry_at t.slots) at ∙ e in
                absurd cc)
        ],
      );
    }

    same_count : length (entries slots') ≡ length (entries t.slots)
    same_count =
        let lt = entry_lt t.slots i id old e in
        let was : held (entry_at t.slots i) ≡ 1 = ap held e in
        let is : held (entry (some (record s { value = v }))) ≡ 1 = ap held new_entry in
        omega (arith, entries-set t.slots i (record s { value = v }) lt, was, is)

    found_new : find id updated ≡ some v
    found_new =
        let self : (i == i) ≡ true = ground arith in
        (find-Within updated slots'-IsIndex id v).1 (i, slots'_at i ∙ rw self refl)

    found_old : (j : ℕ) → j ≢ id → find j updated ≡ find j t
    found_old j ne = option_ext (find j updated) (find j t) (λ x. (
      λ f.
          (let b = (find-Within updated slots'-IsIndex j x).0 f in
            let (y, g, same, own) = before b.0 j x b.1 in
            (find-Within t good.index j x).1 (b.0, g ∙ ap (λ (z : V). some (j, z)) (same ne))),
      λ f.
          (let b = (find-Within t good.index j x).0 f in
            (find-Within updated slots'-IsIndex j x).1 (
              b.0,
              slots'_at b.0 ∙ elim (Bool-cases (b.0 == i)) [
                | inr other ↦ rw other b.1
                | inl same ↦
                    (let at : b.0 ≡ i = ground arith in
                      let both : ◌≡◌ {A = Option (ℕ × V)} (some (j, x)) (some (id, old)) =
                        sym b.1 ∙ ap (entry_at t.slots) at ∙ e in
                      absurd (ne cc))
              ],
            )),
    ))

    updated-IsWritten : find id t ≡ some old → IsWritten updated
    updated-IsWritten was = record {
      table = record {
        index = slots'-IsIndex;
        counted = good.counted ∙ sym same_count;
        size_le = good.size_le;
        roomy = omega (arith, same_size, good.roomy);
        eight_le = omega (arith, same_size, good.eight_le);
      };
      found = λ j. elim (ℕ_discrete j id) [
        | yes same ↦
            let self : (j == id) ≡ true = ground arith in
            rw (self, was) (ap (λ (k : ℕ). find k updated) same ∙ found_new)
        | no ne ↦ let other : (j == id) ≡ false = ground arith in rw other (found_old j ne)
      ];
    }

  past_end : (slots : List (Slot V)) → get_elem? slots (length slots) ≡ none
  past_end [] = refl
  past_end (s ∷ slots) = past_end slots

  unchanged : find_slot id t.slots ≡ length t.slots → assign id v t ≡ t
  unfolding assign
  unchanged missed = let out = past_end t.slots in rw (missed, out) refl

  -- A write through the pointer that `find` returned leaves a consistent index in which `find` returns
  -- the new value for the identifier, if it was there, and for any other what it did.
  pub assign_lem : IsWritten (assign id v t)
  assign_lem = elim (find_slot-cases t.slots id good.index) [
    | inl (missed, absent) ↦
        let gone = find_absent t good.index id missed in
        let same = unchanged missed in
        rw same (record {
          table = good;
          found = λ j. elim (ℕ_discrete j id) [
            | yes q ↦
                let self : (j == id) ≡ true = ground arith in
                rw (self, gone) (ap (λ (k : ℕ). find k t) q ∙ gone)
            | no ne ↦ let other : (j == id) ≡ false = ground arith in rw other refl
          ];
        })
    | inr (lt, old, e) ↦ elim (Option-cases (get_elem? t.slots (find_slot id t.slots))) [
      | inl q ↦
          (let both : ◌≡◌ {A = Option (ℕ × V)} none (some (id, old)) = sym (ap entry q) ∙ e in
            absurd cc)
      | inr (s, there) ↦
          let run : assign id v t ≡ updated (find_slot id t.slots) s old there e =
            unfold assign in rw there refl in
          rw run (
            updated-IsWritten (find_slot id t.slots) s old there e
              (find_present t good.index id old lt e))
    ]
  ]
