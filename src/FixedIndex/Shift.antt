-- ===== src/FixedIndex/Shift.antt =====
-- cpp/include/llab/fixed_order_index.hpp: the hole that the loop of `erase_at` moves on, and the slots
-- when it stops.
use cpp_rust_performance_lab.Common.{
  ℕ, zero, suc, ◌+◌, ◌≤◌, ◌<◌, ◌≡◌, ◌≢◌, inl, inr, refl, sym, ap, ◌∙◌, true, false, Option, none,
  some, List, [], ◌∷◌, ◌==◌, leb, if◌then◌else◌, length, length-set, set, get_elem?,
  get_elem?-set_self, get_elem?-set_ne, arith, Bool-cases, ℕ_discrete,
}
use cpp_rust_performance_lab.ProbeTable.Trail.{gap, gap_lt, gap_self}
use cpp_rust_performance_lab.FixedIndex.{Slot, home, entry, entry_at, entries}
use cpp_rust_performance_lab.FixedIndex.Ring.{IsPower, home-lt, gap-split, gap-join, gap_injective}
use cpp_rust_performance_lab.FixedIndex.Search.{IsIndex, entry_lt}

module _ {V : Type 0} where
  -- A write to a slot.
  pub entry_at-set :
      (slots : List (Slot V)) (i j : ℕ) (s : Slot V)
      → i < length slots
      → entry_at (set slots i s) j ≡ (if j == i then entry (some s) else entry_at slots j)
  entry_at-set slots i j s h = elim (ℕ_discrete i j) [
    | yes same ↦
        let self : (j == i) ≡ true = ground arith in
        rw (self, ← same, get_elem?-set_self slots i s h) refl
    | no ne ↦
        let other : (j == i) ≡ false = ground arith in
        rw (other, get_elem?-set_ne slots i j s ne) refl
  ]

  -- how many entries a slot holds
  abbrev pub held : Option (ℕ × V) → ℕ
  held none = 0
  held (some e) = 1

  pub entries-set :
      (slots : List (Slot V)) (i : ℕ) (s : Slot V)
      → i < length slots
      → length (entries (set slots i s)) + held (entry_at slots i)
        ≡ length (entries slots) + held (entry (some s))
  unfolding entries
  entries-set [] i s h = absurd (omega arith)
  entries-set (x ∷ slots) zero s h = ground arith
  entries-set (x ∷ slots) (suc i) s h = ground (arith, entries-set slots i s (omega arith))

  -- The hole has an entry that is to go, the slots from it to `next` are occupied, and the ways of
  -- their entries do not pass the hole.
  pub record IsHole (slots : List (Slot V)) (hole next : ℕ) : Type 0 where
    pub power : IsPower (length slots)
    pub hole_lt : hole < length slots
    pub next_lt : next < length slots
    pub behind : 1 ≤ gap (length slots) hole next
    pub filled :
        (j : ℕ)
        → j < length slots
        → gap (length slots) hole j < gap (length slots) hole next
        → entry_at slots j ≢ none
    pub reach :
        (i id : ℕ) (v : V)
        → i ≢ hole
        → entry_at slots i ≡ some (id, v)
        → (j : ℕ) → j < length slots
        → gap (length slots) (home id (length slots)) j
          < gap (length slots) (home id (length slots)) i
        → entry_at slots j ≢ none
    pub clear :
        (i id : ℕ) (v : V)
        → i ≢ hole
        → entry_at slots i ≡ some (id, v)
        → gap (length slots) hole i < gap (length slots) hole next
        → gap (length slots) (home id (length slots)) i
          ≤ gap (length slots) (home id (length slots)) hole
    pub unique :
        (i j id : ℕ) (v w : V)
        → i ≢ hole
        → j ≢ hole
        → entry_at slots i ≡ some (id, v)
        → entry_at slots j ≡ some (id, w)
        → i ≡ j
    pub nonzero : (i id : ℕ) (v : V) → i ≢ hole → entry_at slots i ≡ some (id, v) → id ≢ 0
    pub free : (i : ℕ) × (i < length slots) × (entry_at slots i ≡ none)

  -- what the slots but the hole hold, and what the slots hold
  abbrev pub Besides : List (Slot V) → ℕ → ℕ → V → Type 0
  Besides slots hole id v = (i : ℕ) × (i ≢ hole) × (entry_at slots i ≡ some (id, v))

  abbrev pub Within : List (Slot V) → ℕ → V → Type 0
  Within slots id v = (i : ℕ) × (entry_at slots i ≡ some (id, v))

  module _ (slots : List (Slot V)) (hole next : ℕ) (h : IsHole slots hole next) where
    pub next_ne : next ≢ hole
    next_ne e =
        omega (arith, h.behind, ap (gap (length slots) hole) e, gap_self (length slots) hole)

    pub hole_filled : entry_at slots hole ≢ none
    hole_filled = h.filled hole h.hole_lt (omega (arith, h.behind, gap_self (length slots) hole))

    -- The free slot lies beyond `next`.
    pub free_beyond :
        (w : ℕ) (x : V)
        → entry_at slots next ≡ some (w, x)
        → gap (length slots) hole next < gap (length slots) hole h.free.0
    free_beyond w x e =
        elim (Bool-cases (leb (gap (length slots) hole h.free.0) (gap (length slots) hole next))) [
          | inr far ↦ ground arith
          | inl near ↦
              elim (ℕ_discrete (gap (length slots) hole h.free.0) (gap (length slots) hole next)) [
                | no ne ↦ absurd (h.filled h.free.0 h.free.1 (ground arith) h.free.2)
                | yes same ↦
                    let at =
                      gap_injective (length slots) hole h.free.0 next h.hole_lt h.free.1 h.next_lt
                        same in
                    let both : ◌≡◌ {A = Option (ℕ × V)} none (some (w, x)) =
                      sym h.free.2 ∙ ap (entry_at slots) at ∙ e in
                    absurd cc
              ]
        ]

    -- The loop ends at a free slot.
    module _ (s : Slot V) (there : get_elem? slots hole ≡ some s)
        (stop : entry_at slots next ≡ none) where
      abbrev pub vacated : List (Slot V)
      vacated = set slots hole (record s { occupied = false })

      pub vacated_at : (j : ℕ) → entry_at vacated j ≡ (if j == hole then none else entry_at slots j)
      vacated_at j = entry_at-set slots hole j (record s { occupied = false }) h.hole_lt

      pub kept :
          (i id : ℕ) (v : V)
          → entry_at vacated i ≡ some (id, v)
          → (i ≢ hole) × (entry_at slots i ≡ some (id, v))
      kept i id v e = elim (Bool-cases (i == hole)) [
        | inl same ↦
            let gone : ◌≡◌ {A = Option (ℕ × V)} (some (id, v)) none =
              rw same at (sym e ∙ vacated_at i) in
            absurd cc
        | inr other ↦ (ground arith, rw other at (sym (vacated_at i) ∙ e))
      ]

      pub back :
          (i id : ℕ) (v : V)
          → i ≢ hole
          → entry_at slots i ≡ some (id, v)
          → entry_at vacated i ≡ some (id, v)
      back i id v ne e = let other : (i == hole) ≡ false = ground arith in vacated_at i ∙ rw other e

      -- No way passes the hole.
      passes_not :
          (i id : ℕ) (v : V)
          → i ≢ hole
          → entry_at slots i ≡ some (id, v)
          → gap (length slots) (home id (length slots)) i
            ≤ gap (length slots) (home id (length slots)) hole
      passes_not i id v ne e =
          let n = length slots in
          let a = home id n in
          let la = home-lt n h.power id in
          let li = entry_lt slots i id v e in
          elim (Bool-cases (leb (gap n a i) (gap n a hole))) [
            | inl le ↦ ground arith
            | inr crosses ↦
                let split = gap-split n a hole i la h.hole_lt li (ground arith) in
                elim (Bool-cases (leb (gap n hole next) (gap n hole i))) [
                  | inr near ↦ h.clear i id v ne e (ground arith)
                  | inl far ↦ elim (ℕ_discrete (gap n hole next) (gap n hole i)) [
                    | yes same ↦
                        let at = gap_injective n hole next i h.hole_lt h.next_lt li same in
                        let both : ◌≡◌ {A = Option (ℕ × V)} none (some (id, v)) =
                          sym stop ∙ ap (entry_at slots) at ∙ e in
                        absurd cc
                    | no apart ↦
                        let bound = gap_lt n a i la li in
                        let reached =
                          gap-join n a hole next la h.hole_lt h.next_lt (ground arith) in
                        absurd (h.reach i id v ne e next h.next_lt (ground arith) stop)
                  ]
                ]
          ]

      pub vacated-IsIndex : IsIndex vacated
      vacated-IsIndex =
          let size = length-set slots hole (record s { occupied = false }) in
          record {
            power = rw size h.power;
            reach = λ i id v e j lj closer.
                (let (ne, e') = kept i id v e in
                  let lj' : j < length slots = rw size at lj in
                  let closer' : gap (length slots) (home id (length slots)) j
                      < gap (length slots) (home id (length slots)) i =
                    rw size at closer in
                  let le = passes_not i id v ne e' in
                  λ gone. elim (ℕ_discrete j hole) [
                    | yes same ↦
                        omega (
                          arith,
                          closer',
                          le,
                          ap (gap (length slots) (home id (length slots))) same,
                        )
                    | no apart ↦
                        let other : (j == hole) ≡ false = ground arith in
                        h.reach i id v ne e' j lj' closer' (rw other at (sym (vacated_at j) ∙ gone))
                  ]);
            unique = λ i j id v w e g.
                (let (ne, e') = kept i id v e in
                  let (ne', g') = kept j id w g in h.unique i j id v w ne ne' e' g');
            nonzero = λ i id v e. (let (ne, e') = kept i id v e in h.nonzero i id v ne e');
            free = (
              hole,
              rw size h.hole_lt,
              (let self : (hole == hole) ≡ true = ground arith in vacated_at hole ∙ rw self refl),
            );
          }
