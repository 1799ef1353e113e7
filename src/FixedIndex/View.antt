-- ===== src/FixedIndex/View.antt =====
-- cpp/include/llab/fixed_order_index.hpp: a consistent index as a map from identifiers to values, which
-- is what `find` reads.
use cpp_rust_performance_lab.Common.{
  ℕ, suc, ◌*◌, ◌≤◌, ◌<◌, ◌≡◌, ◌↔◌, inl, inr, refl, sym, true, false, Option, none, some, List, [],
  ◌∷◌, ◌==◌, length, get_elem?, arith, Bool-cases,
}
use cpp_rust_performance_lab.FixedIndex.{
  Slot, FixedIndex, entry, entry_at, find_slot, find, value_of, entries,
}
use cpp_rust_performance_lab.FixedIndex.Search.{IsIndex, find_slot-cases}
use cpp_rust_performance_lab.FixedIndex.Shift.{Within}

module _ {V : Type 0} where
  -- A consistent index, whose count is the number of its entries, with room for its maximum.
  pub record IsTable (t : FixedIndex V) : Type 0 where
    pub index : IsIndex t.slots
    pub counted : t.size ≡ length (entries t.slots)
    pub size_le : t.size ≤ t.maximum_live_entries
    pub roomy : t.maximum_live_entries * 2 ≤ length t.slots
    pub eight_le : 8 ≤ length t.slots

  pub option_ext : (o p : Option V) → ((v : V) → (o ≡ some v) ↔ (p ≡ some v)) → o ≡ p
  option_ext none none same = refl
  option_ext none (some v) same = (same v).1 refl
  option_ext (some v) p same = sym ((same v).0 refl)

  -- what a slot with an entry holds
  entry-value :
      (o : Option (Slot V)) (id : ℕ) (v : V) → entry o ≡ some (id, v) → value_of o ≡ some v
  entry-value none id v e = absurd cc
  entry-value (some s) id v e = elim (Bool-cases s.occupied) [
    | inl full ↦
        (let both : ◌≡◌ {A = Option (ℕ × V)} (some (s.id, s.value)) (some (id, v)) = rw full at e in
          cc)
    | inr gone ↦
        (let both : ◌≡◌ {A = Option (ℕ × V)} none (some (id, v)) = rw gone at e in absurd cc)
  ]

  module _ (t : FixedIndex V) (good : IsIndex t.slots) (id : ℕ) where
    pub find_absent : find_slot id t.slots ≡ length t.slots → find id t ≡ none
    unfolding find
    find_absent missed =
        let self : (length t.slots == length t.slots) ≡ true = ground arith in
        rw (missed, self) refl

    pub find_present :
        (v : V)
        → find_slot id t.slots < length t.slots
        → entry_at t.slots (find_slot id t.slots) ≡ some (id, v)
        → find id t ≡ some v
    unfolding find
    find_present v lt e =
        let other : (find_slot id t.slots == length t.slots) ≡ false = ground arith in
        rw other (entry-value (get_elem? t.slots (find_slot id t.slots)) id v e)

    -- `find` reads what the slots hold.
    pub find-Within : (v : V) → (find id t ≡ some v) ↔ Within t.slots id v
    find-Within v = elim (find_slot-cases t.slots id good) [
      | inl (missed, absent) ↦
          (λ e. (let gone = find_absent missed in absurd cc), λ b. absurd (absent b.0 v b.1))
      | inr (lt, x, e) ↦ (
        λ f.
            (let g = find_present x lt e in
              let same : x ≡ v = cc in (find_slot id t.slots, rw (← same) e)),
        λ b.
            (let at : find_slot id t.slots ≡ b.0 =
                good.unique (find_slot id t.slots) b.0 id x v e b.1 in
              let e' : entry_at t.slots (find_slot id t.slots) ≡ some (id, v) = rw at b.1 in
              find_present v lt e'),
      )
    ]

  -- an index with fewer entries than slots has a free slot
  pub free_slot :
      (slots : List (Slot V))
      → length (entries slots) < length slots
      → (i : ℕ) × (i < length slots) × (entry_at slots i ≡ none)
  unfolding entries
  free_slot [] few = absurd (omega arith)
  free_slot (s ∷ slots) few = elim (Bool-cases s.occupied) [
    | inr gone ↦ (0, omega arith, rw gone refl)
    | inl full ↦ let (i, lt, e) = free_slot slots (ground arith) in (suc i, omega arith, e)
  ]

  pub entries_le : (slots : List (Slot V)) → length (entries slots) ≤ length slots
  unfolding entries
  entries_le [] = omega arith
  entries_le (s ∷ slots) = ground (arith, entries_le slots)
