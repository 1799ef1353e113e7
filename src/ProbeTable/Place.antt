-- ===== src/ProbeTable/Place.antt =====
-- cpp/src/parity_order_book.cpp: a consistent index, what it holds for an identifier, and the slots
-- that its two searches return.
use cpp_rust_performance_lab.Common.{
  ℕ, zero, suc, ◌<◌, ◌≡◌, ◌≢◌, ◌⊎◌, inl, inr, refl, true, false, not, ◌||◌, Bool, Option, none,
  some, List, [], ◌∷◌, length, get_elem?, arith, Bool-cases,
}
use cpp_rust_performance_lab.ProbeTable.{
  SlotState, empty, occupied, tombstone, Slot, own, see, see_in, home, find_from, find_slot,
  insertion_from, insertion_slot,
}
use cpp_rust_performance_lab.ProbeTable.Trail.{IsSized, home_lt, Reach, walk_covers}
use cpp_rust_performance_lab.ProbeTable.Search.{
  at, taken, taken_in, find_from-Found, find_from_reaches, insertion_from-Placed,
  insertion_from_present, insertion_from_absent,
}

module _ {ℓ} {A : Type ℓ} where
  pub record IsProbe (slots : List (Slot A)) : Type 0 where
    pub sized : IsSized slots
    pub reach : (id i : ℕ) → at slots id i ≡ own → Reach slots id i
    pub unique : (id i j : ℕ) → at slots id i ≡ own → at slots id j ≡ own → i ≡ j

  abbrev pub order_in : Option (Slot A) → Option A
  order_in none = none
  order_in (some s) = some s.order

  -- the order that the index holds for an identifier
  unfoldable pub lookup : ℕ → List (Slot A) → Option A
  lookup id slots = order_in (get_elem? slots (find_slot id slots))

  -- whether some slot holds no order
  unfoldable pub room : List (Slot A) → Bool
  room [] = false
  room (s ∷ slots) = not (taken (some s)) || room slots

  pub get_elem?_end : (slots : List (Slot A)) → get_elem? slots (length slots) ≡ none
  get_elem?_end [] = refl
  get_elem?_end (s ∷ slots) = get_elem?_end slots

  pub get_elem?_lt :
      (slots : List (Slot A)) (i : ℕ)
      → i < length slots
      → (s : Slot A) × (get_elem? slots i ≡ some s)
  get_elem?_lt [] i h = absurd (omega arith)
  get_elem?_lt (s ∷ slots) zero h = (s, refl)
  get_elem?_lt (s ∷ slots) (suc i) h = get_elem?_lt slots i (omega arith)

  room_at :
      (slots : List (Slot A))
      → room slots ≡ true
      → (i : ℕ) × (i < length slots) × (taken (get_elem? slots i) ≡ false)
  unfolding room
  room_at [] h = absurd cc
  room_at (s ∷ slots) h = elim (Bool-cases (taken (some s))) [
    | inr free ↦ (zero, omega arith, free)
    | inl full ↦ let (i, k, f) = room_at slots (ground arith) in (suc i, omega arith, f)
  ]

  pub at_room :
      (slots : List (Slot A)) (i : ℕ)
      → i < length slots
      → taken (get_elem? slots i) ≡ false
      → room slots ≡ true
  unfolding room
  at_room [] i h f = absurd (omega arith)
  at_room (s ∷ slots) zero h f = ground arith
  at_room (s ∷ slots) (suc i) h f = ground (arith, at_room slots i (omega arith) f)

  -- A slot holds one identifier.
  pub at_one :
      (slots : List (Slot A)) (id j i : ℕ) → at slots id i ≡ own → at slots j i ≡ own → j ≡ id
  at_one slots id j i = one_of (get_elem? slots i)
    where
      one_in : (x : SlotState) (k : ℕ) → see_in x id k ≡ own → see_in x j k ≡ own → j ≡ id
      one_in empty k h l = absurd cc
      one_in tombstone k h l = absurd cc
      one_in occupied k h l = ground arith

      one_of : (o : Option (Slot A)) → see id o ≡ own → see j o ≡ own → j ≡ id
      one_of none h l = absurd cc
      one_of (some s) h l = one_in s.state s.order_id h l

  pub taken_own :
      (slots : List (Slot A)) (id i : ℕ) → taken (get_elem? slots i) ≡ false → at slots id i ≢ own
  taken_own slots id i = free_of (get_elem? slots i)
    where
      free_in : (x : SlotState) (k : ℕ) → taken_in x ≡ false → see_in x id k ≢ own
      free_in empty k f h = cc
      free_in tombstone k f h = cc
      free_in occupied k f h = cc

      free_of : (o : Option (Slot A)) → taken o ≡ false → see id o ≢ own
      free_of none f h = cc
      free_of (some s) f h = free_in s.state s.order_id f h

  -- A slot that may hold `id`: no other slot does, it holds no other identifier, and a search for
  -- `id` comes by.
  pub record IsPlace (slots : List (Slot A)) (id i : ℕ) : Type 0 where
    pub lt : i < length slots
    pub only : (k : ℕ) → at slots id k ≡ own → k ≡ i
    pub apart : (j : ℕ) → j ≢ id → at slots j i ≢ own
    pub reached : Reach slots id i

  module _ (slots : List (Slot A)) (id : ℕ) (v : IsProbe slots) where
    start : home id slots < length slots
    start = home_lt slots id v.sized

    abbrev pub IsAbsent : Type 0
    IsAbsent = (j : ℕ) → at slots id j ≢ own

    -- `find_slot` decides whether the index holds the identifier.
    pub find_slot-cases :
        ((find_slot id slots ≡ length slots) × IsAbsent × (lookup id slots ≡ none))
        ⊎ ((find_slot id slots < length slots)
            × (at slots id (find_slot id slots) ≡ own)
            × IsPlace slots id (find_slot id slots)
            × (s : Slot A) × (get_elem? slots (find_slot id slots) ≡ some s)
            × (lookup id slots ≡ some s.order))
    unfolding find_slot lookup
    find_slot-cases = elim (find_from-Found slots id v.sized (length slots) (home id slots) start) [
      | inl e ↦ inl (
        e,
        λ j o.
            (let (n, k, p) = v.reach id j o in
              let found =
                find_from_reaches slots id v.sized n (length slots) (home id slots) j start k p o in
              omega (arith, e, found)),
        rw (e, get_elem?_end slots) refl,
      )
      | inr (h, o) ↦
          let (s, g) = get_elem?_lt slots (find_from (length slots) (home id slots) id slots) h in
          inr (
            h,
            o,
            record {
              lt = h;
              only = λ k q. v.unique id k (find_from (length slots) (home id slots) id slots) q o;
              apart = λ j ne q.
                  ne (at_one slots id j (find_from (length slots) (home id slots) id slots) o q);
              reached = v.reach id (find_from (length slots) (home id slots) id slots) o;
            },
            s,
            g,
            rw g refl,
          )
    ]

    -- `insertion_slot` decides whether the index can take the identifier: it has no slot for one
    -- that is there, nor where every slot holds an order.
    pub insertion_slot-cases :
        ((insertion_slot id slots ≡ length slots)
          × (((a : A) × (lookup id slots ≡ some a)) ⊎ (room slots ≡ false)))
        ⊎ ((insertion_slot id slots < length slots)
            × IsPlace slots id (insertion_slot id slots)
            × (lookup id slots ≡ none)
            × (room slots ≡ true))
    insertion_slot-cases = elim find_slot-cases [
      | inr (h, o, place, s, g, l) ↦
          let (n, k, p) = v.reach id (find_slot id slots) o in
          inl (
            unfold insertion_slot in
                insertion_from_present slots id v.sized n (length slots) (home id slots)
                  (length slots) (find_slot id slots) start k p o,
            inl (s.order, l),
          )
      | inl (e, absent, l) ↦
          elim (insertion_from-Placed slots id v.sized (length slots) (home id slots) start) [
            | inl full ↦ inl (unfold insertion_slot in full, inr (no_room absent full))
            | inr (h, f, m, k, p) ↦ inr (
              unfold insertion_slot in h,
              unfold insertion_slot in
                  record {
                    lt = h;
                    only = λ j o. absurd (absent j o);
                    apart = λ j ne o.
                        taken_own slots j
                          (insertion_from (length slots) (home id slots) (length slots) id slots) f
                          o;
                    reached = (m, k, p);
                  },
              l,
              at_room slots (insertion_from (length slots) (home id slots) (length slots) id slots)
                  h f,
            )
          ]
    ]
      where
        no_room :
            IsAbsent
            → insertion_from (length slots) (home id slots) (length slots) id slots ≡ length slots
            → room slots ≡ false
        no_room absent full = elim (Bool-cases (room slots)) [
          | inr none_free ↦ none_free
          | inl free ↦
              let (i, h, f) = room_at slots free in
              let (m, k, w) = walk_covers (length slots) (home id slots) i start h in
              let found =
                insertion_from_absent slots id v.sized m (length slots) (home id slots) start k
                  absent (rw w f) in
              absurd (omega (arith, full, found))
        ]
