-- ===== src/IndexedBook/Mapped.antt =====
-- The order index of cpp/src/parity_order_book.cpp and cpp/src/bitmap_ladder_order_book.cpp: its
-- searches do not depend on the orders that the slots hold.
use cpp_rust_performance_lab.Common.{
  ℕ, zero, suc, ◌≡◌, refl, ap, ◌∙◌, Bool, not, ◌||◌, Option, none, some, List, [], ◌∷◌, inl, inr,
  ◌==◌, length, set, get_elem?, Bool-cases, Option-cases,
}
use cpp_rust_performance_lab.ProbeTable.{
  Slot, see, home, advance, find_from, find_slot, first, insertion_from, insertion_slot,
}
use cpp_rust_performance_lab.ProbeTable.Place.{room}
use cpp_rust_performance_lab.ProbeTable.Search.{Seen-cases, taken}
use cpp_rust_performance_lab.IndexedBook.{require_slot}

-- What a map of the orders of a probe table does to its searches.
module _ {A B : Type 0} (f : A → B) where
  abbrev pub map_slot : Slot A → Slot B
  map_slot s = record { order_id = s.order_id; order = f s.order; state = s.state }

  abbrev pub map_slots : List (Slot A) → List (Slot B)
  map_slots [] = []
  map_slots (s ∷ slots) = map_slot s ∷ map_slots slots

  abbrev pub map_found : Option (Slot A) → Option (Slot B)
  map_found none = none
  map_found (some s) = some (map_slot s)

  pub length-map_slots : (slots : List (Slot A)) → length (map_slots slots) ≡ length slots
  length-map_slots [] = refl
  length-map_slots (s ∷ slots) = ap suc (length-map_slots slots)

  pub get_elem?-map_slots :
      (slots : List (Slot A)) (i : ℕ)
      → get_elem? (map_slots slots) i ≡ map_found (get_elem? slots i)
  get_elem?-map_slots [] i = refl
  get_elem?-map_slots (s ∷ slots) zero = refl
  get_elem?-map_slots (s ∷ slots) (suc i) = get_elem?-map_slots slots i

  pub set-map_slots :
      (slots : List (Slot A)) (i : ℕ) (s : Slot A)
      → map_slots (set slots i s) ≡ set (map_slots slots) i (map_slot s)
  set-map_slots [] i s = refl
  set-map_slots (x ∷ slots) zero s = refl
  set-map_slots (x ∷ slots) (suc i) s = ap (λ t. map_slot x ∷ t) (set-map_slots slots i s)

  see-map_found : (id : ℕ) (o : Option (Slot A)) → see id (map_found o) ≡ see id o
  see-map_found id none = refl
  see-map_found id (some s) = refl

  pub room-map_slots : (slots : List (Slot A)) → room (map_slots slots) ≡ room slots
  unfolding room
  room-map_slots [] = refl
  room-map_slots (s ∷ slots) = ap (λ (t : Bool). not (taken (some s)) || t) (room-map_slots slots)

  module _ (slots : List (Slot A)) where
    home-map_slots : (id : ℕ) → home id (map_slots slots) ≡ home id slots
    unfolding home
    home-map_slots id = rw (length-map_slots slots) refl

    advance-map_slots : (i : ℕ) → advance i (map_slots slots) ≡ advance i slots
    unfolding advance
    advance-map_slots i = rw (length-map_slots slots) refl

    met : (id i : ℕ) → see id (get_elem? (map_slots slots) i) ≡ see id (get_elem? slots i)
    met id i = rw (get_elem?-map_slots slots i) (see-map_found id (get_elem? slots i))

    find_from-map_slots :
        (rounds i id : ℕ) → find_from rounds i id (map_slots slots) ≡ find_from rounds i id slots
    unfolding find_from
    find_from-map_slots zero i id = length-map_slots slots
    find_from-map_slots (suc rounds) i id = elim (Seen-cases (see id (get_elem? slots i))) [
      | inl e ↦ let e' = met id i ∙ e in rw (find_from, e, e') (length-map_slots slots)
      | inr (inl e) ↦ let e' = met id i ∙ e in rw (find_from, e, e') refl
      | inr (inr (inl e)) ↦
          let e' = met id i ∙ e in
          rw (find_from, e, e', advance-map_slots i)
            (find_from-map_slots rounds (advance i slots) id)
      | inr (inr (inr e)) ↦
          let e' = met id i ∙ e in
          rw (find_from, e, e', advance-map_slots i)
            (find_from-map_slots rounds (advance i slots) id)
    ]

    pub find_slot-map_slots : (id : ℕ) → find_slot id (map_slots slots) ≡ find_slot id slots
    unfolding find_slot
    find_slot-map_slots id =
        rw (length-map_slots slots, home-map_slots id)
          (find_from-map_slots (length slots) (home id slots) id)

    insertion_from-map_slots :
        (rounds i tomb id : ℕ)
        → insertion_from rounds i tomb id (map_slots slots) ≡ insertion_from rounds i tomb id slots
    unfolding insertion_from
    insertion_from-map_slots zero i tomb id = refl
    insertion_from-map_slots (suc rounds) i tomb id =
        elim (Seen-cases (see id (get_elem? slots i))) [
          | inl e ↦ let e' = met id i ∙ e in rw (insertion_from, e, e', length-map_slots slots) refl
          | inr (inl e) ↦
              let e' = met id i ∙ e in rw (insertion_from, e, e') (length-map_slots slots)
          | inr (inr (inl e)) ↦
              let e' = met id i ∙ e in
              rw (insertion_from, e, e', advance-map_slots i, length-map_slots slots)
                (insertion_from-map_slots rounds (advance i slots) (first tomb i slots) id)
          | inr (inr (inr e)) ↦
              let e' = met id i ∙ e in
              rw (insertion_from, e, e', advance-map_slots i)
                (insertion_from-map_slots rounds (advance i slots) tomb id)
        ]

    pub insertion_slot-map_slots :
        (id : ℕ) → insertion_slot id (map_slots slots) ≡ insertion_slot id slots
    unfolding insertion_slot
    insertion_slot-map_slots id =
        rw (length-map_slots slots, home-map_slots id)
          (insertion_from-map_slots (length slots) (home id slots) (length slots) id)

    abbrev pub map_place : Option (ℕ × Slot A) → Option (ℕ × Slot B)
    map_place none = none
    map_place (some (i, s)) = some (i, map_slot s)

    pub require_slot-map_slots :
        (id : ℕ) → require_slot id (map_slots slots) ≡ map_place (require_slot id slots)
    unfolding require_slot
    require_slot-map_slots id =
        let i = find_slot-map_slots id in
        let n = length-map_slots slots in
        let there = get_elem?-map_slots slots (find_slot id slots) in
        elim (Bool-cases (find_slot id slots == length slots)) [
          | inl e ↦ rw (require_slot, i, n, e) refl
          | inr e ↦ elim (Option-cases (get_elem? slots (find_slot id slots))) [
            | inl g ↦ rw (require_slot, i, n, e, there, g) refl
            | inr (s, g) ↦ rw (require_slot, i, n, e, there, g, i) refl
          ]
        ]
