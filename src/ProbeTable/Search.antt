-- ===== src/ProbeTable/Search.antt =====
-- cpp/src/parity_order_book.cpp: what `find_slot` and `insertion_slot` return.
use cpp_rust_performance_lab.Common.{
  ℕ, zero, suc, ◌<◌, ◌≡◌, ◌≢◌, ◌⊎◌, inl, inr, refl, ap, ◌∙◌, true, false, Bool, Option, none, some,
  List, length, get_elem?, arith,
}
use cpp_rust_performance_lab.ProbeTable.{
  SlotState, empty, occupied, tombstone, Slot, Seen, unused, dead, own, other, see, see_in,
  find_from, first, insertion_from,
}
use cpp_rust_performance_lab.ProbeTable.Trail.{
  step, step_lt, vacant, vacant_in, IsSized, advance_lem, Trail, walk,
}

abbrev pub taken_in : SlotState → Bool
taken_in occupied = true
taken_in _ = false

pub Seen-cases : (x : Seen) → (x ≡ unused) ⊎ (x ≡ own) ⊎ (x ≡ dead) ⊎ (x ≡ other)
Seen-cases unused = inl refl
Seen-cases own = inr (inl refl)
Seen-cases dead = inr (inr (inl refl))
Seen-cases other = inr (inr (inr refl))

module _ {ℓ} {A : Type ℓ} where
  -- what a probe for `id` meets at index `i`
  abbrev pub at : List (Slot A) → ℕ → ℕ → Seen
  at slots id i = see id (get_elem? slots i)

  -- whether a slot holds an order
  abbrev pub taken : Option (Slot A) → Bool
  taken none = false
  taken (some s) = taken_in s.state

  pub at-vacant :
      (slots : List (Slot A)) (id i : ℕ)
      → at slots id i ≢ unused
      → vacant (get_elem? slots i) ≡ false
  at-vacant slots id i = vacant_of (get_elem? slots i)
    where
      vacant_in-see : (x : SlotState) (j : ℕ) → see_in x id j ≢ unused → vacant_in x ≡ false
      vacant_in-see empty j h = absurd (h refl)
      vacant_in-see occupied j h = refl
      vacant_in-see tombstone j h = refl

      vacant_of : (o : Option (Slot A)) → see id o ≢ unused → vacant o ≡ false
      vacant_of none h = absurd (h refl)
      vacant_of (some s) h = vacant_in-see s.state s.order_id h

  pub at-taken :
      (slots : List (Slot A)) (id i : ℕ)
      → at slots id i ≢ own
      → at slots id i ≢ other
      → taken (get_elem? slots i) ≡ false
  at-taken slots id i = taken_of (get_elem? slots i)
    where
      taken_in-see :
          (x : SlotState) (j : ℕ) → see_in x id j ≢ own → see_in x id j ≢ other → taken_in x ≡ false
      taken_in-see empty j h k = refl
      taken_in-see tombstone j h k = refl
      taken_in-see occupied j h k = absurd (ground arith)

      taken_of : (o : Option (Slot A)) → see id o ≢ own → see id o ≢ other → taken o ≡ false
      taken_of none h k = refl
      taken_of (some s) h k = taken_in-see s.state s.order_id h k

  at-filled :
      (slots : List (Slot A)) (id i : ℕ)
      → at slots id i ≡ unused
      → vacant (get_elem? slots i) ≢ false
  at-filled slots id i = filled_of (get_elem? slots i)
    where
      filled_in : (x : SlotState) (j : ℕ) → see_in x id j ≡ unused → vacant_in x ≢ false
      filled_in empty j h k = cc
      filled_in tombstone j h k = cc
      filled_in occupied j h k = ground arith

      filled_of : (o : Option (Slot A)) → see id o ≡ unused → vacant o ≢ false
      filled_of none h k = cc
      filled_of (some s) h k = filled_in s.state s.order_id h k

  at-other :
      (slots : List (Slot A)) (id i : ℕ) → at slots id i ≡ other → taken (get_elem? slots i) ≢ false
  at-other slots id i = other_of (get_elem? slots i)
    where
      other_in : (x : SlotState) (j : ℕ) → see_in x id j ≡ other → taken_in x ≢ false
      other_in empty j h k = cc
      other_in tombstone j h k = cc
      other_in occupied j h k = cc

      other_of : (o : Option (Slot A)) → see id o ≡ other → taken o ≢ false
      other_of none h k = cc
      other_of (some s) h k = other_in s.state s.order_id h k

  module _ (slots : List (Slot A)) (id : ℕ) (v : IsSized slots) where
    -- the rounds of the two loops
    find_from_unused :
        (rounds i : ℕ) → at slots id i ≡ unused → find_from (suc rounds) i id slots ≡ length slots
    unfolding find_from
    find_from_unused rounds i e = rw (e, find_from) refl

    find_from_own : (rounds i : ℕ) → at slots id i ≡ own → find_from (suc rounds) i id slots ≡ i
    unfolding find_from
    find_from_own rounds i e = rw (e, find_from) refl

    find_from_on :
        (rounds i : ℕ)
        → i < length slots
        → (at slots id i ≡ dead) ⊎ (at slots id i ≡ other)
        → find_from (suc rounds) i id slots ≡ find_from rounds (step (length slots) i) id slots
    unfolding find_from
    find_from_on rounds i h (inl e) = rw (e, find_from, advance_lem slots i v h) refl
    find_from_on rounds i h (inr e) = rw (e, find_from, advance_lem slots i v h) refl

    insertion_from_unused :
        (rounds i tomb : ℕ)
        → at slots id i ≡ unused
        → insertion_from (suc rounds) i tomb id slots ≡ first tomb i slots
    unfolding insertion_from
    insertion_from_unused rounds i tomb e = rw (e, insertion_from) refl

    insertion_from_own :
        (rounds i tomb : ℕ)
        → at slots id i ≡ own
        → insertion_from (suc rounds) i tomb id slots ≡ length slots
    unfolding insertion_from
    insertion_from_own rounds i tomb e = rw (e, insertion_from) refl

    insertion_from_dead :
        (rounds i tomb : ℕ)
        → i < length slots
        → at slots id i ≡ dead
        → insertion_from (suc rounds) i tomb id slots
          ≡ insertion_from rounds (step (length slots) i) (first tomb i slots) id slots
    unfolding insertion_from
    insertion_from_dead rounds i tomb h e = rw (e, insertion_from, advance_lem slots i v h) refl

    insertion_from_other :
        (rounds i tomb : ℕ)
        → i < length slots
        → at slots id i ≡ other
        → insertion_from (suc rounds) i tomb id slots
          ≡ insertion_from rounds (step (length slots) i) tomb id slots
    unfolding insertion_from
    insertion_from_other rounds i tomb h e = rw (e, insertion_from, advance_lem slots i v h) refl

    -- An index that the search returns holds the identifier.
    abbrev pub Found : ℕ → Type 0
    Found j = (j ≡ length slots) ⊎ ((j < length slots) × (at slots id j ≡ own))

    pub find_from-Found : (rounds i : ℕ) → i < length slots → Found (find_from rounds i id slots)
    find_from-Found zero i h = unfold find_from in inl refl
    find_from-Found (suc rounds) i h =
        let next = find_from-Found rounds (step (length slots) i) (step_lt (length slots) i h) in
        elim (Seen-cases (at slots id i)) [
          | inl e ↦ inl (find_from_unused rounds i e)
          | inr (inl e) ↦ rw (find_from_own rounds i e) (inr (h, e))
          | inr (inr e) ↦ rw (find_from_on rounds i h e) next
        ]

    -- It returns an index where a path without an empty slot leads to the identifier.
    pub find_from_reaches :
        (n rounds i target : ℕ)
        → i < length slots
        → n < rounds
        → Trail slots n i target
        → at slots id target ≡ own
        → find_from rounds i id slots < length slots
    find_from_reaches n zero i target h k p o = absurd (omega arith)
    find_from_reaches zero (suc rounds) i target h k p o =
        rw (find_from_own rounds i (ap (at slots id) p ∙ o)) h
    find_from_reaches (suc n) (suc rounds) i target h k p o =
        let next =
          find_from_reaches n rounds (step (length slots) i) target (step_lt (length slots) i h)
            (omega arith) p.1 o in
        elim (Seen-cases (at slots id i)) [
          | inl e ↦ absurd (at-filled slots id i e p.0)
          | inr (inl e) ↦ rw (find_from_own rounds i e) h
          | inr (inr e) ↦ rw (find_from_on rounds i h e) next
        ]

    -- Once a tombstone is remembered, the loop returns it or finds the identifier.
    insertion_from_tomb :
        (rounds i tomb : ℕ)
        → i < length slots
        → tomb < length slots
        → (insertion_from rounds i tomb id slots ≡ tomb)
          ⊎ (insertion_from rounds i tomb id slots ≡ length slots)
    insertion_from_tomb zero i tomb h t = unfold insertion_from in inl refl
    insertion_from_tomb (suc rounds) i tomb h t =
        let next =
          insertion_from_tomb rounds (step (length slots) i) tomb (step_lt (length slots) i h) t in
        let kept : first tomb i slots ≡ tomb = ground arith in
        elim (Seen-cases (at slots id i)) [
          | inl e ↦ inl (insertion_from_unused rounds i tomb e ∙ kept)
          | inr (inl e) ↦ inr (insertion_from_own rounds i tomb e)
          | inr (inr (inl e)) ↦ rw (insertion_from_dead rounds i tomb h e, kept) next
          | inr (inr (inr e)) ↦ rw (insertion_from_other rounds i tomb h e) next
        ]

    -- An index that the insertion returns holds no order, and a path leads to it.
    abbrev pub Placed : ℕ → ℕ → ℕ → Type 0
    Placed rounds i j =
        (j ≡ length slots)
        ⊎ ((j < length slots)
            × (taken (get_elem? slots j) ≡ false)
            × (m : ℕ) × (m < rounds)
            × Trail slots m i j)

    here-Placed :
        (rounds i : ℕ)
        → i < length slots
        → at slots id i ≢ own
        → at slots id i ≢ other
        → Placed (suc rounds) i i
    here-Placed rounds i h a b = inr (h, at-taken slots id i a b, zero, omega arith, refl)

    later-Placed :
        (rounds i j : ℕ)
        → at slots id i ≢ unused
        → Placed rounds (step (length slots) i) j
        → Placed (suc rounds) i j
    later-Placed rounds i j a (inl e) = inl e
    later-Placed rounds i j a (inr (h, f, m, k, p)) =
        inr (h, f, suc m, omega arith, (at-vacant slots id i a, p))

    pub insertion_from-Placed :
        (rounds i : ℕ)
        → i < length slots
        → Placed rounds i (insertion_from rounds i (length slots) id slots)
    insertion_from-Placed zero i h = unfold insertion_from in inl refl
    insertion_from-Placed (suc rounds) i h =
        let n = length slots in
        let next = insertion_from-Placed rounds (step n i) (step_lt n i h) in
        let now : first n i slots ≡ i = ground arith in
        elim (Seen-cases (at slots id i)) [
          | inl e ↦
              rw (insertion_from_unused rounds i n e, now)
                (here-Placed rounds i h (λ o. cc) (λ o. cc))
          | inr (inl e) ↦ inl (insertion_from_own rounds i n e)
          | inr (inr (inl e)) ↦
              rw (insertion_from_dead rounds i n h e, now)
                (elim (insertion_from_tomb rounds (step n i) i (step_lt n i h) h) [
                  | inl same ↦ rw same (here-Placed rounds i h (λ o. cc) (λ o. cc))
                  | inr full ↦ inl full
                ])
          | inr (inr (inr e)) ↦
              rw (insertion_from_other rounds i n h e)
                (later-Placed rounds i (insertion_from rounds (step n i) n id slots) (λ o. cc) next)
        ]

    -- An identifier that is there gets no second slot.
    pub insertion_from_present :
        (n rounds i tomb target : ℕ)
        → i < length slots
        → n < rounds
        → Trail slots n i target
        → at slots id target ≡ own
        → insertion_from rounds i tomb id slots ≡ length slots
    insertion_from_present n zero i tomb target h k p o = absurd (omega arith)
    insertion_from_present zero (suc rounds) i tomb target h k p o =
        insertion_from_own rounds i tomb (ap (at slots id) p ∙ o)
    insertion_from_present (suc n) (suc rounds) i tomb target h k p o =
        let next = step_lt (length slots) i h in
        elim (Seen-cases (at slots id i)) [
          | inl e ↦ absurd (at-filled slots id i e p.0)
          | inr (inl e) ↦ insertion_from_own rounds i tomb e
          | inr (inr (inl e)) ↦
              insertion_from_dead rounds i tomb h e
              ∙ insertion_from_present n rounds (step (length slots) i) (first tomb i slots) target
                  next (omega arith) p.1 o
          | inr (inr (inr e)) ↦
              insertion_from_other rounds i tomb h e
              ∙ insertion_from_present n rounds (step (length slots) i) tomb target next
                  (omega arith) p.1 o
        ]

    -- One that is absent gets a slot if the loop comes by one that holds no order.
    insertion_from_absent_tomb :
        (rounds i tomb : ℕ)
        → i < length slots
        → tomb < length slots
        → ((j : ℕ) → at slots id j ≢ own)
        → insertion_from rounds i tomb id slots < length slots
    insertion_from_absent_tomb zero i tomb h t a = unfold insertion_from in t
    insertion_from_absent_tomb (suc rounds) i tomb h t a =
        let next =
          insertion_from_absent_tomb rounds (step (length slots) i) tomb
            (step_lt (length slots) i h) t a in
        let kept : first tomb i slots ≡ tomb = ground arith in
        elim (Seen-cases (at slots id i)) [
          | inl e ↦ rw (insertion_from_unused rounds i tomb e, kept) t
          | inr (inl e) ↦ absurd (a i e)
          | inr (inr (inl e)) ↦ rw (insertion_from_dead rounds i tomb h e, kept) next
          | inr (inr (inr e)) ↦ rw (insertion_from_other rounds i tomb h e) next
        ]

    pub insertion_from_absent :
        (m rounds i : ℕ)
        → i < length slots
        → m < rounds
        → ((j : ℕ) → at slots id j ≢ own)
        → taken (get_elem? slots (walk (length slots) m i)) ≡ false
        → insertion_from rounds i (length slots) id slots < length slots
    insertion_from_absent m zero i h k a f = absurd (omega arith)
    insertion_from_absent zero (suc rounds) i h k a f =
        let n = length slots in
        let now : first n i slots ≡ i = ground arith in
        elim (Seen-cases (at slots id i)) [
          | inl e ↦ rw (insertion_from_unused rounds i n e, now) h
          | inr (inl e) ↦ absurd (a i e)
          | inr (inr (inl e)) ↦
              rw (insertion_from_dead rounds i n h e, now)
                (insertion_from_absent_tomb rounds (step n i) i (step_lt n i h) h a)
          | inr (inr (inr e)) ↦ absurd (at-other slots id i e (unfold walk in f))
        ]
    insertion_from_absent (suc m) (suc rounds) i h k a f =
        let n = length slots in
        let now : first n i slots ≡ i = ground arith in
        let next =
          insertion_from_absent m rounds (step n i) (step_lt n i h) (omega arith) a
            (unfold walk in f) in
        elim (Seen-cases (at slots id i)) [
          | inl e ↦ rw (insertion_from_unused rounds i n e, now) h
          | inr (inl e) ↦ absurd (a i e)
          | inr (inr (inl e)) ↦
              rw (insertion_from_dead rounds i n h e, now)
                (insertion_from_absent_tomb rounds (step n i) i (step_lt n i h) h a)
          | inr (inr (inr e)) ↦ rw (insertion_from_other rounds i n h e) next
        ]
