-- ===== src/IndexedBook/Valid.antt =====
-- cpp/src/parity_order_book.cpp: when a book agrees with a table of live orders, and what a write
-- to the order index does to the agreement.
use cpp_rust_performance_lab.Common.{
  ℕ, ◌+◌, ◌%◌, ◌≤◌, ◌<◌, ◌≡◌, ◌≢◌, ◌⊎◌, inl, inr, refl, sym, ap, ◌∙◌, Bool, true, false, none, some,
  u64_mod, u64_max, length, set, arith,
}
use cpp_rust_performance_lab.Book.{Side, Order, Exception, Exit, done, raised}
use cpp_rust_performance_lab.Book.Table
use cpp_rust_performance_lab.Book.Table.{Orders, IsTable, total}
use cpp_rust_performance_lab.Book.Spec.{Verdict, accept, reject}
use cpp_rust_performance_lab.ProbeTable.{
  SlotState, empty, occupied, tombstone, Slot, own, see, see_in, find_slot, insertion_slot,
}
use cpp_rust_performance_lab.ProbeTable.Trail.{vacant_in}
use cpp_rust_performance_lab.ProbeTable.Place.{
  IsProbe, IsPlace, lookup, room, find_slot-cases, insertion_slot-cases,
}
use cpp_rust_performance_lab.ProbeTable.Update.{
  set-IsProbe, lookup-set_occupied, lookup-set_tombstone,
}
use cpp_rust_performance_lab.IndexedBook.{LevelOps, Book, require_slot, bury, write_order}
use cpp_rust_performance_lab.IndexedBook.Levels.{LevelLaws}

-- What a slot that a search returns is.
own_state : (x : SlotState) (id k : ℕ) → see_in x id k ≡ own → (x ≡ occupied) × (k ≡ id)
own_state empty id k h = absurd cc
own_state tombstone id k h = absurd cc
own_state occupied id k h = ground arith

module _ {L : Type 0} {ops : LevelOps L} {in_range : ℕ → Bool} (laws : LevelLaws ops in_range) where
  -- The index is consistent and holds what the table holds, the levels hold the table's totals, and
  -- the count is the number of orders.
  pub record IsValid (b : Book L) (t : Orders) : Type 0 where
    pub index : IsProbe b.slots
    pub table : IsTable t
    pub agrees : (id : ℕ) → lookup id b.slots ≡ Table.find id t
    pub holds : laws.Holds (λ s p. total s p t) b.levels
    pub counted : b.live ≡ length t % u64_mod

  -- A normal return leaves a valid book over the accepted table; an exception is the one that the
  -- contract names, and leaves a book that `kept` describes.
  abbrev pub Meets : (Exception → Book L → Type 0) → Exit (Book L) → Verdict → Type 0
  Meets kept (done b) (accept t) = IsValid b t
  Meets kept (raised x b) (reject y) = (x ≡ y) × kept x b
  Meets kept _ _ = ⊥

  pub total-le : (b : Book L) (t : Orders) (s : Side) (p : ℕ) → IsValid b t → total s p t ≤ u64_max
  total-le b t s p v = laws.bounded (λ s p. total s p t) b.levels s p v.holds

  -- what `find_slot` says of the table
  abbrev pub IsFound : Book L → Orders → ℕ → ℕ → Slot Order → Type 0
  IsFound b t id i s =
      (require_slot id b.slots ≡ some (i, s))
      × IsPlace b.slots id i
      × (see id (some s) ≡ own)
      × (Table.find id t ≡ some s.order)

  pub require_slot-cases :
      (b : Book L) (t : Orders) (id : ℕ)
      → IsValid b t
      → ((require_slot id b.slots ≡ none) × (Table.find id t ≡ none))
        ⊎ ((i : ℕ) × (s : Slot Order) × IsFound b t id i s)
  require_slot-cases b t id v = elim (find_slot-cases b.slots id v.index) [
    | inl (e, absent, l) ↦
        inl (unfold require_slot in rw (require_slot, e) (ground arith), sym (v.agrees id) ∙ l)
    | inr (h, o, place, s, g, l) ↦ inr (
      find_slot id b.slots,
      s,
      (
        (unfold require_slot in ground (arith, g)),
        place,
        sym (ap (see id) g) ∙ o,
        sym (v.agrees id) ∙ l,
      ),
    )
  ]

  module _ (b : Book L) (t : Orders) (v : IsValid b t) (id i : ℕ) (l : L) where
    pub bury-IsValid :
        (s : Slot Order)
        → IsFound b t id i s
        → laws.Holds (λ x p. total x p (Table.erase id t)) l
        → IsValid (bury i s (record b { levels = l })) (Table.erase id t)
    bury-IsValid s (r, place, o, f) h =
        let s' : Slot Order = record s { state = tombstone } in
        record {
          index = set-IsProbe b.slots id i s' v.index place refl (λ j q. absurd cc);
          table = Table.erase-IsTable id t v.table;
          agrees = λ j.
              lookup-set_tombstone b.slots id i s' v.index place refl (λ k q. absurd cc) j (λ q. cc)
              ∙ ground (arith, v.agrees j, Table.find-erase id j t v.table);
          holds = h;
          counted = omega (arith, v.counted, Table.length-erase id s.order t f);
        }

    pub write_order-IsValid :
        (s : Slot Order) (o : Order)
        → IsFound b t id i s
        → 0 < o.remaining_quantity
        → o.remaining_quantity ≤ u64_max
        → laws.Holds (λ x p. total x p (Table.assign id o t)) l
        → IsValid (write_order i s o (record b { levels = l })) (Table.assign id o t)
    write_order-IsValid s o (r, place, w, f) pos small h =
        let s' : Slot Order = record s { order = o } in
        let mine : (j : ℕ) → see j (some s') ≡ own → j ≡ id =
          λ j q. sym (own_state s.state j s.order_id q).1 ∙ (own_state s.state id s.order_id w).1 in
        let filled : vacant_in s.state ≡ false = rw (own_state s.state id s.order_id w).0 refl in
        record {
          index = set-IsProbe b.slots id i s' v.index place filled mine;
          table = Table.assign-IsTable id o s.order t f v.table pos small;
          agrees = λ j.
              lookup-set_occupied b.slots id i s' v.index place filled mine j w
              ∙ ground (arith, v.agrees j, Table.find-assign id j o s.order t f);
          holds = h;
          counted = omega (arith, v.counted, Table.length-assign id o t);
        }

    pub insert-IsValid :
        (o : Order)
        → IsPlace b.slots id i
        → Table.find id t ≡ none
        → id ≢ 0
        → 0 < o.remaining_quantity
        → o.remaining_quantity ≤ u64_max
        → laws.Holds (λ x p. total x p (Table.emplace id o t)) l
        → IsValid
            (record b {
              slots = set b.slots i (record { order_id = id; order = o; state = occupied });
              levels = l;
              live = (b.live + 1) % u64_mod;
            })
            (Table.emplace id o t)
    unfolding Table.emplace Table.find
    insert-IsValid o place absent nz pos small h =
        let s' : Slot Order = record { order_id = id; order = o; state = occupied } in
        let mine : (j : ℕ) → see j (some s') ≡ own → j ≡ id = λ j q. ground arith in
        record {
          index = set-IsProbe b.slots id i s' v.index place refl mine;
          table = ground (arith, v.table);
          agrees = λ j.
              lookup-set_occupied b.slots id i s' v.index place refl mine j (ground arith)
              ∙ ground (arith, v.agrees j);
          holds = h;
          counted = omega (arith, v.counted);
        }

  -- what `insertion_slot` says of the table
  pub insertion-cases :
      (b : Book L) (t : Orders) (id : ℕ)
      → IsValid b t
      → ((insertion_slot id b.slots ≡ length b.slots)
          × (((o : Order) × (Table.find id t ≡ some o)) ⊎ (room b.slots ≡ false)))
        ⊎ ((insertion_slot id b.slots < length b.slots)
            × IsPlace b.slots id (insertion_slot id b.slots)
            × (Table.find id t ≡ none)
            × (room b.slots ≡ true))
  insertion-cases b t id v = elim (insertion_slot-cases b.slots id v.index) [
    | inl (e, inl (o, there)) ↦ inl (e, inl (o, sym (v.agrees id) ∙ there))
    | inl (e, inr full) ↦ inl (e, inr full)
    | inr (h, place, absent, free) ↦ inr (h, place, sym (v.agrees id) ∙ absent, free)
  ]
