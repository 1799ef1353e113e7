-- ===== src/IndexedBook/Upsert.antt =====
-- cpp/src/parity_order_book.cpp: `upsert_order` against the contract of a bounded book.
use cpp_rust_performance_lab.Common.{
  ℕ, ◌-◌, ◌≤◌, ◌≡◌, ◌⊎◌, inl, inr, refl, Bool, true, false, ◌||◌, none, ◌==◌, if◌then◌else◌, ltb,
  u64_max, arith, Bool-cases,
}
use cpp_rust_performance_lab.Book.{
  Order, Exception, invalid_argument, overflow_error, Exit, done, raised,
}
use cpp_rust_performance_lab.Book.Table
use cpp_rust_performance_lab.Book.Table.{Orders, total}
use cpp_rust_performance_lab.Book.Spec
use cpp_rust_performance_lab.Book.Spec.{Verdict, accept, reject}
use cpp_rust_performance_lab.Book.Bounded
use cpp_rust_performance_lab.OrderBook.Valid.{share_self}
use cpp_rust_performance_lab.ProbeTable.{Slot}
use cpp_rust_performance_lab.ProbeTable.Place.{room}
use cpp_rust_performance_lab.IndexedBook.{
  LevelOps, Book, require_slot, add_order, upsert_order, write_order,
}
use cpp_rust_performance_lab.IndexedBook.Levels.{LevelLaws}
use cpp_rust_performance_lab.IndexedBook.Valid.{
  IsValid, Meets, IsFound, require_slot-cases, write_order-IsValid,
}
use cpp_rust_performance_lab.IndexedBook.Operations.{add_order-Meets}

module _ {L : Type 0} {ops : LevelOps L} {in_range : ℕ → Bool} (laws : LevelLaws ops in_range) where
  -- The book that an upsert's exception leaves: the one before, or, where it replaces an order, one
  -- whose index still holds that order while the levels have lost it.
  abbrev pub Torn : Book L → Orders → ℕ → Exception → Book L → Type 0
  Torn b t id x b' =
      (b' ≡ b)
      ⊎ ((b'.slots ≡ b.slots)
          × (b'.live ≡ b.live)
          × (Bounded.contains id t ≡ true)
          × laws.Holds (λ s p. total s p (Table.erase id t)) b'.levels)

  pub Meets-weaken :
      (kept kept' : Exception → Book L → Type 0) (out : Exit (Book L)) (verdict : Verdict)
      → ((x : Exception) (b : Book L) → kept x b → kept' x b)
      → Meets laws kept out verdict
      → Meets laws kept' out verdict
  Meets-weaken kept kept' (done b) (accept t) h m = m
  Meets-weaken kept kept' (raised x b) (reject y) h m = (m.0, h x b m.1)
  Meets-weaken kept kept' (done b) (reject y) h m = elim m [ ]
  Meets-weaken kept kept' (raised x b) (accept t) h m = elim m [ ]

  module _ (b : Book L) (t : Orders) (v : IsValid laws b t) (id : ℕ) where
    upsert_absent :
        (o : Order)
        → (id == 0 || o.remaining_quantity == 0) ≡ false
        → o.remaining_quantity ≤ u64_max
        → require_slot id b.slots ≡ none
        → Table.find id t ≡ none
        → Meets laws
            (Torn b t id)
            (upsert_order ops id o b)
            (Bounded.upsert in_range (room b.slots) id o t)
    upsert_absent o good small e absent =
        let stop : upsert_order ops id o b ≡ add_order ops id o b =
          unfold upsert_order in rw (good, upsert_order, e) refl in
        let spec : Bounded.upsert in_range (room b.slots) id o t
            ≡ Bounded.place in_range (room b.slots) id o t =
          unfold Bounded.upsert Bounded.place Spec.upsert Spec.place in ground arith in
        rw (stop, spec)
          (Meets-weaken (λ _ b'. b' ≡ b) (Torn b t id) (add_order ops id o b)
            (Bounded.place in_range (room b.slots) id o t) (λ x b' same. inl same)
            (add_order-Meets laws b t v id o small))

    upsert_present :
        (o : Order) (i : ℕ) (s : Slot Order)
        → (id == 0 || o.remaining_quantity == 0) ≡ false
        → o.remaining_quantity ≤ u64_max
        → IsFound laws b t id i s
        → Meets laws
            (Torn b t id)
            (upsert_order ops id o b)
            (Bounded.upsert in_range (room b.slots) id o t)
    upsert_present o i s good small found =
        let old = s.order in
        let p = o.price_ticks in
        let q = o.remaining_quantity in
        let u = Table.erase id t in
        let (_, pos, _) = Table.find-IsTable id old t v.table found.3 in
        let there : Bounded.contains id t ≡ true = ground arith in
        let (l, sub, h) =
          laws.subtract_fits (λ x r. total x r t) (λ x r. total x r u) b.levels old.side
            old.price_ticks old.remaining_quantity v.holds pos
            (omega
              (arith, Table.total-erase id old old.side old.price_ticks t found.3, share_self old))
            (λ x r. Table.total-erase id old x r t found.3) in
        elim (Bool-cases (in_range p)) [
          | inr outside ↦
              let run = laws.add_outside (λ x r. total x r u) l o.side p q h outside in
              let stop : upsert_order ops id o b
                  ≡ raised invalid_argument (record b { levels = l }) =
                unfold upsert_order in rw (good, upsert_order, found.0, sub, run) refl in
              let spec : Bounded.upsert in_range (room b.slots) id o t ≡ reject invalid_argument =
                unfold Bounded.upsert in rw (outside) (ground arith) in
              rw (stop, spec) (refl, inr (refl, refl, there, h))
          | inl inside ↦
              let spec : Bounded.upsert in_range (room b.slots) id o t ≡ (
                  if ltb (u64_max - total o.side p u) q
                  then reject overflow_error
                  else accept (Table.assign id o t)) =
                unfold Bounded.upsert Spec.upsert in ground arith in
              elim (Bool-cases (ltb (u64_max - total o.side p u) q)) [
                | inl over ↦
                    let bound = laws.bounded (λ x r. total x r u) l o.side p h in
                    let run =
                      laws.add_overflows (λ x r. total x r u) l o.side p q h inside small
                        (ground arith) in
                    let stop : upsert_order ops id o b
                        ≡ raised overflow_error (record b { levels = l }) =
                      unfold upsert_order in rw (good, upsert_order, found.0, sub, run) refl in
                    rw (stop, spec, over) (refl, inr (refl, refl, there, h))
                | inr fits ↦
                    let bound = laws.bounded (λ x r. total x r u) l o.side p h in
                    let (l', run, h') =
                      laws.add_fits (λ x r. total x r u) (λ x r. total x r (Table.assign id o t)) l
                        o.side p q h inside (ground arith) (ground arith)
                        (λ x r. omega (
                          arith,
                          Table.total-assign id o old x r t found.3,
                          Table.total-erase id old x r t found.3,
                        )) in
                    let stop : upsert_order ops id o b
                        ≡ done (write_order i s o (record b { levels = l' })) =
                      unfold upsert_order in rw (good, upsert_order, found.0, sub, run) refl in
                    rw (stop, spec, fits)
                      (write_order-IsValid laws b t v id i l' s o found (ground arith) small h')
              ]
        ]

    pub upsert_order-Meets :
        (o : Order)
        → o.remaining_quantity ≤ u64_max
        → Meets laws
            (Torn b t id)
            (upsert_order ops id o b)
            (Bounded.upsert in_range (room b.slots) id o t)
    upsert_order-Meets o small = elim (Bool-cases (id == 0 || o.remaining_quantity == 0)) [
      | inl bad ↦
          let stop : upsert_order ops id o b ≡ raised invalid_argument b =
            unfold upsert_order in rw bad refl in
          let spec : Bounded.upsert in_range (room b.slots) id o t ≡ reject invalid_argument =
            unfold Bounded.upsert Spec.upsert in ground arith in
          rw (stop, spec) (refl, inl refl)
      | inr good ↦ elim (require_slot-cases laws b t id v) [
        | inl (e, absent) ↦ upsert_absent o good small e absent
        | inr (i, s, found) ↦ upsert_present o i s good small found
      ]
    ]
