-- ===== src/IndexedBook/Operations.antt =====
-- cpp/src/parity_order_book.cpp: `add_order`, `remove_order` and `subtract_from_order` against the
-- contract of a bounded book.
use cpp_rust_performance_lab.Common.{
  ℕ, ◌+◌, ◌-◌, ◌%◌, ◌≤◌, ◌<◌, ◌≡◌, ◌≢◌, inl, inr, refl, ap, Bool, true, false, not, ◌&&◌, ◌||◌,
  none, ◌==◌, ==_iff, ltb, u64_mod, u64_max, length, length-set, set, get_elem?-set_self, arith,
  Bool-cases, ℕ_discrete,
}
use cpp_rust_performance_lab.Book.{Order, invalid_argument, overflow_error, Exit, done, raised}
use cpp_rust_performance_lab.Book.Table
use cpp_rust_performance_lab.Book.Table.{Orders, total}
use cpp_rust_performance_lab.Book.Spec
use cpp_rust_performance_lab.Book.Spec.{Verdict, accept, reject}
use cpp_rust_performance_lab.Book.Bounded
use cpp_rust_performance_lab.OrderBook.Valid.{share_self, share_split}
use cpp_rust_performance_lab.ProbeTable.{Slot, occupied, tombstone, insertion_slot}
use cpp_rust_performance_lab.ProbeTable.Place.{IsPlace, room, at_room}
use cpp_rust_performance_lab.ProbeTable.Search.{taken}
use cpp_rust_performance_lab.IndexedBook.{
  LevelOps, Book, add_order, remove_order, subtract_from_order, bury, write_order,
}
use cpp_rust_performance_lab.IndexedBook.Levels.{LevelLaws}
use cpp_rust_performance_lab.IndexedBook.Valid.{
  IsValid, Meets, total-le, IsFound, require_slot-cases, insertion-cases, bury-IsValid,
  write_order-IsValid, insert-IsValid,
}

abbrev pub HasRoom : {L : Type 0} → Exit (Book L) → Type 0
HasRoom (done b) = room b.slots ≡ true
HasRoom (raised x b) = Unit {0}

module _ {L : Type 0} {ops : LevelOps L} {in_range : ℕ → Bool} (laws : LevelLaws ops in_range)
    (b : Book L) (t : Orders) (v : IsValid laws b t) (id : ℕ) where
  -- where the code throws and the contract rejects
  both_invalid :
      (out : Exit (Book L)) (verdict : Verdict)
      → out ≡ raised invalid_argument b
      → verdict ≡ reject invalid_argument
      → Meets laws (λ _ b'. b' ≡ b) out verdict
  both_invalid out verdict e f = rw (e, f) (refl, refl)

  -- an order that has a slot
  add_placed :
      (o : Order)
      → id ≢ 0
      → 0 < o.remaining_quantity
      → o.remaining_quantity ≤ u64_max
      → insertion_slot id b.slots < length b.slots
      → IsPlace b.slots id (insertion_slot id b.slots)
      → Table.find id t ≡ none
      → in_range o.price_ticks ≡ true
      → Meets laws (λ _ b'. b' ≡ b) (add_order ops id o b) (Spec.place id o t)
  add_placed o nz pos small lt place absent inside =
      let p = o.price_ticks in
      let q = o.remaining_quantity in
      let i = insertion_slot id b.slots in
      let here : (i == length b.slots) ≡ false = ground arith in
      let good : (id == 0 || q == 0) ≡ false = ground arith in
      elim (Bool-cases (ltb (u64_max - total o.side p t) q)) [
        | inl over ↦
            let bound = total-le laws b t o.side p v in
            let run =
              laws.add_overflows (λ s r. total s r t) b.levels o.side p q v.holds inside small
                (ground arith) in
            let stop : add_order ops id o b ≡ raised overflow_error b =
              unfold add_order in rw (good, here, run) refl in
            let spec : Spec.place id o t ≡ reject overflow_error =
              unfold Spec.place in ground arith in
            rw (stop, spec) (refl, refl)
        | inr fits ↦
            let bound = total-le laws b t o.side p v in
            let (l, run, h) =
              laws.add_fits (λ s r. total s r t) (λ s r. total s r (Table.emplace id o t)) b.levels
                o.side p q v.holds inside pos (ground arith)
                (λ s r. unfold Table.emplace total in omega arith) in
            let stop : add_order ops id o b
                ≡ done (record b {
                  slots = set b.slots i (record { order_id = id; order = o; state = occupied });
                  levels = l;
                  live = (b.live + 1) % u64_mod;
                }) =
              unfold add_order in rw (good, here, run) refl in
            let spec : Spec.place id o t ≡ accept (Table.emplace id o t) =
              unfold Spec.place in ground arith in
            rw (stop, spec) (insert-IsValid laws b t v id i l o place absent nz pos small h)
      ]

  pub add_order-Meets :
      (o : Order)
      → o.remaining_quantity ≤ u64_max
      → Meets laws
          (λ _ b'. b' ≡ b)
          (add_order ops id o b)
          (Bounded.place in_range (room b.slots) id o t)
  add_order-Meets o small = elim (Bool-cases (id == 0 || o.remaining_quantity == 0)) [
    | inl bad ↦
        both_invalid (add_order ops id o b) (Bounded.place in_range (room b.slots) id o t)
          (unfold add_order in rw bad refl) (unfold Bounded.place Spec.place in ground arith)
    | inr good ↦ elim (insertion-cases laws b t id v) [
      | inl (e, why) ↦
          let full : (insertion_slot id b.slots == length b.slots) ≡ true = ground arith in
          both_invalid (add_order ops id o b) (Bounded.place in_range (room b.slots) id o t)
            (unfold add_order in rw (good, full) refl)
            (unfold Bounded.place Spec.place in ground arith)
      | inr (lt, place, absent, free) ↦ elim (Bool-cases (in_range o.price_ticks)) [
        | inl inside ↦
            let spec : Bounded.place in_range (room b.slots) id o t ≡ Spec.place id o t =
              unfold Bounded.place in rw (free, inside) refl in
            rw spec (add_placed o (ground arith) (ground arith) small lt place absent inside)
        | inr outside ↦
            let here : (insertion_slot id b.slots == length b.slots) ≡ false = ground arith in
            let run =
              laws.add_outside (λ s r. total s r t) b.levels o.side o.price_ticks
                o.remaining_quantity v.holds outside in
            both_invalid (add_order ops id o b) (Bounded.place in_range (room b.slots) id o t)
              (unfold add_order in rw (good, here, run) refl)
              (unfold Bounded.place in rw (outside) (ground arith))
      ]
    ]
  ]

  pub remove_order-Meets : Meets laws (λ _ b'. b' ≡ b) (remove_order ops id b) (Spec.drop id t)
  remove_order-Meets = elim (require_slot-cases laws b t id v) [
    | inl (e, absent) ↦
        both_invalid (remove_order ops id b) (Spec.drop id t)
          (unfold remove_order in rw (remove_order, e) refl)
          (unfold Spec.drop in rw (Spec.drop, absent) refl)
    | inr (i, s, found) ↦
        let o = s.order in
        let (_, pos, small) = Table.find-IsTable id o t v.table found.3 in
        let (l, run, h) =
          laws.subtract_fits (λ x p. total x p t) (λ x p. total x p (Table.erase id t)) b.levels
            o.side o.price_ticks o.remaining_quantity v.holds pos
            (omega (arith, Table.total-erase id o o.side o.price_ticks t found.3, share_self o))
            (λ x p. Table.total-erase id o x p t found.3) in
        let stop : remove_order ops id b ≡ done (bury i s (record b { levels = l })) =
          unfold remove_order in rw (remove_order, found.0, run) refl in
        let spec : Spec.drop id t ≡ accept (Table.erase id t) =
          unfold Spec.drop in rw (Spec.drop, found.3) refl in
        rw (stop, spec) (bury-IsValid laws b t v id i l s found h)
  ]

  -- A book that an order has left has a slot for another.
  pub remove_order-HasRoom : HasRoom (remove_order ops id b)
  remove_order-HasRoom = elim (require_slot-cases laws b t id v) [
    | inl (e, absent) ↦
        let stop : remove_order ops id b ≡ raised invalid_argument b =
          unfold remove_order in rw (remove_order, e) refl in
        rw stop tt
    | inr (i, s, found) ↦
        let o = s.order in
        let (_, pos, small) = Table.find-IsTable id o t v.table found.3 in
        let (l, run, h) =
          laws.subtract_fits (λ x p. total x p t) (λ x p. total x p (Table.erase id t)) b.levels
            o.side o.price_ticks o.remaining_quantity v.holds pos
            (omega (arith, Table.total-erase id o o.side o.price_ticks t found.3, share_self o))
            (λ x p. Table.total-erase id o x p t found.3) in
        let stop : remove_order ops id b ≡ done (bury i s (record b { levels = l })) =
          unfold remove_order in rw (remove_order, found.0, run) refl in
        let s' : Slot Order = record s { state = tombstone } in
        rw stop (
          at_room (set b.slots i s') i (rw (length-set b.slots i s') found.1.lt)
            (ap taken (get_elem?-set_self b.slots i s' found.1.lt)))
  ]

  -- a reduction that leaves the order in the book
  reduce_partly :
      (i : ℕ) (s : Slot Order) (q : ℕ) (full : Bool)
      → IsFound laws b t id i s
      → 0 < q
      → q < s.order.remaining_quantity
      → Meets laws (λ _ b'. b' ≡ b) (subtract_from_order ops id q full b) (Spec.reduce id q full t)
  reduce_partly i s q full found pos part =
      let o = s.order in
      let o' : Order = record o { remaining_quantity = o.remaining_quantity - q } in
      let (_, _, small) = Table.find-IsTable id o t v.table found.3 in
      let (l, run, h) =
        laws.subtract_fits (λ x p. total x p t) (λ x p. total x p (Table.assign id o' t)) b.levels
          o.side o.price_ticks q v.holds pos
          (omega (arith, Table.total-erase id o o.side o.price_ticks t found.3, share_self o))
          (λ x p.
            omega (
              arith,
              Table.total-assign id o' o x p t found.3,
              share_split x p q o (omega arith),
            )) in
      let good : (q == 0 || ltb o.remaining_quantity q || (not full && q == o.remaining_quantity))
          ≡ false =
        ground arith in
      let keeps : (q == o.remaining_quantity) ≡ false = ground arith in
      let stop : subtract_from_order ops id q full b
          ≡ done (write_order i s o' (record b { levels = l })) =
        unfold subtract_from_order in rw (subtract_from_order, found.0, good, run, keeps) refl in
      let spec : Spec.reduce id q full t ≡ accept (Table.assign id o' t) =
        unfold Spec.reduce in rw (Spec.reduce, found.3, good, keeps) refl in
      rw (stop, spec)
        (write_order-IsValid laws b t v id i l s o' found (omega arith) (omega arith) h)

  -- one that takes all of the order is its removal
  reduce_fully :
      (i : ℕ) (s : Slot Order)
      → IsFound laws b t id i s
      → Meets laws
          (λ _ b'. b' ≡ b)
          (subtract_from_order ops id s.order.remaining_quantity true b)
          (Spec.reduce id s.order.remaining_quantity true t)
  reduce_fully i s found =
      let o = s.order in
      let q = o.remaining_quantity in
      let (_, pos, small) = Table.find-IsTable id o t v.table found.3 in
      let good : (q == 0 || ltb q q || (not true && q == q)) ≡ false = ground arith in
      let all : (q == q) ≡ true = (==_iff q q).1 refl in
      let stop : subtract_from_order ops id q true b ≡ remove_order ops id b =
        unfold subtract_from_order remove_order in
        rw (subtract_from_order, remove_order, found.0, good, all) refl in
      let spec : Spec.reduce id q true t ≡ Spec.drop id t =
        unfold Spec.reduce Spec.drop in rw (Spec.reduce, Spec.drop, found.3, good, all) refl in
      rw (stop, spec) remove_order-Meets

  pub subtract_from_order-Meets :
      (q : ℕ) (full : Bool)
      → Meets laws (λ _ b'. b' ≡ b) (subtract_from_order ops id q full b) (Spec.reduce id q full t)
  subtract_from_order-Meets q full = elim (require_slot-cases laws b t id v) [
    | inl (e, absent) ↦
        both_invalid (subtract_from_order ops id q full b) (Spec.reduce id q full t)
          (unfold subtract_from_order in rw (subtract_from_order, e) refl)
          (unfold Spec.reduce in rw (Spec.reduce, absent) refl)
    | inr (i, s, found) ↦
        let left = s.order.remaining_quantity in
        elim (Bool-cases (q == 0 || ltb left q || (not full && q == left))) [
          | inl bad ↦
              both_invalid (subtract_from_order ops id q full b) (Spec.reduce id q full t)
                (unfold subtract_from_order in rw (subtract_from_order, found.0, bad) refl)
                (unfold Spec.reduce in rw (Spec.reduce, found.3, bad) refl)
          | inr good ↦ elim (ℕ_discrete q left) [
            | yes all ↦
                let allowed : full ≡ true = ground arith in
                rw (all, allowed) (reduce_fully i s found)
            | no part ↦ reduce_partly i s q full found (ground arith) (ground arith)
          ]
        ]
  ]
