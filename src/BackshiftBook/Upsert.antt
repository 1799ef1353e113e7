-- ===== src/BackshiftBook/Upsert.antt =====
-- cpp/src/bitmap_backshift_order_book.cpp: `upsert` against the contract of a bounded book.
use cpp_rust_performance_lab.Common.{
  ℕ, ◌-◌, ◌≤◌, ◌≡◌, ◌⊎◌, inl, inr, refl, ◌∙◌, Bool, false, ◌||◌, none, some, ◌==◌, if◌then◌else◌,
  ltb, u64_max, arith, Bool-cases, Option-cases,
}
use cpp_rust_performance_lab.Book.{
  Side, Order, Exception, invalid_argument, overflow_error, done, raised,
}
use cpp_rust_performance_lab.Book.Table
use cpp_rust_performance_lab.Book.Table.{Orders, total}
use cpp_rust_performance_lab.Book.Spec
use cpp_rust_performance_lab.Book.Spec.{Verdict, accept, reject}
use cpp_rust_performance_lab.Book.Bounded
use cpp_rust_performance_lab.OrderBook.Valid.{share_self}
use cpp_rust_performance_lab.DenseBook.Arrays.{covers}
use cpp_rust_performance_lab.BitmapLevels.{price_count}
use cpp_rust_performance_lab.BitmapLevels.Laws.{bitmap_laws}
use cpp_rust_performance_lab.FixedIndex.{find, assign}
use cpp_rust_performance_lab.BackshiftBook.{BackshiftBook, add_order, upsert}
use cpp_rust_performance_lab.BackshiftBook.Valid.{
  IsValid, IsStray, IsTorn, Meets, Meets-weaken, has_room, written-IsValid,
}
use cpp_rust_performance_lab.BackshiftBook.Operations.{Added, add_order-Meets}

module _ (m : ℕ) (b : BackshiftBook) (t : Orders) (v : IsValid m b t) (id : ℕ) (o : Order) where
  abbrev in_range : ℕ → Bool
  in_range = covers m price_count

  -- what an upsert may leave
  abbrev pub Upserted : BackshiftBook → Type 0
  Upserted b' = (IsValid m b' t ⊎ IsStray m id o b' t) ⊎ IsTorn m id b' t

  abbrev verdict : Verdict
  verdict = Bounded.upsert in_range (has_room b.orders) id o t

  rejected :
      (x : Exception) (b' : BackshiftBook)
      → upsert id o b ≡ raised x b'
      → verdict ≡ reject x
      → Upserted b'
      → Meets m Upserted (some (upsert id o b)) verdict
  rejected x b' e g k = rw (e, g) (refl, k)

  upsert_absent :
      (id == 0 || o.remaining_quantity == 0) ≡ false
      → o.remaining_quantity ≤ u64_max
      → Table.find id t ≡ none
      → Meets m Upserted (some (upsert id o b)) verdict
  upsert_absent good small absent =
      let unknown : find id b.orders ≡ none = v.agrees id ∙ absent in
      let stop : upsert id o b ≡ add_order id o b =
        unfold upsert in rw (good, upsert, unknown) refl in
      let spec : verdict ≡ Bounded.place in_range (has_room b.orders) id o t =
        unfold Bounded.upsert Bounded.place Spec.upsert Spec.place in ground arith in
      rw (stop, spec)
        (Meets-weaken m (Added m b t v id o) Upserted (some (add_order id o b))
          (Bounded.place in_range (has_room b.orders) id o t) (λ b' k. inl k)
          (add_order-Meets m b t v id o small))

  upsert_present :
      (old : Order)
      → (id == 0 || o.remaining_quantity == 0) ≡ false
      → o.remaining_quantity ≤ u64_max
      → Table.find id t ≡ some old
      → Meets m Upserted (some (upsert id o b)) verdict
  upsert_present old good small there =
      let laws = bitmap_laws m in
      let p = o.price_ticks in
      let q = o.remaining_quantity in
      let r = Table.erase id t in
      let rest : Side → ℕ → ℕ = λ x s. total x s (Table.erase id t) in
      let known : find id b.orders ≡ some old = v.agrees id ∙ there in
      let (_, pos, _) = Table.find-IsTable id old t v.table there in
      let (l, sub, h) =
        laws.subtract_fits (λ x s. total x s t) rest b.levels old.side old.price_ticks
          old.remaining_quantity v.holds pos
          (omega (arith, Table.total-erase id old old.side old.price_ticks t there, share_self old))
          (λ x s. Table.total-erase id old x s t there) in
      let torn : IsTorn m id (record b { levels = l }) t = record {
        index = v.index;
        agrees = v.agrees;
        holds = h;
        counted = v.counted;
      } in
      elim (Bool-cases (in_range p)) [
        | inr outside ↦
            let run = laws.add_outside rest l o.side p q h outside in
            rejected invalid_argument (record b { levels = l })
              (unfold upsert in rw (good, upsert, known, sub, run) refl)
              (unfold Bounded.upsert in rw outside (ground arith)) (inr torn)
        | inl inside ↦
            let spec : verdict ≡ (
                if ltb (u64_max - total o.side p r) q
                then reject overflow_error
                else accept (Table.assign id o t)) =
              unfold Bounded.upsert Spec.upsert in ground arith in
            let bound = laws.bounded rest l o.side p h in
            elim (Bool-cases (ltb (u64_max - total o.side p r) q)) [
              | inl over ↦
                  let run = laws.add_overflows rest l o.side p q h inside small (ground arith) in
                  rejected overflow_error (record b { levels = l })
                    (unfold upsert in rw (good, upsert, known, sub, run) refl) (spec ∙ rw over refl)
                    (inr torn)
              | inr fits ↦
                  let (l', run, h') =
                    laws.add_fits rest (λ x s. total x s (Table.assign id o t)) l o.side p q h
                      inside (ground arith) (ground arith)
                      (λ x s. omega (
                        arith,
                        Table.total-assign id o old x s t there,
                        Table.total-erase id old x s t there,
                      )) in
                  let stop : upsert id o b
                      ≡ done
                          (record { orders = assign id o b.orders; levels = l'; live = b.live }) =
                    unfold upsert in rw (good, upsert, known, sub, run) refl in
                  rw (stop, spec, fits)
                    (written-IsValid m b t v id l' old o there (ground arith) small h')
            ]
      ]

  pub upsert-Meets :
      o.remaining_quantity ≤ u64_max → Meets m Upserted (some (upsert id o b)) verdict
  upsert-Meets small = elim (Bool-cases (id == 0 || o.remaining_quantity == 0)) [
    | inl bad ↦
        rejected invalid_argument b (unfold upsert in rw bad refl)
          (unfold Bounded.upsert Spec.upsert in ground arith) (inl (inl v))
    | inr good ↦ elim (Option-cases (Table.find id t)) [
      | inl absent ↦ upsert_absent good small absent
      | inr (old, there) ↦ upsert_present old good small there
    ]
  ]
