-- ===== src/BackshiftBook/Operations.antt =====
-- cpp/src/bitmap_backshift_order_book.cpp: `add`, `remove`, `reduce` and `upsert` against the contract
-- of a bounded book.
use cpp_rust_performance_lab.Common.{
  ℕ, ◌+◌, ◌-◌, ◌%◌, ◌≤◌, ◌<◌, ◌≡◌, ◌≢◌, ◌⊎◌, inl, inr, refl, sym, ◌∙◌, Bool, true, false, not, ◌&&◌,
  ◌||◌, Option, none, some, ◌==◌, ==_iff, ltb, u64_mod, u64_max, arith, Bool-cases, Option-cases,
  ℕ_discrete,
}
use cpp_rust_performance_lab.Book.{
  Side, Order, Exception, invalid_argument, overflow_error, done, raised,
}
use cpp_rust_performance_lab.Book.Table
use cpp_rust_performance_lab.Book.Table.{Orders, total}
use cpp_rust_performance_lab.Book.Spec
use cpp_rust_performance_lab.Book.Spec.{Verdict, accept, reject}
use cpp_rust_performance_lab.Book.Bounded
use cpp_rust_performance_lab.OrderBook.Valid.{share_self, share_split}
use cpp_rust_performance_lab.DenseBook.Arrays.{covers}
use cpp_rust_performance_lab.BitmapLevels.{Bitmaps, price_count, subtract_level}
use cpp_rust_performance_lab.BitmapLevels.Laws.{bitmap_laws}
use cpp_rust_performance_lab.FixedIndex.{FixedIndex, find, assign}
use cpp_rust_performance_lab.FixedIndex.Insert.{accepts}
use cpp_rust_performance_lab.FixedIndex.Contract.{erase_lem}
use cpp_rust_performance_lab.BackshiftBook.{BackshiftBook, Run, add_order, drop, remove, reduce}
use cpp_rust_performance_lab.BackshiftBook.Valid.{
  IsValid, IsStray, Meets, has_room, insert_run, same-IsValid, inserted-IsStray, inserted-IsValid,
  erased-IsValid, written-IsValid,
}

abbrev pub HasRoom : Run → Type 0
HasRoom (some (done b)) = has_room b.orders ≡ true
HasRoom _ = Unit {0}

module _ (m : ℕ) (b : BackshiftBook) (t : Orders) (v : IsValid m b t) (id : ℕ) where
  abbrev in_range : ℕ → Bool
  in_range = covers m price_count

  abbrev f : Side → ℕ → ℕ
  f s p = total s p t

  -- what an addition may leave
  abbrev pub Added : Order → BackshiftBook → Type 0
  Added o b' = IsValid m b' t ⊎ IsStray m id o b' t

  pub both_reject :
      (kept : BackshiftBook → Type 0) (run : Run) (verdict : Verdict) (x : Exception)
      (b' : BackshiftBook)
      → run ≡ some (raised x b')
      → verdict ≡ reject x
      → kept b'
      → Meets m kept run verdict
  both_reject kept run verdict x b' e g k = rw (e, g) (refl, k)

  -- an order that the index refuses
  add_refused :
      (o : Order)
      → (id == 0 || o.remaining_quantity == 0) ≡ false
      → accepts b.orders v.index id o ≡ false
      → Bounded.place in_range (has_room b.orders) id o t ≡ reject invalid_argument
      → Meets m
          (Added o)
          (some (add_order id o b))
          (Bounded.place in_range (has_room b.orders) id o t)
  add_refused o good refused spec =
      let (u, run, g) = insert_run b.orders v.index id o false refused in
      both_reject (Added o) (some (add_order id o b))
        (Bounded.place in_range (has_room b.orders) id o t) invalid_argument
        (record b { orders = u }) (unfold add_order in rw (good, run) refl) spec
        (inl (same-IsValid m b t v id o u g))

  -- an order that the index takes
  add_taken :
      (o : Order)
      → id ≢ 0
      → 0 < o.remaining_quantity
      → o.remaining_quantity ≤ u64_max
      → Table.find id t ≡ none
      → has_room b.orders ≡ true
      → accepts b.orders v.index id o ≡ true
      → Meets m
          (Added o)
          (some (add_order id o b))
          (Bounded.place in_range (has_room b.orders) id o t)
  add_taken o nz pos small absent free taken =
      let p = o.price_ticks in
      let q = o.remaining_quantity in
      let laws = bitmap_laws m in
      let good : (id == 0 || q == 0) ≡ false = ground arith in
      let (u, run, g) = insert_run b.orders v.index id o true taken in
      let stray = inserted-IsStray m b t v id o u absent g in
      elim (Bool-cases (in_range p)) [
        | inr outside ↦
            let stop = laws.add_outside f b.levels o.side p q v.holds outside in
            both_reject (Added o) (some (add_order id o b))
              (Bounded.place in_range (has_room b.orders) id o t) invalid_argument
              (record b { orders = u }) (unfold add_order in rw (good, run, stop) refl)
              (unfold Bounded.place in rw (free, outside) refl) (inr stray)
        | inl inside ↦ elim (Bool-cases (ltb (u64_max - total o.side p t) q)) [
          | inl over ↦
              let bound = laws.bounded f b.levels o.side p v.holds in
              let stop =
                laws.add_overflows f b.levels o.side p q v.holds inside small (ground arith) in
              both_reject (Added o) (some (add_order id o b))
                (Bounded.place in_range (has_room b.orders) id o t) overflow_error
                (record b { orders = u }) (unfold add_order in rw (good, run, stop) refl)
                (unfold Bounded.place Spec.place in rw (free, inside, good, absent, over) refl)
                (inr stray)
          | inr fits ↦
              let bound = laws.bounded f b.levels o.side p v.holds in
              let (l, stop, h) =
                laws.add_fits f (λ s r. total s r (Table.emplace id o t)) b.levels o.side p q
                  v.holds inside pos (ground arith)
                  (λ s r. unfold Table.emplace total in omega arith) in
              let code : add_order id o b
                  ≡ done (record { orders = u; levels = l; live = (b.live + 1) % u64_mod }) =
                unfold add_order in rw (good, run, stop) refl in
              let spec : Bounded.place in_range (has_room b.orders) id o t
                  ≡ accept (Table.emplace id o t) =
                unfold Bounded.place Spec.place in rw (free, inside, good, absent, fits) refl in
              rw (code, spec) (inserted-IsValid m b t v id l o u absent nz pos small g h)
        ]
      ]

  pub add_order-Meets :
      (o : Order)
      → o.remaining_quantity ≤ u64_max
      → Meets m
          (Added o)
          (some (add_order id o b))
          (Bounded.place in_range (has_room b.orders) id o t)
  add_order-Meets o small = elim (Bool-cases (id == 0 || o.remaining_quantity == 0)) [
    | inl bad ↦
        both_reject (Added o) (some (add_order id o b))
          (Bounded.place in_range (has_room b.orders) id o t) invalid_argument b
          (unfold add_order in rw bad refl) (unfold Bounded.place Spec.place in ground arith)
          (inl v)
    | inr good ↦
        let nz : (id == 0) ≡ false = ground arith in
        elim (Bool-cases (b.orders.size == b.orders.maximum_live_entries)) [
          | inl full ↦
              add_refused o good (rw (nz, full) refl) (unfold Bounded.place in rw full refl)
          | inr more ↦ elim (Option-cases (Table.find id t)) [
            | inr (old, there) ↦
                let known : find id b.orders ≡ some old = v.agrees id ∙ there in
                add_refused o good (rw (nz, more, known) refl)
                  (unfold Bounded.place Spec.place in rw (more, good, there) (ground arith))
            | inl absent ↦
                let unknown : find id b.orders ≡ none = v.agrees id ∙ absent in
                add_taken o (ground arith) (ground arith) small absent (rw more refl)
                  (rw (nz, more, unknown) refl)
          ]
        ]
  ]

  -- The order that a removal finds leaves the index and the levels.
  drop_found :
      (o : Order)
      → Table.find id t ≡ some o
      → (u : FixedIndex Order) × (l : Bitmaps) × (subtract_level o.side o.price_ticks
            o.remaining_quantity b.levels
          ≡ done l)
        × (drop id (record b { levels = l })
            ≡ some (done (record { orders = u; levels = l; live = (b.live + u64_max) % u64_mod })))
        × IsValid m
            (record { orders = u; levels = l; live = (b.live + u64_max) % u64_mod })
            (Table.erase id t)
        × (has_room u ≡ true)
  unfolding drop
  drop_found o there =
      let laws = bitmap_laws m in
      let (_, pos, small) = Table.find-IsTable id o t v.table there in
      let (l, run, h) =
        laws.subtract_fits f (λ x p. total x p (Table.erase id t)) b.levels o.side o.price_ticks
          o.remaining_quantity v.holds pos
          (omega (arith, Table.total-erase id o o.side o.price_ticks t there, share_self o))
          (λ x p. Table.total-erase id o x p t there) in
      let (u, gone, g) = erase_lem b.orders v.index id in
      let known : find id b.orders ≡ some o = v.agrees id ∙ there in
      let fewer =
        g.size
          (λ e. (let both : ◌≡◌ {A = Option Order} (some o) none = sym known ∙ e in absurd cc)) in
      let less : (u.size == u.maximum_live_entries) ≡ false =
        ground (arith, fewer, g.maximum, v.index.size_le) in
      (u, l, run, rw gone refl, erased-IsValid m b t v id l o u there g h, rw less refl)

  pub remove-Meets : Meets m (λ b'. IsValid m b' t) (remove id b) (Spec.drop id t)
  remove-Meets = elim (Option-cases (Table.find id t)) [
    | inl absent ↦
        let unknown : find id b.orders ≡ none = v.agrees id ∙ absent in
        both_reject (λ b'. IsValid m b' t) (remove id b) (Spec.drop id t) invalid_argument b
          (unfold remove in rw (remove, unknown) refl)
          (unfold Spec.drop in rw (Spec.drop, absent) refl) v
    | inr (o, there) ↦
        let known : find id b.orders ≡ some o = v.agrees id ∙ there in
        let (u, l, run, gone, good, room) = drop_found o there in
        let code : remove id b
            ≡ some (done (record { orders = u; levels = l; live = (b.live + u64_max) % u64_mod })) =
          unfold remove in rw (remove, known, run) gone in
        let spec : Spec.drop id t ≡ accept (Table.erase id t) =
          unfold Spec.drop in rw (Spec.drop, there) refl in
        rw (code, spec) good
  ]

  -- An index that an order has left has room for another.
  pub remove-HasRoom : HasRoom (remove id b)
  remove-HasRoom = elim (Option-cases (Table.find id t)) [
    | inl absent ↦
        let unknown : find id b.orders ≡ none = v.agrees id ∙ absent in
        let code : remove id b ≡ some (raised invalid_argument b) =
          unfold remove in rw (remove, unknown) refl in
        rw code tt
    | inr (o, there) ↦
        let known : find id b.orders ≡ some o = v.agrees id ∙ there in
        let (u, l, run, gone, good, room) = drop_found o there in
        let code : remove id b
            ≡ some (done (record { orders = u; levels = l; live = (b.live + u64_max) % u64_mod })) =
          unfold remove in rw (remove, known, run) gone in
        rw code room
  ]

  -- a reduction that leaves the order in the book
  reduce_partly :
      (o : Order) (q : ℕ) (full : Bool)
      → Table.find id t ≡ some o
      → 0 < q
      → q < o.remaining_quantity
      → Meets m (λ b'. IsValid m b' t) (reduce id q full b) (Spec.reduce id q full t)
  reduce_partly o q full there pos part =
      let laws = bitmap_laws m in
      let known : find id b.orders ≡ some o = v.agrees id ∙ there in
      let o' : Order = record o { remaining_quantity = o.remaining_quantity - q } in
      let (_, _, small) = Table.find-IsTable id o t v.table there in
      let (l, run, h) =
        laws.subtract_fits f (λ x p. total x p (Table.assign id o' t)) b.levels o.side o.price_ticks
          q v.holds pos
          (omega (arith, Table.total-erase id o o.side o.price_ticks t there, share_self o))
          (λ x p.
            omega
              (arith, Table.total-assign id o' o x p t there, share_split x p q o (omega arith))) in
      let good : (q == 0 || ltb o.remaining_quantity q || (not full && q == o.remaining_quantity))
          ≡ false =
        ground arith in
      let keeps : (q == o.remaining_quantity) ≡ false = ground arith in
      let code : reduce id q full b
          ≡ some (done (record { orders = assign id o' b.orders; levels = l; live = b.live })) =
        unfold reduce in rw (reduce, known, good, run, keeps) refl in
      let spec : Spec.reduce id q full t ≡ accept (Table.assign id o' t) =
        unfold Spec.reduce in rw (Spec.reduce, there, good, keeps) refl in
      rw (code, spec) (written-IsValid m b t v id l o o' there (omega arith) (omega arith) h)

  -- one that takes all of the order is its removal
  reduce_fully :
      (o : Order)
      → Table.find id t ≡ some o
      → Meets m
          (λ b'. IsValid m b' t)
          (reduce id o.remaining_quantity true b)
          (Spec.reduce id o.remaining_quantity true t)
  reduce_fully o there =
      let q = o.remaining_quantity in
      let known : find id b.orders ≡ some o = v.agrees id ∙ there in
      let (_, pos, small) = Table.find-IsTable id o t v.table there in
      let good : (q == 0 || ltb q q || (not true && q == q)) ≡ false = ground arith in
      let all : (q == q) ≡ true = (==_iff q q).1 refl in
      let (u, l, run, gone, valid, room) = drop_found o there in
      let code : reduce id q true b
          ≡ some (done (record { orders = u; levels = l; live = (b.live + u64_max) % u64_mod })) =
        unfold reduce in rw (reduce, known, good, run, all) gone in
      let spec : Spec.reduce id q true t ≡ accept (Table.erase id t) =
        unfold Spec.reduce in rw (Spec.reduce, there, good, all) refl in
      rw (code, spec) valid

  pub reduce-Meets :
      (q : ℕ) (full : Bool)
      → Meets m (λ b'. IsValid m b' t) (reduce id q full b) (Spec.reduce id q full t)
  reduce-Meets q full = elim (Option-cases (Table.find id t)) [
    | inl absent ↦
        let unknown : find id b.orders ≡ none = v.agrees id ∙ absent in
        both_reject (λ b'. IsValid m b' t) (reduce id q full b) (Spec.reduce id q full t)
          invalid_argument b (unfold reduce in rw (reduce, unknown) refl)
          (unfold Spec.reduce in rw (Spec.reduce, absent) refl) v
    | inr (o, there) ↦
        let known : find id b.orders ≡ some o = v.agrees id ∙ there in
        let left = o.remaining_quantity in
        elim (Bool-cases (q == 0 || ltb left q || (not full && q == left))) [
          | inl bad ↦
              both_reject (λ b'. IsValid m b' t) (reduce id q full b) (Spec.reduce id q full t)
                invalid_argument b (unfold reduce in rw (reduce, known, bad) refl)
                (unfold Spec.reduce in rw (Spec.reduce, there, bad) refl) v
          | inr good ↦ elim (ℕ_discrete q left) [
            | yes all ↦
                let allowed : full ≡ true = ground arith in rw (all, allowed) (reduce_fully o there)
            | no part ↦ reduce_partly o q full there (ground arith) (ground arith)
          ]
        ]
  ]
