-- ===== src/BackshiftBook/Valid.antt =====
-- cpp/src/bitmap_backshift_order_book.cpp: when a book agrees with a table of live orders, and the
-- books that an exception can leave.
use cpp_rust_performance_lab.Common.{
  ℕ, ◌+◌, ◌%◌, ◌≤◌, ◌<◌, ◌≡◌, ◌≢◌, ◌⊎◌, sym, ap, ◌∙◌, Bool, true, false, not, Option, none, some,
  ◌==◌, if◌then◌else◌, u64_mod, u64_max, length, arith,
}
use cpp_rust_performance_lab.Book.{
  Order, done, raised, EventType, Event, add, replace, order_upsert,
}
use cpp_rust_performance_lab.Book.Table
use cpp_rust_performance_lab.Book.Table.{Orders, total}
use cpp_rust_performance_lab.Book.Spec.{Verdict, accept, reject}
use cpp_rust_performance_lab.BitmapLevels.{Bitmaps}
use cpp_rust_performance_lab.BitmapLevels.Laws.{Holds}
use cpp_rust_performance_lab.IndexedBook.{order_of}
use cpp_rust_performance_lab.FixedIndex.{FixedIndex, find, insert, assign}
use cpp_rust_performance_lab.FixedIndex.View.{IsTable}
use cpp_rust_performance_lab.FixedIndex.Insert.{accepts, IsInserted, insert_lem}
use cpp_rust_performance_lab.FixedIndex.Contract.{IsErased}
use cpp_rust_performance_lab.FixedIndex.Write.{assign_lem}
use cpp_rust_performance_lab.BackshiftBook.{BackshiftBook, Run}

-- The index is consistent and holds what the table holds, the levels over the 256 prices from `m` up
-- hold the table's totals, and the count is the number of orders.
pub record IsValid (m : ℕ) (b : BackshiftBook) (t : Orders) : Type 0 where
  pub index : IsTable b.orders
  pub table : Table.IsTable t
  pub agrees : (id : ℕ) → find id b.orders ≡ Table.find id t
  pub holds : Holds m (λ s p. total s p t) b.levels
  pub counted : b.live ≡ length t % u64_mod

-- The index is consistent and has one order more than the table, which the levels and the count go by.
pub record IsStray (m id : ℕ) (o : Order) (b : BackshiftBook) (t : Orders) : Type 0 where
  pub index : IsTable b.orders
  pub absent : Table.find id t ≡ none
  pub agrees : (j : ℕ) → find j b.orders ≡ (if j == id then some o else Table.find j t)
  pub holds : Holds m (λ s p. total s p t) b.levels
  pub counted : b.live ≡ length t % u64_mod

-- The index is consistent and holds what the table holds, and the levels miss one order of it.
pub record IsTorn (m id : ℕ) (b : BackshiftBook) (t : Orders) : Type 0 where
  pub index : IsTable b.orders
  pub agrees : (j : ℕ) → find j b.orders ≡ Table.find j t
  pub holds : Holds m (λ s p. total s p (Table.erase id t)) b.levels
  pub counted : b.live ≡ length t % u64_mod

-- What an exception of an event leaves: a book that agrees with the table, or, of an event that adds
-- an order, one with that order in its index alone, or, of an upsert, one whose levels miss the order.
abbrev pub Kept : ℕ → EventType → Event → Orders → BackshiftBook → Type 0
Kept m add e t b = IsValid m b t ⊎ IsStray m e.order_id (order_of e) b t
Kept m replace e t b =
    (u : Orders) × (IsValid m b u ⊎ IsStray m e.replacement_order_id (order_of e) b u)
Kept m order_upsert e t b =
    (IsValid m b t ⊎ IsStray m e.order_id (order_of e) b t) ⊎ IsTorn m e.order_id b t
Kept m _ e t b = IsValid m b t

-- A run ends; a normal return leaves a valid book over the accepted table, and an exception is the one
-- that the contract names.
abbrev pub Meets : ℕ → (BackshiftBook → Type 0) → Run → Verdict → Type 0
Meets m kept none verdict = ⊥
Meets m kept (some (done b)) (accept t) = IsValid m b t
Meets m kept (some (raised x b)) (reject y) = (x ≡ y) × kept b
Meets m kept (some (done b)) (reject y) = ⊥
Meets m kept (some (raised x b)) (accept t) = ⊥

pub Meets-weaken :
    (m : ℕ) (kept kept' : BackshiftBook → Type 0) (run : Run) (verdict : Verdict)
    → ((b : BackshiftBook) → kept b → kept' b)
    → Meets m kept run verdict
    → Meets m kept' run verdict
Meets-weaken m kept kept' none v h g = g
Meets-weaken m kept kept' (some (done b)) (accept t) h g = g
Meets-weaken m kept kept' (some (raised x b)) (reject y) h g = (g.0, h b g.1)
Meets-weaken m kept kept' (some (done b)) (reject y) h g = elim g [ ]
Meets-weaken m kept kept' (some (raised x b)) (accept t) h g = elim g [ ]

-- `insert` where its answer is known
pub insert_run :
    (orders : FixedIndex Order) (good : IsTable orders) (id : ℕ) (o : Order) (a : Bool)
    → accepts orders good id o ≡ a
    → (u : FixedIndex Order) × (insert id o orders ≡ (a, u)) × IsInserted orders good id o a u
insert_run orders good id o a e = rw (← e) (insert_lem orders good id o)

-- whether the index has room for one more
abbrev pub has_room : FixedIndex Order → Bool
has_room orders = not (orders.size == orders.maximum_live_entries)

module _ (m : ℕ) (b : BackshiftBook) (t : Orders) (v : IsValid m b t) (id : ℕ) where
  pub same-IsValid :
      (o : Order) (u : FixedIndex Order)
      → IsInserted b.orders v.index id o false u
      → IsValid m (record b { orders = u }) t
  same-IsValid o u g = record {
    index = g.table;
    table = v.table;
    agrees = λ j. g.found j ∙ v.agrees j;
    holds = v.holds;
    counted = v.counted;
  }

  pub inserted-IsStray :
      (o : Order) (u : FixedIndex Order)
      → Table.find id t ≡ none
      → IsInserted b.orders v.index id o true u
      → IsStray m id o (record b { orders = u }) t
  inserted-IsStray o u absent g = record {
    index = g.table;
    absent = absent;
    agrees = λ j. g.found j ∙ ap (λ (x : Option Order). if j == id then some o else x) (v.agrees j);
    holds = v.holds;
    counted = v.counted;
  }

  module _ (l : Bitmaps) where
    pub inserted-IsValid :
        (o : Order) (u : FixedIndex Order)
        → Table.find id t ≡ none
        → id ≢ 0
        → 0 < o.remaining_quantity
        → o.remaining_quantity ≤ u64_max
        → IsInserted b.orders v.index id o true u
        → Holds m (λ s p. total s p (Table.emplace id o t)) l
        → IsValid m
            (record { orders = u; levels = l; live = (b.live + 1) % u64_mod })
            (Table.emplace id o t)
    unfolding Table.emplace Table.find
    inserted-IsValid o u absent nz pos small g h = record {
      index = g.table;
      table = ground (arith, v.table);
      agrees =
          λ j. g.found j ∙ ap (λ (x : Option Order). if j == id then some o else x) (v.agrees j);
      holds = h;
      counted = omega (arith, v.counted);
    }

    pub erased-IsValid :
        (o : Order) (u : FixedIndex Order)
        → Table.find id t ≡ some o
        → IsErased id b.orders u
        → Holds m (λ s p. total s p (Table.erase id t)) l
        → IsValid m
            (record { orders = u; levels = l; live = (b.live + u64_max) % u64_mod })
            (Table.erase id t)
    erased-IsValid o u there g h = record {
      index = g.table;
      table = Table.erase-IsTable id t v.table;
      agrees = λ j. g.found j ∙ ground (arith, v.agrees j, Table.find-erase id j t v.table);
      holds = h;
      counted = omega (arith, v.counted, Table.length-erase id o t there);
    }

    pub written-IsValid :
        (old o : Order)
        → Table.find id t ≡ some old
        → 0 < o.remaining_quantity
        → o.remaining_quantity ≤ u64_max
        → Holds m (λ s p. total s p (Table.assign id o t)) l
        → IsValid m
            (record { orders = assign id o b.orders; levels = l; live = b.live })
            (Table.assign id o t)
    written-IsValid old o there pos small h =
        let g = assign_lem b.orders v.index id o in
        let was : find id b.orders ≡ some old = v.agrees id ∙ there in
        record {
          index = g.table;
          table = Table.assign-IsTable id o old t there v.table pos small;
          agrees = λ j.
              g.found j ∙ rw was (ground (arith, v.agrees j, Table.find-assign id j o old t there));
          holds = h;
          counted = v.counted ∙ ap (λ (n : ℕ). n % u64_mod) (sym (Table.length-assign id o t));
        }
