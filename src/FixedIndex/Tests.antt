-- ===== src/FixedIndex/Tests.antt =====
-- Runs of the index of cpp/include/llab/fixed_order_index.hpp, and where its theorems apply.
use cpp_rust_performance_lab.Common.{
  ◌⊎◌, ◌%◌, u64_mod, ℕ, suc, ◌≤◌, ◌≡◌, ◌^◌, refl, true, false, some, length, arith,
}
use cpp_rust_performance_lab.Book.Digest.{mix_order_id}
use cpp_rust_performance_lab.ProbeTable.Trail.{gap}
use cpp_rust_performance_lab.FixedIndex.{
  FixedIndex, new, find, find_slot, find_from, insert, insert_from, erase, assign, home, entry_at,
  probe_summary,
}
use cpp_rust_performance_lab.FixedIndex.View.{IsTable}
use cpp_rust_performance_lab.FixedIndex.Make.{Fitted, blanks, blanks-Fitted, index_new_lem}
use cpp_rust_performance_lab.FixedIndex.Insert.{accepts, IsInserted, insert_lem}
use cpp_rust_performance_lab.FixedIndex.Contract.{IsErased, erase_lem}
use cpp_rust_performance_lab.FixedIndex.Write.{IsWritten, assign_lem}
use cpp_rust_performance_lab.FixedIndex.Probes.{sum_below, looks, probe_summary_lem}

abbrev empty_index : FixedIndex ℕ
empty_index = blanks 0 (2 ^ 3) 4

empty_index-IsTable : IsTable empty_index
empty_index-IsTable =
    (blanks-Fitted 0 3 4 (omega arith) (omega arith) (omega arith) (omega arith)).1

abbrev one_entry : FixedIndex ℕ
one_entry = (insert 7 50 empty_index).1

accepted : (insert 7 50 empty_index).0 ≡ true
unfolding insert insert_from home mix_order_id
accepted = refl

refused : (insert 0 50 empty_index).0 ≡ false
unfolding insert
refused = refl

one_entry_found : find 7 one_entry ≡ some 50
unfolding find find_slot find_from insert insert_from home mix_order_id
one_entry_found = refl

insert_lem_example :
    (u : FixedIndex ℕ) × (insert 7 50 empty_index
      ≡ (accepts empty_index empty_index-IsTable 7 50, u))
    × IsInserted empty_index empty_index-IsTable 7 50
        (accepts empty_index empty_index-IsTable 7 50)
        u
insert_lem_example = insert_lem empty_index empty_index-IsTable 7 50

abbrev stored : FixedIndex ℕ
stored = (insert_lem empty_index empty_index-IsTable 7 50).0

stored-IsTable : IsTable stored
stored-IsTable = (insert_lem empty_index empty_index-IsTable 7 50).2.table

erase_lem_example :
    (u : FixedIndex ℕ) × (erase 7 stored ≡ some (find 7 stored, u)) × IsErased 7 stored u
erase_lem_example = erase_lem stored stored-IsTable 7

assign_lem_example : IsWritten stored stored-IsTable 7 60 (assign 7 60 stored)
assign_lem_example = assign_lem stored stored-IsTable 7 60

index_new_lem_example : Fitted {V = ℕ} 0 1000 (new 0 64 1000)
index_new_lem_example = index_new_lem 0 64 1000 (omega arith) (omega arith)

probe_summary_lem_example :
    let n = length stored.slots in
    let maximum = (probe_summary stored).maximum_probes in
    ((probe_summary stored).occupied ≡ stored.size)
    × ((probe_summary stored).total_probes
        ≡ sum_below n (λ i. looks n i (entry_at stored.slots i)) % u64_mod)
    × ((i id : ℕ) (v : ℕ)
        → entry_at stored.slots i ≡ some (id, v)
        → suc (gap n (home id n) i) ≤ maximum)
    × ((maximum ≡ 0)
        ⊎ ((i : ℕ) × (id : ℕ) × (v : ℕ) × (entry_at stored.slots i ≡ some (id, v))
            × (suc (gap n (home id n) i) ≡ maximum)))
probe_summary_lem_example = probe_summary_lem stored stored-IsTable
