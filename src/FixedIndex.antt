-- ===== src/FixedIndex.antt =====
-- The order index of cpp/include/llab/fixed_order_index.hpp: open addressing with linear probing in a
-- vector whose size is a power of two, where an erasure shifts later entries back over its hole.
pub mod Ring
pub mod Search
pub mod Shift
pub mod Moves
pub mod Loop
pub mod View
pub mod Placing
pub mod Insert
pub mod Make
pub mod Probes
pub mod Write
pub mod Contract
mod Tests
use cpp_rust_performance_lab.Common.{
  ℕ, zero, suc, ◌+◌, ◌-◌, ◌*◌, ◌%◌, Bool, true, false, ◌||◌, Option, none, some, List, [], ◌∷◌, leb,
  ◌==◌, if◌then◌else◌, u64_mod, u64_max, length, set, get_elem?, replicate, max, bit_and,
}
use cpp_rust_performance_lab.Book.Digest.{mix_order_id}
use cpp_rust_performance_lab.ParityBook.{Made, made, thrown, endless, table_capacity}

pub record Slot (V : Type 0) : Type 0 where
  pub id : ℕ
  pub value : V
  pub occupied : Bool

pub record FixedIndex (V : Type 0) : Type 0 where
  pub slots : List (Slot V)
  pub maximum_live_entries : ℕ
  pub size : ℕ

pub record ProbeSummary : Type 0 where
  pub occupied : ℕ
  pub total_probes : ℕ
  pub maximum_probes : ℕ

-- `home`, of an index with `n` slots
unfoldable pub home : ℕ → ℕ → ℕ
home id n = bit_and (mix_order_id id) (n - 1)

-- `(index + 1) & mask`
unfoldable pub advance : ℕ → ℕ → ℕ
advance index n = bit_and ((index + 1) % u64_mod) (n - 1)

-- `distance`, whose subtraction wraps
unfoldable pub distance : ℕ → ℕ → ℕ → ℕ
distance from to n = bit_and ((to + u64_mod - from) % u64_mod) (n - 1)

module _ {V : Type 0} where
  -- the constructor; `detail::fixed_order_index_capacity` is `table_capacity` of the parity book, with
  -- another message in its exception
  unfoldable pub new : V → ℕ → ℕ → Made (FixedIndex V)
  new v fuel maximum = elim (table_capacity fuel maximum) [
    | made capacity ↦ made (record {
      slots = replicate capacity (record { id = 0; value = v; occupied = false });
      maximum_live_entries = maximum;
      size = 0;
    })
    | thrown ↦ thrown
    | endless ↦ endless
  ]

  -- what an occupied slot holds
  abbrev pub entry : Option (Slot V) → Option (ℕ × V)
  entry none = none
  entry (some s) = if s.occupied then some (s.id, s.value) else none

  abbrev pub entry_at : List (Slot V) → ℕ → Option (ℕ × V)
  entry_at slots i = entry (get_elem? slots i)

  -- the loop of `insert` with the rounds left; `none` where it returns false
  unfoldable pub insert_from : ℕ → ℕ → ℕ → V → List (Slot V) → Option (List (Slot V))
  insert_from zero index id v slots = none
  insert_from (suc rounds) index id v slots = elim (entry_at slots index) [
    | none ↦ some (set slots index (record { id = id; value = v; occupied = true }))
    | some (j, w) ↦
        let rest = insert_from rounds (advance index (length slots)) id v slots in
        if j == id then none else rest
  ]

  unfoldable pub insert : ℕ → V → FixedIndex V → Bool × FixedIndex V
  insert id v t =
      if id == 0 || t.size == t.maximum_live_entries
      then (false, t)
      else elim (insert_from (length t.slots) (home id (length t.slots)) id v t.slots) [
        | none ↦ (false, t)
        | some slots ↦ (true, record t { slots = slots; size = (t.size + 1) % u64_mod })
      ]

  -- the loop of `find_slot` with the rounds left; the size of the vector where it finds nothing
  unfoldable pub find_from : ℕ → ℕ → ℕ → List (Slot V) → ℕ
  find_from zero index id slots = length slots
  find_from (suc rounds) index id slots = elim (entry_at slots index) [
    | none ↦ length slots
    | some (j, w) ↦
        let rest = find_from rounds (advance index (length slots)) id slots in
        if j == id then index else rest
  ]

  unfoldable pub find_slot : ℕ → List (Slot V) → ℕ
  find_slot id slots =
      if id == 0 then length slots else find_from (length slots) (home id (length slots)) id slots

  abbrev pub value_of : Option (Slot V) → Option V
  value_of none = none
  value_of (some s) = some s.value

  -- `find`: what the pointer points at, `none` for `nullptr`
  unfoldable pub find : ℕ → FixedIndex V → Option V
  find id t =
      let i = find_slot id t.slots in
      if i == length t.slots then none else value_of (get_elem? t.slots i)

  abbrev pub set_value : V → Option (Slot V) → ℕ → List (Slot V) → List (Slot V)
  set_value v none i slots = slots
  set_value v (some s) i slots = set slots i (record s { value = v })

  -- a write through the pointer that `find` returned
  unfoldable pub assign : ℕ → V → FixedIndex V → FixedIndex V
  assign id v t =
      let i = find_slot id t.slots in
      record t { slots = set_value v (get_elem? t.slots i) i t.slots }

  -- `slots_[to] = slots_[from]`
  abbrev pub copy_slot : Option (Slot V) → ℕ → List (Slot V) → List (Slot V)
  copy_slot none to slots = slots
  copy_slot (some s) to slots = set slots to s

  -- `slots_[hole].occupied = false`
  abbrev pub vacate_slot : Option (Slot V) → ℕ → List (Slot V) → List (Slot V)
  vacate_slot none i slots = slots
  vacate_slot (some s) i slots = set slots i (record s { occupied = false })

  -- the `while` of `erase_at` and what follows it, on fuel
  unfoldable pub shift_back : ℕ → ℕ → ℕ → List (Slot V) → Option (List (Slot V))
  shift_back zero hole next slots = none
  shift_back (suc fuel) hole next slots = elim (entry_at slots next) [
    | none ↦ some (vacate_slot (get_elem? slots hole) hole slots)
    | some (j, w) ↦
        let n = length slots in
        let moves = leb (distance (home j n) hole n) (distance (home j n) next n) in
        shift_back fuel (if moves then next else hole) (advance next n)
          (if moves then copy_slot (get_elem? slots next) hole slots else slots)
  ]

  unfoldable pub erase_at : ℕ → List (Slot V) → Option (List (Slot V))
  unfolding shift_back
  erase_at index slots = shift_back (length slots) index (advance index (length slots)) slots

  -- `none` where the loop of `erase_at` is out of fuel
  unfoldable pub erase : ℕ → FixedIndex V → Option (Option V × FixedIndex V)
  erase id t =
      let i = find_slot id t.slots in
      if i == length t.slots then some (none, t) else elim (erase_at i t.slots) [
        | none ↦ none
        | some slots ↦ some (
          value_of (get_elem? t.slots i),
          record t { slots = slots; size = (t.size + u64_max) % u64_mod },
        )
      ]

  unfoldable pub capacity : FixedIndex V → ℕ
  capacity t = length t.slots

  -- what `for_each` passes to its visitor
  unfoldable pub entries : List (Slot V) → List (ℕ × V)
  entries [] = []
  entries (s ∷ slots) = if s.occupied then (s.id, s.value) ∷ entries slots else entries slots

  -- the loop of `probe_summary` from slot `index` on, of `n`
  unfoldable pub summarise : ℕ → ℕ → ProbeSummary → List (Slot V) → ProbeSummary
  summarise n index summary [] = summary
  summarise n index summary (s ∷ slots) =
      let probes = (distance (home s.id n) index n + 1) % u64_mod in
      let counted : ProbeSummary = record {
        occupied = (summary.occupied + 1) % u64_mod;
        total_probes = (summary.total_probes + probes) % u64_mod;
        maximum_probes = max summary.maximum_probes probes;
      } in
      summarise n (suc index) (if s.occupied then counted else summary) slots

  unfoldable pub probe_summary : FixedIndex V → ProbeSummary
  unfolding summarise
  probe_summary t =
      summarise (length t.slots) 0 (record { occupied = 0; total_probes = 0; maximum_probes = 0 })
        t.slots
