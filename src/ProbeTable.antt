-- ===== src/ProbeTable.antt =====
-- The order index that the books of cpp/src/parity_order_book.cpp, dense_ladder_order_book.cpp and
-- bitmap_ladder_order_book.cpp each hold: open addressing with linear probing and tombstones in a
-- vector whose size is a power of two. The three copies differ in names and in the type of an order.
pub mod Capacity
pub mod Trail
pub mod Search
pub mod Place
pub mod Update
use cpp_rust_performance_lab.Common.{
  ℕ, zero, suc, ◌+◌, ◌-◌, ◌*◌, ◌%◌, Option, none, some, List, [], ◌∷◌, Bool, true, false, ◌||◌, ltb,
  ◌==◌, if◌then◌else◌, u64_mod, u64_max, length, get_elem?, replicate, max, bit_and,
}
use cpp_rust_performance_lab.Book.Digest.{mix_order_id}

-- `SlotState`
pub data SlotState : Type 0 where
  empty occupied tombstone : SlotState

pub record Slot {ℓ} (A : Type ℓ) : Type ℓ where
  pub order_id : ℕ
  pub order : A
  pub state : SlotState

-- What a probe for an identifier meets in a slot: an empty one, a tombstone, the identifier, or
-- another one.
pub data Seen : Type 0 where
  unused dead own other : Seen

abbrev pub see_in : SlotState → ℕ → ℕ → Seen
see_in empty id j = unused
see_in tombstone id j = dead
see_in occupied id j = if j == id then own else other

-- `while (capacity < target) capacity <<= 1`, which fuel bounds
unfoldable pub grow : ℕ → ℕ → ℕ → Option ℕ
grow zero capacity target = none
grow (suc fuel) capacity target = elim (ltb capacity target) [
  | true ↦ grow fuel (capacity * 2 % u64_mod) target
  | false ↦ some capacity
]

module _ {ℓ} {A : Type ℓ} where
  abbrev pub see : ℕ → Option (Slot A) → Seen
  see id none = unused
  see id (some s) = see_in s.state id s.order_id

  -- `mix_order_id(id) & mask`
  unfoldable pub home : ℕ → List (Slot A) → ℕ
  home id slots = bit_and (mix_order_id id) (length slots - 1)

  -- `(index + 1) & mask`
  unfoldable pub advance : ℕ → List (Slot A) → ℕ
  advance index slots = bit_and ((index + 1) % u64_mod) (length slots - 1)

  -- the loop of `find_slot` with the rounds left; the size of the vector where it finds nothing
  unfoldable pub find_from : ℕ → ℕ → ℕ → List (Slot A) → ℕ
  find_from zero index id slots = length slots
  find_from (suc rounds) index id slots = elim (see id (get_elem? slots index)) [
    | unused ↦ length slots
    | own ↦ index
    | dead ↦ find_from rounds (advance index slots) id slots
    | other ↦ find_from rounds (advance index slots) id slots
  ]

  unfoldable pub find_slot : ℕ → List (Slot A) → ℕ
  find_slot id slots = find_from (length slots) (home id slots) id slots

  -- the first tombstone on the way, the size of the vector before there is one
  abbrev pub first : ℕ → ℕ → List (Slot A) → ℕ
  first tomb index slots = if tomb == length slots then index else tomb

  -- the loop of `insertion_slot` with the rounds left
  unfoldable pub insertion_from : ℕ → ℕ → ℕ → ℕ → List (Slot A) → ℕ
  insertion_from zero index tomb id slots = tomb
  insertion_from (suc rounds) index tomb id slots = elim (see id (get_elem? slots index)) [
    | unused ↦ first tomb index slots
    | own ↦ length slots
    | dead ↦ insertion_from rounds (advance index slots) (first tomb index slots) id slots
    | other ↦ insertion_from rounds (advance index slots) tomb id slots
  ]

  unfoldable pub insertion_slot : ℕ → List (Slot A) → ℕ
  insertion_slot id slots = insertion_from (length slots) (home id slots) (length slots) id slots
