-- ===== src/Book/Table.antt =====
-- `std::unordered_map<OrderId, Order>` and its uses: a list of entries, at most one for a key.
-- Its order is no part of the C++ behaviour: the one reader of the order sorts what it reads.
use cpp_rust_performance_lab.Common.{
  ℕ, ◌+◌, ◌≤◌, ◌<◌, ◌≡◌, List, [], ◌∷◌, Option, none, some, ◌==◌, if◌then◌else◌, arith, u64_max,
  length,
}
use cpp_rust_performance_lab.Book.{Side, Order, share}

abbrev pub Orders : Type 0
Orders = List (ℕ × Order)

-- `find`: what the iterator points at, `none` for `end()`
unfoldable pub find : ℕ → Orders → Option Order
find id [] = none
find id ((j, o) ∷ r) = if id == j then some o else find id r

-- `emplace` of a key that is absent
unfoldable pub emplace : ℕ → Order → Orders → Orders
emplace id o t = (id, o) ∷ t

-- a write through the iterator at `id`
unfoldable pub assign : ℕ → Order → Orders → Orders
assign id o [] = []
assign id o ((j, old) ∷ r) = if id == j then (j, o) ∷ r else (j, old) ∷ assign id o r

-- `erase(it)` for the entry of `id`
unfoldable pub erase : ℕ → Orders → Orders
erase id [] = []
erase id ((j, o) ∷ r) = if id == j then r else (j, o) ∷ erase id r

-- the quantity that the live orders of a side hold at a price
unfoldable pub total : Side → ℕ → Orders → ℕ
total s p [] = 0
total s p ((id, o) ∷ r) = share s p o + total s p r

-- Identifiers are not 0 and occur once, and every order holds a positive 64-bit quantity.
abbrev pub IsTable : Orders → Type 0
IsTable [] = Unit {0}
IsTable ((id, o) ∷ r) =
    (0 < id)
    × (find id r ≡ none)
    × (0 < o.remaining_quantity)
    × (o.remaining_quantity ≤ u64_max)
    × IsTable r

pub find-assign :
    (id j : ℕ) (o old : Order) (t : Orders)
    → find id t ≡ some old
    → find j (assign id o t) ≡ (if j == id then some o else find j t)
unfolding find assign
find-assign id j o old [] h = ground arith
find-assign id j o old ((k, w) ∷ r) h = ground (arith, find-assign id j o old r)

pub find-erase :
    (id j : ℕ) (t : Orders) → IsTable t → find j (erase id t) ≡ (if j == id then none else find j t)
unfolding find erase
find-erase id j [] v = ground arith
find-erase id j ((k, w) ∷ r) v = ground (arith, find-erase id j r)

pub total-assign :
    (id : ℕ) (o old : Order) (s : Side) (p : ℕ) (t : Orders)
    → find id t ≡ some old
    → total s p (assign id o t) + share s p old ≡ total s p t + share s p o
unfolding find assign total
total-assign id o old s p [] h = ground arith
total-assign id o old s p ((k, w) ∷ r) h = ground (arith, total-assign id o old s p r)

pub total-erase :
    (id : ℕ) (old : Order) (s : Side) (p : ℕ) (t : Orders)
    → find id t ≡ some old
    → total s p (erase id t) + share s p old ≡ total s p t
unfolding find erase total
total-erase id old s p [] h = ground arith
total-erase id old s p ((k, w) ∷ r) h = ground (arith, total-erase id old s p r)

pub assign-IsTable :
    (id : ℕ) (o old : Order) (t : Orders)
    → find id t ≡ some old
    → IsTable t
    → 0 < o.remaining_quantity
    → o.remaining_quantity ≤ u64_max
    → IsTable (assign id o t)
unfolding find assign
assign-IsTable id o old [] h v a b = tt
assign-IsTable id o old ((k, w) ∷ r) h v a b =
    ground (arith, assign-IsTable id o old r, find-assign id k o old r)

pub erase-IsTable : (id : ℕ) (t : Orders) → IsTable t → IsTable (erase id t)
unfolding erase
erase-IsTable id [] v = tt
erase-IsTable id ((k, w) ∷ r) v = ground (arith, erase-IsTable id r, find-erase id k r)

-- What the table says of the order that it finds.
pub find-IsTable :
    (id : ℕ) (o : Order) (t : Orders)
    → IsTable t
    → find id t ≡ some o
    → (0 < id) × (0 < o.remaining_quantity) × (o.remaining_quantity ≤ u64_max)
unfolding find
find-IsTable id o [] v h = ground arith
find-IsTable id o ((k, w) ∷ r) v h = ground (arith, find-IsTable id o r)

pub length-erase :
    (id : ℕ) (o : Order) (t : Orders) → find id t ≡ some o → length (erase id t) + 1 ≡ length t
unfolding find erase
length-erase id o [] h = ground arith
length-erase id o ((k, w) ∷ r) h = ground (arith, length-erase id o r)

pub length-assign : (id : ℕ) (o : Order) (t : Orders) → length (assign id o t) ≡ length t
unfolding assign
length-assign id o [] = omega arith
length-assign id o ((k, w) ∷ r) = ground (arith, length-assign id o r)
