-- ===== src/Book/Ladder.antt =====
-- `std::map<Price, Quantity>` and its uses: a list of levels with ascending prices.
pub mod Best
use cpp_rust_performance_lab.Common.{
  ℕ, suc, ◌≤◌, ◌<◌, ◌≡◌, ◌≢◌, refl, List, [], ◌∷◌, Option, none, some, ltb, ◌==◌, if◌then◌else◌,
  arith, u64_max,
}

-- `Level`, and an entry of the map
pub record Level : Type 0 where
  pub price_ticks : ℕ
  pub quantity : ℕ

-- `find`: what the iterator points at, `none` for `end()`
unfoldable pub find : ℕ → List Level → Option ℕ
find p [] = none
find p (l ∷ ls) = if p == l.price_ticks then some l.quantity else find p ls

-- a write through the entry of `p`, which is inserted at its place if it is absent
unfoldable pub put : ℕ → ℕ → List Level → List Level
put p q [] = record { price_ticks = p; quantity = q } ∷ []
put p q (l ∷ ls) =
    if p == l.price_ticks
    then record { price_ticks = p; quantity = q } ∷ ls
    else if ltb p l.price_ticks
    then record { price_ticks = p; quantity = q } ∷ l ∷ ls
    else l ∷ put p q ls

-- `erase(it)` for the entry of `p`
unfoldable pub erase : ℕ → List Level → List Level
erase p [] = []
erase p (l ∷ ls) = if p == l.price_ticks then ls else l ∷ erase p ls

-- the entry of `p`, 0 where there is none
unfoldable pub quantity_at : ℕ → List Level → ℕ
quantity_at p [] = 0
quantity_at p (l ∷ ls) = if p == l.price_ticks then l.quantity else quantity_at p ls

-- `operator[]`: an absent price is inserted with quantity 0
unfoldable pub subscript : ℕ → List Level → List Level
subscript p ls = elim (find p ls) [ none ↦ put p 0 ls | some q ↦ ls ]

-- `rbegin()`
unfoldable pub last? : List Level → Option Level
last? [] = none
last? (l ∷ []) = some l
last? (l ∷ m ∷ ls) = last? (m ∷ ls)

-- `begin()`
unfoldable pub first? : List Level → Option Level
first? [] = none
first? (l ∷ ls) = some l

-- Every quantity is a positive 64-bit number, and prices ascend strictly from `least`.
abbrev pub IsLadder : ℕ → List Level → Type 0
IsLadder least [] = Unit {0}
IsLadder least (l ∷ ls) =
    (least ≤ l.price_ticks)
    × (0 < l.quantity)
    × (l.quantity ≤ u64_max)
    × IsLadder (suc l.price_ticks) ls

pub IsLadder-weaken : (a b : ℕ) (ls : List Level) → a ≤ b → IsLadder b ls → IsLadder a ls
IsLadder-weaken a b [] h k = tt
IsLadder-weaken a b (l ∷ ls) h k = ground arith

pub quantity_at_below :
    (p least : ℕ) (ls : List Level) → IsLadder least ls → p < least → quantity_at p ls ≡ 0
unfolding quantity_at
quantity_at_below p least [] h k = refl
quantity_at_below p least (l ∷ ls) h k = ground (arith, quantity_at_below p (suc l.price_ticks) ls)

pub quantity_at-put :
    (p q r : ℕ) (ls : List Level)
    → quantity_at r (put p q ls) ≡ (if r == p then q else quantity_at r ls)
unfolding quantity_at put
quantity_at-put p q r [] = refl
quantity_at-put p q r (l ∷ ls) = ground (arith, quantity_at-put p q r ls)

pub quantity_at-erase :
    (p r least : ℕ) (ls : List Level)
    → IsLadder least ls
    → quantity_at r (erase p ls) ≡ (if r == p then 0 else quantity_at r ls)
unfolding quantity_at erase
quantity_at-erase p r least [] h = ground arith
quantity_at-erase p r least (l ∷ ls) h = ground (
  arith,
  quantity_at-erase p r (suc l.price_ticks) ls,
  quantity_at_below r (suc l.price_ticks) ls,
)

pub put-IsLadder :
    (p q least : ℕ) (ls : List Level)
    → IsLadder least ls
    → least ≤ p
    → 0 < q
    → q ≤ u64_max
    → IsLadder least (put p q ls)
unfolding put
put-IsLadder p q least [] h a b c = omega arith
put-IsLadder p q least (l ∷ ls) h a b c = ground (arith, put-IsLadder p q (suc l.price_ticks) ls)

pub erase-IsLadder :
    (p least : ℕ) (ls : List Level) → IsLadder least ls → IsLadder least (erase p ls)
unfolding erase
erase-IsLadder p least [] h = tt
erase-IsLadder p least (l ∷ ls) h =
    ground
      (arith, erase-IsLadder p (suc l.price_ticks) ls, IsLadder-weaken least (suc l.price_ticks) ls)

-- In a ladder a price is absent exactly where its quantity is 0.
pub find-quantity_at :
    (p least : ℕ) (ls : List Level)
    → IsLadder least ls
    → find p ls ≡ (if quantity_at p ls == 0 then none else some (quantity_at p ls))
unfolding find quantity_at
find-quantity_at p least [] h = refl
find-quantity_at p least (l ∷ ls) h = ground (arith, find-quantity_at p (suc l.price_ticks) ls)

pub put-subscript :
    (p q least : ℕ) (ls : List Level) → IsLadder least ls → put p q (subscript p ls) ≡ put p q ls
unfolding put subscript find
put-subscript p q least [] h = ground arith
put-subscript p q least (l ∷ ls) h = ground (arith, put-subscript p q (suc l.price_ticks) ls)

find-none : (p : ℕ) (ls : List Level) → find p ls ≡ none → quantity_at p ls ≡ 0
unfolding find quantity_at
find-none p [] h = refl
find-none p (l ∷ ls) h = ground (arith, find-none p ls)

pub quantity_at-subscript :
    (p r : ℕ) (ls : List Level) → quantity_at r (subscript p ls) ≡ quantity_at r ls
unfolding subscript
quantity_at-subscript p r ls = ground (arith, quantity_at-put p 0 r ls, find-none p ls)

-- A price that is there is left alone.
pub subscript_present : (p : ℕ) (ls : List Level) → quantity_at p ls ≢ 0 → subscript p ls ≡ ls
unfolding subscript
subscript_present p ls h = ground (arith, find-none p ls)

pub quantity_at-le :
    (p least : ℕ) (ls : List Level) → IsLadder least ls → quantity_at p ls ≤ u64_max
unfolding quantity_at
quantity_at-le p least [] h = omega arith
quantity_at-le p least (l ∷ ls) h = ground (arith, quantity_at-le p (suc l.price_ticks) ls)
