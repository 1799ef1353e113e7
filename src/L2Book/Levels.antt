-- ===== src/L2Book/Levels.antt =====
-- cpp/include/llab/bybit_l2_order_book.hpp: the sorted levels of one side, and one change of them.
use cpp_rust_performance_lab.Common.{
  ℕ, ◌+◌, ◌<◌, ◌≡◌, refl, Bool, true, false, not, ◌&&◌, Option, none, some, List, [], ◌∷◌, ◌==◌,
  if◌then◌else◌, arith, length, get_elem?, set, Bool-cases, inl, inr, ==_iff,
}
use cpp_rust_performance_lab.Book.{Side, bid, ask}
use cpp_rust_performance_lab.L2Book.{
  Level, Change, before, exists, lower_bound, erase_at, insert_at, is_at, change_levels,
}

-- Price `p` stands behind the price `o`, if there is one.
abbrev pub behind : Side → Option ℕ → ℕ → Bool
behind side none p = true
behind side (some o) p = before side o p

-- Distinct prices in the order of the side, all behind `o`, with positive quantities.
abbrev pub IsLevels : Side → Option ℕ → List Level → Type 0
IsLevels side o [] = Unit {0}
IsLevels side o (l ∷ ls) =
    (behind side o l.price ≡ true) × (0 < l.quantity) × IsLevels side (some l.price) ls

unfoldable pub quantity_at : ℕ → List Level → ℕ
quantity_at p [] = 0
quantity_at p (l ∷ ls) = if p == l.price then l.quantity else quantity_at p ls

pub before_trans :
    (s : Side) (a b c : ℕ) → before s a b ≡ true → before s b c ≡ true → before s a c ≡ true
before_trans bid a b c h k = ground arith
before_trans ask a b c h k = ground arith

pub before_ne : (s : Side) (a b : ℕ) → before s a b ≡ true → (a == b) ≡ false
before_ne bid a b h = ground arith
before_ne ask a b h = ground arith

before_irrefl : (s : Side) (a : ℕ) → before s a a ≡ false
before_irrefl bid a = ground arith
before_irrefl ask a = ground arith

pub before_total :
    (s : Side) (a b : ℕ) → before s a b ≡ false → (a == b) ≡ false → before s b a ≡ true
before_total bid a b h k = ground arith
before_total ask a b h k = ground arith

before_eq : (s : Side) (a b c : ℕ) → (b == c) ≡ true → before s a c ≡ before s a b
before_eq bid a b c h = ground arith
before_eq ask a b c h = ground arith

pub before_asymm : (s : Side) (a b : ℕ) → before s a b ≡ true → before s b a ≡ false
before_asymm bid a b h = ground arith
before_asymm ask a b h = ground arith

==_trans : (a b c : ℕ) → (a == b) ≡ true → a == c ≡ b == c
==_trans a b c h = ground arith

pub ==_symm : (a b : ℕ) → a == b ≡ b == a
==_symm a b = ground arith

behind_trans :
    (s : Side) (o : Option ℕ) (b c : ℕ)
    → behind s o b ≡ true
    → before s b c ≡ true
    → behind s o c ≡ true
behind_trans s none b c h k = refl
behind_trans s (some a) b c h k = before_trans s a b c h k

behind_eq : (s : Side) (o : Option ℕ) (b c : ℕ) → (b == c) ≡ true → behind s o c ≡ behind s o b
behind_eq s none b c h = refl
behind_eq s (some a) b c h = before_eq s a b c h

IsLevels-weaken :
    (s : Side) (o : Option ℕ) (b : ℕ) (ls : List Level)
    → behind s o b ≡ true
    → IsLevels s (some b) ls
    → IsLevels s o ls
IsLevels-weaken s o b [] h k = tt
IsLevels-weaken s o b (l ∷ ls) h k = ground (arith, behind_trans s o b l.price)

pub quantity_at-IsLevels :
    (s : Side) (o : Option ℕ) (r : ℕ) (ls : List Level)
    → IsLevels s o ls
    → behind s o r ≡ false
    → quantity_at r ls ≡ 0
unfolding quantity_at
quantity_at-IsLevels s o r [] h k = refl
quantity_at-IsLevels s o r (l ∷ ls) h k = ground (
  arith,
  behind_trans s o l.price r,
  quantity_at-IsLevels s (some l.price) r ls,
  behind_eq s o r l.price,
)

-- The new list in one pass.
pub place : Change → List Level → List Level
place c [] = if c.quantity == 0 then [] else record { price = c.price; quantity = c.quantity } ∷ []
place c (l ∷ ls) =
    if before c.side l.price c.price
    then l ∷ place c ls
    else if l.price == c.price
    then (if c.quantity == 0 then ls else record { price = c.price; quantity = c.quantity } ∷ ls)
    else if c.quantity == 0
    then l ∷ ls
    else record { price = c.price; quantity = c.quantity } ∷ l ∷ ls

abbrev found : Change → List Level → Bool
found c ls = is_at c.price (get_elem? ls (lower_bound c.side c.price ls))

erase_at-place :
    (c : Change) (ls : List Level)
    → found c ls ≡ true
    → (c.quantity == 0) ≡ true
    → erase_at (lower_bound c.side c.price ls) ls ≡ place c ls
unfolding place lower_bound erase_at
erase_at-place c [] f z = ground arith
erase_at-place c (l ∷ ls) f z = ground (arith, erase_at-place c ls)

set-place :
    (c : Change) (ls : List Level)
    → found c ls ≡ true
    → (c.quantity == 0) ≡ false
    → set ls (lower_bound c.side c.price ls) (record { price = c.price; quantity = c.quantity })
      ≡ place c ls
unfolding place lower_bound
set-place c [] f z = cc
set-place c (l ∷ ls) f z = ground (arith, set-place c ls)

insert_at-place :
    (c : Change) (ls : List Level)
    → found c ls ≡ false
    → (c.quantity == 0) ≡ false
    → insert_at
        (lower_bound c.side c.price ls)
        (record { price = c.price; quantity = c.quantity })
        ls
      ≡ place c ls
unfolding place lower_bound insert_at
insert_at-place c [] f z = ground arith
insert_at-place c (l ∷ ls) f z = ground (arith, insert_at-place c ls)

place_absent :
    (c : Change) (ls : List Level) → found c ls ≡ false → (c.quantity == 0) ≡ true → place c ls ≡ ls
unfolding place lower_bound
place_absent c [] f z = ground arith
place_absent c (l ∷ ls) f z = ground (arith, place_absent c ls)

found-quantity_at :
    (c : Change) (o : Option ℕ) (ls : List Level)
    → IsLevels c.side o ls
    → found c ls ≡ not (quantity_at c.price ls == 0)
unfolding lower_bound quantity_at
found-quantity_at c o [] h = refl
found-quantity_at c o (l ∷ ls) h = ground (
  arith,
  found-quantity_at c (some l.price) ls,
  before_ne c.side l.price c.price,
  ==_symm l.price c.price,
  quantity_at-IsLevels c.side (some l.price) c.price ls,
)

pub place-IsLevels :
    (c : Change) (o : Option ℕ) (ls : List Level)
    → IsLevels c.side o ls
    → behind c.side o c.price ≡ true
    → IsLevels c.side o (place c ls)
unfolding place
place-IsLevels c o [] h k = ground arith
place-IsLevels c o (l ∷ ls) h k = ground (
  arith,
  place-IsLevels c (some l.price) ls,
  before_total c.side l.price c.price,
  IsLevels-weaken c.side o l.price ls,
  behind_eq c.side o l.price c.price,
)

pub quantity_at-place :
    (c : Change) (o : Option ℕ) (r : ℕ) (ls : List Level)
    → IsLevels c.side o ls
    → quantity_at r (place c ls) ≡ (if r == c.price then c.quantity else quantity_at r ls)
unfolding place quantity_at
quantity_at-place c o r [] h = ground arith
quantity_at-place c o r (l ∷ ls) h = ground (
  arith,
  quantity_at-place c (some l.price) r ls,
  before_ne c.side l.price c.price,
  quantity_at-IsLevels c.side (some l.price) r ls,
  before_eq c.side l.price c.price r,
  before_irrefl c.side l.price,
)

pub length-place :
    (c : Change) (o : Option ℕ) (ls : List Level)
    → IsLevels c.side o ls
    → length (place c ls) + (if quantity_at c.price ls == 0 then 0 else 1)
      ≡ length ls + (if c.quantity == 0 then 0 else 1)
unfolding place quantity_at
length-place c o [] h = ground arith
length-place c o (l ∷ ls) h = ground (
  arith,
  length-place c (some l.price) ls,
  before_ne c.side l.price c.price,
  ==_symm l.price c.price,
  quantity_at-IsLevels c.side (some l.price) c.price ls,
)

pub exists-quantity_at :
    (p : ℕ) (s : Side) (o : Option ℕ) (ls : List Level)
    → IsLevels s o ls
    → exists p ls ≡ not (quantity_at p ls == 0)
unfolding exists quantity_at
exists-quantity_at p s o [] h = refl
exists-quantity_at p s o (l ∷ ls) h =
    ground (arith, exists-quantity_at p s (some l.price) ls, ==_symm l.price p)

-- One change of the levels of its side: it fails exactly where it would add a level to a full side.
pub change_levels_lem :
    (maximum : ℕ) (c : Change) (o : Option ℕ) (ls : List Level)
    → IsLevels c.side o ls
    → change_levels maximum c ls ≡ (
        if not (c.quantity == 0) && quantity_at c.price ls == 0 && length ls == maximum
        then (false, ls)
        else (true, place c ls))
unfolding change_levels
change_levels_lem maximum c o ls h = ground (
  arith,
  found-quantity_at c o ls h,
  erase_at-place c ls,
  set-place c ls,
  insert_at-place c ls,
  place_absent c ls,
)

-- Two sides that agree at all prices begin at one price.
front_eq :
    (s : Side) (l m : Level) (ls ms : List Level)
    → IsLevels s none (l ∷ ls)
    → IsLevels s none (m ∷ ms)
    → ((p : ℕ) → quantity_at p (l ∷ ls) ≡ quantity_at p (m ∷ ms))
    → (l.price == m.price) ≡ true
unfolding quantity_at
front_eq s l m ls ms h k e = elim (Bool-cases (l.price == m.price)) [
  | inl same ↦ same
  | inr other ↦ elim (Bool-cases (before s l.price m.price)) [
    | inl first ↦ ground (
      arith,
      e l.price,
      quantity_at-IsLevels s (some m.price) l.price ms,
      before_asymm s l.price m.price,
    )
    | inr later ↦ ground (
      arith,
      e m.price,
      quantity_at-IsLevels s (some l.price) m.price ls,
      ==_symm l.price m.price,
    )
  ]
]

-- Sorted levels are determined by the quantities at all prices.
pub IsLevels-ext :
    (s : Side) (o : Option ℕ) (ls ms : List Level)
    → IsLevels s o ls
    → IsLevels s o ms
    → ((p : ℕ) → quantity_at p ls ≡ quantity_at p ms)
    → ls ≡ ms
unfolding quantity_at
IsLevels-ext s o [] [] h k e = refl
IsLevels-ext s o [] (m ∷ ms) h k e = ground (arith, e m.price)
IsLevels-ext s o (l ∷ ls) [] h k e = ground (arith, e l.price)
IsLevels-ext s o (l ∷ ls) (m ∷ ms) h k e =
    let same = front_eq s l m ls ms (refl, h.1, h.2) (refl, k.1, k.2) e in
    let tail : IsLevels s (some l.price) ms = rw ((==_iff l.price m.price).0 same) k.2 in
    ground (
      arith,
      e l.price,
      ==_iff l.price m.price,
      IsLevels-ext s (some l.price) ls ms h.2 tail (λ p. ground (
        arith,
        e p,
        same,
        ==_trans l.price m.price p,
        before_eq s l.price l.price p,
        before_eq s m.price m.price p,
        before_irrefl s l.price,
        before_irrefl s m.price,
        quantity_at-IsLevels s (some l.price) p ls,
        quantity_at-IsLevels s (some m.price) p ms,
      )),
    )
