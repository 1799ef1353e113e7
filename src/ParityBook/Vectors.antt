-- ===== src/ParityBook/Vectors.antt =====
-- cpp/src/parity_order_book.cpp: the sorted vectors of levels keep what a function says of them.
use cpp_rust_performance_lab.Common.{
  ℕ, suc, ◌+◌, ◌-◌, ◌%◌, ◌≤◌, ◌<◌, ◌≡◌, refl, sym, ap, ◌∙◌, inl, inr, true, false, not, ◌||◌, List,
  [], ◌∷◌, ◌==◌, if◌then◌else◌, ltb, u64_mod, u64_max, get_elem?, set, arith, Bool-cases,
}
use cpp_rust_performance_lab.Book.{
  Side, bid, ask, same_side, share, invalid_argument, overflow_error, done, raised,
}
use cpp_rust_performance_lab.Book.Ladder
use cpp_rust_performance_lab.Book.Ladder.{
  Level, quantity_at, put, erase, IsLadder, quantity_at_below,
}
use cpp_rust_performance_lab.OrderBook.Levels.{lot, same_side_refl}
use cpp_rust_performance_lab.IndexedBook.Levels.{LevelLaws}
use cpp_rust_performance_lab.ParityBook.{
  Levels, levels_for, with_side, lower_bound, insert_at, erase_at, is_at, quantity_of, add_levels,
  subtract_levels, parity_levels,
}

-- Where `std::lower_bound` points.
pub is_at_lem :
    (p least : ℕ) (ls : List Level)
    → IsLadder least ls
    → is_at p (get_elem? ls (lower_bound p ls)) ≡ not (quantity_at p ls == 0)
unfolding lower_bound quantity_at
is_at_lem p least [] v = refl
is_at_lem p least (l ∷ ls) v =
    ground (arith, is_at_lem p (suc l.price_ticks) ls, quantity_at_below p (suc l.price_ticks) ls)

pub quantity_of_lem :
    (p least : ℕ) (ls : List Level)
    → IsLadder least ls
    → is_at p (get_elem? ls (lower_bound p ls)) ≡ true
    → quantity_of (get_elem? ls (lower_bound p ls)) ≡ quantity_at p ls
unfolding lower_bound quantity_at
quantity_of_lem p least [] v h = refl
quantity_of_lem p least (l ∷ ls) v h = ground (arith, quantity_of_lem p (suc l.price_ticks) ls)

-- The three writes are those of a map.
insert_at-put :
    (p q least : ℕ) (ls : List Level)
    → IsLadder least ls
    → is_at p (get_elem? ls (lower_bound p ls)) ≡ false
    → insert_at (lower_bound p ls) (record { price_ticks = p; quantity = q }) ls ≡ put p q ls
unfolding lower_bound insert_at put
insert_at-put p q least [] v h = refl
insert_at-put p q least (l ∷ ls) v h = ground (arith, insert_at-put p q (suc l.price_ticks) ls)

set-put :
    (p q least : ℕ) (ls : List Level)
    → IsLadder least ls
    → is_at p (get_elem? ls (lower_bound p ls)) ≡ true
    → set ls (lower_bound p ls) (record { price_ticks = p; quantity = q }) ≡ put p q ls
unfolding lower_bound put
set-put p q least [] v h = absurd cc
set-put p q least (l ∷ ls) v h = ground (arith, set-put p q (suc l.price_ticks) ls)

erase_at-erase :
    (p least : ℕ) (ls : List Level)
    → IsLadder least ls
    → is_at p (get_elem? ls (lower_bound p ls)) ≡ true
    → erase_at (lower_bound p ls) ls ≡ erase p ls
unfolding lower_bound erase_at erase
erase_at-erase p least [] v h = refl
erase_at-erase p least (l ∷ ls) v h = ground (arith, erase_at-erase p (suc l.price_ticks) ls)

-- What the two operations do to the levels of one side.
module _ (ls : List Level) (v : IsLadder 0 ls) (p q : ℕ) where
  add_levels_fits :
      0 < q
      → quantity_at p ls + q ≤ u64_max
      → add_levels p q ls ≡ done (put p (quantity_at p ls + q) ls)
  add_levels_fits pos fits = elim (Bool-cases (is_at p (get_elem? ls (lower_bound p ls)))) [
    | inl there ↦
        let e = quantity_of_lem p 0 ls v there in
        let room : ltb (u64_max - quantity_at p ls) q ≡ false = ground arith in
        let sum : (quantity_at p ls + q) % u64_mod ≡ quantity_at p ls + q = omega arith in
        unfold add_levels in
        rw (there, e, room, sum) (ap done (set-put p (quantity_at p ls + q) 0 ls v there))
    | inr absent ↦
        let none_there : quantity_at p ls ≡ 0 = ground (arith, is_at_lem p 0 ls v) in
        let sum : quantity_at p ls + q ≡ q = omega arith in
        rw sum (unfold add_levels in rw absent (ap done (insert_at-put p q 0 ls v absent)))
  ]

  add_levels_overflows :
      q ≤ u64_max → u64_max < quantity_at p ls + q → add_levels p q ls ≡ raised overflow_error ls
  add_levels_overflows small over =
      let there : is_at p (get_elem? ls (lower_bound p ls)) ≡ true =
        ground (arith, is_at_lem p 0 ls v) in
      let e = quantity_of_lem p 0 ls v there in
      let bound = Ladder.quantity_at-le p 0 ls v in
      let full : ltb (u64_max - quantity_at p ls) q ≡ true = ground arith in
      unfold add_levels in rw (there, e, full) refl

  -- the levels that a reduction leaves
  abbrev reduced : List Level
  reduced = if quantity_at p ls - q == 0 then erase p ls else put p (quantity_at p ls - q) ls

  subtract_levels_fits : 0 < q → q ≤ quantity_at p ls → subtract_levels p q ls ≡ done reduced
  subtract_levels_fits pos fits =
      let there : is_at p (get_elem? ls (lower_bound p ls)) ≡ true =
        ground (arith, is_at_lem p 0 ls v) in
      let e = quantity_of_lem p 0 ls v there in
      let good : (not true || q == 0 || ltb (quantity_at p ls) q) ≡ false = ground arith in
      elim (Bool-cases (quantity_at p ls - q == 0)) [
        | inl z ↦
            unfold subtract_levels in
            rw (there, e, good, z) (ap done (erase_at-erase p 0 ls v there))
        | inr z ↦
            unfold subtract_levels in
            rw (there, e, good, z) (ap done (set-put p (quantity_at p ls - q) 0 ls v there))
      ]

  reduced-IsLadder : 0 < q → q ≤ quantity_at p ls → IsLadder 0 reduced
  reduced-IsLadder pos fits =
      let bound = Ladder.quantity_at-le p 0 ls v in
      elim (Bool-cases (quantity_at p ls - q == 0)) [
        | inl z ↦ rw z (Ladder.erase-IsLadder p 0 ls v)
        | inr z ↦ rw z (
            Ladder.put-IsLadder p (quantity_at p ls - q) 0 ls v (omega arith) (ground arith)
              (omega arith))
      ]

  quantity_at-reduced :
      (r : ℕ) → quantity_at r reduced ≡ (if r == p then quantity_at p ls - q else quantity_at r ls)
  quantity_at-reduced r = elim (Bool-cases (quantity_at p ls - q == 0)) [
    | inl z ↦ rw z (ground (arith, Ladder.quantity_at-erase p r 0 ls v))
    | inr z ↦ rw z (ground (arith, Ladder.quantity_at-put p (quantity_at p ls - q) r ls))
  ]

-- Both sides are ladders, and hold what `f` says.
pub record Holds (f : Side → ℕ → ℕ) (l : Levels) : Type 0 where
  pub ladder : (s : Side) → IsLadder 0 (levels_for s l)
  pub reads : (s : Side) (p : ℕ) → quantity_at p (levels_for s l) ≡ f s p

abbrev set_side : Side → List Level → Levels → Levels
set_side bid ls l = record l { bids = ls }
set_side ask ls l = record l { asks = ls }

with_side_done :
    (s : Side) (l : Levels) (ls : List Level) → with_side s l (done ls) ≡ done (set_side s ls l)
with_side_done bid l ls = refl
with_side_done ask l ls = refl

with_side_raised :
    (s : Side) (l : Levels)
    → with_side s l (raised overflow_error (levels_for s l)) ≡ raised overflow_error l
with_side_raised bid l = refl
with_side_raised ask l = refl

-- Replacing the levels of one side.
replace-Holds :
    (side : Side) (ls : List Level) (f g : Side → ℕ → ℕ) (l : Levels)
    → Holds f l
    → IsLadder 0 ls
    → ((p : ℕ) → quantity_at p ls ≡ g side p)
    → ((s : Side) (p : ℕ) → same_side s side ≡ false → g s p ≡ f s p)
    → Holds g (set_side side ls l)
replace-Holds bid ls f g l v lad reads others = record {
  ladder = λ s. elim s as (λ x. IsLadder 0 (levels_for x (set_side bid ls l))) [
    | bid ↦ lad
    | ask ↦ v.ladder ask
  ];
  reads = λ s. elim s as (λ x. (p : ℕ) → quantity_at p (levels_for x (set_side bid ls l)) ≡ g x p) [
    | bid ↦ reads
    | ask ↦ λ p. v.reads ask p ∙ sym (others ask p refl)
  ];
}
replace-Holds ask ls f g l v lad reads others = record {
  ladder = λ s. elim s as (λ x. IsLadder 0 (levels_for x (set_side ask ls l))) [
    | bid ↦ v.ladder bid
    | ask ↦ lad
  ];
  reads = λ s. elim s as (λ x. (p : ℕ) → quantity_at p (levels_for x (set_side ask ls l)) ≡ g x p) [
    | bid ↦ λ p. v.reads bid p ∙ sym (others bid p refl)
    | ask ↦ reads
  ];
}

pub add_fits :
    (f g : Side → ℕ → ℕ) (l : Levels) (s : Side) (p q : ℕ)
    → Holds f l
    → true ≡ true
    → 0 < q
    → f s p + q ≤ u64_max
    → ((t : Side) (r : ℕ) → g t r ≡ f t r + share t r (lot s p q))
    → (l' : Levels) × (parity_levels.add_to_level s p q l ≡ done l') × Holds g l'
add_fits f g l s p q v inside pos fits h =
    let ls = levels_for s l in
    let n = quantity_at p ls + q in
    let sum : quantity_at p ls + q ≤ u64_max = omega (arith, v.reads s p) in
    (
      set_side s (put p n ls) l,
      ap (with_side s l) (add_levels_fits ls (v.ladder s) p q pos sum)
          ∙ with_side_done s l (put p n ls),
      replace-Holds s (put p n ls) f g l v
          (Ladder.put-IsLadder p n 0 ls (v.ladder s) (omega arith) (omega arith) sum)
          (λ r. ground (
            arith,
            Ladder.quantity_at-put p n r ls,
            v.reads s r,
            v.reads s p,
            h s r,
            same_side_refl s,
          ))
          (λ t r k. ground (arith, h t r)),
    )

pub subtract_fits :
    (f g : Side → ℕ → ℕ) (l : Levels) (s : Side) (p q : ℕ)
    → Holds f l
    → 0 < q
    → q ≤ f s p
    → ((t : Side) (r : ℕ) → g t r + share t r (lot s p q) ≡ f t r)
    → (l' : Levels) × (parity_levels.subtract_from_level s p q l ≡ done l') × Holds g l'
subtract_fits f g l s p q v pos fits h =
    let ls = levels_for s l in
    let enough : q ≤ quantity_at p ls = omega (arith, v.reads s p) in
    (
      set_side s (reduced ls (v.ladder s) p q) l,
      ap (with_side s l) (subtract_levels_fits ls (v.ladder s) p q pos enough)
          ∙ with_side_done s l (reduced ls (v.ladder s) p q),
      replace-Holds s (reduced ls (v.ladder s) p q) f g l v
          (reduced-IsLadder ls (v.ladder s) p q pos enough)
          (λ r. ground (
            arith,
            quantity_at-reduced ls (v.ladder s) p q r,
            v.reads s r,
            v.reads s p,
            h s r,
            same_side_refl s,
          ))
          (λ t r k. ground (arith, h t r)),
    )

pub Holds-bounded : (f : Side → ℕ → ℕ) (l : Levels) (s : Side) (p : ℕ) → Holds f l → f s p ≤ u64_max
Holds-bounded f l s p v =
    omega (arith, v.reads s p, Ladder.quantity_at-le p 0 (levels_for s l) (v.ladder s))

pub add_overflows :
    (f : Side → ℕ → ℕ) (l : Levels) (s : Side) (p q : ℕ)
    → Holds f l
    → true ≡ true
    → q ≤ u64_max
    → u64_max < f s p + q
    → parity_levels.add_to_level s p q l ≡ raised overflow_error l
add_overflows f l s p q v inside small over =
    ap (with_side s l)
      (add_levels_overflows (levels_for s l) (v.ladder s) p q small (omega (arith, v.reads s p)))
    ∙ with_side_raised s l

-- No price is outside.
pub add_outside :
    (f : Side → ℕ → ℕ) (l : Levels) (s : Side) (p q : ℕ)
    → Holds f l
    → true ≡ false
    → parity_levels.add_to_level s p q l ≡ raised invalid_argument l
add_outside f l s p q v outside = absurd cc

-- The vectors are the levels of a book whose prices are not bounded.
abbrev pub parity_laws : LevelLaws parity_levels (λ p. true)
parity_laws = record {
  Holds = Holds;
  bounded = Holds-bounded;
  add_fits = add_fits;
  add_overflows = add_overflows;
  add_outside = add_outside;
  subtract_fits = subtract_fits;
}
