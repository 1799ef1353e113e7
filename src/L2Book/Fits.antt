-- ===== src/L2Book/Fits.antt =====
-- cpp/include/llab/bybit_l2_order_book.hpp: `delta_fits` counts the levels that a delta leaves.
use cpp_rust_performance_lab.Common.{
  ℕ, ◌+◌, ◌≤◌, ◌<◌, ◌≡◌, refl, Bool, true, false, not, ◌&&◌, none, List, [], ◌∷◌, ◌==◌,
  if◌then◌else◌, arith, length, leb, Bool-cases, inl, inr, u64_max,
}
use cpp_rust_performance_lab.Book.{Side, bid, ask, same_side}
use cpp_rust_performance_lab.L2Book.{
  Level, Change, Book, levels_of, repeated, recount, exists, fits_from,
}
use cpp_rust_performance_lab.L2Book.Levels.{
  IsLevels, quantity_at, place, quantity_at-place, length-place, exists-quantity_at,
}
use cpp_rust_performance_lab.L2Book.Changes.{fold, same_side_eq, place-side-IsLevels}

-- Each change has a side and price of its own.
unfoldable pub apart : List Change → List Change → Bool
apart earlier [] = true
apart earlier (c ∷ cs) = not (repeated c earlier) && apart (c ∷ earlier) cs

abbrev pub step : Change → (Side → List Level) → Side → List Level
step c cur s = if same_side c.side s then place c (cur s) else cur s

step-IsLevels :
    (c : Change) (cur : Side → List Level) (s : Side)
    → ((t : Side) → IsLevels t none (cur t))
    → IsLevels s none (step c cur s)
step-IsLevels c cur s v = elim (Bool-cases (same_side c.side s)) [
  | inl h ↦ rw h (place-side-IsLevels s c (cur s) h (v s))
  | inr h ↦ rw h (v s)
]

pub place-side-length :
    (s : Side) (c : Change) (ls : List Level)
    → same_side c.side s ≡ true
    → IsLevels s none ls
    → length (place c ls) + (if quantity_at c.price ls == 0 then 0 else 1)
      ≡ length ls + (if c.quantity == 0 then 0 else 1)
place-side-length s c ls h v = length-place c none ls (rw (same_side_eq c.side s h) v)

quantity_at_pos : (p : ℕ) (ls : List Level) → (quantity_at p ls == 0) ≡ false → 0 < length ls
unfolding quantity_at
quantity_at_pos p [] h = ground arith
quantity_at_pos p (l ∷ ls) h = omega arith

-- One round of the loop: the count of a side stays the length of its levels.
recount-length :
    (s : Side) (c : Change) (ls cur : List Level)
    → IsLevels s none cur
    → (same_side c.side s ≡ true → exists c.price ls ≡ not (quantity_at c.price cur == 0))
    → length cur < u64_max
    → recount s c ls (length cur) ≡ length (if same_side c.side s then place c cur else cur)
unfolding recount
recount-length s c ls cur v e small = elim (Bool-cases (same_side c.side s)) [
  | inr h ↦ rw h
  | inl h ↦ rw h (ground (arith, e h, place-side-length s c cur h v, quantity_at_pos c.price cur))
]

length-step :
    (c : Change) (cur : Side → List Level) (s : Side)
    → IsLevels s none (cur s)
    → length (step c cur s) ≤ length (cur s) + 1
length-step c cur s v = elim (Bool-cases (same_side c.side s)) [
  | inr h ↦ rw h (omega arith)
  | inl h ↦ rw h (ground (arith, place-side-length s c (cur s) h v))
]

-- The levels that the delta has not named yet are those of the book.
abbrev Untouched : Book → List Change → (Side → List Level) → Type 0
Untouched b earlier cur =
    (c : Change)
    → repeated c earlier ≡ false
    → quantity_at c.price (cur c.side) ≡ quantity_at c.price (levels_of c.side b)

step-Untouched :
    (b : Book) (earlier : List Change) (cur : Side → List Level) (c : Change)
    → ((t : Side) → IsLevels t none (cur t))
    → Untouched b earlier cur
    → Untouched b (c ∷ earlier) (step c cur)
unfolding repeated
step-Untouched b earlier cur c v u d h = elim (Bool-cases (same_side c.side d.side)) [
  | inl e ↦
      rw
        (
          e,
          quantity_at-place c none d.price (cur d.side)
              (rw (same_side_eq c.side d.side e) (v d.side)),
        )
        (ground (arith, u d))
  | inr e ↦ rw e (u d (ground arith))
]

module _ (b : Book) (v₀ : (s : Side) → IsLevels s none (levels_of s b)) where
  known :
      (c : Change) (earlier : List Change) (cur : Side → List Level)
      → Untouched b earlier cur
      → repeated c earlier ≡ false
      → (s : Side) → same_side c.side s ≡ true
      → exists c.price (levels_of s b) ≡ not (quantity_at c.price (cur s) == 0)
  known c earlier cur u r s h =
      let e = same_side_eq c.side s h in
      rw (exists-quantity_at c.price s none (levels_of s b) (v₀ s), ← e, u c r)

  pub fits_from_lem :
      (earlier cs : List Change) (cur : Side → List Level)
      → ((s : Side) → IsLevels s none (cur s))
      → Untouched b earlier cur
      → ((s : Side) → length (cur s) + length cs ≤ u64_max)
      → fits_from earlier (length (cur bid)) (length (cur ask)) cs b ≡ (
          apart earlier cs
          && leb (length (fold bid cs (cur bid))) b.maximum_levels
          && leb (length (fold ask cs (cur ask))) b.maximum_levels)
  unfolding fits_from apart fold
  fits_from_lem earlier [] cur v u small = refl
  fits_from_lem earlier (c ∷ cs) cur v u small = elim (Bool-cases (repeated c earlier)) [
    | inl r ↦ rw r
    | inr r ↦
        rw
          (
            r,
            recount-length bid c b.bids (cur bid) (v bid) (known c earlier cur u r bid)
                (omega (arith, small bid)),
            recount-length ask c b.asks (cur ask) (v ask) (known c earlier cur u r ask)
                (omega (arith, small ask)),
          )
          (fits_from_lem (c ∷ earlier) cs (step c cur) (λ s. step-IsLevels c cur s v)
            (step-Untouched b earlier cur c v u)
            (λ s. omega (arith, small s, length-step c cur s (v s))))
  ]
