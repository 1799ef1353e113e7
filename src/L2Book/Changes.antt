-- ===== src/L2Book/Changes.antt =====
-- cpp/include/llab/bybit_l2_order_book.hpp: what a list of changes does to the levels of a side,
-- whichever of them come first.
use cpp_rust_performance_lab.Common.{
  ℕ, ◌≡◌, refl, Bool, true, false, ◌&&◌, ◌||◌, none, List, [], ◌∷◌, ◌++◌, ◌==◌, if◌then◌else◌,
  arith, Bool-cases, inl, inr,
}
use cpp_rust_performance_lab.Book.{Side, bid, ask, same_side}
use cpp_rust_performance_lab.L2Book.{Level, Change, repeated}
use cpp_rust_performance_lab.L2Book.Levels.{
  IsLevels, quantity_at, place, place-IsLevels, quantity_at-place,
}

-- The quantity at price `p` of side `s` after the changes, where it was `q`.
unfoldable pub changed : Side → ℕ → List Change → ℕ → ℕ
changed s p [] q = q
changed s p (c ∷ cs) q =
    changed s p cs (if same_side c.side s && p == c.price then c.quantity else q)

-- The levels of side `s` after the changes in their order, with room for all.
unfoldable pub fold : Side → List Change → List Level → List Level
fold s [] ls = ls
fold s (c ∷ cs) ls = fold s cs (if same_side c.side s then place c ls else ls)

unfoldable pub mentions : Side → ℕ → List Change → Bool
mentions s p [] = false
mentions s p (c ∷ cs) = (same_side c.side s && p == c.price) || mentions s p cs

-- No change has the side and price of another, or of an earlier one.
abbrev pub Apart : List Change → List Change → Type 0
Apart earlier [] = Unit {0}
Apart earlier (c ∷ cs) = (repeated c earlier ≡ false) × Apart (c ∷ earlier) cs

-- the changes of one of the two loops of `apply_delta`
unfoldable pub select : Bool → List Change → List Change
select zeros [] = []
select true (c ∷ cs) = if c.quantity == 0 then c ∷ select true cs else select true cs
select false (c ∷ cs) = if c.quantity == 0 then select false cs else c ∷ select false cs

pub same_side_eq : (a b : Side) → same_side a b ≡ true → a ≡ b
same_side_eq bid bid h = refl
same_side_eq ask ask h = refl
same_side_eq bid ask h = cc
same_side_eq ask bid h = cc

pub place-side-IsLevels :
    (s : Side) (c : Change) (ls : List Level)
    → same_side c.side s ≡ true
    → IsLevels s none ls
    → IsLevels s none (place c ls)
place-side-IsLevels s c ls h v =
    let e = same_side_eq c.side s h in rw (← e) (place-IsLevels c none ls (rw e v) refl)

pub fold-IsLevels :
    (s : Side) (cs : List Change) (ls : List Level)
    → IsLevels s none ls
    → IsLevels s none (fold s cs ls)
unfolding fold
fold-IsLevels s [] ls v = v
fold-IsLevels s (c ∷ cs) ls v = elim (Bool-cases (same_side c.side s)) [
  | inl h ↦ rw h (fold-IsLevels s cs (place c ls) (place-side-IsLevels s c ls h v))
  | inr h ↦ rw h (fold-IsLevels s cs ls v)
]

pub quantity_at-fold :
    (s : Side) (p : ℕ) (cs : List Change) (ls : List Level)
    → IsLevels s none ls
    → quantity_at p (fold s cs ls) ≡ changed s p cs (quantity_at p ls)
unfolding fold changed
quantity_at-fold s p [] ls v = refl
quantity_at-fold s p (c ∷ cs) ls v = elim (Bool-cases (same_side c.side s)) [
  | inl h ↦
      let e = same_side_eq c.side s h in
      rw (
        h,
        quantity_at-fold s p cs (place c ls) (place-side-IsLevels s c ls h v),
        quantity_at-place c none p ls (rw e v),
      )
  | inr h ↦ rw h (quantity_at-fold s p cs ls v)
]

repeated_middle :
    (c e : Change) (front earlier : List Change)
    → repeated c (front ++ (e ∷ earlier)) ≡ false
    → (same_side e.side c.side && e.price == c.price) ≡ false
unfolding repeated
repeated_middle c e [] earlier h = ground arith
repeated_middle c e (x ∷ front) earlier h = ground (arith, repeated_middle c e front earlier)

same_side_symm : (a b : Side) → same_side a b ≡ same_side b a
same_side_symm bid bid = refl
same_side_symm bid ask = refl
same_side_symm ask bid = refl
same_side_symm ask ask = refl

mentions-Apart :
    (e : Change) (front earlier cs : List Change)
    → Apart (front ++ (e ∷ earlier)) cs
    → mentions e.side e.price cs ≡ false
unfolding mentions
mentions-Apart e front earlier [] h = refl
mentions-Apart e front earlier (c ∷ cs) h = ground (
  arith,
  mentions-Apart e (c ∷ front) earlier cs h.1,
  repeated_middle c e front earlier h.0,
  same_side_symm c.side e.side,
)

changed_unmentioned :
    (s : Side) (p : ℕ) (cs : List Change) (q : ℕ) → mentions s p cs ≡ false → changed s p cs q ≡ q
unfolding mentions changed
changed_unmentioned s p [] q h = refl
changed_unmentioned s p (c ∷ cs) q h = ground (arith, changed_unmentioned s p cs q)

mentions-select :
    (s : Side) (p : ℕ) (zeros : Bool) (cs : List Change)
    → mentions s p cs ≡ false
    → mentions s p (select zeros cs) ≡ false
unfolding mentions select
mentions-select s p true [] h = refl
mentions-select s p false [] h = refl
mentions-select s p true (c ∷ cs) h = ground (arith, mentions-select s p true cs)
mentions-select s p false (c ∷ cs) h = ground (arith, mentions-select s p false cs)

unmentioned :
    (s : Side) (p : ℕ) (c : Change) (earlier cs : List Change)
    → (same_side c.side s && p == c.price) ≡ true
    → Apart (c ∷ earlier) cs
    → mentions s p cs ≡ false
unmentioned s p c earlier cs hit h =
    let side : c.side ≡ s = same_side_eq c.side s (ground arith) in
    let price : p ≡ c.price = ground arith in rw (← side, price) (mentions-Apart c [] earlier cs h)

-- Changes of different prices may be made in any order: the zeros first, as `apply_delta` does.
pub changed-select :
    (s : Side) (p : ℕ) (earlier cs : List Change) (q : ℕ)
    → Apart earlier cs
    → changed s p (select false cs) (changed s p (select true cs) q) ≡ changed s p cs q
unfolding changed select
changed-select s p earlier [] q h = refl
changed-select s p earlier (c ∷ cs) q h = elim (Bool-cases (same_side c.side s && p == c.price)) [
  | inl hit ↦
      let none = unmentioned s p c earlier cs hit h.1 in
      ground (
        arith,
        changed_unmentioned s p cs c.quantity none,
        changed_unmentioned s p (select true cs) c.quantity (mentions-select s p true cs none),
        changed_unmentioned s p (select false cs) c.quantity (mentions-select s p false cs none),
      )
  | inr miss ↦ ground (arith, changed-select s p (c ∷ earlier) cs q h.1)
]
