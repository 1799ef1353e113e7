-- ===== src/ProbeTable/Trail.antt =====
-- cpp/src/parity_order_book.cpp: the slots that a probe passes, one after the other.
use cpp_rust_performance_lab.Common.{
  ℕ, zero, suc, ◌+◌, ◌-◌, ◌%◌, ◌^◌, ◌≤◌, ◌<◌, ◌≡◌, ◌≢◌, refl, sym, ap, ◌∙◌, true, false, Bool,
  Option, none, some, List, [], ◌∷◌, ◌==◌, leb, if◌then◌else◌, length, length-set, get_elem?, set,
  u64_mod, arith,
}
use native.Mathlib.Decide.{ℕ_discrete}
use native.Mathlib.Nat.{one-le-pow, pow-le-pow_right, mod-lt, mod-eq_of_lt, mod_self}
use cpp_rust_performance_lab.Common.Bits.{bit_and_mask}
use cpp_rust_performance_lab.Book.Digest.{mix_order_id}
use cpp_rust_performance_lab.ProbeTable.{SlotState, empty, Slot, home, advance}

-- the index after `i` in `n` slots
unfoldable pub step : ℕ → ℕ → ℕ
step n i = if suc i == n then 0 else suc i

pub step_lt : (n i : ℕ) → i < n → step n i < n
unfolding step
step_lt n i h = ground arith

pub wrap : (p j : ℕ) → j ≤ p → j % p ≡ (if j == p then 0 else j)
wrap p j h = elim (ℕ_discrete j p) [
  | yes e ↦ rw (e, mod_self p) (ground arith)
  | no n ↦ let less : j < p = omega arith in rw (mod-eq_of_lt less) (ground arith)
]

abbrev pub vacant_in : SlotState → Bool
vacant_in empty = true
vacant_in _ = false

module _ {ℓ} {A : Type ℓ} where
  -- An empty slot ends a search.
  abbrev pub vacant : Option (Slot A) → Bool
  vacant none = true
  vacant (some s) = vacant_in s.state

  -- The size is a power of two.
  pub record IsSized (slots : List (Slot A)) : Type 0 where
    pub power : ℕ
    pub power_le : power ≤ 63
    pub size : length slots ≡ 2 ^ power

  pub advance_lem :
      (slots : List (Slot A)) (i : ℕ)
      → IsSized slots
      → i < length slots
      → advance i slots ≡ step (length slots) i
  unfolding advance step
  advance_lem slots i v h =
      let p = 2 ^ v.power in
      let small : p ≤ 2 ^ 63 = pow-le-pow_right (omega arith) v.power_le in
      let size = v.size in
      let e : (i + 1) % u64_mod ≡ suc i = omega (arith, size) in
      rw (e, size) (bit_and_mask v.power (suc i) ∙ wrap p (suc i) (omega (arith, size)))

  pub home_lt : (slots : List (Slot A)) (id : ℕ) → IsSized slots → home id slots < length slots
  unfolding home
  home_lt slots id v =
      let pos : 1 ≤ 2 ^ v.power = one-le-pow v.power 2 (omega arith) in
      let size = v.size in
      rw (size, bit_and_mask v.power (mix_order_id id)) (mod-lt (mix_order_id id) (omega arith))

  -- From `i` to `target` in `n` steps, none of the slots left behind being empty.
  abbrev pub Trail : List (Slot A) → ℕ → ℕ → ℕ → Type 0
  Trail slots zero i target = i ≡ target
  Trail slots (suc n) i target =
      (vacant (get_elem? slots i) ≡ false) × Trail slots n (step (length slots) i) target

  -- A search for `id` comes to `target` within as many steps as there are slots.
  abbrev pub Reach : List (Slot A) → ℕ → ℕ → Type 0
  Reach slots id target = (n : ℕ) × (n < length slots) × Trail slots n (home id slots) target

  vacant-set :
      (slots : List (Slot A)) (k i : ℕ) (s : Slot A)
      → vacant_in s.state ≡ false
      → vacant (get_elem? slots i) ≡ false
      → vacant (get_elem? (set slots k s) i) ≡ false
  vacant-set [] k i s f h = h
  vacant-set (x ∷ xs) zero zero s f h = f
  vacant-set (x ∷ xs) zero (suc i) s f h = h
  vacant-set (x ∷ xs) (suc k) zero s f h = h
  vacant-set (x ∷ xs) (suc k) (suc i) s f h = vacant-set xs k i s f h

  pub Trail-lt :
      (slots : List (Slot A)) (n i target : ℕ)
      → i < length slots
      → Trail slots n i target
      → target < length slots
  Trail-lt slots zero i target h p = rw (← p) h
  Trail-lt slots (suc n) i target h p =
      Trail-lt slots n (step (length slots) i) target (step_lt (length slots) i h) p.1

  -- A write of a slot that is not empty cuts no path.
  pub Trail-set :
      (slots : List (Slot A)) (k : ℕ) (s : Slot A) (n i target : ℕ)
      → vacant_in s.state ≡ false
      → Trail slots n i target
      → Trail (set slots k s) n i target
  Trail-set slots k s zero i target f p = p
  Trail-set slots k s (suc n) i target f p = (
    vacant-set slots k i s f p.0,
    rw (length-set slots k s) (Trail-set slots k s n (step (length slots) i) target f p.1),
  )

-- the steps from `i` to `w` around `n` slots
unfoldable pub gap : ℕ → ℕ → ℕ → ℕ
gap n i w = if leb i w then w - i else w + n - i

pub gap-step : (n i w : ℕ) → i < n → w < n → i ≢ w → gap n i w ≡ suc (gap n (step n i) w)
unfolding step gap
gap-step n i w h k ne = ground arith

pub gap_zero : (n i w : ℕ) → i < n → gap n i w ≡ 0 → i ≡ w
unfolding gap
gap_zero n i w h e = ground arith

pub gap_lt : (n i w : ℕ) → i < n → w < n → gap n i w < n
unfolding gap
gap_lt n i w h k = ground arith

-- the slot after `m` steps
unfoldable pub walk : ℕ → ℕ → ℕ → ℕ
walk n zero i = i
walk n (suc m) i = walk n m (step n i)

pub gap_self : (n i : ℕ) → gap n i i ≡ 0
unfolding gap
gap_self n i = ground arith

walk-gap : (n m i w : ℕ) → i < n → w < n → m ≡ gap n i w → walk n m i ≡ w
unfolding walk
walk-gap n zero i w h k e = gap_zero n i w h (sym e)
walk-gap n (suc m) i w h k e =
    let ne : i ≢ w = λ same. ground (arith, gap_self n i, ap (gap n i) same) in
    walk-gap n m (step n i) w (step_lt n i h) k (omega (arith, gap-step n i w h k ne))

-- Every slot is met.
pub walk_covers : (n i w : ℕ) → i < n → w < n → (m : ℕ) × (m < n) × (walk n m i ≡ w)
walk_covers n i w h k = (gap n i w, gap_lt n i w h k, walk-gap n (gap n i w) i w h k refl)
