-- ===== src/ProbeTable/Capacity.antt =====
-- cpp/src/parity_order_book.cpp: the loop of `table_capacity`, and an index with no orders.
use cpp_rust_performance_lab.Common.{
  ℕ, zero, suc, ◌+◌, ◌*◌, ◌%◌, ◌^◌, ◌≤◌, ◌<◌, ◌≡◌, ◌≢◌, ◌⊎◌, inl, inr, refl, sym, ap, ◌∙◌, true,
  false, Option, none, some, ltb, u64_mod, replicate, length-replicate, get_elem?, arith,
  Bool-cases,
}
use native.Mathlib.Nat.{pow-suc, pow-le-pow_right}
use native.Mathlib.Decide.{ℕ_discrete}
use cpp_rust_performance_lab.ProbeTable.{empty, Slot, own, see, grow}
use cpp_rust_performance_lab.ProbeTable.Search.{at}
use cpp_rust_performance_lab.ProbeTable.Place.{IsProbe, lookup}
use cpp_rust_performance_lab.ProbeTable.Update.{lookup_absent}

grow_more :
    (fuel c target : ℕ) → c < target → grow (suc fuel) c target ≡ grow fuel (c * 2 % u64_mod) target
unfolding grow
grow_more fuel c target h = let more : ltb c target ≡ true = ground arith in rw (grow, more) refl

grow_stop : (fuel c target : ℕ) → target ≤ c → grow (suc fuel) c target ≡ some c
unfolding grow
grow_stop fuel c target h = let stop : ltb c target ≡ false = ground arith in rw (grow, stop) refl

-- From a power of two the loop ends at the first power of two that is not below the target, as
-- long as one fits 64 bits.
pub grow_lem :
    (fuel k target : ℕ)
    → k ≤ 63
    → target ≤ 2 ^ 63
    → 63 < fuel + k
    → (p : ℕ) × (k ≤ p)
      × (p ≤ 63)
      × (grow fuel (2 ^ k) target ≡ some (2 ^ p))
      × (target ≤ 2 ^ p)
      × ((p ≡ k) ⊎ (2 ^ p < 2 * target))
grow_lem zero k target h small enough = absurd (omega arith)
grow_lem (suc fuel) k target h small enough = elim (Bool-cases (ltb (2 ^ k) target)) [
  | inr stop ↦
      (k, omega arith, h, grow_stop fuel (2 ^ k) target (ground arith), ground arith, inl refl)
  | inl more ↦
      let below : 2 ^ k < target = ground arith in
      let top : k ≢ 63 =
        λ e. (let full : 2 ^ k ≡ 2 ^ 63 = ap (λ (t : ℕ). 2 ^ t) e in omega arith) in
      let twice : 2 ^ k * 2 ≡ 2 ^ suc k = sym (pow-suc 2 k) in
      let wraps : 2 ^ k * 2 % u64_mod ≡ 2 ^ suc k = omega (arith, twice) in
      let (p, low, high, run, reach, least) =
        grow_lem fuel (suc k) target (omega arith) small (omega arith) in
      (
        p,
        omega arith,
        high,
        grow_more fuel (2 ^ k) target below ∙ ap (λ (t : ℕ). grow fuel t target) wraps ∙ run,
        reach,
        inr (elim least [
          | inl e ↦ (let same : 2 ^ p ≡ 2 ^ suc k = ap (λ (t : ℕ). 2 ^ t) e in omega (arith, twice))
          | inr l ↦ l
        ]),
      )
]

grow_zero : (fuel target : ℕ) → 0 < target → grow fuel 0 target ≡ none
unfolding grow
grow_zero zero target h = refl
grow_zero (suc fuel) target h = grow_more fuel 0 target h ∙ grow_zero fuel target h

-- With a target above 2 ^ 63 the capacity becomes 0, and the loop does not end.
pub grow_endless : (fuel k target : ℕ) → k ≤ 63 → 2 ^ 63 < target → grow fuel (2 ^ k) target ≡ none
grow_endless zero k target h big = unfold grow in refl
grow_endless (suc fuel) k target h big =
    let bound : 2 ^ k ≤ 2 ^ 63 = pow-le-pow_right (omega arith) h in
    let twice : 2 ^ k * 2 ≡ 2 ^ suc k = sym (pow-suc 2 k) in
    grow_more fuel (2 ^ k) target (omega arith) ∙ elim (ℕ_discrete k 63) [
      | yes e ↦
          (let full : 2 ^ k ≡ 2 ^ 63 = ap (λ (t : ℕ). 2 ^ t) e in
            let wraps : 2 ^ k * 2 % u64_mod ≡ 0 = omega (arith, full) in
            ap (λ (t : ℕ). grow fuel t target) wraps ∙ grow_zero fuel target (omega arith))
      | no ne ↦
          (let le : suc k ≤ 63 = omega arith in
            let next : 2 ^ suc k ≤ 2 ^ 63 = pow-le-pow_right (omega arith) le in
            let wraps : 2 ^ k * 2 % u64_mod ≡ 2 ^ suc k = omega (arith, twice, next) in
            ap (λ (t : ℕ). grow fuel t target) wraps
            ∙ grow_endless fuel (suc k) target (omega arith) big)
    ]

module _ {ℓ} {A : Type ℓ} (n : ℕ) (s : Slot A) (blank : s.state ≡ empty) where
  get_elem?-blank : (i : ℕ) (x : Slot A) → get_elem? (replicate n s) i ≡ some x → x.state ≡ empty
  get_elem?-blank = go n
    where
      go : (m i : ℕ) (x : Slot A) → get_elem? (replicate m s) i ≡ some x → x.state ≡ empty
      go zero i x e = absurd cc
      go (suc m) zero x e =
          ap (λ (o : Option (Slot A)). elim o [ none ↦ empty | some y ↦ y.state ]) (sym e) ∙ blank
      go (suc m) (suc i) x e = go m i x e

  no_own : (id i : ℕ) → at (replicate n s) id i ≢ own
  no_own id i o = absurd (go (get_elem? (replicate n s) i) (get_elem?-blank i) o)
    where
      go : (x : Option (Slot A)) → ((y : Slot A) → x ≡ some y → y.state ≡ empty) → see id x ≢ own
      go none h o = cc
      go (some y) h o =
          (let e = h y refl in
            let f : see id (some y) ≡ see id (some (record y { state = empty })) =
              λ i. see id (some (record y { state = e i })) in
            cc)

  -- An index of empty slots is consistent and holds nothing.
  pub blank-IsProbe :
      (k : ℕ)
      → k ≤ 63
      → n ≡ 2 ^ k
      → IsProbe (replicate n s) × ((id : ℕ) → lookup id (replicate n s) ≡ none)
  blank-IsProbe k h e =
      let v : IsProbe (replicate n s) = record {
        sized = record { power = k; power_le = h; size = length-replicate n s ∙ e };
        reach = λ id i o. absurd (no_own id i o);
        unique = λ id i j o. absurd (no_own id i o);
      } in
      (v, λ id. lookup_absent (replicate n s) id v (no_own id))
