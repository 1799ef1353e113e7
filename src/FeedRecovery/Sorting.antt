-- ===== src/FeedRecovery/Sorting.antt =====
-- cpp/include/llab/feed_sequence_recovery.hpp: what `finish_snapshot` relies on of `std::sort`, and the
-- entries that it then sees.
use cpp_rust_performance_lab.Common.{
  ℕ, zero, suc, ◌+◌, ◌≤◌, ◌<◌, ◌≡◌, inl, inr, refl, ap, ◌∙◌, Bool, true, false, Option, some, List,
  [], ◌∷◌, ◌==◌, if◌then◌else◌, ltb, length, arith, Bool-cases, Option-cases,
}
use mathlib.Core.Path.{subst}
use mathlib.Core.Logic.{∥∥₁_elim}
use native.Mathlib.Nat.{ℕ_set}
use mathlib.Core.List.{Mem, Perm, Permᴰ, mem-cons_self, mem-cons_of_mem}
use cpp_rust_performance_lab.FeedRecovery.{Buffered, skip_below}
use cpp_rust_performance_lab.FeedRecovery.Replay.{first_with, has, collect, IsSorted}

-- A sort by the sequence number: its result ascends and has the same entries as often. In which order
-- it leaves entries with one number is open.
pub record Sorts {ℓ} {E : Type ℓ} (sort : List (Buffered E) → List (Buffered E)) : Type ℓ where
  pub sorted : (bs : List (Buffered E)) → IsSorted 0 (sort bs)
  pub perm : (bs : List (Buffered E)) → Perm (sort bs) bs

module _ {ℓ} {E : Type ℓ} where
  has-cons :
      (n : ℕ) (b : Buffered E) (bs : List (Buffered E))
      → has n (b ∷ bs) ≡ (if b.sequence == n then true else has n bs)
  unfolding first_with
  has-cons n b bs = ground arith

  has-permᴰ : (n : ℕ) (bs cs : List (Buffered E)) → Permᴰ bs cs → has n bs ≡ has n cs
  has-permᴰ n _ _ Permᴰ.nil = refl
  has-permᴰ n (b ∷ bs) (c ∷ cs) (Permᴰ.cons e p) =
      let same : b.sequence ≡ c.sequence = ap (λ (x : Buffered E). x.sequence) e in
      rw (has-cons n b bs, has-cons n c cs, same, has-permᴰ n bs cs p) refl
  has-permᴰ n (a ∷ b ∷ bs) (c ∷ d ∷ _) (Permᴰ.swap e f) =
      let first : a.sequence ≡ d.sequence = ap (λ (x : Buffered E). x.sequence) e in
      let second : b.sequence ≡ c.sequence = ap (λ (x : Buffered E). x.sequence) f in
      rw
        (
          has-cons n a (b ∷ bs),
          has-cons n b bs,
          has-cons n c (d ∷ bs),
          has-cons n d bs,
          first,
          second,
        )
        (ground arith)
  has-permᴰ n _ _ (Permᴰ.trans p q) = has-permᴰ n _ _ p ∙ has-permᴰ n _ _ q

  pub has-perm : (n : ℕ) (bs cs : List (Buffered E)) → Perm bs cs → has n bs ≡ has n cs
  has-perm n bs cs p =
      let one : IsProp (has n bs ≡ has n cs) = hlevel in ∥∥₁_elim p one (has-permᴰ n bs cs)

  length-permᴰ : (bs cs : List (Buffered E)) → Permᴰ bs cs → length bs ≡ length cs
  length-permᴰ _ _ Permᴰ.nil = refl
  length-permᴰ (b ∷ bs) (c ∷ cs) (Permᴰ.cons e p) = ap suc (length-permᴰ bs cs p)
  length-permᴰ _ _ (Permᴰ.swap e f) = refl
  length-permᴰ _ _ (Permᴰ.trans p q) = length-permᴰ _ _ p ∙ length-permᴰ _ _ q

  pub length-perm : (bs cs : List (Buffered E)) → Perm bs cs → length bs ≡ length cs
  length-perm bs cs p =
      let one : IsProp (length bs ≡ length cs) = hlevel ℕ_set in ∥∥₁_elim p one (length-permᴰ bs cs)

  pub mem-skip_below :
      (e : ℕ) (b : Buffered E) (bs : List (Buffered E)) → Mem b (skip_below e bs) → Mem b bs
  unfolding skip_below
  mem-skip_below e b [] m = m
  mem-skip_below e b (c ∷ cs) m = elim (Bool-cases (ltb c.sequence e)) [
    | inl below ↦ mem-cons_of_mem c (mem-skip_below e b cs (rw below at m))
    | inr above ↦ rw above at m
  ]

  -- Each event was buffered under its number, from `n` on.
  abbrev pub Drawn : ℕ → List E → List (Buffered E) → Type ℓ
  Drawn n [] bs = Unit
  Drawn n (e ∷ es) bs = Mem (record { sequence = n; event = e }) bs × Drawn (n + 1) es bs

  pub Drawn-mono :
      (n : ℕ) (es : List E) (bs cs : List (Buffered E))
      → ((b : Buffered E) → Mem b bs → Mem b cs)
      → Drawn n es bs
      → Drawn n es cs
  Drawn-mono n [] bs cs sub d = tt
  Drawn-mono n (e ∷ es) bs cs sub d =
      (sub (record { sequence = n; event = e }) d.0, Drawn-mono (n + 1) es bs cs sub d.1)

  first_with-Mem :
      (n : ℕ) (e : E) (bs : List (Buffered E))
      → first_with n bs ≡ some e
      → Mem (record { sequence = n; event = e }) bs
  unfolding first_with
  first_with-Mem n e [] h = absurd cc
  first_with-Mem n e (b ∷ bs) h = elim (Bool-cases (b.sequence == n)) [
    | inr other ↦ mem-cons_of_mem b (first_with-Mem n e bs (rw other at h))
    | inl own ↦
        let found : ◌≡◌ {A = Option E} (some b.event) (some e) = rw own at h in
        let event : b.event ≡ e = cc in
        let sequence : b.sequence ≡ n = ground arith in
        let same : b ≡ record { sequence = n; event = e } =
          λ i. record { sequence = sequence i; event = event i } in
        subst (λ (x : Buffered E). Mem x (b ∷ bs)) same mem-cons_self
  ]

  -- Of numbers that are all there, one event each is collected, buffered under its number.
  pub collect-Drawn :
      (k n : ℕ) (bs : List (Buffered E))
      → ((i : ℕ) → n ≤ i → i < n + k → has i bs ≡ true)
      → (length (collect k n bs) ≡ k) × Drawn n (collect k n bs) bs
  unfolding collect
  collect-Drawn zero n bs all = (refl, tt)
  collect-Drawn (suc k) n bs all =
      let rest = collect-Drawn k (n + 1) bs (λ i p q. all i (omega arith) (omega arith)) in
      elim (Option-cases (first_with n bs)) [
        | inr (e, found) ↦ rw found (ap suc rest.0, (first_with-Mem n e bs found, rest.1))
        | inl missing ↦
            let here = all n (omega arith) (omega arith) in
            let gone : ◌≡◌ {A = Bool} false true = rw missing at here in absurd cc
      ]
