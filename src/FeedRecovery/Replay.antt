-- ===== src/FeedRecovery/Replay.antt =====
-- cpp/include/llab/feed_sequence_recovery.hpp: the loops of `finish_snapshot` on sorted entries.
use cpp_rust_performance_lab.Common.{
  ℕ, zero, suc, ◌+◌, ◌≤◌, ◌<◌, ◌≡◌, ◌⊎◌, inl, inr, refl, Bool, true, false, Option, none, some,
  List, [], ◌∷◌, ◌++◌, ◌==◌, if◌then◌else◌, u64_mod, length, arith, dec_lt, ℕ_discrete, sym,
}
use mathlib.Core.List.{append-nil, append_assoc}
use cpp_rust_performance_lab.FeedRecovery.{Buffered, skip_below, check, emit}

module _ {ℓ} {E : Type ℓ} where
  -- the event that arrived first under a sequence number
  unfoldable pub first_with : ℕ → List (Buffered E) → Option E
  first_with n [] = none
  first_with n (b ∷ bs) = if b.sequence == n then some b.event else first_with n bs

  abbrev pub is_some : Option E → Bool
  is_some none = false
  is_some (some e) = true

  abbrev pub has : ℕ → List (Buffered E) → Bool
  has n bs = is_some (first_with n bs)

  abbrev pub cons? : Option E → List E → List E
  cons? none es = es
  cons? (some e) es = e ∷ es

  -- the events of `k` numbers from `n` on
  unfoldable pub collect : ℕ → ℕ → List (Buffered E) → List E
  collect zero n bs = []
  collect (suc k) n bs = cons? (first_with n bs) (collect k (n + 1) bs)

  abbrev pub IsSorted : ℕ → List (Buffered E) → Type 0
  IsSorted m [] = Unit {0}
  IsSorted m (b ∷ bs) = (m ≤ b.sequence) × IsSorted b.sequence bs

  first_with-below :
      (n m : ℕ) (bs : List (Buffered E)) → IsSorted m bs → n < m → first_with n bs ≡ none
  unfolding first_with
  first_with-below n m [] s h = refl
  first_with-below n m (b ∷ bs) s h = ground (arith, first_with-below n b.sequence bs)

  pub skip_below-IsSorted :
      (e m : ℕ) (bs : List (Buffered E)) → IsSorted m bs → IsSorted 0 (skip_below e bs)
  unfolding skip_below
  skip_below-IsSorted e m [] s = tt
  skip_below-IsSorted e m (b ∷ bs) s = ground (arith, skip_below-IsSorted e b.sequence bs)

  pub first_with-skip_below :
      (e n : ℕ) (bs : List (Buffered E)) → e ≤ n → first_with n (skip_below e bs) ≡ first_with n bs
  unfolding skip_below first_with
  first_with-skip_below e n [] h = refl
  first_with-skip_below e n (b ∷ bs) h = ground (arith, first_with-skip_below e n bs)

  pub length-skip_below : (e : ℕ) (bs : List (Buffered E)) → length (skip_below e bs) ≤ length bs
  unfolding skip_below
  length-skip_below e [] = omega arith
  length-skip_below e (b ∷ bs) = ground (arith, length-skip_below e bs)

  -- Of the numbers from `n` on, the first `k` are there, and nothing is from `n + k` on.
  abbrev pub Complete : ℕ → ℕ → List (Buffered E) → Type 0
  Complete n k bs =
      ((i : ℕ) → n ≤ i → i < n + k → has i bs ≡ true) × ((i : ℕ) → n + k ≤ i → has i bs ≡ false)

  -- Some number from `n` on is missing, and a greater one is there.
  abbrev pub Broken : ℕ → List (Buffered E) → Type 0
  Broken n bs = (g : ℕ) × (i : ℕ) × (n ≤ g) × (g < i) × (has g bs ≡ false) × (has i bs ≡ true)

  pub check_lem :
      (n m : ℕ) (bs : List (Buffered E))
      → IsSorted m bs
      → n + length bs < u64_mod
      → ((k : ℕ) × (check n bs ≡ some (n + k)) × Complete n k bs)
        ⊎ ((check n bs ≡ none) × Broken n bs)
  unfolding check first_with
  check_lem n m [] s h = inl (0, ground arith, ((λ i p q. absurd (omega arith)), (λ i p. refl)))
  check_lem n m (b ∷ bs) s h = elim (dec_lt n b.sequence) [
    | yes before ↦ inr (
      ground arith,
      (
        n,
        b.sequence,
        omega arith,
        before,
        ground (arith, first_with-below n b.sequence bs),
        ground arith,
      ),
    )
    | no reached ↦ elim (ℕ_discrete b.sequence n) [
      | no stale ↦ elim (check_lem n b.sequence bs s.1 (omega arith)) [
        | inl (k, e, c) ↦
            inl
              (k, ground arith, ((λ i p q. ground (arith, c.0 i)), (λ i p. ground (arith, c.1 i))))
        | inr (e, (g, i, p, q, x, y)) ↦ inr (ground arith, (g, i, p, q, ground arith, ground arith))
      ]
      | yes next ↦ elim (check_lem (n + 1) b.sequence bs s.1 (omega arith)) [
        | inl (k, e, c) ↦ inl (
          suc k,
          ground arith,
          ((λ i p q. ground (arith, c.0 i)), (λ i p. ground (arith, c.1 i))),
        )
        | inr (e, (g, i, p, q, x, y)) ↦
            inr (ground arith, (g, i, omega arith, q, ground arith, ground arith))
      ]
    ]
  ]

  -- Past an entry, what was complete from `n` on is complete from the next number that it leaves.
  Complete-stale :
      (n k : ℕ) (b : Buffered E) (bs : List (Buffered E))
      → Complete n k (b ∷ bs)
      → b.sequence < n
      → Complete n k bs
  unfolding first_with
  Complete-stale n k b bs c h = ((λ i p q. ground (arith, c.0 i)), (λ i p. ground (arith, c.1 i)))

  Complete-next :
      (n k : ℕ) (b : Buffered E) (bs : List (Buffered E))
      → Complete n (suc k) (b ∷ bs)
      → b.sequence ≡ n
      → Complete (n + 1) k bs
  unfolding first_with
  Complete-next n k b bs c h = ((λ i p q. ground (arith, c.0 i)), (λ i p. ground (arith, c.1 i)))

  -- An entry below `n` is nothing that is collected.
  collect-stale :
      (k n : ℕ) (b : Buffered E) (bs : List (Buffered E))
      → b.sequence < n
      → collect k n (b ∷ bs) ≡ collect k n bs
  unfolding collect first_with
  collect-stale zero n b bs h = refl
  collect-stale (suc k) n b bs h = ground (arith, collect-stale k (n + 1) b bs)

  pub emit_lem :
      (n k m : ℕ) (ready : List E) (bs : List (Buffered E))
      → IsSorted m bs
      → n + length bs < u64_mod
      → Complete n k bs
      → emit n ready bs ≡ ready ++ collect k n bs
  unfolding emit first_with collect
  emit_lem n zero m ready [] s h c = sym (append-nil ready)
  emit_lem n (suc k) m ready [] s h c = ground (arith, c.0 n)
  emit_lem n zero m ready (b ∷ bs) s h c = elim (dec_lt b.sequence n) [
    | yes stale ↦ ground (
      arith,
      emit_lem n zero b.sequence ready bs s.1 (omega arith) (Complete-stale n 0 b bs c stale),
    )
    | no late ↦ ground (arith, c.1 b.sequence)
  ]
  emit_lem n (suc k) m ready (b ∷ bs) s h c = elim (ℕ_discrete b.sequence n) [
    | yes next ↦ ground (
      arith,
      emit_lem (n + 1) k b.sequence (ready ++ (b.event ∷ [])) bs s.1 (omega arith)
          (Complete-next n k b bs c next),
      collect-stale k (n + 1) b bs,
      append_assoc ready (b.event ∷ []) (collect k (n + 1) bs),
    )
    | no other ↦ elim (dec_lt b.sequence n) [
      | yes stale ↦ ground (
        arith,
        emit_lem n (suc k) b.sequence ready bs s.1 (omega arith)
            (Complete-stale n (suc k) b bs c stale),
        collect-stale k (n + 1) b bs,
      )
      | no late ↦ ground (arith, c.0 n, first_with-below n b.sequence bs)
    ]
  ]
