-- ===== src/Labels/Horizon.antt =====
-- cpp/include/llab/bybit_l2_labels.hpp: each index found is the first one past the horizon.
use cpp_rust_performance_lab.Common.{
  ℕ, zero, suc, ◌+◌, ◌%◌, ◌≤◌, ◌<◌, ◌≡◌, refl, sym, ap, ◌∙◌, inl, inr, true, false, Option, none,
  some, List, [], ◌∷◌, ltb, u64_mod, length, drop, get_or, arith, Bool-cases,
}
use native.Mathlib.Decide.{ℕ_discrete}
use cpp_rust_performance_lab.Labels.{
  decreases, pass, prepend, future_of, indices_from, first_future_indices,
}

abbrev pub at : List ℕ → ℕ → ℕ
at ts i = get_or ts i 0

drop_nil : (n : ℕ) (ts : List ℕ) → drop n ts ≡ [] → length ts ≤ n
drop_nil zero [] e = omega arith
drop_nil zero (t ∷ ts) e = absurd cc
drop_nil (suc n) [] e = omega arith
drop_nil (suc n) (t ∷ ts) e = omega (arith, drop_nil n ts e)

drop_cons :
    (n t : ℕ) (rest ts : List ℕ)
    → drop n ts ≡ t ∷ rest
    → (at ts n ≡ t) × (drop (suc n) ts ≡ rest) × (n < length ts)
drop_cons zero t rest [] e = absurd cc
drop_cons zero t rest (s ∷ ts) e = (cc, cc, omega arith)
drop_cons (suc n) t rest [] e = absurd cc
drop_cons (suc n) t rest (s ∷ ts) e =
    let found = drop_cons n t rest ts e in (found.0, found.1, omega (arith, found.2))

-- where a run over the timestamps from an index on has stopped
record IsStop (ts : List ℕ) (limit from r : ℕ) : Type 0 where
  from_le : from ≤ r
  within : r ≤ length ts
  below : (j : ℕ) → from ≤ j → j < r → at ts j < limit
  reached : r < length ts → limit ≤ at ts r

pass-IsStop :
    (ts : List ℕ) (limit future : ℕ) (rest : List ℕ)
    → drop future ts ≡ rest
    → future ≤ length ts
    → IsStop ts limit future (pass limit future rest)
unfolding pass
pass-IsStop ts limit future [] e h = record {
  from_le = omega arith;
  within = h;
  below = λ j a b. absurd (omega arith);
  reached = λ k. absurd (omega (arith, drop_nil future ts e));
}
pass-IsStop ts limit future (t ∷ rest) e h =
    let here = drop_cons future t rest ts e in
    elim (Bool-cases (ltb t limit)) [
      | inr stop ↦ rw stop (record {
        from_le = omega arith;
        within = h;
        below = λ j a b. absurd (omega arith);
        reached = λ k. ground (arith, here.0);
      })
      | inl go ↦
          let small : t < limit = ground arith in
          let next = pass-IsStop ts limit (suc future) rest here.1 (omega (arith, here.2)) in
          rw go (record {
            from_le = omega (arith, next.from_le);
            within = next.within;
            below = λ j a b. elim (ℕ_discrete future j) [
              | yes same ↦ omega (arith, ap (at ts) same, here.0, small)
              | no other ↦ next.below j (omega (arith, a, other)) b
            ];
            reached = next.reached;
          })
    ]

-- The first index behind `i` whose timestamp is past the horizon, or the size where none is.
pub record IsFirst (ts : List ℕ) (horizon_ms i r : ℕ) : Type 0 where
  pub later : i < r
  pub bounded : r ≤ length ts
  pub inside : (j : ℕ) → i < j → j < r → at ts j < at ts i + horizon_ms
  pub outside : r < length ts → at ts i + horizon_ms ≤ at ts r

-- What the loop from an index on returns: the first index for each one, or an exception where a
-- timestamp is below the one before it.
abbrev pub Found : List ℕ → ℕ → ℕ → Option (List ℕ) → Type 0
Found ts horizon_ms from none =
    (i : ℕ) × (from ≤ i + 1) × (i + 1 < length ts) × (at ts (i + 1) < at ts i)
Found ts horizon_ms from (some result) =
    (from + length result ≡ length ts)
    × ((i : ℕ) → i < length result → IsFirst ts horizon_ms (from + i) (at result i))

-- What the earlier rounds leave for the one at `current`.
abbrev IsPending : List ℕ → ℕ → ℕ → Option ℕ → ℕ → Type 0
IsPending ts horizon_ms zero previous future = (previous ≡ none) × (future ≡ 0)
IsPending ts horizon_ms (suc before) previous future =
    (previous ≡ some (at ts before))
    × (future ≤ length ts)
    × ((j : ℕ) → before < j → j < future → at ts j < at ts before + horizon_ms)

module _ (ts : List ℕ) (horizon_ms : ℕ)
    (small : (i : ℕ) → i < length ts → at ts i + horizon_ms < u64_mod) where
  future_of-IsFirst :
      (current future : ℕ)
      → current < length ts
      → future ≤ length ts
      → ((j : ℕ) → current < j → j < future → at ts j < at ts current + horizon_ms)
      → IsFirst ts horizon_ms current (future_of ts horizon_ms current future (at ts current))
  unfolding future_of
  future_of-IsFirst current future lt le passed =
      let limit : (at ts current + horizon_ms) % u64_mod ≡ at ts current + horizon_ms =
        omega (arith, small current lt) in
      elim (Bool-cases (ltb future (current + 1))) [
        | inl early ↦
            let stop =
              pass-IsStop ts (at ts current + horizon_ms) (current + 1) (drop (current + 1) ts) refl
                (omega arith) in
            rw (early, limit)
              (record {
                later = omega (arith, stop.from_le);
                bounded = stop.within;
                inside = λ j a b. stop.below j (omega arith) b;
                outside = stop.reached;
              })
        | inr ahead ↦
            let stop =
              pass-IsStop ts (at ts current + horizon_ms) future (drop future ts) refl le in
            let enough : current + 1 ≤ future = ground arith in
            rw (ahead, limit)
              (record {
                later = omega (arith, stop.from_le, enough);
                bounded = stop.within;
                inside = λ j a b. elim (Bool-cases (ltb j future)) [
                  | inl t ↦ passed j a (ground arith)
                  | inr t ↦ stop.below j (ground arith) b
                ];
                outside = stop.reached;
              })
      ]

  pending_passed :
      (current : ℕ) (previous : Option ℕ) (future : ℕ)
      → IsPending ts horizon_ms current previous future
      → decreases previous (at ts current) ≡ false
      → (future ≤ length ts)
        × ((j : ℕ) → current < j → j < future → at ts j < at ts current + horizon_ms)
  pending_passed zero previous future v d =
      (omega (arith, v.1), λ j a b. absurd (omega (arith, v.1)))
  pending_passed (suc before) previous future v d =
      let ordered : ltb (at ts (suc before)) (at ts before) ≡ false =
        ap (λ (o : Option ℕ). decreases o (at ts (suc before))) (sym v.0) ∙ d in
      let order : at ts before ≤ at ts (suc before) = ground arith in
      (v.1, λ j a b. omega (arith, v.2 j (omega arith) b, order))

  pending_decrease :
      (current : ℕ) (previous : Option ℕ) (future : ℕ)
      → IsPending ts horizon_ms current previous future
      → current < length ts
      → decreases previous (at ts current) ≡ true
      → Found ts horizon_ms current none
  pending_decrease zero previous future v lt d =
      let never : false ≡ true = ap (λ (o : Option ℕ). decreases o (at ts 0)) (sym v.0) ∙ d in
      absurd cc
  pending_decrease (suc before) previous future v lt d =
      let drops : ltb (at ts (suc before)) (at ts before) ≡ true =
        ap (λ (o : Option ℕ). decreases o (at ts (suc before))) (sym v.0) ∙ d in
      let less : at ts (suc before) < at ts before = ground arith in
      let next : before + 1 ≡ suc before = omega arith in
      (before, omega arith, omega arith, rw next less)

  prepend-Found :
      (current r : ℕ) (o : Option (List ℕ))
      → IsFirst ts horizon_ms current r
      → Found ts horizon_ms (suc current) o
      → Found ts horizon_ms current (prepend r o)
  prepend-Found current r none first v = (v.0, omega (arith, v.1), v.2, v.3)
  prepend-Found current r (some rs) first v =
      let start : current + 0 ≡ current = omega arith in
      (
        omega (arith, v.0),
        λ i.
            elim i
              as (λ k. k < length (r ∷ rs) → IsFirst ts horizon_ms (current + k) (at (r ∷ rs) k)) [
                | zero ↦ λ h. rw start first
                | suc k ↦ λ h.
                    let same : current + suc k ≡ suc current + k = omega arith in
                    rw same (v.1 k (omega arith))
              ],
      )

  indices_from-Found :
      (current : ℕ) (previous : Option ℕ) (future : ℕ) (rest : List ℕ)
      → drop current ts ≡ rest
      → current ≤ length ts
      → IsPending ts horizon_ms current previous future
      → Found ts horizon_ms current (indices_from ts horizon_ms current previous future rest)
  unfolding indices_from
  indices_from-Found current previous future [] e le v =
      (omega (arith, drop_nil current ts e), λ i h. absurd (omega arith))
  indices_from-Found current previous future (t ∷ rest) e le v =
      let here = drop_cons current t rest ts e in
      let value = here.0 in
      elim (Bool-cases (decreases previous t)) [
        | inl d ↦
            rw d (
              pending_decrease current previous future v here.2 (ap (decreases previous) value ∙ d))
        | inr d ↦
            let (le', passed) =
              pending_passed current previous future v (ap (decreases previous) value ∙ d) in
            let at-IsFirst = future_of-IsFirst current future here.2 le' passed in
            let first : IsFirst ts horizon_ms current (future_of ts horizon_ms current future t) =
              rw (sym value) at-IsFirst in
            rw d (
              prepend-Found current (future_of ts horizon_ms current future t)
                (indices_from ts horizon_ms (suc current) (some t)
                  (future_of ts horizon_ms current future t) rest)
                first
                (indices_from-Found (suc current) (some t)
                  (future_of ts horizon_ms current future t) rest here.1 (omega (arith, here.2))
                  (ap (λ (x : ℕ). some x) (sym value), first.bounded, first.inside)))
      ]

  -- `first_future_indices`, where no timestamp comes within the horizon of 2 ^ 64: it throws only
  -- where a timestamp is below the one before it. What it returns has an index for each timestamp,
  -- the first one behind it whose timestamp is not below its own plus the horizon, or the size
  -- where there is none.
  pub first_future_indices_lem : Found ts horizon_ms 0 (first_future_indices ts horizon_ms)
  unfolding first_future_indices
  first_future_indices_lem = indices_from-Found 0 none 0 ts refl (omega arith) (refl, refl)
