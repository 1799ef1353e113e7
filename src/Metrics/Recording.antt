-- ===== src/Metrics/Recording.antt =====
-- cpp/include/llab/metrics.hpp: what a `ThreadRing` holds after any number of calls of `record`.
use cpp_rust_performance_lab.Common.{
  ℕ, zero, suc, ◌+◌, ◌-◌, ◌%◌, ◌≤◌, ◌<◌, ◌≡◌, refl, ap, sym, ◌∙◌, inl, inr, List, [], ◌∷◌, ◌++◌,
  ◌==◌, u64_mod, length, length-set, set, take, min, arith, Bool-cases,
}
use mathlib.Core.List.{append_assoc, append-nil}
use cpp_rust_performance_lab.Metrics.{CycleSample, ThreadRing, record_sample, reset, record_all}

-- the samples in use, in the order of their recording
abbrev pub kept : ThreadRing → List CycleSample
kept ring = take ring.used ring.samples

take-set :
    (xs : List CycleSample) (u : ℕ) (v : CycleSample)
    → u < length xs
    → take (suc u) (set xs u v) ≡ take u xs ++ v ∷ []
take-set [] u v h = absurd (omega arith)
take-set (x ∷ xs) zero v h = refl
take-set (x ∷ xs) (suc u) v h = ap (λ t. x ∷ t) (take-set xs u v (omega arith))

take_nil : (n : ℕ) → take {A = CycleSample} n [] ≡ []
take_nil zero = refl
take_nil (suc n) = refl

-- a ring after samples that began with another ring
record IsAfter (samples : List CycleSample) (ring ring' : ThreadRing) : Type 0 where
  capacity_same : length ring'.samples ≡ length ring.samples
  used_within : ring'.used ≤ length ring.samples
  kept_first : kept ring' ≡ kept ring ++ take (length ring.samples - ring.used) samples
  used_count : ring'.used ≡ min (length ring.samples) (ring.used + length samples)
  dropped_count :
      ring'.dropped
      ≡ (ring.dropped + (length samples - (length ring.samples - ring.used))) % u64_mod

record_all-IsAfter :
    (samples : List CycleSample) (ring : ThreadRing)
    → ring.used ≤ length ring.samples
    → length ring.samples < u64_mod
    → ring.dropped < u64_mod
    → IsAfter samples ring (record_all samples ring)
unfolding record_all record_sample
record_all-IsAfter [] ring h k d = record {
  capacity_same = refl;
  used_within = h;
  kept_first = sym (
      ap (λ t. kept ring ++ t) (take_nil (length ring.samples - ring.used))
      ∙ append-nil (kept ring));
  used_count = omega arith;
  dropped_count = omega arith;
}
record_all-IsAfter (s ∷ ss) ring h k d = elim (Bool-cases (ring.used == length ring.samples)) [
  | inl full ↦
      let e : ring.used ≡ length ring.samples = ground arith in
      let next =
        record_all-IsAfter ss (record ring { dropped = (ring.dropped + 1) % u64_mod }) h k
          (omega arith) in
      let none_left : length ring.samples - ring.used ≡ 0 = omega arith in
      rw full (record {
        capacity_same = next.capacity_same;
        used_within = next.used_within;
        kept_first = next.kept_first ∙ rw none_left refl;
        used_count = omega (arith, next.used_count);
        dropped_count = omega (arith, next.dropped_count);
      })
  | inr free ↦
      let less : ring.used < length ring.samples = ground arith in
      let up : (ring.used + 1) % u64_mod ≡ suc ring.used = omega arith in
      let room : length ring.samples - ring.used ≡ suc (length ring.samples - suc ring.used) =
        omega arith in
      let same = length-set ring.samples ring.used s in
      let next =
        record_all-IsAfter ss
          (record ring { samples = set ring.samples ring.used s; used = (ring.used + 1) % u64_mod })
          (omega (arith, same)) (omega (arith, same)) d in
      rw free (record {
        capacity_same = next.capacity_same ∙ same;
        used_within = omega (arith, next.used_within, same);
        kept_first =
            next.kept_first
            ∙ rw (up, same, take-set ring.samples ring.used s less, room)
                (append_assoc (kept ring) (s ∷ []) (take (length ring.samples - suc ring.used) ss));
        used_count = omega (arith, next.used_count, same, up);
        dropped_count = omega (arith, next.dropped_count, same, up);
      })
]

-- After `reset`, any number of calls of `record` keeps the first samples that fit the ring, in the
-- order of their recording, and counts the others as dropped, modulo 2 ^ 64.
pub record_all_lem :
    (samples : List CycleSample) (ring : ThreadRing)
    → length ring.samples < u64_mod
    → let after = record_all samples (reset ring) in
      (kept after ≡ take (length ring.samples) samples)
      × (after.dropped ≡ (length samples - length ring.samples) % u64_mod)
      × (length after.samples ≡ length ring.samples)
unfolding reset
record_all_lem samples ring small =
    let v =
      record_all-IsAfter samples (record ring { used = 0; dropped = 0 }) (omega arith) small
        (omega arith) in
    let all : length ring.samples - 0 ≡ length ring.samples = omega arith in
    (v.kept_first ∙ ap (λ t. take t samples) all, omega (arith, v.dropped_count), v.capacity_same)
