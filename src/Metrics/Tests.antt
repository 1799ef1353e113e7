-- ===== src/Metrics/Tests.antt =====
-- A full ring of cpp/include/llab/metrics.hpp, and where its theorem applies.
use cpp_rust_performance_lab.Common.{◌-◌, ◌%◌, ◌≡◌, refl, [], ◌∷◌, take, length, u64_mod, arith}
use cpp_rust_performance_lab.Metrics.{
  CycleSample, ThreadRing, no_sample, record_sample, reset, record_all,
}
use cpp_rust_performance_lab.Metrics.Recording.{kept, record_all_lem}

abbrev sample : CycleSample
sample = record { begin_cycle = 10; end_cycle = 25; tag = 3; cpu = 0 }

abbrev ring : ThreadRing
ring = record { samples = no_sample ∷ no_sample ∷ []; used = 2; dropped = 9 }

drops_one : (record_all (sample ∷ sample ∷ sample ∷ []) (reset ring)).dropped ≡ 1
unfolding record_all record_sample reset
drops_one = refl

record_all_lem_example :
    let after = record_all (sample ∷ sample ∷ sample ∷ []) (reset ring) in
    (kept after ≡ take 2 (sample ∷ sample ∷ sample ∷ []))
    × (after.dropped ≡ (3 - 2) % u64_mod)
    × (length after.samples ≡ 2)
record_all_lem_example = record_all_lem (sample ∷ sample ∷ sample ∷ []) ring (omega arith)
