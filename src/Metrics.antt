-- ===== src/Metrics.antt =====
-- The ring of cycle samples of one thread: `ThreadRing` of cpp/include/llab/metrics.hpp.
pub mod Recording
mod Tests
use cpp_rust_performance_lab.Common.{
  ℕ, ◌+◌, ◌%◌, Option, none, some, List, [], ◌∷◌, ◌==◌, if◌then◌else◌, u64_mod, length, set,
  replicate,
}

pub record CycleSample : Type 0 where
  pub begin_cycle : ℕ
  pub end_cycle : ℕ
  pub tag : ℕ
  pub cpu : ℕ

pub record ThreadRing : Type 0 where
  pub samples : List CycleSample
  pub used : ℕ
  pub dropped : ℕ

-- `CycleSample{}`
abbrev pub no_sample : CycleSample
no_sample = record { begin_cycle = 0; end_cycle = 0; tag = 0; cpu = 0 }

-- the constructor; `none` where it throws `std::invalid_argument`
unfoldable pub new : ℕ → Option ThreadRing
new capacity =
    if capacity == 0
    then none
    else some (record { samples = replicate capacity no_sample; used = 0; dropped = 0 })

-- the method `record`, on the sample that its arguments make up
unfoldable pub record_sample : CycleSample → ThreadRing → ThreadRing
record_sample sample ring =
    if ring.used == length ring.samples
    then record ring { dropped = (ring.dropped + 1) % u64_mod }
    else record ring {
      samples = set ring.samples ring.used sample;
      used = (ring.used + 1) % u64_mod;
    }

unfoldable pub reset : ThreadRing → ThreadRing
reset ring = record ring { used = 0; dropped = 0 }

-- calls of `record`, one after the other
unfoldable pub record_all : List CycleSample → ThreadRing → ThreadRing
record_all [] ring = ring
record_all (sample ∷ samples) ring = record_all samples (record_sample sample ring)
