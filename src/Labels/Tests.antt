-- ===== src/Labels/Tests.antt =====
-- Runs of cpp/include/llab/bybit_l2_labels.hpp, and where its theorems apply.
use cpp_rust_performance_lab.Common.{
  ℕ, zero, suc, ◌+◌, ◌<◌, ◌≡◌, ◌↔◌, refl, Option, none, some, List, [], ◌∷◌, u64_mod, length, arith,
}
use cpp_rust_performance_lab.Labels.{
  first_future_indices, future_of, Direction, direction_label, down,
}
use cpp_rust_performance_lab.Labels.Horizon.{at, Found, first_future_indices_lem}
use cpp_rust_performance_lab.Labels.Directions.{mirror, Labelled, direction_label_lem}

abbrev stamps : List ℕ
stamps = 100 ∷ 105 ∷ 110 ∷ 130 ∷ []

indices : first_future_indices stamps 10 ≡ some (2 ∷ 3 ∷ 3 ∷ 4 ∷ [])
unfolding first_future_indices future_of
indices = refl

throws : first_future_indices (5 ∷ 4 ∷ []) 10 ≡ none
unfolding first_future_indices future_of
throws = refl

stamps_small : (i : ℕ) → i < length stamps → at stamps i + 10 < u64_mod
stamps_small zero h = omega arith
stamps_small (suc zero) h = omega arith
stamps_small (suc (suc zero)) h = omega arith
stamps_small (suc (suc (suc zero))) h = omega arith
stamps_small (suc (suc (suc (suc i)))) h = absurd (omega arith)

first_future_indices_lem_example : Found stamps 10 0 (first_future_indices stamps 10)
first_future_indices_lem_example = first_future_indices_lem stamps 10 stamps_small

falls : direction_label 100 90 10 ≡ some down
unfolding direction_label
falls = refl

direction_label_lem_example :
    ((label : Option Direction) → (direction_label 100 90 10 ≡ label) ↔ Labelled 100 90 10 label)
    × (direction_label 90 100 10 ≡ mirror (direction_label 100 90 10))
direction_label_lem_example = direction_label_lem 100 90 10 (omega arith) (omega arith)
