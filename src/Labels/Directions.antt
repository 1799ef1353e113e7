-- ===== src/Labels/Directions.antt =====
-- cpp/include/llab/bybit_l2_labels.hpp: which label `direction_label` gives.
use cpp_rust_performance_lab.Common.{
  ℕ, ◌+◌, ◌-◌, ◌%◌, ◌≤◌, ◌<◌, ◌≡◌, ◌↔◌, inl, inr, refl, Option, none, some, leb, ◌&&◌, ◌==◌,
  u64_mod, arith, Bool-cases,
}
use mathlib.Core.Path.{subst}
use cpp_rust_performance_lab.Labels.{Direction, up, down, flat, direction_label}

-- The label with the prices exchanged.
abbrev pub mirror : Option Direction → Option Direction
mirror none = none
mirror (some up) = some down
mirror (some down) = some up
mirror (some flat) = some flat

-- when each label is given
abbrev pub Labelled : ℕ → ℕ → ℕ → Option Direction → Type 0
Labelled c f t none = t ≡ 0
Labelled c f t (some up) = (0 < t) × (c + t ≤ f)
Labelled c f t (some down) = (0 < t) × (f + t ≤ c)
Labelled c f t (some flat) = (0 < t) × (f < c + t) × (c < f + t)

label-Labelled : (c f t : ℕ) → c < u64_mod → f < u64_mod → Labelled c f t (direction_label c f t)
unfolding direction_label
label-Labelled c f t hc hf = elim (Bool-cases (t == 0)) [
  | inl zero ↦ rw zero (ground arith)
  | inr positive ↦ elim (Bool-cases (leb c f && leb t ((f + u64_mod - c) % u64_mod))) [
    | inl rises ↦ rw (positive, rises) (ground arith, ground arith)
    | inr stays ↦ elim (Bool-cases (leb f c && leb t ((c + u64_mod - f) % u64_mod))) [
      | inl falls ↦ rw (positive, stays, falls) (ground arith, ground arith)
      | inr level ↦ rw (positive, stays, level) (ground arith, ground arith, ground arith)
    ]
  ]
]

-- The conditions exclude each other.
Labelled-once : (c f t : ℕ) (a b : Option Direction) → Labelled c f t a → Labelled c f t b → a ≡ b
Labelled-once c f t none none p q = refl
Labelled-once c f t none (some up) p q = absurd (omega arith)
Labelled-once c f t none (some down) p q = absurd (omega arith)
Labelled-once c f t none (some flat) p q = absurd (omega arith)
Labelled-once c f t (some up) none p q = absurd (omega arith)
Labelled-once c f t (some up) (some up) p q = refl
Labelled-once c f t (some up) (some down) p q = absurd (omega arith)
Labelled-once c f t (some up) (some flat) p q = absurd (omega arith)
Labelled-once c f t (some down) none p q = absurd (omega arith)
Labelled-once c f t (some down) (some up) p q = absurd (omega arith)
Labelled-once c f t (some down) (some down) p q = refl
Labelled-once c f t (some down) (some flat) p q = absurd (omega arith)
Labelled-once c f t (some flat) none p q = absurd (omega arith)
Labelled-once c f t (some flat) (some up) p q = absurd (omega arith)
Labelled-once c f t (some flat) (some down) p q = absurd (omega arith)
Labelled-once c f t (some flat) (some flat) p q = refl

mirror-Labelled : (c f t : ℕ) (a : Option Direction) → Labelled c f t a → Labelled f c t (mirror a)
mirror-Labelled c f t none p = p
mirror-Labelled c f t (some up) p = p
mirror-Labelled c f t (some down) p = p
mirror-Labelled c f t (some flat) p = (p.0, p.2, p.1)

-- For 64-bit prices, whose differences wrap in the code: `direction_label` throws exactly for the
-- threshold 0; for any other it is up exactly where the future price is at least the current one plus
-- the threshold as numbers, down exactly where the current is at least the future one plus it, and
-- flat exactly where neither is. With the prices exchanged, up and down are exchanged.
pub direction_label_lem :
    (current_mid future_mid threshold : ℕ)
    → current_mid < u64_mod
    → future_mid < u64_mod
    → ((label : Option Direction)
        → (direction_label current_mid future_mid threshold ≡ label)
          ↔ Labelled current_mid future_mid threshold label)
      × (direction_label future_mid current_mid threshold
          ≡ mirror (direction_label current_mid future_mid threshold))
direction_label_lem c f t hc hf =
    let own = label-Labelled c f t hc hf in
    (
      λ a. (
        λ e. subst (λ (x : Option Direction). Labelled c f t x) e own,
        λ p. Labelled-once c f t (direction_label c f t) a own p,
      ),
      Labelled-once f c t (direction_label f c t) (mirror (direction_label c f t))
          (label-Labelled f c t hf hc) (mirror-Labelled c f t (direction_label c f t) own),
    )
