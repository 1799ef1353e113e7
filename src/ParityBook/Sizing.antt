-- ===== src/ParityBook/Sizing.antt =====
-- cpp/src/parity_order_book.cpp: what `table_capacity` makes of a maximum number of orders.
use cpp_rust_performance_lab.Common.{
  ℕ, ◌*◌, ◌/◌, ◌%◌, ◌^◌, ◌≤◌, ◌<◌, ◌≡◌, inl, inr, refl, ap, ◌∙◌, false, Option, none, some, ltb,
  u64_mod, u64_max, max, arith, Bool-cases,
}
use cpp_rust_performance_lab.ProbeTable.{grow}
use cpp_rust_performance_lab.ProbeTable.Capacity.{grow_lem, grow_endless}
use cpp_rust_performance_lab.ParityBook.{Made, made, thrown, endless, table_capacity}

abbrev sizing : Option ℕ → Made ℕ
sizing none = endless
sizing (some c) = made c

table_capacity_of :
    (fuel n : ℕ) (o : Option ℕ)
    → ltb (u64_max / 2) n ≡ false
    → grow fuel 8 (max 8 (n * 2 % u64_mod)) ≡ o
    → table_capacity fuel n ≡ sizing o
unfolding table_capacity
table_capacity_of fuel n none few run = rw (few, table_capacity, run) refl
table_capacity_of fuel n (some c) few run = rw (few, table_capacity, run) refl

-- The ways `table_capacity` ends.
pub data Outcome (n : ℕ) (o : Made ℕ) : Type 0 where
  fitting :
      (p : ℕ) → n ≤ 2 ^ 62 → p ≤ 63 → o ≡ made (2 ^ p) → 8 ≤ 2 ^ p → n * 2 ≤ 2 ^ p → Outcome n o
  too_many : u64_max < n * 2 → o ≡ thrown → Outcome n o
  stuck : 2 ^ 62 < n → n * 2 ≤ u64_max → o ≡ endless → Outcome n o

pub table_capacity-Outcome :
    (fuel n : ℕ) → 61 ≤ fuel → n ≤ u64_max → Outcome n (table_capacity fuel n)
table_capacity-Outcome fuel n enough small = elim (Bool-cases (ltb (u64_max / 2) n)) [
  | inl many ↦
      let size : table_capacity fuel n ≡ thrown = unfold table_capacity in rw many refl in
      too_many (ground arith) size
  | inr few ↦
      let same : n * 2 % u64_mod ≡ n * 2 = ground arith in
      elim (Bool-cases (ltb (2 ^ 62) n)) [
        | inl big ↦
            let over : 2 ^ 63 < max 8 (n * 2) = ground arith in
            let run : grow fuel 8 (max 8 (n * 2)) ≡ none =
              grow_endless fuel 3 (max 8 (n * 2)) (omega arith) over in
            stuck (ground arith) (ground arith)
              (table_capacity_of fuel n none few (ap (λ (t : ℕ). grow fuel 8 (max 8 t)) same ∙ run))
        | inr fits ↦
            let small' : max 8 (n * 2) ≤ 2 ^ 63 = ground arith in
            let (p, low, high, run, reach, least) =
              grow_lem fuel 3 (max 8 (n * 2)) (omega arith) small' (omega arith) in
            fitting p (ground arith) high
              (table_capacity_of fuel n (some (2 ^ p)) few
                (ap (λ (t : ℕ). grow fuel 8 (max 8 t)) same ∙ run))
              (omega (arith, reach)) (omega (arith, reach))
      ]
]
