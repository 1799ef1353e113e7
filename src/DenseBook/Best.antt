-- ===== src/DenseBook/Best.antt =====
-- cpp/src/dense_ladder_order_book.cpp: the highest and the lowest price that a function says to hold
-- a quantity, and how a new quantity moves it.
use cpp_rust_performance_lab.Common.{
  ℕ, zero, suc, ◌+◌, ◌≤◌, ◌<◌, ◌≡◌, inl, inr, true, Option, none, some, List, ◌==◌, if◌then◌else◌,
  ltb, get_or, arith, Bool-cases, ℕ_discrete,
}
use cpp_rust_performance_lab.DenseBook.{higher, lower, last_from, first_from, is_price}

abbrev pub Highest : (ℕ → ℕ) → Option ℕ → Type 0
Highest f none = (p : ℕ) → f p ≡ 0
Highest f (some b) = (0 < f b) × ((p : ℕ) → b < p → f p ≡ 0)

abbrev pub Lowest : (ℕ → ℕ) → Option ℕ → Type 0
Lowest f none = (p : ℕ) → f p ≡ 0
Lowest f (some b) = (0 < f b) × ((p : ℕ) → p < b → f p ≡ 0)

-- A quantity is added at price `p`.
module _ (f g : ℕ → ℕ) (p q : ℕ) (h : (r : ℕ) → g r ≡ f r + (if r == p then q else 0)) where
  pub higher-Highest : (o : Option ℕ) → 0 < q → Highest f o → Highest g (higher p o)
  higher-Highest none pos v = (ground (arith, h p), λ r k. ground (arith, h r, v r))
  higher-Highest (some b) pos v = elim (Bool-cases (ltb b p)) [
    | inl e ↦ rw e (ground (arith, h p), λ r k. ground (arith, h r, v.1 r))
    | inr e ↦ rw e (ground (arith, h b, v.0), λ r k. ground (arith, h r, v.1 r))
  ]

  pub lower-Lowest : (o : Option ℕ) → 0 < q → Lowest f o → Lowest g (lower p o)
  lower-Lowest none pos v = (ground (arith, h p), λ r k. ground (arith, h r, v r))
  lower-Lowest (some b) pos v = elim (Bool-cases (ltb p b)) [
    | inl e ↦ rw e (ground (arith, h p), λ r k. ground (arith, h r, v.1 r))
    | inr e ↦ rw e (ground (arith, h b, v.0), λ r k. ground (arith, h r, v.1 r))
  ]

-- One is taken away at price `p`, and the best price is not emptied.
module _ (f g : ℕ → ℕ) (p q : ℕ) (h : (r : ℕ) → g r + (if r == p then q else 0) ≡ f r) where
  pub Highest-less : (o : Option ℕ) → Highest f o → (is_price p o ≡ true → 0 < g p) → Highest g o
  Highest-less none v keep = λ r. ground (arith, h r, v r)
  Highest-less (some b) v keep = (ground (arith, h b, v.0), λ r k. ground (arith, h r, v.1 r k))

  pub Lowest-less : (o : Option ℕ) → Lowest f o → (is_price p o ≡ true → 0 < g p) → Lowest g o
  Lowest-less none v keep = λ r. ground (arith, h r, v r)
  Lowest-less (some b) v keep = (ground (arith, h b, v.0), λ r k. ground (arith, h r, v.1 r k))

-- where a loop over an array ends
abbrev pub IsLast : List ℕ → ℕ → Option ℕ → Type 0
IsLast qs n none = (j : ℕ) → j < n → get_or qs j 0 ≡ 0
IsLast qs n (some i) = (i < n) × (0 < get_or qs i 0) × ((j : ℕ) → i < j → j < n → get_or qs j 0 ≡ 0)

abbrev pub IsFirst : List ℕ → ℕ → ℕ → Option ℕ → Type 0
IsFirst qs from n none = (j : ℕ) → from ≤ j → j < n → get_or qs j 0 ≡ 0
IsFirst qs from n (some i) =
    (from ≤ i) × (i < n) × (0 < get_or qs i 0) × ((j : ℕ) → from ≤ j → j < i → get_or qs j 0 ≡ 0)

IsLast-suc :
    (qs : List ℕ) (n : ℕ) (o : Option ℕ) → get_or qs n 0 ≡ 0 → IsLast qs n o → IsLast qs (suc n) o
IsLast-suc qs n none e v =
    λ j h. elim (ℕ_discrete j n) [ yes same ↦ rw same e | no ne ↦ v j (omega arith) ]
IsLast-suc qs n (some i) e v = (
  omega arith,
  v.1,
  λ j h k. elim (ℕ_discrete j n) [ yes same ↦ rw same e | no ne ↦ v.2 j h (omega arith) ],
)

pub last_from-IsLast : (n : ℕ) (qs : List ℕ) → IsLast qs n (last_from n qs)
unfolding last_from
last_from-IsLast zero qs = λ j h. absurd (omega arith)
last_from-IsLast (suc n) qs = elim (Bool-cases (get_or qs n 0 == 0)) [
  | inl e ↦
      rw (last_from, e) (IsLast-suc qs n (last_from n qs) (ground arith) (last_from-IsLast n qs))
  | inr e ↦ rw (last_from, e) (omega arith, ground arith, λ j h k. absurd (omega arith))
]

IsFirst-pred :
    (qs : List ℕ) (from n : ℕ) (o : Option ℕ)
    → get_or qs from 0 ≡ 0
    → IsFirst qs (suc from) n o
    → IsFirst qs from n o
IsFirst-pred qs from n none e v =
    λ j h k. elim (ℕ_discrete from j) [ yes same ↦ rw (← same) e | no ne ↦ v j (omega arith) k ]
IsFirst-pred qs from n (some i) e v = (
  omega arith,
  v.1,
  v.2,
  λ j h k. elim (ℕ_discrete from j) [ yes same ↦ rw (← same) e | no ne ↦ v.3 j (omega arith) k ],
)

pub first_from-IsFirst :
    (rounds from n : ℕ) (qs : List ℕ)
    → from + rounds ≡ n
    → IsFirst qs from n (first_from rounds from qs)
unfolding first_from
first_from-IsFirst zero from n qs s = λ j h k. absurd (omega arith)
first_from-IsFirst (suc rounds) from n qs s = elim (Bool-cases (get_or qs from 0 == 0)) [
  | inl e ↦
      rw (first_from, e)
        (IsFirst-pred qs from n (first_from rounds (suc from) qs) (ground arith)
          (first_from-IsFirst rounds (suc from) n qs (omega arith)))
  | inr e ↦
      rw (first_from, e) (omega arith, omega arith, ground arith, λ j h k. absurd (omega arith))
]
