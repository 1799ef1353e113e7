-- ===== src/Book/Ladder/Best.antt =====
-- The ends of a ladder: `rbegin()` and `begin()` of a `std::map<Price, Quantity>`.
use cpp_rust_performance_lab.Common.{
  ℕ, suc, ◌<◌, ◌≡◌, ◌≢◌, refl, List, [], ◌∷◌, Option, none, some, arith, sym, ◌∙◌,
}
use cpp_rust_performance_lab.Book.Ladder.{
  Level, quantity_at, last?, first?, IsLadder, quantity_at_below,
}

-- The highest price at which `f` is not 0, with its quantity; `none` where there is no such price.
abbrev pub IsTop : (ℕ → ℕ) → Option Level → Type 0
IsTop f none = (p : ℕ) → f p ≡ 0
IsTop f (some l) =
    (f l.price_ticks ≡ l.quantity) × (0 < l.quantity) × ((p : ℕ) → l.price_ticks < p → f p ≡ 0)

-- The lowest such price.
abbrev pub IsBottom : (ℕ → ℕ) → Option Level → Type 0
IsBottom f none = (p : ℕ) → f p ≡ 0
IsBottom f (some l) =
    (f l.price_ticks ≡ l.quantity) × (0 < l.quantity) × ((p : ℕ) → p < l.price_ticks → f p ≡ 0)

pub IsTop-congr : (f g : ℕ → ℕ) (o : Option Level) → ((p : ℕ) → f p ≡ g p) → IsTop f o → IsTop g o
IsTop-congr f g none h t = λ p. sym (h p) ∙ t p
IsTop-congr f g (some l) h t = (sym (h l.price_ticks) ∙ t.0, t.1, λ p k. sym (h p) ∙ t.2 p k)

pub IsBottom-congr :
    (f g : ℕ → ℕ) (o : Option Level) → ((p : ℕ) → f p ≡ g p) → IsBottom f o → IsBottom g o
IsBottom-congr f g none h t = λ p. sym (h p) ∙ t p
IsBottom-congr f g (some l) h t = (sym (h l.price_ticks) ∙ t.0, t.1, λ p k. sym (h p) ∙ t.2 p k)

IsTop-cons :
    (l : Level) (ls : List Level) (o : Option Level)
    → IsLadder (suc l.price_ticks) ls
    → IsTop (λ p. quantity_at p ls) o
    → o ≢ none
    → IsTop (λ p. quantity_at p (l ∷ ls)) o
unfolding quantity_at
IsTop-cons l ls none h t n = absurd (n refl)
IsTop-cons l ls (some m) h t n = (
  ground (arith, quantity_at_below m.price_ticks (suc l.price_ticks) ls),
  t.1,
  λ p k. ground (arith, t.2 p, quantity_at_below m.price_ticks (suc l.price_ticks) ls),
)

last?-ne-none : (l : Level) (ls : List Level) → last? (l ∷ ls) ≢ none
unfolding last?
last?-ne-none l [] h = cc
last?-ne-none l (m ∷ ls) h = last?-ne-none m ls h

pub last?-IsTop :
    (least : ℕ) (ls : List Level) → IsLadder least ls → IsTop (λ p. quantity_at p ls) (last? ls)
unfolding last? quantity_at
last?-IsTop least [] h = λ p. refl
last?-IsTop least (l ∷ []) h = (ground arith, h.1, λ p k. ground arith)
last?-IsTop least (l ∷ m ∷ ls) h =
    IsTop-cons l (m ∷ ls) (last? (m ∷ ls)) h.3 (last?-IsTop (suc l.price_ticks) (m ∷ ls) h.3)
      (last?-ne-none m ls)

pub first?-IsBottom :
    (least : ℕ) (ls : List Level) → IsLadder least ls → IsBottom (λ p. quantity_at p ls) (first? ls)
unfolding first? quantity_at
first?-IsBottom least [] h = λ p. refl
first?-IsBottom least (l ∷ ls) h =
    (ground arith, h.1, λ p k. ground (arith, quantity_at_below p (suc l.price_ticks) ls))
