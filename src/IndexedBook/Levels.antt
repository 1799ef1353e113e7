-- ===== src/IndexedBook/Levels.antt =====
-- What a book of cpp/src/parity_order_book.cpp or dense_ladder_order_book.cpp needs of its levels.
use cpp_rust_performance_lab.Common.{ℕ, ◌+◌, ◌≤◌, ◌<◌, ◌≡◌, Bool, true, false, u64_max}
use cpp_rust_performance_lab.Book.{Side, share, invalid_argument, overflow_error, done, raised}
use cpp_rust_performance_lab.OrderBook.Levels.{lot}
use cpp_rust_performance_lab.IndexedBook.{LevelOps}

-- `Holds f l`: the levels are consistent, and `f` says what they hold.
pub record LevelLaws {L : Type 0} (ops : LevelOps L) (in_range : ℕ → Bool) : Type 1 where
  pub Holds : (Side → ℕ → ℕ) → L → Type 0
  pub bounded : (f : Side → ℕ → ℕ) (l : L) (s : Side) (p : ℕ) → Holds f l → f s p ≤ u64_max
  pub add_fits :
      (f g : Side → ℕ → ℕ) (l : L) (s : Side) (p q : ℕ)
      → Holds f l
      → in_range p ≡ true
      → 0 < q
      → f s p + q ≤ u64_max
      → ((t : Side) (r : ℕ) → g t r ≡ f t r + share t r (lot s p q))
      → (l' : L) × (ops.add_to_level s p q l ≡ done l') × Holds g l'
  pub add_overflows :
      (f : Side → ℕ → ℕ) (l : L) (s : Side) (p q : ℕ)
      → Holds f l
      → in_range p ≡ true
      → q ≤ u64_max
      → u64_max < f s p + q
      → ops.add_to_level s p q l ≡ raised overflow_error l
  pub add_outside :
      (f : Side → ℕ → ℕ) (l : L) (s : Side) (p q : ℕ)
      → Holds f l
      → in_range p ≡ false
      → ops.add_to_level s p q l ≡ raised invalid_argument l
  pub subtract_fits :
      (f g : Side → ℕ → ℕ) (l : L) (s : Side) (p q : ℕ)
      → Holds f l
      → 0 < q
      → q ≤ f s p
      → ((t : Side) (r : ℕ) → g t r + share t r (lot s p q) ≡ f t r)
      → (l' : L) × (ops.subtract_from_level s p q l ≡ done l') × Holds g l'
