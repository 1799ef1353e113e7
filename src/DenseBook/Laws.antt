-- ===== src/DenseBook/Laws.antt =====
-- cpp/src/dense_ladder_order_book.cpp: `add_level` and `subtract_level` are the level operations of
-- a book over a range of prices.
use cpp_rust_performance_lab.Common.{
  ℕ, ◌+◌, ◌-◌, ◌%◌, ◌≤◌, ◌<◌, ◌≡◌, ◌≢◌, inl, inr, refl, ◌∙◌, true, false, ◌&&◌, ◌||◌, Option, none,
  some, ◌==◌, ltb, u64_mod, u64_max, set, arith, Bool-cases,
}
use cpp_rust_performance_lab.Book.{
  Side, bid, ask, same_side, share, invalid_argument, overflow_error, done, raised,
}
use cpp_rust_performance_lab.OrderBook.Levels.{lot}
use cpp_rust_performance_lab.IndexedBook.Levels.{LevelLaws}
use cpp_rust_performance_lab.DenseBook.{
  Ladders, ladder, set_ladder, raise_best, higher, lower, add_level, subtract_level, is_price,
  best_of, refresh_best, dense_levels,
}
use cpp_rust_performance_lab.DenseBook.Best.{
  Highest, Lowest, higher-Highest, lower-Lowest, Highest-less, Lowest-less,
}
use cpp_rust_performance_lab.DenseBook.Arrays.{
  covers, Reads, offset_inside, offset_outside, read_price, last_from-Highest, first_from-Lowest,
  Reads-best, write-Reads,
}

-- The arrays hold what `f` says, and the best prices are those of `f`.
pub record Holds (m n : ℕ) (f : Side → ℕ → ℕ) (l : Ladders) : Type 0 where
  pub arrays : Reads m n f l
  pub high : Highest (f bid) l.best_bid
  pub low : Lowest (f ask) l.best_ask

Highest-congr : (f g : ℕ → ℕ) (o : Option ℕ) → ((p : ℕ) → g p ≡ f p) → Highest f o → Highest g o
Highest-congr f g none h v = λ p. h p ∙ v p
Highest-congr f g (some b) h v = (omega (arith, h b, v.0), λ p k. h p ∙ v.1 p k)

Lowest-congr : (f g : ℕ → ℕ) (o : Option ℕ) → ((p : ℕ) → g p ≡ f p) → Lowest f o → Lowest g o
Lowest-congr f g none h v = λ p. h p ∙ v p
Lowest-congr f g (some b) h v = (omega (arith, h b, v.0), λ p k. h p ∙ v.1 p k)

module _ (m n : ℕ) (f g : Side → ℕ → ℕ) (l : Ladders) (p q : ℕ) (v : Holds m n f l)
    (inside : covers m n p ≡ true) where
  -- the ladders after a write at the price
  abbrev wrote : Side → ℕ → Ladders
  wrote s x = set_ladder s (set (ladder s l) (p - m) x) l

  wrote-Reads :
      (s : Side) (x : ℕ)
      → x ≤ u64_max
      → g s p ≡ x
      → ((t : Side) (r : ℕ) → (same_side t s && (r == p)) ≡ false → g t r ≡ f t r)
      → Reads m n g (wrote s x)
  wrote-Reads s x le here others = write-Reads m n f g l s p x v.arrays inside le here others

  added-Holds :
      (s : Side)
      → 0 < q
      → f s p + q ≤ u64_max
      → ((t : Side) (r : ℕ) → g t r ≡ f t r + share t r (lot s p q))
      → Holds m n g (raise_best s p (wrote s (f s p + q)))
  added-Holds bid pos fits h =
      let arrays =
        wrote-Reads bid (f bid p + q) fits (ground (arith, h bid p))
          (λ t r e. ground (arith, h t r)) in
      record {
        arrays = Reads-best m n g (wrote bid (f bid p + q)) (higher p l.best_bid) l.best_ask arrays;
        high =
            higher-Highest (f bid) (g bid) p q (λ r. ground (arith, h bid r)) l.best_bid pos v.high;
        low = Lowest-congr (f ask) (g ask) l.best_ask (λ r. ground (arith, h ask r)) v.low;
      }
  added-Holds ask pos fits h =
      let arrays =
        wrote-Reads ask (f ask p + q) fits (ground (arith, h ask p))
          (λ t r e. ground (arith, h t r)) in
      record {
        arrays = Reads-best m n g (wrote ask (f ask p + q)) l.best_bid (lower p l.best_ask) arrays;
        high = Highest-congr (f bid) (g bid) l.best_bid (λ r. ground (arith, h bid r)) v.high;
        low = lower-Lowest (f ask) (g ask) p q (λ r. ground (arith, h ask r)) l.best_ask pos v.low;
      }

  pub dense_add_fits :
      (s : Side)
      → 0 < q
      → f s p + q ≤ u64_max
      → ((t : Side) (r : ℕ) → g t r ≡ f t r + share t r (lot s p q))
      → (l' : Ladders) × (add_level s p q l ≡ done l') × Holds m n g l'
  dense_add_fits s pos fits h =
      let at = offset_inside m n f l v.arrays p inside in
      let level = read_price m n f l v.arrays s p inside in
      let room : ltb (u64_max - f s p) q ≡ false = ground arith in
      let sum : (f s p + q) % u64_mod ≡ f s p + q = omega arith in
      (
        raise_best s p (wrote s (f s p + q)),
        unfold add_level in rw (add_level, at, level, room, sum) refl,
        added-Holds s pos fits h,
      )

  -- after a reduction that empties the best price, and after any other
  refreshed-Holds :
      (s : Side)
      → 0 < q
      → q ≤ f s p
      → ((t : Side) (r : ℕ) → g t r + share t r (lot s p q) ≡ f t r)
      → Holds m n g (refresh_best s (wrote s (f s p - q)))
  unfolding refresh_best
  refreshed-Holds bid pos fits h =
      let le = v.arrays.small bid p in
      let arrays =
        wrote-Reads bid (f bid p - q) (omega arith) (ground (arith, h bid p))
          (λ t r e. ground (arith, h t r)) in
      let minimum = v.arrays.minimum in
      record {
        arrays = Reads-best m n g (wrote bid (f bid p - q)) _ l.best_ask arrays;
        high = rw minimum (last_from-Highest m n g (wrote bid (f bid p - q)) arrays);
        low = Lowest-congr (f ask) (g ask) l.best_ask (λ r. ground (arith, h ask r)) v.low;
      }
  refreshed-Holds ask pos fits h =
      let le = v.arrays.small ask p in
      let arrays =
        wrote-Reads ask (f ask p - q) (omega arith) (ground (arith, h ask p))
          (λ t r e. ground (arith, h t r)) in
      let minimum = v.arrays.minimum in
      record {
        arrays = Reads-best m n g (wrote ask (f ask p - q)) l.best_bid _ arrays;
        high = Highest-congr (f bid) (g bid) l.best_bid (λ r. ground (arith, h bid r)) v.high;
        low = rw minimum (first_from-Lowest m n g (wrote ask (f ask p - q)) arrays);
      }

  reduced-Holds :
      (s : Side)
      → 0 < q
      → q ≤ f s p
      → (is_price p (best_of s l) ≡ true → f s p - q ≢ 0)
      → ((t : Side) (r : ℕ) → g t r + share t r (lot s p q) ≡ f t r)
      → Holds m n g (wrote s (f s p - q))
  reduced-Holds bid pos fits keep h =
      let le = v.arrays.small bid p in
      record {
        arrays =
            wrote-Reads bid (f bid p - q) (omega arith) (ground (arith, h bid p))
              (λ t r e. ground (arith, h t r));
        high =
            Highest-less (f bid) (g bid) p q (λ r. ground (arith, h bid r)) l.best_bid v.high
              (λ e. ground (arith, h bid p, keep e));
        low = Lowest-congr (f ask) (g ask) l.best_ask (λ r. ground (arith, h ask r)) v.low;
      }
  reduced-Holds ask pos fits keep h =
      let le = v.arrays.small ask p in
      record {
        arrays =
            wrote-Reads ask (f ask p - q) (omega arith) (ground (arith, h ask p))
              (λ t r e. ground (arith, h t r));
        high = Highest-congr (f bid) (g bid) l.best_bid (λ r. ground (arith, h bid r)) v.high;
        low =
            Lowest-less (f ask) (g ask) p q (λ r. ground (arith, h ask r)) l.best_ask v.low
              (λ e. ground (arith, h ask p, keep e));
      }

  dense_subtract_fits :
      (s : Side)
      → 0 < q
      → q ≤ f s p
      → ((t : Side) (r : ℕ) → g t r + share t r (lot s p q) ≡ f t r)
      → (l' : Ladders) × (subtract_level s p q l ≡ done l') × Holds m n g l'
  dense_subtract_fits s pos fits h =
      let at = offset_inside m n f l v.arrays p inside in
      let level = read_price m n f l v.arrays s p inside in
      let good : (q == 0 || ltb (f s p) q) ≡ false = ground arith in
      elim (Bool-cases (f s p - q == 0 && is_price p (best_of s l))) [
        | inl e ↦ (
          refresh_best s (wrote s (f s p - q)),
          unfold subtract_level in rw (subtract_level, at, level, good, e) refl,
          refreshed-Holds s pos fits h,
        )
        | inr e ↦ (
          wrote s (f s p - q),
          unfold subtract_level in rw (subtract_level, at, level, good, e) refl,
          reduced-Holds s pos fits (λ b z. ground arith) h,
        )
      ]

-- What the arrays are to a book over `n` prices from `m` up.
module _ (m n : ℕ) where
  pub dense_bounded :
      (f : Side → ℕ → ℕ) (l : Ladders) (s : Side) (p : ℕ) → Holds m n f l → f s p ≤ u64_max
  dense_bounded f l s p v = v.arrays.small s p

  pub dense_add_overflows :
      (f : Side → ℕ → ℕ) (l : Ladders) (s : Side) (p q : ℕ)
      → Holds m n f l
      → covers m n p ≡ true
      → q ≤ u64_max
      → u64_max < f s p + q
      → add_level s p q l ≡ raised overflow_error l
  dense_add_overflows f l s p q v inside small over =
      let at = offset_inside m n f l v.arrays p inside in
      let level = read_price m n f l v.arrays s p inside in
      let le = v.arrays.small s p in
      let full : ltb (u64_max - f s p) q ≡ true = ground arith in
      unfold add_level in rw (add_level, at, level, full) refl

  pub dense_add_outside :
      (f : Side → ℕ → ℕ) (l : Ladders) (s : Side) (p q : ℕ)
      → Holds m n f l
      → covers m n p ≡ false
      → add_level s p q l ≡ raised invalid_argument l
  dense_add_outside f l s p q v outside =
      let at = offset_outside m n f l v.arrays p outside in
      unfold add_level in rw (add_level, at) refl

  pub dense_subtract :
      (f g : Side → ℕ → ℕ) (l : Ladders) (s : Side) (p q : ℕ)
      → Holds m n f l
      → 0 < q
      → q ≤ f s p
      → ((t : Side) (r : ℕ) → g t r + share t r (lot s p q) ≡ f t r)
      → (l' : Ladders) × (subtract_level s p q l ≡ done l') × Holds m n g l'
  dense_subtract f g l s p q v pos fits h = elim (Bool-cases (covers m n p)) [
    | inl inside ↦ dense_subtract_fits m n f g l p q v inside s pos fits h
    | inr outside ↦ absurd (omega (arith, v.arrays.outside s p outside))
  ]

  abbrev pub dense_laws : LevelLaws dense_levels (covers m n)
  dense_laws = record {
    Holds = Holds m n;
    bounded = dense_bounded;
    add_fits =
        λ f g l s p q v inside pos fits h. dense_add_fits m n f g l p q v inside s pos fits h;
    add_overflows = dense_add_overflows;
    add_outside = dense_add_outside;
    subtract_fits = dense_subtract;
  }
