-- ===== src/BitmapLevels/Laws.antt =====
-- cpp/src/bitmap_ladder_order_book.cpp: `add_level` and `subtract_level` are the level operations of
-- a book over 256 prices, and `best` reads the best prices off the bitmaps.
use cpp_rust_performance_lab.Common.{
  ℕ, ◌+◌, ◌-◌, ◌%◌, ◌≤◌, ◌<◌, ◌≡◌, ◌≢◌, inl, inr, refl, sym, ap, ◌∙◌, List, ◌==◌, ltb,
  if◌then◌else◌, not, ◌&&◌, ◌||◌, get_or, set, arith, Bool-cases, u64_mod, u64_max, true, false,
  none, some,
}
use cpp_rust_performance_lab.Book.{
  Side, bid, ask, same_side, share, invalid_argument, overflow_error, done, raised,
}
use cpp_rust_performance_lab.OrderBook.Levels.{lot, same_side_refl}
use cpp_rust_performance_lab.IndexedBook.Levels.{LevelLaws}
use cpp_rust_performance_lab.DenseBook.{Ladders}
use cpp_rust_performance_lab.DenseBook.Arrays.{covers, Reads, read_price, write-Reads}
use cpp_rust_performance_lab.BitmapLevels.{
  Bitmaps, ladder, set_ladder, occupancy, set_occupancy, price_count, offset, set_bit, clear_bit,
  add_level, subtract_level, bitmap_levels,
}
use cpp_rust_performance_lab.BitmapLevels.Marks.{
  mark, IsMap, set_bit-IsMap, mark-set_bit, clear_bit-IsMap, mark-clear_bit,
}

-- the arrays, as those of a dense ladder
abbrev pub arrays_of : Bitmaps → Ladders
arrays_of l = record {
  bids = l.bids;
  asks = l.asks;
  minimum_price = l.minimum_price;
  best_bid = none;
  best_ask = none;
}

-- the mark of a quantity
abbrev pub held : ℕ → ℕ
held q = if q == 0 then 0 else 1

-- The bitmap of a side marks the prices from `m` up at which `f` is not 0.
abbrev pub Marks : ℕ → (ℕ → ℕ) → List ℕ → Type 0
Marks m f map = (i : ℕ) → i < price_count → mark map i ≡ held (f (m + i))

-- The arrays hold what `f` says, and the bitmaps mark where.
pub record Holds (m : ℕ) (f : Side → ℕ → ℕ) (l : Bitmaps) : Type 0 where
  pub arrays : Reads m price_count f (arrays_of l)
  pub map : (s : Side) → IsMap (occupancy s l)
  pub marks : (s : Side) → Marks m (f s) (occupancy s l)

Marks-congr :
    (m : ℕ) (f g : ℕ → ℕ) (map : List ℕ) → ((r : ℕ) → g r ≡ f r) → Marks m f map → Marks m g map
Marks-congr m f g map h v i lt = v i lt ∙ ap held (sym (h (m + i)))

-- A price whose quantity changes is marked anew where it has to be.
module _ (m : ℕ) (f g : ℕ → ℕ) (map : List ℕ) (v : IsMap map) (marks : Marks m f map) (p : ℕ)
    (inside : covers m price_count p ≡ true) (others : (r : ℕ) → (r == p) ≡ false → g r ≡ f r) where
  same-Marks : held (g p) ≡ held (f p) → Marks m g map
  same-Marks here i lt = elim (Bool-cases (m + i == p)) [
    | inl e ↦
        let at : m + i ≡ p = ground arith in
        marks i lt ∙ ap (λ (t : ℕ). held (f t)) at ∙ sym here ∙ ap (λ (t : ℕ). held (g t)) (sym at)
    | inr e ↦ marks i lt ∙ ap held (sym (others (m + i) e))
  ]

  marked : g p ≢ 0 → Marks m g (set_bit (p - m) map)
  marked here i lt = elim (Bool-cases (m + i == p)) [
    | inl e ↦
        let at : m + i ≡ p = ground arith in
        let self : (i == p - m) ≡ true = ground arith in
        mark-set_bit map v (p - m) (ground arith) i ∙ rw (self, at) (ground arith)
    | inr e ↦
        let far : (i == p - m) ≡ false = ground arith in
        mark-set_bit map v (p - m) (ground arith) i
        ∙ rw far (marks i lt ∙ ap held (sym (others (m + i) e)))
  ]

  cleared : g p ≡ 0 → Marks m g (clear_bit (p - m) map)
  cleared here i lt = elim (Bool-cases (m + i == p)) [
    | inl e ↦
        let at : m + i ≡ p = ground arith in
        let self : (i == p - m) ≡ true = ground arith in
        mark-clear_bit map v (p - m) (ground arith) i ∙ rw (self, at) (ground arith)
    | inr e ↦
        let far : (i == p - m) ≡ false = ground arith in
        mark-clear_bit map v (p - m) (ground arith) i
        ∙ rw far (marks i lt ∙ ap held (sym (others (m + i) e)))
  ]

module _ (m : ℕ) (f : Side → ℕ → ℕ) (l : Bitmaps) (v : Holds m f l) where
  pub offset_inside : (p : ℕ) → covers m price_count p ≡ true → offset p l ≡ some (p - m)
  unfolding offset
  offset_inside p h =
      let low = v.arrays.minimum in
      let good : (ltb p m || not (ltb (p - m) price_count)) ≡ false = ground arith in
      rw (low, good) refl

  pub offset_outside : (p : ℕ) → covers m price_count p ≡ false → offset p l ≡ none
  unfolding offset
  offset_outside p h =
      let low = v.arrays.minimum in
      let bad : (ltb p m || not (ltb (p - m) price_count)) ≡ true = ground arith in
      rw (low, bad) refl

  level_at :
      (s : Side) (p : ℕ) → covers m price_count p ≡ true → get_or (ladder s l) (p - m) 0 ≡ f s p
  level_at bid p h = read_price m price_count f (arrays_of l) v.arrays bid p h
  level_at ask p h = read_price m price_count f (arrays_of l) v.arrays ask p h

  pub entry_at : (s : Side) (i : ℕ) → i < price_count → get_or (ladder s l) i 0 ≡ f s (m + i)
  entry_at bid i h = v.arrays.reads bid i h
  entry_at ask i h = v.arrays.reads ask i h

-- the levels after a write of a quantity and of a bitmap
abbrev pub updated : Side → ℕ → ℕ → List ℕ → Bitmaps → Bitmaps
updated s i x map l = set_ladder s (set (ladder s l) i x) (set_occupancy s map l)

module _ (m : ℕ) (f g : Side → ℕ → ℕ) (l : Bitmaps) (p x : ℕ) (map : List ℕ) (v : Holds m f l)
    (inside : covers m price_count p ≡ true) (le : x ≤ u64_max) (good : IsMap map) where
  updated-Holds :
      (s : Side)
      → g s p ≡ x
      → ((t : Side) (r : ℕ) → (same_side t s && (r == p)) ≡ false → g t r ≡ f t r)
      → Marks m (g s) map
      → Holds m g (updated s (p - m) x map l)
  updated-Holds bid here others marks = record {
    arrays = write-Reads m price_count f g (arrays_of l) bid p x v.arrays inside le here others;
    map = λ s. elim s as (λ t. IsMap (occupancy t (updated bid (p - m) x map l))) [
      | bid ↦ good
      | ask ↦ v.map ask
    ];
    marks = λ s. elim s as (λ t. Marks m (g t) (occupancy t (updated bid (p - m) x map l))) [
      | bid ↦ marks
      | ask ↦ Marks-congr m (f ask) (g ask) l.ask_occupied (λ r. others ask r refl) (v.marks ask)
    ];
  }
  updated-Holds ask here others marks = record {
    arrays = write-Reads m price_count f g (arrays_of l) ask p x v.arrays inside le here others;
    map = λ s. elim s as (λ t. IsMap (occupancy t (updated ask (p - m) x map l))) [
      | bid ↦ v.map bid
      | ask ↦ good
    ];
    marks = λ s. elim s as (λ t. Marks m (g t) (occupancy t (updated ask (p - m) x map l))) [
      | bid ↦ Marks-congr m (f bid) (g bid) l.bid_occupied (λ r. others bid r refl) (v.marks bid)
      | ask ↦ marks
    ];
  }

module _ (m : ℕ) where
  pub bitmap_bounded :
      (f : Side → ℕ → ℕ) (l : Bitmaps) (s : Side) (p : ℕ) → Holds m f l → f s p ≤ u64_max
  bitmap_bounded f l s p v = v.arrays.small s p

  pub bitmap_add_fits :
      (f g : Side → ℕ → ℕ) (l : Bitmaps) (s : Side) (p q : ℕ)
      → Holds m f l
      → covers m price_count p ≡ true
      → 0 < q
      → f s p + q ≤ u64_max
      → ((t : Side) (r : ℕ) → g t r ≡ f t r + share t r (lot s p q))
      → (l' : Bitmaps) × (add_level s p q l ≡ done l') × Holds m g l'
  bitmap_add_fits f g l s p q v inside pos fits h =
      let at = offset_inside m f l v p inside in
      let level = level_at m f l v s p inside in
      let room : ltb (u64_max - f s p) q ≡ false = ground arith in
      let sum : (f s p + q) % u64_mod ≡ f s p + q = omega arith in
      let here : g s p ≡ f s p + q = ground (arith, h s p, same_side_refl s) in
      let others : (t : Side) (r : ℕ) → (same_side t s && (r == p)) ≡ false → g t r ≡ f t r =
        λ t r e. ground (arith, h t r) in
      let apart : (r : ℕ) → (r == p) ≡ false → g s r ≡ f s r = λ r e. others s r (ground arith) in
      elim (Bool-cases (f s p == 0)) [
        | inl none_there ↦ (
          updated s (p - m) (f s p + q) (set_bit (p - m) (occupancy s l)) l,
          unfold add_level in rw (add_level, at, level, none_there, room, sum) refl,
          updated-Holds m f g l p (f s p + q) (set_bit (p - m) (occupancy s l)) v inside fits
              (set_bit-IsMap (occupancy s l) (v.map s) (p - m) (ground arith)) s here others
              (marked m (f s) (g s) (occupancy s l) (v.map s) (v.marks s) p inside apart
                (omega arith)),
        )
        | inr some_there ↦ (
          updated s (p - m) (f s p + q) (occupancy s l) l,
          unfold add_level in rw (add_level, at, level, some_there, room, sum) refl,
          updated-Holds m f g l p (f s p + q) (occupancy s l) v inside fits (v.map s) s here others
              (same-Marks m (f s) (g s) (occupancy s l) (v.map s) (v.marks s) p inside apart
                (ground arith)),
        )
      ]

  pub bitmap_add_overflows :
      (f : Side → ℕ → ℕ) (l : Bitmaps) (s : Side) (p q : ℕ)
      → Holds m f l
      → covers m price_count p ≡ true
      → q ≤ u64_max
      → u64_max < f s p + q
      → add_level s p q l ≡ raised overflow_error l
  bitmap_add_overflows f l s p q v inside small over =
      let at = offset_inside m f l v p inside in
      let level = level_at m f l v s p inside in
      let full : ltb (u64_max - f s p) q ≡ true = ground (arith, v.arrays.small s p) in
      unfold add_level in rw (add_level, at, level, full) refl

  pub bitmap_add_outside :
      (f : Side → ℕ → ℕ) (l : Bitmaps) (s : Side) (p q : ℕ)
      → Holds m f l
      → covers m price_count p ≡ false
      → add_level s p q l ≡ raised invalid_argument l
  bitmap_add_outside f l s p q v outside =
      let at = offset_outside m f l v p outside in unfold add_level in rw (add_level, at) refl

  pub bitmap_subtract :
      (f g : Side → ℕ → ℕ) (l : Bitmaps) (s : Side) (p q : ℕ)
      → Holds m f l
      → 0 < q
      → q ≤ f s p
      → ((t : Side) (r : ℕ) → g t r + share t r (lot s p q) ≡ f t r)
      → (l' : Bitmaps) × (subtract_level s p q l ≡ done l') × Holds m g l'
  bitmap_subtract f g l s p q v pos fits h =
      let inside : covers m price_count p ≡ true = elim (Bool-cases (covers m price_count p)) [
        | inl e ↦ e
        | inr e ↦ absurd (omega (arith, v.arrays.outside s p e))
      ] in
      let at = offset_inside m f l v p inside in
      let level = level_at m f l v s p inside in
      let small = v.arrays.small s p in
      let allowed : (q == 0 || ltb (f s p) q) ≡ false = ground arith in
      let here : g s p ≡ f s p - q = ground (arith, h s p, same_side_refl s) in
      let others : (t : Side) (r : ℕ) → (same_side t s && (r == p)) ≡ false → g t r ≡ f t r =
        λ t r e. ground (arith, h t r) in
      let apart : (r : ℕ) → (r == p) ≡ false → g s r ≡ f s r = λ r e. others s r (ground arith) in
      elim (Bool-cases (f s p - q == 0)) [
        | inl none_left ↦ (
          updated s (p - m) (f s p - q) (clear_bit (p - m) (occupancy s l)) l,
          unfold subtract_level in rw (subtract_level, at, level, none_left, allowed) refl,
          updated-Holds m f g l p (f s p - q) (clear_bit (p - m) (occupancy s l)) v inside
              (omega arith) (clear_bit-IsMap (occupancy s l) (v.map s) (p - m) (ground arith)) s
              here others
              (cleared m (f s) (g s) (occupancy s l) (v.map s) (v.marks s) p inside apart
                (ground arith)),
        )
        | inr some_left ↦ (
          updated s (p - m) (f s p - q) (occupancy s l) l,
          unfold subtract_level in rw (subtract_level, at, level, some_left, allowed) refl,
          updated-Holds m f g l p (f s p - q) (occupancy s l) v inside (omega arith) (v.map s) s
              here others
              (same-Marks m (f s) (g s) (occupancy s l) (v.map s) (v.marks s) p inside apart
                (ground arith)),
        )
      ]

  abbrev pub bitmap_laws : LevelLaws bitmap_levels (covers m price_count)
  bitmap_laws = record {
    Holds = Holds m;
    bounded = bitmap_bounded;
    add_fits = bitmap_add_fits;
    add_overflows = bitmap_add_overflows;
    add_outside = bitmap_add_outside;
    subtract_fits = bitmap_subtract;
  }
