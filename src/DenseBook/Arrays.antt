-- ===== src/DenseBook/Arrays.antt =====
-- cpp/src/dense_ladder_order_book.cpp: the arrays of quantities keep what a function says of them.
use cpp_rust_performance_lab.Common.{
  ℕ, ◌+◌, ◌-◌, ◌%◌, ◌≤◌, ◌<◌, ◌≡◌, inl, inr, refl, sym, ap, ◌∙◌, Bool, true, false, not, ◌&&◌, ◌||◌,
  Option, none, some, List, ◌==◌, if◌then◌else◌, ltb, leb, u64_mod, u64_max, length, length-set,
  set, get_or, get_or-set_self, get_or-set_ne, arith, Bool-cases, ℕ_discrete,
}
use cpp_rust_performance_lab.Book.{Side, bid, ask, same_side}
use cpp_rust_performance_lab.OrderBook.Levels.{same_side_refl}
use cpp_rust_performance_lab.DenseBook.{
  Ladders, ladder, set_ladder, offset, price_at, last_from, first_from,
}
use cpp_rust_performance_lab.DenseBook.Best.{
  Highest, Lowest, IsLast, IsFirst, last_from-IsLast, first_from-IsFirst,
}

-- the prices of `n` entries from `m` up
abbrev pub covers : ℕ → ℕ → ℕ → Bool
covers m n p = leb m p && ltb (p - m) n

-- The arrays have `n` entries from price `m` up, and hold what `f` says, which is nothing elsewhere.
pub record Reads (m n : ℕ) (f : Side → ℕ → ℕ) (l : Ladders) : Type 0 where
  pub minimum : l.minimum_price ≡ m
  pub size : (s : Side) → length (ladder s l) ≡ n
  pub fits : m + n ≤ u64_mod
  pub reads : (s : Side) (i : ℕ) → i < n → get_or (ladder s l) i 0 ≡ f s (m + i)
  pub outside : (s : Side) (p : ℕ) → covers m n p ≡ false → f s p ≡ 0
  pub small : (s : Side) (p : ℕ) → f s p ≤ u64_max

module _ (m n : ℕ) (f : Side → ℕ → ℕ) (l : Ladders) (v : Reads m n f l) where
  pub offset_inside : (p : ℕ) → covers m n p ≡ true → offset p l ≡ some (p - m)
  unfolding offset
  offset_inside p h =
      let low = v.minimum in
      let size = v.size bid in
      rw (low, size)
        (let good : (ltb p m || not (ltb (p - m) n)) ≡ false = ground arith in rw good refl)

  pub offset_outside : (p : ℕ) → covers m n p ≡ false → offset p l ≡ none
  unfolding offset
  offset_outside p h =
      let low = v.minimum in
      let size = v.size bid in
      rw (low, size)
        (let bad : (ltb p m || not (ltb (p - m) n)) ≡ true = ground arith in rw bad refl)

  -- what the entry of a price holds
  pub read_price : (s : Side) (p : ℕ) → covers m n p ≡ true → get_or (ladder s l) (p - m) 0 ≡ f s p
  read_price s p h =
      let at : m + (p - m) ≡ p = ground arith in v.reads s (p - m) (ground arith) ∙ ap (f s) at

  -- A function is 0 everywhere where it is 0 at each entry.
  pub everywhere :
      (s : Side) (p : ℕ) → (covers m n p ≡ true → get_or (ladder s l) (p - m) 0 ≡ 0) → f s p ≡ 0
  everywhere s p h = elim (Bool-cases (covers m n p)) [
    | inl e ↦ sym (read_price s p e) ∙ h e
    | inr e ↦ v.outside s p e
  ]

  -- The loops of `refresh_best` find the best prices.
  pub last_from-Highest : Highest (f bid) (price_at m (last_from (length l.bids) l.bids))
  last_from-Highest = rw (v.size bid) (go (last_from n l.bids) (last_from-IsLast n l.bids))
    where
      go : (o : Option ℕ) → IsLast l.bids n o → Highest (f bid) (price_at m o)
      go none h = λ p. everywhere bid p (λ e. h (p - m) (ground arith))
      go (some i) h =
          (let whole : (m + i) % u64_mod ≡ m + i = omega (arith, v.fits, h.0) in
            rw whole (
              omega (arith, v.reads bid i h.0, h.1),
              λ p k. everywhere bid p (λ e. h.2 (p - m) (ground arith) (ground arith)),
            ))

  pub first_from-Lowest : Lowest (f ask) (price_at m (first_from (length l.asks) 0 l.asks))
  first_from-Lowest =
      rw (v.size ask) (go (first_from n 0 l.asks) (first_from-IsFirst n 0 n l.asks (omega arith)))
    where
      go : (o : Option ℕ) → IsFirst l.asks 0 n o → Lowest (f ask) (price_at m o)
      go none h = λ p. everywhere ask p (λ e. h (p - m) (omega arith) (ground arith))
      go (some i) h =
          (let whole : (m + i) % u64_mod ≡ m + i = omega (arith, v.fits, h.1) in
            rw whole (
              omega (arith, v.reads ask i h.1, h.2),
              λ p k. everywhere ask p (λ e. h.3 (p - m) (omega arith) (ground arith)),
            ))

-- The best prices are no part of the arrays.
pub Reads-best :
    (m n : ℕ) (f : Side → ℕ → ℕ) (l : Ladders) (b a : Option ℕ)
    → Reads m n f l
    → Reads m n f (record l { best_bid = b; best_ask = a })
Reads-best m n f l b a v = record {
  minimum = v.minimum;
  size = λ s. elim s as (λ x. length (ladder x (record l { best_bid = b; best_ask = a })) ≡ n) [
    | bid ↦ v.size bid
    | ask ↦ v.size ask
  ];
  fits = v.fits;
  reads = λ s.
      elim s
        as (λ x.
          (i : ℕ)
          → i < n
          → get_or (ladder x (record l { best_bid = b; best_ask = a })) i 0 ≡ f x (m + i)) [
            | bid ↦ v.reads bid
            | ask ↦ v.reads ask
          ];
  outside = v.outside;
  small = v.small;
}

ladder-set_ladder :
    (s side : Side) (qs : List ℕ) (l : Ladders)
    → ladder s (set_ladder side qs l) ≡ (if same_side s side then qs else ladder s l)
ladder-set_ladder bid bid qs l = refl
ladder-set_ladder bid ask qs l = refl
ladder-set_ladder ask bid qs l = refl
ladder-set_ladder ask ask qs l = refl

minimum-set_ladder :
    (side : Side) (qs : List ℕ) (l : Ladders)
    → (set_ladder side qs l).minimum_price ≡ l.minimum_price
minimum-set_ladder bid qs l = refl
minimum-set_ladder ask qs l = refl

pub same_side-eq : (s side : Side) → same_side s side ≡ true → s ≡ side
same_side-eq bid bid h = refl
same_side-eq ask ask h = refl
same_side-eq bid ask h = absurd cc
same_side-eq ask bid h = absurd cc

-- A write of one entry.
module _ (m n : ℕ) (f g : Side → ℕ → ℕ) (l : Ladders) (side : Side) (p x : ℕ) (v : Reads m n f l)
    (inside : covers m n p ≡ true) (le : x ≤ u64_max) (here : g side p ≡ x)
    (others : (s : Side) (r : ℕ) → (same_side s side && (r == p)) ≡ false → g s r ≡ f s r) where
  entry : (i : ℕ) → i < n → get_or (set (ladder side l) (p - m) x) i 0 ≡ g side (m + i)
  entry i h = elim (ℕ_discrete (p - m) i) [
    | yes at ↦
        (let price : m + i ≡ p = ground arith in
          let length_is = v.size side in
          ap (λ (t : ℕ). get_or (set (ladder side l) (p - m) x) t 0) (sym at)
          ∙ get_or-set_self (ladder side l) (p - m) x 0 (ground (arith, length_is))
          ∙ sym here
          ∙ ap (g side) (sym price))
    | no ne ↦
        (let other : (same_side side side && (m + i == p)) ≡ false =
            ground (arith, same_side_refl side) in
          get_or-set_ne (ladder side l) (p - m) i x 0 ne
          ∙ v.reads side i h
          ∙ sym (others side (m + i) other))
  ]

  abbrev written : Ladders
  written = set_ladder side (set (ladder side l) (p - m) x) l

  size-written : (s : Side) → length (ladder s written) ≡ n
  size-written s = elim (Bool-cases (same_side s side)) [
    | inl e ↦
        ap length (ladder-set_ladder s side (set (ladder side l) (p - m) x) l)
        ∙ rw e (length-set (ladder side l) (p - m) x ∙ v.size side)
    | inr e ↦
        ap length (ladder-set_ladder s side (set (ladder side l) (p - m) x) l) ∙ rw e (v.size s)
  ]

  reads-written : (s : Side) (i : ℕ) → i < n → get_or (ladder s written) i 0 ≡ g s (m + i)
  reads-written s i h = elim (Bool-cases (same_side s side)) [
    | inl e ↦
        ap (λ t. get_or t i 0) (ladder-set_ladder s side (set (ladder side l) (p - m) x) l)
        ∙ rw e (entry i h ∙ ap (λ (t : Side). g t (m + i)) (sym (same_side-eq s side e)))
    | inr e ↦
        (let other : (same_side s side && (m + i == p)) ≡ false = ground arith in
          ap (λ t. get_or t i 0) (ladder-set_ladder s side (set (ladder side l) (p - m) x) l)
          ∙ rw e (v.reads s i h ∙ sym (others s (m + i) other)))
  ]

  pub write-Reads : Reads m n g written
  write-Reads = record {
    minimum = minimum-set_ladder side (set (ladder side l) (p - m) x) l ∙ v.minimum;
    size = size-written;
    fits = v.fits;
    reads = reads-written;
    outside = λ s r e.
        (let other : (same_side s side && (r == p)) ≡ false = ground arith in
          others s r other ∙ v.outside s r e);
    small = λ s r. elim (Bool-cases (same_side s side && (r == p))) [
      | inl e ↦
          (let at : r ≡ p = ground arith in
            let on : s ≡ side = same_side-eq s side (ground arith) in
            let value : g s r ≡ x = ap (λ (t : Side). g t r) on ∙ ap (g side) at ∙ here in
            omega (arith, value))
      | inr e ↦ omega (arith, others s r e, v.small s r)
    ];
  }
