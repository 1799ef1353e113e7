-- ===== src/BitmapBook/Contract.antt =====
-- cpp/src/bitmap_ladder_order_book.cpp: `apply` against the contract of a bounded book and against the
-- reference book, the best prices, and the constructor.
use cpp_rust_performance_lab.Common.{
  ℕ, zero, suc, ◌∷◌, ◌+◌, ◌-◌, ◌*◌, ◌%◌, ◌^◌, ◌≤◌, ◌<◌, ◌≡◌, ◌⊎◌, ◌≢◌, inl, inr, refl, ap, ◌∙◌,
  true, false, not, ◌||◌, none, some, [], ◌==◌, ltb, u64_mod, u64_max, max, length,
  length-replicate, replicate, arith, Bool-cases,
}
use cpp_rust_performance_lab.Book.{
  Order, Side, bid, ask, Event, EventType, add, cancel, execute, delete, replace, order_upsert,
  order_delete, Exit, done, raised, ◌>>=◌, invalid_argument,
}
use cpp_rust_performance_lab.Book.Table
use cpp_rust_performance_lab.Book.Table.{Orders, total}
use cpp_rust_performance_lab.Book.Ladder.Best.{IsTop, IsBottom}
use cpp_rust_performance_lab.Book.Spec
use cpp_rust_performance_lab.Book.Spec.{Verdict, accept, reject}
use cpp_rust_performance_lab.Book.Bounded
use cpp_rust_performance_lab.ProbeTable.{Slot, empty}
use cpp_rust_performance_lab.ProbeTable.Place.{room}
use cpp_rust_performance_lab.ProbeTable.Capacity.{grow_lem, grow_endless, blank-IsProbe}
use cpp_rust_performance_lab.IndexedBook
use cpp_rust_performance_lab.IndexedBook.{Book, order_of}
use cpp_rust_performance_lab.IndexedBook.Valid.{IsValid, Meets}
use cpp_rust_performance_lab.IndexedBook.Operations.{remove_order-Meets}
use cpp_rust_performance_lab.IndexedBook.Contract.{Kept, indexed-Meets}
use cpp_rust_performance_lab.IndexedBook.Mapped.{map_slots, room-map_slots}
use cpp_rust_performance_lab.IndexedBook.Reference.{Alike, indexed-Alike}
use cpp_rust_performance_lab.OrderBook.{OrderBook as ReferenceBook, apply as reference_apply}
use cpp_rust_performance_lab.OrderBook.Valid.{IsValid as ReferenceIsValid}
use cpp_rust_performance_lab.ParityBook.{Made, made, thrown, endless}
use cpp_rust_performance_lab.DenseBook.{capacity}
use cpp_rust_performance_lab.DenseBook.Arrays.{covers}
use cpp_rust_performance_lab.BitmapLevels.{no_levels, price_count, bitmap_levels}
use cpp_rust_performance_lab.BitmapLevels.Laws.{bitmap_laws}
use cpp_rust_performance_lab.BitmapLevels.Best.{best_bid_IsTop, best_ask_IsBottom, no_levels-Holds}
use cpp_rust_performance_lab.BitmapBook.{
  BitmapBook, empty_slot, new, add_order, remove, dispatch, apply, best_bid, best_ask,
}
use cpp_rust_performance_lab.BitmapBook.View.{
  unpack, view, view_exit, add_order-view, remove-view, reduce-view, upsert-view, upsert_outside,
}

module _ (m : ℕ) (b : BitmapBook) (t : Orders) (v : IsValid (bitmap_laws m) (view m b) t)
    (e : Event) where
  -- The second half of a replacement, from the book that the first leaves.
  then_add :
      (out : Exit BitmapBook) (verdict : Verdict)
      → Meets (bitmap_laws m) (λ _ b'. b' ≡ view m b) (view_exit m out) verdict
      → view_exit m (out >>= λ b'. add_order e.replacement_order_id (order_of e) b') ≡ (
          view_exit m out >>= λ b'.
          IndexedBook.add_order bitmap_levels e.replacement_order_id (order_of e) b')
  then_add (done b') (accept u) h =
      add_order-view m (λ s p. total s p u) b' h.holds e.replacement_order_id (order_of e)
  then_add (raised x b') verdict h = refl
  then_add (done b') (reject y) h = elim h [ ]

  -- The methods commute with unpacking.
  dispatch-view :
      (k : EventType)
      → (covers m price_count e.price_ticks ≡ true) ⊎ (k ≢ order_upsert)
      → view_exit m (dispatch k e b) ≡ IndexedBook.dispatch bitmap_levels k e (view m b)
  unfolding dispatch IndexedBook.dispatch
  dispatch-view add h = add_order-view m (λ s p. total s p t) b v.holds e.order_id (order_of e)
  dispatch-view cancel h = reduce-view m b v.holds.arrays.minimum e.order_id e.quantity false
  dispatch-view execute h = reduce-view m b v.holds.arrays.minimum e.order_id e.quantity true
  dispatch-view delete h = remove-view m b v.holds.arrays.minimum e.order_id
  dispatch-view order_delete h = remove-view m b v.holds.arrays.minimum e.order_id
  dispatch-view order_upsert (inl inside) =
      upsert-view m (λ s p. total s p t) b v.holds e.order_id (order_of e) inside
  dispatch-view order_upsert (inr other) = absurd (other refl)
  dispatch-view replace h = elim (Bool-cases (e.order_id == e.replacement_order_id)) [
    | inl same ↦ rw same refl
    | inr other ↦
        let gone = remove-view m b v.holds.arrays.minimum e.order_id in
        let meets = remove_order-Meets (bitmap_laws m) (view m b) t v e.order_id in
        rw other
          (then_add (remove e.order_id b) (Spec.drop e.order_id t) (rw gone meets) ∙ rw gone refl)
  ]

  -- An event that the methods pass on.
  dispatch-Meets :
      (k : EventType)
      → e.type ≡ k
      → (covers m price_count e.price_ticks ≡ true) ⊎ (k ≢ order_upsert)
      → e.quantity ≤ u64_max
      → Meets
          (bitmap_laws m)
          (Kept (bitmap_laws m) k e (view m b) t)
          (view_exit m (dispatch k e b))
          (Bounded.dispatch (covers m price_count) (room b.slots) k e t)
  unfolding IndexedBook.apply Bounded.apply
  dispatch-Meets k same h small =
      let base = indexed-Meets (bitmap_laws m) (view m b) t v e small in
      let free = room-map_slots (unpack m) b.slots in rw (dispatch-view k h, ← free, ← same) base

  Meets-by_type :
      (k : EventType)
      → e.type ≡ k
      → e.quantity ≤ u64_max
      → Meets
          (bitmap_laws m)
          (Kept (bitmap_laws m) k e (view m b) t)
          (view_exit m (dispatch k e b))
          (Bounded.dispatch (covers m price_count) (room b.slots) k e t)
  Meets-by_type order_upsert same small = elim (Bool-cases (covers m price_count e.price_ticks)) [
    | inl inside ↦ dispatch-Meets order_upsert same (inl inside) small
    | inr outside ↦
        let stop : dispatch order_upsert e b ≡ raised invalid_argument b =
          unfold dispatch in
          upsert_outside m (λ s p. total s p t) b v.holds e.order_id (order_of e) outside in
        let refused : Bounded.dispatch (covers m price_count) (room b.slots) order_upsert e t
            ≡ reject invalid_argument =
          unfold Bounded.dispatch Bounded.upsert in rw outside (ground arith) in
        rw (stop, refused) (refl, inl refl)
  ]
  Meets-by_type add same small = dispatch-Meets add same (inr (λ h. cc)) small
  Meets-by_type cancel same small = dispatch-Meets cancel same (inr (λ h. cc)) small
  Meets-by_type execute same small = dispatch-Meets execute same (inr (λ h. cc)) small
  Meets-by_type delete same small = dispatch-Meets delete same (inr (λ h. cc)) small
  Meets-by_type order_delete same small = dispatch-Meets order_delete same (inr (λ h. cc)) small
  Meets-by_type replace same small = dispatch-Meets replace same (inr (λ h. cc)) small

-- The bitmap-ladder book's `apply`, on a book over the 256 prices from `m` up whose index, arrays and
-- bitmaps agree with a table of orders, does what the contract of a bounded book says of the table:
-- a new order is refused where every slot of the index holds one, or where its price is outside the
-- range. It returns exactly where the contract accepts, agreeing with the accepted table, bitmaps
-- included; else it throws the exception that the contract names. The book is then unchanged, but
-- for a replacement, after which it still agrees with some table, and for an upsert of an order that
-- is there, which may have left the levels without it.
pub bitmap_apply-Meets :
    (m : ℕ) (b : BitmapBook) (t : Orders) (e : Event)
    → IsValid (bitmap_laws m) (view m b) t
    → e.quantity ≤ u64_max
    → Meets
        (bitmap_laws m)
        (Kept (bitmap_laws m) e.type e (view m b) t)
        (view_exit m (apply e b))
        (Bounded.apply (covers m price_count) (room b.slots) e t)
unfolding apply Bounded.apply
bitmap_apply-Meets m b t e v small = Meets-by_type m b t v e e.type refl small

-- The bitmap-ladder book and the reference book, from states that hold the same orders, where the
-- bitmap book's index has a free slot and the event's price is in its range: an event is accepted by
-- both, and they hold the same orders again, or by neither, and they throw the same exception.
pub bitmap_apply-Alike :
    (m : ℕ) (r : ReferenceBook) (b : BitmapBook) (e : Event)
    → ReferenceIsValid r
    → IsValid (bitmap_laws m) (view m b) r.orders
    → room b.slots ≡ true
    → covers m price_count e.price_ticks ≡ true
    → e.quantity ≤ u64_max
    → Alike (bitmap_laws m) (reference_apply e r) (view_exit m (apply e b))
unfolding apply IndexedBook.apply
bitmap_apply-Alike m r b e vr vb free inside small =
    rw (dispatch-view m b r.orders vb e e.type (inl inside)) (
      indexed-Alike (bitmap_laws m) r (view m b) e vr vb (room-map_slots (unpack m) b.slots ∙ free)
        inside small)

-- On a book that agrees with a table of orders, `best_bid` is the highest price at which bids of
-- the table stand, with their total, and `best_ask` the lowest for asks; `nullopt` where there are
-- none: the bitmaps find them.
pub bitmap_best_prices :
    (m : ℕ) (b : BitmapBook) (t : Orders)
    → IsValid (bitmap_laws m) (view m b) t
    → IsTop (λ p. total bid p t) (best_bid b) × IsBottom (λ p. total ask p t) (best_ask b)
unfolding best_bid best_ask
bitmap_best_prices m b t v =
    let f : Side → ℕ → ℕ = λ s p. total s p t in
    (best_bid_IsTop m f b.levels v.holds, best_ask_IsBottom m f b.levels v.holds)

abbrev pub fresh_bitmaps : ℕ → ℕ → BitmapBook
fresh_bitmaps size m = record { slots = replicate size empty_slot; levels = no_levels m; live = 0 }

blank_view :
    (n m : ℕ)
    → map_slots (unpack m) (replicate n empty_slot)
      ≡ replicate n (record { order_id = 0; order = unpack m empty_slot.order; state = empty })
blank_view zero m = refl
blank_view (suc n) m =
    ap (λ t. record { order_id = 0; order = unpack m empty_slot.order; state = empty } ∷ t)
      (blank_view n m)

pub fresh_bitmaps-IsValid :
    (p m : ℕ)
    → p ≤ 63
    → m + price_count ≤ u64_mod
    → IsValid (bitmap_laws m) (view m (fresh_bitmaps (2 ^ p) m)) []
unfolding Table.find total
fresh_bitmaps-IsValid p m high fits =
    let s : Slot Order = record {
      order_id = 0;
      order = unpack m empty_slot.order;
      state = empty;
    } in
    let blank = blank_view (2 ^ p) m in
    let (index, none_there) = blank-IsProbe (2 ^ p) s refl p high refl in
    record {
      index = rw blank index;
      table = tt;
      agrees = rw blank none_there;
      holds = no_levels-Holds m fits;
      counted = refl;
    }

-- What the constructor promises for the prices from `m` up.
abbrev pub Charted : ℕ → ℕ → ℕ → Made BitmapBook → Type 0
Charted n m c (made b) =
    IsValid (bitmap_laws m) (view m b) []
    × (c ≡ price_count)
    × (m + price_count ≤ u64_mod)
    × (8 ≤ length b.slots)
    × (n * 2 % u64_mod ≤ length b.slots)
Charted n m c thrown = (c ≢ price_count) ⊎ (u64_mod < m + price_count)
Charted n m c endless = 2 ^ 63 < n * 2 % u64_mod

-- The constructor for `n` orders and `c` prices from `m` up, with fuel for 61 rounds or more of the
-- loop of `capacity`: what it makes is a consistent and empty book over 256 prices that fit 64 bits,
-- whose index has at least eight slots and at least twice `n` modulo 2 ^ 64; it throws only where `c`
-- is not 256 or the prices do not fit, and loops without end only where twice `n` modulo 2 ^ 64 passes
-- 2 ^ 63.
pub bitmap_new_lem : (fuel n m c : ℕ) → 61 ≤ fuel → Charted n m c (new fuel n m c)
bitmap_new_lem fuel n m c enough = elim (Bool-cases (ltb (2 ^ 63) (n * 2 % u64_mod))) [
  | inl stuck ↦
      let target = max 8 (n * 2 % u64_mod) in
      let big : 2 ^ 63 < target = ground arith in
      let run : capacity fuel n ≡ none =
        unfold capacity in grow_endless fuel 3 target (omega arith) big in
      let stop : new fuel n m c ≡ endless = unfold new in rw (new, run) refl in
      rw stop (ground arith)
  | inr fits ↦
      let target = max 8 (n * 2 % u64_mod) in
      let below : target ≤ 2 ^ 63 = ground arith in
      let (p, low, high, run', reach, least) =
        grow_lem fuel 3 target (omega arith) below (omega arith) in
      let run : capacity fuel n ≡ some (2 ^ p) = unfold capacity in run' in
      let slots = length-replicate (2 ^ p) empty_slot in
      elim (Bool-cases (not (c == price_count) || ltb (u64_max - (price_count - 1)) m)) [
        | inl bad ↦
            let stop : new fuel n m c ≡ thrown = unfold new in rw (new, run, bad) refl in
            rw stop (ground arith)
        | inr good ↦
            let stop : new fuel n m c ≡ made (fresh_bitmaps (2 ^ p) m) =
              unfold new in rw (new, run, good) refl in
            let room : m + price_count ≤ u64_mod = ground arith in
            rw stop (
              fresh_bitmaps-IsValid p m high room,
              ground arith,
              room,
              omega (arith, slots, reach),
              omega (arith, slots, reach),
            )
      ]
]
