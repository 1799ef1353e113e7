-- ===== src/BitmapBook/View.antt =====
-- cpp/src/bitmap_ladder_order_book.cpp: a book with its orders unpacked is a book of IndexedBook, and
-- the methods commute with unpacking, but for an upsert to a price outside the range.
use cpp_rust_performance_lab.Common.{
  ℕ, ◌+◌, ◌-◌, ◌%◌, ◌≤◌, ◌<◌, ◌≡◌, refl, ap, ◌∙◌, Bool, true, false, not, ◌&&◌, ◌||◌, inl, inr,
  ◌==◌, ltb, arith, u64_mod, length, set, Bool-cases, Option-cases,
}
use cpp_rust_performance_lab.Book.{Side, Order, Exit, done, raised, ◌>>=◌, invalid_argument}
use cpp_rust_performance_lab.ProbeTable.{Slot, occupied, tombstone, insertion_slot}
use cpp_rust_performance_lab.IndexedBook
use cpp_rust_performance_lab.IndexedBook.{Book, require_slot}
use cpp_rust_performance_lab.IndexedBook.Mapped.{
  map_slot, map_slots, length-map_slots, set-map_slots, require_slot-map_slots,
  insertion_slot-map_slots,
}
use cpp_rust_performance_lab.BitmapLevels.{
  Bitmaps, bitmap_levels, add_level, subtract_level, price_count,
}
use cpp_rust_performance_lab.DenseBook.Arrays.{covers}
use cpp_rust_performance_lab.BitmapLevels.Laws.{
  Holds, offset_inside, offset_outside, bitmap_add_outside,
}
use cpp_rust_performance_lab.BitmapBook.Packing.{side_of-make, offset_of-make}
use cpp_rust_performance_lab.BitmapBook.{
  ask_bit, Packed, BitmapBook, make, side_of, offset_of, price_of, with_levels, bury, write_order,
  add_order, remove, reduce, upsert,
}

-- an order of a book whose prices start at `m`
abbrev pub unpack : ℕ → Packed → Order
unpack m p = record {
  side = side_of p;
  price_ticks = price_of m p;
  remaining_quantity = p.quantity;
}

abbrev pub view : ℕ → BitmapBook → Book Bitmaps
view m b = record { slots = map_slots (unpack m) b.slots; levels = b.levels; live = b.live }

abbrev pub view_exit : ℕ → Exit BitmapBook → Exit (Book Bitmaps)
view_exit m (done b) = done (view m b)
view_exit m (raised x b) = raised x (view m b)

module _ (m : ℕ) (b : BitmapBook) where
  -- what follows a change of the levels
  view-bury :
      (i : ℕ) (s : Slot Packed) (out : Exit Bitmaps)
      → view_exit m (with_levels b out >>= λ b'. done (bury i s b')) ≡ (
          IndexedBook.with_levels (view m b) out >>= λ b'.
          done (IndexedBook.bury i (map_slot (unpack m) s) b'))
  view-bury i s (raised x l) = refl
  view-bury i s (done l) =
      rw (set-map_slots (unpack m) b.slots i (record s { state = tombstone })) refl

  view-write :
      (i : ℕ) (s : Slot Packed) (p : Packed) (out : Exit Bitmaps)
      → view_exit m (with_levels b out >>= λ b'. done (write_order i s p b')) ≡ (
          IndexedBook.with_levels (view m b) out >>= λ b'.
          done (IndexedBook.write_order i (map_slot (unpack m) s) (unpack m p) b'))
  view-write i s p (raised x l) = refl
  view-write i s p (done l) = rw (set-map_slots (unpack m) b.slots i (record s { order = p })) refl

  view-insert :
      (id i : ℕ) (p : Packed) (out : Exit Bitmaps)
      → view_exit m (
          with_levels b out >>= λ b'. done (record b' {
            slots = set b'.slots i (record { order_id = id; order = p; state = occupied });
            live = (b'.live + 1) % u64_mod;
          }))
        ≡ (IndexedBook.with_levels (view m b) out >>= λ b'. done (record b' {
          slots = set b'.slots i (record { order_id = id; order = unpack m p; state = occupied });
          live = (b'.live + 1) % u64_mod;
        }))
  view-insert id i p (raised x l) = refl
  view-insert id i p (done l) =
      rw
        (set-map_slots (unpack m) b.slots i (record { order_id = id; order = p; state = occupied }))
        refl

module _ (m : ℕ) (b : BitmapBook) (low : b.levels.minimum_price ≡ m) where
  pub remove-view :
      (id : ℕ) → view_exit m (remove id b) ≡ IndexedBook.remove_order bitmap_levels id (view m b)
  unfolding remove IndexedBook.remove_order
  remove-view id =
      let found = require_slot-map_slots (unpack m) b.slots id in
      elim (Option-cases (require_slot id b.slots)) [
        | inl e ↦ rw (remove, IndexedBook.remove_order, found, e) refl
        | inr ((i, s), e) ↦
            let price : price_of b.levels.minimum_price s.order ≡ price_of m s.order =
              ap (λ (t : ℕ). price_of t s.order) low in
            rw (remove, IndexedBook.remove_order, found, e, price)
              (view-bury m b i s
                (subtract_level (side_of s.order) (price_of m s.order) s.order.quantity b.levels))
      ]

  pub reduce-view :
      (id q : ℕ) (full : Bool)
      → view_exit m (reduce id q full b)
        ≡ IndexedBook.subtract_from_order bitmap_levels id q full (view m b)
  unfolding reduce IndexedBook.subtract_from_order side_of price_of offset_of
  reduce-view id q full =
      let found = require_slot-map_slots (unpack m) b.slots id in
      elim (Option-cases (require_slot id b.slots)) [
        | inl e ↦ rw (reduce, IndexedBook.subtract_from_order, found, e) refl
        | inr ((i, s), e) ↦
            let price : price_of b.levels.minimum_price s.order ≡ price_of m s.order =
              ap (λ (t : ℕ). price_of t s.order) low in
            let out = subtract_level (side_of s.order) (price_of m s.order) q b.levels in
            elim (Bool-cases
              (q == 0 || ltb s.order.quantity q || (not full && q == s.order.quantity))) [
                | inl bad ↦ rw (reduce, IndexedBook.subtract_from_order, found, e, bad) refl
                | inr good ↦ elim (Bool-cases (q == s.order.quantity)) [
                  | inl all ↦
                      rw (reduce, IndexedBook.subtract_from_order, found, e, price, good, all)
                        (view-bury m b i s out)
                  | inr part ↦
                      rw (reduce, IndexedBook.subtract_from_order, found, e, price, good, part)
                        (view-write m b i s (record (s.order) { quantity = s.order.quantity - q })
                          out)
                ]
              ]
      ]

-- A packed order reads back as what it was made of.
pub unpack-make :
    (m p : ℕ) (s : Side) (q : ℕ)
    → covers m price_count p ≡ true
    → m + price_count ≤ u64_mod
    → unpack m (make s (p - m) q) ≡ record { side = s; price_ticks = p; remaining_quantity = q }
unpack-make m p s q inside fits =
    let few : p - m < ask_bit = ground arith in
    let same : (m + (p - m)) % u64_mod ≡ p = ground arith in
    let price : price_of m (make s (p - m) q) ≡ p =
      unfold price_of in rw (offset_of-make s (p - m) q few) same in
    let kept : (make s (p - m) q).quantity ≡ q = unfold make in refl in
    rw (side_of-make s (p - m) q few, price, kept) refl

module _ (m : ℕ) (f : Side → ℕ → ℕ) (b : BitmapBook) (v : Holds m f b.levels) (id : ℕ)
    (o : Order) where
  pub add_order-view :
      view_exit m (add_order id o b) ≡ IndexedBook.add_order bitmap_levels id o (view m b)
  unfolding add_order IndexedBook.add_order
  add_order-view = elim (Bool-cases (id == 0 || o.remaining_quantity == 0)) [
    | inl bad ↦ rw (add_order, IndexedBook.add_order, bad) refl
    | inr good ↦
        let slot = insertion_slot-map_slots (unpack m) b.slots id in
        let size = length-map_slots (unpack m) b.slots in
        elim (Bool-cases (covers m price_count o.price_ticks)) [
          | inl inside ↦
              let at = offset_inside m f b.levels v o.price_ticks inside in
              let back =
                unpack-make m o.price_ticks o.side o.remaining_quantity inside v.arrays.fits in
              elim (Bool-cases (insertion_slot id b.slots == length b.slots)) [
                | inl full ↦ rw (add_order, IndexedBook.add_order, good, at, slot, size, full) refl
                | inr free ↦
                    rw (add_order, IndexedBook.add_order, good, at, slot, size, free)
                      (view-insert m b id (insertion_slot id b.slots)
                          (make o.side (o.price_ticks - m) o.remaining_quantity)
                          (add_level o.side o.price_ticks o.remaining_quantity b.levels)
                        ∙ rw back refl)
              ]
          | inr outside ↦
              let at = offset_outside m f b.levels v o.price_ticks outside in
              let stop =
                bitmap_add_outside m f b.levels o.side o.price_ticks o.remaining_quantity v
                  outside in
              elim (Bool-cases (insertion_slot id b.slots == length b.slots)) [
                | inl full ↦ rw (add_order, IndexedBook.add_order, good, at, slot, size, full) refl
                | inr free ↦
                    rw (add_order, IndexedBook.add_order, good, at, slot, size, free, stop) refl
              ]
        ]
  ]

  view-replace :
      (i : ℕ) (s : Slot Packed) (p : Packed) (out : Exit Bitmaps)
      → view_exit m (
          with_levels b out >>= λ b'.
          with_levels b' (add_level o.side o.price_ticks o.remaining_quantity b'.levels) >>= λ b''.
          done (write_order i s p b''))
        ≡ (IndexedBook.with_levels (view m b) out >>= λ b'.
            IndexedBook.with_levels b'
              (add_level o.side o.price_ticks o.remaining_quantity b'.levels)
            >>= λ b''. done (IndexedBook.write_order i (map_slot (unpack m) s) (unpack m p) b''))
  view-replace i s p (raised x l) = refl
  view-replace i s p (done l) =
      view-write m (record b { levels = l }) i s p
        (add_level o.side o.price_ticks o.remaining_quantity l)

  pub upsert-view :
      covers m price_count o.price_ticks ≡ true
      → view_exit m (upsert id o b) ≡ IndexedBook.upsert_order bitmap_levels id o (view m b)
  unfolding upsert IndexedBook.upsert_order side_of price_of offset_of
  upsert-view inside = elim (Bool-cases (id == 0 || o.remaining_quantity == 0)) [
    | inl bad ↦ rw (upsert, IndexedBook.upsert_order, bad) refl
    | inr good ↦
        let found = require_slot-map_slots (unpack m) b.slots id in
        elim (Option-cases (require_slot id b.slots)) [
          | inl e ↦ rw (upsert, IndexedBook.upsert_order, good, found, e) add_order-view
          | inr ((i, s), e) ↦
              let at = offset_inside m f b.levels v o.price_ticks inside in
              let back =
                unpack-make m o.price_ticks o.side o.remaining_quantity inside v.arrays.fits in
              let price : price_of b.levels.minimum_price s.order ≡ price_of m s.order =
                ap (λ (t : ℕ). price_of t s.order) v.arrays.minimum in
              rw (upsert, IndexedBook.upsert_order, good, found, e, at, price)
                (view-replace i s (make o.side (o.price_ticks - m) o.remaining_quantity) (
                    subtract_level (side_of s.order) (price_of m s.order) s.order.quantity b.levels)
                  ∙ rw back refl)
        ]
  ]

  -- An upsert to a price outside the range changes nothing.
  pub upsert_outside :
      covers m price_count o.price_ticks ≡ false → upsert id o b ≡ raised invalid_argument b
  unfolding upsert add_order
  upsert_outside outside =
      let at = offset_outside m f b.levels v o.price_ticks outside in
      elim (Bool-cases (id == 0 || o.remaining_quantity == 0)) [
        | inl bad ↦ rw (upsert, bad) refl
        | inr good ↦ elim (Option-cases (require_slot id b.slots)) [
          | inl e ↦ rw (upsert, good, e, add_order, at, good) refl
          | inr ((i, s), e) ↦ rw (upsert, good, e, at) refl
        ]
      ]
