-- ===== src/OrderBook/Levels.antt =====
-- cpp/src/order_book.cpp: `add_to_level` and `subtract_from_level` against a function that says
-- how much each side holds at each price.
use cpp_rust_performance_lab.Common.{
  ℕ, ◌+◌, ◌-◌, ◌≤◌, ◌<◌, ◌≡◌, refl, arith, u64_max, u64_mod, ◌%◌, ◌==◌, inl, inr, Bool-cases, some,
  List, true, false, sym, ◌∙◌,
}
use cpp_rust_performance_lab.Book.{
  Side, bid, ask, Order, share, same_side, overflow_error, done, raised,
}
use cpp_rust_performance_lab.Book.Ladder
use cpp_rust_performance_lab.Book.Table.{Orders}
use cpp_rust_performance_lab.Book.Ladder.{Level, IsLadder, quantity_at, put, erase}
use cpp_rust_performance_lab.OrderBook.{
  OrderBook, levels_for, set_levels, add_to_level, subtract_from_level,
}

-- Both sides are ladders, and hold what `f` says.
pub record Holds (f : Side → ℕ → ℕ) (b : OrderBook) : Type 0 where
  pub ladder : (s : Side) → IsLadder 0 (levels_for s b)
  pub reads : (s : Side) (p : ℕ) → quantity_at p (levels_for s b) ≡ f s p

-- A quantity `q` at price `p` of side `s`, as an order.
abbrev pub lot : Side → ℕ → ℕ → Order
lot s p q = record { side = s; price_ticks = p; remaining_quantity = q }

-- Replacing the ladder of one side.
module _ (side : Side) (ls : List Level) (f g : Side → ℕ → ℕ) (b : OrderBook) where
  replace-Holds :
      Holds f b
      → IsLadder 0 ls
      → ((p : ℕ) → quantity_at p ls ≡ g side p)
      → ((s : Side) (p : ℕ) → same_side s side ≡ false → g s p ≡ f s p)
      → Holds g (set_levels side ls b)
  replace-Holds v lad reads others = record {
    ladder = ladder side lad;
    reads = reading side reads others;
  }
    where
      ladder :
          (t : Side) → IsLadder 0 ls → (s : Side) → IsLadder 0 (levels_for s (set_levels t ls b))
      ladder bid h bid = h
      ladder bid h ask = v.ladder ask
      ladder ask h bid = v.ladder bid
      ladder ask h ask = h

      reading :
          (t : Side)
          → ((p : ℕ) → quantity_at p ls ≡ g t p)
          → ((s : Side) (p : ℕ) → same_side s t ≡ false → g s p ≡ f s p)
          → (s : Side) (p : ℕ) → quantity_at p (levels_for s (set_levels t ls b)) ≡ g s p
      reading bid h k bid p = h p
      reading bid h k ask p = v.reads ask p ∙ sym (k ask p refl)
      reading ask h k bid p = v.reads bid p ∙ sym (k bid p refl)
      reading ask h k ask p = h p

-- The levels do not depend on the table.
pub Holds-orders :
    (f : Side → ℕ → ℕ) (t : Orders) (b : OrderBook) → Holds f b → Holds f (record b { orders = t })
Holds-orders f t b v = record { ladder = ladder; reads = reads }
  where
    ladder : (s : Side) → IsLadder 0 (levels_for s (record b { orders = t }))
    ladder bid = v.ladder bid
    ladder ask = v.ladder ask

    reads : (s : Side) (p : ℕ) → quantity_at p (levels_for s (record b { orders = t })) ≡ f s p
    reads bid p = v.reads bid p
    reads ask p = v.reads ask p

orders-set_levels :
    (s : Side) (ls : List Level) (b : OrderBook) → (set_levels s ls b).orders ≡ b.orders
orders-set_levels bid ls b = refl
orders-set_levels ask ls b = refl

set_levels_self : (s : Side) (b : OrderBook) → set_levels s (levels_for s b) b ≡ b
set_levels_self bid b = refl
set_levels_self ask b = refl

pub same_side_refl : (s : Side) → same_side s s ≡ true
same_side_refl bid = refl
same_side_refl ask = refl

-- What the two level operations do: the lot is added, or taken away; a sum that does not fit
-- changes nothing.
module _ (f : Side → ℕ → ℕ) (b : OrderBook) (side : Side) (p q : ℕ) (v : Holds f b) where
  pub add_to_level_fits :
      (g : Side → ℕ → ℕ)
      → 0 < q
      → f side p + q ≤ u64_max
      → ((s : Side) (r : ℕ) → g s r ≡ f s r + share s r (lot side p q))
      → (b' : OrderBook) × (add_to_level side p q b ≡ done b') × (b'.orders ≡ b.orders) × Holds g b'
  unfolding add_to_level
  add_to_level_fits g pos fits h =
      let old = levels_for side b in
      let n = f side p + q in
      let e : quantity_at p (Ladder.subscript p old) ≡ f side p =
        Ladder.quantity_at-subscript p p old ∙ v.reads side p in
      (
        set_levels side (put p n old) b,
        rw (e, Ladder.put-subscript p ((f side p + q) % u64_mod) 0 old (v.ladder side))
            (ground arith),
        orders-set_levels side _ b,
        replace-Holds side (put p n old) f g b v
            (Ladder.put-IsLadder p n 0 old (v.ladder side) (omega arith) (omega arith) fits)
            (λ r. ground (
              arith,
              Ladder.quantity_at-put p n r old,
              v.reads side r,
              h side r,
              same_side_refl side,
            ))
            (λ s r k. ground (arith, h s r)),
      )

  pub add_to_level_overflows :
      f side p ≤ u64_max
      → q ≤ u64_max
      → u64_max < f side p + q
      → add_to_level side p q b ≡ raised overflow_error b
  unfolding add_to_level
  add_to_level_overflows room small over =
      let old = levels_for side b in
      rw
        (
          Ladder.subscript_present p old (omega (arith, v.reads side p)),
          v.reads side p,
          set_levels_self side b,
        )
        (ground arith)

  pub subtract_from_level_fits :
      (g : Side → ℕ → ℕ)
      → 0 < q
      → q ≤ f side p
      → f side p ≤ u64_max
      → ((s : Side) (r : ℕ) → g s r + share s r (lot side p q) ≡ f s r)
      → (b' : OrderBook) × (subtract_from_level side p q b ≡ done b')
        × (b'.orders ≡ b.orders)
        × Holds g b'
  unfolding subtract_from_level
  subtract_from_level_fits g pos fits small h =
      let old = levels_for side b in
      let n = f side p - q in
      let e : Ladder.find p old ≡ some (f side p) =
        rw (Ladder.find-quantity_at p 0 old (v.ladder side), v.reads side p) (ground arith) in
      elim (Bool-cases (n == 0)) [
        | inl z ↦ (
          set_levels side (erase p old) b,
          rw (subtract_from_level, e) (ground arith),
          orders-set_levels side _ b,
          replace-Holds side (erase p old) f g b v (Ladder.erase-IsLadder p 0 old (v.ladder side))
              (λ r. ground (
                arith,
                Ladder.quantity_at-erase p r 0 old (v.ladder side),
                v.reads side r,
                h side r,
                same_side_refl side,
              ))
              (λ s r k. ground (arith, h s r)),
        )
        | inr z ↦ (
          set_levels side (put p n old) b,
          rw (subtract_from_level, e) (ground arith),
          orders-set_levels side _ b,
          replace-Holds side (put p n old) f g b v
              (Ladder.put-IsLadder p n 0 old (v.ladder side) (omega arith) (ground arith)
                (omega arith))
              (λ r. ground (
                arith,
                Ladder.quantity_at-put p n r old,
                v.reads side r,
                h side r,
                same_side_refl side,
              ))
              (λ s r k. ground (arith, h s r)),
        )
      ]
