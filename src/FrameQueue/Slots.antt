-- ===== src/FrameQueue/Slots.antt =====
-- cpp/include/llab/raw_frame_queue.hpp: the slots from the read index to the write index.
use cpp_rust_performance_lab.Common.{
  ℕ, zero, suc, ◌+◌, ◌-◌, ◌≤◌, ◌<◌, ◌≡◌, ◌≢◌, refl, ap, sym, List, [], ◌∷◌, ◌++◌, leb,
  if◌then◌else◌, u64_mod, length, set, get_or-set_ne, length-set, arith,
}
use cpp_rust_performance_lab.RawFrame.{RawFrameRecord}
use cpp_rust_performance_lab.FrameQueue.{Slot, increment, slot_at, record_of, empty_slot}

-- how many steps lead from one index to another
unfoldable pub distance : ℕ → ℕ → ℕ → ℕ
distance size i w = if leb i w then w - i else w + size - i

pub increment_lt : (size i : ℕ) → i < size → increment size i < size
unfolding increment
increment_lt size i h = ground arith

pub distance_step :
    (size i w : ℕ)
    → i < size
    → w < size
    → size < u64_mod
    → i ≢ w
    → distance size i w ≡ suc (distance size (increment size i) w)
unfolding increment distance
distance_step size i w h k small ne = ground arith

pub distance_further :
    (size i w : ℕ)
    → i < size
    → w < size
    → size < u64_mod
    → increment size w ≢ i
    → distance size i (increment size w) ≡ suc (distance size i w)
unfolding increment distance
distance_further size i w h k small ne = ground arith

-- The distance where the next index is the one that is read: all slots but one are held.
pub distance_full :
    (size i w : ℕ)
    → i < size
    → w < size
    → size < u64_mod
    → increment size w ≡ i
    → distance size i w + 1 ≡ size
unfolding increment distance
distance_full size i w h k small e = ground arith

pub distance_room :
    (size i w : ℕ)
    → i < size
    → w < size
    → size < u64_mod
    → increment size w ≢ i
    → distance size i w + 1 < size
unfolding increment distance
distance_room size i w h k small e = ground arith

pub distance_lt : (size i w : ℕ) → i < size → w < size → distance size i w < size
unfolding distance
distance_lt size i w h k = ground arith

pub distance_self : (size i : ℕ) → distance size i i ≡ 0
unfolding distance
distance_self size i = ground arith

pub distance_zero : (size i w : ℕ) → i < size → distance size i w ≡ 0 → i ≡ w
unfolding distance
distance_zero size i w h e = ground arith

-- The frames in `n` slots from an index on, in order.
unfoldable pub held : ℕ → ℕ → List Slot → List RawFrameRecord
held zero i slots = []
held (suc n) i slots = record_of (slot_at i slots) ∷ held n (increment (length slots) i) slots

-- A slot that is not among them may be overwritten.
pub held-set :
    (n i w : ℕ) (v : Slot) (slots : List Slot)
    → i < length slots
    → w < length slots
    → length slots < u64_mod
    → n ≤ distance (length slots) i w
    → held n i (set slots w v) ≡ held n i slots
unfolding held
held-set zero i w v slots hi hw small h = refl
held-set (suc n) i w v slots hi hw small h =
    let apart : w ≢ i =
      λ e. ground (arith, distance_self (length slots) i, ap (distance (length slots) i) e) in
    let step = distance_step (length slots) i w hi hw small (λ e. apart (sym e)) in
    let next = increment_lt (length slots) i hi in
    let rest = held-set n (increment (length slots) i) w v slots next hw small (omega arith) in
    rw (length-set slots w v, get_or-set_ne slots w i v (empty_slot 0) apart, rest) refl

-- The slot behind them is the next to join.
pub held-snoc :
    (n i w : ℕ) (slots : List Slot)
    → i < length slots
    → w < length slots
    → length slots < u64_mod
    → n ≡ distance (length slots) i w
    → held (suc n) i slots ≡ held n i slots ++ record_of (slot_at w slots) ∷ []
unfolding held
held-snoc zero i w slots hi hw small h = rw (distance_zero (length slots) i w hi (sym h)) refl
held-snoc (suc n) i w slots hi hw small h =
    let apart : i ≢ w =
      λ e. ground (arith, distance_self (length slots) i, ap (distance (length slots) i) e) in
    let step = distance_step (length slots) i w hi hw small apart in
    let next = increment_lt (length slots) i hi in
    ap (λ t. record_of (slot_at i slots) ∷ t)
      (held-snoc n (increment (length slots) i) w slots next hw small (omega arith))
