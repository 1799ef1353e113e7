-- ===== src/Book.antt =====
-- What the order books share (cpp/include/llab/order_book.hpp and parity_order_book.hpp): sides,
-- events, levels and live orders, the exceptions, and the containers that hold them.
-- A method that returns `void` yields the state in which it stops, normally or by an exception.
pub mod Ladder
pub mod Table
pub mod Digest
pub mod Spec
pub mod Bounded
use cpp_rust_performance_lab.Common.{ℕ, ◌==◌, ◌&&◌, Bool, true, false, if◌then◌else◌}

-- `Side`
pub data Side : Type 0 where
  bid ask : Side

-- `EventType`; `Delete` and `OrderDelete` take the same branch of `apply`.
pub data EventType : Type 0 where
  add cancel execute delete replace order_upsert order_delete : EventType

pub record Event : Type 0 where
  pub type : EventType
  pub order_id : ℕ
  pub replacement_order_id : ℕ
  pub side : Side
  pub price_ticks : ℕ
  pub quantity : ℕ

pub record Order : Type 0 where
  pub side : Side
  pub price_ticks : ℕ
  pub remaining_quantity : ℕ

pub data Exception : Type 0 where
  invalid_argument overflow_error logic_error : Exception

-- An exception leaves the object as it was when the exception was thrown.
pub data Exit {ℓ} (S : Type ℓ) : Type ℓ where
  done : S → Exit S
  raised : Exception → S → Exit S

infixl 5 ◌>>=◌
abbrev pub ◌>>=◌ {ℓ} : {S : Type ℓ} → Exit S → (S → Exit S) → Exit S
done s >>= f = f s
raised e s >>= f = raised e s

abbrev pub same_side : Side → Side → Bool
same_side bid bid = true
same_side ask ask = true
same_side _ _ = false

-- What an order adds to the level of side `s` at price `p`.
abbrev pub share : Side → ℕ → Order → ℕ
share s p o = if same_side s o.side && (p == o.price_ticks) then o.remaining_quantity else 0
