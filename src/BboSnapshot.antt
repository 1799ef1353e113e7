-- ===== src/BboSnapshot.antt =====
-- The cell that publishes the best prices: cpp/include/llab/bbo_snapshot.hpp. Each load and store of
-- an atomic member is one step, and one writer and one reader take their steps in any order, all
-- of them seen in one total order.
pub mod Reads
mod Tests
use cpp_rust_performance_lab.Common.{
  ℕ, ◌+◌, ◌%◌, Option, none, some, List, [], ◌∷◌, ◌==◌, if◌then◌else◌, u64_mod, bit_and,
}

pub record Snapshot : Type 0 where
  pub bid_price : ℕ
  pub bid_quantity : ℕ
  pub ask_price : ℕ
  pub ask_quantity : ℕ

-- the atomic members
pub record Cell : Type 0 where
  pub version : ℕ
  pub bid_price : ℕ
  pub bid_quantity : ℕ
  pub ask_price : ℕ
  pub ask_quantity : ℕ

-- Where `publish` stands: before it, or before a store, with its argument and `starting_version`.
pub data Writer : Type 0 where
  idle : Writer
  store_bid_price : Snapshot → ℕ → Writer
  store_bid_quantity : Snapshot → ℕ → Writer
  store_ask_price : Snapshot → ℕ → Writer
  store_ask_quantity : Snapshot → ℕ → Writer
  store_version : Snapshot → ℕ → Writer

-- Where `try_read` stands: after it, with its result, or before a load, with `before` and what it
-- has loaded.
pub data Reader : Type 0 where
  answered : Option Snapshot → Reader
  load_bid_price : ℕ → Reader
  load_bid_quantity : ℕ → ℕ → Reader
  load_ask_price : ℕ → ℕ → ℕ → Reader
  load_ask_quantity : ℕ → ℕ → ℕ → ℕ → Reader
  load_version : ℕ → Snapshot → Reader

-- `published` is the argument of the last call of `publish` that has ended; no code reads it.
pub record State : Type 0 where
  pub cell : Cell
  pub writer : Writer
  pub reader : Reader
  pub published : Snapshot

abbrev pub no_snapshot : Snapshot
no_snapshot = record { bid_price = 0; bid_quantity = 0; ask_price = 0; ask_quantity = 0 }

abbrev pub initial : State
initial = record {
  cell = record { version = 0; bid_price = 0; bid_quantity = 0; ask_price = 0; ask_quantity = 0 };
  writer = idle;
  reader = answered none;
  published = no_snapshot;
}

-- the next step of `publish`; the snapshot is that of a call that begins
unfoldable pub publish_in : Writer → Snapshot → State → State
publish_in idle s st = record st {
  cell = record (st.cell) { version = (st.cell.version + 1) % u64_mod };
  writer = store_bid_price s st.cell.version;
}
publish_in (store_bid_price t v) s st = record st {
  cell = record (st.cell) { bid_price = t.bid_price };
  writer = store_bid_quantity t v;
}
publish_in (store_bid_quantity t v) s st = record st {
  cell = record (st.cell) { bid_quantity = t.bid_quantity };
  writer = store_ask_price t v;
}
publish_in (store_ask_price t v) s st = record st {
  cell = record (st.cell) { ask_price = t.ask_price };
  writer = store_ask_quantity t v;
}
publish_in (store_ask_quantity t v) s st = record st {
  cell = record (st.cell) { ask_quantity = t.ask_quantity };
  writer = store_version t v;
}
publish_in (store_version t v) s st = record st {
  cell = record (st.cell) { version = (v + 2) % u64_mod };
  writer = idle;
  published = t;
}

unfoldable pub publish_step : Snapshot → State → State
unfolding publish_in
publish_step s st = publish_in st.writer s st

-- what the next step of `try_read` leaves
unfoldable pub read_in : Reader → Cell → Reader
read_in (answered result) c =
    if bit_and c.version 1 == 0 then load_bid_price c.version else answered none
read_in (load_bid_price before) c = load_bid_quantity before c.bid_price
read_in (load_bid_quantity before p) c = load_ask_price before p c.bid_quantity
read_in (load_ask_price before p q) c = load_ask_quantity before p q c.ask_price
read_in (load_ask_quantity before p q r) c =
    load_version before
      (record { bid_price = p; bid_quantity = q; ask_price = r; ask_quantity = c.ask_quantity })
read_in (load_version before s) c = if before == c.version then answered (some s) else answered none

unfoldable pub read_step : State → State
unfolding read_in
read_step st = record st { reader = read_in st.reader st.cell }

pub data Action : Type 0 where
  write : Snapshot → Action
  read : Action

unfoldable pub run : List Action → State → State
unfolding publish_step read_step
run [] st = st
run (write s ∷ actions) st = run actions (publish_step s st)
run (read ∷ actions) st = run actions (read_step st)
