-- ===== src/FrameQueue.antt =====
-- The bounded queue of frames between one producer and one consumer:
-- cpp/include/llab/raw_frame_queue.hpp. Each call is one step; `std::vector` capacity of the frame
-- that the consumer passes is an argument.
pub mod Slots
pub mod Fifo
pub mod Filling
mod Tests
use cpp_rust_performance_lab.Common.{
  ℕ, ◌+◌, ◌%◌, Bool, true, false, List, [], ◌∷◌, ◌++◌, ltb, ◌==◌, if◌then◌else◌, u64_mod, length,
  get_or, set, take, drop, replicate, Option, none, some,
}
use cpp_rust_performance_lab.RawFrame.{RawFrameRecord}

pub data PushResult : Type 0 where
  queued : PushResult
  full : PushResult
  payload_too_large : PushResult

pub record Header : Type 0 where
  pub capture_index : ℕ
  pub monotonic_ns : ℕ
  pub utc_ns : ℕ
  pub connection_id : ℕ
  pub direction : ℕ
  pub kind : ℕ

pub record Slot : Type 0 where
  pub header : Header
  pub payload_size : ℕ
  pub payload : List ℕ

pub record Queue : Type 0 where
  pub slots : List Slot
  pub payload_capacity : ℕ
  pub write_index : ℕ
  pub read_index : ℕ

-- `RawFrameHeader{}`
abbrev pub no_header : Header
no_header = record {
  capture_index = 0;
  monotonic_ns = 0;
  utc_ns = 0;
  connection_id = 0;
  direction = 0;
  kind = 0;
}

abbrev pub empty_slot : ℕ → Slot
empty_slot capacity = record {
  header = no_header;
  payload_size = 0;
  payload = replicate capacity 0;
}

-- the constructor; `none` where it throws `std::invalid_argument`
unfoldable pub new : ℕ → ℕ → Option Queue
new slot_count payload_capacity =
    if ltb slot_count 2
    then none
    else if payload_capacity == 0
    then none
    else some (record {
      slots = replicate slot_count (empty_slot payload_capacity);
      payload_capacity = payload_capacity;
      write_index = 0;
      read_index = 0;
    })

-- the index after `index` in `size` slots
unfoldable pub increment : ℕ → ℕ → ℕ
increment size index = if (index + 1) % u64_mod == size then 0 else (index + 1) % u64_mod

-- `std::copy` to the front of the slot's vector
abbrev pub copy_front : List ℕ → List ℕ → List ℕ
copy_front payload old = payload ++ drop (length payload) old

abbrev pub fill : Header → List ℕ → Slot → Slot
fill header payload slot = record {
  header = header;
  payload_size = length payload;
  payload = copy_front payload slot.payload;
}

abbrev pub slot_at : ℕ → List Slot → Slot
slot_at index slots = get_or slots index (empty_slot 0)

unfoldable pub try_push : Header → List ℕ → Queue → PushResult × Queue
try_push header payload q =
    let next = increment (length q.slots) q.write_index in
    if ltb q.payload_capacity (length payload)
    then (payload_too_large, q)
    else if next == q.read_index
    then (full, q)
    else (
      queued,
      record q {
        slots = set q.slots q.write_index (fill header payload (slot_at q.write_index q.slots));
        write_index = next;
      },
    )

-- the frame that a slot holds
abbrev pub record_of : Slot → RawFrameRecord
record_of slot = record {
  capture_index = slot.header.capture_index;
  monotonic_ns = slot.header.monotonic_ns;
  connection_id = slot.header.connection_id;
  utc_ns = slot.header.utc_ns;
  direction = slot.header.direction;
  kind = slot.header.kind;
  payload = take slot.payload_size slot.payload;
}

-- `try_pop_into` a frame whose payload has a capacity
unfoldable pub try_pop_into : ℕ → RawFrameRecord → Queue → Bool × RawFrameRecord × Queue
try_pop_into capacity out q =
    let slot = slot_at q.read_index q.slots in
    if q.read_index == q.write_index
    then (false, out, q)
    else if ltb capacity slot.payload_size
    then (false, out, q)
    else (true, record_of slot, record q { read_index = increment (length q.slots) q.read_index })
