-- ===== src/RawFrame.antt =====
-- The record of one captured frame: cpp/include/llab/raw_frame_record.hpp. A byte is a number below
-- 256, and `utc_ns`, an `std::int64_t`, stands as its 64-bit pattern, the form in which it is
-- written and read.
pub mod Words
pub mod RoundTrip
mod Tests
use cpp_rust_performance_lab.Common.{
  ℕ, zero, suc, ◌+◌, ◌-◌, ◌*◌, ◌/◌, ◌%◌, ◌^◌, bit_and, bit_or, bit_xor, Bool, not, ◌||◌, Option,
  none, some, List, [], ◌∷◌, ◌++◌, ltb, ◌==◌, if◌then◌else◌, length, get_or, take, drop,
}

-- `FrameDirection` and `FrameKind` are bytes: `static_cast` from a byte read is not checked
-- against the enumerators.
pub record RawFrameRecord : Type 0 where
  pub capture_index : ℕ
  pub monotonic_ns : ℕ
  pub connection_id : ℕ
  pub utc_ns : ℕ
  pub direction : ℕ
  pub kind : ℕ
  pub payload : List ℕ

abbrev pub raw_frame_header_size : ℕ
raw_frame_header_size = 38

abbrev pub raw_frame_max_payload : ℕ
raw_frame_max_payload = 2 ^ 20

abbrev pub u32_mod : ℕ
u32_mod = 2 ^ 32

-- one round of the inner loop; `-(value & 1U)` is 0 or all ones
unfoldable pub crc_bit : ℕ → ℕ
crc_bit value = bit_xor (value / 2) (bit_and 0x82F63B78 ((u32_mod - bit_and value 1) % u32_mod))

unfoldable pub crc_bits : ℕ → ℕ → ℕ
unfolding crc_bit
crc_bits zero value = value
crc_bits (suc rounds) value = crc_bits rounds (crc_bit value)

unfoldable pub crc_bytes : ℕ → List ℕ → ℕ
unfolding crc_bits
crc_bytes value [] = value
crc_bytes value (byte ∷ bytes) = crc_bytes (crc_bits 8 (bit_xor value byte)) bytes

-- `~value` of a 32-bit word
unfoldable pub crc32c : List ℕ → ℕ
unfolding crc_bytes
crc32c bytes = u32_mod - 1 - crc_bytes (u32_mod - 1) bytes

-- `append_le` of a value of `size` bytes; `value >> (i * 8)` loses a byte a round
unfoldable pub append_le : ℕ → ℕ → List ℕ → List ℕ
append_le zero value out = out
append_le (suc size) value out = append_le size (value / 2 ^ 8) (out ++ (value % 2 ^ 8) ∷ [])

-- the loop of `read_le` over the bytes from the offset on, at bit `shift`
unfoldable pub read_bytes : ℕ → ℕ → ℕ → List ℕ → ℕ
read_bytes zero shift value bytes = value
read_bytes (suc size) shift value [] = value
read_bytes (suc size) shift value (byte ∷ bytes) =
    read_bytes size (shift + 8) (bit_or value (byte * 2 ^ shift)) bytes

-- `read_le` of a value of `size` bytes; its callers have checked the length
unfoldable pub read_le : ℕ → List ℕ → ℕ → ℕ
unfolding read_bytes
read_le size bytes offset = read_bytes size 0 0 (drop offset bytes)

unfoldable pub encode_header : RawFrameRecord → List ℕ
unfolding append_le
encode_header r =
    let out = append_le 8 r.capture_index [] in
    let out = append_le 8 r.monotonic_ns out in
    let out = append_le 8 r.utc_ns out in
    let out = append_le 8 r.connection_id out in
    append_le 4 (length r.payload % u32_mod) ((out ++ r.direction ∷ []) ++ r.kind ∷ [])

-- `encode_raw_frame_into` an emptied vector
unfoldable pub encode_raw_frame : RawFrameRecord → List ℕ
unfolding encode_header crc32c append_le
encode_raw_frame r = let out = encode_header r ++ r.payload in append_le 4 (crc32c out) out

unfoldable pub decode_raw_frame : List ℕ → Option RawFrameRecord
unfolding read_le crc32c
decode_raw_frame bytes =
    let size = length bytes in
    let payload_length = read_le 4 bytes 34 in
    if ltb size (raw_frame_header_size + 4)
    then none
    else if ltb raw_frame_max_payload payload_length
        || not (size == raw_frame_header_size + payload_length + 4)
        || not (crc32c (take (size - 4) bytes) == read_le 4 bytes (size - 4))
    then none
    else some (record {
      capture_index = read_le 8 bytes 0;
      monotonic_ns = read_le 8 bytes 8;
      connection_id = read_le 8 bytes 24;
      utc_ns = read_le 8 bytes 16;
      direction = get_or bytes 32 0;
      kind = get_or bytes 33 0;
      payload = take payload_length (drop raw_frame_header_size bytes);
    })
