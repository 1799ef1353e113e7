-- ===== src/RawFrame/Tests.antt =====
-- A concrete frame of cpp/include/llab/raw_frame_record.hpp, and where the round trip holds.
use cpp_rust_performance_lab.Common.{◌≡◌, refl, none, some, [], ◌∷◌, ◌++◌, length, arith, ◌-◌, ◌^◌}
use cpp_rust_performance_lab.RawFrame.{RawFrameRecord, encode_raw_frame, decode_raw_frame, crc32c}
use cpp_rust_performance_lab.RawFrame.RoundTrip.{
  Fits, decode-encode_raw_frame, decode-encode_raw_frame_extended,
}

abbrev frame : RawFrameRecord
frame = record {
  capture_index = 7;
  monotonic_ns = 123456789;
  connection_id = 2;
  utc_ns = 2 ^ 64 - 5;
  direction = 1;
  kind = 2;
  payload = 0x7B ∷ 0x22 ∷ 0x7D ∷ [];
}

-- The check value of CRC-32C, that of the bytes "123456789".
crc32c_check : crc32c (49 ∷ 50 ∷ 51 ∷ 52 ∷ 53 ∷ 54 ∷ 55 ∷ 56 ∷ 57 ∷ []) ≡ 0xE3069283
unfolding crc32c
crc32c_check = refl

encoded_size : length (encode_raw_frame frame) ≡ 45
unfolding encode_raw_frame
encoded_size = refl

frame-Fits : Fits frame
frame-Fits = record {
  capture_index_fits = omega arith;
  monotonic_ns_fits = omega arith;
  connection_id_fits = omega arith;
  utc_ns_fits = omega arith;
  payload_fits = omega arith;
}

decode-encode_raw_frame_example : decode_raw_frame (encode_raw_frame frame) ≡ some frame
decode-encode_raw_frame_example = decode-encode_raw_frame frame frame-Fits

decode-encode_raw_frame_extended_example :
    decode_raw_frame (encode_raw_frame frame ++ 0 ∷ []) ≡ none
decode-encode_raw_frame_extended_example = decode-encode_raw_frame_extended frame 0 [] (omega arith)
