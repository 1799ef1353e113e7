-- ===== src/RawFrame/RoundTrip.antt =====
-- cpp/include/llab/raw_frame_record.hpp: `decode_raw_frame` after `encode_raw_frame_into`.
use cpp_rust_performance_lab.Common.{
  ℕ, ◌+◌, ◌-◌, ◌%◌, ◌^◌, ◌≤◌, ◌<◌, ◌≡◌, ◌≢◌, refl, sym, ap, ◌∙◌, Bool, Bool-cases, inl, inr, true,
  false, ◌||◌, none, some, List, [], ◌∷◌, ◌++◌, ltb, ◌==◌, ==_iff, length, get_or, take, drop,
  arith, length-append, take-append_lem, drop-append_lem,
}
use mathlib.Core.List.{append_assoc, append-nil}
use cpp_rust_performance_lab.RawFrame.{
  RawFrameRecord, raw_frame_header_size, raw_frame_max_payload, u32_mod, crc32c, append_le,
  read_bytes, read_le, encode_header, encode_raw_frame, decode_raw_frame,
}
use cpp_rust_performance_lab.RawFrame.Words.{le_bytes, append_le_lem, length-le_bytes, read_word}

-- What the types of the C++ members hold, and the payload the encoder accepts.
pub record Fits (r : RawFrameRecord) : Type 0 where
  pub capture_index_fits : r.capture_index < 2 ^ 64
  pub monotonic_ns_fits : r.monotonic_ns < 2 ^ 64
  pub connection_id_fits : r.connection_id < 2 ^ 64
  pub utc_ns_fits : r.utc_ns < 2 ^ 64
  pub payload_fits : length r.payload ≤ raw_frame_max_payload

-- The header's fields in order, before what follows them.
module _ (r : RawFrameRecord) (rest : List ℕ) where
  unfoldable from_direction : List ℕ
  from_direction = r.direction ∷ r.kind ∷ le_bytes 4 (length r.payload % u32_mod) ++ rest

  unfoldable from_connection_id : List ℕ
  from_connection_id = le_bytes 8 r.connection_id ++ from_direction

  unfoldable from_utc_ns : List ℕ
  from_utc_ns = le_bytes 8 r.utc_ns ++ from_connection_id

  unfoldable from_monotonic_ns : List ℕ
  from_monotonic_ns = le_bytes 8 r.monotonic_ns ++ from_utc_ns

  unfoldable header : List ℕ
  header = le_bytes 8 r.capture_index ++ from_monotonic_ns

encode_header_lem : (r : RawFrameRecord) (rest : List ℕ) → encode_header r ++ rest ≡ header r rest
unfolding header from_monotonic_ns from_utc_ns from_connection_id from_direction encode_header
    append_le le_bytes
encode_header_lem r rest = refl

length-encode_header : (r : RawFrameRecord) → length (encode_header r) ≡ 38
unfolding encode_header append_le
length-encode_header r = refl

crc32c_fits : (bytes : List ℕ) → crc32c bytes < 2 ^ 32
unfolding crc32c
crc32c_fits bytes = omega arith

-- What `decode_raw_frame` reads of the header, whatever follows it.
module _ (r : RawFrameRecord) (rest : List ℕ) where
  read-capture_index : r.capture_index < 2 ^ 64 → read_le 8 (header r rest) 0 ≡ r.capture_index
  unfolding header read_le
  read-capture_index h = read_word 8 r.capture_index (from_monotonic_ns r rest) h

  read-monotonic_ns : r.monotonic_ns < 2 ^ 64 → read_le 8 (header r rest) 8 ≡ r.monotonic_ns
  unfolding header from_monotonic_ns from_utc_ns from_connection_id from_direction read_le le_bytes
  read-monotonic_ns h = read_word 8 r.monotonic_ns (from_utc_ns r rest) h

  read-utc_ns : r.utc_ns < 2 ^ 64 → read_le 8 (header r rest) 16 ≡ r.utc_ns
  unfolding header from_monotonic_ns from_utc_ns from_connection_id from_direction read_le le_bytes
  read-utc_ns h = read_word 8 r.utc_ns (from_connection_id r rest) h

  read-connection_id : r.connection_id < 2 ^ 64 → read_le 8 (header r rest) 24 ≡ r.connection_id
  unfolding header from_monotonic_ns from_utc_ns from_connection_id from_direction read_le le_bytes
  read-connection_id h = read_word 8 r.connection_id (from_direction r rest) h

  read-payload_length :
      length r.payload ≤ raw_frame_max_payload → read_le 4 (header r rest) 34 ≡ length r.payload
  unfolding header from_monotonic_ns from_utc_ns from_connection_id from_direction read_le le_bytes
  read-payload_length h = read_word 4 (length r.payload % u32_mod) rest (omega arith) ∙ omega arith

  drop-header : drop 38 (header r rest) ≡ rest
  unfolding header from_monotonic_ns from_utc_ns from_connection_id from_direction le_bytes
  drop-header = refl

  direction-header : get_or (header r rest) 32 0 ≡ r.direction
  unfolding header from_monotonic_ns from_utc_ns from_connection_id from_direction le_bytes
  direction-header = refl

  kind-header : get_or (header r rest) 33 0 ≡ r.kind
  unfolding header from_monotonic_ns from_utc_ns from_connection_id from_direction le_bytes
  kind-header = refl

  length-header : length (header r rest) ≡ 38 + length rest
  unfolding header from_monotonic_ns from_utc_ns from_connection_id from_direction le_bytes
  length-header = omega arith

ltb_ge : (a b : ℕ) → b ≤ a → ltb a b ≡ false
ltb_ge a b h = ground arith

-- `decode_raw_frame` where its three tests succeed.
decode_raw_frame_passes :
    (bytes : List ℕ) (n : ℕ)
    → read_le 4 bytes 34 ≡ n
    → n ≤ raw_frame_max_payload
    → length bytes ≡ 38 + n + 4
    → crc32c (take (length bytes - 4) bytes) ≡ read_le 4 bytes (length bytes - 4)
    → decode_raw_frame bytes
      ≡ some (record {
        capture_index = read_le 8 bytes 0;
        monotonic_ns = read_le 8 bytes 8;
        connection_id = read_le 8 bytes 24;
        utc_ns = read_le 8 bytes 16;
        direction = get_or bytes 32 0;
        kind = get_or bytes 33 0;
        payload = take n (drop raw_frame_header_size bytes);
      })
unfolding decode_raw_frame
decode_raw_frame_passes bytes n e h k c =
    let long : ltb (length bytes) (raw_frame_header_size + 4) ≡ false =
      ltb_ge (length bytes) (raw_frame_header_size + 4) (omega arith) in
    let short : ltb raw_frame_max_payload n ≡ false = ltb_ge raw_frame_max_payload n h in
    let fit : (length bytes == raw_frame_header_size + n + 4) ≡ true =
      (==_iff (length bytes) (raw_frame_header_size + n + 4)).1 k in
    let sealed =
      (==_iff (crc32c (take (length bytes - 4) bytes)) (read_le 4 bytes (length bytes - 4))).1 c in
    rw (e, long, short, fit, sealed) refl

-- the sealed frame: a body and its checksum
unfoldable body : RawFrameRecord → List ℕ
body r = encode_header r ++ r.payload

encode_raw_frame_lem :
    (r : RawFrameRecord) → encode_raw_frame r ≡ body r ++ le_bytes 4 (crc32c (body r))
unfolding encode_raw_frame body
encode_raw_frame_lem r = append_le_lem 4 (crc32c (body r)) (body r)

length-body : (r : RawFrameRecord) → length (body r) ≡ 38 + length r.payload
unfolding body
length-body r =
    length-append (encode_header r) r.payload
    ∙ ap (λ (t : ℕ). t + length r.payload) (length-encode_header r)

body-header : (r : RawFrameRecord) (rest : List ℕ) → body r ++ rest ≡ header r (r.payload ++ rest)
unfolding body
body-header r rest =
    append_assoc (encode_header r) r.payload rest ∙ encode_header_lem r (r.payload ++ rest)

-- The frame as a header, the payload and the checksum.
frame-header :
    (r : RawFrameRecord) → encode_raw_frame r ≡ header r (r.payload ++ le_bytes 4 (crc32c (body r)))
frame-header r = encode_raw_frame_lem r ∙ body-header r (le_bytes 4 (crc32c (body r)))

length-encode_raw_frame :
    (r : RawFrameRecord) → length (encode_raw_frame r) ≡ 38 + length r.payload + 4
length-encode_raw_frame r =
    let crc = le_bytes 4 (crc32c (body r)) in
    let sum = length-append (body r) crc in
    rw (encode_raw_frame_lem r)
      (omega (arith, sum, length-body r, length-le_bytes 4 (crc32c (body r))))

checksum_agrees :
    (r : RawFrameRecord)
    → let bytes = encode_raw_frame r in
      crc32c (take (length bytes - 4) bytes) ≡ read_le 4 bytes (length bytes - 4)
unfolding read_le
checksum_agrees r =
    let crc = crc32c (body r) in
    let at : length (encode_raw_frame r) - 4 ≡ length (body r) =
      omega (arith, length-encode_raw_frame r, length-body r) in
    let word = read_word 4 crc [] (crc32c_fits (body r)) in
    let front = take-append_lem (body r) (le_bytes 4 crc) in
    let back = drop-append_lem (body r) (le_bytes 4 crc) in
    rw (at, encode_raw_frame_lem r, front, back)
      (sym word ∙ ap (read_bytes 4 0 0) (append-nil (le_bytes 4 crc)))

-- What the encoder wrote, the decoder reads, and it accepts it.
pub decode-encode_raw_frame :
    (r : RawFrameRecord) → Fits r → decode_raw_frame (encode_raw_frame r) ≡ some r
decode-encode_raw_frame r fits =
    let rest = r.payload ++ le_bytes 4 (crc32c (body r)) in
    let e = frame-header r in
    let n : read_le 4 (encode_raw_frame r) 34 ≡ length r.payload =
      rw e (read-payload_length r rest fits.payload_fits) in
    let passes =
      decode_raw_frame_passes (encode_raw_frame r) (length r.payload) n fits.payload_fits
        (length-encode_raw_frame r) (checksum_agrees r) in
    let tail = take-append_lem r.payload (le_bytes 4 (crc32c (body r))) in
    passes
    ∙ rw
        (
          e,
          read-capture_index r rest fits.capture_index_fits,
          read-monotonic_ns r rest fits.monotonic_ns_fits,
          read-utc_ns r rest fits.utc_ns_fits,
          read-connection_id r rest fits.connection_id_fits,
          direction-header r rest,
          kind-header r rest,
          drop-header r rest,
          tail,
        )
        refl

or_true : (b : Bool) → b || true ≡ true
or_true true = refl
or_true false = refl

-- `decode_raw_frame` where the length is not the one the header gives.
decode_raw_frame_refuses :
    (bytes : List ℕ) (n : ℕ)
    → read_le 4 bytes 34 ≡ n
    → length bytes ≢ 38 + n + 4
    → decode_raw_frame bytes ≡ none
unfolding decode_raw_frame
decode_raw_frame_refuses bytes n e h =
    let unfit : (length bytes == raw_frame_header_size + n + 4) ≡ false = ground arith in
    elim (Bool-cases (ltb (length bytes) (raw_frame_header_size + 4))) [
      | inl t ↦ rw t refl
      | inr t ↦ rw (t, e, unfit, or_true (ltb raw_frame_max_payload n)) refl
    ]

-- Nothing that follows a frame is skipped: with more bytes behind it, it is refused.
pub decode-encode_raw_frame_extended :
    (r : RawFrameRecord) (byte : ℕ) (more : List ℕ)
    → length r.payload ≤ raw_frame_max_payload
    → decode_raw_frame (encode_raw_frame r ++ byte ∷ more) ≡ none
decode-encode_raw_frame_extended r byte more h =
    let rest = r.payload ++ le_bytes 4 (crc32c (body r)) in
    let e : encode_raw_frame r ++ byte ∷ more ≡ header r (rest ++ byte ∷ more) =
      ap (λ t. t ++ byte ∷ more) (encode_raw_frame_lem r)
      ∙ append_assoc (body r) (le_bytes 4 (crc32c (body r))) (byte ∷ more)
      ∙ body-header r (le_bytes 4 (crc32c (body r)) ++ byte ∷ more)
      ∙ ap (header r) (sym (append_assoc r.payload (le_bytes 4 (crc32c (body r))) (byte ∷ more))) in
    decode_raw_frame_refuses (encode_raw_frame r ++ byte ∷ more) (length r.payload)
      (rw e (read-payload_length r (rest ++ byte ∷ more) h))
      (λ l.
        omega
          (arith, l, length-append (encode_raw_frame r) (byte ∷ more), length-encode_raw_frame r))
