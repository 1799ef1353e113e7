-- ===== src/BitmapBook/Packing.antt =====
-- cpp/include/llab/bitmap_ladder_order_book.hpp: what `Order::make` packs into a word, `side` and
-- `offset` read back.
use cpp_rust_performance_lab.Common.{
  ℕ, zero, suc, ◌+◌, ◌*◌, ◌/◌, ◌^◌, ◌<◌, ◌≡◌, refl, ap, ◌∙◌, ◌==◌, arith, bit_or, bit_and,
  Bool-cases, inl, inr, false,
}
use native.Mathlib.Nat.{pow-suc}
use cpp_rust_performance_lab.Common.Bits.{bit_or_above, bit_and_mask}
use cpp_rust_performance_lab.Common.BitAt.{
  bit_at, bit_at-bit_and, bit_at-pow, bit_at-zero, no_bits, bit_and-le,
}
use cpp_rust_performance_lab.Book.{Side, bid, ask}
use cpp_rust_performance_lab.BitmapBook.{ask_bit, make, side_of, offset_of}

-- the bit above a number of `n` bits, absent and present
bit_above : (n w : ℕ) → w < 2 ^ n → bit_at n w ≡ 0
unfolding bit_at
bit_above zero w h = omega arith
bit_above (suc n) w h = bit_above n (w / 2) (omega (arith, pow-suc 2 n))

top_bit : (n w : ℕ) → w < 2 ^ n → bit_at n (w + 2 ^ n) ≡ 1
unfolding bit_at
top_bit zero w h = omega arith
top_bit (suc n) w h =
    let half : (w + 2 ^ suc n) / 2 ≡ w / 2 + 2 ^ n = omega (arith, pow-suc 2 n) in
    rw half (top_bit n (w / 2) (omega (arith, pow-suc 2 n)))

-- `& kAskBit`
ask_bit_absent : (w : ℕ) → w < ask_bit → bit_and w ask_bit ≡ 0
ask_bit_absent w h =
    no_bits 63 (bit_and w ask_bit) (omega (arith, bit_and-le w w ask_bit (omega arith)))
      (λ k lt. bit_at-bit_and k w ask_bit ∙ ground (arith, bit_at-pow k 63))

ask_bit_present : (w : ℕ) → w < ask_bit → (bit_and (w + ask_bit) ask_bit == 0) ≡ false
ask_bit_present w h =
    let bit : bit_at 63 (bit_and (w + ask_bit) ask_bit) ≡ 1 =
      bit_at-bit_and 63 (w + ask_bit) ask_bit ∙ ground (arith, bit_at-pow 63 63, top_bit 63 w h) in
    elim (Bool-cases (bit_and (w + ask_bit) ask_bit == 0)) [
      | inr e ↦ e
      | inl e ↦
          let z : bit_and (w + ask_bit) ask_bit ≡ 0 = ground arith in
          absurd (omega (arith, bit, bit_at-zero 63, ap (bit_at 63) z))
    ]

packed_word : (i : ℕ) → i < ask_bit → bit_or i ask_bit ≡ i + ask_bit
packed_word i h = let one : 1 * 2 ^ 63 ≡ ask_bit = refl in rw (← one) (bit_or_above 63 i 1 h)

-- An offset of fewer than 64 bits and its side come back.
pub side_of-make : (s : Side) (i q : ℕ) → i < ask_bit → side_of (make s i q) ≡ s
unfolding side_of make
side_of-make bid i q h =
    let same : bit_or i 0 ≡ i = ground (arith, bit_or_above 63 i 0 h) in
    rw (same, ask_bit_absent i h) refl
side_of-make ask i q h = rw (packed_word i h, ask_bit_present i h) refl

pub offset_of-make : (s : Side) (i q : ℕ) → i < ask_bit → offset_of (make s i q) ≡ i
unfolding offset_of make
offset_of-make bid i q h =
    let same : bit_or i 0 ≡ i = ground (arith, bit_or_above 63 i 0 h) in
    rw (same, bit_and_mask 63 i) (omega arith)
offset_of-make ask i q h = rw (packed_word i h, bit_and_mask 63 (i + ask_bit)) (omega arith)
