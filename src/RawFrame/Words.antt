-- ===== src/RawFrame/Words.antt =====
-- cpp/include/llab/raw_frame_record.hpp: what `append_le` writes, `read_le` reads back.
use cpp_rust_performance_lab.Common.{
  ℕ, zero, suc, ◌+◌, ◌*◌, ◌/◌, ◌%◌, ◌^◌, ◌≤◌, ◌<◌, ◌≡◌, refl, sym, ap, ◌∙◌, List, [], ◌∷◌, ◌++◌,
  length, arith,
}
use cpp_rust_performance_lab.Common.Bits.{bit_or_above}
use mathlib.Core.List.{append_assoc, append-nil}
use native.Mathlib.Nat.{mul-le-mul_right}
use native.Mathlib.Numerals.{towards_suc}
use cpp_rust_performance_lab.RawFrame.{append_le, read_bytes}

-- the bytes of a value, lowest first
unfoldable pub le_bytes : ℕ → ℕ → List ℕ
le_bytes zero value = []
le_bytes (suc size) value = (value % 2 ^ 8) ∷ le_bytes size (value / 2 ^ 8)

pub append_le_lem :
    (size value : ℕ) (out : List ℕ) → append_le size value out ≡ out ++ le_bytes size value
unfolding append_le le_bytes
append_le_lem zero value out = sym (append-nil out)
append_le_lem (suc size) value out =
    append_le_lem size (value / 2 ^ 8) (out ++ (value % 2 ^ 8) ∷ [])
    ∙ append_assoc out ((value % 2 ^ 8) ∷ []) (le_bytes size (value / 2 ^ 8))

pub length-le_bytes : (size value : ℕ) → length (le_bytes size value) ≡ size
unfolding le_bytes
length-le_bytes zero value = refl
length-le_bytes (suc size) value = ap suc (length-le_bytes size (value / 2 ^ 8))

-- 2 ^ (8 * size), by bytes
abbrev pub range : ℕ → ℕ
range zero = 1
range (suc size) = range size * 2 ^ 8

pow_add_eight : (s : ℕ) → 2 ^ (s + 8) ≡ 2 ^ s * 2 ^ 8
pow_add_eight s = simp towards_suc (omega arith)

weigh : (p q b : ℕ) → (q * 256 + b) * p ≡ q * (p * 256) + b * p
weigh p q b = grind arith

below : (b p : ℕ) → b < 256 → b * p ≤ 255 * p
below b p h = mul-le-mul_right p (omega arith)

read_bytes-le_bytes :
    (size shift acc value : ℕ) (rest : List ℕ)
    → acc < 2 ^ shift
    → value < range size
    → read_bytes size shift acc (le_bytes size value ++ rest) ≡ acc + value * 2 ^ shift
unfolding read_bytes le_bytes
read_bytes-le_bytes zero shift acc value rest h k =
    let z : value ≡ 0 = omega arith in rw z (omega arith)
read_bytes-le_bytes (suc size) shift acc value rest h k =
    let p = 2 ^ shift in
    let b = value % 2 ^ 8 in
    let q = value / 2 ^ 8 in
    let whole : value ≡ q * 256 + b = omega arith in
    let split : value * p ≡ q * (p * 256) + b * p = ap (λ (t : ℕ). t * p) whole ∙ weigh p q b in
    let next : 2 ^ (shift + 8) ≡ p * 256 = pow_add_eight shift in
    let fits : acc + b * p < 2 ^ (shift + 8) = omega (arith, below b p (omega arith)) in
    let end : acc + b * p + q * 2 ^ (shift + 8) ≡ acc + value * p =
      ap (λ (t : ℕ). acc + b * p + q * t) next ∙ omega arith in
    rw (bit_or_above shift acc b h)
      (read_bytes-le_bytes size (shift + 8) (acc + b * p) q rest fits (omega arith) ∙ end)

-- Read from the front of what follows.
pub read_word :
    (size value : ℕ) (rest : List ℕ)
    → value < range size
    → read_bytes size 0 0 (le_bytes size value ++ rest) ≡ value
read_word size value rest h = read_bytes-le_bytes size 0 0 value rest (omega arith) h ∙ omega arith
