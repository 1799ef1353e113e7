-- ===== src/Book/Digest.antt =====
-- The 64-bit FNV-1a digest that every book computes of its state, and the mixer of identifiers.
use cpp_rust_performance_lab.Common.{
  ℕ, zero, suc, ◌+◌, ◌*◌, ◌/◌, ◌%◌, ◌^◌, bit_xor, List, [], ◌∷◌, ltb, if◌then◌else◌, u64_mod,
  length,
}
use cpp_rust_performance_lab.Book.{Side, bid, ask}
use cpp_rust_performance_lab.Book.Ladder.{Level}

abbrev pub fnv_offset_basis : ℕ
fnv_offset_basis = 14695981039346656037

abbrev pub fnv_prime : ℕ
fnv_prime = 1099511628211

unfoldable pub hash_byte : ℕ → ℕ → ℕ
hash_byte hash byte = (bit_xor hash byte * fnv_prime) % u64_mod

-- the rounds left of `hash_u64`; `value >> shift` loses a byte a round
unfoldable pub hash_bytes : ℕ → ℕ → ℕ → ℕ
unfolding hash_byte
hash_bytes zero hash value = hash
hash_bytes (suc rounds) hash value =
    hash_bytes rounds (hash_byte hash (value % 2 ^ 8)) (value / 2 ^ 8)

unfoldable pub hash_u64 : ℕ → ℕ → ℕ
unfolding hash_bytes
hash_u64 hash value = hash_bytes 8 hash value

-- the loop over the levels of one side
unfoldable pub hash_levels : ℕ → List Level → ℕ
unfolding hash_u64
hash_levels hash [] = hash
hash_levels hash (l ∷ ls) = hash_levels (hash_u64 (hash_u64 hash l.price_ticks) l.quantity) ls

unfoldable pub hash_side : ℕ → List Level → ℕ
unfolding hash_levels
hash_side hash ls = hash_levels (hash_u64 hash (length ls)) ls

-- `static_cast<std::uint8_t>(side)`
abbrev pub side_byte : Side → ℕ
side_byte bid = 0
side_byte ask = 1

-- `mix_order_id`
unfoldable pub mix_order_id : ℕ → ℕ
mix_order_id value =
    let a = (value + 0x9E3779B97F4A7C15) % u64_mod in
    let b = (bit_xor a (a / 2 ^ 30) * 0xBF58476D1CE4E5B9) % u64_mod in
    let c = (bit_xor b (b / 2 ^ 27) * 0x94D049BB133111EB) % u64_mod in bit_xor c (c / 2 ^ 31)

-- `std::sort` of identifiers
unfoldable pub insert_id : ℕ → List ℕ → List ℕ
insert_id id [] = id ∷ []
insert_id id (j ∷ r) = if ltb j id then j ∷ insert_id id r else id ∷ j ∷ r

unfoldable pub sort_ids : List ℕ → List ℕ
unfolding insert_id
sort_ids [] = []
sort_ids (id ∷ r) = insert_id id (sort_ids r)
