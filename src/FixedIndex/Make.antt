-- ===== src/FixedIndex/Make.antt =====
-- cpp/include/llab/fixed_order_index.hpp: the constructor, a write through the pointer that `find`
-- returns, and the totals of `probe_summary`.
use cpp_rust_performance_lab.Common.{
  ℕ, zero, suc, ◌*◌, ◌^◌, ◌≤◌, ◌<◌, ◌≡◌, ◌≢◌, inl, inr, refl, sym, ap, ◌∙◌, false, Option, none,
  some, [], length, length-replicate, replicate, arith, u64_max,
}
use native.Mathlib.Nat.{one-le-pow}
use cpp_rust_performance_lab.ParityBook.{Made, made, thrown, endless}
use cpp_rust_performance_lab.ParityBook.Sizing.{table_capacity-Outcome, too_many, stuck, fitting}
use cpp_rust_performance_lab.FixedIndex.{Slot, FixedIndex, entry_at, find_slot, find, entries, new}
use cpp_rust_performance_lab.FixedIndex.Search.{IsIndex, find_slot-cases}
use cpp_rust_performance_lab.FixedIndex.View.{IsTable, find_absent}

module _ {V : Type 0} (v : V) where
  abbrev blank : Slot V
  blank = record { id = 0; value = v; occupied = false }

  abbrev pub blanks : ℕ → ℕ → FixedIndex V
  blanks n maximum = record { slots = replicate n blank; maximum_live_entries = maximum; size = 0 }

  vacant : (n i : ℕ) → entry_at (replicate n blank) i ≡ none
  vacant zero i = refl
  vacant (suc n) zero = refl
  vacant (suc n) (suc i) = vacant n i

  no_entries : (n : ℕ) → entries (replicate n blank) ≡ []
  unfolding entries
  no_entries zero = refl
  no_entries (suc n) = no_entries n

  none_at : (n i id : ℕ) (w : V) → entry_at (replicate n blank) i ≢ some (id, w)
  none_at n i id w e =
      (let both : ◌≡◌ {A = Option (ℕ × V)} none (some (id, w)) = sym (vacant n i) ∙ e in absurd cc)

  blanks-IsIndex : (p : ℕ) → p ≤ 63 → IsIndex (replicate (2 ^ p) blank)
  blanks-IsIndex p high =
      let size = length-replicate (2 ^ p) blank in
      let pos : 1 ≤ 2 ^ p = one-le-pow p 2 (omega arith) in
      record {
        power = record { power = p; power_le = high; size = size };
        reach = λ i id w e. absurd (none_at (2 ^ p) i id w e);
        unique = λ i j id w x e. absurd (none_at (2 ^ p) i id w e);
        nonzero = λ i id w e. absurd (none_at (2 ^ p) i id w e);
        free = (0, omega (arith, size), vacant (2 ^ p) 0);
      }

  -- What the constructor promises: for up to 2 ^ 62 entries a consistent index in which `find` finds
  -- nothing; more do not fit, by an exception where twice as many pass 64 bits, and otherwise by a
  -- loop that does not end.
  abbrev pub Fitted : ℕ → Made (FixedIndex V) → Type 0
  Fitted n (made t) =
      (n ≤ 2 ^ 62) × IsTable t × (t.maximum_live_entries ≡ n) × ((id : ℕ) → find id t ≡ none)
  Fitted n thrown = u64_max < n * 2
  Fitted n endless = (2 ^ 62 < n) × (n * 2 ≤ u64_max)

  pub blanks-Fitted :
      (p n : ℕ)
      → p ≤ 63
      → n ≤ 2 ^ 62
      → 8 ≤ 2 ^ p
      → n * 2 ≤ 2 ^ p
      → Fitted n (made (blanks (2 ^ p) n))
  blanks-Fitted p n high fits eight reach =
      let size = length-replicate (2 ^ p) blank in
      let index = blanks-IsIndex p high in
      (
        fits,
        record {
          index = index;
          counted = sym (ap length (no_entries (2 ^ p)));
          size_le = omega arith;
          roomy = omega (arith, size);
          eight_le = omega (arith, size);
        },
        refl,
        λ id. elim (find_slot-cases (replicate (2 ^ p) blank) id index) [
          | inl (missed, absent) ↦ find_absent (blanks (2 ^ p) n) index id missed
          | inr (lt, w, e) ↦
              absurd (none_at (2 ^ p) (find_slot id (replicate (2 ^ p) blank)) id w e)
        ],
      )

  -- The constructor for `n` entries, with fuel for 61 rounds or more of the loop of
  -- `fixed_order_index_capacity`, makes up to 2 ^ 62 a consistent index with that maximum in which
  -- `find` finds nothing. It throws when twice `n` passes 64 bits, and otherwise its loop does not
  -- end.
  pub index_new_lem : (fuel n : ℕ) → 61 ≤ fuel → n ≤ u64_max → Fitted n (new v fuel n)
  index_new_lem fuel n enough small = elim (table_capacity-Outcome fuel n enough small) [
    | too_many over size ↦
        let stop : new v fuel n ≡ thrown = unfold new in rw (new, size) refl in rw stop over
    | stuck big fits size ↦
        let stop : new v fuel n ≡ endless = unfold new in rw (new, size) refl in rw stop (big, fits)
    | fitting p fits high size eight reach ↦
        let stop : new v fuel n ≡ made (blanks (2 ^ p) n) = unfold new in rw (new, size) refl in
        rw stop (blanks-Fitted p n high fits eight reach)
  ]
