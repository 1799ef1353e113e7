-- ===== src/FixedIndex/Moves.antt =====
-- cpp/include/llab/fixed_order_index.hpp: the rounds of the loop of `erase_at`, which move an entry
-- into the hole or pass it, and the loop.
use cpp_rust_performance_lab.Common.{
  ℕ, suc, ◌≤◌, ◌<◌, ◌≡◌, ◌≢◌, ◌↔◌, inl, inr, refl, sym, ap, ◌∙◌, true, false, Option, none, some,
  List, ◌==◌, if◌then◌else◌, length, length-set, set, get_elem?, arith, Bool-cases, Option-cases,
  ℕ_discrete,
}
use cpp_rust_performance_lab.ProbeTable.Trail.{step, step_lt, gap, gap_lt, gap_self}
use cpp_rust_performance_lab.FixedIndex.{Slot, home, entry, entry_at, entries}
use cpp_rust_performance_lab.FixedIndex.Ring.{gap-next, gap_injective}
use cpp_rust_performance_lab.FixedIndex.Search.{entry_lt}
use cpp_rust_performance_lab.FixedIndex.Shift.{
  IsHole, Besides, held, entry_at-set, entries-set, next_ne, hole_filled, free_beyond,
}

module _ {V : Type 0} (slots : List (Slot V)) (hole next : ℕ) (h : IsHole slots hole next) (w : ℕ)
    (x : V) (here : entry_at slots next ≡ some (w, x)) where
  abbrev n : ℕ
  n = length slots

  pub further : gap n hole (step n next) ≡ suc (gap n hole next)
  further =
      let beyond = free_beyond slots hole next h w x here in
      let bound = gap_lt n hole h.free.0 h.hole_lt h.free.1 in
      gap-next n hole next h.hole_lt h.next_lt (omega (arith, beyond, bound))

  -- An entry whose way does not pass the hole stays.
  pub stay : gap n (home w n) next < gap n (home w n) hole → IsHole slots hole (step n next)
  stay short = record {
    power = h.power;
    hole_lt = h.hole_lt;
    next_lt = step_lt n next h.next_lt;
    behind = omega (arith, further);
    filled = λ j lj near. elim (ℕ_discrete (gap n hole j) (gap n hole next)) [
      | yes same ↦
          let at = gap_injective n hole j next h.hole_lt lj h.next_lt same in
          λ gone.
            (let both : ◌≡◌ {A = Option (ℕ × V)} none (some (w, x)) =
                sym gone ∙ ap (entry_at slots) at ∙ here in
              absurd cc)
      | no ne ↦ h.filled j lj (omega (arith, further))
    ];
    reach = h.reach;
    clear = λ i id v ne e near. elim (ℕ_discrete (gap n hole i) (gap n hole next)) [
      | no apart ↦ h.clear i id v ne e (omega (arith, further))
      | yes same ↦
          let at = gap_injective n hole i next h.hole_lt (entry_lt slots i id v e) h.next_lt same in
          let both : ◌≡◌ {A = Option (ℕ × V)} (some (id, v)) (some (w, x)) =
            sym e ∙ ap (entry_at slots) at ∙ here in
          let id_is : id ≡ w = cc in rw (id_is, at) (omega (arith, short))
    ];
    unique = h.unique;
    nonzero = h.nonzero;
    free = h.free;
  }

  -- Any other moves into the hole, and its slot is the new hole.
  module _ (s : Slot V) (slot : get_elem? slots next ≡ some s)
      (long : gap n (home w n) hole ≤ gap n (home w n) next) where
    abbrev pub moved : List (Slot V)
    moved = set slots hole s

    pub size : length moved ≡ n
    size = length-set slots hole s

    pub moved_at :
        (j : ℕ) → entry_at moved j ≡ (if j == hole then some (w, x) else entry_at slots j)
    moved_at j =
        let same : entry (some s) ≡ some (w, x) = sym (ap entry slot) ∙ here in
        rw (← same) (entry_at-set slots hole j s h.hole_lt)

    -- where an entry of the new slots was
    abbrev origin : ℕ → ℕ
    origin i = if i == hole then next else i

    from_origin : (i : ℕ) → entry_at moved i ≡ entry_at slots (origin i)
    from_origin i = elim (Bool-cases (i == hole)) [
      | inl e ↦ moved_at i ∙ rw e (sym here)
      | inr e ↦ moved_at i ∙ rw e refl
    ]

    origin_ne : (i : ℕ) → origin i ≢ hole
    origin_ne i = elim (Bool-cases (i == hole)) [
      | inl e ↦ rw e (next_ne slots hole next h)
      | inr e ↦ rw e (λ q. ground arith)
    ]

    filled_both : (j : ℕ) → entry_at slots j ≢ none → entry_at moved j ≢ none
    filled_both j full gone = elim (Bool-cases (j == hole)) [
      | inl e ↦
          (let both : ◌≡◌ {A = Option (ℕ × V)} (some (w, x)) none =
              rw e at (sym (moved_at j) ∙ gone) in
            absurd cc)
      | inr e ↦ full (rw e at (sym (moved_at j) ∙ gone))
    ]

    -- An entry is no further from its home than it was.
    nearer :
        (i id : ℕ) (v : V)
        → entry_at moved i ≡ some (id, v)
        → gap n (home id n) i ≤ gap n (home id n) (origin i)
    nearer i id v e = elim (Bool-cases (i == hole)) [
      | inr other ↦ rw other (omega arith)
      | inl same ↦
          (let at : i ≡ hole = ground arith in
            let both : ◌≡◌ {A = Option (ℕ × V)} (some (id, v)) (some (w, x)) =
              sym e ∙ rw same at (moved_at i) in
            let id_is : id ≡ w = cc in rw (same, at, id_is) long)
    ]

    pub move : IsHole moved next (step n next)
    move =
        let ahead : gap n next (step n next) ≡ 1 =
          (let first = gap_lt n hole next h.hole_lt h.next_lt in
            gap-next n next next h.next_lt h.next_lt (omega (arith, gap_self n next, h.behind))
            ∙ ap suc (gap_self n next)) in
        record {
          power = rw size h.power;
          hole_lt = rw size h.next_lt;
          next_lt = rw size (step_lt n next h.next_lt);
          behind = rw size (omega (arith, ahead));
          filled = λ j lj near.
              (let lj' : j < n = rw size at lj in
                let near' : gap n next j < gap n next (step n next) = rw size at near in
                let at =
                  gap_injective n next j next h.next_lt lj' h.next_lt
                    (omega (arith, near', ahead, gap_self n next)) in
                filled_both j (λ gone.
                  (let both : ◌≡◌ {A = Option (ℕ × V)} none (some (w, x)) =
                      sym gone ∙ ap (entry_at slots) at ∙ here in
                    absurd cc)));
          reach = λ i id v ne e j lj closer.
              (let lj' : j < n = rw size at lj in
                let closer' : gap n (home id n) j < gap n (home id n) i = rw size at closer in
                let le = nearer i id v e in
                filled_both j (
                  h.reach (origin i) id v (origin_ne i) (sym (from_origin i) ∙ e) j lj'
                    (omega (arith, closer', le))));
          clear = λ i id v ne e near.
              (let near' : gap n next i < gap n next (step n next) = rw size at near in
                let li : i < n = rw size at (entry_lt moved i id v e) in
                absurd (
                  ne (
                    gap_injective n next i next h.next_lt li h.next_lt
                      (omega (arith, near', ahead, gap_self n next)))));
          unique = λ i j id v y ni nj e g.
              (let same =
                  h.unique (origin i) (origin j) id v y (origin_ne i) (origin_ne j)
                    (sym (from_origin i) ∙ e) (sym (from_origin j) ∙ g) in
                ground (arith, same));
          nonzero =
              λ i id v ne e. h.nonzero (origin i) id v (origin_ne i) (sym (from_origin i) ∙ e);
          free = (
            h.free.0,
            rw size h.free.1,
            (let other : (h.free.0 == hole) ≡ false = elim (Bool-cases (h.free.0 == hole)) [
              | inr e ↦ e
              | inl e ↦ absurd (
                  hole_filled slots hole next h (
                    let at : h.free.0 ≡ hole = ground arith in
                    ap (entry_at slots) (sym at) ∙ h.free.2))
            ] in
                moved_at h.free.0 ∙ rw other h.free.2),
          );
        }

    -- What the slots hold besides the hole is the same, as often.
    pub moved-Besides : (id : ℕ) (v : V) → Besides slots hole id v ↔ Besides moved next id v
    moved-Besides id v = (
      λ b. elim (ℕ_discrete (b.0) next) [
        | yes same ↦
            let at : hole ≢ next = λ q. next_ne slots hole next h (sym q) in
            let self : (hole == hole) ≡ true = ground arith in
            (hole, at, moved_at hole ∙ rw self (sym here ∙ ap (entry_at slots) (sym same) ∙ b.2))
        | no apart ↦
            let other : (b.0 == hole) ≡ false = elim (Bool-cases (b.0 == hole)) [
              | inr e ↦ e
              | inl e ↦ absurd (b.1 (ground arith))
            ] in
            (b.0, apart, moved_at b.0 ∙ rw other b.2)
      ],
      λ b. (origin b.0, origin_ne b.0, sym (from_origin b.0) ∙ b.2),
    )

    pub moved-count : length (entries moved) ≡ length (entries slots)
    moved-count = elim (Option-cases (entry_at slots hole)) [
      | inl e ↦ absurd (hole_filled slots hole next h e)
      | inr (y, e) ↦
          (let same : entry (some s) ≡ some (w, x) = sym (ap entry slot) ∙ here in
            let was : held (entry_at slots hole) ≡ 1 = ap held e in
            let is : held (entry (some s)) ≡ 1 = ap held same in
            omega (arith, entries-set slots hole s h.hole_lt, was, is))
    ]
