-- ===== src/ProbeTable/Update.antt =====
-- cpp/src/parity_order_book.cpp: writing an order or a tombstone to a slot of a consistent index.
use cpp_rust_performance_lab.Common.{
  ℕ, ◌≡◌, ◌≢◌, ◌⊎◌, inl, inr, refl, sym, ap, ◌∙◌, false, Option, none, some, List, ◌==◌, ==_iff,
  if◌then◌else◌, length-set, set, get_elem?, get_elem?-set_self, get_elem?-set_ne, arith,
}
use native.Mathlib.Decide.{ℕ_discrete}
use cpp_rust_performance_lab.ProbeTable.{Slot, own, see, home, find_slot}
use cpp_rust_performance_lab.ProbeTable.Trail.{Trail-set, Reach, vacant_in}
use cpp_rust_performance_lab.ProbeTable.Search.{at}
use cpp_rust_performance_lab.ProbeTable.Place.{IsProbe, IsPlace, lookup, find_slot-cases}

module _ {ℓ} {A : Type ℓ} where
  -- where the identifier is, the index holds its order
  pub lookup_own :
      (slots : List (Slot A)) (id i : ℕ) (s : Slot A)
      → IsProbe slots
      → at slots id i ≡ own
      → get_elem? slots i ≡ some s
      → lookup id slots ≡ some s.order
  lookup_own slots id i s v o g = elim (find_slot-cases slots id v) [
    | inl (e, absent, l) ↦ absurd (absent i o)
    | inr (h, found, place, t, f, l) ↦
        let same : i ≡ find_slot id slots = place.only i o in
        let eq : some t ≡ some s = sym f ∙ ap (get_elem? slots) (sym same) ∙ g in
        l ∙ ap (λ (x : Option (Slot A)). elim x [ none ↦ none | some y ↦ some y.order ]) eq
  ]

  pub lookup_absent :
      (slots : List (Slot A)) (id : ℕ)
      → IsProbe slots
      → ((j : ℕ) → at slots id j ≢ own)
      → lookup id slots ≡ none
  lookup_absent slots id v absent = elim (find_slot-cases slots id v) [
    | inl (e, _, l) ↦ l
    | inr (h, found, p, s, g, l) ↦ absurd (absent (find_slot id slots) found)
  ]

  home-set :
      (slots : List (Slot A)) (id i : ℕ) (s : Slot A) → home id (set slots i s) ≡ home id slots
  unfolding home
  home-set slots id i s = rw (length-set slots i s) refl

  -- A slot `s` of `id`, or of nothing, is written at a place of `id`.
  module _ (slots : List (Slot A)) (id i : ℕ) (s : Slot A) (v : IsProbe slots)
      (place : IsPlace slots id i) (filled : vacant_in s.state ≡ false)
      (mine : (j : ℕ) → see j (some s) ≡ own → j ≡ id) where
    at_self : (j : ℕ) → at (set slots i s) j i ≡ see j (some s)
    at_self j = ap (see j) (get_elem?-set_self slots i s place.lt)

    at_ne : (j k : ℕ) → i ≢ k → at (set slots i s) j k ≡ at slots j k
    at_ne j k ne = ap (see j) (get_elem?-set_ne slots i k s ne)

    Reach-set : (j k : ℕ) → Reach slots j k → Reach (set slots i s) j k
    Reach-set j k (n, h, p) = (
      n,
      rw (length-set slots i s) h,
      rw (home-set slots j i s) (Trail-set slots i s n (home j slots) k filled p),
    )

    -- where the identifiers are after the write
    own-set :
        (j k : ℕ)
        → at (set slots i s) j k ≡ own
        → ((j ≡ id) × (k ≡ i)) ⊎ ((k ≢ i) × (at slots j k ≡ own))
    own-set j k o = elim (ℕ_discrete i k) [
      | yes e ↦ inl (mine j (sym (at_self j) ∙ ap (at (set slots i s) j) e ∙ o), sym e)
      | no ne ↦ inr ((λ e. ne (sym e)), sym (at_ne j k ne) ∙ o)
    ]

    -- What is written to an identifier's place is not anywhere else.
    own-place : (j k : ℕ) → k ≢ i → at slots j k ≡ own → j ≢ id
    own-place j k ne o e = ne (place.only k (ap (λ (t : ℕ). at slots t k) (sym e) ∙ o))

    pub set-IsProbe : IsProbe (set slots i s)
    set-IsProbe = record {
      sized = record {
        power = v.sized.power;
        power_le = v.sized.power_le;
        size = length-set slots i s ∙ v.sized.size;
      };
      reach = λ j k o. elim (own-set j k o) [
        | inl (e, f) ↦ Reach-set j k (rw (e, f) place.reached)
        | inr (ne, old) ↦ Reach-set j k (v.reach j k old)
      ];
      unique = λ j k l o q. one j k l (own-set j k o) (own-set j l q);
    }
      where
        one :
            (j k l : ℕ)
            → ((j ≡ id) × (k ≡ i)) ⊎ ((k ≢ i) × (at slots j k ≡ own))
            → ((j ≡ id) × (l ≡ i)) ⊎ ((l ≢ i) × (at slots j l ≡ own))
            → k ≡ l
        one j k l (inl (e, f)) (inl (e', f')) = f ∙ sym f'
        one j k l (inl (e, f)) (inr (ne, o)) = absurd (own-place j l ne o e)
        one j k l (inr (ne, o)) (inl (e, f)) = absurd (own-place j k ne o e)
        one j k l (inr (ne, o)) (inr (ne', o')) = v.unique j k l o o'

    lookup_others : (j : ℕ) → j ≢ id → lookup j (set slots i s) ≡ lookup j slots
    lookup_others j ne = elim (find_slot-cases slots j v) [
      | inl (e, absent, l) ↦
          lookup_absent (set slots i s) j set-IsProbe
            (λ k o. elim (own-set j k o) [ inl (e, f) ↦ ne e | inr (apart, old) ↦ absent k old ])
          ∙ sym l
      | inr (h, found, p, t, g, l) ↦
          let far : i ≢ find_slot j slots = λ e. place.apart j ne (ap (at slots j) e ∙ found) in
          lookup_own (set slots i s) j (find_slot j slots) t set-IsProbe
            (at_ne j (find_slot j slots) far ∙ found)
            (get_elem?-set_ne slots i (find_slot j slots) s far ∙ g)
          ∙ sym l
    ]

    -- An occupied slot holds its order for its identifier.
    pub lookup-set_occupied :
        (j : ℕ)
        → see id (some s) ≡ own
        → lookup j (set slots i s) ≡ (if j == id then some s.order else lookup j slots)
    lookup-set_occupied j o = elim (ℕ_discrete j id) [
      | yes e ↦
          rw (e, (==_iff id id).1 refl)
            (lookup_own (set slots i s) id i s set-IsProbe (at_self id ∙ o)
              (get_elem?-set_self slots i s place.lt))
      | no ne ↦ rw (lookup_others j ne) (ground arith)
    ]

    -- A tombstone takes its identifier away.
    pub lookup-set_tombstone :
        (j : ℕ)
        → see id (some s) ≢ own
        → lookup j (set slots i s) ≡ (if j == id then none else lookup j slots)
    lookup-set_tombstone j no_own = elim (ℕ_discrete j id) [
      | yes e ↦
          rw (e, (==_iff id id).1 refl)
            (lookup_absent (set slots i s) id set-IsProbe (λ k o. elim (own-set id k o) [
              | inl (_, f) ↦ no_own (sym (at_self id) ∙ ap (at (set slots i s) id) (sym f) ∙ o)
              | inr (apart, old) ↦ own-place id k apart old refl
            ]))
      | no ne ↦ rw (lookup_others j ne) (ground arith)
    ]
