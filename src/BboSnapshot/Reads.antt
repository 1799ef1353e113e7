-- ===== src/BboSnapshot/Reads.antt =====
-- cpp/include/llab/bbo_snapshot.hpp: what a read returns among the steps of a writer.
use cpp_rust_performance_lab.Common.{
  ℕ, zero, suc, min, ◌/◌, ◌+◌, ◌%◌, ◌≤◌, ◌<◌, ◌≡◌, ◌≢◌, inl, inr, refl, ap, true, false, Option,
  none, some, List, [], ◌∷◌, ◌==◌, ==_iff, sym, ◌∙◌, Bool, if◌then◌else◌, length, u64_mod, bit_and,
  arith, Bool-cases,
}
use Prim.Native.Nat.{bit_and-bitwise, digits}
use cpp_rust_performance_lab.BboSnapshot.{
  Snapshot, Cell, Writer, idle, store_bid_price, store_bid_quantity, store_ask_price,
  store_ask_quantity, store_version, Reader, answered, load_bid_price, load_bid_quantity,
  load_ask_price, load_ask_quantity, load_version, State, initial, publish_in, publish_step,
  read_in, read_step, Action, write, read, run,
}

-- the members while `publish` stands at a place: before it they are the published snapshot
abbrev IsWriter : Writer → Cell → Snapshot → Type 0
IsWriter idle c s =
    (c.version % 2 ≡ 0)
    × (c.bid_price ≡ s.bid_price)
    × (c.bid_quantity ≡ s.bid_quantity)
    × (c.ask_price ≡ s.ask_price)
    × (c.ask_quantity ≡ s.ask_quantity)
IsWriter (store_bid_price t v) c s = (v % 2 ≡ 0) × (c.version ≡ v + 1)
IsWriter (store_bid_quantity t v) c s =
    (v % 2 ≡ 0) × (c.version ≡ v + 1) × (c.bid_price ≡ t.bid_price)
IsWriter (store_ask_price t v) c s =
    (v % 2 ≡ 0)
    × (c.version ≡ v + 1)
    × (c.bid_price ≡ t.bid_price)
    × (c.bid_quantity ≡ t.bid_quantity)
IsWriter (store_ask_quantity t v) c s =
    (v % 2 ≡ 0)
    × (c.version ≡ v + 1)
    × (c.bid_price ≡ t.bid_price)
    × (c.bid_quantity ≡ t.bid_quantity)
    × (c.ask_price ≡ t.ask_price)
IsWriter (store_version t v) c s =
    (v % 2 ≡ 0)
    × (c.version ≡ v + 1)
    × (c.bid_price ≡ t.bid_price)
    × (c.bid_quantity ≡ t.bid_quantity)
    × (c.ask_price ≡ t.ask_price)
    × (c.ask_quantity ≡ t.ask_quantity)

-- What a reader has loaded is of the published snapshot, as long as the version is that from which
-- it began.
abbrev IsReader : Reader → ℕ → Snapshot → Type 0
IsReader (answered result) n s = Unit {0}
IsReader (load_bid_price b) n s = (b % 2 ≡ 0) × (b ≤ n)
IsReader (load_bid_quantity b p) n s = (b % 2 ≡ 0) × (b ≤ n) × (b ≡ n → p ≡ s.bid_price)
IsReader (load_ask_price b p q) n s =
    (b % 2 ≡ 0) × (b ≤ n) × (b ≡ n → p ≡ s.bid_price) × (b ≡ n → q ≡ s.bid_quantity)
IsReader (load_ask_quantity b p q r) n s =
    (b % 2 ≡ 0)
    × (b ≤ n)
    × (b ≡ n → p ≡ s.bid_price)
    × (b ≡ n → q ≡ s.bid_quantity)
    × (b ≡ n → r ≡ s.ask_price)
IsReader (load_version b t) n s =
    (b % 2 ≡ 0)
    × (b ≤ n)
    × (b ≡ n → t.bid_price ≡ s.bid_price)
    × (b ≡ n → t.bid_quantity ≡ s.bid_quantity)
    × (b ≡ n → t.ask_price ≡ s.ask_price)
    × (b ≡ n → t.ask_quantity ≡ s.ask_quantity)

record IsState (st : State) : Type 0 where
  pub is_writer : IsWriter st.writer st.cell st.published
  pub is_reader : IsReader st.reader st.cell.version st.published

-- Once the version has moved on, or is odd, nothing is asked of what was loaded.
later : (r : Reader) (n m : ℕ) (s t : Snapshot) → IsReader r n s → n < m → IsReader r m t
later (answered result) n m s t v h = tt
later (load_bid_price b) n m s t v h = (v.0, omega (arith, v.1))
later (load_bid_quantity b p) n m s t v h =
    (v.0, omega (arith, v.1), λ e. absurd (omega (arith, v.1)))
later (load_ask_price b p q) n m s t v h =
    (v.0, omega (arith, v.1), λ e. absurd (omega (arith, v.1)), λ e. absurd (omega (arith, v.1)))
later (load_ask_quantity b p q r) n m s t v h = (
  v.0,
  omega (arith, v.1),
  λ e. absurd (omega (arith, v.1)),
  λ e. absurd (omega (arith, v.1)),
  λ e. absurd (omega (arith, v.1)),
)
later (load_version b x) n m s t v h = (
  v.0,
  omega (arith, v.1),
  λ e. absurd (omega (arith, v.1)),
  λ e. absurd (omega (arith, v.1)),
  λ e. absurd (omega (arith, v.1)),
  λ e. absurd (omega (arith, v.1)),
)

publish-IsState :
    (w : Writer) (s : Snapshot) (st : State)
    → st.writer ≡ w
    → st.cell.version + 1 < u64_mod
    → IsWriter w st.cell st.published
    → IsReader st.reader st.cell.version st.published
    → IsState (publish_in w s st) × ((publish_in w s st).cell.version ≤ st.cell.version + 1)
unfolding publish_in
publish-IsState idle s st e small v r =
    let up : (st.cell.version + 1) % u64_mod ≡ st.cell.version + 1 = omega arith in
    (
      record {
        is_writer = (v.0, up);
        is_reader =
            later st.reader st.cell.version ((st.cell.version + 1) % u64_mod) st.published
              st.published r (omega arith);
      },
      omega arith,
    )
publish-IsState (store_bid_price t n) s st e small v r =
    (record { is_writer = (v.0, v.1, refl); is_reader = r }, omega arith)
publish-IsState (store_bid_quantity t n) s st e small v r =
    (record { is_writer = (v.0, v.1, v.2, refl); is_reader = r }, omega arith)
publish-IsState (store_ask_price t n) s st e small v r =
    (record { is_writer = (v.0, v.1, v.2, v.3, refl); is_reader = r }, omega arith)
publish-IsState (store_ask_quantity t n) s st e small v r =
    (record { is_writer = (v.0, v.1, v.2, v.3, v.4, refl); is_reader = r }, omega arith)
publish-IsState (store_version t n) s st e small v r =
    let up : (n + 2) % u64_mod ≡ st.cell.version + 1 = omega (arith, v.1) in
    (
      record {
        is_writer = (omega (arith, up, v.1, v.0), v.2, v.3, v.4, v.5);
        is_reader =
            later st.reader st.cell.version ((n + 2) % u64_mod) st.published t r
              (omega (arith, up));
      },
      omega (arith, up),
    )

-- At an even version no `publish` is under way, and the members are the published snapshot.
at_rest :
    (w : Writer) (c : Cell) (s : Snapshot)
    → IsWriter w c s
    → c.version % 2 ≡ 0
    → (c.bid_price ≡ s.bid_price)
      × (c.bid_quantity ≡ s.bid_quantity)
      × (c.ask_price ≡ s.ask_price)
      × (c.ask_quantity ≡ s.ask_quantity)
at_rest idle c s v h = (v.1, v.2, v.3, v.4)
at_rest (store_bid_price t n) c s v h = absurd (omega (arith, v.0, v.1, h))
at_rest (store_bid_quantity t n) c s v h = absurd (omega (arith, v.0, v.1, h))
at_rest (store_ask_price t n) c s v h = absurd (omega (arith, v.0, v.1, h))
at_rest (store_ask_quantity t n) c s v h = absurd (omega (arith, v.0, v.1, h))
at_rest (store_version t n) c s v h = absurd (omega (arith, v.0, v.1, h))

odd_bit : (n : ℕ) → bit_and n 1 ≡ 0 → n % 2 ≡ 0
odd_bit zero h = refl
odd_bit (suc n) h = omega (arith, h, bit_and-bitwise (suc n) 1)

module _ (w : Writer) (c : Cell) (s : Snapshot) (v : IsWriter w c s) where
  loaded : (b : ℕ) → b % 2 ≡ 0 → b ≡ c.version → c.version % 2 ≡ 0
  loaded b even e = omega (arith, even, e)

  read-IsReader : (r : Reader) → IsReader r c.version s → IsReader (read_in r c) c.version s
  unfolding read_in
  read-IsReader (answered result) h = elim (Bool-cases (bit_and c.version 1 == 0)) [
    | inl e ↦ rw e (odd_bit c.version (ground arith), omega arith)
    | inr e ↦ rw e tt
  ]
  read-IsReader (load_bid_price b) h = (h.0, h.1, λ e. (at_rest w c s v (loaded b h.0 e)).0)
  read-IsReader (load_bid_quantity b p) h =
      (h.0, h.1, h.2, λ e. (at_rest w c s v (loaded b h.0 e)).1)
  read-IsReader (load_ask_price b p q) h =
      (h.0, h.1, h.2, h.3, λ e. (at_rest w c s v (loaded b h.0 e)).2)
  read-IsReader (load_ask_quantity b p q r) h =
      (h.0, h.1, h.2, h.3, h.4, λ e. (at_rest w c s v (loaded b h.0 e)).3)
  read-IsReader (load_version b t) h = elim (Bool-cases (b == c.version)) [
    | inl e ↦ rw e tt
    | inr e ↦ rw e tt
  ]

publish_step-IsState :
    (s : Snapshot) (st : State)
    → IsState st
    → st.cell.version + 1 < u64_mod
    → IsState (publish_step s st) × ((publish_step s st).cell.version ≤ st.cell.version + 1)
unfolding publish_step
publish_step-IsState s st v small =
    publish-IsState st.writer s st refl small v.is_writer v.is_reader

read_step-IsState : (st : State) → IsState st → IsState (read_step st)
unfolding read_step
read_step-IsState st v = record {
  is_writer = v.is_writer;
  is_reader = read-IsReader st.writer st.cell st.published v.is_writer st.reader v.is_reader;
}

read_step_version : (st : State) → (read_step st).cell.version ≡ st.cell.version
unfolding read_step
read_step_version st = refl

run-IsState :
    (actions : List Action) (st : State)
    → IsState st
    → st.cell.version + length actions < u64_mod
    → IsState (run actions st)
unfolding run
run-IsState [] st v small = v
run-IsState (write s ∷ actions) st v small =
    let (next, up) = publish_step-IsState s st v (omega arith) in
    run-IsState actions (publish_step s st) next (omega (arith, up))
run-IsState (read ∷ actions) st v small =
    run-IsState actions (read_step st) (read_step-IsState st v)
      (omega (arith, read_step_version st))

initial-IsState : IsState initial
initial-IsState = record { is_writer = (refl, refl, refl, refl, refl); is_reader = tt }

Snapshot-eq :
    (s t : Snapshot)
    → s.bid_price ≡ t.bid_price
    → s.bid_quantity ≡ t.bid_quantity
    → s.ask_price ≡ t.ask_price
    → s.ask_quantity ≡ t.ask_quantity
    → s ≡ t
Snapshot-eq s t a b c d =
    λ i. record { bid_price = a i; bid_quantity = b i; ask_price = c i; ask_quantity = d i }

not_begun :
    (even : Bool) (n : ℕ) (t : Snapshot)
    → (if even then load_bid_price n else answered none) ≢ answered (some t)
not_begun true n t e = cc
not_begun false n t e = cc

ended :
    (same : Bool) (x t : Snapshot)
    → (if same then answered (some x) else answered none) ≡ answered (some t)
    → x ≡ t
ended true x t e = cc
ended false x t e = absurd cc

not_ended :
    (same : Bool) (x t : Snapshot)
    → same ≡ false
    → (if same then answered (some x) else answered none) ≢ answered (some t)
not_ended same x t h e = cc

answer_lem :
    (r : Reader) (c : Cell) (s t : Snapshot)
    → IsReader r c.version s
    → read_in r c ≡ answered (some t)
    → t ≡ s
unfolding read_in
answer_lem (answered result) c s t v e = absurd (not_begun (bit_and c.version 1 == 0) c.version t e)
answer_lem (load_bid_price b) c s t v e = absurd cc
answer_lem (load_bid_quantity b p) c s t v e = absurd cc
answer_lem (load_ask_price b p q) c s t v e = absurd cc
answer_lem (load_ask_quantity b p q r) c s t v e = absurd cc
answer_lem (load_version b x) c s t v e = elim (Bool-cases (b == c.version)) [
  | inl same ↦
      let now : b ≡ c.version = (==_iff b c.version).0 same in
      let taken : x ≡ t = ended (b == c.version) x t e in
      let x-s = Snapshot-eq x s (v.2 now) (v.3 now) (v.4 now) (v.5 now) in sym taken ∙ x-s
  | inr moved ↦ absurd (not_ended (b == c.version) x t moved e)
]

-- However the steps of one writer and one reader follow each other, while fewer than 2 ^ 64 of them
-- have been taken: a read that ends with a snapshot returns the argument of the last call of
-- `publish` that has ended, or the initial zeros before the first.
pub read_step_lem :
    (actions : List Action) (t : Snapshot)
    → length actions < u64_mod
    → (read_step (run actions initial)).reader ≡ answered (some t)
    → t ≡ (run actions initial).published
unfolding read_step
read_step_lem actions t small e =
    let st = run actions initial in
    let v : IsState st = run-IsState actions initial initial-IsState (omega arith) in
    answer_lem st.reader st.cell st.published t v.is_reader e

no_one : (n a : ℕ) → digits (λ b. 0) min n a 0 ≡ 0
no_one zero a = refl
no_one (suc n) zero = refl
no_one (suc n) (suc a) = omega (arith, no_one n (suc a / 2))

even_bit : (n : ℕ) → n % 2 ≡ 0 → bit_and n 1 ≡ 0
even_bit zero h = omega (arith, bit_and-bitwise 0 1)
even_bit (suc n) h = omega (arith, bit_and-bitwise (suc n) 1, no_one n (suc n / 2))

-- The six steps of a read, one after the other.
quiet :
    (c : Cell) (s : Snapshot) (result : Option Snapshot)
    → IsWriter idle c s
    → read_in (read_in (read_in (read_in (read_in (read_in (answered result) c) c) c) c) c) c
      ≡ answered (some s)
unfolding read_in
quiet c s result v =
    let begins : (bit_and c.version 1 == 0) ≡ true =
      (==_iff (bit_and c.version 1) 0).1 (even_bit c.version v.0) in
    let same : (c.version == c.version) ≡ true = (==_iff c.version c.version).1 refl in
    let all : Snapshot = record {
      bid_price = c.bid_price;
      bid_quantity = c.bid_quantity;
      ask_price = c.ask_price;
      ask_quantity = c.ask_quantity;
    } in
    rw (begins, same) (ap (λ t. answered (some t)) (Snapshot-eq all s v.1 v.2 v.3 v.4))

quiet_run :
    (st : State) (result : Option Snapshot)
    → IsState st
    → st.writer ≡ idle
    → st.reader ≡ answered result
    → (run (read ∷ read ∷ read ∷ read ∷ read ∷ read ∷ []) st).reader ≡ answered (some st.published)
unfolding run read_step
quiet_run st result v w r =
    let at : IsWriter idle st.cell st.published =
      coe 0 1 (i. IsWriter (w i) st.cell st.published) v.is_writer in
    rw r (quiet st.cell st.published result at)

-- After fewer than 2 ^ 64 steps of one writer and one reader, with no call under way: the six steps
-- of a read, with none of the writer's between them, return the argument of the last `publish`.
pub quiet_read_lem :
    (actions : List Action) (result : Option Snapshot)
    → length actions < u64_mod
    → (run actions initial).writer ≡ idle
    → (run actions initial).reader ≡ answered result
    → (run (read ∷ read ∷ read ∷ read ∷ read ∷ read ∷ []) (run actions initial)).reader
      ≡ answered (some (run actions initial).published)
quiet_read_lem actions result small w r =
    quiet_run (run actions initial) result
      (run-IsState actions initial initial-IsState (omega arith)) w r
