-- ===== src/FrameQueue/Fifo.antt =====
-- cpp/include/llab/raw_frame_queue.hpp: the queue is a bounded first-in first-out sequence.
use cpp_rust_performance_lab.Common.{
  ℕ, zero, suc, ◌+◌, ◌≤◌, ◌<◌, ◌≡◌, ◌≢◌, inl, inr, refl, sym, ap, ◌∙◌, Bool, true, false, List, [],
  ◌∷◌, ◌++◌, ltb, ◌==◌, u64_mod, length, set, take, drop, length-append, length-set,
  get_or-set_self, get_or-set_ne, take-append_lem, length-take_lem, Bool-cases, ==_iff, arith,
}
use native.Mathlib.Decide.{ℕ_discrete}
use cpp_rust_performance_lab.RawFrame.{RawFrameRecord}
use cpp_rust_performance_lab.FrameQueue.{
  PushResult, queued, full, payload_too_large, Header, Slot, Queue, increment, fill, slot_at,
  record_of, empty_slot, try_push, try_pop_into,
}
use cpp_rust_performance_lab.FrameQueue.Slots.{
  distance, distance_lt, increment_lt, distance_step, distance_further, distance_self,
  distance_full, distance_room, held, held-set, held-snoc,
}

-- what the queue holds, the oldest frame first
unfoldable pub contents : Queue → List RawFrameRecord
contents q = held (distance (length q.slots) q.read_index q.write_index) q.read_index q.slots

-- A slot's vector has its fixed size, and what is stored in it fits.
pub record IsSlot (capacity : ℕ) (slot : Slot) : Type 0 where
  pub sized : length slot.payload ≡ capacity
  pub stored : slot.payload_size ≤ capacity

pub record IsValid (q : Queue) : Type 0 where
  pub write_lt : q.write_index < length q.slots
  pub read_lt : q.read_index < length q.slots
  pub addressable : length q.slots < u64_mod
  pub each_slot : (i : ℕ) → i < length q.slots → IsSlot q.payload_capacity (slot_at i q.slots)

-- the frame that the producer passes
abbrev pub frame_of : Header → List ℕ → RawFrameRecord
frame_of header payload = record {
  capture_index = header.capture_index;
  monotonic_ns = header.monotonic_ns;
  connection_id = header.connection_id;
  utc_ns = header.utc_ns;
  direction = header.direction;
  kind = header.kind;
  payload = payload;
}

fill_lem :
    (header : Header) (payload : List ℕ) (slot : Slot)
    → record_of (fill header payload slot) ≡ frame_of header payload
fill_lem header payload slot =
    rw (take-append_lem payload (drop (length payload) slot.payload)) refl

length-drop_lem : (n : ℕ) (xs : List ℕ) → n ≤ length xs → n + length (drop n xs) ≡ length xs
length-drop_lem zero xs h = omega arith
length-drop_lem (suc n) [] h = absurd (omega arith)
length-drop_lem (suc n) (x ∷ xs) h = omega (arith, length-drop_lem n xs (omega arith))

fill-IsSlot :
    (capacity : ℕ) (header : Header) (payload : List ℕ) (slot : Slot)
    → length payload ≤ capacity
    → IsSlot capacity slot
    → IsSlot capacity (fill header payload slot)
fill-IsSlot capacity header payload slot h v = record {
  sized =
      length-append payload (drop (length payload) slot.payload)
      ∙ length-drop_lem (length payload) slot.payload (omega (arith, v.sized))
      ∙ v.sized;
  stored = h;
}

length-held : (n i : ℕ) (slots : List Slot) → length (held n i slots) ≡ n
unfolding held
length-held zero i slots = refl
length-held (suc n) i slots = ap suc (length-held n (increment (length slots) i) slots)

-- the queue after a push that succeeds
abbrev pushed : Header → List ℕ → Queue → Queue
pushed header payload q = record q {
  slots = set q.slots q.write_index (fill header payload (slot_at q.write_index q.slots));
  write_index = increment (length q.slots) q.write_index;
}

module _ (header : Header) (payload : List ℕ) (q : Queue) (v : IsValid q) where
  contents-pushed :
      increment (length q.slots) q.write_index ≢ q.read_index
      → contents (pushed header payload q) ≡ contents q ++ frame_of header payload ∷ []
  unfolding contents
  contents-pushed room =
      let w = q.write_index in
      let r = q.read_index in
      let slot = fill header payload (slot_at w q.slots) in
      let slots = set q.slots w slot in
      let n = distance (length q.slots) r w in
      let same : length slots ≡ length q.slots = length-set q.slots w slot in
      let further : distance (length slots) r (increment (length q.slots) w) ≡ suc n =
        rw same (distance_further (length q.slots) r w v.read_lt v.write_lt v.addressable room) in
      let last : held (suc n) r slots ≡ held n r slots ++ record_of (slot_at w slots) ∷ [] =
        held-snoc n r w slots (rw same v.read_lt) (rw same v.write_lt) (rw same v.addressable)
          (rw same refl) in
      let kept : held n r slots ≡ held n r q.slots =
        held-set n r w slot q.slots v.read_lt v.write_lt v.addressable (omega arith) in
      let written : slot_at w slots ≡ slot =
        get_or-set_self q.slots w slot (empty_slot 0) v.write_lt in
      ap (λ t. held t r slots) further
      ∙ last
      ∙ ap (λ t. t ++ record_of (slot_at w slots) ∷ []) kept
      ∙ ap (λ t. held n r q.slots ++ t ∷ [])
          (ap record_of written ∙ fill_lem header payload (slot_at w q.slots))

  pushed-IsValid : length payload ≤ q.payload_capacity → IsValid (pushed header payload q)
  pushed-IsValid h =
      let slot = fill header payload (slot_at q.write_index q.slots) in
      let same = length-set q.slots q.write_index slot in
      record {
        write_lt = rw same (increment_lt (length q.slots) q.write_index v.write_lt);
        read_lt = rw same v.read_lt;
        addressable = rw same v.addressable;
        each_slot = λ i hi. elim (ℕ_discrete q.write_index i) [
          | yes e ↦
              rw (sym e, get_or-set_self q.slots q.write_index slot (empty_slot 0) v.write_lt)
                (fill-IsSlot q.payload_capacity header payload (slot_at q.write_index q.slots) h
                  (v.each_slot q.write_index v.write_lt))
          | no ne ↦
              rw (get_or-set_ne q.slots q.write_index i slot (empty_slot 0) ne)
                (v.each_slot i (omega (arith, same, hi)))
        ];
      }

-- What a push promises: `payload_too_large` where the payload passes the capacity; else `full` where
-- the queue holds one frame less than it has slots; else `queued`, with the frame last.
abbrev pub Pushed : Header → List ℕ → Queue → PushResult → Queue → Type 0
Pushed header payload q payload_too_large q' = (q.payload_capacity < length payload) × (q' ≡ q)
Pushed header payload q full q' =
    (length payload ≤ q.payload_capacity) × (length (contents q) + 1 ≡ length q.slots) × (q' ≡ q)
Pushed header payload q queued q' =
    (length payload ≤ q.payload_capacity)
    × (length (contents q) + 1 < length q.slots)
    × (contents q' ≡ contents q ++ frame_of header payload ∷ [])

length-contents :
    (q : Queue) → length (contents q) ≡ distance (length q.slots) q.read_index q.write_index
unfolding contents
length-contents q =
    length-held (distance (length q.slots) q.read_index q.write_index) q.read_index q.slots

-- One slot is always free.
pub contents_less : (q : Queue) → IsValid q → length (contents q) < length q.slots
contents_less q v = omega (
  arith,
  length-contents q,
  distance_lt (length q.slots) q.read_index q.write_index v.read_lt v.write_lt,
)

-- `try_push` on a consistent queue keeps it so and does what a bounded sequence promises: a payload
-- past the capacity is refused, a queue that holds one frame less than it has slots is full, and
-- otherwise the frame joins as the last.
pub try_push_lem :
    (header : Header) (payload : List ℕ) (q : Queue)
    → IsValid q
    → let (result, q') = try_push header payload q in IsValid q' × Pushed header payload q result q'
unfolding try_push
try_push_lem header payload q v = elim (Bool-cases (ltb q.payload_capacity (length payload))) [
  | inl large ↦ rw large (v, (ground arith, refl))
  | inr fits ↦
      let h : length payload ≤ q.payload_capacity = ground arith in
      elim (Bool-cases (increment (length q.slots) q.write_index == q.read_index)) [
        | inl e ↦
            rw (fits, e)
              (
                v,
                (
                  h,
                  omega (
                    arith,
                    length-contents q,
                    distance_full (length q.slots) q.read_index q.write_index v.read_lt v.write_lt
                        v.addressable
                        ((==_iff (increment (length q.slots) q.write_index) q.read_index).0 e),
                  ),
                  refl,
                ),
              )
        | inr ne ↦
            let room : increment (length q.slots) q.write_index ≢ q.read_index =
              λ e. ground arith in
            rw (fits, ne)
              (
                pushed-IsValid header payload q v h,
                (
                  h,
                  omega (
                    arith,
                    length-contents q,
                    distance_room (length q.slots) q.read_index q.write_index v.read_lt v.write_lt
                        v.addressable room,
                  ),
                  contents-pushed header payload q v room,
                ),
              )
      ]
]

-- What a pop promises: true with the oldest frame taken, whose payload is within the capacity; false
-- with nothing changed where the queue is empty or its oldest frame passes the capacity.
abbrev pub Popped : ℕ → RawFrameRecord → Queue → Bool → RawFrameRecord → Queue → Type 0
Popped capacity out q true out' q' =
    (contents q ≡ out' ∷ contents q') × (length out'.payload ≤ capacity)
Popped capacity out q false out' q' =
    (out' ≡ out)
    × (q' ≡ q)
    × ((x : RawFrameRecord) (xs : List RawFrameRecord)
        → contents q ≡ x ∷ xs
        → capacity < length x.payload)

abbrev popped : Queue → Queue
popped q = record q { read_index = increment (length q.slots) q.read_index }

module _ (q : Queue) (v : IsValid q) where
  contents-popped :
      q.read_index ≢ q.write_index
      → contents q ≡ record_of (slot_at q.read_index q.slots) ∷ contents (popped q)
  unfolding contents held
  contents-popped some_held =
      ap (λ t. held t q.read_index q.slots)
        (distance_step (length q.slots) q.read_index q.write_index v.read_lt v.write_lt
          v.addressable some_held)

  pub contents_empty : q.read_index ≡ q.write_index → contents q ≡ []
  unfolding contents held
  contents_empty e = rw (e, distance_self (length q.slots) q.write_index) refl

  popped-IsValid : IsValid (popped q)
  popped-IsValid = record {
    write_lt = v.write_lt;
    read_lt = increment_lt (length q.slots) q.read_index v.read_lt;
    addressable = v.addressable;
    each_slot = v.each_slot;
  }

  first_length :
      let slot = slot_at q.read_index q.slots in
      length (take slot.payload_size slot.payload) ≡ slot.payload_size
  first_length =
      let slot = slot_at q.read_index q.slots in
      let fits = v.each_slot q.read_index v.read_lt in
      length-take_lem slot.payload_size slot.payload (omega (arith, fits.sized, fits.stored))

abbrev first_size : List RawFrameRecord → ℕ
first_size [] = 0
first_size (x ∷ xs) = length x.payload

empty_cons : (x : RawFrameRecord) (xs : List RawFrameRecord) → [] ≢ x ∷ xs
empty_cons x xs e = cc

-- `try_pop_into` on a consistent queue keeps it so. It returns true exactly where the queue holds a
-- frame and the oldest fits the capacity of the frame passed; then it stores the oldest there and
-- takes it from the queue. Otherwise nothing changes.
pub try_pop_into_lem :
    (capacity : ℕ) (out : RawFrameRecord) (q : Queue)
    → IsValid q
    → let (ok, out', q') = try_pop_into capacity out q in
      IsValid q' × Popped capacity out q ok out' q'
unfolding try_pop_into
try_pop_into_lem capacity out q v = elim (Bool-cases (q.read_index == q.write_index)) [
  | inl e ↦
      let empty = contents_empty q v ((==_iff q.read_index q.write_index).0 e) in
      rw e (v, (refl, refl, λ x xs c. absurd (empty_cons x xs (sym empty ∙ c))))
  | inr ne ↦
      let some_held : q.read_index ≢ q.write_index = λ e. ground arith in
      let first = contents-popped q v some_held in
      elim (Bool-cases (ltb capacity (slot_at q.read_index q.slots).payload_size)) [
        | inl large ↦
            rw (ne, large)
              (
                v,
                (
                  refl,
                  refl,
                  λ x xs c.
                      let same = ap first_size (sym first ∙ c) in
                      let longer : capacity < (slot_at q.read_index q.slots).payload_size =
                        ground arith in
                      omega (arith, first_length q v, same, longer),
                ),
              )
        | inr fits ↦
            rw (ne, fits)
              (
                popped-IsValid q v,
                (
                  first,
                  (let fit : (slot_at q.read_index q.slots).payload_size ≤ capacity =
                        ground arith in
                      omega (arith, first_length q v, fit)),
                ),
              )
      ]
]
