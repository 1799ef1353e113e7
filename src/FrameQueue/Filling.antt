-- ===== src/FrameQueue/Filling.antt =====
-- cpp/include/llab/raw_frame_queue.hpp: the constructor, and how many frames its queue takes.
use cpp_rust_performance_lab.Common.{
  ℕ, zero, suc, ◌+◌, ◌≤◌, ◌<◌, ◌≡◌, inl, inr, refl, sym, ap, ◌∙◌, Option, some, none, ◌⊎◌, List, [],
  ◌∷◌, ◌++◌, ltb, ◌==◌, u64_mod, length, get_or, replicate, length-append, length-set,
  length-replicate, Bool-cases, ==_iff, arith,
}
use mathlib.Core.List.{append-nil, append_assoc}
use cpp_rust_performance_lab.RawFrame.{RawFrameRecord}
use cpp_rust_performance_lab.FrameQueue.{
  PushResult, queued, full, payload_too_large, Header, Slot, Queue, new, empty_slot, slot_at,
  increment, fill, try_push,
}
use cpp_rust_performance_lab.FrameQueue.Fifo.{
  IsValid, contents, contents_empty, contents_less, frame_of, Pushed, try_push_lem,
}

get_or-replicate_lt : (n i : ℕ) (a d : Slot) → i < n → get_or (replicate n a) i d ≡ a
get_or-replicate_lt zero i a d h = absurd (omega arith)
get_or-replicate_lt (suc n) zero a d h = refl
get_or-replicate_lt (suc n) (suc i) a d h = get_or-replicate_lt n i a d (omega arith)

abbrev pub fresh : ℕ → ℕ → Queue
fresh slot_count payload_capacity = record {
  slots = replicate slot_count (empty_slot payload_capacity);
  payload_capacity = payload_capacity;
  write_index = 0;
  read_index = 0;
}

pub fresh-IsValid :
    (slot_count payload_capacity : ℕ)
    → slot_count < u64_mod
    → 2 ≤ slot_count
    → IsValid (fresh slot_count payload_capacity)
fresh-IsValid n c small two =
    let slot = empty_slot c in
    let size : length (replicate n slot) ≡ n = length-replicate n slot in
    record {
      write_lt = omega (arith, size);
      read_lt = omega (arith, size);
      addressable = omega (arith, size);
      each_slot = λ i hi.
          rw (get_or-replicate_lt n i slot (empty_slot 0) (omega (arith, size, hi)))
            (record { sized = length-replicate c 0; stored = omega arith });
    }

-- what goes on after a push
abbrev go_on : (Queue → Option Queue) → PushResult → Queue → Option Queue
go_on next queued q = next q
go_on next full q = none
go_on next payload_too_large q = none

-- A producer that pushes frame after frame; `none` where the queue does not take one.
unfoldable pub push_all : List (Header × List ℕ) → Queue → Option Queue
push_all [] q = some q
push_all (f ∷ rest) q = go_on (λ q'. push_all rest q') (try_push f.0 f.1 q).0 (try_push f.0 f.1 q).1

abbrev pub frames : List (Header × List ℕ) → List RawFrameRecord
frames [] = []
frames (f ∷ rest) = frame_of f.0 f.1 ∷ frames rest

-- The payloads are within a capacity.
abbrev pub Fit : ℕ → List (Header × List ℕ) → Type 0
Fit capacity [] = Unit
Fit capacity (f ∷ rest) = (length f.1 ≤ capacity) × Fit capacity rest

-- What pushing frames that fit ends in: all are taken, in their order, where the queue has a slot
-- more than it then holds frames, and otherwise one is not.
abbrev pub Filled : Queue → List (Header × List ℕ) → Option Queue → Type 0
Filled q fs none = length q.slots ≤ length (contents q) + length fs
Filled q fs (some q') =
    (length (contents q) + length fs < length q.slots)
    × IsValid q'
    × (contents q' ≡ contents q ++ frames fs)

try_push-sizes :
    (header : Header) (payload : List ℕ) (q : Queue)
    → let q' = (try_push header payload q).1 in
      (length q'.slots ≡ length q.slots) × (q'.payload_capacity ≡ q.payload_capacity)
unfolding try_push
try_push-sizes header payload q =
    let slot = fill header payload (slot_at q.write_index q.slots) in
    elim (Bool-cases (ltb q.payload_capacity (length payload))) [
      | inl large ↦ rw large (refl, refl)
      | inr fits ↦ elim (Bool-cases (increment (length q.slots) q.write_index == q.read_index)) [
        | inl e ↦ rw (fits, e) (refl, refl)
        | inr ne ↦ rw (fits, ne) (length-set q.slots q.write_index slot, refl)
      ]
    ]

-- After a frame that is taken, the rest.
rest-Filled :
    (f : Header × List ℕ) (rest : List (Header × List ℕ)) (q q' : Queue) (out : Option Queue)
    → contents q' ≡ contents q ++ frame_of f.0 f.1 ∷ []
    → length q'.slots ≡ length q.slots
    → Filled q' rest out
    → Filled q (f ∷ rest) out
rest-Filled f rest q q' none joined size filled =
    omega
      (arith, filled, size, ap length joined, length-append (contents q) (frame_of f.0 f.1 ∷ []))
rest-Filled f rest q q' (some u) joined size (room, valid, held) = (
  omega (arith, room, size, ap length joined, length-append (contents q) (frame_of f.0 f.1 ∷ [])),
  valid,
  held
      ∙ ap (λ (t : List RawFrameRecord). t ++ frames rest) joined
      ∙ append_assoc (contents q) (frame_of f.0 f.1 ∷ []) (frames rest),
)

go_on-Filled :
    (f : Header × List ℕ) (rest : List (Header × List ℕ)) (q : Queue) (next : Queue → Option Queue)
    (result : PushResult) (q' : Queue)
    → length f.1 ≤ q.payload_capacity
    → Pushed f.0 f.1 q result q'
    → length q'.slots ≡ length q.slots
    → Filled q' rest (next q')
    → Filled q (f ∷ rest) (go_on next result q')
go_on-Filled f rest q next queued q' fits pushed size filled =
    rest-Filled f rest q q' (next q') pushed.2 size filled
go_on-Filled f rest q next full q' fits pushed size filled = omega (arith, pushed.1)
go_on-Filled f rest q next payload_too_large q' fits pushed size filled =
    absurd (omega (arith, pushed.0))

push_all_lem :
    (fs : List (Header × List ℕ)) (q : Queue)
    → IsValid q
    → Fit q.payload_capacity fs
    → Filled q fs (push_all fs q)
unfolding push_all
push_all_lem [] q v fit = (omega (arith, contents_less q v), v, sym (append-nil (contents q)))
push_all_lem (f ∷ rest) q v fit =
    let step = try_push_lem f.0 f.1 q v in
    let sizes = try_push-sizes f.0 f.1 q in
    let q' = (try_push f.0 f.1 q).1 in
    go_on-Filled f rest q (λ u. push_all rest u) (try_push f.0 f.1 q).0 q' fit.0 step.1 sizes.0
      (push_all_lem rest q' step.0 (rw sizes.1 fit.1))

-- What the constructor promises.
abbrev pub Made : ℕ → ℕ → Option Queue → Type 0
Made slot_count payload_capacity none = (slot_count < 2) ⊎ (payload_capacity ≡ 0)
Made slot_count payload_capacity (some q) =
    (2 ≤ slot_count)
    × (0 < payload_capacity)
    × IsValid q
    × (contents q ≡ [])
    × (length q.slots ≡ slot_count)
    × (q.payload_capacity ≡ payload_capacity)
    × ((fs : List (Header × List ℕ)) → Fit payload_capacity fs → Filled q fs (push_all fs q))

-- The constructor throws exactly where there are fewer than two slots or no payload fits. The queue
-- that it makes has that many slots and that payload capacity, is consistent and empty, and takes
-- frames whose payloads are within the capacity, one after the other, exactly up to one less than it
-- has slots; it then holds them in their order.
pub new_lem :
    (slot_count payload_capacity : ℕ)
    → slot_count < u64_mod
    → Made slot_count payload_capacity (new slot_count payload_capacity)
unfolding new
new_lem n c small = elim (Bool-cases (ltb n 2)) [
  | inl few ↦ rw few (inl (ground arith))
  | inr enough ↦ elim (Bool-cases (c == 0)) [
    | inl z ↦ rw (enough, z) (inr ((==_iff c 0).0 z))
    | inr positive ↦
        let valid = fresh-IsValid n c small (ground arith) in
        rw (enough, positive)
          (
            ground arith,
            ground arith,
            valid,
            contents_empty (fresh n c) valid refl,
            length-replicate n (empty_slot c),
            refl,
            λ fs fit. push_all_lem fs (fresh n c) valid fit,
          )
  ]
]
