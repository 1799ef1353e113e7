-- ===== src/FrameQueue/Tests.antt =====
-- Runs of the queue of cpp/include/llab/raw_frame_queue.hpp, and where its theorems apply.
use cpp_rust_performance_lab.Common.{ℕ, ◌≡◌, refl, List, [], ◌∷◌, arith}
use cpp_rust_performance_lab.RawFrame.{RawFrameRecord}
use cpp_rust_performance_lab.FrameQueue.{
  full, Queue, new, increment, no_header, try_push, try_pop_into,
}
use cpp_rust_performance_lab.FrameQueue.Fifo.{
  IsValid, Pushed, Popped, frame_of, try_push_lem, try_pop_into_lem,
}
use cpp_rust_performance_lab.FrameQueue.Filling.{Made, fresh, fresh-IsValid, new_lem}

abbrev empty : Queue
empty = fresh 2 2

abbrev out : RawFrameRecord
out = frame_of no_header []

abbrev payload : List ℕ
payload = 7 ∷ 8 ∷ []

empty-IsValid : IsValid empty
empty-IsValid = fresh-IsValid 2 2 (omega arith) (omega arith)

-- One slot of the two stays free.
fills : (try_push no_header payload (try_push no_header payload empty).1).0 ≡ full
unfolding try_push increment
fills = refl

comes_back :
    (try_pop_into 2 out (try_push no_header payload empty).1).1 ≡ frame_of no_header payload
unfolding try_push try_pop_into increment
comes_back = refl

after_push : IsValid (try_push no_header payload empty).1
after_push = (try_push_lem no_header payload empty empty-IsValid).0

try_push_lem_example :
    IsValid (try_push no_header payload empty).1
    × Pushed no_header payload empty
        (try_push no_header payload empty).0
        (try_push no_header payload empty).1
try_push_lem_example = try_push_lem no_header payload empty empty-IsValid

try_pop_into_lem_example :
    let q = (try_push no_header payload empty).1 in
    IsValid (try_pop_into 2 out q).2
    × Popped 2 out q (try_pop_into 2 out q).0 (try_pop_into 2 out q).1 (try_pop_into 2 out q).2
try_pop_into_lem_example = try_pop_into_lem 2 out (try_push no_header payload empty).1 after_push

new_lem_example : Made 4 16 (new 4 16)
new_lem_example = new_lem 4 16 (omega arith)
