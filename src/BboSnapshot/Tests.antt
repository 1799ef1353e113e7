-- ===== src/BboSnapshot/Tests.antt =====
-- Runs of the cell of cpp/include/llab/bbo_snapshot.hpp, and where its theorem applies.
use cpp_rust_performance_lab.Common.{◌≡◌, refl, none, some, List, [], ◌∷◌, ◌++◌, arith}
use cpp_rust_performance_lab.BboSnapshot.{
  Snapshot, idle, answered, initial, publish_step, read_step, Action, write, read, run,
}
use cpp_rust_performance_lab.BboSnapshot.Reads.{read_step_lem, quiet_read_lem}

abbrev first : Snapshot
first = record { bid_price = 100; bid_quantity = 5; ask_price = 101; ask_quantity = 6 }

abbrev second : Snapshot
second = record { bid_price = 99; bid_quantity = 7; ask_price = 102; ask_quantity = 8 }

abbrev publish_first : List Action
publish_first =
    write first ∷ write first ∷ write first ∷ write first ∷ write first ∷ write first ∷ []

abbrev loads : List Action
loads = read ∷ read ∷ read ∷ read ∷ read ∷ []

-- A read with nothing between its loads succeeds.
quiet_read : (read_step (run (publish_first ++ loads) initial)).reader ≡ answered (some first)
unfolding run publish_step read_step
quiet_read = refl

-- One that a second `publish` overtakes does not.
torn_read :
    (read_step (run (publish_first ++ loads ++ write second ∷ write second ∷ []) initial)).reader
    ≡ answered none
unfolding run publish_step read_step
torn_read = refl

read_step_lem_example : first ≡ (run (publish_first ++ loads) initial).published
read_step_lem_example = read_step_lem (publish_first ++ loads) first (omega arith) quiet_read

-- No call is under way after the first `publish`.
at_rest_writer : (run publish_first initial).writer ≡ idle
unfolding run publish_step
at_rest_writer = refl

at_rest_reader : (run publish_first initial).reader ≡ answered none
unfolding run publish_step
at_rest_reader = refl

quiet_read_lem_example :
    (run (read ∷ read ∷ read ∷ read ∷ read ∷ read ∷ []) (run publish_first initial)).reader
    ≡ answered (some (run publish_first initial).published)
quiet_read_lem_example =
    quiet_read_lem publish_first none (omega arith) at_rest_writer at_rest_reader
