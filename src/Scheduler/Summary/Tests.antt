-- ===== src/Scheduler/Summary/Tests.antt =====
-- Processes that completed out of order, for `main` of LabWork/Lab7/scheduler.c.
use cs.Common.{ℕ, ◌≡◌, refl, true, List, [], ◌∷◌, map, String, codes}
use mathlib.Core.List.{Perm}
use cs.Scheduler.{Pcb, empty_pcb, terminated, unmade, basic, rr}
use cs.Scheduler.Summary.{
  entry, sweep, pass, passes, completion_order, finished, all_terminated, algorithm_for,
}
use cs.Scheduler.Summary.Order.{Sorted, completion_order_lem}

abbrev completed : String → ℕ → Pcb
completed name time = record empty_pcb {
  name = codes name;
  state = terminated;
  completion_time = time;
}

abbrev three : List Pcb
three = completed "c" 3000000 ∷ completed "a" 1200000 ∷ completed "b" 1900000 ∷ []

completion_order_lem_example :
    Perm (map entry three) (completion_order three) × Sorted (completion_order three)
completion_order_lem_example = completion_order_lem three

-- Within a second the order of the table stays.
order_of_three : completion_order three ≡ (1, codes "a") ∷ (1, codes "b") ∷ (3, codes "c") ∷ []
unfolding completion_order passes pass sweep entry
order_of_three = refl

all_done :
    finished (record { current_quantum = 9; current_process = 0; pcbs = three; main_ctx = unmade })
    ≡ true
unfolding finished all_terminated
all_done = refl

-- The names are compared with their case.
capitals : algorithm_for "RR" ≡ basic
unfolding algorithm_for
capitals = refl

small_letters : algorithm_for "rr" ≡ rr
unfolding algorithm_for
small_letters = refl
