-- ===== src/Scheduler/Machine/Tests.antt =====
-- A run of LabWork/Lab7/scheduler.c with one process.
use cs.Common.{refl, [], ◌∷◌}
use cs.Scheduler.{
  Sched, empty_pcb, unmade, basic, choose, first_waiting, park, arrive, arrivals, handle_arrivals,
  context_switch, switch_to, interrupt_handler, running, saved, fresh,
}
use cs.Scheduler.Machine.{begin, Reachable, loaded, step, interrupted, begins}
use cs.Scheduler.Machine.OneRunning.{OneRunning, Reachable-OneRunning}

abbrev at_start : Sched
at_start = record {
  current_quantum = 0;
  current_process = 0;
  pcbs = record empty_pcb { workload = 2 } ∷ [];
  main_ctx = unmade;
}

abbrev first_run : Sched
first_run = record {
  current_quantum = 1;
  current_process = 0;
  pcbs = record empty_pcb { workload = 2; state = running; arrival_time = 5; context = fresh } ∷ [];
  main_ctx = saved;
}

first_run-Reachable : Reachable basic first_run
unfolding interrupt_handler choose first_waiting park arrive arrivals handle_arrivals context_switch
    switch_to
first_run-Reachable =
    step at_start first_run (loaded at_start (refl, tt)) (interrupted [] (λ i. 5) first_run refl)

Reachable-OneRunning_example : OneRunning (begin 7 first_run)
Reachable-OneRunning_example =
    Reachable-OneRunning basic (begin 7 first_run)
      (step first_run (begin 7 first_run) first_run-Reachable (begins 7))
