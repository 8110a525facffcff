-- ===== src/Scheduler/Tests.antt =====
-- Tables of processes, and what the scheduler of LabWork/Lab7/scheduler.c does with them.
use cs.Common.{ℕ, ◌≤◌, ◌≡◌, refl, some, [], ◌∷◌, arith}
use cs.Scheduler.{
  ProcessState, waiting, running, terminated, fresh, Pcb, Sched, empty_pcb, pcb_at, switch, basic,
  fifo, sjf, psjf, sctf, rr, priority_first, insanity, first_waiting, scan, rr_choice,
  insanity_choice, choose, context_switch, interrupt_handler, returned, undefined, loops, park,
}
use cs.Scheduler.Choose.{Promise, choose-Promise}
use cs.Scheduler.Resume.{Resumed, context_switch_lem}
use cs.Scheduler.Ready.{waits}
use cs.Scheduler.Idle.{Revives, idle_outcomes}
use cs.Scheduler.Preempt.{Runs, never_preempts, sjf_preempts}

abbrev process_with : ℕ → ProcessState → ℕ → ℕ → Pcb
process_with pid state workload executed_work = record empty_pcb {
  pid = pid;
  state = state;
  context = fresh;
  workload = workload;
  executed_work = executed_work;
  priority = workload;
}

-- A long process runs and a short one waits.
abbrev two : Sched
two = record {
  current_quantum = 3;
  current_process = 0;
  pcbs = process_with 0 running 9 2 ∷ process_with 1 waiting 4 0 ∷ [];
  main_ctx = fresh;
}

abbrev done : Sched
done = record {
  current_quantum = 3;
  current_process = 0;
  pcbs = process_with 0 terminated 9 9 ∷ [];
  main_ctx = fresh;
}

abbrev no_time : ℕ → ℕ
no_time i = 0

choose-Promise_example : Promise sjf [] two (choose sjf [] two)
choose-Promise_example = choose-Promise sjf [] two

context_switch_lem_example : (s' : Sched) × (context_switch 1 two ≡ some s') × Resumed 1 two s'
context_switch_lem_example = context_switch_lem 1 two (omega arith)

never_preempts_example :
    Runs 0 3 (interrupt_handler psjf [] no_time two)
    × Runs 0 3 (interrupt_handler sctf [] no_time two)
never_preempts_example = never_preempts [] no_time two (omega arith) (omega arith) refl

sjf_preempts_example :
    (k : ℕ) × Runs k 3 (interrupt_handler sjf [] no_time two) × ((pcb_at two k).workload ≤ 4)
sjf_preempts_example = sjf_preempts [] no_time two 1 (omega arith) (waits refl) (omega arith)

idle_outcomes_example :
    (interrupt_handler basic [] no_time done ≡ returned done)
    × (interrupt_handler rr [] no_time done ≡ returned done)
    × (interrupt_handler fifo [] no_time done ≡ undefined)
    × (interrupt_handler insanity [] no_time done ≡ loops)
    × Revives done (interrupt_handler sjf [] no_time done)
    × Revives done (interrupt_handler psjf [] no_time done)
    × Revives done (interrupt_handler sctf [] no_time done)
    × Revives done (interrupt_handler priority_first [] no_time done)
idle_outcomes_example =
    idle_outcomes [] no_time done ((refl, refl, λ e. absurd (omega (arith, e))), tt) (omega arith)

-- FIFO picks the least creation quantum, round robin the next index.
fifo_two : choose fifo [] (park two) ≡ switch 0
unfolding choose park scan
fifo_two = refl

rr_two : choose rr [] (park two) ≡ switch 1
unfolding choose park rr_choice first_waiting
rr_two = refl

priority_two : choose priority_first [] (park two) ≡ switch 0
unfolding choose park scan
priority_two = refl

insanity_two : choose insanity (4 ∷ 7 ∷ []) two ≡ switch 1
unfolding choose insanity_choice
insanity_two = refl
