-- ===== src/Scheduler/Machine.antt =====
-- LabWork/Lab7/scheduler.c as a machine: what a process does between two interrupts, and the steps that the
-- scheduler and the running process take in turn.
mod OneRunning
mod Tests
use cs.Common.{ℕ, ◌+◌, ◌%◌, ◌<◌, ◌≡◌, Bool, true, false, List, [], ◌∷◌, All, ltb, if◌then◌else◌}
use cs.Scheduler.{
  Pcb, Sched, ProcessState, created, terminated, running, is_running, current_pcb, set_pcb,
  uint_mod, Algorithm, Outcome, switched, returned, interrupt_handler,
}

-- The beginning of `process`, a round of its loop, and its end, for the current process.
pub begin : ℕ → Sched → Sched
begin time s = set_pcb s s.current_process (record (current_pcb s) { start_time = time })

pub work : Sched → Sched
work s =
    let p = current_pcb s in
    if ltb p.executed_work p.workload
    then set_pcb s s.current_process (record p { executed_work = (p.executed_work + 1) % uint_mod })
    else s

pub terminate : ℕ → Sched → Sched
terminate time s =
    set_pcb s s.current_process
      (record (current_pcb s) { state = terminated; completion_time = time })

-- One step: an interrupt that switches or returns, or a step of the current process.
pub data Step (algo : Algorithm) (s : Sched) : Sched → Type 0 where
  interrupted :
      (rand : List ℕ) (clock : ℕ → ℕ) (s' : Sched)
      → interrupt_handler algo rand clock s ≡ switched s'
      → Step algo s s'
  idle :
      (rand : List ℕ) (clock : ℕ → ℕ) (s' : Sched)
      → interrupt_handler algo rand clock s ≡ returned s'
      → Step algo s s'
  begins : (time : ℕ) → Step algo s (begin time s)
  works : Step algo s (work s)
  ends : (time : ℕ) → Step algo s (terminate time s)

-- The states that are reached from a table of processes that are yet to arrive.
pub data Reachable (algo : Algorithm) : Sched → Type 0 where
  loaded : (s : Sched) → All (λ p. p.state ≡ created) s.pcbs → Reachable algo s
  step : (s s' : Sched) → Reachable algo s → Step algo s s' → Reachable algo s'
