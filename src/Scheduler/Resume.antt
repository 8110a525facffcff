-- ===== src/Scheduler/Resume.antt =====
-- `context_switch` of LabWork/Lab7/scheduler.c: what it leaves in the process table.
use cs.Common.{
  ℕ, zero, suc, ◌<◌, ◌≡◌, ◌≢◌, refl, ap, ◌∙◌, inl, inr, ◌&&◌, ◌||◌, lt→ltb, some, List, [], ◌∷◌,
  arith, ltb, ◌==◌, length, Bool-cases, set, get_or, get_or-set_self, get_or-set_ne,
}
use cs.Scheduler.{
  ProcessState, is_terminated, running, Pcb, Sched, empty_pcb, pcb_at, current_pcb, set_pcb, saved,
  context_switch, switch_to, next_quantum,
}

-- What a switch to the process at `pid` does: it runs, the quantum advances, and no other process changes
-- its state, and none its workload.
pub record Resumed (pid : ℕ) (s s' : Sched) : Type 0 where
  pub takes : s'.current_process ≡ pid
  pub runs : (pcb_at s' pid).state ≡ running
  pub advances : s'.current_quantum ≡ next_quantum s.current_quantum
  pub others : (j : ℕ) → pid ≢ j → (pcb_at s' j).state ≡ (pcb_at s j).state
  pub work : (j : ℕ) → (pcb_at s' j).workload ≡ (pcb_at s j).workload

-- Saving a context leaves the states and the workloads as they are.
state-context :
    (ps : List Pcb) (i j : ℕ)
    → (get_or (set ps i (record (get_or ps i empty_pcb) { context = saved })) j empty_pcb).state
      ≡ (get_or ps j empty_pcb).state
state-context [] i j = refl
state-context (p ∷ ps) zero zero = refl
state-context (p ∷ ps) zero (suc j) = refl
state-context (p ∷ ps) (suc i) zero = refl
state-context (p ∷ ps) (suc i) (suc j) = state-context ps i j

workload-context :
    (ps : List Pcb) (i j : ℕ)
    → (get_or (set ps i (record (get_or ps i empty_pcb) { context = saved })) j empty_pcb).workload
      ≡ (get_or ps j empty_pcb).workload
workload-context [] i j = refl
workload-context (p ∷ ps) zero zero = refl
workload-context (p ∷ ps) zero (suc j) = refl
workload-context (p ∷ ps) (suc i) zero = refl
workload-context (p ∷ ps) (suc i) (suc j) = workload-context ps i j

-- Setting a state leaves the workloads as they are.
pub workload-state :
    (c : ProcessState) (ps : List Pcb) (i j : ℕ)
    → (get_or (set ps i (record (get_or ps i empty_pcb) { state = c })) j empty_pcb).workload
      ≡ (get_or ps j empty_pcb).workload
workload-state c [] i j = refl
workload-state c (p ∷ ps) zero zero = refl
workload-state c (p ∷ ps) zero (suc j) = refl
workload-state c (p ∷ ps) (suc i) zero = refl
workload-state c (p ∷ ps) (suc i) (suc j) = workload-state c ps i j

abbrev start : ℕ → Sched → List Pcb
start pid s = set s.pcbs pid (record (pcb_at s pid) { state = running })

start-running :
    (pid : ℕ) (s : Sched)
    → pid < length s.pcbs
    → (get_or (start pid s) pid empty_pcb).state ≡ running
start-running pid s h =
    ap (λ p. p.state)
      (get_or-set_self s.pcbs pid (record (pcb_at s pid) { state = running }) empty_pcb h)

start-others :
    (pid : ℕ) (s : Sched) (j : ℕ)
    → pid ≢ j
    → (get_or (start pid s) j empty_pcb).state ≡ (pcb_at s j).state
start-others pid s j h =
    ap (λ p. p.state)
      (get_or-set_ne s.pcbs pid j (record (pcb_at s pid) { state = running }) empty_pcb h)

switch_to-Resumed : (pid : ℕ) (s : Sched) → pid < length s.pcbs → Resumed pid s (switch_to pid s)
unfolding switch_to
switch_to-Resumed pid s h =
    elim (Bool-cases ((s.current_quantum == 0) || is_terminated (current_pcb s).state)) [
      | inl main ↦ rw main (record {
        takes = refl;
        runs = start-running pid s h;
        advances = refl;
        others = start-others pid s;
        work = workload-state running s.pcbs pid;
      })
      | inr own ↦ rw own (record {
        takes = refl;
        runs = state-context (start pid s) s.current_process pid ∙ start-running pid s h;
        advances = refl;
        others = λ j ne. state-context (start pid s) s.current_process j ∙ start-others pid s j ne;
        work = λ j.
            workload-context (start pid s) s.current_process j
            ∙ workload-state running s.pcbs pid j;
      })
    ]

-- A switch to a process of the table succeeds: that process runs and is the current one, the quantum
-- advances by one modulo 2^32, every other process keeps its state, and all processes their workload.
pub context_switch_lem :
    (pid : ℕ) (s : Sched)
    → pid < length s.pcbs
    → (s' : Sched) × (context_switch pid s ≡ some s') × Resumed pid s s'
unfolding context_switch
context_switch_lem pid s h =
    elim (Bool-cases ((pid == s.current_process) && ltb 0 s.current_quantum)) [
      | inl same ↦ (
        record (set_pcb s pid (record (pcb_at s pid) { state = running })) {
          current_quantum = next_quantum s.current_quantum;
        },
        rw (lt→ltb pid (length s.pcbs) h, same) refl,
        record {
          takes = ground arith;
          runs = start-running pid s h;
          advances = refl;
          others = start-others pid s;
          work = workload-state running s.pcbs pid;
        },
      )
      | inr other ↦ (
        switch_to pid s,
        rw (lt→ltb pid (length s.pcbs) h, other) refl,
        switch_to-Resumed pid s h,
      )
    ]
