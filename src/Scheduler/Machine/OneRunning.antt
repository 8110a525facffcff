-- ===== src/Scheduler/Machine/OneRunning.antt =====
-- Which processes of LabWork/Lab7/scheduler.c are marked as running.
use cs.Common.{
  ℕ, zero, suc, ◌+◌, ◌%◌, ◌≡◌, ◌≢◌, refl, ap, sym, subst, ◌∙◌, true, false, true≢false, List, [],
  ◌∷◌, All, ltb, ltb→lt, ◌==◌, Bool-cases, inl, inr, length, get_or, set, get_or-set_ne, arith,
}
use cs.Scheduler.{
  Pcb, Sched, created, waiting, terminated, empty_pcb, is_running, pcb_at, current_pcb, set_pcb,
  uint_mod, arrive, arrivals, handle_arrivals, park, context_switch, Choice, switch, stay, unset,
  spinning, Algorithm, choose, Outcome, switched, returned, run_choice, interrupt_handler,
}
use cs.Scheduler.Resume.{context_switch_lem}
use cs.Scheduler.Machine.{
  begin, work, terminate, Step, interrupted, idle, begins, works, ends, Reachable, loaded, step,
}

-- No process but the current one is marked as running.
abbrev pub OneRunning : Sched → Type 0
OneRunning s = (j : ℕ) → is_running (pcb_at s j).state ≡ true → j ≡ s.current_process

NoneRunning : Sched → Type 0
NoneRunning s = (j : ℕ) → is_running (pcb_at s j).state ≡ false

NoneRunning-OneRunning : (s : Sched) → NoneRunning s → OneRunning s
unfolding NoneRunning
NoneRunning-OneRunning s h j r = absurd (true≢false (sym r ∙ h j))

-- A process whose state is set, as it is read back.
set_state :
    (ps : List Pcb) (i : ℕ) (p : Pcb)
    → is_running p.state ≡ false
    → is_running (get_or (set ps i p) i empty_pcb).state ≡ false
set_state [] i p h = refl
set_state (q ∷ ps) zero p h = h
set_state (q ∷ ps) (suc i) p h = set_state ps i p h

-- Setting the current process to a state in which it does not run leaves none that runs.
stops :
    (s : Sched) (p : Pcb)
    → OneRunning s
    → is_running p.state ≡ false
    → NoneRunning (set_pcb s s.current_process p)
unfolding NoneRunning
stops s p one h j = elim (Bool-cases (s.current_process == j)) [
  | inl same ↦
      let e : j ≡ s.current_process = ground (arith, same) in
      rw e (set_state s.pcbs s.current_process p h)
  | inr other ↦
      let ne : s.current_process ≢ j = λ e. ground (arith, other, e) in
      ap (λ q. is_running q.state) (get_or-set_ne s.pcbs s.current_process j p empty_pcb ne)
      ∙ elim (Bool-cases (is_running (pcb_at s j).state)) [
        | inl r ↦ absurd (ne (sym (one j r)))
        | inr n ↦ n
      ]
]

park-NoneRunning : (s : Sched) → OneRunning s → NoneRunning (park s)
unfolding NoneRunning park
park-NoneRunning s one = elim (Bool-cases (is_running (current_pcb s).state)) [
  | inl r ↦ rw r (stops s (record (current_pcb s) { state = waiting }) one refl)
  | inr n ↦ rw n (λ j. elim (Bool-cases (is_running (pcb_at s j).state)) [
    | inl r ↦ absurd (true≢false (sym r ∙ (ap (λ i. is_running (pcb_at s i).state) (one j r) ∙ n)))
    | inr m ↦ m
  ])
]

arrive-quiet :
    (quantum time : ℕ) (p : Pcb)
    → is_running p.state ≡ false
    → is_running (arrive quantum time p).state ≡ false
unfolding arrive
arrive-quiet quantum time p h = elim (Bool-cases (p.creation_quantum == quantum)) [
  | inl e ↦ rw e refl
  | inr e ↦ rw e h
]

arrivals-quiet :
    (quantum : ℕ) (clock : ℕ → ℕ) (i : ℕ) (ps : List Pcb)
    → ((j : ℕ) → is_running (get_or ps j empty_pcb).state ≡ false)
    → (j : ℕ) → is_running (get_or (arrivals quantum clock i ps) j empty_pcb).state ≡ false
unfolding arrivals
arrivals-quiet quantum clock i [] h j = refl
arrivals-quiet quantum clock i (p ∷ ps) h zero = arrive-quiet quantum (clock i) p (h 0)
arrivals-quiet quantum clock i (p ∷ ps) h (suc j) =
    arrivals-quiet quantum clock (i + 1) ps (λ k. h (suc k)) j

-- What holds of the state in which control goes on.
abbrev Continues : Outcome → Type 0
Continues (switched s) = OneRunning s
Continues (returned s) = OneRunning s
Continues _ = Unit

switch-Continues : (pid : ℕ) (s : Sched) → NoneRunning s → Continues (run_choice (switch pid) s)
unfolding NoneRunning context_switch
switch-Continues pid s h = elim (Bool-cases (ltb pid (length s.pcbs))) [
  | inr outside ↦ rw (outside, run_choice) tt
  | inl inside ↦
      let (s', e, r) = context_switch_lem pid s (ltb→lt pid (length s.pcbs) inside) in
      let only : OneRunning s' = λ j runs. elim (Bool-cases (pid == j)) [
        | inl same ↦ ground (arith, same, r.takes)
        | inr other ↦
            let ne : pid ≢ j = λ z. ground (arith, other, z) in
            absurd (true≢false (sym runs ∙ (ap is_running (r.others j ne) ∙ h j)))
      ] in
      rw (e, run_choice) only
]

choice-Continues : (c : Choice) (s : Sched) → NoneRunning s → Continues (run_choice c s)
choice-Continues (switch pid) s h = switch-Continues pid s h
choice-Continues stay s h = NoneRunning-OneRunning s h
choice-Continues unset s h = tt
choice-Continues spinning s h = tt

interrupt-Continues :
    (algo : Algorithm) (rand : List ℕ) (clock : ℕ → ℕ) (s : Sched)
    → OneRunning s
    → Continues (interrupt_handler algo rand clock s)
unfolding interrupt_handler handle_arrivals NoneRunning
interrupt-Continues algo rand clock s one =
    let ready = handle_arrivals clock (park s) in
    choice-Continues (choose algo rand ready) ready
      (arrivals-quiet (park s).current_quantum clock 0 (park s).pcbs (park-NoneRunning s one))

keep_state :
    (ps : List Pcb) (i : ℕ) (p : Pcb) (j : ℕ)
    → p.state ≡ (get_or ps i empty_pcb).state
    → (get_or (set ps i p) j empty_pcb).state ≡ (get_or ps j empty_pcb).state
keep_state [] i p j e = refl
keep_state (q ∷ ps) zero p zero e = e
keep_state (q ∷ ps) zero p (suc j) e = refl
keep_state (q ∷ ps) (suc i) p zero e = refl
keep_state (q ∷ ps) (suc i) p (suc j) e = keep_state ps i p j e

keep-OneRunning :
    (s : Sched) (p : Pcb)
    → p.state ≡ (current_pcb s).state
    → OneRunning s
    → OneRunning (set_pcb s s.current_process p)
keep-OneRunning s p e one j r =
    one j (ap is_running (sym (keep_state s.pcbs s.current_process p j e)) ∙ r)

work-OneRunning : (s : Sched) → OneRunning s → OneRunning (work s)
unfolding work
work-OneRunning s one =
    elim (Bool-cases (ltb (current_pcb s).executed_work (current_pcb s).workload)) [
      | inl more ↦ rw more (keep-OneRunning s (worked (current_pcb s)) refl one)
      | inr all ↦ rw all one
    ]
  where
    worked : Pcb → Pcb
    worked p = record p { executed_work = (p.executed_work + 1) % uint_mod }

loaded-quiet :
    (ps : List Pcb)
    → All (λ p. p.state ≡ created) ps
    → (j : ℕ) → is_running (get_or ps j empty_pcb).state ≡ false
loaded-quiet [] h j = refl
loaded-quiet (p ∷ ps) h zero = ap is_running h.0
loaded-quiet (p ∷ ps) h (suc j) = loaded-quiet ps h.1 j

Step-OneRunning : (algo : Algorithm) (s s' : Sched) → OneRunning s → Step algo s s' → OneRunning s'
unfolding begin terminate NoneRunning
Step-OneRunning algo s s' one (interrupted rand clock _ e) =
    subst Continues e (interrupt-Continues algo rand clock s one)
Step-OneRunning algo s s' one (idle rand clock _ e) =
    subst Continues e (interrupt-Continues algo rand clock s one)
Step-OneRunning algo s _ one (begins time) =
    keep-OneRunning s (record (current_pcb s) { start_time = time }) refl one
Step-OneRunning algo s _ one works = work-OneRunning s one
Step-OneRunning algo s _ one (ends time) =
    NoneRunning-OneRunning (set_pcb s s.current_process (finished_pcb (current_pcb s)))
      (stops s (finished_pcb (current_pcb s)) one refl)
  where
    finished_pcb : Pcb → Pcb
    finished_pcb p = record p { state = terminated; completion_time = time }

-- In every state that is reached, under any of the eight algorithms, from a table of processes that
-- have not arrived, by interrupts and by steps of the current process, no process but the current one
-- is marked as running.
pub Reachable-OneRunning : (algo : Algorithm) (s : Sched) → Reachable algo s → OneRunning s
unfolding NoneRunning
Reachable-OneRunning algo s (loaded _ h) = NoneRunning-OneRunning s (loaded-quiet s.pcbs h)
Reachable-OneRunning algo s (step t _ r st) =
    Step-OneRunning algo t s (Reachable-OneRunning algo t r) st
