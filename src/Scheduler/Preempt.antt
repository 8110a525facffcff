-- ===== src/Scheduler/Preempt.antt =====
-- Which process the algorithms of LabWork/Lab7/scheduler.c run after an interrupt.
use cs.Common.{
  ℕ, zero, suc, ◌≤◌, ◌<◌, ◌≡◌, refl, ap, subst, sym, true≢false, ◌∙◌, inl, inr, true, lt→ltb, List,
  [], ◌∷◌, ◌++◌, All, All-mono, arith, length, get_or, All-append, All-mono,
}
use cs.Scheduler.{
  running, Pcb, Sched, empty_pcb, is_waiting, is_running, pcb_at, current_pcb, Choice, switch, sjf,
  psjf, sctf, choose, next_quantum, interrupt_handler, Outcome, switched, run_choice, keeps,
  int_max,
}
use cs.Scheduler.Scan.{Least, Waits, best, nobody, ascending, lt→le}
use cs.Scheduler.Choose.{choose-Promise}
use cs.Scheduler.Resume.{context_switch_lem}
use cs.Scheduler.Ready.{Ready, interrupted, ready, ready_lem, ready-length, ready-place}

-- The scheduler switches to the process at `pid`, in quantum `q`.
abbrev pub Runs : ℕ → ℕ → Outcome → Type 0
Runs pid q o =
    (s' : Sched) × (o ≡ switched s')
    × (s'.current_process ≡ pid)
    × ((pcb_at s' pid).state ≡ running)
    × (s'.current_quantum ≡ next_quantum q)

switch-Runs :
    (pid : ℕ) (s : Sched) (c : Choice)
    → c ≡ switch pid
    → pid < length s.pcbs
    → Runs pid s.current_quantum (run_choice c s)
switch-Runs pid s c e h =
    let (s', k, r) = context_switch_lem pid s h in
    (s', rw (e, k, run_choice) refl, r.takes, r.runs, r.advances)

keeps-ready :
    (clock : ℕ → ℕ) (s : Sched)
    → 0 < s.current_quantum
    → s.current_process < length s.pcbs
    → is_running (current_pcb s).state ≡ true
    → keeps is_waiting (ready clock s) ≡ true
keeps-ready clock s started inside runs =
    let (same_process, same_quantum) = ready-place clock s in
    let waiting_now = (ready_lem clock s s.current_process inside).1 (interrupted refl runs) in
    rw (same_quantum, same_process, lt→ltb 0 s.current_quantum started) waiting_now

-- PSJF and SCTF never take the processor from a running process of the table after quantum 0: whatever
-- waits or arrives, the process that an interrupt stopped is the one that runs in the next quantum.
pub never_preempts :
    (rand : List ℕ) (clock : ℕ → ℕ) (s : Sched)
    → 0 < s.current_quantum
    → s.current_process < length s.pcbs
    → is_running (current_pcb s).state ≡ true
    → Runs s.current_process s.current_quantum (interrupt_handler psjf rand clock s)
      × Runs s.current_process s.current_quantum (interrupt_handler sctf rand clock s)
unfolding interrupt_handler choose
never_preempts rand clock s started inside runs =
    let keep = keeps-ready clock s started inside runs in
    let (same_process, same_quantum) = ready-place clock s in
    let place : s.current_process < length (ready clock s).pcbs =
      rw (ready-length clock s) inside in
    let goes_on = switch-Runs s.current_process (ready clock s) in
    let again = ap switch same_process in
    let in_quantum : (o : Outcome)
        → Runs s.current_process (ready clock s).current_quantum o
        → Runs s.current_process s.current_quantum o =
      λ o. subst (λ q. Runs s.current_process q o) same_quantum in
    (
      in_quantum (interrupt_handler psjf rand clock s)
          (goes_on (choose psjf rand (ready clock s)) (rw keep again) place),
      in_quantum (interrupt_handler sctf rand clock s)
          (goes_on (choose sctf rand (ready clock s)) (rw keep again) place),
    )

get_or-append :
    (pre post : List Pcb) (p : Pcb) → get_or (pre ++ p ∷ post) (length pre) empty_pcb ≡ p
get_or-append [] post p = refl
get_or-append (x ∷ pre) post p = get_or-append pre post p

inside-append : (pre post : List Pcb) (p : Pcb) → length pre < length (pre ++ p ∷ post)
inside-append [] post p = omega arith
inside-append (x ∷ pre) post p = omega (arith, inside-append pre post p)

All-get :
    (P : Pcb → Type 0) (ps : List Pcb) (j : ℕ)
    → All (Waits P) ps
    → j < length ps
    → is_waiting (get_or ps j empty_pcb).state ≡ true
    → P (get_or ps j empty_pcb)
All-get P [] j h k w = elim k [ ]
All-get P (p ∷ ps) zero h k w = elim (h.0) [ inl n ↦ absurd (true≢false (sym w ∙ n)) | inr d ↦ d ]
All-get P (p ∷ ps) (suc j) h k w = All-get P ps j h.1 (omega arith) w

module _ (key : Pcb → ℕ) (bound : ℕ) (ps : List Pcb) (k : ℕ)
    (l : Least ascending key bound ps k) where
  Least-inside : k < length ps
  Least-inside = rw (l.at, l.whole) (inside-append l.pre l.post l.p)

  Least-key : get_or ps k empty_pcb ≡ l.p
  Least-key = rw (l.at, l.whole) (get_or-append l.pre l.post l.p)

  Least-All : All (Waits (λ q. key l.p ≤ key q)) ps
  Least-All =
      let before =
        All-mono (Waits (λ q. key l.p < key q)) (Waits (λ q. key l.p ≤ key q)) l.pre
          (λ q w. elim w [ inl n ↦ inl n | inr d ↦ inr (lt→le (key l.p) (key q) d) ]) l.before in
      let reflexive : key l.p ≤ key l.p = omega arith in
      subst (All (Waits (λ q. key l.p ≤ key q))) (sym l.whole) (
        All-append (Waits (λ q. key l.p ≤ key q)) l.pre (l.p ∷ l.post) before
          (inr reflexive, l.after))

-- Under SJF, after an interrupt at which a given process with a workload below INT_MAX waits, runs or
-- arrives, the process that runs has no more work in all than the given one, which may be the
-- interrupted one.
pub sjf_preempts :
    (rand : List ℕ) (clock : ℕ → ℕ) (s : Sched) (j : ℕ)
    → j < length s.pcbs
    → Ready s j
    → (pcb_at s j).workload < int_max
    → (k : ℕ) × Runs k s.current_quantum (interrupt_handler sjf rand clock s)
      × ((pcb_at s k).workload ≤ (pcb_at s j).workload)
unfolding interrupt_handler
sjf_preempts rand clock s j inside r small =
    let there : j < length (ready clock s).pcbs = rw (ready-length clock s) inside in
    let (same_work, waits_if) = ready_lem clock s j inside in
    let waits_now = waits_if r in
    elim (choose-Promise sjf rand (ready clock s)) [
      | best k e l ↦
          let place = Least-inside (λ p. p.workload) int_max (ready clock s).pcbs k l in
          let inside_k : k < length s.pcbs = rw (sym (ready-length clock s)) place in
          let work_k = (ready_lem clock s k inside_k).0 in
          let work_p =
            ap (λ p. p.workload) (Least-key (λ p. p.workload) int_max (ready clock s).pcbs k l) in
          let least =
            All-get (λ q. l.p.workload ≤ q.workload) (ready clock s).pcbs j
              (Least-All (λ p. p.workload) int_max (ready clock s).pcbs k l) there waits_now in
          let run = switch-Runs k (ready clock s) (choose sjf rand (ready clock s)) e place in
          (
            k,
            subst (λ q. Runs k q (interrupt_handler sjf rand clock s)) (ready-place clock s).1 run,
            omega (arith, same_work, work_k, work_p, least),
          )
      | nobody e a ↦
          let large =
            All-get (λ q. int_max ≤ q.workload) (ready clock s).pcbs j a there waits_now in
          absurd (omega (arith, same_work, large, small))
    ]
