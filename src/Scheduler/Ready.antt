-- ===== src/Scheduler/Ready.antt =====
-- What `interrupt_handler` of LabWork/Lab7/scheduler.c makes of the process table before it schedules.
use cs.Common.{
  ℕ, zero, suc, ◌+◌, ◌<◌, ◌≡◌, refl, ap, subst, ◌∙◌, ◌⊎◌, inl, inr, true, List, [], ◌∷◌, arith,
  ◌==◌, length, Bool-cases, set, get_or, get_or-set_self, length-set,
}
use cs.Scheduler.{
  ProcessState, waiting, Pcb, Sched, empty_pcb, is_waiting, is_running, pcb_at, current_pcb, arrive,
  arrivals, handle_arrivals, park,
}
use cs.Scheduler.Resume.{workload-state}

-- A process that waits once the interrupt is taken: it waited, it was the running one, or it arrives now.
pub data Ready (s : Sched) (j : ℕ) : Type 0 where
  waits : is_waiting (pcb_at s j).state ≡ true → Ready s j
  interrupted : j ≡ s.current_process → is_running (pcb_at s j).state ≡ true → Ready s j
  arrives : (pcb_at s j).creation_quantum ≡ s.current_quantum → Ready s j

abbrev pub ready : (ℕ → ℕ) → Sched → Sched
ready clock s = handle_arrivals clock (park s)

pub length-arrivals :
    (quantum : ℕ) (clock : ℕ → ℕ) (i : ℕ) (ps : List Pcb)
    → length (arrivals quantum clock i ps) ≡ length ps
unfolding arrivals
length-arrivals quantum clock i [] = refl
length-arrivals quantum clock i (p ∷ ps) = ap suc (length-arrivals quantum clock (i + 1) ps)

get_or-arrivals :
    (quantum : ℕ) (clock : ℕ → ℕ) (i : ℕ) (ps : List Pcb) (j : ℕ)
    → j < length ps
    → (time : ℕ) × (get_or (arrivals quantum clock i ps) j empty_pcb
        ≡ arrive quantum time (get_or ps j empty_pcb))
unfolding arrivals
get_or-arrivals quantum clock i [] j h = elim h [ ]
get_or-arrivals quantum clock i (p ∷ ps) zero h = (clock i, refl)
get_or-arrivals quantum clock i (p ∷ ps) (suc j) h =
    get_or-arrivals quantum clock (i + 1) ps j (omega arith)

arrive-workload : (quantum time : ℕ) (p : Pcb) → (arrive quantum time p).workload ≡ p.workload
unfolding arrive
arrive-workload quantum time p = elim (Bool-cases (p.creation_quantum == quantum)) [
  | inl e ↦ rw e refl
  | inr e ↦ rw e refl
]

arrive-waiting :
    (quantum time : ℕ) (p : Pcb)
    → (is_waiting p.state ≡ true) ⊎ (p.creation_quantum ≡ quantum)
    → is_waiting (arrive quantum time p).state ≡ true
unfolding arrive
arrive-waiting quantum time p h = elim (Bool-cases (p.creation_quantum == quantum)) [
  | inl e ↦ rw e refl
  | inr e ↦ rw e (elim h [ inl w ↦ w | inr c ↦ ground arith ])
]

pub park-length : (s : Sched) → length (park s).pcbs ≡ length s.pcbs
unfolding park
park-length s = elim (Bool-cases (is_running (current_pcb s).state)) [
  | inl r ↦ rw r (length-set s.pcbs s.current_process (record (current_pcb s) { state = waiting }))
  | inr n ↦ rw n refl
]

park-workload : (s : Sched) (j : ℕ) → (pcb_at (park s) j).workload ≡ (pcb_at s j).workload
unfolding park
park-workload s j = elim (Bool-cases (is_running (current_pcb s).state)) [
  | inl r ↦ rw r (workload-state waiting s.pcbs s.current_process j)
  | inr n ↦ rw n refl
]

pub park-place :
    (s : Sched)
    → ((park s).current_process ≡ s.current_process)
      × ((park s).current_quantum ≡ s.current_quantum)
unfolding park
park-place s = elim (Bool-cases (is_running (current_pcb s).state)) [
  | inl r ↦ rw r (refl, refl)
  | inr n ↦ rw n (refl, refl)
]

waiting-state :
    (ps : List Pcb) (i j : ℕ)
    → is_waiting (get_or ps j empty_pcb).state ≡ true
    → is_waiting
        (get_or (set ps i (record (get_or ps i empty_pcb) { state = waiting })) j empty_pcb).state
      ≡ true
waiting-state [] i j h = h
waiting-state (p ∷ ps) zero zero h = refl
waiting-state (p ∷ ps) zero (suc j) h = h
waiting-state (p ∷ ps) (suc i) zero h = h
waiting-state (p ∷ ps) (suc i) (suc j) h = waiting-state ps i j h

creation-state :
    (c : ProcessState) (ps : List Pcb) (i j : ℕ)
    → (get_or
        (set ps i (record (get_or ps i empty_pcb) { state = c }))
        j
        empty_pcb).creation_quantum
      ≡ (get_or ps j empty_pcb).creation_quantum
creation-state c [] i j = refl
creation-state c (p ∷ ps) zero zero = refl
creation-state c (p ∷ ps) zero (suc j) = refl
creation-state c (p ∷ ps) (suc i) zero = refl
creation-state c (p ∷ ps) (suc i) (suc j) = creation-state c ps i j

park-Ready :
    (s : Sched) (j : ℕ)
    → j < length s.pcbs
    → Ready s j
    → (is_waiting (pcb_at (park s) j).state ≡ true)
      ⊎ ((pcb_at (park s) j).creation_quantum ≡ s.current_quantum)
unfolding park
park-Ready s j h (waits w) = elim (Bool-cases (is_running (current_pcb s).state)) [
  | inl r ↦ rw r (inl (waiting-state s.pcbs s.current_process j w))
  | inr n ↦ rw n (inl w)
]
park-Ready s j h (interrupted e r) =
    let now : is_running (current_pcb s).state ≡ true =
      subst (λ i. is_running (pcb_at s i).state ≡ true) e r in
    let inside : s.current_process < length s.pcbs = subst (λ i. i < length s.pcbs) e h in
    rw (now, e)
      (inl (
        ap (λ p. is_waiting p.state)
          (get_or-set_self s.pcbs s.current_process (record (current_pcb s) { state = waiting })
            empty_pcb inside)))
park-Ready s j h (arrives c) = elim (Bool-cases (is_running (current_pcb s).state)) [
  | inl r ↦ rw r (inr (creation-state waiting s.pcbs s.current_process j ∙ c))
  | inr n ↦ rw n (inr c)
]

-- What the table holds at an index when the algorithm is called.
pub ready_lem :
    (clock : ℕ → ℕ) (s : Sched) (j : ℕ)
    → j < length s.pcbs
    → ((pcb_at (ready clock s) j).workload ≡ (pcb_at s j).workload)
      × (Ready s j → is_waiting (pcb_at (ready clock s) j).state ≡ true)
unfolding handle_arrivals
ready_lem clock s j h =
    let inside : j < length (park s).pcbs = rw (park-length s) h in
    let (time, e) = get_or-arrivals (park s).current_quantum clock 0 (park s).pcbs j inside in
    let same_quantum = (park-place s).1 in
    (
      ap (λ p. p.workload) e
          ∙ (arrive-workload (park s).current_quantum time (pcb_at (park s) j) ∙ park-workload s j),
      λ r.
          ap (λ p. is_waiting p.state) e
          ∙ arrive-waiting (park s).current_quantum time (pcb_at (park s) j)
              (rw same_quantum (park-Ready s j h r)),
    )

pub ready-length : (clock : ℕ → ℕ) (s : Sched) → length (ready clock s).pcbs ≡ length s.pcbs
unfolding handle_arrivals
ready-length clock s =
    length-arrivals (park s).current_quantum clock 0 (park s).pcbs ∙ park-length s

pub ready-place :
    (clock : ℕ → ℕ) (s : Sched)
    → ((ready clock s).current_process ≡ s.current_process)
      × ((ready clock s).current_quantum ≡ s.current_quantum)
unfolding handle_arrivals
ready-place clock s = park-place s
