-- ===== src/Scheduler/Choose.antt =====
-- What each scheduling algorithm of LabWork/Lab7/scheduler.c promises of its choice.
use cs.Common.{
  ℕ, ◌+◌, ◌-◌, ◌^◌, ◌%◌, ◌≡◌, refl, ap, ◌⊎◌, inl, inr, Bool, true, false, none, some, List, [], ◌∷◌,
  ◌++◌, All, arith, ltb, ◌==◌, if◌then◌else◌, length, Bool-cases,
}
use cs.Scheduler.{
  ProcessState, Pcb, Sched, int_max, is_waiting, is_running, pcb_at, first_waiting, remaining,
  Choice, switch, stay, unset, spinning, Algorithm, basic, fifo, sjf, psjf, sctf, rr,
  priority_first, insanity, keeps, or_stay, rr_choice, insanity_choice, choose,
}
use cs.Scheduler.Scan.{ascending, descending, Selects, Selects-unset, Selects-first, scan_lem}
use cs.Scheduler.First.{absent, present, FirstWaiting, NoneWaiting, first_waiting_lem}

-- `basic`: the waiting process with the least index.
pub data InOrder (ps : List Pcb) (c : Choice) : Type 0 where
  next : (j : ℕ) → c ≡ switch j → FirstWaiting (λ _. true) ps 0 j → InOrder ps c
  no_one : c ≡ stay → NoneWaiting (λ _. true) ps 0 → InOrder ps c

-- `rr`: the next waiting process behind the current one, or else the first in the table.
pub data InTurn (current : ℕ) (ps : List Pcb) (c : Choice) : Type 0 where
  behind : (j : ℕ) → c ≡ switch j → FirstWaiting (λ i. ltb current i) ps 0 j → InTurn current ps c
  from_start : NoneWaiting (λ i. ltb current i) ps 0 → InOrder ps c → InTurn current ps c

-- `insanity`: the first random number that hits a waiting process.
pub data Draws (rand : List ℕ) (s : Sched) (c : Choice) : Type 0 where
  hit :
      (pre : List ℕ) (r : ℕ) (post : List ℕ)
      → rand ≡ pre ++ r ∷ post
      → c ≡ switch (r % length s.pcbs)
      → is_waiting (pcb_at s (r % length s.pcbs)).state ≡ true
      → All (λ q. is_waiting (pcb_at s (q % length s.pcbs)).state ≡ false) pre
      → Draws rand s c
  miss :
      c ≡ spinning
      → All (λ q. is_waiting (pcb_at s (q % length s.pcbs)).state ≡ false) rand
      → Draws rand s c

-- Three algorithms first test whether to go on with the current process.
pub data GoesOn (test : ProcessState → Bool) (s : Sched) (other : Type 0) (c : Choice)
    : Type 0 where
  goes_on : keeps test s ≡ true → c ≡ switch s.current_process → GoesOn test s other c
  looks : keeps test s ≡ false → other → GoesOn test s other c

-- The work that is left, as the difference of two `unsigned int`.
abbrev left_over : Pcb → ℕ
left_over p = (p.workload + 2 ^ 32 - p.executed_work) % 2 ^ 32

abbrev pub Promise : Algorithm → List ℕ → Sched → Choice → Type 0
Promise basic rand s c = InOrder s.pcbs c
Promise fifo rand s c =
    GoesOn is_running s (Selects ascending (λ p. p.creation_quantum) int_max unset s.pcbs c) c
Promise sjf rand s c = Selects ascending (λ p. p.workload) int_max (switch 0) s.pcbs c
Promise psjf rand s c =
    GoesOn is_waiting s (Selects ascending (λ p. p.workload) int_max (switch 0) s.pcbs c) c
Promise sctf rand s c =
    GoesOn is_waiting s (Selects ascending left_over int_max (switch 0) s.pcbs c) c
Promise rr rand s c = InTurn s.current_process s.pcbs c
Promise priority_first rand s c = Selects descending (λ p. p.priority) 0 (switch 0) s.pcbs c
Promise insanity rand s c = ((length s.pcbs ≡ 0) × (c ≡ unset)) ⊎ Draws rand s c

in_order : (ps : List Pcb) → InOrder ps (or_stay (first_waiting (λ _. true) ps 0))
in_order ps = elim (first_waiting_lem (λ _. true) ps 0) [
  | absent e a ↦ no_one (ap or_stay e) a
  | present j e f ↦ next j (ap or_stay e) f
]

draws : (rand : List ℕ) (s : Sched) → Draws rand s (insanity_choice rand s)
unfolding insanity_choice
draws [] s = miss refl tt
draws (r ∷ rand) s = elim (Bool-cases (is_waiting (pcb_at s (r % length s.pcbs)).state)) [
  | inl w ↦ rw w (hit [] r rand refl refl w tt)
  | inr n ↦ rw n (elim (draws rand s) [
    | hit pre q post e f w a ↦ hit (r ∷ pre) q post (ap (λ z. r ∷ z) e) f w (n, a)
    | miss e a ↦ miss e (n, a)
  ])
]

GoesOn-or :
    (test : ProcessState → Bool) (s : Sched) (other : Choice) (P : Choice → Type 0)
    → P other
    → GoesOn test s
        (P (if keeps test s then switch s.current_process else other))
        (if keeps test s then switch s.current_process else other)
GoesOn-or test s other P h = elim (Bool-cases (keeps test s)) [
  | inl k ↦ rw k (goes_on k refl)
  | inr k ↦ rw k (looks k h)
]

rr_lem : (s : Sched) → InTurn s.current_process s.pcbs (rr_choice s)
unfolding rr_choice
rr_lem s = elim (first_waiting_lem (λ i. ltb s.current_process i) s.pcbs 0) [
  | absent e a ↦ from_start a (rw (e, rr_choice) (in_order s.pcbs))
  | present j e f ↦ behind j (rw (e, rr_choice) refl) f
]

-- In every state of the table each of the eight algorithms makes the choice of its `Promise`: the first
-- waiting process, the best waiting process by its key with ties to the lower index, the next one in
-- turn, the first that a random number hits, or what it falls back on when no process qualifies.
pub choose-Promise :
    (algo : Algorithm) (rand : List ℕ) (s : Sched) → Promise algo rand s (choose algo rand s)
unfolding choose remaining
choose-Promise basic rand s = in_order s.pcbs
choose-Promise fifo rand s =
    GoesOn-or is_running s _ (Selects ascending (λ p. p.creation_quantum) int_max unset s.pcbs) (
      Selects-unset ascending (λ p. p.creation_quantum) int_max s.pcbs _
        (scan_lem ascending (λ p. p.creation_quantum) s.pcbs 0 int_max none))
choose-Promise sjf rand s =
    Selects-first ascending (λ p. p.workload) int_max s.pcbs _
      (scan_lem ascending (λ p. p.workload) s.pcbs 0 int_max (some 0))
choose-Promise psjf rand s =
    GoesOn-or is_waiting s _ (Selects ascending (λ p. p.workload) int_max (switch 0) s.pcbs) (
      Selects-first ascending (λ p. p.workload) int_max s.pcbs _
        (scan_lem ascending (λ p. p.workload) s.pcbs 0 int_max (some 0)))
choose-Promise sctf rand s =
    GoesOn-or is_waiting s _ (Selects ascending left_over int_max (switch 0) s.pcbs) (
      Selects-first ascending remaining int_max s.pcbs _
        (scan_lem ascending left_over s.pcbs 0 int_max (some 0)))
choose-Promise rr rand s = rr_lem s
choose-Promise priority_first rand s =
    Selects-first descending (λ p. p.priority) 0 s.pcbs _
      (scan_lem descending (λ p. p.priority) s.pcbs 0 0 (some 0))
choose-Promise insanity rand s = elim (Bool-cases (length s.pcbs == 0)) [
  | inl z ↦ rw z (inl (ground arith, refl))
  | inr z ↦ rw z (inr (draws rand s))
]
