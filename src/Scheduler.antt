-- ===== src/Scheduler.antt =====
-- LabWork/Lab7/scheduler.c and scheduler.h: processes that take turns in quanta. A clock reading is a
-- count of microseconds, and a process's execution context is kept as what it can be resumed to.
mod Scan
mod First
mod Choose
mod Resume
mod Ready
mod Idle
mod Preempt
pub mod Machine
mod Summary
mod Tests
use cs.Common.{
  ℕ, zero, suc, ◌+◌, ◌-◌, ◌%◌, ◌^◌, Bool, true, false, not, ◌&&◌, ◌||◌, Option, none, some, Bytes,
  List, [], ◌∷◌, ltb, leb, ◌==◌, if◌then◌else◌, length, get_or, set,
}

pub data ProcessState : Type 0 where
  created waiting running terminated : ProcessState

-- `ucontext_t`: never made, made to run `process` from its start, or saved by a switch.
pub data Context : Type 0 where
  unmade fresh saved : Context

pub record Pcb : Type 0 where
  pub pid : ℕ
  pub name : Bytes
  pub state : ProcessState
  pub context : Context
  pub creation_quantum : ℕ
  pub workload : ℕ
  pub executed_work : ℕ
  pub priority : ℕ
  pub arrival_time : ℕ
  pub start_time : ℕ
  pub completion_time : ℕ

abbrev pub empty_pcb : Pcb
empty_pcb = record {
  pid = 0;
  name = [];
  state = created;
  context = unmade;
  creation_quantum = 0;
  workload = 0;
  executed_work = 0;
  priority = 0;
  arrival_time = 0;
  start_time = 0;
  completion_time = 0;
}

-- `g_sstate`, whose `num_processes` is the length of `pcbs`, and `g_main_ctx`.
pub record Sched : Type 0 where
  pub current_quantum : ℕ
  pub current_process : ℕ
  pub pcbs : List Pcb
  pub main_ctx : Context

abbrev pub int_max : ℕ
int_max = 2147483647

abbrev pub uint_mod : ℕ
uint_mod = 2 ^ 32

abbrev pub is_waiting : ProcessState → Bool
is_waiting waiting = true
is_waiting _ = false

abbrev pub is_running : ProcessState → Bool
is_running running = true
is_running _ = false

abbrev pub is_terminated : ProcessState → Bool
is_terminated terminated = true
is_terminated _ = false

abbrev pub pcb_at : Sched → ℕ → Pcb
pcb_at s i = get_or s.pcbs i empty_pcb

abbrev pub current_pcb : Sched → Pcb
current_pcb s = pcb_at s s.current_process

abbrev pub set_pcb : Sched → ℕ → Pcb → Sched
set_pcb s i p = record s { pcbs = set s.pcbs i p }

-- One round of `handle_arrivals`; `clock i` is the time that is read for process `i`.
pub arrive : ℕ → ℕ → Pcb → Pcb
arrive quantum time p =
    if p.creation_quantum == quantum
    then record p { state = waiting; arrival_time = time; context = fresh }
    else p

pub arrivals : ℕ → (ℕ → ℕ) → ℕ → List Pcb → List Pcb
arrivals quantum clock i [] = []
arrivals quantum clock i (p ∷ ps) = arrive quantum (clock i) p ∷ arrivals quantum clock (i + 1) ps

pub handle_arrivals : (ℕ → ℕ) → Sched → Sched
handle_arrivals clock s = record s { pcbs = arrivals s.current_quantum clock 0 s.pcbs }

abbrev next_quantum : ℕ → ℕ
next_quantum q = (q + 1) % uint_mod

-- The switch proper: where it starts from is saved as the main context on the first run, and when the
-- current process has terminated, and else as that of the current process.
pub switch_to : ℕ → Sched → Sched
switch_to pid s =
    let started = record s {
      current_quantum = next_quantum s.current_quantum;
      current_process = pid;
      pcbs = set s.pcbs pid (record (pcb_at s pid) { state = running });
    } in
    if (s.current_quantum == 0) || is_terminated (current_pcb s).state
    then record started { main_ctx = saved }
    else set_pcb started s.current_process
        (record (pcb_at started s.current_process) { context = saved })

-- The state when control leaves `context_switch`: `none` is a failed assertion.
pub context_switch : ℕ → Sched → Option Sched
context_switch pid s =
    if ltb pid (length s.pcbs)
    then some (
        if (pid == s.current_process) && ltb 0 s.current_quantum
        then record (set_pcb s pid (record (pcb_at s pid) { state = running })) {
          current_quantum = next_quantum s.current_quantum;
        }
        else switch_to pid s)
    else none

-- What a scheduling algorithm asks for: a switch, nothing, a switch to a variable that was never set,
-- or random numbers without end.
pub data Choice : Type 0 where
  switch : ℕ → Choice
  stay unset spinning : Choice

pub data Algorithm : Type 0 where
  basic fifo sjf psjf sctf rr priority_first insanity : Algorithm

-- The loops over `pcbs` that keep, among the waiting processes, one whose key is better than the bound
-- so far: `pcb->key < smallest`, or `pcb->key > top`.
pub scan : (ℕ → ℕ → Bool) → (Pcb → ℕ) → List Pcb → ℕ → ℕ → Option ℕ → Option ℕ
scan better key [] i bound pid = pid
scan better key (p ∷ ps) i bound pid =
    let takes = is_waiting p.state && better (key p) bound in
    scan better key ps (i + 1) (if takes then key p else bound) (if takes then some i else pid)

abbrev pub greater : ℕ → ℕ → Bool
greater a b = ltb b a

-- The first waiting process whose index passes a test.
pub first_waiting : (ℕ → Bool) → List Pcb → ℕ → Option ℕ
first_waiting test [] i = none
first_waiting test (p ∷ ps) i =
    let rest = first_waiting test ps (i + 1) in
    if is_waiting p.state && test i then some i else rest

-- `workload - executed_work`, in `unsigned int`.
pub remaining : Pcb → ℕ
remaining p = (p.workload + uint_mod - p.executed_work) % uint_mod

abbrev or_stay : Option ℕ → Choice
or_stay none = stay
or_stay (some i) = switch i

abbrev or_unset : Option ℕ → Choice
or_unset none = unset
or_unset (some i) = switch i

-- `(current_quantum > 0) && (current_pcb()->state == …)`, before the loops of three algorithms.
abbrev keeps : (ProcessState → Bool) → Sched → Bool
keeps test s = ltb 0 s.current_quantum && test (current_pcb s).state

pub rr_choice : Sched → Choice
rr_choice s = elim (first_waiting (λ i. ltb s.current_process i) s.pcbs 0) [
  | some i ↦ switch i
  | none ↦ or_stay (first_waiting (λ _. true) s.pcbs 0)
]

pub insanity_choice : List ℕ → Sched → Choice
insanity_choice [] s = spinning
insanity_choice (r ∷ rest) s =
    let again = insanity_choice rest s in
    let pid = r % length s.pcbs in if is_waiting (pcb_at s pid).state then switch pid else again

pub choose : Algorithm → List ℕ → Sched → Choice
choose basic rand s = or_stay (first_waiting (λ _. true) s.pcbs 0)
choose fifo rand s =
    if keeps is_running s
    then switch s.current_process
    else or_unset (scan ltb (λ p. p.creation_quantum) s.pcbs 0 int_max none)
choose sjf rand s = or_unset (scan ltb (λ p. p.workload) s.pcbs 0 int_max (some 0))
choose psjf rand s =
    if keeps is_waiting s
    then switch s.current_process
    else or_unset (scan ltb (λ p. p.workload) s.pcbs 0 int_max (some 0))
choose sctf rand s =
    if keeps is_waiting s
    then switch s.current_process
    else or_unset (scan ltb remaining s.pcbs 0 int_max (some 0))
choose rr rand s = rr_choice s
choose priority_first rand s = or_unset (scan greater (λ p. p.priority) s.pcbs 0 0 (some 0))
choose insanity rand s = if length s.pcbs == 0 then unset else insanity_choice rand s

pub data Outcome : Type 0 where
  switched : Sched → Outcome
  returned : Sched → Outcome
  aborted undefined loops : Outcome

abbrev pub run_choice : Choice → Sched → Outcome
run_choice (switch pid) s = elim (context_switch pid s) [ none ↦ aborted | some s' ↦ switched s' ]
run_choice stay s = returned s
run_choice unset s = undefined
run_choice spinning s = loops

-- The first part of `interrupt_handler`: the current process waits again, and processes arrive.
pub park : Sched → Sched
park s =
    if is_running (current_pcb s).state
    then set_pcb s s.current_process (record (current_pcb s) { state = waiting })
    else s

pub interrupt_handler : Algorithm → List ℕ → (ℕ → ℕ) → Sched → Outcome
interrupt_handler algo rand clock s =
    let ready = handle_arrivals clock (park s) in run_choice (choose algo rand ready) ready
