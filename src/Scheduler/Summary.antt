-- ===== src/Scheduler/Summary.antt =====
-- The end of `main` of LabWork/Lab7/scheduler.c: when the loop of interrupts is over, the choice of the
-- algorithm by its name, and the order of completion.
mod Order
mod Tests
use cs.Common.{
  ℕ, zero, suc, ◌+◌, ◌-◌, ◌/◌, ◌<◌, Bool, true, false, ◌&&◌, List, [], ◌∷◌, map, Bytes, String, ltb,
  if◌then◌else◌, length,
}
use text.Mathlib.Text.{◌==◌ as str_eq}
use cs.Scheduler.{
  Pcb, Sched, Algorithm, is_terminated, basic, fifo, sjf, psjf, sctf, rr, priority_first, insanity,
}

pub all_terminated : List Pcb → Bool
all_terminated [] = true
all_terminated (p ∷ ps) = is_terminated p.state && all_terminated ps

pub finished : Sched → Bool
finished s = ltb 0 (length s.pcbs) && all_terminated s.pcbs

-- The comparisons of `argv[1]`.
pub algorithm_for : String → Algorithm
algorithm_for name =
    if str_eq name "basic"
    then basic
    else if str_eq name "fifo"
    then fifo
    else if str_eq name "sjf"
    then sjf
    else if str_eq name "psjf"
    then psjf
    else if str_eq name "sctf"
    then sctf
    else if str_eq name "rr"
    then rr
    else if str_eq name "priority"
    then priority_first
    else if str_eq name "insanity"
    then insanity
    else basic

-- A completion time in whole seconds, as it is put into an `int`, and a name.
abbrev pub Entry : Type 0
Entry = ℕ × Bytes

pub entry : Pcb → Entry
entry p = (p.completion_time / 1000000, p.name)

-- The inner loop, from the entry at `j` on.
pub sweep : Entry → List Entry → List Entry
sweep x [] = x ∷ []
sweep x (y ∷ ys) = if ltb y.0 x.0 then y ∷ sweep x ys else x ∷ sweep y ys

pub pass : List Entry → List Entry
pass [] = []
pass (x ∷ xs) = sweep x xs

pub passes : ℕ → List Entry → List Entry
passes zero xs = xs
passes (suc n) xs = passes n (pass xs)

pub completion_order : List Pcb → List Entry
completion_order ps = passes (length ps - 1) (map entry ps)
