-- ===== src/Scheduler/Idle.antt =====
-- `interrupt_handler` of LabWork/Lab7/scheduler.c when no process waits, runs or arrives.
use cs.Common.{
  ℕ, zero, suc, ◌+◌, ◌%◌, ◌<◌, ◌≡◌, ◌≢◌, refl, ap, Bool, true, false, ◌&&◌, Option, none, some,
  List, [], ◌∷◌, All, arith, ltb, ◌==◌, ==_ne, length, get_or,
}
use cs.Scheduler.{
  Pcb, Sched, empty_pcb, is_waiting, is_running, pcb_at, switch, stay, spinning, basic, fifo, sjf,
  psjf, sctf, rr, priority_first, insanity, choose, arrive, arrivals, handle_arrivals, park,
  interrupt_handler, Outcome, switched, returned, undefined, loops, run_choice, first_waiting, scan,
  or_stay, rr_choice, insanity_choice, int_max, remaining, greater,
}
use cs.Scheduler.Resume.{context_switch_lem}

-- A process that neither waits nor runs, and does not arrive in this quantum.
abbrev pub Quiet : ℕ → Pcb → Type 0
Quiet quantum p =
    (is_waiting p.state ≡ false) × (is_running p.state ≡ false) × (p.creation_quantum ≢ quantum)

abbrev pub AllQuiet : Sched → Type 0
AllQuiet s = All (Quiet s.current_quantum) s.pcbs

get_or-Quiet :
    (ps : List Pcb) (i quantum : ℕ)
    → All (Quiet quantum) ps
    → (is_waiting (get_or ps i empty_pcb).state ≡ false)
      × (is_running (get_or ps i empty_pcb).state ≡ false)
get_or-Quiet [] i quantum h = (refl, refl)
get_or-Quiet (p ∷ ps) zero quantum h = (h.0.0, h.0.1)
get_or-Quiet (p ∷ ps) (suc i) quantum h = get_or-Quiet ps i quantum h.1

arrivals-Quiet :
    (quantum : ℕ) (clock : ℕ → ℕ) (i : ℕ) (ps : List Pcb)
    → All (Quiet quantum) ps
    → arrivals quantum clock i ps ≡ ps
unfolding arrivals arrive
arrivals-Quiet quantum clock i [] h = refl
arrivals-Quiet quantum clock i (p ∷ ps) h =
    rw (==_ne p.creation_quantum quantum h.0.2, arrivals-Quiet quantum clock (i + 1) ps h.1) refl

ready-Quiet : (clock : ℕ → ℕ) (s : Sched) → AllQuiet s → handle_arrivals clock (park s) ≡ s
unfolding handle_arrivals park
ready-Quiet clock s h =
    let idle = (get_or-Quiet s.pcbs s.current_process s.current_quantum h).1 in
    rw idle (ap (λ z. record s { pcbs = z }) (arrivals-Quiet s.current_quantum clock 0 s.pcbs h))

first_waiting-Quiet :
    (test : ℕ → Bool) (quantum i : ℕ) (ps : List Pcb)
    → All (Quiet quantum) ps
    → first_waiting test ps i ≡ none
unfolding first_waiting
first_waiting-Quiet test quantum i [] h = refl
first_waiting-Quiet test quantum i (p ∷ ps) h =
    rw (h.0.0, first_waiting-Quiet test quantum (i + 1) ps h.1) refl

scan-Quiet :
    (better : ℕ → ℕ → Bool) (key : Pcb → ℕ) (quantum i bound : ℕ) (pid : Option ℕ) (ps : List Pcb)
    → All (Quiet quantum) ps
    → scan better key ps i bound pid ≡ pid
unfolding scan
scan-Quiet better key quantum i bound pid [] h = refl
scan-Quiet better key quantum i bound pid (p ∷ ps) h =
    rw h.0.0 (scan-Quiet better key quantum (i + 1) bound pid ps h.1)

insanity-Quiet : (rand : List ℕ) (s : Sched) → AllQuiet s → insanity_choice rand s ≡ spinning
unfolding insanity_choice
insanity-Quiet [] s h = refl
insanity-Quiet (r ∷ rand) s h =
    rw ((get_or-Quiet s.pcbs (r % length s.pcbs) s.current_quantum h).0) (insanity-Quiet rand s h)

-- The first process runs, whatever its state was.
abbrev pub Revives : Sched → Outcome → Type 0
Revives s o = (s' : Sched) × (o ≡ switched s') × (is_running (pcb_at s' 0).state ≡ true)

and_false : (b : Bool) → (b && false) ≡ false
and_false true = refl
and_false false = refl

rr-Quiet : (s : Sched) → AllQuiet s → rr_choice s ≡ stay
unfolding rr_choice
rr-Quiet s h =
    let behind = first_waiting-Quiet (λ i. ltb s.current_process i) s.current_quantum 0 s.pcbs h in
    let any = first_waiting-Quiet (λ _. true) s.current_quantum 0 s.pcbs h in
    rw (behind, rr_choice) (ap or_stay any)

revives : (s : Sched) → 0 < length s.pcbs → Revives s (run_choice (switch 0) s)
revives s h =
    let (s', e, r) = context_switch_lem 0 s h in (s', rw (e, run_choice) refl, rw r.runs refl)

-- With a process in the table but none that waits, runs or arrives, an interrupt ends in one of four
-- ways: basic and round robin leave the state as it is, so that the quantum never advances; FIFO
-- switches to a variable that was never set; insanity draws numbers for ever; and the other four let
-- the first process run, even one that has terminated or was never created.
pub idle_outcomes :
    (rand : List ℕ) (clock : ℕ → ℕ) (s : Sched)
    → AllQuiet s
    → 0 < length s.pcbs
    → (interrupt_handler basic rand clock s ≡ returned s)
      × (interrupt_handler rr rand clock s ≡ returned s)
      × (interrupt_handler fifo rand clock s ≡ undefined)
      × (interrupt_handler insanity rand clock s ≡ loops)
      × Revives s (interrupt_handler sjf rand clock s)
      × Revives s (interrupt_handler psjf rand clock s)
      × Revives s (interrupt_handler sctf rand clock s)
      × Revives s (interrupt_handler priority_first rand clock s)
unfolding interrupt_handler choose rr_choice
idle_outcomes rand clock s h some_process =
    let q = s.current_quantum in
    let ready = ready-Quiet clock s h in
    let idle = get_or-Quiet s.pcbs s.current_process q h in
    let any = first_waiting-Quiet (λ _. true) q 0 s.pcbs h in
    let kept = and_false (ltb 0 q) in
    let full : (length s.pcbs == 0) ≡ false = ground arith in
    let none_found = scan-Quiet ltb (λ p. p.creation_quantum) q 0 int_max none s.pcbs h in
    let short = scan-Quiet ltb (λ p. p.workload) q 0 int_max (some 0) s.pcbs h in
    let left = scan-Quiet ltb remaining q 0 int_max (some 0) s.pcbs h in
    let top = scan-Quiet greater (λ p. p.priority) q 0 0 (some 0) s.pcbs h in
    let again = revives s some_process in
    (
      rw (ready, any) refl,
      rw (ready, rr-Quiet s h) refl,
      rw (ready, idle.1, kept, none_found) refl,
      rw (ready, full, insanity-Quiet rand s h) refl,
      rw (ready, short) again,
      rw (ready, idle.0, kept, short) again,
      rw (ready, idle.0, kept, left) again,
      rw (ready, top) again,
    )
