-- ===== src/Specs/Loads.antt =====
-- The table that `read_spec` of LabWork/Lab7/file_format.c leaves for the scheduler.
use cs.Common.{
  ℕ, zero, suc, ◌+◌, ◌≡◌, ◌≢◌, ◌≤◌, ◌<◌, refl, subst, Option, none, some, List, [], ◌∷◌, All-mono,
  Bytes, length, ◌==◌, Bool-cases, Option-cases, true≢false, inl, inr, arith,
}
use cs.Specs.Kept.{Gives, bind-Gives, Admitted, Loaded, load_line-Gives}
use cs.Scheduler.{Pcb, Sched, Algorithm, Context, created}
use cs.Scheduler.Machine.{Reachable, loaded}
use cs.Specs.{no_fuel, ok, fault, take_line, fgets, load_line, read_lines, read_spec, line_sz}

take_line-≤ : (n : ℕ) (file : Bytes) → length (take_line n file).1 ≤ length file
unfolding take_line
take_line-≤ zero file = omega arith
take_line-≤ (suc n) [] = omega arith
take_line-≤ (suc n) (c ∷ file) = elim (Bool-cases (c == 10)) [
  | inl y ↦ rw y (omega arith)
  | inr nl ↦ rw nl (omega (arith, take_line-≤ n file))
]

take_line-< : (n c : ℕ) (file : Bytes) → length (take_line (suc n) (c ∷ file)).1 ≤ length file
unfolding take_line
take_line-< n c file = elim (Bool-cases (c == 10)) [
  | inl y ↦ rw y (omega arith)
  | inr nl ↦ rw nl (take_line-≤ n file)
]

-- A line was read, and less of the file is left.
abbrev Advances : Bytes → Option (Bytes × Bytes) → Type 0
Advances file none = Unit
Advances file (some (line, rest)) = length rest < length file

fgets-Advances : (file : Bytes) → Advances file (fgets line_sz file)
unfolding fgets
fgets-Advances [] = tt
fgets-Advances (c ∷ file) = omega (arith, take_line-< 1022 c file)

read_lines-Gives :
    (k : ℕ) (file : Bytes) (ps : List Pcb)
    → length file < k
    → Loaded ps
    → Gives Loaded (read_lines k file ps)
unfolding read_lines
read_lines-Gives zero file ps fuel h = absurd (omega arith)
read_lines-Gives (suc k) file ps fuel h = elim (Option-cases (fgets line_sz file)) [
  | inl none_left ↦ rw (read_lines, none_left) h
  | inr ((line, rest), e) ↦
      let shorter : length rest < length file = subst (Advances file) e (fgets-Advances file) in
      rw (read_lines, e)
        (bind-Gives Loaded Loaded (load_line ps line) (λ ps'. read_lines k rest ps')
          (load_line-Gives ps line h)
          (λ ps' h'. read_lines-Gives k rest ps' (omega (arith, shorter)) h'))
]

read_spec-Gives : (file : Option Bytes) → Gives Loaded (read_spec file [])
unfolding read_spec
read_spec-Gives none = refl
read_spec-Gives (some file) =
    read_lines-Gives (length file + 1) file [] (omega arith)
      (record { room = omega arith; numbered = tt; admitted = tt })

-- `read_spec` into an empty table, with one more than the bytes of the file as fuel, never runs out of
-- it: its loop ends, with a table or with a fault of the program.
pub read_spec-≢ : (file : Option Bytes) → read_spec file [] ≢ fault no_fuel
read_spec-≢ file e = true≢false (subst (Gives Loaded) e (read_spec-Gives file))

-- The state that `main` of LabWork/Lab7/scheduler.c starts with.
abbrev pub initial : Context → List Pcb → Sched
initial ctx ps = record { current_quantum = 0; current_process = 0; pcbs = ps; main_ctx = ctx }

-- When `read_spec` has read a file into an empty table, the table has at most 100 processes, their ids
-- count up from 0, each is CREATED with no work done, a name of less than 128 bytes and numbers below
-- 2^32, and the state with this table is one that the machine of the scheduler starts from, for every
-- algorithm.
pub read_spec-Reachable :
    (algo : Algorithm) (ctx : Context) (file : Option Bytes) (ps : List Pcb)
    → read_spec file [] ≡ ok ps
    → Loaded ps × Reachable algo (initial ctx ps)
read_spec-Reachable algo ctx file ps e =
    let h : Loaded ps = subst (Gives Loaded) e (read_spec-Gives file) in
    (
      h,
      loaded (initial ctx ps)
          (All-mono Admitted (λ p. p.state ≡ created) ps (λ p a. a.yet_to_arrive) h.admitted),
    )
