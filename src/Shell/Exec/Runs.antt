-- ===== src/Shell/Exec/Runs.antt =====
-- What a command line of Project2/shell.c runs.
use cs.Common.{
  ℕ, ◌≡◌, ◌≤◌, refl, Bool, true, false, Bool-cases, inl, inr, ltb, ◌++◌, ◌<◌, arith, Option, some,
  List, [], ◌∷◌, All, Bytes, codes, length,
}
use cs.History.{starts_with}
use cs.Jobs.{Jobs, num_slots}
use cs.Jobs.Represents.{Job, Represents, add_job-Represents, add_job-full}
use cs.Pipeline.{Outcome, inherited, Program, CommandLine, all_started}
use cs.Pipeline.Connected.{Connected, Works, execute_pipeline-Connected}
use cs.Shell.Split.Line.{line_of, commands_of, Words, Target, split_commands_lem, commands_of-Ended}
use cs.Shell.Exec.{
  Calls, ExecEnd, ran, overrun, command_size, replace_variables, keep_job, run_commands, exec,
}

-- A token that names no variable.
abbrev pub Constant : Bytes → Type 0
Constant t = starts_with (codes "$") t ≡ false

replace_variables-Constant :
    (getenv : Bytes → Option Bytes) (ts : List Bytes)
    → All Constant ts
    → replace_variables getenv ts ≡ some ts
unfolding replace_variables
replace_variables-Constant getenv [] h = refl
replace_variables-Constant getenv (t ∷ []) h = rw h.0 refl
replace_variables-Constant getenv (t ∷ u ∷ ts) h = rw (h.0, h.1.0) refl

-- How `exec` ends for the process `pid` on a table of the jobs `js`: a background job is at the end of the table; one
-- whose command does not fit its slot, or for which there is no slot, overruns an array; any other job leaves the
-- table as it is.
pub data Kept (pid : ℕ) (command : Bytes) (jobs : Jobs) (js : List Job) (started : Outcome)
    : Bool → ExecEnd → Type 0 where
  entered :
      (jobs' : Jobs)
      → length command < command_size
      → length js < num_slots
      → Represents jobs' (js ++ record { pid = pid; command = command } ∷ [])
      → Kept pid command jobs js started true (ran started jobs')
  too_long : command_size ≤ length command → Kept pid command jobs js started true overrun
  full : length js ≡ num_slots → Kept pid command jobs js started true overrun
  waited_for : Kept pid command jobs js started false (ran started jobs)

keep_job-Kept :
    (pid : ℕ) (command : Bytes) (jobs : Jobs) (js : List Job) (started : Outcome)
    (is_background : Bool)
    → Represents jobs js
    → Kept pid command jobs js started is_background
        (keep_job is_background pid command jobs started)
unfolding keep_job
keep_job-Kept pid command jobs js started false r = waited_for
keep_job-Kept pid command jobs js started true r =
    elim (Bool-cases (ltb (length command) command_size)) [
      | inr long ↦ rw long (too_long (ground (arith, long)))
      | inl fits ↦ elim (Bool-cases (ltb (length js) num_slots)) [
        | inl room ↦
            let (jobs', run, r') =
              add_job-Represents jobs js (record { pid = pid; command = command }) r
                (ground (arith, room)) in
            rw (fits, run) (entered jobs' (ground (arith, fits)) (ground (arith, room)) r')
        | inr none_left ↦
            let at_end : length js ≡ num_slots = ground (arith, none_left, r.room) in
            rw (fits, add_job-full pid command jobs js r at_end) (full at_end)
      ]
    ]

-- The programs of the commands, connected, and the table of jobs.
pub record Started (calls : Calls) (pid : ℕ) (cmds : List CommandLine) (is_background : Bool)
    (command : Bytes) (jobs : Jobs) (js : List Job) (end : ExecEnd) : Type 0 where
  pub programs : List Program
  pub keeps : Kept pid command jobs js (programs, all_started) is_background end
  pub connected : Connected 0 inherited cmds programs

run_commands-Started :
    (calls : Calls) (pid : ℕ) (segs : List (List Bytes)) (last : List Bytes) (out : Option Bytes)
    (is_background : Bool) (command : Bytes) (jobs : Jobs) (js : List Job)
    → calls.fork ≡ some pid
    → Works calls.os
    → Represents jobs js
    → Started calls pid
        (commands_of segs last out)
        is_background
        command
        jobs
        js
        (run_commands calls (some (commands_of segs last out)) is_background command jobs)
unfolding run_commands
run_commands-Started calls pid [] last out is_background command jobs js f w r =
    let (ps, run, linked) =
      execute_pipeline-Connected calls.os 0 inherited (commands_of [] last out) w
        (commands_of-Ended [] last out) in
    record {
      programs = ps;
      keeps = rw (f, run) (keep_job-Kept pid command jobs js (ps, all_started) is_background r);
      connected = linked;
    }
run_commands-Started calls pid (seg ∷ segs) last out is_background command jobs js f w r =
    let (ps, run, linked) =
      execute_pipeline-Connected calls.os 0 inherited (commands_of (seg ∷ segs) last out) w
        (commands_of-Ended (seg ∷ segs) last out) in
    record {
      programs = ps;
      keeps = rw (f, run) (keep_job-Kept pid command jobs js (ps, all_started) is_background r);
      connected = linked;
    }

-- For a command line of any number of commands with `|` between them, of which the last may be followed
-- by `>` and the name of a file, where no word starts with `|`, `>` or `$`, each command has less than
-- 625 words and the last is not empty, when `fork` gives a process and no call of the pipeline fails,
-- `exec` starts one program for each command in order, connected by pipes and to the file; and on a
-- table that represents a list of jobs, a background job is put at the end of the list, or, when its
-- command does not fit a slot or there are ten jobs, an array is overrun; without the background the
-- table stays as it is.
pub exec-Started :
    (calls : Calls) (pid : ℕ) (segs : List (List Bytes)) (last : List Bytes) (out : Option Bytes)
    (is_background : Bool) (command : Bytes) (jobs : Jobs) (js : List Job)
    → calls.fork ≡ some pid
    → Works calls.os
    → Represents jobs js
    → All Words segs
    → Words last
    → Target out
    → 1 ≤ length last
    → All Constant (line_of segs last out)
    → Started calls pid
        (commands_of segs last out)
        is_background
        command
        jobs
        js
        (exec calls (line_of segs last out) is_background command jobs)
unfolding exec
exec-Started calls pid segs last out is_background command jobs js f w r ws wl target some_word
      constant =
    rw
      (
        replace_variables-Constant calls.getenv (line_of segs last out) constant,
        split_commands_lem segs last out ws wl target some_word,
      )
      (run_commands-Started calls pid segs last out is_background command jobs js f w r)
