-- ===== src/Shell/Exec.antt =====
-- `exec` of Project2/shell.c, from the tokens of a command line to the programs and the table of jobs. The child
-- runs `execute_pipeline`, which is that of Pipeline but for the message when a program is not found.
pub mod Runs
use cs.Common.{
  ℕ, Bool, true, false, Option, none, some, List, [], ◌∷◌, Bytes, codes, length, drop, ltb,
  if◌then◌else◌,
}
use cs.History.{starts_with}
use cs.Jobs.{Jobs, add_job}
use cs.Pipeline.{Os, Outcome, inherited, CommandLine, execute_pipeline}
use cs.Shell.Split.{split_commands}

-- The environment, the process that `fork` makes (`none` is -1), and the calls of the pipeline.
pub record Calls : Type 0 where
  pub getenv : Bytes → Option Bytes
  pub fork : Option ℕ
  pub os : Os

-- What `exec` comes to: the programs that the child starts and the table of the parent; nothing to run; a failed
-- `fork`; a copy or a table that is overrun; an array of tokens whose NULL was overwritten.
pub data ExecEnd : Type 0 where
  ran : Outcome → Jobs → ExecEnd
  nothing : Jobs → ExecEnd
  no_fork : Jobs → ExecEnd
  overrun stale : ExecEnd

-- The bytes of a slot for the command of a job.
abbrev pub command_size : ℕ
command_size = 5000

abbrev set_second : List Bytes → Option Bytes → Option (List Bytes)
set_second ts none = some ts
set_second [] (some check) = none
set_second (t ∷ []) (some check) = none
set_second (t ∷ u ∷ ts) (some check) = some (t ∷ check ∷ ts)

-- Of the second token; there may be none.
abbrev second_variable : (Bytes → Option Bytes) → List Bytes → Option (List Bytes)
second_variable getenv [] = some []
second_variable getenv (t ∷ []) = some (t ∷ [])
second_variable getenv (t ∷ u ∷ ts) =
    if starts_with (codes "$") u
    then set_second (t ∷ u ∷ ts) (getenv (drop 1 u))
    else some (t ∷ u ∷ ts)

-- The value of a variable is put into the second place, also when it is the first token that names it; `none` is
-- an array that has lost its NULL.
unfoldable pub replace_variables : (Bytes → Option Bytes) → List Bytes → Option (List Bytes)
replace_variables getenv [] = some []
replace_variables getenv (t ∷ ts) =
    if starts_with (codes "$") t
    then set_second (t ∷ ts) (getenv (drop 1 t))
    else second_variable getenv (t ∷ ts)

abbrev background : Option Jobs → Outcome → ExecEnd
background none programs = overrun
background (some jobs) programs = ran programs jobs

-- The parent: a background job is entered, and another one is waited for.
pub keep_job : Bool → ℕ → Bytes → Jobs → Outcome → ExecEnd
keep_job false pid command jobs programs = ran programs jobs
keep_job true pid command jobs programs =
    if ltb (length command) command_size
    then background (add_job pid command jobs) programs
    else overrun

abbrev forked : Option ℕ → Bool → Bytes → Jobs → Outcome → ExecEnd
forked none is_background command jobs programs = no_fork jobs
forked (some pid) is_background command jobs programs =
    keep_job is_background pid command jobs programs

pub run_commands : Calls → Option (List CommandLine) → Bool → Bytes → Jobs → ExecEnd
run_commands calls none is_background command jobs = overrun
run_commands calls (some []) is_background command jobs = nothing jobs
run_commands calls (some (c ∷ cmds)) is_background command jobs =
    forked calls.fork is_background command jobs (execute_pipeline calls.os 0 inherited (c ∷ cmds))

abbrev split_all : Calls → Option (List Bytes) → Bool → Bytes → Jobs → ExecEnd
split_all calls none is_background command jobs = stale
split_all calls (some tokens) is_background command jobs =
    run_commands calls (split_commands tokens) is_background command jobs

unfoldable pub exec : Calls → List Bytes → Bool → Bytes → Jobs → ExecEnd
exec calls tokens is_background command_char jobs =
    split_all calls (replace_variables calls.getenv tokens) is_background command_char jobs
