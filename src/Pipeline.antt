-- ===== src/Pipeline.antt =====
-- `execute_pipeline` of LabWork/Lab9/leetify.c: which programs are started, and what their standard input and
-- output are connected to. The system calls' results are a parameter.
pub mod Connected
mod Tests
use cs.Common.{
  codes, ℕ, zero, suc, ◌+◌, Bool, true, false, Option, none, some, List, [], ◌∷◌, Bytes,
  if◌then◌else◌,
}

-- `struct command_line`
pub record CommandLine : Type 0 where
  pub tokens : List Bytes
  pub stdout_pipe : Bool
  pub stdout_file : Option Bytes

-- What a standard stream leads to; pipes are numbered in the order in which they are made.
pub data Stream : Type 0 where
  inherited : Stream
  pipe : ℕ → Stream
  file : Bytes → Stream

-- A process that reaches `execvp`.
pub record Program : Type 0 where
  pub tokens : List Bytes
  pub input : Stream
  pub output : Stream

-- Whether the calls succeed: `open` of a file, `dup2` on it, and the `pipe` and the `fork` for a command.
pub record Os : Type 0 where
  pub opens : Bytes → Bool
  pub dup2 : Bool
  pub pipes : ℕ → Bool
  pub forks : ℕ → Bool

-- Every command was started; a call failed, so that the rest was not; or the commands ran out, and the array
-- was read past its end.
pub data End : Type 0 where
  all_started failed overrun : End

abbrev pub Outcome : Type 0
Outcome = List Program × End

abbrev pub start : List Bytes → Stream → Stream → Outcome → Outcome
start tokens input output (ps, end) =
    (record { tokens = tokens; input = input; output = output } ∷ ps, end)

-- The last command.
pub run_last : Os → Stream → CommandLine → Outcome
run_last os input c = elim (c.stdout_file) [
  | none ↦ start c.tokens input inherited ([], all_started)
  | some name ↦
      if os.opens name
      then (if os.dup2 then start c.tokens input (file name) ([], all_started) else ([], failed))
      else ([], failed)
]

pub execute_pipeline : Os → ℕ → Stream → List CommandLine → Outcome
execute_pipeline os n input [] = ([], overrun)
execute_pipeline os n input (c ∷ cmds) =
    let rest = execute_pipeline os (n + 1) (pipe n) cmds in
    if c.stdout_pipe
    then (if os.pipes n
        then (if os.forks n then start c.tokens input (pipe n) rest else ([], failed))
        else ([], failed))
    else run_last os input c

-- The three commands of `main`.
pub leetify : Bytes → Option Bytes → List CommandLine
leetify input_file output_file =
    record { tokens = (codes "cat") ∷ input_file ∷ []; stdout_pipe = true; stdout_file = none }
    ∷ record {
      tokens = (codes "tr") ∷ (codes "[:upper:]") ∷ (codes "[:lower:]") ∷ [];
      stdout_pipe = true;
      stdout_file = none;
    }
    ∷ record {
      tokens =
          (codes "sed")
          ∷ (codes "s|the|teh|g; s|a|4|g; s|e|3|g; s|i|!|g; s|l|1|g; s|o|0|g; s|s|5|g;")
          ∷ [];
      stdout_pipe = false;
      stdout_file = output_file;
    }
    ∷ []
