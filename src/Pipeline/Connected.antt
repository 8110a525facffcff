-- ===== src/Pipeline/Connected.antt =====
-- How the programs of a pipeline of LabWork/Lab9/leetify.c are connected.
use cs.Common.{
  ℕ, ◌+◌, ◌≡◌, ◌⊎◌, refl, Option-cases, inl, inr, true, false, Option, none, some, List, [], ◌∷◌,
  Bytes,
}
use cs.Pipeline.{
  CommandLine, Stream, inherited, pipe, file, Program, Os, all_started, start, run_last,
  execute_pipeline,
}

-- Where the last command writes.
abbrev pub sink : Option Bytes → Stream
sink none = inherited
sink (some name) = file name

-- The programs are those of the commands in order, each but the last writing to a pipe of its own, from which
-- the next one reads.
pub data Connected : ℕ → Stream → List CommandLine → List Program → Type 0 where
  last :
      (n : ℕ) (input : Stream) (c : CommandLine) (cs : List CommandLine)
      → c.stdout_pipe ≡ false
      → Connected n input
          (c ∷ cs)
          (record { tokens = c.tokens; input = input; output = sink c.stdout_file } ∷ [])
  link :
      (n : ℕ) (input : Stream) (c : CommandLine) (cs : List CommandLine) (ps : List Program)
      → c.stdout_pipe ≡ true
      → Connected (n + 1) (pipe n) cs ps
      → Connected n input
          (c ∷ cs)
          (record { tokens = c.tokens; input = input; output = pipe n } ∷ ps)

-- The commands of a pipeline: those before the last are marked, and the last is not.
abbrev pub Ended : List CommandLine → Type 0
Ended [] = ⊥
Ended (c ∷ cs) = (c.stdout_pipe ≡ false) ⊎ ((c.stdout_pipe ≡ true) × Ended cs)

-- No call fails.
pub record Works (os : Os) : Type 0 where
  pub opened : (name : Bytes) → os.opens name ≡ true
  pub doubled : os.dup2 ≡ true
  pub piped : (n : ℕ) → os.pipes n ≡ true
  pub forked : (n : ℕ) → os.forks n ≡ true

last_lem :
    (os : Os) (input : Stream) (c : CommandLine)
    → Works os
    → run_last os input c ≡ start c.tokens input (sink c.stdout_file) ([], all_started)
unfolding run_last
last_lem os input c w = elim (Option-cases (c.stdout_file)) [
  | inl e ↦ rw (e, run_last) refl
  | inr f ↦ rw (f.1, run_last, w.opened f.0, w.doubled) refl
]

-- On commands of which the first one without the mark of a pipe is the last to run, when no system call
-- fails, `execute_pipeline` starts one program for each command in order: every one but the last writes
-- to a pipe of its own, from which the next one reads, and the last writes to the file or to the
-- inherited output.
pub execute_pipeline-Connected :
    (os : Os) (n : ℕ) (input : Stream) (cmds : List CommandLine)
    → Works os
    → Ended cmds
    → (ps : List Program) × (execute_pipeline os n input cmds ≡ (ps, all_started))
      × Connected n input cmds ps
unfolding execute_pipeline run_last
execute_pipeline-Connected os n input [] w h = elim h [ ]
execute_pipeline-Connected os n input (c ∷ cs) w (inl e) = (
  record { tokens = c.tokens; input = input; output = sink c.stdout_file } ∷ [],
  rw e (last_lem os input c w),
  last n input c cs e,
)
execute_pipeline-Connected os n input (c ∷ cs) w (inr (e, h)) =
    let (ps, run, linked) = execute_pipeline-Connected os (n + 1) (pipe n) cs w h in
    (
      record { tokens = c.tokens; input = input; output = pipe n } ∷ ps,
      rw (e, w.piped n, w.forked n, run) refl,
      link n input c cs ps e linked,
    )
