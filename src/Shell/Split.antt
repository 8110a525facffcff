-- ===== src/Shell/Split.antt =====
-- The loop of `exec` of Project2/shell.c that splits the tokens of a command line at `|` and `>`.
pub mod Pipes
pub mod Line
use cs.Common.{
  ℕ, zero, suc, ◌+◌, ◌-◌, Bool, true, false, Option, none, some, List, [], ◌∷◌, ◌++◌, Bytes, codes,
  length, get_or, get_elem?, strcmp_eq, ltb, ◌==◌, if◌then◌else◌,
}
use cs.History.{starts_with}
use cs.Pipeline.{CommandLine}

-- The pointers that `malloc(5000)` has room for.
abbrev pub max_pointers : ℕ
max_pointers = 625

-- `last`, `hasPipe`, and the commands up to `index`.
pub record Progress : Type 0 where
  pub last : ℕ
  pub has_pipe : Bool
  pub cmds : List CommandLine

abbrev pub nothing_yet : Progress
nothing_yet = record { last = 0; has_pipe = false; cmds = [] }

-- The first token that is not copied yet.
abbrev pub from : Progress → ℕ
from s = if s.has_pipe then s.last + 1 else s.last

-- The copying loop: `k` rounds are left, and it breaks at the token `stop`. The tokens, and `current`.
unfoldable pub copy_until : Bytes → ℕ → ℕ → List Bytes → List Bytes × ℕ
copy_until stop zero current tokens = ([], current)
copy_until stop (suc k) current tokens =
    let rest = copy_until stop k (current + 1) tokens in
    if strcmp_eq (get_or tokens current []) stop
    then ([], current)
    else (get_or tokens current [] ∷ rest.0, rest.1)

unfoldable pub copy_rest : ℕ → ℕ → List Bytes → List Bytes
copy_rest zero current tokens = []
copy_rest (suc k) current tokens = get_or tokens current [] ∷ copy_rest k (current + 1) tokens

-- A command is put behind the others; `none` is a copy past the end of `temp_tokens`.
unfoldable pub add_command : ℕ → Bool → CommandLine → Progress → Option Progress
add_command last has_pipe c s =
    if ltb (length c.tokens) max_pointers
    then some (record { last = last; has_pipe = has_pipe; cmds = s.cmds ++ c ∷ [] })
    else none

abbrev then_do : Option Progress → (Progress → Option Progress) → Option Progress
then_do none f = none
then_do (some s) f = f s

unfoldable pub at_pipe : List Bytes → ℕ → Progress → Option Progress
at_pipe tokens t s =
    let copied = copy_until (codes "|") (t + 1 - from s) (from s) tokens in
    add_command t true (record { tokens = copied.0; stdout_pipe = true; stdout_file = none }) s

-- The slot behind the NULL, and what follows it, is taken to be NULL.
unfoldable pub at_file : List Bytes → ℕ → Progress → Option Progress
at_file tokens t s =
    let copied = copy_until (codes ">") (t + 1 - from s) (from s) tokens in
    add_command t true
      (record {
        tokens = copied.0;
        stdout_pipe = false;
        stdout_file = get_elem? tokens (copied.1 + 1);
      })
      s

unfoldable pub at_end : List Bytes → ℕ → Progress → Option Progress
at_end tokens t s =
    add_command s.last s.has_pipe
      (record {
        tokens = copy_rest (t + 1 - from s) (from s) tokens;
        stdout_pipe = false;
        stdout_file = none;
      })
      s

abbrev when : Bool → (Progress → Option Progress) → Progress → Option Progress
when b f s = if b then f s else some s

-- A round of the loop, for the token at `t`.
unfoldable pub round : List Bytes → ℕ → Progress → Option Progress
round tokens t s =
    let token = get_or tokens t [] in
    then_do
      (then_do (when (starts_with (codes "|") token) (at_pipe tokens t) s)
        (when (starts_with (codes ">") token) (at_file tokens t)))
      (when (t + 1 == length tokens) (at_end tokens t))

unfoldable pub rounds_from : ℕ → List Bytes → ℕ → Progress → Option Progress
rounds_from zero tokens t s = some s
rounds_from (suc k) tokens t s = then_do (round tokens t s) (rounds_from k tokens (t + 1))

abbrev cmds_of : Option Progress → Option (List CommandLine)
cmds_of none = none
cmds_of (some s) = some s.cmds

unfoldable pub split_commands : List Bytes → Option (List CommandLine)
split_commands tokens = cmds_of (rounds_from (length tokens) tokens 0 nothing_yet)
