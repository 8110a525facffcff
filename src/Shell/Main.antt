-- ===== src/Shell/Main.antt =====
-- A round of the loop of `main` of Project2/shell.c: a line that was read, and what it does.
pub mod Synced
use cs.Common.{
  ℕ, zero, suc, ◌+◌, ◌-◌, Bool, true, false, ◌&&◌, Option, none, some, List, [], ◌∷◌, ◌++◌, Bytes,
  codes, length, drop, get_or, get_elem?, strcmp_eq, ltb, ◌==◌, if◌then◌else◌, ℤ, pos, negsuc,
}
use cs.History.{print_history}
use cs.Jobs.{Jobs}
use cs.Shell.Exec.{Calls, ExecEnd, ran, overrun, stale, exec}
use cs.Shell.Recall.{
  Shell, Fault, null_string, array_overrun, Step, ok, fault, then_do, count_cmd, read_words, expand,
}

-- What a command does besides: `exec` is called for every command that is not built in, `setenv` among them.
pub data Effect : Type 0 where
  empty_line exit_shell : Effect
  show_history : List (ℤ × Bytes) → Effect
  change_dir : Option Bytes → Effect
  show_jobs : List Bytes → Effect
  runs : Option (Bytes × Bytes) → ExecEnd → Effect

-- Whether the last word is `&`, and the words in front of it.
unfoldable pub is_background : List Bytes → Bool
is_background [] = false
is_background (t ∷ []) = strcmp_eq t (codes "&")
is_background (t ∷ u ∷ ts) = is_background (u ∷ ts)

pub without_last : List Bytes → List Bytes
without_last [] = []
without_last (t ∷ []) = []
without_last (t ∷ u ∷ ts) = t ∷ without_last (u ∷ ts)

abbrev foreground_words : List Bytes → List Bytes
foreground_words ts = if is_background ts then without_last ts else ts

abbrev take_slots : ℕ → List Bytes → List Bytes
take_slots zero cmds = []
take_slots (suc n) [] = []
take_slots (suc n) (c ∷ cmds) = c ∷ take_slots n cmds

abbrev first_jobs : ℤ → List Bytes → List Bytes
first_jobs (negsuc n) cmds = []
first_jobs (pos n) cmds = take_slots n cmds

-- The commands of the jobs, as many as the count says.
pub job_lines : Jobs → List Bytes
job_lines j = first_jobs j.count j.bg_cmds

-- The value and the name for `setenv`, in arrays of 256 bytes.
pub env_setting : Option Bytes → Option Bytes → Step (Option (Bytes × Bytes))
env_setting none value = ok none
env_setting (some name) none = ok none
env_setting (some name) (some value) =
    if ltb (length name) 256 && ltb (length value) 256
    then ok (some (name, value))
    else fault array_overrun

abbrev drop_last : Bytes → Bytes
drop_last [] = []
drop_last (c ∷ []) = []
drop_last (c ∷ d ∷ s) = c ∷ drop_last (d ∷ s)

-- The second word without the quote it starts with, and without its last byte; an empty rest writes in front
-- of the array.
unfoldable pub unquote : ℕ → List Bytes → Step (List Bytes)
unquote quote (t ∷ (c ∷ s) ∷ ts) =
    if c == quote
    then if ltb (length s) 500 && ltb 0 (length s)
      then ok (t ∷ drop_last s ∷ ts)
      else fault array_overrun
    else ok (t ∷ (c ∷ s) ∷ ts)
unquote quote ts = ok ts

abbrev set_env : List Bytes → Step (Option (Bytes × Bytes))
set_env ts =
    if strcmp_eq (get_or ts 0 []) (codes "setenv")
    then env_setting (get_elem? ts 1) (get_elem? ts 2)
    else ok none

-- The table of jobs that `exec` leaves.
abbrev jobs_after : ExecEnd → Jobs → Jobs
jobs_after (ran programs jobs) old = jobs
jobs_after _ old = old

abbrev ran_words : Option (Bytes × Bytes) → ExecEnd → Shell → Step (Effect × Shell)
ran_words setting overrun sh = fault array_overrun
ran_words setting stale sh = fault null_string
ran_words setting end sh = ok (runs setting end, record sh { jobs = jobs_after end sh.jobs })

-- A command that is not built in.
pub run_words : Calls → Bool → Bytes → List Bytes → Shell → Step (Effect × Shell)
run_words calls background command ts sh = then_do (set_env ts) (λ setting.
    then_do (unquote 34 ts) (λ ts1.
      then_do (unquote 39 ts1)
        (λ ts2. ran_words setting (exec calls ts2 background command sh.jobs) sh)))

abbrev quoted_then : List Bytes → Effect → Shell → Step (Effect × Shell)
quoted_then ts effect sh =
    then_do (unquote 34 ts) (λ ts1. then_do (unquote 39 ts1) (λ ts2. ok (effect, sh)))

-- The comparisons with the names of the built-in commands.
unfoldable pub run_command : Calls → Bool → Bytes → List Bytes → Shell → Step (Effect × Shell)
run_command calls background command [] sh = fault null_string
run_command calls background command (t ∷ ts) sh =
    if strcmp_eq t (codes "exit")
    then ok (exit_shell, sh)
    else if strcmp_eq t (codes "history")
    then quoted_then (t ∷ ts) (show_history (print_history sh.history)) sh
    else if strcmp_eq t (codes "cd")
    then quoted_then (t ∷ ts) (change_dir (get_elem? ts 0)) sh
    else if strcmp_eq t (codes "num_jobs")
    then quoted_then (t ∷ ts) (show_jobs (job_lines sh.jobs)) sh
    else run_words calls background command (t ∷ ts) sh

abbrev handle_words : Calls → Bytes → Bytes → List Bytes → Shell → Step (Effect × Shell)
handle_words calls garbage command [] sh = ok (empty_line, sh)
handle_words calls garbage command (t ∷ ts) sh =
    then_do (expand garbage command (foreground_words (t ∷ ts)) (count_cmd sh))
      (λ (words, sh'). run_command calls (is_background (t ∷ ts)) command words sh')

-- A line; `garbage` is what fresh memory holds.
unfoldable pub handle_command : Calls → Bytes → Bytes → Shell → Step (Effect × Shell)
handle_command calls garbage line sh =
    then_do (read_words line sh) (λ (ts, sh'). handle_words calls garbage line ts sh')
