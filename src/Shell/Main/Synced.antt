-- ===== src/Shell/Main/Synced.antt =====
-- What a round of the loop of `main` of Project2/shell.c keeps: the two counts of commands, its own `num_cmds` and
-- `cmd_count` of Project2/history.c.
use cs.Common.{◌≡◌, Bool, subst, Option, List, [], ◌∷◌, Bytes, codes, get_elem?, strcmp_eq, arith}
use cs.History.{print_history}
use cs.Shell.Exec.{Calls, ExecEnd, ran, nothing, no_fork, overrun, stale, exec}
use cs.Shell.Recall.{Shell, ok, count_cmd, read_words, expand}
use cs.Shell.Recall.Counts.{
  Holds, then-Holds, any-Holds, if-Holds, Ahead, Second, read_words-Ahead, expand-Ahead,
}
use cs.Shell.Main.{
  Effect, exit_shell, show_history, change_dir, show_jobs, job_lines, is_background,
  foreground_words, unquote, set_env, ran_words, run_words, quoted_then, run_command, handle_words,
  handle_command,
}

quoted_then-Ahead :
    (ts : List Bytes) (effect : Effect) (sh : Shell)
    → Ahead 0 sh
    → Holds (Second 0) (quoted_then ts effect sh)
quoted_then-Ahead ts effect sh h =
    any-Holds (Second 0) _
      (λ ts1. any-Holds (Second 0) (λ ts2. ok (effect, sh)) (λ ts2. h) (unquote 39 ts1))
      (unquote 34 ts)

ran_words-Ahead :
    (setting : Option (Bytes × Bytes)) (end : ExecEnd) (sh : Shell)
    → Ahead 0 sh
    → Holds (Second 0) (ran_words setting end sh)
ran_words-Ahead setting (ran programs jobs) sh h = h
ran_words-Ahead setting (nothing jobs) sh h = h
ran_words-Ahead setting (no_fork jobs) sh h = h
ran_words-Ahead setting overrun sh h = tt
ran_words-Ahead setting stale sh h = tt

run_words-Ahead :
    (calls : Calls) (background : Bool) (command : Bytes) (ts : List Bytes) (sh : Shell)
    → Ahead 0 sh
    → Holds (Second 0) (run_words calls background command ts sh)
unfolding run_words
run_words-Ahead calls background command ts sh h =
    any-Holds (Second 0) _
      (λ setting.
        any-Holds (Second 0) _
          (λ ts1.
            any-Holds (Second 0)
              (λ ts2. ran_words setting (exec calls ts2 background command sh.jobs) sh)
              (λ ts2. ran_words-Ahead setting (exec calls ts2 background command sh.jobs) sh h)
              (unquote 39 ts1))
          (unquote 34 ts))
      (set_env ts)

run_command-Ahead :
    (calls : Calls) (background : Bool) (command : Bytes) (ts : List Bytes) (sh : Shell)
    → Ahead 0 sh
    → Holds (Second 0) (run_command calls background command ts sh)
unfolding run_command
run_command-Ahead calls background command [] sh h = tt
run_command-Ahead calls background command (t ∷ ts) sh h =
    if-Holds (Second 0) (strcmp_eq t (codes "exit")) (ok (exit_shell, sh)) _ h (
      if-Holds (Second 0) (strcmp_eq t (codes "history")) _ _
        (quoted_then-Ahead (t ∷ ts) (show_history (print_history sh.history)) sh h)
        (if-Holds (Second 0) (strcmp_eq t (codes "cd")) _ _
          (quoted_then-Ahead (t ∷ ts) (change_dir (get_elem? ts 0)) sh h)
          (if-Holds (Second 0) (strcmp_eq t (codes "num_jobs")) _ _
            (quoted_then-Ahead (t ∷ ts) (show_jobs (job_lines sh.jobs)) sh h)
            (run_words-Ahead calls background command (t ∷ ts) sh h))))

handle_words-Ahead :
    (calls : Calls) (garbage command : Bytes) (ts : List Bytes) (sh : Shell)
    → Ahead 0 sh
    → Holds (Second 0) (handle_words calls garbage command ts sh)
handle_words-Ahead calls garbage command [] sh h = h
handle_words-Ahead calls garbage command (t ∷ ts) sh h =
    then-Holds (Second 0) (Second 0) _
      (λ (words, sh') h'. run_command-Ahead calls (is_background (t ∷ ts)) command words sh' h')
      (expand garbage command (foreground_words (t ∷ ts)) (count_cmd sh))
      (expand-Ahead garbage command (foreground_words (t ∷ ts)) (count_cmd sh) (omega (arith, h)))

abbrev pub Synced : Shell → Type 0
Synced sh = sh.num_cmds ≡ sh.history.cmd_count

-- When the loop of `main` has as many commands in the history as it has counted, which is what `!!`
-- goes by, and a line is handled without a fault, built in or not, with a history expansion or without,
-- found or not, it has as many again.
pub handle_command-Synced :
    (calls : Calls) (garbage line : Bytes) (sh sh' : Shell) (effect : Effect)
    → Synced sh
    → handle_command calls garbage line sh ≡ ok (effect, sh')
    → Synced sh'
unfolding handle_command
handle_command-Synced calls garbage line sh sh' effect h e =
    let ahead : Holds (Second 0) (handle_command calls garbage line sh) =
      then-Holds (Second 0) (Second 0) _
        (λ (ts, s') h'. handle_words-Ahead calls garbage line ts s' h') (read_words line sh)
        (read_words-Ahead 0 line sh (omega (arith, h))) in
    let last = subst (Holds (Second 0)) e ahead in omega (arith, last)
