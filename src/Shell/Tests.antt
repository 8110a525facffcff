-- ===== src/Shell/Tests.antt =====
-- Command lines of Project2/shell.c.
use cs.Common.{
  ℕ, zero, suc, get_or, Bool, ◌≡◌, refl, true, false, none, some, List, [], ◌∷◌, ◌++◌, Bytes, codes,
  pos, arith,
}
use cs.History.{starts_with}
use cs.Jobs.Represents.{Represents}
use cs.Jobs.{Jobs}
use cs.Tokens.{cut}
use cs.Tokens.Split.{last, more}
use cs.Shell.Split.{
  split_commands, rounds_from, round, at_pipe, at_file, at_end, add_command, copy_until, copy_rest,
}
use cs.Shell.Split.Line.{line_of, commands_of, split_commands_lem}
use cs.Shell.Exec.{Calls, stale, exec, replace_variables}
use cs.Shell.Exec.Runs.{Started, exec-Started}
use cs.History.{add_history, get_cmd}
use cs.Shell.Recall.{
  Shell, Step, ok, fault, remember, note_comment, read_words, expand, recall_last, recall_slot,
}
use cs.Shell.Main.{
  Effect, empty_line, change_dir, unquote, is_background, run_command, handle_command,
}
use cs.Shell.Prompt.{Info, Prompt, frees_stack, print_prompt}
use cs.Shell.Main.Synced.{Synced, handle_command-Synced}
use cs.Shell.Tokenizer.{
  tokens, quoted_token, quoted_end, token_end, take_token, tokenizer_from, tokenizer,
}
use cs.Shell.Tokenizer.Words.{tokenizer_lem}

abbrev listing : List (List Bytes)
listing = (codes "ls" ∷ codes "-l" ∷ []) ∷ []

abbrev counting : List Bytes
counting = codes "wc" ∷ []

-- ls -l | wc > f
listing_split :
    split_commands (line_of listing counting (some (codes "f")))
    ≡ some (commands_of listing counting (some (codes "f")))
unfolding starts_with
listing_split =
    split_commands_lem listing counting (some (codes "f"))
      ((((refl, refl), ((refl, refl), tt)), omega arith), tt) (((refl, refl), tt), omega arith)
      (refl, refl) (omega arith)

-- A line that ends with a pipe leaves a command without words.
open_pipe :
    split_commands (codes "a" ∷ codes "|" ∷ [])
    ≡ some (
        record { tokens = codes "a" ∷ []; stdout_pipe = true; stdout_file = none }
        ∷ record { tokens = []; stdout_pipe = false; stdout_file = none }
        ∷ [])
unfolding split_commands rounds_from round at_pipe at_file at_end add_command copy_until copy_rest
    starts_with
open_pipe = refl

abbrev calls : Calls
calls = record {
  getenv = λ name. some (codes "x");
  fork = some 7;
  os = record { opens = λ _. true; dup2 = true; pipes = λ _. true; forks = λ _. true };
}

abbrev no_jobs : Jobs
no_jobs = record {
  num_jobs = 0 ∷ 0 ∷ 0 ∷ 0 ∷ 0 ∷ 0 ∷ 0 ∷ 0 ∷ 0 ∷ 0 ∷ [];
  bg_cmds = [] ∷ [] ∷ [] ∷ [] ∷ [] ∷ [] ∷ [] ∷ [] ∷ [] ∷ [] ∷ [];
  count = pos 0;
}

no_jobs-Represents : Represents no_jobs []
no_jobs-Represents = record { free = 10; room = refl; pids = refl; commands = refl; counted = refl }

exec-Started_example :
    Started calls 7
      (commands_of listing counting none)
      true
      (codes "ls -l | wc &")
      no_jobs
      []
      (exec calls (line_of listing counting none) true (codes "ls -l | wc &") no_jobs)
unfolding starts_with
exec-Started_example =
    exec-Started calls 7 listing counting none true (codes "ls -l | wc &") no_jobs [] refl
      (record { opened = λ _. refl; doubled = refl; piped = λ _. refl; forked = λ _. refl })
      no_jobs-Represents ((((refl, refl), ((refl, refl), tt)), omega arith), tt)
      (((refl, refl), tt), omega arith) tt (omega arith) (refl, (refl, (refl, (refl, tt))))

-- A variable alone on its line.
lost_end : exec calls (codes "$HOME" ∷ []) false [] no_jobs ≡ stale
unfolding exec replace_variables starts_with
lost_end = refl

tokenizer_lem_example : tokenizer 9 (codes "a #b" ++ 0 ∷ []) ≡ tokens (codes "a" ∷ [])
tokenizer_lem_example =
    tokenizer_lem 9 (codes "a #b") [] (codes "a" ∷ codes "#b" ∷ [])
      ((omega arith, refl), ((omega arith, refl), ((omega arith, refl), ((omega arith, refl), tt))))
      (more (codes "a #b") [] 97 [] 32 (codes "#b") (codes "#b" ∷ []) refl tt (refl, tt) refl
        (last (codes "#b") [] 35 (codes "b") refl tt (refl, (refl, tt))))
      (omega arith) (omega arith)

-- What stands in quotes is one word.
quoted :
    tokenizer 9 (codes "a 'b c' d" ++ 0 ∷ []) ≡ tokens (codes "a" ∷ codes "'b c'" ∷ codes "d" ∷ [])
unfolding tokenizer tokenizer_from take_token quoted_token token_end quoted_end cut
quoted = refl

-- Two blanks in front of a quote are enough for it not to be seen.
split_quote :
    tokenizer 9 (codes "a   'b c'" ++ 0 ∷ []) ≡ tokens (codes "a" ∷ codes "'b" ∷ codes "c'" ∷ [])
unfolding tokenizer tokenizer_from take_token quoted_token token_end quoted_end cut
split_quote = refl

abbrev slots : ℕ → List Bytes
slots zero = []
slots (suc n) = [] ∷ slots n

abbrev first_prompt : Shell
first_prompt = record {
  num_cmds = 0;
  history = record { history = slots 100; minimum = 0; cmd_count = 0; tail = 0 };
  jobs = no_jobs;
}

abbrev shell_after : Step (Effect × Shell) → Shell
shell_after (ok r) = r.1
shell_after (fault e) = first_prompt

abbrev effect_of : Step (Effect × Shell) → Effect
effect_of (ok r) = r.0
effect_of (fault e) = empty_line

abbrev change_home : Step (Effect × Shell)
change_home = handle_command calls [] (codes "cd x\n") first_prompt

change_home-ok : change_home ≡ ok (effect_of change_home, shell_after change_home)
unfolding handle_command read_words note_comment starts_with expand remember add_history run_command
    unquote is_background tokenizer tokenizer_from take_token quoted_token token_end cut
change_home-ok = refl

handle_command-Synced_example : Synced (shell_after change_home)
handle_command-Synced_example =
    handle_command-Synced calls [] (codes "cd x\n") first_prompt (shell_after change_home)
      (effect_of change_home) refl change_home-ok

abbrev again : Step (Effect × Shell)
again = handle_command calls [] (codes "!!\n") (shell_after change_home)

-- The last command again, which is then in the history twice.
again_changes : effect_of again ≡ change_dir (some (codes "x"))
unfolding handle_command read_words note_comment starts_with expand recall_last recall_slot remember
    add_history get_cmd run_command unquote is_background tokenizer tokenizer_from take_token
    quoted_token token_end cut
again_changes = refl

again_twice :
    (get_or (shell_after again).history.history 0 [] ≡ codes "cd x\n")
    × (get_or (shell_after again).history.history 1 [] ≡ codes "cd x\n")
unfolding handle_command read_words note_comment starts_with expand recall_last recall_slot remember
    add_history get_cmd run_command unquote is_background tokenizer tokenizer_from take_token
    quoted_token token_end cut
again_twice = (refl, refl)

abbrev outside : Bytes → Prompt → Bool
outside dir (frees_stack text) = true
outside dir _ = false

abbrev bob : Info
bob = record { hostname = codes "h"; username = codes "bob"; name_dir = codes "/home/bob" }

-- Outside of the home directory an array of the stack is freed.
prompt_outside : outside (codes "/tmp") (print_prompt 0 bob (some (codes "/tmp"))) ≡ true
unfolding print_prompt starts_with
prompt_outside = refl

prompt_inside :
    outside (codes "/home/bob/src") (print_prompt 0 bob (some (codes "/home/bob/src"))) ≡ false
unfolding print_prompt starts_with
prompt_inside = refl
