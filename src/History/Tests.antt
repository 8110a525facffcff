-- ===== src/History/Tests.antt =====
-- A short history of Project2/history.c, and what it recalls.
use cs.Common.{
  pos, ℕ, zero, suc, ◌%◌, ◌≡◌, refl, some, List, [], ◌∷◌, ◌++◌, Bytes, codes, get_or, arith,
}
use cs.History.{
  History, max, add_history, get_cmd, find_cmd, find_from, print_history, overrun, copy_found,
  starts_with,
}
use cs.History.Represents.{Represents, after_add, after_add-Represents, add_history-Represents}
use cs.History.Recall.{Recalls, get_cmd-Recalls}
use cs.History.Find.{Finds, find_cmd-Finds}
use cs.History.Print.{numbered, print_history_lem}

abbrev empty_slots : ℕ → List Bytes
empty_slots zero = []
empty_slots (suc n) = [] ∷ empty_slots n

empty_slots_lem : (n i : ℕ) → get_or (empty_slots n) i [] ≡ []
empty_slots_lem zero i = refl
empty_slots_lem (suc n) zero = refl
empty_slots_lem (suc n) (suc i) = empty_slots_lem n i

abbrev start : History
start = record { history = empty_slots 100; minimum = 0; cmd_count = 0; tail = 0 }

start-Represents : Represents start []
start-Represents = record {
  counts = refl;
  oldest = omega arith;
  newest = omega arith;
  slots = refl;
  kept = λ i b k. absurd (omega (arith, b));
  unwritten = λ i b k. empty_slots_lem 100 (i % max);
}

abbrev commands : List Bytes
commands = codes "ls" ∷ codes "echo hello" ∷ []

abbrev used : History
used = after_add (codes "echo hello") (after_add (codes "ls") start)

used-Represents : Represents used commands
used-Represents =
    after_add-Represents (after_add (codes "ls") start) (codes "ls" ∷ []) (codes "echo hello")
      (after_add-Represents start [] (codes "ls") start-Represents)

add_history-Represents_example :
    (h' : History) × (add_history (codes "pwd") used ≡ some h')
    × Represents h' (commands ++ codes "pwd" ∷ [])
add_history-Represents_example =
    add_history-Represents used commands (codes "pwd") used-Represents (omega arith)

get_cmd-Recalls_example : Recalls commands (pos 1) (get_cmd (pos 1) used)
get_cmd-Recalls_example = get_cmd-Recalls (pos 1) used commands used-Represents

find_cmd-Finds_example : Finds (codes "e") commands 0 2 (find_cmd (codes "e") used)
find_cmd-Finds_example = find_cmd-Finds (codes "e") used commands used-Represents

print_history_lem_example : print_history used ≡ numbered 2 0 commands
print_history_lem_example = print_history_lem used commands used-Represents

-- The copy of a found command of ten bytes runs past its buffer.
found_overruns : find_cmd (codes "ec") used ≡ overrun (codes "echo hello")
unfolding find_cmd find_from get_cmd starts_with copy_found
found_overruns = refl

-- The number behind the last command is let through.
behind_last : get_cmd (pos 2) used ≡ some []
unfolding get_cmd
behind_last = refl
