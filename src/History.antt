-- ===== src/History.antt =====
-- Project2/history.c: the shell's last 100 commands, in a ring of slots. A command is the string that is
-- copied, and the counts stay below 2^31, where an `int` ends.
mod Ring
mod Represents
mod Recall
mod Find
mod Print
mod Tests
use cs.Common.{
  ℤ, pos, negsuc, ℕ, zero, suc, ◌+◌, ◌-◌, ◌%◌, Bool, true, false, ◌&&◌, Option, none, some, List,
  [], ◌∷◌, Bytes, length, set, get_or, ltb, leb, ◌==◌, if◌then◌else◌,
}

-- `max`, the number of slots, and the bytes of one.
abbrev pub max : ℕ
max = 100

abbrev pub slot_size : ℕ
slot_size = 100000

pub record History : Type 0 where
  pub history : List Bytes
  pub minimum : ℕ
  pub cmd_count : ℕ
  pub tail : ℕ

abbrev pub slot : History → ℕ → Bytes
slot h i = get_or h.history (i % max) []

-- `none` is a copy past the end of a slot.
unfoldable pub add_history : Bytes → History → Option History
add_history command h =
    if ltb (length command) slot_size
    then some (record {
      history = set h.history (h.cmd_count % max) command;
      minimum = if ltb max (h.cmd_count + 1) then h.minimum + 1 else h.minimum;
      cmd_count = h.cmd_count + 1;
      tail = h.cmd_count % max;
    })
    else none

unfoldable pub get_cmd : ℤ → History → Option Bytes
get_cmd (pos num) h = if leb h.minimum num && leb num h.cmd_count then some (slot h num) else none
get_cmd (negsuc num) h = none

-- `strncmp(command, cmd, strlen(cmd)) == 0`
unfoldable pub starts_with : Bytes → Bytes → Bool
starts_with [] command = true
starts_with (c ∷ cmd) [] = false
starts_with (c ∷ cmd) (d ∷ command) = (c == d) && starts_with cmd command

-- What `find_cmd` returns: NULL, a copy of a command, or a copy that runs past the end of its buffer, which
-- has one byte more than a pointer.
pub data Found : Type 0 where
  not_found : Found
  copied : Bytes → Found
  overrun : Bytes → Found

pub copy_found : Bytes → Found
copy_found command = if ltb (length command) 9 then copied command else overrun command

-- A round of the loop: the command with this number, if it has the prefix, and else what is found below it.
abbrev pub pick : Bytes → Option Bytes → Found → Found
pick cmd none rest = rest
pick cmd (some command) rest = if starts_with cmd command then copy_found command else rest

-- The loop, from the `n` commands with the numbers below `minimum + n`.
pub find_from : ℕ → Bytes → History → Found
find_from zero cmd h = not_found
find_from (suc n) cmd h = pick cmd (get_cmd (pos (h.minimum + n)) h) (find_from n cmd h)

pub find_cmd : Bytes → History → Found
find_cmd cmd h = find_from (h.cmd_count - h.minimum) cmd h

-- `j - max`
pub minus_max : ℕ → ℤ
minus_max j = if leb max j then pos (j - max) else negsuc (max - j - 1)

-- One line, left out for an empty slot.
abbrev pub line : ℤ → Bytes → List (ℤ × Bytes) → List (ℤ × Bytes)
line number [] rest = rest
line number (c ∷ s) rest = (number, c ∷ s) ∷ rest

-- The loop of `print_history` over `n` slots: the lines that are printed.
pub print_from : ℕ → ℕ → ℕ → History → List (ℤ × Bytes)
print_from zero i j h = []
print_from (suc n) i j h = line (minus_max j) (slot h i) (print_from n (i + 1) (j + 1) h)

pub print_history : History → List (ℤ × Bytes)
print_history h = print_from max (h.tail + 1) h.cmd_count h
