-- ===== src/Shell/Recall.antt =====
-- How `main` of Project2/shell.c replaces `!!`, a number or a prefix by an earlier command, with the history of
-- Project2/history.c.
pub mod Counts
use cs.Common.{
  ℕ, zero, suc, ◌+◌, ◌%◌, Bool, true, false, Option, none, some, List, [], ◌∷◌, ◌++◌, Bytes, codes,
  length, set, drop, get_or, c_string, is_digit, atoi, sub_ℕ, ℤ, pos, negsuc, ltb, ◌==◌,
  if◌then◌else◌,
}
use cs.History.{
  History, max, starts_with, add_history, get_cmd, find_cmd, Found, not_found, copied, overrun,
}
use cs.Jobs.{Jobs}
use cs.Shell.Tokenizer.{Tokenized, tokens, no_fuel, blanks, quoted_token, tokenizer}

pub record Shell : Type 0 where
  pub num_cmds : ℕ
  pub history : History
  pub jobs : Jobs

-- What goes wrong: a null pointer is read, or an array is written behind its end.
pub data Fault : Type 0 where
  null_string array_overrun : Fault

pub data Step {ℓ} (A : Type ℓ) : Type ℓ where
  ok : A → Step A
  fault : Fault → Step A

abbrev pub then_do {ℓ κ} : {A : Type ℓ} {B : Type κ} → Step A → (A → Step B) → Step B
then_do (ok a) f = f a
then_do (fault e) f = fault e

abbrev pub count_cmd : Shell → Shell
count_cmd sh = record sh { num_cmds = sh.num_cmds + 1 }

abbrev kept : Shell → Option History → Step Shell
kept sh none = fault array_overrun
kept sh (some h) = ok (record sh { history = h })

-- `add_history`
unfoldable pub remember : Bytes → Shell → Step Shell
remember command sh = kept sh (add_history command sh.history)

-- The beginning of `tokenizer`: a line that starts with # is counted and kept.
unfoldable pub note_comment : Bytes → Shell → Step Shell
note_comment str sh = if starts_with (codes "#") str then remember str (count_cmd sh) else ok sh

abbrev words : Tokenized → Step (List Bytes)
words (tokens ts) = ok ts
words Tokenized.overrun = fault array_overrun
words no_fuel = fault array_overrun

-- `tokenizer`, with a round for every byte and one more.
unfoldable pub read_words : Bytes → Shell → Step (List Bytes × Shell)
read_words str sh =
    then_do (note_comment str sh)
      (λ sh'. then_do (words (tokenizer (length str + 1) (str ++ 0 ∷ []))) (λ ts. ok (ts, sh')))

-- The bytes that `malloc(sizeof(hisStr))` has room for.
abbrev pub temp_size : ℕ
temp_size = 8

abbrev pub copy_temp : Bytes → Step Bytes
copy_temp s = if ltb (length s) temp_size then ok s else fault array_overrun

-- A command from the history: `get_cmd` or `find_cmd` gives a copy of it, which is copied again, and then tokenised.
unfoldable pub recall_slot : Bytes → Shell → Step (List Bytes × Shell)
recall_slot s sh = then_do (copy_temp s) (λ temp.
    then_do (read_words s sh) (λ (ts, sh'). then_do (remember temp sh') (λ sh''. ok (ts, sh''))))

-- Nothing found: the words stay, and what `malloc` gave is kept as a command.
pub keep_garbage : Bytes → List Bytes → Shell → Step (List Bytes × Shell)
keep_garbage garbage ts sh = then_do (remember garbage sh) (λ sh'. ok (ts, sh'))

abbrev last_slot : Option Bytes → Shell → Step (List Bytes × Shell)
last_slot none sh = fault null_string
last_slot (some s) sh = recall_slot s sh

abbrev numbered_slot : Option Bytes → Bytes → List Bytes → Shell → Step (List Bytes × Shell)
numbered_slot none garbage ts sh = keep_garbage garbage ts sh
numbered_slot (some s) garbage ts sh = recall_slot s sh

-- `!!`, `!number` and `!prefix`.
unfoldable pub recall_last : Shell → Step (List Bytes × Shell)
recall_last sh = last_slot (get_cmd (sub_ℕ sh.num_cmds 2) sh.history) sh

pub recall_number : ℤ → Bytes → List Bytes → Shell → Step (List Bytes × Shell)
recall_number num garbage ts sh = numbered_slot (get_cmd num sh.history) garbage ts sh

pub recall_found : Found → Bytes → List Bytes → Shell → Step (List Bytes × Shell)
recall_found not_found garbage ts sh = keep_garbage garbage ts sh
recall_found (overrun s) garbage ts sh = fault array_overrun
recall_found (copied s) garbage ts sh = recall_slot s sh

-- The words of the command, and the history with the command.
unfoldable pub expand : Bytes → Bytes → List Bytes → Shell → Step (List Bytes × Shell)
expand garbage command [] sh = fault null_string
expand garbage command (t ∷ ts) sh =
    if get_or t 0 0 == 33
    then if get_or t 1 0 == 33
      then recall_last sh
      else if is_digit (get_or t 1 0)
      then recall_number (atoi (drop 1 t)) garbage (t ∷ ts) sh
      else recall_found (find_cmd (drop 1 t) sh.history) garbage (t ∷ ts) sh
    else then_do (remember command sh) (λ sh'. ok (t ∷ ts, sh'))
