-- ===== src/Shell/Recall/Counts.antt =====
-- The two counts of commands, `num_cmds` of Project2/shell.c and `cmd_count` of Project2/history.c.
use cs.Common.{
  ℕ, ◌+◌, ◌≡◌, Bool, true, false, Option, none, some, List, [], ◌∷◌, ◌++◌, Bytes, codes, length,
  drop, get_or, is_digit, atoi, ltb, ◌==◌, if◌then◌else◌, Bool-cases, inl, inr, arith, sub_ℕ,
}
use cs.History.{
  starts_with, add_history, get_cmd, find_cmd, Found, not_found, copied, overrun, slot_size,
}
use cs.Shell.Tokenizer.{tokenizer}
use cs.Shell.Recall.{
  Shell, Step, ok, fault, then_do, count_cmd, remember, note_comment, words, read_words, copy_temp,
  recall_slot, keep_garbage, last_slot, numbered_slot, recall_last, recall_number, recall_found,
  expand,
}

abbrev pub Holds {ℓ} : {A : Type ℓ} → (A → Type 0) → Step A → Type 0
Holds P (ok a) = P a
Holds P (fault e) = Unit

pub then-Holds {ℓ κ} :
    {A : Type ℓ} {B : Type κ} (Q : B → Type 0) (P : A → Type 0) (f : A → Step B)
    → ((a : A) → P a → Holds Q (f a))
    → (step : Step A) → Holds P step
    → Holds Q (then_do step f)
then-Holds Q P f h (ok a) p = h a p
then-Holds Q P f h (fault e) p = tt

-- Any value, after which nothing is known.
pub any-Holds {ℓ κ} :
    {A : Type ℓ} {B : Type κ} (Q : B → Type 0) (f : A → Step B)
    → ((a : A) → Holds Q (f a))
    → (step : Step A) → Holds Q (then_do step f)
any-Holds Q f h (ok a) = h a
any-Holds Q f h (fault e) = tt

pub if-Holds {ℓ} :
    {A : Type ℓ} (Q : A → Type 0) (b : Bool) (x y : Step A)
    → Holds Q x
    → Holds Q y
    → Holds Q (if b then x else y)
if-Holds Q true x y hx hy = hx
if-Holds Q false x y hx hy = hy

-- `num_cmds` is so far ahead of the commands that are kept.
abbrev pub Ahead : ℕ → Shell → Type 0
Ahead d sh = sh.num_cmds ≡ sh.history.cmd_count + d

abbrev pub Second {ℓ} : {A : Type ℓ} → ℕ → A × Shell → Type 0
Second d r = Ahead d r.1

remember-Ahead :
    (d : ℕ) (command : Bytes) (sh : Shell)
    → Ahead (d + 1) sh
    → Holds (Ahead d) (remember command sh)
unfolding remember add_history
remember-Ahead d command sh h = elim (Bool-cases (ltb (length command) slot_size)) [
  | inl fits ↦ rw fits (omega (arith, h))
  | inr long ↦ rw long tt
]

note_comment-Ahead :
    (d : ℕ) (str : Bytes) (sh : Shell) → Ahead d sh → Holds (Ahead d) (note_comment str sh)
unfolding note_comment
note_comment-Ahead d str sh h =
    if-Holds (Ahead d) (starts_with (codes "#") str) (remember str (count_cmd sh)) (ok sh)
      (remember-Ahead d str (count_cmd sh) (omega (arith, h))) h

pub read_words-Ahead :
    (d : ℕ) (str : Bytes) (sh : Shell) → Ahead d sh → Holds (Second d) (read_words str sh)
unfolding read_words
read_words-Ahead d str sh h =
    then-Holds (Second d) (Ahead d) _
      (λ sh' h'.
        any-Holds (Second d) (λ ts. ok (ts, sh')) (λ ts. h')
          (words (tokenizer (length str + 1) (str ++ 0 ∷ []))))
      (note_comment str sh) (note_comment-Ahead d str sh h)

-- The end of every replacement: a command is kept.
kept-Ahead :
    (d : ℕ) (command : Bytes) (ts : List Bytes) (sh : Shell)
    → Ahead (d + 1) sh
    → Holds (Second d) (then_do (remember command sh) (λ sh'. ok (ts, sh')))
kept-Ahead d command ts sh h =
    then-Holds (Second d) (Ahead d) (λ sh'. ok (ts, sh')) (λ sh' h'. h') (remember command sh)
      (remember-Ahead d command sh h)

recall_slot-Ahead : (s : Bytes) (sh : Shell) → Ahead 1 sh → Holds (Second 0) (recall_slot s sh)
unfolding recall_slot
recall_slot-Ahead s sh h =
    any-Holds (Second 0) _
      (λ temp.
        then-Holds (Second 0) (Second 1) _ (λ (ts, sh') h'. kept-Ahead 0 temp ts sh' h')
          (read_words s sh) (read_words-Ahead 1 s sh h))
      (copy_temp s)

keep_garbage-Ahead :
    (garbage : Bytes) (ts : List Bytes) (sh : Shell)
    → Ahead 1 sh
    → Holds (Second 0) (keep_garbage garbage ts sh)
unfolding keep_garbage
keep_garbage-Ahead garbage ts sh h = kept-Ahead 0 garbage ts sh h

last_slot-Ahead :
    (found : Option Bytes) (sh : Shell) → Ahead 1 sh → Holds (Second 0) (last_slot found sh)
last_slot-Ahead none sh h = tt
last_slot-Ahead (some s) sh h = recall_slot-Ahead s sh h

numbered_slot-Ahead :
    (found : Option Bytes) (garbage : Bytes) (ts : List Bytes) (sh : Shell)
    → Ahead 1 sh
    → Holds (Second 0) (numbered_slot found garbage ts sh)
numbered_slot-Ahead none garbage ts sh h = keep_garbage-Ahead garbage ts sh h
numbered_slot-Ahead (some s) garbage ts sh h = recall_slot-Ahead s sh h

recall_found-Ahead :
    (found : Found) (garbage : Bytes) (ts : List Bytes) (sh : Shell)
    → Ahead 1 sh
    → Holds (Second 0) (recall_found found garbage ts sh)
unfolding recall_found
recall_found-Ahead not_found garbage ts sh h = keep_garbage-Ahead garbage ts sh h
recall_found-Ahead (overrun s) garbage ts sh h = tt
recall_found-Ahead (copied s) garbage ts sh h = recall_slot-Ahead s sh h

pub expand-Ahead :
    (garbage command : Bytes) (ts : List Bytes) (sh : Shell)
    → Ahead 1 sh
    → Holds (Second 0) (expand garbage command ts sh)
unfolding expand recall_last recall_number
expand-Ahead garbage command [] sh h = tt
expand-Ahead garbage command (t ∷ ts) sh h =
    if-Holds (Second 0) (get_or t 0 0 == 33) _ _
      (if-Holds (Second 0) (get_or t 1 0 == 33) _ _
        (last_slot-Ahead (get_cmd (sub_ℕ sh.num_cmds 2) sh.history) sh h)
        (if-Holds (Second 0) (is_digit (get_or t 1 0)) _ _
          (numbered_slot-Ahead (get_cmd (atoi (drop 1 t)) sh.history) garbage (t ∷ ts) sh h)
          (recall_found-Ahead (find_cmd (drop 1 t) sh.history) garbage (t ∷ ts) sh h)))
      (kept-Ahead 0 command (t ∷ ts) sh h)
