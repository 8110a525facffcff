-- ===== src/Tokens.antt =====
-- `next_token`, of which Project4/www.c, Project4/next_token.c and LabWork/Lab7/file_format.c have the same
-- text. A pointer into the buffer is an offset, and NULL is `none`.
pub mod Shift
pub mod Split
pub mod Step
mod Read
pub mod Stream
pub mod Leads
mod Loop
mod Tests
use cs.Common.{
  ℕ, zero, suc, ◌+◌, Option, none, some, List, [], ◌∷◌, Bytes, drop, strspn, strcspn, set, get_or,
  ◌==◌, if◌then◌else◌,
}

-- What a call leaves: the buffer, the pointer for the next call, and the token.
pub record Call : Type 0 where
  pub buffer : Bytes
  pub str_ptr : Option ℕ
  pub token : Option ℕ

abbrev pub call : Bytes → Option ℕ → Option ℕ → Call
call b p t = record { buffer = b; str_ptr = p; token = t }

-- The end of the token becomes a zero, unless it is the end of the string.
unfoldable pub cut : Bytes → ℕ → ℕ → Call
cut buffer start end =
    if get_or buffer end 0 == 0
    then call buffer none (some start)
    else call (set buffer end 0) (some (end + 1)) (some start)

unfoldable pub next_token : Bytes → Bytes → Option ℕ → Call
next_token delim buffer none = call buffer none none
next_token delim buffer (some p) =
    let tok_start = strspn (drop p buffer) delim in
    let tok_end = strcspn (drop (p + tok_start) buffer) delim in
    if tok_end == 0
    then call buffer none none
    else cut buffer (p + tok_start) (p + (tok_start + tok_end))

-- What the loop has after a call, and after the calls behind it.
pub push : Option ℕ → Bytes → Option (List ℕ × Bytes) → Option (List ℕ × Bytes)
push none buffer rest = some ([], buffer)
push (some t) buffer none = none
push (some t) buffer (some (ts, buffer')) = some (t ∷ ts, buffer')

-- The loop `while ((curr_tok = next_token(&next_tok, delim)) != NULL)`: the tokens' offsets, and the buffer
-- at the end; `none` is out of fuel.
pub read_tokens : ℕ → Bytes → Bytes → Option ℕ → Option (List ℕ × Bytes)
read_tokens zero delim buffer str_ptr = none
read_tokens (suc k) delim buffer str_ptr =
    let c = next_token delim buffer str_ptr in
    push c.token c.buffer (read_tokens k delim c.buffer c.str_ptr)
