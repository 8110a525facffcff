-- ===== src/Shell/Tokenizer.antt =====
-- Project2/tokenizer.c, a `next_token` that keeps what stands in quotes together, and `tokenizer` of
-- Project2/shell.c, which calls it in a loop.
pub mod Unquoted
pub mod Words
use cs.Common.{
  ℕ, zero, suc, ◌+◌, ◌-◌, Option, none, some, List, [], ◌∷◌, ◌++◌, Bytes, codes, drop, get_or,
  strspn, strcspn, ltb, leb, ◌==◌, if◌then◌else◌,
}
use cs.Tokens.{Call, call, cut}
use cs.Tokens.Stream.{token_string}

abbrev pub quotes : Bytes
quotes = codes "'\""

-- Where the token ends that has a quote in it, counted from its start: at the delimiter behind the next quote of
-- the same kind.
unfoldable pub quoted_end : Bytes → Bytes → ℕ → ℕ → ℕ
quoted_end delim s tok_st quote_st =
    let quote = get_or s quote_st 0 ∷ [] in
    let quote_end = strcspn (drop (quote_st + 1) s) quote + (quote_st + 1) in
    strcspn (drop quote_end s) delim + quote_end - tok_st

-- The quote is found from the start of the string, and the token's end is counted behind the delimiters.
unfoldable pub token_end : Bytes → Bytes → ℕ → ℕ
token_end delim s tok_st =
    let tok_end = strcspn (drop tok_st s) delim in
    let quote_st = strcspn s quotes in
    if ltb quote_st tok_end then quoted_end delim s tok_st quote_st else tok_end

unfoldable pub quoted_token : Bytes → Bytes → Option ℕ → Call
quoted_token delim buffer none = call buffer none none
quoted_token delim buffer (some p) =
    let s = drop p buffer in
    let tok_st = strspn s delim in
    let tok_end = token_end delim s tok_st in
    if tok_end == 0 then call buffer none none else cut buffer (p + tok_st) (p + (tok_st + tok_end))

-- The slots of the array of tokens.
abbrev pub max_tokens : ℕ
max_tokens = 5000

abbrev pub blanks : Bytes
blanks = codes " \t\r\n"

-- The tokens, or an array that is written past its end; and no fuel, of which the model takes enough.
pub data Tokenized : Type 0 where
  tokens : List Bytes → Tokenized
  overrun no_fuel : Tokenized

abbrev pub prepend : Bytes → Tokenized → Tokenized
prepend t (tokens ts) = tokens (t ∷ ts)
prepend t overrun = overrun
prepend t no_fuel = no_fuel

-- A round of the loop: the end of the string and a `#` end it, and the NULL is put behind the `i` tokens.
unfoldable pub take_token : ℕ → Option Bytes → Tokenized → Tokenized
take_token i none rest = if ltb i max_tokens then tokens [] else overrun
take_token i (some t) rest =
    if get_or t 0 0 == 35
    then (if ltb i max_tokens then tokens [] else overrun)
    else if ltb i max_tokens
    then prepend t rest
    else overrun

unfoldable pub tokenizer_from : ℕ → ℕ → Bytes → Option ℕ → Tokenized
tokenizer_from zero i buffer next_tok = no_fuel
tokenizer_from (suc k) i buffer next_tok =
    let c = quoted_token blanks buffer next_tok in
    let rest = tokenizer_from k (i + 1) c.buffer c.str_ptr in take_token i (token_string c) rest

unfoldable pub tokenizer : ℕ → Bytes → Tokenized
tokenizer fuel str = tokenizer_from fuel 0 str (some 0)
