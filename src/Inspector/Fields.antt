-- ===== src/Inspector/Fields.antt =====
-- `getNextTok` of Project1/inspector.c, and the reading of a field of a file with it.
pub mod Lookup
use cs.Common.{ℕ, zero, suc, ◌+◌, Option, none, some, Bytes, codes, strcmp_eq, if◌then◌else◌}
use cs.Tokens.{Call, call, next_token}
use cs.Tokens.Stream.{token_string}
use cs.Inspector.Run.{
  World, Run, ok, fault, null_string, Cmd, pure, ◌>>=◌, ◌>>◌, and_then, exit_failure, open_file,
  read_into, copy_string,
}

-- `strcmp(curr_tok, str) == 0`; a null pointer is `none`.
unfoldable pub stop_at : Bytes → Call → Option Bytes → Option Call → Option Call
stop_at str c none rest = none
stop_at str c (some t) rest = if strcmp_eq t str then some c else rest

-- The loop that looks for the token `str`, from what the last call left.
unfoldable pub find_key : ℕ → Bytes → Bytes → Call → Option Call
find_key zero sep str last = some last
find_key (suc k) sep str last =
    let c = next_token sep last.buffer last.str_ptr in
    let rest = find_key k sep str c in stop_at str c (token_string c) rest

unfoldable pub skip_tokens : ℕ → Bytes → Call → Call
skip_tokens zero sep last = last
skip_tokens (suc k) sep last = skip_tokens k sep (next_token sep last.buffer last.str_ptr)

abbrev pub skip_from : ℕ → Bytes → Option Call → Option Call
skip_from n sep none = none
skip_from n sep (some c) = some (skip_tokens (suc n) sep c)

-- `none` is a comparison with a null pointer, when the buffer has no token `str`.
unfoldable pub get_next_tok : Bytes → Bytes → Bytes → ℕ → Option Call
get_next_tok buff sep str next_tok =
    if strcmp_eq str (codes "NONE")
    then some (next_token sep buff (some 0))
    else skip_from next_tok sep (find_key 10001 sep str (call buff (some 0) none))

abbrev keep_buffer : Option Call → Cmd Call
keep_buffer none s = fault null_string
keep_buffer (some c) s = ok c (record s { buf = c.buffer })

unfoldable pub get_token : Bytes → Bytes → ℕ → Cmd Call
get_token sep str n s = keep_buffer (get_next_tok s.buf sep str n) s

-- `read(file, buf, n)`, `getNextTok(buf, sep, str, k)`, and `strcpy` into an array of `size` bytes.
unfoldable pub read_field : Bytes → ℕ → Bytes → Bytes → ℕ → ℕ → Cmd Bytes
read_field file n sep str k size = do
  read_into n file
  c ← get_token sep str k
  copy_string size (token_string c)

-- A file that cannot be opened ends the program, or leaves the array as it was.
abbrev pub required_in : Option Bytes → ℕ → Bytes → Bytes → ℕ → ℕ → Cmd Bytes
required_in none n sep str k size = exit_failure
required_in (some file) n sep str k size = read_field file n sep str k size

abbrev pub optional_in : Option Bytes → ℕ → Bytes → Bytes → ℕ → ℕ → Bytes → Cmd Bytes
optional_in none n sep str k size old = pure old
optional_in (some file) n sep str k size old = read_field file n sep str k size

unfoldable pub required : World → Bytes → ℕ → Bytes → Bytes → ℕ → ℕ → Cmd Bytes
required w path n sep str k size = do file ← open_file w path; required_in file n sep str k size

unfoldable pub optional : World → Bytes → ℕ → Bytes → Bytes → ℕ → ℕ → Bytes → Cmd Bytes
optional w path n sep str k size old = do
  file ← open_file w path
  optional_in file n sep str k size old
