-- ===== src/Www.antt =====
-- Project4/www.c: the answer to one request of a client; `main` is in Accept. What `read` gives from the client's socket is a list
-- of bytes with an end; the file system and the timestamp are parameters.
mod ReadLine
mod Get
mod Ends
mod Accept
mod Clients
mod Tests
use cs.Common.{
  decimal, ℕ, zero, suc, ◌+◌, ◌/◌, ◌%◌, ◌<◌, Bool, true, false, Option, none, some, List, [], ◌∷◌,
  ◌++◌, Bytes, codes, drop, c_string, strcmp_eq, length, ◌==◌, ltb, if◌then◌else◌,
}
use cs.Tokens.{Call, next_token}

-- How reading ends when the bytes are used up: at the end of the stream, or with a failure.
pub data End : Type 0 where
  eof failed : End

pub record Client : Type 0 where
  pub bytes : Bytes
  pub end : End

-- What `stat` tells of a path.
pub record Stat : Type 0 where
  pub is_dir : Bool
  pub st_size : ℕ

-- `contents` is what `sendfile` sends of a path, nothing if it cannot be opened.
pub record Server : Type 0 where
  pub stat : Bytes → Option Stat
  pub contents : Bytes → Bytes
  pub timestamp : Bytes

abbrev pub newline : ℕ
newline = 10

abbrev pub crlf : Bytes
crlf = 13 ∷ 10 ∷ []

-- `" \t\r\n"`
abbrev pub blanks : Bytes
blanks = 32 ∷ 9 ∷ 13 ∷ 10 ∷ []

abbrev pub buffer_size : ℕ
buffer_size = 8192

-- What `read_line` returns: the count and the bytes in the buffer, with what is left to read; or 0 at the end
-- of the stream, or -1.
pub data Line : Type 0 where
  line : ℕ → Bytes → Bytes → Line
  ended : Line
  broken : Line

abbrev pub at_end : End → Line
at_end eof = ended
at_end failed = broken

-- The loop of `read_line`, with `n` bytes left in the buffer.
pub read_line : ℕ → ℕ → Bytes → Bytes → End → Line
read_line zero total buf bytes end = line total buf bytes
read_line (suc n) total buf [] end = at_end end
read_line (suc n) total buf (c ∷ bytes) end =
    let rest = read_line n (total + 1) (buf ++ c ∷ []) bytes end in
    if c == newline then line total (buf ++ c ∷ []) bytes else rest

pub head_of : Bytes → Bytes → ℕ → Bytes
head_of status timestamp size =
    codes "HTTP/1.1 "
    ++ status
    ++ crlf
    ++ codes "Date: "
    ++ timestamp
    ++ crlf
    ++ codes "Content-Length: "
    ++ decimal size
    ++ crlf
    ++ crlf

pub not_found : Server → Bytes
not_found s = head_of (codes "404 Not Found") s.timestamp 13 ++ codes "404 Not Found"

-- What a request comes to: a return value with nothing written, what was written before a return of 0, or a
-- crash.
pub data Reply : Type 0 where
  returns_0 : Reply
  returns_minus_1 : Reply
  wrote : Bytes → Reply
  crash out_of_fuel : Reply

pub send_file : Server → Bytes → Stat → Reply
send_file s path sb = wrote (head_of (codes "200 OK") s.timestamp sb.st_size ++ s.contents path)

pub send_index : Server → Bytes → Reply
send_index s path = elim (s.stat (path ++ codes "/index.html")) [
  | none ↦ wrote (not_found s)
  | some sb ↦ send_file s (path ++ codes "/index.html") sb
]

-- The part of `handle_request` behind the loop. A path that the index does not fit behind overruns its
-- buffer.
pub respond : Server → Bytes → Reply
respond s path = elim (s.stat path) [
  | none ↦ wrote (not_found s)
  | some sb ↦
      if sb.is_dir
      then (if ltb (length path + 11) buffer_size then send_index s path else crash)
      else send_file s path sb
]

-- A header line: the path that it asks for, the end of the headers, or a line without effect.
pub data Header : Type 0 where
  asks : Bytes → Header
  asks_nothing : Header
  blank : Header
  other : Header

pub second_token : Call → Header
second_token c = elim (c.token) [ none ↦ asks_nothing | some q ↦ asks (c_string (drop q c.buffer)) ]

pub header_of_call : Call → Header
header_of_call c = elim (c.token) [
  | none ↦ blank
  | some p ↦
      if strcmp_eq (c_string (drop p c.buffer)) (codes "GET")
      then second_token (next_token blanks c.buffer c.str_ptr)
      else other
]

pub parse_header : Bytes → Header
parse_header buf = header_of_call (next_token blanks (buf ++ 0 ∷ []) (some 0))

-- The body of the loop of `handle_request` behind a header line, with the rest of the loop as `again`.
pub handle_header : Server → (Bytes → Bytes → Reply) → Bytes → Bytes → Header → Reply
handle_header s again path rest (asks uri) = again (46 ∷ uri) rest
handle_header s again path rest asks_nothing = crash
handle_header s again path rest blank = respond s path
handle_header s again path rest other = again path rest

pub handle_line : Server → (Bytes → Bytes → Reply) → Bytes → Line → Reply
handle_line s again path ended = returns_0
handle_line s again path broken = returns_minus_1
handle_line s again path (line zero buf rest) = returns_0
handle_line s again path (line (suc n) buf rest) =
    handle_header s again path rest (parse_header buf)

-- The loop. The fuel is more than the bytes that are left, since a line takes at least one.
pub handle_from : ℕ → Server → Bytes → Bytes → End → Reply
handle_from zero s path bytes end = out_of_fuel
handle_from (suc k) s path bytes end =
    handle_line s (λ p rest. handle_from k s p rest end) path (read_line buffer_size 0 [] bytes end)

pub handle_request : Server → Client → Reply
handle_request s client = handle_from (length client.bytes + 1) s [] client.bytes client.end
