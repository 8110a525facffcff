-- ===== src/Www/Ends.antt =====
-- How the loop of `handle_request` of Project4/www.c comes to an end.
use cs.Common.{
  ℕ, zero, suc, ◌+◌, ◌<◌, Bool-cases, Option-cases, inl, inr, [], ◌∷◌, ◌++◌, Bytes, codes, length,
  ltb, arith,
}
use cs.Www.{
  End, Client, Server, Line, line, ended, broken, buffer_size, read_line, Reply, returns_0,
  returns_minus_1, wrote, crash, out_of_fuel, send_index, send_file, respond, Header, asks,
  asks_nothing, blank, other, parse_header, handle_header, handle_line, handle_from, handle_request,
}
use cs.Www.ReadLine.{Shorter, read_line_shortens}

-- A reply, and not the end of the fuel.
abbrev pub Ends : Reply → Type 0
Ends returns_0 = Unit
Ends returns_minus_1 = Unit
Ends (wrote bytes) = Unit
Ends crash = Unit
Ends out_of_fuel = ⊥

send_index-Ends : (s : Server) (path : Bytes) → Ends (send_index s path)
unfolding send_index send_file
send_index-Ends s path = elim (Option-cases (s.stat (path ++ codes "/index.html"))) [
  | inl e ↦ rw (e, send_index) tt
  | inr f ↦ rw (f.1, send_index) tt
]

respond-Ends : (s : Server) (path : Bytes) → Ends (respond s path)
unfolding respond send_file
respond-Ends s path = elim (Option-cases (s.stat path)) [
  | inl e ↦ rw (e, respond) tt
  | inr f ↦ elim (Bool-cases (f.0.is_dir)) [
    | inr file ↦ rw (f.1, respond, file) tt
    | inl dir ↦ elim (Bool-cases (ltb (length path + 11) buffer_size)) [
      | inl fits ↦ rw (f.1, respond, dir, fits) (send_index-Ends s path)
      | inr long ↦ rw (f.1, respond, dir, long) tt
    ]
  ]
]

header-Ends :
    (s : Server) (again : Bytes → Bytes → Reply) (path rest : Bytes) (h : Header)
    → ((p : Bytes) → Ends (again p rest))
    → Ends (handle_header s again path rest h)
unfolding handle_header
header-Ends s again path rest (asks uri) f = f (46 ∷ uri)
header-Ends s again path rest asks_nothing f = tt
header-Ends s again path rest blank f = respond-Ends s path
header-Ends s again path rest other f = f path

line-Ends :
    (s : Server) (again : Bytes → Bytes → Reply) (path : Bytes) (m : ℕ) (l : Line)
    → Shorter m l
    → ((p rest : Bytes) → length rest < m → Ends (again p rest))
    → Ends (handle_line s again path l)
unfolding handle_line
line-Ends s again path m ended h f = tt
line-Ends s again path m broken h f = tt
line-Ends s again path m (line zero buf rest) h f = tt
line-Ends s again path m (line (suc n) buf rest) h f =
    header-Ends s again path rest (parse_header buf) (λ p. f p rest h)

from-Ends :
    (k : ℕ) (s : Server) (path bytes : Bytes) (end : End)
    → length bytes < k
    → Ends (handle_from k s path bytes end)
unfolding handle_from
from-Ends zero s path bytes end h = absurd (omega (arith, h))
from-Ends (suc k) s path bytes end h =
    line-Ends s (λ p rest. handle_from k s p rest end) path (length bytes)
      (read_line buffer_size 0 [] bytes end) (read_line_shortens 8191 bytes end)
      (λ p rest shorter. from-Ends k s p rest end (omega (arith, h, shorter)))

-- `handle_request` ends on every stream, with a return value, with what it wrote, or with a crash of
-- the program: it never runs out of fuel.
pub handle_request-Ends : (s : Server) (client : Client) → Ends (handle_request s client)
unfolding handle_request
handle_request-Ends s client =
    from-Ends (length client.bytes + 1) s [] client.bytes client.end (omega arith)
