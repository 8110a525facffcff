-- ===== src/Www/Tests.antt =====
-- Requests to Project4/www.c with a file system of one directory.
use cs.Common.{
  decimal, ℕ, ◌≡◌, ◌≢◌, refl, true, false, none, some, List, [], ◌∷◌, ◌++◌, Bytes, codes, strcmp_eq,
  no_nul→NoNul, if◌then◌else◌, ◌==◌, arith,
}
use cs.Www.{
  eof, failed, Server, line, newline, crlf, read_line, wrote, not_found, head_of, respond,
  send_file, send_index, handle_request,
}
use cs.Www.Accept.{Connection, Start, reports, exits, main}
use cs.Www.Clients.{serving, no_more, all_events, last_run, main-serving}
use cs.Www.ReadLine.{OneLine, read_line_lem}
use cs.Www.Get.{Plain, join, handle_request_lem}
use cs.Www.Ends.{Ends, handle_request-Ends}

abbrev site : Server
site = record {
  stat = λ p.
      if strcmp_eq p (codes "./a")
      then some (record { is_dir = true; st_size = 64 })
      else if strcmp_eq p (codes "./a/index.html")
      then some (record { is_dir = false; st_size = 12 })
      else none;
  contents = λ p. codes "Hello there!";
  timestamp = codes "now";
}

abbrev version : Bytes
version = codes "HTTP/1.1" ++ 13 ∷ []

abbrev host : Bytes
host = codes "Host: b" ++ 13 ∷ []

other_byte : (c d : ℕ) → (c == d) ≡ false → c ≢ d
other_byte c d h e = ground (arith, h, e)

version-OneLine : OneLine version
version-OneLine = (
  other_byte 72 10 refl,
  (
    other_byte 84 10 refl,
    (
      other_byte 84 10 refl,
      (
        other_byte 80 10 refl,
        (
          other_byte 47 10 refl,
          (
            other_byte 49 10 refl,
            (other_byte 46 10 refl, (other_byte 49 10 refl, (other_byte 13 10 refl, tt))),
          ),
        ),
      ),
    ),
  ),
)

host-Plain : Plain host
host-Plain = record {
  x = 72;
  word = codes "ost:";
  c = 32;
  rest = codes "b" ++ 13 ∷ [];
  whole = refl;
  no_nul = no_nul→NoNul (codes "Host:") refl;
  no_blank = (refl, (refl, (refl, (refl, (refl, tt)))));
  blank_behind = refl;
  not_get = refl;
  one_line = (
    other_byte 72 10 refl,
    (
      other_byte 111 10 refl,
      (
        other_byte 115 10 refl,
        (
          other_byte 116 10 refl,
          (
            other_byte 58 10 refl,
            (other_byte 32 10 refl, (other_byte 98 10 refl, (other_byte 13 10 refl, tt))),
          ),
        ),
      ),
    ),
  );
  short = omega arith;
}

version_read :
    read_line 8192 0 [] (version ++ newline ∷ codes "rest") eof
    ≡ line 9 (version ++ newline ∷ []) (codes "rest")
version_read = read_line_lem 8192 version (codes "rest") eof version-OneLine (omega arith)

handle_request_lem_example :
    handle_request site (record {
      bytes = join ((codes "GET " ++ 47 ∷ (codes "a" ++ 32 ∷ version)) ∷ host ∷ []) (crlf ++ []);
      end = eof;
    })
    ≡ respond site (46 ∷ 47 ∷ codes "a")
handle_request_lem_example =
    handle_request_lem site eof 47 (codes "a") version (host ∷ []) []
      (no_nul→NoNul (codes "/a") refl) (refl, (refl, tt)) version-OneLine (omega arith)
      (host-Plain, tt)

handle_request-Ends_example :
    Ends (handle_request site (record { bytes = codes "GET /a"; end = failed }))
handle_request-Ends_example =
    handle_request-Ends site (record { bytes = codes "GET /a"; end = failed })

-- The index of a directory is sent, and a file that is missing is not found.
index_sent :
    respond site (codes "./a")
    ≡ wrote (
        codes "HTTP/1.1 200 OK"
        ++ crlf
        ++ codes "Date: now"
        ++ crlf
        ++ codes "Content-Length: 12"
        ++ crlf
        ++ crlf
        ++ codes "Hello there!")
unfolding respond send_index send_file head_of decimal
index_sent = refl

missing : respond site (codes "./b") ≡ wrote (not_found site)
unfolding respond
missing = refl

-- Two clients, of which the first asks for a page and the second closes its side at once.
abbrev first_client : Connection
first_client = record {
  client_fd = 4;
  requests = λ i. record { bytes = codes "GET /a HTTP/1.1" ++ crlf ++ crlf; end = eof };
}

abbrev second_client : Connection
second_client = record { client_fd = 4; requests = λ i. record { bytes = []; end = eof } }

abbrev started : Start
started = record {
  inherited = 0 ∷ 1 ∷ 2 ∷ [];
  socket = some 3;
  binds = λ port. port == 80;
  listens = true;
  chdir = λ dir. strcmp_eq dir (codes "site");
}

abbrev clients : List Connection
clients = first_client ∷ second_client ∷ []

main-serving_example :
    main 1 site started (codes "www" ∷ codes "80" ∷ codes "site" ∷ []) (all_events clients no_more)
    ≡ serving site clients (last_run no_more (3 ∷ 0 ∷ 1 ∷ 2 ∷ []))
main-serving_example =
    main-serving 0 site started (codes "www") (codes "80") (codes "site") 3 clients no_more refl
      refl refl refl (refl, (refl, tt))

-- A port that is taken, and a missing argument.
port_taken :
    main 1 site started (codes "www" ∷ codes "81" ∷ codes "site" ∷ []) []
    ≡ reports (codes "bind") (exits 1)
unfolding main
port_taken = refl

no_directory :
    main 1 site started (codes "www" ∷ codes "81" ∷ []) []
    ≡ reports (codes "Usage: www port dir") (exits 1)
unfolding main
no_directory = refl
