-- ===== src/Www/Clients.antt =====
-- `main` of Project4/www.c: what becomes of its clients.
use cs.Common.{
  ℕ, suc, ◌%◌, ◌^◌, ◌≡◌, refl, ap, ◌∙◌, true, false, Bool-cases, inl, inr, some, List, [], ◌∷◌, All,
  Bytes, codes, has, ◌==◌, to_unsigned, atoi, arith,
}
use cs.Www.{Server, Reply, returns_0, returns_minus_1, wrote, crash, out_of_fuel, handle_request}
use cs.Www.Accept.{
  Connection, Event, refused, no_fork, connected, Run, waits, exits, dies, reports, answers, forks,
  close, answer_once, answer_loop, on_event, accept_loop, Start, main,
}

-- The child of a client behind its only answer.
abbrev pub child_end : Reply → Run
child_end returns_0 = reports (codes "accept") (exits 1)
child_end returns_minus_1 = reports (codes "accept") (exits 1)
child_end (wrote bytes) = reports (codes "accept") (exits 1)
child_end crash = dies
child_end out_of_fuel = dies

abbrev pub child : Server → Connection → Run
child s c = answers (handle_request s (c.requests 0)) (child_end (handle_request s (c.requests 0)))

-- The server: a child for each client in turn, and then its own end.
abbrev pub serving : Server → List Connection → Run → Run
serving s [] last = last
serving s (c ∷ clients) last = forks (child s c) (serving s clients last)

-- How a list of events ends: no more of them come, `accept` fails, or `fork` fails.
pub data Last : Type 0 where
  no_more : Last
  accept_fails : List Event → Last
  fork_fails : Connection → List Event → Last

abbrev pub last_events : Last → List Event
last_events no_more = []
last_events (accept_fails events) = refused ∷ events
last_events (fork_fails c events) = no_fork c ∷ events

abbrev pub last_run : Last → List ℕ → Run
last_run no_more fds = waits fds
last_run (accept_fails events) fds = reports (codes "accept") (exits 1)
last_run (fork_fails c events) fds = reports (codes "fork") (exits 1)

abbrev pub all_events : List Connection → Last → List Event
all_events [] last = last_events last
all_events (c ∷ clients) last = connected c ∷ all_events clients last

same_byte : (d : ℕ) → (d == d) ≡ true
same_byte d = ground arith

has-close : (fd : ℕ) (fds : List ℕ) → has (close fd fds) fd ≡ false
has-close fd [] = refl
has-close fd (d ∷ fds) = elim (Bool-cases (d == fd)) [
  | inl e ↦ rw e (has-close fd fds)
  | inr ne ↦ rw (ne, ne) (has-close fd fds)
]

close-fresh : (fd : ℕ) (fds : List ℕ) → has fds fd ≡ false → close fd fds ≡ fds
close-fresh fd [] h = refl
close-fresh fd (d ∷ fds) h = elim (Bool-cases (d == fd)) [
  | inl e ↦ absurd (ground (arith, e, h))
  | inr ne ↦ rw ne (ap (λ o. d ∷ o) (close-fresh fd fds (ground (arith, ne, h))))
]

close-opened : (fd : ℕ) (fds : List ℕ) → has fds fd ≡ false → close fd (fd ∷ fds) ≡ fds
close-opened fd fds h = rw (same_byte fd) (close-fresh fd fds h)

-- Without its socket the loop ends, whatever comes.
closed-loop :
    (k : ℕ) (s : Server) (socket_fd : ℕ) (fds : List ℕ) (events : List Event)
    → has fds socket_fd ≡ false
    → accept_loop k s socket_fd fds events ≡ reports (codes "accept") (exits 1)
unfolding accept_loop
closed-loop k s socket_fd fds [] h = rw h refl
closed-loop k s socket_fd fds (e ∷ events) h = rw h refl

-- No reply makes the loop of the child go on.
answer_once-child :
    (reply : Reply) (again : Run)
    → answer_once reply again (reports (codes "accept") (exits 1)) ≡ answers reply (child_end reply)
answer_once-child returns_0 again = refl
answer_once-child returns_minus_1 again = refl
answer_once-child (wrote bytes) again = refl
answer_once-child crash again = refl
answer_once-child out_of_fuel again = refl

answer_loop-child :
    (k : ℕ) (s : Server) (c : Connection) (behind : Run)
    → behind ≡ reports (codes "accept") (exits 1)
    → answer_loop (suc k) s 0 c.requests behind ≡ child s c
unfolding answer_loop
answer_loop-child k s c behind e = rw e (
    answer_once-child (handle_request s (c.requests 0))
      (answer_loop k s 1 c.requests (reports (codes "accept") (exits 1))))

module _ (k : ℕ) (s : Server) (socket_fd : ℕ) (fds : List ℕ)
    (listening : has fds socket_fd ≡ true) where
  last-loop :
      (last : Last) → accept_loop (suc k) s socket_fd fds (last_events last) ≡ last_run last fds
  unfolding accept_loop on_event
  last-loop no_more = rw listening refl
  last-loop (accept_fails events) = rw listening refl
  last-loop (fork_fails c events) = rw listening refl

  clients-loop :
      (clients : List Connection) (last : Last)
      → All (λ c. has fds (c.client_fd) ≡ false) clients
      → accept_loop (suc k) s socket_fd fds (all_events clients last)
        ≡ serving s clients (last_run last fds)
  unfolding accept_loop on_event
  clients-loop [] last h = last-loop last
  clients-loop (c ∷ clients) last h =
      let events = all_events clients last in
      let child_open = close socket_fd (c.client_fd ∷ fds) in
      rw listening (
        ap
          (λ r.
            forks r
              (accept_loop (suc k) s socket_fd (close (c.client_fd) (c.client_fd ∷ fds)) events))
          (answer_loop-child k s c (accept_loop (suc k) s socket_fd child_open events) (
            closed-loop (suc k) s socket_fd child_open events
              (has-close socket_fd (c.client_fd ∷ fds))))
        ∙ ap (forks (child s c)) (
            ap (λ o. accept_loop (suc k) s socket_fd o events) (close-opened (c.client_fd) fds h.0)
            ∙ clients-loop clients last h.1))

-- When the calls that start the server succeed, and no client gets a descriptor that was open before,
-- `main` forks one child for each client in turn: the child answers one request with `handle_request`,
-- and one only, whatever else the client sends, and then, if it has not crashed, reports that `accept`
-- fails and ends with status 1. The parent comes behind the last client to its own end with the socket
-- and what it inherited as its only open descriptors: it waits for more, or, when `accept` or `fork`
-- fails, reports that and ends with status 1, whatever comes after.
pub main-serving :
    (k : ℕ) (s : Server) (st : Start) (name port dir : Bytes) (socket_fd : ℕ)
    (clients : List Connection) (last : Last)
    → st.socket ≡ some socket_fd
    → st.binds (to_unsigned (atoi port) % 2 ^ 16) ≡ true
    → st.listens ≡ true
    → st.chdir dir ≡ true
    → All (λ c. has (socket_fd ∷ st.inherited) (c.client_fd) ≡ false) clients
    → main (suc k) s st (name ∷ port ∷ dir ∷ []) (all_events clients last)
      ≡ serving s clients (last_run last (socket_fd ∷ st.inherited))
unfolding main
main-serving k s st name port dir socket_fd clients last made bound listens moved fresh =
    let listening : has (socket_fd ∷ st.inherited) socket_fd ≡ true =
      rw (same_byte socket_fd) refl in
    rw (made, bound, listens, moved)
      (clients-loop k s socket_fd (socket_fd ∷ st.inherited) listening clients last fresh)
