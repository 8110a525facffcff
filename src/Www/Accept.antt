-- ===== src/Www/Accept.antt =====
-- `main` of Project4/www.c: the start of the server, its loop on `accept`, and the child processes that answer.
use cs.Common.{
  ℕ, zero, suc, ◌%◌, ◌^◌, Bool, true, false, Option, none, some, List, [], ◌∷◌, ◌++◌, Bytes, codes,
  has, ◌==◌, if◌then◌else◌, ℤ, pos, negsuc, to_unsigned, atoi,
}
use cs.Www.{
  Client, Server, Reply, returns_0, returns_minus_1, wrote, crash, out_of_fuel, handle_request,
}

-- The descriptor that `accept` gives, with what the socket holds for each call of `handle_request`.
pub record Connection : Type 0 where
  pub client_fd : ℕ
  pub requests : ℕ → Client

-- A round of the loop of `main`: `accept` is -1, or it gives a client and `fork` is -1, or there is a child.
pub data Event : Type 0 where
  refused : Event
  no_fork : Connection → Event
  connected : Connection → Event

-- What a process does: it waits in `accept` with its open descriptors; it ends with a status; it crashes; it
-- writes a message before what follows; it answers requests before what follows; it forks a child, whose run
-- stands before its own. `unfinished` is the end of the fuel.
pub data Run : Type 0 where
  waits : List ℕ → Run
  exits : ℕ → Run
  dies unfinished : Run
  reports : Bytes → Run → Run
  answers : Reply → Run → Run
  forks : Run → Run → Run

abbrev pub close : ℕ → List ℕ → List ℕ
close fd [] = []
close fd (d ∷ fds) = let rest = close fd fds in if d == fd then rest else d ∷ rest

-- The value that `handle_request` returns, if it does.
abbrev pub ret_of : Reply → Option ℤ
ret_of returns_0 = some (pos 0)
ret_of returns_minus_1 = some (negsuc 0)
ret_of (wrote bytes) = some (pos 0)
ret_of crash = none
ret_of out_of_fuel = none

-- `ret == -1 || ret == 0`
abbrev pub leaves_loop : ℤ → Bool
leaves_loop (pos zero) = true
leaves_loop (pos (suc n)) = false
leaves_loop (negsuc zero) = true
leaves_loop (negsuc (suc n)) = false

-- A round of the child's loop, with the next round and what stands behind the loop.
abbrev pub answer_once : Reply → Run → Run → Run
answer_once reply again behind = elim (ret_of reply) [
  | none ↦ answers reply dies
  | some ret ↦ answers reply (if leaves_loop ret then behind else again)
]

-- The child's loop, from the request with number `i`.
unfoldable pub answer_loop : ℕ → Server → ℕ → (ℕ → Client) → Run → Run
answer_loop zero s i requests behind = unfinished
answer_loop (suc k) s i requests behind =
    answer_once (handle_request s (requests i)) (answer_loop k s (suc i) requests behind) behind

-- The body of the loop of `main` behind `accept`, with the loop as `again` on the open descriptors. The child has
-- closed the socket of the server, and does not leave the loop.
unfoldable pub on_event : ℕ → Server → ℕ → List ℕ → (List ℕ → Run) → Event → Run
on_event k s socket_fd fds again refused = reports (codes "accept") (exits 1)
on_event k s socket_fd fds again (no_fork c) = reports (codes "fork") (exits 1)
on_event k s socket_fd fds again (connected c) =
    forks (answer_loop k s 0 c.requests (again (close socket_fd (c.client_fd ∷ fds))))
      (again (close c.client_fd (c.client_fd ∷ fds)))

-- `accept` on a descriptor that is not open fails.
unfoldable pub accept_loop : ℕ → Server → ℕ → List ℕ → List Event → Run
accept_loop k s socket_fd fds [] =
    if has fds socket_fd then waits fds else reports (codes "accept") (exits 1)
accept_loop k s socket_fd fds (e ∷ events) =
    let rest = on_event k s socket_fd fds (λ o. accept_loop k s socket_fd o events) e in
    if has fds socket_fd then rest else reports (codes "accept") (exits 1)

-- The calls that start the server, on the open descriptors that it inherits.
pub record Start : Type 0 where
  pub inherited : List ℕ
  pub socket : Option ℕ
  pub binds : ℕ → Bool
  pub listens : Bool
  pub chdir : Bytes → Bool

abbrev pub start_up : Start → ℕ → ℕ → Bytes → Run → Run
start_up st socket_fd port dir behind =
    if st.binds port
    then (if st.listens
        then (if st.chdir dir then behind else reports (codes "chdir") (exits 1))
        else reports (codes "listen") (exits 1))
    else reports (codes "bind") (exits 1)

-- With three arguments, the first of which is the name of the program.
abbrev pub run_server : ℕ → Server → Start → Bytes → Bytes → List Event → Run
run_server k s st port dir events = elim (st.socket) [
  | none ↦ reports (codes "socket") (exits 1)
  | some socket_fd ↦
      start_up st socket_fd (to_unsigned (atoi port) % 2 ^ 16) dir
        (accept_loop k s socket_fd (socket_fd ∷ st.inherited) events)
]

abbrev pub print_usage : List Bytes → Run
print_usage [] = reports (codes "Usage: (null) port dir") (exits 1)
print_usage (name ∷ args) = reports (codes "Usage: " ++ name ++ codes " port dir") (exits 1)

-- `main`, on the arguments.
unfoldable pub main : ℕ → Server → Start → List Bytes → List Event → Run
main k s st [] events = print_usage []
main k s st (name ∷ []) events = print_usage (name ∷ [])
main k s st (name ∷ port ∷ []) events = print_usage (name ∷ port ∷ [])
main k s st (name ∷ port ∷ dir ∷ []) events = run_server k s st port dir events
main k s st (name ∷ port ∷ dir ∷ more ∷ args) events = print_usage (name ∷ port ∷ dir ∷ more ∷ args)
