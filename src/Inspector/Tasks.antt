-- ===== src/Inspector/Tasks.antt =====
-- The task information and the task list of `main` of Project1/inspector.c.
mod Quiet
pub mod Rows
use cs.Common.{
  ℕ, zero, suc, ◌+◌, ◌-◌, Bool, true, false, ◌&&◌, Option, none, some, List, [], ◌∷◌, ◌++◌, Bytes,
  codes, length, get_or, is_digit, read_digits, if◌then◌else◌, atoi, decimal, decimal_int,
  strcmp_eq, to_unsigned,
}
use cs.Tokens.{Call}
use cs.Tokens.Stream.{token_string}
use cs.Inspector.Run.{
  World, Dirent, State, Run, ok, Cmd, null_string, pure, fail, ◌>>=◌, ◌>>◌, and_then, exit_failure,
  say, open_file, read_into, copy_string, take_bytes,
}
use cs.Inspector.Fields.{optional, get_token}

-- A directory whose name starts with a digit.
unfoldable pub is_process : Dirent → Bool
is_process e = e.is_dir && is_digit (get_or e.d_name 0 0)

-- The loop over the directory that counts the tasks.
pub count_tasks : List Dirent → ℕ → ℕ
count_tasks [] tasks = tasks
count_tasks (e ∷ es) tasks = count_tasks es (if is_process e then tasks + 1 else tasks)

abbrev proc_dir : Bool → Bytes
proc_dir alt_proc = if alt_proc then codes "." else codes "/proc"

abbrev or_failure : Option (List Dirent) → Cmd (List Dirent)
or_failure none = exit_failure
or_failure (some es) = pure es

pub open_proc_dir : World → Bool → Cmd (List Dirent)
open_proc_dir w alt_proc = or_failure (w.opendir (proc_dir alt_proc))

pub task_information : World → Bool → Cmd (Unit {0})
task_information w alt_proc = do
  interrupts ← optional w (codes "stat") 100000 (codes "\n ") (codes "intr") 0 100000 []
  contexts ← optional w (codes "stat") 100000 (codes "\n ") (codes "ctxt") 0 100000 []
  forks ← optional w (codes "stat") 100000 (codes "\n ") (codes "processes") 0 1000 w.stale_forks
  entries ← open_proc_dir w alt_proc
  say (codes "\nTask Information \n-------------------\n")
  say (codes "Tasks Running: " ++ (decimal (count_tasks entries 0) ++ codes "\n"))
  say (codes "Since boot: \n")
  say (codes "    Interrupts: " ++ (interrupts ++ codes "\n"))
  say (codes "    Context Switches: " ++ (contexts ++ codes "\n"))
  say (codes "    Forks: " ++ (forks ++ codes "\n"))

-- The arrays that the loop over the processes keeps from one round to the next.
pub record Row : Type 0 where
  pub pid : ℕ
  pub state : Bytes
  pub name : Bytes
  pub user : Bytes
  pub tasks : Bytes

abbrev pub no_row : Row
no_row = record { pid = 0; state = []; name = []; user = []; tasks = [] }

-- The comparisons of the state's letter.
unfoldable pub state_name : Bytes → Bytes
state_name s =
    if strcmp_eq s (codes "S")
    then codes "sleeping"
    else if strcmp_eq s (codes "R")
    then codes "running"
    else if strcmp_eq s (codes "I")
    then codes "idle"
    else if strcmp_eq s (codes "Z")
    then codes "zombie"
    else if strcmp_eq s (codes "D")
    then codes "disk sleep"
    else if strcmp_eq s (codes "T")
    then codes "tracing stop"
    else codes "unknown"

-- `atoi` of a token.
abbrev uid_of : Option Bytes → Cmd ℕ
uid_of none = fail null_string
uid_of (some t) = pure (to_unsigned (atoi t))

-- `getUser`; a user that is not known is a null pointer, of which `pw_name` is read.
unfoldable pub get_user : World → ℕ → Option Bytes
get_user w uid = w.getpwuid uid

unfoldable pub user_in : World → Option Bytes → Bytes → Cmd Bytes
user_in w none old = pure old
user_in w (some file) old = do
  read_into 100000 file
  c ← get_token (codes " \n\t") (codes "Uid:") 0
  uid ← uid_of (token_string c)
  copy_string 16 (get_user w uid)

unfoldable pub read_user : World → Bytes → Bytes → Cmd Bytes
read_user w path old = do file ← open_file w path; user_in w file old

abbrev status_field : World → Bytes → Bytes → ℕ → Bytes → Cmd Bytes
status_field w path key size old = optional w path 100000 (codes " \n\t") key 0 size old

abbrev blanks : ℕ → Bytes → Bytes
blanks zero s = s
blanks (suc n) s = 32 ∷ blanks n s

-- `%5d` and the like: blanks in front, up to the width.
unfoldable pub pad : ℕ → Bytes → Bytes
pad width s = blanks (width - length s) s

unfoldable pub row_text : Row → Bytes
row_text r =
    pad 5 (decimal r.pid)
    ++ (codes " | "
        ++ (pad 12 r.state
            ++ (codes " | "
                ++ (pad 25 (take_bytes 25 r.name)
                    ++ (codes " | "
                        ++ (pad 15 (take_bytes 15 r.user)
                            ++ (codes " | " ++ (r.tasks ++ codes " \n"))))))))

-- `sscanf` of a name that starts with a digit.
abbrev pid_of : Bytes → ℕ
pid_of d_name = read_digits 0 d_name

unfoldable pub new_row : Bytes → Bytes → Bytes → Bytes → Bytes → Row
new_row d_name state name user tasks = record {
  pid = pid_of d_name;
  state = state_name state;
  name = name;
  user = user;
  tasks = tasks;
}

-- A round for a process.
unfoldable pub list_process : World → Bytes → Row → Cmd Row
list_process w d_name r = do
  let full_dir = d_name ++ codes "/status"
  tasks ← status_field w full_dir (codes "Threads:") 5 r.tasks
  name ← status_field w full_dir (codes "Name:") 200 r.name
  state ← status_field w full_dir (codes "State:") 13 r.state
  user ← read_user w full_dir r.user
  say (row_text (new_row d_name state name user tasks))
  pure (new_row d_name state name user tasks)

abbrev round : World → Dirent → Row → Cmd Row
round w e r = if is_process e then list_process w e.d_name r else pure r

unfoldable pub list_tasks : World → List Dirent → Row → Cmd Row
list_tasks w [] r = pure r
list_tasks w (e ∷ es) r = do r' ← round w e r; list_tasks w es r'

-- `buffer` is an array of its own, of zeros.
abbrev fresh_buffer : Cmd (Unit {0})
fresh_buffer s = ok tt (record s { buf = [] })

pub task_list : World → Bool → Cmd (Unit {0})
task_list w alt_proc = do
  say (codes "  PID |        State |                 Task Name |            User | Tasks \n")
  say (codes "------+--------------+---------------------------+-----------------+-------\n")
  entries ← open_proc_dir w alt_proc
  fresh_buffer
  last ← list_tasks w entries no_row
  pure tt
