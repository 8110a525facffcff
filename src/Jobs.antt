-- ===== src/Jobs.antt =====
-- The background jobs of Project2/shell.c: `exec` puts a job into a table of ten, and `sigchld_handler` takes
-- it out when its process has ended.
mod Table
pub mod Represents
mod Tests
use cs.Common.{
  ℤ, pos, negsuc, ℕ, zero, suc, ◌+◌, ◌-◌, Bool, true, false, Option, none, some, List, [], ◌∷◌,
  Bytes, ltb, leb, ◌==◌, if◌then◌else◌, get_or, set,
}

abbrev pub num_slots : ℕ
num_slots = 10

abbrev pub down : ℤ → ℤ
down (pos zero) = negsuc 0
down (pos (suc n)) = pos n
down (negsuc n) = negsuc (suc n)

pub record Jobs : Type 0 where
  pub num_jobs : List ℕ
  pub bg_cmds : List Bytes
  pub count : ℤ

-- The background branch of `exec`, with the count: `none` is a write outside of the table.
pub add_at : ℤ → ℕ → Bytes → Jobs → Option Jobs
add_at (negsuc n) pid command j = none
add_at (pos n) pid command j =
    if ltb n num_slots
    then some (record {
      num_jobs = set j.num_jobs n pid;
      bg_cmds = set j.bg_cmds n command;
      count = pos (n + 1);
    })
    else none

pub add_job : ℕ → Bytes → Jobs → Option Jobs
add_job pid command j = add_at j.count pid command j

-- The search among the first nine slots, of which `n` are left.
pub find_job : ℕ → ℕ → ℕ → List ℕ → ℕ
find_job zero i pid jobs = i
find_job (suc n) i pid jobs =
    let next = find_job n (i + 1) pid jobs in if get_or jobs i 0 == pid then i else next

-- The loop that moves the jobs behind slot `i` down by one, `n` times.
pub shift {ℓ} : {A : Type ℓ} → A → ℕ → ℕ → List A → List A
shift d zero i xs = xs
shift d (suc n) i xs = shift d n (i + 1) (set xs i (get_or xs (i + 1) d))

abbrev pub rounds : ℤ → ℕ → ℕ
rounds (pos n) i = n - i
rounds (negsuc n) i = 0

-- The job in slot `i` is taken out, in `n` rounds. The last one reads the slot at `i + n`: `none` is a read
-- outside of the table.
pub move : ℕ → ℕ → Jobs → Option Jobs
move n i j =
    if ltb (i + n) num_slots
    then some (record {
      num_jobs = shift 0 n i j.num_jobs;
      bg_cmds = shift [] n i j.bg_cmds;
      count = down j.count;
    })
    else none

pub remove_at : ℕ → Jobs → Option Jobs
remove_at i j = move (rounds j.count i) i j

-- `sigchld_handler`; `waited` is the result of `waitpid`, and `none` is -1.
pub sigchld_handler : Option ℕ → Jobs → Option Jobs
sigchld_handler none j = some j
sigchld_handler (some pid) j =
    if get_or j.num_jobs 9 0 == pid
    then some (record {
      num_jobs = set j.num_jobs 9 0;
      bg_cmds = set j.bg_cmds 9 [];
      count = down j.count;
    })
    else (if find_job 9 0 pid j.num_jobs == 9
        then some j
        else remove_at (find_job 9 0 pid j.num_jobs) j)
