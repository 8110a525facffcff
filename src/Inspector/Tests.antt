-- ===== src/Inspector/Tests.antt =====
-- A small proc file system for Project1/inspector.c.
use cs.Common.{
  ℕ, ◌≡◌, ◌≢◌, refl, true, false, Option, none, some, List, [], ◌∷◌, Bytes, codes, has, strcmp_eq,
  if◌then◌else◌, pos, decimal, arith,
}
use cs.Tokens.{next_token, cut}
use cs.Tokens.Leads.{Leads, stop, token}
use cs.Inspector.Run.{World, Dirent, State, Run, ok, fault, int_overflow, read_into, copy_string}
use cs.Inspector.Options.{opt_l, opt_p, opt_s, parse_options, defaults, chosen, all_on, goes_on}
use cs.Inspector.Options.Chosen.{with_options, parse_options_lem}
use cs.Inspector.Fields.{
  find_key, stop_at, skip_tokens, get_next_tok, get_token, read_field, optional,
}
use cs.Inspector.Fields.Lookup.{Reads, read_field-Leads}
use cs.Inspector.Uptime.{show_time, seconds}
use cs.Inspector.Uptime.Parts.{total, without_months, show_time_lem}
use cs.Inspector.Hardware.{cores_in, cpu_total, add_field}
use cs.Inspector.Hardware.CpuTotal.{Ints, Yields, cpu_total-Yields}
use cs.Inspector.Hardware.Cores.{cores_in-Yields}
use cs.Inspector.Tasks.{
  Row, no_row, list_tasks, list_process, is_process, read_user, user_in, get_user, new_row,
  state_name, row_text, pad,
}
use cs.Inspector.Tasks.Rows.{Listed, list_tasks-Listed}

-- A token of one byte, before a blank.
one :
    (x : ℕ) (rest : Bytes) (ts : List Bytes)
    → x ≢ 0
    → has (codes " ") x ≡ false
    → Leads (codes " ") rest ts
    → Leads (codes " ") (x ∷ 32 ∷ rest) ((x ∷ []) ∷ ts)
one x rest ts nz out h =
    token _ [] x [] 32 rest ts refl tt (nz, tt) tt (out, tt) refl (omega arith) h

abbrev stat : Bytes
stat = codes "cpu  1 2 3 4 5 6 7 8 "

abbrev fields : List Bytes
fields =
    codes "1"
    ∷ codes "2"
    ∷ codes "3"
    ∷ codes "4"
    ∷ codes "5"
    ∷ codes "6"
    ∷ codes "7"
    ∷ codes "8"
    ∷ []

stat-Leads : Leads (codes " ") stat (codes "cpu" ∷ fields)
stat-Leads =
    token stat [] 99 (codes "pu") 32 (codes " 1 2 3 4 5 6 7 8 ") fields refl tt
      (omega arith, (omega arith, (omega arith, tt))) tt (refl, (refl, (refl, tt))) refl
      (omega arith)
      (token (codes " 1 2 3 4 5 6 7 8 ") (codes " ") 49 [] 32 (codes "2 3 4 5 6 7 8 ") _ refl
        (omega arith, tt) (omega arith, tt) (refl, tt) (refl, tt) refl (omega arith)
        (one 50 _ _ (omega arith) refl (
          one 51 _ _ (omega arith) refl (
            one 52 _ _ (omega arith) refl (
              one 53 _ _ (omega arith) refl (
                one 54 _ _ (omega arith) refl
                  (one 55 _ _ (omega arith) refl (one 56 [] [] (omega arith) refl (stop [])))))))))

abbrev status_of : Bytes
status_of = codes "Name: sh\nState: S\nUid: 0\nThreads: 2\n"

-- One process, 7, of the user root.
abbrev files : Bytes → Option Bytes
files path =
    if strcmp_eq path (codes "stat")
    then some stat
    else if strcmp_eq path (codes "7/status")
    then some status_of
    else none

abbrev tiny : World
tiny = record {
  open_proc = λ k path. files path;
  getcwd = some (codes "/proc");
  opendir = λ path. some (
      record { is_dir = true; d_name = codes "7" }
      ∷ record { is_dir = true; d_name = codes "net" }
      ∷ []);
  getpwuid = λ uid. some (codes "root");
  stale_forks = [];
  cpu_bar = λ a b. pos 0;
  cpu_text = λ a b. [];
  memory_bar = λ a b. pos 0;
  memory_text = λ a b. [];
}

abbrev start : State
start = record { buf = codes "old 7 bytes of the buffer"; opens = 0; out = [] }

read_field-Leads_example :
    Reads (read_field stat 1000 (codes " ") (codes "cpu") 3 1000 start) start (codes "4")
read_field-Leads_example =
    read_field-Leads stat 1000 (codes " ") (codes "cpu") 3 1000 start (codes "cpu" ∷ fields)
      (codes "4") refl stat-Leads (omega arith) refl (omega arith)

cpu_total_Ints : Ints (pos 0) fields
cpu_total_Ints = (
  refl,
  refl,
  (
    refl,
    refl,
    (refl, refl, (refl, refl, (refl, refl, (refl, refl, (refl, refl, (refl, refl, tt)))))),
  ),
)

cpu_total-Yields_example : Yields (cpu_total tiny 8 0 (pos 0) start) (pos 36) start
cpu_total-Yields_example =
    cpu_total-Yields tiny stat (λ k. refl) fields [] start refl stat-Leads (omega arith)
      (
        omega arith,
        (
          omega arith,
          (
            omega arith,
            (omega arith, (omega arith, (omega arith, (omega arith, (omega arith, tt))))),
          ),
        ),
      )
      cpu_total_Ints

-- The largest `int` and one more.
sum_overflows : add_field (pos 2147483647) (pos 1) start ≡ fault int_overflow
unfolding add_field
sum_overflows = refl

abbrev two_cores : Bytes
two_cores = codes "c\nc0\nc1\ni\n"

cores_in-Yields_example : Yields (cores_in (some two_cores) start) (decimal 2) start
cores_in-Yields_example =
    cores_in-Yields two_cores (codes "c") (codes "c0" ∷ codes "c1" ∷ []) (codes "i") start refl
      (token two_cores [] 99 [] 10 (codes "c0\nc1\ni\n") _ refl tt (omega arith, tt) tt (refl, tt)
        refl (omega arith)
        (token _ [] 99 (codes "0") 10 (codes "c1\ni\n") _ refl tt (omega arith, (omega arith, tt))
          tt (refl, (refl, tt)) refl (omega arith)
          (token _ [] 99 (codes "1") 10 (codes "i\n") _ refl tt (omega arith, (omega arith, tt)) tt
            (refl, (refl, tt)) refl (omega arith)
            (token _ [] 105 [] 10 [] [] refl tt (omega arith, tt) tt (refl, tt) refl (omega arith)
              (stop [])))))
      (refl, (refl, (refl, tt))) (omega arith)

show_time_lem_example : total (show_time 40000000) ≡ without_months 40000000
show_time_lem_example = show_time_lem 40000000 (omega arith) (omega arith) (omega arith)

-- A minute is shown as no time at all.
minute : show_time 60 ≡ seconds 0
unfolding show_time
minute = refl

parse_options_lem_example :
    parse_options (opt_s ∷ opt_p (codes "/mnt") ∷ opt_l ∷ []) defaults
    ≡ goes_on (with_options (opt_s ∷ opt_p (codes "/mnt") ∷ opt_l ∷ []) defaults)
parse_options_lem_example = parse_options_lem (opt_s ∷ opt_p (codes "/mnt") ∷ opt_l ∷ []) defaults

-- With the directory in the same argument as -p, the count of arguments is one too low.
all_shown : chosen 3 (with_options (opt_p (codes "/mnt") ∷ opt_s ∷ []) defaults) ≡ all_on
unfolding chosen
all_shown = refl

abbrev entries : List Dirent
entries =
    record { is_dir = true; d_name = codes "7" }
    ∷ record { is_dir = true; d_name = codes "net" }
    ∷ []

abbrev state_of : Run Row → State
state_of (ok r s) = s
state_of _ = start

abbrev row_of : Run Row → Row
row_of (ok r s) = r
row_of _ = no_row

tiny_listed :
    list_tasks tiny entries no_row start
    ≡ ok
        (row_of (list_tasks tiny entries no_row start))
        (state_of (list_tasks tiny entries no_row start))
unfolding list_tasks is_process list_process optional read_user user_in read_field read_into
    get_token get_next_tok find_key stop_at skip_tokens copy_string next_token cut get_user
tiny_listed = refl

list_tasks-Listed_example : Listed entries start (state_of (list_tasks tiny entries no_row start))
list_tasks-Listed_example =
    list_tasks-Listed tiny entries no_row (row_of (list_tasks tiny entries no_row start)) start
      (state_of (list_tasks tiny entries no_row start)) tiny_listed

shown_row :
    (state_of (list_tasks tiny entries no_row start)).out
    ≡ codes "    7 |     sleeping |                        sh |            root | 2 \n"
unfolding list_tasks is_process list_process optional read_user user_in read_field read_into
    get_token get_next_tok find_key stop_at skip_tokens copy_string next_token cut row_text new_row
    pad state_name get_user decimal
shown_row = refl
