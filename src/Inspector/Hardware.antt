-- ===== src/Inspector/Hardware.antt =====
-- The hardware information of `main` of Project1/inspector.c. The two percentages are floating point and are
-- given by the `World`.
pub mod CpuTotal
pub mod Cores
use cs.Common.{
  ℕ, zero, suc, ◌+◌, ◌-◌, ◌^◌, Bool, ◌&&◌, ltb, Option, none, some, [], Bytes, codes, ◌++◌,
  c_string, drop, get_or, length, ◌==◌, if◌then◌else◌, ℤ, pos, negsuc, sub_ℕ, ◌+ℤ◌, ◌-ℤ◌, atoi,
  decimal_int,
}
use cs.Tokens.{Call, next_token}
use cs.Inspector.Run.{
  World, State, Run, ok, fault, null_string, int_overflow, fail, Cmd, pure, ◌>>=◌, ◌>>◌, and_then,
  exit_failure, say, open_file, read_into, copy_string, take_bytes,
}
use cs.Inspector.Fields.{get_token, required}
use cs.Inspector.Progress.{print_progress}

-- The string two bytes behind the token: `tok + 2`.
abbrev string_behind : Bytes → Option ℕ → Option Bytes
string_behind buffer none = none
string_behind buffer (some p) = some (c_string (drop (p + 2) buffer))

pub cpu_model_in : Option Bytes → Cmd Bytes
cpu_model_in none = pure []
cpu_model_in (some file) = do
  read_into 1000 file
  c ← get_token (codes "\t\n") (codes "model name") 0
  copy_string 100000 (string_behind c.buffer c.token)

pub cpu_model : World → Cmd Bytes
cpu_model w = do file ← open_file w (codes "cpuinfo"); cpu_model_in file

abbrev one_more : Option (ℕ × Bytes) → Option (ℕ × Bytes)
one_more none = none
one_more (some (n, buffer)) = some (suc n, buffer)

-- The loop `while (*curr == 'c')`, from `curr` on: the rounds that it takes, and the buffer. A null pointer is
-- `none`, and so is no fuel.
pub count_cpus : ℕ → Bytes → Option ℕ → Option ℕ → Option (ℕ × Bytes)
count_cpus k buffer next none = none
count_cpus zero buffer next (some curr) = none
count_cpus (suc k) buffer next (some curr) =
    let c = next_token (codes "\n") buffer next in
    let rest = count_cpus k c.buffer c.str_ptr c.token in
    if get_or buffer curr 0 == 99 then one_more rest else some (0, buffer)

-- `i` starts at -1 and counts the rounds; it is 0 after one.
pub cores_text : ℕ → Bytes
cores_text rounds = if rounds == 1 then codes "1" else decimal_int (sub_ℕ rounds 2)

abbrev keep_cores : Option (ℕ × Bytes) → Cmd Bytes
keep_cores none s = fault null_string
keep_cores (some (rounds, buffer)) s = ok (cores_text rounds) (record s { buf = buffer })

pub count_cores : Cmd Bytes
count_cores s = keep_cores (count_cpus (length s.buf + 2) s.buf (some 0) (some 0)) s

pub cores_in : Option Bytes → Cmd Bytes
cores_in none = exit_failure
cores_in (some file) = do read_into 100000 file; count_cores

pub cores : World → Cmd Bytes
cores w = do file ← open_file w (codes "stat"); cores_in file

-- One field of the first line of `stat`.
pub cpu_field : World → ℕ → Cmd Bytes
cpu_field w i = required w (codes "stat") 1000 (codes " ") (codes "cpu") i 1000

-- A value of `int`.
abbrev pub in_int : ℤ → Bool
in_int (pos n) = ltb n (2 ^ 31)
in_int (negsuc n) = ltb n (2 ^ 31)

-- `total += atoi(cpuinfo)`, with the value that `atoi` reads.
unfoldable pub add_field : ℤ → ℤ → Cmd ℤ
add_field total n = if in_int n && in_int (total +ℤ n) then pure (total +ℤ n) else fail int_overflow

-- The loop over the fields: `k` are left, from field `i` on.
pub cpu_total : World → ℕ → ℕ → ℤ → Cmd ℤ
cpu_total w zero i total = pure total
cpu_total w (suc k) i total = do
  cpuinfo ← cpu_field w i
  sum ← add_field total (atoi cpuinfo)
  cpu_total w k (i + 1) sum

abbrev meminfo : World → Bytes → Cmd Bytes
meminfo w key = required w (codes "meminfo") 100000 (codes "\n ") key 0 100000

pub show_hardware : World → Bytes → Bytes → Bytes → ℤ → ℤ → ℤ → ℤ → Cmd (Unit {0})
show_hardware w cpuname cores loadavg diff_idle diff_total mem_total unused = do
  say (codes "\nHardware Information\n--------------------\n")
  say (codes "CPU Model: " ++ (cpuname ++ codes "\n"))
  say (codes "Processing Units: " ++ (cores ++ codes "\n"))
  say (codes "Load Average (1/5/15 min):  " ++ (take_bytes 15 loadavg ++ codes "\n"))
  say (codes "CPU Usage:    ")
  say (print_progress (w.cpu_bar diff_idle diff_total) 20)
  say (w.cpu_text diff_idle diff_total)
  say (codes "Memory Usage: ")
  say (print_progress (w.memory_bar mem_total unused) 20)
  say (w.memory_text mem_total unused)

pub hardware_information : World → Cmd (Unit {0})
hardware_information w = do
  cpuname ← cpu_model w
  processing_units ← cores w
  loadavg ← required w (codes "loadavg") 100000 (codes "\n") (codes "NONE") 0 100000
  prev_total ← cpu_total w 8 0 (pos 0)
  prev_idle ← cpu_field w 3
  curr_total ← cpu_total w 8 0 (pos 0)
  curr_idle ← cpu_field w 3
  mem_total ← meminfo w (codes "MemTotal:")
  mem_free ← meminfo w (codes "MemFree:")
  buffers ← meminfo w (codes "Buffers:")
  cached ← meminfo w (codes "Cached:")
  s_cached ← meminfo w (codes "SwapCached:")
  show_hardware w cpuname processing_units loadavg (atoi curr_idle -ℤ atoi prev_idle)
      (curr_total -ℤ prev_total) (atoi mem_total)
      (atoi mem_free +ℤ atoi buffers +ℤ atoi cached +ℤ atoi s_cached)
