-- ===== src/Specs.antt =====
-- LabWork/Lab7/file_format.c: `read_spec`, which reads a process specification into the scheduler's table.
-- A file is the list of its bytes. Of the line buffer, what stands behind the zero that `fgets` writes is
-- left out: no code reads it.
pub mod Fields
mod Lines
pub mod Printed
mod Kept
mod Loads
mod Tests
use cs.Common.{
  ℕ, zero, suc, ◌+◌, ◌-◌, Option, none, some, List, [], ◌∷◌, ◌++◌, Bytes, codes, length, ltb, ◌==◌,
  if◌then◌else◌, c_string, atoi, to_unsigned,
}
use cs.Tokens.{Call, next_token}
use cs.Tokens.Stream.{token_string}
use cs.Scheduler.{Pcb, empty_pcb}

-- What goes wrong: a null pointer is read, a name of 128 bytes or more, a table of 100 processes that is
-- full; and no fuel, which only the model runs out of.
pub data Fault : Type 0 where
  null_file null_token name_overrun table_overrun no_fuel : Fault

pub data Result {ℓ} (A : Type ℓ) : Type ℓ where
  ok : A → Result A
  fault : Fault → Result A

abbrev pub bind {ℓ κ} : {A : Type ℓ} {B : Type κ} → Result A → (A → Result B) → Result B
bind (ok a) f = f a
bind (fault e) f = fault e

-- A string that `strcpy` or `atoi` reads.
abbrev pub deref : Option Bytes → Result Bytes
deref none = fault null_token
deref (some s) = ok s

abbrev pub line_sz : ℕ
line_sz = 1024

abbrev pub name_sz : ℕ
name_sz = 128

abbrev pub num_processes_max : ℕ
num_processes_max = 100

abbrev pub delim : Bytes
delim = codes ", \t\n"

-- The bytes of one `fgets` that reads `n` at most, and what is left of the file.
pub take_line : ℕ → Bytes → Bytes × Bytes
take_line zero file = ([], file)
take_line (suc n) [] = ([], [])
take_line (suc n) (c ∷ file) =
    let rest = take_line n file in if c == 10 then (c ∷ [], file) else (c ∷ rest.0, rest.1)

pub fgets : ℕ → Bytes → Option (Bytes × Bytes)
fgets size [] = none
fgets size (c ∷ file) = some (take_line (size - 1) (c ∷ file))

-- The loop over the line: a comment is cut off, and the fields are counted.
pub strip : ℕ → Bytes → ℕ × Bytes
strip fields [] = (fields, [])
strip fields (c ∷ s) =
    let rest = strip (if c == 44 then fields + 1 else fields) s in
    if c == 35 then (fields, 0 ∷ s) else if c == 0 then (fields, c ∷ s) else (rest.0, c ∷ rest.1)

-- `strcpy(pcb->name, tok)`
pub copy_name : Bytes → Result Bytes
copy_name s = if ltb (length s) name_sz then ok s else fault name_overrun

pub read_number : Option Bytes → Result ℕ
read_number s = bind (deref s) (λ t. ok (to_unsigned (atoi t)))

-- The four tokens of a line, each read before the next call.
pub read_pcb : ℕ → Bytes → Result Pcb
read_pcb pid line =
    let c1 = next_token delim line (some 0) in
    let c2 = next_token delim c1.buffer c1.str_ptr in
    let c3 = next_token delim c2.buffer c2.str_ptr in
    let c4 = next_token delim c3.buffer c3.str_ptr in
    bind (bind (deref (token_string c1)) copy_name) (λ name.
      bind (read_number (token_string c2)) (λ quantum.
        bind (read_number (token_string c3)) (λ workload.
          bind (read_number (token_string c4)) (λ priority. ok (record empty_pcb {
            pid = pid;
            name = name;
            creation_quantum = quantum;
            workload = workload;
            priority = priority;
          })))))

-- A process is put behind the others of the table.
pub add_process : List Pcb → Bytes → Result (List Pcb)
add_process pcbs line =
    if ltb (length pcbs) num_processes_max
    then bind (read_pcb (length pcbs) line) (λ p. ok (pcbs ++ p ∷ []))
    else fault table_overrun

-- The body of the loop, on what `fgets` has read.
pub load_line : List Pcb → Bytes → Result (List Pcb)
load_line pcbs read =
    let stripped = strip 1 (read ++ 0 ∷ []) in
    if length (c_string stripped.1) == 0
    then ok pcbs
    else if stripped.0 == 4
    then add_process pcbs stripped.1
    else ok pcbs

pub read_lines : ℕ → Bytes → List Pcb → Result (List Pcb)
read_lines zero file pcbs = fault no_fuel
read_lines (suc k) file pcbs = elim (fgets line_sz file) [
  | none ↦ ok pcbs
  | some (line, rest) ↦ bind (load_line pcbs line) (λ pcbs'. read_lines k rest pcbs')
]

-- `read_spec` on what `fopen` gives; the loop takes at least a byte a round.
pub read_spec : Option Bytes → List Pcb → Result (List Pcb)
read_spec none pcbs = fault null_file
read_spec (some file) pcbs = read_lines (length file + 1) file pcbs
