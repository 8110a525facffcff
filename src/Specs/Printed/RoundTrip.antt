-- ===== src/Specs/Printed/RoundTrip.antt =====
-- A file of process specifications, printed and read back by `read_spec` of LabWork/Lab7/file_format.c.
use cs.Common.{
  ℕ, zero, suc, ◌+◌, ◌-◌, ◌%◌, ◌^◌, ◌≡◌, ◌≢◌, ◌≤◌, ◌<◌, refl, ap, sym, subst, ◌∙◌, none, some, List,
  [], ◌∷◌, ◌++◌, All, Bytes, length, length-append, lt→ltb, arith, decimal, decimal-AllDigits,
  decimal-Starts, atoi-decimal,
}
use mathlib.Core.List.{append_assoc, append-nil}
use cs.Scheduler.{Pcb, empty_pcb}
use cs.Tokens.Split.{Split}
use cs.Specs.{
  delim, ok, take_line, fgets, copy_name, read_number, load_line, read_lines, read_spec, line_sz,
  name_sz,
}
use cs.Specs.Fields.{from_tokens}
use cs.Specs.Lines.{commas, line_meaning, load_line_lem}
use cs.Specs.Printed.{
  Field, digits-Plain, line, line-Split, content-line, commas-line, take_line-line,
}

-- What a line says of a process.
pub record Spec : Type 0 where
  pub name : Bytes
  pub creation_quantum : ℕ
  pub workload : ℕ
  pub priority : ℕ

abbrev pub print_line : Spec → Bytes → Bytes
print_line e = line e.name (decimal e.creation_quantum) (decimal e.workload) (decimal e.priority)

abbrev pub print_file : List Spec → Bytes
print_file [] = []
print_file (e ∷ es) = print_line e (print_file es)

-- The name is a plain word that fits, the numbers are of 32 bits, and the line fits the buffer.
pub record Prints (e : Spec) : Type 0 where
  pub word : Field e.name
  pub name_fits : length e.name < name_sz
  pub quantum_fits : e.creation_quantum < 2 ^ 32
  pub workload_fits : e.workload < 2 ^ 32
  pub priority_fits : e.priority < 2 ^ 32
  pub line_fits :
      length e.name
        + length (decimal e.creation_quantum)
        + length (decimal e.workload)
        + length (decimal e.priority)
        + 7
      ≤ line_sz - 1

abbrev pub pcb_of : ℕ → Spec → Pcb
pcb_of pid e = record empty_pcb {
  pid = pid;
  name = e.name;
  creation_quantum = e.creation_quantum;
  workload = e.workload;
  priority = e.priority;
}

abbrev pub table_of : ℕ → List Spec → List Pcb
table_of i [] = []
table_of i (e ∷ es) = pcb_of i e ∷ table_of (i + 1) es

decimal-Field : (n : ℕ) → Field (decimal n)
decimal-Field n =
    let s = decimal-Starts n in
    record {
      head = s.c;
      tail = s.rest;
      nonempty = s.whole;
      plain = digits-Plain (decimal n) (decimal-AllDigits n);
    }

read_number-decimal : (n : ℕ) → n < 2 ^ 32 → read_number (some (decimal n)) ≡ ok n
unfolding read_number
read_number-decimal n h = let e : n % 2 ^ 32 ≡ n = omega arith in rw (atoi-decimal n, e) refl

from_tokens-print :
    (pid : ℕ) (e : Spec)
    → Prints e
    → from_tokens pid
        (e.name ∷ decimal e.creation_quantum ∷ decimal e.workload ∷ decimal e.priority ∷ [])
      ≡ ok (pcb_of pid e)
unfolding copy_name
from_tokens-print pid e h =
    rw
      (
        lt→ltb (length e.name) name_sz h.name_fits,
        read_number-decimal e.creation_quantum h.quantum_fits,
        read_number-decimal e.workload h.workload_fits,
        read_number-decimal e.priority h.priority_fits,
      )
      refl

meaning-print :
    (pcbs : List Pcb) (e : Spec) (s : Bytes)
    → Prints e
    → length pcbs < 100
    → s ≢ []
    → commas s ≡ 3
    → line_meaning pcbs s
        (e.name ∷ decimal e.creation_quantum ∷ decimal e.workload ∷ decimal e.priority ∷ [])
      ≡ ok (pcbs ++ pcb_of (length pcbs) e ∷ [])
meaning-print pcbs e [] h room ne k = absurd (ne refl)
meaning-print pcbs e (c ∷ s) h room ne k =
    rw (k, lt→ltb (length pcbs) 100 room, from_tokens-print (length pcbs) e h) refl

-- A line is not empty.
print_line-≢ : (e : Spec) (rest : Bytes) → Prints e → print_line e rest ≢ []
print_line-≢ e rest h z = absurd (
    omega (
      arith,
      ap length z,
      length-append e.name (
          44
          ∷ 32
          ∷ (decimal e.creation_quantum
              ++ 44 ∷ 32 ∷ (decimal e.workload ++ 44 ∷ 32 ∷ (decimal e.priority ++ 10 ∷ rest)))),
    ))

load_line-print :
    (pcbs : List Pcb) (e : Spec)
    → Prints e
    → length pcbs < 100
    → load_line pcbs (print_line e []) ≡ ok (pcbs ++ pcb_of (length pcbs) e ∷ [])
load_line-print pcbs e h room =
    let q = decimal-Field e.creation_quantum in
    let w = decimal-Field e.workload in
    let p = decimal-Field e.priority in
    let fields =
      e.name ∷ decimal e.creation_quantum ∷ decimal e.workload ∷ decimal e.priority ∷ [] in
    let same =
      content-line e.name (decimal e.creation_quantum) (decimal e.workload) (decimal e.priority)
        h.word q w p in
    load_line_lem pcbs (print_line e []) fields (
      subst (λ z. Split delim z fields) (sym same)
        (line-Split e.name (decimal e.creation_quantum) (decimal e.workload) (decimal e.priority)
          h.word q w p))
    ∙ (ap (λ z. line_meaning pcbs z fields) same
        ∙ meaning-print pcbs e (print_line e []) h room (print_line-≢ e [] h) (
            commas-line e.name (decimal e.creation_quantum) (decimal e.workload)
              (decimal e.priority) h.word q w p))

fgets-≢ : (file : Bytes) → file ≢ [] → fgets line_sz file ≡ some (take_line (line_sz - 1) file)
unfolding fgets
fgets-≢ [] h = absurd (h refl)
fgets-≢ (c ∷ file) h = refl

fgets-nil : fgets line_sz [] ≡ none
unfolding fgets
fgets-nil = refl

read_lines-print :
    (k : ℕ) (es : List Spec) (pcbs : List Pcb)
    → All Prints es
    → length es < k
    → length pcbs + length es ≤ 100
    → read_lines k (print_file es) pcbs ≡ ok (pcbs ++ table_of (length pcbs) es)
unfolding read_lines
read_lines-print zero es pcbs h fuel room = absurd (omega arith)
read_lines-print (suc k) [] pcbs h fuel room =
    rw (read_lines, fgets-nil) (ap ok (sym (append-nil pcbs)))
read_lines-print (suc k) (e ∷ es) pcbs h fuel room =
    let next = pcbs ++ pcb_of (length pcbs) e ∷ [] in
    let longer : length next ≡ length pcbs + 1 =
      omega (arith, length-append pcbs (pcb_of (length pcbs) e ∷ [])) in
    rw
      (
        read_lines,
        fgets-≢ (print_line e (print_file es)) (print_line-≢ e (print_file es) h.0),
        take_line-line e.name (decimal e.creation_quantum) (decimal e.workload) (decimal e.priority)
            h.0.word (decimal-Field e.creation_quantum) (decimal-Field e.workload)
            (decimal-Field e.priority) (line_sz - 1) (print_file es) h.0.line_fits,
        load_line-print pcbs e h.0 (omega arith),
        read_lines-print k es next h.1 (omega arith) (omega (arith, longer)),
        longer,
        append_assoc pcbs (pcb_of (length pcbs) e ∷ []) (table_of (length pcbs + 1) es),
      )
      refl

length-print : (es : List Spec) → All Prints es → length es ≤ length (print_file es)
length-print [] h = omega arith
length-print (e ∷ es) h = omega (
  arith,
  length-print es h.1,
  length-append e.name (
      44
      ∷ 32
      ∷ (decimal e.creation_quantum
          ++ 44
            ∷ 32
            ∷ (decimal e.workload ++ 44 ∷ 32 ∷ (decimal e.priority ++ 10 ∷ print_file es)))),
  length-append (decimal e.creation_quantum)
      (44 ∷ 32 ∷ (decimal e.workload ++ 44 ∷ 32 ∷ (decimal e.priority ++ 10 ∷ print_file es))),
  length-append (decimal e.workload) (44 ∷ 32 ∷ (decimal e.priority ++ 10 ∷ print_file es)),
  length-append (decimal e.priority) (10 ∷ print_file es),
)

-- A file of at most 100 process specifications, each printed as a line of its name, creation quantum,
-- workload and priority, with a comma and a space between them, is read by `read_spec` into an empty
-- table as just these processes, numbered from 0; where each name is not empty, shorter than 128 bytes
-- and free of delimiters, of `#` and of zeros, the numbers are below 2^32, and each line fits the
-- buffer of 1024 bytes.
pub read_spec-print :
    (es : List Spec)
    → All Prints es
    → length es ≤ 100
    → read_spec (some (print_file es)) [] ≡ ok (table_of 0 es)
unfolding read_spec
read_spec-print es h room =
    read_lines-print (length (print_file es) + 1) es [] h (omega (arith, length-print es h))
      (omega arith)
