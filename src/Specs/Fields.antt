-- ===== src/Specs/Fields.antt =====
-- The four fields of a line, for `read_spec` of LabWork/Lab7/file_format.c.
use cs.Common.{ℕ, ◌≡◌, refl, some, List, [], ◌∷◌, ◌++◌, Bytes, NoNul, length, ltb, if◌then◌else◌}
use cs.Tokens.{next_token}
use cs.Tokens.Split.{Split}
use cs.Tokens.Stream.{ahead, Anything, NoNul-Text, first, others, next_token-At}
use cs.Scheduler.{Pcb, empty_pcb}
use cs.Specs.{
  Result, ok, fault, bind, deref, copy_name, delim, read_number, read_pcb, num_processes_max,
  table_overrun, add_process,
}

-- A process from the tokens of a line; a token that is not there is a null pointer.
abbrev pub from_tokens : ℕ → List Bytes → Result Pcb
from_tokens pid ts = bind (bind (deref (first ts)) copy_name) (λ name.
    bind (read_number (first (others ts))) (λ quantum.
      bind (read_number (first (others (others ts)))) (λ workload.
        bind (read_number (first (others (others (others ts))))) (λ priority. ok (record empty_pcb {
          pid = pid;
          name = name;
          creation_quantum = quantum;
          workload = workload;
          priority = priority;
        })))))

abbrev pub add_tokens : List Pcb → List Bytes → Result (List Pcb)
add_tokens pcbs ts =
    if ltb (length pcbs) num_processes_max
    then bind (from_tokens (length pcbs) ts) (λ p. ok (pcbs ++ p ∷ []))
    else fault table_overrun

read_pcb-Split :
    (pid : ℕ) (s post : Bytes) (ts : List Bytes)
    → NoNul s
    → Split delim s ts
    → read_pcb pid (s ++ 0 ∷ post) ≡ from_tokens pid ts
unfolding read_pcb
read_pcb-Split pid s post ts n split =
    let c1 = next_token delim (s ++ 0 ∷ post) (some 0) in
    let c2 = next_token delim c1.buffer c1.str_ptr in
    let c3 = next_token delim c2.buffer c2.str_ptr in
    let h1 =
      next_token-At Anything delim (s ++ 0 ∷ post) (some 0) ts
        (ahead [] s post refl refl (NoNul-Text s n) split) in
    let h2 = next_token-At Anything delim c1.buffer c1.str_ptr (others ts) h1.1 in
    let h3 = next_token-At Anything delim c2.buffer c2.str_ptr (others (others ts)) h2.1 in
    let h4 = next_token-At Anything delim c3.buffer c3.str_ptr (others (others (others ts))) h3.1 in
    rw (h1.0, h2.0, h3.0, h4.0) refl

pub add_process-Split :
    (pcbs : List Pcb) (s post : Bytes) (ts : List Bytes)
    → NoNul s
    → Split delim s ts
    → add_process pcbs (s ++ 0 ∷ post) ≡ add_tokens pcbs ts
unfolding add_process
add_process-Split pcbs s post ts n split = rw (read_pcb-Split (length pcbs) s post ts n split) refl
