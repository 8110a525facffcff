-- ===== src/Specs/Kept.antt =====
-- What `read_spec` of LabWork/Lab7/file_format.c keeps of the table, line by line.
use cs.Common.{
  ℕ, ◌+◌, ◌^◌, ◌≡◌, ◌≤◌, ◌<◌, Bool, c_string, refl, true, false, Option, none, some, List, [], ◌∷◌,
  ◌++◌, All, All-append, Bytes, length, length-append, ltb, ltb→lt, ◌==◌, if◌then◌else◌, Bool-cases,
  inl, inr, arith, ℤ, pos, negsuc, to_unsigned, atoi,
}
use cs.Tokens.{next_token}
use cs.Tokens.Stream.{token_string}
use cs.Scheduler.{Pcb, created}
use cs.Specs.{
  Fault, no_fuel, Result, ok, fault, bind, deref, delim, copy_name, read_number, read_pcb,
  add_process, strip, load_line, name_sz,
}

abbrev pub is_no_fuel : Fault → Bool
is_no_fuel no_fuel = true
is_no_fuel _ = false

-- A result that has the property, or a fault of the program.
abbrev pub Gives {ℓ} : {A : Type ℓ} → (A → Type 0) → Result A → Type 0
Gives P (ok a) = P a
Gives P (fault e) = is_no_fuel e ≡ false

module _ {ℓ κ} {A : Type ℓ} {B : Type κ} (Before : A → Type 0) (After : B → Type 0) where
  pub bind-Gives :
      (first : Result A) (next : A → Result B)
      → Gives Before first
      → ((a : A) → Before a → Gives After (next a))
      → Gives After (bind first next)
  bind-Gives (ok a) next before after = after a before
  bind-Gives (fault e) next before after = before

if-Gives {ℓ} :
    {A : Type ℓ} (P : A → Type 0) (b : Bool) (r r' : Result A)
    → Gives P r
    → Gives P r'
    → Gives P (if b then r else r')
if-Gives P true r r' h h' = h
if-Gives P false r r' h h' = h'

-- A process as it is read: it is yet to arrive, its name fits, and its numbers are of 32 bits.
pub record Admitted (p : Pcb) : Type 0 where
  pub yet_to_arrive : p.state ≡ created
  pub no_work_done : p.executed_work ≡ 0
  pub name_fits : length p.name < name_sz
  pub quantum_fits : p.creation_quantum < 2 ^ 32
  pub workload_fits : p.workload < 2 ^ 32
  pub priority_fits : p.priority < 2 ^ 32

-- The process ids count up from `i`.
abbrev pub Numbered : ℕ → List Pcb → Type 0
Numbered i [] = Unit
Numbered i (p ∷ ps) = (p.pid ≡ i) × Numbered (i + 1) ps

pub record Loaded (ps : List Pcb) : Type 0 where
  pub room : length ps ≤ 100
  pub numbered : Numbered 0 ps
  pub admitted : All Admitted ps

abbrev Read : ℕ → Pcb → Type 0
Read pid p = (p.pid ≡ pid) × Admitted p

deref-Gives : (s : Option Bytes) → Gives (λ _. Unit) (deref s)
deref-Gives none = refl
deref-Gives (some s) = tt

to_unsigned-< : (z : ℤ) → to_unsigned z < 2 ^ 32
to_unsigned-< (pos n) = omega arith
to_unsigned-< (negsuc n) = omega arith

read_number-Gives : (s : Option Bytes) → Gives (λ n. n < 2 ^ 32) (read_number s)
unfolding read_number
read_number-Gives none = refl
read_number-Gives (some s) = to_unsigned-< (atoi s)

copy_name-Gives : (s : Bytes) → Gives (λ t. length t < name_sz) (copy_name s)
unfolding copy_name
copy_name-Gives s = elim (Bool-cases (ltb (length s) name_sz)) [
  | inl y ↦ rw y (ltb→lt (length s) name_sz y)
  | inr n ↦ rw n refl
]

read_pcb-Gives : (pid : ℕ) (line : Bytes) → Gives (Read pid) (read_pcb pid line)
unfolding read_pcb
read_pcb-Gives pid line =
    let c1 = next_token delim line (some 0) in
    let c2 = next_token delim c1.buffer c1.str_ptr in
    let c3 = next_token delim c2.buffer c2.str_ptr in
    let c4 = next_token delim c3.buffer c3.str_ptr in
    bind-Gives (λ t. length t < name_sz) (Read pid) (bind (deref (token_string c1)) copy_name) _
      (bind-Gives (λ _. Unit) (λ t. length t < name_sz) (deref (token_string c1)) copy_name
        (deref-Gives (token_string c1)) (λ t _. copy_name-Gives t))
      (λ name hn.
        bind-Gives (λ n. n < 2 ^ 32) (Read pid) (read_number (token_string c2)) _
          (read_number-Gives (token_string c2))
          (λ quantum hq.
            bind-Gives (λ n. n < 2 ^ 32) (Read pid) (read_number (token_string c3)) _
              (read_number-Gives (token_string c3))
              (λ workload hw.
                bind-Gives (λ n. n < 2 ^ 32) (Read pid) (read_number (token_string c4)) _
                  (read_number-Gives (token_string c4))
                  (λ priority hp. (
                    refl,
                    record {
                      yet_to_arrive = refl;
                      no_work_done = refl;
                      name_fits = hn;
                      quantum_fits = hq;
                      workload_fits = hw;
                      priority_fits = hp;
                    },
                  )))))

Numbered-append :
    (i : ℕ) (ps : List Pcb) (p : Pcb)
    → Numbered i ps
    → p.pid ≡ i + length ps
    → Numbered i (ps ++ p ∷ [])
Numbered-append i [] p h e = (omega (arith, e), tt)
Numbered-append i (q ∷ ps) p h e = (h.0, Numbered-append (i + 1) ps p h.1 (omega (arith, e)))

add_process-Gives : (ps : List Pcb) (line : Bytes) → Loaded ps → Gives Loaded (add_process ps line)
unfolding add_process
add_process-Gives ps line h = elim (Bool-cases (ltb (length ps) 100)) [
  | inl y ↦ rw y (
      bind-Gives (Read (length ps)) Loaded (read_pcb (length ps) line) (λ p. ok (ps ++ p ∷ []))
        (read_pcb-Gives (length ps) line)
        (λ p (pid, a). record {
          room = omega (arith, length-append ps (p ∷ []), ltb→lt (length ps) 100 y);
          numbered = Numbered-append 0 ps p h.numbered (omega (arith, pid));
          admitted = All-append Admitted ps (p ∷ []) h.admitted (a, tt);
        }))
  | inr n ↦ rw n refl
]

pub load_line-Gives : (ps : List Pcb) (line : Bytes) → Loaded ps → Gives Loaded (load_line ps line)
unfolding load_line
load_line-Gives ps line h =
    let stripped = strip 1 (line ++ 0 ∷ []) in
    if-Gives Loaded (length (c_string stripped.1) == 0) (ok ps) _ h (
      if-Gives Loaded (stripped.0 == 4) (add_process ps stripped.1) (ok ps)
        (add_process-Gives ps stripped.1 h) h)
