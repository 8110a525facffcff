-- ===== src/Inspector/Hardware/Cores.antt =====
-- The processing units that `main` of Project1/inspector.c counts.
use cs.Common.{
  ℕ, zero, suc, ◌+◌, ◌≡◌, ◌≢◌, ◌≤◌, ◌<◌, refl, ap, sym, ◌∙◌, Option, none, some, List, [], ◌∷◌,
  ◌++◌, All, Bytes, codes, length, length-append, drop, get_or, c_string, ◌==◌, ==_ne, Bool-cases,
  true, false, leb, ◌-◌, decimal, decimal_int, inl, inr, arith,
}
use mathlib.Core.Option.{none-ne-some, some-injective}
use cs.Tokens.{next_token}
use cs.Tokens.Stream.{string_at}
use cs.Tokens.Leads.{Leads, stop, token, Led, led, next_token-Led, Leads-append}
use cs.Inspector.Run.{State, take_bytes, read_into}
use cs.Inspector.Hardware.{count_cpus, count_cores, cores_in, cores_text}
use cs.Inspector.Hardware.CpuTotal.{Yields}

abbrev pub first_byte : Bytes → ℕ
first_byte t = get_or t 0 0

byte-string : (b : Bytes) (p : ℕ) → get_or b p 0 ≡ first_byte (c_string (drop p b))
byte-string [] zero = refl
byte-string [] (suc p) = refl
byte-string (c ∷ b) zero = elim (Bool-cases (c == 0)) [
  | inl z ↦ rw z (ground (arith, z))
  | inr nz ↦ rw nz refl
]
byte-string (c ∷ b) (suc p) = byte-string b p

-- The token that a call returned, with the offset at which it stands.
record Stands (buffer : Bytes) (token : Option ℕ) (t : Bytes) : Type 0 where
  offset : ℕ
  there : token ≡ some offset
  byte : get_or buffer offset 0 ≡ first_byte t

stands :
    (buffer : Bytes) (p : Option ℕ) (t : Bytes) → string_at buffer p ≡ some t → Stands buffer p t
stands buffer none t e = absurd (none-ne-some t e)
stands buffer (some p) t e = record {
  offset = p;
  there = refl;
  byte = byte-string buffer p ∙ ap first_byte (some-injective (c_string (drop p buffer)) t e);
}

-- The loop took so many rounds.
record Rounds (r : Option (ℕ × Bytes)) (n : ℕ) : Type 0 where
  left : Bytes
  ends : r ≡ some (n, left)

count_cpus-Rounds :
    (k : ℕ) (buffer : Bytes) (next : Option ℕ) (curr : ℕ) (lines : List Bytes) (other : Bytes)
    → get_or buffer curr 0 ≡ 99
    → Led (codes "\n") buffer next (lines ++ other ∷ [])
    → All (λ t. first_byte t ≡ 99) lines
    → first_byte other ≢ 99
    → length lines + 1 < k
    → Rounds (count_cpus k buffer next (some curr)) (suc (length lines))
unfolding count_cpus
count_cpus-Rounds zero buffer next curr lines other at h all out fuel = absurd (omega arith)
count_cpus-Rounds (suc zero) buffer next curr lines other at h all out fuel = absurd (omega arith)
count_cpus-Rounds (suc (suc k)) buffer next curr [] other at h all out fuel =
    let c = next_token (codes "\n") buffer next in
    let step = next_token-Led (codes "\n") buffer next other [] h in
    let p = stands c.buffer c.token other step.0 in
    let e : (get_or c.buffer p.offset 0 == 99) ≡ false =
      ==_ne (get_or c.buffer p.offset 0) 99 (λ z. out (sym p.byte ∙ z)) in
    rw (at, p.there, e) (record { left = c.buffer; ends = refl })
count_cpus-Rounds (suc (suc k)) buffer next curr (l ∷ lines) other at h all out fuel =
    let c = next_token (codes "\n") buffer next in
    let step = next_token-Led (codes "\n") buffer next l (lines ++ other ∷ []) h in
    let p = stands c.buffer c.token l step.0 in
    let r =
      count_cpus-Rounds (suc k) c.buffer c.str_ptr p.offset lines other (p.byte ∙ all.0) step.1
        all.1 out (omega arith) in
    rw (at, p.there, r.ends) (record { left = r.left; ends = refl })

length-Leads : (delim s : Bytes) (ts : List Bytes) → Leads delim s ts → length ts ≤ length s
length-Leads delim s _ (stop _) = omega arith
length-Leads delim s _ (token _ d x t c rest ts e nd nt hd ht hc nc h) = omega (
  arith,
  ap length e,
  length-append d (x ∷ (t ++ c ∷ rest)),
  length-append t (c ∷ rest),
  length-Leads delim rest ts h,
)

first_byte-append : (a b : Bytes) → first_byte a ≡ 99 → first_byte (a ++ b) ≡ 99
first_byte-append [] b e = absurd (omega (arith, e))
first_byte-append (c ∷ a) b e = e

cores_text-suc : (n : ℕ) → cores_text (suc (suc n)) ≡ decimal n
unfolding cores_text decimal_int
cores_text-suc n =
    let several : (suc (suc n) == 1) ≡ false = ground arith in
    let above : leb 2 (suc (suc n)) ≡ true = ground arith in
    let left : suc (suc n) - 2 ≡ n = omega arith in rw (several, above, left) refl

-- When stat begins with a `c` and its first lines are one for the total, any number of lines for the
-- processing units, all starting with a `c`, and a line that does not, the number of processing units
-- is that of these lines, without the total.
pub cores_in-Yields :
    (file total : Bytes) (cpus : List Bytes) (other : Bytes) (s : State)
    → first_byte (take_bytes 100000 file) ≡ 99
    → Leads (codes "\n") (take_bytes 100000 file) (total ∷ (cpus ++ other ∷ []))
    → All (λ t. first_byte t ≡ 99) (total ∷ cpus)
    → first_byte other ≢ 99
    → Yields (cores_in (some file) s) (decimal (length cpus)) s
unfolding cores_in count_cores read_into
cores_in-Yields file total cpus other s start h all out =
    let bytes = take_bytes 100000 file in
    let buffer = bytes ++ drop (length bytes) s.buf in
    let long : length cpus + 2 ≤ length buffer = omega (
      arith,
      length-append bytes (drop (length bytes) s.buf),
      length-Leads (codes "\n") bytes (total ∷ (cpus ++ other ∷ [])) h,
      length-append cpus (other ∷ []),
    ) in
    let r =
      count_cpus-Rounds (length buffer + 2) buffer (some 0) 0 (total ∷ cpus) other
        (first_byte-append bytes (drop (length bytes) s.buf) start)
        (led [] buffer refl refl (Leads-append (codes "\n") bytes (drop (length bytes) s.buf) _ h))
        all out (omega (arith, long)) in
    record {
      after = record s { buf = r.left };
      done = rw (r.ends, cores_text-suc (length cpus)) refl;
      same_out = refl;
    }
