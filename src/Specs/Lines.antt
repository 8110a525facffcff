-- ===== src/Specs/Lines.antt =====
-- What a line means to `read_spec` of LabWork/Lab7/file_format.c: the text before a comment, its commas and
-- its tokens.
use cs.Common.{
  ℕ, suc, ◌+◌, ◌≡◌, ◌≢◌, refl, ap, ◌∙◌, Bool, false, ◌||◌, List, [], ◌∷◌, ◌++◌, Bytes, NoNul,
  length, ◌==◌, if◌then◌else◌, Bool-cases, inl, inr, arith, c_string_lem,
}
use cs.Tokens.Split.{Split}
use cs.Scheduler.{Pcb}
use cs.Specs.{Result, ok, delim, strip, load_line}
use cs.Specs.Fields.{add_tokens, add_process-Split}

abbrev pub ends_text : ℕ → Bool
ends_text c = (c == 35) || (c == 0)

abbrev pub content : Bytes → Bytes
content [] = []
content (c ∷ s) = if ends_text c then [] else (c ∷ content s)

abbrev behind : Bytes → Bytes
behind [] = []
behind (c ∷ s) = if ends_text c then s ++ 0 ∷ [] else behind s

abbrev pub commas : Bytes → ℕ
commas [] = 0
commas (c ∷ s) = if c == 44 then suc (commas s) else commas s

content-NoNul : (s : Bytes) → NoNul (content s)
content-NoNul [] = tt
content-NoNul (c ∷ s) = elim (Bool-cases (ends_text c)) [
  | inl y ↦ rw y tt
  | inr n ↦ let nz : c ≢ 0 = ground (arith, n) in rw n (nz, content-NoNul s)
]

count_comma :
    (fields c : ℕ) (s : Bytes)
    → (if c == 44 then fields + 1 else fields) + commas (content s)
      ≡ fields + (if c == 44 then suc (commas (content s)) else commas (content s))
count_comma fields c s = ground arith

strip_lem :
    (fields : ℕ) (s : Bytes)
    → strip fields (s ++ 0 ∷ []) ≡ (fields + commas (content s), content s ++ 0 ∷ behind s)
unfolding strip
strip_lem fields [] = ap (λ n. (n, 0 ∷ [])) (omega arith)
strip_lem fields (c ∷ s) = elim (Bool-cases (c == 35)) [
  | inl y ↦ rw y (ap (λ n. (n, 0 ∷ (s ++ 0 ∷ []))) (omega arith))
  | inr n ↦ elim (Bool-cases (c == 0)) [
    | inl z ↦
        let zero_byte : c ≡ 0 = ground (arith, z) in
        rw (n, z)
          (ap (λ b. (fields, b ∷ (s ++ 0 ∷ []))) zero_byte
            ∙ ap (λ n. (n, 0 ∷ (s ++ 0 ∷ []))) (omega arith))
    | inr nz ↦
        rw (n, nz)
          (ap (λ r. (r.0, c ∷ r.1)) (strip_lem (if c == 44 then fields + 1 else fields) s)
            ∙ ap (λ m. (m, c ∷ (content s ++ 0 ∷ behind s))) (count_comma fields c s))
  ]
]

-- A line with text counts four fields, or it is skipped.
abbrev pub line_meaning : List Pcb → Bytes → List Bytes → Result (List Pcb)
line_meaning pcbs [] ts = ok pcbs
line_meaning pcbs (c ∷ s) ts = if 1 + commas (c ∷ s) == 4 then add_tokens pcbs ts else ok pcbs

by_text :
    (pcbs : List Pcb) (s : Bytes) (ts : List Bytes)
    → (if length s == 0
        then ok pcbs
        else (if 1 + commas s == 4 then add_tokens pcbs ts else ok pcbs))
      ≡ line_meaning pcbs s ts
by_text pcbs [] ts = refl
by_text pcbs (c ∷ s) ts = let text : (suc (length s) == 0) ≡ false = ground arith in rw text refl

-- What `read_spec` does with a line is what its text means, the part before a `#` or a zero: nothing
-- when the text is empty or has not exactly three commas, and else a process from the first four tokens
-- of the text at commas, spaces, tabs and newlines; a token that is missing is a null pointer.
pub load_line_lem :
    (pcbs : List Pcb) (s : Bytes) (ts : List Bytes)
    → Split delim (content s) ts
    → load_line pcbs s ≡ line_meaning pcbs (content s) ts
unfolding load_line
load_line_lem pcbs s ts split =
    rw
      (
        strip_lem 1 s,
        c_string_lem (content s) (behind s) (content-NoNul s),
        add_process-Split pcbs (content s) (behind s) ts (content-NoNul s) split,
      )
      (by_text pcbs (content s) ts)
