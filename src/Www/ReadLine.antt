-- ===== src/Www/ReadLine.antt =====
-- `read_line` of Project4/www.c: the lines that it reads.
use cs.Common.{
  ℕ, zero, suc, ◌+◌, ◌<◌, ◌≡◌, ◌≢◌, refl, ap, ◌∙◌, Bool-cases, inl, inr, [], ◌∷◌, ◌++◌, All, Bytes,
  length, ==_ne, ◌==◌, arith,
}
use mathlib.Core.List.{append_assoc}
use cs.Www.{End, eof, failed, Line, line, ended, broken, at_end, read_line, newline}

abbrev pub OneLine : Bytes → Type 0
OneLine = All (λ c. c ≢ newline)

read_from :
    (n total : ℕ) (buf s rest : Bytes) (end : End)
    → OneLine s
    → length s < n
    → read_line n total buf (s ++ newline ∷ rest) end
      ≡ line (total + length s) (buf ++ (s ++ newline ∷ [])) rest
unfolding read_line
read_from zero total buf s rest end h k = absurd (omega (arith, k))
read_from (suc n) total buf [] rest end h k =
    let same : total + 0 ≡ total = omega arith in rw same refl
read_from (suc n) total buf (c ∷ s) rest end h k =
    let count : total + suc (length s) ≡ total + 1 + length s = omega arith in
    rw (==_ne c newline h.0, count)
      (read_from n (total + 1) (buf ++ c ∷ []) s rest end h.1 (omega (arith, k))
        ∙ ap (λ b. line (total + 1 + length s) b rest)
            (append_assoc buf (c ∷ []) (s ++ newline ∷ [])))

-- `read_line` of a line that is shorter than the buffer puts the line with its newline into the buffer,
-- returns its length without the newline, and leaves the rest of the stream unread.
pub read_line_lem :
    (n : ℕ) (s rest : Bytes) (end : End)
    → OneLine s
    → length s < n
    → read_line n 0 [] (s ++ newline ∷ rest) end ≡ line (length s) (s ++ newline ∷ []) rest
read_line_lem n s rest end h k =
    let same : 0 + length s ≡ length s = omega arith in
    read_from n 0 [] s rest end h k ∙ ap (λ t. line t (s ++ newline ∷ []) rest) same

-- A call with room in the buffer takes at least one byte if it reads a line.
abbrev pub Shorter : ℕ → Line → Type 0
Shorter m (line total buf rest) = length rest < m
Shorter m ended = Unit
Shorter m broken = Unit

Shorter-mono : (m : ℕ) (l : Line) → Shorter m l → Shorter (suc m) l
Shorter-mono m (line total buf rest) h = omega (arith, h)
Shorter-mono m ended h = tt
Shorter-mono m broken h = tt

at_end-Shorter : (m : ℕ) (end : End) → Shorter m (at_end end)
at_end-Shorter m eof = tt
at_end-Shorter m failed = tt

read_line-Shorter :
    (n total : ℕ) (buf bytes : Bytes) (end : End)
    → Shorter (suc (length bytes)) (read_line n total buf bytes end)
unfolding read_line
read_line-Shorter zero total buf bytes end = omega arith
read_line-Shorter (suc n) total buf [] end = at_end-Shorter 1 end
read_line-Shorter (suc n) total buf (c ∷ bytes) end = elim (Bool-cases (c == newline)) [
  | inl e ↦ rw e (omega arith)
  | inr ne ↦ rw ne (
      Shorter-mono (suc (length bytes)) (read_line n (total + 1) (buf ++ c ∷ []) bytes end)
        (read_line-Shorter n (total + 1) (buf ++ c ∷ []) bytes end))
]

pub read_line_shortens :
    (n : ℕ) (bytes : Bytes) (end : End) → Shorter (length bytes) (read_line (suc n) 0 [] bytes end)
unfolding read_line
read_line_shortens n [] end = at_end-Shorter 0 end
read_line_shortens n (c ∷ bytes) end = elim (Bool-cases (c == newline)) [
  | inl e ↦ rw e (omega arith)
  | inr ne ↦ rw ne (read_line-Shorter n (0 + 1) (c ∷ []) bytes end)
]
