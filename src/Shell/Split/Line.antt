-- ===== src/Shell/Split/Line.antt =====
-- A command line of Project2/shell.c with pipes and a redirection, and the commands that `exec` makes of it.
use cs.Common.{
  ℕ, suc, ◌+◌, ◌≡◌, ◌≤◌, ◌<◌, refl, ap, sym, ◌∙◌, true, false, Option, none, some, List, [], ◌∷◌,
  ◌++◌, All, Bytes, codes, length, length-append, inl, inr, arith,
}
use mathlib.Core.List.{append_assoc}
use cs.Pipeline.{CommandLine}
use cs.Pipeline.Connected.{Ended}
use cs.Shell.Split.{Progress, nothing_yet, from, rounds_from, split_commands}
use cs.Shell.Split.Pipes.{Plain, added}
use cs.Shell.Split.Pipes.Rounds.{ended, round-pipe, round-file, rounds-end, rounds-skip}

-- The tokens of commands with `|` between them, of which the last may write to a file.
abbrev pub line_of : List (List Bytes) → List Bytes → Option Bytes → List Bytes
line_of [] last none = last
line_of [] last (some f) = last ++ codes ">" ∷ f ∷ []
line_of (seg ∷ segs) last out = seg ++ codes "|" ∷ line_of segs last out

abbrev piped : List Bytes → CommandLine
piped seg = record { tokens = seg; stdout_pipe = true; stdout_file = none }

-- The name of the file is left as a command of its own, which is not reached.
abbrev pub left_over : Option Bytes → List CommandLine
left_over none = []
left_over (some f) = record { tokens = f ∷ []; stdout_pipe = false; stdout_file = none } ∷ []

abbrev pub commands_of : List (List Bytes) → List Bytes → Option Bytes → List CommandLine
commands_of [] last out =
    record { tokens = last; stdout_pipe = false; stdout_file = out } ∷ left_over out
commands_of (seg ∷ segs) last out = piped seg ∷ commands_of segs last out

-- Words of a command: no pipe, no redirection, and room for them.
abbrev pub Words : List Bytes → Type 0
Words seg = All Plain seg × (length seg < 625)

abbrev pub Target : Option Bytes → Type 0
Target none = Unit
Target (some f) = Plain f

record Ran (r : Option Progress) (cmds : List CommandLine) : Type 0 where
  after : Progress
  ran : r ≡ some after
  made : after.cmds ≡ cmds

length-line :
    (segs : List (List Bytes)) (last : List Bytes) (out : Option Bytes)
    → 1 ≤ length last
    → 1 ≤ length (line_of segs last out)
length-line [] last none h = h
length-line [] last (some f) h = omega (arith, length-append last (codes ">" ∷ f ∷ []))
length-line (seg ∷ segs) last out h =
    omega (arith, length-append seg (codes "|" ∷ line_of segs last out))

module _ (tokens : List Bytes) where
  last-Ran :
      (t : ℕ) (pre last : List Bytes) (out : Option Bytes) (s : Progress)
      → tokens ≡ pre ++ line_of [] last out
      → t ≡ length pre
      → from s ≡ length pre
      → Words last
      → Target out
      → 1 ≤ length last
      → Ran
          (rounds_from (length (line_of [] last out)) tokens t s)
          (s.cmds ++ commands_of [] last out)
  unfolding rounds_from
  last-Ran t pre last none s e et ef w target some_word = record {
    after = ended tokens last s;
    ran = rounds-end tokens t pre last pre last s e et w.0 some_word e ef w.1;
    made = refl;
  }
  last-Ran t pre last (some f) s e et ef w target some_word =
      let n = length-append last (codes ">" ∷ f ∷ []) in
      let front = (pre ++ last) ++ codes ">" ∷ [] in
      let s1 =
        added (t + length last)
          (record { tokens = last; stdout_pipe = false; stdout_file = some f }) s in
      let at_name : t + length last + 1 ≡ length front =
        omega (arith, et, length-append (pre ++ last) (codes ">" ∷ []), length-append pre last) in
      let whole : tokens ≡ front ++ f ∷ [] =
        e
        ∙ (sym (append_assoc pre last (codes ">" ∷ f ∷ []))
            ∙ sym (append_assoc (pre ++ last) (codes ">" ∷ []) (f ∷ []))) in
      record {
        after = ended tokens (f ∷ []) s1;
        ran =
            rw
              (
                n,
                rounds-skip tokens 2 t pre last (codes ">" ∷ f ∷ []) s e et w.0 (omega arith),
                round-file tokens (t + length last) pre last f s e (ap (λ k. k + length last) et) ef
                    w.0 w.1,
              )
              (rounds-end tokens (t + length last + 1) front (f ∷ []) front (f ∷ []) s1 whole
                at_name (target, tt) (omega arith) whole at_name (omega arith));
        made =
            append_assoc s.cmds
              (record { tokens = last; stdout_pipe = false; stdout_file = some f } ∷ [])
              (left_over (some f));
      }

  rounds-Ran :
      (t : ℕ) (pre : List Bytes) (segs : List (List Bytes)) (last : List Bytes) (out : Option Bytes)
      (s : Progress)
      → tokens ≡ pre ++ line_of segs last out
      → t ≡ length pre
      → from s ≡ length pre
      → All Words segs
      → Words last
      → Target out
      → 1 ≤ length last
      → Ran
          (rounds_from (length (line_of segs last out)) tokens t s)
          (s.cmds ++ commands_of segs last out)
  unfolding rounds_from
  rounds-Ran t pre [] last out s e et ef ws w target some_word =
      last-Ran t pre last out s e et ef w target some_word
  rounds-Ran t pre (seg ∷ segs) last out s e et ef ws w target some_word =
      let rest = line_of segs last out in
      let front = (pre ++ seg) ++ codes "|" ∷ [] in
      let s1 = added (t + length seg) (piped seg) s in
      let behind : t + length seg + 1 ≡ length front =
        omega (arith, et, length-append (pre ++ seg) (codes "|" ∷ []), length-append pre seg) in
      let whole : tokens ≡ front ++ rest =
        e
        ∙ (sym (append_assoc pre seg (codes "|" ∷ rest))
            ∙ sym (append_assoc (pre ++ seg) (codes "|" ∷ []) rest)) in
      let more = length-line segs last out some_word in
      let r =
        rounds-Ran (t + length seg + 1) front segs last out s1 whole behind behind ws.1 w target
          some_word in
      record {
        after = r.after;
        ran =
            rw
              (
                length-append seg (codes "|" ∷ rest),
                rounds-skip tokens (suc (length rest)) t pre seg (codes "|" ∷ rest) s e et ws.0.0
                    (omega arith),
                round-pipe tokens (t + length seg) pre seg rest s e (ap (λ k. k + length seg) et) ef
                    ws.0.0 ws.0.1 more,
              )
              r.ran;
        made = r.made ∙ append_assoc s.cmds (piped seg ∷ []) (commands_of segs last out);
      }

-- The loop of `exec` splits the words of a command line, of which none starts with `|` or `>` but the pipes and the
-- redirection, into the commands that they stand for, each with less than 625 words and the last not empty: all
-- but the last are marked as writing to a pipe, the last has the file, and the name of the file is left as one
-- more command behind it.
pub split_commands_lem :
    (segs : List (List Bytes)) (last : List Bytes) (out : Option Bytes)
    → All Words segs
    → Words last
    → Target out
    → 1 ≤ length last
    → split_commands (line_of segs last out) ≡ some (commands_of segs last out)
unfolding split_commands
split_commands_lem segs last out ws w target some_word =
    let r =
      rounds-Ran (line_of segs last out) 0 [] segs last out nothing_yet refl refl refl ws w target
        some_word in
    rw r.ran (ap some r.made)

pub commands_of-Ended :
    (segs : List (List Bytes)) (last : List Bytes) (out : Option Bytes)
    → Ended (commands_of segs last out)
commands_of-Ended [] last out = inl refl
commands_of-Ended (seg ∷ segs) last out = inr (refl, commands_of-Ended segs last out)
