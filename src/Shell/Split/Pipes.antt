-- ===== src/Shell/Split/Pipes.antt =====
-- What the loop of `exec` of Project2/shell.c makes of commands with pipes between them.
pub mod Rounds
use cs.Common.{
  ℕ, zero, suc, ◌+◌, ◌-◌, ◌≡◌, ◌≤◌, ◌<◌, refl, ap, sym, subst, ◌∙◌, Bool, true, false, Option, none,
  some, List, [], ◌∷◌, ◌++◌, All, Bytes, codes, length, length-append, get_or, get_elem?, strcmp_eq,
  ltb, lt→ltb, ◌==◌, if◌then◌else◌, inl, inr, arith,
}
use mathlib.Core.List.{append_assoc}
use cs.History.{starts_with}
use cs.Pipeline.{CommandLine}
use cs.Tokens.Shift.{get_or-append}
use cs.Shell.Split.{Progress, from, copy_until, copy_rest, add_command, at_pipe, at_file, at_end}

-- A token that starts no pipe and no redirection.
abbrev pub Plain : Bytes → Type 0
Plain t = (starts_with (codes "|") t ≡ false) × (starts_with (codes ">") t ≡ false)

abbrev pub Differs : Bytes → Bytes → Type 0
Differs stop t = strcmp_eq t stop ≡ false

starts-Differs : (c : ℕ) (t : Bytes) → starts_with (c ∷ []) t ≡ false → Differs (c ∷ []) t
unfolding starts_with
starts-Differs c [] h = refl
starts-Differs c (d ∷ t) h = ground (arith, h)

pub Plain-pipe : (seg : List Bytes) → All Plain seg → All (Differs (codes "|")) seg
Plain-pipe [] h = tt
Plain-pipe (t ∷ seg) h = (starts-Differs 124 t h.0.0, Plain-pipe seg h.1)

pub Plain-file : (seg : List Bytes) → All Plain seg → All (Differs (codes ">")) seg
Plain-file [] h = tt
Plain-file (t ∷ seg) h = (starts-Differs 62 t h.0.1, Plain-file seg h.1)

grown :
    (pre : List Bytes) (t : Bytes) (rest : List Bytes) → (pre ++ t ∷ []) ++ rest ≡ pre ++ t ∷ rest
grown pre t rest = append_assoc pre (t ∷ []) rest

length-grown : (pre : List Bytes) (t : Bytes) → length (pre ++ t ∷ []) ≡ length pre + 1
length-grown pre t = omega (arith, length-append pre (t ∷ []))

-- The copy of a command up to the token that ends it.
pub copy_until-stop :
    (stop : Bytes) (pre seg rest : List Bytes)
    → strcmp_eq stop stop ≡ true
    → All (Differs stop) seg
    → copy_until stop (suc (length seg)) (length pre) (pre ++ (seg ++ stop ∷ rest))
      ≡ (seg, length pre + length seg)
unfolding copy_until
copy_until-stop stop pre [] rest same h =
    let e : length pre + 0 ≡ length pre = omega arith in
    rw (get_or-append pre rest stop [], same, e) refl
copy_until-stop stop pre (t ∷ seg) rest same h =
    let next = copy_until-stop stop (pre ++ t ∷ []) seg rest same h.1 in
    let e : length pre + 1 + length seg ≡ length pre + suc (length seg) = omega arith in
    rw
      (
        get_or-append pre (seg ++ stop ∷ rest) t [],
        h.0,
        ← length-grown pre t,
        ← grown pre t (seg ++ stop ∷ rest),
        next,
      )
      (ap (λ n. (t ∷ seg, n)) (ap (λ n. n + length seg) (length-grown pre t) ∙ e))

pub copy_rest-all : (pre seg : List Bytes) → copy_rest (length seg) (length pre) (pre ++ seg) ≡ seg
unfolding copy_rest
copy_rest-all pre [] = refl
copy_rest-all pre (t ∷ seg) = rw (get_or-append pre seg t []) (
    ap (λ z. t ∷ z)
      (ap (λ n. copy_rest (length seg) n (pre ++ t ∷ seg)) (sym (length-grown pre t))
        ∙ (ap (λ z. copy_rest (length seg) (length (pre ++ t ∷ [])) z) (sym (grown pre t seg))
            ∙ copy_rest-all (pre ++ t ∷ []) seg)))

-- The progress after a command.
abbrev pub added : ℕ → CommandLine → Progress → Progress
added last c s = record { last = last; has_pipe = true; cmds = s.cmds ++ c ∷ [] }

pub at_pipe-added :
    (pre seg rest : List Bytes) (s : Progress)
    → from s ≡ length pre
    → All Plain seg
    → length seg < 625
    → at_pipe (pre ++ (seg ++ codes "|" ∷ rest)) (length pre + length seg) s
      ≡ some (
          added
            (length pre + length seg)
            (record { tokens = seg; stdout_pipe = true; stdout_file = none })
            s)
unfolding at_pipe add_command
at_pipe-added pre seg rest s e h fits =
    let k : length pre + length seg + 1 - length pre ≡ suc (length seg) = omega arith in
    rw
      (
        e,
        k,
        copy_until-stop (codes "|") pre seg rest refl (Plain-pipe seg h),
        lt→ltb (length seg) 625 fits,
      )
      refl

get_elem?-append :
    (pre : List Bytes) (t : Bytes) (rest : List Bytes)
    → get_elem? (pre ++ t ∷ rest) (length pre) ≡ some t
get_elem?-append [] t rest = refl
get_elem?-append (x ∷ pre) t rest = get_elem?-append pre t rest

name_behind :
    (pre seg : List Bytes) (f : Bytes)
    → get_elem? (pre ++ (seg ++ codes ">" ∷ f ∷ [])) (length pre + length seg + 1) ≡ some f
name_behind pre seg f =
    let front = pre ++ (seg ++ codes ">" ∷ []) in
    let e : length pre + length seg + 1 ≡ length front =
      omega
        (arith, length-append pre (seg ++ codes ">" ∷ []), length-append seg (codes ">" ∷ [])) in
    let whole : front ++ f ∷ [] ≡ pre ++ (seg ++ codes ">" ∷ f ∷ []) =
      append_assoc pre (seg ++ codes ">" ∷ []) (f ∷ [])
      ∙ ap (λ z. pre ++ z) (append_assoc seg (codes ">" ∷ []) (f ∷ [])) in
    subst (λ z. get_elem? z (length pre + length seg + 1) ≡ some f) whole
      (subst (λ n. get_elem? (front ++ f ∷ []) n ≡ some f) (sym e) (get_elem?-append front f []))

pub at_file-added :
    (pre seg : List Bytes) (f : Bytes) (s : Progress)
    → from s ≡ length pre
    → All Plain seg
    → length seg < 625
    → at_file (pre ++ (seg ++ codes ">" ∷ f ∷ [])) (length pre + length seg) s
      ≡ some (
          added
            (length pre + length seg)
            (record { tokens = seg; stdout_pipe = false; stdout_file = some f })
            s)
unfolding at_file add_command
at_file-added pre seg f s e h fits =
    let k : length pre + length seg + 1 - length pre ≡ suc (length seg) = omega arith in
    rw
      (
        e,
        k,
        copy_until-stop (codes ">") pre seg (f ∷ []) refl (Plain-file seg h),
        lt→ltb (length seg) 625 fits,
        name_behind pre seg f,
      )
      refl

-- The tokens from the last command on.
pub at_end-added :
    (pre seg : List Bytes) (t : ℕ) (s : Progress)
    → from s ≡ length pre
    → t + 1 ≡ length pre + length seg
    → length seg < 625
    → at_end (pre ++ seg) t s
      ≡ some (record s {
        cmds = s.cmds ++ record { tokens = seg; stdout_pipe = false; stdout_file = none } ∷ [];
      })
unfolding at_end add_command
at_end-added pre seg t s e last fits =
    let k : t + 1 - length pre ≡ length seg = omega (arith, last) in
    rw (e, k, copy_rest-all pre seg, lt→ltb (length seg) 625 fits) refl
