-- ===== src/Shell/Split/Pipes/Rounds.antt =====
-- The rounds of the loop of `exec` of Project2/shell.c over a whole command line.
use cs.Common.{
  ℕ, suc, ◌+◌, ◌≡◌, ◌≤◌, ◌<◌, refl, ap, sym, subst, ◌∙◌, true, false, none, some, List, [], ◌∷◌,
  ◌++◌, All, Bytes, codes, length, length-append, get_or, ◌==◌, arith,
}
use mathlib.Core.List.{append_assoc}
use cs.History.{starts_with}
use cs.Tokens.Shift.{get_or-append}
use cs.Shell.Split.{Progress, from, at_pipe, at_file, at_end, round, rounds_from}
use cs.Shell.Split.Pipes.{Plain, added, at_pipe-added, at_file-added, at_end-added}

module _ (tokens : List Bytes) where
  token_here :
      (t : ℕ) (pre : List Bytes) (y : Bytes) (rest : List Bytes)
      → tokens ≡ pre ++ y ∷ rest
      → t ≡ length pre
      → get_or tokens t [] ≡ y
  token_here t pre y rest e et =
      ap (λ z. get_or z t []) e
      ∙ (ap (λ n. get_or (pre ++ y ∷ rest) n []) et ∙ get_or-append pre rest y [])

  is_last :
      (t : ℕ) (pre : List Bytes) (y : Bytes) (rest : List Bytes)
      → tokens ≡ pre ++ y ∷ rest
      → t ≡ length pre
      → (t + 1 == length tokens) ≡ (0 == length rest)
  is_last t pre y rest e et =
      let n : length tokens ≡ length pre + suc (length rest) =
        omega (arith, ap length e, length-append pre (y ∷ rest)) in
      ground (arith, n, et)

  round-skip :
      (t : ℕ) (pre : List Bytes) (y : Bytes) (rest : List Bytes) (s : Progress)
      → tokens ≡ pre ++ y ∷ rest
      → t ≡ length pre
      → Plain y
      → 1 ≤ length rest
      → round tokens t s ≡ some s
  unfolding round
  round-skip t pre y rest s e et h more =
      let goes_on : (0 == length rest) ≡ false = ground (arith, more) in
      rw (token_here t pre y rest e et, h.0, h.1, is_last t pre y rest e et, goes_on) refl

  next_prefix :
      (pre : List Bytes) (y : Bytes) (rest : List Bytes)
      → tokens ≡ pre ++ y ∷ rest
      → tokens ≡ (pre ++ y ∷ []) ++ rest
  next_prefix pre y rest e = e ∙ sym (append_assoc pre (y ∷ []) rest)

  pub next_index :
      (t : ℕ) (pre : List Bytes) (y : Bytes) → t ≡ length pre → t + 1 ≡ length (pre ++ y ∷ [])
  next_index t pre y et = omega (arith, et, length-append pre (y ∷ []))

  pub rounds-skip :
      (k t : ℕ) (pre left rest : List Bytes) (s : Progress)
      → tokens ≡ pre ++ (left ++ rest)
      → t ≡ length pre
      → All Plain left
      → 1 ≤ length rest
      → rounds_from (length left + k) tokens t s ≡ rounds_from k tokens (t + length left) s
  unfolding rounds_from
  rounds-skip k t pre [] rest s e et h more =
      let ek : 0 + k ≡ k = omega arith in let en : t + 0 ≡ t = omega arith in rw (ek, en) refl
  rounds-skip k t pre (y ∷ left) rest s e et h more =
      let ek : suc (length left) + k ≡ suc (length left + k) = omega arith in
      let en : t + 1 + length left ≡ t + suc (length left) = omega arith in
      rw
        (
          ek,
          round-skip t pre y (left ++ rest) s e et h.0
              (omega (arith, more, length-append left rest)),
          rounds-skip k (t + 1) (pre ++ y ∷ []) left rest s (next_prefix pre y (left ++ rest) e)
              (next_index t pre y et) h.1 more,
          en,
        )
        refl

  abbrev pub ended : List Bytes → Progress → Progress
  ended seg s = record s {
    cmds = s.cmds ++ record { tokens = seg; stdout_pipe = false; stdout_file = none } ∷ [];
  }

  -- The tokens to the end, the last of which closes the command.
  pub rounds-end :
      (t : ℕ) (pre left start seg : List Bytes) (s : Progress)
      → tokens ≡ pre ++ left
      → t ≡ length pre
      → All Plain left
      → 1 ≤ length left
      → tokens ≡ start ++ seg
      → from s ≡ length start
      → length seg < 625
      → rounds_from (length left) tokens t s ≡ some (ended seg s)
  unfolding rounds_from round
  rounds-end t pre [] start seg s e et h more whole ef fits = absurd (omega arith)
  rounds-end t pre (y ∷ []) start seg s e et h more whole ef fits =
      let at_last : t + 1 ≡ length start + length seg = omega (
        arith,
        ap length e,
        ap length whole,
        length-append pre (y ∷ []),
        length-append start seg,
        et,
      ) in
      rw
        (
          token_here t pre y [] e et,
          h.0.0,
          h.0.1,
          is_last t pre y [] e et,
          ap (λ z. at_end z t s) whole,
          at_end-added start seg t s ef at_last fits,
        )
        refl
  rounds-end t pre (y ∷ z ∷ left) start seg s e et h more whole ef fits =
      rw (round-skip t pre y (z ∷ left) s e et h.0 (omega arith)) (
        rounds-end (t + 1) (pre ++ y ∷ []) (z ∷ left) start seg s (next_prefix pre y (z ∷ left) e)
          (next_index t pre y et) h.1 (omega arith) whole ef fits)

  pub regroup :
      (pre seg : List Bytes) (y : Bytes) (rest : List Bytes)
      → tokens ≡ pre ++ (seg ++ y ∷ rest)
      → tokens ≡ (pre ++ seg) ++ y ∷ rest
  regroup pre seg y rest e = e ∙ sym (append_assoc pre seg (y ∷ rest))

  pub round-pipe :
      (t : ℕ) (pre seg rest : List Bytes) (s : Progress)
      → tokens ≡ pre ++ (seg ++ codes "|" ∷ rest)
      → t ≡ length pre + length seg
      → from s ≡ length pre
      → All Plain seg
      → length seg < 625
      → 1 ≤ length rest
      → round tokens t s
        ≡ some (added t (record { tokens = seg; stdout_pipe = true; stdout_file = none }) s)
  unfolding round starts_with
  round-pipe t pre seg rest s e et ef h fits more =
      let here : t ≡ length (pre ++ seg) = omega (arith, et, length-append pre seg) in
      let goes_on : (0 == length rest) ≡ false = ground (arith, more) in
      let whole = regroup pre seg (codes "|") rest e in
      let made : at_pipe tokens t s
          ≡ some (added t (record { tokens = seg; stdout_pipe = true; stdout_file = none }) s) =
        ap (λ z. at_pipe z t s) e
        ∙ subst
            (λ n.
              at_pipe (pre ++ (seg ++ codes "|" ∷ rest)) n s
              ≡ some (added n (record { tokens = seg; stdout_pipe = true; stdout_file = none }) s))
            (sym et) (at_pipe-added pre seg rest s ef h fits) in
      rw
        (
          token_here t (pre ++ seg) (codes "|") rest whole here,
          made,
          is_last t (pre ++ seg) (codes "|") rest whole here,
          goes_on,
        )
        refl

  pub round-file :
      (t : ℕ) (pre seg : List Bytes) (f : Bytes) (s : Progress)
      → tokens ≡ pre ++ (seg ++ codes ">" ∷ f ∷ [])
      → t ≡ length pre + length seg
      → from s ≡ length pre
      → All Plain seg
      → length seg < 625
      → round tokens t s
        ≡ some (added t (record { tokens = seg; stdout_pipe = false; stdout_file = some f }) s)
  unfolding round starts_with
  round-file t pre seg f s e et ef h fits =
      let here : t ≡ length (pre ++ seg) = omega (arith, et, length-append pre seg) in
      let whole = regroup pre seg (codes ">") (f ∷ []) e in
      let made : at_file tokens t s
          ≡ some (added t (record { tokens = seg; stdout_pipe = false; stdout_file = some f }) s) =
        ap (λ z. at_file z t s) e
        ∙ subst
            (λ n.
              at_file (pre ++ (seg ++ codes ">" ∷ f ∷ [])) n s
              ≡ some
                  (added n (record { tokens = seg; stdout_pipe = false; stdout_file = some f }) s))
            (sym et) (at_file-added pre seg f s ef h fits) in
      rw
        (
          token_here t (pre ++ seg) (codes ">") (f ∷ []) whole here,
          made,
          is_last t (pre ++ seg) (codes ">") (f ∷ []) whole here,
        )
        refl
