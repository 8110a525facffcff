-- ===== src/Tokens/Loop.antt =====
-- The loop of calls of `next_token` of Project4/next_token.c over a whole string.
use cs.Common.{
  ℕ, zero, suc, ◌<◌, ◌≢◌, ap, sym, subst, [], ◌∷◌, ◌++◌, All-left, All-right, Bytes, NoNul, length,
  length-append, arith,
}
use mathlib.Core.List.{append_assoc}
use cs.Tokens.Split.{no_token, to_end, to_delim, parts}
use cs.Tokens.Read.{AllRead, read_end, read_last, read_more, front}

-- On a buffer that holds a string without zeros behind any front, with more fuel than the string is
-- long, the loop of calls of `next_token` ends, and its offsets point, in the buffer that it leaves, to
-- the tokens of the string at the delimiters; that buffer is as long as the first and differs from it
-- only within the string.
pub read_tokens_lem :
    (k : ℕ) (delim pre s post : Bytes)
    → NoNul s
    → length s < k
    → AllRead k delim pre s post (pre ++ (s ++ 0 ∷ post))
read_tokens_lem zero delim pre s post n h = absurd (omega arith)
read_tokens_lem (suc zero) delim pre [] post n h = read_end 0 delim pre [] post tt tt
read_tokens_lem (suc zero) delim pre (x ∷ s) post n h = absurd (omega arith)
read_tokens_lem (suc (suc k)) delim pre s post n h =
    let Goal : Bytes → Type 0 =
      λ z. AllRead (suc (suc k)) delim pre z post (pre ++ (z ++ 0 ∷ post)) in
    elim (parts delim s) [
      | no_token d e hd ↦
          subst Goal (sym e) (read_end (suc k) delim pre d post (subst NoNul e n) hd)
      | to_end d x t e hd ht ↦
          let n' = subst NoNul e n in
          subst Goal (sym e) (
            subst (λ b. AllRead (suc (suc k)) delim pre (d ++ x ∷ t) post (pre ++ b))
              (sym (append_assoc d (x ∷ t) (0 ∷ post)))
              (read_last k delim pre d x t post (All-left (λ c. c ≢ 0) d (x ∷ t) n')
                (All-right (λ c. c ≢ 0) d (x ∷ t) n') hd ht))
      | to_delim d x t c rest e hd ht hc ↦
          let n' = subst NoNul e n in
          let behind = All-right (λ c. c ≢ 0) d (x ∷ (t ++ c ∷ rest)) n' in
          let tail = All-right (λ c. c ≢ 0) (x ∷ t) (c ∷ rest) behind in
          let shorter : length rest < suc k = omega (
            arith,
            ap length e,
            length-append d (x ∷ (t ++ c ∷ rest)),
            length-append t (c ∷ rest),
          ) in
          subst Goal (sym e) (
            read_more (suc k) delim pre d x t c rest post
              (All-left (λ c. c ≢ 0) d (x ∷ (t ++ c ∷ rest)) n')
              (All-left (λ c. c ≢ 0) (x ∷ t) (c ∷ rest) behind) tail.0 hd ht hc
              (read_tokens_lem (suc k) delim (front pre d x t) rest post tail.1 shorter))
    ]
