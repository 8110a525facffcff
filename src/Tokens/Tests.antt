-- ===== src/Tokens/Tests.antt =====
-- The string that `main` of Project4/next_token.c splits, and a shorter one.
use cs.Common.{
  ℕ, ◌≡◌, refl, Option, none, some, List, [], ◌∷◌, ◌++◌, map, Bytes, codes, drop, c_string, arith,
  no_nul→NoNul,
}
use cs.Tokens.{cut, next_token, push, read_tokens}
use cs.Tokens.Read.{AllRead}
use cs.Tokens.Loop.{read_tokens_lem}

abbrev short : Bytes
short = codes " a,bc"

read_tokens_lem_example : AllRead 9 (codes " ,") [] short [] (short ++ 0 ∷ [])
read_tokens_lem_example =
    read_tokens_lem 9 (codes " ,") [] short [] (no_nul→NoNul short refl) (omega arith)

abbrev tokens_found : Option (List ℕ × Bytes) → List Bytes
tokens_found none = []
tokens_found (some (ps, b)) = map (λ p. c_string (drop p b)) ps

abbrev sentence : Bytes
sentence = codes "     This is a really great string, is it not?!" ++ 0 ∷ []

sentence_tokens :
    tokens_found (read_tokens 60 (codes " ,?!") sentence (some 0))
    ≡ codes "This"
      ∷ codes "is"
      ∷ codes "a"
      ∷ codes "really"
      ∷ codes "great"
      ∷ codes "string"
      ∷ codes "is"
      ∷ codes "it"
      ∷ codes "not"
      ∷ []
unfolding read_tokens push next_token cut
sentence_tokens = refl
