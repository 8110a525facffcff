-- ===== src/Shell/Tokenizer/Words.antt =====
-- The words that `tokenizer` of Project2/shell.c finds in a line without quotes.
use cs.Common.{
  ℕ, zero, suc, ◌+◌, ◌≡◌, ◌<◌, refl, ap, sym, subst, ◌∙◌, false, Option, some, List, [], ◌∷◌, ◌++◌,
  All-mono, Bytes, has, length, drop, drop-append, get_or, c_string, c_string_lem, lt→ltb, ◌==◌,
  if◌then◌else◌, Bool-cases, inl, inr, arith,
}
use cs.Tokens.{next_token}
use cs.Tokens.Split.{Split}
use cs.Tokens.Stream.{At, exhausted, ahead, Text, Text-NoNul, next_token-At}
use cs.Shell.Tokenizer.{quotes, quoted_token, blanks, tokens, take_token, tokenizer_from, tokenizer}
use cs.Shell.Tokenizer.Unquoted.{NoQuotes, quoted_token-unquoted}

abbrev pub Unquoted : ℕ → Type 0
Unquoted c = has quotes c ≡ false

-- A word that starts with # ends the line.
abbrev pub until_comment : List Bytes → List Bytes
until_comment [] = []
until_comment (t ∷ ts) = if get_or t 0 0 == 35 then [] else (t ∷ until_comment ts)

quoted_token-At :
    (delim buffer : Bytes) (str_ptr : Option ℕ) (ts : List Bytes)
    → At Unquoted delim buffer str_ptr ts
    → quoted_token delim buffer str_ptr ≡ next_token delim buffer str_ptr
unfolding quoted_token next_token
quoted_token-At delim buffer str_ptr ts (exhausted p e) =
    subst (λ q. quoted_token delim buffer q ≡ next_token delim buffer q) (sym p) refl
quoted_token-At delim buffer str_ptr ts (ahead pre s post e p n split) =
    let rest : c_string (drop (length pre) buffer) ≡ s =
      ap (λ b. c_string (drop (length pre) b)) e
      ∙ (ap c_string (drop-append pre (s ++ 0 ∷ post))
          ∙ c_string_lem s post (Text-NoNul Unquoted s n)) in
    let clear : NoQuotes s = All-mono _ Unquoted s (λ c k. k.1) n in
    subst (λ q. quoted_token delim buffer q ≡ next_token delim buffer q) (sym p)
      (quoted_token-unquoted delim buffer (length pre) (subst NoQuotes (sym rest) clear))

tokenizer_from-At :
    (k i : ℕ) (buffer : Bytes) (str_ptr : Option ℕ) (ts : List Bytes)
    → At Unquoted blanks buffer str_ptr ts
    → i + length ts < 5000
    → length ts < k
    → tokenizer_from k i buffer str_ptr ≡ tokens (until_comment ts)
unfolding tokenizer_from take_token
tokenizer_from-At zero i buffer str_ptr ts h room fuel = absurd (omega arith)
tokenizer_from-At (suc k) i buffer str_ptr [] h room fuel =
    let same = quoted_token-At blanks buffer str_ptr [] h in
    let step = next_token-At Unquoted blanks buffer str_ptr [] h in
    rw (same, step.0, lt→ltb i 5000 (omega arith)) refl
tokenizer_from-At (suc k) i buffer str_ptr (t ∷ ts) h room fuel =
    let same = quoted_token-At blanks buffer str_ptr (t ∷ ts) h in
    let c = next_token blanks buffer str_ptr in
    let step = next_token-At Unquoted blanks buffer str_ptr (t ∷ ts) h in
    let more =
      tokenizer_from-At k (i + 1) c.buffer c.str_ptr ts step.1 (omega arith) (omega arith) in
    elim (Bool-cases (get_or t 0 0 == 35)) [
      | inl y ↦ rw (same, step.0, y, lt→ltb i 5000 (omega arith)) refl
      | inr n ↦ rw (same, step.0, n, lt→ltb i 5000 (omega arith), more) refl
    ]

-- On a line without quotes and zeros that has less than 5000 tokens at blanks, tabs and line ends, with
-- more fuel than tokens, `tokenizer` gives these tokens up to the first that starts with `#`, whatever
-- stands behind the line.
pub tokenizer_lem :
    (fuel : ℕ) (s post : Bytes) (ts : List Bytes)
    → Text Unquoted s
    → Split blanks s ts
    → length ts < 5000
    → length ts < fuel
    → tokenizer fuel (s ++ 0 ∷ post) ≡ tokens (until_comment ts)
unfolding tokenizer
tokenizer_lem fuel s post ts clear split room enough =
    tokenizer_from-At fuel 0 (s ++ 0 ∷ post) (some 0) ts (ahead [] s post refl refl clear split)
      (omega arith) enough
