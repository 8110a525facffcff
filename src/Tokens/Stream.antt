-- ===== src/Tokens/Stream.antt =====
-- The calls of `next_token` of Project4/next_token.c one after the other, as their caller sees them: the
-- tokens of the string, and then nothing.
use cs.Common.{
  ℕ, ◌≡◌, ◌≢◌, refl, ap, sym, subst, true, false, Option, none, some, List, [], ◌∷◌, ◌++◌, All,
  All-mono, All-left, All-right, Bytes, NoNul, has, length, drop, c_string, inl, inr,
}
use mathlib.Core.List.{append_assoc}
use cs.Tokens.{Call, next_token}
use cs.Tokens.Split.{Inside, Split, done, last, more}
use cs.Tokens.Step.{next_token_end, next_token_last, next_token_more}
use cs.Tokens.Read.{front, front-append, length-front, rest_string, token_at}

-- A byte that is no zero and passes a test that a caller needs.
abbrev Clean : (ℕ → Type 0) → ℕ → Type 0
Clean Q c = (c ≢ 0) × Q c

abbrev pub Text : (ℕ → Type 0) → Bytes → Type 0
Text Q = All (Clean Q)

pub Text-NoNul : (Q : ℕ → Type 0) (s : Bytes) → Text Q s → NoNul s
Text-NoNul Q s h = All-mono (Clean Q) (λ c. c ≢ 0) s (λ c k. k.0) h

abbrev pub Anything : ℕ → Type 0
Anything c = Unit

pub NoNul-Text : (s : Bytes) → NoNul s → Text Anything s
NoNul-Text s h = All-mono (λ c. c ≢ 0) (Clean Anything) s (λ c k. (k, tt)) h

-- What a caller has that goes on with `str_ptr`: no string is left, or the tokens of the string that
-- stands there.
pub data At (Q : ℕ → Type 0) (delim buffer : Bytes) (str_ptr : Option ℕ) (ts : List Bytes)
    : Type 0 where
  exhausted : str_ptr ≡ none → ts ≡ [] → At Q delim buffer str_ptr ts
  ahead :
      (pre s post : Bytes)
      → buffer ≡ pre ++ (s ++ 0 ∷ post)
      → str_ptr ≡ some (length pre)
      → Text Q s
      → Split delim s ts
      → At Q delim buffer str_ptr ts

abbrev pub first : List Bytes → Option Bytes
first [] = none
first (t ∷ ts) = some t

abbrev pub others : List Bytes → List Bytes
others [] = []
others (t ∷ ts) = ts

abbrev pub string_at : Bytes → Option ℕ → Option Bytes
string_at buffer none = none
string_at buffer (some p) = some (c_string (drop p buffer))

-- The string that a call returns.
abbrev pub token_string : Call → Option Bytes
token_string c = string_at c.buffer c.token

abbrev pub Next : (ℕ → Type 0) → Bytes → List Bytes → Call → Type 0
Next Q delim ts c = (token_string c ≡ first ts) × At Q delim c.buffer c.str_ptr (others ts)

call_end :
    (Q : ℕ → Type 0) (delim pre s post : Bytes)
    → Text Q s
    → Inside true delim s
    → Next Q delim [] (next_token delim (pre ++ (s ++ 0 ∷ post)) (some (length pre)))
call_end Q delim pre s post n h =
    subst (Next Q delim []) (sym (next_token_end delim pre s post (Text-NoNul Q s n) h))
      (refl, exhausted refl refl)

call_last :
    (Q : ℕ → Type 0) (delim pre d : Bytes) (x : ℕ) (t post : Bytes)
    → Text Q (d ++ x ∷ t)
    → Inside true delim d
    → Inside false delim (x ∷ t)
    → Next Q delim
        ((x ∷ t) ∷ [])
        (next_token delim (pre ++ ((d ++ x ∷ t) ++ 0 ∷ post)) (some (length pre)))
call_last Q delim pre d x t post n hd ht =
    let nt = Text-NoNul Q (x ∷ t) (All-right (Clean Q) d (x ∷ t) n) in
    subst (λ b. Next Q delim ((x ∷ t) ∷ []) (next_token delim (pre ++ b) (some (length pre))))
      (sym (append_assoc d (x ∷ t) (0 ∷ post)))
      (subst (Next Q delim ((x ∷ t) ∷ []))
        (sym (
          next_token_last delim pre d x t 0 post (Text-NoNul Q d (All-left (Clean Q) d (x ∷ t) n))
            nt hd ht (inr refl) refl))
        (ap some (token_at pre d (x ∷ t) post nt), exhausted refl refl))

call_more :
    (Q : ℕ → Type 0) (delim pre d : Bytes) (x : ℕ) (t : Bytes) (c : ℕ) (rest post : Bytes)
    (ts : List Bytes)
    → Text Q (d ++ x ∷ (t ++ c ∷ rest))
    → Inside true delim d
    → Inside false delim (x ∷ t)
    → has delim c ≡ true
    → Split delim rest ts
    → Next Q delim
        ((x ∷ t) ∷ ts)
        (next_token delim (pre ++ ((d ++ x ∷ (t ++ c ∷ rest)) ++ 0 ∷ post)) (some (length pre)))
call_more Q delim pre d x t c rest post ts n hd ht hc split =
    let behind = All-right (Clean Q) d (x ∷ (t ++ c ∷ rest)) n in
    let nt = Text-NoNul Q (x ∷ t) (All-left (Clean Q) (x ∷ t) (c ∷ rest) behind) in
    let tail = All-right (Clean Q) (x ∷ t) (c ∷ rest) behind in
    subst (λ b. Next Q delim ((x ∷ t) ∷ ts) (next_token delim b (some (length pre))))
      (sym (rest_string pre d x t c rest post))
      (subst (Next Q delim ((x ∷ t) ∷ ts))
        (sym (
          next_token_more delim pre d x t c (rest ++ 0 ∷ post)
            (Text-NoNul Q d (All-left (Clean Q) d (x ∷ (t ++ c ∷ rest)) n)) nt hd ht (inl hc)
            tail.0.0))
        (
          ap some (token_at pre d (x ∷ t) (rest ++ 0 ∷ post) nt),
          ahead (front pre d x t) rest post (sym (front-append pre d x t (rest ++ 0 ∷ post)))
              (ap some (length-front pre d x t)) tail.1 split,
        ))

-- A call on a string whose tokens are known.
call_on :
    (Q : ℕ → Type 0) (delim pre s post : Bytes) (ts : List Bytes)
    → Text Q s
    → Split delim s ts
    → Next Q delim ts (next_token delim (pre ++ (s ++ 0 ∷ post)) (some (length pre)))
call_on Q delim pre s post _ n (done _ d e h) =
    call_end Q delim pre s post n (subst (Inside true delim) (sym e) h)
call_on Q delim pre s post _ n (last _ d x t e hd ht) =
    subst
      (λ z.
        Next Q delim ((x ∷ t) ∷ []) (next_token delim (pre ++ (z ++ 0 ∷ post)) (some (length pre))))
      (sym e) (call_last Q delim pre d x t post (subst (Text Q) e n) hd ht)
call_on Q delim pre s post _ n (more _ d x t c rest ts e hd ht hc split) =
    subst
      (λ z.
        Next Q delim ((x ∷ t) ∷ ts) (next_token delim (pre ++ (z ++ 0 ∷ post)) (some (length pre))))
      (sym e) (call_more Q delim pre d x t c rest post ts (subst (Text Q) e n) hd ht hc split)

-- Each call returns the first of the tokens that are left and leaves the others, and where none is left it
-- returns NULL.
pub next_token-At :
    (Q : ℕ → Type 0) (delim buffer : Bytes) (str_ptr : Option ℕ) (ts : List Bytes)
    → At Q delim buffer str_ptr ts
    → Next Q delim ts (next_token delim buffer str_ptr)
unfolding next_token
next_token-At Q delim buffer str_ptr ts (exhausted p e) =
    subst (λ z. Next Q delim z (next_token delim buffer str_ptr)) (sym e)
      (subst (λ q. Next Q delim [] (next_token delim buffer q)) (sym p) (refl, exhausted refl refl))
next_token-At Q delim buffer str_ptr ts (ahead pre s post e p n split) =
    subst (λ b. Next Q delim ts (next_token delim b str_ptr)) (sym e)
      (subst (λ q. Next Q delim ts (next_token delim (pre ++ (s ++ 0 ∷ post)) q)) (sym p)
        (call_on Q delim pre s post ts n split))
