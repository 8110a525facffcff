-- ===== src/Tokens/Leads.antt =====
-- The first calls of `next_token` of Project4/next_token.c on a buffer of which only the front is known.
use cs.Common.{
  ℕ, ◌≡◌, ◌≢◌, ap, sym, subst, ◌∙◌, true, false, Option, some, List, [], ◌∷◌, ◌++◌, Bytes, NoNul,
  has, length, inl,
}
use mathlib.Core.List.{append_assoc}
use cs.Tokens.{next_token}
use cs.Tokens.Split.{Inside}
use cs.Tokens.Step.{next_token_more}
use cs.Tokens.Read.{front, front-append, length-front, token_at}
use cs.Tokens.Stream.{token_string}

-- The bytes begin with these tokens, each ended by a delimiter.
pub data Leads (delim : Bytes) : Bytes → List Bytes → Type 0 where
  stop : (s : Bytes) → Leads delim s []
  token :
      (s d : Bytes) (x : ℕ) (t : Bytes) (c : ℕ) (rest : Bytes) (ts : List Bytes)
      → s ≡ d ++ x ∷ (t ++ c ∷ rest)
      → NoNul d
      → NoNul (x ∷ t)
      → Inside true delim d
      → Inside false delim (x ∷ t)
      → has delim c ≡ true
      → c ≢ 0
      → Leads delim rest ts
      → Leads delim s ((x ∷ t) ∷ ts)

-- A pointer at bytes that begin with the tokens.
pub data Led (delim buffer : Bytes) (str_ptr : Option ℕ) (ts : List Bytes) : Type 0 where
  led :
      (pre s : Bytes)
      → buffer ≡ pre ++ s
      → str_ptr ≡ some (length pre)
      → Leads delim s ts
      → Led delim buffer str_ptr ts

-- What follows changes nothing.
pub Leads-append :
    (delim s more : Bytes) (ts : List Bytes) → Leads delim s ts → Leads delim (s ++ more) ts
Leads-append delim s more _ (stop _) = stop (s ++ more)
Leads-append delim s more _ (token _ d x t c rest ts e nd nt hd ht hc nc h) =
    token (s ++ more) d x t c (rest ++ more) ts
      (ap (λ z. z ++ more) e
        ∙ (append_assoc d (x ∷ (t ++ c ∷ rest)) more
            ∙ ap (λ z. d ++ x ∷ z) (append_assoc t (c ∷ rest) more)))
      nd nt hd ht hc nc (Leads-append delim rest more ts h)

at_token :
    (delim pre d : Bytes) (x : ℕ) (t : Bytes) (c : ℕ) (rest : Bytes) (ts : List Bytes)
    → NoNul d
    → NoNul (x ∷ t)
    → Inside true delim d
    → Inside false delim (x ∷ t)
    → has delim c ≡ true
    → c ≢ 0
    → Leads delim rest ts
    → let c' = next_token delim (pre ++ (d ++ x ∷ (t ++ c ∷ rest))) (some (length pre)) in
      (token_string c' ≡ some (x ∷ t)) × Led delim c'.buffer c'.str_ptr ts
at_token delim pre d x t c rest ts nd nt hd ht hc nc h =
    subst (λ c'. (token_string c' ≡ some (x ∷ t)) × Led delim c'.buffer c'.str_ptr ts)
      (sym (next_token_more delim pre d x t c rest nd nt hd ht (inl hc) nc))
      (
        ap some (token_at pre d (x ∷ t) rest nt),
        led (front pre d x t) rest (sym (front-append pre d x t rest))
            (ap some (length-front pre d x t)) h,
      )

pub next_token-Led :
    (delim buffer : Bytes) (str_ptr : Option ℕ) (t : Bytes) (ts : List Bytes)
    → Led delim buffer str_ptr (t ∷ ts)
    → let c = next_token delim buffer str_ptr in
      (token_string c ≡ some t) × Led delim c.buffer c.str_ptr ts
next_token-Led delim buffer str_ptr _ ts
      (led pre s eb ep (token _ d x t c rest _ e nd nt hd ht hc nc h)) =
    let Goal : Bytes → Option ℕ → Type 0 = λ b q.
      (token_string (next_token delim b q) ≡ some (x ∷ t))
      × Led delim (next_token delim b q).buffer (next_token delim b q).str_ptr ts in
    subst (λ b. Goal b str_ptr) (sym (eb ∙ ap (λ z. pre ++ z) e))
      (subst (λ q. Goal (pre ++ (d ++ x ∷ (t ++ c ∷ rest))) q) (sym ep)
        (at_token delim pre d x t c rest ts nd nt hd ht hc nc h))
