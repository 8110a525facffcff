-- ===== src/Tokens/Read.antt =====
-- The loop of calls of `next_token` of Project4/next_token.c, one pass at a time.
use cs.Common.{
  ℕ, suc, ◌+◌, ◌≡◌, ◌≢◌, refl, ap, sym, ◌∙◌, true, false, Option, none, some, List, [], ◌∷◌, ◌++◌,
  map, Bytes, NoNul, has, length, length-append, drop, drop-append, c_string, c_string_lem, inl,
  inr, arith,
}
use mathlib.Core.List.{append_assoc}
use cs.Tokens.{Call, next_token, push, read_tokens}
use cs.Tokens.Shift.{drop-shift}
use cs.Tokens.Split.{Inside, Split, done, last, more}
use cs.Tokens.Step.{next_token_end, next_token_last, next_token_more}

-- The tokens `ts` were read from the string `s` behind `pre`: they stand at the offsets found, in a buffer
-- that differs from the first only within the string.
pub record Reads (delim pre s post : Bytes) (ps : List ℕ) (buffer : Bytes) : Type 0 where
  pub tokens : List Bytes
  pub left : Bytes
  pub split : Split delim s tokens
  pub kept : buffer ≡ pre ++ (left ++ 0 ∷ post)
  pub as_long : length left ≡ length s
  pub found : map (λ p. c_string (drop p buffer)) ps ≡ tokens

abbrev pub AllRead : ℕ → Bytes → Bytes → Bytes → Bytes → Bytes → Type 0
AllRead fuel delim pre s post buffer =
    (ps : List ℕ) × (buffer' : Bytes) × (read_tokens fuel delim buffer (some (length pre))
      ≡ some (ps, buffer'))
    × Reads delim pre s post ps buffer'

read_none :
    (k : ℕ) (delim buffer : Bytes) → read_tokens (suc k) delim buffer none ≡ some ([], buffer)
unfolding read_tokens next_token push
read_none k delim buffer = refl

-- A pass of the loop whose call is known.
read_step :
    (k : ℕ) (delim buffer : Bytes) (p : Option ℕ) (c : Call)
    → next_token delim buffer p ≡ c
    → read_tokens (suc k) delim buffer p
      ≡ push c.token c.buffer (read_tokens k delim c.buffer c.str_ptr)
unfolding read_tokens
read_step k delim buffer p c e =
    ap (λ z. push z.token z.buffer (read_tokens k delim z.buffer z.str_ptr)) e

-- A token behind two fronts, up to a zero.
pub token_at :
    (pre d t rest : Bytes)
    → NoNul t
    → c_string (drop (length pre + length d) (pre ++ (d ++ (t ++ 0 ∷ rest)))) ≡ t
token_at pre d t rest h =
    rw (drop-shift pre (d ++ (t ++ 0 ∷ rest)) (length d), drop-append d (t ++ 0 ∷ rest))
      (c_string_lem t rest h)

pub read_end :
    (k : ℕ) (delim pre d post : Bytes)
    → NoNul d
    → Inside true delim d
    → AllRead (suc k) delim pre d post (pre ++ (d ++ 0 ∷ post))
unfolding push
read_end k delim pre d post n h = (
  [],
  pre ++ (d ++ 0 ∷ post),
  read_step k delim (pre ++ (d ++ 0 ∷ post)) (some (length pre)) _
      (next_token_end delim pre d post n h),
  record {
    tokens = [];
    left = d;
    split = done d d refl h;
    kept = refl;
    as_long = refl;
    found = refl;
  },
)

pub read_last :
    (k : ℕ) (delim pre d : Bytes) (x : ℕ) (t post : Bytes)
    → NoNul d
    → NoNul (x ∷ t)
    → Inside true delim d
    → Inside false delim (x ∷ t)
    → AllRead (suc (suc k)) delim pre (d ++ x ∷ t) post (pre ++ (d ++ x ∷ (t ++ 0 ∷ post)))
unfolding push
read_last k delim pre d x t post nd nt hd ht = (
  (length pre + length d) ∷ [],
  pre ++ (d ++ x ∷ (t ++ 0 ∷ post)),
  read_step (suc k) delim (pre ++ (d ++ x ∷ (t ++ 0 ∷ post))) (some (length pre)) _
        (next_token_last delim pre d x t 0 post nd nt hd ht (inr refl) refl)
      ∙ rw (read_none k delim (pre ++ (d ++ x ∷ (t ++ 0 ∷ post)))) refl,
  record {
    tokens = (x ∷ t) ∷ [];
    left = d ++ x ∷ t;
    split = last (d ++ x ∷ t) d x t refl hd ht;
    kept = ap (λ z. pre ++ z) (sym (append_assoc d (x ∷ t) (0 ∷ post)));
    as_long = refl;
    found = ap (λ z. z ∷ []) (token_at pre d (x ∷ t) post nt);
  },
)

-- What stands in front of the pointer after a token that a delimiter ended.
module _ (pre d : Bytes) (x : ℕ) (t : Bytes) where
  abbrev pub front : Bytes
  front = pre ++ (d ++ x ∷ (t ++ 0 ∷ []))

  pub front-append : (ys : Bytes) → front ++ ys ≡ pre ++ (d ++ x ∷ (t ++ 0 ∷ ys))
  front-append ys =
      append_assoc pre (d ++ x ∷ (t ++ 0 ∷ [])) ys
      ∙ ap (λ z. pre ++ z)
          (append_assoc d (x ∷ (t ++ 0 ∷ [])) ys
            ∙ ap (λ z. d ++ x ∷ z) (append_assoc t (0 ∷ []) ys))

  pub length-front : length pre + (length d + suc (length t)) + 1 ≡ length front
  length-front = omega (
    arith,
    length-append pre (d ++ x ∷ (t ++ 0 ∷ [])),
    length-append d (x ∷ (t ++ 0 ∷ [])),
    length-append t (0 ∷ []),
  )

  pub rest_string :
      (c : ℕ) (rest post : Bytes)
      → pre ++ ((d ++ x ∷ (t ++ c ∷ rest)) ++ 0 ∷ post)
        ≡ pre ++ (d ++ x ∷ (t ++ c ∷ (rest ++ 0 ∷ post)))
  rest_string c rest post =
      ap (λ z. pre ++ z)
        (append_assoc d (x ∷ (t ++ c ∷ rest)) (0 ∷ post)
          ∙ ap (λ z. d ++ x ∷ z) (append_assoc t (c ∷ rest) (0 ∷ post)))

-- A token before a delimiter, and then the tokens of the rest of the string, behind a longer front.
module _ (k : ℕ) (delim pre d : Bytes) (x : ℕ) (t : Bytes) (c : ℕ) (rest post : Bytes)
    (nd : NoNul d) (nt : NoNul (x ∷ t)) (nc : c ≢ 0) (hd : Inside true delim d)
    (ht : Inside false delim (x ∷ t)) (hc : has delim c ≡ true) where
  pub read_more :
      AllRead k delim (front pre d x t) rest post (front pre d x t ++ (rest ++ 0 ∷ post))
      → AllRead
          (suc k)
          delim
          pre
          (d ++ x ∷ (t ++ c ∷ rest))
          post
          (pre ++ ((d ++ x ∷ (t ++ c ∷ rest)) ++ 0 ∷ post))
  unfolding push
  read_more (ps, buffer', run, r) =
      let whole : buffer' ≡ pre ++ (d ++ (x ∷ t ++ 0 ∷ (r.left ++ 0 ∷ post))) =
        r.kept ∙ front-append pre d x t (r.left ++ 0 ∷ post) in
      (
        (length pre + length d) ∷ ps,
        buffer',
        ap (λ b. read_tokens (suc k) delim b (some (length pre)))
              (rest_string pre d x t c rest post)
            ∙ (read_step k delim (pre ++ (d ++ x ∷ (t ++ c ∷ (rest ++ 0 ∷ post))))
                  (some (length pre)) _
                  (next_token_more delim pre d x t c (rest ++ 0 ∷ post) nd nt hd ht (inl hc) nc)
                ∙ rw (length-front pre d x t, ← front-append pre d x t (rest ++ 0 ∷ post), run)
                    refl),
        record {
          tokens = (x ∷ t) ∷ r.tokens;
          left = d ++ x ∷ (t ++ 0 ∷ r.left);
          split = more (d ++ x ∷ (t ++ c ∷ rest)) d x t c rest r.tokens refl hd ht hc r.split;
          kept =
              whole
              ∙ ap (λ z. pre ++ z)
                  (sym (
                    append_assoc d (x ∷ (t ++ 0 ∷ r.left)) (0 ∷ post)
                    ∙ ap (λ z. d ++ x ∷ z) (append_assoc t (0 ∷ r.left) (0 ∷ post))));
          as_long = omega (
            arith,
            r.as_long,
            length-append d (x ∷ (t ++ 0 ∷ r.left)),
            length-append t (0 ∷ r.left),
            length-append d (x ∷ (t ++ c ∷ rest)),
            length-append t (c ∷ rest),
          );
          found =
              ap (λ z. z ∷ map (λ p. c_string (drop p buffer')) ps)
                (ap (λ b. c_string (drop (length pre + length d) b)) whole
                  ∙ token_at pre d (x ∷ t) (r.left ++ 0 ∷ post) nt)
              ∙ ap (λ z. (x ∷ t) ∷ z) r.found;
        },
      )
