-- ===== src/Tokens/Step.antt =====
-- One call of `next_token` of Project4/next_token.c on a buffer whose string is known: what it returns and what it writes.
use cs.Common.{
  ℕ, suc, ◌+◌, ◌≡◌, ◌≢◌, refl, ◌∙◌, true, false, none, some, ◌∷◌, ◌++◌, Bytes, NoNul, length,
  drop-append, set, get_or, strspn_lem, strcspn_lem, Stops, inl, inr, arith, ◌==◌,
}
use cs.Tokens.{call, cut, next_token}
use cs.Tokens.Shift.{drop-shift, get_or-shift, set-shift, get_or-append, set-append}
use cs.Tokens.Split.{Inside}

-- What a call gives when only delimiters are left.
pub next_token_end :
    (delim pre d post : Bytes)
    → NoNul d
    → Inside true delim d
    → next_token delim (pre ++ (d ++ 0 ∷ post)) (some (length pre))
      ≡ call (pre ++ (d ++ 0 ∷ post)) none none
unfolding next_token
next_token_end delim pre d post n h =
    rw
      (
        drop-append pre (d ++ 0 ∷ post),
        strspn_lem delim d (0 ∷ post) n h (inr refl),
        drop-shift pre (d ++ 0 ∷ post) (length d),
        drop-append d (0 ∷ post),
      )
      refl

-- The call on a token that ends before the byte `c`.
module _ (delim pre d : Bytes) (x : ℕ) (t : Bytes) (c : ℕ) (rest : Bytes) (nd : NoNul d)
    (nt : NoNul (x ∷ t)) (hd : Inside true delim d) (ht : Inside false delim (x ∷ t))
    (stop : Stops true delim (c ∷ rest)) where
  next_token-cut :
      next_token delim (pre ++ (d ++ x ∷ (t ++ c ∷ rest))) (some (length pre))
      ≡ cut
          (pre ++ (d ++ x ∷ (t ++ c ∷ rest)))
          (length pre + length d)
          (length pre + (length d + suc (length t)))
  unfolding next_token
  next_token-cut =
      let some_bytes : (suc (length t) == 0) ≡ false = ground arith in
      rw
        (
          drop-append pre (d ++ x ∷ (t ++ c ∷ rest)),
          strspn_lem delim d (x ∷ (t ++ c ∷ rest)) nd hd (inl ht.0),
          drop-shift pre (d ++ x ∷ (t ++ c ∷ rest)) (length d),
          drop-append d (x ∷ (t ++ c ∷ rest)),
          strcspn_lem delim (x ∷ t) (c ∷ rest) nt ht stop,
          some_bytes,
        )
        refl

  byte-end :
      get_or (pre ++ (d ++ x ∷ (t ++ c ∷ rest))) (length pre + (length d + suc (length t))) 0 ≡ c
  byte-end =
      rw
        (
          get_or-shift pre (d ++ x ∷ (t ++ c ∷ rest)) (length d + suc (length t)) 0,
          get_or-shift d (x ∷ (t ++ c ∷ rest)) (suc (length t)) 0,
          get_or-append t rest c 0,
        )
        refl

  set-end :
      set (pre ++ (d ++ x ∷ (t ++ c ∷ rest))) (length pre + (length d + suc (length t))) 0
      ≡ pre ++ (d ++ x ∷ (t ++ 0 ∷ rest))
  set-end =
      rw
        (
          set-shift pre (d ++ x ∷ (t ++ c ∷ rest)) (length d + suc (length t)) 0,
          set-shift d (x ∷ (t ++ c ∷ rest)) (suc (length t)) 0,
          set-append t rest c 0,
        )
        refl

  pub next_token_last :
      c ≡ 0
      → next_token delim (pre ++ (d ++ x ∷ (t ++ c ∷ rest))) (some (length pre))
        ≡ call (pre ++ (d ++ x ∷ (t ++ c ∷ rest))) none (some (length pre + length d))
  unfolding cut
  next_token_last z =
      let stops : (get_or (pre ++ (d ++ x ∷ (t ++ c ∷ rest)))
              (length pre + (length d + suc (length t))) 0
            == 0)
          ≡ true =
        ground (arith, byte-end) in
      next_token-cut ∙ rw stops refl

  pub next_token_more :
      c ≢ 0
      → next_token delim (pre ++ (d ++ x ∷ (t ++ c ∷ rest))) (some (length pre))
        ≡ call
            (pre ++ (d ++ x ∷ (t ++ 0 ∷ rest)))
            (some (length pre + (length d + suc (length t)) + 1))
            (some (length pre + length d))
  unfolding cut
  next_token_more ne =
      let goes_on : (get_or (pre ++ (d ++ x ∷ (t ++ c ∷ rest)))
              (length pre + (length d + suc (length t))) 0
            == 0)
          ≡ false =
        ground (arith, byte-end) in
      next_token-cut ∙ rw (goes_on, set-end) refl
