-- ===== src/Shell/Tokenizer/Unquoted.antt =====
-- Where Project2/tokenizer.c does what Project4/next_token.c does.
use cs.Common.{
  ℕ, zero, suc, ◌+◌, ◌≡◌, ◌≤◌, refl, ap, sym, subst, false, some, [], ◌∷◌, All, Bytes, has, length,
  drop, c_string, strspn, strcspn, ltb, le→ltb, ◌==◌, Bool-cases, inl, inr, arith,
}
use cs.Tokens.{next_token}
use cs.Shell.Tokenizer.{quotes, token_end, quoted_token}

abbrev pub NoQuotes : Bytes → Type 0
NoQuotes = All (λ c. has quotes c ≡ false)

strcspn-≤ : (d s : Bytes) → strcspn s d ≤ length (c_string s)
strcspn-≤ d [] = omega arith
strcspn-≤ d (c ∷ s) = elim (Bool-cases (c == 0)) [
  | inl z ↦ rw z (omega arith)
  | inr nz ↦ elim (Bool-cases (has d c)) [
    | inl y ↦ rw (nz, y) (omega arith)
    | inr n ↦ rw (nz, n) (omega (arith, strcspn-≤ d s))
  ]
]

behind-≤ : (d s : Bytes) → length (c_string (drop (strspn s d) s)) ≤ length (c_string s)
behind-≤ d [] = omega arith
behind-≤ d (c ∷ s) =
    let Goal : ℕ → Type 0 = λ n. length (c_string (drop n (c ∷ s))) ≤ length (c_string (c ∷ s)) in
    elim (Bool-cases (c == 0)) [
      | inl z ↦ let e : strspn (c ∷ s) d ≡ 0 = rw z refl in subst Goal (sym e) (omega arith)
      | inr nz ↦ elim (Bool-cases (has d c)) [
        | inl y ↦
            let e : strspn (c ∷ s) d ≡ suc (strspn s d) = rw (nz, y) refl in
            let longer : length (c_string (c ∷ s)) ≡ suc (length (c_string s)) = rw nz refl in
            subst Goal (sym e) (omega (arith, behind-≤ d s, longer))
        | inr n ↦ let e : strspn (c ∷ s) d ≡ 0 = rw (nz, n) refl in subst Goal (sym e) (omega arith)
      ]
    ]

no_quote : (s : Bytes) → NoQuotes (c_string s) → strcspn s quotes ≡ length (c_string s)
no_quote [] h = refl
no_quote (c ∷ s) h = elim (Bool-cases (c == 0)) [
  | inl z ↦ rw z refl
  | inr nz ↦
      let first_byte : c_string (c ∷ s) ≡ c ∷ c_string s = rw nz refl in
      let h' = subst NoQuotes first_byte h in rw (nz, h'.0) (ap suc (no_quote s h'.1))
]

token_end_lem :
    (delim s : Bytes)
    → NoQuotes (c_string s)
    → token_end delim s (strspn s delim) ≡ strcspn (drop (strspn s delim) s) delim
unfolding token_end
token_end_lem delim s h =
    let behind = drop (strspn s delim) s in
    let no_quote_first : ltb (strcspn s quotes) (strcspn behind delim) ≡ false =
      le→ltb (strcspn s quotes) (strcspn behind delim)
        (omega (arith, no_quote s h, strcspn-≤ delim behind, behind-≤ delim s)) in
    rw no_quote_first refl

drop-nil : (n : ℕ) → drop {A = ℕ} n [] ≡ []
drop-nil zero = refl
drop-nil (suc n) = refl

drop-drop : (p n : ℕ) (s : Bytes) → drop (p + n) s ≡ drop n (drop p s)
drop-drop zero n s = let e : 0 + n ≡ n = omega arith in rw e refl
drop-drop (suc p) n [] = let e : suc p + n ≡ suc (p + n) = omega arith in rw e (sym (drop-nil n))
drop-drop (suc p) n (c ∷ s) =
    let e : suc p + n ≡ suc (p + n) = omega arith in rw e (drop-drop p n s)

pub quoted_token-unquoted :
    (delim buffer : Bytes) (p : ℕ)
    → NoQuotes (c_string (drop p buffer))
    → quoted_token delim buffer (some p) ≡ next_token delim buffer (some p)
unfolding quoted_token next_token
quoted_token-unquoted delim buffer p h =
    rw (token_end_lem delim (drop p buffer) h, drop-drop p (strspn (drop p buffer) delim) buffer)
      refl
