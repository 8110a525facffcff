-- ===== src/Tokens/Shift.antt =====
-- Reads and writes in a buffer behind a known front, for the tokens of Project4/next_token.c.
use cs.Common.{ℕ, suc, ◌+◌, ◌≡◌, refl, ap, List, [], ◌∷◌, ◌++◌, length, drop, set, get_or, arith}

zero_add : (i : ℕ) → 0 + i ≡ i
zero_add i = omega arith

suc_add : (n i : ℕ) → suc n + i ≡ suc (n + i)
suc_add n i = omega arith

module _ {ℓ} {A : Type ℓ} where
  pub drop-shift : (xs ys : List A) (i : ℕ) → drop (length xs + i) (xs ++ ys) ≡ drop i ys
  drop-shift [] ys i = ap (λ k. drop k ys) (zero_add i)
  drop-shift (x ∷ xs) ys i = rw (suc_add (length xs) i) (drop-shift xs ys i)

  pub get_or-shift :
      (xs ys : List A) (i : ℕ) (d : A) → get_or (xs ++ ys) (length xs + i) d ≡ get_or ys i d
  get_or-shift [] ys i d = ap (λ k. get_or ys k d) (zero_add i)
  get_or-shift (x ∷ xs) ys i d = rw (suc_add (length xs) i) (get_or-shift xs ys i d)

  pub set-shift :
      (xs ys : List A) (i : ℕ) (v : A) → set (xs ++ ys) (length xs + i) v ≡ xs ++ set ys i v
  set-shift [] ys i v = ap (λ k. set ys k v) (zero_add i)
  set-shift (x ∷ xs) ys i v = rw (suc_add (length xs) i) (ap (λ z. x ∷ z) (set-shift xs ys i v))

  pub get_or-append : (xs ys : List A) (y d : A) → get_or (xs ++ y ∷ ys) (length xs) d ≡ y
  get_or-append [] ys y d = refl
  get_or-append (x ∷ xs) ys y d = get_or-append xs ys y d

  pub set-append : (xs ys : List A) (y v : A) → set (xs ++ y ∷ ys) (length xs) v ≡ xs ++ v ∷ ys
  set-append [] ys y v = refl
  set-append (x ∷ xs) ys y v = ap (λ z. x ∷ z) (set-append xs ys y v)
