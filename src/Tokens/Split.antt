-- ===== src/Tokens/Split.antt =====
-- The splitting of a string at delimiters, said without the code of `next_token` in Project4/next_token.c.
use cs.Common.{
  ℕ, ◌≡◌, refl, ap, Bool, true, false, List, [], ◌∷◌, ◌++◌, All, Bytes, has, Bool-cases, inl, inr,
}

abbrev pub Inside : Bool → Bytes → Bytes → Type 0
Inside inside delim = All (λ c. has delim c ≡ inside)

-- The tokens of a string: what stands between the delimiters, empty tokens left out.
pub data Split (delim : Bytes) : Bytes → List Bytes → Type 0 where
  done : (s d : Bytes) → s ≡ d → Inside true delim d → Split delim s []
  last :
      (s d : Bytes) (x : ℕ) (t : Bytes)
      → s ≡ d ++ x ∷ t
      → Inside true delim d
      → Inside false delim (x ∷ t)
      → Split delim s ((x ∷ t) ∷ [])
  more :
      (s d : Bytes) (x : ℕ) (t : Bytes) (c : ℕ) (rest : Bytes) (ts : List Bytes)
      → s ≡ d ++ x ∷ (t ++ c ∷ rest)
      → Inside true delim d
      → Inside false delim (x ∷ t)
      → has delim c ≡ true
      → Split delim rest ts
      → Split delim s ((x ∷ t) ∷ ts)

-- The first token of a string, and what stands around it.
pub data Parts (delim s : Bytes) : Type 0 where
  no_token : (d : Bytes) → s ≡ d → Inside true delim d → Parts delim s
  to_end :
      (d : Bytes) (x : ℕ) (t : Bytes)
      → s ≡ d ++ x ∷ t
      → Inside true delim d
      → Inside false delim (x ∷ t)
      → Parts delim s
  to_delim :
      (d : Bytes) (x : ℕ) (t : Bytes) (c : ℕ) (rest : Bytes)
      → s ≡ d ++ x ∷ (t ++ c ∷ rest)
      → Inside true delim d
      → Inside false delim (x ∷ t)
      → has delim c ≡ true
      → Parts delim s

data Broken (delim s : Bytes) : Type 0 where
  whole : Inside false delim s → Broken delim s
  broken :
      (t : Bytes) (c : ℕ) (rest : Bytes)
      → s ≡ t ++ c ∷ rest
      → Inside false delim t
      → has delim c ≡ true
      → Broken delim s

break : (delim s : Bytes) → Broken delim s
break delim [] = whole tt
break delim (x ∷ s) = elim (Bool-cases (has delim x)) [
  | inl y ↦ broken [] x s refl tt y
  | inr n ↦ elim (break delim s) [
    | whole h ↦ whole (n, h)
    | broken t c rest e h y ↦ broken (x ∷ t) c rest (ap (λ z. x ∷ z) e) (n, h) y
  ]
]

pub parts : (delim s : Bytes) → Parts delim s
parts delim [] = no_token [] refl tt
parts delim (x ∷ s) = elim (Bool-cases (has delim x)) [
  | inl y ↦ elim (parts delim s) [
    | no_token d e h ↦ no_token (x ∷ d) (ap (λ z. x ∷ z) e) (y, h)
    | to_end d u t e h k ↦ to_end (x ∷ d) u t (ap (λ z. x ∷ z) e) (y, h) k
    | to_delim d u t c rest e h k w ↦ to_delim (x ∷ d) u t c rest (ap (λ z. x ∷ z) e) (y, h) k w
  ]
  | inr n ↦ elim (break delim s) [
    | whole h ↦ to_end [] x s refl tt (n, h)
    | broken t c rest e h y ↦ to_delim [] x t c rest (ap (λ z. x ∷ z) e) tt (n, h) y
  ]
]
