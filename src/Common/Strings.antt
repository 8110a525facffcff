-- ===== src/Common/Strings.antt =====
-- C strings as the program reads them: a buffer is a list of bytes, and a string in it ends at the first
-- zero. Bytes behind the end of the list are not read: a zero stands there.
use Prim.Native.Char.{code}
use Prim.Native.Nat.{ℕ, zero, suc}
use Prim.Native.String.{String}
use mathlib.Core.Path.{◌≡◌, refl, sym, ◌∙◌}
use mathlib.Core.Logic.{◌≢◌, ◌⊎◌, inl, inr}
use mathlib.Core.Bool.{Bool, true, false, ◌&&◌, ◌||◌, not, true≢false}
use mathlib.Core.List.{List, [], ◌∷◌, ◌++◌}
use native.Mathlib.Omega.{arith}
use cs.Common.Tests.{◌==◌, ==_ne, if◌then◌else◌, Bool-cases}
use cs.Common.Lists.{length, All}

abbrev pub Bytes : Type 0
Bytes = List ℕ

-- The bytes of an ASCII literal.
abbrev pub codes : String → Bytes
codes String.[] = []
codes (String.◌∷◌ c s) = code c ∷ codes s

abbrev pub NoNul : Bytes → Type 0
NoNul = All (λ c. c ≢ 0)

abbrev pub no_nul : Bytes → Bool
no_nul [] = true
no_nul (c ∷ s) = not (c == 0) && no_nul s

pub no_nul→NoNul : (s : Bytes) → no_nul s ≡ true → NoNul s
no_nul→NoNul [] h = tt
no_nul→NoNul (c ∷ s) h = elim (Bool-cases (c == 0)) [
  | inl z ↦ absurd (true≢false (sym h ∙ rw z refl))
  | inr z ↦ (ground arith, no_nul→NoNul s (sym (rw z refl) ∙ h))
]

abbrev pub has : Bytes → ℕ → Bool
has [] c = false
has (d ∷ ds) c = (d == c) || has ds c

module _ {ℓ} {A : Type ℓ} where
  abbrev pub drop : ℕ → List A → List A
  drop zero xs = xs
  drop (suc n) [] = []
  drop (suc n) (x ∷ xs) = drop n xs

  pub drop-append : (xs ys : List A) → drop (length xs) (xs ++ ys) ≡ ys
  drop-append [] ys = refl
  drop-append (x ∷ xs) ys = drop-append xs ys

-- The string at the start of a buffer.
abbrev pub c_string : Bytes → Bytes
c_string [] = []
c_string (c ∷ s) = if c == 0 then [] else (c ∷ c_string s)

-- `strspn` and `strcspn`, with a set of bytes that has no zero.
abbrev pub strspn : Bytes → Bytes → ℕ
strspn [] set = 0
strspn (c ∷ s) set = if c == 0 then 0 else (if has set c then suc (strspn s set) else 0)

abbrev pub strcspn : Bytes → Bytes → ℕ
strcspn [] set = 0
strcspn (c ∷ s) set = if (c == 0) || has set c then 0 else suc (strcspn s set)

pub c_string_lem : (s rest : Bytes) → NoNul s → c_string (s ++ 0 ∷ rest) ≡ s
c_string_lem [] rest h = refl
c_string_lem (c ∷ s) rest h = rw (==_ne c 0 h.0, c_string_lem s rest h.1) refl

-- Where a string stops that runs over bytes of the set, or over others.
abbrev pub Stops : Bool → Bytes → Bytes → Type 0
Stops inside set [] = Unit
Stops inside set (c ∷ s) = (has set c ≡ inside) ⊎ (c ≡ 0)

pub strspn_lem :
    (set d rest : Bytes)
    → NoNul d
    → All (λ c. has set c ≡ true) d
    → Stops false set rest
    → strspn (d ++ rest) set ≡ length d
strspn_lem set [] [] n h stop = refl
strspn_lem set [] (c ∷ rest) n h (inl out) = elim (Bool-cases (c == 0)) [
  | inl z ↦ rw z refl
  | inr z ↦ rw (z, out) refl
]
strspn_lem set [] (c ∷ rest) n h (inr z) = rw z refl
strspn_lem set (c ∷ d) rest n h stop =
    rw (==_ne c 0 n.0, h.0, strspn_lem set d rest n.1 h.1 stop) refl

pub strcspn_lem :
    (set t rest : Bytes)
    → NoNul t
    → All (λ c. has set c ≡ false) t
    → Stops true set rest
    → strcspn (t ++ rest) set ≡ length t
strcspn_lem set [] [] n h stop = refl
strcspn_lem set [] (c ∷ rest) n h (inl out) = elim (Bool-cases (c == 0)) [
  | inl z ↦ rw z refl
  | inr z ↦ rw (z, out) refl
]
strcspn_lem set [] (c ∷ rest) n h (inr z) = rw z refl
strcspn_lem set (c ∷ t) rest n h stop =
    rw (==_ne c 0 n.0, h.0, strcspn_lem set t rest n.1 h.1 stop) refl

-- `strcmp(a, b) == 0`
abbrev pub strcmp_eq : Bytes → Bytes → Bool
strcmp_eq [] [] = true
strcmp_eq [] (d ∷ b) = false
strcmp_eq (c ∷ a) [] = false
strcmp_eq (c ∷ a) (d ∷ b) = (c == d) && strcmp_eq a b
