-- ===== src/Common/Decimal.antt =====
-- Decimal numbers as the C library prints (`%d`, `%zu`) and reads (`atoi`) them.
use Prim.Native.Nat.{ℕ, zero, suc, ◌+◌, ◌-◌, ◌*◌, ◌/◌, ◌%◌, ◌≤◌, ◌<◌}
use mathlib.Core.Path.{◌≡◌, refl, sym, ap, ◌∙◌}
use mathlib.Core.Bool.{Bool, true, false, ◌&&◌, ◌||◌}
use mathlib.Core.List.{[], ◌∷◌, ◌++◌}
use mathlib.Core.Logic.{inl, inr}
use native.Mathlib.Omega.{arith}
use cs.Common.Tests.{◌==◌, leb, if◌then◌else◌, Bool-cases}
use cs.Common.Lists.{All}
use cs.Common.Strings.{Bytes}
use cs.Common.Integers.{ℤ, pos, negsuc, sub_ℕ}

-- `isdigit` and `isspace` in the C locale.
abbrev pub is_digit : ℕ → Bool
is_digit c = leb 48 c && leb c 57

abbrev pub is_space : ℕ → Bool
is_space c = (c == 32) || (leb 9 c && leb c 13)

-- The digits of `n` in front of `acc`; the fuel is more than `n`.
pub digits : ℕ → ℕ → Bytes → Bytes
digits zero n acc = acc
digits (suc k) n acc =
    let next = (48 + n % 10) ∷ acc in
    let rest = digits k (n / 10) next in if n / 10 == 0 then next else rest

unfoldable pub decimal : ℕ → Bytes
unfolding digits
decimal n = digits (n + 1) n []

unfoldable pub decimal_int : ℤ → Bytes
unfolding decimal
decimal_int (pos n) = decimal n
decimal_int (negsuc n) = 45 ∷ decimal (n + 1)

-- The number that the digits at the front spell, behind `n`.
abbrev pub read_digits : ℕ → Bytes → ℕ
read_digits n [] = n
read_digits n (c ∷ s) = if is_digit c then read_digits (n * 10 + (c - 48)) s else n

abbrev pub signed : Bytes → ℤ
signed [] = pos 0
signed (c ∷ s) =
    if c == 45
    then sub_ℕ 0 (read_digits 0 s)
    else (if c == 43 then pos (read_digits 0 s) else pos (read_digits 0 (c ∷ s)))

abbrev pub atoi : Bytes → ℤ
atoi [] = pos 0
atoi (c ∷ s) = if is_space c then atoi s else signed (c ∷ s)

-- A digit stands first.
pub record Starts (s : Bytes) : Type 0 where
  pub c : ℕ
  pub rest : Bytes
  pub whole : s ≡ c ∷ rest
  pub low : 48 ≤ c
  pub high : c ≤ 57

abbrev pub AllDigits : Bytes → Type 0
AllDigits = All (λ c. is_digit c ≡ true)

digits-append : (k n : ℕ) (acc rest : Bytes) → digits k n acc ++ rest ≡ digits k n (acc ++ rest)
unfolding digits
digits-append zero n acc rest = refl
digits-append (suc k) n acc rest = elim (Bool-cases (n / 10 == 0)) [
  | inl z ↦ rw z refl
  | inr nz ↦ rw nz (digits-append k (n / 10) ((48 + n % 10) ∷ acc) rest)
]

digits-Starts : (k n : ℕ) (acc : Bytes) → Starts (digits (suc k) n acc)
unfolding digits
digits-Starts zero n acc = elim (Bool-cases (n / 10 == 0)) [
  | inl z ↦
      rw z (record {
        c = 48 + n % 10;
        rest = acc;
        whole = refl;
        low = omega arith;
        high = omega arith;
      })
  | inr nz ↦
      rw nz (record {
        c = 48 + n % 10;
        rest = acc;
        whole = refl;
        low = omega arith;
        high = omega arith;
      })
]
digits-Starts (suc k) n acc = elim (Bool-cases (n / 10 == 0)) [
  | inl z ↦
      rw z (record {
        c = 48 + n % 10;
        rest = acc;
        whole = refl;
        low = omega arith;
        high = omega arith;
      })
  | inr nz ↦ rw nz (digits-Starts k (n / 10) ((48 + n % 10) ∷ acc))
]

digits-AllDigits : (k n : ℕ) (acc : Bytes) → AllDigits acc → AllDigits (digits k n acc)
unfolding digits
digits-AllDigits zero n acc h = h
digits-AllDigits (suc k) n acc h =
    let d : is_digit (48 + n % 10) ≡ true = ground arith in
    elim (Bool-cases (n / 10 == 0)) [
      | inl z ↦ rw z (d, h)
      | inr nz ↦ rw nz (digits-AllDigits k (n / 10) ((48 + n % 10) ∷ acc) (d, h))
    ]

read_last :
    (m n : ℕ) (acc : Bytes)
    → read_digits m ((48 + n % 10) ∷ acc) ≡ read_digits (m * 10 + n % 10) acc
read_last m n acc =
    let d : is_digit (48 + n % 10) ≡ true = ground arith in
    let v : m * 10 + (48 + n % 10 - 48) ≡ m * 10 + n % 10 = omega arith in rw (d, v) refl

read_digits-digits :
    (k n : ℕ) (acc : Bytes) → n < k → read_digits 0 (digits k n acc) ≡ read_digits n acc
unfolding digits
read_digits-digits zero n acc h = absurd (omega (arith, h))
read_digits-digits (suc k) n acc h = elim (Bool-cases (n / 10 == 0)) [
  | inl z ↦
      let e : 0 * 10 + n % 10 ≡ n = ground (arith, z) in
      rw z (read_last 0 n acc ∙ ap (λ m. read_digits m acc) e)
  | inr nz ↦
      let e : n / 10 * 10 + n % 10 ≡ n = omega arith in
      let less : n / 10 < k = ground (arith, nz, h) in
      rw nz (
        read_digits-digits k (n / 10) ((48 + n % 10) ∷ acc) less
        ∙ (read_last (n / 10) n acc ∙ ap (λ m. read_digits m acc) e))
]

atoi-Starts : (s : Bytes) → Starts s → atoi s ≡ pos (read_digits 0 s)
atoi-Starts s h =
    let space : is_space h.c ≡ false = ground (arith, h.low, h.high) in
    let minus : (h.c == 45) ≡ false = ground (arith, h.low) in
    let plus : (h.c == 43) ≡ false = ground (arith, h.low) in
    ap atoi h.whole ∙ (rw (space, minus, plus) refl ∙ sym (ap (λ t. pos (read_digits 0 t)) h.whole))

pub decimal-AllDigits : (n : ℕ) → AllDigits (decimal n)
unfolding decimal
decimal-AllDigits n = digits-AllDigits (n + 1) n [] tt

pub decimal-Starts : (n : ℕ) → Starts (decimal n)
unfolding decimal
decimal-Starts n = let k : n + 1 ≡ suc n = omega arith in rw k (digits-Starts n n [])

-- A number that was printed is read back.
pub atoi-decimal : (n : ℕ) → atoi (decimal n) ≡ pos n
unfolding decimal
atoi-decimal n =
    atoi-Starts (decimal n) (decimal-Starts n)
    ∙ ap pos (read_digits-digits (n + 1) n [] (omega arith))
