-- ===== src/Jobs/Table.antt =====
-- The table of background jobs of Project2/shell.c against a list of jobs.
use cs.Common.{
  ℕ, zero, suc, ◌+◌, ◌≤◌, ◌<◌, ◌≡◌, ◌≢◌, refl, ap, sym, ◌∙◌, true, false, List, [], ◌∷◌, ◌++◌, All,
  ◌==◌, ==_ne, Bool-cases, inl, inr, length, get_or, set, arith,
}
use cs.Jobs.{find_job, shift}

module _ {ℓ} {A : Type ℓ} where
  abbrev pub pads : A → ℕ → List A
  pads d zero = []
  pads d (suc n) = d ∷ pads d n

  pub set-at : (xs ys : List A) (y v : A) → set (xs ++ y ∷ ys) (length xs) v ≡ xs ++ v ∷ ys
  set-at [] ys y v = refl
  set-at (x ∷ xs) ys y v = ap (λ z. x ∷ z) (set-at xs ys y v)

  shift-cons : (d q : A) (n i : ℕ) (xs : List A) → shift d n (suc i) (q ∷ xs) ≡ q ∷ shift d n i xs
  unfolding shift
  shift-cons d q zero i xs = refl
  shift-cons d q (suc n) i xs =
      let next : suc i + 1 ≡ suc (i + 1) = omega arith in
      rw next (shift-cons d q n (i + 1) (set xs i (get_or xs (i + 1) d)))

  shift_first :
      (d : A) (ys : List A) (x z : A) (zs : List A)
      → shift d (length ys + 1) 0 (x ∷ (ys ++ z ∷ zs)) ≡ ys ++ z ∷ z ∷ zs
  unfolding shift
  shift_first d [] x z zs = refl
  shift_first d (y ∷ ys) x z zs =
      let next : suc (length ys) + 1 ≡ suc (length ys + 1) = omega arith in
      rw next (
        shift-cons d y (length ys + 1) 0 (y ∷ (ys ++ z ∷ zs))
        ∙ ap (λ l. y ∷ l) (shift_first d ys y z zs))

  -- Behind the front the elements move down by one, and the element behind them is there twice.
  pub shift_lem :
      (d : A) (ys front : List A) (x z : A) (zs : List A)
      → shift d (length ys + 1) (length front) (front ++ x ∷ (ys ++ z ∷ zs))
        ≡ front ++ (ys ++ z ∷ z ∷ zs)
  shift_lem d ys [] x z zs = shift_first d ys x z zs
  shift_lem d ys (q ∷ front) x z zs =
      shift-cons d q (length ys + 1) (length front) (front ++ x ∷ (ys ++ z ∷ zs))
      ∙ ap (λ l. q ∷ l) (shift_lem d ys front x z zs)

find-cons :
    (n i pid q : ℕ) (xs : List ℕ) → find_job n (suc i) pid (q ∷ xs) ≡ suc (find_job n i pid xs)
unfolding find_job
find-cons zero i pid q xs = refl
find-cons (suc n) i pid q xs =
    let next : suc i + 1 ≡ suc (i + 1) = omega arith in
    elim (Bool-cases (get_or xs i 0 == pid)) [
      | inl here ↦ rw here refl
      | inr there ↦ rw (there, next) (find-cons n (i + 1) pid q xs)
    ]

pub find_first :
    (n pid : ℕ) (front rest : List ℕ)
    → All (λ q. q ≢ pid) front
    → length front < n
    → find_job n 0 pid (front ++ pid ∷ rest) ≡ length front
unfolding find_job
find_first zero pid front rest h k = absurd (omega (arith, k))
find_first (suc n) pid [] rest h k = let same : (pid == pid) ≡ true = ground arith in rw same refl
find_first (suc n) pid (q ∷ front) rest h k = rw (==_ne q pid h.0) (
    find-cons n 0 pid q (front ++ pid ∷ rest)
    ∙ ap suc (find_first n pid front rest h.1 (omega (arith, k))))

find_empty : (n i pid : ℕ) → pid ≢ 0 → find_job n i pid [] ≡ i + n
unfolding find_job
find_empty zero i pid h = omega arith
find_empty (suc n) i pid h =
    let unused : (0 == pid) ≡ false = ==_ne 0 pid (λ e. h (sym e)) in
    let next : i + 1 + n ≡ i + suc n = omega arith in rw unused (find_empty n (i + 1) pid h ∙ next)

pub find_nothing :
    (n pid : ℕ) (xs : List ℕ) → All (λ q. q ≢ pid) xs → pid ≢ 0 → find_job n 0 pid xs ≡ n
unfolding find_job
find_nothing zero pid xs h k = refl
find_nothing (suc n) pid [] h k =
    let zero_first : 0 + suc n ≡ suc n = omega arith in find_empty (suc n) 0 pid k ∙ zero_first
find_nothing (suc n) pid (q ∷ xs) h k =
    rw (==_ne q pid h.0) (find-cons n 0 pid q xs ∙ ap suc (find_nothing n pid xs h.1 k))

pub last_free : (xs : List ℕ) (i n : ℕ) → length xs ≤ i → get_or (xs ++ pads 0 n) i 0 ≡ 0
last_free [] i zero h = refl
last_free [] zero (suc n) h = refl
last_free [] (suc i) (suc n) h = last_free [] i n (omega arith)
last_free (x ∷ xs) zero n h = absurd (omega (arith, h))
last_free (x ∷ xs) (suc i) n h = last_free xs i n (omega (arith, h))
