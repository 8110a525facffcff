-- ===== src/History/Ring.antt =====
-- Slots of the ring of Project2/history.c, and lists with one more element at the end.
use cs.Common.{
  ℕ, zero, suc, ◌+◌, ◌%◌, ◌<◌, ◌≡◌, ◌≢◌, refl, List, [], ◌∷◌, ◌++◌, length, get_or, arith,
}

pub slots_differ : (i n : ℕ) → i < n → n < i + 100 → n % 100 ≢ i % 100
slots_differ i n h k e = omega (arith, h, k, e)

pub small_slot : (i : ℕ) → i < 100 → i % 100 ≡ i
small_slot i h = omega (arith, h)

pub slot_bound : (i : ℕ) → i % 100 < 100
slot_bound i = omega arith

pub slot_back : (i : ℕ) → (i + 100) % 100 ≡ i % 100
slot_back i = omega arith

module _ {ℓ} {A : Type ℓ} where
  pub get_or-before :
      (xs : List A) (x d : A) (i : ℕ) → i < length xs → get_or (xs ++ x ∷ []) i d ≡ get_or xs i d
  get_or-before [] x d i h = elim h [ ]
  get_or-before (y ∷ xs) x d zero h = refl
  get_or-before (y ∷ xs) x d (suc i) h = get_or-before xs x d i (omega arith)

  pub get_or-end : (xs : List A) (x d : A) → get_or (xs ++ x ∷ []) (length xs) d ≡ x
  get_or-end [] x d = refl
  get_or-end (y ∷ xs) x d = get_or-end xs x d
