-- ===== src/Allocator/Fit.antt =====
-- The three loops of `reuse` in Project3/allocator.c: what each finds in the chain.
use cs.Common.{
  ℕ, zero, suc, ◌≤◌, ◌<◌, ◌≡◌, refl, ap, ◌∙◌, ◌⊎◌, inl, inr, ◌&&◌, List, [], ◌∷◌, ◌++◌, All, arith,
  ltb, leb, ==_ne, length, Bool-cases,
}
use cs.Allocator.{first_fit, best_fit, worst_fit}
use cs.Allocator.Heap.{MemBlock, Memory, ok, null, room}
use cs.Allocator.Regions.{Stored, Linked}
use cs.Allocator.Links.{load-ok}

abbrev pub Chain : Type 0
Chain = List (ℕ × MemBlock)

-- The first block with more room than needed, if any has.
pub data FirstFit (need : ℕ) (xs : Chain) (p : ℕ) : Type 0 where
  nothing : p ≡ null → All (λ y. room y.1 ≤ need) xs → FirstFit need xs p
  found :
      (pre : Chain) (x : ℕ × MemBlock) (post : Chain)
      → xs ≡ pre ++ x ∷ post
      → p ≡ x.0
      → need < room x.1
      → All (λ y. room y.1 ≤ need) pre
      → FirstFit need xs p

pub FirstFit-cons :
    (need p : ℕ) (y : ℕ × MemBlock) (xs : Chain)
    → room y.1 ≤ need
    → FirstFit need xs p
    → FirstFit need (y ∷ xs) p
FirstFit-cons need p y xs h (nothing e a) = nothing e (h, a)
FirstFit-cons need p y xs h (found pre x post e f g a) =
    found (y ∷ pre) x post (rw e refl) f g (h, a)

pub first_fit_lem :
    (k need p : ℕ) (xs : Chain) (m : Memory)
    → Linked p xs null
    → Stored m.headers xs
    → length xs < k
    → (r : ℕ) × (first_fit k need p m ≡ ok r m) × FirstFit need xs r
unfolding first_fit
first_fit_lem zero need p xs m l st h = absurd (omega arith)
first_fit_lem (suc k) need p [] m l st h = (null, rw l refl, nothing refl tt)
first_fit_lem (suc k) need p (x ∷ xs) m l st h =
    let e = load-ok p x.1 m l.1 (rw l.0 st.0) in
    elim (Bool-cases (ltb need (room x.1))) [
      | inl t ↦ (p, rw (==_ne p null l.1, e, t) refl, found [] x xs refl l.0 (ground arith) tt)
      | inr f ↦
          let (r, q, fit) = first_fit_lem k need x.1.next xs m l.2 st.1 (omega arith) in
          (r, rw (==_ne p null l.1, e, f) q, FirstFit-cons need r x xs (ground arith) fit)
    ]

-- Of the blocks with enough room and at most `usage`, the last of those with the least; else what was found before.
pub data BestFit (need usage old : ℕ) (xs : Chain) (p : ℕ) : Type 0 where
  kept :
      p ≡ old → All (λ y. (room y.1 < need) ⊎ (usage < room y.1)) xs → BestFit need usage old xs p
  chose :
      (pre : Chain) (x : ℕ × MemBlock) (post : Chain)
      → xs ≡ pre ++ x ∷ post
      → p ≡ x.0
      → need ≤ room x.1
      → room x.1 ≤ usage
      → All (λ y. (room y.1 < need) ⊎ (room x.1 ≤ room y.1)) pre
      → All (λ y. (room y.1 < need) ⊎ (room x.1 < room y.1)) post
      → BestFit need usage old xs p

pub BestFit-take :
    (need usage old p q : ℕ) (y : ℕ × MemBlock) (xs : Chain)
    → q ≡ y.0
    → need ≤ room y.1
    → room y.1 ≤ usage
    → BestFit need (room y.1) q xs p
    → BestFit need usage old (y ∷ xs) p
BestFit-take need usage old p q y xs d h k (kept e a) = chose [] y xs refl (e ∙ d) h k tt a
BestFit-take need usage old p q y xs d h k (chose pre x post i e f g a b) =
    chose (y ∷ pre) x post (ap (λ z. y ∷ z) i) e f (omega arith) (inr g, a) b

pub BestFit-skip :
    (need usage old p : ℕ) (y : ℕ × MemBlock) (xs : Chain)
    → (room y.1 < need) ⊎ (usage < room y.1)
    → BestFit need usage old xs p
    → BestFit need usage old (y ∷ xs) p
BestFit-skip need usage old p y xs h (kept e a) = kept e (h, a)
BestFit-skip need usage old p y xs h (chose pre x post i e f g a b) =
    chose (y ∷ pre) x post (ap (λ z. y ∷ z) i) e f g (grind (arith, h), a) b

pub best_fit_lem :
    (k need p usage old : ℕ) (xs : Chain) (m : Memory)
    → Linked p xs null
    → Stored m.headers xs
    → length xs < k
    → (r : ℕ) × (best_fit k need p usage old m ≡ ok r m) × BestFit need usage old xs r
unfolding best_fit
best_fit_lem zero need p usage old xs m l st h = absurd (omega arith)
best_fit_lem (suc k) need p usage old [] m l st h = (old, rw l refl, kept refl tt)
best_fit_lem (suc k) need p usage old (x ∷ xs) m l st h =
    let e = load-ok p x.1 m l.1 (rw l.0 st.0) in
    elim (Bool-cases (leb need (room x.1) && leb (room x.1) usage)) [
      | inl t ↦
          let (r, q, fit) = best_fit_lem k need x.1.next (room x.1) p xs m l.2 st.1 (omega arith) in
          (
            r,
            rw (==_ne p null l.1, e, t) q,
            BestFit-take need usage old r p x xs l.0 (ground arith) (ground arith) fit,
          )
      | inr f ↦
          let (r, q, fit) = best_fit_lem k need x.1.next usage old xs m l.2 st.1 (omega arith) in
          (r, rw (==_ne p null l.1, e, f) q, BestFit-skip need usage old r x xs (grind arith) fit)
    ]

-- The same with the most room, and at least `usage`: the last of those with the most.
pub data WorstFit (need usage old : ℕ) (xs : Chain) (p : ℕ) : Type 0 where
  kept :
      p ≡ old → All (λ y. (room y.1 < need) ⊎ (room y.1 < usage)) xs → WorstFit need usage old xs p
  chose :
      (pre : Chain) (x : ℕ × MemBlock) (post : Chain)
      → xs ≡ pre ++ x ∷ post
      → p ≡ x.0
      → need ≤ room x.1
      → usage ≤ room x.1
      → All (λ y. (room y.1 < need) ⊎ (room y.1 ≤ room x.1)) pre
      → All (λ y. (room y.1 < need) ⊎ (room y.1 < room x.1)) post
      → WorstFit need usage old xs p

pub WorstFit-take :
    (need usage old p q : ℕ) (y : ℕ × MemBlock) (xs : Chain)
    → q ≡ y.0
    → need ≤ room y.1
    → usage ≤ room y.1
    → WorstFit need (room y.1) q xs p
    → WorstFit need usage old (y ∷ xs) p
WorstFit-take need usage old p q y xs d h k (kept e a) = chose [] y xs refl (e ∙ d) h k tt a
WorstFit-take need usage old p q y xs d h k (chose pre x post i e f g a b) =
    chose (y ∷ pre) x post (ap (λ z. y ∷ z) i) e f (omega arith) (inr g, a) b

pub WorstFit-skip :
    (need usage old p : ℕ) (y : ℕ × MemBlock) (xs : Chain)
    → (room y.1 < need) ⊎ (room y.1 < usage)
    → WorstFit need usage old xs p
    → WorstFit need usage old (y ∷ xs) p
WorstFit-skip need usage old p y xs h (kept e a) = kept e (h, a)
WorstFit-skip need usage old p y xs h (chose pre x post i e f g a b) =
    chose (y ∷ pre) x post (ap (λ z. y ∷ z) i) e f g (grind (arith, h), a) b

pub worst_fit_lem :
    (k need p usage old : ℕ) (xs : Chain) (m : Memory)
    → Linked p xs null
    → Stored m.headers xs
    → length xs < k
    → (r : ℕ) × (worst_fit k need p usage old m ≡ ok r m) × WorstFit need usage old xs r
unfolding worst_fit
worst_fit_lem zero need p usage old xs m l st h = absurd (omega arith)
worst_fit_lem (suc k) need p usage old [] m l st h = (old, rw l refl, kept refl tt)
worst_fit_lem (suc k) need p usage old (x ∷ xs) m l st h =
    let e = load-ok p x.1 m l.1 (rw l.0 st.0) in
    elim (Bool-cases (leb need (room x.1) && leb usage (room x.1))) [
      | inl t ↦
          let (r, q, fit) =
            worst_fit_lem k need x.1.next (room x.1) p xs m l.2 st.1 (omega arith) in
          (
            r,
            rw (==_ne p null l.1, e, t) q,
            WorstFit-take need usage old r p x xs l.0 (ground arith) (ground arith) fit,
          )
      | inr f ↦
          let (r, q, fit) = worst_fit_lem k need x.1.next usage old xs m l.2 st.1 (omega arith) in
          (r, rw (==_ne p null l.1, e, f) q, WorstFit-skip need usage old r x xs (grind arith) fit)
    ]
