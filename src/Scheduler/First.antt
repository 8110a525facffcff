-- ===== src/Scheduler/First.antt =====
-- The searches in the process table of LabWork/Lab7/scheduler.c for a process that waits.
use cs.Common.{
  ℕ, ◌+◌, ◌≡◌, refl, ap, inl, inr, Bool, true, false, Option, none, some, List, [], ◌∷◌, ◌++◌,
  arith, length, Bool-cases,
}
use cs.Scheduler.{Pcb, is_waiting, first_waiting}
use cs.Scheduler.Scan.{Waits}

-- No waiting process has an index that passes the test.
abbrev pub NoneWaiting : (ℕ → Bool) → List Pcb → ℕ → Type 0
NoneWaiting test [] i = Unit {0}
NoneWaiting test (p ∷ ps) i = Waits (λ _. test i ≡ false) p × NoneWaiting test ps (i + 1)

-- The first waiting process whose index passes the test; the first process has index `i`.
pub record FirstWaiting (test : ℕ → Bool) (ps : List Pcb) (i j : ℕ) : Type 0 where
  pub pre : List Pcb
  pub p : Pcb
  pub post : List Pcb
  pub whole : ps ≡ pre ++ p ∷ post
  pub at : j ≡ i + length pre
  pub waits : is_waiting p.state ≡ true
  pub passes : test j ≡ true
  pub before : NoneWaiting test pre i

pub data First (test : ℕ → Bool) (ps : List Pcb) (i : ℕ) (r : Option ℕ) : Type 0 where
  absent : r ≡ none → NoneWaiting test ps i → First test ps i r
  present : (j : ℕ) → r ≡ some j → FirstWaiting test ps i j → First test ps i r

First-skip :
    (test : ℕ → Bool) (x : Pcb) (ps : List Pcb) (i : ℕ) (r : Option ℕ)
    → Waits (λ _. test i ≡ false) x
    → First test ps (i + 1) r
    → First test (x ∷ ps) i r
First-skip test x ps i r w (absent e a) = absent e (w, a)
First-skip test x ps i r w (present j e f) = present j e (record {
  pre = x ∷ f.pre;
  p = f.p;
  post = f.post;
  whole = ap (λ z. x ∷ z) f.whole;
  at = omega (arith, f.at);
  waits = f.waits;
  passes = f.passes;
  before = (w, f.before);
})

pub first_waiting_lem :
    (test : ℕ → Bool) (ps : List Pcb) (i : ℕ) → First test ps i (first_waiting test ps i)
unfolding first_waiting
first_waiting_lem test [] i = absent refl tt
first_waiting_lem test (x ∷ ps) i = elim (Bool-cases (is_waiting x.state)) [
  | inl w ↦ elim (Bool-cases (test i)) [
    | inl t ↦
        rw (w, t)
          (present i refl (record {
            pre = [];
            p = x;
            post = ps;
            whole = refl;
            at = omega arith;
            waits = w;
            passes = t;
            before = tt;
          }))
    | inr f ↦ rw (w, f) (First-skip test x ps i _ (inr f) (first_waiting_lem test ps (i + 1)))
  ]
  | inr n ↦ rw n (First-skip test x ps i _ (inl n) (first_waiting_lem test ps (i + 1)))
]
