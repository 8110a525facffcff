-- ===== src/Scheduler/Summary/Order.antt =====
-- The bubble sort of the completion order in LabWork/Lab7/scheduler.c.
use cs.Common.{
  ℕ, zero, suc, ◌-◌, ◌≤◌, ◌≡◌, refl, ap, sym, subst, List, [], ◌∷◌, ◌++◌, map, false, All, ltb,
  ltb→lt, not_ltb→le, Bool-cases, inl, inr, length, arith,
}
use mathlib.Core.List.{Perm, append-nil}
use mathlib.Core.List.Perm
use cs.Scheduler.{Pcb}
use cs.Scheduler.Summary.{Entry, entry, sweep, pass, passes, completion_order}

-- From the earliest to the latest.
abbrev pub Sorted : List Entry → Type 0
Sorted [] = Unit
Sorted (x ∷ xs) = All (λ y. x.0 ≤ y.0) xs × Sorted xs

sweep-Perm : (x : Entry) (ys : List Entry) → Perm (x ∷ ys) (sweep x ys)
unfolding sweep
sweep-Perm x [] = Perm.refl (x ∷ [])
sweep-Perm x (y ∷ ys) = elim (Bool-cases (ltb y.0 x.0)) [
  | inl lt ↦ rw lt (Perm.trans (Perm.swap y x ys) (Perm.cons y (sweep-Perm x ys)))
  | inr ge ↦ rw ge (Perm.cons x (sweep-Perm y ys))
]

pass-Perm : (xs : List Entry) → Perm xs (pass xs)
unfolding pass
pass-Perm [] = Perm.refl []
pass-Perm (x ∷ xs) = sweep-Perm x xs

passes-Perm : (n : ℕ) (xs : List Entry) → Perm xs (passes n xs)
unfolding passes
passes-Perm zero xs = Perm.refl xs
passes-Perm (suc n) xs = Perm.trans (pass-Perm xs) (passes-Perm n (pass xs))

sweep-Sorted :
    (x : Entry) (ys : List Entry) → All (λ y. x.0 ≤ y.0) ys → Sorted ys → sweep x ys ≡ x ∷ ys
unfolding sweep
sweep-Sorted x [] h s = refl
sweep-Sorted x (y ∷ ys) h s =
    let ge : ltb y.0 x.0 ≡ false = ground (arith, h.0) in
    rw ge (ap (λ z. x ∷ z) (sweep-Sorted y ys s.0 s.1))

abbrev Below : List Entry → List Entry → Type 0
Below xs ys = All (λ x. All (λ y. x.0 ≤ y.0) ys) xs

-- A list whose part behind the first `n` entries is in its place.
record Settled (n : ℕ) (xs : List Entry) : Type 0 where
  front : List Entry
  back : List Entry
  whole : xs ≡ front ++ back
  size : length front ≡ n
  sorted : Sorted back
  below : Below front back

record Swept (x : Entry) (front back : List Entry) : Type 0 where
  rest : List Entry
  last : Entry
  result : sweep x (front ++ back) ≡ rest ++ last ∷ back
  as_long : length rest ≡ length front
  above : x.0 ≤ last.0
  before : All (λ y. y.0 ≤ last.0) rest
  last_below : All (λ y. last.0 ≤ y.0) back
  rest_below : Below rest back

sweep-Swept :
    (x : Entry) (front back : List Entry)
    → All (λ y. x.0 ≤ y.0) back
    → Below front back
    → Sorted back
    → Swept x front back
unfolding sweep
sweep-Swept x [] back hx hf s = record {
  rest = [];
  last = x;
  result = sweep-Sorted x back hx s;
  as_long = refl;
  above = omega arith;
  before = tt;
  last_below = hx;
  rest_below = tt;
}
sweep-Swept x (y ∷ front) back hx hf s = elim (Bool-cases (ltb y.0 x.0)) [
  | inl lt ↦
      let w = sweep-Swept x front back hx hf.1 s in
      let y_x = ltb→lt y.0 x.0 lt in
      record {
        rest = y ∷ w.rest;
        last = w.last;
        result = rw lt (ap (λ z. y ∷ z) w.result);
        as_long = ap suc w.as_long;
        above = w.above;
        before = (omega (arith, w.above, y_x), w.before);
        last_below = w.last_below;
        rest_below = (hf.0, w.rest_below);
      }
  | inr ge ↦
      let w = sweep-Swept y front back hf.0 hf.1 s in
      let x_y = not_ltb→le y.0 x.0 ge in
      record {
        rest = x ∷ w.rest;
        last = w.last;
        result = rw ge (ap (λ z. x ∷ z) w.result);
        as_long = ap suc w.as_long;
        above = omega (arith, w.above, x_y);
        before = (omega (arith, w.above, x_y), w.before);
        last_below = w.last_below;
        rest_below = (hx, w.rest_below);
      }
]

Below-cons :
    (rest : List Entry) (m : Entry) (back : List Entry)
    → All (λ y. y.0 ≤ m.0) rest
    → Below rest back
    → Below rest (m ∷ back)
Below-cons [] m back h k = tt
Below-cons (x ∷ rest) m back h k = ((h.0, k.0), Below-cons rest m back h.1 k.1)

pass_front :
    (n : ℕ) (front back : List Entry)
    → length front ≡ suc n
    → Below front back
    → Sorted back
    → Settled n (pass (front ++ back))
unfolding pass
pass_front n [] back e h s = absurd (omega (arith, e))
pass_front n (x ∷ front) back e h s =
    let w = sweep-Swept x front back h.0 h.1 s in
    record {
      front = w.rest;
      back = w.last ∷ back;
      whole = w.result;
      size = omega (arith, w.as_long, e);
      sorted = (w.last_below, s);
      below = Below-cons w.rest w.last back w.before w.rest_below;
    }

pass-Settled : (n : ℕ) (xs : List Entry) → Settled (suc n) xs → Settled n (pass xs)
pass-Settled n xs h =
    subst (λ z. Settled n (pass z)) (sym h.whole)
      (pass_front n h.front h.back h.size h.below h.sorted)

one-Sorted :
    (front back : List Entry)
    → length front ≡ 1
    → Below front back
    → Sorted back
    → Sorted (front ++ back)
one-Sorted [] back e h s = s
one-Sorted (x ∷ []) back e h s = (h.0, s)
one-Sorted (x ∷ y ∷ front) back e h s = absurd (omega (arith, e))

passes-Sorted : (n : ℕ) (xs : List Entry) → Settled (suc n) xs → Sorted (passes n xs)
unfolding passes
passes-Sorted zero xs h =
    subst Sorted (sym h.whole) (one-Sorted h.front h.back h.size h.below h.sorted)
passes-Sorted (suc n) xs h = passes-Sorted n (pass xs) (pass-Settled (suc n) xs h)

-- The completion order lists every process once, and is sorted by the completion times in whole
-- seconds.
pub completion_order_lem :
    (ps : List Pcb) → Perm (map entry ps) (completion_order ps) × Sorted (completion_order ps)
unfolding completion_order passes
completion_order_lem [] = (Perm.refl [], tt)
completion_order_lem (p ∷ ps) =
    let xs = map entry (p ∷ ps) in
    let n = length ps in
    let rounds : length (p ∷ ps) - 1 ≡ n = omega arith in
    let start : Settled (suc n) xs = record {
      front = xs;
      back = [];
      whole = sym (append-nil xs);
      size = ap suc (length-map entry ps);
      sorted = tt;
      below = Below-nil xs;
    } in
    (passes-Perm (length (p ∷ ps) - 1) xs, rw rounds (passes-Sorted n xs start))
  where
    length-map : (f : Pcb → Entry) (qs : List Pcb) → length (map f qs) ≡ length qs
    length-map f [] = refl
    length-map f (q ∷ qs) = ap suc (length-map f qs)

    Below-nil : (es : List Entry) → Below es []
    Below-nil [] = tt
    Below-nil (e ∷ es) = (tt, Below-nil es)
