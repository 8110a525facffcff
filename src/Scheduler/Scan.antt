-- ===== src/Scheduler/Scan.antt =====
-- The loops over the process table in LabWork/Lab7/scheduler.c that keep the best key.
use cs.Common.{
  ℕ, suc, ◌+◌, ◌≤◌, ◌<◌, ◌≡◌, refl, ap, ◌∙◌, ◌⊎◌, inl, inr, Bool, true, false, Option, none, some,
  List, [], ◌∷◌, ◌++◌, All, arith, ltb, ltb→lt, not_ltb→le, length, Bool-cases,
}
use cs.Scheduler.{Pcb, is_waiting, scan, greater, Choice, switch, unset, or_unset}

-- Of a process that waits a property holds.
abbrev pub Waits : (Pcb → Type 0) → Pcb → Type 0
Waits P q = (is_waiting q.state ≡ false) ⊎ P q

-- How keys are compared.
pub record Order : Type 1 where
  pub better : ℕ → ℕ → Bool
  pub Before : ℕ → ℕ → Type 0
  pub NotAfter : ℕ → ℕ → Type 0
  pub sound : (a b : ℕ) → better a b ≡ true → Before a b
  pub refuse : (a b : ℕ) → better a b ≡ false → NotAfter b a
  pub trans : (a b c : ℕ) → Before a b → NotAfter b c → Before a c
  pub weaken : (a b : ℕ) → Before a b → NotAfter a b

pub lt_le_trans : (a b c : ℕ) → a < b → b ≤ c → a < c
lt_le_trans a b c h k = omega arith

pub le_lt_trans : (a b c : ℕ) → a ≤ b → b < c → a < c
le_lt_trans a b c h k = omega arith

pub lt→le : (a b : ℕ) → a < b → a ≤ b
lt→le a b h = omega arith

abbrev pub ascending : Order
ascending = record {
  better = ltb;
  Before = λ a b. a < b;
  NotAfter = λ a b. a ≤ b;
  sound = ltb→lt;
  refuse = not_ltb→le;
  trans = lt_le_trans;
  weaken = lt→le;
}

abbrev pub descending : Order
descending = record {
  better = greater;
  Before = λ a b. b < a;
  NotAfter = λ a b. b ≤ a;
  sound = λ a b h. ltb→lt b a h;
  refuse = λ a b h. not_ltb→le b a h;
  trans = λ a b c h k. le_lt_trans c b a k h;
  weaken = λ a b h. lt→le b a h;
}

module _ (o : Order) where
  -- The process at `j` waits, its key is below `bound`, no waiting process has a smaller key, and those in
  -- front of it have greater ones.
  pub record Least (key : Pcb → ℕ) (bound : ℕ) (ps : List Pcb) (j : ℕ) : Type 0 where
    pub pre : List Pcb
    pub p : Pcb
    pub post : List Pcb
    pub whole : ps ≡ pre ++ p ∷ post
    pub at : j ≡ length pre
    pub waits : is_waiting p.state ≡ true
    pub below : o.Before (key p) bound
    pub before : All (Waits (λ q. o.Before (key p) (key q))) pre
    pub after : All (Waits (λ q. o.NotAfter (key p) (key q))) post

  abbrev pub NoneBelow : (Pcb → ℕ) → ℕ → List Pcb → Type 0
  NoneBelow key bound = All (Waits (λ q. o.NotAfter bound (key q)))

  pub data Scan (key : Pcb → ℕ) (ps : List Pcb) (i bound : ℕ) (pid r : Option ℕ) : Type 0 where
    kept : r ≡ pid → NoneBelow key bound ps → Scan key ps i bound pid r
    found : (j : ℕ) → r ≡ some (i + j) → Least key bound ps j → Scan key ps i bound pid r

  Scan-better :
      (key : Pcb → ℕ) (x : Pcb) (ps : List Pcb) (i bound : ℕ) (pid r : Option ℕ)
      → is_waiting x.state ≡ true
      → o.Before (key x) bound
      → Scan key ps (i + 1) (key x) (some i) r
      → Scan key (x ∷ ps) i bound pid r
  Scan-better key x ps i bound pid r w b (kept e a) =
      let z : i ≡ i + 0 = omega arith in
      found 0 (e ∙ ap some z) (record {
        pre = [];
        p = x;
        post = ps;
        whole = refl;
        at = refl;
        waits = w;
        below = b;
        before = tt;
        after = a;
      })
  Scan-better key x ps i bound pid r w b (found j e l) =
      let z : i + 1 + j ≡ i + suc j = omega arith in
      found (suc j) (e ∙ ap some z) (record {
        pre = x ∷ l.pre;
        p = l.p;
        post = l.post;
        whole = ap (λ z. x ∷ z) l.whole;
        at = ap suc l.at;
        waits = l.waits;
        below = o.trans (key l.p) (key x) bound l.below (o.weaken (key x) bound b);
        before = (inr l.below, l.before);
        after = l.after;
      })

  Scan-worse :
      (key : Pcb → ℕ) (x : Pcb) (ps : List Pcb) (i bound : ℕ) (pid r : Option ℕ)
      → Waits (λ q. o.NotAfter bound (key q)) x
      → Scan key ps (i + 1) bound pid r
      → Scan key (x ∷ ps) i bound pid r
  Scan-worse key x ps i bound pid r w (kept e a) = kept e (w, a)
  Scan-worse key x ps i bound pid r w (found j e l) =
      let z : i + 1 + j ≡ i + suc j = omega arith in
      let greater : Waits (λ q. o.Before (key l.p) (key q)) x = elim w [
        | inl n ↦ inl n
        | inr h ↦ inr (o.trans (key l.p) bound (key x) l.below h)
      ] in
      found (suc j) (e ∙ ap some z) (record {
        pre = x ∷ l.pre;
        p = l.p;
        post = l.post;
        whole = ap (λ z. x ∷ z) l.whole;
        at = ap suc l.at;
        waits = l.waits;
        below = l.below;
        before = (greater, l.before);
        after = l.after;
      })

  pub scan_lem :
      (key : Pcb → ℕ) (ps : List Pcb) (i bound : ℕ) (pid : Option ℕ)
      → Scan key ps i bound pid (scan o.better key ps i bound pid)
  unfolding scan
  scan_lem key [] i bound pid = kept refl tt
  scan_lem key (x ∷ ps) i bound pid = elim (Bool-cases (is_waiting x.state)) [
    | inl w ↦ elim (Bool-cases (o.better (key x) bound)) [
      | inl b ↦
          rw (w, b)
            (Scan-better key x ps i bound pid _ w (o.sound (key x) bound b)
              (scan_lem key ps (i + 1) (key x) (some i)))
      | inr b ↦
          rw (w, b)
            (Scan-worse key x ps i bound pid _ (inr (o.refuse (key x) bound b))
              (scan_lem key ps (i + 1) bound pid))
    ]
    | inr n ↦ rw n (Scan-worse key x ps i bound pid _ (inl n) (scan_lem key ps (i + 1) bound pid))
  ]

-- The outcome of a scan in `choose`: the best waiting process, or what was set before the loop.
pub data Selects (o : Order) (key : Pcb → ℕ) (bound : ℕ) (default : Choice) (ps : List Pcb)
    (c : Choice) : Type 0 where
  best : (j : ℕ) → c ≡ switch j → Least o key bound ps j → Selects o key bound default ps c
  nobody : c ≡ default → NoneBelow o key bound ps → Selects o key bound default ps c

pub Selects-unset :
    (o : Order) (key : Pcb → ℕ) (bound : ℕ) (ps : List Pcb) (r : Option ℕ)
    → Scan o key ps 0 bound none r
    → Selects o key bound unset ps (or_unset r)
Selects-unset o key bound ps r (kept e a) = nobody (ap or_unset e) a
Selects-unset o key bound ps r (found j e l) = best j (ap or_unset e ∙ ap switch (omega arith)) l

pub Selects-first :
    (o : Order) (key : Pcb → ℕ) (bound : ℕ) (ps : List Pcb) (r : Option ℕ)
    → Scan o key ps 0 bound (some 0) r
    → Selects o key bound (switch 0) ps (or_unset r)
Selects-first o key bound ps r (kept e a) = nobody (ap or_unset e) a
Selects-first o key bound ps r (found j e l) = best j (ap or_unset e ∙ ap switch (omega arith)) l
