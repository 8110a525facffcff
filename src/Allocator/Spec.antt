-- ===== src/Allocator/Spec.antt =====
-- The contract of Project3/allocator.c: one allocation, and one release, as steps on regions, and the
-- map from block addresses to bytes in use that they update.
use cs.Common.{
  ℕ, ◌+◌, ◌-◌, ◌≤◌, ◌<◌, ◌≡◌, refl, ◌⊎◌, inl, inr, List, [], ◌∷◌, ◌++◌, All, All-right, All-mono,
  arith, word_mod, ◌==◌, if◌then◌else◌,
}
use cs.Allocator.Heap.{header_size}
use cs.Allocator.Regions.{Cell, Region, cell, region, span, CellOk, Apart, IsValid}
use cs.Allocator.Frame.{Around_lem, IsValid-append, IsValid-remove, IsValid-oks}
use cs.Allocator.Replace.{around}
use cs.Allocator.Locate.{IsValid-around}
use cs.Allocator.Used.{
  used, used-append, used_outside, used-around, used-replace, used_cells_free, rest_lem,
}

pub data Alloc (id real : ℕ) (rs rs' : List Region) (p : ℕ) : Type 0 where
  take :
      (qs : List Region) (s : ℕ) (cs : List Cell) (c : Cell) (ds : List Cell) (ts : List Region)
      → rs ≡ around qs s cs (c ∷ []) ds ts
      → rs' ≡ around qs s cs (cell id c.size real ∷ []) ds ts
      → p ≡ s + span cs
      → c.usage ≡ 0
      → real ≤ c.size
      → Alloc id real rs rs' p
  split :
      (qs : List Region) (s : ℕ) (cs : List Cell) (c : Cell) (ds : List Cell) (ts : List Region)
      → rs ≡ around qs s cs (c ∷ []) ds ts
      → rs'
        ≡ around qs s cs (cell c.id c.usage c.usage ∷ cell id (c.size - c.usage) real ∷ []) ds ts
      → p ≡ s + span cs + c.usage
      → 0 < c.usage
      → c.usage + real ≤ c.size
      → Alloc id real rs rs' p
  grow :
      (n : ℕ)
      → rs' ≡ rs ++ region p (cell id n real ∷ []) ∷ []
      → 0 < p
      → p + n < word_mod
      → real ≤ n
      → All (Apart (region p (cell id n real ∷ []))) rs
      → Alloc id real rs rs' p

-- The step takes or splits the block at `r`.
abbrev pub Within :
    {id real : ℕ} {rs rs' : List Region} {p : ℕ} → ℕ → Alloc id real rs rs' p → Type 0
Within r (take qs s cs c ds ts e f g u h) = r ≡ s + span cs
Within r (split qs s cs c ds ts e f g u h) = r ≡ s + span cs
Within r (grow n f m b h a) = ⊥

-- The step adds a region of `n` bytes.
abbrev pub Adds : {id real : ℕ} {rs rs' : List Region} {p : ℕ} → ℕ → Alloc id real rs rs' p → Type 0
Adds k (take qs s cs c ds ts e f g u h) = ⊥
Adds k (split qs s cs c ds ts e f g u h) = ⊥
Adds k (grow n f m b h a) = n ≡ k

abbrev pub Updated : List Region → List Region → ℕ → ℕ → Type 0
Updated rs rs' p n = (x : ℕ) → used rs' x ≡ (if x == p then n else used rs x)

-- A region goes when the released block was the last in use in it.
pub data Release (rs rs' : List Region) (p : ℕ) : Type 0 where
  keep :
      (qs : List Region) (s : ℕ) (cs : List Cell) (c : Cell) (ds : List Cell) (ts : List Region)
      → rs ≡ around qs s cs (c ∷ []) ds ts
      → rs' ≡ around qs s cs (cell c.id c.size 0 ∷ []) ds ts
      → p ≡ s + span cs
      → ¬ (All (λ d. d.usage ≡ 0) cs × All (λ d. d.usage ≡ 0) ds)
      → Release rs rs' p
  drop :
      (qs : List Region) (s : ℕ) (cs : List Cell) (c : Cell) (ds : List Cell) (ts : List Region)
      → rs ≡ around qs s cs (c ∷ []) ds ts
      → rs' ≡ qs ++ ts
      → p ≡ s + span cs
      → All (λ d. d.usage ≡ 0) cs
      → All (λ d. d.usage ≡ 0) ds
      → Release rs rs' p

CellOk-take :
    (id real : ℕ) (c : Cell)
    → CellOk c
    → header_size ≤ real
    → real ≤ c.size
    → CellOk (cell id c.size real)
CellOk-take id real c k h l = record { wide = k.wide; within = l; used = inr h }

module _ (id real : ℕ) (rs rs' : List Region) (p : ℕ) (big : header_size ≤ real)
    (v : IsValid rs) where
  pub Alloc-IsValid : Alloc id real rs rs' p → IsValid rs'
  Alloc-IsValid (take qs s cs c ds ts e f g u h) =
      let v' = rw e at v in
      let ok =
        (All-right CellOk cs (c ∷ ds)
          (Around_lem qs (region s (cs ++ (c ∷ ds))) ts v').here.cells_ok).0 in
      rw f (
        IsValid-around qs s cs c (cell id c.size real) [] ds ts (CellOk-take id real c ok big h, tt)
          (omega arith) v')
  Alloc-IsValid (split qs s cs c ds ts e f g u h) =
      let v' = rw e at v in
      let ok =
        (All-right CellOk cs (c ∷ ds)
          (Around_lem qs (region s (cs ++ (c ∷ ds))) ts v').here.cells_ok).0 in
      let low : CellOk (cell c.id c.usage c.usage) = record {
        wide = omega (arith, ok.used);
        within = omega arith;
        used = ok.used;
      } in
      let high : CellOk (cell id (c.size - c.usage) real) = record {
        wide = omega arith;
        within = omega arith;
        used = inr big;
      } in
      rw f (
        IsValid-around qs s cs c (cell c.id c.usage c.usage) (cell id (c.size - c.usage) real ∷ [])
          ds ts (low, (high, tt)) (omega arith) v')
  Alloc-IsValid (grow n f m b h a) = rw f (
      IsValid-append rs (region p (cell id n real ∷ [])) v
        (record {
          mapped = m;
          bounded = omega arith;
          filled = cc;
          cells_ok = (record { wide = omega arith; within = h; used = inr big }, tt);
        })
        a)

  -- An allocation is made at an address at which nothing was in use, and changes the use of no other.
  pub Alloc-Updated : Alloc id real rs rs' p → (used rs p ≡ 0) × Updated rs rs' p real
  Alloc-Updated (take qs s cs c ds ts e f g u h) =
      let v' = rw e at v in
      let same = λ (x : ℕ). used-replace qs s cs c c [] ds ts x (omega arith) v' in
      let new =
        λ (x : ℕ). used-replace qs s cs c (cell id c.size real) [] ds ts x (omega arith) v' in
      let ok =
        (All-right CellOk cs (c ∷ ds)
          (Around_lem qs (region s (cs ++ (c ∷ ds))) ts v').here.cells_ok).0 in
      (
        rw e (ground (arith, ok.wide, (same p).1)),
        λ x. rw (e, f) (ground (arith, ok.wide, (same x).1, (new x).0, (new x).1)),
      )
  Alloc-Updated (split qs s cs c ds ts e f g u h) =
      let v' = rw e at v in
      let same = λ (x : ℕ). used-replace qs s cs c c [] ds ts x (omega arith) v' in
      let new = λ (x : ℕ).
        used-replace qs s cs c (cell c.id c.usage c.usage) (cell id (c.size - c.usage) real ∷ []) ds
          ts x (omega arith) v' in
      let ok =
        (All-right CellOk cs (c ∷ ds)
          (Around_lem qs (region s (cs ++ (c ∷ ds))) ts v').here.cells_ok).0 in
      (
        rw e (ground (arith, ok.wide, (same p).1)),
        λ x. rw (e, f) (ground (arith, ok.wide, (same x).1, (new x).0, (new x).1)),
      )
  Alloc-Updated (grow n f m b h a) =
      let new = region p (cell id n real ∷ []) in
      let fresh = λ (x : ℕ). used_outside p n x rs (IsValid-oks rs v) (
        All-mono (Apart new) (λ q. (p + n ≤ q.start) ⊎ (q.start + span q.cells ≤ p)) rs
          (λ q k. omega arith) a) in
      (
        fresh p (omega arith) (omega arith),
        λ x. rw f (ground (arith, used-append x rs (new ∷ []), fresh x)),
      )

module _ (rs rs' : List Region) (p : ℕ) (v : IsValid rs) where
  pub Release-IsValid : Release rs rs' p → IsValid rs'
  Release-IsValid (keep qs s cs c ds ts e f g _) =
      let v' = rw e at v in
      let ok =
        (All-right CellOk cs (c ∷ ds)
          (Around_lem qs (region s (cs ++ (c ∷ ds))) ts v').here.cells_ok).0 in
      let free_cell : CellOk (cell c.id c.size 0) = record {
        wide = ok.wide;
        within = omega arith;
        used = inl refl;
      } in
      rw f (IsValid-around qs s cs c (cell c.id c.size 0) [] ds ts (free_cell, tt) (omega arith) v')
  Release-IsValid (drop qs s cs c ds ts e f g _ _) =
      rw f (IsValid-remove qs (region s (cs ++ (c ∷ ds))) ts (rw e at v))

  -- A release ends the use of one block, and changes the use of no other.
  pub Release-Updated : Release rs rs' p → Updated rs rs' p 0
  Release-Updated (keep qs s cs c ds ts e f g _) x =
      let v' = rw e at v in
      let same = used-replace qs s cs c c [] ds ts x (omega arith) v' in
      let new = used-replace qs s cs c (cell c.id c.size 0) [] ds ts x (omega arith) v' in
      let ok =
        (All-right CellOk cs (c ∷ ds)
          (Around_lem qs (region s (cs ++ (c ∷ ds))) ts v').here.cells_ok).0 in
      rw (e, f) (ground (arith, ok.wide, same.1, new.0, new.1))
  Release-Updated (drop qs s cs c ds ts e f g a b) x =
      let v' = rw e at v in
      let same = used-replace qs s cs c c [] ds ts x (omega arith) v' in
      let ok =
        (All-right CellOk cs (c ∷ ds)
          (Around_lem qs (region s (cs ++ (c ∷ ds))) ts v').here.cells_ok).0 in
      rw (e, f)
        (ground (
          arith,
          ok.wide,
          same.1,
          used-around qs s cs (c ∷ []) ds ts c.size x (omega arith),
          used-append x qs ts,
          used_cells_free s x cs a,
          used_cells_free (s + span cs + c.size) x ds b,
          rest_lem qs s cs c.size ds ts x,
        ))
