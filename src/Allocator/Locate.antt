-- ===== src/Allocator/Locate.antt =====
-- From a header of the chain in Project3/allocator.c back to its cell.
use cs.Common.{
  ℕ, ◌+◌, ◌≡◌, ◌≢◌, refl, sym, ap, ◌∙◌, ◌⊎◌, inl, inr, List, [], ◌∷◌, ◌++◌, All, All-append,
  All-left, All-right, arith,
}
use cs.Allocator.Heap.{MemBlock}
use cs.Allocator.Regions.{
  Cell, Region, region, span, first, link, block, cell_blocks, region_blocks, blocks, CellOk,
  IsValid, span-append,
}
use cs.Allocator.Frame.{Around_lem, IsValid-replace}
use cs.Allocator.Replace.{around}
use cs.Allocator.Links.{In}

In-append : {A : Type 0} (x : A) (xs ys : List A) → In x (xs ++ ys) → In x xs ⊎ In x ys
In-append x [] ys h = inr h
In-append x (y ∷ xs) ys (inl e) = inl (inl e)
In-append x (y ∷ xs) ys (inr i) = elim (In-append x xs ys i) [ inl j ↦ inl (inr j) | inr j ↦ inr j ]

record InRow (s n a : ℕ) (row : List Cell) (stop p : ℕ) (b : MemBlock) : Type 0 where
  cs : List Cell
  c : Cell
  ds : List Cell
  whole : row ≡ cs ++ c ∷ ds
  here : p ≡ a + span cs
  is : b ≡ block s n c (link (p + c.size) ds stop)

InRow_lem :
    (s n a : ℕ) (row : List Cell) (stop p : ℕ) (b : MemBlock)
    → In (p, b) (cell_blocks s n a row stop)
    → InRow s n a row stop p b
InRow_lem s n a [] stop p b h = absurd h
InRow_lem s n a (c ∷ row) stop p b (inl e) = record {
  cs = [];
  c = c;
  ds = row;
  whole = refl;
  here = ap (λ x. x.0) e ∙ omega arith;
  is = ap (λ x. x.1) e ∙ ap (λ x. block s n c (link (x + c.size) row stop)) (sym (ap (λ x. x.0) e));
}
InRow_lem s n a (d ∷ row) stop p b (inr i) =
    let r = InRow_lem s n (a + d.size) row stop p b i in
    record {
      cs = d ∷ r.cs;
      c = r.c;
      ds = r.ds;
      whole = ap (λ x. d ∷ x) r.whole;
      here = omega (arith, r.here);
      is = r.is;
    }

-- The header `b` at `p` is that of the cell `c`, behind the cells `cs` of one of the regions.
pub record Located (rs : List Region) (stop p : ℕ) (b : MemBlock) : Type 0 where
  pub qs : List Region
  pub s : ℕ
  pub cs : List Cell
  pub c : Cell
  pub ds : List Cell
  pub ts : List Region
  pub whole : rs ≡ around qs s cs (c ∷ []) ds ts
  pub here : p ≡ s + span cs
  pub is : b ≡ block s (span (cs ++ c ∷ ds)) c (link (p + c.size) ds (first ts stop))

pub Located_lem :
    (rs : List Region) (stop p : ℕ) (b : MemBlock)
    → In (p, b) (blocks rs stop)
    → Located rs stop p b
Located_lem [] stop p b h = absurd h
Located_lem (r ∷ rs) stop p b h =
    elim (In-append (p, b) (region_blocks r (first rs stop)) (blocks rs stop) h) [
      | inl i ↦
          let f = InRow_lem r.start (span r.cells) r.start r.cells (first rs stop) p b i in
          record {
            qs = [];
            s = r.start;
            cs = f.cs;
            c = f.c;
            ds = f.ds;
            ts = rs;
            whole = ap (λ x. region r.start x ∷ rs) f.whole;
            here = f.here;
            is =
                f.is
                ∙ ap (λ x. block r.start (span x) f.c (link (p + f.c.size) f.ds (first rs stop)))
                    f.whole;
          }
      | inr i ↦
          let f = Located_lem rs stop p b i in
          record {
            qs = r ∷ f.qs;
            s = f.s;
            cs = f.cs;
            c = f.c;
            ds = f.ds;
            ts = f.ts;
            whole = ap (λ x. r ∷ x) f.whole;
            here = f.here;
            is = f.is;
          }
    ]

append-ne-nil : (cs : List Cell) (c : Cell) (ds : List Cell) → cs ++ c ∷ ds ≢ []
append-ne-nil [] c ds = cc
append-ne-nil (d ∷ cs) c ds = cc

-- The regions stay valid when cells that fill the same range take a cell's place.
pub IsValid-around :
    (qs : List Region) (s : ℕ) (cs : List Cell) (c c' : Cell) (mid ds : List Cell)
    (ts : List Region)
    → All CellOk (c' ∷ mid)
    → span (c' ∷ mid) ≡ c.size
    → IsValid (around qs s cs (c ∷ []) ds ts)
    → IsValid (around qs s cs (c' ∷ mid) ds ts)
IsValid-around qs s cs c c' mid ds ts k e v =
    let here = (Around_lem qs (region s (cs ++ (c ∷ ds))) ts v).here in
    let same : span (cs ++ ((c' ∷ mid) ++ ds)) ≡ span (cs ++ (c ∷ ds)) = omega (
      arith,
      span-append cs ((c' ∷ mid) ++ ds),
      span-append cs (c ∷ ds),
      span-append (c' ∷ mid) ds,
    ) in
    IsValid-replace qs (region s (cs ++ (c ∷ ds))) (region s (cs ++ ((c' ∷ mid) ++ ds))) ts refl
      same
      (record {
        mapped = here.mapped;
        bounded = omega (arith, here.bounded, same);
        filled = append-ne-nil cs c' (mid ++ ds);
        cells_ok =
            All-append CellOk cs ((c' ∷ mid) ++ ds) (All-left CellOk cs (c ∷ ds) here.cells_ok)
              (All-append CellOk (c' ∷ mid) ds k (All-right CellOk cs (c ∷ ds) here.cells_ok).1);
      })
      v
