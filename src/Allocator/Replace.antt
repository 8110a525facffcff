-- ===== src/Allocator/Replace.antt =====
-- One cell of a region of Project3/allocator.c's memory, replaced by cells that fill the same range.
use cs.Common.{
  ℕ, ◌+◌, ◌≤◌, ◌<◌, ◌≡◌, ap, ◌∙◌, ◌⊎◌, some, List, [], ◌∷◌, ◌++◌, All, All-append, All-left,
  All-right, All-mono, arith,
}
use mathlib.Core.List.{append_assoc}
use cs.Allocator.Heap.{MemBlock}
use cs.Allocator.Regions.{
  Cell, Region, region, span, first, link, block, cell_blocks, blocks, Stored, CellOk, IsValid,
  span-append, cell_blocks-append, blocks-append, Outside, cell_blocks-Inside,
}
use cs.Allocator.Frame.{
  Headers, SameOutside, Stored-Outside, Around, Around_lem, blocks-Outside, Outside-mono,
}

-- The regions `qs`, one region with the cells `cs`, `c ∷ mid` and `ds`, and the regions `ts`.
abbrev pub around : List Region → ℕ → List Cell → List Cell → List Cell → List Region → List Region
around qs s cs mid ds ts = qs ++ region s (cs ++ (mid ++ ds)) ∷ ts

abbrev outer : List Region → ℕ → ℕ → List Cell → List (ℕ × MemBlock)
outer qs s n cs = blocks qs s ++ cell_blocks s n s cs (s + span cs)

abbrev inner : ℕ → ℕ → ℕ → List Cell → List Region → ℕ → List (ℕ × MemBlock)
inner s n a ds ts stop = cell_blocks s n a ds (first ts stop) ++ blocks ts stop

module _ (qs : List Region) (s : ℕ) (cs : List Cell) (c : Cell) (mid ds : List Cell)
    (ts : List Region) (stop n : ℕ) (total : n ≡ span (cs ++ ((c ∷ mid) ++ ds))) where
  pub blocks-around :
      blocks (around qs s cs (c ∷ mid) ds ts) stop
      ≡ outer qs s n cs
        ++ (cell_blocks s n
              (s + span cs)
              (c ∷ mid)
              (link (s + span cs + span (c ∷ mid)) ds (first ts stop))
            ++ inner s n (s + span cs + span (c ∷ mid)) ds ts stop)
  blocks-around =
      rw
        (
          blocks-append qs (region s (cs ++ ((c ∷ mid) ++ ds)) ∷ ts) stop,
          ← total,
          cell_blocks-append s n s (first ts stop) cs ((c ∷ mid) ++ ds),
          cell_blocks-append s n (s + span cs) (first ts stop) (c ∷ mid) ds,
        )
        (simp append_assoc)

module _ (qs : List Region) (s : ℕ) (cs : List Cell) (c : Cell) (ds : List Cell) (ts : List Region)
    (stop : ℕ) (v : IsValid (around qs s cs (c ∷ []) ds ts)) where
  parts : Around qs (region s (cs ++ (c ∷ [] ++ ds))) ts
  parts = Around_lem qs (region s (cs ++ (c ∷ [] ++ ds))) ts v

  cells_ok : All CellOk cs × All CellOk ((c ∷ []) ++ ds)
  cells_ok = (
    All-left CellOk cs (c ∷ ds) parts.here.cells_ok,
    All-right CellOk cs (c ∷ ds) parts.here.cells_ok,
  )

  total : span (cs ++ ((c ∷ []) ++ ds)) ≡ span cs + (c.size + span ds)
  total = span-append cs (c ∷ ds)

  outer-Outside : (n : ℕ) → Outside (s + span cs) (s + span cs + c.size) (outer qs s n cs)
  outer-Outside n =
      All-append (λ x. (x.0 < s + span cs) ⊎ (s + span cs + c.size ≤ x.0)) (blocks qs s)
        (cell_blocks s n s cs (s + span cs))
        (Outside-mono s (s + span (cs ++ (c ∷ ds))) (s + span cs) (s + span cs + c.size)
          (blocks qs s) (omega arith) (omega (arith, total))
          (blocks-Outside s (span (cs ++ (c ∷ ds))) s qs parts.rs_ok parts.rs_apart))
        (All-mono (λ x. (s ≤ x.0) × (x.0 < s + span cs))
          (λ x. (x.0 < s + span cs) ⊎ (s + span cs + c.size ≤ x.0))
          (cell_blocks s n s cs (s + span cs)) (λ x i. omega arith)
          (cell_blocks-Inside s n s (s + span cs) cs cells_ok.0))

  inner-Outside :
      (n a : ℕ)
      → a ≡ s + span cs + c.size
      → Outside (s + span cs) (s + span cs + c.size) (inner s n a ds ts stop)
  inner-Outside n a e =
      All-append (λ x. (x.0 < s + span cs) ⊎ (s + span cs + c.size ≤ x.0))
        (cell_blocks s n a ds (first ts stop)) (blocks ts stop)
        (All-mono (λ x. (a ≤ x.0) × (x.0 < a + span ds))
          (λ x. (x.0 < s + span cs) ⊎ (s + span cs + c.size ≤ x.0))
          (cell_blocks s n a ds (first ts stop)) (λ x i. omega arith)
          (cell_blocks-Inside s n a (first ts stop) ds cells_ok.1.1))
        (Outside-mono s (s + span (cs ++ (c ∷ ds))) (s + span cs) (s + span cs + c.size)
          (blocks ts stop) (omega arith) (omega (arith, total))
          (blocks-Outside s (span (cs ++ (c ∷ ds))) stop ts parts.qs_ok parts.qs_apart))

  -- A change inside the cell's range that leaves headers for the new cells there.
  pub Stored-replace :
      (h g : Headers) (c' : Cell) (mid : List Cell) (n : ℕ)
      → n ≡ span (cs ++ ((c ∷ []) ++ ds))
      → span (c' ∷ mid) ≡ c.size
      → SameOutside (s + span cs) (s + span cs + c.size) h g
      → Stored g (
          cell_blocks s n
            (s + span cs)
            (c' ∷ mid)
            (link (s + span cs + span (c' ∷ mid)) ds (first ts stop)))
      → Stored h (blocks (around qs s cs (c ∷ []) ds ts) stop)
      → Stored g (blocks (around qs s cs (c' ∷ mid) ds ts) stop)
  Stored-replace h g c' mid n e f same new st =
      let P = λ (x : ℕ × MemBlock). h x.0 ≡ some x.1 in
      let Q = λ (x : ℕ × MemBlock). g x.0 ≡ some x.1 in
      let a = s + span cs + span (c ∷ []) in
      let b = s + span cs + span (c' ∷ mid) in
      let old = cell_blocks s n (s + span cs) (c ∷ []) (link a ds (first ts stop)) in
      let st' = rw (blocks-around qs s cs c [] ds ts stop n e) at st in
      let out = All-left P (outer qs s n cs) (old ++ inner s n a ds ts stop) st' in
      let inn =
        All-right P old (inner s n a ds ts stop)
          (All-right P (outer qs s n cs) (old ++ inner s n a ds ts stop) st') in
      let fresh = cell_blocks s n (s + span cs) (c' ∷ mid) (link b ds (first ts stop)) in
      let same_end : a ≡ b = omega arith in
      let inn' : Stored h (inner s n b ds ts stop) = rw (← same_end) inn in
      let e' : n ≡ span (cs ++ ((c' ∷ mid) ++ ds)) = omega (
        arith,
        span-append cs ((c ∷ []) ++ ds),
        span-append cs ((c' ∷ mid) ++ ds),
        span-append (c' ∷ mid) ds,
      ) in
      rw (blocks-around qs s cs c' mid ds ts stop n e') (
        All-append Q (outer qs s n cs) _
          (Stored-Outside h g _ _ same (outer qs s n cs) (outer-Outside n) out)
          (All-append Q fresh (inner s n b ds ts stop) new (
            Stored-Outside h g _ _ same (inner s n b ds ts stop) (inner-Outside n b (omega arith))
              inn')))

  -- The cell's header, as the chain stores it.
  pub Stored-here :
      (h : Headers) (n : ℕ)
      → n ≡ span (cs ++ ((c ∷ []) ++ ds))
      → Stored h (blocks (around qs s cs (c ∷ []) ds ts) stop)
      → h (s + span cs) ≡ some (block s n c (link (s + span cs + c.size) ds (first ts stop)))
  Stored-here h n e st =
      let a = s + span cs + span (c ∷ []) in
      let at =
        (All-right (λ x. h x.0 ≡ some x.1) (outer qs s n cs)
          (cell_blocks s n (s + span cs) (c ∷ []) (link a ds (first ts stop))
            ++ inner s n a ds ts stop)
          (rw (blocks-around qs s cs c [] ds ts stop n e) at st)).0 in
      let plus : a ≡ s + span cs + c.size = omega arith in
      at ∙ ap (λ x. some (block s n c (link x ds (first ts stop)))) plus
