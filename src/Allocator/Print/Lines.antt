-- ===== src/Allocator/Print/Lines.antt =====
-- What `print_memory` of Project3/allocator.c shows of a chain of regions.
use cs.Common.{
  ℕ, zero, suc, ◌+◌, ◌≡◌, ◌≢◌, ◌<◌, refl, ap, ◌∙◌, true, false, Option, some, List, [], ◌∷◌, ◌++◌,
  All, All-append, All-left, All-right, length, ◌==◌, ==_ne, if◌then◌else◌, word, Bool-cases, inl,
  inr, arith,
}
use cs.Allocator.Heap.{MemBlock, Memory, ok, null}
use cs.Allocator.Regions.{
  Cell, Region, span, first, link, block, cell_blocks, region_blocks, blocks, Stored, Linked,
  CellOk, RegionOk, Apart, IsValid,
}
use cs.Allocator.Links.{blocks-Linked, load-ok}
use cs.Allocator.Frame.{IsValid-oks}
use cs.Allocator.Malloc.{Holds}
use cs.Allocator.Print.{
  MemoryLine, region_line, block_line, payload, show_block, show_region, show_from, print_memory,
}

abbrev pub cell_lines : ℕ → List Cell → List MemoryLine
cell_lines a [] = []
cell_lines a (c ∷ cs) =
    block_line a (word (a + c.size)) c.id c.size c.usage (payload c.usage)
    ∷ cell_lines (a + c.size) cs

-- A line for each region, and then one for each of its cells.
abbrev pub lines_of : List Region → List MemoryLine
lines_of [] = []
lines_of (r ∷ rs) =
    region_line r.start (word (r.start + span r.cells)) (span r.cells)
    ∷ (cell_lines r.start r.cells ++ lines_of rs)

abbrev header_of : ℕ → MemBlock → List MemoryLine
header_of current b =
    if b.region_start == current
    then []
    else (region_line b.region_start (word (b.region_start + b.region_size)) b.region_size ∷ [])

abbrev chain_lines : ℕ → List (ℕ × MemBlock) → List MemoryLine
chain_lines current [] = []
chain_lines current (x ∷ xs) =
    header_of current x.1 ++ show_block x.0 x.1 ∷ chain_lines x.1.region_start xs

-- The header at the start of the region of a block says what the block says of the region.
record Headed (h : ℕ → Option MemBlock) (b : MemBlock) : Type 0 where
  head : MemBlock
  there : h b.region_start ≡ some head
  mapped : b.region_start ≢ null
  same_size : head.region_size ≡ b.region_size

show_region-ok :
    (current : ℕ) (b : MemBlock) (m : Memory)
    → Headed m.headers b
    → show_region current b.region_start m ≡ ok (header_of current b) m
unfolding show_region
show_region-ok current b m h = elim (Bool-cases (b.region_start == current)) [
  | inl same ↦ rw same refl
  | inr other ↦ rw (other, load-ok b.region_start h.head m h.mapped h.there, h.same_size) refl
]

show_from-ok :
    (k p current : ℕ) (m : Memory) (xs : List (ℕ × MemBlock))
    → Linked p xs null
    → Stored m.headers xs
    → All (λ x. Headed m.headers x.1) xs
    → length xs < k
    → show_from k p current m ≡ ok (chain_lines current xs) m
unfolding show_from
show_from-ok zero p current m xs l st h fuel = absurd (omega arith)
show_from-ok (suc k) p current m [] l st h fuel =
    let e : (p == null) ≡ true = ground (arith, l) in rw e refl
show_from-ok (suc k) p current m (x ∷ xs) l st h fuel =
    let ne : (p == null) ≡ false = ==_ne p null l.1 in
    rw
      (
        ne,
        load-ok p x.1 m l.1 (ap m.headers l.0 ∙ st.0),
        show_region-ok current x.1 m h.0,
        show_from-ok k x.1.next x.1.region_start m xs l.2 st.1 h.1 (omega arith),
        l.0,
      )
      refl

cell_blocks-Headed :
    (h : ℕ → Option MemBlock) (s n a : ℕ) (cs : List Cell) (stop : ℕ) (head : MemBlock)
    → h s ≡ some head
    → s ≢ null
    → head.region_size ≡ n
    → All (λ x. Headed h x.1) (cell_blocks s n a cs stop)
cell_blocks-Headed h s n a [] stop head e ne size = tt
cell_blocks-Headed h s n a (c ∷ cs) stop head e ne size = (
  record { head = head; there = e; mapped = ne; same_size = size },
  cell_blocks-Headed h s n (a + c.size) cs stop head e ne size,
)

region-Headed :
    (h : ℕ → Option MemBlock) (s n : ℕ) (cs : List Cell) (stop : ℕ)
    → 0 < s
    → Stored h (cell_blocks s n s cs stop)
    → All (λ x. Headed h x.1) (cell_blocks s n s cs stop)
region-Headed h s n [] stop pos st = tt
region-Headed h s n (c ∷ cs) stop pos st =
    cell_blocks-Headed h s n s (c ∷ cs) stop (block s n c (link (s + c.size) cs stop)) st.0
      (omega arith) refl

blocks-Headed :
    (h : ℕ → Option MemBlock) (rs : List Region) (stop : ℕ)
    → All RegionOk rs
    → Stored h (blocks rs stop)
    → All (λ x. Headed h x.1) (blocks rs stop)
blocks-Headed h [] stop k st = tt
blocks-Headed h (r ∷ rs) stop k st =
    let here = region_blocks r (first rs stop) in
    All-append _ here (blocks rs stop)
      (region-Headed h r.start (span r.cells) r.cells (first rs stop) k.0.mapped
        (All-left _ here (blocks rs stop) st))
      (blocks-Headed h rs stop k.1 (All-right _ here (blocks rs stop) st))

-- Within a region no header is shown again.
cells_shown :
    (s n a : ℕ) (cs : List Cell) (stop : ℕ) (ys : List (ℕ × MemBlock))
    → chain_lines s (cell_blocks s n a cs stop ++ ys) ≡ cell_lines a cs ++ chain_lines s ys
unfolding show_block
cells_shown s n a [] stop ys = refl
cells_shown s n a (c ∷ cs) stop ys =
    let same : (s == s) ≡ true = ground arith in
    rw (same, cells_shown s n (a + c.size) cs stop ys) refl

region_shown :
    (current s n : ℕ) (cs : List Cell) (stop : ℕ) (ys : List (ℕ × MemBlock))
    → cs ≢ []
    → s ≢ current
    → chain_lines current (cell_blocks s n s cs stop ++ ys)
      ≡ region_line s (word (s + n)) n ∷ (cell_lines s cs ++ chain_lines s ys)
unfolding show_block
region_shown current s n [] stop ys filled ne = absurd (filled refl)
region_shown current s n (c ∷ cs) stop ys filled ne =
    rw (==_ne s current ne, cells_shown s n (s + c.size) cs stop ys) refl

abbrev Others : ℕ → List Region → Type 0
Others current = All (λ q. q.start ≢ current)

nonempty-span : (cs : List Cell) → cs ≢ [] → All CellOk cs → 0 < span cs
nonempty-span [] ne k = absurd (ne refl)
nonempty-span (c ∷ cs) ne k = omega (arith, k.0.wide)

differ : (r q : Region) → 0 < span r.cells → 0 < span q.cells → Apart r q → q.start ≢ r.start
differ r q hr hq (inl before) z = absurd (omega (arith, hr, before, z))
differ r q hr hq (inr behind) z = absurd (omega (arith, hq, behind, z))

-- Regions that do not meet start at different places.
Apart-Others :
    (r : Region) (qs : List Region)
    → RegionOk r
    → All RegionOk qs
    → All (Apart r) qs
    → Others r.start qs
Apart-Others r [] k ks a = tt
Apart-Others r (q ∷ qs) k ks a = (
  differ r q (nonempty-span r.cells k.filled k.cells_ok)
      (nonempty-span q.cells ks.0.filled ks.0.cells_ok) a.0,
  Apart-Others r qs k ks.1 a.1,
)

blocks_shown :
    (current : ℕ) (rs : List Region)
    → IsValid rs
    → Others current rs
    → chain_lines current (blocks rs null) ≡ lines_of rs
blocks_shown current [] v o = refl
blocks_shown current (r ∷ rs) v o =
    region_shown current r.start (span r.cells) r.cells (first rs null) (blocks rs null) v.0.filled
      o.0
    ∙ ap
        (λ z.
          region_line r.start (word (r.start + span r.cells)) (span r.cells)
          ∷ (cell_lines r.start r.cells ++ z))
        (blocks_shown r.start rs v.2 (Apart-Others r rs v.0 (IsValid-oks rs v.2) v.1))

mapped-Others : (rs : List Region) → All RegionOk rs → Others null rs
mapped-Others [] k = tt
mapped-Others (r ∷ rs) k =
    let positive = k.0.mapped in ((λ z. absurd (omega (arith, positive, z))), mapped-Others rs k.1)

-- On a memory whose chain is that of valid regions, with fuel for its blocks, `print_memory` returns,
-- changes nothing, and shows the regions in order: a line for each, with its range and its size, and
-- under it one line for each of its blocks in order, with the range, the identifier, the size, the
-- bytes in use and those of the payload.
pub print_memory_lem :
    (fuel : ℕ) (m : Memory) (rs : List Region)
    → Holds m rs
    → length (blocks rs null) < fuel
    → print_memory fuel m ≡ ok (lines_of rs) m
unfolding print_memory
print_memory_lem fuel m rs hold enough =
    let oks = IsValid-oks rs hold.valid in
    ap (λ p. show_from fuel p null m) hold.head
    ∙ (show_from-ok fuel (first rs null) null m (blocks rs null) (blocks-Linked rs null oks)
          hold.stored (blocks-Headed m.headers rs null oks hold.stored) enough
        ∙ ap (λ z. ok z m) (blocks_shown null rs hold.valid (mapped-Others rs oks)))
