-- ===== src/Allocator/Links.antt =====
-- The `next` pointers of Project3/allocator.c's chain, and reads along it.
use cs.Common.{ℕ, ◌+◌, ◌<◌, ◌≡◌, ◌≢◌, refl, ◌⊎◌, some, List, [], ◌∷◌, ◌++◌, All, arith, ==_ne}
use cs.Allocator.Heap.{MemBlock, Memory, ok, null, load}
use cs.Allocator.Regions.{
  Cell, Region, first, link, span, cell_blocks, region_blocks, blocks, Linked, RegionOk,
}

pub Linked-append :
    (p q r : ℕ) (xs ys : List (ℕ × MemBlock))
    → Linked p xs q
    → Linked q ys r
    → Linked p (xs ++ ys) r
Linked-append p q r [] ys h k = rw h k
Linked-append p q r (x ∷ xs) ys h k = (h.0, h.1, Linked-append x.1.next q r xs ys h.2 k)

pub link_start : (a stop : ℕ) (cs : List Cell) → cs ≢ [] → link a cs stop ≡ a
link_start a stop [] h = absurd (h refl)
link_start a stop (c ∷ cs) h = refl

pub cell_blocks-Linked :
    (s n a stop : ℕ) (cs : List Cell)
    → 0 < a
    → Linked (link a cs stop) (cell_blocks s n a cs stop) stop
cell_blocks-Linked s n a stop [] h = refl
cell_blocks-Linked s n a stop (c ∷ cs) h =
    (refl, omega arith, cell_blocks-Linked s n (a + c.size) stop cs (omega arith))

pub blocks-Linked :
    (rs : List Region) (stop : ℕ) → All RegionOk rs → Linked (first rs stop) (blocks rs stop) stop
blocks-Linked [] stop k = refl
blocks-Linked (r ∷ rs) stop k =
    let row =
      cell_blocks-Linked r.start (span r.cells) r.start (first rs stop) r.cells k.0.mapped in
    Linked-append r.start (first rs stop) stop (region_blocks r (first rs stop)) (blocks rs stop)
      (rw (link_start r.start (first rs stop) r.cells k.0.filled) at row)
      (blocks-Linked rs stop k.1)

pub load-ok :
    (p : ℕ) (b : MemBlock) (m : Memory) → p ≢ null → m.headers p ≡ some b → load p m ≡ ok b m
unfolding load
load-ok p b m h e = rw (==_ne p null h, e) refl

-- Membership that tactics can take apart.
abbrev pub In : {A : Type 0} → A → List A → Type 0
In x [] = ⊥
In x (y ∷ ys) = (x ≡ y) ⊎ In x ys
