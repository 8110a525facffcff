-- ===== src/Allocator/Regions.antt =====
-- The chain of Project3/allocator.c as the regions that it stands for: each mapped region is a row of
-- cells, one behind the other, and every header field is computed from that.
use cs.Common.{
  ℕ, ◌+◌, ◌≤◌, ◌<◌, ◌≡◌, ◌≢◌, refl, ap, ◌⊎◌, some, Option, List, [], ◌∷◌, ◌++◌, All, All-mono,
  arith, length, length-append, suc, word_mod,
}
use mathlib.Core.List.{append_assoc}
use cs.Allocator.Heap.{MemBlock, null, header_size}

pub record Cell : Type 0 where
  pub id : ℕ
  pub size : ℕ
  pub usage : ℕ

pub record Region : Type 0 where
  pub start : ℕ
  pub cells : List Cell

abbrev pub cell : ℕ → ℕ → ℕ → Cell
cell i n u = record { id = i; size = n; usage = u }

abbrev pub region : ℕ → List Cell → Region
region s cs = record { start = s; cells = cs }

abbrev pub span : List Cell → ℕ
span [] = 0
span (c ∷ cs) = c.size + span cs

-- Where the chain goes on: at the first region, or where these regions stop.
abbrev pub first : List Region → ℕ → ℕ
first [] stop = stop
first (r ∷ rs) stop = r.start

abbrev pub link : ℕ → List Cell → ℕ → ℕ
link a [] stop = stop
link a (c ∷ cs) stop = a

abbrev pub block : ℕ → ℕ → Cell → ℕ → MemBlock
block s n c q = record {
  alloc_id = c.id;
  size = c.size;
  usage = c.usage;
  region_start = s;
  region_size = n;
  next = q;
}

-- The headers of a row of cells at `a`, in the region of `n` bytes at `s`.
abbrev pub cell_blocks : ℕ → ℕ → ℕ → List Cell → ℕ → List (ℕ × MemBlock)
cell_blocks s n a [] stop = []
cell_blocks s n a (c ∷ cs) stop =
    (a, block s n c (link (a + c.size) cs stop)) ∷ cell_blocks s n (a + c.size) cs stop

abbrev pub region_blocks : Region → ℕ → List (ℕ × MemBlock)
region_blocks r stop = cell_blocks r.start (span r.cells) r.start r.cells stop

abbrev pub blocks : List Region → ℕ → List (ℕ × MemBlock)
blocks [] stop = []
blocks (r ∷ rs) stop = region_blocks r (first rs stop) ++ blocks rs stop

abbrev pub Stored : (ℕ → Option MemBlock) → List (ℕ × MemBlock) → Type 0
Stored h = All (λ x. h x.0 ≡ some x.1)

-- The `next` pointers lead from `p` through these headers to `stop`.
abbrev pub Linked : ℕ → List (ℕ × MemBlock) → ℕ → Type 0
Linked p [] stop = p ≡ stop
Linked p (x ∷ xs) stop = (p ≡ x.0) × (p ≢ null) × Linked x.1.next xs stop

-- A used cell holds its header; a free one has usage 0.
pub record CellOk (c : Cell) : Type 0 where
  pub wide : header_size ≤ c.size
  pub within : c.usage ≤ c.size
  pub used : (c.usage ≡ 0) ⊎ (header_size ≤ c.usage)

pub record RegionOk (r : Region) : Type 0 where
  pub mapped : 0 < r.start
  pub bounded : r.start + span r.cells < word_mod
  pub filled : r.cells ≢ []
  pub cells_ok : All CellOk r.cells

-- Two ranges that do not meet.
abbrev pub Apart : Region → Region → Type 0
Apart r q = (r.start + span r.cells ≤ q.start) ⊎ (q.start + span q.cells ≤ r.start)

abbrev pub IsValid : List Region → Type 0
IsValid [] = Unit {0}
IsValid (r ∷ rs) = RegionOk r × All (Apart r) rs × IsValid rs

pub span-append : (cs ds : List Cell) → span (cs ++ ds) ≡ span cs + span ds
span-append [] ds = omega arith
span-append (c ∷ cs) ds = omega (arith, span-append cs ds)

pub link-append :
    (a stop : ℕ) (cs ds : List Cell)
    → link a (cs ++ ds) stop ≡ link a cs (link (a + span cs) ds stop)
link-append a stop [] ds = ap (λ x. link x ds stop) (omega arith)
link-append a stop (c ∷ cs) ds = refl

pub cell_blocks-append :
    (s n a stop : ℕ) (cs ds : List Cell)
    → cell_blocks s n a (cs ++ ds) stop
      ≡ cell_blocks s n a cs (link (a + span cs) ds stop) ++ cell_blocks s n (a + span cs) ds stop
cell_blocks-append s n a stop [] ds = ap (λ x. cell_blocks s n x ds stop) (omega arith)
cell_blocks-append s n a stop (c ∷ cs) ds =
    let e : a + c.size + span cs ≡ a + (c.size + span cs) = omega arith in
    rw (cell_blocks-append s n (a + c.size) stop cs ds, link-append (a + c.size) stop cs ds, e) refl

pub first-append :
    (rs qs : List Region) (stop : ℕ) → first (rs ++ qs) stop ≡ first rs (first qs stop)
first-append [] qs stop = refl
first-append (r ∷ rs) qs stop = refl

pub blocks-append :
    (rs qs : List Region) (stop : ℕ)
    → blocks (rs ++ qs) stop ≡ blocks rs (first qs stop) ++ blocks qs stop
blocks-append [] qs stop = refl
blocks-append (r ∷ rs) qs stop =
    rw (blocks-append rs qs stop, first-append rs qs stop) (rw (append_assoc) refl)

-- Addresses outside a range.
abbrev pub Outside : ℕ → ℕ → List (ℕ × MemBlock) → Type 0
Outside lo hi = All (λ x. (x.0 < lo) ⊎ (hi ≤ x.0))

abbrev pub Inside : ℕ → ℕ → List (ℕ × MemBlock) → Type 0
Inside lo hi = All (λ x. (lo ≤ x.0) × (x.0 < hi))

pub cell_blocks-Inside :
    (s n a stop : ℕ) (cs : List Cell)
    → All CellOk cs
    → Inside a (a + span cs) (cell_blocks s n a cs stop)
cell_blocks-Inside s n a stop [] h = tt
cell_blocks-Inside s n a stop (c ∷ cs) h = (
  (omega arith, omega (arith, h.0.wide)),
  All-mono _ _ (cell_blocks s n (a + c.size) cs stop) (λ x i. omega arith)
      (cell_blocks-Inside s n (a + c.size) stop cs h.1),
)

-- As many headers as cells.
abbrev pub cell_count : List Region → ℕ
cell_count [] = 0
cell_count (r ∷ rs) = length r.cells + cell_count rs

length-cell_blocks :
    (s n a stop : ℕ) (cs : List Cell) → length (cell_blocks s n a cs stop) ≡ length cs
length-cell_blocks s n a stop [] = refl
length-cell_blocks s n a stop (c ∷ cs) = ap suc (length-cell_blocks s n (a + c.size) stop cs)

pub length-blocks : (rs : List Region) (stop : ℕ) → length (blocks rs stop) ≡ cell_count rs
length-blocks [] stop = refl
length-blocks (r ∷ rs) stop = omega (
  arith,
  length-append (region_blocks r (first rs stop)) (blocks rs stop),
  length-cell_blocks r.start (span r.cells) r.start (first rs stop) r.cells,
  length-blocks rs stop,
)

pub cell_count-append :
    (rs qs : List Region) → cell_count (rs ++ qs) ≡ cell_count rs + cell_count qs
cell_count-append [] qs = omega arith
cell_count-append (r ∷ rs) qs = omega (arith, cell_count-append rs qs)
