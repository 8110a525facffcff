-- ===== src/Allocator/Safety.antt =====
-- What callers of Project3/allocator.c rely on, said of the blocks in use by their addresses.
use cs.Common.{
  ℕ, ◌+◌, ◌≤◌, ◌<◌, ◌≡◌, ◌≢◌, refl, ap, ◌⊎◌, inl, inr, List, [], ◌∷◌, ◌++◌, arith, ◌==◌, length,
  Bool-cases,
}
use cs.Allocator.{malloc, free}
use cs.Allocator.Heap.{Memory, Env, ok, null, header_size, align}
use cs.Allocator.Regions.{Cell, Region, region, span, blocks, IsValid}
use cs.Allocator.Replace.{around}
use cs.Allocator.Spec.{Updated, Alloc-Updated, Release-Updated}
use cs.Allocator.Used.{used, used_cells}
use cs.Allocator.Malloc.{Holds, Made, Delivered}
use cs.Allocator.Grow.{MapsFresh, Moderate}
use cs.Allocator.Serve.{Served, malloc-Served}
use cs.Allocator.Free.{Freed, free_lem}
use cs.Allocator.Disjoint.{used_disjoint}

record InUse (rs : List Region) (p : ℕ) : Type 0 where
  qs : List Region
  s : ℕ
  cs : List Cell
  c : Cell
  ds : List Cell
  ts : List Region
  whole : rs ≡ around qs s cs (c ∷ []) ds ts
  here : p ≡ s + span cs

row_in_use :
    (a p : ℕ) (row : List Cell)
    → used_cells a row p ≢ 0
    → (cs : List Cell) × (c : Cell) × (ds : List Cell) × (row ≡ cs ++ c ∷ ds) × (p ≡ a + span cs)
row_in_use a p [] h = absurd (h refl)
row_in_use a p (c ∷ row) h = elim (Bool-cases (a == p)) [
  | inl e ↦ ([], c, row, refl, ground arith)
  | inr e ↦
      let (cs, d, ds, whole, here) =
        row_in_use (a + c.size) p row (λ z. h (rw e (omega (arith, z)))) in
      (c ∷ cs, d, ds, ap (λ x. c ∷ x) whole, omega (arith, here))
]

in_use : (rs : List Region) (p : ℕ) → used rs p ≢ 0 → InUse rs p
in_use [] p h = absurd (h refl)
in_use (r ∷ rs) p h = elim (Bool-cases (used_cells r.start r.cells p == 0)) [
  | inl z ↦
      let f = in_use rs p (ground arith) in
      record {
        qs = r ∷ f.qs;
        s = f.s;
        cs = f.cs;
        c = f.c;
        ds = f.ds;
        ts = f.ts;
        whole = ap (λ x. r ∷ x) f.whole;
        here = f.here;
      }
  | inr z ↦
      let (cs, c, ds, whole, here) = row_in_use r.start p r.cells (ground arith) in
      record {
        qs = [];
        s = r.start;
        cs = cs;
        c = c;
        ds = ds;
        ts = rs;
        whole = ap (λ x. region r.start x ∷ rs) whole;
        here = here;
      }
]

-- What a caller of `malloc` gets besides the address: nothing was in use there, the aligned size and a
-- header now are, no other block changes, and only the payload is written.
pub record Granted (env : Env) (size : ℕ) (m : Memory) (rs : List Region) (ret : ℕ) (m' : Memory)
    : Type 0 where
  pub rs' : List Region
  pub q : ℕ
  pub at_payload : ret ≡ q + header_size
  pub holds : Holds m' rs'
  pub unused : used rs q ≡ 0
  pub updated : Updated rs rs' q (size + header_size)
  pub bytes : Delivered env size ret m m'

Made-Granted :
    (env : Env) (size : ℕ) (m : Memory) (rs : List Region) (ret : ℕ) (m' : Memory)
    → IsValid rs
    → Made env size m rs ret m'
    → Granted env size m rs ret m'
Made-Granted env size m rs ret m' v a =
    let (unused, updated) =
      Alloc-Updated m.g_allocations (size + header_size) rs a.rs' a.q (omega arith) v a.step in
    record {
      rs' = a.rs';
      q = a.q;
      at_payload = a.at_payload;
      holds = a.holds;
      unused = unused;
      updated = updated;
      bytes = a.bytes;
    }

Served-Granted :
    (env : Env) (size : ℕ) (m : Memory) (rs : List Region) (ret : ℕ) (m' : Memory)
    → IsValid rs
    → Served env size m rs ret m'
    → ((ret ≡ null) × (m' ≡ m)) ⊎ Granted env size m rs ret m'
Served-Granted env size m rs ret m' v (Served.reused r p ne a w) =
    inr (Made-Granted env size m rs ret m' v a)
Served-Granted env size m rs ret m' v (Served.grown p a w e) =
    inr (Made-Granted env size m rs ret m' v a)
Served-Granted env size m rs ret m' v (Served.refused p f) = inl (f.at_null, f.same)

-- On a memory whose chain is that of valid regions, with fuel for its blocks, where `mmap` returns
-- ranges that meet no region and the aligned size does not wrap around on its way to whole pages,
-- `malloc` returns, and either gives NULL and leaves the memory as it was, or grants a block in a
-- memory that again holds valid regions, as `Granted` says: a block that was not in use is now in use
-- with the aligned size, and no other block in use changes.
pub malloc-Granted :
    (env : Env) (fuel request : ℕ) (m : Memory) (rs : List Region)
    → Holds m rs
    → MapsFresh env rs
    → Moderate env (align request)
    → length (blocks rs null) < fuel
    → (ret : ℕ) × (m' : Memory) × (malloc env fuel request m ≡ ok ret m')
      × (((ret ≡ null) × (m' ≡ m)) ⊎ Granted env (align request) m rs ret m')
malloc-Granted env fuel request m rs hold maps moderate enough =
    let (ret, m', run, served) = malloc-Served env fuel request m rs hold maps moderate enough in
    (ret, m', run, Served-Granted env (align request) m rs ret m' hold.valid served)

-- `free` of a block in use.
pub record Returned (m : Memory) (rs : List Region) (p : ℕ) (m' : Memory) : Type 0 where
  pub rs' : List Region
  pub holds : Holds m' rs'
  pub updated : Updated rs rs' p 0
  pub bytes : m'.bytes ≡ m.bytes

-- On a memory whose chain is that of valid regions, with fuel for its blocks, `free` of the payload of
-- a block in use returns as `Freed` says: with the block marked free and every other header as it was,
-- or, when that leaves its region without blocks in use, with the region taken out of the chain and
-- unmapped: if `munmap` succeeds, no header is left in its range.
pub free-Freed :
    (env : Env) (fuel p : ℕ) (m : Memory) (rs : List Region)
    → Holds m rs
    → used rs p ≢ 0
    → length (blocks rs null) < fuel
    → (m' : Memory) × (free env fuel (p + header_size) m ≡ ok tt m') × Freed env m rs p m'
free-Freed env fuel p m rs hold h enough =
    let f = in_use rs p h in
    rw (f.here, f.whole)
      (free_lem env fuel m f.qs f.s f.cs f.c f.ds f.ts (rw (← f.whole) hold) (rw f.whole at enough))

-- On a memory whose chain is that of valid regions, with fuel for its blocks, `free` of the payload of
-- a block in use returns, and its memory holds valid regions in which that block is not in use and
-- every other block in use is as it was.
pub free-Returned :
    (env : Env) (fuel p : ℕ) (m : Memory) (rs : List Region)
    → Holds m rs
    → used rs p ≢ 0
    → length (blocks rs null) < fuel
    → (m' : Memory) × (free env fuel (p + header_size) m ≡ ok tt m') × Returned m rs p m'
free-Returned env fuel p m rs hold h enough =
    let (m', run, f) = free-Freed env fuel p m rs hold h enough in
    (
      m',
      run,
      record {
        rs' = f.rs';
        holds = f.holds;
        updated = Release-Updated rs f.rs' p hold.valid f.step;
        bytes = f.bytes;
      },
    )

-- On a memory whose chain is that of valid regions, with fuel for its blocks, where `mmap` returns
-- ranges that meet no region and the aligned size does not wrap around on its way to whole pages,
-- `malloc` returns, and its result is NULL or a payload of the aligned size which, with its header,
-- meets no block that was in use before the call.
pub malloc_disjoint :
    (env : Env) (fuel request : ℕ) (m : Memory) (rs : List Region) (y : ℕ)
    → Holds m rs
    → MapsFresh env rs
    → Moderate env (align request)
    → length (blocks rs null) < fuel
    → used rs y ≢ 0
    → (ret : ℕ) × (m' : Memory) × (malloc env fuel request m ≡ ok ret m')
      × ((ret ≡ null) ⊎ ((y + used rs y + header_size ≤ ret) ⊎ (ret + align request ≤ y)))
malloc_disjoint env fuel request m rs y hold maps moderate enough h =
    let (ret, m', run, out) = malloc-Granted env fuel request m rs hold maps moderate enough in
    (
      ret,
      m',
      run,
      elim out [
        | inl (e, _) ↦ inl e
        | inr g ↦ ground (
          arith,
          g.at_payload,
          g.unused,
          g.updated g.q,
          g.updated y,
          used_disjoint g.rs' g.q y g.holds.valid,
          used_disjoint g.rs' y g.q g.holds.valid,
        )
      ],
    )
