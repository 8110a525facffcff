-- ===== src/Allocator/Grow.antt =====
-- `grow`, the part of `malloc` in Project3/allocator.c that maps a new region, and `malloc` as a whole.
use cs.Common.{
  ℕ, ◌+◌, ◌*◌, ◌/◌, ◌%◌, ◌≤◌, ◌<◌, ◌≡◌, ◌≢◌, refl, ap, sym, ◌∙◌, ◌⊎◌, inl, inr, none, some, List,
  [], ◌∷◌, ◌++◌, All, All-append, All-mono, arith, ◌==◌, ==_ne, length, Bool-cases, word, word_mod,
}
use native.Mathlib.Nat.{div-add-mod', div-le_self, mod-lt, mul-mod_left}
use cs.Allocator.{deliver, grow, pages, region_size_for, link_last}
use cs.Allocator.Heap.{MemBlock, Memory, Env, ok, null, header_size, next_id, real_size, write}
use cs.Allocator.Regions.{
  Region, cell, region, span, first, block, blocks, Stored, Apart, IsValid, blocks-append, Linked,
  first-append,
}
use cs.Allocator.Frame.{Headers, Stored-Outside, IsValid-oks, blocks-Outside}
use cs.Allocator.Links.{blocks-Linked}
use cs.Allocator.Relink.{
  last, with_next, blocks-relink, blocks-head, blocks-Distinct, Stored-relink, append_lem, All-last,
}
use cs.Allocator.Spec.{Alloc, Adds, Alloc-IsValid}
use cs.Allocator.Malloc.{Holds, Made, Made-deliver, counted}

-- What `mmap` is relied on for: the range that it returns is not null, ends within the address space,
-- and meets no region of the chain.
pub record MapsFresh (env : Env) (rs : List Region) : Type 0 where
  pub fresh :
      (n q : ℕ)
      → env.mmap n ≡ some q
      → (0 < q)
        × (q + n < word_mod)
        × All (λ r. (q + n ≤ r.start) ⊎ (r.start + span r.cells ≤ q)) rs

-- A request whose size does not wrap around on its way to a whole number of pages.
pub record Moderate (env : Env) (size : ℕ) : Type 0 where
  pub paged : 0 < env.page_size
  pub bounded : size + header_size + env.page_size < word_mod

pages_lem :
    (real page : ℕ)
    → 0 < page
    → real + page < word_mod
    → (real ≤ pages real page * page) × (pages real page * page < real + page)
unfolding pages
pages_lem real page h b =
    let e = div-add-mod' real page in
    let l = mod-lt real h in
    let q = real / page in
    let w : word (q + 1) ≡ q + 1 = omega (arith, div-le_self real page) in
    elim (Bool-cases (real % page == 0)) [
      | inl z ↦ rw z (ground (arith, e, l), ground (arith, e, l))
      | inr z ↦ rw (z, w) (ground (arith, e, l), ground (arith, e, l))
    ]

-- For a size that does not wrap around on its way to whole pages, a new region has room for the payload
-- and its header, is less than a page larger than that, and is a whole number of pages.
pub region_size_lem :
    (env : Env) (size : ℕ)
    → Moderate env size
    → (size + header_size ≤ region_size_for env size)
      × (region_size_for env size < size + header_size + env.page_size)
      × (region_size_for env size % env.page_size ≡ 0)
unfolding region_size_for
region_size_lem env size h =
    let page = env.page_size in
    let real : real_size size ≡ size + header_size = omega (arith, h.bounded) in
    let (enough, tight) = pages_lem (size + header_size) page h.paged h.bounded in
    let w : word (pages (size + header_size) page * page) ≡ pages (size + header_size) page * page =
      omega (arith, h.bounded) in
    rw (real, w) (enough, tight, mul-mod_left (pages (size + header_size) page) page)

-- The chain with one more region behind it, as `link_last` leaves it.
linked_last :
    (fuel q : ℕ) (b : MemBlock) (rs : List Region) (m : Memory)
    → IsValid rs
    → Stored m.headers (blocks rs null)
    → m.g_head ≡ first rs null
    → length (blocks rs null) < fuel
    → m.headers q ≡ some b
    → All (λ x. x.0 ≢ q) (blocks rs null)
    → (h : Headers) × (p : ℕ) × (link_last fuel q m.g_head m
        ≡ ok tt (record m { headers = h; g_head = p }))
      × Stored h (blocks rs q)
      × (h q ≡ some b)
      × (p ≡ first rs q)
unfolding link_last
linked_last fuel q b [] m v st e k at out = (m.headers, q, rw e refl, tt, at, refl)
linked_last fuel q b (r ∷ rs) m v st e k at out =
    let oks = IsValid-oks (r ∷ rs) v in
    let (x, xs, f) = blocks-head r rs null v.0 in
    let lk : Linked m.g_head (x ∷ xs) null = rw e (rw f at (blocks-Linked (r ∷ rs) null oks)) in
    let h = write m.headers (last x xs).0 (with_next (last x xs) q).1 in
    (
      h,
      m.g_head,
      rw (==_ne m.g_head null lk.1) (append_lem fuel q m.g_head x xs m lk (rw f at st) (rw f at k)),
      rw (blocks-relink (r ∷ rs) null q oks, f)
          (Stored-relink m.headers x xs q (rw f at (blocks-Distinct (r ∷ rs) null v)) (rw f at st)),
      rw (==_ne q (last x xs).0 (λ d. All-last (λ y. y.0 ≢ q) x xs (rw f at out) (sym d))) at,
      e,
    )

-- `malloc` was refused: no block of the chain serves, `mmap` failed, and nothing changed.
pub record Refused (env : Env) (size : ℕ) (m : Memory) (ret : ℕ) (m' : Memory) : Type 0 where
  pub failed : env.mmap (region_size_for env size) ≡ none
  pub at_null : ret ≡ null
  pub same : m' ≡ m

-- `grow` up to the delivery, with what `link_last` leaves.
grow_run :
    (env : Env) (fuel size : ℕ) (m : Memory) (q : ℕ) (h : Headers) (p : ℕ)
    → env.mmap (region_size_for env size) ≡ some q
    → real_size size ≡ size + header_size
    → link_last fuel q m.g_head (
        counted m
          (write m.headers q (
            block q
              (region_size_for env size)
              (cell m.g_allocations (region_size_for env size) (size + header_size))
              null))
          m.g_head)
      ≡ ok tt (counted m h p)
    → grow env fuel size m ≡ deliver env size q (counted m h p)
unfolding grow next_id
grow_run env fuel size m q h p at real e = rw (at, grow, real, e) refl

module _ (env : Env) (fuel size : ℕ) (m : Memory) (rs : List Region) (hold : Holds m rs)
    (maps : MapsFresh env rs) (mod_size : Moderate env size)
    (enough : length (blocks rs null) < fuel) where
  pub grow_mapped :
      (q : ℕ)
      → env.mmap (region_size_for env size) ≡ some q
      → (ret : ℕ) × (m' : Memory) × (grow env fuel size m ≡ ok ret m')
        × (made : Made env size m rs ret m') × Adds (region_size_for env size) made.step
        × (made.q ≡ q)
  unfolding grow next_id
  grow_mapped q at =
      let n = region_size_for env size in
      let id = m.g_allocations in
      let real : real_size size ≡ size + header_size = omega (arith, mod_size.bounded) in
      let new = cell id n (size + header_size) in
      let b = block q n new null in
      let (pos, below, apart) = maps.fresh n q at in
      let (fits, tight, whole) = region_size_lem env size mod_size in
      let out = blocks-Outside q n null rs (IsValid-oks rs hold.valid) apart in
      let h1 = write m.headers q b in
      let st1 =
        Stored-Outside m.headers h1 q (q + n) (λ a o. ground arith) (blocks rs null) out
          hold.stored in
      let m1 = counted m h1 m.g_head in
      let apart' =
        All-mono (λ r. (q + n ≤ r.start) ⊎ (r.start + span r.cells ≤ q))
          (Apart (region q (new ∷ []))) rs (λ r a. omega arith) apart in
      let step : Alloc id (size + header_size) rs (rs ++ region q (new ∷ []) ∷ []) q =
        Alloc.grow n refl pos below fits apart' in
      let (h, p, e, st, kept, first_eq) =
        linked_last fuel q b rs m1 hold.valid st1 hold.head enough (ground arith) (
          All-mono (λ x. (x.0 < q) ⊎ (q + n ≤ x.0)) (λ x. x.0 ≢ q) (blocks rs null)
            (λ x o. omega arith) out) in
      let plus : n ≡ n + 0 = omega arith in
      let start : grow env fuel size m ≡ deliver env size q (counted m h p) =
        grow_run env fuel size m q h p at real e in
      let (ret, m', run, made, adds) =
        (Made-deliver env size q p h m rs (rs ++ region q (new ∷ []) ∷ [])
          (λ xs x a. Adds n a × (x ≡ q)) (omega arith) step (refl, refl)
          (Alloc-IsValid id (size + header_size) rs _ q (omega arith) hold.valid step)
          (rw (blocks-append rs (region q (new ∷ []) ∷ []) null) (
            All-append (λ x. h x.0 ≡ some x.1) (blocks rs q) _ st
              (kept ∙ ap (λ x. some (block q x new null)) plus, tt)))
          (first_eq ∙ sym (first-append rs (region q (new ∷ []) ∷ []) null))) in
      (ret, m', start ∙ run, made, adds.0, adds.1)
