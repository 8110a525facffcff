-- ===== src/Allocator/Serve.antt =====
-- `malloc` of Project3/allocator.c as a whole.
use cs.Common.{
  ℕ, ◌+◌, ◌%◌, ◌≤◌, ◌<◌, ◌≡◌, ◌≢◌, refl, ap, sym, subst, ◌∙◌, inl, inr, some, List, [], ◌∷◌, ◌++◌,
  All-right, arith, ◌==◌, ==_iff, length, Bool-cases, Option-cases, word_mod,
}
use cs.Allocator.{refill, grow, malloc, algorithm_name, region_size_for}
use cs.Allocator.Heap.{MemBlock, Memory, Env, ok, null, header_size, align, real_size, room}
use cs.Allocator.Regions.{Region, region, blocks, Stored, CellOk, span-append}
use cs.Allocator.Frame.{Headers, Around_lem, IsValid-oks}
use cs.Allocator.Replace.{around}
use cs.Allocator.Links.{In, blocks-Linked}
use cs.Allocator.Relink.{Chain}
use cs.Allocator.Spec.{Within, Adds}
use cs.Allocator.Malloc.{Holds, Made, refill_take, refill_split}
use cs.Allocator.Reuse.{Picks, Picks-Reusable, Reusable, policy, reuse-Picks}
use cs.Allocator.Locate.{Located, Located_lem}
use cs.Allocator.Grow.{MapsFresh, Moderate, Refused, grow_mapped}

-- The three ways in which `malloc` ends: the block that the policy picked is taken or split; the policy picked
-- none, and the range that `mmap` gave becomes a region; or `mmap` failed too.
pub data Served (env : Env) (size : ℕ) (m : Memory) (rs : List Region) (ret : ℕ) (m' : Memory)
    : Type 0 where
  reused :
      (r : ℕ)
      → Picks (policy (algorithm_name env.algorithm)) (size + header_size) (blocks rs null) r
      → r ≢ null
      → (made : Made env size m rs ret m') → Within r made.step
      → Served env size m rs ret m'
  grown :
      Picks (policy (algorithm_name env.algorithm)) (size + header_size) (blocks rs null) null
      → (made : Made env size m rs ret m') → Adds (region_size_for env size) made.step
      → env.mmap (region_size_for env size) ≡ some made.q
      → Served env size m rs ret m'
  refused :
      Picks (policy (algorithm_name env.algorithm)) (size + header_size) (blocks rs null) null
      → Refused env size m ret m'
      → Served env size m rs ret m'

module _ (env : Env) (fuel size : ℕ) (m : Memory) (rs : List Region) (hold : Holds m rs)
    (maps : MapsFresh env rs) (mod_size : Moderate env size)
    (enough : length (blocks rs null) < fuel) where
  pub serve_grow :
      Picks (policy (algorithm_name env.algorithm)) (size + header_size) (blocks rs null) null
      → (ret : ℕ) × (m' : Memory) × (grow env fuel size m ≡ ok ret m') × Served env size m rs ret m'
  unfolding grow
  serve_grow none_fits = elim (Option-cases (env.mmap (region_size_for env size))) [
    | inl e ↦ (
      null,
      m,
      rw (e, grow) refl,
      refused none_fits (record { failed = e; at_null = refl; same = refl }),
    )
    | inr (q, e) ↦
        let (ret, m', run, made, adds, at_q) =
          grow_mapped env fuel size m rs hold maps mod_size enough q e in
        (ret, m', run, grown none_fits made adds (e ∙ ap some (sym at_q)))
  ]

  pub serve-Located :
      (p : ℕ) (b : MemBlock)
      → p ≢ null
      → m.headers p ≡ some b
      → size + header_size ≤ room b
      → Located rs null p b
      → (ret : ℕ) × (m' : Memory) × (refill env size p m ≡ ok ret m')
        × (made : Made env size m rs ret m') × Within p made.step
  serve-Located p b ne at fits f =
      let hold' : Holds m (around f.qs f.s f.cs (f.c ∷ []) f.ds f.ts) = rw (← f.whole) hold in
      let here' = (Around_lem f.qs (region f.s (f.cs ++ (f.c ∷ f.ds))) f.ts hold'.valid).here in
      let c_ok = (All-right CellOk f.cs (f.c ∷ f.ds) here'.cells_ok).0 in
      let total = span-append f.cs (f.c ∷ f.ds) in
      let at' = rw (f.here, f.is, f.here) at at in
      let fits' : f.c.usage + (size + header_size) ≤ f.c.size =
        omega (arith, c_ok.within, here'.bounded, total, ap (λ x. room x) f.is, fits) in
      rw (f.here, f.whole)
        (elim (Bool-cases (f.c.usage == 0)) [
          | inl z ↦
              refill_take env size m f.qs f.s f.cs f.c f.ds f.ts hold'
                (omega (arith, mod_size.bounded)) at' (ground arith) (omega arith)
          | inr z ↦
              refill_split env size m f.qs f.s f.cs f.c f.ds f.ts hold'
                (omega (arith, mod_size.bounded)) at' (ground arith) fits'
        ])

pub Stored-at :
    (h : Headers) (p : ℕ) (b : MemBlock) (xs : Chain) → In (p, b) xs → Stored h xs → h p ≡ some b
Stored-at h p b [] i st = absurd i
Stored-at h p b (x ∷ xs) (inl e) st = rw (← e) at st.0
Stored-at h p b (x ∷ xs) (inr i) st = Stored-at h p b xs i st.1

-- For a request at least 8 below 2^64, the aligned size is a multiple of 8, not below the request, and
-- less than 8 above it.
pub align_lem :
    (request : ℕ)
    → request + 8 < word_mod
    → (align request % 8 ≡ 0) × (request ≤ align request) × (align request < request + 8)
unfolding align
align_lem request h = ground arith

-- On a memory whose chain is that of valid regions, with fuel for its blocks, where `mmap` returns
-- ranges that meet no region and the aligned size does not wrap around on its way to whole pages,
-- `malloc` returns, and serves the aligned request in one of the ways of `Served`: the block that the
-- policy picks is taken whole or split; or, where it picks none, the range that `mmap` gives for the
-- size of whole pages becomes a region at the end of the chain; or, where it picks none and `mmap`
-- fails, the result is NULL and nothing changes.
pub malloc-Served :
    (env : Env) (fuel request : ℕ) (m : Memory) (rs : List Region)
    → Holds m rs
    → MapsFresh env rs
    → Moderate env (align request)
    → length (blocks rs null) < fuel
    → (ret : ℕ) × (m' : Memory) × (malloc env fuel request m ≡ ok ret m')
      × Served env (align request) m rs ret m'
unfolding malloc
malloc-Served env fuel request m rs hold maps mod_size enough =
    let size = align request in
    let real : real_size size ≡ size + header_size = omega (arith, mod_size.bounded) in
    let oks = IsValid-oks rs hold.valid in
    let lk = rw (← hold.head) at (blocks-Linked rs null oks) in
    let (r, run, pick) = reuse-Picks env fuel size (blocks rs null) m lk hold.stored enough in
    let pick' = rw real at pick in
    elim (Bool-cases (r == null)) [
      | inl z ↦
          let none_fits =
            subst
              (λ x.
                Picks (policy (algorithm_name env.algorithm)) (size + header_size) (blocks rs null)
                  x)
              ((==_iff r null).0 z) pick' in
          let (ret, m', e, served) =
            serve_grow env fuel size m rs hold maps mod_size enough none_fits in
          (ret, m', rw (run, z) e, served)
      | inr z ↦
          let ne : r ≢ null = ground arith in
          elim (Picks-Reusable _ (size + header_size) r (blocks rs null) pick') [
            | Reusable.no_block e ↦ absurd (ne e)
            | Reusable.block b i fits ↦
                let (ret, m', e, made, within) =
                  serve-Located env fuel size m rs hold maps mod_size enough r b ne
                    (Stored-at m.headers r b (blocks rs null) i hold.stored) fits
                    (Located_lem rs null r b i) in
                (ret, m', rw (run, z) e, reused r pick' ne made within)
          ]
    ]
