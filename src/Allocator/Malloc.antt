-- ===== src/Allocator/Malloc.antt =====
-- `malloc` of Project3/allocator.c against its contract.
use cs.Common.{
  ℕ, ◌+◌, ◌-◌, ◌≤◌, ◌<◌, ◌≡◌, ◌≢◌, refl, ap, ◌∙◌, inl, inr, true, false, ◌&&◌, some, List, [], ◌∷◌,
  ◌++◌, All-right, arith, ltb, leb, ◌==◌, if◌then◌else◌, Bool-cases, word, word_mod, word_sub,
}
use cs.Allocator.{deliver, refill}
use cs.Allocator.Heap.{
  MemBlock, Memory, Env, ok, null, header_size, next_id, memset, fill_bytes, real_size, write,
}
use cs.Allocator.Regions.{
  Cell, Region, cell, region, span, first, link, block, blocks, Stored, CellOk, RegionOk, IsValid,
  span-append,
}
use cs.Allocator.Frame.{Headers, Around_lem}
use cs.Allocator.Replace.{around, Stored-replace}
use cs.Allocator.Links.{load-ok}
use cs.Allocator.Spec.{Alloc, take, split, Within, Alloc-IsValid}

-- The chain in memory is that of the regions `rs`.
pub record Holds (m : Memory) (rs : List Region) : Type 0 where
  pub valid : IsValid rs
  pub stored : Stored m.headers (blocks rs null)
  pub head : m.g_head ≡ first rs null

-- The bytes after a delivery: the payload is scribbled over on request, and nothing else is written.
abbrev pub Delivered : Env → ℕ → ℕ → Memory → Memory → Type 0
Delivered env size q m m' =
    (x : ℕ)
    → m'.bytes x ≡ (if env.scribble && (leb q x && ltb x (q + size)) then 0xAA else m.bytes x)

record Payload (env : Env) (size q : ℕ) (m m' : Memory) : Type 0 where
  headers : m'.headers ≡ m.headers
  head : m'.g_head ≡ m.g_head
  count : m'.g_allocations ≡ m.g_allocations
  bytes : Delivered env size (q + header_size) m m'

deliver_lem :
    (env : Env) (size q : ℕ) (m : Memory)
    → q + header_size < word_mod
    → (m' : Memory) × (deliver env size q m ≡ ok (q + header_size) m') × Payload env size q m m'
unfolding deliver memset fill_bytes
deliver_lem env size q m h =
    let e : word (q + header_size) ≡ q + header_size = omega arith in
    let ne : (q + header_size == null) ≡ false = ground arith in
    elim (Bool-cases env.scribble) [
      | inl t ↦ (
        record m { bytes = fill_bytes m.bytes (q + header_size) 0xAA size },
        rw (t, e, ne) refl,
        record { headers = refl; head = refl; count = refl; bytes = λ x. rw t refl },
      )
      | inr f ↦ (
        m,
        rw (f, e) refl,
        record { headers = refl; head = refl; count = refl; bytes = λ x. rw f refl },
      )
    ]

-- An allocation of `size` bytes was made: `ret` is behind the header of a block that one step of the
-- contract puts in use, and the chain in memory is that of the regions after the step.
pub record Made (env : Env) (size : ℕ) (m : Memory) (rs : List Region) (ret : ℕ) (m' : Memory)
    : Type 0 where
  pub rs' : List Region
  pub q : ℕ
  pub step : Alloc m.g_allocations (size + header_size) rs rs' q
  pub holds : Holds m' rs'
  pub at_payload : ret ≡ q + header_size
  pub bytes : Delivered env size ret m m'
  pub count : m'.g_allocations ≡ word (m.g_allocations + 1)

-- The state before the payload is delivered.
abbrev pub counted : Memory → Headers → ℕ → Memory
counted m h p = record m { headers = h; g_head = p; g_allocations = word (m.g_allocations + 1) }

pub Made-deliver :
    (env : Env) (size q p : ℕ) (h : Headers) (m : Memory) (rs rs' : List Region)
    (P : (xs : List Region) (x : ℕ) → Alloc m.g_allocations (size + header_size) rs xs x → Type 0)
    → q + header_size < word_mod
    → (a : Alloc m.g_allocations (size + header_size) rs rs' q) → P rs' q a
    → IsValid rs'
    → Stored h (blocks rs' null)
    → p ≡ first rs' null
    → (r : ℕ) × (m' : Memory) × (deliver env size q (counted m h p) ≡ ok r m')
      × (made : Made env size m rs r m') × P made.rs' made.q made.step
Made-deliver env size q p h m rs rs' P b a k v st e =
    let (m', eq, pay) = deliver_lem env size q (counted m h p) b in
    (
      q + header_size,
      m',
      eq,
      record {
        rs' = rs';
        q = q;
        step = a;
        holds = record { valid = v; stored = rw pay.headers st; head = pay.head ∙ e };
        at_payload = refl;
        bytes = pay.bytes;
        count = pay.count;
      },
      k,
    )

pub first-around :
    (qs : List Region) (s : ℕ) (xs ys : List Cell) (ts : List Region)
    → first (qs ++ region s xs ∷ ts) null ≡ first (qs ++ region s ys ∷ ts) null
first-around [] s xs ys ts = refl
first-around (q ∷ qs) s xs ys ts = refl

module _ (env : Env) (size : ℕ) (m : Memory) (qs : List Region) (s : ℕ) (cs : List Cell) (c : Cell)
    (ds : List Cell) (ts : List Region) (hold : Holds m (around qs s cs (c ∷ []) ds ts))
    (small : size + header_size < word_mod) where
  here : RegionOk (region s (cs ++ (c ∷ ds)))
  here = (Around_lem qs (region s (cs ++ (c ∷ ds))) ts hold.valid).here

  cell_ok : CellOk c
  cell_ok = (All-right CellOk cs (c ∷ ds) here.cells_ok).0

  bound : s + span cs + c.size < word_mod
  bound = omega (arith, here.bounded, span-append cs (c ∷ ds))

  there : s + span cs ≢ null
  there = omega (arith, here.mapped)

  abbrev next_block : ℕ
  next_block = link (s + span cs + c.size) ds (first ts null)

  abbrev old : MemBlock
  old = block s (span (cs ++ (c ∷ ds))) c next_block

  next_block_lem :
      (mid : List Cell)
      → span mid ≡ c.size
      → link (s + span cs + span mid) ds (first ts null) ≡ next_block
  next_block_lem mid e = ap (λ x. link (s + span cs + x) ds (first ts null)) e

  pub refill_take :
      m.headers (s + span cs) ≡ some old
      → c.usage ≡ 0
      → size + header_size ≤ c.size
      → (r : ℕ) × (m' : Memory) × (refill env size (s + span cs) m ≡ ok r m')
        × (made : Made env size m (around qs s cs (c ∷ []) ds ts) r m') × Within
            (s + span cs)
            made.step
  unfolding refill next_id
  refill_take at free fits =
      let id = m.g_allocations in
      let n = span (cs ++ (c ∷ ds)) in
      let p = s + span cs in
      let new = cell id c.size (size + header_size) in
      let rs' = around qs s cs (new ∷ []) ds ts in
      let h = write m.headers p (block s n new next_block) in
      let real : real_size size ≡ size + header_size = omega arith in
      let step : Alloc id (size + header_size) (around qs s cs (c ∷ []) ds ts) rs' p =
        take qs s cs c ds ts refl refl refl free fits in
      let stored =
        Stored-replace qs s cs c ds ts null hold.valid m.headers h new [] n refl (omega arith)
          (λ a o. ground (arith, cell_ok.wide))
          (rw (next_block_lem (new ∷ []) (omega arith)) (ground arith, tt)) hold.stored in
      let test : (c.usage == 0) ≡ true = ground arith in
      rw (load-ok p old m there at, test, real)
        (Made-deliver env size p m.g_head h m (around qs s cs (c ∷ []) ds ts) rs'
          (λ xs x a. Within p a) (omega (arith, bound)) step refl
          (Alloc-IsValid id (size + header_size) _ rs' p (omega arith) hold.valid step) stored
          (hold.head ∙ first-around qs s _ _ ts))

  pub refill_split :
      m.headers (s + span cs) ≡ some old
      → c.usage ≢ 0
      → c.usage + (size + header_size) ≤ c.size
      → (r : ℕ) × (m' : Memory) × (refill env size (s + span cs) m ≡ ok r m')
        × (made : Made env size m (around qs s cs (c ∷ []) ds ts) r m') × Within
            (s + span cs)
            made.step
  unfolding refill next_id
  refill_split at in_use fits =
      let id = m.g_allocations in
      let n = span (cs ++ (c ∷ ds)) in
      let p = s + span cs in
      let q = p + c.usage in
      let low = cell c.id c.usage c.usage in
      let high = cell id (c.size - c.usage) (size + header_size) in
      let rs' = around qs s cs (low ∷ high ∷ []) ds ts in
      let h = write (write m.headers q (block s n high next_block)) p (block s n low q) in
      let real : real_size size ≡ size + header_size = omega arith in
      let target : word (p + c.usage) ≡ q = omega (arith, bound) in
      let left : word_sub c.size c.usage ≡ c.size - c.usage = omega (arith, bound) in
      let test : (c.usage == 0) ≡ false = ground arith in
      let step : Alloc id (size + header_size) (around qs s cs (c ∷ []) ds ts) rs' q =
        split qs s cs c ds ts refl refl refl (omega arith) fits in
      let stored =
        Stored-replace qs s cs c ds ts null hold.valid m.headers h low (high ∷ []) n refl
          (omega arith) (λ a o. ground (arith, cell_ok.wide))
          (rw (next_block_lem (low ∷ high ∷ []) (omega arith)) (ground arith, (ground arith, tt)))
          hold.stored in
      rw (load-ok p old m there at, test, target, left, real)
        (Made-deliver env size q m.g_head h m (around qs s cs (c ∷ []) ds ts) rs'
          (λ xs x a. Within p a) (omega (arith, bound)) step refl
          (Alloc-IsValid id (size + header_size) _ rs' q (omega arith) hold.valid step) stored
          (hold.head ∙ first-around qs s _ _ ts))
