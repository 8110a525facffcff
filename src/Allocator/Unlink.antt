-- ===== src/Allocator/Unlink.antt =====
-- The two walks of `free` in Project3/allocator.c: over a region, and to the block before it.
use cs.Common.{
  ℕ, ◌+◌, ◌≤◌, ◌<◌, ◌≡◌, ◌≢◌, refl, ap, ◌⊎◌, inl, inr, ◌&&◌, none, some, leb, ltb, if◌then◌else◌,
  List, [], ◌∷◌, ◌++◌, All, All-append, All-left, All-right, All-mono, arith, Bool-cases, ==_ne,
  ==_iff, length, length-append,
}
use cs.Allocator.{clear, unmap, Env, unlink}
use cs.Allocator.Heap.{MemBlock, Memory, ok, null, write}
use cs.Allocator.Regions.{
  Cell, Region, span, first, region_blocks, blocks, Stored, CellOk, RegionOk, Apart, IsValid,
  blocks-append, Linked, Outside,
}
use cs.Allocator.Frame.{Stored-Outside, Headers, Around, Around_lem, blocks-Outside}
use cs.Allocator.Links.{load-ok, blocks-Linked}
use cs.Allocator.Relink.{
  Chain, last, with_next, Distinct, blocks-relink, blocks-head, blocks-Distinct, Stored-relink,
  find_before_lem, All-last,
}
use cs.Allocator.Malloc.{Holds}

Distinct-last :
    (x : ℕ × MemBlock) (xs ys : Chain)
    → Distinct ((x ∷ xs) ++ ys)
    → All (λ y. y.0 ≢ (last x xs).0) ys
Distinct-last x [] ys d = d.0
Distinct-last x (y ∷ xs) ys d = Distinct-last y xs ys d.1

Stored-last :
    (h : Headers) (p : ℕ) (b : MemBlock) (ys : Chain)
    → All (λ y. y.0 ≢ p) ys
    → Stored h ys
    → Stored (write h p b) ys
Stored-last h p b [] a st = tt
Stored-last h p b (y ∷ ys) a st = (rw (==_ne y.0 p a.0) st.0, Stored-last h p b ys a.1 st.1)

module _ (fuel : ℕ) (m : Memory) (qs : List Region) (r : Region) (ts : List Region)
    (hold : Holds m (qs ++ r ∷ ts)) (enough : length (blocks (qs ++ r ∷ ts) null) < fuel) where
  abbrev pub current : ℕ
  current = first ts null

  sides : Around qs r ts
  sides = Around_lem qs r ts hold.valid

  unfoldable pub row : Chain
  row = region_blocks r current

  split_blocks : blocks (qs ++ r ∷ ts) null ≡ blocks qs r.start ++ (row ++ blocks ts null)
  unfolding row
  split_blocks = blocks-append qs (r ∷ ts) null

  before-Stored : Stored m.headers (blocks qs r.start)
  before-Stored =
      All-left _ (blocks qs r.start) (row ++ blocks ts null) (rw split_blocks at hold.stored)

  pub after-Stored : Stored m.headers (blocks ts null)
  after-Stored =
      All-right _ row (blocks ts null)
        (All-right _ (blocks qs r.start) (row ++ blocks ts null) (rw split_blocks at hold.stored))

  pub row-Stored : Stored m.headers row
  row-Stored =
      All-left _ row (blocks ts null)
        (All-right _ (blocks qs r.start) (row ++ blocks ts null) (rw split_blocks at hold.stored))

pub span_pos : (cs : List Cell) → cs ≢ [] → All CellOk cs → 0 < span cs
span_pos [] h k = absurd (h refl)
span_pos (c ∷ cs) h k = omega (arith, k.0.wide)

Linked-last :
    (p stop : ℕ) (x : ℕ × MemBlock) (xs : Chain) → Linked p (x ∷ xs) stop → (last x xs).0 ≢ null
Linked-last p stop x [] l = rw (← l.0) l.1
Linked-last p stop x (y ∷ ys) l = Linked-last x.1.next stop y ys l.2

Distinct-left : (xs ys : Chain) → Distinct (xs ++ ys) → Distinct xs
Distinct-left [] ys d = tt
Distinct-left (x ∷ xs) ys d = (All-left (λ y. y.0 ≢ x.0) xs ys d.0, Distinct-left xs ys d.1)

-- Where regions stand before it the last header of those is set on, else the head of the chain.
pub unlink_lem :
    (fuel : ℕ) (m : Memory) (qs : List Region) (r : Region) (ts : List Region)
    → Holds m (qs ++ r ∷ ts)
    → length (blocks (qs ++ r ∷ ts) null) < fuel
    → (h : Headers) × (p : ℕ) × (unlink fuel r.start (first ts null) m
        ≡ ok tt (record m { headers = h; g_head = p }))
      × Stored h (blocks (qs ++ ts) null)
      × (p ≡ first (qs ++ ts) null)
unfolding unlink
unlink_lem fuel m [] r ts hold enough = (
  m.headers,
  first ts null,
  rw ((==_iff m.g_head r.start).1 hold.head) refl,
  after-Stored fuel m [] r ts hold enough,
  refl,
)
unlink_lem fuel m (q ∷ qs) r ts hold enough =
    let side = sides fuel m (q ∷ qs) r ts hold enough in
    let st = before-Stored fuel m (q ∷ qs) r ts hold enough in
    let st' = after-Stored fuel m (q ∷ qs) r ts hold enough in
    let row' = row fuel m (q ∷ qs) r ts hold enough in
    let whole = split_blocks fuel m (q ∷ qs) r ts hold enough in
    let some_bytes = span_pos r.cells side.here.filled side.here.cells_ok in
    let more_bytes = span_pos q.cells side.rs_ok.0.filled side.rs_ok.0.cells_ok in
    let (x, xs, e) = blocks-head q qs r.start side.rs_ok.0 in
    let lk : Linked m.g_head (x ∷ xs) r.start =
      rw hold.head (rw e at (blocks-Linked (q ∷ qs) r.start side.rs_ok)) in
    let h = write m.headers (last x xs).0 (with_next (last x xs) (first ts null)).1 in
    let d = blocks-Distinct (q ∷ qs ++ r ∷ ts) null hold.valid in
    let d' : Distinct ((x ∷ xs) ++ (row' ++ blocks ts null)) = rw e at (rw whole at d) in
    let out : Outside r.start (r.start + span r.cells) (x ∷ xs) =
      rw e at (blocks-Outside r.start (span r.cells) r.start (q ∷ qs) side.rs_ok side.rs_apart) in
    let ne : All (λ y. y.0 ≢ r.start) (x ∷ xs) =
      All-mono (λ y. (y.0 < r.start) ⊎ (r.start + span r.cells ≤ y.0)) (λ y. y.0 ≢ r.start) (x ∷ xs)
        (λ y o. omega (arith, some_bytes)) out in
    let other : m.g_head ≢ r.start =
      omega (arith, hold.head, side.rs_apart.0, some_bytes, more_bytes) in
    let short : length (x ∷ xs) < fuel = omega (
      arith,
      enough,
      ap (λ z. length z) whole,
      ap (λ z. length z) e,
      length-append (blocks (q ∷ qs) r.start) (row' ++ blocks ts null),
    ) in
    let run = find_before_lem fuel r.start m.g_head x xs m lk (rw e at st) ne.1 short in
    let at = All-last (λ y. m.headers y.0 ≡ some y.1) x xs (rw e at st) in
    let not_null = Linked-last m.g_head r.start x xs lk in
    let far =
      All-right (λ y. y.0 ≢ (last x xs).0) row' (blocks ts null)
        (Distinct-last x xs (row' ++ blocks ts null) d') in
    let linked =
      Stored-relink m.headers x xs (first ts null)
        (Distinct-left (x ∷ xs) (row' ++ blocks ts null) d') (rw e at st) in
    let front : Stored h (blocks (q ∷ qs) (first ts null)) =
      rw (blocks-relink (q ∷ qs) r.start (first ts null) side.rs_ok, e) linked in
    (
      h,
      m.g_head,
      rw (==_ne m.g_head r.start other, run, load-ok (last x xs).0 (last x xs).1 m not_null at)
          refl,
      rw (blocks-append (q ∷ qs) ts null) (
          All-append (λ y. h y.0 ≡ some y.1) (blocks (q ∷ qs) (first ts null)) (blocks ts null)
            front (Stored-last m.headers (last x xs).0 _ (blocks ts null) far st')),
      hold.head,
    )

-- `munmap` was called on the region: when it succeeds no header is left there, every other one stands, and when it
-- fails all headers stand.
abbrev pub Unmapped : Env → Region → Memory → Memory → Type 0
Unmapped env r m m' =
    (x : ℕ)
    → m'.headers x ≡ (
        if env.munmap && (leb r.start x && ltb x (r.start + span r.cells))
        then none
        else m.headers x)

pub unmap_lem :
    (env : Env) (m : Memory) (qs : List Region) (r : Region) (ts : List Region)
    → IsValid (qs ++ r ∷ ts)
    → Stored m.headers (blocks (qs ++ ts) null)
    → (m' : Memory) × (unmap env r.start (span r.cells) m ≡ ok tt m')
      × Stored m'.headers (blocks (qs ++ ts) null)
      × (m'.g_head ≡ m.g_head)
      × (m'.bytes ≡ m.bytes)
      × (m'.g_allocations ≡ m.g_allocations)
      × Unmapped env r m m'
unfolding unmap clear
unmap_lem env m qs r ts v st =
    let side = Around_lem qs r ts v in
    let out =
      blocks-Outside r.start (span r.cells) null (qs ++ ts)
        (All-append RegionOk qs ts side.rs_ok side.qs_ok)
        (All-append (Apart r) qs ts side.rs_apart side.qs_apart) in
    elim (Bool-cases env.munmap) [
      | inl t ↦ (
        record m { headers = clear m.headers r.start (span r.cells) },
        rw t refl,
        Stored-Outside m.headers (clear m.headers r.start (span r.cells)) r.start
            (r.start + span r.cells) (λ a o. ground arith) (blocks (qs ++ ts) null) out st,
        refl,
        refl,
        refl,
        λ x. rw t refl,
      )
      | inr f ↦ (m, rw f refl, st, refl, refl, refl, λ x. rw f refl)
    ]
