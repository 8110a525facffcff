-- ===== src/Allocator/Relink.antt =====
-- The last `next` of a chain of Project3/allocator.c, set anew: by `append` and by `unlink`.
use cs.Common.{
  ℕ, zero, suc, ◌+◌, ◌≤◌, ◌<◌, ◌≡◌, ◌≢◌, refl, ap, sym, ◌∙◌, ◌⊎◌, List, [], ◌∷◌, ◌++◌, All,
  All-append, All-mono, arith, ==_ne, ==_iff, length,
}
use cs.Allocator.{append, find_before}
use cs.Allocator.Heap.{MemBlock, Memory, ok, null, write}
use cs.Allocator.Regions.{
  Cell, Region, span, first, link, block, cell_blocks, region_blocks, blocks, Stored, Linked,
  CellOk, RegionOk, IsValid, cell_blocks-Inside, Inside, Outside,
}
use cs.Allocator.Frame.{Headers, IsValid-oks, blocks-Outside}
use cs.Allocator.Links.{load-ok}

abbrev pub Chain : Type 0
Chain = List (ℕ × MemBlock)

abbrev pub with_next : ℕ × MemBlock → ℕ → ℕ × MemBlock
with_next x q = (x.0, record (x.1) { next = q })

abbrev pub relink : Chain → ℕ → Chain
relink [] q = []
relink (x ∷ []) q = with_next x q ∷ []
relink (x ∷ y ∷ xs) q = x ∷ relink (y ∷ xs) q

abbrev pub last : ℕ × MemBlock → Chain → ℕ × MemBlock
last x [] = x
last x (y ∷ ys) = last y ys

abbrev pub Distinct : Chain → Type 0
Distinct [] = Unit {0}
Distinct (x ∷ xs) = All (λ y. y.0 ≢ x.0) xs × Distinct xs

relink-append :
    (xs : Chain) (y : ℕ × MemBlock) (ys : Chain) (q : ℕ)
    → relink (xs ++ y ∷ ys) q ≡ xs ++ relink (y ∷ ys) q
relink-append [] y ys q = refl
relink-append (x ∷ []) y ys q = refl
relink-append (x ∷ w ∷ xs) y ys q = ap (λ z. x ∷ z) (relink-append (w ∷ xs) y ys q)

cell_blocks-relink :
    (s n a stop q : ℕ) (cs : List Cell)
    → cell_blocks s n a cs q ≡ relink (cell_blocks s n a cs stop) q
cell_blocks-relink s n a stop q [] = refl
cell_blocks-relink s n a stop q (c ∷ []) = refl
cell_blocks-relink s n a stop q (c ∷ d ∷ cs) =
    ap (λ z. (a, block s n c (a + c.size)) ∷ z)
      (cell_blocks-relink s n (a + c.size) stop q (d ∷ cs))

row-head :
    (s n a stop : ℕ) (cs : List Cell)
    → cs ≢ []
    → (y : ℕ × MemBlock) × (ys : Chain) × (cell_blocks s n a cs stop ≡ y ∷ ys)
row-head s n a stop [] h = absurd (h refl)
row-head s n a stop (c ∷ cs) h =
    ((a, block s n c (link (a + c.size) cs stop)), cell_blocks s n (a + c.size) cs stop, refl)

pub blocks-head :
    (r : Region) (rs : List Region) (stop : ℕ)
    → RegionOk r
    → (y : ℕ × MemBlock) × (ys : Chain) × (blocks (r ∷ rs) stop ≡ y ∷ ys)
blocks-head r rs stop k =
    let (y, ys, e) = row-head r.start (span r.cells) r.start (first rs stop) r.cells k.filled in
    (y, ys ++ blocks rs stop, ap (λ z. z ++ blocks rs stop) e)

append-nil-lem : (xs : Chain) → xs ++ [] ≡ xs
append-nil-lem [] = refl
append-nil-lem (x ∷ xs) = ap (λ z. x ∷ z) (append-nil-lem xs)

pub blocks-relink :
    (rs : List Region) (stop q : ℕ) → All RegionOk rs → blocks rs q ≡ relink (blocks rs stop) q
blocks-relink [] stop q k = refl
blocks-relink (r ∷ []) stop q k =
    rw (append-nil-lem (region_blocks r stop), append-nil-lem (region_blocks r q))
      (cell_blocks-relink r.start (span r.cells) r.start stop q r.cells)
blocks-relink (r ∷ s ∷ rs) stop q k =
    let (y, ys, e) = blocks-head s rs stop k.1.0 in
    let ih = blocks-relink (s ∷ rs) stop q k.1 in
    ap (λ z. region_blocks r s.start ++ z) (ih ∙ ap (λ z. relink z q) e)
    ∙ sym (relink-append (region_blocks r s.start) y ys q)
    ∙ ap (λ z. relink (region_blocks r s.start ++ z) q) (sym e)

cell_blocks-Distinct :
    (s n a stop : ℕ) (cs : List Cell) → All CellOk cs → Distinct (cell_blocks s n a cs stop)
cell_blocks-Distinct s n a stop [] k = tt
cell_blocks-Distinct s n a stop (c ∷ cs) k = (
  All-mono (λ x. (a + c.size ≤ x.0) × (x.0 < a + c.size + span cs)) (λ y. y.0 ≢ a)
      (cell_blocks s n (a + c.size) cs stop) (λ x i. omega (arith, k.0.wide))
      (cell_blocks-Inside s n (a + c.size) stop cs k.1),
  cell_blocks-Distinct s n (a + c.size) stop cs k.1,
)

Distinct-append :
    (lo hi : ℕ) (xs ys : Chain)
    → Distinct xs
    → Distinct ys
    → Inside lo hi xs
    → Outside lo hi ys
    → Distinct (xs ++ ys)
Distinct-append lo hi [] ys d e i o = e
Distinct-append lo hi (x ∷ xs) ys d e i o = (
  All-append (λ y. y.0 ≢ x.0) xs ys d.0
      (All-mono (λ y. (y.0 < lo) ⊎ (hi ≤ y.0)) (λ y. y.0 ≢ x.0) ys (λ y k. omega (arith, i.0)) o),
  Distinct-append lo hi xs ys d.1 e i.1 o,
)

pub blocks-Distinct : (rs : List Region) (stop : ℕ) → IsValid rs → Distinct (blocks rs stop)
blocks-Distinct [] stop v = tt
blocks-Distinct (r ∷ rs) stop v =
    let ok = v.0.cells_ok in
    Distinct-append r.start (r.start + span r.cells) (region_blocks r (first rs stop))
      (blocks rs stop)
      (cell_blocks-Distinct r.start (span r.cells) r.start (first rs stop) r.cells ok)
      (blocks-Distinct rs stop v.2)
      (cell_blocks-Inside r.start (span r.cells) r.start (first rs stop) r.cells ok)
      (blocks-Outside r.start (span r.cells) stop rs (IsValid-oks rs v.2) v.1)

pub All-last :
    (P : ℕ × MemBlock → Type 0) (x : ℕ × MemBlock) (xs : Chain) → All P (x ∷ xs) → P (last x xs)
All-last P x [] h = h.0
All-last P x (y ∷ ys) h = All-last P y ys h.1

-- A write to the last header that changes its `next` alone.
pub Stored-relink :
    (h : Headers) (x : ℕ × MemBlock) (xs : Chain) (q : ℕ)
    → Distinct (x ∷ xs)
    → Stored h (x ∷ xs)
    → Stored (write h (last x xs).0 (with_next (last x xs) q).1) (relink (x ∷ xs) q)
Stored-relink h x [] q d st = (ground arith, tt)
Stored-relink h x (y ∷ ys) q d st =
    let ne = All-last (λ z. z.0 ≢ x.0) y ys d.0 in
    (rw (==_ne x.0 (last y ys).0 (λ e. ne (sym e))) st.0, Stored-relink h y ys q d.1 st.1)

-- `append` walks to the last block.
pub append_lem :
    (k q p : ℕ) (x : ℕ × MemBlock) (xs : Chain) (m : Memory)
    → Linked p (x ∷ xs) null
    → Stored m.headers (x ∷ xs)
    → length (x ∷ xs) < k
    → append k q p m
      ≡ ok tt (record m { headers = write m.headers (last x xs).0 (with_next (last x xs) q).1 })
unfolding append
append_lem zero q p x xs m l st h = absurd (omega arith)
append_lem (suc k) q p x [] m l st h =
    rw (==_ne p null l.1, load-ok p x.1 m l.1 (rw l.0 st.0), (==_iff x.1.next null).1 l.2, l.0) refl
append_lem (suc k) q p x (y ∷ ys) m l st h =
    rw (==_ne p null l.1, load-ok p x.1 m l.1 (rw l.0 st.0), ==_ne x.1.next null l.2.1)
      (append_lem k q x.1.next y ys m l.2 st.1 (omega arith))

-- `find_before` walks to the block before `target`.
pub find_before_lem :
    (k target p : ℕ) (x : ℕ × MemBlock) (xs : Chain) (m : Memory)
    → Linked p (x ∷ xs) target
    → Stored m.headers (x ∷ xs)
    → All (λ y. y.0 ≢ target) xs
    → length (x ∷ xs) < k
    → find_before k target p m ≡ ok (last x xs).0 m
unfolding find_before
find_before_lem zero target p x xs m l st a h = absurd (omega arith)
find_before_lem (suc k) target p x [] m l st a h =
    rw (==_ne p null l.1, load-ok p x.1 m l.1 (rw l.0 st.0), (==_iff x.1.next target).1 l.2, l.0)
      refl
find_before_lem (suc k) target p x (y ∷ ys) m l st a h =
    let ne : x.1.next ≢ target = λ e. a.0 (sym l.2.0 ∙ e) in
    rw (==_ne p null l.1, load-ok p x.1 m l.1 (rw l.0 st.0), ==_ne x.1.next target ne)
      (find_before_lem k target x.1.next y ys m l.2 st.1 a.1 (omega arith))
