-- ===== src/Allocator/Frame.antt =====
-- What a change inside one cell of Project3/allocator.c's memory leaves alone.
use cs.Common.{
  ℕ, ◌+◌, ◌≤◌, ◌<◌, ◌≡◌, ◌∙◌, ◌⊎◌, Option, List, [], ◌∷◌, ◌++◌, All, All-append, All-left,
  All-right, All-mono, arith,
}
use cs.Allocator.Heap.{MemBlock}
use cs.Allocator.Regions.{
  Region, span, first, region_blocks, blocks, Stored, RegionOk, Apart, IsValid, Outside,
  cell_blocks-Inside,
}

abbrev pub Headers : Type 0
Headers = ℕ → Option MemBlock

abbrev pub SameOutside : ℕ → ℕ → Headers → Headers → Type 0
SameOutside lo hi h g = (a : ℕ) → (a < lo) ⊎ (hi ≤ a) → g a ≡ h a

module _ (h g : Headers) (lo hi : ℕ) (same : SameOutside lo hi h g) where
  pub Stored-Outside : (xs : List (ℕ × MemBlock)) → Outside lo hi xs → Stored h xs → Stored g xs
  Stored-Outside [] o st = tt
  Stored-Outside (x ∷ xs) o st = (same x.0 o.0 ∙ st.0, Stored-Outside xs o.1 st.1)

-- The regions around one of them.
pub record Around (rs : List Region) (r : Region) (qs : List Region) : Type 0 where
  pub rs_apart : All (Apart r) rs
  pub qs_apart : All (Apart r) qs
  pub here : RegionOk r
  pub rs_ok : All RegionOk rs
  pub qs_ok : All RegionOk qs

pub IsValid-oks : (rs : List Region) → IsValid rs → All RegionOk rs
IsValid-oks [] v = tt
IsValid-oks (r ∷ rs) v = (v.0, IsValid-oks rs v.2)

pub Around_lem :
    (rs : List Region) (r : Region) (qs : List Region) → IsValid (rs ++ r ∷ qs) → Around rs r qs
Around_lem [] r qs v = record {
  rs_apart = tt;
  qs_apart = v.1;
  here = v.0;
  rs_ok = tt;
  qs_ok = IsValid-oks qs v.2;
}
Around_lem (s ∷ rs) r qs v =
    let rest = Around_lem rs r qs v.2 in
    let mine = All-right (Apart s) rs (r ∷ qs) v.1 in
    record {
      rs_apart = (omega (arith, mine.0), rest.rs_apart);
      qs_apart = rest.qs_apart;
      here = rest.here;
      rs_ok = (v.0, rest.rs_ok);
      qs_ok = rest.qs_ok;
    }

-- A region may be replaced by one that takes the same range.
pub IsValid-replace :
    (rs : List Region) (r r' : Region) (qs : List Region)
    → r'.start ≡ r.start
    → span r'.cells ≡ span r.cells
    → RegionOk r'
    → IsValid (rs ++ r ∷ qs)
    → IsValid (rs ++ r' ∷ qs)
IsValid-replace [] r r' qs e f k v =
    (k, All-mono (Apart r) (Apart r') qs (λ q a. omega arith) v.1, v.2)
IsValid-replace (s ∷ rs) r r' qs e f k v =
    let mine = All-right (Apart s) rs (r ∷ qs) v.1 in
    (
      v.0,
      All-append (Apart s) rs (r' ∷ qs) (All-left (Apart s) rs (r ∷ qs) v.1)
          (omega (arith, mine.0), mine.1),
      IsValid-replace rs r r' qs e f k v.2,
    )

pub IsValid-remove :
    (rs : List Region) (r : Region) (qs : List Region) → IsValid (rs ++ r ∷ qs) → IsValid (rs ++ qs)
IsValid-remove [] r qs v = v.2
IsValid-remove (s ∷ rs) r qs v = (
  v.0,
  All-append (Apart s) rs qs (All-left (Apart s) rs (r ∷ qs) v.1)
      (All-right (Apart s) rs (r ∷ qs) v.1).1,
  IsValid-remove rs r qs v.2,
)

pub IsValid-append :
    (rs : List Region) (r : Region)
    → IsValid rs
    → RegionOk r
    → All (Apart r) rs
    → IsValid (rs ++ r ∷ [])
IsValid-append [] r v k a = (k, tt, tt)
IsValid-append (s ∷ rs) r v k a = (
  v.0,
  All-append (Apart s) rs (r ∷ []) v.1 (omega (arith, a.0), tt),
  IsValid-append rs r v.2 k a.1,
)

-- Regions that keep off a range have no header in it.
pub blocks-Outside :
    (lo n stop : ℕ) (rs : List Region)
    → All RegionOk rs
    → All (λ q. (lo + n ≤ q.start) ⊎ (q.start + span q.cells ≤ lo)) rs
    → Outside lo (lo + n) (blocks rs stop)
blocks-Outside lo n stop [] k a = tt
blocks-Outside lo n stop (r ∷ rs) k a =
    All-append (λ x. (x.0 < lo) ⊎ (lo + n ≤ x.0)) (region_blocks r (first rs stop)) (blocks rs stop)
      (All-mono (λ x. (r.start ≤ x.0) × (x.0 < r.start + span r.cells))
        (λ x. (x.0 < lo) ⊎ (lo + n ≤ x.0)) (region_blocks r (first rs stop))
        (λ x i. grind (arith, a.0))
        (cell_blocks-Inside r.start (span r.cells) r.start (first rs stop) r.cells k.0.cells_ok))
      (blocks-Outside lo n stop rs k.1 a.1)

pub Outside-mono :
    (lo hi lo' hi' : ℕ) (xs : List (ℕ × MemBlock))
    → lo ≤ lo'
    → hi' ≤ hi
    → Outside lo hi xs
    → Outside lo' hi' xs
Outside-mono lo hi lo' hi' xs k l =
    All-mono (λ x. (x.0 < lo) ⊎ (hi ≤ x.0)) (λ x. (x.0 < lo') ⊎ (hi' ≤ x.0)) xs
      (λ x o. grind (arith, o))
