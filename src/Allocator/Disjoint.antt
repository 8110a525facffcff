-- ===== src/Allocator/Disjoint.antt =====
-- The ranges of the blocks in use in the memory of Project3/allocator.c.
use cs.Common.{ℕ, ◌+◌, ◌≤◌, ◌<◌, ◌≢◌, refl, ◌⊎◌, List, [], ◌∷◌, All, arith}
use cs.Allocator.Regions.{Cell, Region, span, CellOk, IsValid}
use cs.Allocator.Frame.{IsValid-oks}
use cs.Allocator.Used.{used_outside, used_cells_outside}
use cs.Allocator.Used.{used, used_cells}

pub used_cells_within :
    (a x : ℕ) (cs : List Cell)
    → All CellOk cs
    → used_cells a cs x ≢ 0
    → (a ≤ x) × (x + used_cells a cs x ≤ a + span cs)
used_cells_within a x [] k h = absurd (h refl)
used_cells_within a x (c ∷ cs) k h = ground (
  arith,
  k.0.wide,
  k.0.within,
  used_cells_outside (a + c.size) x cs k.1,
  used_cells_within (a + c.size) x cs k.1,
)

pub row_disjoint :
    (a x y : ℕ) (cs : List Cell)
    → All CellOk cs
    → used_cells a cs x ≢ 0
    → used_cells a cs y ≢ 0
    → x < y
    → x + used_cells a cs x ≤ y
row_disjoint a x y [] k h g l = absurd (h refl)
row_disjoint a x y (c ∷ cs) k h g l = ground (
  arith,
  k.0.wide,
  k.0.within,
  used_cells_outside (a + c.size) x cs k.1,
  used_cells_within (a + c.size) x cs k.1,
  used_cells_within (a + c.size) y cs k.1,
  row_disjoint (a + c.size) x y cs k.1,
)

-- A block in use keeps off any range that its region keeps off.
pub used_apart :
    (lo n x : ℕ) (rs : List Region)
    → IsValid rs
    → All (λ q. (lo + n ≤ q.start) ⊎ (q.start + span q.cells ≤ lo)) rs
    → used rs x ≢ 0
    → (x + used rs x ≤ lo) ⊎ (lo + n ≤ x)
used_apart lo n x [] v a h = absurd (h refl)
used_apart lo n x (r ∷ rs) v a h = ground (
  arith,
  a.0,
  used_cells_within r.start x r.cells v.0.cells_ok,
  used_outside r.start (span r.cells) x rs (IsValid-oks rs v.2) v.1,
  used_apart lo n x rs v.2 a.1,
)

-- Of two blocks in use, the one at the lower address ends before the other begins.
pub used_disjoint :
    (rs : List Region) (x y : ℕ)
    → IsValid rs
    → used rs x ≢ 0
    → used rs y ≢ 0
    → x < y
    → x + used rs x ≤ y
used_disjoint [] x y v h g l = absurd (h refl)
used_disjoint (r ∷ rs) x y v h g l =
    let oks = IsValid-oks rs v.2 in
    ground (
      arith,
      used_cells_within r.start x r.cells v.0.cells_ok,
      used_cells_within r.start y r.cells v.0.cells_ok,
      row_disjoint r.start x y r.cells v.0.cells_ok,
      used_outside r.start (span r.cells) x rs oks v.1,
      used_outside r.start (span r.cells) y rs oks v.1,
      used_apart r.start (span r.cells) x rs v.2 v.1,
      used_apart r.start (span r.cells) y rs v.2 v.1,
      used_disjoint rs x y v.2,
    )
