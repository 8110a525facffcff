-- ===== src/Allocator/Used.antt =====
-- The bytes in use at each address, by the regions of Project3/allocator.c.
use cs.Common.{
  ℕ, ◌+◌, ◌≤◌, ◌<◌, ◌≡◌, refl, ap, ◌⊎◌, List, [], ◌∷◌, ◌++◌, All, All-left, All-right, arith, ◌==◌,
  if◌then◌else◌,
}
use cs.Allocator.Regions.{Cell, Region, region, span, CellOk, RegionOk, IsValid, span-append}
use cs.Allocator.Frame.{Around_lem}
use cs.Allocator.Replace.{around}

-- The bytes in use, header included, of the block at `x`. Blocks have different addresses, so at most
-- one term of the sum is not 0.
abbrev pub used_cells : ℕ → List Cell → ℕ → ℕ
used_cells a [] x = 0
used_cells a (c ∷ cs) x = (if a == x then c.usage else 0) + used_cells (a + c.size) cs x

abbrev pub used : List Region → ℕ → ℕ
used [] x = 0
used (r ∷ rs) x = used_cells r.start r.cells x + used rs x

pub used_cells-append :
    (a x : ℕ) (cs ds : List Cell)
    → used_cells a (cs ++ ds) x ≡ used_cells a cs x + used_cells (a + span cs) ds x
used_cells-append a x [] ds =
    let e : a ≡ a + 0 = omega arith in let f = ap (λ y. used_cells y ds x) e in omega (arith, f)
used_cells-append a x (c ∷ cs) ds =
    let e : a + c.size + span cs ≡ a + (c.size + span cs) = omega arith in
    omega (arith, rw e at (used_cells-append (a + c.size) x cs ds))

pub used-append : (x : ℕ) (rs qs : List Region) → used (rs ++ qs) x ≡ used rs x + used qs x
used-append x [] qs = omega arith
used-append x (r ∷ rs) qs = omega (arith, used-append x rs qs)

pub used_cells_outside :
    (a x : ℕ) (cs : List Cell) → All CellOk cs → (x < a) ⊎ (a + span cs ≤ x) → used_cells a cs x ≡ 0
used_cells_outside a x [] k h = refl
used_cells_outside a x (c ∷ cs) k h =
    ground (arith, k.0.wide, used_cells_outside (a + c.size) x cs k.1)

pub used_outside :
    (lo n x : ℕ) (rs : List Region)
    → All RegionOk rs
    → All (λ q. (lo + n ≤ q.start) ⊎ (q.start + span q.cells ≤ lo)) rs
    → lo ≤ x
    → x < lo + n
    → used rs x ≡ 0
used_outside lo n x [] k a h l = refl
used_outside lo n x (r ∷ rs) k a h l = omega (
  arith,
  used_cells_outside r.start x r.cells k.0.cells_ok (omega (arith, a.0)),
  used_outside lo n x rs k.1 a.1 h l,
)

-- What the cells other than those at `s + span cs` use.
pub rest_used : List Region → ℕ → List Cell → ℕ → List Cell → List Region → ℕ → ℕ
rest_used qs s cs n ds ts x =
    used qs x + used_cells s cs x + used_cells (s + span cs + n) ds x + used ts x

pub used-around :
    (qs : List Region) (s : ℕ) (cs mid ds : List Cell) (ts : List Region) (n x : ℕ)
    → span mid ≡ n
    → used (around qs s cs mid ds ts) x
      ≡ rest_used qs s cs n ds ts x + used_cells (s + span cs) mid x
unfolding rest_used
used-around qs s cs mid ds ts n x e = omega (
  arith,
  used-append x qs (region s (cs ++ (mid ++ ds)) ∷ ts),
  used_cells-append s x cs (mid ++ ds),
  rw e at (used_cells-append (s + span cs) x mid ds),
)

pub rest_used-eq-zero :
    (qs : List Region) (s : ℕ) (cs : List Cell) (c : Cell) (ds : List Cell) (ts : List Region)
    (x : ℕ)
    → IsValid (around qs s cs (c ∷ []) ds ts)
    → s + span cs ≤ x
    → x < s + span cs + c.size
    → rest_used qs s cs c.size ds ts x ≡ 0
unfolding rest_used
rest_used-eq-zero qs s cs c ds ts x v h l =
    let a = Around_lem qs (region s (cs ++ (c ∷ ds))) ts v in
    let total = span-append cs (c ∷ ds) in
    let n = span (cs ++ (c ∷ ds)) in
    let ok = All-right CellOk cs (c ∷ ds) a.here.cells_ok in
    omega (
      arith,
      used_outside s n x qs a.rs_ok a.rs_apart (omega arith) (omega (arith, total)),
      used_outside s n x ts a.qs_ok a.qs_apart (omega arith) (omega (arith, total)),
      used_cells_outside s x cs (All-left CellOk cs (c ∷ ds) a.here.cells_ok) (omega arith),
      used_cells_outside (s + span cs + c.size) x ds ok.1 (omega arith),
    )

pub used_cells_free : (a x : ℕ) (cs : List Cell) → All (λ d. d.usage ≡ 0) cs → used_cells a cs x ≡ 0
used_cells_free a x [] h = refl
used_cells_free a x (c ∷ cs) h = ground (arith, h.0, used_cells_free (a + c.size) x cs h.1)

pub rest_lem :
    (qs : List Region) (s : ℕ) (cs : List Cell) (n : ℕ) (ds : List Cell) (ts : List Region) (x : ℕ)
    → rest_used qs s cs n ds ts x
      ≡ used qs x + used_cells s cs x + used_cells (s + span cs + n) ds x + used ts x
unfolding rest_used
rest_lem qs s cs n ds ts x = refl

-- Whatever takes the place of the cell `c`, only addresses in its range change their use.
pub used-replace :
    (qs : List Region) (s : ℕ) (cs : List Cell) (c c' : Cell) (mid ds : List Cell)
    (ts : List Region) (x : ℕ)
    → span (c' ∷ mid) ≡ c.size
    → IsValid (around qs s cs (c ∷ []) ds ts)
    → (used (around qs s cs (c' ∷ mid) ds ts) x + used_cells (s + span cs) (c ∷ []) x
        ≡ used (around qs s cs (c ∷ []) ds ts) x + used_cells (s + span cs) (c' ∷ mid) x)
      × (s + span cs ≤ x
          → x < s + span cs + c.size
          → used (around qs s cs (c' ∷ mid) ds ts) x ≡ used_cells (s + span cs) (c' ∷ mid) x)
used-replace qs s cs c c' mid ds ts x e v =
    let old = used-around qs s cs (c ∷ []) ds ts c.size x (omega arith) in
    let new = used-around qs s cs (c' ∷ mid) ds ts c.size x e in
    (omega (arith, old, new), λ h l. omega (arith, new, rest_used-eq-zero qs s cs c ds ts x v h l))
