-- ===== src/Allocator/Walk.antt =====
-- The walk of `free` in Project3/allocator.c over the blocks of a region.
use cs.Common.{
  ℕ, zero, suc, ◌+◌, ◌<◌, ◌≡◌, ◌≢◌, refl, ◌⊎◌, inl, inr, Bool, true, ◌&&◌, some, List, [], ◌∷◌, All,
  arith, ◌==◌, ==_ne, ==_iff, length, Bool-cases,
}
use cs.Allocator.{walk}
use cs.Allocator.Heap.{MemBlock, Memory, ok, null}
use cs.Allocator.Regions.{Cell, link, block, cell_blocks, Stored}
use cs.Allocator.Frame.{Headers}
use cs.Allocator.Links.{load-ok}

unfoldable pub all_free : List Cell → Bool
all_free [] = true
all_free (c ∷ cs) = c.usage == 0 && all_free cs

pub all_free_sound : (cs : List Cell) → all_free cs ≡ true → All (λ d. d.usage ≡ 0) cs
unfolding all_free
all_free_sound [] h = tt
all_free_sound (c ∷ cs) h = (ground arith, all_free_sound cs (ground arith))

pub all_free_complete : (cs : List Cell) → All (λ d. d.usage ≡ 0) cs → all_free cs ≡ true
unfolding all_free
all_free_complete [] h = refl
all_free_complete (c ∷ cs) h = ground (arith, h.0, all_free_complete cs h.1)

-- Where the walk over a region stops: behind the chain, or at a header of another region.
abbrev pub Stops : Headers → ℕ → ℕ → Type 0
Stops h s stop = (stop ≡ null) ⊎ ((b : MemBlock) × (h stop ≡ some b) × (b.region_start ≢ s))

pub walk_stop :
    (k s stop : ℕ) (m : Memory) → Stops m.headers s stop → walk (suc k) s stop m ≡ ok (true, stop) m
unfolding walk
walk_stop k s stop m (inl e) = rw ((==_iff stop null).1 e) refl
walk_stop k s stop m (inr (b, e, ne)) = elim (Bool-cases (stop == null)) [
  | inl z ↦ rw z refl
  | inr z ↦ rw (z, load-ok stop b m (ground arith) e, ==_ne b.region_start s ne) refl
]

pub walk_row :
    (k s n a stop : ℕ) (cs : List Cell) (m : Memory)
    → 0 < a
    → Stored m.headers (cell_blocks s n a cs stop)
    → Stops m.headers s stop
    → length cs < k
    → (p : ℕ) × (walk k s (link a cs stop) m ≡ ok (all_free cs, p) m)
      × (all_free cs ≡ true → p ≡ stop)
unfolding walk all_free
walk_row zero s n a stop cs m pos st stops h = absurd (omega arith)
walk_row (suc k) s n a stop [] m pos st stops h = (stop, walk_stop k s stop m stops, λ _. refl)
walk_row (suc k) s n a stop (c ∷ cs) m pos st stops h =
    let ne : a ≢ null = omega arith in
    let b = block s n c (link (a + c.size) cs stop) in
    let same : (s == s) ≡ true = ground arith in
    elim (Bool-cases (c.usage == 0)) [
      | inl z ↦
          let (p, e, f) =
            walk_row k s n (a + c.size) stop cs m (omega arith) st.1 stops (omega arith) in
          (p, rw (==_ne a null ne, load-ok a b m ne st.0, same, z) e, rw z f)
      | inr z ↦ (a, rw (==_ne a null ne, load-ok a b m ne st.0, same, z) refl, rw z (λ e. cc))
    ]
