-- ===== src/Allocator/Free.antt =====
-- `free` of Project3/allocator.c against its contract.
use cs.Common.{
  ℕ, ◌+◌, ◌<◌, ◌≡◌, ◌≢◌, refl, ap, ◌∙◌, inl, inr, true, false, none, some, ◌≤◌, ==_ne, List, [],
  ◌∷◌, ◌++◌, All, All-append, All-left, All-right, arith, ◌==◌, length, length-append, Bool-cases,
  word_mod, word_sub,
}
use cs.Allocator.{free}
use cs.Allocator.Heap.{MemBlock, Memory, Env, ok, null, header_size, write}
use cs.Allocator.Regions.{
  Cell, Region, cell, region, span, first, link, block, cell_blocks, region_blocks, blocks, Stored,
  CellOk, RegionOk, Apart, span-append, length-blocks, cell_count-append,
}
use cs.Allocator.Frame.{Headers, Around_lem, IsValid-remove}
use cs.Allocator.Replace.{around, Stored-replace, Stored-here}
use cs.Allocator.Links.{load-ok, link_start}
use cs.Allocator.Locate.{IsValid-around}
use cs.Allocator.Unlink.{unmap_lem, row, after-Stored, row-Stored, span_pos, unlink_lem}
use cs.Allocator.Walk.{all_free, all_free_sound, all_free_complete, Stops, walk_row}
use cs.Allocator.Spec.{Release, keep, drop}
use cs.Allocator.Malloc.{Holds, first-around}

row_header :
    (h : Headers) (s n a stop : ℕ) (cs : List Cell)
    → cs ≢ []
    → Stored h (cell_blocks s n a cs stop)
    → (b : MemBlock) × (h a ≡ some b) × (b.region_start ≡ s)
row_header h s n a stop [] ne st = absurd (ne refl)
row_header h s n a stop (c ∷ cs) ne st = (block s n c (link (a + c.size) cs stop), st.0, refl)

Stops_lem :
    (h : Headers) (r : Region) (ts : List Region)
    → 0 < span r.cells
    → All RegionOk ts
    → All (Apart r) ts
    → Stored h (blocks ts null)
    → Stops h r.start (first ts null)
Stops_lem h r [] some_bytes k a st = inl refl
Stops_lem h r (t ∷ ts) some_bytes k a st =
    let top =
      All-left (λ x. h x.0 ≡ some x.1) (region_blocks t (first ts null)) (blocks ts null) st in
    let (b, e, f) =
      row_header h t.start (span t.cells) t.start (first ts null) t.cells k.0.filled top in
    let more = span_pos t.cells k.0.filled k.0.cells_ok in
    inr (b, e, omega (arith, f, a.0, more, some_bytes))

-- What a release leaves of the headers: a region that stays keeps every header but that of the block, and of a
-- region that goes none is left in its range, if `munmap` succeeds.
abbrev pub Unmaps :
    {rs rs' : List Region} {p : ℕ} → Env → Memory → Memory → Release rs rs' p → Type 0
Unmaps {p = p} env m m' (keep qs s cs c ds ts e f g u) =
    (x : ℕ) → x ≢ p → m'.headers x ≡ m.headers x
Unmaps env m m' (drop qs s cs c ds ts e f g a b) =
    env.munmap ≡ true → (x : ℕ) → s ≤ x → x < s + span (cs ++ c ∷ ds) → m'.headers x ≡ none

-- `free` ended the use of the block at `p` by one step of the contract, and wrote no payload byte.
pub record Freed (env : Env) (m : Memory) (rs : List Region) (p : ℕ) (m' : Memory) : Type 0 where
  pub rs' : List Region
  pub step : Release rs rs' p
  pub unmaps : Unmaps env m m' step
  pub holds : Holds m' rs'
  pub bytes : m'.bytes ≡ m.bytes
  pub count : m'.g_allocations ≡ m.g_allocations

module _ (env : Env) (fuel : ℕ) (m : Memory) (qs : List Region) (s : ℕ) (cs : List Cell) (c : Cell)
    (ds : List Cell) (ts : List Region) (hold : Holds m (around qs s cs (c ∷ []) ds ts))
    (enough : length (blocks (around qs s cs (c ∷ []) ds ts) null) < fuel) where
  abbrev total : ℕ
  total = span (cs ++ (c ∷ ds))

  abbrev freed_cell : Cell
  freed_cell = cell c.id c.size 0

  abbrev next_block : ℕ
  next_block = link (s + span cs + c.size) ds (first ts null)

  here : RegionOk (region s (cs ++ (c ∷ ds)))
  here = (Around_lem qs (region s (cs ++ (c ∷ ds))) ts hold.valid).here

  cell_ok : CellOk c
  cell_ok = (All-right CellOk cs (c ∷ ds) here.cells_ok).0

  abbrev marked : Memory
  marked = record m {
    headers = write m.headers (s + span cs) (block s total freed_cell next_block);
  }

  -- The chain after `blk->usage = 0`.
  marked-Holds : Holds marked (around qs s cs (freed_cell ∷ []) ds ts)
  marked-Holds =
      let ok0 : CellOk freed_cell = record {
        wide = cell_ok.wide;
        within = omega arith;
        used = inl refl;
      } in
      let plus : s + span cs + (c.size + 0) ≡ s + span cs + c.size = omega arith in
      let same_end : link (s + span cs + (c.size + 0)) ds (first ts null) ≡ next_block =
        ap (λ x. link x ds (first ts null)) plus in
      record {
        valid = IsValid-around qs s cs c freed_cell [] ds ts (ok0, tt) (omega arith) hold.valid;
        stored =
            Stored-replace qs s cs c ds ts null hold.valid m.headers marked.headers freed_cell []
              total refl (omega arith) (λ a o. ground (arith, cell_ok.wide))
              (rw same_end (ground arith), tt) hold.stored;
        head = hold.head ∙ first-around qs s _ _ ts;
      }

  keep_lem :
      all_free (cs ++ (freed_cell ∷ ds)) ≡ false
      → Release
          (around qs s cs (c ∷ []) ds ts)
          (around qs s cs (freed_cell ∷ []) ds ts)
          (s + span cs)
  keep_lem some_used = keep qs s cs c ds ts refl refl refl λ h.
      let e =
        all_free_complete (cs ++ (freed_cell ∷ ds))
          (All-append (λ d. d.usage ≡ 0) cs (freed_cell ∷ ds) h.0 (refl, h.1)) in
      cc

  drop_lem :
      all_free (cs ++ (freed_cell ∷ ds)) ≡ true
      → Release (around qs s cs (c ∷ []) ds ts) (qs ++ ts) (s + span cs)
  drop_lem all_unused =
      let h = all_free_sound (cs ++ (freed_cell ∷ ds)) all_unused in
      drop qs s cs c ds ts refl refl refl (All-left (λ d. d.usage ≡ 0) cs (freed_cell ∷ ds) h)
        (All-right (λ d. d.usage ≡ 0) cs (freed_cell ∷ ds) h).1

  cell_count_lem :
      (length (blocks (around qs s cs (freed_cell ∷ []) ds ts) null) < fuel)
      × (length (cs ++ (freed_cell ∷ ds)) < fuel)
  cell_count_lem =
      let old = around qs s cs (c ∷ []) ds ts in
      let new = around qs s cs (freed_cell ∷ []) ds ts in
      omega (
        arith,
        enough,
        length-blocks old null,
        length-blocks new null,
        cell_count-append qs (region s (cs ++ (c ∷ ds)) ∷ ts),
        cell_count-append qs (region s (cs ++ (freed_cell ∷ ds)) ∷ ts),
        length-append cs (c ∷ ds),
        length-append cs (freed_cell ∷ ds),
      )

  pub free_lem :
      (m' : Memory) × (free env fuel (s + span cs + header_size) m ≡ ok tt m')
      × Freed env m (around qs s cs (c ∷ []) ds ts) (s + span cs) m'
  unfolding free row drop_lem keep_lem
  free_lem =
      let cells = cs ++ (freed_cell ∷ ds) in
      let r = region s cells in
      let p = s + span cs in
      let same : total ≡ span cells =
        omega (arith, span-append cs (c ∷ ds), span-append cs (freed_cell ∷ ds)) in
      let bound : p + c.size < word_mod = omega (arith, here.bounded, span-append cs (c ∷ ds)) in
      let back : word_sub (p + header_size) header_size ≡ p = omega (arith, bound, cell_ok.wide) in
      let ne : (p + header_size == null) ≡ false = ground arith in
      let there : p ≢ null = omega (arith, here.mapped) in
      let at = Stored-here qs s cs c ds ts null hold.valid m.headers total refl hold.stored in
      let b = block s total c next_block in
      let run_load = load-ok p b m there at in
      let counts = cell_count_lem in
      let short : length (blocks (qs ++ r ∷ ts) null) < fuel = omega (arith, counts) in
      let side = Around_lem qs r ts marked-Holds.valid in
      let row_st = row-Stored fuel marked qs r ts marked-Holds short in
      let stops =
        Stops_lem marked.headers r ts (span_pos cells side.here.filled side.here.cells_ok)
          side.qs_ok side.qs_apart (after-Stored fuel marked qs r ts marked-Holds short) in
      let (stop, run_walk, at_stop) =
        walk_row fuel s (span cells) s (first ts null) cells marked here.mapped row_st stops
          (omega (arith, counts)) in
      let run_walk' = rw (link_start s (first ts null) cells side.here.filled) at run_walk in
      let same_row : (s == s) ≡ true = ground arith in
      elim (Bool-cases (all_free cells)) [
        | inl all ↦
            let (h, g, run_unlink, st, head) = unlink_lem fuel marked qs r ts marked-Holds short in
            let (m', run_unmap, st', head', bytes, count, gone) =
              unmap_lem env (record marked { headers = h; g_head = g }) qs r ts marked-Holds.valid
                st in
            (
              m',
              rw (ne, back, run_load, run_walk', all, at_stop all, run_unlink, same) run_unmap,
              record {
                rs' = qs ++ ts;
                step = drop_lem all;
                unmaps = λ t x low high. rw (gone x, t) (ground (arith, low, high, same));
                holds = record {
                  valid = IsValid-remove qs r ts marked-Holds.valid;
                  stored = st';
                  head = head' ∙ head;
                };
                bytes = bytes;
                count = count;
              },
            )
        | inr some_used ↦ (
          marked,
          rw (ne, back, run_load, run_walk', some_used) refl,
          record {
            rs' = qs ++ r ∷ ts;
            step = keep_lem some_used;
            unmaps = λ x other. rw (==_ne x p other) refl;
            holds = marked-Holds;
            bytes = refl;
            count = refl;
          },
        )
      ]
