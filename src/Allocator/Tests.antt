-- ===== src/Allocator/Tests.antt =====
-- Runs of Project3/allocator.c's model on small memories, and the theorems at such inputs.
use cs.Common.{
  ℕ, ◌+◌, ◌-◌, ◌*◌, ◌≤◌, ◌<◌, ◌%◌, ◌≡◌, ◌≢◌, refl, ◌⊎◌, inl, inr, true, Option, none, some, List,
  [], ◌∷◌, arith, leb, ◌==◌, if◌then◌else◌, word_mod,
}
use cs.Allocator.{
  malloc, free, calloc, realloc, reuse, algorithm_name, first_fit, best_fit, refill, deliver, grow,
  link_last, append, region_size_for, pages, walk, unlink, unmap,
}
use cs.Allocator.Heap.{
  Memory, Env, Run, ok, fault, null, write, align, load, real_size, next_id, memset,
}
use cs.Allocator.Regions.{Region, cell, region, block, blocks}
use cs.Allocator.Spec.{Updated}
use cs.Allocator.Used.{used}
use cs.Allocator.Malloc.{Holds}
use cs.Allocator.Grow.{MapsFresh, Moderate, region_size_lem}
use cs.Allocator.Reuse.{policy, Picks, reuse-Picks}
use cs.Allocator.Serve.{Served, malloc-Served, align_lem}
use cs.Allocator.Free.{Freed}
use cs.Allocator.Safety.{
  Granted, malloc-Granted, malloc_disjoint, Returned, free-Returned, free-Freed,
}
use cs.Allocator.Print.{print_memory}
use cs.Allocator.Print.Lines.{lines_of, print_memory_lem}
use cs.Allocator.Calls.{Cleared, calloc-Cleared, realloc-null}

-- One page at 4096: a block in use, and a free one behind it.
abbrev sample : List Region
sample = region 4096 (cell 0 96 96 ∷ cell 1 4000 0 ∷ []) ∷ []

abbrev sample_memory : Memory
sample_memory = record {
  headers =
      write (write (λ _. none) 4096 (block 4096 4096 (cell 0 96 96) 4192)) 4192
        (block 4096 4096 (cell 1 4000 0) null);
  bytes = λ _. 0;
  g_head = 4096;
  g_allocations = 2;
}

abbrev sample_env : Env
sample_env = record {
  algorithm = none;
  scribble = true;
  page_size = 4096;
  mmap = λ n. if leb n 65536 then some 1048576 else none;
  munmap = true;
}

sample-Holds : Holds sample_memory sample
sample-Holds = record {
  valid = (
    record {
      mapped = omega arith;
      bounded = omega arith;
      filled = cc;
      cells_ok = (
        record { wide = omega arith; within = omega arith; used = inr (omega arith) },
        (record { wide = omega arith; within = omega arith; used = inl refl }, tt),
      );
    },
    tt,
    tt,
  );
  stored = (refl, (refl, tt));
  head = refl;
}

sample-MapsFresh : MapsFresh sample_env sample
sample-MapsFresh = record { fresh = λ n q h. ground arith }

sample_Moderate : Moderate sample_env (align 20)
unfolding align
sample_Moderate = record { paged = omega arith; bounded = omega arith }

in_use : used sample 4096 ≢ 0
in_use = omega arith

reuse-Picks_example :
    (r : ℕ) × (reuse sample_env 9 16 sample_memory ≡ ok r sample_memory)
    × Picks (policy (algorithm_name none)) (real_size 16) (blocks sample null) r
reuse-Picks_example =
    reuse-Picks sample_env 9 16 (blocks sample null) sample_memory
      (refl, omega arith, (refl, omega arith, refl)) (refl, (refl, tt)) (omega arith)

align_20 : (align 20 % 8 ≡ 0) × (20 ≤ align 20) × (align 20 < 28)
align_20 = align_lem 20 (omega arith)

region_size_lem_example :
    (68 ≤ region_size_for sample_env 20)
    × (region_size_for sample_env 20 < 4164)
    × (region_size_for sample_env 20 % 4096 ≡ 0)
region_size_lem_example =
    region_size_lem sample_env 20 (record { paged = omega arith; bounded = omega arith })

malloc_disjoint_example :
    (ret : ℕ) × (m' : Memory) × (malloc sample_env 9 20 sample_memory ≡ ok ret m')
    × ((ret ≡ null) ⊎ ((4096 + used sample 4096 + 48 ≤ ret) ⊎ (ret + align 20 ≤ 4096)))
malloc_disjoint_example =
    malloc_disjoint sample_env 9 20 sample_memory sample 4096 sample-Holds sample-MapsFresh
      sample_Moderate (omega arith) in_use

malloc-Granted_example :
    (ret : ℕ) × (m' : Memory) × (malloc sample_env 9 20 sample_memory ≡ ok ret m')
    × (((ret ≡ null) × (m' ≡ sample_memory))
        ⊎ Granted sample_env (align 20) sample_memory sample ret m')
malloc-Granted_example =
    malloc-Granted sample_env 9 20 sample_memory sample sample-Holds sample-MapsFresh
      sample_Moderate (omega arith)

malloc-Served_example :
    (ret : ℕ) × (m' : Memory) × (malloc sample_env 9 20 sample_memory ≡ ok ret m')
    × Served sample_env (align 20) sample_memory sample ret m'
malloc-Served_example =
    malloc-Served sample_env 9 20 sample_memory sample sample-Holds sample-MapsFresh sample_Moderate
      (omega arith)

free-Returned_example :
    (m' : Memory) × (free sample_env 9 (4096 + 48) sample_memory ≡ ok tt m')
    × Returned sample_memory sample 4096 m'
free-Returned_example =
    free-Returned sample_env 9 4096 sample_memory sample sample-Holds in_use (omega arith)

free-Freed_example :
    (m' : Memory) × (free sample_env 9 (4096 + 48) sample_memory ≡ ok tt m')
    × Freed sample_env sample_memory sample 4096 m'
free-Freed_example =
    free-Freed sample_env 9 4096 sample_memory sample sample-Holds in_use (omega arith)

calloc-Cleared_example :
    Cleared sample_env 9 (4 * 5) sample_memory sample (calloc sample_env 9 4 5 sample_memory)
calloc-Cleared_example =
    calloc-Cleared sample_env 9 4 5 sample_memory sample sample-Holds sample-MapsFresh (omega arith)
      sample_Moderate (omega arith)

realloc-null_example :
    (m' : Memory) × (rs' : List Region) × (realloc sample_env 9 (4096 + 48) 100 sample_memory
      ≡ ok null m')
    × Holds m' rs'
    × Updated sample rs' 4096 (if align 100 == 0 then 0 else used sample 4096)
    × (m'.bytes ≡ sample_memory.bytes)
realloc-null_example =
    realloc-null sample_env 9 4096 100 sample_memory sample sample-Holds in_use (omega arith)

-- What a run returns, without its memory.
abbrev result : {A : Type 0} → Run A → Option A
result (ok a m) = some a
result fault = none
result Run.out_of_fuel = none

-- A request is served from the free block.
reuses_free_block : result (malloc sample_env 9 20 sample_memory) ≡ some 4240
unfolding malloc align reuse algorithm_name first_fit best_fit load refill next_id deliver memset
    grow link_last append region_size_for pages
reuses_free_block = refl

-- First fit passes over a block that a request would fill exactly; best fit takes it.
exact_fit_passed_over : result (malloc sample_env 9 3952 sample_memory) ≡ some 1048624
unfolding malloc align reuse algorithm_name first_fit best_fit load refill next_id deliver memset
    grow link_last append region_size_for pages
exact_fit_passed_over = refl

exact_fit_taken :
    result (malloc (record sample_env { algorithm = some "best_fit" }) 9 3952 sample_memory)
    ≡ some 4240
unfolding malloc align reuse algorithm_name first_fit best_fit load refill next_id deliver memset
    grow link_last append region_size_for pages
exact_fit_taken = refl

-- A request within 8 of 2 ^ 64 wraps around to 0, and gets a block with no payload.
huge_request : result (malloc sample_env 9 (word_mod - 1) sample_memory) ≡ some 4240
unfolding malloc align reuse algorithm_name first_fit best_fit load refill next_id deliver memset
    grow link_last append region_size_for pages
huge_request = refl

-- `calloc` writes through NULL when memory is refused.
calloc_crashes : result (calloc sample_env 9 1 100000 sample_memory) ≡ none
unfolding calloc malloc align reuse algorithm_name first_fit best_fit load refill next_id deliver
    memset grow link_last append region_size_for pages
calloc_crashes = refl

-- Freeing the only block in use unmaps the region and empties the chain.
abbrev head_after : {A : Type 0} → Run A → Option ℕ
head_after (ok a m) = some m.g_head
head_after fault = none
head_after Run.out_of_fuel = none

free_unmaps : head_after (free sample_env 9 4144 sample_memory) ≡ some null
unfolding free load walk unlink unmap
free_unmaps = refl

print_memory_lem_example : print_memory 3 sample_memory ≡ ok (lines_of sample) sample_memory
print_memory_lem_example = print_memory_lem 3 sample_memory sample sample-Holds (omega arith)
