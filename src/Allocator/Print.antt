-- ===== src/Allocator/Print.antt =====
-- `print_memory` and `write_memory` of Project3/allocator.c, which show the same lines, on the terminal and in a file.
pub mod Lines
use cs.Common.{ℕ, zero, suc, ◌+◌, List, [], ◌∷◌, ◌++◌, ◌==◌, if◌then◌else◌, word, word_sub}
use cs.Allocator.Heap.{
  MemBlock, Memory, Cmd, Run, ok, out_of_fuel, null, header_size, pure, and_then, ◌>>=◌, load,
  get_head,
}

-- The numbers of a line.
pub data MemoryLine : Type 0 where
  region_line : ℕ → ℕ → ℕ → MemoryLine
  block_line : ℕ → ℕ → ℕ → ℕ → ℕ → ℕ → MemoryLine

pub payload : ℕ → ℕ
payload usage = if usage == 0 then 0 else word_sub usage header_size

pub show_block : ℕ → MemBlock → MemoryLine
show_block p b = block_line p (word (p + b.size)) b.alloc_id b.size b.usage (payload b.usage)

-- A region is shown before its first block; its size is read from the header at its start.
pub show_region : ℕ → ℕ → Cmd (List MemoryLine)
show_region current_region region_start = if region_start == current_region then pure [] else (do
  r ← load region_start
  pure (region_line region_start (word (region_start + r.region_size)) r.region_size ∷ []))

pub show_from : ℕ → ℕ → ℕ → Cmd (List MemoryLine)
show_from zero current_block current_region = λ _. out_of_fuel
show_from (suc k) current_block current_region = if current_block == null then pure [] else do
  b ← load current_block
  region ← show_region current_region b.region_start
  rest ← show_from k b.next b.region_start
  pure (region ++ show_block current_block b ∷ rest)

pub print_memory : ℕ → Cmd (List MemoryLine)
print_memory fuel = do head ← get_head; show_from fuel head null

-- The lines that go to the file.
pub write_memory : ℕ → Cmd (List MemoryLine)
write_memory fuel = do head ← get_head; show_from fuel head null
