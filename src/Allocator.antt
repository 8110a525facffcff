-- ===== src/Allocator.antt =====
-- Project3/allocator.c: the memory allocator. Block headers live in a heap of their own, `headers`,
-- by address; the bytes of the payloads are in `bytes`. Each loop takes fuel.
mod Heap
mod Regions
mod Frame
mod Replace
mod Links
mod Fit
mod Reuse
mod Locate
mod Used
mod Spec
mod Relink
mod Malloc
mod Grow
mod Serve
mod Walk
mod Unlink
mod Free
mod Disjoint
mod Safety
mod Calls
mod Print
mod Tests
use cs.Common.{
  ℕ, zero, suc, ◌+◌, ◌-◌, ◌*◌, ◌/◌, ◌%◌, Bool, true, false, ◌&&◌, Option, none, some, String, ltb,
  leb, ◌==◌, if◌then◌else◌, word, word_sub,
}
use text.Mathlib.Text.{◌==◌ as str_eq}
use cs.Allocator.Heap.{
  Cmd, Env, MemBlock, ◌>>=◌, ◌>>◌, align, get_head, header_size, int_max, load, memset, next_id,
  null, ok, out_of_fuel, pure, real_size, room, set_head, store,
}

-- The three loops of `reuse`, over `current_block`; `need` is `size + sizeof(struct mem_block)`.
pub first_fit : ℕ → ℕ → ℕ → Cmd ℕ
first_fit zero need p = λ _. out_of_fuel
first_fit (suc k) need p =
    if p == null
    then pure p
    else do b ← load p; if ltb need (room b) then pure p else first_fit k need b.next

pub best_fit : ℕ → ℕ → ℕ → ℕ → ℕ → Cmd ℕ
best_fit zero need p usage found = λ _. out_of_fuel
best_fit (suc k) need p usage found = if p == null then pure found else do
  b ← load p
  if leb need (room b) && leb (room b) usage
      then best_fit k need b.next (room b) p
      else best_fit k need b.next usage found

pub worst_fit : ℕ → ℕ → ℕ → ℕ → ℕ → Cmd ℕ
worst_fit zero need p usage found = λ _. out_of_fuel
worst_fit (suc k) need p usage found = if p == null then pure found else do
  b ← load p
  if leb need (room b) && leb usage (room b)
      then worst_fit k need b.next (room b) p
      else worst_fit k need b.next usage found

pub algorithm_name : Option String → String
algorithm_name none = "first_fit"
algorithm_name (some algo) = algo

pub reuse : Env → ℕ → ℕ → Cmd ℕ
reuse env fuel size = do
  let algo = algorithm_name env.algorithm
  head ← get_head
  if str_eq algo "first_fit"
      then first_fit fuel (real_size size) head
      else if str_eq algo "best_fit"
      then best_fit fuel (real_size size) head int_max null
      else if str_eq algo "worst_fit"
      then worst_fit fuel (real_size size) head 0 null
      else pure null

-- The payload behind the header, `block + 1`, scribbled over on request.
pub deliver : Env → ℕ → ℕ → Cmd ℕ
deliver env size p =
    if env.scribble
    then (do memset (word (p + header_size)) 0xAA size; pure (word (p + header_size)))
    else pure (word (p + header_size))

-- The block that `reuse` chose is taken whole if it is free, and else split behind what it uses.
pub refill : Env → ℕ → ℕ → Cmd ℕ
refill env size p = do
  b ← load p
  id ← next_id
  if b.usage == 0
      then (do store p (record b { alloc_id = id; usage = real_size size }); deliver env size p)
      else (do
        let q = word (p + b.usage)
        store q (record {
          alloc_id = id;
          size = word_sub b.size b.usage;
          usage = real_size size;
          region_start = b.region_start;
          region_size = b.region_size;
          next = b.next;
        })
        store p (record b { size = b.usage; next = q })
        deliver env size q)

-- The walk to the last block, whose `next` becomes the new block.
pub append : ℕ → ℕ → ℕ → Cmd (Unit {0})
append zero block p = λ _. out_of_fuel
append (suc k) block p = if p == null then pure tt else do
  b ← load p
  if b.next == null then store p (record b { next = block }) else append k block b.next

pub pages : ℕ → ℕ → ℕ
pages real page = if real % page == 0 then real / page else word (real / page + 1)

pub region_size_for : Env → ℕ → ℕ
region_size_for env size = word (pages (real_size size) env.page_size * env.page_size)

pub link_last : ℕ → ℕ → ℕ → Cmd (Unit {0})
link_last fuel block head = if head == null then set_head block else append fuel block head

-- A new region is mapped, with one block, at the end of the chain.
pub grow : Env → ℕ → ℕ → Cmd ℕ
grow env fuel size = elim (env.mmap (region_size_for env size)) [
  | none ↦ pure null
  | some block ↦ do
    id ← next_id
    store block (record {
      alloc_id = id;
      size = region_size_for env size;
      usage = real_size size;
      region_start = block;
      region_size = region_size_for env size;
      next = null;
    })
    head ← get_head
    link_last fuel block head
    deliver env size block
]

pub malloc : Env → ℕ → ℕ → Cmd ℕ
malloc env fuel request = do
  let size = align request
  p ← reuse env fuel size
  if p == null then grow env fuel size else refill env size p

-- The walk of `free` over the blocks of one region: whether all are free, and where it stopped.
pub walk : ℕ → ℕ → ℕ → Cmd (Bool × ℕ)
walk zero region p = λ _. out_of_fuel
walk (suc k) region p = if p == null then pure (true, p) else do
  b ← load p
  if b.region_start == region
      then (if b.usage == 0 then walk k region b.next else pure (false, p))
      else pure (true, p)

pub find_before : ℕ → ℕ → ℕ → Cmd ℕ
find_before zero target p = λ _. out_of_fuel
find_before (suc k) target p =
    if p == null
    then pure p
    else do b ← load p; if b.next == target then pure p else find_before k target b.next

pub unlink : ℕ → ℕ → ℕ → Cmd (Unit {0})
unlink fuel region current = do
  head ← get_head
  if head == region then set_head current else (do
    tmp ← find_before fuel region head
    b ← load tmp
    store tmp (record b { next = current }))

pub clear : (ℕ → Option MemBlock) → ℕ → ℕ → ℕ → Option MemBlock
clear h p n a = if leb p a && ltb a (p + n) then none else h a

-- If `munmap` fails nothing is unmapped, and the error is only printed.
pub unmap : Env → ℕ → ℕ → Cmd (Unit {0})
unmap env p n m = ok tt (if env.munmap then record m { headers = clear m.headers p n } else m)

pub free : Env → ℕ → ℕ → Cmd (Unit {0})
free env fuel ptr = if ptr == null then pure tt else do
  let p = word_sub ptr header_size
  b ← load p
  store p (record b { usage = 0 })
  (all_free, current) ← walk fuel b.region_start b.region_start
  if all_free
      then (do unlink fuel b.region_start current; unmap env b.region_start b.region_size)
      else pure tt

pub calloc : Env → ℕ → ℕ → ℕ → Cmd ℕ
calloc env fuel nmemb size = do
  ptr ← malloc env fuel (word (nmemb * size))
  memset ptr 0 (word (nmemb * size))
  pure ptr

pub realloc : Env → ℕ → ℕ → ℕ → Cmd ℕ
realloc env fuel ptr request =
    let size = align request in
    if ptr == null
    then malloc env fuel size
    else if size == 0
    then (do free env fuel ptr; pure null)
    else pure null
