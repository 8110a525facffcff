-- ===== src/Allocator/Heap.antt =====
-- The memory of Project3/allocator.c: block headers by address, payload bytes, and the commands on them.
-- A store is never refused, since the code stores headers only in mapped ranges.
use cs.Common.{
  ℕ, ◌+◌, ◌-◌, ◌%◌, Bool, ◌&&◌, Option, none, some, String, ltb, leb, ◌==◌, if◌then◌else◌, word,
  word_sub,
}

abbrev pub null : ℕ
null = 0

-- `sizeof(struct mem_block)`: six fields of eight bytes.
abbrev pub header_size : ℕ
header_size = 48

abbrev pub int_max : ℕ
int_max = 2147483647

pub record MemBlock : Type 0 where
  pub alloc_id : ℕ
  pub size : ℕ
  pub usage : ℕ
  pub region_start : ℕ
  pub region_size : ℕ
  pub next : ℕ

pub record Memory : Type 0 where
  pub headers : ℕ → Option MemBlock
  pub bytes : ℕ → ℕ
  pub g_head : ℕ
  pub g_allocations : ℕ

-- What the process is given from outside: the two environment variables, and the answers of
-- `getpagesize`, of `mmap` for a size (`none` is `MAP_FAILED`), and of `munmap`.
pub record Env : Type 0 where
  pub algorithm : Option String
  pub scribble : Bool
  pub page_size : ℕ
  pub mmap : ℕ → Option ℕ
  pub munmap : Bool

pub data Run (A : Type 0) : Type 0 where
  ok : A → Memory → Run A
  fault : Run A
  out_of_fuel : Run A

abbrev pub Cmd : Type 0 → Type 0
Cmd A = Memory → Run A

module _ {A : Type 0} where
  abbrev pub pure : A → Cmd A
  pure a m = ok a m

module _ {A B : Type 0} where
  abbrev pub and_then : Run A → (A → Cmd B) → Run B
  and_then (ok a m) f = f a m
  and_then fault f = fault
  and_then out_of_fuel f = out_of_fuel

  infixl 5 ◌>>=◌ ◌>>◌
  abbrev pub ◌>>=◌ : Cmd A → (A → Cmd B) → Cmd B
  c >>= f = λ m. and_then (c m) f

  abbrev pub ◌>>◌ : Cmd A → Cmd B → Cmd B
  c >> d = c >>= λ _. d

abbrev pub write : (ℕ → Option MemBlock) → ℕ → MemBlock → ℕ → Option MemBlock
write h p b a = if a == p then some b else h a

-- A read of a header: NULL, and an address at which none was written, is a fault.
unfoldable pub load : ℕ → Cmd MemBlock
load p m = if p == null then fault else elim (m.headers p) [ none ↦ fault | some b ↦ ok b m ]

abbrev pub store : ℕ → MemBlock → Cmd (Unit {0})
store p b m = ok tt (record m { headers = write m.headers p b })

abbrev pub set_head : ℕ → Cmd (Unit {0})
set_head p m = ok tt (record m { g_head = p })

abbrev pub get_head : Cmd ℕ
get_head m = ok m.g_head m

-- `g_allocations++`
unfoldable pub next_id : Cmd ℕ
next_id m = ok m.g_allocations (record m { g_allocations = word (m.g_allocations + 1) })

unfoldable pub fill_bytes : (ℕ → ℕ) → ℕ → ℕ → ℕ → ℕ → ℕ
fill_bytes bytes p v n a = if leb p a && ltb a (p + n) then v else bytes a

-- `memset`; a write through NULL is a fault.
unfoldable pub memset : ℕ → ℕ → ℕ → Cmd (Unit {0})
memset p v n m =
    if (p == null) && ltb 0 n then fault else ok tt (record m { bytes = fill_bytes m.bytes p v n })

-- Size requests are brought to a multiple of 8.
unfoldable pub align : ℕ → ℕ
align size = if size % 8 == 0 then size else word (size + (8 - size % 8))

abbrev pub real_size : ℕ → ℕ
real_size size = word (size + header_size)

-- What is left in a block: `size - usage`.
abbrev pub room : MemBlock → ℕ
room b = word_sub b.size b.usage
