-- ===== src/Inspector/Progress.antt =====
-- `printProgress` of Project1/inspector.c.
use cs.Common.{
  ℕ, zero, suc, ◌+◌, Bool, false, [], ◌∷◌, ◌++◌, Bytes, codes, ltb, if◌then◌else◌, ℤ, pos, negsuc,
}

-- `i < count`
abbrev pub below : ℕ → ℤ → Bool
below i (pos n) = ltb i n
below i (negsuc n) = false

-- The rounds of the loop that are left, from `i` on.
pub bar : ℕ → ℕ → ℤ → Bytes
bar zero i count = []
bar (suc k) i count = (if below i count then 35 else 45) ∷ bar k (i + 1) count

pub print_progress : ℤ → ℕ → Bytes
print_progress count progress_range = codes "[" ++ (bar progress_range 0 count ++ codes "] ")
