-- ===== src/Common/Words.antt =====
-- `size_t`, `unsigned long` and addresses: 64-bit words.
use Prim.Native.Nat.{ℕ, ◌+◌, ◌-◌, ◌%◌, ◌^◌, ◌≤◌, ◌<◌}
use mathlib.Core.Path.{◌≡◌}
use native.Mathlib.Omega.{arith}

abbrev pub word_mod : ℕ
word_mod = 2 ^ 64

abbrev pub word : ℕ → ℕ
word n = n % word_mod

-- `a - b` in 64 bits; `-` on ℕ stops at 0, so the modulus is added first.
abbrev pub word_sub : ℕ → ℕ → ℕ
word_sub a b = (a + word_mod - b) % word_mod

pub word_lem : (n : ℕ) → n < word_mod → word n ≡ n
word_lem n h = omega arith

pub word_sub_lem : (a b : ℕ) → b ≤ a → a < word_mod → word_sub a b ≡ a - b
word_sub_lem a b h k = omega arith
