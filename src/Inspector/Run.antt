-- ===== src/Inspector/Run.antt =====
-- How Project1/inspector.c runs: its buffer, its output, and what it is given from outside. A file is the bytes
-- that `read` gives of it.
use cs.Common.{
  ℕ, zero, suc, ◌+◌, Bool, Option, none, some, List, [], ◌∷◌, ◌++◌, Bytes, length, drop, ℤ, ltb,
  if◌then◌else◌,
}

-- An entry of a directory: `d_type == DT_DIR`, and `d_name`.
pub record Dirent : Type 0 where
  pub is_dir : Bool
  pub d_name : Bytes

-- The answers of the system. The calls of `open` are counted, since a file of the proc file system is another
-- one each time. What is computed in floating point is given too: the length of a bar, and the text.
pub record World : Type 0 where
  pub open_proc : ℕ → Bytes → Option Bytes
  pub getcwd : Option Bytes
  pub opendir : Bytes → Option (List Dirent)
  pub getpwuid : ℕ → Option Bytes
  pub stale_forks : Bytes
  pub cpu_bar : ℤ → ℤ → ℤ
  pub cpu_text : ℤ → ℤ → Bytes
  pub memory_bar : ℤ → ℤ → ℤ
  pub memory_text : ℤ → ℤ → Bytes

pub record State : Type 0 where
  pub buf : Bytes
  pub opens : ℕ
  pub out : Bytes

-- A null pointer is read, an array is written behind its end, or an `int` overflows.
pub data Fault : Type 0 where
  null_string overrun int_overflow : Fault

-- `exit` is a return from `main` before its end, with its status and the output so far.
pub data Run {ℓ} (A : Type ℓ) : Type ℓ where
  ok : A → State → Run A
  exit : ℕ → Bytes → Run A
  fault : Fault → Run A

abbrev pub Cmd {ℓ} : Type ℓ → Type ℓ
Cmd A = State → Run A

abbrev pub pure {ℓ} : {A : Type ℓ} → A → Cmd A
pure a s = ok a s

abbrev pub and_then {ℓ κ} : {A : Type ℓ} {B : Type κ} → Run A → (A → Cmd B) → Run B
and_then (ok a s) f = f a s
and_then (exit code out) f = exit code out
and_then (fault e) f = fault e

infixl 5 ◌>>=◌ ◌>>◌
abbrev pub ◌>>=◌ {ℓ κ} : {A : Type ℓ} {B : Type κ} → Cmd A → (A → Cmd B) → Cmd B
c >>= f = λ s. and_then (c s) f

abbrev pub ◌>>◌ {ℓ κ} : {A : Type ℓ} {B : Type κ} → Cmd A → Cmd B → Cmd B
c >> d = c >>= λ _. d

abbrev pub fail : {A : Type 0} → Fault → Cmd A
fail e s = fault e

-- `return EXIT_FAILURE`
abbrev pub exit_failure : {A : Type 0} → Cmd A
exit_failure s = exit 1 s.out

abbrev pub say : Bytes → Cmd (Unit {0})
say text s = ok tt (record s { out = s.out ++ text })

abbrev pub open_file : World → Bytes → Cmd (Option Bytes)
open_file w path s = ok (w.open_proc s.opens path) (record s { opens = s.opens + 1 })

abbrev pub take_bytes : ℕ → Bytes → Bytes
take_bytes n [] = []
take_bytes zero (c ∷ s) = []
take_bytes (suc n) (c ∷ s) = c ∷ take_bytes n s

-- `read(file, buf, n)` writes the front of the buffer; what was behind it stays.
unfoldable pub read_into : ℕ → Bytes → Cmd (Unit {0})
read_into n file s =
    let bytes = take_bytes n file in ok tt (record s { buf = bytes ++ drop (length bytes) s.buf })

-- `strcpy` into an array of `size` bytes.
unfoldable pub copy_string : ℕ → Option Bytes → Cmd Bytes
copy_string size none = fail null_string
copy_string size (some t) = if ltb (length t) size then pure t else fail overrun
