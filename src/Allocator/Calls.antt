-- ===== src/Allocator/Calls.antt =====
-- `calloc` and `realloc` of Project3/allocator.c, and `free` of NULL.
use cs.Common.{
  ℕ, ◌+◌, ◌*◌, ◌<◌, ◌≡◌, ◌≢◌, refl, ap, sym, subst, ◌∙◌, inl, inr, false, ◌&&◌, arith, ltb, leb,
  ◌==◌, if◌then◌else◌, ==_ne, length, Bool-cases, word, word_mod, List, lt→ltb,
}
use mathlib.Core.Path.{fun_ext}
use cs.Allocator.{malloc, calloc, realloc}
use cs.Allocator.Heap.{
  Memory, Env, Run, ok, fault, and_then, pure, null, header_size, align, memset, fill_bytes,
}
use cs.Allocator.Regions.{Region, blocks}
use cs.Allocator.Spec.{Updated}
use cs.Allocator.Used.{used}
use cs.Allocator.Malloc.{Holds}
use cs.Allocator.Grow.{MapsFresh, Moderate}
use cs.Allocator.Safety.{Granted, malloc-Granted, free-Returned}

-- A block was granted for `n` bytes, and its payload begins with `n` zero bytes.
pub record Zeroed (env : Env) (n : ℕ) (m : Memory) (rs : List Region) (ret : ℕ) (m' : Memory)
    : Type 0 where
  pub rs' : List Region
  pub q : ℕ
  pub at_payload : ret ≡ q + header_size
  pub holds : Holds m' rs'
  pub unused : used rs q ≡ 0
  pub updated : Updated rs rs' q (align n + header_size)
  pub bytes :
      (x : ℕ)
      → m'.bytes x ≡ (
          if leb ret x && ltb x (ret + n)
          then 0
          else if env.scribble && (leb ret x && ltb x (ret + align n))
          then 0xAA
          else m.bytes x)

-- The three ways in which `calloc` ends; the last two are those in which `malloc` gives NULL.
pub data Cleared (env : Env) (fuel n : ℕ) (m : Memory) (rs : List Region) : Run ℕ → Type 0 where
  zeroed : {ret : ℕ} {m' : Memory} → Zeroed env n m rs ret m' → Cleared env fuel n m rs (ok ret m')
  nothing : n ≡ 0 → malloc env fuel n m ≡ ok null m → Cleared env fuel n m rs (ok null m)
  crashed : 0 < n → malloc env fuel n m ≡ ok null m → Cleared env fuel n m rs fault

memset_lem :
    (p v n : ℕ) (m : Memory)
    → p ≢ null
    → memset p v n m ≡ ok tt (record m { bytes = fill_bytes m.bytes p v n })
unfolding memset
memset_lem p v n m h = rw (==_ne p null h) refl

memset-null : (v n : ℕ) (m : Memory) → 0 < n → memset null v n m ≡ fault
unfolding memset
memset-null v n m h = rw (lt→ltb 0 n h) refl

memset_nothing : (v : ℕ) (m : Memory) → memset null v 0 m ≡ ok tt m
unfolding memset fill_bytes
memset_nothing v m = ap (λ f. ok tt (record m { bytes = f })) (fun_ext (λ x. ground arith))

abbrev cleared_tail : ℕ → ℕ → Memory → Run ℕ
cleared_tail n ret m = and_then (memset ret 0 n m) (λ _. pure ret)

tail_refused :
    (env : Env) (fuel n : ℕ) (m : Memory) (rs : List Region)
    → malloc env fuel n m ≡ ok null m
    → Cleared env fuel n m rs (cleared_tail n null m)
tail_refused env fuel n m rs refused = elim (Bool-cases (n == 0)) [
  | inl z ↦
      let e : n ≡ 0 = ground arith in
      subst (Cleared env fuel n m rs)
        (sym (
          ap (λ k. cleared_tail k null m) e
          ∙ ap (λ r. and_then r (λ _. pure null)) (memset_nothing 0 m)))
        (nothing e refused)
  | inr z ↦ rw (memset-null 0 n m (ground arith)) (crashed (ground arith) refused)
]

tail-Granted :
    (env : Env) (fuel n ret : ℕ) (m m' : Memory) (rs : List Region)
    → Granted env (align n) m rs ret m'
    → Cleared env fuel n m rs (cleared_tail n ret m')
unfolding fill_bytes
tail-Granted env fuel n ret m m' rs g = rw (memset_lem ret 0 n m' (omega (arith, g.at_payload))) (
    zeroed (record {
      rs' = g.rs';
      q = g.q;
      at_payload = g.at_payload;
      holds = record { valid = g.holds.valid; stored = g.holds.stored; head = g.holds.head };
      unused = g.unused;
      updated = g.updated;
      bytes = λ x. rw (g.bytes x) refl;
    }))

ap2_ok : {ret : ℕ} {m m' : Memory} → ret ≡ null → m' ≡ m → ok ret m' ≡ ok null m
ap2_ok e f = rw (e, f) refl

-- On a memory whose chain is that of valid regions, with fuel for its blocks, where `mmap` returns
-- ranges that meet no region, the product does not wrap around and its aligned size is moderate,
-- `calloc` ends as `Cleared` says: with the granted payload set to 0, or, where `malloc` gives NULL, in
-- NULL for a product of 0 and in a write through NULL for any other.
pub calloc-Cleared :
    (env : Env) (fuel nmemb size : ℕ) (m : Memory) (rs : List Region)
    → Holds m rs
    → MapsFresh env rs
    → nmemb * size < word_mod
    → Moderate env (align (nmemb * size))
    → length (blocks rs null) < fuel
    → Cleared env fuel (nmemb * size) m rs (calloc env fuel nmemb size m)
unfolding calloc
calloc-Cleared env fuel nmemb size m rs hold maps small moderate enough =
    let n = nmemb * size in
    let e : word n ≡ n = omega (arith, small) in
    let (ret, m', run, out) = malloc-Granted env fuel n m rs hold maps moderate enough in
    rw e (elim out [
      | inl (at, same) ↦
          let refused : malloc env fuel n m ≡ ok null m = run ∙ ap2_ok at same in
          subst (λ r. Cleared env fuel n m rs (and_then r (λ p. cleared_tail n p))) (sym refused)
            (tail_refused env fuel n m rs refused)
      | inr g ↦
          subst (λ r. Cleared env fuel n m rs (and_then r (λ p. cleared_tail n p))) (sym run)
            (tail-Granted env fuel n ret m m' rs g)
    ])

-- On a memory whose chain is that of valid regions, with fuel for its blocks, `realloc` of the payload
-- of a block in use returns NULL whatever the size; no byte is copied, and the block stays in use with
-- all others, unless the aligned size is 0, when it is freed.
pub realloc-null :
    (env : Env) (fuel p request : ℕ) (m : Memory) (rs : List Region)
    → Holds m rs
    → used rs p ≢ 0
    → length (blocks rs null) < fuel
    → (m' : Memory) × (rs' : List Region) × (realloc env fuel (p + header_size) request m
        ≡ ok null m')
      × Holds m' rs'
      × Updated rs rs' p (if align request == 0 then 0 else used rs p)
      × (m'.bytes ≡ m.bytes)
unfolding realloc
realloc-null env fuel p request m rs hold h enough =
    let ne : (p + header_size == null) ≡ false = ground arith in
    elim (Bool-cases (align request == 0)) [
      | inl z ↦
          let (m', run, r) = free-Returned env fuel p m rs hold h enough in
          (m', r.rs', rw (ne, z, run) refl, r.holds, rw z r.updated, r.bytes)
      | inr z ↦ (m, rs, rw (ne, z) refl, hold, λ x. rw z (ground arith), refl)
    ]
