-- ===== src/Allocator/Reuse.antt =====
-- `reuse` of Project3/allocator.c: what each of its three loops finds in the chain.
use cs.Common.{
  ℕ, ◌≤◌, ◌<◌, ◌≡◌, refl, inl, inr, [], ◌∷◌, ◌++◌, arith, length, Bool-cases, String, if◌then◌else◌,
}
use text.Mathlib.Text.{◌==◌ as str_eq}
use cs.Allocator.{algorithm_name, reuse}
use cs.Allocator.Heap.{MemBlock, Memory, Env, ok, null, room, int_max, real_size}
use cs.Allocator.Regions.{Stored, Linked}
use cs.Allocator.Links.{In}
use cs.Allocator.Fit.{
  BestFit, Chain, FirstFit, WorstFit, best_fit_lem, chose, first_fit_lem, found, kept, nothing,
  worst_fit_lem,
}

-- A block of the chain with the room that is needed, or none.
pub data Reusable (need : ℕ) (xs : Chain) (p : ℕ) : Type 0 where
  no_block : p ≡ null → Reusable need xs p
  block : (b : MemBlock) → In (p, b) xs → need ≤ room b → Reusable need xs p

In-middle : (pre : Chain) (x : ℕ × MemBlock) (post : Chain) → In x (pre ++ x ∷ post)
In-middle [] x post = inl refl
In-middle (y ∷ pre) x post = inr (In-middle pre x post)

chosen :
    (need p : ℕ) (x : ℕ × MemBlock) (xs : Chain)
    → In x xs
    → p ≡ x.0
    → need ≤ room x.1
    → Reusable need xs p
chosen need p x xs i e h = block x.1 (rw e i) h

FirstFit-Reusable : (need p : ℕ) (xs : Chain) → FirstFit need xs p → Reusable need xs p
FirstFit-Reusable need p xs (nothing e a) = no_block e
FirstFit-Reusable need p xs (found pre x post e f h a) =
    chosen need p x xs (rw e (In-middle pre x post)) f (omega arith)

BestFit-Reusable :
    (need usage p : ℕ) (xs : Chain) → BestFit need usage null xs p → Reusable need xs p
BestFit-Reusable need usage p xs (kept e a) = no_block e
BestFit-Reusable need usage p xs (chose pre x post i e h k a b) =
    chosen need p x xs (rw i (In-middle pre x post)) e h

WorstFit-Reusable :
    (need usage p : ℕ) (xs : Chain) → WorstFit need usage null xs p → Reusable need xs p
WorstFit-Reusable need usage p xs (kept e a) = no_block e
WorstFit-Reusable need usage p xs (chose pre x post i e h k a b) =
    chosen need p x xs (rw i (In-middle pre x post)) e h

pub data Policy : Type 0 where
  first_fit_policy best_fit_policy worst_fit_policy unknown_policy : Policy

abbrev pub policy : String → Policy
policy algo =
    if str_eq algo "first_fit"
    then first_fit_policy
    else if str_eq algo "best_fit"
    then best_fit_policy
    else if str_eq algo "worst_fit"
    then worst_fit_policy
    else unknown_policy

-- What each policy promises of the block at `p`.
abbrev pub Picks : Policy → ℕ → Chain → ℕ → Type 0
Picks first_fit_policy need xs p = FirstFit need xs p
Picks best_fit_policy need xs p = BestFit need int_max null xs p
Picks worst_fit_policy need xs p = WorstFit need 0 null xs p
Picks unknown_policy need xs p = p ≡ null

pub Picks-Reusable : (k : Policy) (need p : ℕ) (xs : Chain) → Picks k need xs p → Reusable need xs p
Picks-Reusable first_fit_policy need p xs h = FirstFit-Reusable need p xs h
Picks-Reusable best_fit_policy need p xs h = BestFit-Reusable need int_max p xs h
Picks-Reusable worst_fit_policy need p xs h = WorstFit-Reusable need 0 p xs h
Picks-Reusable unknown_policy need p xs h = no_block h

module _ (env : Env) (fuel size : ℕ) (xs : Chain) (m : Memory) (l : Linked m.g_head xs null)
    (st : Stored m.headers xs) (enough : length xs < fuel) where
  -- On a linked and stored chain, with fuel for its blocks, `reuse` returns, changes nothing, and picks
  -- the block that the policy named by the environment promises: the first with more room than is
  -- needed, the last of those with the least room that is enough (up to INT_MAX), the last of those
  -- with the most room, or none for an unknown name.
  pub reuse-Picks :
      (r : ℕ) × (reuse env fuel size m ≡ ok r m)
      × Picks (policy (algorithm_name env.algorithm)) (real_size size) xs r
  unfolding reuse
  reuse-Picks =
      let need = real_size size in
      let algo = algorithm_name env.algorithm in
      elim (Bool-cases (str_eq algo "first_fit")) [
        | inl a ↦ rw a (first_fit_lem fuel need m.g_head xs m l st enough)
        | inr a ↦ rw a (elim (Bool-cases (str_eq algo "best_fit")) [
          | inl b ↦ rw b (best_fit_lem fuel need m.g_head int_max null xs m l st enough)
          | inr b ↦ rw b (elim (Bool-cases (str_eq algo "worst_fit")) [
            | inl c ↦ rw c (worst_fit_lem fuel need m.g_head 0 null xs m l st enough)
            | inr c ↦ rw c (null, refl, refl)
          ])
        ])
      ]
