-- ===== src/History/Find.antt =====
-- What `find_cmd` of Project2/history.c finds among the commands that were added.
use cs.Common.{
  ℕ, zero, suc, ◌+◌, ◌-◌, ◌≤◌, ◌<◌, ◌≡◌, refl, subst, true, false, List, [], Bytes, length, get_or,
  ltb, ltb→lt, not_ltb→le, Bool-cases, inl, inr, arith,
}
use cs.History.{History, max, starts_with, Found, not_found, copy_found, find_from, find_cmd}
use cs.History.Recall.{get_known}
use cs.History.Represents.{Represents}

-- The last command with a prefix, among those with the numbers from `low` up to `high`.
pub data Finds (cmd : Bytes) (cs : List Bytes) (low high : ℕ) (f : Found) : Type 0 where
  nowhere :
      f ≡ not_found
      → ((i : ℕ) → low ≤ i → i < high → starts_with cmd (get_or cs i []) ≡ false)
      → Finds cmd cs low high f
  latest :
      (j : ℕ)
      → low ≤ j
      → j < high
      → starts_with cmd (get_or cs j []) ≡ true
      → ((i : ℕ) → j < i → i < high → starts_with cmd (get_or cs i []) ≡ false)
      → f ≡ copy_found (get_or cs j [])
      → Finds cmd cs low high f

module _ (cmd : Bytes) (cs : List Bytes) (low n : ℕ) (f : Found)
    (no_match : starts_with cmd (get_or cs (low + n) []) ≡ false) where
  extend :
      (i : ℕ)
      → (i < low + n → starts_with cmd (get_or cs i []) ≡ false)
      → i < low + suc n
      → starts_with cmd (get_or cs i []) ≡ false
  extend i before k = elim (Bool-cases (ltb i (low + n))) [
    | inl lt ↦ before (ltb→lt i (low + n) lt)
    | inr ge ↦ let e : i ≡ low + n = omega (arith, not_ltb→le i (low + n) ge, k) in rw e no_match
  ]

  Finds-skip : Finds cmd cs low (low + n) f → Finds cmd cs low (low + suc n) f
  Finds-skip (nowhere e all) = nowhere e (λ i l k. extend i (all i l) k)
  Finds-skip (latest j l k hit all e) =
      latest j l (omega arith) hit (λ i a b. extend i (all i a) b) e

module _ (cmd : Bytes) (h : History) (cs : List Bytes) (r : Represents h cs) where
  find_from-Finds :
      (n : ℕ)
      → h.minimum + n ≤ length cs
      → Finds cmd cs h.minimum (h.minimum + n) (find_from n cmd h)
  unfolding find_from
  find_from-Finds zero inside = nowhere refl (λ i l k. absurd (omega (arith, l, k)))
  find_from-Finds (suc n) inside =
      let known = get_known h cs r (h.minimum + n) (omega arith) (omega (arith, r.oldest)) in
      let before = find_from-Finds n (omega arith) in
      elim (Bool-cases (starts_with cmd (get_or cs (h.minimum + n) []))) [
        | inl hit ↦
            rw (known, hit)
              (latest (h.minimum + n) (omega arith) (omega arith) hit
                (λ i a b. absurd (omega (arith, a, b))) refl)
        | inr miss ↦
            rw (known, miss) (Finds-skip cmd cs h.minimum n (find_from n cmd h) miss before)
      ]

-- On a ring that represents a list of commands, `find_cmd` finds the last one with the prefix among the
-- last 100, as a copy that overruns its buffer if the command has nine bytes or more, and nothing if
-- none of them has the prefix.
pub find_cmd-Finds :
    (cmd : Bytes) (h : History) (cs : List Bytes)
    → Represents h cs
    → Finds cmd cs (length cs - max) (length cs) (find_cmd cmd h)
unfolding find_cmd
find_cmd-Finds cmd h cs r =
    let all : h.minimum + (h.cmd_count - h.minimum) ≡ length cs =
      omega (arith, r.counts, r.oldest) in
    let found = find_from-Finds cmd h cs r (h.cmd_count - h.minimum) (omega (arith, all)) in
    subst (λ l. Finds cmd cs l (length cs) (find_cmd cmd h)) r.oldest
      (subst (λ k. Finds cmd cs h.minimum k (find_cmd cmd h)) all found)
