-- ===== src/History/Represents.antt =====
-- The ring of Project2/history.c against the list of all commands that were added.
use cs.Common.{
  ℕ, ◌+◌, ◌-◌, ◌%◌, ◌≤◌, ◌<◌, ◌≡◌, ◌≢◌, refl, ap, sym, ◌∙◌, some, List, [], ◌∷◌, ◌++◌, Bytes,
  length, length-append, length-set, set, get_or, get_or-set_self, get_or-set_ne, ltb, lt→ltb,
  ltb→lt, not_ltb→le, Bool-cases, inl, inr, if◌then◌else◌, arith,
}
use cs.History.{History, max, slot, slot_size, add_history}
use cs.History.Ring.{slots_differ, slot_bound, get_or-before, get_or-end}

-- The state is that after the commands `cs`, the oldest first.
pub record Represents (h : History) (cs : List Bytes) : Type 0 where
  pub counts : h.cmd_count ≡ length cs
  pub oldest : h.minimum ≡ length cs - max
  pub newest : h.tail ≡ (length cs - 1) % max
  pub slots : length h.history ≡ max
  pub kept : (i : ℕ) → i < length cs → length cs ≤ i + max → slot h i ≡ get_or cs i []
  pub unwritten : (i : ℕ) → length cs ≤ i → i < max → slot h i ≡ []

module _ (h : History) (cs : List Bytes) (command : Bytes) (r : Represents h cs) where
  abbrev added : List Bytes
  added = set h.history (h.cmd_count % max) command

  length_added : length (cs ++ command ∷ []) ≡ length cs + 1
  length_added = length-append cs (command ∷ [])

  same_slot : get_or added (h.cmd_count % max) [] ≡ command
  same_slot =
      get_or-set_self h.history (h.cmd_count % max) command []
        (omega (arith, r.slots, slot_bound h.cmd_count))

  other_slot : (i : ℕ) → h.cmd_count % max ≢ i % max → get_or added (i % max) [] ≡ slot h i
  other_slot i ne = get_or-set_ne h.history (h.cmd_count % max) (i % max) command [] ne

  kept_added :
      (i : ℕ)
      → i < length cs + 1
      → length cs + 1 ≤ i + max
      → get_or added (i % max) [] ≡ get_or (cs ++ command ∷ []) i []
  kept_added i below recent = elim (Bool-cases (ltb i (length cs))) [
    | inl before ↦
        let lt = ltb→lt i (length cs) before in
        let ne : h.cmd_count % max ≢ i % max =
          rw (r.counts) (slots_differ i (length cs) lt (omega arith)) in
        other_slot i ne ∙ (r.kept i lt (omega arith) ∙ sym (get_or-before cs command [] i lt))
    | inr new ↦
        let e : i ≡ length cs = omega (arith, not_ltb→le i (length cs) new, below) in
        let here : get_or added (length cs % max) [] ≡ command =
          ap (λ k. get_or added (k % max) []) (sym r.counts) ∙ same_slot in
        rw e (here ∙ sym (get_or-end cs command []))
  ]

  unwritten_added : (i : ℕ) → length cs + 1 ≤ i → i < max → get_or added (i % max) [] ≡ []
  unwritten_added i behind below =
      let ne : h.cmd_count % max ≢ i % max = λ e. omega (arith, e, r.counts, behind, below) in
      other_slot i ne ∙ r.unwritten i (omega arith) below

-- The state behind a command that fits.
abbrev pub after_add : Bytes → History → History
after_add command h = record {
  history = set h.history (h.cmd_count % max) command;
  minimum = if ltb max (h.cmd_count + 1) then h.minimum + 1 else h.minimum;
  cmd_count = h.cmd_count + 1;
  tail = h.cmd_count % max;
}

pub after_add-Represents :
    (h : History) (cs : List Bytes) (command : Bytes)
    → Represents h cs
    → Represents (after_add command h) (cs ++ command ∷ [])
after_add-Represents h cs command r =
    let n = length_added h cs command r in
    let moved : (if ltb max (h.cmd_count + 1) then h.minimum + 1 else h.minimum)
        ≡ length cs + 1 - max =
      ground (arith, r.counts, r.oldest) in
    record {
      counts = omega (arith, n, r.counts);
      oldest = rw n moved;
      newest = rw (n, r.counts) (ap (λ k. k % max) (omega arith));
      slots = length-set h.history (h.cmd_count % max) command ∙ r.slots;
      kept = λ i b k. kept_added h cs command r i (rw (← n) b) (rw (← n) k);
      unwritten = λ i b k. unwritten_added h cs command r i (rw (← n) b) k;
    }

-- On a ring that represents a list of commands, `add_history` of a command that fits a slot succeeds,
-- and the new ring represents the list with that command at its end.
pub add_history-Represents :
    (h : History) (cs : List Bytes) (command : Bytes)
    → Represents h cs
    → length command < slot_size
    → (h' : History) × (add_history command h ≡ some h') × Represents h' (cs ++ command ∷ [])
unfolding add_history
add_history-Represents h cs command r fits = (
  after_add command h,
  rw (lt→ltb (length command) slot_size fits) refl,
  after_add-Represents h cs command r,
)
