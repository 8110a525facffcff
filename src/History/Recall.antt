-- ===== src/History/Recall.antt =====
-- What `get_cmd` of Project2/history.c gives back of the commands that were added.
use cs.Common.{
  ℤ, pos, negsuc, ℕ, ◌+◌, ◌-◌, ◌%◌, ◌≤◌, ◌<◌, ◌≡◌, refl, ap, ◌∙◌, true, false, ◌&&◌, Option, none,
  some, List, [], Bytes, length, get_or, leb, ltb, ltb→lt, not_ltb→le, Bool-cases, inl, inr,
  if◌then◌else◌, arith,
}
use cs.History.{History, max, slot, get_cmd}
use cs.History.Ring.{slot_back}
use cs.History.Represents.{Represents}

-- What a command number recalls of the commands `cs`. The number behind the last one is let through.
pub data Recalls (cs : List Bytes) (num : ℤ) (r : Option Bytes) : Type 0 where
  negative : (n : ℕ) → num ≡ negsuc n → r ≡ none → Recalls cs num r
  gone : (i : ℕ) → num ≡ pos i → i + max < length cs → r ≡ none → Recalls cs num r
  known :
      (i : ℕ)
      → num ≡ pos i
      → i < length cs
      → length cs ≤ i + max
      → r ≡ some (get_or cs i [])
      → Recalls cs num r
  behind_last :
      num ≡ pos (length cs)
      → r ≡ some (if ltb (length cs) max then [] else get_or cs (length cs - max) [])
      → Recalls cs num r
  beyond : (i : ℕ) → num ≡ pos i → length cs < i → r ≡ none → Recalls cs num r

module _ (h : History) (cs : List Bytes) (r : Represents h cs) where
  get_inside : (i : ℕ) → length cs ≤ i + max → i ≤ length cs → get_cmd (pos i) h ≡ some (slot h i)
  unfolding get_cmd
  get_inside i recent below =
      let inside : (leb h.minimum i && leb i h.cmd_count) ≡ true =
        ground (arith, r.counts, r.oldest) in
      rw inside refl

  pub get_known :
      (i : ℕ) → i < length cs → length cs ≤ i + max → get_cmd (pos i) h ≡ some (get_or cs i [])
  get_known i below recent = get_inside i recent (omega arith) ∙ ap some (r.kept i below recent)

  get_outside : (i : ℕ) → (leb h.minimum i && leb i h.cmd_count) ≡ false → get_cmd (pos i) h ≡ none
  unfolding get_cmd
  get_outside i out = rw out refl

  slot_next :
      slot h (length cs) ≡ (if ltb (length cs) max then [] else get_or cs (length cs - max) [])
  slot_next = elim (Bool-cases (ltb (length cs) max)) [
    | inl few ↦ rw few (r.unwritten (length cs) (omega arith) (ltb→lt (length cs) max few))
    | inr many ↦
        let le = not_ltb→le (length cs) max many in
        let same : length cs % max ≡ (length cs - max) % max =
          omega (arith, le, slot_back (length cs - max)) in
        let start : length cs - max < length cs = omega (arith, le) in
        let recent : length cs ≤ length cs - max + max = omega (arith, le) in
        rw many (ap (λ k. get_or h.history k []) same ∙ r.kept (length cs - max) start recent)
  ]

  recall_pos : (i : ℕ) → Recalls cs (pos i) (get_cmd (pos i) h)
  recall_pos i = elim (Bool-cases (ltb (i + max) (length cs))) [
    | inl old ↦
        let lt = ltb→lt (i + max) (length cs) old in
        gone i refl lt (get_outside i (ground (arith, r.counts, r.oldest)))
    | inr recent ↦
        let le = not_ltb→le (i + max) (length cs) recent in
        elim (Bool-cases (ltb i (length cs))) [
          | inl before ↦
              let lt = ltb→lt i (length cs) before in known i refl lt le (get_known i lt le)
          | inr after ↦
              let ge = not_ltb→le i (length cs) after in
              elim (Bool-cases (ltb (length cs) i)) [
                | inl past ↦
                    let lt = ltb→lt (length cs) i past in
                    beyond i refl lt (get_outside i (ground (arith, r.counts, r.oldest)))
                | inr at ↦
                    let e : i ≡ length cs = omega (arith, ge, not_ltb→le (length cs) i at) in
                    behind_last (ap pos e) (
                      rw e (get_inside (length cs) (omega arith) (omega arith) ∙ ap some slot_next))
              ]
        ]
  ]

-- On a ring that represents a list of commands, `get_cmd` of any number is as `Recalls` says: the
-- command of that number if it is among the last 100, nothing for one before these, for a negative
-- number and for one past the count, but for the number behind the last command an empty command, or
-- the oldest of the last 100.
pub get_cmd-Recalls :
    (num : ℤ) (h : History) (cs : List Bytes) → Represents h cs → Recalls cs num (get_cmd num h)
unfolding get_cmd
get_cmd-Recalls (pos i) h cs r = recall_pos h cs r i
get_cmd-Recalls (negsuc n) h cs r = negative n refl refl
