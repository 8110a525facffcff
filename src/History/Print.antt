-- ===== src/History/Print.antt =====
-- What `print_history` of Project2/history.c prints of the commands that were added.
use cs.Common.{
  ℤ, pos, ℕ, zero, suc, ◌+◌, ◌-◌, ◌%◌, ◌≤◌, ◌<◌, ◌≡◌, refl, ap, sym, ◌∙◌, true, List, [], Bytes,
  length, get_or, leb, ltb, ◌==◌, ltb→lt, not_ltb→le, Bool-cases, inl, inr, arith,
}
use cs.History.{History, max, slot, print_from, print_history, minus_max, line}
use cs.History.Represents.{Represents}

-- The commands with the numbers from `m`, each with its number, empty ones left out.
abbrev pub numbered : ℕ → ℕ → List Bytes → List (ℤ × Bytes)
numbered zero m cs = []
numbered (suc n) m cs = line (pos m) (get_or cs m []) (numbered n (m + 1) cs)

minus_max_pos : (m : ℕ) → minus_max (m + max) ≡ pos m
unfolding minus_max
minus_max_pos m =
    let le : leb max (m + max) ≡ true = ground arith in
    let back : m + max - max ≡ m = omega arith in rw (le, back) refl

module _ (h : History) (cs : List Bytes) (r : Represents h cs) where
  -- The slots of commands that are kept.
  print_kept :
      (n i m : ℕ)
      → i % max ≡ m % max
      → m + n ≡ length cs
      → length cs ≤ m + max
      → print_from n i (m + max) h ≡ numbered n m cs
  unfolding print_from
  print_kept zero i m e all recent = refl
  print_kept (suc n) i m e all recent =
      let next : (i + 1) % max ≡ (m + 1) % max = omega (arith, e) in
      let shift : m + max + 1 ≡ m + 1 + max = omega arith in
      let here : slot h i ≡ get_or cs m [] =
        ap (λ k. get_or h.history k []) e ∙ r.kept m (omega (arith, all)) recent in
      let rest = print_kept n (i + 1) (m + 1) next (omega (arith, all)) (omega (arith, recent)) in
      rw (minus_max_pos m, here, shift, rest) refl

  -- The slots that were never written.
  print_unwritten :
      (k n i j : ℕ)
      → ((q : ℕ) → q < k → slot h (i + q) ≡ [])
      → print_from (k + n) i j h ≡ print_from n (i + k) (j + k) h
  unfolding print_from
  print_unwritten zero n i j empty = ap3 (omega arith) (omega arith) (omega arith)
    where
      ap3 : {a b c d e f : ℕ} → a ≡ b → c ≡ d → e ≡ f → print_from a c e h ≡ print_from b d f h
      ap3 p q s = λ t. print_from (p t) (q t) (s t) h
  print_unwritten (suc k) n i j empty =
      let split : suc k + n ≡ suc (k + n) = omega arith in
      let i_next : i + 1 + k ≡ i + suc k = omega arith in
      let j_next : j + 1 + k ≡ j + suc k = omega arith in
      let here : slot h i ≡ [] = ap (λ p. slot h p) (omega arith) ∙ empty 0 (omega arith) in
      let rest =
        print_unwritten k n (i + 1) (j + 1)
          (λ q b. ap (λ p. slot h p) (omega arith) ∙ empty (suc q) (omega (arith, b))) in
      ap (λ z. print_from z i j h) split
      ∙ (first_line here ∙ (rest ∙ (λ t. print_from n (i_next t) (j_next t) h)))
    where
      first_line :
          slot h i ≡ [] → print_from (suc (k + n)) i j h ≡ print_from (k + n) (i + 1) (j + 1) h
      first_line e = rw e refl

  -- A ring that is full.
  print_full :
      max ≤ length cs
      → print_history h ≡ numbered (length cs - (length cs - max)) (length cs - max) cs
  unfolding print_history
  print_full le =
      let start : (h.tail + 1) % max ≡ (length cs - max) % max = omega (arith, r.newest, le) in
      let all : length cs - max + max ≡ length cs = omega (arith, le) in
      let span : length cs - (length cs - max) ≡ max = omega (arith, le) in
      let j : h.cmd_count ≡ length cs - max + max = omega (arith, all, r.counts) in
      ap (λ q. print_from max (h.tail + 1) q h) j
      ∙ (print_kept max (h.tail + 1) (length cs - max) start all (omega (arith, all))
          ∙ sym (ap (λ n. numbered n (length cs - max) cs) span))

  -- A ring that is not: first the slots that were never written, then the commands.
  print_few :
      length cs < max
      → 0 < length cs
      → print_history h ≡ numbered (length cs - (length cs - max)) (length cs - max) cs
  unfolding print_history
  print_few few some_yet =
      let k = max - length cs in
      let whole : max ≡ k + length cs = omega (arith, few) in
      let i : h.tail + 1 ≡ length cs = omega (arith, r.newest, few, some_yet) in
      let wrapped : (h.tail + 1 + k) % max ≡ 0 % max = omega (arith, i, few) in
      let j : h.cmd_count + k ≡ 0 + max = omega (arith, r.counts, few) in
      let span : length cs - (length cs - max) ≡ length cs = omega (arith, few) in
      let from : length cs - max ≡ 0 = omega (arith, few) in
      ap (λ z. print_from z (h.tail + 1) h.cmd_count h) whole
      ∙ (print_unwritten k (length cs) (h.tail + 1) h.cmd_count
            (λ q b. r.unwritten (h.tail + 1 + q) (omega (arith, i)) (omega (arith, i, b)))
          ∙ (ap (λ q. print_from (length cs) (h.tail + 1 + k) q h) j
              ∙ (print_kept (length cs) (h.tail + 1 + k) 0 wrapped (omega arith)
                    (omega (arith, few))
                  ∙ sym (λ t. numbered (span t) (from t) cs))))

  print_none :
      length cs ≡ 0
      → print_history h ≡ numbered (length cs - (length cs - max)) (length cs - max) cs
  unfolding print_history print_from
  print_none z =
      let empty : (q : ℕ) → slot h q ≡ [] = λ q.
        let twice : q % max ≡ q % max % max = omega arith in
        ap (λ p. get_or h.history p []) twice
        ∙ r.unwritten (q % max) (omega (arith, z)) (omega arith) in
      let span : length cs - (length cs - max) ≡ 0 = omega (arith, z) in
      print_unwritten max 0 (h.tail + 1) h.cmd_count (λ q b. empty (h.tail + 1 + q))
      ∙ sym (ap (λ n. numbered n (length cs - max) cs) span)

-- On a ring that represents a list of commands, `print_history` prints the last 100 of them, each with
-- its number and in order, without the empty ones.
pub print_history_lem :
    (h : History) (cs : List Bytes)
    → Represents h cs
    → print_history h ≡ numbered (length cs - (length cs - max)) (length cs - max) cs
print_history_lem h cs r = elim (Bool-cases (ltb (length cs) max)) [
  | inl few ↦ elim (Bool-cases (length cs == 0)) [
    | inl none_yet ↦ print_none h cs r (ground arith)
    | inr some_yet ↦ print_few h cs r (ltb→lt (length cs) max few) (ground arith)
  ]
  | inr many ↦ print_full h cs r (not_ltb→le (length cs) max many)
]
