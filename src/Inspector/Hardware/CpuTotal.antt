-- ===== src/Inspector/Hardware/CpuTotal.antt =====
-- The total of the CPU times, which `main` of Project1/inspector.c adds up field by field, reading the file
-- again for each.
use cs.Common.{
  ℕ, ◌+◌, ◌≡◌, ◌≤◌, ◌<◌, refl, sym, subst, ◌∙◌, true, some, List, [], ◌∷◌, ◌++◌, All, Bytes, codes,
  length, length-append, get_elem?, ℤ, pos, ◌+ℤ◌, atoi, arith,
}
use mathlib.Core.List.{append_assoc}
use cs.Tokens.Leads.{Leads}
use cs.Inspector.Run.{World, State, Run, ok, take_bytes}
use cs.Inspector.Fields.{required}
use cs.Inspector.Fields.Lookup.{read_field-Leads}
use cs.Inspector.Hardware.{in_int, add_field, cpu_field, cpu_total}

abbrev pub add_ints : ℤ → List Bytes → ℤ
add_ints total [] = total
add_ints total (v ∷ vs) = add_ints (total +ℤ atoi v) vs

-- Every field, and every partial sum from `total` on, is a value of `int`.
abbrev pub Ints : ℤ → List Bytes → Type 0
Ints total [] = Unit
Ints total (v ∷ vs) =
    (in_int (atoi v) ≡ true) × (in_int (total +ℤ atoi v) ≡ true) × Ints (total +ℤ atoi v) vs

-- The command gives the value, and shows nothing.
pub record Yields {ℓ} {A : Type ℓ} (r : Run A) (a : A) (s : State) : Type ℓ where
  pub after : State
  pub done : r ≡ ok a after
  pub same_out : after.out ≡ s.out

get_elem?-append :
    (xs : List Bytes) (v : Bytes) (ys : List Bytes) → get_elem? (xs ++ v ∷ ys) (length xs) ≡ some v
get_elem?-append [] v ys = refl
get_elem?-append (x ∷ xs) v ys = get_elem?-append xs v ys

-- A world in which the file `stat` stays the same, and its first line has these fields.
module _ (w : World) (file : Bytes)
    (same : (k : ℕ) → w.open_proc k (codes "stat") ≡ some file) where
  cpu_field-Yields :
      (i : ℕ) (vs : List Bytes) (v : Bytes) (s : State)
      → Leads (codes " ") (take_bytes 1000 file) (codes "cpu" ∷ vs)
      → length vs ≤ 10000
      → get_elem? vs i ≡ some v
      → length v < 1000
      → Yields (cpu_field w i s) v s
  unfolding cpu_field required
  cpu_field-Yields i vs v s h few e fits =
      let r =
        read_field-Leads file 1000 (codes " ") (codes "cpu") i 1000
          (record s { opens = s.opens + 1 }) (codes "cpu" ∷ vs) v refl h (omega (arith, few)) e
          fits in
      rw (same s.opens) (record { after = r.after; done = r.done; same_out = r.same_out })

  cpu_total-from :
      (before taken rest : List Bytes) (total : ℤ) (s : State)
      → Leads (codes " ") (take_bytes 1000 file) (codes "cpu" ∷ (before ++ (taken ++ rest)))
      → length (before ++ (taken ++ rest)) ≤ 10000
      → All (λ v. length v < 1000) taken
      → Ints total taken
      → Yields (cpu_total w (length taken) (length before) total s) (add_ints total taken) s
  unfolding cpu_total add_field
  cpu_total-from before [] rest total s h few fits ints = record {
    after = s;
    done = refl;
    same_out = refl;
  }
  cpu_total-from before (v ∷ taken) rest total s h few fits ints =
      let f =
        cpu_field-Yields (length before) (before ++ (v ∷ (taken ++ rest))) v s h few
          (get_elem?-append before v (taken ++ rest)) fits.0 in
      let regroup = append_assoc before (v ∷ []) (taken ++ rest) in
      let next : length (before ++ v ∷ []) ≡ length before + 1 =
        omega (arith, length-append before (v ∷ [])) in
      let r =
        cpu_total-from (before ++ v ∷ []) taken rest (total +ℤ atoi v) f.after
          (subst (λ z. Leads (codes " ") (take_bytes 1000 file) (codes "cpu" ∷ z)) (sym regroup) h)
          (subst (λ z. length z ≤ 10000) (sym regroup) few) fits.1 ints.2 in
      record {
        after = r.after;
        done = rw (cpu_total, f.done, add_field, ints.0, ints.1, ← next) r.done;
        same_out = r.same_out ∙ f.same_out;
      }

  -- When every `open` of stat gives the same file, and it begins with cpu and then at least eight
  -- fields, at most 10000, of which the first eight fit their array and are, with their partial sums,
  -- values of `int`, the loop over the fields gives the sum of the first eight, though it reads the
  -- file again for each into a buffer that the last round has cut up.
  pub cpu_total-Yields :
      (taken rest : List Bytes) (s : State)
      → length taken ≡ 8
      → Leads (codes " ") (take_bytes 1000 file) (codes "cpu" ∷ (taken ++ rest))
      → length (taken ++ rest) ≤ 10000
      → All (λ v. length v < 1000) taken
      → Ints (pos 0) taken
      → Yields (cpu_total w 8 0 (pos 0) s) (add_ints (pos 0) taken) s
  cpu_total-Yields taken rest s eight h few fits ints =
      subst (λ n. Yields (cpu_total w n 0 (pos 0) s) (add_ints (pos 0) taken) s) eight
        (cpu_total-from [] taken rest (pos 0) s h few fits ints)
