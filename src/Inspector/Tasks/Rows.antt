-- ===== src/Inspector/Tasks/Rows.antt =====
-- The rows that the task list of Project1/inspector.c shows.
use cs.Common.{
  ℕ, ◌+◌, ◌≡◌, refl, ap, sym, subst, ◌∙◌, true, false, List, [], ◌∷◌, ◌++◌, map, Bytes, codes,
  length, if◌then◌else◌, Bool-cases, inl, inr, arith,
}
use mathlib.Core.List.{append_assoc, append-nil}
use cs.Inspector.Tasks.Quiet.{Post, Quiet, and_then-Post, optional-Quiet, read_user-Quiet}
use cs.Inspector.Run.{World, Dirent, State, Run, ok, exit, fault, Cmd, and_then}
use cs.Inspector.Tasks.{
  Row, is_process, count_tasks, read_user, status_field, row_text, new_row, pid_of, list_process,
  list_tasks,
}

-- What the listing says of a directory: a row for each process, in order.
abbrev pub texts : List Row → Bytes
texts [] = []
texts (r ∷ rs) = row_text r ++ texts rs

abbrev pub processes : List Dirent → List Dirent
processes [] = []
processes (e ∷ es) = if is_process e then e ∷ processes es else processes es

pub record Listed (es : List Dirent) (s s' : State) : Type 0 where
  pub rows : List Row
  pub shown : s'.out ≡ s.out ++ texts rows
  pub pids : map (λ r. r.pid) rows ≡ map (λ e. pid_of e.d_name) (processes es)
  pub counted : length rows ≡ count_tasks es 0

abbrev Shows : Bytes → State → Row → State → Type 0
Shows d_name s r s' = (s'.out ≡ s.out ++ row_text r) × (r.pid ≡ pid_of d_name)

Post-mono {ℓ} :
    {A : Type ℓ} (Q R : A → State → Type 0) (r : Run A)
    → ((a : A) (s : State) → Q a s → R a s)
    → Post Q r
    → Post R r
Post-mono Q R (ok a s) f h = f a s h
Post-mono Q R (exit code out) f h = absurd h
Post-mono Q R (fault e) f h = tt

and_then-Shows :
    (d_name : Bytes) (s : State) (r : Run Bytes) (f : Bytes → Cmd Row)
    → Post (Quiet s) r
    → ((a : Bytes) (s' : State) → Post (Shows d_name s') (f a s'))
    → Post (Shows d_name s) (and_then r f)
and_then-Shows d_name s r f h g = and_then-Post (Quiet s) (Shows d_name s) r f h (λ a s' q.
    Post-mono (Shows d_name s') (Shows d_name s) (f a s')
      (λ row s2 (o, pid). (o ∙ ap (λ z. z ++ row_text row) q, pid)) (g a s'))

list_process-Shows :
    (w : World) (d_name : Bytes) (r : Row) (s : State)
    → Post (Shows d_name s) (list_process w d_name r s)
unfolding list_process new_row
list_process-Shows w d_name r s =
    let full_dir = d_name ++ codes "/status" in
    and_then-Shows d_name s (status_field w full_dir (codes "Threads:") 5 r.tasks s) _
      (optional-Quiet w full_dir 100000 (codes " \n\t") (codes "Threads:") 0 5 r.tasks s)
      (λ tasks s1.
        and_then-Shows d_name s1 (status_field w full_dir (codes "Name:") 200 r.name s1) _
          (optional-Quiet w full_dir 100000 (codes " \n\t") (codes "Name:") 0 200 r.name s1)
          (λ name s2.
            and_then-Shows d_name s2 (status_field w full_dir (codes "State:") 13 r.state s2) _
              (optional-Quiet w full_dir 100000 (codes " \n\t") (codes "State:") 0 13 r.state s2)
              (λ state s3.
                and_then-Shows d_name s3 (read_user w full_dir r.user s3) _
                  (read_user-Quiet w full_dir r.user s3) (λ user s4. (refl, refl)))))

count_tasks-+ : (es : List Dirent) (n : ℕ) → count_tasks es n ≡ n + count_tasks es 0
unfolding count_tasks
count_tasks-+ [] n = omega arith
count_tasks-+ (e ∷ es) n = elim (Bool-cases (is_process e)) [
  | inl y ↦ rw y (omega (arith, count_tasks-+ es (n + 1), count_tasks-+ es (0 + 1)))
  | inr n' ↦ rw n' (count_tasks-+ es n)
]

Listed-more :
    (e : Dirent) (es : List Dirent) (s s1 s2 : State) (row : Row)
    → is_process e ≡ true
    → Shows e.d_name s row s1
    → Listed es s1 s2
    → Listed (e ∷ es) s s2
unfolding count_tasks
Listed-more e es s s1 s2 row y (out, pid) h = record {
  rows = row ∷ h.rows;
  shown =
      h.shown
      ∙ (ap (λ z. z ++ texts h.rows) out ∙ append_assoc s.out (row_text row) (texts h.rows));
  pids = rw y (ap (λ z. z ∷ map (λ r. r.pid) h.rows) pid ∙ ap (λ z. pid_of e.d_name ∷ z) h.pids);
  counted = rw y (omega (arith, h.counted, count_tasks-+ es (0 + 1)));
}

Listed-skip :
    (e : Dirent) (es : List Dirent) (s s2 : State)
    → is_process e ≡ false
    → Listed es s s2
    → Listed (e ∷ es) s s2
unfolding count_tasks
Listed-skip e es s s2 n h = record {
  rows = h.rows;
  shown = h.shown;
  pids = rw n h.pids;
  counted = rw n h.counted;
}

list_tasks-Post :
    (w : World) (es : List Dirent) (r : Row) (s : State)
    → Post (λ _ s'. Listed es s s') (list_tasks w es r s)
unfolding list_tasks count_tasks
list_tasks-Post w [] r s = record {
  rows = [];
  shown = sym (append-nil s.out);
  pids = refl;
  counted = refl;
}
list_tasks-Post w (e ∷ es) r s = elim (Bool-cases (is_process e)) [
  | inl y ↦ rw y (
      and_then-Post (Shows e.d_name s) (λ _ s2. Listed (e ∷ es) s s2) (list_process w e.d_name r s)
        (λ r'. list_tasks w es r') (list_process-Shows w e.d_name r s)
        (λ r' s1 h.
          Post-mono (λ _ s2. Listed es s1 s2) (λ _ s2. Listed (e ∷ es) s s2) (list_tasks w es r' s1)
            (λ _ s2 l. Listed-more e es s s1 s2 r' y h l) (list_tasks-Post w es r' s1)))
  | inr n ↦ rw n (
      Post-mono (λ _ s2. Listed es s s2) (λ _ s2. Listed (e ∷ es) s s2) (list_tasks w es r s)
        (λ _ s2 l. Listed-skip e es s s2 n l) (list_tasks-Post w es r s))
]

-- When the loop of the task list comes to its end, it has shown one row for each directory whose name
-- starts with a digit, in order, with the number of that name, and the rows are as many as the task
-- information counts; whichever of the files of a process could not be opened.
pub list_tasks-Listed :
    (w : World) (es : List Dirent) (r last : Row) (s s' : State)
    → list_tasks w es r s ≡ ok last s'
    → Listed es s s'
list_tasks-Listed w es r last s s' e =
    subst (Post (λ _ s2. Listed es s s2)) e (list_tasks-Post w es r s)
