-- ===== src/Jobs/Represents.antt =====
-- The operations on the background jobs of Project2/shell.c against a list of jobs.
use cs.Common.{
  pos, ℕ, zero, suc, ◌+◌, ◌-◌, ◌<◌, ◌≡◌, ◌≢◌, refl, ap, sym, ◌∙◌, false, none, some, List, [], ◌∷◌,
  ◌++◌, map, All, All-append, Bytes, lt→ltb, ◌==◌, ==_ne, length, length-append, get_or, set, arith,
}
use mathlib.Core.List.{append_assoc}
use cs.Jobs.{
  Jobs, num_slots, add_at, add_job, find_job, shift, down, rounds, move, remove_at, sigchld_handler,
}
use cs.Jobs.Table.{pads, set-at, shift_lem, find_first, find_nothing, last_free}

pub record Job : Type 0 where
  pub pid : ℕ
  pub command : Bytes

-- The table holds the jobs `js`, the oldest first, and its other slots are empty.
pub record Represents (t : Jobs) (js : List Job) : Type 0 where
  pub free : ℕ
  pub room : length js + free ≡ num_slots
  pub pids : t.num_jobs ≡ map (λ j. j.pid) js ++ pads 0 free
  pub commands : t.bg_cmds ≡ map (λ j. j.command) js ++ pads [] free
  pub counted : t.count ≡ pos (length js)

module _ {A : Type 0} (f : Job → A) where
  length-map : (js : List Job) → length (map f js) ≡ length js
  length-map [] = refl
  length-map (j ∷ js) = ap suc (length-map js)

  map-append : (js ks : List Job) → map f (js ++ ks) ≡ map f js ++ map f ks
  map-append [] ks = refl
  map-append (j ∷ js) ks = ap (λ l. f j ∷ l) (map-append js ks)

  -- A column of the table when a job is added, and when one is taken out.
  column_added :
      (d : A) (xs : List A) (js : List Job) (job : Job) (m : ℕ)
      → xs ≡ map f js ++ pads d (suc m)
      → set xs (length js) (f job) ≡ map f (js ++ job ∷ []) ++ pads d m
  column_added d xs js job m e =
      ap (λ l. set l (length js) (f job)) e
      ∙ (ap (λ n. set (map f js ++ d ∷ pads d m) n (f job)) (sym (length-map js))
          ∙ (set-at (map f js) (pads d m) d (f job)
              ∙ (sym (append_assoc (map f js) (f job ∷ []) (pads d m))
                  ∙ ap (λ l. l ++ pads d m) (sym (map-append js (job ∷ []))))))

  column_removed :
      (d : A) (xs : List A) (front : List Job) (job : Job) (behind : List Job) (m : ℕ)
      → xs ≡ map f (front ++ job ∷ behind) ++ pads d (suc m)
      → shift d (length behind + 1) (length front) xs
        ≡ map f (front ++ behind) ++ pads d (suc (suc m))
  column_removed d xs front job behind m e =
      let rest = map f behind ++ d ∷ pads d m in
      let split : xs ≡ map f front ++ f job ∷ rest =
        e
        ∙ (ap (λ l. l ++ pads d (suc m)) (map-append front (job ∷ behind))
            ∙ append_assoc (map f front) (f job ∷ map f behind) (pads d (suc m))) in
      ap (λ l. shift d (length behind + 1) (length front) l) split
      ∙ (sym (λ t.
            shift d (length-map behind t + 1) (length-map front t) (map f front ++ f job ∷ rest))
          ∙ (shift_lem d (map f behind) (map f front) (f job) d (pads d m)
              ∙ (sym (append_assoc (map f front) (map f behind) (d ∷ d ∷ pads d m))
                  ∙ ap (λ l. l ++ pads d (suc (suc m))) (sym (map-append front behind)))))

-- On a table that represents fewer than ten jobs, adding a background job succeeds, and the new table
-- represents the jobs with that one at the end.
pub add_job-Represents :
    (t : Jobs) (js : List Job) (job : Job)
    → Represents t js
    → length js < num_slots
    → (t' : Jobs) × (add_job job.pid job.command t ≡ some t') × Represents t' (js ++ job ∷ [])
unfolding add_job add_at
add_job-Represents t js job r h =
    let m = r.free - 1 in
    let e : r.free ≡ suc m = omega (arith, r.room, h) in
    let n = length-append js (job ∷ []) in
    (
      record {
        num_jobs = set t.num_jobs (length js) job.pid;
        bg_cmds = set t.bg_cmds (length js) job.command;
        count = pos (length js + 1);
      },
      ap (λ c. add_at c job.pid job.command t) r.counted ∙ rw (lt→ltb (length js) num_slots h) refl,
      record {
        free = m;
        room = omega (arith, r.room, e, n);
        pids =
            column_added (λ j. j.pid) 0 t.num_jobs js job m
              (r.pids ∙ ap (λ k. map (λ j. j.pid) js ++ pads 0 k) e);
        commands =
            column_added (λ j. j.command) [] t.bg_cmds js job m
              (r.commands ∙ ap (λ k. map (λ j. j.command) js ++ pads [] k) e);
        counted = ap pos (sym n);
      },
    )

-- On a table of ten jobs there is no room for another one.
pub add_job-full :
    (pid : ℕ) (command : Bytes) (t : Jobs) (js : List Job)
    → Represents t js
    → length js ≡ num_slots
    → add_job pid command t ≡ none
unfolding add_job add_at
add_job-full pid command t js r h =
    ap (λ c. add_at c pid command t) r.counted ∙ ap (λ n. add_at (pos n) pid command t) h

module _ (t : Jobs) (js : List Job) (r : Represents t js) (few : length js < num_slots) where
  -- With at most nine jobs the last slot is empty.
  last_slot : (pid : ℕ) → pid ≢ 0 → (get_or t.num_jobs 9 0 == pid) ≡ false
  last_slot pid ne =
      let empty : get_or t.num_jobs 9 0 ≡ 0 =
        ap (λ l. get_or l 9 0) r.pids
        ∙ last_free (map (λ j. j.pid) js) 9 r.free
            (omega (arith, few, length-map (λ j. j.pid) js)) in
      ==_ne (get_or t.num_jobs 9 0) pid (λ e. ne (sym e ∙ empty))

  others :
      (pid : ℕ) (front : List Job)
      → All (λ j. j.pid ≢ pid) front
      → All (λ q. q ≢ pid) (map (λ j. j.pid) front)
  others pid [] h = tt
  others pid (j ∷ front) h = (h.0, others pid front h.1)

move-Represents :
    (t : Jobs) (front : List Job) (job : Job) (behind : List Job)
    → Represents t (front ++ job ∷ behind)
    → length (front ++ job ∷ behind) < num_slots
    → (t' : Jobs) × (remove_at (length front) t ≡ some t') × Represents t' (front ++ behind)
unfolding remove_at move
move-Represents t front job behind r few =
    let m = r.free - 1 in
    let n = length-append front (job ∷ behind) in
    let e : r.free ≡ suc m = omega (arith, r.room, few) in
    let count : rounds t.count (length front) ≡ length behind + 1 =
      ap (λ c. rounds c (length front)) r.counted ∙ omega (arith, n) in
    let inside : length front + (length behind + 1) < num_slots = omega (arith, n, few) in
    let one_less : pos (length (front ++ job ∷ behind)) ≡ pos (suc (length (front ++ behind))) =
      ap pos (omega (arith, n, length-append front behind)) in
    (
      record {
        num_jobs = shift 0 (length behind + 1) (length front) t.num_jobs;
        bg_cmds = shift [] (length behind + 1) (length front) t.bg_cmds;
        count = down t.count;
      },
      ap (λ k. move k (length front) t) count
          ∙ rw (lt→ltb (length front + (length behind + 1)) num_slots inside) refl,
      record {
        free = suc (suc m);
        room = omega (arith, r.room, e, n, length-append front behind);
        pids =
            column_removed (λ j. j.pid) 0 t.num_jobs front job behind m
              (r.pids ∙ ap (λ k. map (λ j. j.pid) (front ++ job ∷ behind) ++ pads 0 k) e);
        commands =
            column_removed (λ j. j.command) [] t.bg_cmds front job behind m
              (r.commands ∙ ap (λ k. map (λ j. j.command) (front ++ job ∷ behind) ++ pads [] k) e);
        counted = ap down (r.counted ∙ one_less);
      },
    )

-- On a table that represents at most nine jobs, when `waitpid` gives the process of one of them, which
-- is not 0 and not that of an earlier job, `sigchld_handler` succeeds, and the new table represents the
-- jobs without that one, in their order.
pub sigchld_handler-Represents :
    (t : Jobs) (front : List Job) (job : Job) (behind : List Job)
    → Represents t (front ++ job ∷ behind)
    → length (front ++ job ∷ behind) < num_slots
    → job.pid ≢ 0
    → All (λ j. j.pid ≢ job.pid) front
    → (t' : Jobs) × (sigchld_handler (some job.pid) t ≡ some t') × Represents t' (front ++ behind)
unfolding sigchld_handler
sigchld_handler-Represents t front job behind r few ne first =
    let js = front ++ job ∷ behind in
    let pid = λ (j : Job). j.pid in
    let rest = map pid behind ++ pads 0 r.free in
    let split : t.num_jobs ≡ map pid front ++ job.pid ∷ rest =
      r.pids
      ∙ (ap (λ l. l ++ pads 0 r.free) (map-append pid front (job ∷ behind))
          ∙ append_assoc (map pid front) (job.pid ∷ map pid behind) (pads 0 r.free)) in
    let short : length front < 9 = omega (arith, few, length-append front (job ∷ behind)) in
    let found : find_job 9 0 job.pid t.num_jobs ≡ length front =
      ap (λ l. find_job 9 0 job.pid l) split
      ∙ (find_first 9 job.pid (map pid front) rest (others t js r few job.pid front first)
            (omega (arith, short, length-map pid front))
          ∙ length-map pid front) in
    let inside : (length front == 9) ≡ false = ground (arith, short) in
    let (t', run, r') = move-Represents t front job behind r few in
    (t', rw (last_slot t js r few job.pid ne, found, inside) run, r')

-- On a table that represents at most nine jobs, when `waitpid` gives a process that is not 0 and
-- belongs to none of them, `sigchld_handler` changes nothing.
pub sigchld_handler_other :
    (t : Jobs) (js : List Job) (pid : ℕ)
    → Represents t js
    → length js < num_slots
    → pid ≢ 0
    → All (λ j. j.pid ≢ pid) js
    → sigchld_handler (some pid) t ≡ some t
unfolding sigchld_handler
sigchld_handler_other t js pid r few ne none_of =
    let pids = λ (j : Job). j.pid in
    let empty : find_job 9 0 pid t.num_jobs ≡ 9 =
      ap (λ l. find_job 9 0 pid l) r.pids
      ∙ find_nothing 9 pid (map pids js ++ pads 0 r.free)
          (All-append (λ q. q ≢ pid) (map pids js) (pads 0 r.free)
            (others t js r few pid js none_of) (pads_other r.free pid ne))
          ne in
    rw (last_slot t js r few pid ne, empty) refl
  where
    pads_other : (n pid : ℕ) → pid ≢ 0 → All (λ q. q ≢ pid) (pads 0 n)
    pads_other zero pid h = tt
    pads_other (suc n) pid h = (λ e. h (sym e), pads_other n pid h)
