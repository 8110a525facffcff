-- ===== src/Jobs/Tests.antt =====
-- Two background jobs of Project2/shell.c.
use cs.Common.{codes, ℤ, pos, ℕ, ◌≡◌, refl, Option, none, some, List, [], ◌∷◌, ◌++◌, Bytes, arith}
use cs.Jobs.{Jobs, add_job, sigchld_handler}
use cs.Jobs.Table.{pads}
use cs.Jobs.Represents.{
  Job, Represents, add_job-Represents, sigchld_handler-Represents, sigchld_handler_other,
}

abbrev job : ℕ → Bytes → Job
job pid command = record { pid = pid; command = command }

abbrev two_jobs : List Job
two_jobs = job 41 (codes "sleep") ∷ job 42 (codes "make") ∷ []

abbrev table : Jobs
table = record {
  num_jobs = 41 ∷ 42 ∷ pads 0 8;
  bg_cmds = (codes "sleep") ∷ (codes "make") ∷ pads [] 8;
  count = pos 2;
}

table-Represents : Represents table two_jobs
table-Represents = record { free = 8; room = refl; pids = refl; commands = refl; counted = refl }

job_added :
    (t' : Jobs) × (add_job 43 (codes "top") table ≡ some t')
    × Represents t' (two_jobs ++ job 43 (codes "top") ∷ [])
job_added = add_job-Represents table two_jobs (job 43 (codes "top")) table-Represents (omega arith)

sigchld_handler-Represents_example :
    (t' : Jobs) × (sigchld_handler (some 42) table ≡ some t')
    × Represents t' (job 41 (codes "sleep") ∷ [])
sigchld_handler-Represents_example =
    sigchld_handler-Represents table (job 41 (codes "sleep") ∷ []) (job 42 (codes "make")) []
      table-Represents (omega arith) (λ e. absurd (omega (arith, e)))
      ((λ e. absurd (omega (arith, e))), tt)

other_process : sigchld_handler (some 50) table ≡ some table
other_process =
    sigchld_handler_other table two_jobs 50 table-Represents (omega arith)
      (λ e. absurd (omega (arith, e)))
      ((λ e. absurd (omega (arith, e))), ((λ e. absurd (omega (arith, e))), tt))

abbrev map_count : Option Jobs → Option ℤ
map_count none = none
map_count (some t) = some t.count

-- When `waitpid` gives 0, since no child has ended, the count goes down all the same.
no_child_ended : map_count (sigchld_handler (some 0) table) ≡ some (pos 1)
unfolding sigchld_handler
no_child_ended = refl
