-- ===== src/Inspector/Main.antt =====
-- `main` of Project1/inspector.c.
use cs.Common.{ℕ, Bool, Option, none, some, List, [], Bytes, codes, ◌++◌, if◌then◌else◌}
use cs.Inspector.Run.{World, Run, exit, Cmd, pure, ◌>>◌, exit_failure, say}
use cs.Inspector.Options.{
  Opt, ViewOpts, Parsed, goes_on, stops, defaults, parse_options, chosen, usage,
}
use cs.Inspector.System.{system_information}
use cs.Inspector.Hardware.{hardware_information}
use cs.Inspector.Tasks.{task_information, task_list}

abbrev when : Bool → Cmd (Unit {0}) → Cmd (Unit {0})
when b c = if b then c else pure tt

abbrev show_cwd : Option Bytes → Cmd (Unit {0})
show_cwd none = exit_failure
show_cwd (some cwd) = say (codes "Current working dir: " ++ (cwd ++ codes "\n"))

-- The sections that are on, one after the other.
pub show : World → Bool → ViewOpts → Cmd (Unit {0})
show w alt_proc options = do
  when options.system (system_information w)
  when options.hardware (hardware_information w)
  when options.task_summary (task_information w alt_proc)
  when options.task_list (task_list w alt_proc)

-- What follows the loop over the options. `chdir` is not tested.
pub after_options : World → ℕ → Bytes → Parsed → Cmd (Unit {0})
after_options w argc argv0 (stops status) = λ s. exit status (s.out ++ usage argv0)
after_options w argc argv0 (goes_on c) = do show_cwd w.getcwd; show w c.alt_proc (chosen argc c)

-- The buffer of `main` is not initialised.
pub main : World → ℕ → Bytes → List Opt → Bytes → Run (Unit {0})
main w argc argv0 opts buf =
    after_options w argc argv0 (parse_options opts defaults)
      (record { buf = buf; opens = 0; out = [] })
