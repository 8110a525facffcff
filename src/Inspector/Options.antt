-- ===== src/Inspector/Options.antt =====
-- The command line of Project1/inspector.c. What `getopt` returns, call by call, is given as a list.
pub mod Chosen
use cs.Common.{
  ℕ, ◌-◌, Bool, true, false, ◌&&◌, ◌||◌, List, [], ◌∷◌, ◌++◌, Bytes, codes, leb, if◌then◌else◌,
}

pub record ViewOpts : Type 0 where
  pub hardware : Bool
  pub system : Bool
  pub task_list : Bool
  pub task_summary : Bool

abbrev pub all_on : ViewOpts
all_on = record { hardware = true; system = true; task_list = true; task_summary = true }

abbrev pub none_on : ViewOpts
none_on = record { hardware = false; system = false; task_list = false; task_summary = false }

-- The letters of "ahlp:rst", and what `getopt` does not know.
pub data Opt : Type 0 where
  opt_a opt_h opt_l opt_r opt_s opt_t unknown : Opt
  opt_p : Bytes → Opt

pub record Settings : Type 0 where
  pub options : ViewOpts
  pub procfs_loc : Bytes
  pub alt_proc : Bool

abbrev pub defaults : Settings
defaults = record { options = none_on; procfs_loc = codes "/proc"; alt_proc = false }

-- `stops` is a return from `main`, with the status.
pub data Parsed : Type 0 where
  goes_on : Settings → Parsed
  stops : ℕ → Parsed

pub parse_options : List Opt → Settings → Parsed
parse_options [] c = goes_on c
parse_options (opt_a ∷ es) c = parse_options es (record c { options = all_on })
parse_options (opt_h ∷ es) c = stops 0
parse_options (opt_l ∷ es) c =
    parse_options es (record c { options = record c.options { task_list = true } })
parse_options (opt_p dir ∷ es) c = parse_options es (record c { procfs_loc = dir; alt_proc = true })
parse_options (opt_r ∷ es) c =
    parse_options es (record c { options = record c.options { hardware = true } })
parse_options (opt_s ∷ es) c =
    parse_options es (record c { options = record c.options { system = true } })
parse_options (opt_t ∷ es) c =
    parse_options es (record c { options = record c.options { task_summary = true } })
parse_options (unknown ∷ es) c = stops 1

-- `argc` less the two arguments of -p, and what is shown when no other is left.
unfoldable pub chosen : ℕ → Settings → ViewOpts
chosen argc c = if leb (if c.alt_proc then argc - 2 else argc) 1 then all_on else c.options

pub usage : Bytes → Bytes
usage argv0 =
    codes "Usage: "
    ++ (argv0
        ++ codes
            " [-ahlrst] [-p procfs_dir]\n\nOptions:\n    * -a              Display all (equivalent to -lrst, default)\n    * -h              Help/usage information\n    * -l              Task List\n    * -p procfs_dir   Change the expected procfs mount point (default: /proc)\n    * -r              Hardware Information\n    * -s              System Information\n    * -t              Task Information\n\n")
