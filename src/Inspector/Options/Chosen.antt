-- ===== src/Inspector/Options/Chosen.antt =====
-- What the options of Project1/inspector.c choose, said without the loop over them.
use cs.Common.{ℕ, ◌≡◌, refl, ◌∙◌, Bool, true, false, ◌||◌, List, [], ◌∷◌, Bytes, if◌then◌else◌}
use cs.Inspector.Options.{
  Opt, opt_a, opt_h, opt_l, opt_p, opt_r, opt_s, opt_t, unknown, Settings, Parsed, goes_on, stops,
  all_on, parse_options,
}

abbrev pub is_a : Opt → Bool
is_a opt_a = true
is_a _ = false

abbrev pub is_l : Opt → Bool
is_l opt_l = true
is_l _ = false

abbrev pub is_r : Opt → Bool
is_r opt_r = true
is_r _ = false

abbrev pub is_s : Opt → Bool
is_s opt_s = true
is_s _ = false

abbrev pub is_t : Opt → Bool
is_t opt_t = true
is_t _ = false

abbrev pub ends_loop : Opt → Bool
ends_loop opt_h = true
ends_loop unknown = true
ends_loop _ = false

abbrev pub any : (Opt → Bool) → List Opt → Bool
any test [] = false
any test (e ∷ es) = test e || any test es

-- The directory of the last -p.
abbrev pub last_dir : Bytes → List Opt → Bytes
last_dir dir [] = dir
last_dir dir (opt_p d ∷ es) = last_dir d es
last_dir dir (_ ∷ es) = last_dir dir es

abbrev pub is_p : Opt → Bool
is_p (opt_p d) = true
is_p _ = false

-- An option is on when its letter or an `a` is among them, or when it was on before.
abbrev pub with_options : List Opt → Settings → Settings
with_options es c = record {
  options = record {
    hardware = c.options.hardware || (any is_a es || any is_r es);
    system = c.options.system || (any is_a es || any is_s es);
    task_list = c.options.task_list || (any is_a es || any is_l es);
    task_summary = c.options.task_summary || (any is_a es || any is_t es);
  };
  procfs_loc = last_dir c.procfs_loc es;
  alt_proc = c.alt_proc || any is_p es;
}

-- The status that the first -h, or the first option that is not known, returns.
abbrev pub status : List Opt → ℕ
status [] = 0
status (opt_h ∷ es) = 0
status (unknown ∷ es) = 1
status (_ ∷ es) = status es

or_false : (x : Bool) → (x || false) ≡ x
or_false true = refl
or_false false = refl

or_true : (x : Bool) → (x || true) ≡ true
or_true true = refl
or_true false = refl

or_swap : (x y z : Bool) → (x || (y || (true || z))) ≡ true
or_swap true y z = refl
or_swap false true z = refl
or_swap false false z = refl

abbrev result : List Opt → Settings → Parsed
result es c = if any ends_loop es then stops (status es) else goes_on (with_options es c)

-- The loop over the options ends the program when there is an -h, with status 0, or an option that is
-- not known, with status 1, whichever comes first; else a section is on when its letter or -a is among
-- the options or it was on before, in any order, and the directory is that of the last -p.
pub parse_options_lem : (es : List Opt) (c : Settings) → parse_options es c ≡ result es c
unfolding parse_options
parse_options_lem [] c =
    rw
      (
        or_false c.options.hardware,
        or_false c.options.system,
        or_false c.options.task_list,
        or_false c.options.task_summary,
        or_false c.alt_proc,
      )
      refl
parse_options_lem (opt_a ∷ es) c =
    parse_options_lem es (record c { options = all_on })
    ∙ rw
        (
          or_true c.options.hardware,
          or_true c.options.system,
          or_true c.options.task_list,
          or_true c.options.task_summary,
        )
        refl
parse_options_lem (opt_h ∷ es) c = refl
parse_options_lem (opt_l ∷ es) c =
    parse_options_lem es (record c { options = record c.options { task_list = true } })
    ∙ rw (or_swap c.options.task_list (any is_a es) (any is_l es)) refl
parse_options_lem (opt_p dir ∷ es) c =
    parse_options_lem es (record c { procfs_loc = dir; alt_proc = true })
    ∙ rw (or_true c.alt_proc) refl
parse_options_lem (opt_r ∷ es) c =
    parse_options_lem es (record c { options = record c.options { hardware = true } })
    ∙ rw (or_swap c.options.hardware (any is_a es) (any is_r es)) refl
parse_options_lem (opt_s ∷ es) c =
    parse_options_lem es (record c { options = record c.options { system = true } })
    ∙ rw (or_swap c.options.system (any is_a es) (any is_s es)) refl
parse_options_lem (opt_t ∷ es) c =
    parse_options_lem es (record c { options = record c.options { task_summary = true } })
    ∙ rw (or_swap c.options.task_summary (any is_a es) (any is_t es)) refl
parse_options_lem (unknown ∷ es) c = refl
