-- ===== src/Shell/Prompt.antt =====
-- The prompt of Project2/shell.c, and the names that it shows.
use cs.Common.{ℕ, Option, none, some, Bytes, codes, ◌++◌, length, drop, ltb, decimal, if◌then◌else◌}
use cs.History.{starts_with}

pub record Info : Type 0 where
  pub hostname : Bytes
  pub username : Bytes
  pub name_dir : Bytes

abbrev host_or_unknown : Option Bytes → Bytes
host_or_unknown none = codes "Unknown"
host_or_unknown (some h) = h

abbrev dir_size : ℕ
dir_size = 25

-- `get_info` on what `gethostname` and `getpwuid` give. The directory is made of two pointers' sizes and nine bytes
-- more: `none` is a name that does not fit, or no name.
unfoldable pub get_info : Option Bytes → Option Bytes → Option Info
get_info host none = none
get_info host (some username) =
    let name_dir = codes "/home/" ++ username in
    if ltb (length name_dir) dir_size
    then some (record { hostname = host_or_unknown host; username = username; name_dir = name_dir })
    else none

-- What is printed, and then `newDir` is freed, which is no block of the heap when it is the working directory
-- itself.
pub data Prompt : Type 0 where
  shown : Bytes → Prompt
  frees_stack : Bytes → Prompt
  no_directory : Prompt

pub prompt_text : ℕ → Info → Bytes → Bytes
prompt_text num_cmds i dir =
    codes "--["
    ++ (decimal num_cmds
        ++ (codes "|"
            ++ (i.username
                ++ (codes "@" ++ (i.hostname ++ (codes ":" ++ (dir ++ codes "]--$ ")))))))

unfoldable pub print_prompt : ℕ → Info → Option Bytes → Prompt
print_prompt num_cmds i none = no_directory
print_prompt num_cmds i (some cwd) =
    if starts_with i.name_dir cwd
    then shown (prompt_text num_cmds i (codes "~" ++ drop (length i.name_dir) cwd))
    else frees_stack (prompt_text num_cmds i cwd)
