-- ===== src/Inspector/System.antt =====
-- The system information of `main` of Project1/inspector.c.
use cs.Common.{◌++◌, codes, atoi}
use cs.Inspector.Run.{World, Cmd, ◌>>=◌, ◌>>◌, say}
use cs.Inspector.Fields.{required}
use cs.Inspector.Uptime.{print_uptime}

pub system_information : World → Cmd (Unit {0})
system_information w = do
  host ← required w (codes "sys/kernel/hostname") 1000 (codes " \n") (codes "NONE") 0 100000
  kernel ← required w (codes "version") 1000 (codes " \n") (codes "version") 0 100000
  uptime ← required w (codes "uptime") 1000 (codes " \n") (codes "NONE") 0 100000
  say (codes "System Information\n------------------\n")
  say (codes "Hostname: " ++ (host ++ codes "\n"))
  say (codes "Kernel Version: " ++ (kernel ++ codes "\n"))
  say (print_uptime (atoi uptime))
