-- ===== src/Inspector/Uptime.antt =====
-- `printUptime` of Project1/inspector.c.
pub mod Parts
use cs.Common.{
  ℕ, suc, ◌+◌, ◌-◌, ◌*◌, ◌/◌, ◌%◌, ◌++◌, Bool, ◌&&◌, Bytes, codes, ltb, ◌==◌, if◌then◌else◌, ℤ, pos,
  negsuc, neg, decimal_int, decimal,
}

-- The numbers that are shown.
pub data Shown : Type 0 where
  years_minutes : ℕ → ℕ → ℕ → Shown
  years_days : ℕ → ℕ → ℕ → ℕ → ℕ → Shown
  days : ℕ → ℕ → ℕ → ℕ → Shown
  hours : ℕ → ℕ → ℕ → Shown
  minutes : ℕ → ℕ → Shown
  seconds : ℕ → Shown

abbrev pub year : ℕ
year = 31536000

abbrev pub month : ℕ
month = 2592000

abbrev pub day : ℕ
day = 86400

unfoldable pub show_years : ℕ → ℕ → Shown
show_years years t =
    if ((t % month) / day == 0) && ((t % day) / 3600 == 0)
    then years_minutes years ((t % 3600) / 60) (t % 60)
    else years_days years ((t % month) / day) ((t % day) / 3600) ((t % 3600) / 60) (t % 60)

-- The branches, for a time that is not negative.
unfoldable pub show_time : ℕ → Shown
show_time t =
    if ltb year t
    then show_years (t / year) (t - t / year * year)
    else if ltb day t
    then days ((t % month) / day) ((t % day) / 3600) ((t % 3600) / 60) (t % 60)
    else if ltb 3600 t
    then hours ((t % day) / 3600) ((t % 3600) / 60) (t % 60)
    else if ltb 60 t
    then minutes ((t % 3600) / 60) (t % 60)
    else seconds (t % 60)

abbrev counted : ℕ → Bytes → Bytes
counted n unit = decimal n ++ unit

pub show_text : Shown → Bytes
show_text (years_minutes y m s) =
    codes "Uptime: "
    ++ (counted y (codes " years, ")
        ++ (counted m (codes " minutes, ") ++ counted s (codes " seconds\n")))
show_text (years_days y d h m s) =
    codes "Uptime: "
    ++ (counted y (codes " years, ")
        ++ (counted d (codes " days, ")
            ++ (counted h (codes " hours, ")
                ++ (counted m (codes " minutes, ") ++ counted s (codes " seconds\n")))))
show_text (days d h m s) =
    codes "Uptime: "
    ++ (counted d (codes " days, ")
        ++ (counted h (codes " hours, ")
            ++ (counted m (codes " minutes, ") ++ counted s (codes " seconds\n"))))
show_text (hours h m s) =
    codes "Uptime: "
    ++ (counted h (codes " hours, ")
        ++ (counted m (codes " minutes, ") ++ counted s (codes " seconds\n")))
show_text (minutes m s) =
    codes "Uptime: " ++ (counted m (codes " minutes, ") ++ counted s (codes " seconds\n"))
show_text (seconds s) = codes "Uptime: " ++ counted s (codes " seconds\n")

-- A negative time takes the last branch, and the remainder in C has its sign.
pub print_uptime : ℤ → Bytes
print_uptime (pos t) = show_text (show_time t)
print_uptime (negsuc n) =
    codes "Uptime: " ++ (decimal_int (neg (pos (suc n % 60))) ++ codes " seconds\n")
