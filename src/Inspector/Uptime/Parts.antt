-- ===== src/Inspector/Uptime/Parts.antt =====
-- What the numbers that `printUptime` of Project1/inspector.c shows add up to.
use cs.Common.{
  ℕ, ◌+◌, ◌-◌, ◌*◌, ◌/◌, ◌%◌, ◌≡◌, ◌≢◌, ◌<◌, Bool-cases, ltb, ◌==◌, ◌&&◌, true, inl, inr, arith,
  if◌then◌else◌,
}
use cs.Inspector.Uptime.{
  Shown, years_minutes, years_days, days, hours, minutes, seconds, year, month, day, show_years,
  show_time,
}

abbrev pub total : Shown → ℕ
total (years_minutes y m s) = y * year + m * 60 + s
total (years_days y d h m s) = y * year + d * day + h * 3600 + m * 60 + s
total (days d h m s) = d * day + h * 3600 + m * 60 + s
total (hours h m s) = h * 3600 + m * 60 + s
total (minutes m s) = m * 60 + s
total (seconds s) = s

-- The time without the whole months of 30 days: of the last year when there are years.
abbrev pub without_months : ℕ → ℕ
without_months t = if ltb year t then t / year * year + (t % year) % month else t % month

time_of_day : (t : ℕ) → (t % day) / 3600 * 3600 + (t % 3600) / 60 * 60 + t % 60 ≡ t % day
time_of_day t = omega arith

time_of_month : (t : ℕ) → (t % month) / day * day + t % day ≡ t % month
time_of_month t = omega arith

both_zero : (a b : ℕ) → ((a == 0) && (b == 0)) ≡ true → (a ≡ 0) × (b ≡ 0)
both_zero a b h = ground (arith, h)

total-show_years : (y t : ℕ) → total (show_years y t) ≡ y * year + t % month
unfolding show_years
total-show_years y t = elim (Bool-cases (((t % month) / day == 0) && ((t % day) / 3600 == 0))) [
  | inl z ↦
      let none_left = both_zero ((t % month) / day) ((t % day) / 3600) z in
      rw z (omega (arith, none_left.0, none_left.1, time_of_day t, time_of_month t))
  | inr nz ↦ rw nz (omega (arith, time_of_day t, time_of_month t))
]

-- Unless the time is exactly a minute, an hour or a day, the years, days, hours, minutes and seconds
-- that `printUptime` shows add up to the time without its whole months of 30 days, those of the last
-- year when there are years.
pub show_time_lem : (t : ℕ) → t ≢ 60 → t ≢ 3600 → t ≢ day → total (show_time t) ≡ without_months t
unfolding show_time
show_time_lem t n60 n3600 nday = elim (Bool-cases (ltb year t)) [
  | inl long ↦
      let rest : t - t / year * year ≡ t % year = omega arith in
      rw (long, rest) (total-show_years (t / year) (t % year))
  | inr no_year ↦ elim (Bool-cases (ltb day t)) [
    | inl y ↦ rw (no_year, y) (omega (arith, time_of_day t, time_of_month t))
    | inr no_day ↦
        let short : t < day = ground (arith, no_day, nday) in
        elim (Bool-cases (ltb 3600 t)) [
          | inl y ↦ rw (no_year, no_day, y) (omega (arith, short, time_of_day t))
          | inr no_hour ↦
              let shorter : t < 3600 = ground (arith, no_hour, n3600) in
              elim (Bool-cases (ltb 60 t)) [
                | inl y ↦ rw (no_year, no_day, no_hour, y) (omega (arith, shorter))
                | inr no_minute ↦
                    let least : t < 60 = ground (arith, no_minute, n60) in
                    rw (no_year, no_day, no_hour, no_minute) (omega (arith, least))
              ]
        ]
  ]
]
