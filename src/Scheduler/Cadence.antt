-- ===== src/Scheduler/Cadence.antt =====
-- When `next_in` says that a job is due.
use sap_automate.Base.{
  ℕ, ◌+◌, ◌*◌, ◌/◌, ◌%◌, ◌≤◌, ◌<◌, min, max, ◌≡◌, arith, nat_key, string_key, pair_key,
}
use sap_automate.Scheduler.{
  hourly, daily, weekly, next_in, target_secs, weekday_of, clamp_weekday, day_secs,
}

-- An hourly job is due within the hour and not at once, at its minute, the 59th at most.
pub next_in-hourly :
    (minute now : ℕ)
    → let d = next_in (hourly minute) now in
      (0 < d) × (d ≤ 3600) × ((now + d) / 60 % 60 ≡ min minute 59)
unfolding next_in
next_in-hourly minute now = (ground arith, ground arith, ground arith)

-- A daily job is due within a day and not at once, at its time of day.
pub next_in-daily :
    (hour minute now : ℕ)
    → let d = next_in (daily hour minute) now in
      (0 < d) × (d ≤ day_secs) × ((now + d) % day_secs ≡ target_secs hour minute)
unfolding next_in
next_in-daily hour minute now = (ground arith, ground arith, ground arith)

-- A weekly job is due within a week and not at once, and on its weekday. It is due at its time of
-- day if that has not passed today; if it has, it is due late, at today's time of day.
pub next_in-weekly :
    (weekday hour minute now : ℕ)
    → let d = next_in (weekly weekday hour minute) now in
      (0 < d)
      × (d ≤ 7 * day_secs)
      × (weekday_of (now + d) ≡ clamp_weekday weekday)
      × ((now + d) % day_secs ≡ max (target_secs hour minute) (now % day_secs))
unfolding next_in
next_in-weekly weekday hour minute now = (ground arith, ground arith, ground arith, ground arith)
