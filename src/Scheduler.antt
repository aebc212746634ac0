-- ===== src/Scheduler.antt =====
-- crates/sap-automate-scheduler/src/lib.rs: when a job is due next, and what firing jobs records.
-- Times are seconds since the epoch; the counters of the statistics are not taken to wrap.
pub mod Cadence
pub mod Firing
mod Tests
use sap_automate.Base.{
  ℕ, zero, suc, ◌+◌, ◌-◌, ◌*◌, ◌/◌, ◌%◌, ◌^◌, ◌≤◌, ◌<◌, min, max, String, ◌≡◌, refl, sym, ap, ◌∙◌,
  subst, ◌≢◌, ◌↔◌, ◌⊎◌, inl, inr, Bool, true, false, not, ◌&&◌, ◌||◌, Option, none, some, List, [],
  ◌∷◌, ◌++◌, map, reverse, arith, dec_lt, dec_le, ℕ_discrete, ltb, leb, ◌==◌, if◌then◌else◌, ltb→lt,
  lt→ltb, leb→le, le→leb, ==_iff, tests, Bool-cases, Option-cases, List-cases, length, get_elem?,
  take, drop, any, keep, All, Has, length-append, length-take, length-reverse, All-append,
  Has-append_left, Has-append_right, Has-append, any-append, any-eq-false, Eq, str_eq, str_eq_iff,
  pair_eq, pair_eq_iff, nat_key, string_key, pair_key,
}
use sap_automate.Json.{Value}

pub data Schedule : Type 0 where
  every_n_seconds : (secs : ℕ) → Schedule
  every_n_minutes : (mins : ℕ) → Schedule
  hourly : (minute : ℕ) → Schedule
  daily : (hour minute : ℕ) → Schedule
  weekly : (weekday hour minute : ℕ) → Schedule
  quarterly : (day hour minute : ℕ) → Schedule

abbrev pub day_secs : ℕ
day_secs = 86400

-- `(hour * 3600 + minute * 60) % 86400`
unfoldable pub target_secs : ℕ → ℕ → ℕ
target_secs hour minute = (hour * 3600 + minute * 60) % day_secs

-- 1 = Monday .. 7 = Sunday
unfoldable pub weekday_of : ℕ → ℕ
weekday_of secs = (secs / day_secs + 3) % 7 + 1

unfoldable pub clamp_weekday : ℕ → ℕ
clamp_weekday weekday = min (max weekday 1) 7

unfoldable pub day_offset : ℕ → ℕ → ℕ → ℕ → ℕ
day_offset now_day target now_in_day target_in_day =
    let offset = if leb now_day target then target - now_day else 7 - (now_day - target) in
    if (offset == 0) && leb target_in_day now_in_day then 7 else offset

unfoldable pub next_in : Schedule → ℕ → ℕ
unfolding target_secs weekday_of clamp_weekday day_offset
next_in (every_n_seconds secs) now = secs
next_in (every_n_minutes mins) now = mins * 60 % 2 ^ 64
next_in (hourly minute) now =
    let m = min minute 59 in
    let now_min = now / 60 % 60 in
    let delta = if ltb now_min m then m - now_min else 60 - (now_min - m) in delta * 60
next_in (daily hour minute) now =
    let target = target_secs hour minute in
    let now_in_day = now % day_secs in
    if ltb now_in_day target then target - now_in_day else day_secs - (now_in_day - target)
next_in (weekly weekday hour minute) now =
    let target = target_secs hour minute in
    let now_in_day = now % day_secs in
    day_offset (weekday_of now) (clamp_weekday weekday) now_in_day target * day_secs
    + (target - now_in_day)
next_in (quarterly day hour minute) now = 90 * day_secs

pub record ScheduledJob : Type 0 where
  pub name : String
  pub schedule : Schedule
  pub tool : String
  pub arguments : Value
  pub channel : Option String
  pub enabled : Bool

-- What the executor returns: the text to post, or the error.
pub data Invocation : Type 0 where
  posts : String → Invocation
  fails : String → Invocation

pub record ScheduleReport : Type 0 where
  pub job : String
  pub fired_at_ms : ℕ
  pub duration_ms : ℕ
  pub ok : Bool
  pub summary : String

pub record SchedulerStats : Type 0 where
  pub jobs_declared : ℕ
  pub fires : ℕ
  pub errors : ℕ
  pub last : Option ScheduleReport

pub record Scheduler : Type 0 where
  pub jobs : List ScheduledJob
  pub stats : SchedulerStats

unfoldable pub new : List ScheduledJob → Scheduler
new jobs = record {
  jobs = jobs;
  stats = record { jobs_declared = length jobs; fires = 0; errors = 0; last = none };
}

abbrev is_ok : Invocation → Bool
is_ok (posts s) = true
is_ok (fails e) = false

abbrev text_of : Invocation → String
text_of (posts s) = s
text_of (fails e) = e

-- The executor's answer to a job, and the clock readings (start, duration) around it, by the job's
-- place in the list.
pub record Outside : Type 0 where
  pub invoke : ℕ → ScheduledJob → Invocation
  pub clock : ℕ → ℕ × ℕ

abbrev pub push_some : Option ScheduleReport → List ScheduleReport → List ScheduleReport
push_some none out = out
push_some (some r) out = r ∷ out

module _ (world : Outside) where
  report_of : ℕ → ScheduledJob → ScheduleReport
  report_of idx job = record {
    job = job.name;
    fired_at_ms = (world.clock idx).0;
    duration_ms = (world.clock idx).1;
    ok = is_ok (world.invoke idx job);
    summary = text_of (world.invoke idx job);
  }

  unfoldable pub note_report : SchedulerStats → ScheduleReport → SchedulerStats
  note_report s r = record s {
    fires = s.fires + 1;
    errors = if r.ok then s.errors else s.errors + 1;
    last = some r;
  }

  fire_job : Scheduler → ℕ → Option ScheduledJob → Option ScheduleReport × Scheduler
  fire_job s idx none = (none, s)
  fire_job s idx (some job) =
      if not job.enabled
      then (none, s)
      else (some (report_of idx job), record s { stats = note_report s.stats (report_of idx job) })

  unfoldable pub fire_once : Scheduler → ℕ → Option ScheduleReport × Scheduler
  unfolding fire_job report_of note_report
  fire_once s idx = fire_job s idx (get_elem? s.jobs idx)

  -- The rounds `i`, `i + 1`, ... of the loop over all places.
  unfoldable pub fire_range : Scheduler → ℕ → ℕ → List ScheduleReport × Scheduler
  fire_range s i zero = ([], s)
  fire_range s i (suc n) =
      let (r, s') = fire_once s i in
      let (rest, s'') = fire_range s' (i + 1) n in (push_some r rest, s'')

  unfoldable pub fire_all_now : Scheduler → List ScheduleReport × Scheduler
  fire_all_now s = fire_range s 0 (length s.jobs)
