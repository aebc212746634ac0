-- ===== src/Scheduler/Tests.antt =====
-- Tests on the dates of the crate's own tests, and the theorems at concrete inputs.
use sap_automate.Base.{
  ◌+◌, ◌*◌, String, ◌≡◌, refl, Bool, true, false, none, List, [], ◌∷◌, ◌==◌, if◌then◌else◌, nat_key,
  string_key, pair_key,
}
use sap_automate.Json.{null}
use sap_automate.Scheduler.{
  hourly, weekly, next_in, ScheduledJob, Outside, posts, fails, new, fire_all_now, fire_range,
  fire_once,
}
use sap_automate.Scheduler.Firing.{Reports, fire_all_now-Reports}

hourly_aligns : next_in (hourly 15) 1800 ≡ 2700
unfolding next_in
hourly_aligns = refl

-- Tuesday 1970-01-06, 09:00, for Monday 08:00: due on Monday at 09:00.
weekly_is_late : next_in (weekly 1 8 0) (5 * 86400 + 32400) ≡ 6 * 86400
unfolding next_in
weekly_is_late = refl

abbrev job : String → Bool → ScheduledJob
job name enabled = record {
  name = name;
  schedule = hourly 0;
  tool = "sap.docs.search";
  arguments = null;
  channel = none;
  enabled = enabled;
}

abbrev jobs : List ScheduledJob
jobs = job "a" true ∷ job "b" false ∷ job "c" true ∷ []

abbrev world : Outside
world = record {
  invoke = λ i j. if i == 0 then posts "done" else fails "down";
  clock = λ i. (i, 1);
}

fire_all_now-Reports_example : Reports (new jobs) jobs (fire_all_now world (new jobs))
unfolding new
fire_all_now-Reports_example = fire_all_now-Reports world (new jobs)

two_reports : (fire_all_now world (new jobs)).1.stats.errors ≡ 1
unfolding new fire_all_now fire_range fire_once
two_reports = refl
