-- ===== src/Scheduler/Firing.antt =====
-- What a round over all jobs reports and counts.
use sap_automate.Base.{
  ℕ, zero, suc, ◌+◌, ◌≡◌, refl, ◌∙◌, Bool, not, Option, none, some, List, [], ◌∷◌, map, arith,
  length, get_elem?, drop, keep, nat_key, string_key, pair_key,
}
use native.Mathlib.Numerals.{add-one}
use sap_automate.Scheduler.{
  ScheduledJob, ScheduleReport, Scheduler, Outside, push_some, fire_once, fire_range, fire_all_now,
}

drop-cons :
    {A : Type 0} (xs : List A) (i : ℕ) (x : A) (rest : List A)
    → drop i xs ≡ x ∷ rest
    → (get_elem? xs i ≡ some x) × (drop (suc i) xs ≡ rest)
drop-cons [] zero x rest e = cc
drop-cons [] (suc i) x rest e = cc
drop-cons (y ∷ xs) zero x rest e = ground arith
drop-cons (y ∷ xs) (suc i) x rest e = drop-cons xs i x rest e

abbrev pub is_error : ScheduleReport → Bool
is_error r = not r.ok

-- The reports are of the enabled ones among the jobs, in their order, and are counted.
abbrev pub Reports : Scheduler → List ScheduledJob → List ScheduleReport × Scheduler → Type 0
Reports s jobs (reports, s') =
    (s'.jobs ≡ s.jobs)
    × (s'.stats.fires ≡ s.stats.fires + length reports)
    × (s'.stats.errors ≡ s.stats.errors + length (keep is_error reports))
    × (map (λ x. x.job) reports ≡ map (λ j. j.name) (keep (λ j. j.enabled) jobs))

module _ (world : Outside) where
  fire_once-Reports :
      (s : Scheduler) (i : ℕ) (job : ScheduledJob)
      → get_elem? s.jobs i ≡ some job
      → Reports s (job ∷ []) (push_some (fire_once world s i).0 [], (fire_once world s i).1)
  unfolding fire_once
  fire_once-Reports s i job e = (ground arith, ground arith, ground arith, ground arith)

  Reports-cons :
      (s s' s'' : Scheduler) (job : ScheduledJob) (jobs : List ScheduledJob)
      (r : Option ScheduleReport) (reports : List ScheduleReport)
      → Reports s (job ∷ []) (push_some r [], s')
      → Reports s' jobs (reports, s'')
      → Reports s (job ∷ jobs) (push_some r reports, s'')
  Reports-cons s s' s'' job jobs none reports a b =
      (b.0 ∙ a.0, omega (arith, a.1, b.1), omega (arith, a.2, b.2), ground (arith, a.3, b.3))
  Reports-cons s s' s'' job jobs (some r) reports a b =
      (b.0 ∙ a.0, omega (arith, a.1, b.1), ground (arith, a.2, b.2), ground (arith, a.3, b.3))

  fire_range-Reports :
      (rest : List ScheduledJob) (s : Scheduler) (i : ℕ)
      → drop i s.jobs ≡ rest
      → Reports s rest (fire_range world s i (length rest))
  unfolding fire_range
  fire_range-Reports [] s i e = (refl, omega arith, omega arith, refl)
  fire_range-Reports (job ∷ rest) s i e =
      let (at_i, after) = drop-cons s.jobs i job rest e in
      let now = fire_once-Reports s i job at_i in
      let s' = (fire_once world s i).1 in
      Reports-cons s s' (fire_range world s' (i + 1) (length rest)).1 job rest
        (fire_once world s i).0 (fire_range world s' (i + 1) (length rest)).0 now
        (fire_range-Reports rest s' (i + 1) (rw (add-one, now.0) after))

  -- Firing all jobs reports the enabled ones and no others, each once and in their order, and
  -- raises the number of fires by the number of reports and the number of errors by the number of
  -- failed reports.
  pub fire_all_now-Reports : (s : Scheduler) → Reports s s.jobs (fire_all_now world s)
  unfolding fire_all_now
  fire_all_now-Reports s = fire_range-Reports s.jobs s 0 refl
