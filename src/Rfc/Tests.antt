-- ===== src/Rfc/Tests.antt =====
-- Tests of the crate's model on small inputs, and the theorems at inputs that meet their premises.
use sap_automate.Base.{
  ℕ, ◌+◌, ◌*◌, ◌≤◌, ◌<◌, max, String, ◌≡◌, refl, ◌≢◌, ◌↔◌, inl, true, false, ◌||◌, some, List, [],
  ◌∷◌, ◌++◌, arith, leb, if◌then◌else◌, length, any, All, str_eq, str_eq_iff, nat_key, string_key,
  pair_key,
}
use sap_automate.Json.{Value, null, string, array, object, nil, cons, Fields, field, end}
use sap_automate.Rfc.Error.{RfcError, RfcResult, ok, err, is_transient}
use sap_automate.Rfc.Retry.{BackoffPolicy, Run, retry_with_backoff, next_delay, retry_loop}
use sap_automate.Rfc.Retry.Attempts.{
  retry_with_backoff_total, retry_with_backoff-SleepsFrom, SleepsFrom, IsFinal, IsTransientFailure,
}
use sap_automate.Rfc.Circuit.{
  CircuitBreaker, opened, new, call, settle, happen_all, begins, ends, Event,
}
use sap_automate.Rfc.Circuit.Invariant.{IsCoherent, happen_all-IsCoherent}
use sap_automate.Rfc.Circuit.Behaviour.{call_probe, Attempt, call_all, IsRefusal, call_all-refused}
use sap_automate.Rfc.BapiRet2.{parse_bapiret2, collect_candidates, is_failure, max_depth, is_row}
use sap_automate.Rfc.BapiRet2.Rows.{RowIn}
use sap_automate.Rfc.BapiRet2.Failure.{parse_bapiret2-failure_iff, IsBenign, type_letter}
use sap_automate.Rfc.Client.{RfcCallRequest, SapClient}
use sap_automate.Rfc.Transaction.{
  World, WriteOutcome, execute_write_bapi, commit_fn, rollback_fn, commit_req, rollback_req,
  has_failure, issue, after_bapi, after_commit,
}
use sap_automate.Rfc.Transaction.Protocol.{
  execute_write_bapi-committed, execute_write_bapi_refuses, execute_write_bapi_fails_closed,
  Confirms,
}
use sap_automate.Rfc.Transaction.Endings.{Settles, execute_write_bapi-Settles}

-- A multiplier of two, on whole milliseconds.
abbrev double : ℕ → ℕ → ℕ
double ms m = ms * m

abbrev policy : BackoffPolicy ℕ
policy = record { max_attempts = 3; initial = 100_000_000; multiplier = 2; max_delay = 150_000_000 }

-- Two timeouts, then a result.
abbrev flaky : ℕ → RfcResult ℕ
flaky n = if leb n 2 then err (RfcError.timeout 10) else ok n

abbrev flaky_run : Run ℕ
flaky_run = record { result = ok 3; calls = 3; sleeps = 100_000_000 ∷ 150_000_000 ∷ [] }

flaky_runs : retry_with_backoff double policy flaky ≡ some flaky_run
unfolding retry_with_backoff retry_loop next_delay is_transient
flaky_runs = refl

retry_with_backoff_total_example :
    (n : ℕ) × (sleeps : List ℕ) × (retry_with_backoff double policy flaky
      ≡ some (record { result = flaky n; calls = n; sleeps = sleeps }))
    × IsFinal double policy flaky n
    × (1 ≤ n)
    × (n ≤ max 1 3)
    × ((k : ℕ) → 0 < k → k < n → IsTransientFailure double policy flaky k)
    × (length sleeps + 1 ≡ n)
retry_with_backoff_total_example = retry_with_backoff_total double policy flaky

retry_with_backoff-SleepsFrom_example :
    (r : Run ℕ) × (retry_with_backoff double policy flaky ≡ some r)
    × SleepsFrom double policy flaky 100_000_000 r.calls r.sleeps
retry_with_backoff-SleepsFrom_example = retry_with_backoff-SleepsFrom double policy flaky

abbrev lost : RfcError
lost = RfcError.destination_down "T01" "down"

abbrev tripped : CircuitBreaker
tripped = record {
  failure_threshold = 2;
  open_duration = 50_000_000;
  inner = record { state = opened; failures = 2; opened_at = some 7 };
}

trips : settle {A = ℕ} (settle {A = ℕ} (new 2 50_000_000) (err lost) 3) (err lost) 7 ≡ tripped
unfolding settle new is_transient
trips = refl

abbrev rush : List (Event ℕ)
rush = begins 1 1 ∷ begins 2 2 ∷ ends (err lost) 3 ∷ ends (err lost) 7 ∷ begins 8 9 ∷ []

abbrev hurried : List (Attempt ℕ)
hurried = (10, 10, 20, ok 1) ∷ (30, 30, 40, err lost) ∷ []

happen_all-IsCoherent_example :
    IsCoherent (happen_all (record { breaker = new 2 50_000_000; in_flight = 0 }) rush).breaker
happen_all-IsCoherent_example = happen_all-IsCoherent 2 50_000_000 rush (omega arith)

call_all-refused_example :
    let shut = settle {A = ℕ} (settle {A = ℕ} (new 2 50_000_000) (err lost) 3) (err lost) 7 in
    ((call_all shut hurried).1 ≡ shut)
    × (length (call_all shut hurried).0 ≡ 2)
    × All (IsRefusal 50_000_000) (call_all shut hurried).0
unfolding settle new is_transient
call_all-refused_example =
    call_all-refused (settle {A = ℕ} (new 2 50_000_000) (err lost) 3) lost 7 hurried refl
      (omega arith) (omega arith) (omega arith)

call_probe_example : (call {A = ℕ} tripped 50_000_007 50_000_007 60_000_000 (ok 1)).0 ≡ ok 1
call_probe_example =
    (call_probe tripped 50_000_007 50_000_007 60_000_000 7 (ok 1) refl refl (omega arith)
      (omega arith) (omega arith)).0

abbrev row : String → String → Value
row type message = object (field "TYPE" (string type) (field "MESSAGE" (string message) end))

abbrev answer : Value → Value
answer rows = object (field "outputs" (object (field "RETURN" rows end)) end)

abbrev posted : Value
posted = answer (array (cons (row "S" "PO 4500000001 created") nil))

abbrev blocked : Value
blocked = answer (array (cons (row "E" "Vendor 1 blocked") nil))

finds_rows : collect_candidates posted ≡ row "S" "PO 4500000001 created" ∷ []
unfolding collect_candidates is_row
finds_rows = refl

abbrev zed : ℕ
zed = b'Z'

parse_bapiret2-failure_iff_example : (any is_failure (parse_bapiret2 blocked) ≡ false) ↔ (
    (fs : Fields) (d : ℕ) → RowIn (object fs) blocked d → d ≤ max_depth → IsBenign (type_letter fs))
parse_bapiret2-failure_iff_example = parse_bapiret2-failure_iff blocked

-- A backend that answers the business BAPI with one value and the other two calls with success.
abbrev scripted : Value → SapClient
scripted bapi_return = record {
  State = Unit {0};
  call_rfc = λ request read_only s.
      if str_eq request.function commit_fn || str_eq request.function rollback_fn
      then (ok (answer (row "S" "done")), tt)
      else (ok bapi_return, tt);
}

-- A backend on which the commit times out.
abbrev losing : SapClient
losing = record {
  State = Unit {0};
  call_rfc = λ request read_only s.
      if str_eq request.function commit_fn
      then (err (RfcError.timeout 30_000), tt)
      else (ok posted, tt);
}

abbrev display : RfcError → String
display e = "error"

abbrev po_create : RfcCallRequest
po_create = record {
  function = "BAPI_PO_CREATE1";
  parameters = null;
  timeout_ms = 1000;
  require_read_only_safe = true;
}

abbrev fresh : World (Unit {0})
fresh = record { state = tt; issued = [] }

abbrev done : World (Unit {0})
done = record { state = tt; issued = po_create ∷ commit_req ∷ [] }

abbrev outcome : WriteOutcome
outcome = record {
  function = "BAPI_PO_CREATE1";
  committed = true;
  rolled_back = false;
  messages = parse_bapiret2 posted ++ parse_bapiret2 (answer (row "S" "done"));
  result = posted;
}

commits : execute_write_bapi (scripted posted) display po_create false fresh ≡ (ok outcome, done)
unfolding execute_write_bapi after_bapi after_commit issue has_failure parse_bapiret2 commit_req
    is_row
commits = refl

execute_write_bapi-committed_example : has_failure outcome.messages ≡ false
execute_write_bapi-committed_example =
    (execute_write_bapi-committed (scripted posted) display po_create fresh false done outcome
      commits refl).6

execute_write_bapi_refuses_example :
    (e : RfcError) × (execute_write_bapi (scripted posted) display po_create true fresh
      ≡ (err e, fresh))
    × (is_transient e ≡ false)
execute_write_bapi_refuses_example =
    execute_write_bapi_refuses (scripted posted) display po_create fresh true (inl refl)

not_commit : ◌≢◌ {A = String} "BAPI_PO_CREATE1" commit_fn
not_commit = ground (arith, str_eq_iff "BAPI_PO_CREATE1" commit_fn)

not_rollback : ◌≢◌ {A = String} "BAPI_PO_CREATE1" rollback_fn
not_rollback = ground (arith, str_eq_iff "BAPI_PO_CREATE1" rollback_fn)

execute_write_bapi_fails_closed_example :
    (o : WriteOutcome) × (execute_write_bapi (scripted blocked) display po_create false fresh
      ≡ (ok o, record { state = tt; issued = po_create ∷ rollback_req ∷ [] }))
    × (o.committed ≡ false)
    × ((o.rolled_back ≡ true) ↔ Confirms (ok (answer (row "S" "done"))))
unfolding issue has_failure parse_bapiret2 rollback_req is_row
execute_write_bapi_fails_closed_example =
    execute_write_bapi_fails_closed (scripted blocked) display po_create fresh blocked not_commit
      not_rollback refl (inl refl)

execute_write_bapi-Settles_example :
    Settles losing display po_create fresh.issued
      (issue losing display po_create fresh)
      (execute_write_bapi losing display po_create false fresh)
execute_write_bapi-Settles_example = execute_write_bapi-Settles losing display po_create false fresh

-- The commit times out, and no rollback follows.
commit_lost :
    execute_write_bapi losing display po_create false fresh
    ≡ (err (RfcError.timeout 30_000), record { state = tt; issued = po_create ∷ commit_req ∷ [] })
unfolding execute_write_bapi issue after_bapi after_commit has_failure parse_bapiret2 commit_req
    is_row
commit_lost = refl
