-- ===== src/Rfc/Transaction.antt =====
-- crates/sap-automate-rfc/src/transaction.rs: a write BAPI and the end of its unit of work. The
-- world is the client's state with the list of the requests issued to it, oldest first.
pub mod Protocol
pub mod Endings
use Prim.Native.String.{◌++◌ as str_append}
use sap_automate.Base.{
  ℕ, zero, suc, ◌+◌, ◌-◌, ◌*◌, ◌/◌, ◌%◌, ◌^◌, ◌≤◌, ◌<◌, min, max, String, ◌≡◌, refl, sym, ap, ◌∙◌,
  subst, ◌≢◌, ◌↔◌, ◌⊎◌, inl, inr, Bool, true, false, not, ◌&&◌, ◌||◌, Option, none, some, List, [],
  ◌∷◌, ◌++◌, map, reverse, arith, dec_lt, dec_le, ℕ_discrete, ltb, leb, ◌==◌, if◌then◌else◌, ltb→lt,
  lt→ltb, leb→le, le→leb, ==_iff, tests, Bool-cases, Option-cases, length, get_elem?, take, drop,
  any, keep, All, Has, length-append, length-take, length-reverse, All-append, Has-append_left,
  Has-append_right, Has-append, any-append, any-eq-false, Eq, str_eq, str_eq_iff, pair_eq,
  pair_eq_iff, nat_key, string_key, pair_key,
}
use sap_automate.Json.{Value, null, string, object, field, end}
use sap_automate.Rfc.Error.{RfcError, RfcResult, ok, err}
use sap_automate.Rfc.BapiRet2.{
  BapiRet2Severity, BapiRet2Message, warning, is_failure, parse_bapiret2,
}
use sap_automate.Rfc.Client.{RfcCallRequest, SapClient}

abbrev pub commit_fn : String
commit_fn = "BAPI_TRANSACTION_COMMIT"

abbrev pub rollback_fn : String
rollback_fn = "BAPI_TRANSACTION_ROLLBACK"

unfoldable pub note : BapiRet2Severity → String → BapiRet2Message
note severity text = record {
  severity = severity;
  message_class = "SAPAUTO";
  message_number = "000";
  text = text;
  parameter = none;
  row = none;
  field_name = none;
  system = none;
}

unfoldable pub commit_req : RfcCallRequest
commit_req = record {
  function = commit_fn;
  parameters = object (field "WAIT" (string "X") end);
  timeout_ms = 30_000;
  require_read_only_safe = false;
}

unfoldable pub rollback_req : RfcCallRequest
rollback_req = record {
  function = rollback_fn;
  parameters = null;
  timeout_ms = 30_000;
  require_read_only_safe = false;
}

unfoldable pub has_failure : List BapiRet2Message → Bool
unfolding is_failure
has_failure messages = any is_failure messages

abbrev pub is_empty {ℓ} : {A : Type ℓ} → List A → Bool
is_empty [] = true
is_empty (x ∷ xs) = false

pub record WriteOutcome : Type 0 where
  pub function : String
  pub committed : Bool
  pub rolled_back : Bool
  pub messages : List BapiRet2Message
  pub result : Value

pub record World (S : Type 0) : Type 0 where
  pub state : S
  pub issued : List RfcCallRequest

abbrev pub unconfirmed : BapiRet2Message
unconfirmed = note warning "BAPI returned no BAPIRET2; outcome unconfirmed — not committed"

abbrev pub read_only_error : String → RfcError
read_only_error function = RfcError.permission_denied (
    str_append "write workflow for '"
      (str_append function "' requires write mode (--enable-writes)"))

abbrev pub direct_call_error : RfcError
direct_call_error =
    RfcError.invalid_parameter "function"
      "commit/rollback are issued automatically; call the business BAPI instead"

-- `display e` is the text of an error.
module _ (client : SapClient) (display : RfcError → String) where
  open client use {State, call_rfc}

  -- `client.call_rfc(request, false).await`
  unfoldable pub issue : RfcCallRequest → World State → RfcResult Value × World State
  issue request w =
      let (answer, s) = call_rfc request false w.state in
      (answer, record { state = s; issued = w.issued ++ request ∷ [] })

  unfoldable pub rolled : RfcResult Value × World State → Bool × List BapiRet2Message × World State
  rolled (ok v, w) = let msgs = parse_bapiret2 v in (not (has_failure msgs), msgs, w)
  rolled (err e, w) =
      (false, note warning (str_append "rollback could not be confirmed: " (display e)) ∷ [], w)

  unfoldable pub rollback : World State → Bool × List BapiRet2Message × World State
  unfolding rolled issue
  rollback w = rolled (issue rollback_req w)

  -- Every way out that does not commit: roll back, and report the messages so far and its own.
  unfoldable pub give_up :
      String → Value → List BapiRet2Message → World State → RfcResult WriteOutcome × World State
  unfolding rollback
  give_up function result messages w =
      let (rolled_back, rb_msgs, w') = rollback w in
      (
        ok (record {
          function = function;
          committed = false;
          rolled_back = rolled_back;
          messages = messages ++ rb_msgs;
          result = result;
        }),
        w',
      )

  -- What follows the commit call.
  unfoldable pub after_commit :
      String
      → Value
      → List BapiRet2Message
      → RfcResult Value × World State
      → RfcResult WriteOutcome × World State
  after_commit function result messages (err e, w) = (err e, w)
  after_commit function result messages (ok commit_result, w) =
      let all = messages ++ parse_bapiret2 commit_result in
      if has_failure all then give_up function result all w else (
        ok (record {
          function = function;
          committed = true;
          rolled_back = false;
          messages = all;
          result = result;
        }),
        w,
      )

  -- What follows the business BAPI.
  unfoldable pub after_bapi :
      String → RfcResult Value × World State → RfcResult WriteOutcome × World State
  after_bapi function (err e, w) = (err e, w)
  after_bapi function (ok result, w) =
      let messages = parse_bapiret2 result in
      if has_failure messages
      then give_up function result messages w
      else if is_empty messages
      then give_up function result (unconfirmed ∷ []) w
      else after_commit function result messages (issue commit_req w)

  unfoldable pub execute_write_bapi :
      RfcCallRequest → Bool → World State → RfcResult WriteOutcome × World State
  execute_write_bapi request read_only_mode w =
      if read_only_mode
      then (err (read_only_error request.function), w)
      else if str_eq request.function commit_fn || str_eq request.function rollback_fn
      then (err direct_call_error, w)
      else after_bapi request.function (issue request w)
