-- ===== src/Mcp/Client.antt =====
-- crates/mcp-client/src/lib.rs: the client's table of calls that wait, its reader loop and its answers to
-- the server. The start of `call`, up to the wait, is one step: other tasks touch other ids only.
-- `next_id` is an i64 in the source and unbounded here.
pub mod Calls
mod Tests
use sap_automate.Base.{
  ℕ, zero, suc, ◌+◌, ◌-◌, ◌*◌, ◌/◌, ◌%◌, ◌^◌, ◌≤◌, ◌<◌, min, max, String, ◌≡◌, refl, sym, ap, ◌∙◌,
  subst, ◌≢◌, ◌↔◌, ◌⊎◌, inl, inr, Bool, true, false, not, ◌&&◌, ◌||◌, Option, none, some, List, [],
  ◌∷◌, ◌++◌, map, reverse, arith, dec_lt, dec_le, ℕ_discrete, ltb, leb, ◌==◌, if◌then◌else◌, ltb→lt,
  lt→ltb, leb→le, le→leb, ==_iff, tests, Bool-cases, Option-cases, List-cases, length, get_elem?,
  take, drop, any, keep, All, Has, length-append, length-take, length-reverse, All-append,
  Has-append_left, Has-append_right, Has-append, any-append, any-eq-false, take_all,
  take-append_left, take-take_le, take-take, All-take, All-weaken, All-reverse, All-keep, Eq,
  str_eq, str_eq_iff, pair_eq, pair_eq_iff, nat_key, string_key, pair_key,
}
use Prim.Native.String.{◌++◌ as str_append}
use sap_automate.Base.Dict.{Dict, get, insert, remove}
use sap_automate.Base.Int.{ℤ, pos, negsuc}
use sap_automate.Json.{Value}
use sap_automate.Mcp.Error
use sap_automate.Mcp.Error.{ErrorCode, Result, ok, err, protocol_error}
use sap_automate.Mcp.JsonRpc
use sap_automate.Mcp.JsonRpc.{
  RequestId, Request, Response, Message, Reader, jsonrpc_version, success, failure, error_with,
}
use sap_automate.Mcp.Protocol.{ElicitationParams, ElicitationResult, ElicitationAction}

-- The sender to a call that waits, which its id tells apart.
pub data Waiter : Type 0 where
  waiter : Waiter

pub record Client : Type 0 where
  pub next_id : ℕ
  pub pending : Dict ℕ Waiter

-- `Client::spawn_with_halves`
unfoldable pub spawn : Client
spawn = record { next_id = 1; pending = [] }

-- How `call` goes on: it fails, or it waits for the answer to the request that it sent.
pub data Start : Type 0 where
  fails : Error.Error → Start
  waits : Request → Start

unfoldable pub request_of : ℕ → String → Option Value → Request
request_of id method params = record {
  jsonrpc = jsonrpc_version;
  id = RequestId.number (pos id);
  method = method;
  params = params;
}

-- `call`, up to the wait. `is_open` is whether the outbox takes the request.
unfoldable pub begin_call : Client → String → Option Value → (is_open : Bool) → Start × Client
unfolding request_of
begin_call c method params is_open = (
  if is_open then waits (request_of c.next_id method params) else fails Error.transport_closed,
  record { next_id = c.next_id + 1; pending = insert c.next_id waiter c.pending },
)

read_result : {A : Type 0} → Reader A → Option Value → Result A
read_result read none = err (protocol_error ErrorCode.invalid_request "response missing result")
read_result read (some value) = elim (read value) [ inl e ↦ err (Error.json e) | inr a ↦ ok a ]

-- What a call returns that was woken: by a response, or by nothing when its sender is dropped.
unfoldable pub finish_call : {A : Type 0} → Reader A → Option Response → Result A
unfolding read_result
finish_call read none = err Error.transport_closed
finish_call read (some response) = elim response.error [
  | some e ↦ err (Error.protocol e.code e.message)
  | none ↦ read_result read response.result
]

claim : Option Waiter → Client → ℕ → Option ℕ × Client
claim none c id = (none, c)
claim (some _) c id = (some id, record c { pending = remove id c.pending })

-- The call that a response wakes, and the client after it.
unfoldable pub receive : Client → RequestId → Option ℕ × Client
unfolding claim
receive c (RequestId.number (pos id)) = claim (get id c.pending) c id
receive c (RequestId.number (negsuc n)) = (none, c)
receive c (RequestId.string s) = (none, c)
receive c RequestId.null = (none, c)

abbrev pub ids_of : Dict ℕ Waiter → List ℕ
ids_of [] = []
ids_of ((id, w) ∷ m) = id ∷ ids_of m

-- The end of the reader loop: `p.clear()` drops the senders of these calls.
unfoldable pub close : Client → List ℕ × Client
close c = (ids_of c.pending, record c { pending = [] })

-- `DeclineAll`
unfoldable pub decline_all : ElicitationParams → ElicitationResult
decline_all params = record { action = ElicitationAction.decline; content = none }

read_params : Reader ElicitationParams → Option Value → Option ElicitationParams
read_params read none = none
read_params read (some v) = elim (read v) [ inl e ↦ none | inr p ↦ some p ]

answer_elicit :
    (ElicitationParams → ElicitationResult)
    → (ElicitationResult → String ⊎ Value)
    → RequestId
    → Option ElicitationParams
    → Response
answer_elicit on_elicit write id none =
    failure id (error_with (Error.as_i32 ErrorCode.invalid_params) "invalid elicitation params")
answer_elicit on_elicit write id (some params) = elim (write (on_elicit params)) [
  | inl e ↦ failure id (error_with (Error.as_i32 ErrorCode.internal_error) e)
  | inr v ↦ success id v
]

-- `handle_server_request`: the response that it puts into the outbox.
unfoldable pub handle_server_request :
    Reader ElicitationParams
    → (ElicitationParams → ElicitationResult)
    → (ElicitationResult → String ⊎ Value)
    → Request
    → Response
unfolding answer_elicit read_params success failure error_with
handle_server_request read on_elicit write req =
    if str_eq req.method "elicitation/create"
    then answer_elicit on_elicit write req.id (read_params read req.params)
    else failure req.id (
        error_with (Error.as_i32 ErrorCode.method_not_found)
          (str_append "method '" (str_append req.method "' not supported by client")))
