-- ===== src/Mcp/Elicit.antt =====
-- crates/mcp-server/src/elicit.rs: requests that the server sends to the client while a tool runs. The
-- start of `elicit`, up to the wait, is one step: other tasks touch other ids only. `next_id` is an
-- i64 in the source and unbounded here; it starts at 1,000,000 and only grows.
pub mod Waiters
use sap_automate.Base.{
  ℕ, zero, suc, ◌+◌, ◌-◌, ◌*◌, ◌/◌, ◌%◌, ◌^◌, ◌≤◌, ◌<◌, min, max, String, ◌≡◌, refl, sym, ap, ◌∙◌,
  subst, ◌≢◌, ◌↔◌, ◌⊎◌, inl, inr, Bool, true, false, not, ◌&&◌, ◌||◌, Option, none, some, List, [],
  ◌∷◌, ◌++◌, map, reverse, arith, dec_lt, dec_le, ℕ_discrete, ltb, leb, ◌==◌, if◌then◌else◌, ltb→lt,
  lt→ltb, leb→le, le→leb, ==_iff, tests, Bool-cases, Option-cases, List-cases, length, get_elem?,
  take, drop, any, keep, All, Has, length-append, length-take, length-reverse, All-append,
  Has-append_left, Has-append_right, Has-append, any-append, any-eq-false, take_all,
  take-append_left, take-take_le, take-take, All-take, All-weaken, All-reverse, All-keep, Eq,
  str_eq, str_eq_iff, pair_eq, pair_eq_iff, nat_key, string_key, pair_key,
}
use sap_automate.Base.Dict.{Dict, get, insert, remove}
use sap_automate.Base.Int.{ℤ, pos, negsuc}
use sap_automate.Json.{Value}
use sap_automate.Mcp.JsonRpc
use sap_automate.Mcp.JsonRpc.{RequestId, Request, Response, Message, Reader, jsonrpc_version}
use sap_automate.Mcp.Protocol.{ElicitationParams, ElicitationAction, ElicitationResult}

-- The sender to a waiter, which its id tells apart.
pub data Waiter : Type 0 where
  waiter : Waiter

pub record ElicitationHandle : Type 0 where
  pub pending : Dict ℕ Waiter
  pub next_id : ℕ
  pub enabled : Bool

unfoldable pub new : Bool → ElicitationHandle
new enabled = record { pending = []; next_id = 1_000_000; enabled = enabled }

-- `ElicitationHandle::disabled`
unfoldable pub disabled : ElicitationHandle
unfolding new
disabled = new false

unfoldable pub refused : ElicitationAction → ElicitationResult
refused action = record { action = action; content = none }

-- How `elicit` goes on: it returns, or it waits for the answer to the request that it sent.
pub data Start : Type 0 where
  returns : ElicitationResult → Start
  waits : Request → Start

unfoldable pub request_of : ℕ → Value → Request
request_of id params = record {
  jsonrpc = jsonrpc_version;
  id = RequestId.number (pos id);
  method = "elicitation/create";
  params = some params;
}

abbrev pub register : ElicitationHandle → ElicitationHandle
register h = record h { pending = insert h.next_id waiter h.pending; next_id = h.next_id + 1 }

-- `is_open`: whether the outbound channel takes the request.
unfoldable pub send_request :
    ElicitationHandle → ℕ → (is_open : Bool) → String ⊎ Value → Start × ElicitationHandle
unfolding refused request_of
send_request h id is_open (inl e) = (returns (refused ElicitationAction.cancel), h)
send_request h id is_open (inr params) =
    if is_open
    then (waits (request_of id params), h)
    else (returns (refused ElicitationAction.cancel), record h { pending = remove id h.pending })

elicit_if :
    (enabled : Bool)
    → (ElicitationParams → String ⊎ Value)
    → ElicitationHandle
    → ElicitationParams
    → (is_open : Bool) → Start × ElicitationHandle
elicit_if false write h params is_open = (returns (refused ElicitationAction.decline), h)
elicit_if true write h params is_open = send_request (register h) h.next_id is_open (write params)

-- `elicit`, up to the wait; `write` is the derived code that writes the parameters as JSON.
unfoldable pub elicit :
    (ElicitationParams → String ⊎ Value)
    → ElicitationHandle
    → String
    → Value
    → (is_open : Bool) → Start × ElicitationHandle
unfolding send_request refused elicit_if
elicit write h message requested_schema is_open =
    elicit_if h.enabled write h (record { message = message; requested_schema = requested_schema })
      is_open

-- The waiter that a response wakes, and the handle after it.
claim : Option Waiter → ElicitationHandle → ℕ → Option ℕ × ElicitationHandle
claim none h id = (none, h)
claim (some _) h id = (some id, record h { pending = remove id h.pending })

claim_number : ElicitationHandle → ℤ → Option ℕ × ElicitationHandle
claim_number h (pos id) = claim (get id h.pending) h id
claim_number h (negsuc n) = (none, h)

claim_id : ElicitationHandle → RequestId → Option ℕ × ElicitationHandle
claim_id h (RequestId.number n) = claim_number h n
claim_id h (RequestId.string s) = (none, h)
claim_id h RequestId.null = (none, h)

-- A waiter that is woken receives the response; `deliver_response` returns whether there is one.
unfoldable pub deliver_response : ElicitationHandle → Response → Option ℕ × ElicitationHandle
unfolding claim_id claim_number claim
deliver_response h resp = claim_id h resp.id

or_cancel : String ⊎ ElicitationResult → ElicitationResult
or_cancel (inl e) = refused ElicitationAction.cancel
or_cancel (inr r) = r

read_result : Reader ElicitationResult → Option Value → ElicitationResult
read_result read none = refused ElicitationAction.cancel
read_result read (some value) = or_cancel (read value)

-- What the woken waiter returns.
unfoldable pub parse_response : Reader ElicitationResult → Response → ElicitationResult
unfolding read_result or_cancel
parse_response read resp = elim resp.error [
  | some e ↦ refused ElicitationAction.cancel
  | none ↦ read_result read resp.result
]
