-- ===== src/Mcp/Tests.antt =====
-- A server with one reading and one writing tool, and a codec that writes little.
use sap_automate.Mcp.Stdio.{StdioTransport}
use sap_automate.Mcp.Framing.{send_all, recv_all, read_message, recv_all-send_all}
use sap_automate.Base.{
  ℕ, ◌+◌, String, ◌≡◌, refl, ◌⊎◌, inl, inr, false, none, some, List, [], ◌∷◌, length, nat_key,
  string_key, pair_key, true, ◌≢◌, Text, text_eq, codes, if◌then◌else◌, arith,
}
use sap_automate.Base.Int.{pos}
use sap_automate.Json.{null, string, object, field, end, Value, has_key, get_field}
use sap_automate.Mcp.Error.{Error, Result, ok, err}
use sap_automate.Mcp.JsonRpc.{
  RequestId, Request, Notification, Message, jsonrpc_version, Response, has_member,
}
use sap_automate.Mcp.JsonRpc
use sap_automate.Mcp.Protocol.{LogLevel, CallToolParams, object_schema}
use sap_automate.Mcp.Registry.{ExposurePolicy, ToolDescriptor, tool_descriptor, with_writes}
use sap_automate.Mcp.Builder.{ServerContext, build, new}
use sap_automate.Mcp.Codec.{Codec}
use sap_automate.Mcp.Server.{run_single_actor}
use sap_automate.Mcp.Server.Exposure.{Offers, call_tool-Offers}
use sap_automate.Mcp.Server.Exposure.Keyed.{Step, apply_all}
use sap_automate.Mcp.Server.Replies.{run_single_actor_answers, response_ids}
use sap_automate.Base.Dict.{get, insert}
use sap_automate.Mcp.Elicit
use sap_automate.Mcp.Protocol.{ElicitationParams}
use sap_automate.Mcp.Elicit.{elicit, deliver_response, request_of, send_request}
use sap_automate.Mcp.Elicit.Waiters.{deliver_response_once}
use sap_automate.Mcp.Elicit.Waiters.History.{
  Event, elicits, delivers, happen, happen_all, IsWaiting,
}

abbrev codec : Codec
codec = record {
  read_initialize = λ v. inl "missing field";
  read_call_tool = λ v. inr (record { name = "write"; arguments = none });
  read_resource = λ v. inl "missing field";
  read_prompt = λ v. inl "missing field";
  read_set_level = λ v. inr (record { level = LogLevel.error });
  read_complete = λ v. inl "missing field";
  write_initialize = λ r. inr null;
  write_tools = λ r. inr null;
  write_call_tool = λ r. inr (string "called");
  write_resources = λ r. inr null;
  write_resource = λ r. inr null;
  write_prompts = λ r. inr null;
  write_prompt = λ r. inr null;
  write_complete = λ r. inr null;
  to_string = λ e. "error";
}

-- A tool that counts its calls.
abbrev counter : String → ToolDescriptor ℕ
counter name = record {
  tool = record { name = name; description = none; input_schema = object_schema };
  handler = λ args n. (err Error.timeout, n + 1);
  exposure = sap_automate.Mcp.Registry.read_only;
}

abbrev steps : List (Step ℕ)
steps = Step.tool (counter "read") ∷ Step.tool (counter "write") ∷ []

abbrev write_call : CallToolParams
write_call = record { name = "write"; arguments = none }

abbrev req : ℕ → String → Request
req n method = record {
  jsonrpc = jsonrpc_version;
  id = JsonRpc.number (pos n);
  method = method;
  params = none;
}

abbrev context : ServerContext ℕ
context = build (apply_all (new "sap" "1") steps)

call_tool-Offers_example :
    Offers codec (some (counter "write")) ExposurePolicy.read_only_only context write_call 0
call_tool-Offers_example = call_tool-Offers codec "sap" "1" steps write_call 0

abbrev session : List (Result Message)
session =
    ok (Message.request (req 1 "ping"))
    ∷ ok (
        Message.notification
          (record { jsonrpc = "2.0"; method = "notifications/initialized"; params = none }))
    ∷ ok (Message.request (req 2 "tools/list"))
    ∷ []

run_single_actor_answers_example :
    let (sent, end_result) = run_single_actor codec false (λ i. ok tt) 0 session context 0 in
    (response_ids sent ≡ JsonRpc.number (pos 1) ∷ JsonRpc.number (pos 2) ∷ [])
    × (length sent ≡ 2)
    × (end_result ≡ ok tt)
run_single_actor_answers_example =
    run_single_actor_answers codec session false (λ i. ok tt) 0 context 0 (λ i. refl)

abbrev write_params : ElicitationParams → String ⊎ Value
write_params p = inr (string p.message)

abbrev answer : ℕ → Response
answer n = JsonRpc.success (JsonRpc.number (pos n)) null

abbrev asked : List Event
asked = elicits "Post the goods receipt?" null true ∷ delivers (answer 7) ∷ []

deliver_response_once_example :
    (JsonRpc.number (pos 1_000_000) ≡ JsonRpc.number (pos 1_000_000))
    × IsWaiting (happen_all write_params (Elicit.new true) asked) 1_000_000
    × ((deliver_response
          (happen_all write_params
            (deliver_response
              (happen_all write_params (Elicit.new true) asked)
              (answer 1_000_000)).1
            asked)
          (answer 1_000_000)).0
        ≢ some 1_000_000)
unfolding JsonRpc.success deliver_response get happen_all happen elicit Elicit.new insert
deliver_response_once_example =
    deliver_response_once write_params true asked asked (answer 1_000_000) (answer 1_000_000)
      1_000_000 woken
  where
    woken :
        (deliver_response (happen_all write_params (Elicit.new true) asked) (answer 1_000_000)).0
        ≡ some 1_000_000
    woken = refl

-- A printer and a parser of two messages.
abbrev ping : Message
ping = Message.request (req 1 "ping")

abbrev pong : Message
pong = Message.response (JsonRpc.success (JsonRpc.number (pos 1)) (string "pong"))

abbrev printed : Message → Result Text
printed (Message.request r) = ok (codes "{a}")
printed _ = ok (codes "{b}")

abbrev parsed : Text → String ⊎ Value
parsed t =
    if text_eq t (codes "{a}")
    then inr (object (field "method" (string "ping") (field "id" (string "1") end)))
    else inr (object (field "id" (string "1") end))

abbrev idle : StdioTransport
idle = record { incoming = []; outgoing = []; closed = false }

abbrev as_ping : Value → String ⊎ Request
as_ping v = inr (req 1 "ping")

abbrev as_nothing : Value → String ⊎ Notification
as_nothing v = inl "no notification"

abbrev as_pong : Value → String ⊎ Response
as_pong v = inr (JsonRpc.success (JsonRpc.number (pos 1)) (string "pong"))

abbrev receive : Text → Result Message
receive = read_message printed parsed as_ping as_nothing as_pong

abbrev reached : StdioTransport
reached = record idle { incoming = (send_all printed receive (ping ∷ pong ∷ []) idle).outgoing }

recv_all-send_all_example : recv_all printed receive 2 reached ≡ some (ping ∷ pong ∷ [])
unfolding text_eq has_member has_key get_field
recv_all-send_all_example =
    recv_all-send_all printed parsed as_ping as_nothing as_pong (ping ∷ pong ∷ []) idle reached
      (
        (
          codes "a",
          object (field "method" (string "ping") (field "id" (string "1") end)),
          refl,
          (λ e. omega arith, tt),
          refl,
          (refl, refl, refl),
        ),
        (
          (
            codes "b",
            object (field "id" (string "1") end),
            refl,
            (λ e. omega arith, tt),
            refl,
            (refl, refl),
          ),
          tt,
        ),
      )
      refl refl refl refl
