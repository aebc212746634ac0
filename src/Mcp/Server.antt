-- ===== src/Mcp/Server.antt =====
-- crates/mcp-server/src/server.rs: the dispatch of a request, and the serial loop over a transport.
pub mod Exposure
pub mod Replies
pub mod Completion
use sap_automate.Base.{
  ℕ, zero, suc, ◌+◌, ◌-◌, ◌*◌, ◌/◌, ◌%◌, ◌^◌, ◌≤◌, ◌<◌, min, max, String, ◌≡◌, refl, sym, ap, ◌∙◌,
  subst, ◌≢◌, ◌↔◌, ◌⊎◌, inl, inr, Bool, true, false, not, ◌&&◌, ◌||◌, Option, none, some, List, [],
  ◌∷◌, ◌++◌, map, reverse, arith, dec_lt, dec_le, ℕ_discrete, ltb, leb, ◌==◌, if◌then◌else◌, ltb→lt,
  lt→ltb, leb→le, le→leb, ==_iff, tests, Bool-cases, Option-cases, List-cases, length, get_elem?,
  take, drop, any, keep, All, Has, length-append, length-take, length-reverse, All-append,
  Has-append_left, Has-append_right, Has-append, any-append, any-eq-false, take_all,
  take-append_left, take-take_le, take-take, All-take, All-weaken, All-reverse, All-keep, Eq,
  str_eq, str_eq_iff, pair_eq, pair_eq_iff, nat_key, string_key, pair_key,
}
use Prim.Native.String.{◌++◌ as str_append}
use sap_automate.Base.Dict.{get}
use sap_automate.Json.{Value, object, end}
use sap_automate.Mcp.Error.{Error, ErrorCode, Result, ok, err, ◌>>=◌, as_i32, protocol_error}
use sap_automate.Mcp.JsonRpc.{
  RequestId, Request, Notification, Response, Message, ErrorObject, Reader, success, failure,
  error_with,
}
use sap_automate.Mcp.Protocol
use sap_automate.Mcp.Protocol.{
  protocol_version, InitializeParams, InitializeResult, Tool, ListToolsResult, CallToolParams,
  ToolContent, CallToolResult, Resource, ListResourcesResult, ReadResourceParams,
  ReadResourceResult, Prompt, ListPromptsResult, GetPromptParams, GetPromptResult, SetLevelParams,
  CompletionRef, CompleteParams, CompletionData, CompleteResult, rank,
}
use sap_automate.Mcp.Registry.{ToolDescriptor, ResourceDescriptor, PromptDescriptor}
use sap_automate.Mcp.Builder.{ServerContext, ArgumentCompleter, capabilities}
use sap_automate.Mcp.Codec.{
  Done, Writer, Codec, Method, method_of, unwrap_or, read_or_error, parse_params, to_value,
  select_protocol_version, quoted, completion_of, complete_with, error_object, or_error_content,
  respond,
}

module _ {World : Type 0} (codec : Codec) where
  abbrev pub call_descriptor :
      CallToolParams → Option (ToolDescriptor World) → World → Result Value × World
  call_descriptor params none w =
      (err (protocol_error ErrorCode.unknown_tool (quoted "unknown tool '" params.name "'")), w)
  call_descriptor params (some d) w =
      let (result, w') = d.handler (unwrap_or params.arguments (object end)) w in
      (to_value (codec.write_call_tool (or_error_content codec result)), w')

  unfoldable pub call_tool :
      ServerContext World → Result CallToolParams → World → Result Value × World
  call_tool ctx (err e) w = (err e, w)
  call_tool ctx (ok params) w = call_descriptor params (get params.name ctx.tools) w

  abbrev pub read_descriptor :
      ReadResourceParams → Option (ResourceDescriptor World) → World → Result Value × World
  read_descriptor params none w = (
    err (protocol_error ErrorCode.invalid_params (quoted "unknown resource '" params.uri "'")),
    w,
  )
  read_descriptor params (some d) w =
      let (result, w') = d.handler params.uri w in
      (result >>= (λ r. to_value (codec.write_resource r)), w')

  unfoldable pub read_resource :
      ServerContext World → Result ReadResourceParams → World → Result Value × World
  read_resource ctx (err e) w = (err e, w)
  read_resource ctx (ok params) w = read_descriptor params (get params.uri ctx.resources) w

  abbrev pub get_descriptor :
      GetPromptParams → Option (PromptDescriptor World) → World → Result Value × World
  get_descriptor params none w =
      (err (protocol_error ErrorCode.invalid_params (quoted "unknown prompt '" params.name "'")), w)
  get_descriptor params (some d) w =
      let (result, w') = d.handler params.arguments w in
      (result >>= (λ r. to_value (codec.write_prompt r)), w')

  unfoldable pub get_prompt :
      ServerContext World → Result GetPromptParams → World → Result Value × World
  get_prompt ctx (err e) w = (err e, w)
  get_prompt ctx (ok params) w = get_descriptor params (get params.name ctx.prompts) w

  unfoldable pub complete_prompt :
      ServerContext World → CompleteParams → CompletionRef → Result Value
  complete_prompt ctx params (CompletionRef.resource uri) = to_value (
      codec.write_complete
        (record { completion = record { values = []; total = none; has_more = none } }))
  complete_prompt ctx params (CompletionRef.prompt name) = to_value (
      codec.write_complete (record {
        completion =
            completion_of (
              complete_with (get (name, params.argument.name) ctx.completers)
                params.argument.value);
      }))

  set_level : ServerContext World → Result SetLevelParams → Result Value × ServerContext World
  set_level ctx (err e) = (err e, ctx)
  set_level ctx (ok params) = (ok (object end), record ctx { log_level = rank params.level })

  initialize_result : Bool → ServerContext World → InitializeParams → InitializeResult
  initialize_result disabled ctx params = record {
    protocol_version = select_protocol_version params.protocol_version;
    capabilities = capabilities disabled ctx;
    server_info = ctx.info;
    instructions = ctx.instructions;
  }

  unfoldable pub tools_result : ServerContext World → ListToolsResult
  tools_result ctx = record { tools = map (λ kd. kd.1.tool) ctx.tools; next_cursor = none }

  -- One method, with the context and the handlers' state after it.
  unfoldable pub handle :
      (disabled : Bool)
      → Method
      → Option Value
      → ServerContext World
      → World
      → Result Value × ServerContext World × World
  unfolding set_level initialize_result tools_result
  handle disabled Method.initialize params ctx w = (
    parse_params codec.read_initialize params
        >>= (λ p. to_value (codec.write_initialize (initialize_result disabled ctx p))),
    ctx,
    w,
  )
  handle disabled Method.ping params ctx w = (ok (object end), ctx, w)
  handle disabled Method.tools_list params ctx w =
      (to_value (codec.write_tools (tools_result ctx)), ctx, w)
  handle disabled Method.tools_call params ctx w =
      let (r, w') = call_tool ctx (parse_params codec.read_call_tool params) w in (r, ctx, w')
  handle disabled Method.resources_list params ctx w = (
    to_value (
        codec.write_resources
          (record { resources = map (λ kd. kd.1.resource) ctx.resources; next_cursor = none })),
    ctx,
    w,
  )
  handle disabled Method.resources_read params ctx w =
      let (r, w') = read_resource ctx (parse_params codec.read_resource params) w in (r, ctx, w')
  handle disabled Method.prompts_list params ctx w = (
    to_value (
        codec.write_prompts
          (record { prompts = map (λ kd. kd.1.prompt) ctx.prompts; next_cursor = none })),
    ctx,
    w,
  )
  handle disabled Method.prompts_get params ctx w =
      let (r, w') = get_prompt ctx (parse_params codec.read_prompt params) w in (r, ctx, w')
  handle disabled Method.logging_set_level params ctx w =
      let (r, ctx') = set_level ctx (parse_params codec.read_set_level params) in (r, ctx', w)
  handle disabled Method.completion_complete params ctx w =
      (parse_params codec.read_complete params >>= (λ p. complete_prompt ctx p p.reference), ctx, w)
  handle disabled (Method.other m) params ctx w = (
    err (protocol_error ErrorCode.method_not_found (quoted "method '" m "' not supported")),
    ctx,
    w,
  )

  unfoldable pub handle_method :
      (disabled : Bool)
      → Request
      → ServerContext World
      → World
      → Result Value × ServerContext World × World
  unfolding handle
  handle_method disabled req ctx w = handle disabled (method_of req.method) req.params ctx w

  unfoldable pub dispatch :
      (disabled : Bool)
      → Request
      → ServerContext World
      → World
      → Response × ServerContext World × World
  unfolding respond
  dispatch disabled req ctx w =
      let (result, ctx', w') = handle_method disabled req ctx w in
      (respond codec req.id result, ctx', w')

  unfoldable pub dispatch_message :
      (disabled : Bool)
      → Message
      → ServerContext World
      → World
      → Option Message × ServerContext World × World
  dispatch_message disabled (Message.request req) ctx w =
      let (response, ctx', w') = dispatch disabled req ctx w in
      (some (Message.response response), ctx', w')
  dispatch_message disabled (Message.notification n) ctx w = (none, ctx, w)
  dispatch_message disabled (Message.response r) ctx w = (none, ctx, w)

  -- The serial loop: `inbound` is what `recv` answers, one after the other, until the end of the
  -- input; `send n` is the outcome of the send after `n` others. The answer lists what was sent.
  unfoldable pub run_single_actor :
      (disabled : Bool) (send : ℕ → Done)
      → ℕ
      → List (Result Message)
      → ServerContext World
      → World
      → List Message × Done
  run_single_actor disabled send n [] ctx w = ([], ok tt)
  run_single_actor disabled send n (err e ∷ inbound) ctx w = ([], err e)
  run_single_actor disabled send n (ok message ∷ inbound) ctx w =
      let (response, ctx', w') = dispatch_message disabled message ctx w in
      elim response [
        | none ↦ run_single_actor disabled send n inbound ctx' w'
        | some out ↦ elim (send n) [
          | err e ↦ ([], err e)
          | ok _ ↦
              let (sent, end_result) = run_single_actor disabled send (n + 1) inbound ctx' w' in
              (out ∷ sent, end_result)
        ]
      ]
