-- ===== src/Mcp/Codec.antt =====
-- crates/mcp-server/src/server.rs: reading the parameters of a request and writing its response. The
-- derived code that turns them from and to JSON, and the texts of errors, are the parameter `Codec`.
use sap_automate.Base.{
  ◌%◌, ◌^◌, String, ◌⊎◌, inl, inr, true, Option, none, some, List, [], ◌∷◌, ltb, if◌then◌else◌,
  length, take, str_eq, nat_key, string_key, pair_key,
}
use Prim.Native.String.{◌++◌ as str_append}
use sap_automate.Json.{Value, object, end}
use sap_automate.Mcp.Error.{Error, ErrorCode, Result, ok, err, as_i32, protocol_error}
use sap_automate.Mcp.JsonRpc.{
  RequestId, Response, ErrorObject, Reader, success, failure, error_with,
}
use sap_automate.Mcp.Protocol.{
  protocol_version, InitializeParams, InitializeResult, ListToolsResult, CallToolParams,
  ToolContent, CallToolResult, ListResourcesResult, ReadResourceParams, ReadResourceResult,
  ListPromptsResult, GetPromptParams, GetPromptResult, SetLevelParams, CompleteParams,
  CompletionData, CompleteResult,
}
use sap_automate.Mcp.Builder.{ArgumentCompleter}

-- `Result<()>`
abbrev pub Done : Type 0
Done = Result {0} Unit

abbrev pub Writer : Type 0 → Type 0
Writer A = A → String ⊎ Value

pub record Codec : Type 0 where
  pub read_initialize : Reader InitializeParams
  pub read_call_tool : Reader CallToolParams
  pub read_resource : Reader ReadResourceParams
  pub read_prompt : Reader GetPromptParams
  pub read_set_level : Reader SetLevelParams
  pub read_complete : Reader CompleteParams
  pub write_initialize : Writer InitializeResult
  pub write_tools : Writer ListToolsResult
  pub write_call_tool : Writer CallToolResult
  pub write_resources : Writer ListResourcesResult
  pub write_resource : Writer ReadResourceResult
  pub write_prompts : Writer ListPromptsResult
  pub write_prompt : Writer GetPromptResult
  pub write_complete : Writer CompleteResult
  pub to_string : Error → String

pub data Method : Type 0 where
  initialize ping tools_list tools_call resources_list resources_read : Method
  prompts_list prompts_get logging_set_level completion_complete : Method
  other : String → Method

-- `match req.method.as_str()`
unfoldable pub method_of : String → Method
method_of m =
    if str_eq m "initialize"
    then Method.initialize
    else if str_eq m "ping"
    then Method.ping
    else if str_eq m "tools/list"
    then Method.tools_list
    else if str_eq m "tools/call"
    then Method.tools_call
    else if str_eq m "resources/list"
    then Method.resources_list
    else if str_eq m "resources/read"
    then Method.resources_read
    else if str_eq m "prompts/list"
    then Method.prompts_list
    else if str_eq m "prompts/get"
    then Method.prompts_get
    else if str_eq m "logging/setLevel"
    then Method.logging_set_level
    else if str_eq m "completion/complete"
    then Method.completion_complete
    else Method.other m

-- `Option::unwrap_or`
abbrev pub unwrap_or {ℓ} : {A : Type ℓ} → Option A → A → A
unwrap_or none d = d
unwrap_or (some a) d = a

abbrev pub read_or_error : {A : Type 0} → String ⊎ A → Result A
read_or_error (inl e) =
    err (protocol_error ErrorCode.invalid_params (str_append "invalid params: " e))
read_or_error (inr a) = ok a

unfoldable pub parse_params : {A : Type 0} → Reader A → Option Value → Result A
parse_params read params = read_or_error (read (unwrap_or params (object end)))

-- `serde_json::to_value(result)?`
abbrev pub to_value : String ⊎ Value → Result Value
to_value (inl e) = err (Error.json e)
to_value (inr v) = ok v

unfoldable pub select_protocol_version : String → String
select_protocol_version client = if str_eq client protocol_version then client else protocol_version

-- `format!("{before}{name}{after}")`
abbrev pub quoted : String → String → String → String
quoted before name after = str_append before (str_append name after)

-- The spec caps the response at 100 entries; `as u32` wraps around.
unfoldable pub completion_of : List String → CompletionData
completion_of values =
    let total = length values % 2 ^ 32 in
    let truncated = take 100 values in
    record {
      values = truncated;
      total = some total;
      has_more = some (ltb (length truncated % 2 ^ 32) total);
    }

abbrev pub complete_with : Option ArgumentCompleter → String → List String
complete_with none typed = []
complete_with (some f) typed = f typed typed

unfoldable pub error_object : Codec → Error → ErrorObject
unfolding as_i32
error_object codec (Error.protocol code message) = error_with code message
error_object codec (Error.json text) = error_with (as_i32 ErrorCode.parse_error) text
error_object codec (Error.io text) = error_with (as_i32 ErrorCode.internal_error) text
error_object codec e = error_with (as_i32 ErrorCode.internal_error) (codec.to_string e)

-- A handler's error is the content of a result that is marked as an error.
unfoldable pub or_error_content : Codec → Result CallToolResult → CallToolResult
or_error_content codec (ok result) = result
or_error_content codec (err e) = record {
  content = ToolContent.text (codec.to_string e) ∷ [];
  is_error = true;
}

unfoldable pub respond : Codec → RequestId → Result Value → Response
respond codec id (ok result) = success id result
respond codec id (err e) = failure id (error_object codec e)
