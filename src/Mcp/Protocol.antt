-- ===== src/Mcp/Protocol.antt =====
-- crates/mcp-core/src/protocol.rs: the parameters and the results of the methods, the log levels and
-- the names of the methods.
use sap_automate.Base.{ℕ, String, Bool, Option, some, List, [], nat_key, string_key, pair_key}
use sap_automate.Json.{Value, Fields, object, end}

abbrev pub protocol_version : String
protocol_version = "2025-06-18"

pub record Implementation : Type 0 where
  pub name : String
  pub version : String

pub record RootsCapability : Type 0 where
  pub list_changed : Bool

pub record ClientCapabilities : Type 0 where
  pub sampling : Option Value
  pub elicitation : Option Value
  pub roots : Option RootsCapability
  pub extra : Fields

pub record ToolsCapability : Type 0 where
  pub list_changed : Bool

pub record ResourcesCapability : Type 0 where
  pub list_changed : Bool
  pub subscribe : Bool

pub record PromptsCapability : Type 0 where
  pub list_changed : Bool

pub record ServerCapabilities : Type 0 where
  pub tools : Option ToolsCapability
  pub resources : Option ResourcesCapability
  pub prompts : Option PromptsCapability
  pub logging : Option Value
  pub extra : Fields

pub record InitializeParams : Type 0 where
  pub protocol_version : String
  pub capabilities : ClientCapabilities
  pub client_info : Implementation

pub record InitializeResult : Type 0 where
  pub protocol_version : String
  pub capabilities : ServerCapabilities
  pub server_info : Implementation
  pub instructions : Option String

pub record ToolInputSchema : Type 0 where
  pub schema_type : String
  pub properties : Option Value
  pub required : List String
  pub extra : Fields

-- `ToolInputSchema::object`
unfoldable pub object_schema : ToolInputSchema
object_schema = record {
  schema_type = "object";
  properties = some (object end);
  required = [];
  extra = end;
}

pub record Tool : Type 0 where
  pub name : String
  pub description : Option String
  pub input_schema : ToolInputSchema

pub record ListToolsResult : Type 0 where
  pub tools : List Tool
  pub next_cursor : Option String

pub record CallToolParams : Type 0 where
  pub name : String
  pub arguments : Option Value

pub record ResourceContents : Type 0 where
  pub uri : String
  pub mime_type : Option String
  pub text : Option String
  pub blob : Option String

pub data ToolContent : Type 0 where
  text : String → ToolContent
  image : (content mime_type : String) → ToolContent
  resource : ResourceContents → ToolContent

pub record CallToolResult : Type 0 where
  pub content : List ToolContent
  pub is_error : Bool

pub record Resource : Type 0 where
  pub uri : String
  pub name : String
  pub description : Option String
  pub mime_type : Option String

pub record ListResourcesResult : Type 0 where
  pub resources : List Resource
  pub next_cursor : Option String

pub record ReadResourceParams : Type 0 where
  pub uri : String

pub record ReadResourceResult : Type 0 where
  pub contents : List ResourceContents

pub record PromptArgument : Type 0 where
  pub name : String
  pub description : Option String
  pub required : Bool

pub record Prompt : Type 0 where
  pub name : String
  pub description : Option String
  pub arguments : List PromptArgument

pub record ListPromptsResult : Type 0 where
  pub prompts : List Prompt
  pub next_cursor : Option String

pub record GetPromptParams : Type 0 where
  pub name : String
  pub arguments : Option Value

pub data Role : Type 0 where
  user assistant system : Role

pub record PromptMessage : Type 0 where
  pub role : Role
  pub content : ToolContent

pub record GetPromptResult : Type 0 where
  pub description : Option String
  pub messages : List PromptMessage

pub data LogLevel : Type 0 where
  debug info notice warning error critical alert emergency : LogLevel

-- `LogLevel::rank`
unfoldable pub rank : LogLevel → ℕ
rank LogLevel.debug = 0
rank LogLevel.info = 1
rank LogLevel.notice = 2
rank LogLevel.warning = 3
rank LogLevel.error = 4
rank LogLevel.critical = 5
rank LogLevel.alert = 6
rank LogLevel.emergency = 7

pub record SetLevelParams : Type 0 where
  pub level : LogLevel

pub data CompletionRef : Type 0 where
  prompt : (name : String) → CompletionRef
  resource : (uri : String) → CompletionRef

pub record CompletionArgumentRef : Type 0 where
  pub name : String
  pub value : String

pub record CompleteParams : Type 0 where
  pub reference : CompletionRef
  pub argument : CompletionArgumentRef

pub record CompletionData : Type 0 where
  pub values : List String
  pub total : Option ℕ
  pub has_more : Option Bool

pub record CompleteResult : Type 0 where
  pub completion : CompletionData

pub record ElicitationParams : Type 0 where
  pub message : String
  pub requested_schema : Value

pub data ElicitationAction : Type 0 where
  accept decline cancel : ElicitationAction

pub record ElicitationResult : Type 0 where
  pub action : ElicitationAction
  pub content : Option Value
