-- ===== src/Mcp/Builder.antt =====
-- crates/mcp-server/src/server.rs: the builder, and the context that it builds. The iteration order of
-- a `HashMap` is the order of its association list, on which no property relies.
use sap_automate.Base.{
  ℕ, String, Bool, true, false, Option, none, some, List, [], ◌∷◌, ◌==◌, if◌then◌else◌, nat_key,
  string_key, pair_key,
}
use sap_automate.Base.Dict.{Dict, insert}
use sap_automate.Json.{Value, object, field, end}
use sap_automate.Mcp.Protocol.{
  Implementation, LogLevel, rank, ServerCapabilities, ToolInputSchema, CallToolResult,
}
use sap_automate.Mcp.Registry.{
  ExposurePolicy, ToolDescriptor, ResourceDescriptor, PromptDescriptor, Handler, tool_descriptor,
  is_allowed_by,
}

abbrev pub ArgumentCompleter : Type 0
ArgumentCompleter = String → String → List String

pub record ServerBuilder (World : Type 0) : Type 0 where
  pub info : Implementation
  pub instructions : Option String
  pub tools : Dict String (ToolDescriptor World)
  pub resources : Dict String (ResourceDescriptor World)
  pub prompts : Dict String (PromptDescriptor World)
  pub exposure : ExposurePolicy
  pub completers : Dict (String × String) ArgumentCompleter
  pub initial_log_level : LogLevel

-- `log_level` is the only part of it that changes.
pub record ServerContext (World : Type 0) : Type 0 where
  pub info : Implementation
  pub instructions : Option String
  pub tools : Dict String (ToolDescriptor World)
  pub resources : Dict String (ResourceDescriptor World)
  pub prompts : Dict String (PromptDescriptor World)
  pub exposure : ExposurePolicy
  pub completers : Dict (String × String) ArgumentCompleter
  pub log_level : ℕ

abbrev pub is_empty {ℓ} : {A : Type ℓ} → List A → Bool
is_empty [] = true
is_empty (a ∷ rest) = false

-- `(!map.is_empty()).then_some(c)`
abbrev pub unless_empty {ℓ κ} : {A : Type ℓ} {B : Type κ} → List A → B → Option B
unless_empty [] c = none
unless_empty (a ∷ rest) c = some c

unfoldable pub level_of : ℕ → LogLevel
level_of n =
    if n == 0
    then LogLevel.debug
    else if n == 1
    then LogLevel.info
    else if n == 2
    then LogLevel.notice
    else if n == 3
    then LogLevel.warning
    else if n == 4
    then LogLevel.error
    else if n == 5
    then LogLevel.critical
    else if n == 6
    then LogLevel.alert
    else LogLevel.emergency

module _ {World : Type 0} where
  unfoldable pub new : String → String → ServerBuilder World
  new name version = record {
    info = record { name = name; version = version };
    instructions = none;
    tools = [];
    resources = [];
    prompts = [];
    exposure = ExposurePolicy.read_only_only;
    completers = [];
    initial_log_level = LogLevel.info;
  }

  unfoldable pub completer :
      ServerBuilder World → String → String → ArgumentCompleter → ServerBuilder World
  completer b prompt_name argument f = record b {
    completers = insert (prompt_name, argument) f b.completers;
  }

  unfoldable pub log_level : ServerBuilder World → LogLevel → ServerBuilder World
  log_level b level = record b { initial_log_level = level }

  unfoldable pub exposure : ServerBuilder World → ExposurePolicy → ServerBuilder World
  exposure b policy = record b { exposure = policy }

  unfoldable pub instructions : ServerBuilder World → String → ServerBuilder World
  instructions b text = record b { instructions = some text }

  unfoldable pub tool : ServerBuilder World → ToolDescriptor World → ServerBuilder World
  tool b descriptor = record b { tools = insert descriptor.tool.name descriptor b.tools }

  unfoldable pub tool_fn :
      ServerBuilder World
      → String
      → String
      → ToolInputSchema
      → Handler World Value CallToolResult
      → ServerBuilder World
  unfolding tool_descriptor tool
  tool_fn b name description input_schema handler =
      tool b (tool_descriptor name (some description) input_schema handler)

  unfoldable pub resource : ServerBuilder World → ResourceDescriptor World → ServerBuilder World
  resource b descriptor = record b {
    resources = insert descriptor.resource.uri descriptor b.resources;
  }

  unfoldable pub prompt : ServerBuilder World → PromptDescriptor World → ServerBuilder World
  prompt b descriptor = record b { prompts = insert descriptor.prompt.name descriptor b.prompts }

  -- `tools.into_iter().filter(|(_, d)| d.is_allowed_by(policy)).collect()`
  unfoldable pub allowed :
      ExposurePolicy → Dict String (ToolDescriptor World) → Dict String (ToolDescriptor World)
  allowed policy [] = []
  allowed policy ((name, d) ∷ ds) =
      let rest = allowed policy ds in if is_allowed_by d policy then (name, d) ∷ rest else rest

  unfoldable pub build : ServerBuilder World → ServerContext World
  unfolding allowed rank
  build b = record {
    info = b.info;
    instructions = b.instructions;
    tools = allowed b.exposure b.tools;
    resources = b.resources;
    prompts = b.prompts;
    exposure = b.exposure;
    completers = b.completers;
    log_level = rank b.initial_log_level;
  }

  -- `disabled`: whether SAP_AUTOMATE_DISABLE_LOGGING_CAP is set in the environment.
  unfoldable pub capabilities : (disabled : Bool) → ServerContext World → ServerCapabilities
  capabilities disabled ctx = record {
    tools = unless_empty ctx.tools (record { list_changed = false });
    resources = unless_empty ctx.resources (record { list_changed = false; subscribe = false });
    prompts = unless_empty ctx.prompts (record { list_changed = false });
    logging = if disabled then none else some (object end);
    extra = if is_empty ctx.completers then end else field "completions" (object end) end;
  }

  unfoldable pub current_log_level : ServerContext World → LogLevel
  unfolding level_of
  current_log_level ctx = level_of ctx.log_level
