-- ===== src/Mcp/Registry.antt =====
-- crates/mcp-server/src/registry.rs: descriptors of tools, resources and prompts, and the exposure
-- policy. A handler is a function of its arguments and of the state `World` that all of them share.
use sap_automate.Base.{String, Bool, true, false, Option, nat_key, string_key, pair_key}
use sap_automate.Json.{Value}
use sap_automate.Mcp.Error.{Result}
use sap_automate.Mcp.Protocol.{
  Tool, ToolInputSchema, CallToolResult, Resource, ReadResourceResult, Prompt, GetPromptResult,
}

abbrev pub Handler : Type 0 → Type 0 → Type 0 → Type 0
Handler World A B = A → World → Result B × World

pub data ToolExposure : Type 0 where
  read_only writes : ToolExposure

pub data ExposurePolicy : Type 0 where
  read_only_only all : ExposurePolicy

pub record ToolDescriptor (World : Type 0) : Type 0 where
  pub tool : Tool
  pub handler : Handler World Value CallToolResult
  pub exposure : ToolExposure

pub record ResourceDescriptor (World : Type 0) : Type 0 where
  pub resource : Resource
  pub handler : Handler World String ReadResourceResult

pub record PromptDescriptor (World : Type 0) : Type 0 where
  pub prompt : Prompt
  pub handler : Handler World (Option Value) GetPromptResult

-- `is_allowed_by`, on the exposure of a tool.
unfoldable pub allows : ExposurePolicy → ToolExposure → Bool
allows ExposurePolicy.read_only_only ToolExposure.read_only = true
allows ExposurePolicy.read_only_only ToolExposure.writes = false
allows ExposurePolicy.all _ = true

module _ {World : Type 0} where
  unfoldable pub tool_descriptor :
      String
      → Option String
      → ToolInputSchema
      → Handler World Value CallToolResult
      → ToolDescriptor World
  tool_descriptor name description input_schema handler = record {
    tool = record { name = name; description = description; input_schema = input_schema };
    handler = handler;
    exposure = ToolExposure.read_only;
  }

  unfoldable pub with_writes : ToolDescriptor World → ToolDescriptor World
  with_writes d = record d { exposure = ToolExposure.writes }

  unfoldable pub is_allowed_by : ToolDescriptor World → ExposurePolicy → Bool
  unfolding allows
  is_allowed_by d policy = allows policy d.exposure
