-- ===== src/Mcp/Server/Exposure.antt =====
-- The tools that are listed are the tools that can be called.
pub mod Keyed
use sap_automate.Base.{
  String, ◌≡◌, refl, sym, ◌∙◌, subst, ◌≢◌, ◌↔◌, ◌⊎◌, inl, inr, true, false, Option, none, some,
  List, [], ◌∷◌, map, arith, if◌then◌else◌, Bool-cases, Option-cases, All, str_eq, str_eq_iff,
  nat_key, string_key, pair_key,
}
use sap_automate.Base.Dict.{Dict, get, insert, get-insert, beq_refl}
use sap_automate.Json.{object, end}
use sap_automate.Mcp.Error.{ok, err, ErrorCode, protocol_error}
use sap_automate.Mcp.Protocol.{LogLevel, Tool, CallToolParams}
use sap_automate.Mcp.Registry.{
  ExposurePolicy, ToolExposure, ToolDescriptor, ResourceDescriptor, PromptDescriptor, is_allowed_by,
  allows, with_writes,
}
use sap_automate.Mcp.Builder
use sap_automate.Mcp.Builder.{ServerBuilder, ServerContext, ArgumentCompleter, allowed, build, new}
use sap_automate.Mcp.Codec.{Codec, to_value, quoted, unwrap_or, or_error_content}
use sap_automate.Mcp.Server.{call_tool, tools_result}
use sap_automate.Mcp.Server.Exposure.Keyed.{
  Step, apply_all, IsKeyed, IsListed, tools_of, insert-IsKeyed, apply_all-IsKeyed, allowed-IsKeyed,
  get-allowed, IsListed-get, none-IsListed, offer, offer-allows, or_else, latest, policy_after,
  get-apply_all, exposure-apply_all,
}

or_else-none : {A : Type 0} (o : Option A) → or_else o none ≡ o
or_else-none none = refl
or_else-none (some a) = refl

module _ {World : Type 0} (codec : Codec) where
  -- The policy lets the tool be offered.
  abbrev pub MayServe : ExposurePolicy → ToolDescriptor World → Type 0
  MayServe policy d = (policy ≡ ExposurePolicy.all) ⊎ (d.exposure ≡ ToolExposure.read_only)

  MayServe-iff :
      (policy : ExposurePolicy) (d : ToolDescriptor World)
      → (is_allowed_by d policy ≡ true) ↔ MayServe policy d
  unfolding is_allowed_by allows
  MayServe-iff policy d = ground arith

  -- Of the tool that the steps leave under the name and the policy that they leave: either there is
  -- one that may be offered, its name is listed, and its handler runs, whose error becomes content;
  -- or there is none, the name is not listed, the tool is unknown, and no handler runs.
  abbrev pub Offers :
      Option (ToolDescriptor World)
      → ExposurePolicy
      → ServerContext World
      → CallToolParams
      → World
      → Type 0
  Offers left policy ctx params w =
      ((d : ToolDescriptor World) × (left ≡ some d)
        × MayServe policy d
        × IsListed params.name (tools_result codec ctx).tools
        × (call_tool codec ctx (ok params) w ≡ (
            let (r, w') = d.handler (unwrap_or params.arguments (object end)) w in
            (to_value (codec.write_call_tool (or_error_content codec r)), w'))))
      ⊎ (((d : ToolDescriptor World) → left ≡ some d → ¬ MayServe policy d)
          × (¬ IsListed params.name (tools_result codec ctx).tools)
          × (call_tool codec ctx (ok params) w ≡ (
            err (protocol_error ErrorCode.unknown_tool (quoted "unknown tool '" params.name "'")),
            w,
          )))

  offer-none :
      (policy : ExposurePolicy) (o : Option (ToolDescriptor World)) (d : ToolDescriptor World)
      → offer policy o ≡ none
      → o ≡ some d
      → ¬ MayServe policy d
  offer-none policy none d e f m = ground arith
  offer-none policy (some c) d e f m =
      let same : c ≡ d = ground arith in
      let fits : is_allowed_by c policy ≡ true = (MayServe-iff policy c).1 (rw same m) in
      ground arith

  offer-some :
      (policy : ExposurePolicy) (o : Option (ToolDescriptor World)) (d : ToolDescriptor World)
      → offer policy o ≡ some d
      → o ≡ some d
  offer-some policy none d e = ground arith
  offer-some policy (some c) d e = elim (Bool-cases (is_allowed_by c policy)) [
    | inl fits ↦ ground arith
    | inr out ↦ ground arith
  ]

  build-Offers :
      (b : ServerBuilder World) (params : CallToolParams) (w : World)
      → IsKeyed b.tools
      → Offers (get params.name b.tools) b.exposure (build b) params w
  unfolding build call_tool tools_result
  build-Offers b params w keyed =
      let same = get-allowed params.name b.exposure b.tools keyed in
      elim (Option-cases (get params.name (allowed b.exposure b.tools))) [
        | inl e ↦ inr (
          λ d f. offer-none b.exposure (get params.name b.tools) d (sym same ∙ e) f,
          none-IsListed params.name _ (allowed-IsKeyed b.exposure b.tools keyed) e,
          rw e refl,
        )
        | inr (d, e) ↦
            let found = IsListed-get params.name _ d (allowed-IsKeyed b.exposure b.tools keyed) e in
            inl (
              d,
              offer-some b.exposure (get params.name b.tools) d (sym same ∙ e),
              (MayServe-iff b.exposure d).0
                  (offer-allows b.exposure (get params.name b.tools) d (sym same ∙ e)),
              found.1,
              rw e refl,
            )
      ]

  -- For a server built by any steps of the builder: a name is listed by `tools/list` exactly if the
  -- last tool registered under it is read-only or the last policy set lets all tools through (the
  -- policy lets none but the read-only ones through at first), and then `tools/call` runs that
  -- tool's handler, whose error becomes content; any other name is answered as an unknown tool, and
  -- no handler runs. So a tool that writes hides a read-only one that stood under its name before.
  pub call_tool-Offers :
      (name version : String) (steps : List (Step World)) (params : CallToolParams) (w : World)
      → Offers
          (latest params.name steps)
          (policy_after ExposurePolicy.read_only_only steps)
          (build (apply_all (new name version) steps))
          params
          w
  unfolding new get
  call_tool-Offers name version steps params w =
      let b = apply_all (new name version) steps in
      let tools : get params.name b.tools ≡ latest params.name steps =
        get-apply_all params.name steps (new name version)
        ∙ or_else-none (latest params.name steps) in
      rw (← tools, ← exposure-apply_all steps (new name version))
        (build-Offers b params w (apply_all-IsKeyed steps (new name version) tt))
