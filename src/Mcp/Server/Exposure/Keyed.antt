-- ===== src/Mcp/Server/Exposure/Keyed.antt =====
-- The builder's tools stand under their names, and the exposure policy filters them.
use sap_automate.Base.{
  String, ◌≡◌, refl, ap, ◌∙◌, subst, ◌≢◌, ◌⊎◌, inl, inr, true, false, Option, none, some, List, [],
  ◌∷◌, map, arith, if◌then◌else◌, Bool-cases, All, str_eq, str_eq_iff, nat_key, string_key,
  pair_key,
}
use sap_automate.Base.Dict.{Dict, get, insert, get-insert}
use sap_automate.Mcp.Protocol.{LogLevel, Tool}
use sap_automate.Mcp.Registry.{
  ExposurePolicy, ToolDescriptor, ResourceDescriptor, PromptDescriptor, is_allowed_by,
}
use sap_automate.Mcp.Builder
use sap_automate.Mcp.Builder.{ServerBuilder, ServerContext, ArgumentCompleter, allowed, build, new}

pub data Step (World : Type 0) : Type 0 where
  tool : ToolDescriptor World → Step World
  resource : ResourceDescriptor World → Step World
  prompt : PromptDescriptor World → Step World
  completer : (prompt_name argument : String) → ArgumentCompleter → Step World
  exposure : ExposurePolicy → Step World
  instructions : String → Step World
  log_level : LogLevel → Step World

abbrev pub or_else {ℓ} : {A : Type ℓ} → Option A → Option A → Option A
or_else none b = b
or_else (some a) b = some a

or_else_assoc : {A : Type 0} (a b c : Option A) → or_else a (or_else b c) ≡ or_else (or_else a b) c
or_else_assoc none b c = refl
or_else_assoc (some x) b c = refl

-- Listed by `tools/list`.
abbrev pub IsListed : String → List Tool → Type 0
IsListed name [] = ⊥
IsListed name (t ∷ ts) = (t.name ≡ name) ⊎ IsListed name ts

str_ne : (a b : String) → str_eq a b ≡ false → a ≢ b
str_ne a b = ground (arith, str_eq_iff a b)

module _ {World : Type 0} where
  unfoldable pub apply : ServerBuilder World → Step World → ServerBuilder World
  apply b (Step.tool d) = Builder.tool b d
  apply b (Step.resource d) = Builder.resource b d
  apply b (Step.prompt d) = Builder.prompt b d
  apply b (Step.completer prompt_name argument f) = Builder.completer b prompt_name argument f
  apply b (Step.exposure policy) = Builder.exposure b policy
  apply b (Step.instructions text) = Builder.instructions b text
  apply b (Step.log_level level) = Builder.log_level b level

  unfoldable pub apply_all : ServerBuilder World → List (Step World) → ServerBuilder World
  apply_all b [] = b
  apply_all b (step ∷ steps) = apply_all (apply b step) steps

  -- Every tool stands under its own name, once.
  abbrev pub IsKeyed : Dict String (ToolDescriptor World) → Type 0
  IsKeyed [] = Unit
  IsKeyed ((k, d) ∷ ds) = (k ≡ d.tool.name) × All (λ jd. k ≢ jd.0) ds × IsKeyed ds

  insert-All :
      (P : String × ToolDescriptor World → Type 0) (k : String) (d : ToolDescriptor World)
      (ds : Dict String (ToolDescriptor World))
      → P (k, d)
      → All P ds
      → All P (insert k d ds)
  unfolding insert
  insert-All P k d [] p ps = (p, tt)
  insert-All P k d ((j, e) ∷ ds) p ps = elim (Bool-cases (str_eq j k)) [
    | inl same ↦ rw same (p, ps.1)
    | inr differs ↦ rw differs (ps.0, insert-All P k d ds p ps.1)
  ]

  pub insert-IsKeyed :
      (d : ToolDescriptor World) (ds : Dict String (ToolDescriptor World))
      → IsKeyed ds
      → IsKeyed (insert d.tool.name d ds)
  unfolding insert
  insert-IsKeyed d [] h = (refl, tt, tt)
  insert-IsKeyed d ((j, e) ∷ ds) h = elim (Bool-cases (str_eq j d.tool.name)) [
    | inl same ↦
        rw same
          (refl, subst (λ k. All (λ jd. k ≢ jd.0) ds) ((str_eq_iff j d.tool.name).0 same) h.1, h.2)
    | inr differs ↦ rw differs (
      h.0,
      insert-All (λ jd. j ≢ jd.0) d.tool.name d ds (str_ne j d.tool.name differs) h.1,
      insert-IsKeyed d ds h.2,
    )
  ]

  apply-IsKeyed :
      (b : ServerBuilder World) (step : Step World) → IsKeyed b.tools → IsKeyed (apply b step).tools
  unfolding apply Builder.tool Builder.resource Builder.prompt Builder.completer Builder.exposure
      Builder.instructions Builder.log_level
  apply-IsKeyed b (Step.tool d) h = insert-IsKeyed d b.tools h
  apply-IsKeyed b (Step.resource d) h = h
  apply-IsKeyed b (Step.prompt d) h = h
  apply-IsKeyed b (Step.completer prompt_name argument f) h = h
  apply-IsKeyed b (Step.exposure policy) h = h
  apply-IsKeyed b (Step.instructions text) h = h
  apply-IsKeyed b (Step.log_level level) h = h

  pub apply_all-IsKeyed :
      (steps : List (Step World)) (b : ServerBuilder World)
      → IsKeyed b.tools
      → IsKeyed (apply_all b steps).tools
  unfolding apply_all
  apply_all-IsKeyed [] b h = h
  apply_all-IsKeyed (step ∷ steps) b h =
      apply_all-IsKeyed steps (apply b step) (apply-IsKeyed b step h)

  allowed-All :
      (P : String × ToolDescriptor World → Type 0) (policy : ExposurePolicy)
      (ds : Dict String (ToolDescriptor World))
      → All P ds
      → All P (allowed policy ds)
  unfolding allowed
  allowed-All P policy [] ps = tt
  allowed-All P policy ((j, d) ∷ ds) ps = elim (Bool-cases (is_allowed_by d policy)) [
    | inl fits ↦ rw fits (ps.0, allowed-All P policy ds ps.1)
    | inr out ↦ rw out (allowed-All P policy ds ps.1)
  ]

  pub allowed-IsKeyed :
      (policy : ExposurePolicy) (ds : Dict String (ToolDescriptor World))
      → IsKeyed ds
      → IsKeyed (allowed policy ds)
  unfolding allowed
  allowed-IsKeyed policy [] h = tt
  allowed-IsKeyed policy ((j, d) ∷ ds) h = elim (Bool-cases (is_allowed_by d policy)) [
    | inl fits ↦
        rw fits (h.0, allowed-All (λ jd. j ≢ jd.0) policy ds h.1, allowed-IsKeyed policy ds h.2)
    | inr out ↦ rw out (allowed-IsKeyed policy ds h.2)
  ]

  -- What the policy leaves of a tool.
  abbrev pub offer : ExposurePolicy → Option (ToolDescriptor World) → Option (ToolDescriptor World)
  offer policy none = none
  offer policy (some d) = if is_allowed_by d policy then some d else none

  get_absent :
      (name : String) (ds : Dict String (ToolDescriptor World))
      → All (λ jd. name ≢ jd.0) ds
      → get name ds ≡ none
  unfolding get
  get_absent name [] h = refl
  get_absent name ((j, d) ∷ ds) h = ground (arith, str_eq_iff j name, get_absent name ds h.1)

  pub get-allowed :
      (name : String) (policy : ExposurePolicy) (ds : Dict String (ToolDescriptor World))
      → IsKeyed ds
      → get name (allowed policy ds) ≡ offer policy (get name ds)
  unfolding allowed get
  get-allowed name policy [] h = refl
  get-allowed name policy ((j, d) ∷ ds) h =
      by_case (Bool-cases (is_allowed_by d policy)) (Bool-cases (str_eq j name))
        (get-allowed name policy ds h.2)
    where
      by_case :
          (is_allowed_by d policy ≡ true) ⊎ (is_allowed_by d policy ≡ false)
          → (str_eq j name ≡ true) ⊎ (str_eq j name ≡ false)
          → get name (allowed policy ds) ≡ offer policy (get name ds)
          → get name (allowed policy ((j, d) ∷ ds)) ≡ offer policy (get name ((j, d) ∷ ds))
      by_case (inl fits) (inl same) rest = rw (fits, same, fits) refl
      by_case (inl fits) (inr differs) rest = rw (fits, differs) rest
      by_case (inr out) (inr differs) rest = rw (out, differs) rest
      by_case (inr out) (inl same) rest =
          rw
            (
              out,
              same,
              out,
              rest,
              get_absent name ds
                  (subst (λ k. All (λ jd. k ≢ jd.0) ds) ((str_eq_iff j name).0 same) h.1),
            )
            refl

  abbrev pub tools_of : Dict String (ToolDescriptor World) → List Tool
  tools_of ds = map (λ kd. kd.1.tool) ds

  pub IsListed-get :
      (name : String) (ds : Dict String (ToolDescriptor World)) (d : ToolDescriptor World)
      → IsKeyed ds
      → get name ds ≡ some d
      → (d.tool.name ≡ name) × IsListed name (tools_of ds)
  unfolding get
  IsListed-get name [] d h e = ground arith
  IsListed-get name ((j, c) ∷ ds) d h e =
      ground (arith, str_eq_iff j name, IsListed-get name ds d h.2)

  pub none-IsListed :
      (name : String) (ds : Dict String (ToolDescriptor World))
      → IsKeyed ds
      → get name ds ≡ none
      → ¬ IsListed name (tools_of ds)
  unfolding get
  none-IsListed name [] h e = λ l. l
  none-IsListed name ((j, c) ∷ ds) h e =
      ground (arith, str_eq_iff j name, none-IsListed name ds h.2)

module _ {World : Type 0} where
  pub offer-allows :
      (policy : ExposurePolicy) (o : Option (ToolDescriptor World)) (d : ToolDescriptor World)
      → offer policy o ≡ some d
      → is_allowed_by d policy ≡ true
  offer-allows policy none d e = ground arith
  offer-allows policy (some c) d e = elim (Bool-cases (is_allowed_by c policy)) [
    | inl fits ↦ ground arith
    | inr out ↦ ground arith
  ]

  -- The tool that the steps leave under a name: the last one that has it.
  abbrev pub latest : String → List (Step World) → Option (ToolDescriptor World)
  latest name [] = none
  latest name (Step.tool d ∷ steps) =
      or_else (latest name steps) (if str_eq d.tool.name name then some d else none)
  latest name (Step.resource _ ∷ steps) = latest name steps
  latest name (Step.prompt _ ∷ steps) = latest name steps
  latest name (Step.completer _ _ _ ∷ steps) = latest name steps
  latest name (Step.exposure _ ∷ steps) = latest name steps
  latest name (Step.instructions _ ∷ steps) = latest name steps
  latest name (Step.log_level _ ∷ steps) = latest name steps

  -- The policy that the steps leave, from the one before them.
  abbrev pub policy_after : ExposurePolicy → List (Step World) → ExposurePolicy
  policy_after policy [] = policy
  policy_after policy (Step.exposure other ∷ steps) = policy_after other steps
  policy_after policy (Step.tool _ ∷ steps) = policy_after policy steps
  policy_after policy (Step.resource _ ∷ steps) = policy_after policy steps
  policy_after policy (Step.prompt _ ∷ steps) = policy_after policy steps
  policy_after policy (Step.completer _ _ _ ∷ steps) = policy_after policy steps
  policy_after policy (Step.instructions _ ∷ steps) = policy_after policy steps
  policy_after policy (Step.log_level _ ∷ steps) = policy_after policy steps

  get-tool :
      (name : String) (d : ToolDescriptor World) (ds : Dict String (ToolDescriptor World))
      → get name (insert d.tool.name d ds)
        ≡ or_else (if str_eq d.tool.name name then some d else none) (get name ds)
  get-tool name d ds = elim (Bool-cases (str_eq d.tool.name name)) [
    | inl same ↦ rw (get-insert, same) refl
    | inr differs ↦ rw (get-insert, differs) refl
  ]

  pub get-apply_all :
      (name : String) (steps : List (Step World)) (b : ServerBuilder World)
      → get name (apply_all b steps).tools ≡ or_else (latest name steps) (get name b.tools)
  unfolding apply_all apply Builder.tool Builder.resource Builder.prompt Builder.completer
      Builder.exposure Builder.instructions Builder.log_level
  get-apply_all name [] b = refl
  get-apply_all name (Step.tool d ∷ steps) b =
      get-apply_all name steps (Builder.tool b d)
      ∙ ap (or_else (latest name steps)) (get-tool name d b.tools)
      ∙ or_else_assoc (latest name steps) (if str_eq d.tool.name name then some d else none)
          (get name b.tools)
  get-apply_all name (Step.resource d ∷ steps) b = get-apply_all name steps (Builder.resource b d)
  get-apply_all name (Step.prompt d ∷ steps) b = get-apply_all name steps (Builder.prompt b d)
  get-apply_all name (Step.completer p a f ∷ steps) b =
      get-apply_all name steps (Builder.completer b p a f)
  get-apply_all name (Step.exposure x ∷ steps) b = get-apply_all name steps (Builder.exposure b x)
  get-apply_all name (Step.instructions x ∷ steps) b =
      get-apply_all name steps (Builder.instructions b x)
  get-apply_all name (Step.log_level x ∷ steps) b = get-apply_all name steps (Builder.log_level b x)

  pub exposure-apply_all :
      (steps : List (Step World)) (b : ServerBuilder World)
      → (apply_all b steps).exposure ≡ policy_after b.exposure steps
  unfolding apply_all apply Builder.tool Builder.resource Builder.prompt Builder.completer
      Builder.exposure Builder.instructions Builder.log_level
  exposure-apply_all [] b = refl
  exposure-apply_all (Step.tool d ∷ steps) b = exposure-apply_all steps (Builder.tool b d)
  exposure-apply_all (Step.resource d ∷ steps) b = exposure-apply_all steps (Builder.resource b d)
  exposure-apply_all (Step.prompt d ∷ steps) b = exposure-apply_all steps (Builder.prompt b d)
  exposure-apply_all (Step.completer p a f ∷ steps) b =
      exposure-apply_all steps (Builder.completer b p a f)
  exposure-apply_all (Step.exposure x ∷ steps) b = exposure-apply_all steps (Builder.exposure b x)
  exposure-apply_all (Step.instructions x ∷ steps) b =
      exposure-apply_all steps (Builder.instructions b x)
  exposure-apply_all (Step.log_level x ∷ steps) b = exposure-apply_all steps (Builder.log_level b x)
