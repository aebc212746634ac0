-- ===== src/Rfc/MockClient/Gate.antt =====
-- crates/sap-automate-rfc/src/client.rs: which calls `MockSapClient::call_rfc` answers.
use sap_automate.Base.{
  String, ◌≡◌, refl, subst, ◌↔◌, ◌⊎◌, inl, inr, Bool, true, false, not, ◌&&◌, Option, none, some,
  List, [], ◌∷◌, arith, Bool-cases, nat_key, string_key, pair_key, text_key,
}
use sap_automate.Json.{Value, Fields, has_key}
use sap_automate.Rfc.Error.{RfcResult, ok, err}
use sap_automate.Rfc.Client.{RfcCallRequest, RfcParameter, RfcFunctionMeta}
use sap_automate.Rfc.MockClient.{
  MockSapClient, is_import, first_missing, or_not_found, args_of, echo, unless_missing, with_args,
  with_meta, call_rfc, get,
}
use sap_automate.Base.Dict.{get}

-- Each import parameter that is not optional is among the arguments.
abbrev pub HasRequired : Fields → List RfcParameter → Type 0
HasRequired args [] = Unit
HasRequired args (p ∷ ps) =
    ((is_import p.direction ≡ false) ⊎ (p.optional ≡ true) ⊎ (has_key p.name args ≡ true))
    × HasRequired args ps

first_missing-eq-none :
    (args : Fields) (ps : List RfcParameter) → (first_missing args ps ≡ none) ↔ HasRequired args ps
unfolding first_missing
first_missing-eq-none args [] = (λ _. tt, λ _. refl)
first_missing-eq-none args (p ∷ ps) = ground (arith, first_missing-eq-none args ps)

unless_missing-eq-ok :
    (o : Option String) (w v : Value) → (unless_missing o w ≡ ok v) ↔ ((o ≡ none) × (v ≡ w))
unfolding unless_missing
unless_missing-eq-ok none w v = (λ e. (refl, cc), λ (n, e). cc)
unless_missing-eq-ok (some name) w v = (λ e. cc, λ (n, e). cc)

module _ (before : String → String → Bool) where
  with_args-eq-ok :
      (function : String) (meta : RfcFunctionMeta) (r : RfcResult Fields) (v : Value)
      → (with_args before function meta r ≡ ok v) ↔ (
          (args : Fields) × (r ≡ ok args)
          × HasRequired args meta.parameters
          × (v ≡ echo before function meta args))
  unfolding with_args
  with_args-eq-ok function meta (err e) v = (λ h. cc, λ (args, h, has, same). cc)
  with_args-eq-ok function meta (ok args) v =
      let split =
        unless_missing-eq-ok (first_missing args meta.parameters) (echo before function meta args)
          v in
      let required = first_missing-eq-none args meta.parameters in
      (
        λ h. let (none_missing, same) = split.0 h in (args, refl, required.0 none_missing, same),
        λ (given, e, has, same).
            let one : given ≡ args = cc in
            split.1 (required.1 (subst (λ a. HasRequired a meta.parameters) one has), cc),
      )

closed :
    (read_only_mode : Bool) (meta : RfcFunctionMeta)
    → (read_only_mode ≡ false) ⊎ (meta.read_only ≡ true)
    → read_only_mode && not meta.read_only ≡ true
    → ⊥
closed read_only_mode meta gate shut = ground arith

opened :
    (read_only_mode : Bool) (meta : RfcFunctionMeta)
    → read_only_mode && not meta.read_only ≡ false
    → (read_only_mode ≡ false) ⊎ (meta.read_only ≡ true)
opened true meta e = ground arith
opened false meta e = inl refl

module _ (display : Value → String) (before : String → String → Bool) where
  with_meta-eq-ok :
      (request : RfcCallRequest) (read_only_mode : Bool) (v : Value) (o : Option RfcFunctionMeta)
      → (with_meta display before request read_only_mode (or_not_found request.function o) ≡ ok v)
        ↔ ((meta : RfcFunctionMeta) × (args : Fields) × (o ≡ some meta)
            × ((read_only_mode ≡ false) ⊎ (meta.read_only ≡ true))
            × (args_of display request.parameters ≡ ok args)
            × HasRequired args meta.parameters
            × (v ≡ echo before request.function meta args))
  unfolding with_meta
  with_meta-eq-ok request read_only_mode v none = (λ e. cc, λ (meta, args, e, gate, a, h, same). cc)
  with_meta-eq-ok request read_only_mode v (some meta) =
      let (to_parts, from_parts) =
        with_args-eq-ok before request.function meta (args_of display request.parameters) v in
      elim (Bool-cases (read_only_mode && not meta.read_only)) [
        | inl shut ↦ rw shut (
          λ e. cc,
          λ (other, args, e, gate, a, h, same).
              let one : meta ≡ other = cc in absurd (closed read_only_mode meta (rw one gate) shut),
        )
        | inr pass ↦ rw pass (
          λ e.
              let (args, a, h, same) = to_parts e in
              (meta, args, refl, opened read_only_mode meta pass, a, h, same),
          λ (other, args, e, gate, a, h, same).
              let one : other ≡ meta = cc in
              from_parts (
                args,
                a,
                subst (λ m. HasRequired args m.parameters) one h,
                subst (λ m. v ≡ echo before request.function m args) one same,
              ),
        )
      ]

module _ (display : Value → String) (before : String → String → Bool) where
  -- What an answered call needs of the function and of its arguments.
  abbrev pub Answers : MockSapClient → RfcCallRequest → Bool → Value → Type 0
  Answers c request read_only_mode v =
      (meta : RfcFunctionMeta) × (args : Fields) × (get request.function c.functions ≡ some meta)
      × ((read_only_mode ≡ false) ⊎ (meta.read_only ≡ true))
      × (args_of display request.parameters ≡ ok args)
      × HasRequired args meta.parameters
      × (v ≡ echo before request.function meta args)

  -- A call is answered with a value exactly when its function is known, is read-only or called in
  -- write mode, its parameters are an object or null, and every required import parameter is among
  -- them; the value is then the echo of the call.
  pub call_rfc_iff :
      (c : MockSapClient) (request : RfcCallRequest) (read_only_mode : Bool) (v : Value)
      → (call_rfc display before c request read_only_mode ≡ ok v)
        ↔ Answers c request read_only_mode v
  unfolding call_rfc with_meta with_args unless_missing
  call_rfc_iff c request read_only_mode v =
      with_meta-eq-ok display before request read_only_mode v (get request.function c.functions)
