-- ===== src/Rfc/MockClient.antt =====
-- crates/sap-automate-rfc/src/client.rs: `MockSapClient`, the lookups and `call_rfc`. Each operation
-- holds a permit of the pool while it runs (Rfc/Pool) and leaves the client as it is. `display` prints
-- a value, and `before` is the order of texts by which `serde_json` sorts the keys of a map.
pub mod Gate
pub mod Clauses
pub mod Like
pub mod Tables
mod Tests
pub mod ClientScope
pub mod Reads
use sap_automate.Base.{
  ℕ, zero, suc, ◌+◌, ◌-◌, ◌*◌, ◌/◌, ◌%◌, ◌^◌, ◌≤◌, ◌<◌, min, max, String, ◌≡◌, refl, sym, ap, ◌∙◌,
  subst, ◌≢◌, ◌↔◌, ◌⊎◌, inl, inr, Bool, true, false, not, ◌&&◌, ◌||◌, Option, none, some, List, [],
  ◌∷◌, ◌++◌, map, reverse, arith, dec_lt, dec_le, ℕ_discrete, ltb, leb, ◌==◌, if◌then◌else◌, ltb→lt,
  lt→ltb, leb→le, le→leb, ==_iff, tests, Bool-cases, Option-cases, List-cases, length, get_elem?,
  take, drop, any, keep, All, Has, length-append, length-take, length-reverse, All-append,
  Has-append_left, Has-append_right, Has-append, any-append, any-eq-false, take_all,
  take-append_left, take-take_le, take-take, All-take, All-weaken, All-reverse, All-keep, Eq,
  str_eq, str_eq_iff, pair_eq, pair_eq_iff, nat_key, string_key, pair_key, Text, codes, text_eq,
  text_eq_iff, text_key, ascii_lower, to_ascii_lowercase, eq_ignore_ascii_case, is_whitespace,
  trim_start_matches, trim_matches, trim, starts_with, find, split_once, split, lines,
  starts_with-length, starts_with_same, trim_start, trim_end_matches, utf8_len, byte_len,
  skip_bytes, take_bytes, get_range,
}
use Prim.Native.String.{◌++◌ as str_append}
use mathlib.Core.Option
use sap_automate.Json.{Value, null, string, object, Fields, end, field, has_key}
use sap_automate.Rfc.Error.{RfcError, RfcResult, ok, err}
use sap_automate.Rfc.Pool.{ConnectionPool}
use sap_automate.Rfc.Client.{
  RfcCallRequest, RfcParamDirection, RfcParameter, RfcFunctionMeta, BulkMetadata, SystemInfo,
  TableStructure,
}
use sap_automate.Base.Dict.{Dict, get}

pub record MockTable : Type 0 where
  pub structure : TableStructure
  pub rows : List Fields

pub record MockSapClient : Type 0 where
  pub pool : ConnectionPool
  pub functions : Dict String RfcFunctionMeta
  pub tables : Dict String MockTable
  pub identity : Value

pub record PoolStatus : Type 0 where
  pub cap : ℕ
  pub available : ℕ

unfoldable pub pool_status : MockSapClient → PoolStatus
pool_status c = record { cap = c.pool.cap; available = c.pool.available }

unfoldable pub system_info : MockSapClient → RfcResult SystemInfo
system_info c = ok (record {
  sid = "S4H";
  client = "100";
  release = "SAP S/4HANA 2024 FPS00 (mock)";
  system_role = "DEV";
  host = "mock.sap.example";
  instance_number = "00";
  identity = c.identity;
})

-- `.ok_or_else(|| RfcError::NotFound(name.into()))`
abbrev pub or_not_found {ℓ} : {A : Type ℓ} → String → Option A → RfcResult A
or_not_found name none = err (RfcError.not_found name)
or_not_found name (some a) = ok a

unfoldable pub rfc_metadata : MockSapClient → String → RfcResult RfcFunctionMeta
rfc_metadata c function = or_not_found function (get function c.functions)

sort_out :
    String
    → Option RfcFunctionMeta
    → List RfcFunctionMeta × List String
    → List RfcFunctionMeta × List String
sort_out f none (out, missing) = (out, f ∷ missing)
sort_out f (some meta) (out, missing) = (meta ∷ out, missing)

-- `for f in functions`: what is found, and the names of the rest.
unfoldable pub partition_known : MockSapClient → List String → List RfcFunctionMeta × List String
unfolding sort_out
partition_known c [] = ([], [])
partition_known c (f ∷ fs) = sort_out f (get f c.functions) (partition_known c fs)

unfoldable pub bulk_rfc_metadata : MockSapClient → List String → String → RfcResult BulkMetadata
unfolding partition_known
bulk_rfc_metadata c functions language =
    let (out, missing) = partition_known c functions in
    ok (record { language = language; functions = out; missing = missing })

unfoldable pub table_structure : MockSapClient → String → RfcResult TableStructure
table_structure c table = or_not_found table (Option.map (λ t. t.structure) (get table c.tables))

abbrev is_import : RfcParamDirection → Bool
is_import RfcParamDirection.import = true
is_import RfcParamDirection.export = false
is_import RfcParamDirection.changing = false
is_import RfcParamDirection.tables = false

abbrev is_export : RfcParamDirection → Bool
is_export RfcParamDirection.import = false
is_export RfcParamDirection.export = true
is_export RfcParamDirection.changing = false
is_export RfcParamDirection.tables = false

-- The name of the first required import parameter that is not given.
unfoldable pub first_missing : Fields → List RfcParameter → Option String
first_missing args [] = none
first_missing args (p ∷ ps) =
    let rest = first_missing args ps in
    if is_import p.direction && not p.optional && not (has_key p.name args)
    then some p.name
    else rest

-- `match &request.parameters`
unfoldable pub args_of : (Value → String) → Value → RfcResult Fields
args_of display (object m) = ok m
args_of display null = ok end
args_of display other =
    err
      (RfcError.invalid_parameter "parameters" (str_append "expected object, got " (display other)))

unless_missing : Option String → Value → RfcResult Value
unless_missing none v = ok v
unless_missing (some name) v =
    err (RfcError.invalid_parameter name "required import parameter missing")

module _ (before : String → String → Bool) where
  -- `map.insert(k, v)`: the keys are sorted.
  unfoldable pub insert_field : String → Value → Fields → Fields
  insert_field k v end = field k v end
  insert_field k v (field j w fs) =
      let rest = insert_field k v fs in
      if str_eq j k
      then field k v fs
      else if before k j
      then field k v (field j w fs)
      else field j w rest

  outputs_from : List RfcParameter → Fields → Fields
  unfolding insert_field
  outputs_from [] out = out
  outputs_from (p ∷ ps) out = outputs_from ps (
      if is_export p.direction
      then insert_field p.name (string (str_append "<mock " (str_append p.type_token ">"))) out
      else out)

  unfoldable pub mock_outputs : RfcFunctionMeta → Value
  unfolding outputs_from
  mock_outputs meta = object (outputs_from meta.parameters end)

  -- The answer: the call echoed, its keys in order.
  unfoldable pub echo : String → RfcFunctionMeta → Fields → Value
  unfolding mock_outputs
  echo function meta args = object (
      field "executed_on" (string "mock.sap.example") (
        field "function" (string function)
          (field "inputs" (object args) (field "outputs" (mock_outputs meta) end))))

  with_args : String → RfcFunctionMeta → RfcResult Fields → RfcResult Value
  unfolding unless_missing first_missing echo
  with_args function meta (err e) = err e
  with_args function meta (ok args) =
      unless_missing (first_missing args meta.parameters) (echo function meta args)

module _ (display : Value → String) (before : String → String → Bool) where
  with_meta : RfcCallRequest → Bool → RfcResult RfcFunctionMeta → RfcResult Value
  unfolding with_args args_of
  with_meta request read_only_mode (err e) = err e
  with_meta request read_only_mode (ok meta) =
      if read_only_mode && not meta.read_only
      then err (
          RfcError.permission_denied (
            str_append "function '"
              (str_append request.function "' modifies state; not callable in read-only mode")))
      else with_args before request.function meta (args_of display request.parameters)

  unfoldable pub call_rfc : MockSapClient → RfcCallRequest → Bool → RfcResult Value
  unfolding with_meta
  call_rfc c request read_only_mode =
      with_meta request read_only_mode
        (or_not_found request.function (get request.function c.functions))
