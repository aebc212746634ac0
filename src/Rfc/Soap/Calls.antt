-- ===== src/Rfc/Soap/Calls.antt =====
-- crates/sap-automate-rfc/src/soap.rs: `SapClient` for `SoapRfcClient`. The searches and the metadata in
-- bulk are the catalogue's.
use sap_automate.Base.{
  String, Bool, not, ◌&&◌, Option, none, some, List, [], ◌∷◌, map, ltb, ◌==◌, if◌then◌else◌,
  nat_key, string_key, pair_key, codes, text_key, utf8_len, byte_len,
}
use Prim.Native.String.{◌++◌ as str_append}
use sap_automate.Json.{Value, Items, Fields}
use sap_automate.Rfc.Error.{RfcError, RfcResult, ok, err}
use sap_automate.Rfc.Client.{
  RfcFunctionMeta, RfcCallRequest, ReadTableRequest, TableRow, TableStructure, SystemInfo,
  max_rows_hard_cap,
}
use sap_automate.Rfc.MockClient.{insert_field}
use sap_automate.Rfc.Soap.Envelope.{write_params, validate_fields}
use sap_automate.Rfc.Soap.Response.{trim_text}
use sap_automate.Rfc.Soap.Rows.{get_key, as_str, parse_read_table}
use sap_automate.Rfc.Soap.FieldInfo.{parse_field_info}
use sap_automate.Rfc.Soap.Invoke.{SoapRfcConfig, redacted, Outside, Call, invoke}

-- `r?` behind a call: what follows posts nothing more.
abbrev pub map_call {ℓ κ} : {A : Type ℓ} {B : Type κ} → (A → RfcResult B) → Call A → Call B
map_call f (ok a, sent) = (f a, sent)
map_call f (err e, sent) = (err e, sent)

-- `r?` in front of a call.
abbrev pub then_call {ℓ κ} : {A : Type ℓ} {B : Type κ} → RfcResult A → (A → Call B) → Call B
then_call (ok a) f = f a
then_call (err e) f = (err e, [])

abbrev pub items_of : List Value → Items
items_of [] = Items.nil
items_of (v ∷ vs) = Items.cons v (items_of vs)

-- `json!({ k: s })`
abbrev pub one_field : String → String → Value
one_field k s = Value.object (Fields.field k (Value.string s) Fields.end)

abbrev denied : String → String → RfcResult {0} Unit
denied function why =
    err (RfcError.permission_denied (str_append "function '" (str_append function why)))

-- The gate: whether the catalogue lets the call pass.
unfoldable pub gate : Bool → String → RfcResult RfcFunctionMeta → RfcResult {0} Unit
gate read_only function (ok meta) =
    if read_only && not meta.read_only
    then denied function "' modifies state; not callable in read-only mode"
    else ok tt
gate read_only function (err (RfcError.not_found _)) =
    if read_only
    then denied function
        "' is not in the curated read-only catalogue; refusing to call it in read-only mode"
    else ok tt
gate read_only function (err e) = err e

abbrev pub long_clause : List String → Option String
long_clause [] = none
long_clause (c ∷ cs) =
    let rest = long_clause cs in if ltb 72 (byte_len (codes c)) then some c else rest

abbrev pub unless_long : Option String → RfcResult {0} Unit
unless_long none = ok tt
unless_long (some c) = err (
    RfcError.invalid_parameter "where_conditions"
      (str_append "clause exceeds RFC_READ_TABLE's 72-char limit: '" (str_append c "'")))

-- The guards of `read_table`, in order.
unfoldable pub check_read : ReadTableRequest → RfcResult {0} Unit
unfolding utf8_len
check_read r =
    if r.max_rows == 0
    then err (RfcError.invalid_parameter "max_rows" "must be >= 1")
    else if ltb max_rows_hard_cap r.max_rows
    then err (RfcError.table_buffer_overflow r.table r.max_rows)
    else unless_long (long_clause r.where_conditions)

-- `if !xs.is_empty() { params.insert(k, …) }`
abbrev pub insert_rows : (String → String → Bool) → String → String → List String → Fields → Fields
insert_rows before k col [] m = m
insert_rows before k col (x ∷ xs) m =
    insert_field before k (Value.array (items_of (map (one_field col) (x ∷ xs)))) m

abbrev or_self : Value → Option Value → Value
or_self v none = v
or_self v (some w) = w

module _ (out : Outside) (config : SoapRfcConfig) where
  unfoldable pub args_of : Value → RfcResult Fields
  args_of (Value.object m) = ok m
  args_of Value.null = ok Fields.end
  args_of v =
      err (
        RfcError.invalid_parameter "parameters"
          (str_append "expected object, got " (out.display v)))

  abbrev pub report : String → Value → RfcResult Value
  report function outputs = ok (
      Value.object (
        Fields.field "executed_on" (Value.string config.base_url) (
          Fields.field "function" (Value.string function)
            (Fields.field "outputs" outputs Fields.end))))

  unfoldable pub post_args : String → Fields → Call Value
  unfolding validate_fields write_params invoke
  post_args function args =
      then_call (validate_fields args)
        (λ _. map_call (report function) (invoke out config function (write_params args)))

  unfoldable pub call_rfc : RfcCallRequest → Bool → Call Value
  unfolding gate args_of post_args
  call_rfc request read_only_mode =
      then_call
        (gate read_only_mode request.function (out.rfc_metadata request.function config.language))
        (λ _. then_call (args_of request.parameters) (post_args request.function))

  unfoldable pub read_table_params : ReadTableRequest → Fields
  unfolding insert_field
  read_table_params r =
      let m1 = insert_field out.before "QUERY_TABLE" (Value.string r.table) Fields.end in
      let m2 = insert_field out.before "DELIMITER" (Value.string "|") m1 in
      let m3 = insert_field out.before "ROWCOUNT" (Value.number (out.show r.max_rows)) m2 in
      let m4 = insert_rows out.before "FIELDS" "FIELDNAME" r.fields m3 in
      insert_rows out.before "OPTIONS" "TEXT" r.where_conditions m4

  unfoldable pub read_table : ReadTableRequest → Call (List TableRow)
  unfolding check_read read_table_params write_params invoke parse_read_table
  read_table r = then_call (check_read r) (λ _.
      map_call (parse_read_table out.before)
        (invoke out config "RFC_READ_TABLE" (write_params (read_table_params r))))

  unfoldable pub table_structure : String → Call TableStructure
  unfolding insert_field write_params invoke parse_field_info
  table_structure table =
      let m1 = insert_field out.before "TABNAME" (Value.string table) Fields.end in
      let m2 = insert_field out.before "LANGU" (Value.string config.language) m1 in
      map_call (parse_field_info table) (invoke out config "DDIF_FIELDINFO_GET" (write_params m2))

  abbrev info_of : Value → RfcResult SystemInfo
  info_of payload =
      let si = or_self payload (get_key "RFCSI_EXPORT" payload) in
      ok (record {
        sid = trim_text (as_str (get_key "RFCSYSID" si));
        client = config.client;
        release = trim_text (as_str (get_key "RFCSAPRL" si));
        system_role = "";
        host = trim_text (as_str (get_key "RFCHOST" si));
        instance_number = "";
        identity = redacted config;
      })

  unfoldable pub system_info : Call SystemInfo
  unfolding get_key trim_text redacted invoke
  system_info = map_call info_of (invoke out config "RFC_SYSTEM_INFO" [])
