-- ===== src/Rfc/MockClient/Tables.antt =====
-- crates/sap-automate-rfc/src/client.rs: `MockSapClient::read_table`. `to_uppercase` and `to_lowercase`
-- are those of `str`; a panic is `none`.
use sap_automate.Base.{
  ℕ, ◌+◌, String, Bool, true, ◌&&◌, ◌||◌, Option, none, some, List, [], ◌∷◌, ◌++◌, map, ltb, leb,
  ◌==◌, if◌then◌else◌, any, str_eq, nat_key, string_key, pair_key, Text, codes, text_key,
  eq_ignore_ascii_case,
}
use Prim.Native.String.{◌++◌ as str_append}
use sap_automate.Json.{Value, string, object, Fields, end, field, get_field}
use sap_automate.Rfc.Error.{RfcError, RfcResult, ok, err}
use sap_automate.Rfc.Client.{
  TableField, TableStructure, ReadTableRequest, TableRow, max_rows_hard_cap,
}
use sap_automate.Rfc.MockClient.{MockTable, MockSapClient, or_not_found, insert_field}
use sap_automate.Rfc.MockClient.Clauses.{Operator, equals, like, Condition, parse_conditions}
use sap_automate.Rfc.MockClient.Like.{sql_like}
use sap_automate.Base.Dict.{get}

-- `row.iter().find(|(k, _)| k.eq_ignore_ascii_case(field))`
unfoldable pub find_column : Text → Fields → Option (String × Value)
unfolding eq_ignore_ascii_case
find_column name end = none
find_column name (field k v fs) =
    let rest = find_column name fs in
    if eq_ignore_ascii_case (codes k) name then some (k, v) else rest

module _ (display : Value → String) where
  abbrev pub text_of : Value → Text
  text_of (string s) = codes s
  text_of other = codes (display other)

  abbrev actual_of : Option (String × Value) → Text
  actual_of none = []
  actual_of (some (k, v)) = text_of v

-- The parameters of a read.
pub record Texts : Type 0 where
  pub to_uppercase : Text → Text
  pub to_lowercase : Text → Text
  pub display : Value → String
  pub before : String → String → Bool

unfoldable pub by_op : (Text → Text) → Operator → Text → Text → Bool
unfolding eq_ignore_ascii_case
by_op to_lowercase equals actual value = eq_ignore_ascii_case actual value
by_op to_lowercase like actual value = sql_like to_lowercase actual value

unfoldable pub match_row : Texts → Fields → Condition → Bool
unfolding by_op find_column
match_row t row c =
    by_op t.to_lowercase c.op (actual_of t.display (find_column c.field row)) c.value

-- `conditions.iter().all(...)`
unfoldable pub match_all : Texts → List Condition → Fields → Bool
unfolding match_row
match_all t [] row = true
match_all t (c ∷ cs) row = match_row t row c && match_all t cs row

-- The name of the first requested field that the table does not have.
unfoldable pub first_unknown : List TableField → List String → Option String
unfolding eq_ignore_ascii_case
first_unknown known [] = none
first_unknown known (f ∷ fs) =
    let rest = first_unknown known fs in
    if any (λ tf. eq_ignore_ascii_case (codes tf.name) (codes f)) known then rest else some f

known_fields : Option String → List String → RfcResult (List String)
known_fields none fields = ok fields
known_fields (some f) fields =
    err (RfcError.invalid_parameter "fields" (str_append "unknown field '" (str_append f "'")))

unfoldable pub projection_of : TableStructure → List String → RfcResult (List String)
unfolding first_unknown known_fields
projection_of structure [] = ok (map (λ f. f.name) structure.fields)
projection_of structure (f ∷ fs) = known_fields (first_unknown structure.fields (f ∷ fs)) (f ∷ fs)

-- `identity.get("client").and_then(|v| v.as_str()).unwrap_or("100")`
client_text : Option Value → String
client_text (some (string s)) = s
client_text other = "100"

unfoldable pub client_of : Value → String
unfolding client_text get_field
client_of (object fs) = client_text (get_field "client" fs)
client_of other = "100"

-- The first field, where it is the client's.
unfoldable pub client_field : List TableField → Option String
client_field [] = none
client_field (f ∷ fs) =
    if (str_eq f.name "MANDT" || str_eq f.name "RCLNT") && str_eq f.type_token "CLNT"
    then some f.name
    else none

unfoldable pub has_client_filter : String → List Condition → Bool
unfolding eq_ignore_ascii_case
has_client_filter name conditions = any (λ c. eq_ignore_ascii_case c.field (codes name)) conditions

-- The clause that restricts a read to the client of the connection.
abbrev pub client_clause : String → Value → Condition
client_clause name identity = record {
  field = codes name;
  op = equals;
  value = codes (client_of identity);
}

unfoldable pub add_client : Option String → Value → List Condition → List Condition
unfolding has_client_filter
add_client none identity conditions = conditions
add_client (some name) identity conditions =
    if has_client_filter name conditions
    then conditions
    else conditions ++ client_clause name identity ∷ []

add_column : Texts → Option (String × Value) → Fields → Fields
unfolding insert_field
add_column t none out = out
add_column t (some (k, v)) out = insert_field t.before k v out

-- `projection.iter().filter_map(...).collect()`, onto the columns so far.
unfoldable pub project : Texts → List String → Fields → Fields → Fields
unfolding add_column find_column
project t [] row out = out
project t (f ∷ fs) row out = project t fs row (add_column t (find_column (codes f) row) out)

-- `for row in &table.rows`, with `taken` rows so far.
unfoldable pub collect_rows :
    Texts → List String → List Condition → ℕ → ℕ → List Fields → List TableRow
unfolding match_all project
collect_rows t projection conditions max_rows taken [] = []
collect_rows t projection conditions max_rows taken (row ∷ rows) =
    let more = collect_rows t projection conditions max_rows (taken + 1) rows in
    let others = collect_rows t projection conditions max_rows taken rows in
    if match_all t conditions row
    then record { values = project t projection row end }
      ∷ (if leb max_rows (taken + 1) then [] else more)
    else others

unfoldable pub with_conditions :
    Texts
    → Value
    → MockTable
    → ℕ
    → List String
    → Option (RfcResult (List Condition))
    → Option (RfcResult (List TableRow))
unfolding collect_rows add_client client_field
with_conditions t identity table max_rows projection none = none
with_conditions t identity table max_rows projection (some (err e)) = some (err e)
with_conditions t identity table max_rows projection (some (ok parsed)) = some (
    ok (
      collect_rows t projection (add_client (client_field table.structure.fields) identity parsed)
        max_rows 0 table.rows))

unfoldable pub with_projection :
    Texts
    → Value
    → MockTable
    → ReadTableRequest
    → RfcResult (List String)
    → Option (RfcResult (List TableRow))
unfolding with_conditions parse_conditions
with_projection t identity table request (err e) = some (err e)
with_projection t identity table request (ok projection) =
    with_conditions t identity table request.max_rows projection
      (parse_conditions t.to_uppercase request.where_conditions)

unfoldable pub with_table :
    Texts → Value → ReadTableRequest → RfcResult MockTable → Option (RfcResult (List TableRow))
unfolding with_projection projection_of
with_table t identity request (err e) = some (err e)
with_table t identity request (ok table) =
    with_projection t identity table request (projection_of table.structure request.fields)

unfoldable pub read_table :
    Texts → MockSapClient → ReadTableRequest → Option (RfcResult (List TableRow))
unfolding with_table
read_table t c request =
    if request.max_rows == 0
    then some (err (RfcError.invalid_parameter "max_rows" "must be >= 1"))
    else if ltb max_rows_hard_cap request.max_rows
    then some (err (RfcError.table_buffer_overflow request.table request.max_rows))
    else with_table t c.identity request (or_not_found request.table (get request.table c.tables))
