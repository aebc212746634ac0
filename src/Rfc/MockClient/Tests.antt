-- ===== src/Rfc/MockClient/Tests.antt =====
-- A table with rows of two clients, and two functions.
use sap_automate.Base.{
  ◌-◌, ◌≤◌, String, ◌≡◌, refl, ◌↔◌, true, false, ◌&&◌, none, some, List, [], ◌∷◌, leb, ◌==◌,
  if◌then◌else◌, All, nat_key, string_key, pair_key, Text, codes, text_key, ascii_lower,
  to_ascii_lowercase, utf8_len,
}
use sap_automate.Json.{Value, string, object, Fields, end, field}
use sap_automate.Rfc.Error.{ok}
use sap_automate.Rfc.Client.{
  RfcCallRequest, RfcParamDirection, RfcFunctionMeta, TableField, ReadTableRequest, TableRow,
}
use sap_automate.Rfc.MockClient.{MockTable, MockSapClient, call_rfc}
use sap_automate.Rfc.MockClient.Gate.{Answers, call_rfc_iff}
use sap_automate.Rfc.MockClient.Clauses.{Condition, parse_conditions}
use sap_automate.Rfc.MockClient.Like.{sql_like}
use sap_automate.Rfc.MockClient.Tables.{
  Texts, projection_of, client_of, client_field, has_client_filter, add_client, read_table,
}
use sap_automate.Rfc.MockClient.Reads.{select, read_table_iff}
use sap_automate.Rfc.MockClient.ClientScope.{FromClient, read_table-FromClient}
use sap_automate.Base.Dict.{get}

-- Capital letters; the ligature U+FB01 has two of them.
abbrev upper : Text → Text
upper [] = []
upper (c ∷ s) =
    let rest = upper s in
    if c == 64257
    then b'F' ∷ b'I' ∷ rest
    else if leb b'a' c && leb c b'z'
    then (c - 32) ∷ rest
    else c ∷ rest

abbrev texts : Texts
texts = record {
  to_uppercase = upper;
  to_lowercase = to_ascii_lowercase;
  display = λ v. "value";
  before = λ a b. false;
}

abbrev column : String → String → TableField
column name type_token = record {
  name = name;
  data_element = name;
  type_token = type_token;
  length = 10;
  description = none;
  key = true;
}

abbrev row : String → String → Fields
row client company = field "MANDT" (string client) (field "BUKRS" (string company) end)

abbrev t001 : MockTable
t001 = record {
  structure = record {
    table = "T001";
    description = "Company codes";
    fields = column "MANDT" "CLNT" ∷ column "BUKRS" "CHAR" ∷ [];
    key_fields = "MANDT" ∷ "BUKRS" ∷ [];
    authorization_group = "FC01";
    s4hana_storage = none;
  };
  rows = row "200" "2000" ∷ row "100" "1000" ∷ [];
}

abbrev poster : RfcFunctionMeta
poster = record {
  function = "BAPI_POST";
  description = "Posts";
  function_group = "ACC";
  package_name = none;
  parameters =
      record {
        name = "HEADER";
        direction = RfcParamDirection.import;
        type_token = "STRUCT";
        optional = false;
        description = none;
        default_value = none;
      }
      ∷ [];
  deprecated = false;
  read_only = false;
  commit_required = true;
  authorization = [];
  s4hana_notes = none;
}

abbrev client : MockSapClient
client = record {
  pool = record { cap = 1; available = 1 };
  functions = ("BAPI_POST", poster) ∷ [];
  tables = ("T001", t001) ∷ [];
  identity = object (field "client" (string "100") end);
}

abbrev reading : List String → ReadTableRequest
reading clauses = record {
  table = "T001";
  fields = "bukrs" ∷ [];
  where_conditions = clauses;
  max_rows = 5;
}

abbrev company : String → TableRow
company code = record { values = field "BUKRS" (string code) end }

own_client_only : read_table texts client (reading []) ≡ some (ok (company "1000" ∷ []))
unfolding read_table get client_of
own_client_only = refl

-- A clause that names the client lifts the restriction.
other_clients :
    read_table texts client (reading ("MANDT LIKE '%'" ∷ []))
    ≡ some (ok (company "2000" ∷ company "1000" ∷ []))
unfolding read_table get mathlib.Core.Option.bind utf8_len sql_like
other_clients = refl

-- The index found in the capitals lies inside the ligature.
ligature_panics : read_table texts client (reading ("ﬁ LIKE 'a'" ∷ [])) ≡ none
unfolding read_table get mathlib.Core.Option.bind utf8_len sql_like
ligature_panics = refl

suffix_matches_anywhere : sql_like to_ascii_lowercase (codes "abc") (codes "%b") ≡ true
unfolding sql_like ascii_lower
suffix_matches_anywhere = refl

underscore_is_no_wildcard : sql_like to_ascii_lowercase (codes "abc") (codes "a_c") ≡ false
unfolding sql_like ascii_lower
underscore_is_no_wildcard = refl

abbrev posting : RfcCallRequest
posting = record {
  function = "BAPI_POST";
  parameters = object (field "HEADER" (string "h") end);
  timeout_ms = 1000;
  require_read_only_safe = false;
}

abbrev answer : Value
answer = string "?"

call_rfc_iff_example :
    (call_rfc (λ v. "value") (λ a b. false) client posting true ≡ ok answer)
    ↔ Answers (λ v. "value") (λ a b. false) client posting true answer
call_rfc_iff_example = call_rfc_iff (λ v. "value") (λ a b. false) client posting true answer

abbrev own : List TableRow
own = company "1000" ∷ []

read_table_iff_example : (read_table texts client (reading []) ≡ some (ok own)) ↔ (
    (table : MockTable) × (projection : List String) × (parsed : List Condition) × (1
      ≤ (reading []).max_rows)
    × ((reading []).max_rows ≤ 1000)
    × (get "T001" client.tables ≡ some table)
    × (projection_of table.structure (reading []).fields ≡ ok projection)
    × (parse_conditions upper [] ≡ some (ok parsed))
    × (own
        ≡ select texts projection
            (add_client (client_field table.structure.fields) client.identity parsed)
            5
            table.rows))
read_table_iff_example = read_table_iff texts client (reading []) own

read_table-FromClient_example :
    (projection : List String) × All (FromClient texts t001 "MANDT" client.identity projection) own
unfolding get client_field parse_conditions has_client_filter
read_table-FromClient_example =
    read_table-FromClient texts client (reading []) own t001 "MANDT" [] own_client_only refl refl
      refl refl
