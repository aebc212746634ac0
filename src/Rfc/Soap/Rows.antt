-- ===== src/Rfc/Soap/Rows.antt =====
-- crates/sap-automate-rfc/src/soap.rs: taking results out of a response's payload.
use sap_automate.Base.{
  ℕ, zero, suc, String, Bool, not, Option, none, some, List, [], ◌∷◌, map, ◌==◌, if◌then◌else◌,
  length, keep, str_eq, nat_key, string_key, pair_key,
}
use Prim.Native.Char.{code}
use mathlib.Core.Option
use sap_automate.Json.{Value, Items, Fields, get_field}
use sap_automate.Rfc.Error.{RfcError, RfcResult, ok, err}
use sap_automate.Rfc.Client.{TableRow}
use sap_automate.Rfc.MockClient.{insert_field}
use sap_automate.Rfc.Soap.Response.{trim_text, trim_right}

-- `v.get(k)`
unfoldable pub get_key : String → Value → Option Value
unfolding get_field
get_key k (Value.object m) = get_field k m
get_key k _ = none

abbrev first_value : Fields → RfcResult Value
first_value Fields.end = err (RfcError.internal "SOAP Body is empty")
first_value (Fields.field k v fs) = ok v

abbrev payload_in : Option Value → RfcResult Value
payload_in (some (Value.object m)) = first_value m
payload_in _ = err (RfcError.internal "SOAP response has no Body")

unfoldable pub extract_body_payload : Value → RfcResult Value
unfolding get_key
extract_body_payload root = payload_in (get_key "Body" root)

abbrev fault_text : Option Value → String
fault_text (some (Value.string s)) = s
fault_text _ = "unknown SOAP fault"

abbrev fault_in : Option Value → Option String
fault_in none = none
fault_in (some fault) = some (fault_text (get_key "faultstring" fault))

abbrev fault_of_body : Option Value → Option String
fault_of_body (some (Value.object m)) = fault_in (get_field "Fault" m)
fault_of_body _ = none

unfoldable pub extract_fault : Value → Option String
unfolding get_key get_field
extract_fault root = fault_of_body (get_key "Body" root)

abbrev pub list_of : Items → List Value
list_of Items.nil = []
list_of (Items.cons v vs) = v ∷ list_of vs

unfoldable pub as_items : Option Value → List Value
as_items none = []
as_items (some Value.null) = []
as_items (some (Value.array vs)) = list_of vs
as_items (some v) = v ∷ []

-- `.and_then(Value::as_str).unwrap_or("")`
abbrev pub as_str : Option Value → String
as_str (some (Value.string s)) = s
as_str _ = ""

unfoldable pub field_str : Value → String → String
unfolding get_key trim_text
field_str item key = trim_text (as_str (get_key key item))

abbrev pub items_in : String → Value → List Value
items_in k payload = as_items (Option.bind (get_key k payload) (get_key "item"))

abbrev pub is_blank : String → Bool
is_blank s = str_eq s ""

-- `wa.splitn(n, '|')`
unfoldable pub cut_at_bar : String → String × Option String
cut_at_bar String.[] = (String.[], none)
cut_at_bar (String.◌∷◌ c s) =
    let (h, t) = cut_at_bar s in if code c == b'|' then (String.[], some s) else (String.◌∷◌ c h, t)

unfoldable pub splitn : ℕ → String → List String
unfolding cut_at_bar
splitn zero s = []
splitn (suc zero) s = s ∷ []
splitn (suc (suc n)) s =
    let (h, t) = cut_at_bar s in h ∷ elim t [ none ↦ [] | some r ↦ splitn (suc n) r ]

-- The values of a row, by position; a field with no part is empty.
unfoldable pub fill : (String → String → Bool) → List String → List String → Fields → Fields
unfolding insert_field
fill before [] parts m = m
fill before (n ∷ ns) [] m = fill before ns [] (insert_field before n (Value.string "") m)
fill before (n ∷ ns) (p ∷ ps) m =
    fill before ns ps (insert_field before n (Value.string (trim_right p)) m)

unfoldable pub row_of : (String → String → Bool) → List String → String → TableRow
unfolding fill splitn
row_of before names wa = record { values = fill before names (splitn (length names) wa) Fields.end }

unfoldable pub field_names_of : Value → List String
unfolding as_items get_key field_str
field_names_of payload =
    keep (λ s. not (is_blank s)) (map (λ it. field_str it "FIELDNAME") (items_in "FIELDS" payload))

abbrev rows_of : (String → String → Bool) → List String → List Value → List TableRow
rows_of before names items = map (λ it. row_of before names (field_str it "WA")) items

abbrev with_names : (String → String → Bool) → Value → List String → RfcResult (List TableRow)
with_names before payload [] = err (RfcError.internal "RFC_READ_TABLE returned no FIELDS metadata")
with_names before payload (n ∷ ns) = ok (rows_of before (n ∷ ns) (items_in "DATA" payload))

unfoldable pub parse_read_table : (String → String → Bool) → Value → RfcResult (List TableRow)
unfolding field_names_of row_of as_items get_key field_str
parse_read_table before payload = with_names before payload (field_names_of payload)
