-- ===== src/Rfc/Soap/FieldInfo.antt =====
-- crates/sap-automate-rfc/src/soap.rs: `parse_field_info`.
use mathlib.Core.List.{append_assoc, append-nil}
use sap_automate.Base.{
  ℕ, ◌+◌, ◌-◌, ◌*◌, ◌^◌, String, ◌≡◌, refl, sym, ap, ◌∙◌, ◌≢◌, ◌⊎◌, inl, inr, Bool, true, false,
  not, ◌&&◌, Option, none, some, List, [], ◌∷◌, ◌++◌, map, arith, leb, ◌==◌, if◌then◌else◌,
  Bool-cases, keep, str_eq, nat_key, string_key, pair_key,
}
use Prim.Native.Char.{code}
use sap_automate.Json.{Value}
use sap_automate.Rfc.Error.{RfcError, RfcResult, ok, err}
use sap_automate.Rfc.Client.{TableField, TableStructure}
use sap_automate.Rfc.Soap.Rows.{as_items, get_key, field_str, items_in, is_blank}

abbrev u32_max : ℕ
u32_max = 2 ^ 32 - 1

-- Digits read from the left, `none` at any other character or past the bound.
unfoldable pub read_digits : ℕ → String → Option ℕ
read_digits n String.[] = some n
read_digits n (String.◌∷◌ c s) =
    let m = n * 10 + (code c - b'0') in
    let rest = read_digits m s in
    if leb b'0' (code c) && leb (code c) b'9' && leb m u32_max then rest else none

-- `s.parse::<u32>()`: one plus sign may stand in front.
unfoldable pub parse_u32 : String → Option ℕ
unfolding read_digits
parse_u32 String.[] = none
parse_u32 (String.◌∷◌ c String.[]) =
    if code c == b'+' then none else read_digits 0 (String.◌∷◌ c String.[])
parse_u32 (String.◌∷◌ c (String.◌∷◌ d s)) =
    if code c == b'+'
    then read_digits 0 (String.◌∷◌ d s)
    else read_digits 0 (String.◌∷◌ c (String.◌∷◌ d s))

abbrev or_zero : Option ℕ → ℕ
or_zero none = 0
or_zero (some n) = n

-- What the loop keeps: fields and key fields in order, and the table's text.
pub record Collected : Type 0 where
  pub fields : List TableField
  pub key_fields : List String
  pub table_text : String

abbrev none_yet : Collected
none_yet = record { fields = []; key_fields = []; table_text = "" }

unfoldable pub field_of : Value → TableField
unfolding field_str parse_u32
field_of it = record {
  name = field_str it "FIELDNAME";
  data_element = field_str it "ROLLNAME";
  type_token = field_str it "DATATYPE";
  length = or_zero (parse_u32 (field_str it "LENG"));
  description = (let desc = field_str it "FIELDTEXT" in if is_blank desc then none else some desc);
  key = str_eq (field_str it "KEYFLAG") "X";
}

unfoldable pub collect : Value → Collected → Collected
unfolding field_of
collect it c =
    let f = field_of it in
    record {
      fields = c.fields ++ (f ∷ []);
      key_fields = if f.key then c.key_fields ++ (f.name ∷ []) else c.key_fields;
      table_text = if is_blank c.table_text then field_str it "DDTEXT" else c.table_text;
    }

-- `if name.is_empty() { continue; }`
unfoldable pub has_no_name : Value → Bool
unfolding field_str
has_no_name it = is_blank (field_str it "FIELDNAME")

unfoldable pub collect_all : List Value → Collected → Collected
unfolding collect has_no_name
collect_all [] c = c
collect_all (it ∷ its) c = collect_all its (if has_no_name it then c else collect it c)

abbrev structure_of : String → Collected → TableStructure
structure_of table c = record {
  table = table;
  description = c.table_text;
  fields = c.fields;
  key_fields = c.key_fields;
  authorization_group = "";
  s4hana_storage = none;
}

abbrev from_dfies : String → List Value → RfcResult TableStructure
from_dfies table [] = err (RfcError.not_found table)
from_dfies table (it ∷ its) = ok (structure_of table (collect_all (it ∷ its) none_yet))

unfoldable pub parse_field_info : String → Value → RfcResult TableStructure
unfolding collect_all as_items get_key
parse_field_info table payload = from_dfies table (items_in "DFIES_TAB" payload)

-- The fields that `parse_field_info` finds: those with a name.
unfoldable pub named_fields : List Value → List TableField
unfolding field_of has_no_name
named_fields its = map field_of (keep (λ it. not (has_no_name it)) its)

unfoldable pub keys_among : List TableField → List String
keys_among fs = map (λ f. f.name) (keep (λ f. f.key) fs)

collect-fields :
    (it : Value) (c : Collected)
    → ((collect it c).fields ≡ c.fields ++ (field_of it ∷ []))
      × ((collect it c).key_fields ≡ c.key_fields ++ keys_among (field_of it ∷ []))
unfolding collect keys_among
collect-fields it c = elim (Bool-cases ((field_of it).key)) [
  | inl e ↦ (refl, rw e refl)
  | inr e ↦ (refl, rw e (sym (append-nil c.key_fields)))
]

keys_among-cons :
    (f : TableField) (fs : List TableField)
    → keys_among (f ∷ fs) ≡ keys_among (f ∷ []) ++ keys_among fs
unfolding keys_among
keys_among-cons f fs = elim (Bool-cases f.key) [ inl e ↦ rw e refl | inr e ↦ rw e refl ]

unfoldable HasFields : List Value → Collected → Collected → Type 0
HasFields its c d =
    (d.fields ≡ c.fields ++ named_fields its)
    × (d.key_fields ≡ c.key_fields ++ keys_among (named_fields its))

named_fields-skip :
    (it : Value) (its : List Value)
    → has_no_name it ≡ true
    → named_fields (it ∷ its) ≡ named_fields its
unfolding named_fields
named_fields-skip it its e = rw e refl

named_fields-keep :
    (it : Value) (its : List Value)
    → has_no_name it ≡ false
    → named_fields (it ∷ its) ≡ field_of it ∷ named_fields its
unfolding named_fields
named_fields-keep it its e = rw e refl

HasFields-skip :
    (it : Value) (its : List Value) (c d : Collected)
    → has_no_name it ≡ true
    → HasFields its c d
    → HasFields (it ∷ its) c d
unfolding HasFields
HasFields-skip it its c d e (f, k) = rw (named_fields-skip it its e) (f, k)

HasFields-keep :
    (it : Value) (its : List Value) (c d : Collected)
    → has_no_name it ≡ false
    → HasFields its (collect it c) d
    → HasFields (it ∷ its) c d
unfolding HasFields
HasFields-keep it its c d e (f, k) =
    let (f1, k1) = collect-fields it c in
    let fs = named_fields its in
    rw (named_fields-keep it its e, keys_among-cons (field_of it) fs)
      (
        f ∙ ap (λ xs. xs ++ fs) f1 ∙ append_assoc c.fields (field_of it ∷ []) fs,
        k
            ∙ ap (λ xs. xs ++ keys_among fs) k1
            ∙ append_assoc c.key_fields (keys_among (field_of it ∷ [])) (keys_among fs),
      )

nothing : (c : Collected) → HasFields [] c c
unfolding HasFields named_fields keys_among
nothing c = (sym (append-nil c.fields), sym (append-nil c.key_fields))

collect_all-HasFields : (its : List Value) (c : Collected) → HasFields its c (collect_all its c)
unfolding collect_all
collect_all-HasFields [] c = nothing c
collect_all-HasFields (it ∷ its) c = elim (Bool-cases (has_no_name it)) [
  | inl e ↦
      HasFields-skip it its c (collect_all its (if has_no_name it then c else collect it c)) e
        (rw e (collect_all-HasFields its c))
  | inr e ↦
      HasFields-keep it its c (collect_all its (if has_no_name it then c else collect it c)) e
        (rw e (collect_all-HasFields its (collect it c)))
]

-- What a payload with these items gives.
abbrev pub GivesFields : String → List Value → RfcResult TableStructure → Type 0
GivesFields table its r =
    ((its ≡ []) × (r ≡ err (RfcError.not_found table)))
    ⊎ ((st : TableStructure) × (its ≢ [])
        × (r ≡ ok st)
        × (st.table ≡ table)
        × (st.fields ≡ named_fields its)
        × (st.key_fields ≡ keys_among (named_fields its)))

from_dfies-GivesFields :
    (table : String) (its : List Value) → GivesFields table its (from_dfies table its)
unfolding HasFields
from_dfies-GivesFields table [] = inl (refl, refl)
from_dfies-GivesFields table (it ∷ its) =
    let (f, k) = collect_all-HasFields (it ∷ its) none_yet in
    inr (structure_of table (collect_all (it ∷ its) none_yet), λ e. ground arith, refl, refl, f, k)

-- A table is not found exactly if the payload lists no field. Otherwise its fields are the items that
-- have a name, in order, and its key fields are those of them with the key flag.
pub parse_field_info-GivesFields :
    (table : String) (payload : Value)
    → GivesFields table (items_in "DFIES_TAB" payload) (parse_field_info table payload)
unfolding parse_field_info
parse_field_info-GivesFields table payload =
    from_dfies-GivesFields table (items_in "DFIES_TAB" payload)
