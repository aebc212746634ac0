-- ===== src/Rfc/BapiRet2.antt =====
-- crates/sap-automate-rfc/src/bapiret2.rs: the messages of a BAPI, read from its JSON result.
-- A character is its code point.
pub mod Rows
pub mod Failure
use Prim.Native.Char.{code}
use mathlib.Core.List.{filter_map}
use mathlib.Core.Option
use sap_automate.Base.{
  ℕ, zero, suc, ◌+◌, ◌-◌, ◌*◌, ◌/◌, ◌%◌, ◌^◌, ◌≤◌, ◌<◌, min, max, String, ◌≡◌, refl, sym, ap, ◌∙◌,
  subst, ◌≢◌, ◌↔◌, ◌⊎◌, inl, inr, Bool, true, false, not, ◌&&◌, ◌||◌, Option, none, some, List, [],
  ◌∷◌, ◌++◌, map, reverse, arith, dec_lt, dec_le, ℕ_discrete, ltb, leb, ◌==◌, if◌then◌else◌, ltb→lt,
  lt→ltb, leb→le, le→leb, ==_iff, tests, Bool-cases, Option-cases, length, get_elem?, take, drop,
  any, keep, All, Has, length-append, length-take, length-reverse, All-append, Has-append_left,
  Has-append_right, Has-append, any-append, Eq, str_eq, str_eq_iff, pair_eq, pair_eq_iff, nat_key,
  string_key, pair_key,
}
use sap_automate.Base.Int.{ℤ, pos, negsuc}
use sap_automate.Json.{
  Value, null, bool, number, string, array, object, Items, nil, cons, Fields, end, field, get_field,
  has_key,
}

pub data BapiRet2Severity : Type 0 where
  success error warning info abort : BapiRet2Severity
  unknown : ℕ → BapiRet2Severity

-- `char::to_ascii_uppercase`
unfoldable pub to_ascii_uppercase : ℕ → ℕ
to_ascii_uppercase c = if leb b'a' c && leb c b'z' then c - 32 else c

unfoldable pub from_char : ℕ → BapiRet2Severity
unfolding to_ascii_uppercase
from_char c =
    let u = to_ascii_uppercase c in
    if u == b'S'
    then success
    else if u == b'E'
    then error
    else if u == b'W'
    then warning
    else if u == b'I'
    then info
    else if u == b'A'
    then abort
    else unknown u

unfoldable pub severity_is_failure : BapiRet2Severity → Bool
severity_is_failure error = true
severity_is_failure abort = true
severity_is_failure (unknown _) = true
severity_is_failure _ = false

pub record BapiRet2Message : Type 0 where
  pub severity : BapiRet2Severity
  pub message_class : String
  pub message_number : String
  pub text : String
  pub parameter : Option String
  pub row : Option ℤ
  pub field_name : Option String
  pub system : Option String

unfoldable pub is_failure : BapiRet2Message → Bool
unfolding severity_is_failure
is_failure m = severity_is_failure m.severity

-- An object that looks like a row: it has a type and a message.
unfoldable pub is_row : Fields → Bool
unfolding has_key
is_row fs =
    (has_key "TYPE" fs || has_key "type" fs) && (has_key "MESSAGE" fs || has_key "message" fs)

abbrev pub max_depth : ℕ
max_depth = 8

-- The rows that `walk` pushes, in order. Nothing below depth 8 is read, and a row is not entered.
unfoldable mutual
  pub walk : Value → ℕ → List Value
  walk (object fs) depth =
      if ltb max_depth depth
      then []
      else if is_row fs
      then object fs ∷ []
      else walk_fields fs (depth + 1)
  walk (array xs) depth = if ltb max_depth depth then [] else walk_items xs (depth + 1)
  walk null depth = []
  walk (bool _) depth = []
  walk (number _) depth = []
  walk (string _) depth = []

  pub walk_items : Items → ℕ → List Value
  walk_items nil depth = []
  walk_items (cons x xs) depth = walk x depth ++ walk_items xs depth

  pub walk_fields : Fields → ℕ → List Value
  walk_fields end depth = []
  walk_fields (field k x fs) depth = walk x depth ++ walk_fields fs depth

unfoldable pub collect_candidates : Value → List Value
unfolding walk
collect_candidates v = walk v 0

-- What one key yields: a text, or a number as text; any other value is passed over.
unfoldable pub str_of : Option Value → Option String
str_of (some (string s)) = some s
str_of (some (number n)) = some n
str_of _ = none

unfoldable pub or_else : Option String → Option String → Option String
or_else none b = b
or_else (some a) b = some a

unfoldable pub first_str : Fields → List String → Option String
unfolding str_of or_else get_field
first_str obj [] = none
first_str obj (k ∷ ks) = or_else (str_of (get_field k obj)) (first_str obj ks)

abbrev pub unwrap_or_default : Option String → String
unwrap_or_default none = ""
unwrap_or_default (some s) = s

unfoldable pub severity_of_text : String → BapiRet2Severity
severity_of_text String.[] = unknown b' '
severity_of_text (String.◌∷◌ c s) = from_char (code c)

-- The severity of a row: the first character of its type.
unfoldable pub row_severity : Fields → BapiRet2Severity
unfolding severity_of_text from_char first_str
row_severity obj = severity_of_text (unwrap_or_default (first_str obj ("TYPE" ∷ "type" ∷ [])))

abbrev codes : String → List ℕ
codes String.[] = []
codes (String.◌∷◌ c s) = code c ∷ codes s

digits : ℕ → List ℕ → Option ℕ
digits n [] = some n
digits n (c ∷ cs) = if leb b'0' c && leb c b'9' then digits (n * 10 + (c - b'0')) cs else none

digits1 : List ℕ → Option ℕ
digits1 [] = none
digits1 (c ∷ cs) = digits 0 (c ∷ cs)

to_pos : Option ℕ → Option ℤ
to_pos none = none
to_pos (some n) = if ltb n (2 ^ 31) then some (pos n) else none

to_neg : Option ℕ → Option ℤ
to_neg none = none
to_neg (some zero) = some (pos 0)
to_neg (some (suc n)) = if ltb n (2 ^ 31) then some (negsuc n) else none

-- `str::parse::<i32>`
unfoldable pub parse_i32 : List ℕ → Option ℤ
unfolding digits digits1 to_pos to_neg
parse_i32 [] = none
parse_i32 (c ∷ cs) =
    if c == b'-'
    then to_neg (digits1 cs)
    else if c == b'+'
    then to_pos (digits1 cs)
    else to_pos (digits 0 (c ∷ cs))

unfoldable pub parse_one : Value → Option BapiRet2Message
unfolding row_severity parse_i32
parse_one (object obj) = some (record {
  severity = row_severity obj;
  message_class = unwrap_or_default (first_str obj ("ID" ∷ "id" ∷ []));
  message_number = unwrap_or_default (first_str obj ("NUMBER" ∷ "number" ∷ []));
  text = unwrap_or_default (first_str obj ("MESSAGE" ∷ "message" ∷ []));
  parameter = first_str obj ("PARAMETER" ∷ "parameter" ∷ []);
  row = Option.bind (first_str obj ("ROW" ∷ "row" ∷ [])) (λ s. parse_i32 (codes s));
  field_name = first_str obj ("FIELD" ∷ "field" ∷ []);
  system = first_str obj ("SYSTEM" ∷ "system" ∷ []);
})
parse_one _ = none

unfoldable pub parse_bapiret2 : Value → List BapiRet2Message
unfolding collect_candidates parse_one filter_map
parse_bapiret2 v = filter_map parse_one (collect_candidates v)
