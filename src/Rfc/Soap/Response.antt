-- ===== src/Rfc/Soap/Response.antt =====
-- crates/sap-automate-rfc/src/soap.rs: reading a response. The XML reader is the list of the events that
-- it gives, trimmed and unescaped; at its end it gives `Eof` for ever. `before` is the order of a
-- map's keys. A loop runs on fuel, and `none` is running out of it.
use sap_automate.Base.{
  ℕ, zero, suc, ◌+◌, String, Bool, true, false, ◌&&◌, Option, none, some, List, [], ◌∷◌, ltb, ◌==◌,
  if◌then◌else◌, length, str_eq, nat_key, string_key, pair_key,
}
use Prim.Native.Char.{code}
use Prim.Native.String.{◌++◌ as str_append}
use sap_automate.Json.{Value, Items, Fields, get_field}
use sap_automate.Rfc.Error.{RfcError, RfcResult, ok, err}
use sap_automate.Rfc.MockClient.{insert_field}
use sap_automate.Base.{is_whitespace}

-- `quick_xml::events::Event`; a text that does not unescape is `none`.
pub data XmlEvent : Type 0 where
  start empty : (name : String) → XmlEvent
  text : Option String → XmlEvent
  cdata : String → XmlEvent
  stop eof other : XmlEvent
  failed : (reason : String) → XmlEvent

-- `s.trim()`
abbrev trim_left : String → String
trim_left String.[] = String.[]
trim_left (String.◌∷◌ c s) =
    let rest = trim_left s in if is_whitespace (code c) then rest else String.◌∷◌ c s

abbrev no_letter : String → Bool
no_letter String.[] = true
no_letter (String.◌∷◌ c s) = false

abbrev pub trim_right : String → String
trim_right String.[] = String.[]
trim_right (String.◌∷◌ c s) =
    let rest = trim_right s in
    if no_letter rest && is_whitespace (code c) then String.[] else String.◌∷◌ c rest

unfoldable pub trim_text : String → String
unfolding is_whitespace
trim_text s = trim_right (trim_left s)

-- `rsplit_once(':')`
abbrev or_behind : String → Bool → Option String → Option String
or_behind s found (some t) = some t
or_behind s found none = if found then some s else none

unfoldable after_colon : String → Option String
after_colon String.[] = none
after_colon (String.◌∷◌ c s) = or_behind s (code c == b':') (after_colon s)

abbrev or_whole : String → Option String → String
or_whole s none = s
or_whole s (some t) = t

unfoldable pub local_name : String → String
unfolding after_colon
local_name s = or_whole s (after_colon s)

abbrev pub push : Items → Value → Items
push Items.nil x = Items.cons x Items.nil
push (Items.cons y ys) x = Items.cons y (push ys x)

-- A second value makes a list of the first.
abbrev pub fold_value : Value → Value → Value
fold_value new (Value.array vs) = Value.array (push vs new)
fold_value new old = Value.array (Items.cons old (Items.cons new Items.nil))

abbrev pub set_field : String → Value → Fields → Fields
set_field k new Fields.end = Fields.end
set_field k new (Fields.field j v fs) =
    let rest = Fields.field j v (set_field k new fs) in
    if str_eq j k then Fields.field j new fs else rest

abbrev pub merge_found : (String → String → Bool) → Fields → String → Value → Option Value → Fields
merge_found before m k new none = insert_field before k new m
merge_found before m k new (some old) = set_field k (fold_value new old) m

unfoldable pub insert_merge : (String → String → Bool) → Fields → String → Value → Fields
unfolding get_field insert_field
insert_merge before m k new = merge_found before m k new (get_field k m)

abbrev pub max_xml_depth : ℕ
max_xml_depth = 256

-- What the loop of `parse_children` keeps.
pub record Children : Type 0 where
  pub map : Fields
  pub text : String
  pub child_count : ℕ

abbrev pub no_children : Children
no_children = record { map = Fields.end; text = ""; child_count = 0 }

abbrev pub add_text : Option String → Children → Children
add_text none st = st
add_text (some s) st = record st { text = str_append st.text s }

unfoldable pub add_child : (String → String → Bool) → String → Value → Children → Children
unfolding insert_merge local_name
add_child before name v st = record {
  map = insert_merge before st.map (local_name name) v;
  text = st.text;
  child_count = st.child_count + 1;
}

unfoldable pub conclude : Children → Value
unfolding trim_text
conclude st = if st.child_count == 0 then Value.string (trim_text st.text) else Value.object st.map

abbrev pub Events : Type 0
Events = List XmlEvent

abbrev pub Parsed : Type 0
Parsed = Option (RfcResult (Value × Events))

abbrev pub and_then : Parsed → (Value → Events → Parsed) → Parsed
and_then none k = none
and_then (some (err e)) k = some (err e)
and_then (some (ok (v, es))) k = k v es

abbrev pub too_deep : Parsed
too_deep = some (err (RfcError.internal "XML nesting exceeds 256 levels"))

abbrev pub unless_too_deep : ℕ → Parsed → Parsed
unless_too_deep depth p = if ltb max_xml_depth depth then too_deep else p

abbrev reader_error : String → RfcError
reader_error e = RfcError.internal (str_append "XML parse: " e)

unfoldable pub children_loop : (String → String → Bool) → ℕ → ℕ → Events → Children → Parsed
unfolding add_child conclude
children_loop before zero depth es st = none
children_loop before (suc n) depth [] st = some (ok (conclude st, []))
children_loop before (suc n) depth (XmlEvent.start name ∷ es) st =
    and_then (unless_too_deep (depth + 1) (children_loop before n (depth + 1) es no_children))
      (λ v rest. children_loop before n depth rest (add_child before name v st))
children_loop before (suc n) depth (XmlEvent.empty name ∷ es) st =
    children_loop before n depth es (add_child before name (Value.string "") st)
children_loop before (suc n) depth (XmlEvent.text t ∷ es) st =
    children_loop before n depth es (add_text t st)
children_loop before (suc n) depth (XmlEvent.cdata t ∷ es) st =
    children_loop before n depth es (add_text (some t) st)
children_loop before (suc n) depth (XmlEvent.stop ∷ es) st = some (ok (conclude st, es))
children_loop before (suc n) depth (XmlEvent.eof ∷ es) st =
    some (ok (conclude st, XmlEvent.eof ∷ es))
children_loop before (suc n) depth (XmlEvent.other ∷ es) st = children_loop before n depth es st
children_loop before (suc n) depth (XmlEvent.failed e ∷ es) st = some (err (reader_error e))

unfoldable pub parse_children : (String → String → Bool) → ℕ → Events → ℕ → Parsed
unfolding children_loop
parse_children before fuel es depth =
    unless_too_deep depth (children_loop before fuel depth es no_children)

abbrev pub drop_rest : Parsed → Option (RfcResult Value)
drop_rest none = none
drop_rest (some (err e)) = some (err e)
drop_rest (some (ok (v, es))) = some (ok v)

-- The root's children on fuel for every event and the end.
unfoldable pub xml_to_json_root : (String → String → Bool) → Events → Option (RfcResult Value)
unfolding parse_children
xml_to_json_root before [] = some (err (RfcError.internal "empty SOAP response"))
xml_to_json_root before (XmlEvent.start name ∷ es) =
    drop_rest (parse_children before (length es + 1) es 1)
xml_to_json_root before (XmlEvent.eof ∷ es) = some (err (RfcError.internal "empty SOAP response"))
xml_to_json_root before (XmlEvent.failed e ∷ es) = some (err (reader_error e))
xml_to_json_root before (_ ∷ es) = xml_to_json_root before es
