-- ===== src/Rfc/Soap/Envelope.antt =====
-- crates/sap-automate-rfc/src/soap.rs: building the envelope. What is written is a text (code points);
-- a number stands as the text that it prints to.
use sap_automate.Base.{
  ℕ, String, Bool, true, false, not, ◌&&◌, ◌||◌, [], ◌∷◌, ◌++◌, leb, ◌==◌, if◌then◌else◌, nat_key,
  string_key, pair_key, Text, codes, text_key, utf8_len, byte_len,
}
use sap_automate.Json.{Value, Items, Fields}
use sap_automate.Rfc.Error.{RfcError, RfcResult, ok, err}

-- `c.is_ascii_alphanumeric()`
abbrev is_ascii_alphanumeric : ℕ → Bool
is_ascii_alphanumeric c =
    (leb b'0' c && leb c b'9') || (leb b'A' c && leb c b'Z') || (leb b'a' c && leb c b'z')

unfoldable pub is_name_char : ℕ → Bool
is_name_char c = is_ascii_alphanumeric c || c == b'_' || c == b'/'

abbrev pub all_chars : (ℕ → Bool) → Text → Bool
all_chars p [] = true
all_chars p (c ∷ s) = p c && all_chars p s

abbrev pub is_empty : Text → Bool
is_empty [] = true
is_empty (c ∷ s) = false

unfoldable pub is_safe_name : String → Bool
unfolding is_name_char utf8_len
is_safe_name s =
    not (is_empty (codes s)) && leb (byte_len (codes s)) 60 && all_chars is_name_char (codes s)

unfoldable pub escape_char : ℕ → Text
escape_char c =
    if c == b'&'
    then codes "&amp;"
    else if c == b'<'
    then codes "&lt;"
    else if c == b'>'
    then codes "&gt;"
    else if c == b'"'
    then codes "&quot;"
    else if c == 39
    then codes "&apos;"
    else c ∷ []

unfoldable pub xml_escape : Text → Text
unfolding escape_char
xml_escape [] = []
xml_escape (c ∷ s) = escape_char c ++ xml_escape s

-- `format!("<{tag}>{}</{tag}>", body)`
abbrev pub enclose : Text → Text → Text
enclose tag body = b'<' ∷ (tag ++ b'>' ∷ (body ++ b'<' ∷ b'/' ∷ (tag ++ b'>' ∷ [])))

-- 'X' true, nothing false.
abbrev pub flag : Bool → Text
flag b = if b then codes "X" else []

unfoldable pub write_scalar : Value → Text
unfolding xml_escape
write_scalar (Value.string s) = xml_escape (codes s)
write_scalar (Value.number n) = codes n
write_scalar (Value.bool b) = flag b
write_scalar _ = []

unfoldable mutual
  unfolding xml_escape write_scalar

  pub write_params : Fields → Text
  write_params Fields.end = []
  write_params (Fields.field k v fs) = write_value (codes k) v ++ write_params fs

  pub write_value : Text → Value → Text
  write_value tag Value.null = []
  write_value tag (Value.bool b) = enclose tag (flag b)
  write_value tag (Value.number n) = enclose tag (codes n)
  write_value tag (Value.string s) = enclose tag (xml_escape (codes s))
  write_value tag (Value.array items) = enclose tag (write_items items)
  write_value tag (Value.object m) = enclose tag (write_params m)

  -- `for item in items` of an array
  pub write_items : Items → Text
  write_items Items.nil = []
  write_items (Items.cons v vs) = enclose (codes "item") (write_item v) ++ write_items vs

  -- `match item`
  pub write_item : Value → Text
  write_item (Value.object m) = write_params m
  write_item Value.null = write_scalar Value.null
  write_item (Value.bool b) = write_scalar (Value.bool b)
  write_item (Value.number n) = write_scalar (Value.number n)
  write_item (Value.string s) = write_scalar (Value.string s)
  write_item (Value.array vs) = write_scalar (Value.array vs)

abbrev unsafe_key : String → RfcError
unsafe_key k = RfcError.invalid_parameter k "invalid RFC parameter/field name (must be A-Z 0-9 _ /)"

-- `validate_keys(x)?; rest`
abbrev pub both : RfcResult {0} Unit → RfcResult {0} Unit → RfcResult {0} Unit
both (ok u) r = r
both (err e) r = err e

unfoldable mutual
  unfolding is_safe_name

  pub validate_keys : Value → RfcResult {0} Unit
  validate_keys (Value.object m) = validate_fields m
  validate_keys (Value.array a) = validate_items a
  validate_keys _ = ok tt

  pub validate_fields : Fields → RfcResult {0} Unit
  validate_fields Fields.end = ok tt
  validate_fields (Fields.field k v fs) =
      let rest = both (validate_keys v) (validate_fields fs) in
      if not (is_safe_name k) then err (unsafe_key k) else rest

  pub validate_items : Items → RfcResult {0} Unit
  validate_items Items.nil = ok tt
  validate_items (Items.cons v vs) = both (validate_keys v) (validate_items vs)

abbrev pub rfc_namespace : String
rfc_namespace = "urn:sap-com:document:sap:rfc:functions"

-- `build_envelope`: what stands in front of the function's name, between and behind.
abbrev pub preamble : Text
preamble =
    codes "<?xml version=\"1.0\" encoding=\"UTF-8\"?>"
    ++ codes "<soap:Envelope xmlns:soap=\"http://schemas.xmlsoap.org/soap/envelope/\" "
    ++ codes "xmlns:rfc=\"urn:sap-com:document:sap:rfc:functions\">"
    ++ codes "<soap:Body>"

abbrev pub closing : Text
closing = codes "</soap:Body></soap:Envelope>"

unfoldable pub build_envelope : String → Text → Text
build_envelope function params_xml =
    preamble ++ (enclose (codes "rfc:" ++ codes function) params_xml ++ closing)
