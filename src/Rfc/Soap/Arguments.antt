-- ===== src/Rfc/Soap/Arguments.antt =====
-- crates/sap-automate-rfc/src/soap.rs: what the rendered arguments mean to the one who reads them.
use sap_automate.Base.{
  ℕ, String, ◌≡◌, refl, inl, inr, Bool, true, false, not, ◌&&◌, ◌||◌, [], ◌∷◌, arith, leb, ◌==◌,
  Bool-cases, nat_key, string_key, pair_key, Text, codes, text_key,
}
use sap_automate.Json.{Value, Items, Fields}
use sap_automate.Rfc.Error.{RfcResult, ok, err}
use sap_automate.Rfc.Soap.Envelope.{
  all_chars, is_name_char, is_safe_name, xml_escape, enclose, flag, write_scalar, write_params,
  write_value, write_items, write_item, both, validate_keys, validate_fields, validate_items,
}
use sap_automate.Rfc.Soap.Xml.{
  is_xml_char, is_tag_letter, starts_well, all_letters, Content, done, letter, element, followed_by,
  letters,
}
use sap_automate.Rfc.Soap.Reads.{
  ReadsAs, IsTagName, and_true, empty-ReadsAs, append-ReadsAs, letter-ReadsAs, xml_escape-ReadsAs,
  enclose-ReadsAs,
}

-- One element per argument, none for a null; an array has an `item` per value. A Boolean is `X` or
-- nothing.
unfoldable mutual
  pub content_params : Fields → Content
  content_params Fields.end = done
  content_params (Fields.field k v fs) = followed_by (content_value (codes k) v) (content_params fs)

  pub content_value : Text → Value → Content
  content_value tag Value.null = done
  content_value tag (Value.bool b) = element tag (letters (flag b)) done
  content_value tag (Value.number n) = element tag (letters (codes n)) done
  content_value tag (Value.string s) = element tag (letters (codes s)) done
  content_value tag (Value.array vs) = element tag (content_items vs) done
  content_value tag (Value.object m) = element tag (content_params m) done

  pub content_items : Items → Content
  content_items Items.nil = done
  content_items (Items.cons v vs) = element (codes "item") (content_item v) (content_items vs)

  pub content_item : Value → Content
  content_item (Value.object m) = content_params m
  content_item Value.null = done
  content_item (Value.bool b) = letters (flag b)
  content_item (Value.number n) = letters (codes n)
  content_item (Value.string s) = letters (codes s)
  content_item (Value.array vs) = content_items vs

-- Digits, signs, points and exponents: what `serde_json` prints of a number.
abbrev is_number_letter : ℕ → Bool
is_number_letter c =
    (leb b'0' c && leb c b'9') || c == b'.' || c == b'-' || c == b'+' || c == b'e' || c == b'E'

abbrev pub is_not_slash : ℕ → Bool
is_not_slash c = not (c == b'/')

-- A name that XML takes as one: no slash, and no digit in front.
abbrev pub is_xml_key : Text → Bool
is_xml_key s = starts_well s && all_chars is_not_slash s

abbrev is_array : Value → Bool
is_array (Value.array vs) = true
is_array _ = false

-- Every key is a name of XML, every text has characters of XML only, numbers are printed as such, and
-- no array stands in an array.
unfoldable mutual
  pub is_plain : Value → Bool
  is_plain (Value.object m) = plain_fields m
  is_plain (Value.array vs) = plain_items vs
  is_plain (Value.number n) = all_chars is_number_letter (codes n)
  is_plain (Value.string s) = all_chars is_xml_char (codes s)
  is_plain _ = true

  pub plain_fields : Fields → Bool
  plain_fields Fields.end = true
  plain_fields (Fields.field k v fs) = is_xml_key (codes k) && is_plain v && plain_fields fs

  pub plain_items : Items → Bool
  plain_items Items.nil = true
  plain_items (Items.cons v vs) = not (is_array v) && is_plain v && plain_items vs

name_letters :
    (s : Text)
    → all_chars is_name_char s ≡ true
    → all_chars is_not_slash s ≡ true
    → all_letters s ≡ true
unfolding is_name_char
name_letters [] p q = refl
name_letters (c ∷ s) p q =
    let (p1, ps) = and_true (is_name_char c) (all_chars is_name_char s) p in
    let (q1, qs) = and_true (is_not_slash c) (all_chars is_not_slash s) q in
    let first : is_tag_letter c ≡ true = ground arith in rw (first, name_letters s ps qs) refl

pub safe-IsTagName :
    (k : String) → is_safe_name k ≡ true → is_xml_key (codes k) ≡ true → IsTagName (codes k)
unfolding is_safe_name
safe-IsTagName k p q =
    let (starts, no_slash) =
      and_true (starts_well (codes k)) (all_chars is_not_slash (codes k)) q in
    (starts, name_letters (codes k) (ground arith) no_slash)

number-ReadsAs : (s : Text) → all_chars is_number_letter s ≡ true → ReadsAs s (letters s)
number-ReadsAs [] p = empty-ReadsAs
number-ReadsAs (c ∷ s) p =
    append-ReadsAs (c ∷ []) s (letter c done) (letters s)
      (letter-ReadsAs c (ground arith) (ground arith)) (number-ReadsAs s (ground arith))

flag-ReadsAs : (b : Bool) → ReadsAs (flag b) (letters (flag b))
flag-ReadsAs true = letter-ReadsAs b'X' refl refl
flag-ReadsAs false = empty-ReadsAs

item-IsTagName : IsTagName (codes "item")
item-IsTagName = (refl, refl)

both_ok : (a b : RfcResult {0} Unit) → both a b ≡ ok tt → (a ≡ ok tt) × (b ≡ ok tt)
both_ok (ok u) b e = (refl, e)
both_ok (err x) b e = ground arith

valid_field :
    (k : String) (v : Value) (fs : Fields)
    → validate_fields (Fields.field k v fs) ≡ ok tt
    → (is_safe_name k ≡ true) × (validate_keys v ≡ ok tt) × (validate_fields fs ≡ ok tt)
unfolding validate_fields
valid_field k v fs h = elim (Bool-cases (is_safe_name k)) [
  | inl e ↦ let (p, q) = both_ok (validate_keys v) (validate_fields fs) (rw e at h) in (e, p, q)
  | inr e ↦ ground arith
]

and3_true : (a b c : Bool) → a && b && c ≡ true → (a ≡ true) × (b ≡ true) × (c ≡ true)
and3_true a b c h = (ground arith, ground arith, ground arith)

mutual
  unfolding write_params write_value write_items write_item write_scalar content_params
      content_value content_items content_item validate_fields validate_keys validate_items is_plain
      plain_fields plain_items

  pub params-ReadsAs :
      (fs : Fields)
      → validate_fields fs ≡ ok tt
      → plain_fields fs ≡ true
      → ReadsAs (write_params fs) (content_params fs)
  params-ReadsAs Fields.end p q = empty-ReadsAs
  params-ReadsAs (Fields.field k v fs) p q =
      let (safe, p_value, p_rest) = valid_field k v fs p in
      let (no_slash, q_value, q_rest) =
        and3_true (is_xml_key (codes k)) (is_plain v) (plain_fields fs) q in
      append-ReadsAs (write_value (codes k) v) (write_params fs) (content_value (codes k) v)
        (content_params fs)
        (value-ReadsAs (codes k) v (safe-IsTagName k safe no_slash) p_value q_value)
        (params-ReadsAs fs p_rest q_rest)

  value-ReadsAs :
      (tag : Text) (v : Value)
      → IsTagName tag
      → validate_keys v ≡ ok tt
      → is_plain v ≡ true
      → ReadsAs (write_value tag v) (content_value tag v)
  value-ReadsAs tag Value.null t p q = empty-ReadsAs
  value-ReadsAs tag (Value.bool b) t p q =
      enclose-ReadsAs tag (flag b) (letters (flag b)) t (flag-ReadsAs b)
  value-ReadsAs tag (Value.number n) t p q =
      enclose-ReadsAs tag (codes n) (letters (codes n)) t (number-ReadsAs (codes n) q)
  value-ReadsAs tag (Value.string s) t p q =
      enclose-ReadsAs tag (xml_escape (codes s)) (letters (codes s)) t
        (xml_escape-ReadsAs (codes s) q)
  value-ReadsAs tag (Value.array vs) t p q =
      enclose-ReadsAs tag (write_items vs) (content_items vs) t (items-ReadsAs vs p q)
  value-ReadsAs tag (Value.object m) t p q =
      enclose-ReadsAs tag (write_params m) (content_params m) t (params-ReadsAs m p q)

  items-ReadsAs :
      (vs : Items)
      → validate_items vs ≡ ok tt
      → plain_items vs ≡ true
      → ReadsAs (write_items vs) (content_items vs)
  items-ReadsAs Items.nil p q = empty-ReadsAs
  items-ReadsAs (Items.cons v vs) p q =
      let (p_value, p_rest) = both_ok (validate_keys v) (validate_items vs) p in
      let (no_array, q_value, q_rest) =
        and3_true (not (is_array v)) (is_plain v) (plain_items vs) q in
      append-ReadsAs (enclose (codes "item") (write_item v)) (write_items vs)
        (element (codes "item") (content_item v) done) (content_items vs)
        (enclose-ReadsAs (codes "item") (write_item v) (content_item v) item-IsTagName
          (item-ReadsAs v no_array p_value q_value))
        (items-ReadsAs vs p_rest q_rest)

  item-ReadsAs :
      (v : Value)
      → not (is_array v) ≡ true
      → validate_keys v ≡ ok tt
      → is_plain v ≡ true
      → ReadsAs (write_item v) (content_item v)
  item-ReadsAs (Value.object m) a p q = params-ReadsAs m p q
  item-ReadsAs Value.null a p q = empty-ReadsAs
  item-ReadsAs (Value.bool b) a p q = flag-ReadsAs b
  item-ReadsAs (Value.number n) a p q = number-ReadsAs (codes n) q
  item-ReadsAs (Value.string s) a p q = xml_escape-ReadsAs (codes s) q
  item-ReadsAs (Value.array vs) a p q = ground arith
