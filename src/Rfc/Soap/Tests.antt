-- ===== src/Rfc/Soap/Tests.antt =====
-- A client of a system that answers every request with an empty body.
use sap_automate.Rfc.Soap.ReadOnly.{OnlyReads, call_rfc-OnlyReads}
use sap_automate.Rfc.Soap.Arguments.{is_plain}
use sap_automate.Base.{
  ◌+◌, ◌≢◌, ◌≤◌, ◌<◌, String, ◌≡◌, refl, ◌↔◌, true, false, none, some, List, [], ◌∷◌, ◌++◌, arith,
  if◌then◌else◌, str_eq, str_eq_iff, nat_key, string_key, pair_key, codes, text_eq, text_key,
  is_whitespace, utf8_len,
}
use sap_automate.Json.{Value, Items, Fields, get_field}
use sap_automate.Rfc.Error.{RfcError, RfcResult, ok, err}
use sap_automate.Rfc.Client.{RfcFunctionMeta, RfcCallRequest, ReadTableRequest}
use sap_automate.Rfc.Soap.Envelope.{
  is_safe_name, is_name_char, escape_char, xml_escape, write_scalar, write_params, validate_fields,
  build_envelope,
}
use sap_automate.Rfc.Soap.Xml.{
  element, done, read_xml, tokens, tokens_in_tag, rebuild, step, on_tag, up_to_space,
}
use sap_automate.Rfc.Soap.Meaning.{read_xml-build_envelope}
use sap_automate.Rfc.Soap.Arguments.{content_params, plain_fields}
use sap_automate.Rfc.Soap.Response.{max_xml_depth, XmlEvent, xml_to_json_root}
use sap_automate.Rfc.Soap.Parsing.{
  xml_to_json_root-terminates, Content, events_of, value_of, height,
}
use sap_automate.Rfc.Soap.Document.{StandsFor, xml_to_json_root-events_of}
use sap_automate.Rfc.Soap.Rows.{row_of}
use sap_automate.Rfc.Soap.Invoke.{
  SoapRfcConfig, Outside, SoapRequest, HttpOutcome, invoke, request_for,
}
use sap_automate.Rfc.Soap.Calls.{gate, args_of, post_args, call_rfc, read_table, read_table_params}
use sap_automate.Rfc.Soap.Safety.{
  AsksFor, IsAdmitted, posts-call_rfc, IsReadable, posts-read_table_iff,
}
use sap_automate.Rfc.Soap.Delimited.{row_of-joined, joined}

abbrev config : SoapRfcConfig
config = record {
  base_url = "https://host/";
  client = "100";
  user = "U";
  password = "P";
  language = "EN";
  timeout_ms = 60000;
}

abbrev reader : String → RfcFunctionMeta
reader f = record {
  function = f;
  description = "";
  function_group = "";
  package_name = none;
  parameters = [];
  deprecated = false;
  read_only = true;
  commit_required = false;
  authorization = [];
  s4hana_notes = none;
}

-- The catalogue has one function, which only reads.
abbrev catalogue : String → String → RfcResult RfcFunctionMeta
catalogue f language = if str_eq f "ZREAD" then ok (reader f) else err (RfcError.not_found f)

abbrev out : Outside
out = record {
  send = λ r. HttpOutcome.answer 200 "";
  read_events = λ s. [];
  before = λ a b. true;
  show = λ n. "7";
  display_status = λ n. "";
  display = λ v. "";
  rfc_metadata = catalogue;
}

abbrev args : Fields
args =
    Fields.field "T"
      (Value.array
        (Items.cons (Value.object (Fields.field "K" (Value.string "a<b") Fields.end)) Items.nil))
      (Fields.field "N" (Value.number "5") Fields.end)

abbrev call_of : String → RfcCallRequest
call_of f = record {
  function = f;
  parameters = Value.object args;
  timeout_ms = 1;
  require_read_only_safe = true;
}

rendered : write_params args ≡ codes "<T><item><K>a&lt;b</K></item></T><N>5</N>"
unfolding write_params xml_escape
rendered = refl

unknown_is_refused : (call_rfc out config (call_of "ZWRITE") true).1 ≡ []
unfolding call_rfc gate
unknown_is_refused = refl

-- A key with a slash passes the check, but no envelope that has it can be read.
abbrev slashed : Fields
slashed = Fields.field "/SAPAPO/X" (Value.string "1") Fields.end

slash_is_valid : validate_fields slashed ≡ ok tt
unfolding validate_fields is_safe_name is_name_char utf8_len
slash_is_valid = refl

slash_cannot_be_read : read_xml (build_envelope "ZREAD" (write_params slashed)) ≡ none
unfolding read_xml build_envelope write_params tokens tokens_in_tag rebuild step on_tag up_to_space
    text_eq mathlib.Core.Option.bind xml_escape escape_char
slash_cannot_be_read = refl

-- A list in a list is left out.
nested_list_is_lost :
    write_params (
      Fields.field "T"
        (Value.array (Items.cons (Value.array (Items.cons (Value.string "x") Items.nil)) Items.nil))
        Fields.end)
    ≡ codes "<T><item></item></T>"
unfolding write_params write_scalar
nested_list_is_lost = refl

-- The blanks in front of the first value of a row are lost, an answer that breaks off is taken as whole.
broken_off :
    xml_to_json_root
      (λ a b. true)
      (XmlEvent.start "A" ∷ XmlEvent.start "B" ∷ XmlEvent.text (some "1") ∷ XmlEvent.eof ∷ [])
    ≡ some (ok (Value.object (Fields.field "B" (Value.string "1") Fields.end)))
unfolding xml_to_json_root
broken_off = refl

xml_to_json_root-terminates_example :
    xml_to_json_root
      (λ a b. true)
      (XmlEvent.other ∷ XmlEvent.start "A" ∷ XmlEvent.start "B" ∷ XmlEvent.stop ∷ [])
    ≢ none
xml_to_json_root-terminates_example =
    xml_to_json_root-terminates (λ a b. true)
      (XmlEvent.other ∷ XmlEvent.start "A" ∷ XmlEvent.start "B" ∷ XmlEvent.stop ∷ [])

posts-call_rfc_example :
    IsAdmitted out config
      (call_of "ZREAD")
      true
      (request_for out config "ZREAD" (write_params args))
      []
unfolding call_rfc gate args_of post_args validate_fields is_safe_name is_name_char utf8_len invoke
posts-call_rfc_example =
    posts-call_rfc out config (call_of "ZREAD") true
      (request_for out config "ZREAD" (write_params args)) [] refl

read_xml-build_envelope_example :
    read_xml (build_envelope "ZREAD" (write_params args))
    ≡ some (
        element
          (codes "soap:Envelope")
          (element
            (codes "soap:Body")
            (element (codes "rfc:" ++ codes "ZREAD") (content_params args) done)
            done)
          done)
unfolding validate_fields is_safe_name is_name_char utf8_len plain_fields
read_xml-build_envelope_example = read_xml-build_envelope "ZREAD" args refl refl refl refl

abbrev document : Content
document =
    Content.element "n:A" (Content.run (some "1") Content.end)
      (Content.element "A" Content.end (Content.lone "B" Content.end))

xml_to_json_root-events_of_example :
    let result =
      xml_to_json_root
        (λ a b. true)
        (XmlEvent.start "R" ∷ events_of document (XmlEvent.stop ∷ [])) in
    (1 + height document ≤ max_xml_depth → result ≡ some (ok (value_of (λ a b. true) document)))
    × (max_xml_depth < 1 + height document
        → result ≡ some (err (RfcError.internal "XML nesting exceeds 256 levels")))
    × ((d : Content) → StandsFor (λ a b. true) d (value_of (λ a b. true) d))
xml_to_json_root-events_of_example = xml_to_json_root-events_of (λ a b. true) "R" document

abbrev request : ReadTableRequest
request = record {
  table = "T000";
  fields = "MANDT" ∷ [];
  where_conditions = "MANDT = '100'" ∷ [];
  max_rows = 7;
}

posts-read_table_iff_example :
    (((read_table out config request).1
        ≡ request_for out config "RFC_READ_TABLE"
            (write_params (read_table_params out config request))
          ∷ [])
      ↔ (IsReadable request
          × (request_for out config "RFC_READ_TABLE"
                (write_params (read_table_params out config request))
              ≡ request_for out config "RFC_READ_TABLE"
                  (write_params (read_table_params out config request)))
          × (◌≡◌ {A = List SoapRequest} [] [])))
    × AsksFor request (out.show 7) (read_table_params out config request)
posts-read_table_iff_example =
    posts-read_table_iff out config request
      (request_for out config "RFC_READ_TABLE"
        (write_params (read_table_params out config request)))
      []

row_of-joined_example :
    get_field "B" (row_of (λ a b. true) ("A" ∷ "B" ∷ []) (joined "x" ("y|z " ∷ []))).values
    ≡ some (Value.string "y|z")
unfolding is_whitespace
row_of-joined_example =
    row_of-joined (λ a b. true) ("A" ∷ "B" ∷ []) "x" ("y|z " ∷ []) 1 "B" "y|z "
      ((λ e. ground (arith, (str_eq_iff "B" "A").1 e), tt), (tt, tt)) refl
      ((λ e. omega arith, tt), tt) refl refl

call_rfc-OnlyReads_example :
    OnlyReads out config (call_of "ZREAD") (request_for out config "ZREAD" (write_params args))
unfolding call_rfc gate args_of post_args validate_fields is_safe_name is_name_char utf8_len invoke
    is_plain
call_rfc-OnlyReads_example =
    call_rfc-OnlyReads out config (call_of "ZREAD")
      (request_for out config "ZREAD" (write_params args)) [] refl refl refl
