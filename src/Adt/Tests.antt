-- ===== src/Adt/Tests.antt =====
-- A system that answers everything with a token, and a client that knows nobody.
use sap_automate.Base.{
  String, ◌≡◌, refl, true, none, some, List, [], ◌∷◌, map, arith, nat_key, string_key, pair_key,
  codes, text_key, starts_with, contains,
}
use sap_automate.Adt.Error.{AdtError, ok, err}
use sap_automate.Adt.Types.{AbapObjectKind, ActivationRequest}
use sap_automate.Adt.Destination.{AdtAuth, AdtDestination}
use sap_automate.Adt.Session.{
  Outside, Session, refresh_csrf, base_headers, resolve_auth_header, auth_header, send_http,
}
use sap_automate.Adt.Base64.{encode, decode, decode-encode, digit_at}
use sap_automate.Adt.Responses.{AdtEvent}
use sap_automate.Adt.Preview.{Cell, by_attribute, with_nothing, table_events, parse_data_preview}
use sap_automate.Adt.Nodes.{parse_nodestructure}
use sap_automate.Adt.Grid.{table_row, parse_data_preview-table_events}
use sap_automate.Adt.Http.{activation_body}
use sap_automate.Adt.UrlEncoding.{url_encode, percent_decode, percent_decode-url_encode}

abbrev destination : AdtDestination
destination = record {
  name = "dev";
  base_url = "https://host";
  client = "100";
  language = "EN";
  auth = AdtAuth.basic "U" "P";
}

abbrev out : Outside
out = record {
  send = λ sent r. ok (record { status = 403; csrf = some "Required"; body = ok "" });
  read_service_key = λ p. err (AdtError.internal "no key");
  read_token = λ s. none;
  base64 = λ s. "VTpQ";
  url_encode = λ s. s;
  is_header_value = λ s. true;
  to_lowercase = λ s. s;
  to_uppercase = λ s. s;
  show = λ n. "403";
}

abbrev fresh : Session
fresh = record { csrf = none; token = none; now = 0; sent = [] }

abbrev program : ActivationRequest
program = record { name = "zfoo"; kind = AbapObjectKind.program }

-- The system asks for a token with `Required` and a status of 403; the client keeps that as its token.
required_is_kept : (refresh_csrf out destination fresh).1.csrf ≡ some "Required"
unfolding refresh_csrf base_headers resolve_auth_header auth_header send_http
required_is_kept = refl

-- A name with a quotation mark adds an attribute of its own.
name_adds_attribute :
    contains
      (codes (activation_body AbapObjectKind.class "x\" y=\"z"))
      (codes "adtcore:name=\"x\" y=\"z\"")
    ≡ true
unfolding activation_body contains starts_with
name_adds_attribute = refl

encoded : encode (codes "user:pass") ≡ codes "dXNlcjpwYXNz"
unfolding encode digit_at
encoded = refl

percent_decode-url_encode_example :
    percent_decode (url_encode (37 ∷ 65 ∷ 255 ∷ [])) ≡ 37 ∷ 65 ∷ 255 ∷ []
percent_decode-url_encode_example =
    percent_decode-url_encode (37 ∷ 65 ∷ 255 ∷ []) (omega arith, (omega arith, (omega arith, tt)))

decode-encode_example : decode (encode (255 ∷ 0 ∷ 128 ∷ 7 ∷ [])) ≡ 255 ∷ 0 ∷ 128 ∷ 7 ∷ []
decode-encode_example =
    decode-encode (255 ∷ 0 ∷ 128 ∷ 7 ∷ [])
      (omega arith, (omega arith, (omega arith, (omega arith, tt))))

abbrev columns : List String
columns = "MANDT" ∷ "BUKRS" ∷ []

abbrev cells : List (List Cell)
cells = (by_attribute "100" ∷ with_nothing ∷ []) ∷ (by_attribute "200" ∷ []) ∷ []

parse_data_preview-table_events_example :
    parse_data_preview (λ a b. true) (table_events columns cells)
    ≡ map (table_row (λ a b. true) columns) cells
parse_data_preview-table_events_example =
    parse_data_preview-table_events (λ a b. true) columns cells (omega arith, (omega arith, tt))

node_members :
    parse_nodestructure (
      AdtEvent.start "OBJECT" []
      ∷ AdtEvent.start "OBJECT_NAME" []
      ∷ AdtEvent.text " ZCL "
      ∷ AdtEvent.stop "OBJECT_NAME"
      ∷ AdtEvent.stop "OBJECT"
      ∷ AdtEvent.lone "a:objectReference" (("adtcore:name", "Z") ∷ ("adtcore:type", "CLAS/OC") ∷ [])
      ∷ [])
    ≡ record { name = "ZCL"; kind = AbapObjectKind.program; description = none }
      ∷ record { name = "Z"; kind = AbapObjectKind.class; description = none }
      ∷ []
unfolding parse_nodestructure
node_members = refl
