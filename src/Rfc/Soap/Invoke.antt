-- ===== src/Rfc/Soap/Invoke.antt =====
-- crates/sap-automate-rfc/src/soap.rs: the configuration, and posting one envelope. What lies outside is
-- a parameter: sending a request, the XML reader, the printing of numbers and values, the catalogue.
use sap_automate.Base.{
  ℕ, zero, suc, ◌-◌, String, refl, ◌≢◌, Bool, true, false, not, ◌&&◌, ◌||◌, Option, none, some,
  List, [], ◌∷◌, ltb, leb, ◌==◌, if◌then◌else◌, str_eq, nat_key, string_key, pair_key, Text,
  text_key, utf8_len,
}
use Prim.Native.Char.{code}
use Prim.Native.String.{◌++◌ as str_append, len}
use mathlib.Core.Option
use sap_automate.Json.{Value, Fields, is_some}
use sap_automate.Rfc.Error.{RfcError, RfcResult, ok, err}
use sap_automate.Rfc.Client.{RfcFunctionMeta}
use sap_automate.Rfc.Soap.Envelope.{is_safe_name, build_envelope, rfc_namespace}
use sap_automate.Rfc.Soap.Response.{Events, xml_to_json_root}
use sap_automate.Rfc.Soap.Parsing.{xml_to_json_root-terminates}
use sap_automate.Rfc.Soap.Rows.{extract_fault, extract_body_payload}

pub record SoapRfcConfig : Type 0 where
  pub base_url : String
  pub client : String
  pub user : String
  pub password : String
  pub language : String
  pub timeout_ms : ℕ

abbrev or_default : String → Option String → String
or_default d none = d
or_default d (some s) = if str_eq s "" then d else s

-- `var(k, default)`
abbrev var_or : (String → Option String) → String → String → String
var_or vars k d = or_default d (vars k)

abbrev config_for : (String → Option String) → String → SoapRfcConfig
config_for vars base_url = record {
  base_url = base_url;
  client = var_or vars "SAP_RFC_CLIENT" "100";
  user = var_or vars "SAP_RFC_USER" "";
  password = var_or vars "SAP_RFC_PASSWORD" "";
  language = var_or vars "SAP_RFC_LANG" "EN";
  timeout_ms = 60000;
}

abbrev config_at : (String → Option String) → Option String → Option SoapRfcConfig
config_at vars none = none
config_at vars (some url) = if str_eq url "" then none else some (config_for vars url)

unfoldable pub from_env : (String → Option String) → Option SoapRfcConfig
from_env vars = config_at vars (vars "SAP_RFC_HTTP_URL")

-- Its keys in order.
unfoldable pub redacted : SoapRfcConfig → Value
redacted c = Value.object (
    Fields.field "base_url" (Value.string c.base_url) (
      Fields.field "client" (Value.string c.client) (
        Fields.field "language" (Value.string c.language)
          (Fields.field "user" (Value.string c.user) Fields.end))))

abbrev no_letter : String → Bool
no_letter String.[] = true
no_letter (String.◌∷◌ c s) = false

-- `base_url.trim_end_matches('/')`
unfoldable trim_slashes : String → String
trim_slashes String.[] = String.[]
trim_slashes (String.◌∷◌ c s) =
    let rest = trim_slashes s in
    if no_letter rest && code c == b'/' then String.[] else String.◌∷◌ c rest

unfoldable pub endpoint : SoapRfcConfig → String
unfolding trim_slashes
endpoint c =
    str_append (trim_slashes c.base_url) (str_append "/sap/bc/soap/rfc?sap-client=" c.client)

-- `&s[..n]`, which must end where a character does.
unfoldable pub prefix_at : ℕ → String → Option String
unfolding utf8_len
prefix_at n String.[] = if n == 0 then some String.[] else none
prefix_at n (String.◌∷◌ c s) =
    let rest = Option.map (String.◌∷◌ c) (prefix_at (n - utf8_len (code c)) s) in
    if n == 0 then some String.[] else if leb (utf8_len (code c)) n then rest else none

-- `while end > 0 && !s.is_char_boundary(end) { end -= 1; }`
unfoldable pub boundary_below : ℕ → String → ℕ
unfolding prefix_at
boundary_below zero s = 0
boundary_below (suc n) s =
    let rest = boundary_below n s in if is_some (prefix_at (suc n) s) then suc n else rest

abbrev or_panic : Option String → String
or_panic none = ""
or_panic (some s) = s

unfoldable pub truncate : (ℕ → String) → String → String
unfolding prefix_at boundary_below
truncate show s =
    if leb (len s) 300
    then s
    else (let end = boundary_below 300 s in
        str_append (or_panic (prefix_at end s))
          (str_append "…[+" (str_append (show (len s - end)) " chars]")))

-- What is posted.
pub record SoapRequest : Type 0 where
  pub url : String
  pub user : String
  pub password : String
  pub soap_action : String
  pub body : Text

-- What comes back: no answer, one that cannot be read, or a status and a text.
pub data HttpOutcome : Type 0 where
  timed_out : HttpOutcome
  unreachable unreadable : (reason : String) → HttpOutcome
  answer : (status : ℕ) (text : String) → HttpOutcome

pub record Outside : Type 0 where
  pub send : SoapRequest → HttpOutcome
  pub read_events : String → Events
  pub before : String → String → Bool
  pub show : ℕ → String
  pub display_status : ℕ → String
  pub display : Value → String
  pub rfc_metadata : String → String → RfcResult RfcFunctionMeta

-- A result, and the requests that were posted for it.
abbrev pub Call {ℓ} : Type ℓ → Type ℓ
Call A = RfcResult A × List SoapRequest

module _ (out : Outside) (config : SoapRfcConfig) where
  abbrev from_some : (o : Option (RfcResult Value)) → o ≢ none → RfcResult Value
  from_some none h = absurd (h refl)
  from_some (some r) h = r

  unfoldable pub parse_text : String → RfcResult Value
  unfolding xml_to_json_root
  parse_text text =
      let es = out.read_events text in
      from_some (xml_to_json_root out.before es) (xml_to_json_root-terminates out.before es)

  abbrev unless_fault : String → ℕ → String → Value → Option String → RfcResult Value
  unless_fault function status text root (some fault) =
      err (RfcError.internal (str_append "SOAP fault: " fault))
  unless_fault function status text root none =
      if leb 200 status && ltb status 300
      then extract_body_payload root
      else err (
          RfcError.internal (
            str_append "SOAP RFC " (
              str_append function (
                str_append " -> HTTP " (
                  str_append (out.display_status status)
                    (str_append ": " (truncate out.show text)))))))

  abbrev read_root : String → ℕ → String → RfcResult Value → RfcResult Value
  read_root function status text (err e) = err e
  read_root function status text (ok root) =
      unless_fault function status text root (extract_fault root)

  unfoldable pub read_answer : String → HttpOutcome → RfcResult Value
  unfolding parse_text extract_fault extract_body_payload truncate
  read_answer function HttpOutcome.timed_out = err (RfcError.timeout config.timeout_ms)
  read_answer function (HttpOutcome.unreachable reason) =
      err (RfcError.destination_down config.base_url reason)
  read_answer function (HttpOutcome.unreadable reason) = err (RfcError.internal reason)
  read_answer function (HttpOutcome.answer status text) =
      if status == 401 || status == 403
      then err
          (RfcError.auth_failed (str_append "SOAP RFC returned HTTP " (out.display_status status)))
      else read_root function status text (parse_text text)

  unfoldable pub request_for : String → Text → SoapRequest
  unfolding endpoint build_envelope
  request_for function params_xml = record {
    url = endpoint config;
    user = config.user;
    password = config.password;
    soap_action =
        str_append "\"" (str_append rfc_namespace (str_append ":" (str_append function "\"")));
    body = build_envelope function params_xml;
  }

  unfoldable pub invoke : String → Text → Call Value
  unfolding is_safe_name request_for read_answer
  invoke function params_xml =
      let req = request_for function params_xml in
      let sent = read_answer function (out.send req) in
      if not (is_safe_name function)
      then (
        err (
            RfcError.invalid_parameter "function"
              (str_append "'" (str_append function "' is not a valid RFC name"))),
        [],
      )
      else (sent, req ∷ [])
