-- ===== src/Adt/Http.antt =====
-- crates/sap-automate-adt/src/http.rs: `AdtClient` for `HttpAdtClient`. The XML reader and the order of a
-- map's keys are parameters, as is what lies outside a session.
use sap_automate.Base.{
  ℕ, zero, suc, ◌-◌, String, Bool, true, not, ◌||◌, Option, none, some, List, [], ◌∷◌, ltb, ◌==◌,
  if◌then◌else◌, length, nat_key, string_key, pair_key, codes, text_key, starts_with, lines,
}
use Prim.Native.Char.{code}
use Prim.Native.String.{◌++◌ as str_append}
use sap_automate.Json.{Value}
use sap_automate.Adt.Error.{AdtError, AdtResult, ok, err}
use sap_automate.Adt.Types.{
  max_table_rows, AbapObjectKind, label, adt_path, ProgramSource, CdsView, PackageContents,
  AdtSearchRequest, AdtSearchHit, WhereUsedRequest, WhereUsedHit, TableRow, ActivationRequest,
  ActivationOutcome, AdtCallContext,
}
use sap_automate.Adt.Destination.{AdtDestination}
use sap_automate.Adt.Session.{
  header_value, AdtRequest, HttpMethod, HttpResponse, Outside, Op, ◌>>=◌, done, is_success,
  send_http, base_headers, fetch_text, refresh_csrf,
}
use sap_automate.Adt.Responses.{AdtEvent, parse_search_results, parse_usage_references}
use sap_automate.Adt.Preview.{parse_data_preview}
use sap_automate.Adt.Nodes.{parse_nodestructure}

-- `s.replace(pat, with)`: `skip` characters belong to the last place found.
abbrev replace_from : ℕ → String → String → String → String
replace_from skip pat with_ String.[] = String.[]
replace_from (suc skip) pat with_ (String.◌∷◌ c s) = replace_from skip pat with_ s
replace_from zero pat with_ (String.◌∷◌ c s) =
    let found = str_append with_ (replace_from (length (codes pat) - 1) pat with_ s) in
    let kept = String.◌∷◌ c (replace_from zero pat with_ s) in
    if starts_with (code c ∷ codes s) (codes pat) then found else kept

abbrev line_count : String → ℕ
line_count source = length (lines (codes source))

-- The part of the path for the kind, and the body that names the object.
abbrev activation_path : AbapObjectKind → String
activation_path AbapObjectKind.program = "programs/programs"
activation_path AbapObjectKind.class = "oo/classes"
activation_path AbapObjectKind.interface = "oo/interfaces"
activation_path _ = "objects"

unfoldable pub activation_body : AbapObjectKind → String → String
activation_body kind name =
    str_append
      "<?xml version=\"1.0\" encoding=\"UTF-8\"?><adtcore:objectReferences xmlns:adtcore=\"http://www.sap.com/adt/core\"><adtcore:objectReference adtcore:uri=\"/sap/bc/adt/"
      (str_append (activation_path kind) (
        str_append "/" (
          str_append name
            (str_append "\" adtcore:name=\"" (str_append name "\"/></adtcore:objectReferences>")))))

abbrev usage_request : String
usage_request =
    "<?xml version=\"1.0\" encoding=\"UTF-8\"?>\n<usageReferences:usageReferenceRequest xmlns:usageReferences=\"http://www.sap.com/adt/ris/usageReferences\">\n  <usageReferences:affectedObjects/>\n</usageReferences:usageReferenceRequest>"

module _ (out : Outside) (destination : AdtDestination) (read_events : String → List AdtEvent)
    (before : String → String → Bool) where
  abbrev source_of : AbapObjectKind → String → String → ProgramSource
  source_of kind name source = record {
    name = out.to_uppercase name;
    kind = kind;
    package_name = none;
    description = none;
    source = source;
    active = true;
    line_count = line_count source;
  }

  unfoldable pub adt_source : String → AbapObjectKind → Op ProgramSource
  unfolding fetch_text adt_path lines
  adt_source name kind =
      fetch_text out destination (adt_path out.to_lowercase kind name)
      >>= (λ source. done (ok (source_of kind name source)))

  abbrev pub get_program : String → Op ProgramSource
  get_program name = adt_source name AbapObjectKind.program

  abbrev pub get_class : String → Op ProgramSource
  get_class name = adt_source name AbapObjectKind.class

  abbrev pub get_interface : String → Op ProgramSource
  get_interface name = adt_source name AbapObjectKind.interface

  abbrev pub get_include : String → Op ProgramSource
  get_include name = adt_source name AbapObjectKind.include

  unfoldable pub get_function_module : String → String → Op ProgramSource
  unfolding fetch_text adt_path lines starts_with
  get_function_module group name =
      let path =
        replace_from 0 "{group}" (out.to_lowercase group)
          (adt_path out.to_lowercase AbapObjectKind.function_module name) in
      fetch_text out destination path
      >>= (λ source. done (ok (source_of AbapObjectKind.function_module name source)))

  -- A POST without a CSRF token.
  abbrev post_plain : String → String → String → Op HttpResponse
  post_plain path content_type body = base_headers out destination >>= (λ auth.
      send_http out destination
        (AdtRequest.request HttpMethod.post path none auth (some content_type) body))

  abbrev map_body {ℓ} : {A : Type ℓ} → (String → A) → AdtResult String → AdtResult A
  map_body f (ok s) = ok (f s)
  map_body f (err e) = err e

  abbrev contents_of : String → String → PackageContents
  contents_of package_name body = record {
    package_name = out.to_uppercase package_name;
    description = none;
    members = parse_nodestructure (read_events body);
  }

  abbrev package_by_status : String → HttpResponse → AdtResult PackageContents
  package_by_status package_name resp =
      let where_it_is = str_append "nodestructure -> " (out.show resp.status) in
      if resp.status == 401 || resp.status == 403
      then err (AdtError.forbidden where_it_is)
      else if resp.status == 404
      then err (AdtError.not_found "Package" package_name)
      else if not (is_success resp.status)
      then err (AdtError.internal where_it_is)
      else map_body (contents_of package_name) resp.body

  unfoldable pub get_package_contents : String → Op PackageContents
  unfolding base_headers send_http parse_nodestructure
  get_package_contents package_name =
      let form =
        str_append "parent_type=DEVC%2FK&parent_name="
          (str_append (out.url_encode package_name) "&withShortDescriptions=true") in
      post_plain "/sap/bc/adt/repository/nodestructure" "application/x-www-form-urlencoded" form
      >>= (λ resp. done (package_by_status package_name resp))

  unfoldable pub get_cds_view : String → Op CdsView
  unfolding fetch_text adt_path lines
  get_cds_view name =
      fetch_text out destination (adt_path out.to_lowercase AbapObjectKind.cds_view name)
      >>= (λ source. done (
          ok (record {
            name = out.to_uppercase name;
            source = source;
            root_entity = name;
            annotations = Value.null;
            line_count = line_count source;
          })))

  unfoldable pub search : AdtSearchRequest → Op (List AdtSearchHit)
  unfolding fetch_text parse_search_results
  search r =
      let path =
        str_append "/sap/bc/adt/repository/informationsystem/search?operation=quickSearch&query=" (
          str_append (out.url_encode r.query)
            (str_append "&maxResults=" (out.show r.max_results))) in
      fetch_text out destination path
      >>= (λ body. done (ok (parse_search_results (read_events body))))

  abbrev uses_by_status : HttpResponse → AdtResult (List WhereUsedHit)
  uses_by_status resp =
      if resp.status == 404
      then ok []
      else if not (is_success resp.status)
      then err (AdtError.internal (str_append "usageReferences -> " (out.show resp.status)))
      else map_body (λ body. parse_usage_references (read_events body)) resp.body

  unfoldable pub where_used : WhereUsedRequest → Op (List WhereUsedHit)
  unfolding base_headers send_http adt_path parse_usage_references
  where_used r =
      let uri = out.url_encode (adt_path out.to_lowercase r.kind r.name) in
      post_plain (str_append "/sap/bc/adt/repository/informationsystem/usageReferences?uri=" uri)
        "application/vnd.sap.adt.repository.usagereferences.request+xml" usage_request
      >>= (λ resp. done (uses_by_status resp))

  abbrev rows_by_status : String → HttpResponse → AdtResult (List TableRow)
  rows_by_status table resp =
      if resp.status == 403
      then err (
          AdtError.data_preview_blocked (
            str_append "ADT data preview blocked for "
              (str_append table "; fall back to sap.table.read")))
      else if not (is_success resp.status)
      then err (
          AdtError.internal (
            str_append "data preview "
              (str_append table (str_append " -> " (out.show resp.status)))))
      else map_body (λ body. parse_data_preview before (read_events body)) resp.body

  unfoldable pub get_table_contents : String → ℕ → Op (List TableRow)
  unfolding base_headers send_http parse_data_preview
  get_table_contents table max_rows =
      let path =
        str_append "/sap/bc/adt/datapreview/freestyle?rowNumber="
          (str_append (out.show max_rows) "&dataAging=true") in
      let posted =
        post_plain path "text/plain; charset=utf-8"
          (str_append "SELECT * FROM " (str_append table " "))
        >>= (λ resp. done (rows_by_status table resp)) in
      if max_rows == 0 || ltb max_table_rows max_rows
      then done (err (AdtError.invalid_object_name "max_rows must be in 1..=1000"))
      else posted

  abbrev pub outcome_of : ActivationRequest → HttpResponse → ActivationOutcome
  outcome_of r resp = record {
    name = out.to_uppercase r.name;
    kind = r.kind;
    activated = is_success resp.status;
    messages = str_append "HTTP " (out.show resp.status) ∷ [];
  }

  abbrev pub activation_request : ActivationRequest → String → Option String → AdtRequest
  activation_request r csrf auth =
      AdtRequest.request HttpMethod.post "/sap/bc/adt/activation" (some csrf) auth
        (some "application/xml") (activation_body r.kind (out.to_lowercase r.name))

  abbrev pub post_activation : ActivationRequest → Option String → String → Op ActivationOutcome
  post_activation r auth csrf =
      send_http out destination (activation_request r csrf auth)
      >>= (λ resp. done (ok (outcome_of r resp)))

  abbrev pub with_token : ActivationRequest → Option String → Op ActivationOutcome
  with_token r none = done (err AdtError.csrf_refresh)
  with_token r (some token) =
      base_headers out destination
      >>= (λ auth. done (header_value out destination token) >>= post_activation r auth)

  unfoldable pub activate : ActivationRequest → AdtCallContext → Op ActivationOutcome
  unfolding refresh_csrf base_headers send_http header_value activation_body label
  activate r ctx =
      let refused = AdtError.permission_denied (
        str_append "activate(" (
          str_append (label r.kind)
            (str_append " " (str_append r.name ") blocked: read-only mode")))) in
      let written : Op ActivationOutcome =
        refresh_csrf out destination >>= (λ _ s. with_token r s.csrf s) in
      if ctx.read_only then done (err refused) else written
