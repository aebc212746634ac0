-- ===== src/Adt/Session.antt =====
-- crates/sap-automate-adt/src/http.rs: the state of `HttpAdtClient`, its headers and its tokens. What lies
-- outside is a parameter: the answers, given what was sent before, the clock, the key files, and
-- what characters are in other cases, in bytes and in headers.
use sap_automate.Base.{
  ℕ, ◌+◌, ◌-◌, max, String, Bool, true, false, not, ◌&&◌, ◌||◌, Option, none, some, List, [], ◌∷◌,
  ◌++◌, ltb, leb, ◌==◌, if◌then◌else◌, nat_key, string_key, pair_key,
}
use Prim.Native.Char.{code}
use Prim.Native.String.{◌++◌ as str_append}
use sap_automate.Adt.Error.{AdtError, AdtResult, ok, err}
use sap_automate.Adt.Destination.{AdtAuth, AdtDestination}

pub record ServiceKey : Type 0 where
  pub clientid : String
  pub clientsecret : String
  pub url : String

pub record CachedToken : Type 0 where
  pub token : String
  pub expires_at : ℕ

pub data HttpMethod : Type 0 where
  fetch post : HttpMethod

-- A request to the system, or one for a token to the service that issues them.
pub data AdtRequest : Type 0 where
  request :
      (method : HttpMethod) (path : String) (csrf authorization content_type : Option String)
      (body : String)
      → AdtRequest
  token_request : (url clientid clientsecret : String) → AdtRequest

-- A status, the header `x-csrf-token` if it is a text, and the body if it can be read.
pub record HttpResponse : Type 0 where
  pub status : ℕ
  pub csrf : Option String
  pub body : AdtResult String

-- The answer to a request for a token, as far as it is JSON of that form.
pub record TokenResponse : Type 0 where
  pub access_token : String
  pub expires_in : Option ℕ

pub record Outside : Type 0 where
  pub send : List AdtRequest → AdtRequest → AdtResult HttpResponse
  pub read_service_key : String → AdtResult ServiceKey
  pub read_token : String → Option TokenResponse
  pub base64 : String → String
  pub url_encode : String → String
  pub is_header_value : String → Bool
  pub to_lowercase : String → String
  pub to_uppercase : String → String
  pub show : ℕ → String

-- `HttpAdtClient`, with the clock, and with the requests that were sent.
pub record Session : Type 0 where
  pub csrf : Option String
  pub token : Option CachedToken
  pub now : ℕ
  pub sent : List AdtRequest

abbrev pub Op {ℓ} : Type ℓ → Type ℓ
Op A = Session → AdtResult A × Session

abbrev pub continue {ℓ κ} :
    {A : Type ℓ} {B : Type κ} → (A → Op B) → AdtResult A × Session → AdtResult B × Session
continue f (ok a, s) = f a s
continue f (err e, s) = (err e, s)

infixl 5 ◌>>=◌
abbrev pub ◌>>=◌ {ℓ κ} : {A : Type ℓ} {B : Type κ} → Op A → (A → Op B) → Op B
(m >>= f) s = continue f (m s)

abbrev pub done {ℓ} : {A : Type ℓ} → AdtResult A → Op A
done r s = (r, s)

abbrev is_empty_text : String → Bool
is_empty_text String.[] = true
is_empty_text (String.◌∷◌ c s) = false

-- `s.trim_end_matches('/')`
unfoldable pub without_slashes : String → String
without_slashes String.[] = String.[]
without_slashes (String.◌∷◌ c s) =
    let rest = without_slashes s in
    if is_empty_text rest && code c == b'/' then String.[] else String.◌∷◌ c rest

-- `saturating_sub(60).max(1)`
abbrev or_hour : Option ℕ → ℕ
or_hour none = 3600
or_hour (some n) = n

unfoldable pub time_to_live : Option ℕ → ℕ
time_to_live expires_in = max (or_hour expires_in - 60) 1

abbrev pub is_success : ℕ → Bool
is_success status = leb 200 status && ltb status 300

module _ (out : Outside) (destination : AdtDestination) where
  unfoldable pub send_http : AdtRequest → Op HttpResponse
  send_http r s = (out.send s.sent r, record s { sent = s.sent ++ (r ∷ []) })

  abbrev pub store_token : Option TokenResponse → Op String
  store_token none s = (err (AdtError.internal "malformed XSUAA token response"), s)
  store_token (some tok) s = (
    ok tok.access_token,
    record s {
      token =
          some
            (record { token = tok.access_token; expires_at = s.now + time_to_live tok.expires_in });
    },
  )

  abbrev pub read_token_body : ℕ → AdtResult String → Op String
  read_token_body status (err e) s = (err e, s)
  read_token_body status (ok body) s =
      let kept = store_token (out.read_token body) s in
      if status == 401 || status == 403
      then (
        err (
            AdtError.forbidden (
              str_append "XSUAA rejected the service key (HTTP "
                (str_append (out.show status) ")"))),
        s,
      )
      else if not (is_success status)
      then (
        err (AdtError.internal (str_append "XSUAA token endpoint -> HTTP " (out.show status))),
        s,
      )
      else kept

  abbrev pub fetch_token : String → Op String
  fetch_token path = done (out.read_service_key path) >>= (λ key.
      send_http (
        AdtRequest.token_request (str_append (without_slashes key.url) "/oauth/token") key.clientid
          key.clientsecret)
      >>= (λ resp. read_token_body resp.status resp.body))

  abbrev pub cached_or_fetch : String → Option CachedToken → Op String
  cached_or_fetch path none s = fetch_token path s
  cached_or_fetch path (some t) s =
      let fetched = fetch_token path s in
      if ltb s.now t.expires_at then (ok t.token, s) else fetched

  unfoldable pub service_key_token : String → Op String
  unfolding send_http time_to_live without_slashes
  service_key_token path s = cached_or_fetch path s.token s

  -- `HeaderValue::from_str`
  unfoldable pub header_value : String → AdtResult String
  header_value v =
      if out.is_header_value v then ok v else err (AdtError.internal "invalid header value")

  abbrev pub some_header : String → Op (Option String)
  some_header v = done (header_value v) >>= (λ h. done (ok (some h)))

  unfoldable pub auth_header : AdtAuth → Op (Option String)
  unfolding service_key_token header_value
  auth_header (AdtAuth.basic user password) =
      some_header (str_append "Basic " (out.base64 (str_append user (str_append ":" password))))
  auth_header (AdtAuth.bearer token) = some_header (str_append "Bearer " token)
  auth_header (AdtAuth.service_key path) =
      service_key_token path >>= (λ token. some_header (str_append "Bearer " token))
  auth_header (AdtAuth.certificate cert_path key_path) = done (ok none)
  auth_header AdtAuth.mock = done (ok none)

  unfoldable pub resolve_auth_header : Op (Option String)
  unfolding auth_header
  resolve_auth_header = auth_header destination.auth

  -- The authorization; client and language only have to be good header values.
  unfoldable pub base_headers : Op (Option String)
  unfolding resolve_auth_header header_value
  base_headers =
      done (header_value destination.client)
      >>= (λ _. done (header_value destination.language) >>= (λ _. resolve_auth_header))

  abbrev cache_csrf : Option String → Session → Session
  cache_csrf none s = s
  cache_csrf (some t) s = record s { csrf = some t }

  abbrev pub text_by_status : String → HttpResponse → AdtResult String
  text_by_status path resp =
      let status = resp.status in
      let where_it_is = str_append path (str_append " -> " (out.show status)) in
      if status == 401 || status == 403
      then err (AdtError.forbidden where_it_is)
      else if status == 404
      then err (AdtError.not_found "Object" path)
      else if not (is_success status)
      then err (AdtError.internal where_it_is)
      else resp.body

  unfoldable pub fetch_text : String → Op String
  unfolding base_headers send_http
  fetch_text path = base_headers >>= (λ auth.
      send_http (AdtRequest.request HttpMethod.fetch path none auth none "")
      >>= (λ resp s. (text_by_status path resp, cache_csrf resp.csrf s)))

  abbrev pub refreshed : Option String → Op (Unit {0})
  refreshed none s = (err AdtError.csrf_refresh, s)
  refreshed (some t) s = (ok tt, record s { csrf = some t })

  unfoldable pub refresh_csrf : Op (Unit {0})
  unfolding base_headers send_http
  refresh_csrf = base_headers >>= (λ auth.
      send_http
        (AdtRequest.request HttpMethod.fetch "/sap/bc/adt/discovery" (some "Fetch") auth none "")
      >>= (λ resp. refreshed resp.csrf))
