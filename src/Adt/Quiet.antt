-- ===== src/Adt/Quiet.antt =====
-- crates/sap-automate-adt/src/http.rs: what the headers and the tokens of a request send on their own.
use mathlib.Core.List.{append_assoc, append-nil}
use sap_automate.Base.{
  ℕ, String, ◌≡◌, refl, sym, ap, ◌∙◌, inl, inr, ◌||◌, Option, none, some, List, [], ◌∷◌, ◌++◌, ltb,
  ◌==◌, Bool-cases, All, All-append, nat_key, string_key, pair_key, text_key,
}
use Prim.Native.String.{◌++◌ as str_append}
use sap_automate.Adt.Error.{AdtResult, ok, err}
use sap_automate.Adt.Destination.{AdtAuth, AdtDestination}
use sap_automate.Adt.Session.{
  ServiceKey, without_slashes, AdtRequest, HttpResponse, Outside, Session, CachedToken,
  TokenResponse, Op, ◌>>=◌, continue, done, is_success, send_http, store_token, read_token_body,
  fetch_token, cached_or_fetch, service_key_token, header_value, some_header, auth_header,
  resolve_auth_header, base_headers,
}

-- From one state to another only such requests are sent.
abbrev pub Sends : (AdtRequest → Type 0) → Session → Session → Type 0
Sends P s t = (new : List AdtRequest) × (t.sent ≡ s.sent ++ new) × All P new

-- Only such requests are sent, and the CSRF token stays.
abbrev pub IsQuiet : (AdtRequest → Type 0) → Session → Session → Type 0
IsQuiet P s t = (t.csrf ≡ s.csrf) × Sends P s t

abbrev pub Quiet {ℓ} : {A : Type ℓ} → (AdtRequest → Type 0) → Op A → Type 0
Quiet P m = (s : Session) → IsQuiet P s (m s).1

pub Sends-trans :
    (P : AdtRequest → Type 0) (s t u : Session) → Sends P s t → Sends P t u → Sends P s u
Sends-trans P s t u (a, e, p) (b, f, q) =
    (a ++ b, f ∙ ap (λ xs. xs ++ b) e ∙ append_assoc s.sent a b, All-append P a b p q)

IsQuiet-trans :
    (P : AdtRequest → Type 0) (s t u : Session) → IsQuiet P s t → IsQuiet P t u → IsQuiet P s u
IsQuiet-trans P s t u (e, a) (f, b) = (f ∙ e, Sends-trans P s t u a b)

module _ (P : AdtRequest → Type 0) where
  pub stays : (s : Session) → IsQuiet P s s
  stays s = (refl, ([], sym (append-nil s.sent), tt))

  pub Quiet-done {ℓ} : {A : Type ℓ} (r : AdtResult A) → Quiet P (done r)
  Quiet-done r s = stays s

  Quiet-continue {ℓ κ} :
      {A : Type ℓ} {B : Type κ} (s : Session) (f : A → Op B) (r : AdtResult A × Session)
      → IsQuiet P s r.1
      → ((a : A) → Quiet P (f a))
      → IsQuiet P s (continue f r).1
  Quiet-continue s f (ok a, t) h q = IsQuiet-trans P s t (f a t).1 h (q a t)
  Quiet-continue s f (err e, t) h q = h

  pub Quiet-then {ℓ κ} :
      {A : Type ℓ} {B : Type κ} (m : Op A) (f : A → Op B)
      → Quiet P m
      → ((a : A) → Quiet P (f a))
      → Quiet P (m >>= f)
  Quiet-then m f q next s = Quiet-continue s f (m s) (q s) next

  module _ (out : Outside) (d : AdtDestination) where
    pub Quiet-send : (r : AdtRequest) → P r → Quiet P (send_http out d r)
    unfolding send_http
    Quiet-send r p s = (refl, (r ∷ [], refl, (p, tt)))

    Quiet-store : (t : Option TokenResponse) → Quiet P (store_token out d t)
    Quiet-store none s = stays s
    Quiet-store (some t) s = stays s

    Quiet-read :
        (status : ℕ) (body : AdtResult String) → Quiet P (read_token_body out d status body)
    Quiet-read status (err e) s = stays s
    Quiet-read status (ok body) s = elim (Bool-cases (status == 401 || status == 403)) [
      | inl e ↦ rw e (stays s)
      | inr e ↦ elim (Bool-cases (is_success status)) [
        | inl f ↦ rw (e, f) (Quiet-store (out.read_token body) s)
        | inr f ↦ rw (e, f) (stays s)
      ]
    ]

    module _ (asks : (url id secret : String) → P (AdtRequest.token_request url id secret)) where
      Quiet-fetch_token : (path : String) → Quiet P (fetch_token out d path)
      Quiet-fetch_token path =
          let ask : ServiceKey → AdtRequest = λ key.
            AdtRequest.token_request (str_append (without_slashes key.url) "/oauth/token")
              key.clientid key.clientsecret in
          let read : HttpResponse → Op String =
            λ resp. read_token_body out d resp.status resp.body in
          Quiet-then (done (out.read_service_key path)) (λ key. send_http out d (ask key) >>= read)
            (Quiet-done (out.read_service_key path))
            (λ key.
              Quiet-then (send_http out d (ask key)) read
                (Quiet-send (ask key) (
                  asks (str_append (without_slashes key.url) "/oauth/token") key.clientid
                    key.clientsecret))
                (λ resp. Quiet-read resp.status resp.body))

      Quiet-cached :
          (path : String) (t : Option CachedToken) → Quiet P (cached_or_fetch out d path t)
      Quiet-cached path none s = Quiet-fetch_token path s
      Quiet-cached path (some t) s = elim (Bool-cases (ltb s.now t.expires_at)) [
        | inl e ↦ rw e (stays s)
        | inr e ↦ rw e (Quiet-fetch_token path s)
      ]

      Quiet-some_header : (v : String) → Quiet P (some_header out d v)
      Quiet-some_header v =
          Quiet-then (done (header_value out d v)) (λ h. done (ok (some h)))
            (Quiet-done (header_value out d v)) (λ h. Quiet-done (ok (some h)))

      Quiet-auth : (a : AdtAuth) → Quiet P (auth_header out d a)
      unfolding auth_header service_key_token
      Quiet-auth (AdtAuth.basic user password) s =
          Quiet-some_header
            (str_append "Basic " (out.base64 (str_append user (str_append ":" password)))) s
      Quiet-auth (AdtAuth.bearer token) s = Quiet-some_header (str_append "Bearer " token) s
      Quiet-auth (AdtAuth.service_key path) s =
          Quiet-then (service_key_token out d path)
            (λ token. some_header out d (str_append "Bearer " token))
            (λ t. Quiet-cached path t.token t)
            (λ token. Quiet-some_header (str_append "Bearer " token)) s
      Quiet-auth (AdtAuth.certificate c k) s = stays s
      Quiet-auth AdtAuth.mock s = stays s

      pub Quiet-base_headers : Quiet P (base_headers out d)
      unfolding base_headers resolve_auth_header
      Quiet-base_headers =
          Quiet-then (done (header_value out d d.client))
            (λ _. done (header_value out d d.language) >>= (λ _. auth_header out d d.auth))
            (Quiet-done (header_value out d d.client))
            (λ _.
              Quiet-then (done (header_value out d d.language)) (λ _. auth_header out d d.auth)
                (Quiet-done (header_value out d d.language)) (λ _. Quiet-auth d.auth))
