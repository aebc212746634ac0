-- ===== src/Adt/Csrf.antt =====
-- crates/sap-automate-adt/src/http.rs: which requests carry a CSRF token, and which one.
use sap_automate.Base.{
  String, ◌≡◌, ◌++◌, ◌∷◌, All, ◌≢◌, ◌⊎◌, Bool, Option, none, some, List, [], nat_key, string_key,
  pair_key, text_key,
}
use sap_automate.Adt.Error.{AdtResult, ok, err}
use sap_automate.Adt.Types.{ActivationRequest, ActivationOutcome}
use sap_automate.Adt.Destination.{AdtDestination}
use sap_automate.Adt.Session.{
  AdtRequest, HttpMethod, HttpResponse, Outside, Session, Op, continue, send_http, refreshed,
}
use sap_automate.Adt.Quiet.{Sends, Quiet}
use sap_automate.Adt.Responses.{AdtEvent}
use sap_automate.Adt.Http.{with_token, post_activation}

abbrev pub IsTokenRequest : AdtRequest → Type 0
IsTokenRequest (AdtRequest.token_request url id secret) = Unit
IsTokenRequest (AdtRequest.request method path csrf auth content body) = ⊥

-- A request for an access token, or a post that carries the CSRF token.
abbrev pub HasToken : Option String → AdtRequest → Type 0
HasToken token (AdtRequest.request HttpMethod.fetch path csrf auth content body) = ⊥
HasToken token (AdtRequest.request HttpMethod.post path csrf auth content body) =
    (csrf ≡ token) × (csrf ≢ none)
HasToken token (AdtRequest.token_request url id secret) = Unit

-- The request that asks for a CSRF token, and the token in its answer.
abbrev pub discovery : Option String → AdtRequest
discovery auth =
    AdtRequest.request HttpMethod.fetch "/sap/bc/adt/discovery" (some "Fetch") auth none ""

abbrev pub answered : AdtResult HttpResponse → Option String
answered (ok resp) = resp.csrf
answered (err e) = none

module _ (out : Outside) (d : AdtDestination) (read_events : String → List AdtEvent)
    (before : String → String → Bool) where
  abbrev post : ActivationRequest → Option String → String → Op ActivationOutcome
  post r auth csrf = post_activation out d read_events before r auth csrf

  -- Requests for access tokens and no others; or those, then the request for a CSRF token, and
  -- after it posts that carry the token of its answer, with requests for access tokens.
  abbrev pub FetchesFirst : Session → Session → Type 0
  FetchesFirst s t =
      Sends IsTokenRequest s t
      ⊎ ((a b : List AdtRequest) × (auth : Option String) × (t.sent
            ≡ s.sent ++ (a ++ discovery auth ∷ b))
          × All IsTokenRequest a
          × All (HasToken (answered (out.send (s.sent ++ a) (discovery auth)))) b)

  abbrev asked : Session → Option String → AdtResult HttpResponse → AdtResult HttpResponse × Session
  asked u auth answer = (answer, record u { sent = u.sent ++ (discovery auth ∷ []) })

  abbrev answered_with : ActivationRequest → AdtResult HttpResponse × Session → Session
  answered_with r p =
      (continue (λ _ u. with_token out d read_events before r u.csrf u)
        (continue (λ resp. refreshed out d resp.csrf) p)).1

  abbrev after_headers : ActivationRequest → AdtResult (Option String) × Session → Session
  after_headers r p = answered_with r (continue (λ auth. send_http out d (discovery auth)) p)
