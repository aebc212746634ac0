-- ===== src/Rfc/Credentials/Tests.antt =====
-- An environment with one variable too few in front of fixed credentials.
use sap_automate.Base.{
  ◌≡◌, refl, none, some, List, [], ◌∷◌, if◌then◌else◌, str_eq, nat_key, string_key, pair_key,
}
use sap_automate.Rfc.Error.{RfcError, ok, err}
use sap_automate.Rfc.Credentials.{Env, Provider, fetch_env, fetch_static, fetch_layered, of_env}
use sap_automate.Rfc.Credentials.Chain.{FirstGives, fetch_layered-FirstGives}

abbrev no_user : Env
no_user k = if str_eq k "SAP_USER" then none else some "x"

abbrev empty : Env
empty k = none

abbrev chain : List Provider
chain = fetch_env (λ ks. "...") ∷ fetch_static (of_env no_user) ∷ []

partial_stops_the_chain :
    fetch_layered chain no_user ≡ err (RfcError.auth_failed "partial SAP env vars: missing ...")
unfolding fetch_layered fetch_env
partial_stops_the_chain = refl

empty_goes_on : fetch_layered chain empty ≡ ok (some (of_env no_user))
unfolding fetch_layered fetch_env fetch_static
empty_goes_on = refl

fetch_layered-FirstGives_example : FirstGives no_user chain (fetch_layered chain no_user)
fetch_layered-FirstGives_example = fetch_layered-FirstGives no_user chain
