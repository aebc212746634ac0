-- ===== src/Rfc/Credentials.antt =====
-- crates/sap-automate-rfc/src/credentials.rs: the providers and their chain. `vars` reads a variable,
-- `none` where it is not set or no text. `debug` prints as `{:?}` does.
pub mod Chain
mod Tests
use sap_automate.Base.{
  ℕ, zero, suc, ◌+◌, ◌-◌, ◌*◌, ◌/◌, ◌%◌, ◌^◌, ◌≤◌, ◌<◌, min, max, String, ◌≡◌, refl, sym, ap, ◌∙◌,
  subst, ◌≢◌, ◌↔◌, ◌⊎◌, inl, inr, Bool, true, false, not, ◌&&◌, ◌||◌, Option, none, some, List, [],
  ◌∷◌, ◌++◌, map, reverse, arith, dec_lt, dec_le, ℕ_discrete, ltb, leb, ◌==◌, if◌then◌else◌, ltb→lt,
  lt→ltb, leb→le, le→leb, ==_iff, tests, Bool-cases, Option-cases, List-cases, length, get_elem?,
  take, drop, any, keep, All, Has, length-append, length-take, length-reverse, All-append,
  Has-append_left, Has-append_right, Has-append, any-append, any-eq-false, take_all,
  take-append_left, take-take_le, take-take, All-take, All-weaken, All-reverse, All-keep, Eq,
  str_eq, str_eq_iff, pair_eq, pair_eq_iff, nat_key, string_key, pair_key,
}
use Prim.Native.String.{◌++◌ as str_append}
use sap_automate.Json.{Value, null, string, object, Fields, end, field}
use sap_automate.Rfc.Error.{RfcError, RfcResult, ok, err}

pub data CredentialSource : Type 0 where
  env keyring encrypted_file dot_env fixed unset : CredentialSource

pub record Credentials : Type 0 where
  pub ashost : String
  pub sysnr : String
  pub client : String
  pub user : String
  pub password : String
  pub language : String
  pub saprouter : Option String
  pub source : CredentialSource

-- `format!("{:?}", self.source)`
abbrev source_name : CredentialSource → String
source_name CredentialSource.env = "Env"
source_name CredentialSource.keyring = "Keyring"
source_name CredentialSource.encrypted_file = "EncryptedFile"
source_name CredentialSource.dot_env = "DotEnv"
source_name CredentialSource.fixed = "Static"
source_name CredentialSource.unset = "None"

abbrev nullable : Option String → Value
nullable none = null
nullable (some s) = string s

-- `Credentials::redacted`, its keys in order.
unfoldable pub redacted : Credentials → Value
redacted c = object (
    field "ashost" (string c.ashost) (
      field "client" (string c.client) (
        field "language" (string c.language) (
          field "password" (string "***") (
            field "saprouter" (nullable c.saprouter) (
              field "source" (string (source_name c.source))
                (field "sysnr" (string c.sysnr) (field "user" (string c.user) end))))))))

abbrev pub Env : Type 0
Env = String → Option String

-- `CredentialProvider::fetch`
abbrev pub Provider : Type 0
Provider = Env → RfcResult (Option Credentials)

abbrev pub needed : List String
needed = "SAP_ASHOST" ∷ "SAP_SYSNR" ∷ "SAP_CLIENT" ∷ "SAP_USER" ∷ "SAP_PASSWD" ∷ []

abbrev is_set : Env → String → Bool
is_set vars k = elim (vars k) [ none ↦ false | some v ↦ true ]

abbrev or_text : Option String → String → String
or_text none d = d
or_text (some s) d = s

-- `std::env::var(k).unwrap()`, which stands behind the test that all are set.
abbrev unwrapped : Env → String → String
unwrapped vars k = or_text (vars k) ""

unfoldable pub of_env : Env → Credentials
of_env vars = record {
  ashost = unwrapped vars "SAP_ASHOST";
  sysnr = unwrapped vars "SAP_SYSNR";
  client = unwrapped vars "SAP_CLIENT";
  user = unwrapped vars "SAP_USER";
  password = unwrapped vars "SAP_PASSWD";
  language = or_text (vars "SAP_LANG") "EN";
  saprouter = vars "SAP_SAPROUTER";
  source = CredentialSource.env;
}

-- `EnvCredentialProvider::fetch`
unfoldable pub fetch_env : (List String → String) → Provider
unfolding of_env
fetch_env debug vars =
    let present = keep (is_set vars) needed in
    if length present == 0
    then ok none
    else if ltb (length present) (length needed)
    then err (
        RfcError.auth_failed (
          str_append "partial SAP env vars: missing "
            (debug (keep (λ k. not (is_set vars k)) needed))))
    else ok (some (of_env vars))

-- `StaticCredentialProvider::fetch`
unfoldable pub fetch_static : Credentials → Provider
fetch_static c vars = ok (some c)

or_next :
    RfcResult (Option Credentials) → RfcResult (Option Credentials) → RfcResult (Option Credentials)
or_next (ok (some c)) next = ok (some c)
or_next (ok none) next = next
or_next (err e) next = err e

-- `LayeredCredentialProvider::fetch`
unfoldable pub fetch_layered : List Provider → Provider
unfolding or_next
fetch_layered [] vars = ok none
fetch_layered (p ∷ ps) vars = or_next (p vars) (fetch_layered ps vars)
