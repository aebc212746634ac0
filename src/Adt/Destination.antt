-- ===== src/Adt/Destination.antt =====
-- crates/sap-automate-adt/src/destination.rs: a destination, without the loading of files.
use sap_automate.Base.{String, ◌≡◌, refl, Bool, true, false, arith, nat_key, string_key, pair_key}
use sap_automate.Json.{Value, Fields}

pub data AdtAuth : Type 0 where
  basic : (user password : String) → AdtAuth
  bearer : (token : String) → AdtAuth
  service_key : (path : String) → AdtAuth
  certificate : (cert_path key_path : String) → AdtAuth
  mock : AdtAuth

pub record AdtDestination : Type 0 where
  pub name : String
  pub base_url : String
  pub client : String
  pub language : String
  pub auth : AdtAuth

unfoldable pub auth_type_label : AdtAuth → String
auth_type_label (AdtAuth.basic _ _) = "basic"
auth_type_label (AdtAuth.bearer _) = "bearer"
auth_type_label (AdtAuth.service_key _) = "service_key"
auth_type_label (AdtAuth.certificate _ _) = "certificate"
auth_type_label AdtAuth.mock = "mock"

unfoldable pub mock_destination : String → AdtDestination
mock_destination name = record {
  name = name;
  base_url = "https://mock.sap.example";
  client = "100";
  language = "EN";
  auth = AdtAuth.mock;
}

-- `AdtDestination::redacted`, its keys in order.
unfoldable pub redacted_destination : AdtDestination → Value
unfolding auth_type_label
redacted_destination d = Value.object (
    Fields.field "auth_type" (Value.string (auth_type_label d.auth)) (
      Fields.field "base_url" (Value.string d.base_url) (
        Fields.field "client" (Value.string d.client) (
          Fields.field "language" (Value.string d.language)
            (Fields.field "name" (Value.string d.name) Fields.end)))))

-- Destinations that differ only in the secrets of one kind of credentials.
abbrev pub same_kind : AdtAuth → AdtAuth → Bool
same_kind (AdtAuth.basic _ _) (AdtAuth.basic _ _) = true
same_kind (AdtAuth.bearer _) (AdtAuth.bearer _) = true
same_kind (AdtAuth.service_key _) (AdtAuth.service_key _) = true
same_kind (AdtAuth.certificate _ _) (AdtAuth.certificate _ _) = true
same_kind AdtAuth.mock AdtAuth.mock = true
same_kind _ _ = false

auth_type_label-same_kind :
    (a b : AdtAuth) → same_kind a b ≡ true → auth_type_label b ≡ auth_type_label a
unfolding auth_type_label
auth_type_label-same_kind (AdtAuth.basic _ _) (AdtAuth.basic _ _) h = refl
auth_type_label-same_kind (AdtAuth.basic _ _) (AdtAuth.bearer _) h = ground arith
auth_type_label-same_kind (AdtAuth.basic _ _) (AdtAuth.service_key _) h = ground arith
auth_type_label-same_kind (AdtAuth.basic _ _) (AdtAuth.certificate _ _) h = ground arith
auth_type_label-same_kind (AdtAuth.basic _ _) AdtAuth.mock h = ground arith
auth_type_label-same_kind (AdtAuth.bearer _) (AdtAuth.basic _ _) h = ground arith
auth_type_label-same_kind (AdtAuth.bearer _) (AdtAuth.bearer _) h = refl
auth_type_label-same_kind (AdtAuth.bearer _) (AdtAuth.service_key _) h = ground arith
auth_type_label-same_kind (AdtAuth.bearer _) (AdtAuth.certificate _ _) h = ground arith
auth_type_label-same_kind (AdtAuth.bearer _) AdtAuth.mock h = ground arith
auth_type_label-same_kind (AdtAuth.service_key _) (AdtAuth.basic _ _) h = ground arith
auth_type_label-same_kind (AdtAuth.service_key _) (AdtAuth.bearer _) h = ground arith
auth_type_label-same_kind (AdtAuth.service_key _) (AdtAuth.service_key _) h = refl
auth_type_label-same_kind (AdtAuth.service_key _) (AdtAuth.certificate _ _) h = ground arith
auth_type_label-same_kind (AdtAuth.service_key _) AdtAuth.mock h = ground arith
auth_type_label-same_kind (AdtAuth.certificate _ _) (AdtAuth.basic _ _) h = ground arith
auth_type_label-same_kind (AdtAuth.certificate _ _) (AdtAuth.bearer _) h = ground arith
auth_type_label-same_kind (AdtAuth.certificate _ _) (AdtAuth.service_key _) h = ground arith
auth_type_label-same_kind (AdtAuth.certificate _ _) (AdtAuth.certificate _ _) h = refl
auth_type_label-same_kind (AdtAuth.certificate _ _) AdtAuth.mock h = ground arith
auth_type_label-same_kind AdtAuth.mock (AdtAuth.basic _ _) h = ground arith
auth_type_label-same_kind AdtAuth.mock (AdtAuth.bearer _) h = ground arith
auth_type_label-same_kind AdtAuth.mock (AdtAuth.service_key _) h = ground arith
auth_type_label-same_kind AdtAuth.mock (AdtAuth.certificate _ _) h = ground arith
auth_type_label-same_kind AdtAuth.mock AdtAuth.mock h = refl

-- The redacted form depends on no user, password, token or path.
pub redacted_destination-secrets :
    (d : AdtDestination) (a : AdtAuth)
    → same_kind d.auth a ≡ true
    → redacted_destination (record d { auth = a }) ≡ redacted_destination d
unfolding redacted_destination
redacted_destination-secrets d a h = rw (auth_type_label-same_kind d.auth a h) refl
