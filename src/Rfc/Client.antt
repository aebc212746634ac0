-- ===== src/Rfc/Client.antt =====
-- crates/sap-automate-rfc/src/client.rs: the `SapClient` trait, as far as its callers in this
-- library use it. A backend is a parameter; its state stands for the SAP system behind it.
use sap_automate.Base.{ℕ, String, Bool, Option, List, nat_key, string_key, pair_key}
use sap_automate.Json.{Value, Fields}
use sap_automate.Rfc.Error.{RfcResult}

pub record RfcCallRequest : Type 0 where
  pub function : String
  pub parameters : Value
  pub timeout_ms : ℕ
  pub require_read_only_safe : Bool

pub data RfcParamDirection : Type 0 where
  import export changing tables : RfcParamDirection

pub record RfcParameter : Type 0 where
  pub name : String
  pub direction : RfcParamDirection
  pub type_token : String
  pub optional : Bool
  pub description : Option String
  pub default_value : Option String

-- `S_RfcAuth`
pub record SRfcAuth : Type 0 where
  pub object : String
  pub rfc_type : String
  pub rfc_name : String
  pub actvt : String

pub record RfcFunctionMeta : Type 0 where
  pub function : String
  pub description : String
  pub function_group : String
  pub package_name : Option String
  pub parameters : List RfcParameter
  pub deprecated : Bool
  pub read_only : Bool
  pub commit_required : Bool
  pub authorization : List SRfcAuth
  pub s4hana_notes : Option String

pub record BulkMetadata : Type 0 where
  pub language : String
  pub functions : List RfcFunctionMeta
  pub missing : List String

pub record SystemInfo : Type 0 where
  pub sid : String
  pub client : String
  pub release : String
  pub system_role : String
  pub host : String
  pub instance_number : String
  pub identity : Value

pub record TableField : Type 0 where
  pub name : String
  pub data_element : String
  pub type_token : String
  pub length : ℕ
  pub description : Option String
  pub key : Bool

pub record TableStructure : Type 0 where
  pub table : String
  pub description : String
  pub fields : List TableField
  pub key_fields : List String
  pub authorization_group : String
  pub s4hana_storage : Option String

pub record ReadTableRequest : Type 0 where
  pub table : String
  pub fields : List String
  pub where_conditions : List String
  pub max_rows : ℕ

abbrev pub max_rows_hard_cap : ℕ
max_rows_hard_cap = 1000

pub record TableRow : Type 0 where
  pub values : Fields

pub record SapClient : Type 1 where
  pub State : Type 0
  pub call_rfc : RfcCallRequest → Bool → State → RfcResult Value × State
