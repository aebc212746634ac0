-- ===== src/Mcp/JsonRpc.antt =====
-- crates/mcp-core/src/jsonrpc.rs: the messages of JSON-RPC 2.0. Reading a message out of a JSON value
-- is derived code: the three readers are parameters, and the choice between them is modelled.
use sap_automate.Base.{
  String, ◌⊎◌, inl, inr, Bool, false, ◌&&◌, Option, none, some, if◌then◌else◌, nat_key, string_key,
  pair_key, Text,
}
use sap_automate.Json.{Value, object, has_key}
use sap_automate.Base.Int.{ℤ}

abbrev pub jsonrpc_version : String
jsonrpc_version = "2.0"

-- `Id`
pub data RequestId : Type 0 where
  number : ℤ → RequestId
  string : String → RequestId
  null : RequestId

pub record Request : Type 0 where
  pub jsonrpc : String
  pub id : RequestId
  pub method : String
  pub params : Option Value

pub record Notification : Type 0 where
  pub jsonrpc : String
  pub method : String
  pub params : Option Value

pub record ErrorObject : Type 0 where
  pub code : ℤ
  pub message : String
  pub data_value : Option Value

unfoldable pub error_with : ℤ → String → ErrorObject
error_with code message = record { code = code; message = message; data_value = none }

pub record Response : Type 0 where
  pub jsonrpc : String
  pub id : RequestId
  pub result : Option Value
  pub error : Option ErrorObject

unfoldable pub success : RequestId → Value → Response
success id result = record {
  jsonrpc = jsonrpc_version;
  id = id;
  result = some result;
  error = none;
}

unfoldable pub failure : RequestId → ErrorObject → Response
failure id error = record { jsonrpc = jsonrpc_version; id = id; result = none; error = some error }

pub data Message : Type 0 where
  request : Request → Message
  response : Response → Message
  notification : Notification → Message

-- A reader answers with the text of its error, or with the value.
abbrev pub Reader {ℓ} : Type ℓ → Type ℓ
Reader A = Value → String ⊎ A

abbrev pub map_read {ℓ κ} : {A : Type ℓ} {B : Type κ} → (A → B) → String ⊎ A → String ⊎ B
map_read f (inl e) = inl e
map_read f (inr a) = inr (f a)

-- `value.get(k).is_some()`, which only an object answers.
unfoldable pub has_member : String → Value → Bool
has_member k (object fs) = has_key k fs
has_member k _ = false

-- `Message::from_value`
unfoldable pub from_value : Reader Request → Reader Notification → Reader Response → Reader Message
from_value read_request read_notification read_response value =
    if has_member "method" value && has_member "id" value
    then map_read Message.request (read_request value)
    else if has_member "method" value
    then map_read Message.notification (read_notification value)
    else map_read Message.response (read_response value)

abbrev and_read {ℓ κ} : {A : Type ℓ} {B : Type κ} → String ⊎ A → (A → String ⊎ B) → String ⊎ B
and_read (inl e) f = inl e
and_read (inr a) f = f a

-- `Message::from_json`; `parse` is that of `serde_json`.
unfoldable pub from_json :
    (Text → String ⊎ Value)
    → Reader Request
    → Reader Notification
    → Reader Response
    → Text
    → String ⊎ Message
unfolding from_value
from_json parse read_request read_notification read_response bytes =
    and_read (parse bytes) (from_value read_request read_notification read_response)
