-- ===== src/Mcp/Error.antt =====
-- crates/mcp-core/src/error.rs: the error codes and the error type. The texts of JSON and I/O errors
-- are kept as they print.
use sap_automate.Base.{String, nat_key, string_key, pair_key}
use sap_automate.Base.Int.{ℤ, negsuc}

pub data ErrorCode : Type 0 where
  parse_error invalid_request method_not_found invalid_params internal_error : ErrorCode
  timeout tool_busy upstream_unavailable : ErrorCode
  access_denied schema_violation unknown_tool : ErrorCode
  partial_result stale_cache : ErrorCode

-- The discriminants; `negsuc n` is -(n + 1).
unfoldable pub as_i32 : ErrorCode → ℤ
as_i32 ErrorCode.parse_error = negsuc 32699
as_i32 ErrorCode.invalid_request = negsuc 32599
as_i32 ErrorCode.method_not_found = negsuc 32600
as_i32 ErrorCode.invalid_params = negsuc 32601
as_i32 ErrorCode.internal_error = negsuc 32602
as_i32 ErrorCode.timeout = negsuc 32099
as_i32 ErrorCode.tool_busy = negsuc 32003
as_i32 ErrorCode.upstream_unavailable = negsuc 32100
as_i32 ErrorCode.access_denied = negsuc 32199
as_i32 ErrorCode.schema_violation = negsuc 32200
as_i32 ErrorCode.unknown_tool = negsuc 32201
as_i32 ErrorCode.partial_result = negsuc 32299
as_i32 ErrorCode.stale_cache = negsuc 32300

pub data Error : Type 0 where
  json io : String → Error
  protocol : (code : ℤ) (message : String) → Error
  transport_closed : Error
  transport invalid_response : String → Error
  timeout : Error
  other : String → Error

pub data Result {ℓ} (A : Type ℓ) : Type ℓ where
  ok : A → Result A
  err : Error → Result A

-- `Error::protocol`
unfoldable pub protocol_error : ErrorCode → String → Error
unfolding as_i32
protocol_error code message = Error.protocol (as_i32 code) message

infixl 5 ◌>>=◌
abbrev pub ◌>>=◌ {ℓ κ} : {A : Type ℓ} {B : Type κ} → Result A → (A → Result B) → Result B
ok a >>= f = f a
err e >>= f = err e
