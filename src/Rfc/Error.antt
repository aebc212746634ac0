-- ===== src/Rfc/Error.antt =====
-- crates/sap-automate-rfc/src/error.rs: the error taxonomy and its classification.
use sap_automate.Base.{ℕ, String, Bool, true, ◌&&◌, ◌≡◌, refl, ◌↔◌, ◌⊎◌, inl, inr, arith}
use sap_automate.Base.Int.{ℤ, negsuc, leb_ℤ}

pub data RfcErrorCode : Type 0 where
  timeout destination_down pool_exhausted circuit_open upstream_rate_limit : RfcErrorCode
  auth_failed not_found table_buffer_overflow invalid_parameter : RfcErrorCode
  permission_denied schema_violation internal : RfcErrorCode
  partial_bulk stale_metadata : RfcErrorCode

-- The discriminants; `negsuc n` is -(n + 1).
unfoldable pub as_i32 : RfcErrorCode → ℤ
as_i32 RfcErrorCode.timeout = negsuc 32109
as_i32 RfcErrorCode.destination_down = negsuc 32119
as_i32 RfcErrorCode.pool_exhausted = negsuc 32129
as_i32 RfcErrorCode.circuit_open = negsuc 32139
as_i32 RfcErrorCode.upstream_rate_limit = negsuc 32149
as_i32 RfcErrorCode.auth_failed = negsuc 32209
as_i32 RfcErrorCode.not_found = negsuc 32219
as_i32 RfcErrorCode.table_buffer_overflow = negsuc 32229
as_i32 RfcErrorCode.invalid_parameter = negsuc 32239
as_i32 RfcErrorCode.permission_denied = negsuc 32249
as_i32 RfcErrorCode.schema_violation = negsuc 32259
as_i32 RfcErrorCode.internal = negsuc 32298
as_i32 RfcErrorCode.partial_bulk = negsuc 32309
as_i32 RfcErrorCode.stale_metadata = negsuc 32319

-- `(-32199..=-32100).contains(&v)`
unfoldable pub code_is_transient : RfcErrorCode → Bool
unfolding as_i32
code_is_transient c = let v = as_i32 c in leb_ℤ (negsuc 32198) v && leb_ℤ v (negsuc 32099)

pub data RfcError : Type 0 where
  timeout : (timeout_ms : ℕ) → RfcError
  destination_down : (destination reason : String) → RfcError
  pool_exhausted : (cap : ℕ) → RfcError
  circuit_open : (retry_after_ms : ℕ) → RfcError
  auth_failed : String → RfcError
  not_found : String → RfcError
  table_buffer_overflow : (table : String) (max_rows : ℕ) → RfcError
  invalid_parameter : (name reason : String) → RfcError
  permission_denied : String → RfcError
  schema_violation : String → RfcError
  partial_bulk : String → RfcError
  internal : String → RfcError

unfoldable pub code : RfcError → RfcErrorCode
code (RfcError.timeout _) = RfcErrorCode.timeout
code (RfcError.destination_down _ _) = RfcErrorCode.destination_down
code (RfcError.pool_exhausted _) = RfcErrorCode.pool_exhausted
code (RfcError.circuit_open _) = RfcErrorCode.circuit_open
code (RfcError.auth_failed _) = RfcErrorCode.auth_failed
code (RfcError.not_found _) = RfcErrorCode.not_found
code (RfcError.table_buffer_overflow _ _) = RfcErrorCode.table_buffer_overflow
code (RfcError.invalid_parameter _ _) = RfcErrorCode.invalid_parameter
code (RfcError.permission_denied _) = RfcErrorCode.permission_denied
code (RfcError.schema_violation _) = RfcErrorCode.schema_violation
code (RfcError.partial_bulk _) = RfcErrorCode.partial_bulk
code (RfcError.internal _) = RfcErrorCode.internal

unfoldable pub is_transient : RfcError → Bool
unfolding code code_is_transient
is_transient e = code_is_transient (code e)

-- `RfcResult<T>`
pub data RfcResult {ℓ} (A : Type ℓ) : Type ℓ where
  ok : A → RfcResult A
  err : RfcError → RfcResult A

infixl 5 ◌>>=◌
abbrev pub ◌>>=◌ {ℓ κ} : {A : Type ℓ} {B : Type κ} → RfcResult A → (A → RfcResult B) → RfcResult B
ok a >>= f = f a
err e >>= f = err e

abbrev pub IsOutage : RfcError → Type 0
IsOutage (RfcError.timeout _) = Unit
IsOutage (RfcError.destination_down _ _) = Unit
IsOutage (RfcError.pool_exhausted _) = Unit
IsOutage (RfcError.circuit_open _) = Unit
IsOutage _ = ⊥

pub RfcResult-cases {ℓ} :
    {A : Type ℓ} (r : RfcResult A) → ((v : A) × (r ≡ ok v)) ⊎ ((e : RfcError) × (r ≡ err e))
RfcResult-cases (ok v) = inl (v, refl)
RfcResult-cases (err e) = inr (e, refl)

-- Exactly timeouts, unreachable destinations, exhausted pools and open circuits are retried.
pub is_transient_iff : (e : RfcError) → (is_transient e ≡ true) ↔ IsOutage e
unfolding is_transient
is_transient_iff (RfcError.timeout _) = (λ _. tt, λ _. refl)
is_transient_iff (RfcError.destination_down _ _) = (λ _. tt, λ _. refl)
is_transient_iff (RfcError.pool_exhausted _) = (λ _. tt, λ _. refl)
is_transient_iff (RfcError.circuit_open _) = (λ _. tt, λ _. refl)
is_transient_iff _ = ground arith
