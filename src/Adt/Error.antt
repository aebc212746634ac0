-- ===== src/Adt/Error.antt =====
-- crates/sap-automate-adt/src/error.rs: the error taxonomy and its classification.
use sap_automate.Base.{ℕ, String, Bool, true, ◌&&◌, ◌≡◌, refl, ◌↔◌, arith}
use sap_automate.Base.Int.{ℤ, negsuc, leb_ℤ}

pub data AdtErrorCode : Type 0 where
  timeout destination_down csrf_refresh rate_limited : AdtErrorCode
  auth_failed not_found forbidden invalid_object_name inactive_object : AdtErrorCode
  data_preview_blocked permission_denied locked internal : AdtErrorCode

-- The discriminants; `negsuc n` is -(n + 1).
unfoldable pub discriminant : AdtErrorCode → ℤ
discriminant AdtErrorCode.timeout = negsuc 32159
discriminant AdtErrorCode.destination_down = negsuc 32160
discriminant AdtErrorCode.csrf_refresh = negsuc 32161
discriminant AdtErrorCode.rate_limited = negsuc 32162
discriminant AdtErrorCode.auth_failed = negsuc 32259
discriminant AdtErrorCode.not_found = negsuc 32260
discriminant AdtErrorCode.forbidden = negsuc 32261
discriminant AdtErrorCode.invalid_object_name = negsuc 32262
discriminant AdtErrorCode.inactive_object = negsuc 32263
discriminant AdtErrorCode.data_preview_blocked = negsuc 32264
discriminant AdtErrorCode.permission_denied = negsuc 32265
discriminant AdtErrorCode.locked = negsuc 32266
discriminant AdtErrorCode.internal = negsuc 32297

-- `(-32199..=-32100).contains(&v)`
unfoldable pub adt_code_is_transient : AdtErrorCode → Bool
unfolding discriminant
adt_code_is_transient c = let v = discriminant c in leb_ℤ (negsuc 32198) v && leb_ℤ v (negsuc 32099)

pub data AdtError : Type 0 where
  timeout : (timeout_ms : ℕ) → AdtError
  destination_down : (destination reason : String) → AdtError
  csrf_refresh : AdtError
  rate_limited : (retry_after_ms : ℕ) → AdtError
  auth_failed : String → AdtError
  not_found : (kind name : String) → AdtError
  forbidden : String → AdtError
  invalid_object_name : String → AdtError
  inactive_object : String → AdtError
  data_preview_blocked : String → AdtError
  permission_denied : String → AdtError
  locked : String → AdtError
  internal : String → AdtError

unfoldable pub code_of : AdtError → AdtErrorCode
code_of (AdtError.timeout _) = AdtErrorCode.timeout
code_of (AdtError.destination_down _ _) = AdtErrorCode.destination_down
code_of AdtError.csrf_refresh = AdtErrorCode.csrf_refresh
code_of (AdtError.rate_limited _) = AdtErrorCode.rate_limited
code_of (AdtError.auth_failed _) = AdtErrorCode.auth_failed
code_of (AdtError.not_found _ _) = AdtErrorCode.not_found
code_of (AdtError.forbidden _) = AdtErrorCode.forbidden
code_of (AdtError.invalid_object_name _) = AdtErrorCode.invalid_object_name
code_of (AdtError.inactive_object _) = AdtErrorCode.inactive_object
code_of (AdtError.data_preview_blocked _) = AdtErrorCode.data_preview_blocked
code_of (AdtError.permission_denied _) = AdtErrorCode.permission_denied
code_of (AdtError.locked _) = AdtErrorCode.locked
code_of (AdtError.internal _) = AdtErrorCode.internal

unfoldable pub adt_is_transient : AdtError → Bool
unfolding code_of adt_code_is_transient
adt_is_transient e = adt_code_is_transient (code_of e)

-- `AdtResult<T>`
pub data AdtResult {ℓ} (A : Type ℓ) : Type ℓ where
  ok : A → AdtResult A
  err : AdtError → AdtResult A

abbrev pub Passes : AdtError → Type 0
Passes (AdtError.timeout _) = Unit
Passes (AdtError.destination_down _ _) = Unit
Passes AdtError.csrf_refresh = Unit
Passes (AdtError.rate_limited _) = Unit
Passes _ = ⊥

-- Exactly timeouts, unreachable destinations, missing tokens and rate limits are transient.
pub adt_is_transient_iff : (e : AdtError) → (adt_is_transient e ≡ true) ↔ Passes e
unfolding adt_is_transient
adt_is_transient_iff (AdtError.timeout _) = (λ _. tt, λ _. refl)
adt_is_transient_iff (AdtError.destination_down _ _) = (λ _. tt, λ _. refl)
adt_is_transient_iff AdtError.csrf_refresh = (λ _. tt, λ _. refl)
adt_is_transient_iff (AdtError.rate_limited _) = (λ _. tt, λ _. refl)
adt_is_transient_iff _ = ground arith
