-- ===== src/Rfc/Pool.antt =====
-- crates/sap-automate-rfc/src/pool.rs: the pool as its capacity and the number of permits that are
-- free. Acquiring a permit and giving it back are calls of tokio's semaphore and are not modelled.
use sap_automate.Base.{ℕ, max, nat_key, string_key, pair_key}

pub record ConnectionPool : Type 0 where
  pub cap : ℕ
  pub available : ℕ

unfoldable pub new : ℕ → ConnectionPool
new cap = record { cap = max cap 1; available = max cap 1 }
