-- ===== src/Rfc/Retry.antt =====
-- crates/sap-automate-rfc/src/retry.rs, first half: retry with exponential backoff. Durations are
-- nanoseconds. The operation is its sequence of outcomes, one for each call.
pub mod Attempts
use mathlib.Core.Option
use sap_automate.Base.{
  ℕ, zero, suc, ◌+◌, ◌*◌, ◌/◌, min, List, [], ◌∷◌, Option, none, some, not, leb, if◌then◌else◌,
}
use sap_automate.Rfc.Error.{RfcResult, ok, err, is_transient}

-- `F` is the type `f32` of the multiplier.
pub record BackoffPolicy (F : Type 0) : Type 0 where
  pub max_attempts : ℕ
  pub initial : ℕ
  pub multiplier : F
  pub max_delay : ℕ

-- What one run does: its result, how often it called the operation, and how long it slept between.
pub record Run {ℓ} (A : Type ℓ) : Type ℓ where
  pub result : RfcResult A
  pub calls : ℕ
  pub sleeps : List ℕ

abbrev pub nanos_per_milli : ℕ
nanos_per_milli = 1_000_000

module _ {F : Type 0} (scale : ℕ → F → ℕ) where
  -- `scale ms m` is `(ms as f32 * m) as u64`.
  unfoldable pub next_delay : BackoffPolicy F → ℕ → ℕ
  next_delay policy delay =
      let next = scale (delay / nanos_per_milli) policy.multiplier in
      min (next * nanos_per_milli) policy.max_delay

  abbrev pub slept {ℓ} : {A : Type ℓ} → ℕ → Run A → Run A
  slept delay r = record r { sleeps = delay ∷ r.sleeps }

  -- The loop; `none` means that the fuel ran out.
  unfoldable pub retry_loop {ℓ} :
      {A : Type ℓ} → BackoffPolicy F → (ℕ → RfcResult A) → ℕ → ℕ → ℕ → Option (Run A)
  retry_loop policy f zero attempt delay = none
  retry_loop policy f (suc fuel) attempt delay =
      let rest =
        Option.map (slept delay)
          (retry_loop policy f fuel (attempt + 1) (next_delay policy delay)) in
      let stop = some (record { result = f (attempt + 1); calls = attempt + 1; sleeps = [] }) in
      elim (f (attempt + 1)) [
        | ok v ↦ stop
        | err e ↦
            if not (is_transient e)
            then stop
            else if leb policy.max_attempts (attempt + 1)
            then stop
            else rest
      ]

  unfoldable pub retry_with_backoff {ℓ} :
      {A : Type ℓ} → BackoffPolicy F → (ℕ → RfcResult A) → Option (Run A)
  retry_with_backoff policy f = retry_loop policy f (suc policy.max_attempts) 0 policy.initial
