-- ===== src/Rfc/Circuit.antt =====
-- crates/sap-automate-rfc/src/retry.rs, second half: the circuit breaker. Instants and durations
-- are nanoseconds; each reading of the clock is an argument. A call is two critical sections,
-- `admit` before the operation runs and `settle` after it, between which other calls may run.
pub mod Invariant
pub mod Behaviour
use sap_automate.Base.{
  ℕ, ◌+◌, ◌-◌, ◌/◌, ◌%◌, ◌^◌, Option, none, some, List, [], ◌∷◌, leb, if◌then◌else◌,
}
use sap_automate.Rfc.Error.{RfcError, RfcResult, ok, err, is_transient}

pub data CircuitState : Type 0 where
  closed opened half_open : CircuitState

pub record CircuitInner : Type 0 where
  pub state : CircuitState
  pub failures : ℕ
  pub opened_at : Option ℕ

pub record CircuitBreaker : Type 0 where
  pub failure_threshold : ℕ
  pub open_duration : ℕ
  pub inner : CircuitInner
  pub open inner use *

unfoldable pub new : ℕ → ℕ → CircuitBreaker
new failure_threshold open_duration = record {
  failure_threshold = failure_threshold;
  open_duration = open_duration;
  inner = record { state = closed; failures = 0; opened_at = none };
}

abbrev pub with_state : CircuitBreaker → CircuitState → CircuitBreaker
with_state cb s = record cb { inner = record cb.inner { state = s } }

-- `t.elapsed()` at `now`
abbrev pub elapsed : ℕ → ℕ → ℕ
elapsed now t = now - t

tick_open : CircuitBreaker → ℕ → Option ℕ → CircuitBreaker
tick_open cb now none = cb
tick_open cb now (some t) =
    if leb cb.open_duration (elapsed now t) then with_state cb half_open else cb

tick_by : CircuitBreaker → ℕ → CircuitState → CircuitBreaker
tick_by cb now opened = tick_open cb now cb.opened_at
tick_by cb now _ = cb

unfoldable pub tick : CircuitBreaker → ℕ → CircuitBreaker
unfolding tick_by tick_open
tick cb now = tick_by cb now cb.state

-- `CircuitBreaker::state`
unfoldable pub current_state : CircuitBreaker → ℕ → CircuitState
unfolding tick
current_state cb now = (tick cb now).state

remaining : CircuitBreaker → ℕ → Option ℕ → ℕ
remaining cb now (some t) = cb.open_duration - elapsed now t
remaining cb now none = cb.open_duration

refusal : CircuitBreaker → ℕ → CircuitState → Option RfcError
refusal cb now opened =
    some (RfcError.circuit_open (remaining cb now cb.opened_at / 1_000_000 % 2 ^ 64))
refusal cb now _ = none

-- The first section of `call`: the error that refuses the call, if any. The clock is read once in
-- `tick` and once more for the time that remains.
unfoldable pub admit : CircuitBreaker → ℕ → ℕ → Option RfcError × CircuitBreaker
unfolding tick refusal remaining
admit cb now later = let cb' = tick cb now in (refusal cb' later cb'.state, cb')

-- `g.failures += 1` on a `u32`
abbrev pub u32_mod : ℕ
u32_mod = 2 ^ 32

unfoldable pub record_failure : CircuitBreaker → ℕ → CircuitBreaker
record_failure cb now =
    let n = (cb.failures + 1) % u32_mod in
    if leb cb.failure_threshold n
    then record cb { inner = record { state = opened; failures = n; opened_at = some now } }
    else record cb { inner = record cb.inner { failures = n } }

-- The second section of `call`: what the outcome does to the breaker.
unfoldable pub settle {ℓ} : {A : Type ℓ} → CircuitBreaker → RfcResult A → ℕ → CircuitBreaker
unfolding record_failure
settle cb (ok v) now = record cb {
  inner = record { state = closed; failures = 0; opened_at = none };
}
settle cb (err e) now = if is_transient e then record_failure cb now else cb

call_by {ℓ} :
    {A : Type ℓ} → Option RfcError → CircuitBreaker → RfcResult A → ℕ → RfcResult A × CircuitBreaker
call_by (some e) cb outcome done = (err e, cb)
call_by none cb outcome done = (outcome, settle cb outcome done)

-- A whole call with no other call in between; the operation runs only if the call is admitted.
unfoldable pub call {ℓ} :
    {A : Type ℓ}
    → CircuitBreaker
    → (now later done : ℕ) → RfcResult A
    → RfcResult A × CircuitBreaker
unfolding call_by admit settle
call cb now later done outcome =
    let (refused, cb') = admit cb now later in call_by refused cb' outcome done

-- Calls of many tasks, interleaved.
pub data Event (A : Type 0) : Type 0 where
  begins : (now later : ℕ) → Event A
  ends : RfcResult A → (now : ℕ) → Event A

pub record Traffic : Type 0 where
  pub breaker : CircuitBreaker
  pub in_flight : ℕ

begin_by : Option RfcError × CircuitBreaker → ℕ → Traffic
begin_by (some e, cb) n = record { breaker = cb; in_flight = n }
begin_by (none, cb) n = record { breaker = cb; in_flight = n + 1 }

-- An outcome with no call in flight is no event of the program, and changes nothing.
unfoldable pub happen : {A : Type 0} → Traffic → Event A → Traffic
unfolding begin_by admit settle
happen t (begins now later) = begin_by (admit t.breaker now later) t.in_flight
happen t (ends outcome now) =
    if leb 1 t.in_flight
    then record { breaker = settle t.breaker outcome now; in_flight = t.in_flight - 1 }
    else t

unfoldable pub happen_all : {A : Type 0} → Traffic → List (Event A) → Traffic
happen_all t [] = t
happen_all t (e ∷ es) = happen_all (happen t e) es
