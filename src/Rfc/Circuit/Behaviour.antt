-- ===== src/Rfc/Circuit/Behaviour.antt =====
-- When the breaker lets a call through, and what an outcome does to it.
use sap_automate.Base.{
  ℕ, suc, ◌+◌, ◌-◌, ◌/◌, ◌%◌, ◌^◌, ◌≤◌, ◌<◌, max, ◌≡◌, refl, ◌∙◌, ◌↔◌, true, false, none, some,
  List, [], ◌∷◌, arith, ap, dec_lt, length, All, nat_key, string_key, pair_key,
}
use sap_automate.Rfc.Circuit.{
  closed, opened, half_open, CircuitBreaker, new, settle, call, u32_mod, ℕ, List, RfcResult,
  RfcError, is_transient, err, ok,
}

module _ {A : Type 0} (cb : CircuitBreaker) (now later done t : ℕ) (outcome : RfcResult A) where
  call_refused :
      cb.state ≡ opened
      → cb.opened_at ≡ some t
      → now - t < cb.open_duration
      → call cb now later done outcome
        ≡ (err (RfcError.circuit_open ((cb.open_duration - (later - t)) / 1_000_000 % 2 ^ 64)), cb)
  unfolding call
  call_refused s o h = ground arith

  -- Once the open period has passed, the call runs as a probe: its outcome is what the caller
  -- gets, and decides the state: a success closes the breaker and forgets the failures, a
  -- transient failure opens it anew at its own time, and a permanent error leaves it half-open.
  -- The failure count must be at the threshold, as it is in every reachable state, and below the
  -- largest `u32`.
  pub call_probe :
      cb.state ≡ opened
      → cb.opened_at ≡ some t
      → cb.open_duration ≤ now - t
      → cb.failure_threshold ≤ cb.failures
      → cb.failures + 1 < u32_mod
      → let (answer, cb') = call cb now later done outcome in
        (answer ≡ outcome)
        × (((v : A)
            → outcome ≡ ok v
            → (cb'.state ≡ closed) × (cb'.failures ≡ 0) × (cb'.opened_at ≡ none)))
        × ((e : RfcError)
            → outcome ≡ err e
            → is_transient e ≡ true
            → (cb'.state ≡ opened) × (cb'.opened_at ≡ some done))
        × ((e : RfcError)
            → outcome ≡ err e
            → is_transient e ≡ false
            → (cb'.state ≡ half_open) × (cb'.failures ≡ cb.failures) × (cb'.opened_at ≡ some t))
  unfolding call
  call_probe s o h reached small = (
    ground arith,
    λ v e. (ground arith, ground arith, ground arith),
    λ e q tr. (ground arith, ground arith),
    λ e q tr. (ground arith, ground arith, ground arith),
  )

-- A row of transient failures, each at its time.
unfoldable pub fail_all : CircuitBreaker → List (RfcError × ℕ) → CircuitBreaker
fail_all cb [] = cb
fail_all cb ((e, now) ∷ es) = fail_all (settle {A = Unit {0}} cb (err e) now) es

module _ (cb : CircuitBreaker) (e : RfcError) (now : ℕ) where
  abbrev failed : CircuitBreaker
  failed = settle {A = Unit {0}} cb (err e) now

  failed_counts :
      is_transient e ≡ true
      → cb.failures + 1 < u32_mod
      → (failed.failures ≡ cb.failures + 1) × (failed.failure_threshold ≡ cb.failure_threshold)
  unfolding settle
  failed_counts tr small = ground arith

  failed_opens :
      is_transient e ≡ true
      → cb.failures + 1 < u32_mod
      → cb.failure_threshold ≤ cb.failures + 1
      → failed.state ≡ opened
  unfolding settle
  failed_opens tr small h = ground arith

  failed_stays :
      is_transient e ≡ true
      → cb.failures + 1 < u32_mod
      → cb.failures + 1 < cb.failure_threshold
      → failed.state ≡ cb.state
  unfolding settle
  failed_stays tr small h = ground arith

abbrev pub AllTransient : List (RfcError × ℕ) → Type 0
AllTransient = All (λ x. is_transient x.0 ≡ true)

fail_all-opened :
    (es : List (RfcError × ℕ)) (cb : CircuitBreaker)
    → AllTransient es
    → cb.state ≡ opened
    → cb.failure_threshold ≤ cb.failures
    → cb.failures + length es < u32_mod
    → (fail_all cb es).state ≡ opened
unfolding fail_all
fail_all-opened [] cb tr s reached small = s
fail_all-opened ((e, now) ∷ es) cb tr s reached small =
    let counts = failed_counts cb e now tr.0 (omega arith) in
    fail_all-opened es (failed cb e now) tr.1
      (failed_opens cb e now tr.0 (omega arith) (omega arith)) (omega (arith, counts))
      (omega (arith, counts))

fail_all_below :
    (es : List (RfcError × ℕ)) (cb : CircuitBreaker)
    → AllTransient es
    → cb.failures + length es < u32_mod
    → cb.failures + length es < cb.failure_threshold
    → (fail_all cb es).state ≡ cb.state
unfolding fail_all
fail_all_below [] cb tr small h = refl
fail_all_below ((e, now) ∷ es) cb tr small h =
    let counts = failed_counts cb e now tr.0 (omega arith) in
    fail_all_below es (failed cb e now) tr.1 (omega (arith, counts)) (omega (arith, counts))
    ∙ failed_stays cb e now tr.0 (omega arith) (omega arith)

fail_all_reaches :
    (e : RfcError) (now : ℕ) (es : List (RfcError × ℕ)) (cb : CircuitBreaker)
    → is_transient e ≡ true
    → AllTransient es
    → cb.failures + suc (length es) < u32_mod
    → cb.failure_threshold ≤ cb.failures + suc (length es)
    → (fail_all cb ((e, now) ∷ es)).state ≡ opened
unfolding fail_all
fail_all_reaches e now [] cb tr trs small h = failed_opens cb e now tr (omega arith) (omega arith)
fail_all_reaches e now ((e', now') ∷ es) cb tr trs small h =
    let counts = failed_counts cb e now tr (omega arith) in
    fail_all_reaches e' now' es (failed cb e now) trs.0 trs.1 (omega (arith, counts))
      (omega (arith, counts))

-- A new breaker that sees nothing but transient failures, fewer than 2^32 of them, opens exactly
-- when their number reaches the threshold (one failure, for the threshold zero).
pub fail_all-new :
    (threshold duration : ℕ) (es : List (RfcError × ℕ))
    → AllTransient es
    → length es < u32_mod
    → ((fail_all (new threshold duration) es).state ≡ opened) ↔ (max 1 threshold ≤ length es)
unfolding new
fail_all-new threshold duration [] tr small =
    (λ e. absurd (not_opened e), λ h. absurd (omega arith))
  where
    not_opened : (fail_all (new threshold duration) []).state ≡ opened → ⊥
    not_opened e = unfold fail_all new in cc e
fail_all-new threshold duration ((e, now) ∷ es) tr small = (reached, opens)
  where
    cb : CircuitBreaker
    cb = new threshold duration

    opens : max 1 threshold ≤ suc (length es) → (fail_all cb ((e, now) ∷ es)).state ≡ opened
    opens h = fail_all_reaches e now es cb tr.0 tr.1 (omega arith) (omega arith)

    reached : (fail_all cb ((e, now) ∷ es)).state ≡ opened → max 1 threshold ≤ suc (length es)
    reached o = elim (dec_lt (suc (length es)) threshold) [
      | yes low ↦ cc (fail_all_below ((e, now) ∷ es) cb tr (omega arith) (omega arith), o)
      | no high ↦ omega arith
    ]

-- A call of a breaker: the two readings of the clock, the time at which its operation would end,
-- and its outcome.
abbrev pub Attempt : Type 0 → Type 0
Attempt A = ℕ × ℕ × ℕ × RfcResult A

-- Calls in a row, and their answers.
unfoldable pub call_all :
    {A : Type 0} → CircuitBreaker → List (Attempt A) → List (RfcResult A) × CircuitBreaker
call_all cb [] = ([], cb)
call_all cb ((now, later, done, outcome) ∷ attempts) =
    let (answer, cb') = call cb now later done outcome in
    let (answers, cb'') = call_all cb' attempts in (answer ∷ answers, cb'')

-- Refused by an open circuit, with at most the open period to wait.
abbrev pub IsRefusal : {A : Type 0} → ℕ → RfcResult A → Type 0
IsRefusal open_duration answer =
    (ms : ℕ) × (answer ≡ err (RfcError.circuit_open ms)) × (ms ≤ open_duration / 1_000_000)

-- The breaker after a failure at the time `t` that shuts it.
abbrev shut_at : CircuitBreaker → ℕ → CircuitBreaker
shut_at cb t = record cb {
  inner = record { state = opened; failures = cb.failures + 1; opened_at = some t };
}

settle_shuts :
    (A : Type 0) (cb : CircuitBreaker) (e : RfcError) (t : ℕ)
    → is_transient e ≡ true
    → cb.failures + 1 < u32_mod
    → cb.failure_threshold ≤ cb.failures + 1
    → settle {A = A} cb (err e) t ≡ shut_at cb t
unfolding settle
settle_shuts A cb e t transient small reached = ground arith

module _ {A : Type 0} where
  call_all-IsRefusal :
      (cb : CircuitBreaker) (t : ℕ) (attempts : List (Attempt A))
      → cb.state ≡ opened
      → cb.opened_at ≡ some t
      → All (λ a. a.0 - t < cb.open_duration) attempts
      → ((call_all cb attempts).1 ≡ cb)
        × (length (call_all cb attempts).0 ≡ length attempts)
        × All (IsRefusal cb.open_duration) (call_all cb attempts).0
  unfolding call_all
  call_all-IsRefusal cb t [] s o h = (refl, refl, tt)
  call_all-IsRefusal cb t ((now, later, done, outcome) ∷ attempts) s o h =
      let rest = call_all-IsRefusal cb t attempts s o h.1 in
      rw (call_refused cb now later done t outcome s o h.0) (
        rest.0,
        ap (λ n. suc n) rest.1,
        (((cb.open_duration - (later - t)) / 1_000_000 % 2 ^ 64, refl, omega arith), rest.2),
      )

  -- A transient failure that brings the count to the threshold shuts the breaker for its open
  -- period: of any calls made one after the other within it, each is refused, with no more than
  -- the open period to wait, whatever their operations would have given, and the breaker stays as
  -- the failure left it. The count must be below the largest `u32`.
  pub call_all-refused :
      (cb : CircuitBreaker) (e : RfcError) (t : ℕ) (attempts : List (Attempt A))
      → is_transient e ≡ true
      → cb.failures + 1 < u32_mod
      → cb.failure_threshold ≤ cb.failures + 1
      → All (λ a. a.0 - t < cb.open_duration) attempts
      → let shut = settle {A = A} cb (err e) t in
        ((call_all shut attempts).1 ≡ shut)
        × (length (call_all shut attempts).0 ≡ length attempts)
        × All (IsRefusal cb.open_duration) (call_all shut attempts).0
  call_all-refused cb e t attempts transient small reached h =
      rw (settle_shuts A cb e t transient small reached)
        (call_all-IsRefusal (shut_at cb t) t attempts refl refl h)
