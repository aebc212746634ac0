-- ===== src/Rfc/Circuit/Invariant.antt =====
-- What holds of the breaker after any interleaving of calls.
use sap_automate.Base.{
  ℕ, ◌+◌, ◌≤◌, ◌<◌, max, ◌≡◌, refl, ◌≢◌, none, List, [], ◌∷◌, arith, length, nat_key, string_key,
  pair_key,
}
use sap_automate.Rfc.Circuit.{
  CircuitState, closed, CircuitBreaker, Event, begins, ends, Traffic, new, tick, settle, happen,
  happen_all, u32_mod, RfcResult,
}

-- A closed breaker is below its threshold and has no opening time; any other has reached the
-- threshold and has an opening time.
abbrev pub FitsState : CircuitState → CircuitBreaker → Type 0
FitsState closed cb = (cb.failures < max 1 cb.failure_threshold) × (cb.opened_at ≡ none)
FitsState _ cb = (cb.failure_threshold ≤ cb.failures) × (cb.opened_at ≢ none)

abbrev pub IsCoherent : CircuitBreaker → Type 0
IsCoherent cb = FitsState cb.state cb

tick-IsCoherent : (cb : CircuitBreaker) (now : ℕ) → IsCoherent cb → IsCoherent (tick cb now)
unfolding tick
tick-IsCoherent cb now v = ground arith

settle-IsCoherent :
    {A : Type 0} (cb : CircuitBreaker) (r : RfcResult A) (now : ℕ)
    → cb.failures + 1 < u32_mod
    → IsCoherent cb
    → IsCoherent (settle cb r now)
unfolding settle
settle-IsCoherent cb r now small v = ground arith

settle-failures :
    {A : Type 0} (cb : CircuitBreaker) (r : RfcResult A) (now : ℕ)
    → (settle cb r now).failures ≤ cb.failures + 1
unfolding settle
settle-failures cb r now = ground arith

-- With the count of events so far, which bounds the count of failures.
pub record Inv (events : ℕ) (t : Traffic) : Type 0 where
  pub coherent : IsCoherent t.breaker
  pub counted : t.breaker.failures ≤ events

new-Inv :
    (threshold duration : ℕ) → Inv 0 (record { breaker = new threshold duration; in_flight = 0 })
unfolding new
new-Inv threshold duration = record { coherent = (omega arith, refl); counted = omega arith }

begins-Inv :
    (A : Type 0) (n : ℕ) (t : Traffic) (now later : ℕ)
    → Inv n t
    → Inv (n + 1) (happen {A = A} t (begins now later))
unfolding happen
begins-Inv A n t now later v = record {
  coherent = ground (arith, tick-IsCoherent t.breaker now v.coherent);
  counted = ground (arith, v.counted);
}

ends-Inv :
    {A : Type 0} (n : ℕ) (t : Traffic) (r : RfcResult A) (now : ℕ)
    → n + 1 < u32_mod
    → Inv n t
    → Inv (n + 1) (happen t (ends r now))
unfolding happen
ends-Inv n t r now small v = record {
  coherent =
      ground (
        arith,
        v.coherent,
        settle-IsCoherent t.breaker r now (omega (arith, v.counted)) v.coherent,
      );
  counted = ground (arith, v.counted, settle-failures t.breaker r now);
}

happen_all-Inv :
    {A : Type 0} (es : List (Event A)) (n : ℕ) (t : Traffic)
    → n + length es < u32_mod
    → Inv n t
    → (m : ℕ) × Inv m (happen_all t es)
unfolding happen_all
happen_all-Inv [] n t small v = (n, v)
happen_all-Inv (begins now later ∷ es) n t small v =
    happen_all-Inv es (n + 1) _ (omega arith) (begins-Inv _ n t now later v)
happen_all-Inv (ends r now ∷ es) n t small v =
    happen_all-Inv es (n + 1) _ (omega arith) (ends-Inv n t r now (omega arith) v)

-- However calls of many tasks begin and end, as long as there are fewer than 2^32 such events: a
-- closed breaker has counted fewer failures than its threshold (than one, for the threshold zero)
-- and has no opening time; an open or half-open one has reached its threshold and has an opening
-- time.
pub happen_all-IsCoherent :
    {A : Type 0} (threshold duration : ℕ) (es : List (Event A))
    → length es < u32_mod
    → IsCoherent
        (happen_all (record { breaker = new threshold duration; in_flight = 0 }) es).breaker
happen_all-IsCoherent threshold duration es small =
    (happen_all-Inv es 0 _ (omega arith) (new-Inv threshold duration)).1.coherent
