-- ===== src/Rfc/Retry/Attempts.antt =====
-- How often `retry_with_backoff` calls the operation, what it returns, and how long it sleeps.
use sap_automate.Base.{
  ℕ, zero, suc, ◌+◌, ◌≤◌, ◌<◌, List, [], ◌∷◌, Option, some, ◌≡◌, refl, sym, ap, ◌∙◌, true, false,
  ◌⊎◌, inl, inr, arith, leb, leb→le, Bool-cases, length, subst, dec_lt, All, max,
}
use sap_automate.Rfc.Error.{RfcError, RfcResult, ok, err, is_transient, RfcResult-cases}
use sap_automate.Rfc.Retry.{BackoffPolicy, Run, next_delay, retry_loop, retry_with_backoff}

next_delay-le-max_delay :
    {F : Type 0} (scale : ℕ → F → ℕ) (policy : BackoffPolicy F) (delay : ℕ)
    → next_delay scale policy delay ≤ policy.max_delay
unfolding next_delay
next_delay-le-max_delay scale policy delay = omega arith

module _ {F A : Type 0} (scale : ℕ → F → ℕ) (policy : BackoffPolicy F) (f : ℕ → RfcResult A) where
  abbrev pub IsTransientFailure : ℕ → Type 0
  IsTransientFailure n = (e : RfcError) × (f n ≡ err e) × (is_transient e ≡ true)

  -- No further call is due after the n-th.
  abbrev pub IsFinal : ℕ → Type 0
  IsFinal n =
      ((v : A) × (f n ≡ ok v))
      ⊎ ((e : RfcError) × (f n ≡ err e) × (is_transient e ≡ false))
      ⊎ (policy.max_attempts ≤ n)

  -- One call and no sleep, or a sleep between any two calls, the first of them `delay` and no
  -- later one above `max_delay`.
  abbrev pub SleepsFrom : ℕ → ℕ → List ℕ → Type 0
  SleepsFrom delay calls sleeps =
      ((calls ≡ 1) × (sleeps ≡ []))
      ⊎ ((rest : List ℕ) × (sleeps ≡ delay ∷ rest)
          × (length rest + 2 ≡ calls)
          × All (λ d. d ≤ policy.max_delay) rest)

  -- The same of a part of the sleeps.
  abbrev Follows : ℕ → List ℕ → Type 0
  Follows delay sleeps =
      (sleeps ≡ [])
      ⊎ ((rest : List ℕ) × (sleeps ≡ delay ∷ rest) × All (λ d. d ≤ policy.max_delay) rest)

  -- The run after `done` calls makes more calls, up to the first final one.
  abbrev pub StopsAt : ℕ → ℕ → Option (Run A) → ℕ → List ℕ → Type 0
  StopsAt done delay r n sleeps =
      (r ≡ some (record { result = f n; calls = n; sleeps = sleeps }))
      × (done < n)
      × IsFinal n
      × ((k : ℕ) → done < k → k < n → IsTransientFailure k × (k < policy.max_attempts))
      × (done + length sleeps + 1 ≡ n)
      × Follows delay sleeps

  retry_step :
      (fuel a delay : ℕ) (e : RfcError) (n : ℕ) (sleeps : List ℕ)
      → f (a + 1) ≡ err e
      → is_transient e ≡ true
      → leb policy.max_attempts (a + 1) ≡ false
      → StopsAt
          (a + 1)
          (next_delay scale policy delay)
          (retry_loop scale policy f fuel (a + 1) (next_delay scale policy delay))
          n
          sleeps
      → StopsAt a delay (retry_loop scale policy f (suc fuel) a delay) n (delay ∷ sleeps)
  unfolding retry_loop
  retry_step fuel a delay e n sleeps he ht hm s = (
    ground (arith, s.0),
    omega (arith, s.1),
    s.2,
    between,
    omega (arith, s.4),
    inr (sleeps, refl, tail_bounded s.5),
  )
    where
      tail_bounded :
          Follows (next_delay scale policy delay) sleeps → All (λ d. d ≤ policy.max_delay) sleeps
      tail_bounded (inl q) = rw q tt
      tail_bounded (inr (rest, q, bounded)) =
          rw q (next_delay-le-max_delay scale policy delay, bounded)

      first : (k : ℕ) → a + 1 ≡ k → IsTransientFailure k × (k < policy.max_attempts)
      first k q =
          subst (λ j. IsTransientFailure j × (j < policy.max_attempts)) q
            ((e, he, ht), ground arith)

      between : (k : ℕ) → a < k → k < n → IsTransientFailure k × (k < policy.max_attempts)
      between k lo hi = elim (dec_lt (a + 1) k) [
        | yes later ↦ s.3 k later hi
        | no here ↦ first k (omega arith)
      ]

  stop_now :
      (a delay : ℕ)
      → IsFinal (a + 1)
      → (r : Option (Run A)) → r ≡ some (record { result = f (a + 1); calls = a + 1; sleeps = [] })
      → StopsAt a delay r (a + 1) []
  stop_now a delay final r e =
      (e, omega arith, final, λ k lo hi. absurd (omega arith), omega arith, inl refl)

  retry_loop-StopsAt :
      (fuel a delay : ℕ)
      → a + fuel ≡ suc policy.max_attempts
      → a ≤ policy.max_attempts
      → (n : ℕ) × (sleeps : List ℕ) × StopsAt a delay
          (retry_loop scale policy f fuel a delay)
          n
          sleeps
  unfolding retry_loop
  retry_loop-StopsAt zero a delay q h = absurd (omega arith)
  retry_loop-StopsAt (suc fuel) a delay q h = elim (RfcResult-cases (f (a + 1))) [
    | inl (v, e) ↦ (a + 1, [], stop_now a delay (inl (v, e)) _ (ground arith))
    | inr (e, he) ↦ elim (Bool-cases (is_transient e)) [
      | inr permanent ↦
          (a + 1, [], stop_now a delay (inr (inl (e, he, permanent))) _ (ground arith))
      | inl transient ↦ elim (Bool-cases (leb policy.max_attempts (a + 1))) [
        | inl spent ↦ (a + 1, [], stop_now a delay (inr (inr (leb→le _ _ spent))) _ (ground arith))
        | inr left ↦
            let (n, sleeps, s) =
              retry_loop-StopsAt fuel (a + 1) (next_delay scale policy delay) (omega arith)
                (ground arith) in
            (n, delay ∷ sleeps, retry_step fuel a delay e n sleeps he transient left s)
      ]
    ]
  ]

  -- The run always ends: the result is the outcome of the last call made, that call is the first
  -- that succeeds, fails permanently or uses up the budget, all calls before it failed
  -- transiently, at least one and at most max(1, `max_attempts`) calls are made, and the program
  -- sleeps exactly once between two calls.
  pub retry_with_backoff_total :
      (n : ℕ) × (sleeps : List ℕ) × (retry_with_backoff scale policy f
        ≡ some (record { result = f n; calls = n; sleeps = sleeps }))
      × IsFinal n
      × (1 ≤ n)
      × (n ≤ max 1 policy.max_attempts)
      × ((k : ℕ) → 0 < k → k < n → IsTransientFailure k)
      × (length sleeps + 1 ≡ n)
  unfolding retry_with_backoff
  retry_with_backoff_total =
      let (n, sleeps, s) =
        retry_loop-StopsAt (suc policy.max_attempts) 0 policy.initial (omega arith) (omega arith) in
      (n, sleeps, s.0, s.2, s.1, at_most n s.1 s.3, λ k lo hi. (s.3 k lo hi).0, omega (arith, s.4))
    where
      at_most :
          (n : ℕ)
          → 0 < n
          → ((k : ℕ) → 0 < k → k < n → IsTransientFailure k × (k < policy.max_attempts))
          → n ≤ max 1 policy.max_attempts
      at_most zero h before = elim h [ ]
      at_most (suc zero) h before = omega arith
      at_most (suc (suc k)) h before = omega (arith, (before (suc k) (omega arith) (omega arith)).1)

  from_Follows :
      (delay n : ℕ) (sleeps : List ℕ)
      → length sleeps + 1 ≡ n
      → Follows delay sleeps
      → SleepsFrom delay n sleeps
  from_Follows delay n sleeps e (inl q) = inl (sym e ∙ ap (λ l. length l + 1) q, q)
  from_Follows delay n sleeps e (inr (rest, q, bounded)) =
      inr (rest, q, sym (sym e ∙ ap (λ l. length l + 1) q ∙ omega arith), bounded)

  -- A run ends, and either calls the operation once and never sleeps, or it sleeps once between any
  -- two calls: first for the policy's `initial` delay, and later for at most `max_delay`.
  pub retry_with_backoff-SleepsFrom :
      (r : Run A) × (retry_with_backoff scale policy f ≡ some r)
      × SleepsFrom policy.initial r.calls r.sleeps
  unfolding retry_with_backoff
  retry_with_backoff-SleepsFrom =
      let (n, sleeps, s) =
        retry_loop-StopsAt (suc policy.max_attempts) 0 policy.initial (omega arith) (omega arith) in
      (
        record { result = f n; calls = n; sleeps = sleeps },
        s.0,
        from_Follows policy.initial n sleeps (omega (arith, s.4)) s.5,
      )
