-- ===== src/Ingest/RateLimit.antt =====
-- crates/sap-automate-ingest/src/rate_limit.rs: one bucket for each host. Instants and durations
-- are nanoseconds; each reading of the clock is an argument.
pub mod Spacing
use sap_automate.Base.{
  ℕ, zero, suc, ◌+◌, ◌-◌, ◌*◌, ◌/◌, ◌%◌, ◌^◌, ◌≤◌, ◌<◌, min, max, String, ◌≡◌, refl, sym, ap, ◌∙◌,
  subst, ◌≢◌, ◌↔◌, ◌⊎◌, inl, inr, Bool, true, false, not, ◌&&◌, ◌||◌, Option, none, some, List, [],
  ◌∷◌, ◌++◌, map, reverse, arith, dec_lt, dec_le, ℕ_discrete, ltb, leb, ◌==◌, if◌then◌else◌, ltb→lt,
  lt→ltb, leb→le, le→leb, ==_iff, tests, Bool-cases, Option-cases, List-cases, length, get_elem?,
  take, drop, any, keep, All, Has, length-append, length-take, length-reverse, All-append,
  Has-append_left, Has-append_right, Has-append, any-append, any-eq-false, Eq, str_eq, str_eq_iff,
  pair_eq, pair_eq_iff, nat_key, string_key, pair_key,
}
use sap_automate.Base.Dict.{Dict, get, insert}

pub record BucketState : Type 0 where
  pub next_ready : ℕ
  pub interval : ℕ

pub record RateLimiter : Type 0 where
  pub default_interval : ℕ
  pub state : Dict String BucketState

unfoldable pub new : ℕ → RateLimiter
new default_interval = record { default_interval = default_interval; state = [] }

-- `s.entry(host).or_insert_with(...)`: the bucket of the host, a new one if there is none.
abbrev pub or_insert : Option BucketState → BucketState → BucketState
or_insert (some b) fresh = b
or_insert none fresh = fresh

unfoldable pub set_interval : RateLimiter → String → ℕ → ℕ → RateLimiter
unfolding insert
set_interval rl host interval now =
    let entry = or_insert (get host rl.state) (record { next_ready = now; interval = interval }) in
    record rl { state = insert host (record entry { interval = interval }) rl.state }

-- The time to wait before a fetch, and the limiter with the host's next slot planned.
unfoldable pub acquire_wait : RateLimiter → String → ℕ → ℕ × RateLimiter
unfolding insert
acquire_wait rl host now =
    let entry =
      or_insert (get host rl.state) (record { next_ready = now; interval = rl.default_interval }) in
    let wait = if leb entry.next_ready now then 0 else entry.next_ready - now in
    let base = max entry.next_ready now in
    (
      wait,
      record rl {
        state = insert host (record entry { next_ready = base + entry.interval }) rl.state;
      },
    )

interval_or : ℕ → Option BucketState → ℕ
interval_or d none = d
interval_or d (some b) = b.interval

unfoldable pub interval_of : RateLimiter → String → ℕ
unfolding interval_or get
interval_of rl host = interval_or rl.default_interval (get host rl.state)

-- What other callers do to the limiter.
pub data Op : Type 0 where
  acquires : (host : String) (now : ℕ) → Op
  sets : (host : String) (interval now : ℕ) → Op

unfoldable pub apply : RateLimiter → Op → RateLimiter
apply rl (acquires host now) = (acquire_wait rl host now).1
apply rl (sets host interval now) = set_interval rl host interval now

unfoldable pub apply_all : RateLimiter → List Op → RateLimiter
apply_all rl [] = rl
apply_all rl (op ∷ ops) = apply_all (apply rl op) ops
