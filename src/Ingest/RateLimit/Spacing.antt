-- ===== src/Ingest/RateLimit/Spacing.antt =====
-- The fetches of one host keep their distance.
use sap_automate.Base.{
  ℕ, ◌+◌, max, String, ◌≡◌, ◌≢◌, Option, none, some, List, [], ◌∷◌, arith, All, str_eq_iff, nat_key,
  string_key, pair_key,
}
use sap_automate.Base.Dict.{get, get-insert}
use sap_automate.Ingest.RateLimit.{
  BucketState, RateLimiter, Op, acquires, sets, set_interval, acquire_wait, interval_of, apply,
  apply_all,
}

-- No caller in between acquires the host.
abbrev pub Spares : String → Op → Type 0
Spares host (acquires h now) = h ≢ host
Spares host (sets h interval now) = Unit

abbrev pub next_of : Option BucketState → Option ℕ
next_of none = none
next_of (some b) = some b.next_ready

-- The host has a bucket, and its next slot is at `t`.
abbrev pub NextAt : RateLimiter → String → ℕ → Type 0
NextAt rl host t = next_of (get host rl.state) ≡ some t

apply-NextAt :
    (rl : RateLimiter) (host : String) (t : ℕ) (op : Op)
    → Spares host op
    → NextAt rl host t
    → NextAt (apply rl op) host t
unfolding apply acquire_wait set_interval
apply-NextAt rl host t (acquires h now) sp e = rw get-insert (ground (arith, str_eq_iff h host, e))
apply-NextAt rl host t (sets h interval now) sp e =
    rw get-insert (ground (arith, str_eq_iff h host, e))

apply_all-NextAt :
    (ops : List Op) (rl : RateLimiter) (host : String) (t : ℕ)
    → All (Spares host) ops
    → NextAt rl host t
    → NextAt (apply_all rl ops) host t
unfolding apply_all
apply_all-NextAt [] rl host t sp e = e
apply_all-NextAt (op ∷ ops) rl host t sp e =
    apply_all-NextAt ops (apply rl op) host t sp.1 (apply-NextAt rl host t op sp.0 e)

-- The instant at which the caller that waits as told fetches.
abbrev pub slot : ℕ → ℕ × RateLimiter → ℕ
slot now answer = now + answer.0

acquire_wait-NextAt :
    (rl : RateLimiter) (host : String) (now : ℕ)
    → NextAt
        (acquire_wait rl host now).1
        host
        (slot now (acquire_wait rl host now) + interval_of rl host)
unfolding acquire_wait interval_of
acquire_wait-NextAt rl host now = rw get-insert (ground (arith, str_eq_iff host host))

slot-NextAt :
    (rl : RateLimiter) (host : String) (now t : ℕ)
    → NextAt rl host t
    → slot now (acquire_wait rl host now) ≡ max now t
unfolding acquire_wait
slot-NextAt rl host now t e = ground arith

-- Two fetches of one host that follow each other, whatever is set for any host and acquired for
-- others in between: the second takes place at the first one's instant plus the host's interval
-- at the time of the first, or when it is asked for, whichever is later.
pub acquire_wait-acquire_wait :
    (rl : RateLimiter) (host : String) (now later : ℕ) (ops : List Op)
    → All (Spares host) ops
    → let first = acquire_wait rl host now in
      slot later (acquire_wait (apply_all first.1 ops) host later)
      ≡ max later (slot now first + interval_of rl host)
acquire_wait-acquire_wait rl host now later ops sp =
    slot-NextAt _ host later _ (apply_all-NextAt ops _ host _ sp (acquire_wait-NextAt rl host now))

-- Acquiring one host changes neither the wait nor the interval of another host.
pub acquire_wait-other :
    (rl : RateLimiter) (host other : String) (now later : ℕ)
    → host ≢ other
    → let rl' = (acquire_wait rl host now).1 in
      ((acquire_wait rl' other later).0 ≡ (acquire_wait rl other later).0)
      × (interval_of rl' other ≡ interval_of rl other)
unfolding acquire_wait interval_of
acquire_wait-other rl host other now later ne = (
  rw get-insert (ground (arith, str_eq_iff host other)),
  rw get-insert (ground (arith, str_eq_iff host other)),
)
