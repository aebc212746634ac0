-- ===== src/Rfc/MetadataCache/Freshness.antt =====
-- When the cache answers by itself, and with what.
use sap_automate.Base.{
  ℕ, ◌+◌, ◌-◌, ◌≤◌, String, ◌≡◌, refl, ◌∙◌, ◌≢◌, ◌⊎◌, inl, inr, true, false, not, ◌||◌, none, some,
  arith, leb, ◌==◌, if◌then◌else◌, le→leb, ==_iff, Bool-cases, length, pair_eq, nat_key, string_key,
  pair_key,
}
use sap_automate.Base.Dict.{get, insert, get-insert, beq_refl}
use sap_automate.Rfc.Error.{ok}
use sap_automate.Rfc.Client.{RfcFunctionMeta}
use sap_automate.Rfc.MetadataCache.{
  MetadataCache, Inner, get_fresh, fresh_of, store, rfc_metadata, invalidate_all, count_hits,
  count_misses, answer_by, store_answer,
}

store_inserts :
    (c : MetadataCache) (key : String × String) (m : RfcFunctionMeta) (stored : ℕ)
    → (c.ttl == 0) ≡ false
    → store c key m stored
      ≡ record c { entries = insert key (record { meta = m; cached_at = stored }) c.entries }
unfolding store
store_inserts c key m stored nonzero = rw nonzero

store_nothing :
    (c : MetadataCache) (key : String × String) (m : RfcFunctionMeta) (stored : ℕ)
    → (c.ttl == 0) ≡ true
    → store c key m stored ≡ c
unfolding store
store_nothing c key m stored is_zero = rw is_zero

-- After a store under `key`, that key is answered with what was stored for as long as the entry is
-- at most `ttl` old, and every other key as before. With the TTL zero nothing is stored.
pub get_fresh-store :
    (c : MetadataCache) (key other : String × String) (m : RfcFunctionMeta) (stored now : ℕ)
    → get_fresh (store c key m stored) other now ≡ (
        if (c.ttl == 0) || not (pair_eq key other)
        then get_fresh c other now
        else if leb (now - stored) c.ttl
        then some m
        else none)
unfolding get_fresh fresh_of
get_fresh-store c key other m stored now = elim (Bool-cases (c.ttl == 0)) [
  | inl zero_ttl ↦ rw (zero_ttl, store_nothing c key m stored zero_ttl)
  | inr some_ttl ↦ inserted some_ttl (Bool-cases (pair_eq key other))
]
  where
    inserted :
        (c.ttl == 0) ≡ false
        → (pair_eq key other ≡ true) ⊎ (pair_eq key other ≡ false)
        → get_fresh (store c key m stored) other now ≡ (
            if (c.ttl == 0) || not (pair_eq key other)
            then get_fresh c other now
            else if leb (now - stored) c.ttl
            then some m
            else none)
    inserted nonzero (inl same) =
        rw (store_inserts c key m stored nonzero, nonzero, get-insert, same) (ground arith)
    inserted nonzero (inr differs) =
        rw (store_inserts c key m stored nonzero, nonzero, get-insert, differs)

store-ttl :
    (c : MetadataCache) (key : String × String) (m : RfcFunctionMeta) (stored : ℕ)
    → (store c key m stored).ttl ≡ c.ttl
unfolding store
store-ttl c key m stored = ground arith

==-zero : (n : ℕ) → n ≢ 0 → (n == 0) ≡ false
==-zero n nonzero = ground (arith, ==_iff n 0)

-- A young entry, for the key it was stored under.
get_fresh-stored :
    (c : MetadataCache) (key : String × String) (m : RfcFunctionMeta) (stored now : ℕ)
    → c.ttl ≢ 0
    → now - stored ≤ c.ttl
    → get_fresh (store c key m stored) key now ≡ some m
get_fresh-stored c key m stored now nonzero young =
    get_fresh-store c key key m stored now
    ∙ rw (==-zero c.ttl nonzero, beq_refl key, le→leb _ _ young)

module _ (inner : Inner) where
  open inner use {State}

  rfc_metadata_miss :
      (c : MetadataCache) (function language : String) (now done : ℕ) (s s' : State)
      (m : RfcFunctionMeta)
      → (c.ttl == 0) ≡ false
      → get_fresh c (function, language) now ≡ none
      → inner.rfc_metadata function language s ≡ (ok m, s')
      → rfc_metadata inner c function language now done s
        ≡ (ok m, store (count_misses c 1) (function, language) m done, s')
  unfolding rfc_metadata answer_by store_answer
  rfc_metadata_miss c function language now done s s' m nonzero miss asked =
      rw (nonzero, miss, asked)

  rfc_metadata_hit :
      (c : MetadataCache) (function language : String) (now done : ℕ) (s : State)
      (m : RfcFunctionMeta)
      → (c.ttl == 0) ≡ false
      → get_fresh c (function, language) now ≡ some m
      → rfc_metadata inner c function language now done s ≡ (ok m, count_hits c 1, s)
  unfolding rfc_metadata answer_by
  rfc_metadata_hit c function language now done s m nonzero hit = rw (nonzero, hit)

  -- With a TTL other than zero, a miss that the inner client answers is stored: if the very next
  -- operation on the cache asks for the same function in the same language, not more than the TTL
  -- later, it is answered with the same metadata, as a hit, and the inner client is not asked. (With
  -- the TTL zero nothing is stored, and after the cache is emptied the client is asked again.)
  pub rfc_metadata_again :
      (c : MetadataCache) (function language : String) (now done later : ℕ) (s s' : State)
      (m : RfcFunctionMeta)
      → c.ttl ≢ 0
      → get_fresh c (function, language) now ≡ none
      → inner.rfc_metadata function language s ≡ (ok m, s')
      → later - done ≤ c.ttl
      → let (answer, c', t) = rfc_metadata inner c function language now done s in
        (answer ≡ ok m)
        × (t ≡ s')
        × (rfc_metadata inner c' function language later later t ≡ (ok m, count_hits c' 1, t))
  rfc_metadata_again c function language now done later s s' m nonzero miss asked young =
      rw (rfc_metadata_miss c function language now done s s' m (==-zero c.ttl nonzero) miss asked)
        (
          refl,
          refl,
          rfc_metadata_hit (store (count_misses c 1) (function, language) m done) function language
              later later s' m (rw store-ttl (==-zero c.ttl nonzero))
              (get_fresh-stored (count_misses c 1) (function, language) m done later nonzero young),
        )

-- Dropping the entries leaves nothing to answer with, and counts each of them once.
pub invalidate_all-get_fresh :
    (c : MetadataCache) (key : String × String) (now : ℕ)
    → (get_fresh (invalidate_all c) key now ≡ none)
      × ((invalidate_all c).stats.evictions ≡ c.stats.evictions + length c.entries)
      × ((invalidate_all c).stats.hits ≡ c.stats.hits)
      × ((invalidate_all c).stats.misses ≡ c.stats.misses)
unfolding invalidate_all get_fresh get
invalidate_all-get_fresh c key now = (refl, refl, refl, refl)
