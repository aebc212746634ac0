-- ===== src/Rfc/MetadataCache.antt =====
-- crates/sap-automate-rfc/src/metadata_cache.rs: the cache in front of `rfc_metadata` and
-- `bulk_rfc_metadata`. Instants are nanoseconds; each reading of the clock is an argument (a
-- function of the position where a loop reads it). The other operations pass the call on. An
-- operation is modelled as one step, with no other task's in between.
pub mod Accounting
pub mod Freshness
mod Tests
use sap_automate.Base.{
  ℕ, zero, suc, ◌+◌, ◌-◌, ◌*◌, ◌/◌, ◌%◌, ◌^◌, ◌≤◌, ◌<◌, min, max, String, ◌≡◌, refl, sym, ap, ◌∙◌,
  subst, ◌≢◌, ◌↔◌, ◌⊎◌, inl, inr, Bool, true, false, not, ◌&&◌, ◌||◌, Option, none, some, List, [],
  ◌∷◌, ◌++◌, map, reverse, arith, dec_lt, dec_le, ℕ_discrete, ltb, leb, ◌==◌, if◌then◌else◌, ltb→lt,
  lt→ltb, leb→le, le→leb, ==_iff, tests, Bool-cases, Option-cases, List-cases, length, get_elem?,
  take, drop, any, keep, All, Has, length-append, length-take, length-reverse, All-append,
  Has-append_left, Has-append_right, Has-append, any-append, any-eq-false, take_all,
  take-append_left, take-take_le, take-take, All-take, All-weaken, All-reverse, All-keep, Eq,
  str_eq, str_eq_iff, pair_eq, pair_eq_iff, nat_key, string_key, pair_key,
}
use sap_automate.Base.Dict.{Dict, get, insert}
use sap_automate.Rfc.Error.{RfcResult, ok, err}
use sap_automate.Rfc.Client.{RfcFunctionMeta, BulkMetadata}

pub record CacheStats : Type 0 where
  pub hits : ℕ
  pub misses : ℕ
  pub evictions : ℕ
  pub entries : ℕ

pub record Entry : Type 0 where
  pub meta : RfcFunctionMeta
  pub cached_at : ℕ

pub record MetadataCache : Type 0 where
  pub ttl : ℕ
  pub entries : Dict (String × String) Entry
  pub stats : CacheStats

unfoldable pub new : ℕ → MetadataCache
new ttl = record {
  ttl = ttl;
  entries = [];
  stats = record { hits = 0; misses = 0; evictions = 0; entries = 0 };
}

-- `MetadataCache::stats`
unfoldable pub read_stats : MetadataCache → CacheStats
read_stats c = record c.stats { entries = length c.entries }

unfoldable pub invalidate_all : MetadataCache → MetadataCache
invalidate_all c = record c {
  entries = [];
  stats = record c.stats { evictions = c.stats.evictions + length c.entries };
}

fresh_of : ℕ → ℕ → Option Entry → Option RfcFunctionMeta
fresh_of ttl now none = none
fresh_of ttl now (some e) = if (ttl == 0) || leb (now - e.cached_at) ttl then some e.meta else none

unfoldable pub get_fresh : MetadataCache → String × String → ℕ → Option RfcFunctionMeta
unfolding fresh_of
get_fresh c key now = fresh_of c.ttl now (get key c.entries)

unfoldable pub store : MetadataCache → String × String → RfcFunctionMeta → ℕ → MetadataCache
store c key meta now =
    if c.ttl == 0
    then c
    else record c { entries = insert key (record { meta = meta; cached_at = now }) c.entries }

abbrev pub count_hits : MetadataCache → ℕ → MetadataCache
count_hits c n = record c { stats = record c.stats { hits = c.stats.hits + n } }

abbrev pub count_misses : MetadataCache → ℕ → MetadataCache
count_misses c n = record c { stats = record c.stats { misses = c.stats.misses + n } }

-- The inner client, with its state.
pub record Inner : Type 1 where
  pub State : Type 0
  pub rfc_metadata : String → String → State → RfcResult RfcFunctionMeta × State
  pub bulk_rfc_metadata : List String → String → State → RfcResult BulkMetadata × State

module _ (inner : Inner) where
  open inner use {State}

  store_answer :
      MetadataCache
      → String × String
      → ℕ
      → RfcResult RfcFunctionMeta × State
      → RfcResult RfcFunctionMeta × MetadataCache × State
  store_answer c key done (ok meta, s) = (ok meta, store c key meta done, s)
  store_answer c key done (err e, s) = (err e, c, s)

  answer_by :
      MetadataCache
      → String
      → String
      → ℕ
      → State
      → Option RfcFunctionMeta
      → RfcResult RfcFunctionMeta × MetadataCache × State
  answer_by c function language done s (some meta) = (ok meta, count_hits c 1, s)
  answer_by c function language done s none =
      store_answer (count_misses c 1) (function, language) done
        (inner.rfc_metadata function language s)

  unfoldable pub rfc_metadata :
      MetadataCache
      → String
      → String
      → (now done : ℕ) → State
      → RfcResult RfcFunctionMeta × MetadataCache × State
  unfolding answer_by store_answer
  rfc_metadata c function language now done s =
      if c.ttl == 0
      then (let (answer, s') = inner.rfc_metadata function language s in
          (answer, count_misses c 1, s'))
      else answer_by c function language done s (get_fresh c (function, language) now)

  abbrev pub sort_one :
      String
      → Option RfcFunctionMeta
      → List RfcFunctionMeta × List String
      → List RfcFunctionMeta × List String
  sort_one f (some meta) (hits, to_fetch) = (meta ∷ hits, to_fetch)
  sort_one f none (hits, to_fetch) = (hits, f ∷ to_fetch)

  -- The hits and the functions still to fetch, each in the order of the request.
  unfoldable pub split_hits :
      MetadataCache → String → (ℕ → ℕ) → ℕ → List String → List RfcFunctionMeta × List String
  split_hits c language clock i [] = ([], [])
  split_hits c language clock i (f ∷ fs) =
      sort_one f (get_fresh c (f, language) (clock i)) (split_hits c language clock (i + 1) fs)

  unfoldable pub store_all :
      MetadataCache → String → (ℕ → ℕ) → ℕ → List RfcFunctionMeta → MetadataCache
  store_all c language clock i [] = c
  store_all c language clock i (m ∷ ms) =
      store_all (store c (m.function, language) m (clock i)) language clock (i + 1) ms

  merge :
      MetadataCache
      → String
      → (ℕ → ℕ)
      → List RfcFunctionMeta
      → RfcResult BulkMetadata × State
      → RfcResult BulkMetadata × MetadataCache × State
  merge c language clock hits (err e, s) = (err e, c, s)
  merge c language clock hits (ok fetched, s) = (
    ok (record {
      language = language;
      functions = hits ++ fetched.functions;
      missing = fetched.missing;
    }),
    store_all c language clock 0 fetched.functions,
    s,
  )

  fetch_rest :
      MetadataCache
      → String
      → (ℕ → ℕ)
      → List RfcFunctionMeta
      → List String
      → State
      → RfcResult BulkMetadata × MetadataCache × State
  fetch_rest c language clock hits [] s =
      (ok (record { language = language; functions = hits; missing = [] }), c, s)
  fetch_rest c language clock hits (f ∷ fs) s =
      merge c language clock hits (inner.bulk_rfc_metadata (f ∷ fs) language s)

  unfoldable pub bulk_rfc_metadata :
      MetadataCache
      → List String
      → String
      → (now done : ℕ → ℕ) → State
      → RfcResult BulkMetadata × MetadataCache × State
  unfolding fetch_rest merge
  bulk_rfc_metadata c functions language now done s =
      let (hits, to_fetch) = split_hits c language now 0 functions in
      fetch_rest (count_misses (count_hits c (length hits)) (length to_fetch)) language done hits
        to_fetch s
