-- ===== src/Rfc/MetadataCache/Accounting.antt =====
-- Every lookup is counted once, as a hit or as a miss.
use sap_automate.Base.{
  ℕ, ◌+◌, String, ◌≡◌, refl, ◌∙◌, List, [], ◌∷◌, arith, length, nat_key, string_key, pair_key,
}
use sap_automate.Rfc.Error.{RfcResult, ok, err}
use sap_automate.Rfc.Client.{RfcFunctionMeta, BulkMetadata}
use sap_automate.Rfc.MetadataCache.{
  MetadataCache, Inner, store, rfc_metadata, split_hits, store_all, fetch_rest, merge,
  bulk_rfc_metadata, count_hits, count_misses,
}

abbrev pub lookups : MetadataCache → ℕ
lookups c = c.stats.hits + c.stats.misses

store-stats :
    (c : MetadataCache) (key : String × String) (m : RfcFunctionMeta) (now : ℕ)
    → (store c key m now).stats ≡ c.stats
unfolding store
store-stats c key m now = ground arith

module _ (inner : Inner) where
  open inner use {State}

  -- One lookup, whether it hits, misses, or fails in the inner client.
  pub rfc_metadata-lookups :
      (c : MetadataCache) (function language : String) (now done : ℕ) (s : State)
      → lookups (rfc_metadata inner c function language now done s).1 ≡ lookups c + 1
  unfolding rfc_metadata store
  rfc_metadata-lookups c function language now done s = ground arith

  split_hits-length :
      (c : MetadataCache) (language : String) (clock : ℕ → ℕ) (i : ℕ) (fs : List String)
      → let (hits, to_fetch) = split_hits inner c language clock i fs in
        length hits + length to_fetch ≡ length fs
  unfolding split_hits
  split_hits-length c language clock i [] = refl
  split_hits-length c language clock i (f ∷ fs) =
      ground (arith, split_hits-length c language clock (i + 1) fs)

  store_all-stats :
      (ms : List RfcFunctionMeta) (c : MetadataCache) (language : String) (clock : ℕ → ℕ) (i : ℕ)
      → (store_all inner c language clock i ms).stats ≡ c.stats
  unfolding store_all
  store_all-stats [] c language clock i = refl
  store_all-stats (m ∷ ms) c language clock i =
      store_all-stats ms _ language clock (i + 1) ∙ store-stats c (m.function, language) m (clock i)

  fetch_rest-stats :
      (c : MetadataCache) (language : String) (clock : ℕ → ℕ) (hits : List RfcFunctionMeta)
      (to_fetch : List String) (s : State)
      → (fetch_rest inner c language clock hits to_fetch s).1.stats ≡ c.stats
  unfolding fetch_rest merge
  fetch_rest-stats c language clock hits [] s = refl
  fetch_rest-stats c language clock hits (f ∷ fs) s =
      merged (inner.bulk_rfc_metadata (f ∷ fs) language s)
    where
      merged :
          (a : RfcResult BulkMetadata × State)
          → (merge inner c language clock hits a).1.stats ≡ c.stats
      merged (err e, s') = refl
      merged (ok b, s') = store_all-stats b.functions c language clock 0

  -- A bulk request counts one lookup for each function that it names.
  pub bulk_rfc_metadata-lookups :
      (c : MetadataCache) (functions : List String) (language : String) (now done : ℕ → ℕ)
      (s : State)
      → lookups (bulk_rfc_metadata inner c functions language now done s).1
        ≡ lookups c + length functions
  unfolding bulk_rfc_metadata
  bulk_rfc_metadata-lookups c functions language now done s = ground (
    arith,
    split_hits-length c language now 0 functions,
    fetch_rest-stats
        (count_misses (count_hits c (length (split_hits inner c language now 0 functions).0))
          (length (split_hits inner c language now 0 functions).1))
        language done (split_hits inner c language now 0 functions).0
        (split_hits inner c language now 0 functions).1 s,
  )
