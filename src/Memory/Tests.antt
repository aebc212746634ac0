-- ===== src/Memory/Tests.antt =====
-- The tiers on small histories.
use sap_automate.Base.{
  String, ◌≡◌, refl, Option, none, some, List, [], ◌∷◌, nat_key, string_key, pair_key,
}
use sap_automate.Json.{null}
use sap_automate.Base.Dict.{get, insert}
use sap_automate.Memory.{
  Tier, MemoryEntry, recent, with_capacity, append, by_tag, is_readable, push_bounded,
}
use sap_automate.Memory.Working.{Op, appends, apply, apply_all}
use sap_automate.Memory.Episodic.{by_tag-record_all, record_all, tagged}

abbrev entry : String → Option String → MemoryEntry
entry key tenant = record {
  tier = Tier.episodic;
  key = key;
  value = null;
  trust_class = "unverified";
  tenant = tenant;
  created_at_ms = 0;
}

abbrev talk : List Op
talk =
    appends "S1" (entry "k0" none)
    ∷ appends "S1" (entry "k1" none)
    ∷ appends "S2" (entry "x" none)
    ∷ appends "S1" (entry "k2" none)
    ∷ []

evicts_oldest :
    recent (apply_all (with_capacity 2) talk) "S1" 10 ≡ entry "k2" none ∷ entry "k1" none ∷ []
unfolding recent apply_all apply append with_capacity push_bounded get insert
evicts_oldest = refl

abbrev history : List (MemoryEntry × List String)
history =
    (entry "po1" (some "T1"), "po" ∷ "fi" ∷ [])
    ∷ (entry "po2" (some "T2"), "po" ∷ [])
    ∷ (entry "public" none, "po" ∷ [])
    ∷ []

by_tag-record_all_example :
    by_tag (record_all (record { entries = []; tags = [] }) history) "po" (some "T1") 10
    ≡ entry "po1" (some "T1") ∷ entry "public" none ∷ []
unfolding tagged is_readable
by_tag-record_all_example = by_tag-record_all history "po" (some "T1") 10
