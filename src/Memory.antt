-- ===== src/Memory.antt =====
-- crates/sap-automate-memory/src/lib.rs: the working and the episodic tier, and the manager that
-- reads both. Each operation is one step: no other operation runs between the two locks that `record`
-- of the episodic tier takes one after the other.
pub mod Working
pub mod Episodic
mod Tests
use mathlib.Core.List.{filter_map}
use sap_automate.Base.{
  ℕ, zero, suc, ◌+◌, ◌-◌, ◌*◌, ◌/◌, ◌%◌, ◌^◌, ◌≤◌, ◌<◌, min, max, String, ◌≡◌, refl, sym, ap, ◌∙◌,
  subst, ◌≢◌, ◌↔◌, ◌⊎◌, inl, inr, Bool, true, false, not, ◌&&◌, ◌||◌, Option, none, some, List, [],
  ◌∷◌, ◌++◌, map, reverse, arith, dec_lt, dec_le, ℕ_discrete, ltb, leb, ◌==◌, if◌then◌else◌, ltb→lt,
  lt→ltb, leb→le, le→leb, ==_iff, tests, Bool-cases, Option-cases, List-cases, length, get_elem?,
  take, drop, any, keep, All, Has, length-append, length-take, length-reverse, All-append,
  Has-append_left, Has-append_right, Has-append, any-append, any-eq-false, Eq, str_eq, str_eq_iff,
  pair_eq, pair_eq_iff, nat_key, string_key, pair_key,
}
use sap_automate.Base.Dict.{Dict, get, insert, remove}
use sap_automate.Json.{Value}

pub data Tier : Type 0 where
  working episodic semantic procedural : Tier

pub record MemoryEntry : Type 0 where
  pub tier : Tier
  pub key : String
  pub value : Value
  pub trust_class : String
  pub tenant : Option String
  pub created_at_ms : ℕ

abbrev pub or_default {ℓ} : {A : Type ℓ} → Option (List A) → List A
or_default none = []
or_default (some xs) = xs

-- The ring buffers, one for each session; the oldest entry is the first of the list.
pub record WorkingMemory : Type 0 where
  pub sessions : Dict String (List MemoryEntry)
  pub cap : ℕ

unfoldable pub with_capacity : ℕ → WorkingMemory
with_capacity cap = record { sessions = []; cap = max cap 1 }

-- `q.pop_front()`
abbrev pub pop_front {ℓ} : {A : Type ℓ} → List A → List A
pop_front [] = []
pop_front (x ∷ xs) = xs

-- `if q.len() == cap { q.pop_front(); } q.push_back(entry)`
unfoldable pub push_bounded {ℓ} : {A : Type ℓ} → ℕ → List A → A → List A
push_bounded cap q entry = (if length q == cap then pop_front q else q) ++ entry ∷ []

unfoldable pub append : WorkingMemory → String → MemoryEntry → WorkingMemory
append m session_id entry =
    let q = or_default (get session_id m.sessions) in
    record m { sessions = insert session_id (push_bounded m.cap q entry) m.sessions }

unfoldable pub recent : WorkingMemory → String → ℕ → List MemoryEntry
recent m session_id limit = take limit (reverse (or_default (get session_id m.sessions)))

unfoldable pub clear : WorkingMemory → String → WorkingMemory
clear m session_id = record m { sessions = remove session_id m.sessions }

unfoldable pub session_count : WorkingMemory → ℕ
session_count m = length m.sessions

-- The episodes, oldest first, and for each tag the places of its episodes, oldest first. The field
-- `by_tag` of the source is the index `tags` here.
pub record EpisodicMemory : Type 0 where
  pub entries : List MemoryEntry
  pub tags : Dict String (List ℕ)

unfoldable pub index_tags : ℕ → List String → Dict String (List ℕ) → Dict String (List ℕ)
index_tags idx [] index = index
index_tags idx (t ∷ ts) index =
    index_tags idx ts (insert t (or_default (get t index) ++ idx ∷ []) index)

unfoldable pub record_entry : EpisodicMemory → MemoryEntry → List String → ℕ × EpisodicMemory
unfolding index_tags
record_entry m entry ts =
    let idx = length m.entries in
    (idx, record { entries = m.entries ++ entry ∷ []; tags = index_tags idx ts m.tags })

readable_by : Option String → Option String → Bool
readable_by (some t) (some et) = str_eq t et
readable_by (some _) none = true
readable_by none _ = true

-- The filter of a reader: its own tenant's entries and the public ones; all, with no tenant.
unfoldable pub is_readable : Option String → MemoryEntry → Bool
unfolding readable_by
is_readable tenant e = readable_by tenant e.tenant

unfoldable pub by_tag : EpisodicMemory → String → Option String → ℕ → List MemoryEntry
unfolding is_readable filter_map
by_tag m tag tenant limit =
    let idxs = or_default (get tag m.tags) in
    reverse
      (take limit (keep (is_readable tenant) (filter_map (get_elem? m.entries) (reverse idxs))))

pub record MemoryManager : Type 0 where
  pub working : WorkingMemory
  pub episodic : EpisodicMemory

-- At most eight entries of each tier, the working ones first.
unfoldable pub assemble : MemoryManager → String → Option String → Option String → List MemoryEntry
unfolding recent by_tag
assemble mm session_id none tenant = recent mm.working session_id 8
assemble mm session_id (some tag) tenant =
    recent mm.working session_id 8 ++ by_tag mm.episodic tag tenant 8
