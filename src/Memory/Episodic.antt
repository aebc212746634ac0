-- ===== src/Memory/Episodic.antt =====
-- What a reader of the episodic tier gets.
use mathlib.Core.List.{
  filter_map, filter_map-append, filter_map-cons-none, filter_map-cons-some, reverse-cons,
  append-nil, append_assoc,
}
use sap_automate.Base.{
  ℕ, zero, suc, ◌≤◌, ◌<◌, String, ◌≡◌, refl, sym, ap, ◌∙◌, subst, ◌⊎◌, inl, inr, true, Option, none,
  some, List, [], ◌∷◌, ◌++◌, reverse, arith, if◌then◌else◌, Bool-cases, Option-cases, length,
  get_elem?, take, keep, All, length-append, length-take, length-reverse, All-append, All-take,
  All-reverse, All-keep, str_eq, str_eq_iff, nat_key, string_key, pair_key, All-weaken,
}
use sap_automate.Base.Dict.{Dict, get, insert, get-insert}
use sap_automate.Memory.{
  MemoryEntry, EpisodicMemory, or_default, index_tags, record_entry, is_readable, readable_by,
  by_tag,
}

module _ {A B : Type 0} (f : A → Option B) where
  filter_map_last :
      (x : A) (xs : List A)
      → reverse (filter_map f xs) ++ filter_map f (x ∷ []) ≡ reverse (filter_map f (x ∷ xs))
  unfolding filter_map
  filter_map_last x xs = elim (Option-cases (f x)) [
    | inl e ↦ rw (filter_map-cons-none f x [] e, filter_map-cons-none f x xs e) (append-nil _)
    | inr (b, e) ↦ rw (
      filter_map-cons-some f x [] e,
      filter_map-cons-some f x xs e,
      reverse-cons b (filter_map f xs),
    )
  ]

  filter_map-reverse : (xs : List A) → filter_map f (reverse xs) ≡ reverse (filter_map f xs)
  unfolding filter_map
  filter_map-reverse [] = refl
  filter_map-reverse (x ∷ xs) =
      ap (filter_map f) (reverse-cons x xs)
      ∙ filter_map-append f (reverse xs) (x ∷ [])
      ∙ ap (λ l. l ++ filter_map f (x ∷ [])) (filter_map-reverse xs)
      ∙ filter_map_last x xs

readable_tenant :
    {t : String} (et : Option String) → readable_by (some t) et ≡ true → (et ≡ some t) ⊎ (et ≡ none)
unfolding readable_by
readable_tenant none h = inr refl
readable_tenant {t} (some et) h = inl (ap some (sym ((str_eq_iff t et).0 h)))

-- With a tenant, only that tenant's and the public entries are returned, and at most `limit`.
pub by_tag-tenant :
    (m : EpisodicMemory) (tag tenant : String) (limit : ℕ)
    → All (λ e. (e.tenant ≡ some tenant) ⊎ (e.tenant ≡ none)) (by_tag m tag (some tenant) limit)
      × (length (by_tag m tag (some tenant) limit) ≤ limit)
unfolding by_tag is_readable
by_tag-tenant m tag tenant limit = (
  All-reverse _ _ (All-take _ limit _ (All-keep _ _ _ λ e h. readable e h)),
  omega (
    arith,
    length-reverse (
        take limit (
          keep (is_readable (some tenant))
            (filter_map (get_elem? m.entries) (reverse (or_default (get tag m.tags)))))),
    length-take limit (
        keep (is_readable (some tenant))
          (filter_map (get_elem? m.entries) (reverse (or_default (get tag m.tags))))),
  ),
)
  where
    readable :
        (e : MemoryEntry)
        → is_readable (some tenant) e ≡ true
        → (e.tenant ≡ some tenant) ⊎ (e.tenant ≡ none)
    readable e h = readable_tenant e.tenant h

-- A history of records: each entry with its tags, oldest first.
unfoldable pub record_all : EpisodicMemory → List (MemoryEntry × List String) → EpisodicMemory
record_all m [] = m
record_all m ((e, ts) ∷ hs) = record_all (record_entry m e ts).1 hs

-- The entry, once for each time that the tag is given to it.
unfoldable pub copies : String → MemoryEntry → List String → List MemoryEntry
copies tag e [] = []
copies tag e (t ∷ ts) = if str_eq t tag then e ∷ copies tag e ts else copies tag e ts

unfoldable pub tagged : String → List (MemoryEntry × List String) → List MemoryEntry
unfolding copies
tagged tag [] = []
tagged tag ((e, ts) ∷ hs) = copies tag e ts ++ tagged tag hs

-- The index leads to the tagged entries of the history, and to nothing beyond them.
pub record IsIndexed (tag : String) (m : EpisodicMemory) (found : List MemoryEntry) : Type 0 where
  pub places : All (λ i. i < length m.entries) (or_default (get tag m.tags))
  pub leads : filter_map (get_elem? m.entries) (or_default (get tag m.tags)) ≡ found

get_elem?-append_left :
    {A : Type 0} (xs ys : List A) (i : ℕ) → i < length xs → get_elem? (xs ++ ys) i ≡ get_elem? xs i
get_elem?-append_left [] ys i h = absurd (omega arith)
get_elem?-append_left (x ∷ xs) ys zero h = refl
get_elem?-append_left (x ∷ xs) ys (suc i) h = get_elem?-append_left xs ys i (omega arith)

get_elem?-length :
    {A : Type 0} (xs : List A) (x : A) → get_elem? (xs ++ x ∷ []) (length xs) ≡ some x
get_elem?-length [] x = refl
get_elem?-length (y ∷ xs) x = get_elem?-length xs x

filter_map_grow :
    {A : Type 0} (xs ys : List A) (is : List ℕ)
    → All (λ i. i < length xs) is
    → filter_map (get_elem? (xs ++ ys)) is ≡ filter_map (get_elem? xs) is
unfolding filter_map
filter_map_grow xs ys [] h = refl
filter_map_grow xs ys (i ∷ is) h =
    rw (get_elem?-append_left xs ys i h.0, filter_map_grow xs ys is h.1)

module _ (tag : String) (e : MemoryEntry) (entries : List MemoryEntry) where
  abbrev grown : Dict String (List ℕ) → EpisodicMemory
  grown index = record { entries = entries ++ e ∷ []; tags = index }

  index_one :
      (t : String) (index : Dict String (List ℕ)) (found : List MemoryEntry)
      → IsIndexed tag (grown index) found
      → IsIndexed tag
          (grown (insert t (or_default (get t index) ++ length entries ∷ []) index))
          (if str_eq t tag then found ++ e ∷ [] else found)
  unfolding filter_map
  index_one t index found v = elim (Bool-cases (str_eq t tag)) [
    | inr other ↦ record {
      places = rw (get-insert, other) v.places;
      leads = rw (get-insert, other) v.leads;
    }
    | inl same ↦
        let q : t ≡ tag = (str_eq_iff t tag).0 same in
        record {
          places =
              rw (get-insert, same, q)
                (All-append _ (or_default (get tag index)) _ v.places
                  (omega (arith, length-append entries (e ∷ [])), tt));
          leads =
              rw (get-insert, same, q)
                (filter_map-append (get_elem? (entries ++ e ∷ [])) (or_default (get tag index)) _
                  ∙ rw (v.leads, get_elem?-length entries e));
        }
  ]

  -- One tag after the other: the new place is added once for each time that the tag is listed.
  index_tags_leads :
      (ts : List String) (found : List MemoryEntry) (index : Dict String (List ℕ))
      → IsIndexed tag (grown index) found
      → IsIndexed tag (grown (index_tags (length entries) ts index)) (found ++ copies tag e ts)
  unfolding index_tags copies
  index_tags_leads [] found index v = rw (append-nil found) v
  index_tags_leads (t ∷ ts) found index v =
      let w = index_tags_leads ts _ _ (index_one t index found v) in
      subst (IsIndexed tag _) (regroup t found (copies tag e ts)) w
    where
      regroup :
          (t : String) (found rest : List MemoryEntry)
          → (if str_eq t tag then found ++ e ∷ [] else found) ++ rest
            ≡ found ++ (if str_eq t tag then e ∷ rest else rest)
      regroup t found rest = elim (Bool-cases (str_eq t tag)) [
        | inl a ↦ rw a (append_assoc found (e ∷ []) rest)
        | inr b ↦ rw b
      ]

record_entry-IsIndexed :
    (tag : String) (m : EpisodicMemory) (e : MemoryEntry) (ts : List String)
    (found : List MemoryEntry)
    → IsIndexed tag m found
    → IsIndexed tag (record_entry m e ts).1 (found ++ copies tag e ts)
unfolding record_entry
record_entry-IsIndexed tag m e ts found v =
    index_tags_leads tag e m.entries ts found m.tags (record {
      places =
          All-weaken _ _ (or_default (get tag m.tags))
            (λ i h. omega (arith, length-append m.entries (e ∷ []))) v.places;
      leads = filter_map_grow m.entries (e ∷ []) (or_default (get tag m.tags)) v.places ∙ v.leads;
    })

record_all-IsIndexed :
    (tag : String) (hs : List (MemoryEntry × List String)) (m : EpisodicMemory)
    (found : List MemoryEntry)
    → IsIndexed tag m found
    → IsIndexed tag (record_all m hs) (found ++ tagged tag hs)
unfolding record_all tagged
record_all-IsIndexed tag [] m found v = rw (append-nil found) v
record_all-IsIndexed tag ((e, ts) ∷ hs) m found v =
    rw (← append_assoc found (copies tag e ts) (tagged tag hs))
      (record_all-IsIndexed tag hs _ _ (record_entry-IsIndexed tag m e ts found v))

-- After any history of records, a tag and a tenant give the last `limit` of the history's entries
-- with that tag that the tenant may read, oldest first; an entry counts once for each time that
-- it was given the tag.
pub by_tag-record_all :
    (hs : List (MemoryEntry × List String)) (tag : String) (tenant : Option String) (limit : ℕ)
    → by_tag (record_all (record { entries = []; tags = [] }) hs) tag tenant limit
      ≡ reverse (take limit (keep (is_readable tenant) (reverse (tagged tag hs))))
unfolding by_tag get filter_map
by_tag-record_all hs tag tenant limit =
    let v =
      record_all-IsIndexed tag hs (record { entries = []; tags = [] }) []
        (record { places = tt; leads = refl }) in
    rw (filter_map-reverse, v.leads)
