-- ===== src/Ingest/Chunker.antt =====
-- crates/sap-automate-ingest/src/chunker.rs: the ranges into which a text is split. A text is the list
-- of its bytes; a `&str` is cut at character boundaries only, and panics elsewhere.
pub mod Coverage
use sap_automate.Base.{
  ℕ, zero, suc, ◌+◌, ◌-◌, ◌*◌, ◌/◌, ◌%◌, ◌^◌, ◌≤◌, ◌<◌, min, max, String, ◌≡◌, refl, sym, ap, ◌∙◌,
  subst, ◌≢◌, ◌↔◌, ◌⊎◌, inl, inr, Bool, true, false, not, ◌&&◌, ◌||◌, Option, none, some, List, [],
  ◌∷◌, ◌++◌, map, reverse, arith, dec_lt, dec_le, ℕ_discrete, ltb, leb, ◌==◌, if◌then◌else◌, ltb→lt,
  lt→ltb, leb→le, le→leb, ==_iff, tests, Bool-cases, Option-cases, List-cases, length, get_elem?,
  take, drop, any, keep, All, Has, length-append, length-take, length-reverse, All-append,
  Has-append_left, Has-append_right, Has-append, any-append, any-eq-false, take_all,
  take-append_left, take-take_le, take-take, All-take, All-weaken, All-reverse, All-keep, Eq,
  str_eq, str_eq_iff, pair_eq, pair_eq_iff, nat_key, string_key, pair_key,
}

pub record ChunkerConfig : Type 0 where
  pub target_chars : ℕ
  pub overlap_chars : ℕ
  pub contextual_enrichment : Bool

-- `ChunkerConfig::default`
unfoldable pub default_config : ChunkerConfig
default_config = record { target_chars = 1600; overlap_chars = 200; contextual_enrichment = true }

-- `bytes[i]` under a test. Every index that the code reads is in range; `none` fails the test.
abbrev tested : (ℕ → Bool) → Option ℕ → Bool
tested p none = false
tested p (some b) = p b

is_gap : ℕ → Bool
is_gap b = b == b' ' || b == 10

is_stop : ℕ → Bool
is_stop b = b == b'.' || b == b'?' || b == b'!'

-- `body.is_char_boundary(i)`: a byte of the form 10xxxxxx continues a character.
unfoldable pub is_char_boundary : List ℕ → ℕ → Bool
is_char_boundary bytes i =
    if i == 0
    then true
    else if leb (length bytes) i
    then i == length bytes
    else tested (λ b. ltb b 128 || leb 192 b) (get_elem? bytes i)

-- The loop of `find_sentence_end`, with `i` falling.
sentence_loop : List ℕ → ℕ → ℕ → Option ℕ
unfolding is_stop is_gap
sentence_loop bytes from zero = none
sentence_loop bytes from (suc i) =
    if ltb (from + 1) (suc i)
    then (if tested is_stop (get_elem? bytes (i - 1)) && tested is_gap (get_elem? bytes i)
        then some (suc i)
        else sentence_loop bytes from i)
    else none

unfoldable pub find_sentence_end : List ℕ → ℕ → ℕ → Option ℕ
unfolding sentence_loop
find_sentence_end bytes from to =
    let to' = min to (length bytes) in sentence_loop bytes (min from to') to'

-- The loop of `find_space`, with `i` falling.
space_loop : List ℕ → ℕ → ℕ → Option ℕ
unfolding is_gap
space_loop bytes to zero = none
space_loop bytes to (suc i) =
    if tested is_gap (get_elem? bytes i)
    then some (suc i)
    else if ltb 200 (to - i)
    then none
    else space_loop bytes to i

unfoldable pub find_space : List ℕ → ℕ → Option ℕ
unfolding space_loop
find_space bytes to = let to' = min to (length bytes) in space_loop bytes to' to'

-- `while i < n && !body.is_char_boundary(i) { i += 1; }`, with `n - i` rounds at most.
align_loop : List ℕ → ℕ → ℕ → ℕ
align_loop bytes zero i = i
align_loop bytes (suc rounds) i =
    let further = align_loop bytes rounds (i + 1) in if is_char_boundary bytes i then i else further

unfoldable pub align : List ℕ → ℕ → ℕ
unfolding align_loop
align bytes i = align_loop bytes (length bytes - i) i

or_else : Option ℕ → Option ℕ → ℕ → ℕ
or_else (some a) second d = a
or_else none (some b) d = b
or_else none none d = d

unfoldable pub chunk_end : List ℕ → ℕ → ℕ → ℕ
unfolding or_else
chunk_end bytes target start =
    let end0 = min (start + target) (length bytes) in
    let lookback = max (end0 - 200) (start + target / 2) in
    align bytes (
      if ltb end0 (length bytes)
      then or_else (find_sentence_end bytes lookback end0) (find_space bytes end0) end0
      else end0)

unfoldable pub next_start : List ℕ → ℕ → ℕ → ℕ → ℕ
next_start bytes overlap start end0 = align bytes (start + max (end0 - start - overlap) 1)

-- Whether `&body[start..end]` is a slice.
is_slice : List ℕ → ℕ → ℕ → Bool
is_slice bytes start end0 =
    leb start end0 && is_char_boundary bytes start && is_char_boundary bytes end0

pub data Split : Type 0 where
  ranges : List (ℕ × ℕ) → Split
  panics : Split
  out_of_fuel : Split

abbrev pub with_range : ℕ × ℕ → Split → Split
with_range r (ranges rs) = ranges (r ∷ rs)
with_range r panics = panics
with_range r out_of_fuel = out_of_fuel

-- The loop of `split_text`, with the slices as ranges.
unfoldable pub split_loop : List ℕ → ℕ → ℕ → ℕ → ℕ → Split
unfolding is_slice
split_loop bytes target overlap zero start = out_of_fuel
split_loop bytes target overlap (suc fuel) start =
    let end0 = chunk_end bytes target start in
    let rest = split_loop bytes target overlap fuel (next_start bytes overlap start end0) in
    if leb (length bytes) start
    then ranges []
    else if not (is_slice bytes start end0)
    then panics
    else if leb (length bytes) end0
    then ranges ((start, end0) ∷ [])
    else with_range (start, end0) rest

unfoldable pub split_ranges : List ℕ → ℕ → ℕ → Split
split_ranges bytes target overlap = split_loop bytes target overlap (suc (length bytes)) 0

abbrev slice : List ℕ → ℕ × ℕ → List ℕ
slice bytes (start, end0) = take (end0 - start) (drop start bytes)

abbrev is_filled : List ℕ → Bool
is_filled [] = false
is_filled (b ∷ bs) = true

unfoldable pub texts_of : (List ℕ → List ℕ) → List ℕ → Split → Option (List (List ℕ))
texts_of trim bytes (ranges rs) = some (keep is_filled (map (λ r. trim (slice bytes r)) rs))
texts_of trim bytes panics = none
texts_of trim bytes out_of_fuel = none

-- `split_text`; `none` is a panic. `trim` is `str::trim`.
unfoldable pub split_text : (List ℕ → List ℕ) → List ℕ → ℕ → ℕ → Option (List (List ℕ))
unfolding texts_of
split_text trim bytes target overlap = texts_of trim bytes (split_ranges bytes target overlap)
