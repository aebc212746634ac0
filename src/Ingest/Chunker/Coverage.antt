-- ===== src/Ingest/Chunker/Coverage.antt =====
-- The loop ends, and its ranges cover the text.
use sap_automate.Base.{
  ℕ, zero, suc, ◌+◌, ◌-◌, ◌/◌, ◌≤◌, ◌<◌, min, max, ◌≡◌, refl, true, Option, none, some, List, [],
  ◌∷◌, arith, dec_lt, ltb, if◌then◌else◌, lt→ltb, length, nat_key, string_key, pair_key,
}
use sap_automate.Ingest.Chunker.{
  is_char_boundary, sentence_loop, find_sentence_end, space_loop, find_space, align_loop, align,
  or_else, chunk_end, next_start, is_slice, ranges, split_loop, split_ranges,
}

sentence_loop_bounds :
    (bytes : List ℕ) (from i e : ℕ) → sentence_loop bytes from i ≡ some e → (from + 1 < e) × (e ≤ i)
unfolding sentence_loop
sentence_loop_bounds bytes from zero e h = ground arith
sentence_loop_bounds bytes from (suc i) e h = ground (arith, sentence_loop_bounds bytes from i e)

space_loop_bounds :
    (bytes : List ℕ) (to i e : ℕ)
    → i ≤ to
    → to ≤ i + 200
    → space_loop bytes to i ≡ some e
    → (to ≤ e + 200) × (e ≤ to)
unfolding space_loop
space_loop_bounds bytes to zero e le near h = ground arith
space_loop_bounds bytes to (suc i) e le near h = ground (arith, space_loop_bounds bytes to i e)

boundary_end : (bytes : List ℕ) (i : ℕ) → i ≡ length bytes → is_char_boundary bytes i ≡ true
unfolding is_char_boundary
boundary_end bytes i e = ground arith

boundary_start : (bytes : List ℕ) → is_char_boundary bytes 0 ≡ true
unfolding is_char_boundary
boundary_start bytes = refl

align_loop_bounds :
    (bytes : List ℕ) (rounds i : ℕ)
    → i + rounds ≡ length bytes
    → let a = align_loop bytes rounds i in
      (i ≤ a) × (a ≤ length bytes) × (is_char_boundary bytes a ≡ true)
unfolding align_loop
align_loop_bounds bytes zero i e = ground (arith, boundary_end bytes i)
align_loop_bounds bytes (suc rounds) i e = ground (arith, align_loop_bounds bytes rounds (i + 1))

align_loop_least :
    (bytes : List ℕ) (rounds i e : ℕ)
    → i ≤ e
    → e ≤ i + rounds
    → is_char_boundary bytes e ≡ true
    → align_loop bytes rounds i ≤ e
unfolding align_loop
align_loop_least bytes zero i e le near h = omega arith
align_loop_least bytes (suc rounds) i e le near h = elim (dec_lt i e) [
  | yes lt ↦ ground (arith, align_loop_least bytes rounds (i + 1) e)
  | no ge ↦ let same : i ≡ e = omega arith in rw (same, h) (omega arith)
]

align_bounds :
    (bytes : List ℕ) (i : ℕ)
    → i ≤ length bytes
    → (i ≤ align bytes i)
      × (align bytes i ≤ length bytes)
      × (is_char_boundary bytes (align bytes i) ≡ true)
unfolding align
align_bounds bytes i le = align_loop_bounds bytes (length bytes - i) i (omega arith)

align_least :
    (bytes : List ℕ) (i e : ℕ)
    → i ≤ e
    → e ≤ length bytes
    → is_char_boundary bytes e ≡ true
    → align bytes i ≤ e
unfolding align
align_least bytes i e le near h = align_loop_least bytes (length bytes - i) i e le (omega arith) h

-- The cut before it is moved to a character boundary: with a target above 200, past the start.
find_sentence_end_bounds :
    (bytes : List ℕ) (from to e : ℕ)
    → find_sentence_end bytes from to ≡ some e
    → (min from (min to (length bytes)) + 1 < e) × (e ≤ to) × (e ≤ length bytes)
unfolding find_sentence_end
find_sentence_end_bounds bytes from to e h = ground (
  arith,
  sentence_loop_bounds bytes (min from (min to (length bytes))) (min to (length bytes)) e h,
)

find_space_bounds :
    (bytes : List ℕ) (to e : ℕ)
    → find_space bytes to ≡ some e
    → (min to (length bytes) ≤ e + 200) × (e ≤ length bytes)
unfolding find_space
find_space_bounds bytes to e h = ground (
  arith,
  space_loop_bounds bytes (min to (length bytes)) (min to (length bytes)) e (omega arith)
      (omega arith) h,
)

or_else_bounds :
    (lo hi d : ℕ) (a b : Option ℕ)
    → ((e : ℕ) → a ≡ some e → (lo < e) × (e ≤ hi))
    → ((e : ℕ) → b ≡ some e → (lo < e) × (e ≤ hi))
    → lo < d
    → d ≤ hi
    → (lo < or_else a b d) × (or_else a b d ≤ hi)
unfolding or_else
or_else_bounds lo hi d (some a) b ha hb l h = ha a refl
or_else_bounds lo hi d none (some b) ha hb l h = hb b refl
or_else_bounds lo hi d none none ha hb l h = (l, h)

chunk_end_bounds :
    (bytes : List ℕ) (target start : ℕ)
    → 200 < target
    → start < length bytes
    → let e = chunk_end bytes target start in
      (start < e) × (e ≤ length bytes) × (is_char_boundary bytes e ≡ true)
unfolding chunk_end
chunk_end_bounds bytes target start large below =
    ground (arith, align_bounds bytes cut cut_bounds.1, cut_bounds)
  where
    end0 : ℕ
    end0 = min (start + target) (length bytes)

    lookback : ℕ
    lookback = max (end0 - 200) (start + target / 2)

    by_search :
        end0 < length bytes
        → (start < or_else (find_sentence_end bytes lookback end0) (find_space bytes end0) end0)
          × (or_else (find_sentence_end bytes lookback end0) (find_space bytes end0) end0
              ≤ length bytes)
    by_search inner =
        or_else_bounds start (length bytes) end0 (find_sentence_end bytes lookback end0)
          (find_space bytes end0)
          (λ e h. omega (arith, find_sentence_end_bounds bytes lookback end0 e h))
          (λ e h. omega (arith, find_space_bounds bytes end0 e h)) (omega arith) (omega arith)

    cut : ℕ
    cut =
        if ltb end0 (length bytes)
        then or_else (find_sentence_end bytes lookback end0) (find_space bytes end0) end0
        else end0

    cut_bounds : (start < cut) × (cut ≤ length bytes)
    cut_bounds = elim (dec_lt end0 (length bytes)) [
      | yes inner ↦ rw (lt→ltb end0 (length bytes) inner) (by_search inner)
      | no outer ↦ ground arith
    ]

next_start_bounds :
    (bytes : List ℕ) (overlap start e : ℕ)
    → start < e
    → e ≤ length bytes
    → is_char_boundary bytes e ≡ true
    → let s = next_start bytes overlap start e in
      (start < s) × (s ≤ e) × (is_char_boundary bytes s ≡ true)
unfolding next_start
next_start_bounds bytes overlap start e lt le h = ground (
  arith,
  align_bounds bytes (start + max (e - start - overlap) 1),
  align_least bytes (start + max (e - start - overlap) 1) e,
)

-- Ranges that cover what is left of a text from `covered` on, with no gap, and each further than the
-- last.
abbrev pub Covers : ℕ → ℕ → ℕ → List (ℕ × ℕ) → Type 0
Covers total after covered [] = total ≤ covered
Covers total after covered ((a, b) ∷ rs) =
    (after ≤ a) × (a ≤ covered) × (a < b) × (b ≤ total) × Covers total (a + 1) (max covered b) rs

Covers-earlier :
    (total early after covered : ℕ) (rs : List (ℕ × ℕ))
    → early ≤ after
    → Covers total after covered rs
    → Covers total early covered rs
Covers-earlier total early after covered [] le h = h
Covers-earlier total early after covered ((a, b) ∷ rs) le h =
    (omega (arith, h.0), h.1, h.2, h.3, h.4)

module _ (bytes : List ℕ) (target overlap : ℕ) (large : 200 < target) where
  split_loop-Covers :
      (fuel start covered : ℕ)
      → length bytes < start + fuel
      → is_char_boundary bytes start ≡ true
      → start ≤ covered
      → covered ≤ length bytes
      → (rs : List (ℕ × ℕ)) × (split_loop bytes target overlap fuel start ≡ ranges rs)
        × Covers (length bytes) start covered rs
  unfolding split_loop is_slice
  split_loop-Covers zero start covered enough h le in_text = absurd (omega arith)
  split_loop-Covers (suc fuel) start covered enough h le in_text =
      elim (dec_lt start (length bytes)) [
        | no past ↦ ([], ground arith, omega arith)
        | yes inner ↦
            let cut = chunk_end_bounds bytes target start large inner in
            elim (dec_lt (chunk_end bytes target start) (length bytes)) [
              | no last ↦ (
                (start, chunk_end bytes target start) ∷ [],
                ground (arith, cut, h),
                omega (arith, cut),
              )
              | yes more ↦
                  let next =
                    next_start_bounds bytes overlap start (chunk_end bytes target start) cut.0 cut.1
                      cut.2 in
                  let (rs, same, covers) =
                    split_loop-Covers fuel
                      (next_start bytes overlap start (chunk_end bytes target start))
                      (max covered (chunk_end bytes target start)) (omega (arith, next)) next.2
                      (omega (arith, next)) (omega (arith, cut)) in
                  (
                    (start, chunk_end bytes target start) ∷ rs,
                    ground (arith, cut, h, same),
                    (
                      omega arith,
                      le,
                      cut.0,
                      cut.1,
                      Covers-earlier (length bytes) (start + 1)
                          (next_start bytes overlap start (chunk_end bytes target start))
                          (max covered (chunk_end bytes target start)) rs (omega (arith, next))
                          covers,
                    ),
                  )
            ]
      ]

-- With a target above 200 the splitting of any text ends without a panic, and its ranges cover the
-- whole text with no gap; each starts after the one before it.
pub split_ranges-Covers :
    (bytes : List ℕ) (target overlap : ℕ)
    → 200 < target
    → (rs : List (ℕ × ℕ)) × (split_ranges bytes target overlap ≡ ranges rs)
      × Covers (length bytes) 0 0 rs
unfolding split_ranges
split_ranges-Covers bytes target overlap large =
    split_loop-Covers bytes target overlap large (suc (length bytes)) 0 0 (omega arith)
      (boundary_start bytes) (omega arith) (omega arith)
