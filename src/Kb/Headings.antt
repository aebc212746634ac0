-- ===== src/Kb/Headings.antt =====
-- crates/sap-automate-kb/src/doc_tree.rs: the detection of headings and the extractive summary. A
-- body is its code points, and an offset counts bytes. A depth is a number without bound: to leave
-- the 32 bits it would take a line of that many dots.
pub mod Offsets
use sap_automate.Base.{
  ℕ, zero, suc, ◌+◌, ◌-◌, ◌*◌, ◌/◌, ◌%◌, ◌^◌, ◌≤◌, ◌<◌, min, max, String, ◌≡◌, refl, sym, ap, ◌∙◌,
  subst, ◌≢◌, ◌↔◌, ◌⊎◌, inl, inr, Bool, true, false, not, ◌&&◌, ◌||◌, Option, none, some, List, [],
  ◌∷◌, ◌++◌, map, reverse, arith, dec_lt, dec_le, ℕ_discrete, ltb, leb, ◌==◌, if◌then◌else◌, ltb→lt,
  lt→ltb, leb→le, le→leb, ==_iff, tests, Bool-cases, Option-cases, List-cases, length, get_elem?,
  take, drop, any, keep, All, Has, length-append, length-take, length-reverse, All-append,
  Has-append_left, Has-append_right, Has-append, any-append, any-eq-false, take_all,
  take-append_left, take-take_le, take-take, All-take, All-weaken, All-reverse, All-keep, Eq,
  str_eq, str_eq_iff, pair_eq, pair_eq_iff, nat_key, string_key, pair_key, Text, codes, text_eq,
  text_eq_iff, text_key, ascii_lower, to_ascii_lowercase, eq_ignore_ascii_case, is_whitespace,
  trim_start_matches, trim_matches, trim, starts_with, find, split_once, split, lines,
  starts_with-length, starts_with_same, trim_start, trim_end_matches, utf8_len, byte_len,
  skip_bytes, take_bytes, get_range,
}

pub record Heading : Type 0 where
  pub depth : ℕ
  pub title : Text
  pub marker_start : ℕ
  pub body_start : ℕ

pub record ParsedAtx : Type 0 where
  pub depth : ℕ
  pub title : Text

unfoldable pub is_empty : Text → Bool
is_empty [] = true
is_empty (c ∷ s) = false

-- The tail of `parse_atx_line` and of `parse_numbered`: no title, no heading.
titled : ℕ → Text → Option ParsedAtx
unfolding is_empty
titled depth title = if is_empty title then none else some (record { depth = depth; title = title })

is_blank : ℕ → Bool
is_blank c = c == b' ' || c == b'\t'

starts_blank : Text → Bool
unfolding is_blank
starts_blank [] = false
starts_blank (c ∷ s) = is_blank c

-- `for ch in trimmed.chars()`: the number of hashes, none above six.
count_hashes : ℕ → Text → Option ℕ
count_hashes depth [] = some depth
count_hashes depth (c ∷ s) =
    let more = count_hashes (depth + 1) s in
    if c == b'#' then (if ltb 6 (depth + 1) then none else more) else some depth

after_hashes : Text → Option ℕ → Option ParsedAtx
unfolding titled starts_blank
after_hashes trimmed none = none
after_hashes trimmed (some depth) =
    let rest = drop depth trimmed in
    if depth == 0 || ltb 6 depth
    then none
    else if not (starts_blank rest)
    then none
    else titled depth (trim (trim_end_matches (λ c. c == b'#') (trim rest)))

unfoldable pub parse_atx_line : Text → Option ParsedAtx
unfolding count_hashes after_hashes starts_with
parse_atx_line line =
    let trimmed = trim_start line in
    if not (starts_with trimmed (codes "#"))
    then none
    else after_hashes trimmed (count_hashes 0 trimmed)

is_digit : ℕ → Bool
is_digit c = leb b'0' c && leb c b'9'

-- The loop over the groups of digits and a dot; `digits` tells that the group has digits so far. It
-- gives the number of groups and the text behind them.
groups : ℕ → Bool → Text → Option (ℕ × Text)
unfolding is_digit
groups depth digits [] = if digits then none else some (depth, [])
groups depth digits (c ∷ s) =
    let in_group = groups depth true s in
    let next_group = groups (depth + 1) false s in
    if is_digit c
    then in_group
    else if digits
    then (if c == b'.' then next_group else none)
    else some (depth, c ∷ s)

after_groups : Option (ℕ × Text) → Option ParsedAtx
unfolding titled starts_blank
after_groups none = none
after_groups (some (depth, rest)) =
    if depth == 0 then none else if not (starts_blank rest) then none else titled depth (trim rest)

unfoldable pub parse_numbered : Text → Option ParsedAtx
unfolding groups after_groups
parse_numbered line = after_groups (groups 0 false line)

-- The body of the loop of `detect_section_markers`.
unfoldable pub parse_marker : Text → Option ParsedAtx
unfolding titled parse_numbered starts_with
parse_marker line =
    let trimmed = trim_start line in
    if starts_with trimmed (codes "SECTION:")
    then titled 1 (trim (drop 8 trimmed))
    else parse_numbered trimmed

push_heading : ℕ → ℕ → Option ParsedAtx → List Heading → List Heading
push_heading line_start body_start none more = more
push_heading line_start body_start (some h) more =
    record { depth = h.depth; title = h.title; marker_start = line_start; body_start = body_start }
    ∷ more

-- The loop `while i < n` over the lines, from the one at byte `i`.
unfoldable pub scan : (Text → Option ParsedAtx) → ℕ → ℕ → List Text → List Heading
unfolding push_heading
scan parse n i [] = []
scan parse n i (line ∷ rest) =
    let j = i + byte_len line in
    let more = scan parse n (j + 1) rest in
    if ltb i n then push_heading i (min (j + 1) n) (parse line) more else []

unfoldable pub detect_atx_headings : Text → List Heading
unfolding scan parse_atx_line split
detect_atx_headings body = scan parse_atx_line (byte_len body) 0 (split b'\n' body)

unfoldable pub detect_section_markers : Text → List Heading
unfolding scan parse_marker split
detect_section_markers body = scan parse_marker (byte_len body) 0 (split b'\n' body)

or_else_headings : List Heading → List Heading → List Heading
or_else_headings [] other = other
or_else_headings (h ∷ hs) other = h ∷ hs

unfoldable pub detect_headings : Text → List Heading
unfolding or_else_headings detect_atx_headings detect_section_markers
detect_headings body = or_else_headings (detect_atx_headings body) (detect_section_markers body)

is_stop : ℕ → Bool
is_stop c = c == b'.' || c == b'!' || c == b'?'

-- The loop of `extract_summary`, with the bytes and the sentences so far.
two_sentences : ℕ → ℕ → Text → Text
unfolding is_stop
two_sentences size sentences [] = []
two_sentences size sentences (c ∷ s) =
    let size = size + utf8_len c in
    let sentences = if is_stop c then sentences + 1 else sentences in
    let more = two_sentences size sentences s in
    c ∷ (if leb 2 sentences || leb 280 size then [] else more)

unfoldable pub extract_summary : Text → Text
unfolding two_sentences utf8_len is_empty
extract_summary body =
    let body = trim body in if is_empty body then [] else trim (two_sentences 0 0 body)
