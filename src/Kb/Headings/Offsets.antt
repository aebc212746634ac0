-- ===== src/Kb/Headings/Offsets.antt =====
-- crates/sap-automate-kb/src/doc_tree.rs: where the detected headings lie in the body.
use sap_automate.Base.{
  ℕ, ◌+◌, ◌≤◌, ◌<◌, min, ◌≡◌, refl, true, false, Option, none, some, List, [], ◌∷◌, arith, dec_lt,
  ltb, nat_key, string_key, pair_key, Text, text_key, split, trim_start, byte_len,
}
use sap_automate.Kb.Headings.{
  Heading, ParsedAtx, scan, parse_atx_line, parse_marker, parse_numbered, detect_headings,
  detect_atx_headings, detect_section_markers, titled, after_hashes, after_groups, push_heading,
  or_else_headings, groups, count_hashes,
}

-- The headings stand at `from` or later, each before its body, and no body starts behind the next
-- heading or the end `n`.
abbrev pub IsLaidOut : ℕ → ℕ → List Heading → Type 0
IsLaidOut n from [] = from ≤ n
IsLaidOut n from (h ∷ hs) =
    (0 < h.depth)
    × (from ≤ h.marker_start)
    × (h.marker_start < h.body_start)
    × IsLaidOut n h.body_start hs

after_hashes_depth :
    (s : Text) (o : Option ℕ) (h : ParsedAtx) → after_hashes s o ≡ some h → 0 < h.depth
unfolding after_hashes titled
after_hashes_depth s none h e = cc
after_hashes_depth s (some depth) h e = ground arith

after_groups_depth : (o : Option (ℕ × Text)) (h : ParsedAtx) → after_groups o ≡ some h → 0 < h.depth
unfolding after_groups titled
after_groups_depth none h e = cc
after_groups_depth (some (depth, rest)) h e = ground arith

parse_atx_line_depth : (line : Text) (h : ParsedAtx) → parse_atx_line line ≡ some h → 0 < h.depth
unfolding parse_atx_line
parse_atx_line_depth line h e =
    let s = trim_start line in ground (arith, after_hashes_depth s (count_hashes 0 s) h)

parse_marker_depth : (line : Text) (h : ParsedAtx) → parse_marker line ≡ some h → 0 < h.depth
unfolding parse_marker parse_numbered titled
parse_marker_depth line h e =
    ground (arith, after_groups_depth (groups 0 false (trim_start line)) h)

IsLaidOut-earlier :
    (n early late : ℕ) (hs : List Heading)
    → early ≤ late
    → IsLaidOut n late hs
    → IsLaidOut n early hs
IsLaidOut-earlier n early late [] le h = omega arith
IsLaidOut-earlier n early late (k ∷ ks) le (d, first, second, rest) = (d, omega arith, second, rest)

push_heading-IsLaidOut :
    (n from line_start body_start : ℕ) (o : Option ParsedAtx) (hs : List Heading)
    → ((p : ParsedAtx) → o ≡ some p → 0 < p.depth)
    → from ≤ line_start
    → line_start < body_start
    → IsLaidOut n body_start hs
    → IsLaidOut n from (push_heading line_start body_start o hs)
unfolding push_heading
push_heading-IsLaidOut n from line_start body_start none hs d le lt h =
    IsLaidOut-earlier n from body_start hs (omega arith) h
push_heading-IsLaidOut n from line_start body_start (some p) hs d le lt h = (d p refl, le, lt, h)

module _ (parse : Text → Option ParsedAtx)
    (deep : (line : Text) (h : ParsedAtx) → parse line ≡ some h → 0 < h.depth) where
  scan-IsLaidOut :
      (n from i : ℕ) (rest : List Text)
      → from ≤ i
      → from ≤ n
      → IsLaidOut n from (scan parse n i rest)
  unfolding scan
  scan-IsLaidOut n from i [] le len = len
  scan-IsLaidOut n from i (line ∷ rest) le len =
      let j = i + byte_len line in
      let more = scan-IsLaidOut n (min (j + 1) n) (j + 1) rest (omega arith) (omega arith) in
      elim (dec_lt i n) [
        | yes lt ↦
            let here =
              push_heading-IsLaidOut n from i (min (j + 1) n) (parse line)
                (scan parse n (j + 1) rest) (deep line) le (omega arith) more in
            let t : ltb i n ≡ true = ground arith in rw t here
        | no ge ↦ let t : ltb i n ≡ false = ground arith in rw t len
      ]

or_else_headings-IsLaidOut :
    (n : ℕ) (hs ks : List Heading)
    → IsLaidOut n 0 hs
    → IsLaidOut n 0 ks
    → IsLaidOut n 0 (or_else_headings hs ks)
unfolding or_else_headings
or_else_headings-IsLaidOut n [] ks h k = k
or_else_headings-IsLaidOut n (x ∷ xs) ks h k = h

-- The headings that are detected have depths of at least one and stand in the body in order, each
-- with its body behind it and in front of the next heading.
pub detect_headings-IsLaidOut : (body : Text) → IsLaidOut (byte_len body) 0 (detect_headings body)
unfolding detect_headings detect_atx_headings detect_section_markers
detect_headings-IsLaidOut body =
    let n = byte_len body in
    let rows = split b'\n' body in
    or_else_headings-IsLaidOut n (scan parse_atx_line n 0 rows) (scan parse_marker n 0 rows)
      (scan-IsLaidOut parse_atx_line parse_atx_line_depth n 0 0 rows (omega arith) (omega arith))
      (scan-IsLaidOut parse_marker parse_marker_depth n 0 0 rows (omega arith) (omega arith))
