-- ===== src/Ingest/Tests.antt =====
-- Two hosts and their fetches.
use mathlib.Core.Path.{refl}
use sap_automate.Base.{
  String, ◌≡◌, ◌≢◌, List, [], ◌∷◌, arith, All, str_eq_iff, nat_key, string_key, pair_key, ℕ, codes,
  Text, lines, length, Option, split, ◌↔◌, none, trim, some, trim_matches, trim_start_matches,
  split_once, text_eq, starts_with, ascii_lower, is_whitespace,
}
use sap_automate.Base.Dict.{get, insert}
use sap_automate.Ingest.Chunker.{
  ranges, panics, split_ranges, split_loop, chunk_end, find_sentence_end, find_space, align,
  next_start, is_char_boundary,
}
use sap_automate.Ingest.Chunker.Coverage.{Covers, split_ranges-Covers}
use sap_automate.Ingest.Robots.{
  allowed, disallowed, Group, RobotsTxt, parse, read_lines, read_line, apply_line, directive_of,
  add_to_agents, add_rule, strip_comment, matching_group, best_prefix, is_allowed,
  longest_prefix_match, longest_prefix, decide,
}
use sap_automate.Ingest.Robots.Decide.{IsForbidden, is_allowed_iff}
use sap_automate.Ingest.RateLimit.{Op, acquires, sets}
use sap_automate.Ingest.RateLimit.Spacing.{Spares}

abbrev host_a : String
host_a = "a"

abbrev host_b : String
host_b = "b"

abbrev between : List Op
between = acquires "b" 5 ∷ sets "a" 7 6 ∷ []

spared : All (Spares "a") between
spared = (other, (tt, tt))
  where
    other : host_b ≢ host_a
    other = ground (arith, str_eq_iff host_b host_a)

-- A text with no sentence end.
abbrev body : List ℕ
body = codes "posting period closed"

split_ranges-Covers_example :
    (rs : List (ℕ × ℕ)) × (split_ranges body 300 50 ≡ ranges rs) × Covers (length body) 0 0 rs
split_ranges-Covers_example = split_ranges-Covers body 300 50 (omega arith)

-- With a target of 1, a cut at the space before the start.
narrow_target_panics : split_ranges (codes " aaaa") 1 0 ≡ panics
unfolding split_ranges split_loop chunk_end find_sentence_end find_space align next_start
    is_char_boundary
narrow_target_panics = refl

abbrev no_delay : Text → Option ℕ
no_delay t = none

abbrev robots : RobotsTxt
robots =
    parse no_delay
      (codes "User-agent: *\nDisallow: /private/ # keep out\nAllow: /private/public/\n")

public_is_allowed : is_allowed robots (codes "Bot") (codes "/private/public/a") ≡ allowed
unfolding parse read_lines read_line apply_line directive_of add_to_agents add_rule lines split trim
    trim_matches trim_start_matches split_once strip_comment text_eq get insert matching_group
    best_prefix is_allowed longest_prefix_match longest_prefix starts_with decide ascii_lower
    is_whitespace
public_is_allowed = refl

is_allowed_iff_example : (is_allowed robots (codes "Bot") (codes "/private/x") ≡ disallowed) ↔ (
    (g : Group) × (matching_group robots (codes "Bot") ≡ some g)
    × IsForbidden g (codes "/private/x"))
is_allowed_iff_example = is_allowed_iff robots (codes "Bot") (codes "/private/x")
