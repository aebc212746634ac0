-- ===== src/Ingest/Robots.antt =====
-- crates/sap-automate-ingest/src/robots.rs: reading a robots.txt and deciding about a path. Lengths are
-- counted in characters, not bytes: the code compares only lengths of prefixes of one text, whose
-- order is the same either way.
pub mod Decide
pub mod Groups
use sap_automate.Base.{
  ℕ, zero, suc, ◌+◌, ◌-◌, ◌*◌, ◌/◌, ◌%◌, ◌^◌, ◌≤◌, ◌<◌, min, max, String, ◌≡◌, refl, sym, ap, ◌∙◌,
  subst, ◌≢◌, ◌↔◌, ◌⊎◌, inl, inr, Bool, true, false, not, ◌&&◌, ◌||◌, Option, none, some, List, [],
  ◌∷◌, ◌++◌, map, reverse, arith, dec_lt, dec_le, ℕ_discrete, ltb, leb, ◌==◌, if◌then◌else◌, ltb→lt,
  lt→ltb, leb→le, le→leb, ==_iff, tests, Bool-cases, Option-cases, List-cases, length, get_elem?,
  take, drop, any, keep, All, Has, length-append, length-take, length-reverse, All-append,
  Has-append_left, Has-append_right, Has-append, any-append, any-eq-false, take_all,
  take-append_left, take-take_le, take-take, All-take, All-weaken, All-reverse, All-keep, Eq,
  str_eq, str_eq_iff, pair_eq, pair_eq_iff, nat_key, string_key, pair_key, Text, codes, text_eq,
  text_eq_iff, text_key, ascii_lower, to_ascii_lowercase, eq_ignore_ascii_case, is_whitespace,
  trim_start_matches, trim_matches, trim, starts_with, find, split_once, split, lines,
  starts_with-length, starts_with_same,
}
use mathlib.Core.Option
use sap_automate.Base.Dict.{Dict, get, insert}

pub data Decision : Type 0 where
  allowed disallowed : Decision

-- The delay is in milliseconds.
pub record Group : Type 0 where
  pub allow : List Text
  pub disallow : List Text
  pub crawl_delay : Option ℕ

abbrev pub default_group : Group
default_group = record { allow = []; disallow = []; crawl_delay = none }

pub record RobotsTxt : Type 0 where
  pub groups : Dict Text Group

-- `line.find('#')`, and what stands before it.
unfoldable pub strip_comment : Text → Text
strip_comment [] = []
strip_comment (c ∷ s) = if c == b'#' then [] else c ∷ strip_comment s

pub data Directive : Type 0 where
  names_agent allow disallow delay unknown : Directive

-- `match key.as_str()`
unfoldable pub directive_of : Text → Directive
unfolding text_eq
directive_of key =
    if text_eq key (codes "user-agent")
    then names_agent
    else if text_eq key (codes "allow")
    then Directive.allow
    else if text_eq key (codes "disallow")
    then Directive.disallow
    else if text_eq key (codes "crawl-delay")
    then Directive.delay
    else unknown

abbrev is_filled : Text → Bool
is_filled [] = false
is_filled (c ∷ s) = true

abbrev or_group : Option Group → Group
or_group none = default_group
or_group (some g) = g

abbrev set_delay : Group → Option ℕ → Group
set_delay g none = g
set_delay g (some ms) = record g { crawl_delay = some ms }

-- What one rule does to a group. `parse_delay` reads a finite number of seconds that is not negative,
-- in whole milliseconds.
unfoldable pub add_rule : (Text → Option ℕ) → Directive → Text → Group → Group
add_rule parse_delay Directive.allow value g =
    if is_filled value then record g { allow = g.allow ++ value ∷ [] } else g
add_rule parse_delay Directive.disallow value g =
    if is_filled value then record g { disallow = g.disallow ++ value ∷ [] } else g
add_rule parse_delay Directive.delay value g = set_delay g (parse_delay value)
add_rule parse_delay _ value g = g

-- `for agent in &current_agents`
unfoldable pub add_to_agents :
    (Text → Option ℕ) → Directive → Text → List Text → Dict Text Group → Dict Text Group
unfolding add_rule
add_to_agents parse_delay d value [] groups = groups
add_to_agents parse_delay d value (agent ∷ agents) groups =
    add_to_agents parse_delay d value agents
      (insert agent (add_rule parse_delay d value (or_group (get agent groups))) groups)

-- The variables of the loop.
pub record Reading : Type 0 where
  pub groups : Dict Text Group
  pub current_agents : List Text
  pub just_saw_directive : Bool

rule_line : (Text → Option ℕ) → Directive → Text → Reading → Reading
rule_line parse_delay d value r = record r {
  groups = add_to_agents parse_delay d value r.current_agents r.groups;
  just_saw_directive = true;
}

unfoldable pub apply_line : (Text → Option ℕ) → Directive → Text → Reading → Reading
unfolding add_to_agents rule_line
apply_line parse_delay names_agent value r = record r {
  current_agents =
      (if r.just_saw_directive then [] else r.current_agents) ++ to_ascii_lowercase value ∷ [];
  just_saw_directive = false;
}
apply_line parse_delay unknown value r = r
apply_line parse_delay Directive.allow value r = rule_line parse_delay Directive.allow value r
apply_line parse_delay Directive.disallow value r = rule_line parse_delay Directive.disallow value r
apply_line parse_delay Directive.delay value r = rule_line parse_delay Directive.delay value r

by_parts : (Text → Option ℕ) → Option (Text × Text) → Reading → Reading
by_parts parse_delay none r = r
by_parts parse_delay (some (k, v)) r =
    apply_line parse_delay (directive_of (to_ascii_lowercase (trim k))) (trim v) r

-- One line. An empty line has no colon, so the early `continue` needs no case of its own.
unfoldable pub read_line : (Text → Option ℕ) → Text → Reading → Reading
unfolding by_parts apply_line strip_comment trim split_once
read_line parse_delay line r = by_parts parse_delay (split_once b':' (trim (strip_comment line))) r

unfoldable pub read_lines : (Text → Option ℕ) → List Text → Reading → Reading
read_lines parse_delay [] r = r
read_lines parse_delay (line ∷ rest) r = read_lines parse_delay rest (read_line parse_delay line r)

unfoldable pub parse : (Text → Option ℕ) → Text → RobotsTxt
unfolding lines
parse parse_delay body = record {
  groups =
      (read_lines parse_delay (lines body)
        (record { groups = []; current_agents = []; just_saw_directive = false })).groups;
}

-- `.filter(starts_with).map(len).max()`
abbrev max_some : ℕ → Option ℕ → Option ℕ
max_some n none = some n
max_some n (some m) = some (max n m)

unfoldable pub longest_prefix : List Text → Text → Option ℕ
longest_prefix [] path = none
longest_prefix (r ∷ rs) path =
    let rest = longest_prefix rs path in
    if starts_with path r then max_some (length r) rest else rest

unfoldable pub longest_prefix_match : Option (List Text) → Text → Option ℕ
unfolding longest_prefix
longest_prefix_match none path = none
longest_prefix_match (some rules) path = longest_prefix rules path

-- The best agent so far, with the length of its name.
abbrev better : ℕ → Group → Option (ℕ × Group) → Option (ℕ × Group)
better n g none = some (n, g)
better n g (some (m, h)) = if ltb m n then some (n, g) else some (m, h)

-- `for (agent, g) in &self.groups`, in the order of the map.
unfoldable pub best_prefix : Text → Dict Text Group → Option (ℕ × Group) → Option (ℕ × Group)
best_prefix ua [] best = best
best_prefix ua ((agent, g) ∷ groups) best = best_prefix ua groups (
    if text_eq agent (codes "*")
    then best
    else if starts_with ua agent
    then better (length agent) g best
    else best)

or_best : Option Group → Option (ℕ × Group) → Option Group → Option Group
or_best (some g) best star = some g
or_best none (some (n, g)) star = some g
or_best none none star = star

unfoldable pub matching_group : RobotsTxt → Text → Option Group
unfolding or_best best_prefix get
matching_group robots user_agent =
    let ua = to_ascii_lowercase user_agent in
    or_best (get ua robots.groups) (best_prefix ua robots.groups none)
      (get (codes "*") robots.groups)

unfoldable pub decide : Option ℕ → Option ℕ → Decision
decide none none = allowed
decide (some a) none = allowed
decide none (some d) = disallowed
decide (some a) (some d) = if leb d a then allowed else disallowed

unfoldable pub is_allowed : RobotsTxt → Text → Text → Decision
unfolding decide longest_prefix_match
is_allowed robots user_agent path =
    let group = matching_group robots user_agent in
    decide (longest_prefix_match (Option.map (λ g. g.allow) group) path)
      (longest_prefix_match (Option.map (λ g. g.disallow) group) path)

abbrev delay_of : Option Group → Option ℕ
delay_of none = none
delay_of (some g) = g.crawl_delay

unfoldable pub crawl_delay : RobotsTxt → Text → Option ℕ
crawl_delay robots user_agent = delay_of (matching_group robots user_agent)
