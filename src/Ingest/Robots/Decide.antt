-- ===== src/Ingest/Robots/Decide.antt =====
-- The longest rule decides, and a tie allows.
use sap_automate.Base.{
  ℕ, ◌≤◌, ◌<◌, max, ◌≡◌, refl, subst, ◌↔◌, ◌⊎◌, inl, inr, Bool, true, false, Option, none, some,
  List, [], ◌∷◌, arith, dec_lt, if◌then◌else◌, length, All, Has, nat_key, string_key, pair_key,
  Text, text_key, starts_with,
}
use mathlib.Core.Option
use sap_automate.Ingest.Robots.{
  disallowed, Group, RobotsTxt, longest_prefix, longest_prefix_match, decide, matching_group,
  is_allowed, max_some,
}

-- A rule of the list that the path starts with.
abbrev pub Applies : Text → List Text → Text → Type 0
Applies path rules r = Has r rules × (starts_with path r ≡ true)

-- The rule does not apply, or is at most that long.
abbrev IsWithin : Text → ℕ → Text → Type 0
IsWithin path n r = (starts_with path r ≡ false) ⊎ (length r ≤ n)

-- What `max` finds: the length of the longest rule that applies.
abbrev IsLongest : List Text → Text → Option ℕ → Type 0
IsLongest rules path none = All (λ r. starts_with path r ≡ false) rules
IsLongest rules path (some n) =
    ((r : Text) × Has r rules × (starts_with path r ≡ true) × (length r ≡ n))
    × All (IsWithin path n) rules

IsWithin-weaken :
    (path : Text) (rules : List Text) (n m : ℕ)
    → n ≤ m
    → All (IsWithin path n) rules
    → All (IsWithin path m) rules
IsWithin-weaken path [] n m le h = tt
IsWithin-weaken path (r ∷ rs) n m le (inl out, t) = (inl out, IsWithin-weaken path rs n m le t)
IsWithin-weaken path (r ∷ rs) n m le (inr small, t) =
    (inr (omega arith), IsWithin-weaken path rs n m le t)

none-IsWithin :
    (path : Text) (rules : List Text) (m : ℕ)
    → All (λ r. starts_with path r ≡ false) rules
    → All (IsWithin path m) rules
none-IsWithin path [] m h = tt
none-IsWithin path (r ∷ rs) m h = (inl h.0, none-IsWithin path rs m h.1)

IsLongest-cons :
    (r : Text) (rs : List Text) (path : Text) (b : Bool) (o : Option ℕ)
    → starts_with path r ≡ b
    → IsLongest rs path o
    → IsLongest (r ∷ rs) path (if b then max_some (length r) o else o)
IsLongest-cons r rs path false none e h = (e, h)
IsLongest-cons r rs path false (some n) e ((q, has, pre, len), all) =
    ((q, inr has, pre, len), (inl e, all))
IsLongest-cons r rs path true none e h =
    ((r, inl refl, e, refl), (inr (omega arith), none-IsWithin path rs (length r) h))
IsLongest-cons r rs path true (some n) e ((q, has, pre, len), all) =
    (longest, (inr (omega arith), IsWithin-weaken path rs n (max (length r) n) (omega arith) all))
  where
    longest :
        (x : Text) × Has x (r ∷ rs) × (starts_with path x ≡ true) × (length x ≡ max (length r) n)
    longest = elim (dec_lt (length r) n) [
      | yes lt ↦ (q, inr has, pre, omega (arith, len))
      | no ge ↦ (r, inl refl, e, omega arith)
    ]

longest_prefix-IsLongest :
    (rules : List Text) (path : Text) → IsLongest rules path (longest_prefix rules path)
unfolding longest_prefix
longest_prefix-IsLongest [] path = tt
longest_prefix-IsLongest (r ∷ rs) path =
    IsLongest-cons r rs path (starts_with path r) (longest_prefix rs path) refl
      (longest_prefix-IsLongest rs path)

-- Some rule that forbids applies, and each rule that allows does not apply or is shorter.
abbrev pub IsForbidden : Group → Text → Type 0
IsForbidden g path =
    (r : Text) × Applies path g.disallow r
    × All (λ a. (starts_with path a ≡ false) ⊎ (length a < length r)) g.allow

shorter :
    (path : Text) (rules : List Text) (n m : ℕ)
    → n < m
    → All (IsWithin path n) rules
    → All (λ a. (starts_with path a ≡ false) ⊎ (length a < m)) rules
shorter path [] n m lt h = tt
shorter path (r ∷ rs) n m lt (inl out, t) = (inl out, shorter path rs n m lt t)
shorter path (r ∷ rs) n m lt (inr small, t) = (inr (omega arith), shorter path rs n m lt t)

none_shorter :
    (path : Text) (rules : List Text) (m : ℕ)
    → All (λ r. starts_with path r ≡ false) rules
    → All (λ a. (starts_with path a ≡ false) ⊎ (length a < m)) rules
none_shorter path [] m h = tt
none_shorter path (r ∷ rs) m h = (inl h.0, none_shorter path rs m h.1)

-- What holds of a rule of the list.
at_rule : (P : Text → Type 0) (rules : List Text) (r : Text) → Has r rules → All P rules → P r
at_rule P [] r has h = absurd has
at_rule P (q ∷ qs) r (inl e) h = rw e h.0
at_rule P (q ∷ qs) r (inr has) h = at_rule P qs r has h.1

none_forbids :
    (g : Group) (path : Text)
    → All (λ r. starts_with path r ≡ false) g.disallow
    → IsForbidden g path
    → ⊥
none_forbids g path none_applies (r, (has, pre), shorter_all) =
    ground (arith, pre, at_rule (λ q. starts_with path q ≡ false) g.disallow r has none_applies)

outweighed :
    (g : Group) (path : Text) (a d : ℕ)
    → d ≤ a
    → IsLongest g.allow path (some a)
    → IsLongest g.disallow path (some d)
    → IsForbidden g path
    → ⊥
outweighed g path a d le ((q, has_q, pre_q, len_q), all_a) (longest_d, all_d) (r, (has, pre), all) =
    ground (
      arith,
      pre,
      pre_q,
      len_q,
      at_rule (IsWithin path d) g.disallow r has all_d,
      at_rule (λ x. (starts_with path x ≡ false) ⊎ (length x < length r)) g.allow q has_q all,
    )

decide_iff :
    (g : Group) (path : Text) (a d : Option ℕ)
    → IsLongest g.allow path a
    → IsLongest g.disallow path d
    → (decide a d ≡ disallowed) ↔ IsForbidden g path
unfolding decide
decide_iff g path none none ha hd = (λ e. cc, λ f. absurd (none_forbids g path hd f))
decide_iff g path (some a) none ha hd = (λ e. cc, λ f. absurd (none_forbids g path hd f))
decide_iff g path none (some d) ha ((r, has, pre, len), all) =
    (λ e. (r, (has, pre), none_shorter path g.allow (length r) ha), λ f. refl)
decide_iff g path (some a) (some d) (longest, all_a) ((r, has, pre, len), all) = elim (dec_lt a d) [
  | yes lt ↦ (
    λ e. (r, (has, pre), shorter path g.allow a (length r) (omega (arith, len)) all_a),
    λ f. ground arith,
  )
  | no ge ↦ (
    λ e. ground arith,
    λ f. absurd (outweighed g path a d (omega arith) (longest, all_a) ((r, has, pre, len), all) f),
  )
]

-- A path is refused exactly when the group that matches the agent forbids it: some `Disallow` rule of
-- the group applies, and every `Allow` rule of it that applies is shorter. Where no group matches
-- the agent, the path is allowed.
pub is_allowed_iff :
    (robots : RobotsTxt) (user_agent path : Text)
    → (is_allowed robots user_agent path ≡ disallowed)
      ↔ ((g : Group) × (matching_group robots user_agent ≡ some g) × IsForbidden g path)
unfolding is_allowed longest_prefix_match
is_allowed_iff robots user_agent path = by_group (matching_group robots user_agent)
  where
    by_group :
        (o : Option Group)
        → (decide
              (longest_prefix_match (Option.map (λ g. g.allow) o) path)
              (longest_prefix_match (Option.map (λ g. g.disallow) o) path)
            ≡ disallowed)
          ↔ ((g : Group) × (o ≡ some g) × IsForbidden g path)
    by_group none = (λ e. cc, λ (g, e, f). cc)
    by_group (some g) =
        let iff =
          decide_iff g path (longest_prefix g.allow path) (longest_prefix g.disallow path)
            (longest_prefix-IsLongest g.allow path) (longest_prefix-IsLongest g.disallow path) in
        (
          λ e. (g, refl, iff.0 e),
          λ (h, e, f). iff.1 (let same : h ≡ g = cc in subst (λ x. IsForbidden x path) same f),
        )
