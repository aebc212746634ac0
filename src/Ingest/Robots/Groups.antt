-- ===== src/Ingest/Robots/Groups.antt =====
-- Which group speaks for an agent.
use sap_automate.Base.{
  ℕ, ◌≤◌, ◌≡◌, refl, ◌≢◌, ◌⊎◌, inl, inr, true, false, Option, none, some, [], ◌∷◌, arith, dec_lt,
  ltb, if◌then◌else◌, lt→ltb, Bool-cases, length, All, Has, nat_key, string_key, pair_key, Text,
  codes, text_eq, text_eq_iff, text_key, to_ascii_lowercase, starts_with,
}
use sap_automate.Base.Dict.{Dict, get}
use sap_automate.Ingest.Robots.{Group, RobotsTxt, better, best_prefix, or_best, matching_group}

abbrev pub star : Text
star = codes "*"

module _ (ua : Text) where
  -- The name is a prefix of the agent and not the wildcard.
  abbrev IsCandidate : Text → Type 0
  IsCandidate a = (text_eq a star ≡ false) × (starts_with ua a ≡ true)

  abbrev ComesFrom : Dict Text Group → Option (ℕ × Group) → Type 0
  ComesFrom all none = Unit
  ComesFrom all (some (n, g)) = (a : Text) × Has (a, g) all × IsCandidate a × (length a ≡ n)

  abbrev AtLeast : ℕ → Option (ℕ × Group) → Type 0
  AtLeast n none = ⊥
  AtLeast n (some (m, g)) = n ≤ m

  abbrev Exceeds : Option (ℕ × Group) → Option (ℕ × Group) → Type 0
  Exceeds none r = Unit
  Exceeds (some (n, g)) r = AtLeast n r

  -- The name is no candidate, or no longer than what was found.
  abbrev IsBeaten : Option (ℕ × Group) → Text × Group → Type 0
  IsBeaten r (a, g) = (text_eq a star ≡ true) ⊎ (starts_with ua a ≡ false) ⊎ AtLeast (length a) r

  better-ComesFrom :
      (all : Dict Text Group) (a : Text) (g : Group) (best : Option (ℕ × Group))
      → Has (a, g) all
      → IsCandidate a
      → ComesFrom all best
      → ComesFrom all (better (length a) g best)
  better-ComesFrom all a g none has c h = (a, has, c, refl)
  better-ComesFrom all a g (some (m, k)) has c h = elim (dec_lt m (length a)) [
    | yes lt ↦ rw (lt→ltb m (length a) lt) (a, has, c, refl)
    | no ge ↦ let stays : ltb m (length a) ≡ false = ground arith in rw stays h
  ]

  better_grows :
      (a : Text) (g : Group) (best : Option (ℕ × Group))
      → Exceeds best (better (length a) g best) × AtLeast (length a) (better (length a) g best)
  better_grows a g none = (tt, omega arith)
  better_grows a g (some (m, k)) = elim (dec_lt m (length a)) [
    | yes lt ↦ rw (lt→ltb m (length a) lt) (omega arith, omega arith)
    | no ge ↦
        let stays : ltb m (length a) ≡ false = ground arith in rw stays (omega arith, omega arith)
  ]

  AtLeast-Exceeds : (n : ℕ) (r s : Option (ℕ × Group)) → AtLeast n r → Exceeds r s → AtLeast n s
  AtLeast-Exceeds n none s h e = absurd h
  AtLeast-Exceeds n (some (m, g)) none h e = absurd e
  AtLeast-Exceeds n (some (m, g)) (some (k, d)) h e = omega arith

  Exceeds-trans : (r s t : Option (ℕ × Group)) → Exceeds r s → Exceeds s t → Exceeds r t
  Exceeds-trans none s t h e = tt
  Exceeds-trans (some (n, g)) s t h e = AtLeast-Exceeds n s t h e

  Exceeds-refl : (r : Option (ℕ × Group)) → Exceeds r r
  Exceeds-refl none = tt
  Exceeds-refl (some (n, g)) = omega arith

  abbrev step : Text × Group → Option (ℕ × Group) → Option (ℕ × Group)
  step (a, g) best =
      if text_eq a star then best else if starts_with ua a then better (length a) g best else best

  step_lem :
      (all : Dict Text Group) (a : Text) (g : Group) (best : Option (ℕ × Group))
      → Has (a, g) all
      → ComesFrom all best
      → ComesFrom all (step (a, g) best)
        × Exceeds best (step (a, g) best)
        × IsBeaten (step (a, g) best) (a, g)
  step_lem all a g best has from = elim (Bool-cases (text_eq a star)) [
    | inl wild ↦ rw wild (from, Exceeds-refl best, inl refl)
    | inr named ↦ elim (Bool-cases (starts_with ua a)) [
      | inl pre ↦
          let grows = better_grows a g best in
          rw (named, pre)
            (better-ComesFrom all a g best has (named, pre) from, grows.0, inr (inr grows.1))
      | inr other ↦ rw (named, other) (from, Exceeds-refl best, inr (inl refl))
    ]
  ]

  IsBeaten-still :
      (r s : Option (ℕ × Group)) (kg : Text × Group) → Exceeds r s → IsBeaten r kg → IsBeaten s kg
  IsBeaten-still r s (a, g) e (inl wild) = inl wild
  IsBeaten-still r s (a, g) e (inr (inl other)) = inr (inl other)
  IsBeaten-still r s (a, g) e (inr (inr least)) = inr (inr (AtLeast-Exceeds (length a) r s least e))

  best_prefix_lem :
      (groups all : Dict Text Group) (best : Option (ℕ × Group))
      → ((kg : Text × Group) → Has kg groups → Has kg all)
      → ComesFrom all best
      → let r = best_prefix ua groups best in
        ComesFrom all r × Exceeds best r × All (IsBeaten r) groups
  unfolding best_prefix
  best_prefix_lem [] all best within from = (from, Exceeds-refl best, tt)
  best_prefix_lem ((a, g) ∷ groups) all best within from =
      let one = step_lem all a g best (within (a, g) (inl refl)) from in
      let rest = best_prefix_lem groups all (step (a, g) best) (λ kg h. within kg (inr h)) one.0 in
      (
        rest.0,
        Exceeds-trans best (step (a, g) best) (best_prefix ua groups (step (a, g) best)) one.1
            rest.1,
        (
          IsBeaten-still (step (a, g) best) (best_prefix ua groups (step (a, g) best)) (a, g) rest.1
              one.2,
          rest.2,
        ),
      )

ne_star : (a : Text) → text_eq a star ≡ false → a ≢ star
ne_star a = ground (arith, text_eq_iff a star)

-- The name is the wildcard, or no prefix of the agent, or at most that long.
abbrev pub IsNoBetter : Text → ℕ → Text × Group → Type 0
IsNoBetter ua n (a, g) = (a ≡ star) ⊎ (starts_with ua a ≡ false) ⊎ (length a ≤ n)

none_named :
    (ua : Text) (groups : Dict Text Group)
    → All (IsBeaten ua none) groups
    → All (λ kg. (kg.0 ≡ star) ⊎ (starts_with ua kg.0 ≡ false)) groups
none_named ua [] h = tt
none_named ua ((a, g) ∷ groups) (inl wild, h) =
    (inl ((text_eq_iff a star).0 wild), none_named ua groups h)
none_named ua ((a, g) ∷ groups) (inr (inl other), h) = (inr other, none_named ua groups h)
none_named ua ((a, g) ∷ groups) (inr (inr least), h) = absurd least

none_better :
    (ua : Text) (n m : ℕ) (k : Group) (groups : Dict Text Group)
    → n ≡ m
    → All (IsBeaten ua (some (m, k))) groups
    → All (IsNoBetter ua n) groups
none_better ua n m k [] same h = tt
none_better ua n m k ((a, g) ∷ groups) same (inl wild, h) =
    (inl ((text_eq_iff a star).0 wild), none_better ua n m k groups same h)
none_better ua n m k ((a, g) ∷ groups) same (inr (inl other), h) =
    (inr (inl other), none_better ua n m k groups same h)
none_better ua n m k ((a, g) ∷ groups) same (inr (inr least), h) =
    (inr (inr (omega (arith, same, least))), none_better ua n m k groups same h)

-- How a group was chosen.
abbrev pub IsChosen : RobotsTxt → Text → Option Group → Type 0
IsChosen robots ua chosen =
    ((g : Group) × (get ua robots.groups ≡ some g) × (chosen ≡ some g))
    ⊎ ((get ua robots.groups ≡ none)
        × (a : Text) × (g : Group) × Has (a, g) robots.groups
        × (a ≢ star)
        × (starts_with ua a ≡ true)
        × All (IsNoBetter ua (length a)) robots.groups
        × (chosen ≡ some g))
    ⊎ ((get ua robots.groups ≡ none)
        × All (λ kg. (kg.0 ≡ star) ⊎ (starts_with ua kg.0 ≡ false)) robots.groups
        × (chosen ≡ get star robots.groups))

-- The group for an agent, whatever the order of the map: the one under its own name; or else the one
-- under the longest name, other than the wildcard, that is a prefix of it; or else the wildcard's.
-- Names are compared in lower case.
pub matching_group-IsChosen :
    (robots : RobotsTxt) (user_agent : Text)
    → IsChosen robots (to_ascii_lowercase user_agent) (matching_group robots user_agent)
unfolding matching_group or_best
matching_group-IsChosen robots user_agent =
    chosen (get ua robots.groups) refl (best_prefix ua robots.groups none)
      (best_prefix_lem ua robots.groups robots.groups none (λ kg h. h) tt)
  where
    ua : Text
    ua = to_ascii_lowercase user_agent

    chosen :
        (o : Option Group)
        → get ua robots.groups ≡ o
        → (r : Option (ℕ × Group))
        → ComesFrom ua robots.groups r × Unit {0} × All (IsBeaten ua r) robots.groups
        → IsChosen robots ua (or_best o r (get star robots.groups))
    chosen (some g) e r h = inl (g, e, refl)
    chosen none e none h = inr (inr (e, none_named ua robots.groups h.2, refl))
    chosen none e (some (n, g)) ((a, has, c, len), u, all) = inr (
        inl (
          e,
          a,
          g,
          has,
          ne_star a c.0,
          c.1,
          none_better ua (length a) n g robots.groups len all,
          refl,
        ))
