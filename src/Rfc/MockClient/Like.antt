-- ===== src/Rfc/MockClient/Like.antt =====
-- crates/sap-automate-rfc/src/client.rs: `sql_like`. `to_lowercase` is that of `str`.
use sap_automate.Base.{
  ℕ, Bool, not, ◌&&◌, ◌||◌, Option, none, some, [], ◌∷◌, ◌++◌, reverse, ◌==◌, if◌then◌else◌, any,
  keep, nat_key, string_key, pair_key, Text, codes, text_eq, text_key, starts_with, contains,
}
use mathlib.Core.Option

-- The regular expression of `sql_like`, without its ends.
abbrev translate : Text → Text
translate [] = []
translate (c ∷ p) =
    (if c == b'%'
      then codes ".*"
      else if c == b'_'
      then codes "."
      else if any (λ d. d == c) (codes "\\.+?^${}()|[]")
      then b'\\' ∷ c ∷ []
      else c ∷ [])
    ++ translate p

unfoldable pub strip_prefix : Text → Text → Option Text
strip_prefix [] s = some s
strip_prefix (c ∷ t) [] = none
strip_prefix (c ∷ t) (d ∷ s) = if c == d then strip_prefix t s else none

unfoldable pub strip_suffix : Text → Text → Option Text
unfolding strip_prefix
strip_suffix t s = Option.map reverse (strip_prefix (reverse t) (reverse s))

or_self : Text → Option Text → Text
or_self s none = s
or_self s (some t) = t

by_suffix : Text → Text → Option Text → Bool
unfolding text_eq starts_with
by_suffix h stripped none = text_eq h stripped
by_suffix h stripped (some prefix) = starts_with h prefix

by_prefix : Text → Text → Option Text → Bool
unfolding contains strip_suffix or_self by_suffix
by_prefix h stripped none = by_suffix h stripped (strip_suffix (codes ".*") stripped)
by_prefix h stripped (some rest) = contains h (or_self rest (strip_suffix (codes ".*") rest))

abbrev is_anchor : ℕ → Bool
is_anchor c = c == b'^' || c == b'$' || c == b'\\'

module _ (to_lowercase : Text → Text) where
  unfoldable pub sql_like : Text → Text → Bool
  unfolding by_prefix strip_prefix text_eq
  sql_like haystack pattern =
      let h = to_lowercase haystack in
      let p = to_lowercase pattern in
      let re = b'^' ∷ (translate p ++ b'$' ∷ []) in
      let stripped = keep (λ c. not (is_anchor c)) re in
      if not (any (λ c. c == b'%') p) && not (any (λ c. c == b'_') p)
      then text_eq h p
      else by_prefix h stripped (strip_prefix (codes ".*") stripped)
