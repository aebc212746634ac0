-- ===== src/Rfc/BapiRet2/Failure.antt =====
-- Which results count as failed.
use mathlib.Core.List.{filter_map}
use sap_automate.Base.{
  ℕ, ◌≤◌, ◌≡◌, refl, sym, ap, ◌∙◌, ◌↔◌, ◌⊎◌, Bool, false, ◌||◌, List, [], ◌∷◌, String, Option, none,
  some, arith, any, nat_key, string_key, pair_key, any-eq-false,
}
use Prim.Native.Char.{code}
use sap_automate.Json.{Value, null, bool, number, string, array, object, Fields, get_field}
use sap_automate.Rfc.BapiRet2.{
  from_char, severity_is_failure, row_severity, is_failure, parse_one, collect_candidates,
  parse_bapiret2, max_depth, unwrap_or_default, str_of, or_else, severity_of_text, first_str,
}
use sap_automate.Rfc.BapiRet2.Rows.{RowIn, collect_candidates_iff}

-- The letters of success, warnings and information.
abbrev pub IsBenign : ℕ → Type 0
IsBenign c = (c ≡ b'S') ⊎ (c ≡ b's') ⊎ (c ≡ b'W') ⊎ (c ≡ b'w') ⊎ (c ≡ b'I') ⊎ (c ≡ b'i')

-- A type letter means success, warning or information, in either case; every other character,
-- known or not, means failure.
pub from_char-IsBenign_iff : (c : ℕ) → (severity_is_failure (from_char c) ≡ false) ↔ IsBenign c
unfolding from_char severity_is_failure
from_char-IsBenign_iff c = (λ h. grind arith, λ h. ground arith)

abbrev first_letter : String → ℕ
first_letter String.[] = b' '
first_letter (String.◌∷◌ c s) = code c

-- What a row's type is: the text, or the number, under `TYPE`, or else under `type`.
abbrev type_text : Option Value → Option Value → String
type_text (some (string s)) lower = s
type_text (some (number s)) lower = s
type_text upper (some (string s)) = s
type_text upper (some (number s)) = s
type_text upper lower = ""

-- The first character of a row's type; a blank where the row has none.
abbrev pub type_letter : Fields → ℕ
type_letter fs = first_letter (type_text (get_field "TYPE" fs) (get_field "type" fs))

-- What the severity of a row says of it.
unfoldable pub row_fails : Value → Bool
row_fails (object fs) = severity_is_failure (row_severity fs)
row_fails _ = false

any-parse_one :
    (rows : List Value) → any is_failure (filter_map parse_one rows) ≡ any row_fails rows
unfolding filter_map parse_one row_fails is_failure
any-parse_one [] = refl
any-parse_one (object fs ∷ rows) = ap (◌||◌ (row_fails (object fs))) (any-parse_one rows)
any-parse_one (_ ∷ rows) = any-parse_one rows

text_severity :
    (s : String) → (severity_is_failure (severity_of_text s) ≡ false) ↔ IsBenign (first_letter s)
unfolding severity_of_text severity_is_failure
text_severity String.[] = (λ h. cc, λ h. ground arith)
text_severity (String.◌∷◌ c s) = from_char-IsBenign_iff (code c)

type_text_lem :
    (upper lower : Option Value)
    → unwrap_or_default (or_else (str_of upper) (or_else (str_of lower) none))
      ≡ type_text upper lower
unfolding str_of or_else
type_text_lem upper lower = ground arith

row_severity_lem :
    (fs : Fields) → (severity_is_failure (row_severity fs) ≡ false) ↔ IsBenign (type_letter fs)
unfolding row_severity first_str
row_severity_lem fs =
    rw (← type_text_lem (get_field "TYPE" fs) (get_field "type" fs))
      (text_severity (unwrap_or_default (first_str fs ("TYPE" ∷ "type" ∷ []))))

-- A result has no failed message exactly when every row of it that is at most eight levels deep
-- and lies in no other row has a type that begins with S, W or I, in either case.
pub parse_bapiret2-failure_iff :
    (v : Value)
    → (any is_failure (parse_bapiret2 v) ≡ false)
      ↔ ((fs : Fields) (d : ℕ) → RowIn (object fs) v d → d ≤ max_depth → IsBenign (type_letter fs))
unfolding parse_bapiret2
parse_bapiret2-failure_iff v =
    let none_fails = any-eq-false row_fails (collect_candidates v) in
    (
      λ e fs d p b. (row_severity_lem fs).0 (
          unfold row_fails in
          none_fails.0 (sym (any-parse_one (collect_candidates v)) ∙ e) (object fs)
            ((collect_candidates_iff v (object fs)).1 (d, p, b))),
      λ h.
          any-parse_one (collect_candidates v)
          ∙ none_fails.1
              (λ r i. let (d, p, b) = (collect_candidates_iff v r).0 i in passes h r d p b),
    )
  where
    passes :
        ((fs : Fields) (d : ℕ) → RowIn (object fs) v d → d ≤ max_depth → IsBenign (type_letter fs))
        → (r : Value) (d : ℕ) → RowIn r v d
        → d ≤ max_depth
        → row_fails r ≡ false
    passes h (object fs) d p b = unfold row_fails in (row_severity_lem fs).1 (h fs d p b)
    passes h null d p b = unfold row_fails in refl
    passes h (bool _) d p b = unfold row_fails in refl
    passes h (number _) d p b = unfold row_fails in refl
    passes h (string _) d p b = unfold row_fails in refl
    passes h (array _) d p b = unfold row_fails in refl
