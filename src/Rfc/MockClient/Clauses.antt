-- ===== src/Rfc/MockClient/Clauses.antt =====
-- crates/sap-automate-rfc/src/client.rs: the clauses of `MockSapClient::read_table`. A slice that is
-- none, at which the code panics, is `none`.
use sap_automate.Base.{
  ℕ, ◌+◌, String, Option, none, some, List, [], ◌∷◌, ◌==◌, take, nat_key, string_key, pair_key,
  Text, codes, text_key, trim_matches, trim, find, split_once, byte_len, skip_bytes, take_bytes,
}
use Prim.Native.String.{◌++◌ as str_append}
use mathlib.Core.Option
use sap_automate.Rfc.Error.{RfcError, RfcResult, ok, err}

pub data Operator : Type 0 where
  equals like : Operator

pub record Condition : Type 0 where
  pub field : Text
  pub op : Operator
  pub value : Text

-- `s.trim().trim_matches('\'')`
abbrev unquoted : Text → Text
unquoted s = trim_matches (λ c. c == 39) (trim s)

-- The clause around a ` LIKE ` that stands at byte `idx`.
like_clause : Text → ℕ → Option Condition
like_clause trimmed idx = Option.bind (take_bytes idx trimmed) (λ f.
    Option.map (λ v. record { field = trim f; op = like; value = unquoted v })
      (skip_bytes (idx + 6) trimmed))

equals_clause : String → Option (Text × Text) → RfcResult Condition
equals_clause s none = err (
    RfcError.invalid_parameter "where_conditions" (
      str_append "unsupported clause '"
        (str_append s "' (expected FIELD = 'value' or FIELD LIKE 'pattern')")))
equals_clause s (some (f, v)) = ok (record { field = trim f; op = equals; value = unquoted v })

by_like : String → Text → Text → Option ℕ → Option (RfcResult Condition)
unfolding like_clause equals_clause split_once
by_like s trimmed upper none = some (equals_clause s (split_once b'=' trimmed))
by_like s trimmed upper (some i) = Option.map ok (like_clause trimmed (byte_len (take i upper)))

-- `out.push(...)`, behind the clauses of the rest.
push_clause :
    Option (RfcResult Condition)
    → Option (RfcResult (List Condition))
    → Option (RfcResult (List Condition))
push_clause none rest = none
push_clause (some (err e)) rest = some (err e)
push_clause (some (ok c)) none = none
push_clause (some (ok c)) (some (err e)) = some (err e)
push_clause (some (ok c)) (some (ok cs)) = some (ok (c ∷ cs))

module _ (to_uppercase : Text → Text) where
  unfoldable pub parse_conditions : List String → Option (RfcResult (List Condition))
  unfolding by_like push_clause find trim
  parse_conditions [] = some (ok [])
  parse_conditions (s ∷ rest) =
      let trimmed = trim (codes s) in
      let upper = to_uppercase trimmed in
      push_clause (by_like s trimmed upper (find (codes " LIKE ") upper)) (parse_conditions rest)
