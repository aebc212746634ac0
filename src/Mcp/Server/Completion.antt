-- ===== src/Mcp/Server/Completion.antt =====
-- The cap on completions.
use sap_automate.Base.{
  ℕ, zero, suc, ◌^◌, ◌<◌, min, String, ◌≡◌, refl, ap, some, List, [], ◌∷◌, ◌++◌, arith, ltb, length,
  take, drop, length-take, nat_key, string_key, pair_key,
}
use sap_automate.Mcp.Codec.{completion_of}

take-drop : {A : Type 0} (n : ℕ) (xs : List A) → take n xs ++ drop n xs ≡ xs
take-drop zero xs = refl
take-drop (suc n) [] = refl
take-drop (suc n) (x ∷ xs) = ap (◌∷◌ x) (take-drop n xs)

-- Short of 2^32 candidates, the answer is their first 100, with their number, and says that there
-- are more exactly when there are more than 100.
pub completion_of_caps :
    (values : List String)
    → length values < 2 ^ 32
    → let answer = completion_of values in
      (length answer.values ≡ min 100 (length values))
      × ((rest : List String) × (answer.values ++ rest ≡ values))
      × (answer.total ≡ some (length values))
      × (answer.has_more ≡ some (ltb 100 (length values)))
unfolding completion_of
completion_of_caps values fits = (
  length-take 100 values,
  (drop 100 values, take-drop 100 values),
  ground arith,
  rw length-take (ground arith),
)
