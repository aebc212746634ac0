-- ===== src/Rfc/MockClient/ClientScope.antt =====
-- crates/sap-automate-rfc/src/client.rs: the restriction of `MockSapClient::read_table` to the
-- connection's client.
use sap_automate.Base.{
  ℕ, String, ◌≡◌, refl, sym, subst, inl, inr, ◌⊎◌, Text, codes, text_eq, text_eq_iff,
  to_ascii_lowercase, eq_ignore_ascii_case, Bool, true, false, none, some, List, [], ◌∷◌, ◌++◌, map,
  arith, Bool-cases, keep, All, Has, All-take, All-weaken, nat_key, string_key, pair_key, text_key,
}
use sap_automate.Json.{Value, Fields, end, field}
use sap_automate.Rfc.Error.{ok}
use sap_automate.Rfc.Client.{ReadTableRequest, TableRow}
use sap_automate.Rfc.MockClient.{MockTable, MockSapClient, get}
use sap_automate.Rfc.MockClient.Clauses.{Condition, parse_conditions}
use sap_automate.Rfc.MockClient.Tables.{
  Texts, by_op, text_of, find_column, client_of, match_row, match_all, client_field,
  has_client_filter, client_clause, add_client, read_table,
}
use sap_automate.Rfc.MockClient.Reads.{row_of, select, read_table_iff}
use sap_automate.Base.Dict.{get}

module _ {ℓ} {A : Type 0} {B : Type 0} (P : B → Type ℓ) (f : A → B) where
  All-map : (xs : List A) → All (λ a. P (f a)) xs → All P (map f xs)
  All-map [] h = tt
  All-map (x ∷ xs) h = (h.0, All-map xs h.1)

kept_from :
    {A : Type 0} (p : A → Bool) (xs : List A) → All (λ a. Has a xs × (p a ≡ true)) (keep p xs)
kept_from p [] = tt
kept_from p (x ∷ xs) =
    let rest =
      All-weaken (λ a. Has a xs × (p a ≡ true)) (λ a. Has a (x ∷ xs) × (p a ≡ true)) (keep p xs)
        (λ a h. (inr h.0, h.1)) (kept_from p xs) in
    elim (Bool-cases (p x)) [ inl e ↦ rw e ((inl refl, e), rest) | inr e ↦ rw e rest ]

-- A column of a row, with its value.
abbrev pub HasColumn : String → Value → Fields → Type 0
HasColumn k v end = ⊥
HasColumn k v (field j w fs) = ((j ≡ k) × (w ≡ v)) ⊎ HasColumn k v fs

module _ (t : Texts) where
  match_all_last :
      (cs : List Condition) (c : Condition) (row : Fields)
      → match_all t (cs ++ c ∷ []) row ≡ true
      → match_row t row c ≡ true
  unfolding match_all
  match_all_last [] c row h = ground arith
  match_all_last (d ∷ cs) c row h = ground (arith, match_all_last cs c row)

  find_column-cases :
      (name : Text) (row : Fields)
      → (find_column name row ≡ none)
        ⊎ ((k : String) × (v : Value) × (find_column name row ≡ some (k, v))
            × HasColumn k v row
            × (to_ascii_lowercase (codes k) ≡ to_ascii_lowercase name))
  unfolding find_column eq_ignore_ascii_case
  find_column-cases name end = inl refl
  find_column-cases name (field k v fs) =
      elim (Bool-cases (text_eq (to_ascii_lowercase (codes k)) (to_ascii_lowercase name))) [
        | inl same ↦ rw same (inr (k, v, refl, inl (refl, refl), (text_eq_iff _ _).0 same))
        | inr differs ↦ rw differs (elim (find_column-cases name fs) [
          | inl absent ↦ inl absent
          | inr (j, w, found, i, same) ↦ inr (j, w, found, inr i, same)
        ])
      ]

  -- A column of that name, in either case, holds the text, or there is none and the text is empty.
  abbrev pub Holds : Fields → Text → Text → Type 0
  Holds row name text =
      ((k : String) × (v : Value) × HasColumn k v row
        × (to_ascii_lowercase (codes k) ≡ to_ascii_lowercase name)
        × (to_ascii_lowercase (text_of t.display v) ≡ to_ascii_lowercase text))
      ⊎ (to_ascii_lowercase text ≡ [])

  match_row-Holds :
      (row : Fields) (name : String) (identity : Value)
      → match_row t row (client_clause name identity) ≡ true
      → Holds row (codes name) (codes (client_of identity))
  unfolding match_row by_op eq_ignore_ascii_case
  match_row-Holds row name identity h = elim (find_column-cases (codes name) row) [
    | inl absent ↦ inr (sym ((text_eq_iff _ _).0 (rw absent at h)))
    | inr (k, v, found, i, same) ↦ inl (k, v, i, same, (text_eq_iff _ _).0 (rw found at h))
  ]

  -- A row of the table that a returned row is made of, and its client.
  abbrev pub FromClient : MockTable → String → Value → List String → TableRow → Type 0
  FromClient table name identity projection r =
      (row : Fields) × Has row table.rows
      × (r ≡ row_of t projection row)
      × Holds row (codes name) (codes (client_of identity))

  select-FromClient :
      (table : MockTable) (name : String) (identity : Value) (projection : List String)
      (parsed : List Condition) (n : ℕ)
      → All
          (FromClient table name identity projection)
          (select t projection (parsed ++ client_clause name identity ∷ []) n table.rows)
  select-FromClient table name identity projection parsed n =
      let conditions = parsed ++ client_clause name identity ∷ [] in
      let rows = keep (match_all t conditions) table.rows in
      All-take (FromClient table name identity projection) n (map (row_of t projection) rows) (
        All-map (FromClient table name identity projection) (row_of t projection) rows (
          All-weaken (λ row. Has row table.rows × (match_all t conditions row ≡ true))
            (λ row. FromClient table name identity projection (row_of t projection row)) rows
            (λ row h. (
              row,
              h.0,
              refl,
              match_row-Holds row name identity
                  (match_all_last parsed (client_clause name identity) row h.1),
            ))
            (kept_from (match_all t conditions) table.rows)))

  add_client-eq-append :
      (name : String) (identity : Value) (parsed : List Condition)
      → has_client_filter name parsed ≡ false
      → add_client (some name) identity parsed ≡ parsed ++ client_clause name identity ∷ []
  unfolding add_client
  add_client-eq-append name identity parsed h = ground arith

  -- Where the first field of the table is its client and no clause of the request names it, every
  -- row that is returned is made of a row of the table whose column of that name holds the client
  -- of the connection (names and values without regard to ASCII case); a row without such a column
  -- is only taken where the connection's client is empty.
  pub read_table-FromClient :
      (c : MockSapClient) (request : ReadTableRequest) (out : List TableRow) (table : MockTable)
      (name : String) (parsed : List Condition)
      → read_table t c request ≡ some (ok out)
      → get request.table c.tables ≡ some table
      → client_field table.structure.fields ≡ some name
      → parse_conditions t.to_uppercase request.where_conditions ≡ some (ok parsed)
      → has_client_filter name parsed ≡ false
      → (projection : List String) × All (FromClient table name c.identity projection) out
  read_table-FromClient c request out table name parsed read known first clauses free =
      let (found, projection, conditions, low, high, at, p, same_clauses, same) =
        (read_table_iff t c request out).0 read in
      let one : found ≡ table = cc in
      let two : conditions ≡ parsed = cc in
      let rows : out
          ≡ select t projection (parsed ++ client_clause name c.identity ∷ []) request.max_rows
              table.rows =
        cc (add_client-eq-append name c.identity parsed free) in
      (
        projection,
        subst (λ rs. All (FromClient table name c.identity projection) rs) (sym rows)
            (select-FromClient table name c.identity projection parsed request.max_rows),
      )
