-- ===== src/Rfc/MockClient/Reads.antt =====
-- crates/sap-automate-rfc/src/client.rs: what `MockSapClient::read_table` returns.
use sap_automate.Base.{
  ℕ, zero, suc, ◌+◌, ◌≤◌, String, ◌≡◌, refl, sym, ap, ◌∙◌, ◌↔◌, inl, inr, true, false, Option, none,
  some, List, [], ◌∷◌, map, arith, leb, Bool-cases, take, keep, nat_key, string_key, pair_key,
  text_key,
}
use sap_automate.Json.{Value, Fields, end}
use sap_automate.Rfc.Error.{RfcResult, ok, err}
use sap_automate.Rfc.Client.{ReadTableRequest, TableRow}
use sap_automate.Rfc.MockClient.{MockTable, MockSapClient, or_not_found, get}
use sap_automate.Rfc.MockClient.Clauses.{Condition, parse_conditions}
use sap_automate.Rfc.MockClient.Tables.{
  Texts, match_all, projection_of, client_field, add_client, project, collect_rows, with_conditions,
  with_projection, with_table, read_table,
}
use sap_automate.Base.Dict.{get}

module _ (t : Texts) where
  -- The row that a read makes of a row of the table.
  abbrev pub row_of : List String → Fields → TableRow
  row_of projection row = record { values = project t projection row end }

  -- The rows that meet all conditions, projected, up to a number of them.
  abbrev pub select : List String → List Condition → ℕ → List Fields → List TableRow
  select projection conditions n rows =
      take n (map (row_of projection) (keep (match_all t conditions) rows))

  collect_rows-select :
      (projection : List String) (conditions : List Condition) (m taken max_rows : ℕ)
      (rows : List Fields)
      → m + 1 + taken ≡ max_rows
      → collect_rows t projection conditions max_rows taken rows
        ≡ select projection conditions (suc m) rows
  unfolding collect_rows
  collect_rows-select projection conditions m taken max_rows [] h = refl
  collect_rows-select projection conditions zero taken max_rows (row ∷ rows) h =
      let full : leb max_rows (taken + 1) ≡ true = ground arith in
      elim (Bool-cases (match_all t conditions row)) [
        | inl e ↦ rw (e, full) refl
        | inr e ↦ rw e (collect_rows-select projection conditions zero taken max_rows rows h)
      ]
  collect_rows-select projection conditions (suc m) taken max_rows (row ∷ rows) h =
      let room : leb max_rows (taken + 1) ≡ false = ground arith in
      elim (Bool-cases (match_all t conditions row)) [
        | inl e ↦
            rw (e, room)
              (ap (◌∷◌ (row_of projection row)) (
                collect_rows-select projection conditions m (taken + 1) max_rows rows
                  (omega arith)))
        | inr e ↦ rw e (collect_rows-select projection conditions (suc m) taken max_rows rows h)
      ]

  with_conditions-eq-ok :
      (identity : Value) (table : MockTable) (max_rows : ℕ) (projection : List String)
      (o : Option (RfcResult (List Condition))) (out : List TableRow)
      → (with_conditions t identity table max_rows projection o ≡ some (ok out)) ↔ (
          (parsed : List Condition) × (o ≡ some (ok parsed))
          × (out
              ≡ collect_rows t projection
                  (add_client (client_field table.structure.fields) identity parsed)
                  max_rows
                  0
                  table.rows))
  unfolding with_conditions
  with_conditions-eq-ok identity table max_rows projection none out = (λ e. cc, λ (p, e, same). cc)
  with_conditions-eq-ok identity table max_rows projection (some (err x)) out =
      (λ e. cc, λ (p, e, same). cc)
  with_conditions-eq-ok identity table max_rows projection (some (ok parsed)) out =
      (λ e. (parsed, refl, cc), λ (p, e, same). cc)

  with_projection-eq-ok :
      (identity : Value) (table : MockTable) (request : ReadTableRequest)
      (r : RfcResult (List String)) (out : List TableRow)
      → (with_projection t identity table request r ≡ some (ok out)) ↔ (
          (projection : List String) × (r ≡ ok projection)
          × (parsed : List Condition) × (parse_conditions t.to_uppercase request.where_conditions
              ≡ some (ok parsed))
          × (out
              ≡ collect_rows t projection
                  (add_client (client_field table.structure.fields) identity parsed)
                  request.max_rows
                  0
                  table.rows))
  unfolding with_projection
  with_projection-eq-ok identity table request (err x) out =
      (λ e. cc, λ (p, e, parsed, pe, same). cc)
  with_projection-eq-ok identity table request (ok projection) out =
      let (to_parts, from_parts) =
        with_conditions-eq-ok identity table request.max_rows projection
          (parse_conditions t.to_uppercase request.where_conditions) out in
      (
        λ e. let (parsed, pe, same) = to_parts e in (projection, refl, parsed, pe, same),
        λ (p, e, parsed, pe, same). let one : p ≡ projection = cc in from_parts (parsed, pe, cc),
      )

  with_table-eq-ok :
      (identity : Value) (request : ReadTableRequest) (o : Option MockTable) (out : List TableRow)
      → (with_table t identity request (or_not_found request.table o) ≡ some (ok out)) ↔ (
          (table : MockTable) × (projection : List String) × (parsed : List Condition) × (o
            ≡ some table)
          × (projection_of table.structure request.fields ≡ ok projection)
          × (parse_conditions t.to_uppercase request.where_conditions ≡ some (ok parsed))
          × (out
              ≡ collect_rows t projection
                  (add_client (client_field table.structure.fields) identity parsed)
                  request.max_rows
                  0
                  table.rows))
  unfolding with_table
  with_table-eq-ok identity request none out = (λ e. cc, λ (a, b, c, e, pe, ce, same). cc)
  with_table-eq-ok identity request (some table) out =
      let (to_parts, from_parts) =
        with_projection-eq-ok identity table request (projection_of table.structure request.fields)
          out in
      (
        λ e.
            let (projection, p, parsed, c, same) = to_parts e in
            (table, projection, parsed, refl, p, c, same),
        λ (other, projection, parsed, e, p, c, same).
            let one : other ≡ table = cc in from_parts (projection, cc, parsed, c, cc),
      )

  collect_rows_all :
      (projection : List String) (conditions : List Condition) (max_rows : ℕ) (rows : List Fields)
      → 1 ≤ max_rows
      → collect_rows t projection conditions max_rows 0 rows
        ≡ select projection conditions max_rows rows
  collect_rows_all projection conditions zero rows h = absurd (omega arith)
  collect_rows_all projection conditions (suc m) rows h =
      collect_rows-select projection conditions m 0 (suc m) rows (omega arith)

  read_table-guards :
      (c : MockSapClient) (request : ReadTableRequest) (out : List TableRow)
      → (read_table t c request ≡ some (ok out)) ↔ (
          (1 ≤ request.max_rows)
          × (request.max_rows ≤ 1000)
          × (with_table t c.identity request
                (or_not_found request.table (get request.table c.tables))
              ≡ some (ok out)))
  unfolding read_table
  read_table-guards c request out = ground arith

  -- A read succeeds exactly when it asks for 1 to 1000 rows of a known table, its fields are fields
  -- of the table and its clauses parse. It then returns, up to that number, the projections of the
  -- table's rows, in their order, that meet the clauses and, where the table's first field is its
  -- client and no clause names it, are of the client of the connection.
  pub read_table_iff :
      (c : MockSapClient) (request : ReadTableRequest) (out : List TableRow)
      → (read_table t c request ≡ some (ok out)) ↔ (
          (table : MockTable) × (projection : List String) × (parsed : List Condition) × (1
            ≤ request.max_rows)
          × (request.max_rows ≤ 1000)
          × (get request.table c.tables ≡ some table)
          × (projection_of table.structure request.fields ≡ ok projection)
          × (parse_conditions t.to_uppercase request.where_conditions ≡ some (ok parsed))
          × (out
              ≡ select projection
                  (add_client (client_field table.structure.fields) c.identity parsed)
                  request.max_rows
                  table.rows))
  read_table_iff c request out =
      let guards = read_table-guards c request out in
      let parts = with_table-eq-ok c.identity request (get request.table c.tables) out in
      (
        λ e.
            let (low, high, read) = guards.0 e in
            let (table, projection, parsed, known, p, clauses, same) = parts.0 read in
            (
              table,
              projection,
              parsed,
              low,
              high,
              known,
              p,
              clauses,
              same
                  ∙ collect_rows_all projection
                      (add_client (client_field table.structure.fields) c.identity parsed)
                      request.max_rows table.rows low,
            ),
        λ (table, projection, parsed, low, high, known, p, clauses, same). guards.1 (
          low,
          high,
          parts.1 (
            table,
            projection,
            parsed,
            known,
            p,
            clauses,
            same
                ∙ sym (
                    collect_rows_all projection
                      (add_client (client_field table.structure.fields) c.identity parsed)
                      request.max_rows table.rows low),
          ),
        ),
      )
