-- ===== src/Adt/Grid.antt =====
-- crates/sap-automate-adt/src/http.rs: `parse_data_preview` reads back a table as the system writes it.
use mathlib.Core.List.{append_assoc, append-nil}
use sap_automate.Base.{
  ℕ, ◌+◌, ◌≤◌, String, ◌≡◌, refl, sym, ap, ◌∙◌, inl, inr, Bool, true, false, List, [], ◌∷◌, ◌++◌,
  map, arith, Bool-cases, length, All, str_eq, nat_key, string_key, pair_key,
}
use sap_automate.Json.{Value, Fields}
use sap_automate.Rfc.MockClient.{insert_field}
use sap_automate.Rfc.Soap.Response.{local_name}
use sap_automate.Adt.Types.{TableRow}
use sap_automate.Adt.Responses.{AdtEvent}
use sap_automate.Adt.Cells.{at, loop-cells}
use sap_automate.Adt.Preview.{
  attr_named, on_event, preview_loop, parse_data_preview, is_empty_row, Cell, cell_value,
  cells_events, rows_events, table_events, row_from,
}

-- A row that fits the columns and has a cell.
abbrev pub Fits : List String → List Cell → Type 0
Fits cols [] = ⊥
Fits cols (c ∷ cs) = length (c ∷ cs) ≤ length cols

Fits-length : (cols : List String) (cs : List Cell) → Fits cols cs → length cs ≤ length cols
Fits-length cols [] h = absurd h
Fits-length cols (c ∷ cs) h = h

module _ (before : String → String → Bool) where
  is_empty_row-insert :
      (k : String) (v : Value) (m : Fields) → is_empty_row (insert_field before k v m) ≡ false
  unfolding insert_field
  is_empty_row-insert k v Fields.end = refl
  is_empty_row-insert k v (Fields.field j w m) = elim (Bool-cases (str_eq j k)) [
    | inl e ↦ rw e refl
    | inr e ↦ elim (Bool-cases (before k j)) [ inl f ↦ rw (e, f) refl | inr f ↦ rw (e, f) refl ]
  ]

  is_empty_row-from :
      (cols : List String) (cs : List Cell) (m : Fields)
      → is_empty_row m ≡ false
      → is_empty_row (row_from before cols cs m) ≡ false
  unfolding row_from
  is_empty_row-from [] cs m h = h
  is_empty_row-from (col ∷ cols) [] m h = h
  is_empty_row-from (col ∷ cols) (c ∷ cs) m h =
      is_empty_row-from cols cs (insert_field before col (Value.string (cell_value c)) m)
        (is_empty_row-insert col (Value.string (cell_value c)) m)

  Fits-nonempty :
      (cols : List String) (cs : List Cell)
      → Fits cols cs
      → is_empty_row (row_from before cols cs Fields.end) ≡ false
  unfolding row_from
  Fits-nonempty cols [] h = absurd h
  Fits-nonempty [] (c ∷ cs) h = absurd (omega arith)
  Fits-nonempty (col ∷ cols) (c ∷ cs) h =
      is_empty_row-from cols cs (insert_field before col (Value.string (cell_value c)) Fields.end)
        (is_empty_row-insert col (Value.string (cell_value c)) Fields.end)

  abbrev pub table_row : List String → List Cell → TableRow
  table_row cols cs = record { values = row_from before cols cs Fields.end }

  on_event-row :
      (cols : List String) (rows : List TableRow) (b : Bool) (i : ℕ) (m : Fields)
      → on_event before (AdtEvent.start "dp:row" []) (at cols rows b i m)
        ≡ at cols rows true 0 Fields.end
  unfolding on_event local_name
  on_event-row cols rows b i m = refl

  on_event-end_row :
      (cols : List String) (rows : List TableRow) (i : ℕ) (m : Fields)
      → is_empty_row m ≡ false
      → on_event before (AdtEvent.stop "dp:row") (at cols rows true i m)
        ≡ at cols (rows ++ (record { values = m } ∷ [])) false i Fields.end
  unfolding on_event local_name
  on_event-end_row cols rows i m h = rw h refl

  loop-rows :
      (cols : List String) (rows : List TableRow) (b : Bool) (i : ℕ) (m : Fields)
      (rs : List (List Cell))
      → All (Fits cols) rs
      → (preview_loop before (rows_events rs) (at cols rows b i m)).rows
        ≡ rows ++ map (table_row cols) rs
  unfolding preview_loop
  loop-rows cols rows b i m [] h = sym (append-nil rows)
  loop-rows cols rows b i m (r ∷ rs) (fit, fits) =
      let after = rows_events rs in
      let full = row_from before cols r Fields.end in
      let opened =
        ap (λ p. (preview_loop before (cells_events r (AdtEvent.stop "dp:row" ∷ after)) p).rows)
          (on_event-row cols rows b i m) in
      let read =
        ap (λ p. p.rows)
          (loop-cells before cols rows 0 Fields.end cols r (AdtEvent.stop "dp:row" ∷ after)
            (λ n. let same : 0 + n ≡ n = omega arith in rw same refl) (Fits-length cols r fit)) in
      let closed =
        ap (λ p. (preview_loop before after p).rows)
          (on_event-end_row cols rows (0 + length r) full (Fits-nonempty cols r fit)) in
      opened
      ∙ read
      ∙ closed
      ∙ loop-rows cols (rows ++ (table_row cols r ∷ [])) false (0 + length r) Fields.end rs fits
      ∙ append_assoc rows (table_row cols r ∷ []) (map (table_row cols) rs)

  column_loop :
      (pre cols : List String) (rs : List (List Cell))
      → (preview_loop before (table_events cols rs) (at pre [] false 0 Fields.end)).rows
        ≡ (preview_loop before (rows_events rs) (at (pre ++ cols) [] false 0 Fields.end)).rows
  unfolding preview_loop on_event attr_named local_name
  column_loop pre [] rs = rw (append-nil pre) refl
  column_loop pre (c ∷ cols) rs =
      rw (sym (append_assoc pre (c ∷ []) cols)) (column_loop (pre ++ (c ∷ [])) cols rs)

  -- A table as the system writes it, its cells with attributes, with texts or with neither, is read back
  -- row by row, each value under its column, if every row has a cell and no more than there are columns.
  pub parse_data_preview-table_events :
      (cols : List String) (rs : List (List Cell))
      → All (Fits cols) rs
      → parse_data_preview before (table_events cols rs) ≡ map (table_row cols) rs
  unfolding parse_data_preview
  parse_data_preview-table_events cols rs h =
      column_loop [] cols rs ∙ loop-rows cols [] false 0 Fields.end rs h
