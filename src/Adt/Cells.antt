-- ===== src/Adt/Cells.antt =====
-- crates/sap-automate-adt/src/http.rs: the cells of a row, one by one, in `parse_data_preview`.
use sap_automate.Base.{
  ℕ, zero, suc, ◌+◌, ◌≤◌, ◌<◌, String, ◌≡◌, refl, ap, ◌∙◌, ◌≢◌, Bool, true, false, some, List, [],
  ◌∷◌, arith, ltb, length, get_elem?, str_eq, nat_key, string_key, pair_key, str_eq-apart,
}
use sap_automate.Json.{Value, Fields}
use sap_automate.Rfc.MockClient.{insert_field}
use sap_automate.Rfc.Soap.Response.{trim_text, local_name}
use sap_automate.Adt.Types.{TableRow}
use sap_automate.Adt.Responses.{AdtEvent}
use sap_automate.Adt.Preview.{
  Preview, attr_named, on_event, preview_loop, put_at, Cell, by_attribute, by_text, with_nothing,
  cell_value, cell_events, cells_events, row_from,
}

-- The loop between two cells.
abbrev pub at : List String → List TableRow → Bool → ℕ → Fields → Preview
at cols rows in_row i m = record {
  columns = cols;
  rows = rows;
  in_row = in_row;
  cur_cell_idx = i;
  cur_row = m;
  cur_cell_text = "";
  in_cell = false;
}

get_elem-lt : (xs : List String) (i : ℕ) (a : String) → get_elem? xs i ≡ some a → i < length xs
get_elem-lt [] i a h = ground arith
get_elem-lt (x ∷ xs) zero a h = omega arith
get_elem-lt (x ∷ xs) (suc i) a h = omega (arith, get_elem-lt xs i a h)

-- The loop inside a cell.
abbrev within : List String → List TableRow → ℕ → Fields → String → Preview
within cols rows i m s = record {
  columns = cols;
  rows = rows;
  in_row = true;
  cur_cell_idx = i;
  cur_row = m;
  cur_cell_text = s;
  in_cell = true;
}

-- The columns from the position `i` on.
abbrev pub From : List String → ℕ → List String → Type 0
From cols i rest = (n : ℕ) → get_elem? cols (i + n) ≡ get_elem? rest n

From-next :
    (cols : List String) (i : ℕ) (col : String) (rest : List String)
    → From cols i (col ∷ rest)
    → From cols (i + 1) rest
From-next cols i col rest h n =
    let same : i + 1 + n ≡ i + suc n = omega arith in rw same (h (suc n))

module _ (before : String → String → Bool) where
  on_event-value :
      (cols : List String) (rows : List TableRow) (i : ℕ) (m : Fields) (col v : String)
      → get_elem? cols i ≡ some col
      → on_event before
          (AdtEvent.lone "dp:cell" (("adtcore:value", v) ∷ []))
          (at cols rows true i m)
        ≡ at cols rows true (i + 1) (insert_field before col (Value.string v) m)
  unfolding on_event attr_named local_name
  on_event-value cols rows i m col v h = ap (λ o. at cols rows true (i + 1) (put_at before o v m)) h

  on_event-nothing :
      (cols : List String) (rows : List TableRow) (i : ℕ) (m : Fields) (col : String)
      → get_elem? cols i ≡ some col
      → on_event before (AdtEvent.lone "dp:cell" []) (at cols rows true i m)
        ≡ at cols rows true (i + 1) (insert_field before col (Value.string "") m)
  unfolding on_event attr_named local_name
  on_event-nothing cols rows i m col h =
      let within : ltb i (length cols) ≡ true = ground (arith, get_elem-lt cols i col h) in
      rw within (ap (λ o. at cols rows true (i + 1) (put_at before o "" m)) h)

  on_event-cell :
      (cols : List String) (rows : List TableRow) (i : ℕ) (m : Fields)
      → on_event before (AdtEvent.start "dp:cell" []) (at cols rows true i m)
        ≡ within cols rows i m ""
  unfolding on_event attr_named local_name
  on_event-cell cols rows i m = refl

  on_event-text :
      (cols : List String) (rows : List TableRow) (i : ℕ) (m : Fields) (v : String)
      → trim_text v ≡ v
      → v ≢ ""
      → on_event before (AdtEvent.text v) (within cols rows i m "") ≡ within cols rows i m v
  unfolding on_event
  on_event-text cols rows i m v trimmed full =
      let some_text : str_eq v "" ≡ false = str_eq-apart v "" full in rw (trimmed, some_text) refl

  on_event-end_cell :
      (cols : List String) (rows : List TableRow) (i : ℕ) (m : Fields) (col v : String)
      → get_elem? cols i ≡ some col
      → on_event before (AdtEvent.stop "dp:cell") (within cols rows i m v)
        ≡ at cols rows true (i + 1) (insert_field before col (Value.string v) m)
  unfolding on_event local_name
  on_event-end_cell cols rows i m col v h =
      let inside : ltb i (length cols) ≡ true = ground (arith, get_elem-lt cols i col h) in
      rw inside (ap (λ o. at cols rows true (i + 1) (put_at before o v m)) h)

  loop-cell :
      (cols : List String) (rows : List TableRow) (i : ℕ) (m : Fields) (col : String) (c : Cell)
      (k : List AdtEvent)
      → get_elem? cols i ≡ some col
      → preview_loop before (cell_events c k) (at cols rows true i m)
        ≡ preview_loop before k
            (at cols rows true (i + 1) (insert_field before col (Value.string (cell_value c)) m))
  unfolding preview_loop
  loop-cell cols rows i m col (by_attribute v) k h =
      ap (preview_loop before k) (on_event-value cols rows i m col v h)
  loop-cell cols rows i m col with_nothing k h =
      ap (preview_loop before k) (on_event-nothing cols rows i m col h)
  loop-cell cols rows i m col (by_text v trimmed full) k h =
      let last = preview_loop before k in
      let close = on_event before (AdtEvent.stop "dp:cell") in
      ap (λ p. last (close (on_event before (AdtEvent.text v) p))) (on_event-cell cols rows i m)
      ∙ ap (λ p. last (close p)) (on_event-text cols rows i m v trimmed full)
      ∙ ap last (on_event-end_cell cols rows i m col v h)

  pub loop-cells :
      (cols : List String) (rows : List TableRow) (i : ℕ) (m : Fields) (rest : List String)
      (cs : List Cell) (k : List AdtEvent)
      → From cols i rest
      → length cs ≤ length rest
      → preview_loop before (cells_events cs k) (at cols rows true i m)
        ≡ preview_loop before k (at cols rows true (i + length cs) (row_from before rest cs m))
  unfolding row_from
  loop-cells cols rows i m [] [] k h le = let same : i + 0 ≡ i = omega arith in rw same refl
  loop-cells cols rows i m (col ∷ rest) [] k h le =
      let same : i + 0 ≡ i = omega arith in rw same refl
  loop-cells cols rows i m [] (c ∷ cs) k h le = absurd (omega arith)
  loop-cells cols rows i m (col ∷ rest) (c ∷ cs) k h le =
      let here : i + 0 ≡ i = omega arith in
      let there : i + 1 + length cs ≡ i + length (c ∷ cs) = omega arith in
      let first : get_elem? cols i ≡ some col = rw here at (h 0) in
      loop-cell cols rows i m col c (cells_events cs k) first
      ∙ loop-cells cols rows (i + 1) (insert_field before col (Value.string (cell_value c)) m) rest
          cs k (From-next cols i col rest h) (omega arith)
      ∙ rw there refl
