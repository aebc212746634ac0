-- ===== src/Adt/Preview.antt =====
-- crates/sap-automate-adt/src/http.rs: `parse_data_preview`, one event at a time. `before` is the order
-- of a map's keys.
use sap_automate.Base.{
  ℕ, ◌+◌, String, ◌≡◌, ◌≢◌, Bool, true, false, not, ◌&&◌, Option, none, some, List, [], ◌∷◌, ◌++◌,
  ltb, if◌then◌else◌, length, get_elem?, str_eq, nat_key, string_key, pair_key,
}
use sap_automate.Json.{Value, Fields}
use sap_automate.Rfc.MockClient.{insert_field}
use sap_automate.Rfc.Soap.Response.{trim_text, local_name}
use sap_automate.Adt.Types.{TableRow}
use sap_automate.Adt.Responses.{AdtEvent, Attributes, has_no_text}

unfoldable pub attr_named : String → Attributes → Option String
unfolding local_name
attr_named target [] = none
attr_named target ((k, v) ∷ as_) =
    let rest = attr_named target as_ in if str_eq (local_name k) target then some v else rest

pub record Preview : Type 0 where
  pub columns : List String
  pub rows : List TableRow
  pub in_row : Bool
  pub cur_cell_idx : ℕ
  pub cur_row : Fields
  pub cur_cell_text : String
  pub in_cell : Bool

abbrev pub empty_preview : Preview
empty_preview = record {
  columns = [];
  rows = [];
  in_row = false;
  cur_cell_idx = 0;
  cur_row = Fields.end;
  cur_cell_text = "";
  in_cell = false;
}

abbrev add_preview_column : Option String → Preview → Preview
add_preview_column none p = p
add_preview_column (some name) p = record p { columns = p.columns ++ (name ∷ []) }

-- `if cur_cell_idx < columns.len() { cur_row.insert(columns[cur_cell_idx], …) }`
abbrev pub put_at : (String → String → Bool) → Option String → String → Fields → Fields
put_at before none v m = m
put_at before (some col) v m = insert_field before col (Value.string v) m

abbrev pub put_cell : (String → String → Bool) → String → Preview → Fields
put_cell before v p = put_at before (get_elem? p.columns p.cur_cell_idx) v p.cur_row

abbrev lone_cell : (String → String → Bool) → Option String → Preview → Preview
lone_cell before (some v) p = record p {
  cur_row = put_cell before v p;
  cur_cell_idx = p.cur_cell_idx + 1;
}
lone_cell before none p =
    if ltb p.cur_cell_idx (length p.columns)
    then record p { cur_row = put_cell before "" p; cur_cell_idx = p.cur_cell_idx + 1 }
    else p

abbrev or_blank : Option String → String
or_blank none = ""
or_blank (some v) = v

abbrev pub is_empty_row : Fields → Bool
is_empty_row Fields.end = true
is_empty_row (Fields.field k v m) = false

abbrev end_row : Preview → Preview
end_row p =
    if p.in_row && not (is_empty_row p.cur_row)
    then record p {
      rows = p.rows ++ (record { values = p.cur_row } ∷ []);
      cur_row = Fields.end;
      in_row = false;
    }
    else record p { in_row = false }

abbrev end_cell : (String → String → Bool) → Preview → Preview
end_cell before p =
    if p.in_cell && ltb p.cur_cell_idx (length p.columns)
    then record p {
      cur_row = put_cell before p.cur_cell_text p;
      cur_cell_text = "";
      cur_cell_idx = p.cur_cell_idx + 1;
      in_cell = false;
    }
    else record p { cur_cell_idx = p.cur_cell_idx + 1; in_cell = false }

unfoldable pub on_event : (String → String → Bool) → AdtEvent → Preview → Preview
unfolding insert_field attr_named local_name trim_text
on_event before (AdtEvent.lone tag attributes) p =
    let local = local_name tag in
    if str_eq local "metadata"
    then add_preview_column (attr_named "name" attributes) p
    else if str_eq local "cell"
    then lone_cell before (attr_named "value" attributes) p
    else p
on_event before (AdtEvent.start tag attributes) p =
    let local = local_name tag in
    if str_eq local "metadata"
    then add_preview_column (attr_named "name" attributes) p
    else if str_eq local "row"
    then record p { in_row = true; cur_cell_idx = 0; cur_row = Fields.end }
    else if str_eq local "cell" && p.in_row
    then record p { in_cell = true; cur_cell_text = or_blank (attr_named "value" attributes) }
    else p
on_event before (AdtEvent.text s) p =
    let trimmed = trim_text s in
    if p.in_cell && not (has_no_text trimmed) then record p { cur_cell_text = trimmed } else p
on_event before (AdtEvent.stop tag) p =
    let local = local_name tag in
    if str_eq local "cell" then end_cell before p else if str_eq local "row" then end_row p else p
on_event before AdtEvent.other p = p

unfoldable pub preview_loop : (String → String → Bool) → List AdtEvent → Preview → Preview
unfolding on_event
preview_loop before [] p = p
preview_loop before (e ∷ es) p = preview_loop before es (on_event before e p)

unfoldable pub parse_data_preview : (String → String → Bool) → List AdtEvent → List TableRow
unfolding preview_loop
parse_data_preview before es = (preview_loop before es empty_preview).rows

-- A table as the system writes it: cells with an attribute, or with a text.
pub data Cell : Type 0 where
  by_attribute : String → Cell
  by_text : (value : String) → trim_text value ≡ value → value ≢ "" → Cell
  with_nothing : Cell

abbrev pub cell_value : Cell → String
cell_value (by_attribute v) = v
cell_value (by_text v _ _) = v
cell_value with_nothing = ""

abbrev pub cell_events : Cell → List AdtEvent → List AdtEvent
cell_events (by_attribute v) k = AdtEvent.lone "dp:cell" (("adtcore:value", v) ∷ []) ∷ k
cell_events (by_text v _ _) k =
    AdtEvent.start "dp:cell" [] ∷ AdtEvent.text v ∷ AdtEvent.stop "dp:cell" ∷ k
cell_events with_nothing k = AdtEvent.lone "dp:cell" [] ∷ k

abbrev pub cells_events : List Cell → List AdtEvent → List AdtEvent
cells_events [] k = k
cells_events (c ∷ cs) k = cell_events c (cells_events cs k)

abbrev pub rows_events : List (List Cell) → List AdtEvent
rows_events [] = []
rows_events (r ∷ rs) =
    AdtEvent.start "dp:row" [] ∷ cells_events r (AdtEvent.stop "dp:row" ∷ rows_events rs)

abbrev pub table_events : List String → List (List Cell) → List AdtEvent
table_events [] rs = rows_events rs
table_events (c ∷ cs) rs =
    AdtEvent.lone "dp:metadata" (("adtcore:name", c) ∷ []) ∷ table_events cs rs

-- The row's values by the columns from the left.
unfoldable pub row_from : (String → String → Bool) → List String → List Cell → Fields → Fields
unfolding insert_field
row_from before [] cells m = m
row_from before (col ∷ cols) [] m = m
row_from before (col ∷ cols) (c ∷ cells) m =
    row_from before cols cells (insert_field before col (Value.string (cell_value c)) m)
