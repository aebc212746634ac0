-- ===== src/Adt/Nodes.antt =====
-- crates/sap-automate-adt/src/http.rs: `parse_nodestructure`, one event at a time.
use sap_automate.Base.{
  String, Bool, true, false, not, ◌&&◌, ◌||◌, Option, none, some, List, [], ◌∷◌, ◌++◌,
  if◌then◌else◌, str_eq, nat_key, string_key, pair_key, starts_with,
}
use sap_automate.Rfc.Soap.Response.{trim_text}
use sap_automate.Adt.Types.{PackageMember}
use sap_automate.Adt.Responses.{
  AdtEvent, has_no_text, ends_in, Reference, nothing_yet, note_member, note_all, map_kind,
}

pub data CurrentField : Type 0 where
  no_field object_type object_name description : CurrentField

pub record Nodes : Type 0 where
  pub members : List PackageMember
  pub in_node : Bool
  pub current_field : CurrentField
  pub name : String
  pub desc : Option String
  pub kind_str : String

abbrev pub no_nodes : Nodes
no_nodes = record {
  members = [];
  in_node = false;
  current_field = CurrentField.no_field;
  name = "";
  desc = none;
  kind_str = "";
}

abbrev is_node : String → Bool
is_node tag = ends_in "SEU_ADT_REPOSITORY_OBJ_NODE" tag || str_eq tag "OBJECT"

abbrev field_for : String → CurrentField
field_for tag =
    if ends_in "OBJECT_TYPE" tag
    then CurrentField.object_type
    else if ends_in "OBJECT_NAME" tag
    then CurrentField.object_name
    else if ends_in "DESCRIPTION" tag
    then CurrentField.description
    else CurrentField.no_field

abbrev member : String → String → Option String → PackageMember
member name kind_str desc = record { name = name; kind = map_kind kind_str; description = desc }

abbrev set_current : CurrentField → String → Nodes → Nodes
set_current CurrentField.object_type s n = record n { kind_str = s }
set_current CurrentField.object_name s n = record n { name = s }
set_current CurrentField.description s n = record n { desc = some s }
set_current CurrentField.no_field s n = n

abbrev add_reference : Reference → Nodes → Nodes
add_reference r n =
    if has_no_text r.name
    then n
    else record n { members = n.members ++ (member r.name r.kind_token r.description ∷ []) }

abbrev end_node : Nodes → Nodes
end_node n =
    if n.in_node && not (has_no_text n.name)
    then record n {
      members = n.members ++ (member n.name n.kind_str n.desc ∷ []);
      name = "";
      desc = none;
      in_node = false;
      current_field = CurrentField.no_field;
    }
    else record n { in_node = false; current_field = CurrentField.no_field }

unfoldable pub on_node_event : AdtEvent → Nodes → Nodes
unfolding trim_text note_member map_kind starts_with
on_node_event (AdtEvent.start tag attributes) n =
    if is_node tag
    then record n { in_node = true; name = ""; kind_str = ""; desc = none }
    else if n.in_node
    then record n { current_field = field_for tag }
    else n
on_node_event (AdtEvent.lone tag attributes) n =
    if ends_in "objectReference" tag || str_eq tag "OBJECT"
    then add_reference (note_all note_member attributes nothing_yet) n
    else n
on_node_event (AdtEvent.text s) n =
    let trimmed = trim_text s in
    if not (has_no_text trimmed) && n.in_node then set_current n.current_field trimmed n else n
on_node_event (AdtEvent.stop tag) n =
    if is_node tag then end_node n else record n { current_field = CurrentField.no_field }
on_node_event AdtEvent.other n = n

unfoldable pub nodes_loop : List AdtEvent → Nodes → Nodes
unfolding on_node_event
nodes_loop [] n = n
nodes_loop (e ∷ es) n = nodes_loop es (on_node_event e n)

unfoldable pub parse_nodestructure : List AdtEvent → List PackageMember
unfolding nodes_loop
parse_nodestructure es = (nodes_loop es no_nodes).members
