-- ===== src/Adt/Responses.antt =====
-- crates/sap-automate-adt/src/http.rs: reading what the system answers. The XML reader is the list of its
-- events up to the end or an error; a text is unescaped, and empty where that fails. A name in
-- small letters that stands anywhere in an attribute's key counts.
use sap_automate.Base.{
  String, Bool, not, ◌&&◌, ◌||◌, Option, none, some, List, [], ◌∷◌, reverse, if◌then◌else◌, any,
  str_eq, nat_key, string_key, pair_key, codes, text_key, starts_with, contains,
}
use sap_automate.Adt.Types.{AbapObjectKind, AdtSearchHit, WhereUsedHit}

abbrev pub Attributes : Type 0
Attributes = List (String × String)

pub data AdtEvent : Type 0 where
  start lone : (name : String) (attributes : Attributes) → AdtEvent
  text : String → AdtEvent
  stop : (name : String) → AdtEvent
  other : AdtEvent

abbrev pub is_one_of : List String → String → Bool
is_one_of names token = any (λ n. str_eq n token) names

unfoldable pub map_kind : String → AbapObjectKind
map_kind token =
    if is_one_of ("CLAS/OC" ∷ "CLAS" ∷ []) token
    then AbapObjectKind.class
    else if is_one_of ("INTF/OI" ∷ "INTF" ∷ []) token
    then AbapObjectKind.interface
    else if is_one_of ("PROG/P" ∷ "PROG/I" ∷ "PROG" ∷ []) token
    then AbapObjectKind.program
    else if is_one_of ("FUGR/F" ∷ "FUGR" ∷ []) token
    then AbapObjectKind.function_group
    else if is_one_of ("FUGR/FF" ∷ "FUNC" ∷ []) token
    then AbapObjectKind.function_module
    else if is_one_of ("DDLS/DF" ∷ "DDLS" ∷ []) token
    then AbapObjectKind.cds_view
    else if is_one_of ("TABL/DT" ∷ "TABL" ∷ []) token
    then AbapObjectKind.table
    else if is_one_of ("STRU/DS" ∷ "STRU" ∷ []) token
    then AbapObjectKind.structure
    else if is_one_of ("DEVC/K" ∷ "DEVC" ∷ []) token
    then AbapObjectKind.abap_package
    else AbapObjectKind.program

abbrev has_part : String → String → Bool
has_part part key = contains (codes key) (codes part)

abbrev pub ends_in : String → String → Bool
ends_in suffix name = starts_with (reverse (codes name)) (reverse (codes suffix))

-- What the attributes of an object reference say.
pub record Reference : Type 0 where
  pub name : String
  pub kind_token : String
  pub uri : String
  pub description : Option String
  pub package_name : Option String

abbrev pub nothing_yet : Reference
nothing_yet = record {
  name = "";
  kind_token = "";
  uri = "";
  description = none;
  package_name = none;
}

-- `parse_search_results`: name before type, description and package.
unfoldable pub note_hit : String × String → Reference → Reference
unfolding contains
note_hit (key, val) r =
    if has_part "name" key
    then record r { name = val }
    else if has_part "type" key
    then record r { kind_token = val }
    else if has_part "description" key
    then record r { description = some val }
    else if has_part "packageName" key
    then record r { package_name = some val }
    else r

-- `parse_usage_references`
unfoldable pub note_use : String × String → Reference → Reference
unfolding contains
note_use (key, val) r =
    if has_part "name" key
    then record r { name = val }
    else if has_part "type" key
    then record r { kind_token = val }
    else if has_part "uri" key
    then record r { uri = val }
    else r

-- `parse_nodestructure`
unfoldable pub note_member : String × String → Reference → Reference
unfolding contains
note_member (key, val) r =
    if has_part "name" key
    then record r { name = val }
    else if has_part "description" key
    then record r { description = some val }
    else if has_part "type" key
    then record r { kind_token = val }
    else r

abbrev pub note_all : (String × String → Reference → Reference) → Attributes → Reference → Reference
note_all f [] r = r
note_all f (a ∷ as_) r = note_all f as_ (f a r)

abbrev pub has_no_text : String → Bool
has_no_text s = str_eq s ""

abbrev hit_of : Reference → AdtSearchHit
hit_of r = record {
  name = r.name;
  kind = map_kind r.kind_token;
  description = r.description;
  package_name = r.package_name;
  score = 1;
}

abbrev add_hit : String → Attributes → List AdtSearchHit → List AdtSearchHit
add_hit tag attributes rest =
    let r = note_all note_hit attributes nothing_yet in
    if ends_in "objectReference" tag && not (has_no_text r.name) then hit_of r ∷ rest else rest

unfoldable pub parse_search_results : List AdtEvent → List AdtSearchHit
unfolding map_kind note_hit starts_with
parse_search_results [] = []
parse_search_results (AdtEvent.start tag attributes ∷ es) =
    add_hit tag attributes (parse_search_results es)
parse_search_results (AdtEvent.lone tag attributes ∷ es) =
    add_hit tag attributes (parse_search_results es)
parse_search_results (_ ∷ es) = parse_search_results es

abbrev use_of : Reference → WhereUsedHit
use_of r = record {
  object = r.name;
  kind = map_kind r.kind_token;
  location = r.uri;
  usage = "reference";
}

abbrev add_use : String → Attributes → List WhereUsedHit → List WhereUsedHit
add_use tag attributes rest =
    let r = note_all note_use attributes nothing_yet in
    if (ends_in "referencedObject" tag || ends_in "objectReference" tag) && not (has_no_text r.name)
    then use_of r ∷ rest
    else rest

unfoldable pub parse_usage_references : List AdtEvent → List WhereUsedHit
unfolding map_kind note_use starts_with
parse_usage_references [] = []
parse_usage_references (AdtEvent.start tag attributes ∷ es) =
    add_use tag attributes (parse_usage_references es)
parse_usage_references (AdtEvent.lone tag attributes ∷ es) =
    add_use tag attributes (parse_usage_references es)
parse_usage_references (_ ∷ es) = parse_usage_references es
