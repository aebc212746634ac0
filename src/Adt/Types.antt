-- ===== src/Adt/Types.antt =====
-- crates/sap-automate-adt/src/types.rs: what requests and answers are made of. Scores are whole numbers.
-- crates/sap-automate-adt/src/client.rs: `AdtCallContext`.
use sap_automate.Base.{ℕ, String, Bool, Option, List}
use Prim.Native.String.{◌++◌ as str_append}
use sap_automate.Json.{Value, Fields}

abbrev pub max_table_rows : ℕ
max_table_rows = 1000

pub data AbapObjectKind : Type 0 where
  program class interface include function_group function_module table structure : AbapObjectKind
  data_element domain abap_package cds_view behavior_definition service_definition : AbapObjectKind
  metadata_extension enhancement_spot transaction : AbapObjectKind

unfoldable pub label : AbapObjectKind → String
label AbapObjectKind.program = "Program"
label AbapObjectKind.class = "Class"
label AbapObjectKind.interface = "Interface"
label AbapObjectKind.include = "Include"
label AbapObjectKind.function_group = "Function Group"
label AbapObjectKind.function_module = "Function Module"
label AbapObjectKind.table = "Table"
label AbapObjectKind.structure = "Structure"
label AbapObjectKind.data_element = "Data Element"
label AbapObjectKind.domain = "Domain"
label AbapObjectKind.abap_package = "Package"
label AbapObjectKind.cds_view = "CDS View"
label AbapObjectKind.behavior_definition = "Behavior Definition"
label AbapObjectKind.service_definition = "Service Definition"
label AbapObjectKind.metadata_extension = "Metadata Extension"
label AbapObjectKind.enhancement_spot = "Enhancement Spot"
label AbapObjectKind.transaction = "Transaction"

abbrev around : String → String → String → String
around before n after = str_append before (str_append n after)

-- `n` is the name in small letters; `{group}` is filled in by the caller.
unfoldable pub path_for : AbapObjectKind → String → String
path_for AbapObjectKind.program n = around "/sap/bc/adt/programs/programs/" n "/source/main"
path_for AbapObjectKind.class n = around "/sap/bc/adt/oo/classes/" n "/source/main"
path_for AbapObjectKind.interface n = around "/sap/bc/adt/oo/interfaces/" n "/source/main"
path_for AbapObjectKind.include n = around "/sap/bc/adt/programs/includes/" n "/source/main"
path_for AbapObjectKind.function_group n = around "/sap/bc/adt/functions/groups/" n "/source/main"
path_for AbapObjectKind.function_module n =
    around "/sap/bc/adt/functions/groups/{group}/fmodules/" n "/source/main"
path_for AbapObjectKind.table n = around "/sap/bc/adt/ddic/tables/" n "/source/main"
path_for AbapObjectKind.structure n = around "/sap/bc/adt/ddic/structures/" n "/source/main"
path_for AbapObjectKind.data_element n = around "/sap/bc/adt/ddic/dataelements/" n ""
path_for AbapObjectKind.domain n = around "/sap/bc/adt/ddic/domains/" n "/source/main"
path_for AbapObjectKind.abap_package n = "/sap/bc/adt/repository/nodestructure"
path_for AbapObjectKind.cds_view n = around "/sap/bc/adt/ddic/ddl/sources/" n "/source/main"
path_for AbapObjectKind.behavior_definition n = around "/sap/bc/adt/objects/" n ""
path_for AbapObjectKind.service_definition n = around "/sap/bc/adt/objects/" n ""
path_for AbapObjectKind.metadata_extension n = around "/sap/bc/adt/objects/" n ""
path_for AbapObjectKind.enhancement_spot n = around "/sap/bc/adt/objects/" n ""
path_for AbapObjectKind.transaction n =
    around
      "/sap/bc/adt/repository/informationsystem/objectproperties/values?uri=%2Fsap%2Fbc%2Fadt%2Fvit%2Fwb%2Fobject_type%2Ftrant%2Fobject_name%2F"
      n ""

unfoldable pub adt_path : (String → String) → AbapObjectKind → String → String
unfolding path_for
adt_path to_lowercase kind name = path_for kind (to_lowercase name)

pub record ProgramSource : Type 0 where
  pub name : String
  pub kind : AbapObjectKind
  pub package_name : Option String
  pub description : Option String
  pub source : String
  pub active : Bool
  pub line_count : ℕ

pub record CdsView : Type 0 where
  pub name : String
  pub source : String
  pub root_entity : String
  pub annotations : Value
  pub line_count : ℕ

pub record PackageMember : Type 0 where
  pub name : String
  pub kind : AbapObjectKind
  pub description : Option String

pub record PackageContents : Type 0 where
  pub package_name : String
  pub description : Option String
  pub members : List PackageMember

pub record AdtSearchRequest : Type 0 where
  pub query : String
  pub kind : Option AbapObjectKind
  pub max_results : ℕ

pub record AdtSearchHit : Type 0 where
  pub name : String
  pub kind : AbapObjectKind
  pub description : Option String
  pub package_name : Option String
  pub score : ℕ

pub record WhereUsedRequest : Type 0 where
  pub name : String
  pub kind : AbapObjectKind

pub record WhereUsedHit : Type 0 where
  pub object : String
  pub kind : AbapObjectKind
  pub location : String
  pub usage : String

pub record TableRow : Type 0 where
  pub values : Fields

pub record ActivationRequest : Type 0 where
  pub name : String
  pub kind : AbapObjectKind

pub record ActivationOutcome : Type 0 where
  pub name : String
  pub kind : AbapObjectKind
  pub activated : Bool
  pub messages : List String

pub record AdtCallContext : Type 0 where
  pub read_only : Bool
