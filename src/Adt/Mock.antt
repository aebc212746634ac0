-- ===== src/Adt/Mock.antt =====
-- crates/sap-automate-adt/src/mock.rs: `MockAdtClient` on any fixtures. The maps are walked in the order
-- of their lists; `to_lowercase` and `to_uppercase` are parameters. Scores are whole numbers.
use sap_automate.Base.{
  ℕ, String, true, ◌||◌, Option, none, some, List, [], ◌∷◌, ltb, ◌==◌, if◌then◌else◌, take, nat_key,
  string_key, pair_key, codes, text_key, eq_ignore_ascii_case,
}
use Prim.Native.String.{◌++◌ as str_append}
use sap_automate.Base.Dict.{Dict, get}
use sap_automate.Adt.Error.{AdtError, AdtResult, ok, err}
use sap_automate.Adt.Types.{
  max_table_rows, AbapObjectKind, label, ProgramSource, CdsView, PackageContents, WhereUsedRequest,
  WhereUsedHit, TableRow, ActivationRequest, ActivationOutcome, AdtCallContext,
}

-- `where_used` has the label of the kind in its keys.
pub record MockAdtClient : Type 0 where
  pub programs : Dict String ProgramSource
  pub classes : Dict String ProgramSource
  pub interfaces : Dict String ProgramSource
  pub includes : Dict String ProgramSource
  pub function_modules : Dict (String × String) ProgramSource
  pub cds_views : Dict String CdsView
  pub packages : Dict String PackageContents
  pub uses : Dict (String × String) (List WhereUsedHit)
  pub tables : Dict String (List TableRow)

abbrev found_or {ℓ} : {A : Type ℓ} → String → String → Option A → AdtResult A
found_or kind name none = err (AdtError.not_found kind name)
found_or kind name (some a) = ok a

abbrev or_empty {ℓ} : {A : Type ℓ} → Option (List A) → List A
or_empty none = []
or_empty (some xs) = xs

module _ (to_lowercase to_uppercase : String → String) (show : ℕ → String) where
  unfoldable pub get_object :
      Dict String ProgramSource → String → AbapObjectKind → AdtResult ProgramSource
  unfolding label
  get_object m name kind = found_or (label kind) name (get (to_uppercase name) m)

  abbrev pub get_program : MockAdtClient → String → AdtResult ProgramSource
  get_program c name = get_object c.programs name AbapObjectKind.program

  abbrev pub get_class : MockAdtClient → String → AdtResult ProgramSource
  get_class c name = get_object c.classes name AbapObjectKind.class

  abbrev pub get_interface : MockAdtClient → String → AdtResult ProgramSource
  get_interface c name = get_object c.interfaces name AbapObjectKind.interface

  abbrev pub get_include : MockAdtClient → String → AdtResult ProgramSource
  get_include c name = get_object c.includes name AbapObjectKind.include

  unfoldable pub get_function_module : MockAdtClient → String → String → AdtResult ProgramSource
  get_function_module c group name =
      found_or "FunctionModule" (str_append group (str_append "/" name))
        (get (to_uppercase group, to_uppercase name) c.function_modules)

  unfoldable pub get_package_contents : MockAdtClient → String → AdtResult PackageContents
  get_package_contents c name = found_or "Package" name (get (to_uppercase name) c.packages)

  unfoldable pub get_cds_view : MockAdtClient → String → AdtResult CdsView
  get_cds_view c name = found_or "CdsView" name (get (to_uppercase name) c.cds_views)

  unfoldable pub where_used : MockAdtClient → WhereUsedRequest → AdtResult (List WhereUsedHit)
  unfolding label
  where_used c r = ok (or_empty (get (to_uppercase r.name, label r.kind) c.uses))

  abbrev first_rows : ℕ → AdtResult (List TableRow) → AdtResult (List TableRow)
  first_rows n (ok rows) = ok (take n rows)
  first_rows n (err e) = err e

  unfoldable pub get_table_contents : MockAdtClient → String → ℕ → AdtResult (List TableRow)
  unfolding eq_ignore_ascii_case
  get_table_contents c table max_rows =
      if max_rows == 0 || ltb max_table_rows max_rows
      then err (
          AdtError.invalid_object_name
            (str_append "max_rows must be in 1..=1000, got " (show max_rows)))
      else if eq_ignore_ascii_case (codes table) (codes "BSEG")
      then err (
          AdtError.data_preview_blocked (
            str_append "table " (
              str_append table
                " is blocked from ADT data preview; fall back to sap.table.read (RFC) or RFC_READ_TABLE")))
      else first_rows max_rows (found_or "Table" table (get (to_uppercase table) c.tables))

  unfoldable pub activate : ActivationRequest → AdtCallContext → AdtResult ActivationOutcome
  unfolding label
  activate r ctx =
      if ctx.read_only
      then err (
          AdtError.permission_denied (
            str_append "activate(" (
              str_append (label r.kind)
                (str_append " " (str_append r.name ") blocked: read-only mode")))))
      else ok (record {
        name = r.name;
        kind = r.kind;
        activated = true;
        messages =
            str_append (label r.kind) (str_append " " (str_append r.name " activated (mock)")) ∷ [];
      })
