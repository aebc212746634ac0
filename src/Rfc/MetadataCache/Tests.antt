-- ===== src/Rfc/MetadataCache/Tests.antt =====
-- The cache in front of a small backend that counts its calls.
use sap_automate.Base.{
  ℕ, ◌+◌, ◌≡◌, refl, ◌≢◌, true, false, none, [], ◌∷◌, arith, if◌then◌else◌, str_eq, nat_key,
  string_key, pair_key,
}
use sap_automate.Base.Dict.{get}
use sap_automate.Rfc.Error.{RfcError, ok, err}
use sap_automate.Rfc.Client.{RfcFunctionMeta}
use sap_automate.Rfc.MetadataCache.{Inner, get_fresh, rfc_metadata, new, count_hits, fresh_of}
use sap_automate.Rfc.MetadataCache.Freshness.{rfc_metadata_again}

abbrev material : RfcFunctionMeta
material = record {
  function = "BAPI_MATERIAL_GET_DETAIL";
  description = "";
  function_group = "MM";
  package_name = none;
  parameters = [];
  deprecated = false;
  read_only = true;
  commit_required = false;
  authorization = [];
  s4hana_notes = none;
}

-- It knows one function in every language.
abbrev backend : Inner
backend = record {
  State = ℕ;
  rfc_metadata = λ function language n. (
    if str_eq function material.function then ok material else err (RfcError.not_found function),
    n + 1,
  );
  bulk_rfc_metadata = λ functions language n.
      (ok (record { language = language; functions = material ∷ []; missing = [] }), n + 1);
}

rfc_metadata_again_example :
    let (answer, c', t) = rfc_metadata backend (new 60) material.function "EN" 0 1 0 in
    (answer ≡ ok material)
    × (t ≡ 1)
    × (rfc_metadata backend c' material.function "EN" 61 61 t ≡ (ok material, count_hits c' 1, t))
unfolding new get_fresh fresh_of get
rfc_metadata_again_example =
    rfc_metadata_again backend (new 60) material.function "EN" 0 1 61 0 1 material sixty miss refl
      (ground arith)
  where
    miss : get_fresh (new 60) (material.function, "EN") 0 ≡ none
    miss = refl

    sixty : (new 60).ttl ≢ 0
    sixty = ground arith
