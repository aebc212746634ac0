-- ===== src/Rfc/Soap/ReadOnly.antt =====
-- crates/sap-automate-rfc/src/soap.rs: what a call in read-only mode asks of the system.
use sap_automate.Base.{
  ◌≡◌, refl, sym, ap, ◌∙◌, inl, inr, true, some, List, ◌∷◌, ◌++◌, arith, nat_key, string_key,
  pair_key, codes, text_key,
}
use sap_automate.Json.{Value, Fields}
use sap_automate.Rfc.Error.{RfcResult, ok}
use sap_automate.Rfc.Client.{RfcFunctionMeta, RfcCallRequest}
use sap_automate.Rfc.Soap.Envelope.{write_params, build_envelope}
use sap_automate.Rfc.Soap.Xml.{element, done, read_xml}
use sap_automate.Rfc.Soap.Arguments.{content_params, is_xml_key, is_plain, plain_fields}
use sap_automate.Rfc.Soap.Meaning.{read_xml-build_envelope}
use sap_automate.Rfc.Soap.Invoke.{SoapRfcConfig, Outside, SoapRequest, request_for}
use sap_automate.Rfc.Soap.Calls.{args_of, call_rfc}
use sap_automate.Rfc.Soap.Safety.{Posted, posts-call_rfc}

module _ (out : Outside) (config : SoapRfcConfig) where
  args_of-plain :
      (v : Value) (args : Fields)
      → args_of out config v ≡ ok args
      → is_plain v ≡ true
      → plain_fields args ≡ true
  unfolding args_of is_plain plain_fields
  args_of-plain (Value.object m) args e h = let same : m ≡ args = cc in rw (sym same) h
  args_of-plain Value.null args e h = let same : Fields.end ≡ args = cc in rw (sym same) refl
  args_of-plain (Value.bool b) args e h = ground arith
  args_of-plain (Value.number n) args e h = ground arith
  args_of-plain (Value.string s) args e h = ground arith
  args_of-plain (Value.array vs) args e h = ground arith

  Posted-reads :
      (r : RfcResult RfcFunctionMeta)
      → Posted r true
      → (meta : RfcFunctionMeta) × (r ≡ ok meta) × (meta.read_only ≡ true)
  Posted-reads r (inl (meta, e, reads)) = (meta, e, reads refl)
  Posted-reads r (inr (x, e, f)) = absurd (ground arith)

  -- A request that asks for one function, one that only reads, with the arguments of the call.
  abbrev pub OnlyReads : RfcCallRequest → SoapRequest → Type 0
  OnlyReads request q =
      (meta : RfcFunctionMeta) × (args : Fields) × (out.rfc_metadata request.function
          config.language
        ≡ ok meta)
      × (meta.read_only ≡ true)
      × (args_of out config request.parameters ≡ ok args)
      × (read_xml q.body
          ≡ some (
              element (codes "soap:Envelope")
                (element (codes "soap:Body")
                  (element (codes "rfc:" ++ codes request.function) (content_params args) done)
                  done)
                done))

  -- What a call in read-only mode posts is read back as one call of the named function, with one
  -- element for each argument that is not null and the content of that argument, and the catalogue
  -- has that function as one that only reads. The condition is that names and keys are names of
  -- XML (no slash, no digit in front), that texts have characters of XML only and no carriage
  -- return, that numbers are printed as such, and that no array stands in an array.
  pub call_rfc-OnlyReads :
      (request : RfcCallRequest) (q : SoapRequest) (qs : List SoapRequest)
      → (call_rfc out config request true).1 ≡ q ∷ qs
      → is_xml_key (codes request.function) ≡ true
      → is_plain request.parameters ≡ true
      → OnlyReads request q
  unfolding request_for
  call_rfc-OnlyReads request q qs h no_slash plain =
      let (args, allowed, safe, given, valid, same, last) =
        posts-call_rfc out config request true q qs h in
      let (meta, known, reads) =
        Posted-reads (out.rfc_metadata request.function config.language) allowed in
      let body : q.body ≡ build_envelope request.function (write_params args) =
        ap (λ p. p.body) same in
      (
        meta,
        args,
        known,
        reads,
        given,
        ap read_xml body
            ∙ read_xml-build_envelope request.function args safe no_slash valid
                (args_of-plain request.parameters args given plain),
      )
