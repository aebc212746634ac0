-- ===== src/Rfc/Soap/Meaning.antt =====
-- crates/sap-automate-rfc/src/soap.rs: what an envelope means to the system that reads it.
use sap_automate.Base.{
  String, ◌≡◌, refl, true, some, List, [], ◌∷◌, ◌++◌, nat_key, string_key, pair_key, Text, codes,
  text_eq, text_key,
}
use sap_automate.Json.{Fields}
use sap_automate.Rfc.Error.{ok}
use sap_automate.Rfc.Soap.Arguments.{
  content_params, is_xml_key, plain_fields, safe-IsTagName, params-ReadsAs,
}
use sap_automate.Rfc.Soap.Envelope.{
  is_safe_name, enclose, write_params, validate_fields, build_envelope, preamble, closing,
}
use sap_automate.Rfc.Soap.Xml.{
  Content, done, element, read_xml, tokens, tokens_in_tag, rebuild, step, on_tag, up_to_space,
}
use sap_automate.Rfc.Soap.Reads.{read, IsTagName, enclose-ReadsAs}

rfc-IsTagName : (f : String) → IsTagName (codes f) → IsTagName (codes "rfc:" ++ codes f)
rfc-IsTagName f p = (refl, p.1)

abbrev unclosed : List (Text × Content)
unclosed = (codes "soap:Body", done) ∷ (codes "soap:Envelope", done) ∷ []

read-closing : read closing ≡ some (done, unclosed)
unfolding read tokens tokens_in_tag rebuild step on_tag mathlib.Core.Option.bind
read-closing = refl

read-preamble :
    (s : Text) (x : Content)
    → read s ≡ some (x, unclosed)
    → read (preamble ++ s)
      ≡ some (element (codes "soap:Envelope") (element (codes "soap:Body") x done) done, [])
unfolding read tokens tokens_in_tag rebuild step on_tag up_to_space text_eq mathlib.Core.Option.bind
read-preamble s x h = let e : rebuild (tokens s) ≡ some (x, unclosed) = h in rw e refl

-- Read back, the envelope holds one body with one element: the named function, with one element for
-- each argument that is not null, of the argument's name and content, an array as an `item` for each
-- value. The condition is that names and keys pass the checks, are names of XML (no slash, no digit
-- in front), that texts have characters of XML only and no carriage return, that numbers are
-- printed as such, and that no array stands in an array.
pub read_xml-build_envelope :
    (f : String) (fs : Fields)
    → is_safe_name f ≡ true
    → is_xml_key (codes f) ≡ true
    → validate_fields fs ≡ ok tt
    → plain_fields fs ≡ true
    → read_xml (build_envelope f (write_params fs))
      ≡ some (
          element
            (codes "soap:Envelope")
            (element
              (codes "soap:Body")
              (element (codes "rfc:" ++ codes f) (content_params fs) done)
              done)
            done)
unfolding read_xml build_envelope read mathlib.Core.Option.bind
read_xml-build_envelope f fs p q r s =
    let t = rfc-IsTagName f (safe-IsTagName f p q) in
    let body = enclose (codes "rfc:" ++ codes f) (write_params fs) in
    rw
      (read-preamble (body ++ closing) (element (codes "rfc:" ++ codes f) (content_params fs) done)
        (enclose-ReadsAs (codes "rfc:" ++ codes f) (write_params fs) (content_params fs) t
          (params-ReadsAs fs r s) closing (done, unclosed) read-closing))
      refl
