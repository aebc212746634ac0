-- ===== src/Rfc/Soap.antt =====
-- crates/sap-automate-rfc/src/soap.rs: the client that posts SOAP envelopes, `SoapRfcClient`.
pub mod Envelope
pub mod Xml
pub mod Reads
pub mod Arguments
pub mod Meaning
pub mod Response
pub mod Parsing
pub mod Document
pub mod Rows
pub mod FieldInfo
pub mod Invoke
pub mod Calls
pub mod Safety
pub mod ReadOnly
pub mod Delimited
mod Tests
