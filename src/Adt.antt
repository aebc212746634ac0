-- ===== src/Adt.antt =====
-- crates/sap-automate-adt: the client of the ABAP development tools (ADT) of an SAP system.
pub mod Error
pub mod Types
pub mod Base64
pub mod UrlEncoding
pub mod Destination
pub mod Session
pub mod Responses
pub mod Http
pub mod Preview
pub mod Nodes
pub mod Cells
pub mod Grid
pub mod Quiet
pub mod Csrf
pub mod Mock
mod Tests
