-- ===== src/Rfc.antt =====
-- crates/sap-automate-rfc: the access layer between the MCP server and an SAP system.
pub mod Error
pub mod MockClient
pub mod Retry
pub mod Circuit
pub mod BapiRet2
pub mod Client
pub mod Transaction
mod Tests
pub mod MetadataCache
pub mod Pool
pub mod Credentials
pub mod Soap
