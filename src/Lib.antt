-- ===== src/Lib.antt =====
-- SAP-Automate: an MCP server that gives agents a guarded access to SAP systems. A client speaks
-- JSON-RPC to the server (crates/mcp-core, crates/mcp-server), whose tools call SAP through the
-- access layer (crates/sap-automate-rfc): a client that posts SOAP envelopes, retries, a circuit
-- breaker, a metadata cache, and transactional writes that read BAPIRET2 messages; and development
-- objects through crates/sap-automate-adt. Beside it stand the agent's memory
-- (crates/sap-automate-memory), the scheduler of recurring jobs (crates/sap-automate-scheduler), the
-- document trees of the knowledge base (crates/sap-automate-kb), and of the crawler
-- (crates/sap-automate-ingest) its rate limiter, its robots rules and its chunker. Calls that write
-- are logged (crates/sap-automate-observability), and messages go out over channels
-- (crates/sap-automate-channels). The repository's own client is crates/mcp-client.
--
-- Which file models what:
-- - Base, Base/*: numbers, Boolean tests, lists, keys, association lists for `HashMap`, integers, and
--   texts as code points.
-- - Json: `serde_json::Value`.
-- - Rfc/Error: crates/sap-automate-rfc/src/error.rs, the codes and `is_transient`.
-- - Rfc/Retry: crates/sap-automate-rfc/src/retry.rs, `retry_with_backoff`. The operation is the
--   sequence of its outcomes. The loop runs on fuel; `max_attempts` + 1 is given, and its theorem
--   shows that this is enough.
-- - Rfc/Circuit: the same file, `CircuitBreaker`: `call` is its two critical sections, and several
--   tasks are interleavings of them.
-- - Rfc/BapiRet2: crates/sap-automate-rfc/src/bapiret2.rs, `parse_bapiret2` with its walk, which
--   stops at depth 8.
-- - Rfc/Client: crates/sap-automate-rfc/src/client.rs, the trait `SapClient` as a parameter.
-- - Rfc/MockClient: the same file, `MockSapClient`: lookups and `call_rfc`; MockClient/Clauses, /Like and
--   /Tables have `parse_conditions`, `sql_like` and `read_table`. Case mappings, the printing of a value
--   and the order of map keys are parameters.
-- - Rfc/Transaction: crates/sap-automate-rfc/src/transaction.rs, `execute_write_bapi`, with the list
--   of the calls that it issues.
-- - Rfc/MetadataCache: crates/sap-automate-rfc/src/metadata_cache.rs, with the inner client and the
--   clock as parameters.
-- - Mcp/Error, Mcp/JsonRpc, Mcp/Protocol: error.rs, jsonrpc.rs and protocol.rs of
--   crates/mcp-core/src.
-- - Mcp/Registry: crates/mcp-server/src/registry.rs.
-- - Mcp/Builder, Mcp/Codec, Mcp/Server: crates/mcp-server/src/server.rs: `ServerBuilder`,
--   `ServerContext`, `handle_method`, `dispatch` and the serial loop `run_single_actor`, on what the
--   transport answers as a list.
-- - Mcp/Elicit: crates/mcp-server/src/elicit.rs, `elicit` up to its wait and `deliver_response`.
-- - Mcp/Stdio: crates/mcp-transport/src/stdio.rs; Mcp/Framing shows that a message sent is received and
--   that the fuel for blank lines, one more than the letters, is enough.
-- - Mcp/Client: crates/mcp-client/src/lib.rs, the calls that wait, the reader loop of
--   `spawn_with_halves` and `handle_server_request`.
-- - Channels: crates/sap-automate-channels/src/lib.rs, the registry and its adapters.
-- - Observability/Audit: crates/sap-automate-observability/src/audit.rs.
-- - Memory: crates/sap-automate-memory/src/lib.rs.
-- - Scheduler: crates/sap-automate-scheduler/src/lib.rs.
-- - Rfc/Credentials: crates/sap-automate-rfc/src/credentials.rs, the providers and their chain.
-- - Rfc/Pool: crates/sap-automate-rfc/src/pool.rs, the capacity and the number of free permits; acquiring
--   a permit is tokio's and not modelled.
-- - Rfc/Soap: crates/sap-automate-rfc/src/soap.rs: Soap/Envelope builds what is posted, Soap/Response,
--   /Rows and /FieldInfo read what comes back, Soap/Invoke and /Calls are the client's operations. HTTP
--   and the XML reader are parameters: a request has an outcome, and a text a list of XML events. The
--   parser runs on fuel, one more than the events; Soap/Parsing shows that this is enough, and
--   Soap/Document says which value a document is read to. Soap/Xml is a reader of XML texts that the theorems on the envelope use.
-- - Adt: crates/sap-automate-adt/src: Adt/Error, /Types and /Destination the files of these names,
--   Adt/Session the tokens, headers and requests of http.rs, Adt/Http its operations, Adt/Responses,
--   /Preview and /Nodes its parsers, Adt/Base64 and /UrlEncoding its encodings, Adt/Mock mock.rs. What the
--   system answers is a parameter, given all that was sent before.
-- - Ingest/RateLimit: crates/sap-automate-ingest/src/rate_limit.rs.
-- - Ingest/Chunker: crates/sap-automate-ingest/src/chunker.rs, `split_text` on bytes, with its slices as
--   ranges and a panic as a value. The loop runs on fuel, one more than the bytes; its theorem shows
--   that this is enough.
-- - Ingest/Robots: crates/sap-automate-ingest/src/robots.rs.
-- - Kb/Headings, Kb/Sections, Kb/DocTree: crates/sap-automate-kb/src/doc_tree.rs: headings, sections and
--   nodes, and the assembly with its raw pointers, of which a push makes those to the elements of its
--   vector dangle.
--
-- Instants and durations are natural numbers of the unit that each file names, and every reading of
-- a clock is an argument. Counters (u64) are unbounded; casts that wrap around are written out.
-- Derived code (serde, thiserror), the inner clients, handlers and executors are parameters.
--
-- Not modelled: the split reader and writer of `run_stdio`, the HTTP transport, OData, the loading of ADT
-- destinations from files and the search of the mock clients, whose order hangs on a `HashMap` or on
-- floats; the graph, retrieval, the stores of the knowledge base and the rest of the ingest pipeline; the crates'
-- floats, HTTP and process I/O; the applications, which wire the crates together.
pub mod Base
pub mod Json
pub mod Adt
pub mod Channels
pub mod Ingest
pub mod Kb
pub mod Mcp
pub mod Memory
pub mod Observability
pub mod Rfc
pub mod Scheduler
