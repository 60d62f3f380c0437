-- ===== src/Client.antt =====
-- The DuckDB client over wasi:http, duckdb-httpfs-wasi/wasi_http_client.cpp.
mod Tests
pub mod Text
pub mod Url
pub mod Body
pub mod Host
pub mod Lawful
pub mod Receive
pub mod Send
pub mod Sample
pub mod Recorder
pub mod Verbs
pub mod Handles
