-- ===== src/Bindings.antt =====
-- The canonical-ABI bindings of wasi:http in duckdb-httpfs-wasi/http_client.c and .h.
mod Tests
pub mod Memory
pub mod Flat
pub mod Abi
pub mod Variant
pub mod ErrorCode
pub mod Free
pub mod FreeResults
pub mod FreeLists
pub mod Streams
pub mod Http
pub mod Outparam
pub mod Request
pub mod Fields
pub mod Direct
