-- ===== src/Ffi.antt =====
-- libffi for wasm32: libffi-wasi/src and libffi-wasi/include.
pub mod Align
pub mod Store
pub mod Returns
pub mod Aggregate
pub mod Cif
pub mod Types
mod Tests
