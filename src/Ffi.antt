-- ===== src/Ffi.antt =====
-- src/ffi: the exported C interface. `Guard` is the writes through the caller's pointers, `Handle` the
-- object behind `private_data`, `Staged` an object before and after `Init`, `Stream` an exported stream.
pub mod Guard
pub mod Handle
pub mod Staged
pub mod Stream
