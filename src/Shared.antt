-- ===== src/Shared.antt =====
-- crates/credmesh-shared: what the two programs share.
pub mod Bytes
pub mod Layout
pub mod Instructions
pub mod Introspection
pub mod CrossProgram
