-- ===== src/Escrow.antt =====
-- programs/credmesh-escrow: the pool vault, its pricing and its instructions.
pub mod Panics
pub mod Dispatch
pub mod Errors
pub mod State
pub mod Pricing
pub mod Events
pub mod World
pub mod Seeds
pub mod InitPool
pub mod Liquidity
pub mod Params
pub mod Attestation
pub mod RequestAdvance
pub mod Settlement
