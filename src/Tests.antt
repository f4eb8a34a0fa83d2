-- ===== src/Tests.antt =====
-- Concrete inputs: a token program that keeps its accounts in a list, worlds, and runs on them.
pub mod Bank
pub mod BankLaws
pub mod Messages
pub mod Runs
pub mod Succeeds
pub mod Requests
pub mod Worlds
pub mod Calls
pub mod Escrow
pub mod Exits
pub mod Pricing
pub mod Shared
pub mod Protocol
pub mod Registry
pub mod Settles
