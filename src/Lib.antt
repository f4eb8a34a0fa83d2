-- ===== src/Lib.antt =====
-- The on-chain programs of credmesh: an escrow that lends the pooled assets of LPs to agents against
-- a signed credit attestation, and the registry of the keys whose attestations count. The model covers
-- the Rust code under programs/ and crates/; the services under ts/ and the scripts are other programs.
--
-- Parts, and the code that each file models:
-- - Shared/Bytes, Shared/Layout: byte arrays, and the constants, the message layout and the attestor
--   kinds of crates/credmesh-shared/src/lib.rs. Shared/Introspection: ix_introspection.rs there, that
--   is `verify_prev_ed25519`, `require_memo_nonce` and `require_squads_governance_cpi`, with what they
--   accept in Introspection/Ed25519, Introspection/Scan and, for a whole transaction,
--   Introspection/Enough. Shared/CrossProgram: cross_program.rs.
-- - Registry: programs/credmesh-attestor-registry/src, its four instructions on the configuration and
--   the allowed signers; Registry/Governed: under what they succeed and what they change;
--   Registry/Steps: the four as steps.
-- - Escrow: programs/credmesh-escrow/src. State, Errors and Events are the files of those names,
--   Pricing is pricing.rs (its unit tests in Pricing/UnitTests), InitPool, Liquidity (deposit.rs,
--   withdraw.rs), Attestation and RequestAdvance (request_advance.rs), Settlement (claim_and_settle.rs,
--   liquidate.rs) and Params (propose_params.rs, execute_params.rs, skim_protocol_fees.rs) are the
--   instructions. The modules named Effects and Settle derive from a call that succeeds what it was
--   given and what it has done, Settles, Liquidates, Succeeds and Exactly when the call succeeds,
--   Settlement/Windows when it must fail, RequestAdvance/Window what the issuance window lets through.
--   Dispatch has the entry points of lib.rs, Panics what they can abort on, Seeds the seeds of the
--   accounts (state.rs and the `seeds` attributes).
-- - Protocol: the instructions as steps between the accounts of one pool, and runs of them: the vault
--   and the books (Vault, Solvency, Genesis), the open advances (Advances, Limits, Replay), the
--   parameters (Timelock), the price of a share (Price), the signers (Whitelisted), the machine types
--   (Ranges), the share tokens against the books (Shares), what the accounts say of themselves and the
--   way out of an advance (Kept), and the abstract book that the accounts stand for (Book). Effects
--   says what a step has done, Process runs lists of calls of the entry points, failing ones among
--   them.
-- - Prelude, Machine, Runtime, Store, Token: shared helpers, machine integers, the errors of handlers,
--   accounts by their seeds, and the token program.
-- - Tests: a concrete token program, pool, transaction and runs.
--
-- How the code is read. An instruction is a function from the accounts of a pool to an error or to the
-- accounts and the event after it; a transaction that fails changes nothing. The constraints of an
-- `#[derive(Accounts)]` struct come first in that function, then the handler, in the order of the
-- source. `checked_` and `saturating_` operations, conversions and slices have their bounds written
-- out, and a plain operation that overflows aborts, as the release profile has overflow checks on. An
-- `init` account must be free, `close` removes the account after the handler, and a marker that is
-- never closed stays. Accounts are kept by the seeds of their addresses, so a program-derived address
-- is not computed; that the hash of different seeds differs is part of this reading, and Seeds shows
-- that no two accounts have the same seed bytes.
--
-- Parameters: the token program (`TokenProgram`, with `IsTokenProgram` for the documented effect of
-- transfers, mints, burns and associated accounts), the instructions sysvar and the clock, and the type
-- of an account of another program. Theorems on balances assume that the vault is the pool's and that
-- the treasury is another account (`Custody`).
--
-- In a run, token instructions of others are a step that may do anything to their own accounts: they take
-- nothing from the vault, leave its owner, and mint no shares. Governance is what the code checks, a
-- Squads instruction of the transaction with the vault writable.
--
-- Bounds: a scan of the transaction recurs on the rounds left of the 64 that the source allows, which
-- is the loop's own bound, and enough for a transaction of at most 64 instructions
-- (Introspection/Enough); no other function recurs on fuel.
--
-- Not modelled: the hash behind `derive_pda` (a parameter), rent, account discriminators and sizes,
-- the bytes of accounts, and the decoding of instruction data, which the framework generates.
pub mod Prelude
pub mod Machine
pub mod Runtime
pub mod Store
pub mod Token
pub mod Shared
pub mod Registry
pub mod Escrow
pub mod Protocol
pub mod Tests
