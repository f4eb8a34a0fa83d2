-- ===== src/Escrow/World.antt =====
-- The accounts that the instructions of one pool read and write. An advance, its consumed marker and
-- its tombstone stand at seeds made of the pool, the agent and the receivable id, an issuance ledger at
-- the pool and the agent; the events name an advance by its agent and receivable id.
use credmesh_solana.Prelude.{ℕ, ◌&&◌, require, ◌==◌}
use credmesh_solana.Runtime.{Outcome, constraint, or_constraint}
use credmesh_solana.Store.{Store}
use credmesh_solana.Token.{TokenProgram, TokenAccount, Mint}
use credmesh_solana.Shared.Bytes.{Pubkey}
use credmesh_solana.Registry.{Registry}
use credmesh_solana.Escrow.Errors.{CredmeshError}
use credmesh_solana.Escrow.Events.{Event}
use credmesh_solana.Escrow.State.{
  Pool, Advance, ConsumedPayment, LiquidationTombstone, AgentIssuanceLedger,
}

-- The seeds of an advance beside the pool: the agent and the receivable id.
abbrev pub AdvanceKey : Type 0
AdvanceKey = ℕ × ℕ

pub record World (t : TokenProgram) : Type 0 where
  pub pool_key : Pubkey
  pub pool : Pool
  pub advances : Store AdvanceKey Advance
  pub consumed : Store AdvanceKey ConsumedPayment
  pub tombstones : Store AdvanceKey LiquidationTombstone
  pub ledgers : Store Pubkey AgentIssuanceLedger
  pub registry : Registry
  pub bank : t.Bank

module _ (t : TokenProgram) where
  -- What a handler returns: the accounts after it and the event that it emits.
  abbrev pub Handled : Type 0
  Handled = Outcome CredmeshError (World t × Event)

  -- `Account<'info, TokenAccount>` and `Account<'info, Mint>`
  abbrev pub token_account : t.Bank → Pubkey → Outcome CredmeshError TokenAccount
  token_account bank a = or_constraint (t.account bank a)

  abbrev pub mint_account : t.Bank → Pubkey → Outcome CredmeshError Mint
  mint_account bank m = or_constraint (t.mint bank m)

-- `address = …`
abbrev pub require_address : (given expected : Pubkey) → Outcome CredmeshError (Unit {0})
require_address given expected = require (given == expected) constraint

-- `token::mint = …, token::authority = …`
abbrev pub require_token :
    TokenAccount → (mint authority : Pubkey) → Outcome CredmeshError (Unit {0})
require_token a mint authority = require (a.mint == mint && a.owner == authority) constraint
