-- ===== src/Escrow/RequestAdvance.antt =====
-- programs/credmesh-escrow/src/instructions/request_advance.rs, from step (4) on; the checks on the
-- signed message are in `Attestation`.
pub mod Effects
pub mod Ledger
pub mod Window
pub mod Priced
pub mod Succeeds
pub mod Exactly
mod Terms
pub use Terms.{zeroed_ledger, ledger_or_zero}
unfoldable pub use Terms.{pin_ledger, roll_window, charge_window, underwrite, price_advance}
use credmesh_solana.Prelude.{
  ℕ, ◌≡◌, none, some, Option, ltb, leb, ◌==◌, ok, require, ◌>>=◌, ◌>>◌, if◌then◌else◌,
}
use credmesh_solana.Prelude.Int.{ℤ, pos, leb_ℤ}
use credmesh_solana.Machine.{checked_add_u64, saturating_sub_u64, saturating_sub_i64, clamp_to_u64}
use credmesh_solana.Runtime.{Outcome, custom, constraint, or_fail, or_cpi, or_constraint, is_free}
use credmesh_solana.Store.{find, put, nat_eq, pair_eq}
use credmesh_solana.Token.{TokenProgram}
use credmesh_solana.Shared.Bytes.{Pubkey, Bytes}
use credmesh_solana.Shared.Instructions.{Sysvar}
use credmesh_solana.Registry.{AllowedSigner}
use credmesh_solana.Escrow.Errors.{
  CredmeshError, math_overflow, advance_exceeds_cap, advance_exceeds_credit,
  agent_window_cap_exceeded, insufficient_idle_liquidity,
}
use credmesh_solana.Escrow.Events.{Event, advance_issued}
use credmesh_solana.Escrow.State.{
  Pool, Advance, AdvanceState, ConsumedPayment, AgentIssuanceLedger, min_advance_atoms,
  agent_window_seconds,
}
use credmesh_solana.Escrow.Pricing.{
  compute_fee_amount, compute_late_penalty_per_day, compute_utilization_bps,
}
use credmesh_solana.Escrow.Attestation.{Attestation, verify_attestation}
use credmesh_solana.Escrow.World.{
  World, Handled, AdvanceKey, token_account, mint_account, require_address, require_token,
}

-- The accounts of `RequestAdvance`: the allowed signer by the key in its seeds, the advance, the marker
-- and the ledger by their bumps.
pub record RequestAdvance : Type 0 where
  pub agent : Pubkey
  pub allowed_signer : Pubkey
  pub advance_bump : ℕ
  pub consumed_bump : ℕ
  pub issuance_ledger_bump : ℕ
  pub pool_usdc_vault : Pubkey
  pub agent_usdc_ata : Pubkey
  pub usdc_mint : Pubkey

-- What the constraints have loaded and made: the bank with the agent's token account in it.
pub record Loaded (t : TokenProgram) : Type 0 where
  pub allowed : AllowedSigner
  pub decimals : ℕ
  pub opened : t.Bank

-- Step (7): the accounts that are made.
abbrev pub new_advance :
    (now : ℤ)
    → RequestAdvance
    → (receivable_id amount fee_owed late_penalty_per_day : ℕ) → Attestation
    → (attestor : Pubkey) → Advance
new_advance now ctx receivable_id amount fee_owed late_penalty_per_day m attestor = record {
  bump = ctx.advance_bump;
  agent = ctx.agent;
  receivable_id = receivable_id;
  principal = amount;
  fee_owed = fee_owed;
  late_penalty_per_day = late_penalty_per_day;
  issued_at = now;
  expires_at = m.expires_at;
  attestor = attestor;
  state = AdvanceState.issued;
}

abbrev pub new_marker : (now : ℤ) → RequestAdvance → Bytes → ConsumedPayment
new_marker now ctx nonce = record {
  bump = ctx.consumed_bump;
  nonce = nonce;
  agent = ctx.agent;
  created_at = now;
}

-- Step (8): the principal in the hands of agents, within the assets.
abbrev pub raise_deployed : (amount : ℕ) → Pool → Outcome CredmeshError ℕ
raise_deployed amount pool = do
  deployed_amount ← or_fail (checked_add_u64 pool.deployed_amount amount) math_overflow
  require (leb deployed_amount pool.total_assets) (custom insufficient_idle_liquidity)
  ok deployed_amount

module _ (t : TokenProgram) where
  -- Step (6): the vault pays the agent.
  abbrev pub disburse :
      RequestAdvance → Loaded t → (amount : ℕ) → World t → Outcome CredmeshError t.Bank
  disburse ctx loaded amount w = or_cpi (
      t.transfer_checked ctx.pool_usdc_vault ctx.usdc_mint ctx.agent_usdc_ata w.pool_key amount
        loaded.decimals loaded.opened)

  -- The accounts of `RequestAdvance` under their constraints.
  unfoldable pub request_accounts :
      RequestAdvance → (receivable_id : ℕ) → World t → Outcome CredmeshError (Loaded t)
  request_accounts ctx receivable_id w = do
    let pool = w.pool
    let key : AdvanceKey = (ctx.agent, receivable_id)
    allowed ← or_constraint (find ctx.allowed_signer w.registry.allowed_signers)
    require_address allowed.signer ctx.allowed_signer
    require (is_free (find key w.advances)) constraint
    require (is_free (find key w.consumed)) constraint
    require_address ctx.pool_usdc_vault pool.usdc_vault
    vault ← token_account t w.bank ctx.pool_usdc_vault
    require_address ctx.agent_usdc_ata (t.associated ctx.usdc_mint ctx.agent)
    opened ← or_cpi (t.init_associated ctx.usdc_mint ctx.agent w.bank)
    agent_usdc ← token_account t opened ctx.agent_usdc_ata
    require_token agent_usdc ctx.usdc_mint ctx.agent
    require_address ctx.usdc_mint pool.asset_mint
    usdc_mint ← mint_account t opened ctx.usdc_mint
    ok (record { allowed = allowed; decimals = usdc_mint.decimals; opened = opened })

  unfoldable pub request_handler :
      (sysvar : Sysvar) (now : ℤ)
      → RequestAdvance
      → Loaded t
      → (receivable_id amount : ℕ) (nonce : Bytes) → World t
      → Handled t
  request_handler sysvar now ctx loaded receivable_id amount nonce w = do
    let pool = w.pool
    let key : AdvanceKey = (ctx.agent, receivable_id)
    require (leb min_advance_atoms amount) (custom advance_exceeds_cap)
    (signed_pubkey, m) ←
        verify_attestation sysvar now loaded.allowed ctx.agent w.pool_key pool.chain_id nonce
    let found = ledger_or_zero (find ctx.agent w.ledgers)
    let pinned = pin_ledger now ctx.issuance_ledger_bump ctx.agent w.pool_key found
    charged ← charge_window amount pool.agent_window_cap (roll_window now pinned)
    ledger ← underwrite amount pool.max_advance_abs m charged
    (fee_owed, late_penalty_per_day) ← price_advance now amount m pool
    paid ← disburse ctx loaded amount w
    let advance =
        new_advance now ctx receivable_id amount fee_owed late_penalty_per_day m signed_pubkey
    let marker = new_marker now ctx nonce
    deployed_amount ← raise_deployed amount pool
    ok (
      record w {
        pool = record pool { deployed_amount = deployed_amount };
        advances = put key advance w.advances;
        consumed = put key marker w.consumed;
        ledgers = put ctx.agent ledger w.ledgers;
        bank = paid;
      },
      advance_issued w.pool_key ctx.agent receivable_id amount fee_owed m.expires_at signed_pubkey,
    )

  unfoldable pub request_advance :
      (sysvar : Sysvar) (now : ℤ)
      → RequestAdvance
      → (receivable_id amount : ℕ) (nonce : Bytes) → World t
      → Handled t
  request_advance sysvar now ctx receivable_id amount nonce w = do
    loaded ← request_accounts ctx receivable_id w
    request_handler sysvar now ctx loaded receivable_id amount nonce w
