-- ===== src/Tests/Calls.antt =====
-- Calls that succeed, each on the world that the calls before it have left.
use credmesh_solana.Prelude.{◌≡◌, refl, ok}
use credmesh_solana.Prelude.Int.{pos, ◌+ℤ◌, ◌-ℤ◌}
use credmesh_solana.Store.{find, put, remove}
use credmesh_solana.Shared.Bytes.{from_le_bytes, to_le_bytes, bytes_eq}
use credmesh_solana.Shared.Layout.{as_u8}
use credmesh_solana.Shared.Introspection.{
  parse_offsets, verify_prev_ed25519, scan, require_memo_nonce, writes_vault,
  require_squads_governance_cpi,
}
use credmesh_solana.Escrow.State.{validate}
use credmesh_solana.Escrow.Pricing.{
  preview_deposit, preview_redeem, kink_rate, fee_rate, compute_fee_amount,
  compute_late_penalty_per_day, compute_utilization_bps,
}
use credmesh_solana.Escrow.Liquidity.{deposit, withdraw}
use credmesh_solana.Escrow.World.{World}
use credmesh_solana.Escrow.Params.{propose_params, execute_params, skim_protocol_fees}
use credmesh_solana.Escrow.Attestation.{
  pubkey_at, u64_le, i64_le, decode, is_fresh, verify_attestation,
}
use credmesh_solana.Escrow.Attestation.RoundTrip.{encode}
use credmesh_solana.Escrow.RequestAdvance.{
  pin_ledger, roll_window, charge_window, underwrite, price_advance, request_accounts,
  request_handler, request_advance,
}
use credmesh_solana.Escrow.Settlement.{
  late_days_at, waterfall, settle_accounts, settle_handler, claim_and_settle, liquidate,
}
use credmesh_solana.Tests.Bank.{tokens, set_amount, transfer, mint_to, burn, init_associated}
use credmesh_solana.Tests.Worlds.{world, lp_accounts, request, claim, returned, skim, proposal}
use credmesh_solana.Tests.Messages.{sysvar, nonce}

abbrev pub after_deposits : World tokens
after_deposits = (returned (deposit tokens lp_accounts 1_000_000 world)).0

pub deposits_ok :
    deposit tokens lp_accounts 1_000_000 world
    ≡ ok (returned (deposit tokens lp_accounts 1_000_000 world))
unfolding deposit preview_deposit find put remove set_amount transfer mint_to burn init_associated
    ◌+ℤ◌ ◌-ℤ◌
deposits_ok = refl

abbrev pub after_withdraws : World tokens
after_withdraws = (returned (withdraw tokens lp_accounts 1_000_000_000 world)).0

pub withdraws_ok :
    withdraw tokens lp_accounts 1_000_000_000 world
    ≡ ok (returned (withdraw tokens lp_accounts 1_000_000_000 world))
unfolding withdraw preview_redeem find put remove set_amount transfer mint_to burn init_associated
    ◌+ℤ◌ ◌-ℤ◌
withdraws_ok = refl

abbrev pub after_requests : World tokens
after_requests =
    (returned (request_advance tokens sysvar (pos 90_000) request 12 10_000_000 nonce world)).0

pub requests_ok :
    request_advance tokens sysvar (pos 90_000) request 12 10_000_000 nonce world
    ≡ ok (returned (request_advance tokens sysvar (pos 90_000) request 12 10_000_000 nonce world))
unfolding request_advance request_accounts request_handler verify_attestation verify_prev_ed25519
    parse_offsets decode pubkey_at u64_le i64_le is_fresh from_le_bytes to_le_bytes encode bytes_eq
    as_u8 pin_ledger roll_window charge_window underwrite price_advance compute_utilization_bps
    compute_fee_amount fee_rate kink_rate compute_late_penalty_per_day find put remove set_amount
    transfer mint_to burn init_associated ◌+ℤ◌ ◌-ℤ◌
requests_ok = refl

abbrev pub after_settles : World tokens
after_settles =
    (returned (claim_and_settle tokens sysvar (pos 900_000) claim 21_020_000 after_requests)).0

pub settles_ok :
    claim_and_settle tokens sysvar (pos 900_000) claim 21_020_000 after_requests
    ≡ ok (returned (claim_and_settle tokens sysvar (pos 900_000) claim 21_020_000 after_requests))
unfolding claim_and_settle settle_accounts settle_handler require_memo_nonce late_days_at waterfall
    scan request_advance request_accounts request_handler verify_attestation verify_prev_ed25519
    parse_offsets decode pubkey_at u64_le i64_le is_fresh from_le_bytes to_le_bytes encode bytes_eq
    as_u8 pin_ledger roll_window charge_window underwrite price_advance compute_utilization_bps
    compute_fee_amount fee_rate kink_rate compute_late_penalty_per_day find put remove set_amount
    transfer mint_to burn init_associated ◌+ℤ◌ ◌-ℤ◌
settles_ok = refl

abbrev pub after_requests_more : World tokens
after_requests_more =
    (returned
      (request_advance tokens sysvar (pos 90_000) request 13 10_000_000 nonce after_requests)).0

pub requests_more_ok :
    request_advance tokens sysvar (pos 90_000) request 13 10_000_000 nonce after_requests
    ≡ ok (
        returned
          (request_advance tokens sysvar (pos 90_000) request 13 10_000_000 nonce after_requests))
unfolding request_advance request_accounts request_handler verify_attestation verify_prev_ed25519
    parse_offsets decode pubkey_at u64_le i64_le is_fresh from_le_bytes to_le_bytes encode bytes_eq
    as_u8 pin_ledger roll_window charge_window underwrite price_advance compute_utilization_bps
    compute_fee_amount fee_rate kink_rate compute_late_penalty_per_day find put remove set_amount
    transfer mint_to burn init_associated ◌+ℤ◌ ◌-ℤ◌
requests_more_ok = refl

abbrev pub after_liquidates : World tokens
after_liquidates = (returned (liquidate tokens (pos 2_200_000) (7, 12) 247 after_settles)).0

pub liquidates_ok :
    liquidate tokens (pos 2_200_000) (7, 12) 247 after_settles
    ≡ ok (returned (liquidate tokens (pos 2_200_000) (7, 12) 247 after_settles))
unfolding liquidate scan claim_and_settle settle_accounts settle_handler require_memo_nonce
    late_days_at waterfall request_advance request_accounts request_handler verify_attestation
    verify_prev_ed25519 parse_offsets decode pubkey_at u64_le i64_le is_fresh from_le_bytes
    to_le_bytes encode bytes_eq as_u8 pin_ledger roll_window charge_window underwrite price_advance
    compute_utilization_bps compute_fee_amount fee_rate kink_rate compute_late_penalty_per_day find
    put remove set_amount transfer mint_to burn init_associated ◌+ℤ◌ ◌-ℤ◌
liquidates_ok = refl

abbrev pub after_proposes : World tokens
after_proposes = (returned (propose_params tokens sysvar (pos 90_000) 6 proposal world)).0

pub proposes_ok :
    propose_params tokens sysvar (pos 90_000) 6 proposal world
    ≡ ok (returned (propose_params tokens sysvar (pos 90_000) 6 proposal world))
unfolding propose_params validate require_squads_governance_cpi scan writes_vault find put remove
    set_amount transfer mint_to burn init_associated ◌+ℤ◌ ◌-ℤ◌
proposes_ok = refl

abbrev pub after_executes : World tokens
after_executes = (returned (execute_params tokens (pos 180_000) after_proposes)).0

pub executes_ok :
    execute_params tokens (pos 180_000) after_proposes
    ≡ ok (returned (execute_params tokens (pos 180_000) after_proposes))
unfolding execute_params propose_params validate require_squads_governance_cpi scan writes_vault
    find put remove set_amount transfer mint_to burn init_associated ◌+ℤ◌ ◌-ℤ◌
executes_ok = refl

abbrev pub after_skims : World tokens
after_skims = (returned (skim_protocol_fees tokens sysvar skim 100_000 after_settles)).0

pub skims_ok :
    skim_protocol_fees tokens sysvar skim 100_000 after_settles
    ≡ ok (returned (skim_protocol_fees tokens sysvar skim 100_000 after_settles))
unfolding skim_protocol_fees require_squads_governance_cpi scan writes_vault claim_and_settle
    settle_accounts settle_handler require_memo_nonce late_days_at waterfall request_advance
    request_accounts request_handler verify_attestation verify_prev_ed25519 parse_offsets decode
    pubkey_at u64_le i64_le is_fresh from_le_bytes to_le_bytes encode bytes_eq as_u8 pin_ledger
    roll_window charge_window underwrite price_advance compute_utilization_bps compute_fee_amount
    fee_rate kink_rate compute_late_penalty_per_day find put remove set_amount transfer mint_to burn
    init_associated ◌+ℤ◌ ◌-ℤ◌
skims_ok = refl
