-- ===== src/Tests/Worlds.antt =====
-- A pool with one open advance, the transaction that asks for a second one, and what the
-- instructions make of them.
use credmesh_solana.Prelude.{ℕ, none, some, [], ◌∷◌, ok, err}
use credmesh_solana.Prelude.Int.{pos}
use credmesh_solana.Runtime.{Outcome}
use credmesh_solana.Registry.{Registry, AllowedSigner}
use credmesh_solana.Escrow.Errors.{CredmeshError}
use credmesh_solana.Escrow.Events.{Event, deposited}
use credmesh_solana.Escrow.State.{
  FeeCurve, Pool, PendingParams, Advance, AdvanceState, ConsumedPayment, AgentIssuanceLedger,
}
use credmesh_solana.Escrow.World.{World, AdvanceKey}
use credmesh_solana.Escrow.Liquidity.{LpAccounts}
use credmesh_solana.Escrow.RequestAdvance.{RequestAdvance}
use credmesh_solana.Escrow.Settlement.{ClaimAndSettle}
use credmesh_solana.Escrow.Params.{SkimProtocolFees}
use credmesh_solana.Tests.Bank.{Ledger, tokens}
use credmesh_solana.Tests.Messages.{nonce}

-- The pool 1 with its vault 2, share mint 3, asset mint 4, treasury 5 and governance 6; the agent 7,
-- the LP 8, the bridge key 9.
abbrev pub curve : FeeCurve
curve = record {
  utilization_kink_bps = 8000;
  base_rate_bps = 200;
  kink_rate_bps = 600;
  max_rate_bps = 2000;
  duration_per_day_bps = 5;
  risk_premium_bps = 50;
  pool_loss_surcharge_bps = 100;
}

abbrev pub pool : Pool
pool = record {
  bump = 255;
  asset_mint = 4;
  usdc_vault = 2;
  share_mint = 3;
  treasury_ata = 5;
  governance = 6;
  total_assets = 100_000_000;
  total_shares = 100_000_000_000;
  deployed_amount = 20_000_000;
  accrued_protocol_fees = 300_000;
  fee_curve = curve;
  max_advance_pct_bps = 3000;
  max_advance_abs = 50_000_000;
  agent_window_cap = 40_000_000;
  timelock_seconds = pos 86_400;
  chain_id = 2;
  pending_params = none;
}

-- The accounts with these balances of the vault, the treasury and the agent.
abbrev pub set_balances : (vault treasury agent : ℕ) → Ledger
set_balances vault treasury agent = record {
  accounts =
      (2, record { mint = 4; owner = 1; amount = vault })
      ∷ (5, record { mint = 4; owner = 60; amount = treasury })
      ∷ (4007, record { mint = 4; owner = 7; amount = agent })
      ∷ (4008, record { mint = 4; owner = 8; amount = 10_000_000 })
      ∷ (3008, record { mint = 3; owner = 8; amount = 50_000_000_000 })
      ∷ [];
  mints =
      (3, record { decimals = 6; supply = 100_000_000_000 })
      ∷ (4, record { decimals = 6; supply = 1_000_000_000 })
      ∷ [];
}

abbrev pub bank : Ledger
bank = set_balances 80_000_000 300_000 30_000_000

abbrev pub open_key : AdvanceKey
open_key = (7, 11)

-- Issued at 1000 for 10 days.
abbrev pub open_advance : Advance
open_advance = record {
  bump = 254;
  agent = 7;
  receivable_id = 11;
  principal = 20_000_000;
  fee_owed = 1_000_000;
  late_penalty_per_day = 20_000;
  issued_at = pos 1000;
  expires_at = pos 865_000;
  attestor = 9;
  state = AdvanceState.issued;
}

abbrev pub marker : ConsumedPayment
marker = record { bump = 253; nonce = nonce; agent = 7; created_at = pos 1000 }

abbrev pub ledger : AgentIssuanceLedger
ledger = record {
  bump = 252;
  agent = 7;
  pool = 1;
  window_start = pos 1000;
  issued_in_window = 20_000_000;
  live_principal = 20_000_000;
}

abbrev pub bridge : AllowedSigner
bridge = record { bump = 251; signer = 9; kind = 0; added_at = pos 0 }

abbrev pub registry : Registry
registry = record {
  config = some (record { bump = 250; governance = 6 });
  allowed_signers = (9, bridge) ∷ [];
}

abbrev pub world : World tokens
world = record {
  pool_key = 1;
  pool = pool;
  advances = (open_key, open_advance) ∷ [];
  consumed = (open_key, marker) ∷ [];
  tombstones = [];
  ledgers = (7, ledger) ∷ [];
  registry = registry;
  bank = bank;
}

abbrev pub lp_accounts : LpAccounts
lp_accounts = record {
  lp = 8;
  usdc_vault = 2;
  lp_usdc_ata = 4008;
  share_mint = 3;
  lp_share_ata = 3008;
  usdc_mint = 4;
}

abbrev pub request : RequestAdvance
request = record {
  agent = 7;
  allowed_signer = 9;
  advance_bump = 249;
  consumed_bump = 248;
  issuance_ledger_bump = 252;
  pool_usdc_vault = 2;
  agent_usdc_ata = 4007;
  usdc_mint = 4;
}

abbrev pub claim : ClaimAndSettle
claim = record {
  agent = 7;
  advance = open_key;
  pool_usdc_vault = 2;
  agent_usdc_ata = 4007;
  protocol_treasury_ata = 5;
  usdc_mint = 4;
}

abbrev pub skim : SkimProtocolFees
skim = record { governance = 6; pool_usdc_vault = 2; recipient_ata = 5; usdc_mint = 4 }

abbrev pub proposal : PendingParams
proposal = record {
  fee_curve = record curve { max_rate_bps = 2500 };
  max_advance_pct_bps = 3000;
  max_advance_abs = 60_000_000;
  agent_window_cap = 50_000_000;
  execute_after = pos 0;
}

-- What a call that succeeds returns.
abbrev pub returned : Outcome CredmeshError (World tokens × Event) → World tokens × Event
returned (ok r) = r
returned (err e) = (world, deposited 0 0 0 0)
