-- ===== src/Tests/Protocol.antt =====
-- Runs on the concrete world.
use credmesh_solana.Prelude.{◌+◌, ◌≤◌, ◌≡◌, ◌≢◌, ap, refl, arith, ok, none, some, ==_iff, [], ◌∷◌}
use credmesh_solana.Prelude.Int.{ℤ, pos, ◌+ℤ◌, ◌≤ℤ◌}
use credmesh_solana.Store.{find, put, nat_eq, pair_eq}
use credmesh_solana.Escrow.World.{World}
use credmesh_solana.Escrow.RequestAdvance.Effects.{request_advance-Issued}
use credmesh_solana.Protocol.{
  Step, Run, deposits, requests, settles, liquidates, skims, proposes, executes, start, then_step,
}
use credmesh_solana.Protocol.Vault.{Custody, vault_balance}
use credmesh_solana.Protocol.Solvency.{total_skimmed, total_received}
use credmesh_solana.Protocol.Advances.{Sound}
use credmesh_solana.Protocol.Advances.Preserved.{run-Sound}
use credmesh_solana.Protocol.Replay.{issues_at, ends_at, issue-once, end-once}
use credmesh_solana.Protocol.Limits.{Limited, request_advance-Limited}
use credmesh_solana.Protocol.Timelock.{
  ValidCurves, WasProposed, run-ValidCurves, execute-after-timelock,
}
use credmesh_solana.Protocol.Price.{NoCheaper, run-NoCheaper}
use credmesh_solana.Protocol.Genesis.{genesis, run-accounts}
use credmesh_solana.Protocol.Shares.{share_supply, run-share_supply}
use credmesh_solana.Escrow.InitPool.{InitPool, InitPoolParams, init_pool}
use credmesh_solana.Escrow.State.{Pool, PendingParams, validate}
use credmesh_solana.Escrow.Events.{pool_initialized}
use credmesh_solana.Escrow.Pricing.{preview_deposit}
use credmesh_solana.Escrow.Liquidity.{deposit}
use credmesh_solana.Tests.Pricing.{curve-IsValidCurve}
use credmesh_solana.Tests.BankLaws.{tokens-IsTokenProgram}
use credmesh_solana.Tests.Bank.{Ledger, tokens, set_amount, transfer, mint_to}
use credmesh_solana.Tests.Worlds.{
  world, lp_accounts, request, claim, skim, proposal, registry, bank, pool, curve, returned,
}
use credmesh_solana.Tests.Messages.{sysvar, nonce}
use credmesh_solana.Tests.Calls.{
  after_requests, after_settles, after_liquidates, after_skims, after_requests_more, requests_ok,
  settles_ok, liquidates_ok, skims_ok, requests_more_ok, after_proposes, proposes_ok,
  after_executes, executes_ok, after_deposits, deposits_ok,
}

world-Custody : Custody tokens world
unfolding find
world-Custody = record { vault_owned = refl; treasury_apart = omega arith }

pub world-Sound : Sound tokens world
unfolding find
world-Sound = record {
  one_each = (refl, tt);
  deployed = refl;
  live = λ agent. ground (arith, ==_iff agent 7, ==_iff 7 agent);
  marked = λ key h. ground (arith, h);
}

-- A request, the settlement of the open advance, and a skim.
abbrev step_request : Step tokens world after_requests
step_request = requests sysvar (pos 90_000) request 12 10_000_000 nonce _ (omega arith) requests_ok

-- The pool's address is still 1.
pub same_pool : after_requests.pool_key ≡ 1
same_pool =
    let (l, p, d) =
      request_advance-Issued tokens sysvar (pos 90_000) request 12 10_000_000 nonce world
        requests_ok in
    ap (λ x. x.pool_key) d.after

abbrev step_settle : Step tokens after_requests after_settles
step_settle = settles sysvar (pos 900_000) claim 21_020_000 _ (omega (arith, same_pool)) settles_ok

abbrev step_skim : Step tokens after_settles after_skims
step_skim = skims sysvar skim 100_000 _ skims_ok

abbrev step_liquidate : Step tokens after_settles after_liquidates
step_liquidate = liquidates (pos 2_200_000) (7, 12) 247 _ liquidates_ok

abbrev step_request_more : Step tokens after_requests after_requests_more
step_request_more =
    requests sysvar (pos 90_000) request 13 10_000_000 nonce _ (omega (arith, same_pool))
      requests_more_ok

abbrev pub run : Run tokens world after_skims
run = then_step (then_step (then_step start step_request) step_settle) step_skim

run-Sound_example : Sound tokens after_skims
run-Sound_example = run-Sound tokens run world-Sound

issue-once_example : issues_at tokens step_request_more ≢ some (7, 12)
issue-once_example =
    issue-once tokens world after_requests after_requests after_requests_more (7, 12) step_request
      refl start step_request_more

end-once_example : ends_at tokens step_liquidate ≢ some (7, 11)
end-once_example =
    end-once tokens after_requests after_settles after_settles after_liquidates (7, 11) step_settle
      (run-Sound tokens (then_step start step_request) world-Sound) refl start step_liquidate

request_advance-Limited_example :
    Limited tokens sysvar (pos 90_000) request 10_000_000 nonce world after_requests
request_advance-Limited_example =
    request_advance-Limited tokens sysvar (pos 90_000) request 12 10_000_000 nonce world world-Sound
      requests_ok

world-ValidCurves : ValidCurves tokens world
world-ValidCurves = record { in_force = curve-IsValidCurve; in_wait = λ p h. ground (arith, h) }

abbrev step_propose : Step tokens world after_proposes
step_propose = proposes sysvar (pos 90_000) 6 proposal _ proposes_ok

abbrev proposal_run : Run tokens world after_proposes
proposal_run = then_step start step_propose

abbrev step_execute : Step tokens after_proposes after_executes
step_execute = executes (pos 180_000) _ executes_ok

run-ValidCurves_example : ValidCurves tokens after_executes
run-ValidCurves_example =
    run-ValidCurves tokens (then_step proposal_run step_execute) world-ValidCurves

execute-after-timelock_example :
    (at : ℤ) × (params : PendingParams) × WasProposed tokens at params proposal_run
    × (at +ℤ pos 86_400 ≤ℤ pos 180_000)
    × (after_executes.pool.fee_curve ≡ params.fee_curve)
    × (after_executes.pool.max_advance_abs ≡ params.max_advance_abs)
    × (after_executes.pool.agent_window_cap ≡ params.agent_window_cap)
execute-after-timelock_example =
    execute-after-timelock tokens proposal_run refl (pos 180_000) executes_ok

run-NoCheaper_example : NoCheaper tokens world after_skims
run-NoCheaper_example = run-NoCheaper tokens run refl

-- A new pool.
abbrev pub new_accounts : InitPool
new_accounts = record {
  pool_key = 1;
  pool_bump = 255;
  asset_mint = 4;
  share_mint = 3;
  usdc_vault = 2;
}

abbrev pub new_params : InitPoolParams
new_params = record {
  fee_curve = curve;
  max_advance_pct_bps = 3000;
  max_advance_abs = 50_000_000;
  timelock_seconds = pos 86_400;
  governance = 6;
  treasury_ata = 5;
  chain_id = 2;
  agent_window_cap = 40_000_000;
}

abbrev pub new_pool : Pool
new_pool = record pool {
  total_assets = 0;
  total_shares = 0;
  deployed_amount = 0;
  accrued_protocol_fees = 0;
}

abbrev pub new_bank : Ledger
new_bank = record bank {
  accounts =
      (2, record { mint = 4; owner = 1; amount = 0 })
      ∷ (5, record { mint = 4; owner = 60; amount = 0 })
      ∷ (4008, record { mint = 4; owner = 8; amount = 10_000_000 })
      ∷ (3008, record { mint = 3; owner = 8; amount = 0 })
      ∷ [];
}

pub init_ok : init_pool new_accounts new_params none ≡ ok (new_pool, pool_initialized 1 4 3 6)
unfolding init_pool validate
init_ok = refl

abbrev pub new_world : World tokens
new_world = genesis tokens new_accounts new_pool registry new_bank

abbrev first_deposit : World tokens
first_deposit = (returned (deposit tokens lp_accounts 1_000_000 new_world)).0

first_deposit_ok :
    deposit tokens lp_accounts 1_000_000 new_world
    ≡ ok (returned (deposit tokens lp_accounts 1_000_000 new_world))
unfolding deposit preview_deposit find put set_amount transfer mint_to
first_deposit_ok = refl

abbrev first_run : Run tokens new_world first_deposit
first_run = then_step start (deposits lp_accounts 1_000_000 _ (omega arith) first_deposit_ok)

run-accounts_example :
    vault_balance tokens first_deposit
      + first_deposit.pool.deployed_amount
      + total_skimmed tokens first_run
    ≡ first_deposit.pool.total_assets + total_received tokens first_run
unfolding find
run-accounts_example =
    run-accounts tokens tokens-IsTokenProgram new_accounts new_params registry new_bank init_ok refl
      refl (omega arith) first_run

run-share_supply_example : share_supply tokens after_deposits ≤ after_deposits.pool.total_shares
unfolding find
run-share_supply_example =
    run-share_supply tokens tokens-IsTokenProgram
      (then_step start (deposits lp_accounts 1_000_000 _ (omega arith) deposits_ok)) (omega arith)
