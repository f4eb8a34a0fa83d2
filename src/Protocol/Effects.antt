-- ===== src/Protocol/Effects.antt =====
-- What a step has done, by the handler that it ran: the one place where the calls of the steps are
-- inverted.
use credmesh_solana.Prelude.{ℕ, ◌+◌, ◌≤◌, ◌≡◌, ◌≢◌, ◌∙◌, refl, ap, some}
use credmesh_solana.Prelude.Int.{ℤ}
use credmesh_solana.Token.{TokenProgram, balance, owner, supply}
use credmesh_solana.Shared.Bytes.{Pubkey, Bytes}
use credmesh_solana.Shared.Instructions.{Sysvar}
use credmesh_solana.Registry.{Registry}
use credmesh_solana.Registry.Steps.{RegistryStep}
use credmesh_solana.Escrow.State.{PendingParams}
use credmesh_solana.Escrow.World.{World, AdvanceKey}
use credmesh_solana.Escrow.Liquidity.{LpAccounts}
use credmesh_solana.Escrow.Liquidity.Effects.{
  Deposited, Withdrawn, deposit-Deposited, withdraw-Withdrawn,
}
use credmesh_solana.Escrow.RequestAdvance
use credmesh_solana.Escrow.RequestAdvance.{RequestAdvance}
use credmesh_solana.Escrow.RequestAdvance.Effects.{Issued, request_advance-Issued}
use credmesh_solana.Escrow.Settlement
use credmesh_solana.Escrow.Settlement.{ClaimAndSettle}
use credmesh_solana.Escrow.Settlement.Effects.{Settled, Liquidated, liquidate-Liquidated}
use credmesh_solana.Escrow.Settlement.Settle.{claim_and_settle-Settled}
use credmesh_solana.Escrow.Params.{SkimProtocolFees}
use credmesh_solana.Escrow.Params.Effects.{
  Proposed, Executed, Skimmed, propose_params-Proposed, execute_params-Executed,
  skim_protocol_fees-Skimmed,
}
use credmesh_solana.Protocol.{
  Step, deposits, withdraws, requests, settles, liquidates, proposes, executes, skims, governs,
  outside, Run, start, then_step,
}

module _ (t : TokenProgram) where
  pub data Effect (w w' : World t) : Type 0 where
    of_deposit :
        (ctx : LpAccounts) (amount : ℕ)
        → ctx.lp ≢ w.pool_key
        → Deposited t ctx amount w w'
        → Effect w w'
    of_withdrawal :
        (ctx : LpAccounts) (shares : ℕ)
        → ctx.lp ≢ w.pool_key
        → Withdrawn t ctx shares w w'
        → Effect w w'
    of_request :
        (sysvar : Sysvar) (now : ℤ) (ctx : RequestAdvance) (s : RequestAdvance.Loaded t)
        (receivable_id amount : ℕ) (nonce : Bytes)
        → ctx.agent ≢ w.pool_key
        → RequestAdvance.Effects.Presented t ctx receivable_id w s
        → Issued t sysvar now ctx s receivable_id amount nonce w w'
        → Effect w w'
    of_settlement :
        (sysvar : Sysvar) (now : ℤ) (ctx : ClaimAndSettle) (s : Settlement.Loaded) (payment : ℕ)
        → ctx.agent ≢ w.pool_key
        → Settlement.Effects.Presented t ctx w s
        → Settled t sysvar now ctx s payment w w'
        → Effect w w'
    of_liquidation : (now : ℤ) (key : AdvanceKey) → Liquidated t now key w w' → Effect w w'
    of_proposal :
        (sysvar : Sysvar) (now : ℤ) (params : PendingParams)
        → Proposed t sysvar now params w w'
        → Effect w w'
    of_execution : (now : ℤ) → Executed t now w w' → Effect w w'
    of_skim :
        (sysvar : Sysvar) (ctx : SkimProtocolFees) (amount : ℕ)
        → Skimmed t sysvar ctx amount w w'
        → Effect w w'
    of_registry :
        (registry : Registry)
        → RegistryStep w.registry registry
        → w' ≡ record w { registry = registry }
        → Effect w w'
    of_others :
        (bank : t.Bank) (received : ℕ)
        → balance t bank w.pool.usdc_vault ≡ balance t w.bank w.pool.usdc_vault + received
        → ((o : Pubkey)
            → owner t w.bank w.pool.usdc_vault ≡ some o
            → owner t bank w.pool.usdc_vault ≡ some o)
        → supply t bank w.pool.share_mint ≤ supply t w.bank w.pool.share_mint
        → w' ≡ record w { bank = bank }
        → Effect w w'

  pub step-Effect : {w w' : World t} → Step t w w' → Effect w w'
  step-Effect {w} {w'} (deposits ctx amount e ne h) =
      of_deposit ctx amount ne (deposit-Deposited t ctx amount w h)
  step-Effect {w} {w'} (withdraws ctx shares e ne h) =
      of_withdrawal ctx shares ne (withdraw-Withdrawn t ctx shares w h)
  step-Effect {w} {w'} (requests sysvar now ctx rid amount nonce e ne h) =
      let (s, p, d) = request_advance-Issued t sysvar now ctx rid amount nonce w h in
      of_request sysvar now ctx s rid amount nonce ne p d
  step-Effect {w} {w'} (settles sysvar now ctx payment e ne h) =
      let (s, p, d) = claim_and_settle-Settled t sysvar now ctx payment w h in
      of_settlement sysvar now ctx s payment ne p d
  step-Effect {w} {w'} (liquidates now key bump e h) =
      of_liquidation now key (liquidate-Liquidated t now key bump w h)
  step-Effect {w} {w'} (proposes sysvar now governance params e h) =
      of_proposal sysvar now params (propose_params-Proposed t sysvar now governance params w h)
  step-Effect {w} {w'} (executes now e h) = of_execution now (execute_params-Executed t now w h)
  step-Effect {w} {w'} (skims sysvar ctx amount e h) =
      of_skim sysvar ctx amount (skim_protocol_fees-Skimmed t sysvar ctx amount w h)
  step-Effect (governs registry change h) = of_registry registry change h
  step-Effect (outside bank received b o u h) = of_others bank received b o u h

  -- The pool stays at its address.
  step-key : {w w' : World t} → Effect w w' → w'.pool_key ≡ w.pool_key
  step-key (of_deposit ctx amount ne d) = ap (λ x. x.pool_key) d.after
  step-key (of_withdrawal ctx shares ne d) = ap (λ x. x.pool_key) d.after
  step-key (of_request sysvar now ctx s rid amount nonce ne p d) = ap (λ x. x.pool_key) d.after
  step-key (of_settlement sysvar now ctx s payment ne p d) = ap (λ x. x.pool_key) d.after
  step-key (of_liquidation now key d) = ap (λ x. x.pool_key) d.after
  step-key (of_proposal sysvar now params d) = ap (λ x. x.pool_key) d.after
  step-key (of_execution now d) = ap (λ x. x.pool_key) d.after
  step-key (of_skim sysvar ctx amount d) = ap (λ x. x.pool_key) d.after
  step-key (of_registry registry change h) = ap (λ x. x.pool_key) h
  step-key (of_others bank received b o u h) = ap (λ x. x.pool_key) h

  pub run-key : {w w' : World t} → Run t w w' → w'.pool_key ≡ w.pool_key
  run-key start = refl
  run-key (then_step r s) = step-key (step-Effect s) ∙ run-key r
