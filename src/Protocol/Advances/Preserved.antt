-- ===== src/Protocol/Advances/Preserved.antt =====
-- Every step, and so every run, keeps the open advances in line with the pool and the ledgers.
use credmesh_solana.Prelude.{ℕ, ◌≡◌, refl, ap, arith}
use credmesh_solana.Prelude.Int.{ℤ}
use credmesh_solana.Token.{TokenProgram}
use credmesh_solana.Shared.Bytes.{Bytes}
use credmesh_solana.Shared.Instructions.{Sysvar}
use credmesh_solana.Store.{find, nat_eq}
use credmesh_solana.Escrow.World.{World, AdvanceKey}
use credmesh_solana.Escrow.RequestAdvance.{ledger_or_zero}
use credmesh_solana.Escrow.RequestAdvance.Effects.{Issued, Presented}
use credmesh_solana.Escrow.RequestAdvance.Ledger.{underwritten_lem}
use credmesh_solana.Escrow.RequestAdvance.{RequestAdvance, Loaded}
use credmesh_solana.Escrow.Settlement.{ClaimAndSettle}
use credmesh_solana.Escrow.Settlement
use credmesh_solana.Escrow.Settlement.Effects.{liquidate-Liquidated, Liquidated, Settled}
use credmesh_solana.Protocol.{Run, start, then_step}
use credmesh_solana.Protocol.Effects.{
  Effect, of_deposit, of_withdrawal, of_request, of_settlement, of_liquidation, of_proposal,
  of_execution, of_skim, of_registry, of_others, step-Effect,
}
use credmesh_solana.Protocol.Advances.{Sound}
use credmesh_solana.Protocol.Advances.Changes.{still-Sound, issue-Sound, close-Sound}

module _ (t : TokenProgram) where
  quiet-Sound :
      {w w' v : World t}
      → w' ≡ v
      → v.advances ≡ w.advances
      → v.consumed ≡ w.consumed
      → v.ledgers ≡ w.ledgers
      → v.pool.deployed_amount ≡ w.pool.deployed_amount
      → Sound t w
      → Sound t w'
  quiet-Sound {w} {w'} {v} after a c l d s = rw after (still-Sound t w v s a c l d)

  pub request-Sound :
      (sysvar : Sysvar) (now : ℤ) (ctx : RequestAdvance) (s : Loaded t) (receivable_id amount : ℕ)
      (nonce : Bytes) (w w' : World t)
      → Presented t ctx receivable_id w s
      → Issued t sysvar now ctx s receivable_id amount nonce w w'
      → Sound t w
      → Sound t w'
  request-Sound sysvar now ctx s receivable_id amount nonce w w' p d sound =
      let live =
        underwritten_lem now ctx.issuance_ledger_bump amount w.pool.agent_window_cap
          w.pool.max_advance_abs ctx.agent w.pool_key d.m
          (ledger_or_zero (find ctx.agent w.ledgers)) (omega (arith, d.large_enough)) d.charges
          d.underwrites in
      issue-Sound t w w' (ctx.agent, receivable_id) _ _ d.ledger sound p.new_advance live.0
        (ap (λ x. x.advances) d.after) (ap (λ x. x.consumed) d.after) (ap (λ x. x.ledgers) d.after)
        (ap (λ x. x.pool.deployed_amount) d.after)

  liquidation-Sound :
      (now : ℤ) (key : AdvanceKey) (w w' : World t)
      → Liquidated t now key w w'
      → Sound t w
      → Sound t w'
  liquidation-Sound now key w w' d sound =
      let o = d.opened in
      close-Sound t w w' key d.a d.l sound o.advance_found o.agent_seed o.ledger_found o.live_covers
        (ap (λ x. x.advances) d.after) (ap (λ x. x.consumed) d.after) (ap (λ x. x.ledgers) d.after)
        (ap (λ x. x.pool.deployed_amount) d.after)

  settlement-Sound :
      (sysvar : Sysvar) (now : ℤ) (ctx : ClaimAndSettle) (s : Settlement.Loaded) (payment : ℕ)
      (w w' : World t)
      → Settlement.Effects.Presented t ctx w s
      → Settled t sysvar now ctx s payment w w'
      → Sound t w
      → Sound t w'
  settlement-Sound sysvar now ctx s payment w w' p d sound =
      close-Sound t w w' ctx.advance s.advance s.ledger sound p.advance_found p.agent_seed
        p.ledger_found d.live_covers (ap (λ x. x.advances) d.after) (ap (λ x. x.consumed) d.after)
        (ap (λ x. x.ledgers) d.after) (ap (λ x. x.pool.deployed_amount) d.after)

  result-Sound : {w w' : World t} → Effect t w w' → Sound t w → Sound t w'
  result-Sound (of_deposit ctx amount ne d) = quiet-Sound d.after refl refl refl refl
  result-Sound (of_withdrawal ctx shares ne d) = quiet-Sound d.after refl refl refl refl
  result-Sound {w} {w'} (of_request sysvar now ctx l rid amount nonce ne p d) =
      request-Sound sysvar now ctx l rid amount nonce w w' p d
  result-Sound {w} {w'} (of_settlement sysvar now ctx l payment ne p d) =
      settlement-Sound sysvar now ctx l payment w w' p d
  result-Sound {w} {w'} (of_liquidation now key d) = liquidation-Sound now key w w' d
  result-Sound (of_proposal sysvar now params d) = quiet-Sound d.after refl refl refl refl
  result-Sound (of_execution now d) = quiet-Sound d.after refl refl refl refl
  result-Sound (of_skim sysvar ctx amount d) = quiet-Sound d.after refl refl refl refl
  result-Sound (of_registry registry change h) = quiet-Sound h refl refl refl refl
  result-Sound (of_others bank received b o u h) = quiet-Sound h refl refl refl refl

  -- Any run from sound accounts ends in sound accounts: the deployed principal of the pool is the sum of
  -- the principals of the open advances, the live principal of each agent's ledger is the sum of those
  -- of the agent's open advances, no key stands twice, and every open advance has its marker.
  pub run-Sound : {w w' : World t} → Run t w w' → Sound t w → Sound t w'
  run-Sound start s = s
  run-Sound (then_step r h) s = result-Sound (step-Effect t h) (run-Sound r s)
