-- ===== src/Protocol/Solvency.antt =====
-- The vault against the books along a run.
use credmesh_solana.Prelude.{ℕ, ◌+◌, refl, ap, arith}
use credmesh_solana.Token.{TokenProgram, IsTokenProgram}
use credmesh_solana.Escrow.World.{World}
use credmesh_solana.Escrow.Liquidity.Effects.{deposit-Deposited, withdraw-Withdrawn}
use credmesh_solana.Escrow.RequestAdvance.Effects.{request_advance-Issued}
use credmesh_solana.Escrow.Settlement.Effects.{liquidate-Liquidated}
use credmesh_solana.Escrow.Settlement.Settle.{claim_and_settle-Settled}
use credmesh_solana.Escrow.Params.Effects.{
  propose_params-Proposed, execute_params-Executed, skim_protocol_fees-Skimmed,
}
use credmesh_solana.Protocol.{
  Step, deposits, withdraws, requests, settles, liquidates, proposes, executes, skims, governs,
  outside, Run, start, then_step,
}
use credmesh_solana.Protocol.Vault.{Custody, Balanced, fix_after, balance_books}
use credmesh_solana.Protocol.Vault.Books.{
  deposit-Balanced, withdraw-Balanced, request-Balanced, settle-Balanced, liquidate-Balanced,
  propose-Balanced, execute-Balanced, skim-Balanced, still-Balanced,
}

module _ (t : TokenProgram) where
  -- What a step skims from the vault, and what it receives from outside.
  abbrev pub skimmed : {w w' : World t} → Step t w w' → ℕ
  skimmed (skims sysvar ctx amount e h) = amount
  skimmed _ = 0

  abbrev pub received : {w w' : World t} → Step t w w' → ℕ
  received (outside bank amount b o u h) = amount
  received _ = 0

  abbrev pub total_skimmed : {w w' : World t} → Run t w w' → ℕ
  total_skimmed start = 0
  total_skimmed (then_step r s) = total_skimmed r + skimmed s

  abbrev pub total_received : {w w' : World t} → Run t w w' → ℕ
  total_received start = 0
  total_received (then_step r s) = total_received r + received s

  module _ (laws : IsTokenProgram t) where
    step-Balanced :
        {w w' : World t} (s : Step t w w') → Custody t w → Balanced t (skimmed s) (received s) w w'
    step-Balanced {w} {w'} (deposits ctx amount e ne h) c =
        deposit-Balanced t laws ctx amount w w' c ne (deposit-Deposited t ctx amount w h)
    step-Balanced {w} {w'} (withdraws ctx shares e ne h) c =
        withdraw-Balanced t laws ctx shares w w' c ne (withdraw-Withdrawn t ctx shares w h)
    step-Balanced {w} {w'} (requests sysvar now ctx rid amount nonce e ne h) c =
        let (l, p, d) = request_advance-Issued t sysvar now ctx rid amount nonce w h in
        request-Balanced t laws sysvar now ctx l rid amount nonce w w' c ne p d
    step-Balanced {w} {w'} (settles sysvar now ctx payment e ne h) c =
        let (l, p, d) = claim_and_settle-Settled t sysvar now ctx payment w h in
        settle-Balanced t laws sysvar now ctx l payment w w' c ne p d
    step-Balanced {w} {w'} (liquidates now key bump e h) c =
        liquidate-Balanced t laws now key w w' c (liquidate-Liquidated t now key bump w h)
    step-Balanced {w} {w'} (proposes sysvar now governance params e h) c =
        propose-Balanced t laws sysvar now params w w' c
          (propose_params-Proposed t sysvar now governance params w h)
    step-Balanced {w} {w'} (executes now e h) c =
        execute-Balanced t laws now w w' c (execute_params-Executed t now w h)
    step-Balanced {w} {w'} (skims sysvar ctx amount e h) c =
        skim-Balanced t laws sysvar ctx amount w w' c
          (skim_protocol_fees-Skimmed t sysvar ctx amount w h)
    step-Balanced {w} {w'} (governs registry change h) c =
        still-Balanced t laws w w' c (fix_after t h refl refl refl) (ap (λ x. x.bank) h)
          (ap (λ x. x.pool.total_assets) h) (ap (λ x. x.pool.deployed_amount) h)
    step-Balanced {w} {w'} (outside bank amount b o u h) c =
        let same = ap (λ x. x.bank) h in
        let assets = ap (λ x. x.pool.total_assets) h in
        let deployed = ap (λ x. x.pool.deployed_amount) h in
        balance_books t 0 amount w w' c (fix_after t h refl refl refl) (rw same (o _ c.vault_owned))
          (rw same (omega (arith, b)))

    -- From accounts whose vault is the pool's own and whose treasury is another account, along any run:
    -- the vault and the deployed principal have together gained exactly what the assets on the books
    -- have gained and what others have sent to the vault, less what was skimmed as protocol fees.
    pub run-Balanced :
        {w w' : World t} (r : Run t w w')
        → Custody t w
        → Balanced t (total_skimmed r) (total_received r) w w'
    run-Balanced start c = record { books = refl; custody = c }
    run-Balanced (then_step r s) c =
        let before = run-Balanced r c in
        let last = step-Balanced s before.custody in
        record { books = omega (arith, before.books, last.books); custody = last.custody }
