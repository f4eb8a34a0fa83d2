-- ===== src/Protocol/Kept/Preserved.antt =====
-- Every run keeps what the accounts say of themselves.
use credmesh_solana.Prelude.{ℕ, refl, ap}
use credmesh_solana.Prelude.Int.{ℤ}
use credmesh_solana.Store.{nat_eq, pair_eq, remove-Every}
use credmesh_solana.Token.{TokenProgram}
use credmesh_solana.Shared.Instructions.{Sysvar}
use credmesh_solana.Escrow.World.{World}
use credmesh_solana.Escrow.Settlement.{ClaimAndSettle, Loaded}
use credmesh_solana.Escrow.Settlement.Effects.{Settled, Presented}
use credmesh_solana.Protocol.{Run, start, then_step}
use credmesh_solana.Protocol.Replay.{Change, result-Change, stays-Gone}
use credmesh_solana.Protocol.Advances.{Sound}
use credmesh_solana.Protocol.Advances.Preserved.{run-Sound}
use credmesh_solana.Protocol.Effects.{
  Effect, of_deposit, of_withdrawal, of_request, of_settlement, of_liquidation, of_proposal,
  of_execution, of_skim, of_registry, of_others, step-Effect,
}
use credmesh_solana.Protocol.Kept.{
  Kept, OpenAt, quiet-Kept, request-Kept, liquidation-Kept, pay-LedgerAt,
}

module _ (t : TokenProgram) where
  settlement-Kept :
      (sysvar : Sysvar) (now : ℤ) (ctx : ClaimAndSettle) (l : Loaded) (payment : ℕ) {w w' : World t}
      → Sound t w
      → Change t w w'
      → Presented t ctx w l
      → Settled t sysvar now ctx l payment w w'
      → Kept t w
      → Kept t w'
  settlement-Kept sysvar now ctx l payment {w} {w'} sound change p d s = record {
    advances =
        rw (ap (λ x. x.advances) d.after)
          (remove-Every OpenAt ctx.advance w.advances sound.one_each s.advances);
    markers = rw (ap (λ x. x.consumed) d.after) s.markers;
    ledgers =
        rw (ap (λ x. x.ledgers) d.after, ap (λ x. x.pool_key) d.after)
          (pay-LedgerAt t w.pool_key l.advance.agent l.ledger l.advance.principal w.ledgers
            p.ledger_found s.ledgers);
    buried = λ k h. stays-Gone t k change (s.buried k (rw (ap (λ x. x.tombstones) d.after) at h));
  }

  result-Kept : {w w' : World t} → Sound t w → Effect t w w' → Kept t w → Kept t w'
  result-Kept sound (of_deposit ctx amount ne d) = quiet-Kept t d.after refl refl refl refl refl
  result-Kept sound (of_withdrawal ctx shares ne d) = quiet-Kept t d.after refl refl refl refl refl
  result-Kept sound (of_request sysvar now ctx l rid amount nonce ne p d) =
      request-Kept t sysvar now ctx l rid amount nonce
        (result-Change t (of_request sysvar now ctx l rid amount nonce ne p d)) d
  result-Kept sound (of_settlement sysvar now ctx l payment ne p d) =
      settlement-Kept sysvar now ctx l payment sound
        (result-Change t (of_settlement sysvar now ctx l payment ne p d)) p d
  result-Kept sound (of_liquidation now key d) =
      liquidation-Kept t now key sound (result-Change t (of_liquidation now key d)) d
  result-Kept sound (of_proposal sysvar now params d) =
      quiet-Kept t d.after refl refl refl refl refl
  result-Kept sound (of_execution now d) = quiet-Kept t d.after refl refl refl refl refl
  result-Kept sound (of_skim sysvar ctx amount d) = quiet-Kept t d.after refl refl refl refl refl
  result-Kept sound (of_registry registry change h) = quiet-Kept t h refl refl refl refl refl
  result-Kept sound (of_others bank received b o u h) = quiet-Kept t h refl refl refl refl refl

  pub run-Kept : {w w' : World t} → Run t w w' → Sound t w → Kept t w → Kept t w'
  run-Kept start sound s = s
  run-Kept (then_step r h) sound s =
      result-Kept (run-Sound t r sound) (step-Effect t h) (run-Kept r sound s)
