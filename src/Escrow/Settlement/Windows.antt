-- ===== src/Escrow/Settlement/Windows.antt =====
-- The two ends of an advance have windows that meet and do not overlap.
use credmesh_solana.Prelude.{ℕ, ◌≡◌, none, arith, ok, err}
use credmesh_solana.Prelude.Int.{ℤ, pos, ◌+ℤ◌, ◌≤ℤ◌, ◌<ℤ◌}
use credmesh_solana.Machine.{IsI64, i64_max}
use credmesh_solana.Runtime.{custom}
use credmesh_solana.Store.{find, nat_eq, pair_eq}
use credmesh_solana.Token.{TokenProgram}
use credmesh_solana.Shared.Instructions.{Sysvar}
use credmesh_solana.Escrow.Errors.{math_overflow, not_settleable, not_liquidatable}
use credmesh_solana.Escrow.State.{liquidation_grace_seconds}
use credmesh_solana.Escrow.World.{World}
use credmesh_solana.Escrow.Settlement.{
  ClaimAndSettle, Loaded, settle_accounts, settle_handler, claim_and_settle, liquidate,
}
use credmesh_solana.Escrow.Settlement.Settle.{settle_accounts-Presented}

module _ (t : TokenProgram) where
  -- For an open advance whose accounts load for its settlement, that has no tombstone, and whose expiry
  -- is such that 14 days after it is a time of `i64`: less than 14
  -- days after the expiry a liquidation is refused as too early, and from then on a settlement is
  -- refused as too late, whatever the payment and the transaction are.
  pub windows_exclude :
      (sysvar : Sysvar) (now : ℤ) (ctx : ClaimAndSettle) (payment bump : ℕ) (w : World t)
      (s : Loaded)
      → settle_accounts t ctx w ≡ ok s
      → find ctx.advance w.tombstones ≡ none
      → IsI64 (s.advance.expires_at +ℤ pos liquidation_grace_seconds)
      → (now <ℤ s.advance.expires_at +ℤ pos liquidation_grace_seconds
          → liquidate t now ctx.advance bump w ≡ err (custom not_liquidatable))
        × (s.advance.expires_at +ℤ pos liquidation_grace_seconds ≤ℤ now
            → claim_and_settle t sysvar now ctx payment w ≡ err (custom not_settleable))
  unfolding liquidate claim_and_settle settle_handler
  windows_exclude sysvar now ctx payment bump w s loads free range =
      let p = settle_accounts-Presented t ctx w loads in
      (
        λ early. ground (arith, p.advance_found, p.consumed_found, p.ledger_found),
        λ late. rw loads (ground arith),
      )

  -- An advance whose expiry lies so late that 14 days after it is no time of `i64` is stuck: if its
  -- accounts load, neither a settlement nor, without a tombstone, a liquidation ever succeeds, but both
  -- fail with the overflow error at every time, whatever is paid.
  pub late_expiry_sticks :
      (sysvar : Sysvar) (now : ℤ) (ctx : ClaimAndSettle) (payment bump : ℕ) (w : World t)
      (s : Loaded)
      → settle_accounts t ctx w ≡ ok s
      → find ctx.advance w.tombstones ≡ none
      → i64_max <ℤ s.advance.expires_at +ℤ pos liquidation_grace_seconds
      → (claim_and_settle t sysvar now ctx payment w ≡ err (custom math_overflow))
        × (liquidate t now ctx.advance bump w ≡ err (custom math_overflow))
  unfolding liquidate claim_and_settle settle_handler
  late_expiry_sticks sysvar now ctx payment bump w s loads free late =
      let p = settle_accounts-Presented t ctx w loads in
      (rw loads (ground arith), ground (arith, p.advance_found, p.consumed_found, p.ledger_found))
