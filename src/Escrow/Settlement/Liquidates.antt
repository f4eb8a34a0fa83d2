-- ===== src/Escrow/Settlement/Liquidates.antt =====
-- When `liquidate` succeeds.
use credmesh_solana.Prelude.{ℕ, ◌-◌, ◌≤◌, ◌≡◌, ◌↔◌, none, arith, ok}
use credmesh_solana.Prelude.Int.{ℤ, pos, ◌+ℤ◌, ◌≤ℤ◌}
use credmesh_solana.Machine.{IsI64}
use credmesh_solana.Store.{find, put, remove, nat_eq, pair_eq}
use credmesh_solana.Token.{TokenProgram}
use credmesh_solana.Escrow.Events.{Event, advance_liquidated}
use credmesh_solana.Escrow.State.{
  Advance, ConsumedPayment, AgentIssuanceLedger, liquidation_grace_seconds,
}
use credmesh_solana.Escrow.World.{World, AdvanceKey}
use credmesh_solana.Escrow.Settlement.{liquidate}
use credmesh_solana.Escrow.Settlement.Effects.{Open, liquidate-Liquidated}

module _ (t : TokenProgram) where
  -- An open advance without a tombstone can be liquidated from 14 days after its expiry on, if that
  -- moment is an `i64` and the assets cover the principal: the call succeeds, writes the principal off,
  -- closes the advance and leaves a tombstone.
  pub liquidate-succeeds :
      (now : ℤ) (key : AdvanceKey) (bump : ℕ) (w : World t) (a : Advance) (l : AgentIssuanceLedger)
      (c : ConsumedPayment)
      → Open t key w a l c
      → find key w.tombstones ≡ none
      → IsI64 (a.expires_at +ℤ pos liquidation_grace_seconds)
      → a.expires_at +ℤ pos liquidation_grace_seconds ≤ℤ now
      → a.principal ≤ w.pool.total_assets
      → liquidate t now key bump w
        ≡ ok (
          record w {
            pool = record (w.pool) {
              deployed_amount = w.pool.deployed_amount - a.principal;
              total_assets = w.pool.total_assets - a.principal;
            };
            advances = remove key w.advances;
            tombstones =
                put key
                  (record {
                    bump = bump;
                    agent = a.agent;
                    principal = a.principal;
                    expires_at = a.expires_at;
                    liquidated_at = now;
                  })
                  w.tombstones;
            ledgers =
                put a.agent
                  (record l { live_principal = l.live_principal - a.principal })
                  w.ledgers;
          },
          advance_liquidated w.pool_key a.agent a.receivable_id a.principal,
        )
  unfolding liquidate
  liquidate-succeeds now key bump w a l c o no_tombstone range past covers =
      ground (arith, o.advance_found, o.consumed_found, o.ledger_found)

  -- What lets a liquidation through.
  pub record IsLiquidatable (now : ℤ) (key : AdvanceKey) (w : World t) : Type 0 where
    pub a : Advance
    pub l : AgentIssuanceLedger
    pub c : ConsumedPayment
    pub opened : Open t key w a l c
    pub no_tombstone : find key w.tombstones ≡ none
    pub grace_range : IsI64 (a.expires_at +ℤ pos liquidation_grace_seconds)
    pub past_window : a.expires_at +ℤ pos liquidation_grace_seconds ≤ℤ now
    pub assets_cover : a.principal ≤ w.pool.total_assets

  -- A liquidation, by anyone, succeeds exactly when there is an open advance at the key with its marker
  -- and a ledger that covers it and no tombstone, it is 14 days or more after the expiry, that moment is an
  -- `i64`, and the deployed amount and the assets cover the principal.
  pub liquidate_iff :
      (now : ℤ) (key : AdvanceKey) (bump : ℕ) (w : World t)
      → ((r : World t × Event) × (liquidate t now key bump w ≡ ok r)) ↔ IsLiquidatable now key w
  liquidate_iff now key bump w = (
    λ success.
        let ((w', e), h) = success in
        let d = liquidate-Liquidated t now key bump w h in
        record {
          a = d.a;
          l = d.l;
          c = d.c;
          opened = d.opened;
          no_tombstone = d.no_tombstone;
          grace_range = d.grace_range;
          past_window = d.past_window;
          assets_cover = d.assets_cover;
        },
    λ g. (
      _,
      liquidate-succeeds now key bump w g.a g.l g.c g.opened g.no_tombstone g.grace_range
          g.past_window g.assets_cover,
    ),
  )
