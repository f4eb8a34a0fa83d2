-- ===== src/Escrow/Settlement/Effects.antt =====
-- What a settlement and a liquidation that succeed have done.
use credmesh_solana.Prelude.{
  ℕ, ◌+◌, ◌-◌, ◌≤◌, ◌<◌, ◌≡◌, refl, some, none, arith, ok, inl, inr, Option-cases,
}
use credmesh_solana.Prelude.Int.{ℤ, pos, ◌+ℤ◌, ◌≤ℤ◌, ◌<ℤ◌}
use credmesh_solana.Machine.{u64_mod, IsI64}
use credmesh_solana.Store.{find, put, remove, nat_eq, pair_eq}
use credmesh_solana.Token.{TokenProgram, owner}
use credmesh_solana.Shared.Instructions.{Sysvar}
use credmesh_solana.Shared.Introspection.{require_memo_nonce}
use credmesh_solana.Escrow.Events.{Event}
use credmesh_solana.Escrow.State.{
  Advance, AdvanceState, ConsumedPayment, LiquidationTombstone, AgentIssuanceLedger,
  liquidation_grace_seconds,
}
use credmesh_solana.Escrow.World.{World, AdvanceKey}
use credmesh_solana.Escrow.Settlement.{
  ClaimAndSettle, Loaded, Waterfall, waterfall, late_days_at, transfer_positive, liquidate,
}

module _ (t : TokenProgram) where
  -- The accounts of an open advance, as both handlers require them.
  pub record Open (key : AdvanceKey) (w : World t) (a : Advance) (l : AgentIssuanceLedger)
      (c : ConsumedPayment) : Type 0 where
    pub advance_found : find key w.advances ≡ some a
    pub agent_seed : a.agent ≡ key.0
    pub receivable_seed : a.receivable_id ≡ key.1
    pub open_state : a.state ≡ AdvanceState.issued
    pub consumed_found : find key w.consumed ≡ some c
    pub consumed_agent : c.agent ≡ a.agent
    pub ledger_found : find a.agent w.ledgers ≡ some l
    pub ledger_agent : l.agent ≡ a.agent
    pub ledger_pool : l.pool ≡ w.pool_key
    pub live_covers : a.principal ≤ l.live_principal
    pub deployed_covers : a.principal ≤ w.pool.deployed_amount

  -- The accounts of a settlement.
  pub record Presented (ctx : ClaimAndSettle) (w : World t) (s : Loaded) : Type 0 where
    pub advance_found : find ctx.advance w.advances ≡ some s.advance
    pub agent_seed : s.advance.agent ≡ ctx.advance.0
    pub receivable_seed : s.advance.receivable_id ≡ ctx.advance.1
    pub open_state : s.advance.state ≡ AdvanceState.issued
    pub consumed_found : find ctx.advance w.consumed ≡ some s.consumed
    pub consumed_agent : s.consumed.agent ≡ s.advance.agent
    pub ledger_found : find s.advance.agent w.ledgers ≡ some s.ledger
    pub ledger_agent : s.ledger.agent ≡ s.advance.agent
    pub ledger_pool : s.ledger.pool ≡ w.pool_key
    pub by_agent : ctx.agent ≡ s.advance.agent
    pub payer_owned : owner t w.bank ctx.agent_usdc_ata ≡ some ctx.agent
    pub to_vault : ctx.pool_usdc_vault ≡ w.pool.usdc_vault
    pub to_treasury : ctx.protocol_treasury_ata ≡ w.pool.treasury_ata
    pub in_asset : ctx.usdc_mint ≡ w.pool.asset_mint

  pub record Settled (sysvar : Sysvar) (now : ℤ) (ctx : ClaimAndSettle) (s : Loaded) (payment : ℕ)
      (w w' : World t) : Type 0 where
    pub late_days : ℕ
    pub cuts : Waterfall
    pub taxed : t.Bank
    pub grace_range : IsI64 (s.advance.expires_at +ℤ pos liquidation_grace_seconds)
    pub in_window : now <ℤ s.advance.expires_at +ℤ pos liquidation_grace_seconds
    pub memo : require_memo_nonce sysvar s.consumed.nonce ≡ ok tt
    pub days : late_days_at now s.advance.expires_at ≡ ok late_days
    pub split :
        waterfall s.advance.principal s.advance.fee_owed s.advance.late_penalty_per_day late_days
          payment
        ≡ ok cuts
    pub taxes :
        transfer_positive t ctx.agent_usdc_ata ctx.usdc_mint ctx.protocol_treasury_ata ctx.agent
          cuts.protocol_cut s.decimals w.bank
        ≡ ok taxed
    pub repays :
        transfer_positive t ctx.agent_usdc_ata ctx.usdc_mint ctx.pool_usdc_vault ctx.agent
          cuts.lp_cut s.decimals taxed
        ≡ ok w'.bank
    pub live_covers : s.advance.principal ≤ s.ledger.live_principal
    pub deployed_covers : s.advance.principal ≤ w.pool.deployed_amount
    pub assets_fit : w.pool.total_assets + cuts.lp_fee < u64_mod
    pub fees_fit : w.pool.accrued_protocol_fees + cuts.protocol_cut < u64_mod
    pub after : w' ≡ record w {
      pool = record (w.pool) {
        deployed_amount = w.pool.deployed_amount - s.advance.principal;
        total_assets = w.pool.total_assets + cuts.lp_fee;
        accrued_protocol_fees = w.pool.accrued_protocol_fees + cuts.protocol_cut;
      };
      advances = remove ctx.advance w.advances;
      ledgers =
          put s.advance.agent
            (record (s.ledger) { live_principal = s.ledger.live_principal - s.advance.principal })
            w.ledgers;
      bank = w'.bank;
    }

  pub record Liquidated (now : ℤ) (key : AdvanceKey) (w w' : World t) : Type 0 where
    pub a : Advance
    pub l : AgentIssuanceLedger
    pub c : ConsumedPayment
    pub tombstone : LiquidationTombstone
    pub opened : Open key w a l c
    pub no_tombstone : find key w.tombstones ≡ none
    pub grace_range : IsI64 (a.expires_at +ℤ pos liquidation_grace_seconds)
    pub past_window : a.expires_at +ℤ pos liquidation_grace_seconds ≤ℤ now
    pub assets_cover : a.principal ≤ w.pool.total_assets
    pub records_agent : tombstone.agent ≡ a.agent
    pub records_principal : tombstone.principal ≡ a.principal
    pub after : w' ≡ record w {
      pool = record (w.pool) {
        deployed_amount = w.pool.deployed_amount - a.principal;
        total_assets = w.pool.total_assets - a.principal;
      };
      advances = remove key w.advances;
      tombstones = put key tombstone w.tombstones;
      ledgers =
          put a.agent (record l { live_principal = l.live_principal - a.principal }) w.ledgers;
    }

  -- A liquidation that succeeds finds an open advance at its seeds with its marker and ledger and without
  -- a tombstone, comes at least 14 days after the expiry, ends the advance, leaves a tombstone of the
  -- agent and the principal, and takes the principal off the deployed amount, the assets and the
  -- agent's live principal; no token moves.
  pub liquidate-Liquidated :
      (now : ℤ) (key : AdvanceKey) (bump : ℕ) (w : World t) {w' : World t} {e : Event}
      → liquidate t now key bump w ≡ ok (w', e)
      → Liquidated now key w w'
  unfolding liquidate
  liquidate-Liquidated now key bump w {w'} {e} h = elim (Option-cases (find key w.advances)) [
    | inl n ↦ ground arith
    | inr (a, ea) ↦ elim (Option-cases (find key w.consumed)) [
      | inl n ↦ ground arith
      | inr (c, ec) ↦ elim (Option-cases (find a.agent w.ledgers)) [
        | inl n ↦ ground arith
        | inr (l, el) ↦ record {
          a = a;
          l = l;
          c = c;
          tombstone = record {
            bump = bump;
            agent = a.agent;
            principal = a.principal;
            expires_at = a.expires_at;
            liquidated_at = now;
          };
          opened = ground arith;
          no_tombstone = ground arith;
          grace_range = ground arith;
          past_window = ground arith;
          assets_cover = ground arith;
          records_agent = refl;
          records_principal = refl;
          after = ground arith;
        }
      ]
    ]
  ]
