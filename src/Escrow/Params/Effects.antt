-- ===== src/Escrow/Params/Effects.antt =====
-- What the governance instructions that succeed have done.
use credmesh_solana.Prelude.{
  ℕ, ◌-◌, ◌≤◌, ◌<◌, ◌≡◌, some, none, arith, ok, inl, inr, Option-cases, Result-cases,
}
use credmesh_solana.Prelude.Int.{ℤ, ◌+ℤ◌, ◌≤ℤ◌}
use credmesh_solana.Machine.{IsI64}
use credmesh_solana.Token.{TokenProgram}
use credmesh_solana.Shared.Bytes.{Pubkey}
use credmesh_solana.Shared.Instructions.{Sysvar}
use credmesh_solana.Shared.Introspection.{require_squads_governance_cpi}
use credmesh_solana.Escrow.Events.{Event}
use credmesh_solana.Escrow.State.{PendingParams, IsValidCurve, validate, validate_iff}
use credmesh_solana.Escrow.World.{World}
use credmesh_solana.Escrow.Params.{
  SkimProtocolFees, propose_params, execute_params, skim_protocol_fees,
}

module _ (t : TokenProgram) where
  pub record Proposed (sysvar : Sysvar) (now : ℤ) (params : PendingParams) (w w' : World t)
      : Type 0 where
    pub governed : require_squads_governance_cpi sysvar w.pool.governance ≡ ok tt
    pub valid : IsValidCurve params.fee_curve
    pub in_range : IsI64 (now +ℤ w.pool.timelock_seconds)
    pub after : w' ≡ record w {
      pool = record (w.pool) {
        pending_params = some (record params { execute_after = now +ℤ w.pool.timelock_seconds });
      };
    }

  pub record Executed (now : ℤ) (w w' : World t) : Type 0 where
    pub pending : PendingParams
    pub staged : w.pool.pending_params ≡ some pending
    pub ready : pending.execute_after ≤ℤ now
    pub after : w' ≡ record w {
      pool = record (w.pool) {
        fee_curve = pending.fee_curve;
        max_advance_pct_bps = pending.max_advance_pct_bps;
        max_advance_abs = pending.max_advance_abs;
        agent_window_cap = pending.agent_window_cap;
        pending_params = none;
      };
    }

  pub record Skimmed (sysvar : Sysvar) (ctx : SkimProtocolFees) (amount : ℕ) (w w' : World t)
      : Type 0 where
    pub decimals : ℕ
    pub governed : require_squads_governance_cpi sysvar w.pool.governance ≡ ok tt
    pub positive : 0 < amount
    pub accrued : amount ≤ w.pool.accrued_protocol_fees
    pub pays :
        t.transfer_checked w.pool.usdc_vault w.pool.asset_mint w.pool.treasury_ata w.pool_key amount
          decimals w.bank
        ≡ some w'.bank
    pub after : w' ≡ record w {
      pool = record (w.pool) { accrued_protocol_fees = w.pool.accrued_protocol_fees - amount };
      bank = w'.bank;
    }

  -- A proposal that succeeds has passed the Squads check of the pool's governance, has a valid curve,
  -- and is staged to wait for the timelock; no other field of the pool has changed.
  pub propose_params-Proposed :
      (sysvar : Sysvar) (now : ℤ) (governance : Pubkey) (params : PendingParams) (w : World t)
      {w' : World t} {e : Event}
      → propose_params t sysvar now governance params w ≡ ok (w', e)
      → Proposed sysvar now params w w'
  unfolding propose_params
  propose_params-Proposed sysvar now governance params w {w'} {e} h =
      elim (Result-cases (require_squads_governance_cpi sysvar w.pool.governance)) [
        | inl (f, ef) ↦ ground arith
        | inr (u, eu) ↦ elim (Result-cases (validate params.fee_curve)) [
          | inl (f, ef) ↦ ground arith
          | inr (v, ev) ↦ record {
            governed = eu;
            valid = (validate_iff params.fee_curve).0 ev;
            in_range = ground arith;
            after = ground arith;
          }
        ]
      ]

  -- An execution that succeeds finds a staged proposal whose time has come, and takes over exactly its
  -- curve and caps, and nothing is staged afterwards.
  pub execute_params-Executed :
      (now : ℤ) (w : World t) {w' : World t} {e : Event}
      → execute_params t now w ≡ ok (w', e)
      → Executed now w w'
  unfolding execute_params
  execute_params-Executed now w {w'} {e} h = elim (Option-cases w.pool.pending_params) [
    | inl n ↦ ground arith
    | inr (pending, ep) ↦ record {
      pending = pending;
      staged = ep;
      ready = ground arith;
      after = ground arith;
    }
  ]

  -- A skim that succeeds has passed the Squads check of the pool's governance, is positive and within the
  -- accrued fees, has moved the amount from the vault to the treasury, and has lowered the accrued fees,
  -- but neither the assets on the books nor the deployed principal.
  pub skim_protocol_fees-Skimmed :
      (sysvar : Sysvar) (ctx : SkimProtocolFees) (amount : ℕ) (w : World t) {w' : World t}
      {e : Event}
      → skim_protocol_fees t sysvar ctx amount w ≡ ok (w', e)
      → Skimmed sysvar ctx amount w w'
  unfolding skim_protocol_fees
  skim_protocol_fees-Skimmed sysvar ctx amount w {w'} {e} h =
      elim (Result-cases (require_squads_governance_cpi sysvar w.pool.governance)) [
        | inl (f, ef) ↦ ground arith
        | inr (u, eu) ↦ elim (Option-cases (t.mint w.bank ctx.usdc_mint)) [
          | inl n ↦ ground arith
          | inr (m, em) ↦ record {
            decimals = m.decimals;
            governed = eu;
            positive = ground arith;
            accrued = ground arith;
            pays = ground arith;
            after = ground arith;
          }
        ]
      ]
