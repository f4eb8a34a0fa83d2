-- ===== src/Escrow/Panics.antt =====
-- Which instructions of the escrow can abort the program: a panic is an overflow of a plain operator
-- under `overflow-checks`, or an index out of range.
pub mod Settlement
pub mod Requests
pub mod Dispatched
use credmesh_solana.Prelude.{ℕ, ◌≡◌, ◌≢◌, refl, arith, ok, err, Result, ◌>>=◌}
use credmesh_solana.Prelude.Int.{ℤ}
use credmesh_solana.Runtime.{Outcome, panicked}
use credmesh_solana.Token.{TokenProgram}
use credmesh_solana.Shared.Bytes.{Pubkey}
use credmesh_solana.Shared.Instructions.{Sysvar}
use credmesh_solana.Shared.Introspection.{require_squads_governance_cpi}
use credmesh_solana.Escrow.State.{PendingParams, validate}
use credmesh_solana.Escrow.Pricing.{preview_deposit, preview_redeem}
use credmesh_solana.Escrow.World.{World, AdvanceKey}
use credmesh_solana.Escrow.Liquidity.{LpAccounts, deposit, withdraw}
use credmesh_solana.Escrow.Settlement.{liquidate}
use credmesh_solana.Escrow.Params.{
  SkimProtocolFees, propose_params, execute_params, skim_protocol_fees,
}

-- A chain panics only where a part does.
pub >>=-ne-panicked {ℓ κ μ} :
    {E : Type ℓ} {A : Type κ} {B : Type μ} (r : Outcome E A) (next : A → Outcome E B)
    → r ≢ err panicked
    → ((a : A) → r ≡ ok a → next a ≢ err panicked)
    → (r >>= next) ≢ err panicked
>>=-ne-panicked (ok a) next h k = k a refl
>>=-ne-panicked (err e) next h k = λ same. ground (arith, h, same)

module _ (t : TokenProgram) where
  pub deposit-ne-panicked :
      (ctx : LpAccounts) (amount : ℕ) (w : World t) → deposit t ctx amount w ≢ err panicked
  unfolding deposit preview_deposit
  deposit-ne-panicked ctx amount w = ground arith

  pub withdraw-ne-panicked :
      (ctx : LpAccounts) (shares : ℕ) (w : World t) → withdraw t ctx shares w ≢ err panicked
  unfolding withdraw preview_redeem
  withdraw-ne-panicked ctx shares w = ground arith

  pub liquidate-ne-panicked :
      (now : ℤ) (key : AdvanceKey) (bump : ℕ) (w : World t)
      → liquidate t now key bump w ≢ err panicked
  unfolding liquidate
  liquidate-ne-panicked now key bump w = ground arith

  pub propose_params-ne-panicked :
      (sysvar : Sysvar) (now : ℤ) (governance : Pubkey) (params : PendingParams) (w : World t)
      → propose_params t sysvar now governance params w ≢ err panicked
  unfolding propose_params validate require_squads_governance_cpi
  propose_params-ne-panicked sysvar now governance params w = ground arith

  pub execute_params-ne-panicked : (now : ℤ) (w : World t) → execute_params t now w ≢ err panicked
  unfolding execute_params
  execute_params-ne-panicked now w = ground arith

  pub skim_protocol_fees-ne-panicked :
      (sysvar : Sysvar) (ctx : SkimProtocolFees) (amount : ℕ) (w : World t)
      → skim_protocol_fees t sysvar ctx amount w ≢ err panicked
  unfolding skim_protocol_fees require_squads_governance_cpi
  skim_protocol_fees-ne-panicked sysvar ctx amount w = ground arith
