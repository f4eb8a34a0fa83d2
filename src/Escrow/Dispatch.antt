-- ===== src/Escrow/Dispatch.antt =====
-- The entry points of programs/credmesh-escrow/src/lib.rs, as seen from a pool that exists: a call is an
-- instruction with its arguments and accounts, and runs its handler. `init_pool` makes another pool,
-- whose accounts are none of this one's, or finds this pool's address in use.
use credmesh_solana.Prelude.{ℕ, none, some, ok, err, ◌==◌, if◌then◌else◌}
use credmesh_solana.Prelude.Int.{ℤ}
use credmesh_solana.Token.{TokenProgram}
use credmesh_solana.Shared.Bytes.{Pubkey, Bytes}
use credmesh_solana.Shared.Instructions.{Sysvar}
use credmesh_solana.Escrow.State.{PendingParams}
use credmesh_solana.Escrow.World.{World, Handled, AdvanceKey}
use credmesh_solana.Escrow.Liquidity.{LpAccounts, deposit, withdraw}
use credmesh_solana.Escrow.InitPool.{InitPool, InitPoolParams, init_pool}
use credmesh_solana.Escrow.RequestAdvance.{RequestAdvance, request_advance}
use credmesh_solana.Escrow.Settlement.{ClaimAndSettle, claim_and_settle, liquidate}
use credmesh_solana.Escrow.Params.{
  SkimProtocolFees, propose_params, execute_params, skim_protocol_fees,
}

pub data Call : Type 0 where
  call_init_pool : InitPool → InitPoolParams → Call
  call_deposit : LpAccounts → (amount : ℕ) → Call
  call_withdraw : LpAccounts → (shares : ℕ) → Call
  call_request_advance : RequestAdvance → (receivable_id amount : ℕ) (nonce : Bytes) → Call
  call_claim_and_settle : ClaimAndSettle → (payment_amount : ℕ) → Call
  call_liquidate : AdvanceKey → (tombstone_bump : ℕ) → Call
  call_propose_params : (governance : Pubkey) → PendingParams → Call
  call_execute_params : Call
  call_skim_protocol_fees : SkimProtocolFees → (amount : ℕ) → Call

-- The call within its transaction, at the time of the clock.
unfoldable pub dispatch : (t : TokenProgram) → Sysvar → (now : ℤ) → Call → World t → Handled t
dispatch t sysvar now (call_init_pool ctx params) w =
    let existing = if ctx.pool_key == w.pool_key then some w.pool else none in
    elim (init_pool ctx params existing) [ err e ↦ err e | ok made ↦ ok (w, made.1) ]
dispatch t sysvar now (call_deposit ctx amount) w = deposit t ctx amount w
dispatch t sysvar now (call_withdraw ctx shares) w = withdraw t ctx shares w
dispatch t sysvar now (call_request_advance ctx receivable_id amount nonce) w =
    request_advance t sysvar now ctx receivable_id amount nonce w
dispatch t sysvar now (call_claim_and_settle ctx payment_amount) w =
    claim_and_settle t sysvar now ctx payment_amount w
dispatch t sysvar now (call_liquidate key tombstone_bump) w = liquidate t now key tombstone_bump w
dispatch t sysvar now (call_propose_params governance params) w =
    propose_params t sysvar now governance params w
dispatch t sysvar now call_execute_params w = execute_params t now w
dispatch t sysvar now (call_skim_protocol_fees ctx amount) w =
    skim_protocol_fees t sysvar ctx amount w
