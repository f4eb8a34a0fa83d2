-- ===== src/Escrow/Panics/Dispatched.antt =====
-- No entry point aborts.
use credmesh_solana.Prelude.{◌<◌, ◌≡◌, ◌≢◌, some, err, arith}
use credmesh_solana.Prelude.Int.{ℤ, pos, ◌≤ℤ◌}
use credmesh_solana.Machine.{i64_max, u64_mod}
use credmesh_solana.Runtime.{panicked}
use credmesh_solana.Store.{find, pair_eq}
use credmesh_solana.Token.{TokenProgram}
use credmesh_solana.Shared.Instructions.{Sysvar}
use credmesh_solana.Escrow.State.{Advance, validate}
use credmesh_solana.Escrow.InitPool.{InitPool, InitPoolParams, init_pool}
use credmesh_solana.Escrow.World.{World, AdvanceKey}
use credmesh_solana.Escrow.RequestAdvance.Priced.{IsPriceable}
use credmesh_solana.Escrow.Dispatch.{
  Call, dispatch, call_init_pool, call_deposit, call_withdraw, call_request_advance,
  call_claim_and_settle, call_liquidate, call_propose_params, call_execute_params,
  call_skim_protocol_fees,
}
use credmesh_solana.Escrow.Panics.{
  deposit-ne-panicked, withdraw-ne-panicked, liquidate-ne-panicked, propose_params-ne-panicked,
  execute_params-ne-panicked, skim_protocol_fees-ne-panicked,
}
use credmesh_solana.Escrow.Panics.Settlement.{claim_and_settle-ne-panicked}
use credmesh_solana.Escrow.Panics.Requests.{AgesFit, request_advance-ne-panicked}

-- The amount of a request is a `u64`.
abbrev pub IsU64Call : Call → Type 0
IsU64Call (call_request_advance ctx receivable_id amount nonce) = amount < u64_mod
IsU64Call _ = Unit {0}

module _ (t : TokenProgram) where
  init_pool-ne-panicked :
      (sysvar : Sysvar) (now : ℤ) (ctx : InitPool) (params : InitPoolParams) (w : World t)
      → dispatch t sysvar now (call_init_pool ctx params) w ≢ err panicked
  unfolding dispatch init_pool validate
  init_pool-ne-panicked sysvar now ctx params w = ground arith

  -- The expiries of the open advances are `i64`, from above.
  abbrev pub ExpiriesFit : World t → Type 0
  ExpiriesFit w =
      (key : AdvanceKey) (a : Advance) → find key w.advances ≡ some a → a.expires_at ≤ℤ i64_max

  -- None of the nine entry points of the escrow aborts on an overflow or an index: whatever the call, its accounts and
  -- its transaction are, and whether it succeeds or fails, if the clock is not negative, the expiries
  -- of the open advances are within `i64`, the pool has a valid curve of `u16` fields, assets that fit
  -- `u64` and cover what is deployed, an amount to borrow is a `u64`, and the age of a message that the
  -- transaction has signed does not exceed `i64`.
  pub dispatch-ne-panicked :
      (sysvar : Sysvar) (now : ℤ) (call : Call) (w : World t)
      → pos 0 ≤ℤ now
      → ExpiriesFit w
      → IsPriceable w.pool
      → IsU64Call call
      → AgesFit sysvar now
      → dispatch t sysvar now call w ≢ err panicked
  unfolding dispatch
  dispatch-ne-panicked sysvar now (call_init_pool ctx params) w after typed priced small ages =
      init_pool-ne-panicked sysvar now ctx params w
  dispatch-ne-panicked sysvar now (call_deposit ctx amount) w after typed priced small ages =
      deposit-ne-panicked t ctx amount w
  dispatch-ne-panicked sysvar now (call_withdraw ctx shares) w after typed priced small ages =
      withdraw-ne-panicked t ctx shares w
  dispatch-ne-panicked sysvar now (call_request_advance ctx rid amount nonce) w after typed priced
        small ages =
      request_advance-ne-panicked t sysvar now ctx rid amount nonce w ages priced small
  dispatch-ne-panicked sysvar now (call_claim_and_settle ctx payment) w after typed priced small
        ages =
      claim_and_settle-ne-panicked t sysvar now ctx payment w after (typed ctx.advance)
  dispatch-ne-panicked sysvar now (call_liquidate key bump) w after typed priced small ages =
      liquidate-ne-panicked t now key bump w
  dispatch-ne-panicked sysvar now (call_propose_params governance params) w after typed priced small
        ages =
      propose_params-ne-panicked t sysvar now governance params w
  dispatch-ne-panicked sysvar now call_execute_params w after typed priced small ages =
      execute_params-ne-panicked t now w
  dispatch-ne-panicked sysvar now (call_skim_protocol_fees ctx amount) w after typed priced small
        ages =
      skim_protocol_fees-ne-panicked t sysvar ctx amount w
