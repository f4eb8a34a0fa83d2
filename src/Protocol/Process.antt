-- ===== src/Protocol/Process.antt =====
-- Calls of the escrow's entry points, one transaction after another: a call that fails leaves the
-- accounts as they were.
use credmesh_solana.Prelude.{
  ◌≡◌, ◌≢◌, Option, none, some, List, [], ◌∷◌, ap, ok, err, inl, inr, Result-cases, arith, ◌==◌,
  if◌then◌else◌,
}
use credmesh_solana.Prelude.Int.{ℤ}
use credmesh_solana.Token.{TokenProgram}
use credmesh_solana.Shared.Bytes.{Pubkey}
use credmesh_solana.Shared.Instructions.{Sysvar}
use credmesh_solana.Escrow.Events.{Event}
use credmesh_solana.Protocol.Effects.{run-key}
use credmesh_solana.Escrow.World.{World}
use credmesh_solana.Escrow.InitPool.{init_pool}
use credmesh_solana.Escrow.Dispatch.{
  Call, dispatch, call_init_pool, call_deposit, call_withdraw, call_request_advance,
  call_claim_and_settle, call_liquidate, call_propose_params, call_execute_params,
  call_skim_protocol_fees,
}
use credmesh_solana.Protocol.{
  deposits, withdraws, requests, settles, liquidates, proposes, executes, skims, Run, start,
  then_step,
}

pub record Transaction : Type 0 where
  pub sysvar : Sysvar
  pub now : ℤ
  pub call : Call

-- The holder of tokens who signs the call.
abbrev pub holder : Call → Option Pubkey
holder (call_deposit ctx amount) = some ctx.lp
holder (call_withdraw ctx shares) = some ctx.lp
holder (call_request_advance ctx receivable_id amount nonce) = some ctx.agent
holder (call_claim_and_settle ctx payment) = some ctx.agent
holder _ = none

-- No transaction is signed by the address itself, as none is by a program-derived one.
abbrev pub NoneSignedBy : Pubkey → List Transaction → Type 0
NoneSignedBy key [] = Unit
NoneSignedBy key (tx ∷ txs) = (holder tx.call ≢ some key) × NoneSignedBy key txs

module _ (t : TokenProgram) where
  transact : Transaction → World t → World t
  transact tx w = elim (dispatch t tx.sysvar tx.now tx.call w) [ err e ↦ w | ok r ↦ r.0 ]

  pub process : List Transaction → World t → World t
  process [] w = w
  process (tx ∷ txs) w = process txs (transact tx w)

  -- A call that succeeds is a step, or makes another pool.
  dispatch-Run :
      (sysvar : Sysvar) (now : ℤ) (call : Call) (w : World t) {w' : World t} {e : Event}
      → holder call ≢ some w.pool_key
      → dispatch t sysvar now call w ≡ ok (w', e)
      → Run t w w'
  unfolding dispatch
  dispatch-Run sysvar now (call_init_pool ctx params) w {w'} {e} ne h =
      let existing = if ctx.pool_key == w.pool_key then some w.pool else none in
      let same : w' ≡ w = elim (Result-cases (init_pool ctx params existing)) [
        | inl (f, failed) ↦ ground arith
        | inr (made, done) ↦ ground arith
      ] in
      rw same start
  dispatch-Run sysvar now (call_deposit ctx amount) w ne h =
      then_step start (deposits ctx amount _ (λ same. ne (ap some same)) h)
  dispatch-Run sysvar now (call_withdraw ctx shares) w ne h =
      then_step start (withdraws ctx shares _ (λ same. ne (ap some same)) h)
  dispatch-Run sysvar now (call_request_advance ctx rid amount nonce) w ne h =
      then_step start (requests sysvar now ctx rid amount nonce _ (λ same. ne (ap some same)) h)
  dispatch-Run sysvar now (call_claim_and_settle ctx payment) w ne h =
      then_step start (settles sysvar now ctx payment _ (λ same. ne (ap some same)) h)
  dispatch-Run sysvar now (call_liquidate key bump) w ne h =
      then_step start (liquidates now key bump _ h)
  dispatch-Run sysvar now (call_propose_params governance params) w ne h =
      then_step start (proposes sysvar now governance params _ h)
  dispatch-Run sysvar now call_execute_params w ne h = then_step start (executes now _ h)
  dispatch-Run sysvar now (call_skim_protocol_fees ctx amount) w ne h =
      then_step start (skims sysvar ctx amount _ h)

  run-append : {u v w : World t} → Run t u v → Run t v w → Run t u w
  run-append r start = r
  run-append r (then_step q s) = then_step (run-append r q) s

  transact-Run :
      (tx : Transaction) (w : World t) → holder tx.call ≢ some w.pool_key → Run t w (transact tx w)
  unfolding transact
  transact-Run tx w ne = elim (Result-cases (dispatch t tx.sysvar tx.now tx.call w)) [
    | inl (e, failed) ↦ rw (failed, transact) start
    | inr ((w', e), done) ↦ rw (done, transact) (dispatch-Run tx.sysvar tx.now tx.call w ne done)
  ]

  -- Any list of calls of the escrow's entry points, whether they succeed or fail, leaves the accounts
  -- where a run of steps leaves them, if none is signed by the pool's own address.
  pub process-Run :
      (txs : List Transaction) (w : World t) → NoneSignedBy w.pool_key txs → Run t w (process txs w)
  unfolding process
  process-Run [] w apart = start
  process-Run (tx ∷ txs) w apart =
      let first = transact-Run tx w apart.0 in
      run-append first (process-Run txs (transact tx w) (rw (run-key t first) apart.1))
