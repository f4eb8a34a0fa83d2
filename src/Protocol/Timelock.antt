-- ===== src/Protocol/Timelock.antt =====
-- Parameters of the pool along a run: they change only when a proposal has stood for the timelock.
use mathlib.Core.Option.{some-injective}
use credmesh_solana.Prelude.{◌≡◌, ap, sym, refl, ◌∙◌, some, none, Option, ok, inl, inr, arith, ◌⊎◌}
use credmesh_solana.Prelude.Int.{ℤ, ◌+ℤ◌, ◌≤ℤ◌}
use credmesh_solana.Token.{TokenProgram}
use credmesh_solana.Escrow.State.{PendingParams, IsValidCurve}
use credmesh_solana.Escrow.Events.{Event}
use credmesh_solana.Escrow.World.{World}
use credmesh_solana.Escrow.Params.{execute_params}
use credmesh_solana.Escrow.Liquidity.Effects.{deposit-Deposited, withdraw-Withdrawn}
use credmesh_solana.Escrow.RequestAdvance.Effects.{request_advance-Issued}
use credmesh_solana.Escrow.Settlement.Effects.{liquidate-Liquidated}
use credmesh_solana.Escrow.Settlement.Settle.{claim_and_settle-Settled}
use credmesh_solana.Escrow.Params.Effects.{
  propose_params-Proposed, execute_params-Executed, skim_protocol_fees-Skimmed,
}
use credmesh_solana.Protocol.{
  Step, deposits, withdraws, requests, settles, liquidates, proposes, executes, skims, governs,
  outside, Run, start, then_step,
}

module _ (t : TokenProgram) where
  -- The step is a proposal of these parameters at this time.
  abbrev pub proposed : {w w' : World t} → Step t w w' → Option (ℤ × PendingParams)
  proposed (proposes sysvar now governance params e h) = some (now, params)
  proposed _ = none

  -- Somewhere in the run these parameters were proposed at this time.
  abbrev pub WasProposed : (at : ℤ) (params : PendingParams) {w w' : World t} → Run t w w' → Type 0
  WasProposed at params start = ⊥
  WasProposed at params (then_step r s) = (proposed s ≡ some (at, params)) ⊎ WasProposed at params r

  -- What a step does to the parameters: nothing, a proposal, or the execution of one.
  data Change (w w' : World t) : Option (ℤ × PendingParams) → Type 0 where
    still :
        w'.pool.pending_params ≡ w.pool.pending_params
        → w'.pool.fee_curve ≡ w.pool.fee_curve
        → w'.pool.timelock_seconds ≡ w.pool.timelock_seconds
        → Change w w' none
    stages :
        (now : ℤ) (params : PendingParams)
        → IsValidCurve params.fee_curve
        → w'.pool.pending_params
          ≡ some (record params { execute_after = now +ℤ w.pool.timelock_seconds })
        → w'.pool.fee_curve ≡ w.pool.fee_curve
        → w'.pool.timelock_seconds ≡ w.pool.timelock_seconds
        → Change w w' (some (now, params))
    takes :
        (pending : PendingParams)
        → w.pool.pending_params ≡ some pending
        → w'.pool.pending_params ≡ none
        → w'.pool.fee_curve ≡ pending.fee_curve
        → w'.pool.timelock_seconds ≡ w.pool.timelock_seconds
        → Change w w' none

  quiet :
      (w w' v : World t)
      → w' ≡ v
      → v.pool.pending_params ≡ w.pool.pending_params
      → v.pool.fee_curve ≡ w.pool.fee_curve
      → v.pool.timelock_seconds ≡ w.pool.timelock_seconds
      → Change w w' none
  quiet w w' v e p c l =
      still (ap (λ x. x.pool.pending_params) e ∙ p) (ap (λ x. x.pool.fee_curve) e ∙ c)
        (ap (λ x. x.pool.timelock_seconds) e ∙ l)

  step-Change : (w w' : World t) (s : Step t w w') → Change w w' (proposed s)
  step-Change w w' (deposits ctx amount e ne h) =
      quiet w w' _ (deposit-Deposited t ctx amount w h).after refl refl refl
  step-Change w w' (withdraws ctx shares e ne h) =
      quiet w w' _ (withdraw-Withdrawn t ctx shares w h).after refl refl refl
  step-Change w w' (requests sysvar now ctx rid amount nonce e ne h) =
      let (l, p, d) = request_advance-Issued t sysvar now ctx rid amount nonce w h in
      quiet w w' _ d.after refl refl refl
  step-Change w w' (settles sysvar now ctx payment e ne h) =
      let (l, p, d) = claim_and_settle-Settled t sysvar now ctx payment w h in
      quiet w w' _ d.after refl refl refl
  step-Change w w' (liquidates now key bump e h) =
      quiet w w' _ (liquidate-Liquidated t now key bump w h).after refl refl refl
  step-Change w w' (proposes sysvar now governance params e h) =
      let d = propose_params-Proposed t sysvar now governance params w h in
      stages now params d.valid (ap (λ x. x.pool.pending_params) d.after)
        (ap (λ x. x.pool.fee_curve) d.after) (ap (λ x. x.pool.timelock_seconds) d.after)
  step-Change w w' (executes now e h) =
      let d = execute_params-Executed t now w h in
      takes d.pending d.staged (ap (λ x. x.pool.pending_params) d.after)
        (ap (λ x. x.pool.fee_curve) d.after) (ap (λ x. x.pool.timelock_seconds) d.after)
  step-Change w w' (skims sysvar ctx amount e h) =
      quiet w w' _ (skim_protocol_fees-Skimmed t sysvar ctx amount w h).after refl refl refl
  step-Change w w' (governs registry change h) = quiet w w' _ h refl refl refl
  step-Change w w' (outside bank amount b o u h) = quiet w w' _ h refl refl refl

  -- A curve in force or in wait is valid.
  pub record ValidCurves (w : World t) : Type 0 where
    pub in_force : IsValidCurve w.pool.fee_curve
    pub in_wait : (p : PendingParams) → w.pool.pending_params ≡ some p → IsValidCurve p.fee_curve

  preserve-ValidCurves :
      (w w' : World t) (o : Option (ℤ × PendingParams))
      → Change w w' o
      → ValidCurves w
      → ValidCurves w'
  preserve-ValidCurves w w' none (still p c l) v = record {
    in_force = rw c v.in_force;
    in_wait = λ q h. v.in_wait q (sym p ∙ h);
  }
  preserve-ValidCurves w w' (some _) (stages now params valid p c l) v = record {
    in_force = rw c v.in_force;
    in_wait = λ q h. ground (arith, h, p, valid);
  }
  preserve-ValidCurves w w' none (takes pending held p c l) v = record {
    in_force = rw c (v.in_wait pending held);
    in_wait = λ q h. ground (arith, h, p);
  }

  -- Along any run from accounts whose curve in force and proposed curve are valid, both stay valid.
  pub run-ValidCurves : {w w' : World t} → Run t w w' → ValidCurves w → ValidCurves w'
  run-ValidCurves start v = v
  run-ValidCurves (then_step {v = v} {w' = w'} r s) c =
      preserve-ValidCurves v w' (proposed s) (step-Change v w' s) (run-ValidCurves r c)

  -- What waits was proposed in the run, to wait for the timelock of the pool, which is fixed.
  record Timed (w w' : World t) (r : Run t w w') : Type 0 where
    fixed : w'.pool.timelock_seconds ≡ w.pool.timelock_seconds
    waits :
        (p : PendingParams)
        → w'.pool.pending_params ≡ some p
        → (at : ℤ) × (params : PendingParams) × WasProposed at params r
          × (p ≡ record params { execute_after = at +ℤ w.pool.timelock_seconds })

  extend-Timed :
      (w v w' : World t) (r : Run t w v) (s : Step t v w')
      → Change v w' (proposed s)
      → Timed w v r
      → Timed w w' (then_step r s)
  extend-Timed w v w' r s c i = go (proposed s) refl c
    where
      go :
          (o : Option (ℤ × PendingParams))
          → proposed s ≡ o
          → Change v w' o
          → Timed w w' (then_step r s)
      go none e (still p c l) = record {
        fixed = l ∙ i.fixed;
        waits = λ q h.
            let (at, params, was, same) = i.waits q (sym p ∙ h) in (at, params, inr was, same);
      }
      go (some _) e (stages now params valid p c l) = record {
        fixed = l ∙ i.fixed;
        waits = λ q h. (
          now,
          params,
          inl e,
          some-injective _ _ (sym h ∙ p)
              ∙ ap (λ z. record params { execute_after = now +ℤ z }) i.fixed,
        );
      }
      go none e (takes pending held p c l) = record {
        fixed = l ∙ i.fixed;
        waits = λ q h. ground (arith, h, p);
      }

  run-Timed : {w w' : World t} (r : Run t w w') → w.pool.pending_params ≡ none → Timed w w' r
  run-Timed start free = record { fixed = refl; waits = λ p h. ground (arith, h, free) }
  run-Timed {w} (then_step {v = v} {w' = w'} r s) free =
      extend-Timed w v w' r s (step-Change v w' s) (run-Timed r free)

  -- In a run that starts with no proposal in wait, an execution that succeeds takes over a curve and caps
  -- that were proposed before in the run, at least the timelock of the pool earlier.
  pub execute-after-timelock :
      {w v : World t} (r : Run t w v)
      → w.pool.pending_params ≡ none
      → (now : ℤ) {v' : World t} {e : Event} → execute_params t now v ≡ ok (v', e)
      → (at : ℤ) × (params : PendingParams) × WasProposed at params r
        × (at +ℤ w.pool.timelock_seconds ≤ℤ now)
        × (v'.pool.fee_curve ≡ params.fee_curve)
        × (v'.pool.max_advance_abs ≡ params.max_advance_abs)
        × (v'.pool.agent_window_cap ≡ params.agent_window_cap)
  execute-after-timelock {w} {v} r free now {v'} {e} h =
      let d = execute_params-Executed t now v h in
      let (at, params, was, same) = (run-Timed r free).waits d.pending d.staged in
      (
        at,
        params,
        was,
        rw (← ap (λ x. x.execute_after) same) d.ready,
        ap (λ x. x.pool.fee_curve) d.after ∙ ap (λ x. x.fee_curve) same,
        ap (λ x. x.pool.max_advance_abs) d.after ∙ ap (λ x. x.max_advance_abs) same,
        ap (λ x. x.pool.agent_window_cap) d.after ∙ ap (λ x. x.agent_window_cap) same,
      )
