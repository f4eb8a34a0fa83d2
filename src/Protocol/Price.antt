-- ===== src/Protocol/Price.antt =====
-- The price of a share along a run.
use native.Mathlib.Nat.{mul-le-mul_right, le_of_mul-le-mul_right}
use credmesh_solana.Prelude.{
  ℕ, ◌+◌, ◌-◌, ◌*◌, ◌≤◌, ◌≡◌, ap, sym, arith, Bool, true, false, ok, ◌||◌,
}
use credmesh_solana.Token.{TokenProgram}
use credmesh_solana.Escrow.State.{virtual_assets_offset, virtual_shares_offset}
use credmesh_solana.Escrow.World.{World}
use credmesh_solana.Escrow.Pricing.{preview_redeem}
use credmesh_solana.Escrow.Pricing.Shares.{PriceLe, deposit-PriceLe, preview_redeem_bounds}
use credmesh_solana.Escrow.Liquidity.Effects.{deposit-Deposited, withdraw-Withdrawn}
use credmesh_solana.Escrow.RequestAdvance.Effects.{request_advance-Issued}
use credmesh_solana.Escrow.Settlement.Settle.{claim_and_settle-Settled}
use credmesh_solana.Escrow.Params.Effects.{
  propose_params-Proposed, execute_params-Executed, skim_protocol_fees-Skimmed,
}
use credmesh_solana.Protocol.{
  Step, deposits, withdraws, requests, settles, liquidates, proposes, executes, skims, governs,
  outside, Run, start, then_step,
}

PriceLe-trans :
    (A S A' S' A'' S'' : ℕ) → PriceLe A S A' S' → PriceLe A' S' A'' S'' → PriceLe A S A'' S''
PriceLe-trans A S A' S' A'' S'' h k =
    let a = A + virtual_assets_offset in
    let s = S + virtual_shares_offset in
    let a' = A' + virtual_assets_offset in
    let s' = S' + virtual_shares_offset in
    let a'' = A'' + virtual_assets_offset in
    let s'' = S'' + virtual_shares_offset in
    let low : a * s' * s'' ≤ a' * s * s'' = mul-le-mul_right s'' h in
    let high : a' * s'' * s ≤ a'' * s' * s = mul-le-mul_right s k in
    le_of_mul-le-mul_right {k = s'} (omega arith) (grind (arith, low, high))

withdrawn-PriceLe :
    (s A S A' S' r : ℕ) → A ≡ A' + r → S ≡ S' + s → preview_redeem s A S ≡ ok r → PriceLe A S A' S'
withdrawn-PriceLe s A S A' S' r assets supply h =
    let low : r * (S' + s + virtual_shares_offset) ≤ s * (A' + r + virtual_assets_offset) =
      rw (sym assets, sym supply) (preview_redeem_bounds s A S h).0 in
    rw (assets, supply) (omega (arith, low))

module _ (t : TokenProgram) where
  -- The price in w is at most that in w'.
  abbrev pub NoCheaper : (w w' : World t) → Type 0
  NoCheaper w w' =
      PriceLe w.pool.total_assets w.pool.total_shares w'.pool.total_assets w'.pool.total_shares

  -- The step, and any step of the run, liquidates an advance.
  abbrev pub is_liquidation : {w w' : World t} → Step t w w' → Bool
  is_liquidation (liquidates now key bump e h) = true
  is_liquidation _ = false

  abbrev pub has_liquidation : {w w' : World t} → Run t w w' → Bool
  has_liquidation start = false
  has_liquidation (then_step r s) = has_liquidation r || is_liquidation s

  -- Assets that have grown over the same supply.
  grown :
      (w w' : World t) (gain : ℕ)
      → w'.pool.total_assets ≡ w.pool.total_assets + gain
      → w'.pool.total_shares ≡ w.pool.total_shares
      → NoCheaper w w'
  grown w w' gain a s =
      rw (a, s) (mul-le-mul_right (w.pool.total_shares + virtual_shares_offset) (omega arith))

  same :
      (w w' : World t)
      → w'.pool.total_assets ≡ w.pool.total_assets
      → w'.pool.total_shares ≡ w.pool.total_shares
      → NoCheaper w w'
  same w w' a s = grown w w' 0 (omega (arith, a)) s

  step-NoCheaper : (w w' : World t) (s : Step t w w') → is_liquidation s ≡ false → NoCheaper w w'
  step-NoCheaper w w' (deposits ctx amount e ne h) quiet =
      let d = deposit-Deposited t ctx amount w h in
      rw (ap (λ x. x.pool.total_assets) d.after, ap (λ x. x.pool.total_shares) d.after)
        (deposit-PriceLe amount w.pool.total_assets w.pool.total_shares d.priced)
  step-NoCheaper w w' (withdraws ctx shares e ne h) quiet =
      let d = withdraw-Withdrawn t ctx shares w h in
      let a' = w.pool.total_assets - d.assets in
      let s' = w.pool.total_shares - shares in
      let assets : w.pool.total_assets ≡ a' + d.assets = omega (arith, d.assets_cover) in
      let supply : w.pool.total_shares ≡ s' + shares = omega (arith, d.shares_cover) in
      rw (ap (λ x. x.pool.total_assets) d.after, ap (λ x. x.pool.total_shares) d.after)
        (withdrawn-PriceLe shares w.pool.total_assets w.pool.total_shares a' s' d.assets assets
          supply d.priced)
  step-NoCheaper w w' (requests sysvar now ctx rid amount nonce e ne h) quiet =
      let (l, p, d) = request_advance-Issued t sysvar now ctx rid amount nonce w h in
      same w w' (ap (λ x. x.pool.total_assets) d.after) (ap (λ x. x.pool.total_shares) d.after)
  step-NoCheaper w w' (settles sysvar now ctx payment e ne h) quiet =
      let (l, p, d) = claim_and_settle-Settled t sysvar now ctx payment w h in
      grown w w' d.cuts.lp_fee (ap (λ x. x.pool.total_assets) d.after)
        (ap (λ x. x.pool.total_shares) d.after)
  step-NoCheaper w w' (liquidates now key bump e h) quiet = ground (arith, quiet)
  step-NoCheaper w w' (proposes sysvar now governance params e h) quiet =
      let d = propose_params-Proposed t sysvar now governance params w h in
      same w w' (ap (λ x. x.pool.total_assets) d.after) (ap (λ x. x.pool.total_shares) d.after)
  step-NoCheaper w w' (executes now e h) quiet =
      let d = execute_params-Executed t now w h in
      same w w' (ap (λ x. x.pool.total_assets) d.after) (ap (λ x. x.pool.total_shares) d.after)
  step-NoCheaper w w' (skims sysvar ctx amount e h) quiet =
      let d = skim_protocol_fees-Skimmed t sysvar ctx amount w h in
      same w w' (ap (λ x. x.pool.total_assets) d.after) (ap (λ x. x.pool.total_shares) d.after)
  step-NoCheaper w w' (governs registry change h) quiet =
      same w w' (ap (λ x. x.pool.total_assets) h) (ap (λ x. x.pool.total_shares) h)
  step-NoCheaper w w' (outside bank amount b o u h) quiet =
      same w w' (ap (λ x. x.pool.total_assets) h) (ap (λ x. x.pool.total_shares) h)

  -- In a run that liquidates no advance the price of a share, with the virtual offsets, never falls.
  pub run-NoCheaper : {w w' : World t} (r : Run t w w') → has_liquidation r ≡ false → NoCheaper w w'
  run-NoCheaper start quiet = omega arith
  run-NoCheaper {w} (then_step {v = v} {w' = w'} r s) quiet =
      PriceLe-trans _ _ v.pool.total_assets v.pool.total_shares _ _
        (run-NoCheaper r (ground (arith, quiet))) (step-NoCheaper v w' s (ground (arith, quiet)))
