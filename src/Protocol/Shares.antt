-- ===== src/Protocol/Shares.antt =====
-- The shares on the books against the share tokens that exist.
use credmesh_solana.Prelude.{ℕ, ◌+◌, ◌≤◌, ◌≡◌, ◌∙◌, ap, refl, arith, ok, inl, inr, Bool-cases, ltb}
use credmesh_solana.Shared.Bytes.{Pubkey}
use credmesh_solana.Token.{TokenProgram, IsTokenProgram, supply}
use credmesh_solana.Escrow.World.{World}
use credmesh_solana.Escrow.Settlement.{transfer_positive}
use credmesh_solana.Protocol.{Run, start, then_step}
use credmesh_solana.Protocol.Effects.{
  Effect, of_deposit, of_withdrawal, of_request, of_settlement, of_liquidation, of_proposal,
  of_execution, of_skim, of_registry, of_others, step-Effect,
}

module _ (t : TokenProgram) where
  abbrev pub share_supply : World t → ℕ
  share_supply w = supply t w.bank w.pool.share_mint

  -- The share tokens have grown by no more than the shares on the books.
  record Grown (w w' : World t) : Type 0 where
    mint : w'.pool.share_mint ≡ w.pool.share_mint
    by_books : share_supply w' + w.pool.total_shares ≤ share_supply w + w'.pool.total_shares

  grow_after :
      {w w' v : World t}
      → w' ≡ v
      → v.pool.share_mint ≡ w.pool.share_mint
      → supply t w'.bank w.pool.share_mint + w.pool.total_shares
        ≤ share_supply w + v.pool.total_shares
      → Grown w w'
  grow_after after m b = record {
    mint = ap (λ x. x.pool.share_mint) after ∙ m;
    by_books = rw (ap (λ x. x.pool.share_mint) after ∙ m, ap (λ x. x.pool.total_shares) after) b;
  }

  -- The accounts of the token program stay.
  still :
      {w w' v : World t}
      → w' ≡ v
      → v.pool.share_mint ≡ w.pool.share_mint
      → v.pool.total_shares ≡ w.pool.total_shares
      → v.bank ≡ w.bank
      → Grown w w'
  still after m s b =
      let bank = ap (λ x. x.bank) after ∙ b in grow_after after m (rw (bank, s) (omega arith))

  module _ (laws : IsTokenProgram t) where
    transfer_positive-supply :
        (from mint to authority : Pubkey) (amount decimals : ℕ) (bank bank' : t.Bank)
        → transfer_positive t from mint to authority amount decimals bank ≡ ok bank'
        → (m : Pubkey) → supply t bank' m ≡ supply t bank m
    transfer_positive-supply from mint to authority amount decimals bank bank' h m =
        elim (Bool-cases (ltb 0 amount)) [
          | inl yes' ↦
              let moved =
                laws.transferred from mint to authority amount decimals bank bank' (ground arith) in
              moved.supplies m
          | inr zero' ↦ let same : bank' ≡ bank = ground arith in rw same refl
        ]

    result-Grown : {w w' : World t} → Effect t w w' → Grown w w'
    result-Grown {w} {w'} (of_deposit ctx amount ne d) =
        let m = w.pool.share_mint in
        let moved = laws.transferred _ _ _ _ _ _ _ _ d.pays in
        let made = laws.minted _ _ _ _ _ _ d.mints in
        grow_after d.after refl (omega (arith, made.issued, moved.supplies m))
    result-Grown {w} {w'} (of_withdrawal ctx shares ne d) =
        let m = w.pool.share_mint in
        let gone = laws.burnt _ _ _ _ _ _ d.burns in
        let moved = laws.transferred _ _ _ _ _ _ _ _ d.pays in
        grow_after d.after refl (omega (arith, gone.retired, moved.supplies m, d.shares_cover))
    result-Grown {w} {w'} (of_request sysvar now ctx s rid amount nonce ne p d) =
        let m = w.pool.share_mint in
        let opened = laws.associates _ _ _ _ p.opens in
        let moved = laws.transferred _ _ _ _ _ _ _ _ d.pays in
        grow_after d.after refl (omega (arith, opened.supplies m, moved.supplies m))
    result-Grown {w} {w'} (of_settlement sysvar now ctx s payment ne p d) =
        let m = w.pool.share_mint in
        let taxed = transfer_positive-supply _ _ _ _ _ _ _ _ d.taxes m in
        let repaid = transfer_positive-supply _ _ _ _ _ _ _ _ d.repays m in
        grow_after d.after refl (omega (arith, taxed, repaid))
    result-Grown {w} {w'} (of_liquidation now key d) = still d.after refl refl refl
    result-Grown (of_proposal sysvar now params d) = still d.after refl refl refl
    result-Grown (of_execution now d) = still d.after refl refl refl
    result-Grown {w} {w'} (of_skim sysvar ctx amount d) =
        let m = w.pool.share_mint in
        let moved = laws.transferred _ _ _ _ _ _ _ _ d.pays in
        grow_after d.after refl (omega (arith, moved.supplies m))
    result-Grown (of_registry registry change h) = still h refl refl refl
    result-Grown {w} {w'} (of_others bank received b o u h) =
        let same = ap (λ x. x.bank) h in grow_after h refl (rw same (omega (arith, u)))

    -- If the books count at least the share tokens that exist, they do so after every run: no
    -- instruction mints a share token that the books do not count, nor strikes one off that exists.
    pub run-share_supply :
        {w w' : World t}
        → Run t w w'
        → share_supply w ≤ w.pool.total_shares
        → share_supply w' ≤ w'.pool.total_shares
    run-share_supply start counted = counted
    run-share_supply (then_step r s) counted =
        let before = run-share_supply r counted in
        let last = result-Grown (step-Effect t s) in omega (arith, before, last.by_books)
