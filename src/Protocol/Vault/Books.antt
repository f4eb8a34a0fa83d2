-- ===== src/Protocol/Vault/Books.antt =====
-- The vault and the books under each instruction.
use credmesh_solana.Prelude.{
  ℕ, ◌+◌, ◌≡◌, ◌≢◌, ◌∙◌, sym, refl, ap, some, arith, ok, inl, inr, ltb, Bool-cases,
}
use credmesh_solana.Prelude.Int.{ℤ}
use credmesh_solana.Token.{TokenProgram, IsTokenProgram, balance, owner}
use credmesh_solana.Shared.Bytes.{Pubkey, Bytes}
use credmesh_solana.Shared.Instructions.{Sysvar}
use credmesh_solana.Escrow.World.{World, AdvanceKey}
use credmesh_solana.Escrow.Liquidity.{LpAccounts}
use credmesh_solana.Escrow.RequestAdvance.{RequestAdvance}
use credmesh_solana.Escrow.RequestAdvance
use credmesh_solana.Escrow.RequestAdvance.Effects.{Issued}
use credmesh_solana.Escrow.Settlement
use credmesh_solana.Escrow.Settlement.{ClaimAndSettle, transfer_positive}
use credmesh_solana.Escrow.Settlement.Effects.{Settled, Liquidated}
use credmesh_solana.Escrow.Settlement.Tranches.{waterfall_conserves}
use credmesh_solana.Escrow.Params.{SkimProtocolFees}
use credmesh_solana.Escrow.Params.Effects.{Proposed, Executed, Skimmed}
use credmesh_solana.Escrow.State.{PendingParams}
use credmesh_solana.Escrow.Liquidity.Effects.{Deposited, Withdrawn}
use credmesh_solana.Protocol.Vault.{
  Custody, Fixed, fix_after, Balanced, apart_of_owner, balance_books,
}

module _ (t : TokenProgram) (laws : IsTokenProgram t) where
  pub deposit-Balanced :
      (ctx : LpAccounts) (amount : ℕ) (w w' : World t)
      → Custody t w
      → ctx.lp ≢ w.pool_key
      → Deposited t ctx amount w w'
      → Balanced t 0 0 w w'
  deposit-Balanced ctx amount w w' c ne d =
      let vault = w.pool.usdc_vault in
      let from_ne = apart_of_owner t w.bank ctx.lp_usdc_ata vault d.payer_owned c.vault_owned ne in
      let to_ne =
        apart_of_owner t w.bank ctx.lp_share_ata vault d.receiver_owned c.vault_owned ne in
      let moved = laws.transferred _ _ _ _ _ _ _ _ d.pays in
      let minted = laws.minted _ _ _ _ _ _ d.mints in
      let assets = ap (λ x. x.pool.total_assets) d.after in
      let deployed = ap (λ x. x.pool.deployed_amount) d.after in
      balance_books t 0 0 w w' c (fix_after t d.after refl refl refl)
        (minted.owners _ _ (moved.owners _ _ c.vault_owned))
        (omega (arith, minted.others vault (λ e. to_ne (sym e)), moved.credited from_ne))

  pub withdraw-Balanced :
      (ctx : LpAccounts) (shares : ℕ) (w w' : World t)
      → Custody t w
      → ctx.lp ≢ w.pool_key
      → Withdrawn t ctx shares w w'
      → Balanced t 0 0 w w'
  withdraw-Balanced ctx shares w w' c ne d =
      let vault = w.pool.usdc_vault in
      let to_ne = apart_of_owner t w.bank ctx.lp_usdc_ata vault d.receiver_owned c.vault_owned ne in
      let from_ne =
        apart_of_owner t w.bank ctx.lp_share_ata vault d.shares_owned c.vault_owned ne in
      let burnt = laws.burnt _ _ _ _ _ _ d.burns in
      let moved = laws.transferred _ _ _ _ _ _ _ _ d.pays in
      let assets = ap (λ x. x.pool.total_assets) d.after in
      let deployed = ap (λ x. x.pool.deployed_amount) d.after in
      balance_books t 0 0 w w' c (fix_after t d.after refl refl refl)
        (moved.owners _ _ (burnt.owners _ _ c.vault_owned))
        (omega (
          arith,
          burnt.others vault (λ e. from_ne (sym e)),
          moved.debited (λ e. to_ne (sym e)),
          d.assets_cover,
        ))

  pub request-Balanced :
      (sysvar : Sysvar) (now : ℤ) (ctx : RequestAdvance) (s : RequestAdvance.Loaded t)
      (receivable_id amount : ℕ) (nonce : Bytes) (w w' : World t)
      → Custody t w
      → ctx.agent ≢ w.pool_key
      → RequestAdvance.Effects.Presented t ctx receivable_id w s
      → Issued t sysvar now ctx s receivable_id amount nonce w w'
      → Balanced t 0 0 w w'
  request-Balanced sysvar now ctx s receivable_id amount nonce w w' c ne p d =
      let vault = w.pool.usdc_vault in
      let opened = laws.associates _ _ _ _ p.opens in
      let owned = opened.owners _ _ c.vault_owned in
      let to_ne = apart_of_owner t s.opened ctx.agent_usdc_ata vault p.receiver_owned owned ne in
      let moved = laws.transferred _ _ _ _ _ _ _ _ (rw p.from_vault at d.pays) in
      let assets = ap (λ x. x.pool.total_assets) d.after in
      let deployed = ap (λ x. x.pool.deployed_amount) d.after in
      balance_books t 0 0 w w' c (fix_after t d.after refl refl refl) (moved.owners _ _ owned)
        (omega (arith, opened.balances vault, moved.debited (λ e. to_ne (sym e))))

  -- A transfer that is skipped at 0 moves its amount all the same.
  transfer_positive-moves :
      (from mint to authority : Pubkey) (amount decimals : ℕ) (bank bank' : t.Bank)
      → transfer_positive t from mint to authority amount decimals bank ≡ ok bank'
      → (from ≢ to → balance t bank' to ≡ balance t bank to + amount)
        × ((a : Pubkey) → a ≢ from → a ≢ to → balance t bank' a ≡ balance t bank a)
        × ((a o : Pubkey) → owner t bank a ≡ some o → owner t bank' a ≡ some o)
  transfer_positive-moves from mint to authority amount decimals bank bank' h =
      elim (Bool-cases (ltb 0 amount)) [
        | inl yes' ↦
            let moved =
              laws.transferred from mint to authority amount decimals bank bank' (ground arith) in
            (moved.credited, moved.others, moved.owners)
        | inr zero' ↦
            let same : bank' ≡ bank = ground arith in
            rw same (λ ne. ground arith, λ a p q. refl, λ a o e. e)
      ]

  pub settle-Balanced :
      (sysvar : Sysvar) (now : ℤ) (ctx : ClaimAndSettle) (s : Settlement.Loaded) (payment : ℕ)
      (w w' : World t)
      → Custody t w
      → ctx.agent ≢ w.pool_key
      → Settlement.Effects.Presented t ctx w s
      → Settled t sysvar now ctx s payment w w'
      → Balanced t 0 0 w w'
  settle-Balanced sysvar now ctx s payment w w' c ne p d =
      let vault = w.pool.usdc_vault in
      let from_ne =
        apart_of_owner t w.bank ctx.agent_usdc_ata vault p.payer_owned c.vault_owned ne in
      let assets = ap (λ x. x.pool.total_assets) d.after in
      let deployed = ap (λ x. x.pool.deployed_amount) d.after in
      let (paid, others, owners) = transfer_positive-moves _ _ _ _ _ _ _ _ d.taxes in
      let (paid', others', owners') =
        transfer_positive-moves _ _ _ _ _ _ _ _ (rw p.to_vault at d.repays) in
      let untaxed =
        others vault (λ e. from_ne (sym e)) (λ e. c.treasury_apart (sym (e ∙ p.to_treasury))) in
      let whole = waterfall_conserves _ _ _ _ _ d.split in
      balance_books t 0 0 w w' c (fix_after t d.after refl refl refl)
        (owners' _ _ (owners _ _ c.vault_owned))
        (omega (arith, untaxed, paid' from_ne, whole.1, d.deployed_covers))

  pub liquidate-Balanced :
      (now : ℤ) (key : AdvanceKey) (w w' : World t)
      → Custody t w
      → Liquidated t now key w w'
      → Balanced t 0 0 w w'
  liquidate-Balanced now key w w' c d =
      let assets = ap (λ x. x.pool.total_assets) d.after in
      let deployed = ap (λ x. x.pool.deployed_amount) d.after in
      let bank = ap (λ x. x.bank) d.after in
      balance_books t 0 0 w w' c (fix_after t d.after refl refl refl) (rw bank c.vault_owned)
        (rw bank (omega (arith, d.assets_cover, d.opened.deployed_covers)))

  -- A skim takes its amount from the vault, and the books keep the assets as they were.
  pub skim-Balanced :
      (sysvar : Sysvar) (ctx : SkimProtocolFees) (amount : ℕ) (w w' : World t)
      → Custody t w
      → Skimmed t sysvar ctx amount w w'
      → Balanced t amount 0 w w'
  skim-Balanced sysvar ctx amount w w' c d =
      let assets = ap (λ x. x.pool.total_assets) d.after in
      let deployed = ap (λ x. x.pool.deployed_amount) d.after in
      let moved = laws.transferred _ _ _ _ _ _ _ _ d.pays in
      balance_books t amount 0 w w' c (fix_after t d.after refl refl refl)
        (moved.owners _ _ c.vault_owned)
        (omega (arith, moved.debited (λ e. c.treasury_apart (sym e))))

  -- An instruction that moves no token and leaves assets, deployed principal and addresses alone.
  pub still-Balanced :
      (w w' : World t)
      → Custody t w
      → Fixed t w w'
      → w'.bank ≡ w.bank
      → w'.pool.total_assets ≡ w.pool.total_assets
      → w'.pool.deployed_amount ≡ w.pool.deployed_amount
      → Balanced t 0 0 w w'
  still-Balanced w w' c f bank assets deployed =
      balance_books t 0 0 w w' c f (rw bank c.vault_owned) (rw bank (omega arith))

  pub propose-Balanced :
      (sysvar : Sysvar) (now : ℤ) (params : PendingParams) (w w' : World t)
      → Custody t w
      → Proposed t sysvar now params w w'
      → Balanced t 0 0 w w'
  propose-Balanced sysvar now params w w' c d =
      still-Balanced w w' c (fix_after t d.after refl refl refl) (ap (λ x. x.bank) d.after)
        (ap (λ x. x.pool.total_assets) d.after) (ap (λ x. x.pool.deployed_amount) d.after)

  pub execute-Balanced :
      (now : ℤ) (w w' : World t) → Custody t w → Executed t now w w' → Balanced t 0 0 w w'
  execute-Balanced now w w' c d =
      still-Balanced w w' c (fix_after t d.after refl refl refl) (ap (λ x. x.bank) d.after)
        (ap (λ x. x.pool.total_assets) d.after) (ap (λ x. x.pool.deployed_amount) d.after)
