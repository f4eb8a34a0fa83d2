-- ===== src/Escrow/Liquidity.antt =====
-- The LPs' side: programs/credmesh-escrow/src/instructions/deposit.rs and withdraw.rs.
pub mod Effects
pub mod Succeeds
use credmesh_solana.Prelude.{ℕ, ltb, leb, some, ok, require, ◌>>=◌, ◌>>◌}
use credmesh_solana.Machine.{checked_add_u64, checked_sub_u64}
use credmesh_solana.Runtime.{custom, or_fail, or_cpi}
use credmesh_solana.Token.{TokenProgram}
use credmesh_solana.Shared.Bytes.{Pubkey}
use credmesh_solana.Escrow.Errors.{math_overflow, insufficient_idle_liquidity}
use credmesh_solana.Escrow.Events.{Event, deposited, withdrew}
use credmesh_solana.Escrow.State.{Pool}
use credmesh_solana.Escrow.Pricing.{preview_deposit, preview_redeem}
use credmesh_solana.Escrow.World.{
  World, Handled, token_account, mint_account, require_address, require_token,
}

-- The addresses of `Deposit` and of `Withdraw`, which have the same accounts.
pub record LpAccounts : Type 0 where
  pub lp : Pubkey
  pub usdc_vault : Pubkey
  pub lp_usdc_ata : Pubkey
  pub share_mint : Pubkey
  pub lp_share_ata : Pubkey
  pub usdc_mint : Pubkey

module _ (t : TokenProgram) where
  unfoldable pub deposit : LpAccounts → (amount : ℕ) → World t → Handled t
  deposit ctx amount w = do
    let pool = w.pool
    require_address ctx.usdc_vault pool.usdc_vault
    vault ← token_account t w.bank ctx.usdc_vault
    lp_usdc ← token_account t w.bank ctx.lp_usdc_ata
    require_token lp_usdc pool.asset_mint ctx.lp
    require_address ctx.share_mint pool.share_mint
    share_mint ← mint_account t w.bank ctx.share_mint
    lp_share ← token_account t w.bank ctx.lp_share_ata
    require_token lp_share pool.share_mint ctx.lp
    require_address ctx.usdc_mint pool.asset_mint
    usdc_mint ← mint_account t w.bank ctx.usdc_mint
    require (ltb 0 amount) (custom math_overflow)
    shares_to_mint ← preview_deposit amount pool.total_assets pool.total_shares
    require (ltb 0 shares_to_mint) (custom math_overflow)
    paid ← or_cpi (
        t.transfer_checked ctx.lp_usdc_ata ctx.usdc_mint ctx.usdc_vault ctx.lp amount
          usdc_mint.decimals w.bank)
    minted ← or_cpi (t.mint_to ctx.share_mint ctx.lp_share_ata w.pool_key shares_to_mint paid)
    total_assets ← or_fail (checked_add_u64 pool.total_assets amount) math_overflow
    total_shares ← or_fail (checked_add_u64 pool.total_shares shares_to_mint) math_overflow
    ok (
      record w {
        pool = record pool { total_assets = total_assets; total_shares = total_shares };
        bank = minted;
      },
      deposited w.pool_key ctx.lp amount shares_to_mint,
    )

  unfoldable pub withdraw : LpAccounts → (shares : ℕ) → World t → Handled t
  withdraw ctx shares w = do
    let pool = w.pool
    require_address ctx.usdc_vault pool.usdc_vault
    vault ← token_account t w.bank ctx.usdc_vault
    lp_usdc ← token_account t w.bank ctx.lp_usdc_ata
    require_token lp_usdc pool.asset_mint ctx.lp
    require_address ctx.share_mint pool.share_mint
    share_mint ← mint_account t w.bank ctx.share_mint
    lp_share ← token_account t w.bank ctx.lp_share_ata
    require_token lp_share pool.share_mint ctx.lp
    require_address ctx.usdc_mint pool.asset_mint
    usdc_mint ← mint_account t w.bank ctx.usdc_mint
    require (ltb 0 shares) (custom math_overflow)
    assets_to_return ← preview_redeem shares pool.total_assets pool.total_shares
    require (ltb 0 assets_to_return) (custom math_overflow)
    require (leb assets_to_return vault.amount) (custom insufficient_idle_liquidity)
    burnt ← or_cpi (t.burn ctx.share_mint ctx.lp_share_ata ctx.lp shares w.bank)
    paid ← or_cpi (
        t.transfer_checked ctx.usdc_vault ctx.usdc_mint ctx.lp_usdc_ata w.pool_key assets_to_return
          usdc_mint.decimals burnt)
    total_assets ← or_fail (checked_sub_u64 pool.total_assets assets_to_return) math_overflow
    total_shares ← or_fail (checked_sub_u64 pool.total_shares shares) math_overflow
    ok (
      record w {
        pool = record pool { total_assets = total_assets; total_shares = total_shares };
        bank = paid;
      },
      withdrew w.pool_key ctx.lp shares assets_to_return,
    )
