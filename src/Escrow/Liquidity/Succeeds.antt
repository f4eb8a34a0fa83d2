-- ===== src/Escrow/Liquidity/Succeeds.antt =====
-- When a deposit and a withdrawal succeed.
use credmesh_solana.Prelude.{
  ℕ, ◌+◌, ◌-◌, ◌*◌, ◌/◌, ◌≤◌, ◌<◌, ◌≡◌, some, arith, ok, err, ltb, if◌then◌else◌, ◌∙◌, zero, suc,
}
use credmesh_solana.Machine.{u64_mod}
use credmesh_solana.Token.{TokenProgram, TokenAccount, Mint}
use credmesh_solana.Runtime.{Outcome, custom}
use credmesh_solana.Escrow.Errors.{CredmeshError, math_overflow}
use credmesh_solana.Escrow.Pricing.{preview_deposit, preview_redeem}
use credmesh_solana.Escrow.Events.{deposited, withdrew}
use credmesh_solana.Escrow.State.{virtual_assets_offset, virtual_shares_offset}
use credmesh_solana.Escrow.Pricing.Shares.{preview_deposit-exact, preview_redeem-exact}
use credmesh_solana.Escrow.World.{World}
use credmesh_solana.Escrow.Liquidity.{LpAccounts, deposit, withdraw}

-- The shares of a deposit and the assets of a redemption, rounded down.
abbrev pub shares_of : (amount assets shares : ℕ) → ℕ
shares_of amount assets shares =
    amount * (shares + virtual_shares_offset) / (assets + virtual_assets_offset)

abbrev pub assets_of : (redeemed assets shares : ℕ) → ℕ
assets_of redeemed assets shares =
    redeemed * (assets + virtual_assets_offset) / (shares + virtual_shares_offset)

abbrev within : ℕ → Outcome CredmeshError ℕ
within q = if ltb q u64_mod then ok q else err (custom math_overflow)

if_lt : (q : ℕ) → q < u64_mod → within q ≡ ok q
if_lt q h = ground arith

-- Nothing is worth nothing.
worth : (shares assets supply : ℕ) → 0 < assets_of shares assets supply → 0 < shares
worth zero assets supply h = omega arith
worth (suc n) assets supply h = omega arith

module _ (t : TokenProgram) where
  -- The accounts of an LP, as the constraints want them.
  pub record IsLpOf (w : World t) (ctx : LpAccounts) (vault usdc share : TokenAccount)
      (usdc_mint share_mint : Mint) : Type 0 where
    pub vault_seed : ctx.usdc_vault ≡ w.pool.usdc_vault
    pub vault_found : t.account w.bank ctx.usdc_vault ≡ some vault
    pub usdc_found : t.account w.bank ctx.lp_usdc_ata ≡ some usdc
    pub usdc_asset : usdc.mint ≡ w.pool.asset_mint
    pub usdc_owner : usdc.owner ≡ ctx.lp
    pub share_seed : ctx.share_mint ≡ w.pool.share_mint
    pub share_mint_found : t.mint w.bank ctx.share_mint ≡ some share_mint
    pub share_found : t.account w.bank ctx.lp_share_ata ≡ some share
    pub share_asset : share.mint ≡ w.pool.share_mint
    pub share_owner : share.owner ≡ ctx.lp
    pub mint_seed : ctx.usdc_mint ≡ w.pool.asset_mint
    pub mint_found : t.mint w.bank ctx.usdc_mint ≡ some usdc_mint

  deposit_at :
      (ctx : LpAccounts) (amount q : ℕ) (w : World t) (vault usdc share : TokenAccount)
      (usdc_mint share_mint : Mint) (paid minted : t.Bank)
      → IsLpOf w ctx vault usdc share usdc_mint share_mint
      → 0 < amount
      → preview_deposit amount w.pool.total_assets w.pool.total_shares ≡ ok q
      → 0 < q
      → w.pool.total_assets + amount < u64_mod
      → w.pool.total_shares + q < u64_mod
      → t.transfer_checked ctx.lp_usdc_ata ctx.usdc_mint ctx.usdc_vault ctx.lp amount
          usdc_mint.decimals w.bank
        ≡ some paid
      → t.mint_to ctx.share_mint ctx.lp_share_ata w.pool_key q paid ≡ some minted
      → deposit t ctx amount w
        ≡ ok (
          record w {
            pool = record (w.pool) {
              total_assets = w.pool.total_assets + amount;
              total_shares = w.pool.total_shares + q;
            };
            bank = minted;
          },
          deposited w.pool_key ctx.lp amount q,
        )
  unfolding deposit
  deposit_at ctx amount q w vault usdc share usdc_mint share_mint paid minted lp positive priced
        buys assets_fit shares_fit pays mints =
      rw (lp.vault_found, lp.usdc_found, lp.share_mint_found, lp.share_found, lp.mint_found, priced)
        (ground (arith, lp.vault_seed, lp.share_seed, lp.mint_seed, pays, mints))

  withdraw_at :
      (ctx : LpAccounts) (shares r : ℕ) (w : World t) (vault usdc share : TokenAccount)
      (usdc_mint share_mint : Mint) (burnt paid : t.Bank)
      → IsLpOf w ctx vault usdc share usdc_mint share_mint
      → 0 < shares
      → preview_redeem shares w.pool.total_assets w.pool.total_shares ≡ ok r
      → 0 < r
      → r ≤ vault.amount
      → r ≤ w.pool.total_assets
      → shares ≤ w.pool.total_shares
      → t.burn ctx.share_mint ctx.lp_share_ata ctx.lp shares w.bank ≡ some burnt
      → t.transfer_checked ctx.usdc_vault ctx.usdc_mint ctx.lp_usdc_ata w.pool_key r
          usdc_mint.decimals burnt
        ≡ some paid
      → withdraw t ctx shares w
        ≡ ok (
          record w {
            pool = record (w.pool) {
              total_assets = w.pool.total_assets - r;
              total_shares = w.pool.total_shares - shares;
            };
            bank = paid;
          },
          withdrew w.pool_key ctx.lp shares r,
        )
  unfolding withdraw
  withdraw_at ctx shares r w vault usdc share usdc_mint share_mint burnt paid lp positive priced
        returns idle assets_cover shares_cover burns pays =
      rw (lp.vault_found, lp.usdc_found, lp.share_mint_found, lp.share_found, lp.mint_found, priced)
        (ground (arith, lp.vault_seed, lp.share_seed, lp.mint_seed, burns, pays))

  -- An LP whose accounts are in order can always deposit an amount that buys at least one share, if the
  -- token program makes the transfer and mints the shares, and the assets and the supply have room for
  -- both and for the virtual shares: the call succeeds at the exact price.
  pub deposit-succeeds :
      (ctx : LpAccounts) (amount : ℕ) (w : World t) (vault usdc share : TokenAccount)
      (usdc_mint share_mint : Mint) (paid minted : t.Bank)
      → IsLpOf w ctx vault usdc share usdc_mint share_mint
      → 0 < amount
      → 0 < shares_of amount w.pool.total_assets w.pool.total_shares
      → w.pool.total_assets + amount < u64_mod
      → w.pool.total_shares
          + shares_of amount w.pool.total_assets w.pool.total_shares
          + virtual_shares_offset
        ≤ u64_mod
      → t.transfer_checked ctx.lp_usdc_ata ctx.usdc_mint ctx.usdc_vault ctx.lp amount
          usdc_mint.decimals w.bank
        ≡ some paid
      → t.mint_to ctx.share_mint ctx.lp_share_ata w.pool_key
          (shares_of amount w.pool.total_assets w.pool.total_shares)
          paid
        ≡ some minted
      → deposit t ctx amount w
        ≡ ok (
          record w {
            pool = record (w.pool) {
              total_assets = w.pool.total_assets + amount;
              total_shares =
                  w.pool.total_shares + shares_of amount w.pool.total_assets w.pool.total_shares;
            };
            bank = minted;
          },
          deposited w.pool_key ctx.lp amount
              (shares_of amount w.pool.total_assets w.pool.total_shares),
        )
  deposit-succeeds ctx amount w vault usdc share usdc_mint share_mint paid minted lp positive buys
        assets_fit shares_fit pays mints =
      let quote =
        preview_deposit-exact amount w.pool.total_assets w.pool.total_shares (omega arith)
          (omega arith) (omega arith) in
      let q = shares_of amount w.pool.total_assets w.pool.total_shares in
      let priced : preview_deposit amount w.pool.total_assets w.pool.total_shares ≡ ok q =
        quote ∙ if_lt q (omega arith) in
      deposit_at ctx amount q w vault usdc share usdc_mint share_mint paid minted lp positive priced
        buys assets_fit (omega arith) pays mints

  -- An LP whose accounts are in order can withdraw whenever the vault holds what the shares are worth: if
  -- the shares are worth at least one atom and are not more than the supply, which is a `u64`, the vault's balance
  -- and the assets cover them, the token program burns the shares and makes the transfer, and the
  -- assets leave room in `u64` for the virtual assets, the call succeeds at the exact price.
  pub withdraw-succeeds :
      (ctx : LpAccounts) (shares : ℕ) (w : World t) (vault usdc share : TokenAccount)
      (usdc_mint share_mint : Mint) (burnt paid : t.Bank)
      → IsLpOf w ctx vault usdc share usdc_mint share_mint
      → 0 < assets_of shares w.pool.total_assets w.pool.total_shares
      → assets_of shares w.pool.total_assets w.pool.total_shares ≤ vault.amount
      → assets_of shares w.pool.total_assets w.pool.total_shares ≤ w.pool.total_assets
      → shares ≤ w.pool.total_shares
      → w.pool.total_shares < u64_mod
      → w.pool.total_assets + virtual_assets_offset ≤ u64_mod
      → t.burn ctx.share_mint ctx.lp_share_ata ctx.lp shares w.bank ≡ some burnt
      → t.transfer_checked ctx.usdc_vault ctx.usdc_mint ctx.lp_usdc_ata w.pool_key
          (assets_of shares w.pool.total_assets w.pool.total_shares)
          usdc_mint.decimals
          burnt
        ≡ some paid
      → withdraw t ctx shares w
        ≡ ok (
          record w {
            pool = record (w.pool) {
              total_assets =
                  w.pool.total_assets - assets_of shares w.pool.total_assets w.pool.total_shares;
              total_shares = w.pool.total_shares - shares;
            };
            bank = paid;
          },
          withdrew w.pool_key ctx.lp shares
              (assets_of shares w.pool.total_assets w.pool.total_shares),
        )
  withdraw-succeeds ctx shares w vault usdc share usdc_mint share_mint burnt paid lp returns idle
        assets_cover shares_cover supply_fits assets_fit burns pays =
      let quote =
        preview_redeem-exact shares w.pool.total_assets w.pool.total_shares (omega arith)
          supply_fits assets_fit in
      let r = assets_of shares w.pool.total_assets w.pool.total_shares in
      let priced : preview_redeem shares w.pool.total_assets w.pool.total_shares ≡ ok r =
        quote ∙ if_lt r (omega arith) in
      withdraw_at ctx shares r w vault usdc share usdc_mint share_mint burnt paid lp
        (worth shares w.pool.total_assets w.pool.total_shares returns) priced returns idle
        assets_cover shares_cover burns pays
