-- ===== src/Escrow/Liquidity/Effects.antt =====
-- What a deposit and a withdrawal that succeed have done.
use credmesh_solana.Prelude.{
  ℕ, ◌+◌, ◌-◌, ◌≤◌, ◌<◌, ◌≡◌, some, arith, ok, Option-cases, Result-cases, inl, inr,
}
use credmesh_solana.Machine.{u64_mod}
use credmesh_solana.Token.{TokenProgram, owner, balance}
use credmesh_solana.Escrow.Events.{Event}
use credmesh_solana.Escrow.Pricing.{preview_deposit, preview_redeem}
use credmesh_solana.Escrow.World.{World}
use credmesh_solana.Escrow.Liquidity.{LpAccounts, deposit, withdraw}

module _ (t : TokenProgram) where
  pub record Deposited (ctx : LpAccounts) (amount : ℕ) (w w' : World t) : Type 0 where
    pub shares : ℕ
    pub decimals : ℕ
    pub paid : t.Bank
    pub priced : preview_deposit amount w.pool.total_assets w.pool.total_shares ≡ ok shares
    pub amount_positive : 0 < amount
    pub shares_positive : 0 < shares
    pub payer_owned : owner t w.bank ctx.lp_usdc_ata ≡ some ctx.lp
    pub receiver_owned : owner t w.bank ctx.lp_share_ata ≡ some ctx.lp
    pub pays :
        t.transfer_checked ctx.lp_usdc_ata w.pool.asset_mint w.pool.usdc_vault ctx.lp amount
          decimals w.bank
        ≡ some paid
    pub mints : t.mint_to w.pool.share_mint ctx.lp_share_ata w.pool_key shares paid ≡ some w'.bank
    pub assets_fit : w.pool.total_assets + amount < u64_mod
    pub shares_fit : w.pool.total_shares + shares < u64_mod
    pub after : w' ≡ record w {
      pool = record (w.pool) {
        total_assets = w.pool.total_assets + amount;
        total_shares = w.pool.total_shares + shares;
      };
      bank = w'.bank;
    }

  -- A deposit that succeeds was priced by `preview_deposit` at the books before it, has moved the amount
  -- from an account of the LP to the vault and minted the shares to an account of the LP, and has added
  -- both to the books; nothing else of the pool has changed.
  pub deposit-Deposited :
      (ctx : LpAccounts) (amount : ℕ) (w : World t) {w' : World t} {e : Event}
      → deposit t ctx amount w ≡ ok (w', e)
      → Deposited ctx amount w w'
  unfolding deposit
  deposit-Deposited ctx amount w {w'} {e} h = elim (Option-cases (t.mint w.bank ctx.usdc_mint)) [
    | inl n ↦ ground arith
    | inr (m, em) ↦
        elim (Result-cases (preview_deposit amount w.pool.total_assets w.pool.total_shares)) [
          | inl (f, ef) ↦ ground arith
          | inr (shares, es) ↦
              elim (Option-cases (
                t.transfer_checked ctx.lp_usdc_ata ctx.usdc_mint ctx.usdc_vault ctx.lp amount
                  m.decimals w.bank)) [
                    | inl n ↦ ground arith
                    | inr (paid, ep) ↦
                        elim (Option-cases
                          (t.mint_to ctx.share_mint ctx.lp_share_ata w.pool_key shares paid)) [
                            | inl n ↦ ground arith
                            | inr (minted, eb) ↦ record {
                              shares = shares;
                              decimals = m.decimals;
                              paid = paid;
                              priced = es;
                              amount_positive = ground arith;
                              shares_positive = ground arith;
                              payer_owned = ground arith;
                              receiver_owned = ground arith;
                              pays = ground arith;
                              mints = ground arith;
                              assets_fit = ground arith;
                              shares_fit = ground arith;
                              after = ground arith;
                            }
                          ]
                  ]
        ]
  ]

  pub record Withdrawn (ctx : LpAccounts) (shares : ℕ) (w w' : World t) : Type 0 where
    pub assets : ℕ
    pub decimals : ℕ
    pub burnt : t.Bank
    pub priced : preview_redeem shares w.pool.total_assets w.pool.total_shares ≡ ok assets
    pub shares_positive : 0 < shares
    pub assets_positive : 0 < assets
    pub idle : assets ≤ balance t w.bank w.pool.usdc_vault
    pub receiver_owned : owner t w.bank ctx.lp_usdc_ata ≡ some ctx.lp
    pub shares_owned : owner t w.bank ctx.lp_share_ata ≡ some ctx.lp
    pub burns : t.burn w.pool.share_mint ctx.lp_share_ata ctx.lp shares w.bank ≡ some burnt
    pub pays :
        t.transfer_checked w.pool.usdc_vault w.pool.asset_mint ctx.lp_usdc_ata w.pool_key assets
          decimals burnt
        ≡ some w'.bank
    pub assets_cover : assets ≤ w.pool.total_assets
    pub shares_cover : shares ≤ w.pool.total_shares
    pub after : w' ≡ record w {
      pool = record (w.pool) {
        total_assets = w.pool.total_assets - assets;
        total_shares = w.pool.total_shares - shares;
      };
      bank = w'.bank;
    }

  -- A withdrawal that succeeds was priced by `preview_redeem` at the books before it, was covered by the
  -- vault, has burnt the shares of the LP and moved the assets from the vault to an account of the LP,
  -- and has taken both off the books; nothing else of the pool has changed.
  pub withdraw-Withdrawn :
      (ctx : LpAccounts) (shares : ℕ) (w : World t) {w' : World t} {e : Event}
      → withdraw t ctx shares w ≡ ok (w', e)
      → Withdrawn ctx shares w w'
  unfolding withdraw
  withdraw-Withdrawn ctx shares w {w'} {e} h = elim (Option-cases (t.mint w.bank ctx.usdc_mint)) [
    | inl n ↦ ground arith
    | inr (m, em) ↦
        elim (Result-cases (preview_redeem shares w.pool.total_assets w.pool.total_shares)) [
          | inl (f, ef) ↦ ground arith
          | inr (assets, es) ↦
              elim (Option-cases (t.burn ctx.share_mint ctx.lp_share_ata ctx.lp shares w.bank)) [
                | inl n ↦ ground arith
                | inr (burnt, eb) ↦ record {
                  assets = assets;
                  decimals = m.decimals;
                  burnt = burnt;
                  priced = es;
                  shares_positive = ground arith;
                  assets_positive = ground arith;
                  idle = ground arith;
                  receiver_owned = ground arith;
                  shares_owned = ground arith;
                  burns = ground arith;
                  pays = ground arith;
                  assets_cover = ground arith;
                  shares_cover = ground arith;
                  after = ground arith;
                }
              ]
        ]
  ]
