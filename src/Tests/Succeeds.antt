-- ===== src/Tests/Succeeds.antt =====
-- Calls that must succeed or fail, on the concrete world.
use credmesh_solana.Prelude.{◌≡◌, refl, arith, ok, err, [], ◌∷◌, ℕ}
use credmesh_solana.Prelude.Int.{pos, ◌+ℤ◌, ◌<ℤ◌, ◌≤ℤ◌}
use credmesh_solana.Runtime.{custom}
use credmesh_solana.Store.{find, put, nat_eq, pair_eq}
use credmesh_solana.Token.{TokenAccount, Mint}
use credmesh_solana.Escrow.Errors.{not_liquidatable, not_settleable}
use credmesh_solana.Escrow.Events.{deposited, withdrew}
use credmesh_solana.Escrow.State.{liquidation_grace_seconds}
use credmesh_solana.Escrow.Liquidity.{deposit, withdraw}
use credmesh_solana.Escrow.Liquidity.Succeeds.{IsLpOf, deposit-succeeds, withdraw-succeeds}
use credmesh_solana.Escrow.Settlement.{claim_and_settle, liquidate}
use credmesh_solana.Escrow.Settlement.Windows.{windows_exclude}
use credmesh_solana.Tests.Bank.{Ledger, tokens, set_amount, transfer, mint_to, burn}
use credmesh_solana.Tests.Worlds.{world, lp_accounts, claim, pool}
use credmesh_solana.Tests.Messages.{sysvar}
use credmesh_solana.Tests.Escrow.{grace_range}
use credmesh_solana.Tests.Settles.{loaded, loads}

abbrev vault : TokenAccount
vault = record { mint = 4; owner = 1; amount = 80_000_000 }

abbrev lp_usdc : TokenAccount
lp_usdc = record { mint = 4; owner = 8; amount = 10_000_000 }

abbrev lp_share : TokenAccount
lp_share = record { mint = 3; owner = 8; amount = 50_000_000_000 }

abbrev usdc_mint : Mint
usdc_mint = record { decimals = 6; supply = 1_000_000_000 }

abbrev share_mint : Mint
share_mint = record { decimals = 6; supply = 100_000_000_000 }

lp-IsLpOf : IsLpOf tokens world lp_accounts vault lp_usdc lp_share usdc_mint share_mint
unfolding find
lp-IsLpOf = record {
  vault_seed = refl;
  vault_found = refl;
  usdc_found = refl;
  usdc_asset = refl;
  usdc_owner = refl;
  share_seed = refl;
  share_mint_found = refl;
  share_found = refl;
  share_asset = refl;
  share_owner = refl;
  mint_seed = refl;
  mint_found = refl;
}

-- The accounts with these balances of the vault, the LP's dollars and shares, and the supply.
abbrev lp_bank : (in_vault dollars shares supply : ℕ) → Ledger
lp_bank in_vault dollars shares supply = record {
  accounts =
      (2, record { mint = 4; owner = 1; amount = in_vault })
      ∷ (5, record { mint = 4; owner = 60; amount = 300_000 })
      ∷ (4007, record { mint = 4; owner = 7; amount = 30_000_000 })
      ∷ (4008, record { mint = 4; owner = 8; amount = dollars })
      ∷ (3008, record { mint = 3; owner = 8; amount = shares })
      ∷ [];
  mints =
      (3, record { decimals = 6; supply = supply })
      ∷ (4, record { decimals = 6; supply = 1_000_000_000 })
      ∷ [];
}

deposit-succeeds_example :
    deposit tokens lp_accounts 1_000_000 world
    ≡ ok (
      record world {
        pool = record pool { total_assets = 101_000_000; total_shares = 101_000_000_000 };
        bank = lp_bank 81_000_000 9_000_000 51_000_000_000 101_000_000_000;
      },
      deposited 1 8 1_000_000 1_000_000_000,
    )
unfolding find put set_amount transfer mint_to
deposit-succeeds_example =
    deposit-succeeds tokens lp_accounts 1_000_000 world vault lp_usdc lp_share usdc_mint share_mint
      (lp_bank 81_000_000 9_000_000 50_000_000_000 100_000_000_000)
      (lp_bank 81_000_000 9_000_000 51_000_000_000 101_000_000_000) lp-IsLpOf (omega arith)
      (omega arith) (omega arith) (omega arith) refl refl

withdraw-succeeds_example :
    withdraw tokens lp_accounts 1_000_000_000 world
    ≡ ok (
      record world {
        pool = record pool { total_assets = 99_000_000; total_shares = 99_000_000_000 };
        bank = lp_bank 79_000_000 11_000_000 49_000_000_000 99_000_000_000;
      },
      withdrew 1 8 1_000_000_000 1_000_000,
    )
unfolding find put set_amount transfer burn
withdraw-succeeds_example =
    withdraw-succeeds tokens lp_accounts 1_000_000_000 world vault lp_usdc lp_share usdc_mint
      share_mint (lp_bank 80_000_000 10_000_000 49_000_000_000 99_000_000_000)
      (lp_bank 79_000_000 11_000_000 49_000_000_000 99_000_000_000) lp-IsLpOf (omega arith)
      (omega arith) (omega arith) (omega arith) (omega arith) (omega arith) refl refl

windows_exclude_example :
    (pos 900_000 <ℤ pos 865_000 +ℤ pos liquidation_grace_seconds
      → liquidate tokens (pos 900_000) (7, 11) 247 world ≡ err (custom not_liquidatable))
    × (pos 865_000 +ℤ pos liquidation_grace_seconds ≤ℤ pos 900_000
        → claim_and_settle tokens sysvar (pos 900_000) claim 21_020_000 world
          ≡ err (custom not_settleable))
unfolding find
windows_exclude_example =
    windows_exclude tokens sysvar (pos 900_000) claim 21_020_000 247 world loaded loads refl
      grace_range
