-- ===== src/Token.antt =====
-- The token program, which the repository only calls (SPL Token and the associated-token program
-- through anchor-spl): the parameter `TokenProgram`, and `IsTokenProgram` for the documented effect
-- of its instructions on balances, owners and supplies that theorems rely on.
use credmesh_solana.Prelude.{ℕ, ◌+◌, ◌≤◌, ◌≡◌, ◌≢◌, Option, none, some}
use credmesh_solana.Shared.Bytes.{Pubkey}

pub record TokenAccount : Type 0 where
  pub mint : Pubkey
  pub owner : Pubkey
  pub amount : ℕ

pub record Mint : Type 0 where
  pub decimals : ℕ
  pub supply : ℕ

-- A call is none where the token program refuses it.
pub record TokenProgram : Type 1 where
  pub Bank : Type 0
  pub account : Bank → Pubkey → Option TokenAccount
  pub mint : Bank → Pubkey → Option Mint
  pub transfer_checked :
      (from mint to authority : Pubkey) (amount decimals : ℕ) → Bank → Option Bank
  pub mint_to : (mint to authority : Pubkey) (amount : ℕ) → Bank → Option Bank
  pub burn : (mint from authority : Pubkey) (amount : ℕ) → Bank → Option Bank
  pub associated : (mint owner : Pubkey) → Pubkey
  pub init_associated : (mint owner : Pubkey) → Bank → Option Bank

module _ (t : TokenProgram) where
  -- The balance at an address; 0 where there is no token account.
  abbrev pub balance : t.Bank → Pubkey → ℕ
  balance bank a = elim (t.account bank a) [ none ↦ 0 | some x ↦ x.amount ]

  abbrev pub supply : t.Bank → Pubkey → ℕ
  supply bank m = elim (t.mint bank m) [ none ↦ 0 | some x ↦ x.supply ]

  abbrev pub owner : t.Bank → Pubkey → Option Pubkey
  owner bank a = elim (t.account bank a) [ none ↦ none | some x ↦ some x.owner ]

  pub record Transferred (from to : Pubkey) (amount : ℕ) (bank bank' : t.Bank) : Type 0 where
    pub covered : amount ≤ balance bank from
    pub debited : from ≢ to → balance bank' from + amount ≡ balance bank from
    pub credited : from ≢ to → balance bank' to ≡ balance bank to + amount
    pub others : (a : Pubkey) → a ≢ from → a ≢ to → balance bank' a ≡ balance bank a
    pub owners : (a o : Pubkey) → owner bank a ≡ some o → owner bank' a ≡ some o
    pub supplies : (m : Pubkey) → supply bank' m ≡ supply bank m

  pub record Minted (mint to : Pubkey) (amount : ℕ) (bank bank' : t.Bank) : Type 0 where
    pub credited : balance bank' to ≡ balance bank to + amount
    pub others : (a : Pubkey) → a ≢ to → balance bank' a ≡ balance bank a
    pub issued : supply bank' mint ≡ supply bank mint + amount
    pub owners : (a o : Pubkey) → owner bank a ≡ some o → owner bank' a ≡ some o

  pub record Burnt (mint from : Pubkey) (amount : ℕ) (bank bank' : t.Bank) : Type 0 where
    pub debited : balance bank' from + amount ≡ balance bank from
    pub others : (a : Pubkey) → a ≢ from → balance bank' a ≡ balance bank a
    pub retired : supply bank' mint + amount ≡ supply bank mint
    pub owners : (a o : Pubkey) → owner bank a ≡ some o → owner bank' a ≡ some o

  pub record Associated (mint owned_by : Pubkey) (bank bank' : t.Bank) : Type 0 where
    pub balances : (a : Pubkey) → balance bank' a ≡ balance bank a
    pub owners : (a o : Pubkey) → owner bank a ≡ some o → owner bank' a ≡ some o
    pub owned : owner bank' (t.associated mint owned_by) ≡ some owned_by
    pub supplies : (m : Pubkey) → supply bank' m ≡ supply bank m

  -- What the calls that succeed have done.
  pub record IsTokenProgram : Type 0 where
    pub transferred :
        (from mint to authority : Pubkey) (amount decimals : ℕ) (bank bank' : t.Bank)
        → t.transfer_checked from mint to authority amount decimals bank ≡ some bank'
        → Transferred from to amount bank bank'
    pub minted :
        (mint to authority : Pubkey) (amount : ℕ) (bank bank' : t.Bank)
        → t.mint_to mint to authority amount bank ≡ some bank'
        → Minted mint to amount bank bank'
    pub burnt :
        (mint from authority : Pubkey) (amount : ℕ) (bank bank' : t.Bank)
        → t.burn mint from authority amount bank ≡ some bank'
        → Burnt mint from amount bank bank'
    pub associates :
        (mint owned_by : Pubkey) (bank bank' : t.Bank)
        → t.init_associated mint owned_by bank ≡ some bank'
        → Associated mint owned_by bank bank'
