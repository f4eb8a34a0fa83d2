-- ===== src/Tests/Bank.antt =====
-- A token program that keeps accounts and mints in association lists.
use credmesh_solana.Prelude.{ℕ, ◌+◌, ◌-◌, ◌*◌, Option, none, some, leb, ◌==◌, if◌then◌else◌}
use credmesh_solana.Store.{Store, find, put, nat_eq}
use credmesh_solana.Token.{TokenAccount, Mint, TokenProgram}

pub record Ledger : Type 0 where
  pub accounts : Store ℕ TokenAccount
  pub mints : Store ℕ Mint

-- The associated account's address, one of its own for each mint and owner of the tests.
abbrev pub associated : (mint owned_by : ℕ) → ℕ
associated mint owned_by = 1000 * mint + owned_by

unfoldable pub set_amount : (at amount : ℕ) → TokenAccount → Ledger → Ledger
set_amount at amount a l = record l { accounts = put at (record a { amount = amount }) l.accounts }

unfoldable pub transfer : (from mint to authority amount decimals : ℕ) → Ledger → Option Ledger
transfer from mint to authority amount decimals l = elim (find from l.accounts) [
  | none ↦ none
  | some a ↦
      if leb amount a.amount
      then (let paid = set_amount from (a.amount - amount) a l in
          elim (find to paid.accounts) [
            | none ↦ none
            | some b ↦ some (set_amount to (b.amount + amount) b paid)
          ])
      else none
]

unfoldable pub mint_to : (mint to authority amount : ℕ) → Ledger → Option Ledger
mint_to mint to authority amount l = elim (find mint l.mints) [
  | none ↦ none
  | some m ↦ elim (find to l.accounts) [
    | none ↦ none
    | some a ↦ some (record (set_amount to (a.amount + amount) a l) {
      mints = put mint (record m { supply = m.supply + amount }) l.mints;
    })
  ]
]

unfoldable pub burn : (mint from authority amount : ℕ) → Ledger → Option Ledger
burn mint from authority amount l = elim (find mint l.mints) [
  | none ↦ none
  | some m ↦ elim (find from l.accounts) [
    | none ↦ none
    | some a ↦
        if leb amount a.amount
        then (if leb amount m.supply
            then some (record (set_amount from (a.amount - amount) a l) {
              mints = put mint (record m { supply = m.supply - amount }) l.mints;
            })
            else none)
        else none
  ]
]

-- An account that exists already is left as it is, if its owner is the one asked for.
unfoldable pub init_associated : (mint owned_by : ℕ) → Ledger → Option Ledger
init_associated mint owned_by l = elim (find (associated mint owned_by) l.accounts) [
  | none ↦ some (record l {
    accounts =
        put (associated mint owned_by) (record { mint = mint; owner = owned_by; amount = 0 })
          l.accounts;
  })
  | some a ↦ if a.owner == owned_by then some l else none
]

abbrev pub tokens : TokenProgram
tokens = record {
  Bank = Ledger;
  account = λ l a. find a l.accounts;
  mint = λ l m. find m l.mints;
  transfer_checked = transfer;
  mint_to = mint_to;
  burn = burn;
  associated = associated;
  init_associated = init_associated;
}
