-- ===== src/Tests/BankLaws.antt =====
-- The token program of the tests has the documented effects.
use credmesh_solana.Prelude.{
  ℕ, ◌+◌, ◌-◌, ◌≤◌, ◌≡◌, ◌∙◌, refl, some, ◌==◌, ==_iff, arith, inl, inr, Option-cases,
  if◌then◌else◌,
}
use credmesh_solana.Store.{find, put, nat_eq, find-put}
use credmesh_solana.Token.{
  TokenAccount, IsTokenProgram, Transferred, Minted, Burnt, Associated, balance, owner, supply,
}
use credmesh_solana.Tests.Bank.{
  Ledger, associated, set_amount, transfer, mint_to, burn, init_associated, tokens,
}

put_balance :
    (at amount a : ℕ) (x : TokenAccount) (l : Ledger)
    → balance tokens (set_amount at amount x l) a ≡ (if a == at then amount else balance tokens l a)
unfolding set_amount
put_balance at amount a x l =
    ground (arith, find-put a at (record x { amount = amount }) l.accounts)

put_owner :
    (at amount a o : ℕ) (x : TokenAccount) (l : Ledger)
    → find at l.accounts ≡ some x
    → owner tokens l a ≡ some o
    → owner tokens (set_amount at amount x l) a ≡ some o
unfolding set_amount
put_owner at amount a o x l found h =
    ground (arith, ==_iff a at, found, h, find-put a at (record x { amount = amount }) l.accounts)

put_supply :
    (at amount m : ℕ) (x : TokenAccount) (l : Ledger)
    → supply tokens (set_amount at amount x l) m ≡ supply tokens l m
unfolding set_amount
put_supply at amount m x l = refl

-- A transfer that succeeds is two writes.
transfer_writes :
    (from mint to authority amount decimals : ℕ) (l l' : Ledger)
    → transfer from mint to authority amount decimals l ≡ some l'
    → (a : TokenAccount) × (b : TokenAccount) × (find from l.accounts ≡ some a)
      × (amount ≤ a.amount)
      × (find to (set_amount from (a.amount - amount) a l).accounts ≡ some b)
      × (l' ≡ set_amount to (b.amount + amount) b (set_amount from (a.amount - amount) a l))
unfolding transfer
transfer_writes from mint to authority amount decimals l l' h =
    elim (Option-cases (find from l.accounts)) [
      | inl n ↦ ground arith
      | inr (a, ea) ↦
          elim (Option-cases (find to (set_amount from (a.amount - amount) a l).accounts)) [
            | inl n ↦ ground arith
            | inr (b, eb) ↦ (a, b, ea, ground arith, eb, ground arith)
          ]
    ]

transferred_lem :
    (from mint to authority amount decimals : ℕ) (l l' : Ledger)
    → transfer from mint to authority amount decimals l ≡ some l'
    → Transferred tokens from to amount l l'
transferred_lem from mint to authority amount decimals l l' h =
    let (a, b, ea, covers, eb, after) =
      transfer_writes from mint to authority amount decimals l l' h in
    let paid = set_amount from (a.amount - amount) a l in
    let first = λ (x : ℕ). put_balance from (a.amount - amount) x a l in
    let second = λ (x : ℕ). put_balance to (b.amount + amount) x b paid in
    let amount_b : balance tokens paid to ≡ b.amount = ground (arith, eb) in
    rw after (record {
      covered = ground (arith, ea, covers);
      debited = λ ne.
          ground (arith, ==_iff from to, ==_iff from from, first from, second from, ea, ne, covers);
      credited =
          λ ne. ground (arith, ==_iff to from, ==_iff to to, first to, second to, amount_b, ne);
      others = λ x nf nt. ground (arith, ==_iff x to, ==_iff x from, first x, second x, nf, nt);
      owners = λ x o h.
          put_owner to (b.amount + amount) x o b paid eb
            (put_owner from (a.amount - amount) x o a l ea h);
      supplies = λ m.
          put_supply to (b.amount + amount) m b paid ∙ put_supply from (a.amount - amount) m a l;
    })

minted_lem :
    (mint to authority amount : ℕ) (l l' : Ledger)
    → mint_to mint to authority amount l ≡ some l'
    → Minted tokens mint to amount l l'
unfolding mint_to
minted_lem mint to authority amount l l' h = elim (Option-cases (find mint l.mints)) [
  | inl n ↦ ground arith
  | inr (m, em) ↦ elim (Option-cases (find to l.accounts)) [
    | inl n ↦ ground arith
    | inr (a, ea) ↦
        let after : l' ≡ record (set_amount to (a.amount + amount) a l) {
          mints = put mint (record m { supply = m.supply + amount }) l.mints;
        } =
          ground arith in
        let written = λ (x : ℕ). put_balance to (a.amount + amount) x a l in
        rw after (record {
          credited = ground (arith, ==_iff to to, written to, ea);
          others = λ x ne. ground (arith, ==_iff x to, written x, ne);
          issued = ground (
            arith,
            em,
            ==_iff mint mint,
            find-put mint mint (record m { supply = m.supply + amount }) l.mints,
          );
          owners = λ x o h. put_owner to (a.amount + amount) x o a l ea h;
        })
  ]
]

burnt_lem :
    (mint from authority amount : ℕ) (l l' : Ledger)
    → burn mint from authority amount l ≡ some l'
    → Burnt tokens mint from amount l l'
unfolding burn
burnt_lem mint from authority amount l l' h = elim (Option-cases (find mint l.mints)) [
  | inl n ↦ ground arith
  | inr (m, em) ↦ elim (Option-cases (find from l.accounts)) [
    | inl n ↦ ground arith
    | inr (a, ea) ↦
        let after : (l' ≡ record (set_amount from (a.amount - amount) a l) {
          mints = put mint (record m { supply = m.supply - amount }) l.mints;
        })
            × (amount ≤ a.amount)
            × (amount ≤ m.supply) =
          ground arith in
        let written = λ (x : ℕ). put_balance from (a.amount - amount) x a l in
        rw (after.0) (record {
          debited = ground (arith, ==_iff from from, written from, ea, after.1);
          others = λ x ne. ground (arith, ==_iff x from, written x, ne);
          retired = ground (
            arith,
            em,
            after.2,
            ==_iff mint mint,
            find-put mint mint (record m { supply = m.supply - amount }) l.mints,
          );
          owners = λ x o h. put_owner from (a.amount - amount) x o a l ea h;
        })
  ]
]

associated_lem :
    (mint owned_by : ℕ) (l l' : Ledger)
    → init_associated mint owned_by l ≡ some l'
    → Associated tokens mint owned_by l l'
unfolding init_associated
associated_lem mint owned_by l l' h =
    let at = associated mint owned_by in
    elim (Option-cases (find at l.accounts)) [
      | inl n ↦
          let opened : TokenAccount = record { mint = mint; owner = owned_by; amount = 0 } in
          let after : l' ≡ record l { accounts = put at opened l.accounts } = ground arith in
          rw after (record {
            balances = λ x. ground (arith, ==_iff x at, n, find-put x at opened l.accounts);
            owners = λ x o h. ground (arith, ==_iff x at, n, h, find-put x at opened l.accounts);
            owned = ground (arith, ==_iff at at, find-put at at opened l.accounts);
            supplies = λ m. refl;
          })
      | inr (a, ea) ↦
          let after : (l' ≡ l) × (a.owner ≡ owned_by) = ground arith in
          rw (after.0) (record {
            balances = λ x. refl;
            owners = λ x o h. h;
            owned = ground (arith, ea, after.1);
            supplies = λ m. refl;
          })
    ]

pub tokens-IsTokenProgram : IsTokenProgram tokens
tokens-IsTokenProgram = record {
  transferred = transferred_lem;
  minted = minted_lem;
  burnt = burnt_lem;
  associates = associated_lem;
}
