-- ===== src/Protocol/Book.antt =====
-- What the pool promises its users, with no account, byte or time in it: a book of assets, shares,
-- the count of protocol fees and loans, and the entries that may be made in it. Token balances are not
-- in the book, nor is what a settlement pays to the treasury.
pub mod Refines
use credmesh_solana.Prelude.{
  ℕ, ◌+◌, ◌-◌, ◌*◌, ◌/◌, ◌≤◌, ◌<◌, ◌≡◌, Bool, true, false, Option, none, some, if◌then◌else◌,
}
use credmesh_solana.Store.{pair_eq}
use credmesh_solana.Escrow.State.{
  virtual_assets_offset, virtual_shares_offset, protocol_fee_bps, bps_denominator,
}
use credmesh_solana.Escrow.World.{AdvanceKey}

-- A loan stands at an agent and a receivable id; `used` says where one has ever stood.
pub record Book : Type 0 where
  pub assets : ℕ
  pub shares : ℕ
  pub fees : ℕ
  pub lent : ℕ
  pub loan : AdvanceKey → Option ℕ
  pub used : AdvanceKey → Bool

-- The function with one value changed.
abbrev pub at_key {ℓ} : {A : Type ℓ} → AdvanceKey → A → (AdvanceKey → A) → AdvanceKey → A
at_key key v f k = if pair_eq.beq k key then v else f k

-- The price of a share, offset by a virtual share and a virtual asset.
abbrev pub shares_for : ℕ → Book → ℕ
shares_for amount b =
    amount * (b.shares + virtual_shares_offset) / (b.assets + virtual_assets_offset)

abbrev pub assets_for : ℕ → Book → ℕ
assets_for shares b =
    shares * (b.assets + virtual_assets_offset) / (b.shares + virtual_shares_offset)

-- The protocol's 15 %, rounded down.
abbrev pub cut_of : ℕ → ℕ
cut_of earned = earned * protocol_fee_bps / bps_denominator

pub data Entry (b b' : Book) : Type 0 where
  buys :
      (amount : ℕ)
      → 0 < amount
      → 0 < shares_for amount b
      → b' ≡ record b { assets = b.assets + amount; shares = b.shares + shares_for amount b }
      → Entry b b'
  sells :
      (shares : ℕ)
      → 0 < assets_for shares b
      → shares ≤ b.shares
      → assets_for shares b ≤ b.assets
      → b' ≡ record b { assets = b.assets - assets_for shares b; shares = b.shares - shares }
      → Entry b b'
  lends :
      (key : AdvanceKey) (principal : ℕ)
      → 0 < principal
      → b.used key ≡ false
      → b.loan key ≡ none
      → b.lent + principal ≤ b.assets
      → b' ≡ record b {
        lent = b.lent + principal;
        loan = at_key key (some principal) b.loan;
        used = at_key key true b.used;
      }
      → Entry b b'
  -- What a loan has earned is shared between the LPs and the protocol.
  is_repaid :
      (key : AdvanceKey) (principal earned : ℕ)
      → b.loan key ≡ some principal
      → principal ≤ b.lent
      → b' ≡ record b {
        assets = b.assets + (earned - cut_of earned);
        fees = b.fees + cut_of earned;
        lent = b.lent - principal;
        loan = at_key key none b.loan;
      }
      → Entry b b'
  writes_off :
      (key : AdvanceKey) (principal : ℕ)
      → b.loan key ≡ some principal
      → principal ≤ b.lent
      → principal ≤ b.assets
      → b' ≡ record b {
        assets = b.assets - principal;
        lent = b.lent - principal;
        loan = at_key key none b.loan;
      }
      → Entry b b'
  -- A skim of fees that are counted.
  pays_fees : (amount : ℕ) → amount ≤ b.fees → b' ≡ record b { fees = b.fees - amount } → Entry b b'
  -- Nothing that the book records.
  rests : b' ≡ b → Entry b b'

pub data Entries (b : Book) : Book → Type 0 where
  no_entry : Entries b b
  then_entry : {c b' : Book} → Entries b c → Entry c b' → Entries b b'
