-- ===== src/Escrow/Pricing/Shares.antt =====
-- Share conversion (`preview_deposit`, `preview_redeem`): the exact result and who gains by rounding.
use native.Mathlib.Nat.{mul-le-mul, div-mul-le_self, lt-div-mul-add, le_of_mul-le-mul_right}
use credmesh_solana.Prelude.{
  ℕ, ◌+◌, ◌-◌, ◌*◌, ◌/◌, ◌≤◌, ◌<◌, ◌≡◌, arith, ltb, if◌then◌else◌, ok, err,
}
use credmesh_solana.Machine.{u64_mod, u128_mod}
use credmesh_solana.Runtime.{custom, Outcome}
use credmesh_solana.Escrow.Errors.{CredmeshError, math_overflow}
use credmesh_solana.Escrow.State.{virtual_assets_offset, virtual_shares_offset}
use credmesh_solana.Escrow.Pricing.{preview_deposit, preview_redeem}

-- A `u64` times a number that is at most 2 ^ 64 stays below the bound of `u128`.
product-lt : (a b : ℕ) → a < u64_mod → b ≤ u64_mod → a * b < u128_mod
product-lt a b ha hb =
    let large : a * b ≤ (u64_mod - 1) * u64_mod = mul-le-mul {n₂ = u64_mod - 1} (omega arith) hb in
    omega arith

-- The exact quotient, or the overflow error where it leaves `u64`.
abbrev pub exact_quotient : ℕ → ℕ → Outcome CredmeshError ℕ
exact_quotient n d = let q = n / d in if ltb q u64_mod then ok q else err (custom math_overflow)

-- On `u64` inputs `preview_deposit` gives the exact quotient, rounded down, or the overflow error
-- where the quotient leaves `u64`, provided the supply leaves room for the virtual shares.
pub preview_deposit-exact :
    (a A S : ℕ)
    → a < u64_mod
    → A < u64_mod
    → S + virtual_shares_offset ≤ u64_mod
    → preview_deposit a A S
      ≡ exact_quotient (a * (S + virtual_shares_offset)) (A + virtual_assets_offset)
unfolding preview_deposit
preview_deposit-exact a A S ha hA hS =
    ground (arith, product-lt a (S + virtual_shares_offset) ha hS)

-- On `u64` inputs `preview_redeem` gives the exact quotient, rounded down, or the overflow error where
-- the quotient leaves `u64`, provided the assets leave room for the virtual assets.
pub preview_redeem-exact :
    (s A S : ℕ)
    → s < u64_mod
    → S < u64_mod
    → A + virtual_assets_offset ≤ u64_mod
    → preview_redeem s A S
      ≡ exact_quotient (s * (A + virtual_assets_offset)) (S + virtual_shares_offset)
unfolding preview_redeem
preview_redeem-exact s A S hs hS hA = ground (arith, product-lt s (A + virtual_assets_offset) hs hA)

-- A quotient, as bounds without a division.
pub quotient_bounds : (n d : ℕ) {q : ℕ} → 0 < d → n / d ≡ q → (q * d ≤ n) × (n < (q + 1) * d)
quotient_bounds n d h e =
    rw (← e) (omega (arith, div-mul-le_self n d), omega (arith, lt-div-mul-add {a = n} h))

pub preview_deposit-quotient :
    (a A S : ℕ) {q : ℕ}
    → preview_deposit a A S ≡ ok q
    → (a * (S + virtual_shares_offset) / (A + virtual_assets_offset) ≡ q) × (q < u64_mod)
unfolding preview_deposit
preview_deposit-quotient a A S {q} h = ground arith

-- What a successful conversion says of its result, without a division.
pub preview_deposit_bounds :
    (a A S : ℕ) {q : ℕ}
    → preview_deposit a A S ≡ ok q
    → (q * (A + virtual_assets_offset) ≤ a * (S + virtual_shares_offset))
      × (a * (S + virtual_shares_offset) < (q + 1) * (A + virtual_assets_offset))
      × (q < u64_mod)
preview_deposit_bounds a A S h =
    let (e, lt) = preview_deposit-quotient a A S h in
    let (low, high) = quotient_bounds _ _ (omega arith) e in (low, high, lt)

pub preview_redeem-quotient :
    (s A S : ℕ) {r : ℕ}
    → preview_redeem s A S ≡ ok r
    → (s * (A + virtual_assets_offset) / (S + virtual_shares_offset) ≡ r) × (r < u64_mod)
unfolding preview_redeem
preview_redeem-quotient s A S {r} h = ground arith

pub preview_redeem_bounds :
    (s A S : ℕ) {r : ℕ}
    → preview_redeem s A S ≡ ok r
    → (r * (S + virtual_shares_offset) ≤ s * (A + virtual_assets_offset))
      × (s * (A + virtual_assets_offset) < (r + 1) * (S + virtual_shares_offset))
      × (r < u64_mod)
preview_redeem_bounds s A S h =
    let (e, lt) = preview_redeem-quotient s A S h in
    let (low, high) = quotient_bounds _ _ (omega arith) e in (low, high, lt)

-- Redeeming the shares of a deposit right after it never returns more than was put in.
pub deposit-redeem-le :
    (a A S : ℕ) {q r : ℕ}
    → preview_deposit a A S ≡ ok q
    → preview_redeem q (A + a) (S + q) ≡ ok r
    → r ≤ a
deposit-redeem-le a A S {q} {r} d e =
    let low = (preview_deposit_bounds a A S d).0 in
    let out = (preview_redeem_bounds q (A + a) (S + q) e).0 in
    le_of_mul-le-mul_right {k = S + q + virtual_shares_offset} (omega arith) (omega arith)

-- Depositing the proceeds of a redemption, which leaves A assets and S shares, right after it never
-- gives more shares than were burnt.
pub redeem-deposit-le :
    (s A S : ℕ) {q r : ℕ}
    → preview_redeem s (A + r) (S + s) ≡ ok r
    → preview_deposit r A S ≡ ok q
    → q ≤ s
redeem-deposit-le s A S {q} {r} d e =
    let low = (preview_redeem_bounds s (A + r) (S + s) d).0 in
    let out = (preview_deposit_bounds r A S e).0 in
    le_of_mul-le-mul_right {k = A + virtual_assets_offset} (omega arith) (omega arith)

-- The price of a share before, (A + V_A) / (S + V_S), is at most the price after.
abbrev pub PriceLe : (A S A' S' : ℕ) → Type 0
PriceLe A S A' S' =
    (A + virtual_assets_offset) * (S' + virtual_shares_offset)
    ≤ (A' + virtual_assets_offset) * (S + virtual_shares_offset)

-- A deposit does not lower the price of a share.
pub deposit-PriceLe :
    (a A S : ℕ) {q : ℕ} → preview_deposit a A S ≡ ok q → PriceLe A S (A + a) (S + q)
deposit-PriceLe a A S d = let low = (preview_deposit_bounds a A S d).0 in omega arith

-- Nor does a withdrawal, which leaves A assets and S shares.
pub withdraw-PriceLe :
    (s A S : ℕ) {r : ℕ} → preview_redeem s (A + r) (S + s) ≡ ok r → PriceLe (A + r) (S + s) A S
withdraw-PriceLe s A S {r} d =
    let low = (preview_redeem_bounds s (A + r) (S + s) d).0 in omega arith
