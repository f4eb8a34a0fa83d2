-- ===== src/Escrow/Pricing/Rounding.antt =====
-- What rounding can cost an LP, and that it never pays to split a deposit.
use native.Mathlib.Nat.{lt_of_mul-lt-mul_right, le_of_mul-le-mul_right, mul-le-mul_right}
use credmesh_solana.Prelude.{ℕ, ◌+◌, ◌*◌, ◌≤◌, ◌<◌, ◌≡◌, arith, ok}
use credmesh_solana.Escrow.State.{virtual_assets_offset, virtual_shares_offset}
use credmesh_solana.Escrow.Pricing.{preview_deposit, preview_redeem}
use credmesh_solana.Escrow.Pricing.Shares.{
  deposit-redeem-le, preview_deposit_bounds, preview_redeem_bounds,
}

-- Redeeming the shares of a deposit right after it never returns more than was put in, and loses less
-- than one atom and the price of one share: the loss times the supply afterwards is less than that supply
-- and the assets before, with the virtual offsets.
pub deposit-redeem-near :
    (a A S : ℕ) {q r : ℕ}
    → preview_deposit a A S ≡ ok q
    → preview_redeem q (A + a) (S + q) ≡ ok r
    → (r ≤ a)
      × (a * (S + q + virtual_shares_offset)
          < (r + 1) * (S + q + virtual_shares_offset) + (A + virtual_assets_offset))
deposit-redeem-near a A S {q} {r} d e =
    let high = (preview_deposit_bounds a A S d).1 in
    let back = (preview_redeem_bounds q (A + a) (S + q) e).1 in
    (deposit-redeem-le a A S d e, omega (arith, high, back))

-- Two amounts in turn, each rounded down at a rate that the first does not lower, against one.
two_turns :
    (a b q₁ q₂ n d : ℕ)
    → 0 < d
    → q₁ * d ≤ a * n
    → q₂ * (d + a) ≤ b * (n + q₁)
    → (q₁ + q₂) * d ≤ (a + b) * n
two_turns a b q₁ q₂ n d positive first second =
    let scaled : q₂ * (d + a) * d ≤ b * (n + q₁) * d = mul-le-mul_right d second in
    let cross : q₁ * d * b ≤ a * n * b = mul-le-mul_right b first in
    let low : q₂ * d ≤ b * n =
      le_of_mul-le-mul_right {k = d + a} (omega arith) (omega (arith, scaled, cross)) in
    omega (arith, low, first)

-- Depositing a and then b never gives more shares than depositing a + b at once.
pub split-deposit-le :
    (a b A S : ℕ) {q₁ q₂ q : ℕ}
    → preview_deposit a A S ≡ ok q₁
    → preview_deposit b (A + a) (S + q₁) ≡ ok q₂
    → preview_deposit (a + b) A S ≡ ok q
    → q₁ + q₂ ≤ q
split-deposit-le a b A S {q₁} {q₂} {q} first second whole =
    let low = (preview_deposit_bounds a A S first).0 in
    let next = (preview_deposit_bounds b (A + a) (S + q₁) second).0 in
    let high = (preview_deposit_bounds (a + b) A S whole).1 in
    let both =
      two_turns a b q₁ q₂ (S + virtual_shares_offset) (A + virtual_assets_offset) (omega arith) low
        (omega (arith, next)) in
    let under : (q₁ + q₂) * (A + virtual_assets_offset) < (q + 1) * (A + virtual_assets_offset) =
      omega (arith, both, high) in
    omega (arith, lt_of_mul-lt-mul_right (A + virtual_assets_offset) under)
