-- ===== src/Machine.antt =====
-- The machine integers of the programs: `u64` and `u128` as natural numbers below their bound, `i64`
-- as an integer within its range. The release profile of Cargo.toml sets `overflow-checks`, so the
-- plain operators abort on overflow; the `checked_*` ones return none.
use credmesh_solana.Prelude.{
  ℕ, ◌+◌, ◌-◌, ◌*◌, ◌/◌, ◌^◌, ◌&&◌, Option, none, some, ltb, leb, ◌==◌, min, if◌then◌else◌,
}
use credmesh_solana.Prelude.Int.{ℤ, pos, negsuc, pos_part, ◌+ℤ◌, ◌-ℤ◌, ◌≤ℤ◌, leb_ℤ, ltb_ℤ}

abbrev pub u16_mod : ℕ
u16_mod = 2 ^ 16

abbrev pub u32_mod : ℕ
u32_mod = 2 ^ 32

abbrev pub u64_mod : ℕ
u64_mod = 2 ^ 64

abbrev pub u128_mod : ℕ
u128_mod = 2 ^ 128

-- The value, if it lies below the bound of its type.
abbrev pub fits : ℕ → ℕ → Option ℕ
fits bound x = if ltb x bound then some x else none

-- `u64::checked_add`, `checked_sub`, `checked_mul`.
abbrev pub checked_add_u64 : ℕ → ℕ → Option ℕ
checked_add_u64 a b = fits u64_mod (a + b)

abbrev pub checked_sub_u64 : ℕ → ℕ → Option ℕ
checked_sub_u64 a b = if leb b a then some (a - b) else none

abbrev pub checked_mul_u64 : ℕ → ℕ → Option ℕ
checked_mul_u64 a b = fits u64_mod (a * b)

-- `u64::saturating_sub` and `saturating_mul`; `-` on ℕ stops at 0 as the former does.
abbrev pub saturating_sub_u64 : ℕ → ℕ → ℕ
saturating_sub_u64 a b = a - b

abbrev pub saturating_mul_u64 : ℕ → ℕ → ℕ
saturating_mul_u64 a b = min (a * b) (u64_mod - 1)

-- `u128::checked_add`, `checked_mul`, `checked_div`, and `u64::try_from` of a `u128`.
abbrev pub checked_add_u128 : ℕ → ℕ → Option ℕ
checked_add_u128 a b = fits u128_mod (a + b)

abbrev pub checked_mul_u128 : ℕ → ℕ → Option ℕ
checked_mul_u128 a b = fits u128_mod (a * b)

abbrev pub checked_div : ℕ → ℕ → Option ℕ
checked_div a b = if b == 0 then none else some (a / b)

abbrev pub try_u64 : ℕ → Option ℕ
try_u64 = fits u64_mod

-- The range of `i64`.
abbrev pub i64_min : ℤ
i64_min = negsuc (2 ^ 63 - 1)

abbrev pub i64_max : ℤ
i64_max = pos (2 ^ 63 - 1)

abbrev pub IsI64 : ℤ → Type 0
IsI64 z = (i64_min ≤ℤ z) × (z ≤ℤ i64_max)

abbrev pub fits_i64 : ℤ → Option ℤ
fits_i64 z = if leb_ℤ i64_min z && leb_ℤ z i64_max then some z else none

-- `i64::checked_add`; the plain `-` aborts where this is none.
abbrev pub checked_add_i64 : ℤ → ℤ → Option ℤ
checked_add_i64 a b = fits_i64 (a +ℤ b)

abbrev pub checked_sub_i64 : ℤ → ℤ → Option ℤ
checked_sub_i64 a b = fits_i64 (a -ℤ b)

-- `i64::saturating_sub`.
abbrev pub saturating_sub_i64 : ℤ → ℤ → ℤ
saturating_sub_i64 a b =
    let d = a -ℤ b in if ltb_ℤ d i64_min then i64_min else (if ltb_ℤ i64_max d then i64_max else d)

-- `z.max(0) as u64`.
abbrev pub clamp_to_u64 : ℤ → ℕ
clamp_to_u64 = pos_part
