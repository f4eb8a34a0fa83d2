-- ===== src/Escrow/Attestation/Fields.antt =====
-- Reading the fields of a byte array that is a chain of fields, one behind another.
use Prim.Native.Nat.add
use mathlib.Core.List.{append-nil}
use credmesh_solana.Prelude.{
  ℕ, ◌+◌, ◌^◌, ◌<◌, ◌≡◌, refl, some, List, [], ◌∷◌, ◌++◌, arith, ok, length, take, drop,
  length-append,
}
use credmesh_solana.Prelude.Int.{ℤ}
use credmesh_solana.Machine.{u64_mod, IsI64}
use credmesh_solana.Shared.Bytes.{
  Bytes, to_le_bytes, from_le_bytes-to_le_bytes, as_u64, as_i64, index_range,
}
use credmesh_solana.Escrow.Attestation.{pubkey_at, u64_le, i64_le}

module _ {ℓ} {A : Type ℓ} where
  drop-append : (xs ys : List A) (k : ℕ) → drop (length xs + k) (xs ++ ys) ≡ drop k ys
  drop-append [] ys k = rw add.zero
  drop-append (x ∷ xs) ys k = rw (add.suc, drop-append xs ys k)

  take-append : (xs ys : List A) → take (length xs) (xs ++ ys) ≡ xs
  take-append [] ys = refl
  take-append (x ∷ xs) ys = rw (take-append xs ys)

-- Reading behind a field of n bytes, and reading the field itself.
pub skip :
    (xs ys : Bytes) (n a b : ℕ)
    → length xs ≡ n
    → index_range (xs ++ ys) (n + a) (n + b) ≡ index_range ys a b
skip xs ys n a b h = rw (← h, length-append xs ys, drop-append xs ys a) (ground arith)

pub here : (xs ys : Bytes) (n : ℕ) → length xs ≡ n → index_range (xs ++ ys) 0 n ≡ some xs
here xs ys n h = rw (← h, length-append xs ys) (ground (arith, take-append xs ys))

pub last : (xs : Bytes) (n : ℕ) → length xs ≡ n → index_range xs 0 n ≡ some xs
last xs n h = rw append-nil at (here xs [] n h)

pub pubkey_at_lem :
    (msg : Bytes) (o x : ℕ)
    → x < 256 ^ 32
    → index_range msg o (o + 32) ≡ some (to_le_bytes 32 x)
    → pubkey_at msg o ≡ ok x
unfolding pubkey_at
pubkey_at_lem msg o x h e = rw e (ground (arith, from_le_bytes-to_le_bytes 32 x h))

pub u64_le_lem :
    (msg : Bytes) (o x : ℕ)
    → x < u64_mod
    → index_range msg o (o + 8) ≡ some (to_le_bytes 8 x)
    → u64_le msg o ≡ ok x
unfolding u64_le
u64_le_lem msg o x h e = rw e (ground (arith, from_le_bytes-to_le_bytes 8 x h))

as_u64-lt : (z : ℤ) → IsI64 z → as_u64 z < u64_mod
as_u64-lt z h = ground arith

as_i64-as_u64 : (z : ℤ) → IsI64 z → as_i64 (as_u64 z) ≡ z
as_i64-as_u64 z h = ground arith

pub i64_le_lem :
    (msg : Bytes) (o : ℕ) (z : ℤ)
    → IsI64 z
    → index_range msg o (o + 8) ≡ some (to_le_bytes 8 (as_u64 z))
    → i64_le msg o ≡ ok z
unfolding i64_le
i64_le_lem msg o z h e =
    rw (e, from_le_bytes-to_le_bytes 8 (as_u64 z) (as_u64-lt z h), as_i64-as_u64 z h)
