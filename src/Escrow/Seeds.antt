-- ===== src/Escrow/Seeds.antt =====
-- The seeds of the escrow's accounts, as the `seeds = […]` attributes and `Pool::signer_seeds` of
-- programs/credmesh-escrow give them. An address is a hash of the seeds run together and a bump, so
-- the stores of `World` stand for the accounts as far as no two accounts have the same bytes there.
use mathlib.Core.List.{append-nil}
use credmesh_solana.Prelude.{
  ℕ, ◌+◌, ◌*◌, ◌^◌, ◌<◌, ◌≡◌, ◌∙◌, refl, sym, ap, Option, none, some, List, [], ◌∷◌, ◌++◌, arith,
  length, length-append,
}
use credmesh_solana.Shared.Bytes.{
  Pubkey, Bytes, to_le_bytes, from_le_bytes, length-to_le_bytes, from_le_bytes-to_le_bytes,
}
use credmesh_solana.Shared.Layout.{
  pool_seed, advance_seed, consumed_seed, issuance_ledger_seed, liquidation_tombstone_seed,
}
use credmesh_solana.Escrow.State.{Pool}

-- The accounts by what stands in their seeds.
pub data Account : Type 0 where
  pool_account : (asset_mint : Pubkey) → Account
  advance_account : (pool agent receivable_id : Pubkey) → Account
  consumed_account : (pool agent receivable_id : Pubkey) → Account
  ledger_account : (pool agent : Pubkey) → Account
  tombstone_account : (pool agent receivable_id : Pubkey) → Account

-- `key.as_ref()`
abbrev pub as_ref : Pubkey → Bytes
as_ref = to_le_bytes 32

pub seeds : Account → List Bytes
seeds (pool_account asset_mint) = pool_seed ∷ as_ref asset_mint ∷ []
seeds (advance_account pool agent receivable_id) =
    advance_seed ∷ as_ref pool ∷ as_ref agent ∷ as_ref receivable_id ∷ []
seeds (consumed_account pool agent receivable_id) =
    consumed_seed ∷ as_ref pool ∷ as_ref agent ∷ as_ref receivable_id ∷ []
seeds (ledger_account pool agent) = issuance_ledger_seed ∷ as_ref pool ∷ as_ref agent ∷ []
seeds (tombstone_account pool agent receivable_id) =
    liquidation_tombstone_seed ∷ as_ref pool ∷ as_ref agent ∷ as_ref receivable_id ∷ []

-- `Pool::signer_seeds`
signer_seeds : Pool → (bump : ℕ) → List Bytes
signer_seeds pool bump = pool_seed ∷ as_ref pool.asset_mint ∷ (bump ∷ []) ∷ []

-- The seeds run together, as the hash takes them.
abbrev pub joined : List Bytes → Bytes
joined [] = []
joined (s ∷ rest) = s ++ joined rest

-- The pool signs with the seeds of its own address and the bump.
signer_seeds_lem :
    (pool : Pool) (bump : ℕ)
    → joined (signer_seeds pool bump) ≡ joined (seeds (pool_account pool.asset_mint)) ++ (bump ∷ [])
unfolding signer_seeds seeds
signer_seeds_lem pool bump = simp append-nil refl

-- A kind of account and the keys that follow its tag.
data Kind : Type 0 where
  of_pool of_advance of_consumed of_ledger of_tombstone : Kind

abbrev tag : Kind → Bytes
tag of_pool = pool_seed
tag of_advance = advance_seed
tag of_consumed = consumed_seed
tag of_ledger = issuance_ledger_seed
tag of_tombstone = liquidation_tombstone_seed

abbrev kind : Account → Kind
kind (pool_account m) = of_pool
kind (advance_account p a r) = of_advance
kind (consumed_account p a r) = of_consumed
kind (ledger_account p a) = of_ledger
kind (tombstone_account p a r) = of_tombstone

abbrev keys : Account → List Pubkey
keys (pool_account m) = m ∷ []
keys (advance_account p a r) = p ∷ a ∷ r ∷ []
keys (consumed_account p a r) = p ∷ a ∷ r ∷ []
keys (ledger_account p a) = p ∷ a ∷ []
keys (tombstone_account p a r) = p ∷ a ∷ r ∷ []

-- Every key has 32 bytes.
abbrev pub AllFit : List Pubkey → Type 0
AllFit [] = Unit
AllFit (k ∷ ks) = (k < 256 ^ 32) × AllFit ks

abbrev key_bytes : List Pubkey → Bytes
key_bytes [] = []
key_bytes (k ∷ ks) = as_ref k ++ key_bytes ks

joined_lem : (x : Account) → joined (seeds x) ≡ tag (kind x) ++ key_bytes (keys x)
unfolding seeds
joined_lem (pool_account m) = refl
joined_lem (advance_account p a r) = refl
joined_lem (consumed_account p a r) = refl
joined_lem (ledger_account p a) = refl
joined_lem (tombstone_account p a r) = refl

length-key_bytes : (ks : List Pubkey) → length (key_bytes ks) ≡ 32 * length ks
length-key_bytes [] = omega arith
length-key_bytes (k ∷ ks) =
    omega
      (arith, length-append (as_ref k) (key_bytes ks), length-to_le_bytes 32 k, length-key_bytes ks)

-- Two parts of the same lengths.
append_injective :
    (a b : Bytes) {c d : Bytes} → length a ≡ length b → a ++ c ≡ b ++ d → (a ≡ b) × (c ≡ d)
append_injective [] [] h e = (refl, e)
append_injective [] (y ∷ b) h e = absurd (omega (arith, h))
append_injective (x ∷ a) [] h e = absurd (omega (arith, h))
append_injective (x ∷ a) (y ∷ b) {c} {d} h e =
    let tails : a ++ c ≡ b ++ d = cc in
    let heads : x ≡ y = cc in
    let (same, rest) = append_injective a b (omega (arith, h)) tails in (cc, rest)

key_bytes-injective :
    (ks js : List Pubkey) → AllFit ks → AllFit js → key_bytes ks ≡ key_bytes js → ks ≡ js
key_bytes-injective [] [] f g e = refl
key_bytes-injective [] (j ∷ js) f g e =
    absurd (omega (arith, ap length e, length-key_bytes (j ∷ js)))
key_bytes-injective (k ∷ ks) [] f g e =
    absurd (omega (arith, ap length e, length-key_bytes (k ∷ ks)))
key_bytes-injective (k ∷ ks) (j ∷ js) f g e =
    let (same, rest) =
      append_injective (as_ref k) (as_ref j)
        (length-to_le_bytes 32 k ∙ sym (length-to_le_bytes 32 j)) e in
    let first : k ≡ j =
      sym (from_le_bytes-to_le_bytes 32 k f.0)
      ∙ ap from_le_bytes same
      ∙ from_le_bytes-to_le_bytes 32 j g.0 in
    let others = key_bytes-injective ks js f.1 g.1 rest in cc

-- The lengths tell the tags apart.
tags_apart :
    (k j : Kind) (m n : ℕ) → length (tag k) + 32 * m ≡ length (tag j) + 32 * n → (k ≡ j) × (m ≡ n)
tags_apart k j m n e = ground arith

-- Kind and keys make the account.
abbrev rebuild : Kind → List Pubkey → Option Account
rebuild of_pool (m ∷ []) = some (pool_account m)
rebuild of_advance (p ∷ a ∷ r ∷ []) = some (advance_account p a r)
rebuild of_consumed (p ∷ a ∷ r ∷ []) = some (consumed_account p a r)
rebuild of_ledger (p ∷ a ∷ []) = some (ledger_account p a)
rebuild of_tombstone (p ∷ a ∷ r ∷ []) = some (tombstone_account p a r)
rebuild _ _ = none

rebuild_lem : (x : Account) → rebuild (kind x) (keys x) ≡ some x
rebuild_lem (pool_account m) = refl
rebuild_lem (advance_account p a r) = refl
rebuild_lem (consumed_account p a r) = refl
rebuild_lem (ledger_account p a) = refl
rebuild_lem (tombstone_account p a r) = refl

-- No two accounts of the escrow have the same seed bytes: if all keys in them have 32 bytes, accounts of
-- which the seeds run together give the same bytes are of one kind, with the same keys. So an advance, its
-- marker and its tombstone never share an address short of a collision of the hash, nor do those of
-- different pools, agents or receivables.
pub seeds_injective :
    (x y : Account)
    → AllFit (keys x)
    → AllFit (keys y)
    → joined (seeds x) ≡ joined (seeds y)
    → x ≡ y
seeds_injective x y f g e =
    let bytes : tag (kind x) ++ key_bytes (keys x) ≡ tag (kind y) ++ key_bytes (keys y) =
      sym (joined_lem x) ∙ e ∙ joined_lem y in
    let lengths : length (tag (kind x)) + 32 * length (keys x)
        ≡ length (tag (kind y)) + 32 * length (keys y) =
      omega (
        arith,
        ap length bytes,
        length-append (tag (kind x)) (key_bytes (keys x)),
        length-append (tag (kind y)) (key_bytes (keys y)),
        length-key_bytes (keys x),
        length-key_bytes (keys y),
      ) in
    let (same_kind, same_count) =
      tags_apart (kind x) (kind y) (length (keys x)) (length (keys y)) lengths in
    let same_tag : length (tag (kind x)) ≡ length (tag (kind y)) =
      ap (λ k. length (tag k)) same_kind in
    let rest = (append_injective (tag (kind x)) (tag (kind y)) same_tag bytes).1 in
    let same_keys = key_bytes-injective (keys x) (keys y) f g rest in
    ground (arith, rebuild_lem x, rebuild_lem y, same_kind, same_keys)
