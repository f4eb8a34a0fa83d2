-- ===== src/Escrow/Panics/Requests.antt =====
-- The plain operators of a request: the age of the signed message, the slices of its fields, and the
-- sums of the fee curve.
use credmesh_solana.Prelude.{
  ℕ, ◌+◌, ◌≤◌, ◌<◌, ◌≡◌, ◌≢◌, refl, some, arith, ok, err, take, drop, inl, inr, length,
  Result-cases,
}
use credmesh_solana.Prelude.Int.{ℤ, ◌≤ℤ◌, ◌-ℤ◌, -ℤ_parts}
use credmesh_solana.Machine.{i64_max, u64_mod}
use credmesh_solana.Runtime.{panicked}
use credmesh_solana.Store.{nat_eq, pair_eq}
use credmesh_solana.Token.{TokenProgram}
use credmesh_solana.Shared.Bytes.{Pubkey, Bytes, from_le_bytes, as_i64, index_range}
use credmesh_solana.Shared.Layout.{
  total_len, agent_offset, pool_offset, credit_limit_offset, outstanding_offset, expires_at_offset,
  attested_at_offset, nonce_offset, nonce_len, chain_id_offset, version_offset,
}
use credmesh_solana.Shared.Instructions.{Sysvar}
use credmesh_solana.Shared.Introspection.{verify_prev_ed25519}
use credmesh_solana.Shared.Introspection.Ed25519.{verify_prev_ed25519-ne-panicked}
use credmesh_solana.Registry.{AllowedSigner}
use credmesh_solana.Escrow.Attestation.{
  Attestation, pubkey_at, u64_le, i64_le, decode, is_fresh, verify_attestation,
}
use credmesh_solana.Escrow.World.{World}
use credmesh_solana.Escrow.RequestAdvance.{
  RequestAdvance, Loaded, charge_window, underwrite, request_accounts, request_handler,
  request_advance,
}
use credmesh_solana.Escrow.RequestAdvance.Priced.{IsPriceable, price_advance-exact}
use credmesh_solana.Escrow.Panics.{>>=-ne-panicked}

-- A slice inside the message, and the fields at it.
inside :
    (msg : Bytes) (start n : ℕ)
    → start + n ≤ length msg
    → (bytes : Bytes) × (index_range msg start (start + n) ≡ some bytes)
inside msg start n h = (take n (drop start msg), ground arith)

pubkey_at-inside :
    (msg : Bytes) (o : ℕ) → o + 32 ≤ length msg → (x : Pubkey) × (pubkey_at msg o ≡ ok x)
unfolding pubkey_at
pubkey_at-inside msg o h = let (bytes, e) = inside msg o 32 h in (from_le_bytes bytes, rw e refl)

u64_le-inside : (msg : Bytes) (o : ℕ) → o + 8 ≤ length msg → (x : ℕ) × (u64_le msg o ≡ ok x)
unfolding u64_le
u64_le-inside msg o h = let (bytes, e) = inside msg o 8 h in (from_le_bytes bytes, rw e refl)

i64_le-inside : (msg : Bytes) (o : ℕ) → o + 8 ≤ length msg → (x : ℤ) × (i64_le msg o ≡ ok x)
unfolding i64_le
i64_le-inside msg o h =
    let (bytes, e) = inside msg o 8 h in (as_i64 (from_le_bytes bytes), rw e refl)

-- A message of the right length has all its fields.
decode-ne-panicked : (msg : Bytes) → length msg ≡ total_len → decode msg ≢ err panicked
unfolding decode
decode-ne-panicked msg h =
    let long : (n : ℕ) → n ≤ total_len → n ≤ length msg = λ n le. omega (arith, h, le) in
    let agent = (pubkey_at-inside msg agent_offset (omega (arith, h))).1 in
    let pool = (pubkey_at-inside msg pool_offset (omega (arith, h))).1 in
    let limit = (u64_le-inside msg credit_limit_offset (omega (arith, h))).1 in
    let outstanding = (u64_le-inside msg outstanding_offset (omega (arith, h))).1 in
    let expires = (i64_le-inside msg expires_at_offset (omega (arith, h))).1 in
    let attested = (i64_le-inside msg attested_at_offset (omega (arith, h))).1 in
    let nonce = (inside msg nonce_offset nonce_len (omega (arith, h))).1 in
    let chain = (u64_le-inside msg chain_id_offset (omega (arith, h))).1 in
    let of_version = (u64_le-inside msg version_offset (omega (arith, h))).1 in
    rw (agent, pool, limit, outstanding, expires, attested, nonce, chain, of_version) (λ e. cc)

-- The age of every message that the transaction has signed can be computed.
abbrev pub AgesFit : Sysvar → ℤ → Type 0
AgesFit sysvar now =
    (key : Pubkey) (msg : Bytes) (m : Attestation)
    → verify_prev_ed25519 sysvar ≡ ok (key, msg)
    → decode msg ≡ ok m
    → now -ℤ m.attested_at ≤ℤ i64_max

is_fresh-ne-panicked : (now at : ℤ) → now -ℤ at ≤ℤ i64_max → is_fresh now at ≢ err panicked
unfolding is_fresh
is_fresh-ne-panicked now at h = ground (arith, -ℤ_parts now at)

verify_attestation-ne-panicked :
    (sysvar : Sysvar) (now : ℤ) (allowed : AllowedSigner) (agent pool_key : Pubkey) (chain_id : ℕ)
    (nonce : Bytes)
    → AgesFit sysvar now
    → verify_attestation sysvar now allowed agent pool_key chain_id nonce ≢ err panicked
unfolding verify_attestation
verify_attestation-ne-panicked sysvar now allowed agent pool_key chain_id nonce fits =
    let signed = verify_prev_ed25519-ne-panicked sysvar in
    elim (Result-cases (verify_prev_ed25519 sysvar)) [
      | inl (e, f) ↦ ground (arith, signed)
      | inr ((k, message), f) ↦
          let fields = decode-ne-panicked message in
          elim (Result-cases (decode message)) [
            | inl (e, g) ↦ ground (arith, fields)
            | inr (m, g) ↦
                let age = is_fresh-ne-panicked now m.attested_at (fits k message m f g) in
                ground (arith, age)
          ]
    ]

module _ (t : TokenProgram) where
  request_accounts-ne-panicked :
      (ctx : RequestAdvance) (receivable_id : ℕ) (w : World t)
      → request_accounts t ctx receivable_id w ≢ err panicked
  unfolding request_accounts
  request_accounts-ne-panicked ctx receivable_id w = ground arith

  request_handler-ne-panicked :
      (sysvar : Sysvar) (now : ℤ) (ctx : RequestAdvance) (s : Loaded t) (receivable_id amount : ℕ)
      (nonce : Bytes) (w : World t)
      → AgesFit sysvar now
      → IsPriceable w.pool
      → amount < u64_mod
      → request_handler t sysvar now ctx s receivable_id amount nonce w ≢ err panicked
  unfolding request_handler charge_window underwrite
  request_handler-ne-panicked sysvar now ctx s receivable_id amount nonce w fits priced small =
      let checks =
        verify_attestation-ne-panicked sysvar now s.allowed ctx.agent w.pool_key w.pool.chain_id
          nonce fits in
      elim (Result-cases
        (verify_attestation sysvar now s.allowed ctx.agent w.pool_key w.pool.chain_id nonce)) [
          | inl (e, f) ↦ ground (arith, checks)
          | inr ((key, m), f) ↦
              let price = (price_advance-exact now amount m w.pool priced small).0 in
              ground (arith, price)
        ]

  pub request_advance-ne-panicked :
      (sysvar : Sysvar) (now : ℤ) (ctx : RequestAdvance) (receivable_id amount : ℕ) (nonce : Bytes)
      (w : World t)
      → AgesFit sysvar now
      → IsPriceable w.pool
      → amount < u64_mod
      → request_advance t sysvar now ctx receivable_id amount nonce w ≢ err panicked
  unfolding request_advance
  request_advance-ne-panicked sysvar now ctx receivable_id amount nonce w fits priced small =
      >>=-ne-panicked (request_accounts t ctx receivable_id w)
        (λ s. request_handler t sysvar now ctx s receivable_id amount nonce w)
        (request_accounts-ne-panicked ctx receivable_id w)
        (λ s loads.
          request_handler-ne-panicked sysvar now ctx s receivable_id amount nonce w fits priced
            small)
