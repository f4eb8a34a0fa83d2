-- ===== src/Tests/Runs.antt =====
-- Runs and calls on the concrete world: the book, the machine types, and who may sign.
use credmesh_solana.Prelude.{◌≡◌, ◌≢◌, refl, arith, ok, err, some, []}
use credmesh_solana.Prelude.Int.{pos, -ℤ_parts}
use credmesh_solana.Runtime.{panicked}
use credmesh_solana.Store.{find, put, nat_eq, pair_eq}
use credmesh_solana.Shared.Bytes.{from_le_bytes, to_le_bytes}
use credmesh_solana.Shared.Layout.{from_u8}
use credmesh_solana.Shared.Introspection.{
  parse_offsets, verify_prev_ed25519, scan, writes_vault, require_squads_governance_cpi,
}
use credmesh_solana.Registry.{
  Registry, AllowedSigner, require_governance_cpi, add_allowed_signer, signer_added,
}
use credmesh_solana.Registry.Steps.{adds, Whitelist}
use credmesh_solana.Escrow.Attestation.{Attestation}
use credmesh_solana.Escrow.Attestation.Accepted.{Accepted}
use credmesh_solana.Escrow.Attestation.RoundTrip.{encode, decode-encode}
use credmesh_solana.Escrow.RequestAdvance.Priced.{IsPriceable}
use credmesh_solana.Escrow.World.{World}
use credmesh_solana.Escrow.Dispatch.{dispatch, call_request_advance}
use credmesh_solana.Escrow.Panics.Requests.{AgesFit}
use credmesh_solana.Escrow.Panics.Dispatched.{ExpiriesFit, dispatch-ne-panicked}
use credmesh_solana.Protocol.{Run, start, then_step, governs}
use credmesh_solana.Protocol.Book.{Entries}
use credmesh_solana.Protocol.Book.Refines.{book, run-Entries}
use credmesh_solana.Protocol.Ranges.{Typed, run-Typed}
use credmesh_solana.Protocol.Whitelisted.{WasAdded, request-WasAdded}
use credmesh_solana.Tests.Bank.{tokens}
use credmesh_solana.Tests.Worlds.{world, registry, request}
use credmesh_solana.Tests.Messages.{sysvar, nonce, message}
use credmesh_solana.Tests.Calls.{after_skims, requests_ok}
use credmesh_solana.Tests.Escrow.{message-IsTyped}
use credmesh_solana.Tests.Pricing.{curve-IsValidCurve, curve-IsU16Curve}
use credmesh_solana.Tests.Protocol.{run, world-Sound}

run-Entries_example : Entries (book tokens world) (book tokens after_skims)
run-Entries_example = run-Entries tokens run world-Sound

world-Typed : Typed tokens world
unfolding find
world-Typed = record {
  pool = record {
    assets_lt = omega arith;
    shares_lt = omega arith;
    deployed_lt = omega arith;
    fees_lt = omega arith;
  };
  advances = λ key a h. ground arith;
  ledgers = λ agent l h. ground arith;
}

run-Typed_example : Typed tokens after_skims
run-Typed_example = run-Typed tokens run world-Sound world-Typed

-- The signature of the transaction, and the age of its message.
signed_ok : verify_prev_ed25519 sysvar ≡ ok (9, encode message)
unfolding verify_prev_ed25519 parse_offsets from_le_bytes to_le_bytes encode
signed_ok = refl

ages : AgesFit sysvar (pos 90_000)
ages key msg m h k =
    let same : msg ≡ encode message = ground (arith, signed_ok, h) in
    let whole : m ≡ message = ground (arith, same, k, decode-encode message message-IsTyped) in
    rw whole (ground (arith, -ℤ_parts (pos 90_000) (pos 89_900)))

expiries : ExpiriesFit tokens world
unfolding find
expiries key a h = ground arith

pub priceable : IsPriceable world.pool
priceable = record {
  valid = curve-IsValidCurve;
  typed = curve-IsU16Curve;
  assets_fit = omega arith;
  covered = omega arith;
}

dispatch-ne-panicked_example :
    dispatch tokens sysvar (pos 90_000) (call_request_advance request 12 10_000_000 nonce) world
    ≢ err panicked
dispatch-ne-panicked_example =
    dispatch-ne-panicked tokens sysvar (pos 90_000)
      (call_request_advance request 12 10_000_000 nonce) world (omega arith) expiries priceable
      (omega arith) ages

-- The world before its bridge was added.
abbrev unsigned_registry : Registry
unsigned_registry = record registry { allowed_signers = [] }

abbrev unsigned_world : World tokens
unsigned_world = record world { registry = unsigned_registry }

added_ok :
    add_allowed_signer sysvar (pos 0) 251 9 0 unsigned_registry ≡ ok (registry, signer_added 9 0)
unfolding add_allowed_signer require_governance_cpi require_squads_governance_cpi scan writes_vault
    from_u8 find put
added_ok = refl

unsigned-Whitelist : Whitelist unsigned_registry
unfolding find
unsigned-Whitelist = record {
  one_each = tt;
  own_seeds = λ k a h. ground (arith, h);
  governed = λ c h. ground (arith, h);
}

abbrev registry_run : Run tokens unsigned_world world
registry_run =
    then_step start
      (governs registry (adds sysvar (pos 0) 251 9 0 (signer_added 9 0) added_ok) refl)

request-WasAdded_example :
    (allowed : AllowedSigner) × (m : Attestation) × (find 9 (world.registry.allowed_signers)
      ≡ some allowed)
    × Accepted sysvar (pos 90_000) allowed 7 1 2 nonce 9 m
    × WasAdded tokens 9 registry_run
unfolding find
request-WasAdded_example =
    request-WasAdded tokens registry_run unsigned-Whitelist (λ k. refl) sysvar (pos 90_000) request
      12 10_000_000 nonce requests_ok
