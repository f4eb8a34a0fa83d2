-- ===== src/Tests/Registry.antt =====
-- The registry's instructions in the concrete transaction, in which governance 6 is written.
use credmesh_solana.Prelude.{ℕ, ◌≡◌, ◌≢◌, refl, some, none, ok, err}
use credmesh_solana.Prelude.Int.{pos}
use credmesh_solana.Runtime.{Outcome}
use credmesh_solana.Store.{find, put, remove, nat_eq}
use credmesh_solana.Shared.Bytes.{Pubkey}
use credmesh_solana.Shared.Layout.{as_u8, from_u8, credit_bridge}
use credmesh_solana.Shared.Introspection.{scan, writes_vault, require_squads_governance_cpi}
use credmesh_solana.Registry.{
  Registry, RegistryEvent, AttestorRegistryError, require_governance_cpi, add_allowed_signer,
  remove_allowed_signer, set_governance, default_pubkey, signer_removed,
}
use credmesh_solana.Registry.Governed.{
  UnderGovernance, add_allowed_signer-UnderGovernance, remove_allowed_signer-UnderGovernance,
  set_governance-UnderGovernance,
}
use credmesh_solana.Tests.Worlds.{registry}
use credmesh_solana.Tests.Messages.{sysvar}

-- What a call that succeeds returns.
abbrev registered :
    Outcome AttestorRegistryError (Registry × RegistryEvent) → Registry × RegistryEvent
registered (ok r) = r
registered (err e) = (registry, signer_removed 0)

abbrev after_add : Registry
after_add = (registered (add_allowed_signer sysvar (pos 500) 246 10 0 registry)).0

add_ok :
    add_allowed_signer sysvar (pos 500) 246 10 0 registry
    ≡ ok (registered (add_allowed_signer sysvar (pos 500) 246 10 0 registry))
unfolding add_allowed_signer require_governance_cpi require_squads_governance_cpi scan writes_vault
    from_u8 find put
add_ok = refl

abbrev after_remove : Registry
after_remove = (registered (remove_allowed_signer sysvar 9 registry)).0

remove_ok :
    remove_allowed_signer sysvar 9 registry
    ≡ ok (registered (remove_allowed_signer sysvar 9 registry))
unfolding remove_allowed_signer require_governance_cpi require_squads_governance_cpi scan
    writes_vault find remove
remove_ok = refl

abbrev after_set : Registry
after_set = (registered (set_governance sysvar 60 registry)).0

set_ok : set_governance sysvar 60 registry ≡ ok (registered (set_governance sysvar 60 registry))
unfolding set_governance require_governance_cpi require_squads_governance_cpi scan writes_vault
set_ok = refl

add_allowed_signer-UnderGovernance_example :
    UnderGovernance sysvar registry
    × (◌≡◌ {A = ℕ} 0 (as_u8 credit_bridge))
    × (find 10 (registry.allowed_signers) ≡ none)
    × (find 10 (after_add.allowed_signers)
        ≡ some (record { bump = 246; signer = 10; kind = 0; added_at = pos 500 }))
    × ((other : Pubkey)
        → other ≢ 10
        → find other (after_add.allowed_signers) ≡ find other (registry.allowed_signers))
    × (after_add.config ≡ registry.config)
add_allowed_signer-UnderGovernance_example =
    add_allowed_signer-UnderGovernance sysvar (pos 500) 246 10 0 registry add_ok

remove_allowed_signer-UnderGovernance_example :
    UnderGovernance sysvar registry
    × (find 9 (after_remove.allowed_signers) ≡ none)
    × ((other : Pubkey)
        → other ≢ 9
        → find other (after_remove.allowed_signers) ≡ find other (registry.allowed_signers))
    × (after_remove.config ≡ registry.config)
unfolding find
remove_allowed_signer-UnderGovernance_example =
    remove_allowed_signer-UnderGovernance sysvar 9 registry (refl, tt) remove_ok

set_governance-UnderGovernance_example :
    (u : UnderGovernance sysvar registry) × (60 ≢ default_pubkey)
    × (after_set.config ≡ some (record { bump = u.config.bump; governance = 60 }))
    × (after_set.allowed_signers ≡ registry.allowed_signers)
set_governance-UnderGovernance_example = set_governance-UnderGovernance sysvar 60 registry set_ok
