-- ===== src/Registry/Governed.antt =====
-- The registry changes only under governance.
use credmesh_solana.Prelude.{
  ℕ, ◌≡◌, ◌≢◌, some, none, arith, ok, inl, inr, Option-cases, Result-cases, ==_iff,
}
use credmesh_solana.Prelude.Int.{ℤ}
use credmesh_solana.Store.{find, nat_eq, IsMap, find-put, find-remove_self, find-remove_ne}
use credmesh_solana.Shared.Bytes.{Pubkey}
use credmesh_solana.Shared.Layout.{as_u8, from_u8, credit_bridge}
use credmesh_solana.Shared.Instructions.{Sysvar}
use credmesh_solana.Shared.Introspection.{require_squads_governance_cpi, max_ix_scan}
use credmesh_solana.Shared.Introspection.Scan.{
  Finds, IsGovernanceOf, require_squads_governance_cpi_iff,
}
use credmesh_solana.Registry.{
  AttestorConfig, AllowedSigner, Registry, RegistryEvent, require_governance_cpi,
  add_allowed_signer, remove_allowed_signer, set_governance, default_pubkey,
}

-- A Squads instruction of the transaction writes the registry's governance vault.
pub record UnderGovernance (sysvar : Sysvar) (r : Registry) : Type 0 where
  pub config : AttestorConfig
  pub found : r.config ≡ some config
  pub governed : Finds (IsGovernanceOf config.governance) sysvar max_ix_scan 0

squads_of :
    (sysvar : Sysvar) (vault : Pubkey)
    → require_governance_cpi sysvar vault ≡ ok tt
    → Finds (IsGovernanceOf vault) sysvar max_ix_scan 0
unfolding require_governance_cpi
squads_of sysvar vault h =
    (require_squads_governance_cpi_iff sysvar vault).0
      (elim (Result-cases (require_squads_governance_cpi sysvar vault)) [
        | inl (e, f) ↦ ground arith
        | inr (u, f) ↦ f
      ])

-- A signer is added only under governance, only where there is none yet, and only as a credit
-- bridge; the other signers and the configuration stay.
pub add_allowed_signer-UnderGovernance :
    (sysvar : Sysvar) (now : ℤ) (bump : ℕ) (signer : Pubkey) (kind : ℕ) (r : Registry)
    {r' : Registry} {e : RegistryEvent}
    → add_allowed_signer sysvar now bump signer kind r ≡ ok (r', e)
    → UnderGovernance sysvar r
      × (kind ≡ as_u8 credit_bridge)
      × (find signer r.allowed_signers ≡ none)
      × (find signer r'.allowed_signers
          ≡ some (record { bump = bump; signer = signer; kind = kind; added_at = now }))
      × ((other : Pubkey)
          → other ≢ signer
          → find other r'.allowed_signers ≡ find other r.allowed_signers)
      × (r'.config ≡ r.config)
unfolding add_allowed_signer as_u8 from_u8
add_allowed_signer-UnderGovernance sysvar now bump signer kind r {r'} {e} h =
    elim (Option-cases r.config) [
      | inl n ↦ ground arith
      | inr (config, ec) ↦
          let allowed : AllowedSigner = record {
            bump = bump;
            signer = signer;
            kind = kind;
            added_at = now;
          } in
          let written = λ (k : ℕ). find-put k signer allowed r.allowed_signers in
          (
            record {
              config = config;
              found = ec;
              governed = squads_of sysvar config.governance (ground arith);
            },
            ground arith,
            ground arith,
            ground (arith, ==_iff signer signer, written signer),
            λ other ne. ground (arith, ==_iff other signer, written other, ne),
            ground arith,
          )
    ]

-- A signer is removed only under governance, and is gone afterwards; the others and the
-- configuration stay.
pub remove_allowed_signer-UnderGovernance :
    (sysvar : Sysvar) (address : Pubkey) (r : Registry) {r' : Registry} {e : RegistryEvent}
    → IsMap r.allowed_signers
    → remove_allowed_signer sysvar address r ≡ ok (r', e)
    → UnderGovernance sysvar r
      × (find address r'.allowed_signers ≡ none)
      × ((other : Pubkey)
          → other ≢ address
          → find other r'.allowed_signers ≡ find other r.allowed_signers)
      × (r'.config ≡ r.config)
unfolding remove_allowed_signer
remove_allowed_signer-UnderGovernance sysvar address r {r'} {e} one h =
    elim (Option-cases r.config) [
      | inl n ↦ ground arith
      | inr (config, ec) ↦ elim (Option-cases (find address r.allowed_signers)) [
        | inl n ↦ ground arith
        | inr (allowed, ea) ↦ (
          record {
            config = config;
            found = ec;
            governed = squads_of sysvar config.governance (ground arith);
          },
          ground (arith, find-remove_self address r.allowed_signers one),
          λ other ne. ground (arith, find-remove_ne other address r.allowed_signers ne),
          ground arith,
        )
      ]
    ]

-- Governance changes only under the governance before, and never to the default key; the signers
-- stay.
pub set_governance-UnderGovernance :
    (sysvar : Sysvar) (new_governance : Pubkey) (r : Registry) {r' : Registry} {e : RegistryEvent}
    → set_governance sysvar new_governance r ≡ ok (r', e)
    → (u : UnderGovernance sysvar r) × (new_governance ≢ default_pubkey)
      × (r'.config ≡ some (record { bump = u.config.bump; governance = new_governance }))
      × (r'.allowed_signers ≡ r.allowed_signers)
unfolding set_governance
set_governance-UnderGovernance sysvar new_governance r {r'} {e} h = elim (Option-cases r.config) [
  | inl n ↦ ground arith
  | inr (config, ec) ↦ (
    record {
      config = config;
      found = ec;
      governed = squads_of sysvar config.governance (ground arith);
    },
    ground arith,
    ground arith,
    ground arith,
  )
]
