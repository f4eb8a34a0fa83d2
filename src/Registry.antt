-- ===== src/Registry.antt =====
-- programs/credmesh-attestor-registry: the whitelist of bridge signers. `allowed_signers` holds the
-- accounts at the seeds [ALLOWED_SIGNER_SEED, signer], `config` the one at [ATTESTOR_CONFIG_SEED].
pub mod Governed
pub mod Steps
use credmesh_solana.Prelude.{
  ℕ, Bool, true, false, not, Option, none, some, ◌==◌, ok, require, ◌>>=◌, ◌>>◌,
}
use credmesh_solana.Prelude.Int.{ℤ}
use credmesh_solana.Runtime.{Outcome, custom, constraint, or_constraint, map_failure, is_free}
use credmesh_solana.Store.{Store, find, put, remove, nat_eq}
use credmesh_solana.Shared.Bytes.{Pubkey}
use credmesh_solana.Shared.Layout.{from_u8}
use credmesh_solana.Shared.Instructions.{Sysvar}
use credmesh_solana.Shared.Introspection.{require_squads_governance_cpi}

pub data AttestorRegistryError : Type 0 where
  governance_required invalid_kind : AttestorRegistryError

pub record AttestorConfig : Type 0 where
  pub bump : ℕ
  pub governance : Pubkey

pub record AllowedSigner : Type 0 where
  pub bump : ℕ
  pub signer : Pubkey
  pub kind : ℕ
  pub added_at : ℤ

pub record Registry : Type 0 where
  pub config : Option AttestorConfig
  pub allowed_signers : Store Pubkey AllowedSigner

pub data RegistryEvent : Type 0 where
  registry_initialized : (governance : Pubkey) → RegistryEvent
  signer_added : (signer : Pubkey) (kind : ℕ) → RegistryEvent
  signer_removed : (signer : Pubkey) → RegistryEvent
  governance_updated : (old_governance new_governance : Pubkey) → RegistryEvent

abbrev pub RegistryOutcome : Type 0
RegistryOutcome = Outcome AttestorRegistryError (Registry × RegistryEvent)

-- `Pubkey::default()`, 32 zero bytes.
abbrev pub default_pubkey : Pubkey
default_pubkey = 0

unfoldable pub require_governance_cpi : Sysvar → Pubkey → Outcome AttestorRegistryError (Unit {0})
require_governance_cpi sysvar vault =
    map_failure (λ e. governance_required) (require_squads_governance_cpi sysvar vault)

-- `AttestorKind::from_u8(kind).is_some()`
abbrev pub is_kind : ℕ → Bool
is_kind kind = elim (from_u8 kind) [ none ↦ false | some k ↦ true ]

unfoldable pub init_registry : (bump : ℕ) (governance : Pubkey) → Registry → RegistryOutcome
init_registry bump governance r = do
  require (is_free r.config) constraint
  require (not (governance == default_pubkey)) (custom governance_required)
  ok (
    record r { config = some (record { bump = bump; governance = governance }) },
    registry_initialized governance,
  )

unfoldable pub add_allowed_signer :
    (sysvar : Sysvar) (now : ℤ) (bump : ℕ) (signer : Pubkey) (kind : ℕ) → Registry → RegistryOutcome
add_allowed_signer sysvar now bump signer kind r = do
  config ← or_constraint r.config
  require (is_free (find signer r.allowed_signers)) constraint
  require_governance_cpi sysvar config.governance
  require (is_kind kind) (custom invalid_kind)
  let allowed : AllowedSigner = record { bump = bump; signer = signer; kind = kind; added_at = now }
  ok (record r { allowed_signers = put signer allowed r.allowed_signers }, signer_added signer kind)

-- The account at the seeds of `address` is closed after the handler (`close = rent_refund`).
unfoldable pub remove_allowed_signer :
    (sysvar : Sysvar) (address : Pubkey) → Registry → RegistryOutcome
remove_allowed_signer sysvar address r = do
  config ← or_constraint r.config
  allowed ← or_constraint (find address r.allowed_signers)
  require (allowed.signer == address) constraint
  require_governance_cpi sysvar config.governance
  ok (
    record r { allowed_signers = remove address r.allowed_signers },
    signer_removed allowed.signer,
  )

unfoldable pub set_governance :
    (sysvar : Sysvar) (new_governance : Pubkey) → Registry → RegistryOutcome
set_governance sysvar new_governance r = do
  config ← or_constraint r.config
  require_governance_cpi sysvar config.governance
  require (not (new_governance == default_pubkey)) (custom governance_required)
  ok (
    record r { config = some (record config { governance = new_governance }) },
    governance_updated config.governance new_governance,
  )
