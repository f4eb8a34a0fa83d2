-- ===== src/Registry/Steps.antt =====
-- The registry's instructions as steps, and what every run of them keeps.
use credmesh_solana.Prelude.{
  ℕ, ◌≡◌, ◌≢◌, ap, sym, ◌∙◌, some, none, arith, ok, inl, inr, Option-cases, ==_iff, ◌==◌,
  Bool-cases,
}
use credmesh_solana.Prelude.Int.{ℤ}
use credmesh_solana.Store.{find, put, remove, nat_eq, IsMap, put-IsMap, remove-IsMap}
use credmesh_solana.Shared.Bytes.{Pubkey}
use credmesh_solana.Shared.Layout.{as_u8, credit_bridge}
use credmesh_solana.Shared.Instructions.{Sysvar}
use credmesh_solana.Registry.{
  AttestorConfig, AllowedSigner, Registry, RegistryEvent, init_registry, add_allowed_signer,
  remove_allowed_signer, set_governance, default_pubkey,
}
use credmesh_solana.Registry.Governed.{
  UnderGovernance, add_allowed_signer-UnderGovernance, remove_allowed_signer-UnderGovernance,
  set_governance-UnderGovernance,
}

pub data RegistryStep (r r' : Registry) : Type 0 where
  initializes :
      (bump : ℕ) (governance : Pubkey) (e : RegistryEvent)
      → init_registry bump governance r ≡ ok (r', e)
      → RegistryStep r r'
  adds :
      (sysvar : Sysvar) (now : ℤ) (bump : ℕ) (signer : Pubkey) (kind : ℕ) (e : RegistryEvent)
      → add_allowed_signer sysvar now bump signer kind r ≡ ok (r', e)
      → RegistryStep r r'
  removes :
      (sysvar : Sysvar) (address : Pubkey) (e : RegistryEvent)
      → remove_allowed_signer sysvar address r ≡ ok (r', e)
      → RegistryStep r r'
  hands_over :
      (sysvar : Sysvar) (new_governance : Pubkey) (e : RegistryEvent)
      → set_governance sysvar new_governance r ≡ ok (r', e)
      → RegistryStep r r'

-- Every signer stands once, at the seeds of its own key, as a credit bridge, and governance is a key.
pub record Whitelist (r : Registry) : Type 0 where
  pub one_each : IsMap r.allowed_signers
  pub own_seeds :
      (k : Pubkey) (a : AllowedSigner)
      → find k r.allowed_signers ≡ some a
      → (a.signer ≡ k) × (a.kind ≡ as_u8 credit_bridge)
  pub governed : (c : AttestorConfig) → r.config ≡ some c → c.governance ≢ default_pubkey

init_registry_lem :
    (bump : ℕ) (governance : Pubkey) (r : Registry) {r' : Registry} {e : RegistryEvent}
    → init_registry bump governance r ≡ ok (r', e)
    → (governance ≢ default_pubkey)
      × (r' ≡ record r { config = some (record { bump = bump; governance = governance }) })
unfolding init_registry
init_registry_lem bump governance r {r'} {e} h = ground arith

-- The list of signers after an addition and after a removal.
added_signers :
    (sysvar : Sysvar) (now : ℤ) (bump : ℕ) (signer : Pubkey) (kind : ℕ) (r : Registry)
    {r' : Registry} {e : RegistryEvent}
    → add_allowed_signer sysvar now bump signer kind r ≡ ok (r', e)
    → r'.allowed_signers
      ≡ put signer
          (record { bump = bump; signer = signer; kind = kind; added_at = now })
          r.allowed_signers
unfolding add_allowed_signer
added_signers sysvar now bump signer kind r {r'} {e} h = elim (Option-cases r.config) [
  | inl n ↦ ground arith
  | inr (config, ec) ↦ ground arith
]

removed_signers :
    (sysvar : Sysvar) (address : Pubkey) (r : Registry) {r' : Registry} {e : RegistryEvent}
    → remove_allowed_signer sysvar address r ≡ ok (r', e)
    → r'.allowed_signers ≡ remove address r.allowed_signers
unfolding remove_allowed_signer
removed_signers sysvar address r {r'} {e} h = elim (Option-cases r.config) [
  | inl n ↦ ground arith
  | inr (config, ec) ↦ elim (Option-cases (find address r.allowed_signers)) [
    | inl n ↦ ground arith
    | inr (allowed, ea) ↦ ground arith
  ]
]

-- Each instruction of the registry keeps the whitelist.
pub step-Whitelist : {r r' : Registry} → RegistryStep r r' → Whitelist r → Whitelist r'
step-Whitelist {r} {r'} (initializes bump governance e h) v =
    let (key, after) = init_registry_lem bump governance r h in
    rw after (record {
      one_each = v.one_each;
      own_seeds = v.own_seeds;
      governed = λ c found. ground (arith, found, key);
    })
step-Whitelist {r} {r'} (adds sysvar now bump signer kind e h) v =
    let (under, credit, free, written, kept, config) =
      add_allowed_signer-UnderGovernance sysvar now bump signer kind r h in
    record {
      one_each =
          rw (added_signers sysvar now bump signer kind r h)
            (put-IsMap signer _ r.allowed_signers v.one_each);
      own_seeds = λ k a found. elim (Bool-cases (k == signer)) [
        | inl eq ↦ ground (arith, ==_iff k signer, eq, found, written, credit)
        | inr ne ↦
            v.own_seeds k a (sym (kept k (λ e. ground (arith, ==_iff k signer, e, ne))) ∙ found)
      ];
      governed = λ c found. v.governed c (sym config ∙ found);
    }
step-Whitelist {r} {r'} (removes sysvar address e h) v =
    let (under, gone, kept, config) =
      remove_allowed_signer-UnderGovernance sysvar address r v.one_each h in
    record {
      one_each =
          rw (removed_signers sysvar address r h)
            (remove-IsMap address r.allowed_signers v.one_each);
      own_seeds = λ k a found. elim (Bool-cases (k == address)) [
        | inl eq ↦ ground (arith, ==_iff k address, eq, found, gone)
        | inr ne ↦
            v.own_seeds k a (sym (kept k (λ e. ground (arith, ==_iff k address, e, ne))) ∙ found)
      ];
      governed = λ c found. v.governed c (sym config ∙ found);
    }
step-Whitelist {r} {r'} (hands_over sysvar new_governance e h) v =
    let (under, key, config, signers) = set_governance-UnderGovernance sysvar new_governance r h in
    record {
      one_each = rw signers v.one_each;
      own_seeds = λ k a found. v.own_seeds k a (rw (sym signers) found);
      governed = λ c found. ground (arith, found, config, key);
    }

-- The step adds the key, in a transaction that passes the check of the governance before it.
abbrev pub AddedBy : Pubkey → {r r' : Registry} → RegistryStep r r' → Type 0
AddedBy k {r} (adds sysvar now bump signer kind e h) = (signer ≡ k) × UnderGovernance sysvar r
AddedBy k _ = ⊥

-- A signer that a step brings is added by it.
pub step-AddedBy :
    {r r' : Registry} (k : Pubkey) (a : AllowedSigner) (s : RegistryStep r r')
    → Whitelist r
    → find k r.allowed_signers ≡ none
    → find k r'.allowed_signers ≡ some a
    → AddedBy k s
step-AddedBy {r} {r'} k a (initializes bump governance e h) v free found =
    let (key, after) = init_registry_lem bump governance r h in
    absurd (ground (arith, free, found, ap (λ x. x.allowed_signers) after))
step-AddedBy {r} {r'} k a (adds sysvar now bump signer kind e h) v free found =
    let (under, credit, none_there, written, kept, config) =
      add_allowed_signer-UnderGovernance sysvar now bump signer kind r h in
    elim (Bool-cases (k == signer)) [
      | inl eq ↦ (ground (arith, ==_iff k signer, eq), under)
      | inr ne ↦
          absurd (ground (arith, free, found, kept k (λ e. ground (arith, ==_iff k signer, e, ne))))
    ]
step-AddedBy {r} {r'} k a (removes sysvar address e h) v free found =
    let (under, gone, kept, config) =
      remove_allowed_signer-UnderGovernance sysvar address r v.one_each h in
    elim (Bool-cases (k == address)) [
      | inl eq ↦ absurd (ground (arith, ==_iff k address, eq, found, gone))
      | inr ne ↦
          absurd
            (ground (arith, free, found, kept k (λ e. ground (arith, ==_iff k address, e, ne))))
    ]
step-AddedBy {r} {r'} k a (hands_over sysvar new_governance e h) v free found =
    let (under, key, config, signers) = set_governance-UnderGovernance sysvar new_governance r h in
    absurd (ground (arith, free, found, signers))
