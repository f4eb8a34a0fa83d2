-- ===== src/Protocol/Genesis.antt =====
-- A pool from `init_pool` on: the invariants hold at its start, and so along every run.
use credmesh_solana.Prelude.{◌+◌, ◌≡◌, ◌≢◌, refl, none, some, arith, ok, []}
use credmesh_solana.Store.{find, nat_eq, pair_eq}
use credmesh_solana.Token.{TokenProgram, IsTokenProgram, balance, owner}
use credmesh_solana.Registry.{Registry}
use credmesh_solana.Escrow.State.{Pool, IsValidCurve, validate_iff}
use credmesh_solana.Escrow.Events.{Event}
use credmesh_solana.Escrow.World.{World}
use credmesh_solana.Escrow.InitPool.{InitPool, InitPoolParams, init_pool}
use credmesh_solana.Protocol.{Run}
use credmesh_solana.Protocol.Vault.{Custody, vault_balance}
use credmesh_solana.Protocol.Solvency.{run-Balanced, total_skimmed, total_received}
use credmesh_solana.Protocol.Advances.{Sound}
use credmesh_solana.Protocol.Timelock.{ValidCurves}

-- What `init_pool` makes of its parameters.
pub record Fresh (ctx : InitPool) (params : InitPoolParams) (pool : Pool) : Type 0 where
  pub valid : IsValidCurve params.fee_curve
  pub curve : pool.fee_curve ≡ params.fee_curve
  pub vault : pool.usdc_vault ≡ ctx.usdc_vault
  pub treasury : pool.treasury_ata ≡ params.treasury_ata
  pub no_assets : pool.total_assets ≡ 0
  pub no_shares : pool.total_shares ≡ 0
  pub none_deployed : pool.deployed_amount ≡ 0
  pub none_pending : pool.pending_params ≡ none

init_pool-Fresh :
    (ctx : InitPool) (params : InitPoolParams) {pool : Pool} {e : Event}
    → init_pool ctx params none ≡ ok (pool, e)
    → Fresh ctx params pool
unfolding init_pool
init_pool-Fresh ctx params {pool} {e} h = record {
  valid = (validate_iff params.fee_curve).0 (ground arith);
  curve = ground arith;
  vault = ground arith;
  treasury = ground arith;
  no_assets = ground arith;
  no_shares = ground arith;
  none_deployed = ground arith;
  none_pending = ground arith;
}

module _ (t : TokenProgram) where
  -- The accounts after the pool was made: no advance, marker, tombstone or ledger yet.
  abbrev pub genesis : InitPool → Pool → Registry → t.Bank → World t
  genesis ctx pool registry bank = record {
    pool_key = ctx.pool_key;
    pool = pool;
    advances = [];
    consumed = [];
    tombstones = [];
    ledgers = [];
    registry = registry;
    bank = bank;
  }

  -- A pool that `init_pool` has made starts with sound advances and valid curves, and with no proposal
  -- in wait.
  pub init_pool-Sound :
      (ctx : InitPool) (params : InitPoolParams) (registry : Registry) (bank : t.Bank) {pool : Pool}
      {e : Event}
      → init_pool ctx params none ≡ ok (pool, e)
      → Sound t (genesis ctx pool registry bank)
        × ValidCurves t (genesis ctx pool registry bank)
        × (pool.pending_params ≡ none)
  unfolding find
  init_pool-Sound ctx params registry bank {pool} {e} h =
      let f = init_pool-Fresh ctx params h in
      (
        record {
          one_each = tt;
          deployed = f.none_deployed;
          live = λ agent. refl;
          marked = λ key m. ground (arith, m);
        },
        record {
          in_force = rw (f.curve) f.valid;
          in_wait = λ p w. ground (arith, w, f.none_pending);
        },
        f.none_pending,
      )

  -- Along any run of a new pool, whose vault is empty and its own and whose treasury is another
  -- account, the vault and the deployed principal make up exactly the assets on the books and what
  -- others have sent to the vault, less what was skimmed as protocol fees.
  pub run-accounts :
      (laws : IsTokenProgram t) (ctx : InitPool) (params : InitPoolParams) (registry : Registry)
      (bank : t.Bank) {pool : Pool} {e : Event} {w : World t}
      → init_pool ctx params none ≡ ok (pool, e)
      → owner t bank ctx.usdc_vault ≡ some ctx.pool_key
      → balance t bank ctx.usdc_vault ≡ 0
      → params.treasury_ata ≢ ctx.usdc_vault
      → (r : Run t (genesis ctx pool registry bank) w)
      → vault_balance t w + w.pool.deployed_amount + total_skimmed t r
        ≡ w.pool.total_assets + total_received t r
  run-accounts laws ctx params registry bank {pool} {e} {w} h owned empty apart r =
      let f = init_pool-Fresh ctx params h in
      let custody : Custody t (genesis ctx pool registry bank) = record {
        vault_owned = rw (f.vault) owned;
        treasury_apart = rw (f.treasury, f.vault) apart;
      } in
      let books = (run-Balanced t laws r custody).books in
      let start : balance t bank pool.usdc_vault ≡ 0 = rw (f.vault) empty in
      omega (arith, books, start, f.no_assets, f.none_deployed)
