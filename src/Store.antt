-- ===== src/Store.antt =====
-- Program accounts by the seeds of their addresses, as an association list. A program-derived address
-- is a hash of its seeds that the framework computes; an account is looked up by the seeds.
mod Laws
mod Quantified
pub use Quantified.{Every, put-Every, remove-Every}
pub use Laws.{
  IsMap, find-put, find-remove_self, find-remove_ne, put-IsMap, remove-IsMap, sum, sum-put_new,
  sum-remove,
}
mod Defs
pub use Defs.{Eq, key_eq, nat_eq, pair_eq, Store}
unfoldable pub use Defs.{find, put, remove}
