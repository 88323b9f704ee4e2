-- ===== src/ChainIndexer/Jobs/Unmapped.antt =====
-- What the requests to egvm-indexer/main.go lead to, where the map of jobs is the nil map that the
-- program starts with.
use egvm.Prelude.{◌≡◌, true, Option, some, List, ◌∷◌, ℤ}
use egvm.Bytes.{Bytes}
use egvm.ChainIndexer.Jobs.{Query, is_address}

-- A request with the hex of 20 bytes as its first address, and a number as its first height.
pub record IsValid (atoi : Bytes → Option ℤ) (q : Query) : Type 0 where
  pub address : Bytes
  pub height : Bytes
  pub more_addresses : List Bytes
  pub more_heights : List Bytes
  pub number : ℤ
  pub addressed : q.addresses ≡ address ∷ more_addresses
  pub at_height : q.heights ≡ height ∷ more_heights
  pub decoded : is_address address ≡ true
  pub parsed : atoi height ≡ some number
