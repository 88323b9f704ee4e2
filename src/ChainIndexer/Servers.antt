-- ===== src/ChainIndexer/Servers.antt =====
-- egvm-indexer/tm.go: the copy of indexer/tm.go, function by function, in another package.
use egvm.Prelude.{ℕ, Option}
use egvm.Outcome.{Outcome}
use egvm.Bytes.{Bytes}
use egvm.Indexer.Servers.{RpcLib, commit_path, validators_path, block_path, by_number, ask_until}
use egvm.Prelude.{List}

module _ (lib : RpcLib) where
  -- getSignedHeaderByNumber, getValidatorsByNumber and getBlockByNumber of egvm-indexer/tm.go
  unfoldable pub ask_signed_header : ℕ → ℕ → Bytes → Outcome (Option lib.SignedHeader)
  unfolding by_number
  ask_signed_header height attempt url =
      by_number lib commit_path lib.unmarshal_commit attempt url height

  unfoldable pub ask_validators : ℕ → ℕ → Bytes → Outcome (Option lib.Validators)
  unfolding by_number
  ask_validators height attempt url =
      by_number lib validators_path lib.unmarshal_validators attempt url height

  unfoldable pub ask_block : ℕ → ℕ → Bytes → Outcome (Option lib.TmBlock)
  unfolding by_number
  ask_block height attempt url = by_number lib block_path lib.unmarshal_block attempt url height

  -- getSignedHeader, getValidators and getBlock of egvm-indexer/tm.go
  unfoldable pub signed_header_at : ℕ → ℕ → List Bytes → ℕ → Outcome (Option lib.SignedHeader)
  unfolding ask_until ask_signed_header
  signed_header_at fuel attempt addrs height =
      ask_until lib (ask_signed_header height) fuel attempt addrs

  unfoldable pub validators_at : ℕ → ℕ → List Bytes → ℕ → Outcome (Option lib.Validators)
  unfolding ask_until ask_validators
  validators_at fuel attempt addrs height = ask_until lib (ask_validators height) fuel attempt addrs

  unfoldable pub block_at : ℕ → ℕ → List Bytes → ℕ → Outcome (Option lib.TmBlock)
  unfolding ask_until ask_block
  block_at fuel attempt addrs height = ask_until lib (ask_block height) fuel attempt addrs
