-- ===== src/ChainIndexer/Blocks.antt =====
-- egvm-indexer/indexer.go: the loop that fetches, checks and stores the blocks.
pub mod Trust
use egvm.Indexer.DataFetcher.{trusting_period, max_clock_drift}
use egvm.Prelude.{ℕ, ◌+◌, Bool, not, List, [], ◌∷◌, ◌==◌, if◌then◌else◌, pos}
use egvm.Outcome.{Outcome, ok, ◌>>=◌}
use egvm.Bytes.{Bytes, equal_bytes}
use egvm.Indexer.DataFetcher.{ChainLib, Answers, rotate_list}
use egvm.ChainIndexer.{Db, StoreLib, store_txs_by_height, store_latest_trusted_header}

-- What the loop keeps of an Indexer.
pub record Indexer (chain : ChainLib) : Type 0 where
  pub chain_id : Bytes
  pub smart_bch_addr_list : List Bytes
  pub latest_trusted_header : chain.SignedHeader
  pub db : Db

-- rotateList of egvm-indexer/indexer.go, which is a copy of the one in indexer/datafetcher.go
unfoldable pub rotate_smart_bch_addr_list : List Bytes → Outcome (List Bytes)
unfolding rotate_list
rotate_smart_bch_addr_list smartbch_addrs = rotate_list smartbch_addrs

module _ (chain : ChainLib) (lib : StoreLib chain) where
  -- The branch that rotates the servers and continues.
  unfoldable pub rotate : Indexer chain → Outcome (Indexer chain)
  unfolding rotate_smart_bch_addr_list
  rotate i = do
    addrs ← rotate_smart_bch_addr_list i.smart_bch_addr_list
    ok (record i { smart_bch_addr_list = addrs })

  -- The end of a round: the transactions are stored, and the header is trusted and stored.
  unfoldable pub accept :
      Indexer chain → ℕ → chain.SignedHeader → chain.TmBlock → Outcome (Indexer chain)
  unfolding store_txs_by_height store_latest_trusted_header
  accept i height untrusted_header blk = do
    db ← store_txs_by_height chain lib i.db (pos height) (lib.txs_of blk)
    db' ← store_latest_trusted_header chain lib db untrusted_header
    ok (record i { latest_trusted_header = untrusted_header; db = db' })

  -- A round of start.
  unfoldable pub round : Indexer chain → Answers chain → Outcome (Indexer chain)
  unfolding rotate accept
  round i net =
      let height = chain.height_of i.latest_trusted_header + 1 in
      let addrs = i.smart_bch_addr_list in
      let header = net.get_signed_header addrs height in
      let val_set = chain.validator_set (net.get_validators addrs height) in
      let blk = net.get_block addrs height in
      if not (chain.height_of header == height)
      then rotate i
      else if not (chain.validate_basic i.chain_id header val_set)
      then rotate i
      else if not (
          chain.verify_adjacent i.latest_trusted_header header val_set trusting_period net.now
            max_clock_drift)
      then rotate i
      else if not (equal_bytes (chain.block_hash blk) (chain.light_hash header val_set))
      then rotate i
      else accept i height header blk

  -- Rounds of start, one for each of the answers.
  unfoldable pub start : Indexer chain → List (Answers chain) → Outcome (Indexer chain)
  unfolding round
  start i [] = ok i
  start i (net ∷ nets) = do next ← round i net; start next nets
