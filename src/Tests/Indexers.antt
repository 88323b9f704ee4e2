-- ===== src/Tests/Indexers.antt =====
-- The theorems on the program egvm-indexer at concrete inputs.
use egvm.Prelude.{ℕ, ◌≡◌, ◌⊎◌, refl, true, none, some, List, [], ◌∷◌, length, pos, replicate}
use egvm.Outcome.{ok, panic, error_of_db}
use egvm.Bytes.{equal_bytes}
use egvm.Indexer.DataFetcher.{rotate_list, tendermint_chain_id}
use egvm.Indexer.DataFetcher.Trust.{IsChain}
use egvm.Decimal.{digits}
use egvm.ChainIndexer.{
  absent, Db, StoreLib, update, build_txs_key, store_txs_by_height, store_latest_trusted_header,
  init_latest_trusted_header,
}
use egvm.ChainIndexer.Blocks.{Indexer, rotate_smart_bch_addr_list, rotate, accept, round, start}
use egvm.ChainIndexer.Blocks.Trust.{start-restart}
use egvm.ChainIndexer.Jobs.{EthLib, Job, waiting, job_round, Query}
use egvm.ChainIndexer.Store.{job_round-stuck}
use egvm.Tests.Chain.{chain_lib, honest, behind_by_one}

abbrev store_lib : StoreLib chain_lib
store_lib = record {
  commits = λ key. true;
  marshal_txs = λ txs. length txs ∷ [];
  unmarshal_txs = λ bz. some [];
  marshal_datas = λ datas. [];
  unmarshal_datas = λ bz. some [];
  marshal_header = λ h. h ∷ [];
  unmarshal_header = λ bz. elim bz [ [] ↦ none | h ∷ _ ↦ some h ];
  initial_header_str = 3 ∷ [];
  txs_of = λ blk. [];
}

abbrev empty_db : Db
empty_db key = absent

abbrev first_state : Indexer chain_lib
first_state = record {
  chain_id = tendermint_chain_id;
  smart_bch_addr_list = (1 ∷ []) ∷ [];
  latest_trusted_header = 3;
  db = empty_db;
}

abbrev is_indexer : (o : egvm.Outcome.Outcome (Indexer chain_lib)) → Indexer chain_lib
is_indexer (ok i) = i
is_indexer (panic p) = first_state

abbrev last_state : Indexer chain_lib
last_state =
    is_indexer (start chain_lib store_lib first_state (honest ∷ behind_by_one ∷ honest ∷ []))

indexed :
    start chain_lib store_lib first_state (honest ∷ behind_by_one ∷ honest ∷ []) ≡ ok last_state
unfolding start round accept rotate rotate_smart_bch_addr_list rotate_list store_txs_by_height
    store_latest_trusted_header update build_txs_key equal_bytes digits
indexed = refl

start-restart_example :
    (blks : List ℕ) × IsChain chain_lib 3 blks last_state.latest_trusted_header
    × (((blks ≡ []) × (last_state.db ≡ empty_db))
        ⊎ (init_latest_trusted_header chain_lib store_lib last_state.db ≡ panic error_of_db))
start-restart_example =
    start-restart chain_lib store_lib first_state last_state (honest ∷ behind_by_one ∷ honest ∷ [])
      refl indexed

abbrev eth : EthLib
eth = record {
  Transaction = Unit;
  decode_rlp = λ bz. some tt;
  to_of = λ tx. none;
  sender = λ tx. none;
  value_of = λ tx. [];
  data_of = λ tx. [];
}

abbrev job : Job
job = record { address = []; begin_height = pos 4 }

job_round-stuck_example :
    ((last_state.db (build_txs_key (pos 4)) ≡ absent)
      × (job_round eth chain_lib store_lib last_state.db job (pos 4) ≡ ok waiting))
    ⊎ (job_round eth chain_lib store_lib last_state.db job (pos 4) ≡ panic error_of_db)
job_round-stuck_example = job_round-stuck chain_lib store_lib eth last_state.db job (pos 4)

abbrev query : Query
query = record { addresses = replicate 40 48 ∷ []; heights = (49 ∷ []) ∷ [] }
