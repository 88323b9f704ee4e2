-- ===== src/ChainIndexer.antt =====
-- The program egvm-indexer: a store of blocks that are checked like those of indexer/datafetcher.go,
-- and of jobs that read them. The database, Tendermint, the transactions of Ethereum and the JSON
-- encoders come from packages that are not part of the repository; they are parameters.
pub mod Store
pub mod Blocks
pub mod Jobs
pub mod Servers
use egvm.Prelude.{
  ℕ, suc, ◌+◌, ◌≡◌, Bool, true, false, not, Option, none, some, List, [], ◌∷◌, ◌++◌, if◌then◌else◌,
  ℤ, pos, negsuc,
}
use egvm.Outcome.{Outcome, ok, panic, ◌>>=◌, error_of_db}
use egvm.Bytes.{Bytes, equal_bytes}
use egvm.Decimal.{digits}
use egvm.Indexer.DataFetcher.{ChainLib}

-- What the database has under a key, where reading can fail.
pub data Stored : Type 0 where
  absent broken : Stored
  stored : Bytes → Stored

abbrev pub Db : Type 0
Db = Bytes → Stored

-- TxData
pub record TxData : Type 0 where
  pub from : Bytes
  pub value : Bytes
  pub input : Bytes

pub record StoreLib (chain : ChainLib) : Type 0 where
  -- Whether a transaction of badger that sets a key commits
  pub commits : Bytes → Bool
  -- The JSON encoders, whose errors are dropped, and the decoders
  pub marshal_txs : List Bytes → Bytes
  pub unmarshal_txs : Bytes → Option (List Bytes)
  pub marshal_datas : List TxData → Bytes
  pub unmarshal_datas : Bytes → Option (List TxData)
  pub marshal_header : chain.SignedHeader → Bytes
  pub unmarshal_header : Bytes → Option chain.SignedHeader
  -- InitialHeaderStr
  pub initial_header_str : Bytes
  -- The transactions of a block
  pub txs_of : chain.TmBlock → List Bytes

-- %d of an int64
abbrev pub decimal : ℤ → Bytes
decimal (pos n) = digits 20 n
decimal (negsuc n) = 45 ∷ digits 20 (suc n)

-- latestTrustedHeaderKey, "egvm-header"
abbrev pub latest_trusted_header_key : Bytes
latest_trusted_header_key = 101 ∷ 103 ∷ 118 ∷ 109 ∷ 45 ∷ 104 ∷ 101 ∷ 97 ∷ 100 ∷ 101 ∷ 114 ∷ []

-- "egvm-txs-" and "egvm-data-"
abbrev pub txs_prefix : Bytes
txs_prefix = 101 ∷ 103 ∷ 118 ∷ 109 ∷ 45 ∷ 116 ∷ 120 ∷ 115 ∷ 45 ∷ []

abbrev pub data_prefix : Bytes
data_prefix = 101 ∷ 103 ∷ 118 ∷ 109 ∷ 45 ∷ 100 ∷ 97 ∷ 116 ∷ 97 ∷ 45 ∷ []

-- buildTxsKey and buildTxDatasKey
unfoldable pub build_txs_key : ℤ → Bytes
build_txs_key height = txs_prefix ++ decimal height

unfoldable pub build_tx_datas_key : Bytes → ℤ → Bytes
build_tx_datas_key address height = data_prefix ++ (address ++ (45 ∷ decimal height))

-- The error of a db.View: ErrKeyNotFound, another one, or nil with what was decoded.
pub data Viewed {ℓ} (A : Type ℓ) : Type ℓ where
  key_not_found other_error : Viewed A
  no_error : A → Viewed A

unfoldable pub view {ℓ} : {A : Type ℓ} → (Bytes → Option A) → Db → Bytes → Viewed A
view unmarshal db key = elim (db key) [
  | absent ↦ key_not_found
  | broken ↦ other_error
  | stored val ↦ elim (unmarshal val) [ none ↦ other_error | some a ↦ no_error a ]
]

-- if err == badger.ErrKeyNotFound { return nil } else { panic(err) }: `none` is nil
unfoldable pub nil_or_panic {ℓ} : {A : Type ℓ} → Viewed A → Outcome (Option A)
nil_or_panic key_not_found = ok none
nil_or_panic other_error = panic error_of_db
nil_or_panic (no_error a) = panic error_of_db

module _ (chain : ChainLib) (lib : StoreLib chain) where
  -- db.Update with txn.Set, and the panic at an error
  unfoldable pub update : Db → Bytes → Bytes → Outcome Db
  update db key bz =
      if lib.commits key
      then ok (λ other. if equal_bytes other key then stored bz else db other)
      else panic error_of_db

  -- storeTxDatasByAddressAndHeight and getTxDatasByAddressAndHeight
  unfoldable pub store_tx_datas_by_address_and_height : Db → Bytes → ℤ → List TxData → Outcome Db
  unfolding update build_tx_datas_key
  store_tx_datas_by_address_and_height db address height datas =
      update db (build_tx_datas_key address height) (lib.marshal_datas datas)

  unfoldable pub get_tx_datas_by_address_and_height :
      Db → Bytes → ℤ → Outcome (Option (List TxData))
  unfolding view nil_or_panic build_tx_datas_key
  get_tx_datas_by_address_and_height db address height =
      nil_or_panic (view lib.unmarshal_datas db (build_tx_datas_key address height))

  -- storeTxsByHeight and GetTxsByHeight
  unfoldable pub store_txs_by_height : Db → ℤ → List Bytes → Outcome Db
  unfolding update build_txs_key
  store_txs_by_height db height txs = update db (build_txs_key height) (lib.marshal_txs txs)

  unfoldable pub get_txs_by_height : Db → ℤ → Outcome (Option (List Bytes))
  unfolding view nil_or_panic build_txs_key
  get_txs_by_height db height = nil_or_panic (view lib.unmarshal_txs db (build_txs_key height))

  -- storeLatestTrustedHeader and recoveryLatestTrustedHeader
  unfoldable pub store_latest_trusted_header : Db → chain.SignedHeader → Outcome Db
  unfolding update
  store_latest_trusted_header db h = update db latest_trusted_header_key (lib.marshal_header h)

  unfoldable pub recovery_latest_trusted_header : Db → Viewed chain.SignedHeader
  unfolding view
  recovery_latest_trusted_header db = view lib.unmarshal_header db latest_trusted_header_key

  -- initLatestTrustedHeader: the header that is trusted first, or the panic
  unfoldable pub init_latest_trusted_header : Db → Outcome chain.SignedHeader
  unfolding recovery_latest_trusted_header
  init_latest_trusted_header db = elim (recovery_latest_trusted_header db) [
    | key_not_found ↦ elim (lib.unmarshal_header lib.initial_header_str) [
      | none ↦ panic error_of_db
      | some h ↦ ok h
    ]
    | other_error ↦ panic error_of_db
    | no_error h ↦ panic error_of_db
  ]
