-- ===== src/ChainIndexer/Jobs.antt =====
-- egvm-indexer/job.go, AddJob of egvm-indexer/indexer.go and the handler of /contract in
-- egvm-indexer/main.go.
pub mod Unmapped
use egvm.Prelude.{
  ℕ, zero, suc, ◌+◌, Bool, true, false, not, Option, none, some, List, [], ◌∷◌, ◌++◌, length, ltb,
  ◌==◌, if◌then◌else◌, ℤ, pos, negsuc,
}
use egvm.Outcome.{Outcome, ok, panic, ◌>>=◌, runtime_error}
use egvm.Bytes.{Bytes, equal_bytes}
use egvm.Hex.{hex_decode}
use egvm.Indexer.DataFetcher.{ChainLib}
use egvm.ChainIndexer.{
  Db, StoreLib, TxData, get_txs_by_height, store_tx_datas_by_address_and_height,
}

-- Transactions of Ethereum: DecodeRLP, the text of To(), which is nil for a new contract, the
-- signer's Sender, and the texts of the other fields.
pub record EthLib : Type 1 where
  pub Transaction : Type 0
  pub decode_rlp : Bytes → Option Transaction
  pub to_of : Transaction → Option Bytes
  pub sender : Transaction → Option Bytes
  pub value_of : Transaction → Bytes
  pub data_of : Transaction → Bytes

-- Job, without its indexer
pub record Job : Type 0 where
  pub address : Bytes
  pub begin_height : ℤ

-- h++ of an int64, without its overflow
abbrev pub next_height : ℤ → ℤ
next_height (pos n) = pos (n + 1)
next_height (negsuc zero) = pos 0
next_height (negsuc (suc n)) = negsuc n

-- What a round of Start leads to: it waits at a height, or goes to the next one with another db.
pub data JobStep : Type 0 where
  waiting : JobStep
  scanned : Db → JobStep

module _ (eth : EthLib) where
  -- The data of one transaction: String of a nil address is a panic
  unfoldable pub tx_data : Bytes → Bytes → Outcome (Option TxData)
  tx_data address tx_raw_data = elim (eth.decode_rlp tx_raw_data) [
    | none ↦ ok none
    | some tx ↦ elim (eth.to_of tx) [
      | none ↦ panic runtime_error
      | some to ↦
          if equal_bytes to address
          then (elim (eth.sender tx) [
            | none ↦ ok none
            | some from ↦
                ok (some (record { from = from; value = eth.value_of tx; input = eth.data_of tx }))
          ])
          else ok none
    ]
  ]

  -- The loop over the transactions of a block
  unfoldable pub tx_datas : Bytes → List Bytes → Outcome (List TxData)
  unfolding tx_data
  tx_datas address [] = ok []
  tx_datas address (tx_raw_data ∷ txs) = do
    found ← tx_data address tx_raw_data
    rest ← tx_datas address txs
    elim found [ none ↦ ok rest | some d ↦ ok (d ∷ rest) ]

  -- What a round stores. The slice datas is nil exactly where nothing was appended.
  unfoldable pub store_datas :
      (chain : ChainLib) → StoreLib chain → Db → Bytes → ℤ → List TxData → Outcome Db
  unfolding store_tx_datas_by_address_and_height
  store_datas chain lib db address h [] = ok db
  store_datas chain lib db address h (d ∷ datas) =
      store_tx_datas_by_address_and_height chain lib db address h (d ∷ datas)

  -- A round of Start at a height
  unfoldable pub job_round : (chain : ChainLib) → StoreLib chain → Db → Job → ℤ → Outcome JobStep
  unfolding get_txs_by_height tx_datas store_datas
  job_round chain lib db j h = get_txs_by_height chain lib db h >>= λ found. elim found [
    | none ↦ ok waiting
    | some txs ↦ do
      datas ← tx_datas j.address txs
      db' ← store_datas chain lib db j.address h datas
      ok (scanned db')
  ]

-- jobList: the addresses with their jobs, or `none` for a nil map, which main leaves it as
abbrev pub JobList : Type 0
JobList = Option (List (Bytes × Job))

abbrev pub entries : JobList → List (Bytes × Job)
entries none = []
entries (some jobs) = jobs

unfoldable pub has_job : List (Bytes × Job) → Bytes → Bool
has_job [] address = false
has_job ((key, j) ∷ jobs) address =
    let rest = has_job jobs address in if equal_bytes key address then true else rest

-- maxJobNums
abbrev pub max_job_nums : ℕ
max_job_nums = 1000

-- jobExistErr, tooManyJobsErr, the panic of an assignment to a nil map, or the job with which AddJob
-- goes into Start, which has no end, and the list that it leaves. The field address of the job is
-- not set.
pub data Added : Type 0 where
  job_exist too_many_jobs nil_map : Added
  starting : Job → List (Bytes × Job) → Added

abbrev pub assigned : JobList → Bytes → Job → Added
assigned none address j = nil_map
assigned (some jobs) address j = starting j ((address, j) ∷ jobs)

-- Indexer.AddJob
unfoldable pub add_job : JobList → Bytes → ℤ → Added
unfolding has_job
add_job job_list address height =
    if has_job (entries job_list) address
    then job_exist
    else if ltb max_job_nums (length (entries job_list))
    then too_many_jobs
    else assigned job_list address (record { address = []; begin_height = height })

-- The first values of the query parameters, and strconv.Atoi as a parameter.
pub record Query : Type 0 where
  pub addresses : List Bytes
  pub heights : List Bytes

-- The replies of the handler of /contract with status 400, or what AddJob does.
pub data Answer : Type 0 where
  address_missed invalid_address height_missed invalid_height : Answer
  asked : Added → Answer

unfoldable pub is_address : Bytes → Bool
is_address address = elim (hex_decode address) [ none ↦ false | some bz ↦ length bz == 20 ]

-- The handler of /contract
unfoldable pub serve_contract : (Bytes → Option ℤ) → JobList → Query → Answer
unfolding is_address add_job
serve_contract atoi job_list q = elim q.addresses [
  | [] ↦ address_missed
  | address ∷ _ ↦ if not (is_address address) then invalid_address else (elim q.heights [
    | [] ↦ height_missed
    | height ∷ _ ↦ elim (atoi height) [
      | none ↦ invalid_height
      | some h ↦ asked (add_job job_list address h)
    ]
  ])
]
