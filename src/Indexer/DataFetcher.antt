-- ===== src/Indexer/DataFetcher.antt =====
-- indexer/datafetcher.go: one round of the loop that fetches the next block, checks it against the
-- last header that is trusted, and hands it to the contract. Tendermint's types and its light
-- client come from a package that is not part of the repository; they are parameters, and so is
-- what the servers answer in a round.
pub mod Trust
pub mod Fresh
use egvm.Prelude.{
  ℕ, ◌+◌, ◌%◌, ◌≡◌, Bool, true, false, not, Option, none, some, List, [], ◌∷◌, ◌++◌, ◌==◌,
  if◌then◌else◌,
}
use egvm.Outcome.{Outcome, ok, panic, ◌>>=◌, ◌>>◌, runtime_error}
use egvm.Bytes.{Bytes, equal_bytes}
use egvm.Indexer.Context.{Block, ContextLib, Context, handle_block, dump_recovery}

pub record ChainLib : Type 1 where
  pub SignedHeader : Type 0
  pub height_of : SignedHeader → ℕ
  pub Validators : Type 0
  pub ValidatorSet : Type 0
  -- tmtypes.ValidatorSetFromExistingValidators, whose error is overwritten
  pub validator_set : Validators → ValidatorSet
  -- The methods ValidateBasic and Hash of the light block of a header and a validator set, and
  -- light.VerifyAdjacent with the trusting period, the time and the largest clock drift, in
  -- seconds: `true` is no error.
  pub validate_basic : Bytes → SignedHeader → ValidatorSet → Bool
  pub light_hash : SignedHeader → ValidatorSet → Bytes
  pub verify_adjacent : SignedHeader → SignedHeader → ValidatorSet → ℕ → ℕ → ℕ → Bool
  -- A block, what getBlockForContract reads of it, and its hash.
  pub TmBlock : Type 0
  pub view : TmBlock → Block
  pub block_hash : TmBlock → Bytes

-- 2*168*time.Hour and 10*time.Second
abbrev pub trusting_period : ℕ
trusting_period = 1209600

abbrev pub max_clock_drift : ℕ
max_clock_drift = 10

-- What getSignedHeader, getValidators and getBlock return in a round, for a list of servers and a
-- height, and the time.
pub record Answers (lib : ChainLib) : Type 0 where
  pub get_signed_header : List Bytes → ℕ → lib.SignedHeader
  pub get_validators : List Bytes → ℕ → lib.Validators
  pub get_block : List Bytes → ℕ → lib.TmBlock
  pub now : ℕ

-- The last element, and the others.
abbrev pub last_of : Bytes → List Bytes → Bytes
last_of a [] = a
last_of a (b ∷ addrs) = last_of b addrs

abbrev pub others_of : Bytes → List Bytes → List Bytes
others_of a [] = []
others_of a (b ∷ addrs) = a ∷ others_of b addrs

-- rotateList: of an empty list the index is out of range
unfoldable pub rotate_list : List Bytes → Outcome (List Bytes)
rotate_list [] = panic runtime_error
rotate_list (a ∷ addrs) = ok (last_of a addrs ∷ others_of a addrs)

-- DataFetcher
pub record DataFetcher (chain : ChainLib) (lib : ContextLib) : Type 0 where
  pub tm_server_addr_list : List Bytes
  pub latest_trusted_header : chain.SignedHeader
  pub contract_address : Bytes
  pub ctx : Context lib

-- TendermintChainID: "0x2710"
abbrev pub tendermint_chain_id : Bytes
tendermint_chain_id = 48 ∷ 120 ∷ 50 ∷ 55 ∷ 49 ∷ 48 ∷ []

-- RecoveryFileEveryNBlocks
abbrev pub recovery_file_every_n_blocks : ℕ
recovery_file_every_n_blocks = 1000

module _ (chain : ChainLib) (lib : ContextLib) where
  -- The branch that rotates the servers and continues.
  unfoldable pub rotate : DataFetcher chain lib → Outcome (DataFetcher chain lib)
  unfolding rotate_list
  rotate df = do
    addrs ← rotate_list df.tm_server_addr_list
    ok (record {
      tm_server_addr_list = addrs;
      latest_trusted_header = df.latest_trusted_header;
      contract_address = df.contract_address;
      ctx = df.ctx;
    })

  -- At every thousandth height the recovery file is dumped.
  unfoldable pub dump_if_due : ℕ → Context lib → Outcome (Unit {0})
  dump_if_due height ctx =
      if height % recovery_file_every_n_blocks == 0
      then (dump_recovery lib ctx >>= λ recovery. ok tt)
      else ok tt

  -- The end of a round: the header is trusted, and the block is handled.
  unfoldable pub accept :
      DataFetcher chain lib → chain.SignedHeader → chain.TmBlock → Outcome (DataFetcher chain lib)
  unfolding dump_if_due
  accept df header blk = do
    let b = chain.view blk
    ctx ← handle_block lib df.ctx df.contract_address b
    dump_if_due b.height ctx
    ok (record {
      tm_server_addr_list = df.tm_server_addr_list;
      latest_trusted_header = header;
      contract_address = df.contract_address;
      ctx = ctx;
    })

  -- A round of start.
  unfoldable pub round : DataFetcher chain lib → Answers chain → Outcome (DataFetcher chain lib)
  unfolding rotate accept
  round df net =
      let height = chain.height_of df.latest_trusted_header + 1 in
      let addrs = df.tm_server_addr_list in
      let header = net.get_signed_header addrs height in
      let validators = chain.validator_set (net.get_validators addrs height) in
      let blk = net.get_block addrs height in
      if not (chain.height_of header == height)
      then rotate df
      else if not (chain.validate_basic tendermint_chain_id header validators)
      then rotate df
      else if not (
          chain.verify_adjacent df.latest_trusted_header header validators trusting_period net.now
            max_clock_drift)
      then rotate df
      else if not (equal_bytes (chain.block_hash blk) (chain.light_hash header validators))
      then rotate df
      else accept df header blk

  -- Rounds of start, one for each of the answers.
  unfoldable pub start :
      DataFetcher chain lib → List (Answers chain) → Outcome (DataFetcher chain lib)
  unfolding round
  start df [] = ok df
  start df (net ∷ nets) = do next ← round df net; start next nets
