-- ===== src/Indexer/Context.antt =====
-- indexer/context.go: the blocks as the contract's script sees them, the logs of what goes into the
-- script and comes out of it, and the recovery file. The chain's transactions, JSON, the script's
-- engine and the signatures come from packages that are not part of the repository; they are
-- parameters, and so is the operating system but for what a read-only file refuses.
pub mod Blocks
pub mod Logs
pub mod Restart
use egvm.Prelude.{
  ℕ, ◌≡◌, Bool, true, false, Option, none, some, List, [], ◌∷◌, ◌++◌, length, take, drop, not, leb,
  if◌then◌else◌,
}
use egvm.Outcome.{Outcome, ok, outcome_of, ◌>>=◌, ◌>>◌, runtime_error, error_of_file}
use egvm.Bytes.{Bytes, equal_bytes}
use egvm.Hash.{Hasher}

-- SimpleTx
pub record SimpleTx : Type 0 where
  pub sender : Bytes
  pub tx_data : Bytes

-- BlockForContract, whose EventList is never filled
pub record BlockForContract : Type 0 where
  pub height : ℕ
  pub timestamp : ℕ
  pub tx_list : List SimpleTx

-- What getBlockForContract reads of a tmtypes.Block.
pub record Block : Type 0 where
  pub height : ℕ
  pub unix_milli : ℕ
  pub txs : List Bytes

-- What it reads of a gethtypes.Transaction: To is nil for the creation of a contract.
pub record Transaction : Type 0 where
  pub to : Option Bytes
  pub tx_data : Bytes

-- An *os.File that is open: what is in it, and whether it was opened for writing.
pub record File : Type 0 where
  pub content : Bytes
  pub writable : Bool

-- (*os.File).Write and Truncate: a file that was opened for reading refuses both. The callers drop
-- the error of Write.
unfoldable pub write_file : File → Bytes → File
write_file f bz = if f.writable then record { content = f.content ++ bz; writable = true } else f

unfoldable pub truncate : File → ℕ → Option File
truncate f size =
    if f.writable then some (record { content = take size f.content; writable = true }) else none

-- os.Open, and os.OpenFile with the flag os.O_EXCL alone, which is O_RDONLY with O_EXCL.
unfoldable pub open_read_only : Bytes → File
open_read_only content = record { content = content; writable = false }

-- A nil *os.File refuses to be written to; Stat of it is an error.
unfoldable pub write_log : Option File → Bytes → Option File
unfolding write_file
write_log none bz = none
write_log (some f) bz = some (write_file f bz)

-- "\n"
abbrev pub newline : Bytes
newline = 10 ∷ []

-- The fields that DumpRecoveryFile computes.
pub record Recovery : Type 0 where
  pub input_log_hash : Bytes
  pub output_log_hash : Bytes
  pub input_log_size : ℕ
  pub output_log_size : ℕ

-- What the script is given: HandleBlock converts a byte slice, and replayInput a string.
pub data Line : Type 0 where
  byte_slice text : Bytes → Line

pub record ContextLib : Type 1 where
  -- (*gethtypes.Transaction).DecodeRLP, and Sender of the EIP-155 signer
  pub decode_rlp : Bytes → Option Transaction
  pub sender : Transaction → Option Bytes
  pub marshal_block : BlockForContract → Bytes
  -- The function handleBlock of the script: its new state and its result as a string.
  pub VM : Type 0
  pub handle_block_func : VM → Line → VM × Bytes
  pub sha256 : Hasher
  -- crypto.VerifySignature with the client's public key, and json.Unmarshal into a Context
  pub verify_signature : Bytes → Bytes → Bool
  pub unmarshal_context : Bytes → Option Recovery
  -- strings.TrimSpace of each line that a bufio.Scanner reads
  pub trimmed_lines : Bytes → List Bytes

-- Context, without what is in the recovery file only: a hasher or a log may be nil.
pub record Context (lib : ContextLib) : Type 0 where
  pub vm : lib.VM
  pub input_log : Option File
  pub output_log : Option File
  pub input_log_hasher : Option lib.sha256.State
  pub output_log_hasher : Option lib.sha256.State

-- The transaction in front of the others, where it has a sender.
unfoldable pub add_tx : Option Bytes → Bytes → Outcome (List SimpleTx) → Outcome (List SimpleTx)
add_tx none payload rest = rest
add_tx (some s) payload rest = do txs ← rest; ok (record { sender = s; tx_data = payload } ∷ txs)

module _ (lib : ContextLib) where
  -- The loop of getBlockForContract: `*tx.To()` of a nil pointer is a panic.
  unfoldable pub select_txs : Bytes → List Bytes → Outcome (List SimpleTx)
  unfolding add_tx
  select_txs contract [] = ok []
  select_txs contract (raw ∷ raws) =
      let rest = select_txs contract raws in
      elim (lib.decode_rlp raw) [
        | none ↦ rest
        | some tx ↦ (do
          to ← outcome_of runtime_error tx.to
          if equal_bytes to contract then add_tx (lib.sender tx) tx.tx_data rest else rest)
      ]

  -- getBlockForContract
  unfoldable pub get_block_for_contract : Bytes → Block → Outcome BlockForContract
  unfolding select_txs
  get_block_for_contract contract blk = do
    txs ← select_txs contract blk.txs
    ok (record { height = blk.height; timestamp = blk.unix_milli; tx_list = txs })

  -- newContext and NewContext on the two log files: the hashers stay nil.
  unfoldable pub new_context : lib.VM → Bytes → Bytes → Context lib
  unfolding open_read_only
  new_context vm input output = record {
    vm = vm;
    input_log = some (open_read_only input);
    output_log = some (open_read_only output);
    input_log_hasher = none;
    output_log_hasher = none;
  }

  -- A line that goes to a hasher and to a log, each with its newline.
  unfoldable pub write_hasher : Option lib.sha256.State → Bytes → Outcome (Option lib.sha256.State)
  write_hasher hasher line = do
    h ← outcome_of runtime_error hasher
    ok (some (lib.sha256.write (lib.sha256.write h line) newline))

  unfoldable pub write_line : Option File → Bytes → Option File
  unfolding write_log
  write_line log line = write_log (write_log log line) newline

  -- HandleBlock
  unfoldable pub handle_block : Context lib → Bytes → Block → Outcome (Context lib)
  unfolding get_block_for_contract write_hasher write_line
  handle_block c contract blk = do
    b ← get_block_for_contract contract blk
    let line = lib.marshal_block b
    input_hasher ← write_hasher c.input_log_hasher line
    let run = lib.handle_block_func c.vm (byte_slice line)
    output_hasher ← write_hasher c.output_log_hasher run.1
    ok (record {
      vm = run.0;
      input_log = write_line c.input_log line;
      output_log = write_line c.output_log run.1;
      input_log_hasher = input_hasher;
      output_log_hasher = output_hasher;
    })

  -- DumpRecoveryFile, up to its signature
  unfoldable pub dump_recovery : Context lib → Outcome Recovery
  dump_recovery c = do
    input_hasher ← outcome_of runtime_error c.input_log_hasher
    output_hasher ← outcome_of runtime_error c.output_log_hasher
    input_log ← outcome_of error_of_file c.input_log
    output_log ← outcome_of error_of_file c.output_log
    ok (record {
      input_log_hash = lib.sha256.sum input_hasher;
      output_log_hash = lib.sha256.sum output_hasher;
      input_log_size = length input_log.content;
      output_log_size = length output_log.content;
    })
