-- ===== src/Indexer/Context/Restart.antt =====
-- indexer/context.go: starting from a recovery file.
use egvm.Prelude.{ℕ, ◌≡◌, Option, none, some, List, [], ◌∷◌, length, take, drop, not, leb}
use egvm.Outcome.{
  Outcome, ok, panic_if, outcome_of, ◌>>=◌, ◌>>◌, >>=-eq-ok, fatal_exit, invalid_log_hash,
  error_of_file, error_of_json,
}
use egvm.Bytes.{Bytes, equal_bytes}
use egvm.Indexer.Context.{ContextLib, Context, text, truncate, open_read_only}

module _ (lib : ContextLib) where
  -- truncateAndRunHasher, on the content of the file
  unfoldable pub truncate_and_run_hasher : Bytes → ℕ → Outcome (Bytes × lib.sha256.State)
  unfolding open_read_only truncate
  truncate_and_run_hasher content size = do
    f ← outcome_of error_of_file (truncate (open_read_only content) size)
    let h = lib.sha256.write lib.sha256.fresh f.content
    ok (lib.sha256.sum h, h)

  -- The loop of replayInput: the script is run on each line, and the lines are hashed.
  unfoldable pub replay_lines : lib.VM → lib.sha256.State → List Bytes → lib.VM × lib.sha256.State
  replay_lines vm h [] = (vm, h)
  replay_lines vm h (line ∷ lines) =
      replay_lines (lib.handle_block_func vm (text line)).0 (lib.sha256.write h line) lines

  -- replayInput
  unfoldable pub replay_input : lib.VM → Bytes → Bytes → Outcome lib.VM
  unfolding replay_lines
  replay_input vm content input_log_hash = do
    let run = replay_lines vm lib.sha256.fresh (lib.trimmed_lines content)
    panic_if (not (equal_bytes (lib.sha256.sum run.1) input_log_hash)) invalid_log_hash
    ok run.0

  -- NewContextFromRecoverFile: of the recovery file's data, with the contents of the log files
  unfoldable pub new_context_from_recover_file :
      lib.VM → Option Bytes → Bytes → Bytes → Outcome (Context lib)
  unfolding truncate_and_run_hasher replay_input
  new_context_from_recover_file vm file_data input output = do
    dumped ← outcome_of fatal_exit file_data
    panic_if (leb (length dumped) 65) fatal_exit
    let json_data = drop 65 dumped
    let hash = lib.sha256.sum (lib.sha256.write lib.sha256.fresh json_data)
    panic_if (not (lib.verify_signature hash (take 64 dumped))) fatal_exit
    c ← outcome_of error_of_json (lib.unmarshal_context json_data)
    (in_hash, in_hasher) ← truncate_and_run_hasher input c.input_log_size
    panic_if (not (equal_bytes in_hash c.input_log_hash)) invalid_log_hash
    (out_hash, out_hasher) ← truncate_and_run_hasher output c.output_log_size
    panic_if (not (equal_bytes out_hash c.output_log_hash)) invalid_log_hash
    replayed ← replay_input vm (take c.input_log_size input) c.input_log_hash
    ok (record {
      vm = replayed;
      input_log = none;
      output_log = none;
      input_log_hasher = some in_hasher;
      output_log_hasher = some out_hasher;
    })

  -- No start from a recovery file ever returns a context, whatever the file, the logs and the
  -- script are: the input log is opened for reading, and its truncation is refused.
  pub recovery_never_returns :
      (vm : lib.VM) (file_data : Option Bytes) (input output : Bytes) (c : Context lib)
      → ¬ (new_context_from_recover_file vm file_data input output ≡ ok c)
  unfolding new_context_from_recover_file truncate_and_run_hasher truncate open_read_only
  recovery_never_returns vm file_data input output c e =
      let sha = lib.sha256 in
      let (dumped, _, e₁) = >>=-eq-ok (outcome_of fatal_exit file_data) e in
      let (_, _, e₂) = >>=-eq-ok (panic_if (leb (length dumped) 65) fatal_exit) e₁ in
      let hash = sha.sum (sha.write sha.fresh (drop 65 dumped)) in
      let (_, _, e₃) =
        >>=-eq-ok (panic_if (not (lib.verify_signature hash (take 64 dumped))) fatal_exit) e₂ in
      let (r, _, e₄) =
        >>=-eq-ok (outcome_of error_of_json (lib.unmarshal_context (drop 65 dumped))) e₃ in
      cc e₄
