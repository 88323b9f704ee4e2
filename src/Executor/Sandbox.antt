-- ===== src/Executor/Sandbox.antt =====
-- egvm-invoker/executor/sandbox.go: a job in its sandbox, and the handler of /execute in
-- egvm-invoker/cmd/main.go. The child process, gzip and the encoders of the jobs and the results
-- come from code that is not part of the repository; they are parameters.
pub mod Lines
use egvm.Prelude.{
  ℕ, zero, suc, ◌+◌, ◌-◌, Bool, true, false, not, Option, none, some, List, [], ◌∷◌, ◌++◌, length,
  drop, take, ltb, ◌==◌, ◌||◌, if◌then◌else◌,
}
use egvm.Bytes.{Bytes}
use egvm.Executor.{SandboxManager, find_idle_sandbox, execute_job}

pub record JobLib : Type 1 where
  pub LambdaJob : Type 0
  pub LambdaResult : Type 0
  -- LambdaResult{}
  pub no_result : LambdaResult
  -- MarshalMsg of a job, which panics at an error, and of a result, where an error is `none`
  pub marshal_job : LambdaJob → Option Bytes
  pub marshal_result : LambdaResult → Option Bytes
  pub unmarshal_job : Bytes → Option LambdaJob
  pub unmarshal_result : Bytes → Option LambdaResult
  -- DecodeMsg of a reader: the result, and how many bytes it took
  pub decode_result : Bytes → Option (LambdaResult × ℕ)
  -- runtime.GOOS == "darwin"
  pub darwin : Bool
  -- Whether a write to the child's input succeeds
  pub accepts_input : Bool

-- Sandbox: what was written to the child and not yet answered is the child's business.
pub record Sandbox : Type 0 where
  pub first_run : Bool

-- bufio.ScanLines: the lines of an output that has ended, each at most 64 KiB with its
-- end, since a longer one stops the scanner. A carriage return before the newline is dropped.
abbrev pub max_scan_token_size : ℕ
max_scan_token_size = 65536

unfoldable pub drop_cr : Bytes → Bytes
drop_cr [] = []
drop_cr (c ∷ s) =
    let rest = drop_cr s in elim s [ [] ↦ if c == 13 then [] else c ∷ [] | _ ∷ _ ↦ c ∷ rest ]

-- What stands before the first newline, and the lines behind it
unfoldable pub split_newline : Bytes → Bytes × List Bytes
split_newline [] = ([], [])
split_newline (c ∷ s) =
    let (line, lines) = split_newline s in if c == 10 then ([], line ∷ lines) else (c ∷ line, lines)

-- An empty line at the end of the output is no line.
unfoldable pub full_lines : Bytes → List Bytes → List Bytes
full_lines line (next ∷ lines) = line ∷ full_lines next lines
full_lines [] [] = []
full_lines (c ∷ line) [] = (c ∷ line) ∷ []

-- Up to the first line that is too long
unfoldable pub scanned_lines : List Bytes → List Bytes
unfolding drop_cr
scanned_lines [] = []
scanned_lines (line ∷ lines) =
    let rest = scanned_lines lines in
    if ltb (length line) max_scan_token_size then drop_cr line ∷ rest else []

-- How executeJob ends: with a result, with an error, or with a panic.
pub data Ended {ℓ} (R : Type ℓ) : Type ℓ where
  result : R → Ended R
  error : Ended R
  panicked : Ended R

-- The lines that a scanner gives
unfoldable pub lines_of : Bytes → List Bytes
unfolding split_newline full_lines scanned_lines
lines_of out = let (line, lines) = split_newline out in scanned_lines (full_lines line lines)

module _ (lib : JobLib) where
  -- The branch for the first run on linux: the fourth line, of the counted ones
  unfoldable pub fourth_line : ℕ → List Bytes → Ended lib.LambdaResult
  fourth_line counter [] = result lib.no_result
  fourth_line counter (line ∷ lines) =
      let rest = fourth_line (counter + 1) lines in
      if counter == 3
      then (elim (lib.unmarshal_result line) [ none ↦ error | some res ↦ result res ])
      else rest

  -- Whether the sandbox is still in its first run after the branch for it
  abbrev pub after_first_run : Sandbox → Ended lib.LambdaResult → Sandbox
  after_first_run b (result res) = record { first_run = false }
  after_first_run b error = b
  after_first_run b panicked = b

  -- Sandbox.executeJob, with what the child has written to its output after the job came in
  unfoldable pub execute_in_sandbox :
      Sandbox → lib.LambdaJob → Bytes → Sandbox × Ended lib.LambdaResult
  unfolding fourth_line lines_of
  execute_in_sandbox b job out = elim (lib.marshal_job job) [
    | none ↦ (b, panicked)
    | some bz ↦
        if not lib.accepts_input
        then (b, panicked)
        else if lib.darwin || not b.first_run
        then (elim (lib.decode_result out) [ none ↦ (b, error) | some (res, n) ↦ (b, result res) ])
        else (let ended = fourth_line 0 (lines_of out) in (after_first_run b ended, ended))
  ]

  -- The replies of the handler of /execute; a panic drops the connection.
  pub data Reply : Type 0 where
    not_compressed unreadable not_a_job not_executed not_marshaled dropped : Reply
    executed : Bytes → Reply

  abbrev pub option_of : Ended lib.LambdaResult → Option lib.LambdaResult
  option_of (result res) = some res
  option_of error = none
  option_of panicked = none

  -- The handler after ExecuteJob, for the way in which the job ended
  unfoldable pub reply_to : Ended lib.LambdaResult → Reply
  reply_to (result res) = elim (lib.marshal_result res) [
    | none ↦ not_marshaled
    | some out ↦ executed out
  ]
  reply_to error = not_executed
  reply_to panicked = dropped

  -- The handler of /execute: `body` is none where gzip.NewReader fails, and none inside where
  -- reading fails. `run` is executeJob in a sandbox.
  unfoldable pub serve_execute :
      SandboxManager
      → List (Option ℕ)
      → (ℕ → lib.LambdaJob → Ended lib.LambdaResult)
      → Option (Option Bytes)
      → SandboxManager × Reply
  unfolding reply_to execute_job find_idle_sandbox
  serve_execute m keys run none = (m, not_compressed)
  serve_execute m keys run (some none) = (m, unreadable)
  serve_execute m keys run (some (some body)) = elim (lib.unmarshal_job body) [
    | none ↦ (m, not_a_job)
    | some job ↦ (
      (execute_job m keys (λ box. option_of (run box job))).0,
      elim (find_idle_sandbox m keys).1 [ none ↦ not_executed | some box ↦ reply_to (run box job) ],
    )
  ]
