-- ===== src/Tests/Runs.antt =====
-- The theorem on the first run of a sandbox at a concrete output.
use egvm.Prelude.{◌≡◌, refl, true, false, none, some, [], ◌∷◌, ◌++◌, arith}
use egvm.Bytes.{Bytes}
use egvm.Executor.Sandbox.{JobLib, execute_in_sandbox}
use egvm.Executor.Sandbox.Lines.{IsLine, read_as, execute_in_sandbox-first_run}

abbrev lib : JobLib
lib = record {
  LambdaJob = Unit;
  LambdaResult = Bytes;
  no_result = [];
  marshal_job = λ job. some [];
  marshal_result = λ res. some res;
  unmarshal_job = λ bz. some tt;
  unmarshal_result = λ bz. some bz;
  decode_result = λ bz. none;
  darwin = false;
  accepts_input = true;
}

is_line : IsLine (5 ∷ [])
is_line = ground arith

-- The answer 5 10 7 has a newline in it.
execute_in_sandbox-first_run_example :
    execute_in_sandbox lib
      (record { first_run = true })
      tt
      ((5 ∷ []) ++ (10 ∷ ((5 ∷ []) ++ (10 ∷ ((5 ∷ []) ++ (10 ∷ ((5 ∷ []) ++ (10 ∷ 7 ∷ []))))))))
    ≡ read_as lib (some (5 ∷ []))
execute_in_sandbox-first_run_example =
    execute_in_sandbox-first_run lib tt [] (5 ∷ []) (5 ∷ []) (5 ∷ []) (5 ∷ []) (7 ∷ []) refl refl
      refl is_line is_line is_line is_line
