-- ===== src/Tests/Sandboxes.antt =====
-- The theorem on the sandboxes of egvm-invoker at a concrete run.
use egvm.Prelude.{◌≡◌, refl, true, Option, some, List, [], ◌∷◌, ℕ}
use egvm.Executor.{
  SandboxManager, new_sandbox_manager, all_idle, set_status, same_key, first_idle,
  find_idle_sandbox, release,
}
use egvm.Executor.Exclusion.{
  State, Steps, begun, failed, none_yet, then_step, initial, IsExclusive, Steps-IsExclusive,
}

abbrev keys : List (Option ℕ)
keys = some 1 ∷ some 2 ∷ []

abbrev boxes : List ℕ
boxes = 1 ∷ 2 ∷ []

abbrev after_first : SandboxManager
after_first = set_status (new_sandbox_manager 0 boxes) (some 1) true

abbrev after_second : SandboxManager
after_second = set_status after_first (some 2) true

first_found : find_idle_sandbox (new_sandbox_manager 0 boxes) keys ≡ (after_first, some 1)
unfolding find_idle_sandbox first_idle set_status same_key new_sandbox_manager all_idle
first_found = refl

second_found : find_idle_sandbox after_first keys ≡ (after_second, some 2)
unfolding find_idle_sandbox first_idle set_status same_key new_sandbox_manager all_idle
second_found = refl

-- The first job fails in the sandbox 1, and the second one begins in the sandbox 2.
abbrev two_jobs : State
two_jobs = record { manager = after_second; running = 2 ∷ []; dead = 1 ∷ [] }

run : Steps (initial 0 boxes) two_jobs
unfolding release
run =
    then_step (then_step (then_step none_yet (begun keys first_found)) (failed [] [] 1))
      (begun keys second_found)

Steps-IsExclusive_example : IsExclusive two_jobs
Steps-IsExclusive_example = Steps-IsExclusive 0 boxes two_jobs run
