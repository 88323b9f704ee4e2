-- ===== src/Executor.antt =====
-- egvm-invoker/executor/manager.go: the sandboxes that jobs run in. A sandbox is a number, which
-- stands for its pointer, and nil is `none`. What a job does in its sandbox is the parameter `run`.
mod Distinct
pub mod Exclusion
pub mod Sandbox
use egvm.Prelude.{
  ℕ, ◌≡◌, Bool, true, false, Option, none, some, List, [], ◌∷◌, ◌++◌, ◌==◌, if◌then◌else◌,
}

-- The keys of the map: pointers, also the nil pointer.
unfoldable pub same_key : Option ℕ → Option ℕ → Bool
same_key none none = true
same_key none (some b) = false
same_key (some a) none = false
same_key (some a) (some b) = a == b

-- SandboxManager: BoxStatusMap, whose value says whether the sandbox is busy or dead
pub record SandboxManager : Type 0 where
  pub box_status_map : Option ℕ → Option Bool

-- An assignment to the map.
unfoldable pub set_status : SandboxManager → Option ℕ → Bool → SandboxManager
unfolding same_key
set_status m key busy = record {
  box_status_map = λ k. if same_key key k then some busy else m.box_status_map k;
}

unfoldable pub all_idle : SandboxManager → List ℕ → SandboxManager
unfolding set_status
all_idle m [] = m
all_idle m (b ∷ boxes) = all_idle (set_status m (some b) false) boxes

-- NewSandboxManager: without sandboxes it starts one, here `first`
unfoldable pub new_sandbox_manager : ℕ → List ℕ → SandboxManager
unfolding all_idle
new_sandbox_manager first [] = all_idle (record { box_status_map = λ k. none }) (first ∷ [])
new_sandbox_manager first (b ∷ boxes) = all_idle (record { box_status_map = λ k. none }) (b ∷ boxes)

-- Whether a key is there and its value is false.
abbrev pub is_idle : Option Bool → Bool
is_idle none = false
is_idle (some busy) = if busy then false else true

-- The loop of findIdleSandbox: the keys in the order in which this traversal of the map meets
-- them, which Go leaves open.
unfoldable pub first_idle : SandboxManager → List (Option ℕ) → Option ℕ
first_idle m [] = none
first_idle m (key ∷ keys) =
    let rest = first_idle m keys in if is_idle (m.box_status_map key) then key else rest

-- findIdleSandbox: the status of nil is set where no sandbox is idle
unfoldable pub find_idle_sandbox : SandboxManager → List (Option ℕ) → SandboxManager × Option ℕ
unfolding first_idle set_status
find_idle_sandbox m keys = let box = first_idle m keys in (set_status m box true, box)

-- The end of ExecuteJob: the sandbox is idle again only where the job gave no error.
unfoldable pub release {ℓ} : {R : Type ℓ} → SandboxManager → ℕ → Option R → SandboxManager
unfolding set_status
release m box none = m
release m box (some res) = set_status m (some box) false

-- ExecuteJob, with no other job between its steps: an error is `none`
unfoldable pub execute_job {ℓ} :
    {R : Type ℓ} → SandboxManager → List (Option ℕ) → (ℕ → Option R) → SandboxManager × Option R
unfolding find_idle_sandbox release
execute_job m keys run =
    let found = find_idle_sandbox m keys in
    elim found.1 [ none ↦ (found.0, none) | some box ↦ (release found.0 box (run box), run box) ]
