-- ===== src/Executor/Exclusion.antt =====
-- Jobs that run at the same time in the sandboxes of egvm-invoker/executor/manager.go. The lock is
-- held in findIdleSandbox and at the end of ExecuteJob, not while a job runs.
use egvm.Prelude.{
  ℕ, ◌≡◌, ◌≢◌, refl, sym, ap, ◌∙◌, subst, Bool, true, false, Bool-cases, inl, inr, Option, none,
  some, List, [], ◌∷◌, ◌++◌, arith, All, if◌then◌else◌,
}
use egvm.Executor.Distinct.{Distinct, All-map, All-map2, All-remove, Distinct-remove}
use egvm.Executor.{
  SandboxManager, same_key, set_status, new_sandbox_manager, is_idle, first_idle, find_idle_sandbox,
  release,
}

-- The manager, the sandboxes in which a job runs, one for each job, and those whose last job
-- ended with an error.
pub record State : Type 0 where
  pub manager : SandboxManager
  pub running : List ℕ
  pub dead : List ℕ

-- What can happen next: a job begins, in some traversal order, or is refused; or a job that runs
-- ends, with a result or with an error.
pub data Step : State → State → Type 0 where
  begun :
      {m m' : SandboxManager} {running dead : List ℕ} {box : ℕ} (keys : List (Option ℕ))
      → find_idle_sandbox m keys ≡ (m', some box)
      → Step
          (record { manager = m; running = running; dead = dead })
          (record { manager = m'; running = box ∷ running; dead = dead })
  refused :
      {m m' : SandboxManager} {running dead : List ℕ} (keys : List (Option ℕ))
      → find_idle_sandbox m keys ≡ (m', none)
      → Step
          (record { manager = m; running = running; dead = dead })
          (record { manager = m'; running = running; dead = dead })
  ended :
      {m : SandboxManager} {dead : List ℕ} (before after : List ℕ) (box result : ℕ)
      → Step
          (record { manager = m; running = before ++ (box ∷ after); dead = dead })
          (record { manager = release m box (some result); running = before ++ after; dead = dead })
  failed :
      {m : SandboxManager} {dead : List ℕ} (before after : List ℕ) (box : ℕ)
      → Step
          (record { manager = m; running = before ++ (box ∷ after); dead = dead })
          (record {
            manager = release {R = ℕ} m box none;
            running = before ++ after;
            dead = box ∷ dead;
          })

pub data Steps (s : State) : State → Type 0 where
  none_yet : Steps s s
  then_step : {t u : State} → Steps s t → Step t u → Steps s u

-- No sandbox runs two jobs, none that died runs one, and all of them are marked.
pub record IsExclusive (s : State) : Type 0 where
  pub distinct : Distinct s.running
  pub apart : All (λ d. All (λ r. r ≢ d) s.running) s.dead
  pub running_busy : All (λ b. s.manager.box_status_map (some b) ≡ some true) s.running
  pub dead_busy : All (λ b. s.manager.box_status_map (some b) ≡ some true) s.dead

same_key_refl : (k : Option ℕ) → same_key k k ≡ true
unfolding same_key
same_key_refl none = refl
same_key_refl (some b) = ground arith

same_key-different : (a b : ℕ) → b ≢ a → same_key (some a) (some b) ≡ false
unfolding same_key
same_key-different a b ne = ground (arith, λ (e : a ≡ b). ne (sym e))

busy-set_status :
    (m : SandboxManager) (key k : Option ℕ)
    → m.box_status_map k ≡ some true
    → (set_status m key true).box_status_map k ≡ some true
unfolding set_status
busy-set_status m key k h = elim (Bool-cases (same_key key k)) [
  | inl same ↦ rw same refl
  | inr other ↦ rw other h
]

other-set_status :
    (m : SandboxManager) (a b : ℕ)
    → b ≢ a
    → m.box_status_map (some b) ≡ some true
    → (set_status m (some a) false).box_status_map (some b) ≡ some true
unfolding set_status
other-set_status m a b ne h = rw (same_key-different a b ne) h

is_idle-false : (o : Option Bool) → is_idle o ≡ true → o ≡ some false
is_idle-false none h = cc
is_idle-false (some true) h = cc
is_idle-false (some false) h = refl

first_idle-status :
    (m : SandboxManager) (keys : List (Option ℕ)) (box : ℕ)
    → first_idle m keys ≡ some box
    → m.box_status_map (some box) ≡ some false
unfolding first_idle
first_idle-status m [] box e = cc
first_idle-status m (key ∷ keys) box e = elim (Bool-cases (is_idle (m.box_status_map key))) [
  | inl idle ↦
      let here : key ≡ some box =
        subst (λ c. (if c then key else first_idle m keys) ≡ some box) idle e in
      subst (λ k. m.box_status_map k ≡ some false) here (is_idle-false (m.box_status_map key) idle)
  | inr busy ↦
      first_idle-status m keys box
        (subst (λ c. (if c then key else first_idle m keys) ≡ some box) busy e)
]

-- What findIdleSandbox gives back: its map, and a sandbox that was idle.
found :
    (m m' : SandboxManager) (keys : List (Option ℕ)) (box : Option ℕ)
    → find_idle_sandbox m keys ≡ (m', box)
    → (set_status m box true ≡ m') × (first_idle m keys ≡ box)
unfolding find_idle_sandbox
found m m' keys box e =
    let same : first_idle m keys ≡ box = ap (λ (r : SandboxManager × Option ℕ). r.1) e in
    (ap (λ k. set_status m k true) (sym same) ∙ ap (λ (r : SandboxManager × Option ℕ). r.0) e, same)

busy_differs :
    (m : SandboxManager) (a b : ℕ)
    → m.box_status_map (some a) ≡ some false
    → m.box_status_map (some b) ≡ some true
    → b ≢ a
busy_differs m a b idle busy e =
    let clash : some true ≡ some false = sym busy ∙ ap (λ k. m.box_status_map (some k)) e ∙ idle in
    cc clash

still_busy :
    (m m' : SandboxManager) (keys : List (Option ℕ)) (box : Option ℕ) (boxes : List ℕ)
    → find_idle_sandbox m keys ≡ (m', box)
    → All (λ b. m.box_status_map (some b) ≡ some true) boxes
    → All (λ b. m'.box_status_map (some b) ≡ some true) boxes
still_busy m m' keys box boxes e h =
    All-map
      (λ b busy.
        subst (λ (n : SandboxManager). n.box_status_map (some b) ≡ some true)
          ((found m m' keys box e).0) (busy-set_status m box (some b) busy))
      boxes h

chosen_busy :
    (m m' : SandboxManager) (keys : List (Option ℕ)) (box : ℕ)
    → find_idle_sandbox m keys ≡ (m', some box)
    → m'.box_status_map (some box) ≡ some true
unfolding set_status
chosen_busy m m' keys box e =
    subst (λ (n : SandboxManager). n.box_status_map (some box) ≡ some true)
      ((found m m' keys (some box) e).0) (rw (same_key_refl (some box)) refl)

released_busy :
    (m : SandboxManager) (box result : ℕ) (boxes : List ℕ)
    → All (λ b. b ≢ box) boxes
    → All (λ b. m.box_status_map (some b) ≡ some true) boxes
    → All (λ b. (release m box (some result)).box_status_map (some b) ≡ some true) boxes
unfolding release
released_busy m box result [] ne h = tt
released_busy m box result (b ∷ boxes) ne h =
    (other-set_status m box b ne.0 h.0, released_busy m box result boxes ne.1 h.1)

-- An initial state: idle or unknown sandboxes, and no job.
abbrev pub initial : ℕ → List ℕ → State
initial first boxes = record { manager = new_sandbox_manager first boxes; running = []; dead = [] }

Step-IsExclusive : {s t : State} → Step s t → IsExclusive s → IsExclusive t
unfolding release
Step-IsExclusive (begun {m} {m'} {running} {dead} {box} keys e) h =
    let idle = first_idle-status m keys box ((found m m' keys (some box) e).1) in
    record {
      distinct =
          (All-map (λ b busy. busy_differs m box b idle busy) running h.running_busy, h.distinct);
      apart =
          All-map2
            (λ d busy others. (λ (eq : box ≡ d). busy_differs m box d idle busy (sym eq), others))
            dead h.dead_busy h.apart;
      running_busy =
          (chosen_busy m m' keys box e, still_busy m m' keys (some box) running e h.running_busy);
      dead_busy = still_busy m m' keys (some box) dead e h.dead_busy;
    }
Step-IsExclusive (refused {m} {m'} {running} {dead} keys e) h = record {
  distinct = h.distinct;
  apart = h.apart;
  running_busy = still_busy m m' keys none running e h.running_busy;
  dead_busy = still_busy m m' keys none dead e h.dead_busy;
}
Step-IsExclusive (ended {m} {dead} before after box result) h =
    let (others, distinct) = Distinct-remove before after box h.distinct in
    record {
      distinct = distinct;
      apart = All-map (λ d hd. (All-remove (λ r. r ≢ d) before after box hd).1) dead h.apart;
      running_busy =
          released_busy m box result (before ++ after) others
            (All-remove (λ b. m.box_status_map (some b) ≡ some true) before after box
              h.running_busy).1;
      dead_busy =
          released_busy m box result dead
            (All-map
              (λ d hd (eq : d ≡ box). (All-remove (λ r. r ≢ d) before after box hd).0 (sym eq)) dead
              h.apart)
            h.dead_busy;
    }
Step-IsExclusive (failed {m} {dead} before after box) h =
    let (others, distinct) = Distinct-remove before after box h.distinct in
    let busy =
      All-remove (λ b. m.box_status_map (some b) ≡ some true) before after box h.running_busy in
    record {
      distinct = distinct;
      apart =
          (others, All-map (λ d hd. (All-remove (λ r. r ≢ d) before after box hd).1) dead h.apart);
      running_busy = busy.1;
      dead_busy = (busy.0, h.dead_busy);
    }

-- Whatever jobs begin, are refused, end or fail, in any interleaving and any traversal orders of
-- the map, from a manager that was just made: no sandbox ever runs two jobs at a time, a sandbox
-- whose job failed never runs another, and the map marks all these sandboxes as busy.
pub Steps-IsExclusive :
    (first : ℕ) (boxes : List ℕ) (s : State) → Steps (initial first boxes) s → IsExclusive s
Steps-IsExclusive first boxes s none_yet = record {
  distinct = tt;
  apart = tt;
  running_busy = tt;
  dead_busy = tt;
}
Steps-IsExclusive first boxes s (then_step {t} steps step) =
    Step-IsExclusive step (Steps-IsExclusive first boxes t steps)
