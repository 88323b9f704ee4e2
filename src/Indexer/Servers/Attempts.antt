-- ===== src/Indexer/Servers/Attempts.antt =====
-- When the loops of indexer/tm.go end.
use egvm.Prelude.{
  ℕ, zero, suc, ◌+◌, ◌≡◌, ◌≢◌, refl, ap, ◌∙◌, true, false, Bool-cases, inl, inr, Option, none, some,
  List, [], ◌∷◌, ◌++◌, All, ◌==◌, ◌⊎◌,
}
use egvm.Outcome.{Outcome, ok, panic, runtime_error}
use egvm.Bytes.{Bytes}
use egvm.Http.{Response, no_response, response}
use egvm.Indexer.Servers.{
  RpcLib, contains, replace_all, rpc_port, tm_port, commit_path, validators_path, block_path,
  digits, height_query, answer_of, decoded, by_number, try_all, ask_until,
  get_signed_header_by_number, get_validators_by_number, get_block_by_number, get_signed_header,
  get_validators, get_block,
}

Option-cases {ℓ} : {A : Type ℓ} (r : Option A) → (r ≡ none) ⊎ ((a : A) × (r ≡ some a))
Option-cases none = inl refl
Option-cases (some a) = inr (a, refl)

answer_of-response {ℓ} :
    {A : Type ℓ} (first : Bytes → Option Bytes) (second : Bytes → Option A) (r : Response)
    → r ≢ no_response
    → (a : Option A) × (answer_of first second r ≡ ok a)
unfolding answer_of
answer_of-response first second no_response up = absurd (up refl)
answer_of-response first second (response status body) up = elim (Bool-cases (status == 200)) [
  | inl fine ↦ (decoded first second body, rw fine refl)
  | inr bad ↦ (none, rw bad refl)
]

-- An address that the loops skip.
abbrev pub Unlisted : Bytes → Type 0
Unlisted addr = contains rpc_port addr ≡ false

module _ (lib : RpcLib) where
  try_all-Unlisted {ℓ} :
      {A : Type ℓ} (ask : ℕ → Bytes → Outcome (Option A)) (attempt : ℕ) (addrs : List Bytes)
      → All Unlisted addrs
      → try_all lib ask attempt addrs ≡ ok (none, attempt)
  unfolding try_all
  try_all-Unlisted ask attempt [] h = refl
  try_all-Unlisted ask attempt (addr ∷ addrs) h = rw h.0 (try_all-Unlisted ask attempt addrs h.1)

  ask_until-Unlisted {ℓ} :
      {A : Type ℓ} (ask : ℕ → Bytes → Outcome (Option A)) (fuel attempt : ℕ) (addrs : List Bytes)
      → All Unlisted addrs
      → ask_until lib ask fuel attempt addrs ≡ ok none
  unfolding ask_until
  ask_until-Unlisted ask zero attempt addrs h = refl
  ask_until-Unlisted ask (suc fuel) attempt addrs h =
      rw (try_all-Unlisted ask attempt addrs h) (ask_until-Unlisted ask fuel attempt addrs h)

  -- Where no address has the text "8545" in it, none of the three loops ever ends: no number of
  -- passes gives a header, validators or a block.
  pub Unlisted-never_end :
      (fuel attempt height : ℕ) (addrs : List Bytes)
      → All Unlisted addrs
      → (get_signed_header lib fuel attempt addrs height ≡ ok none)
        × (get_validators lib fuel attempt addrs height ≡ ok none)
        × (get_block lib fuel attempt addrs height ≡ ok none)
  unfolding get_signed_header get_validators get_block
  Unlisted-never_end fuel attempt height addrs h = (
    ask_until-Unlisted (get_signed_header_by_number lib height) fuel attempt addrs h,
    ask_until-Unlisted (get_validators_by_number lib height) fuel attempt addrs h,
    ask_until-Unlisted (get_block_by_number lib height) fuel attempt addrs h,
  )

  first_unreachable {ℓ} :
      {A : Type ℓ} (ask : ℕ → Bytes → Outcome (Option A)) (fuel attempt : ℕ) (addr : Bytes)
      (before after : List Bytes)
      → All Unlisted before
      → contains rpc_port addr ≡ true
      → ask attempt (replace_all rpc_port tm_port addr) ≡ panic runtime_error
      → try_all lib ask attempt (before ++ (addr ∷ after)) ≡ panic runtime_error
  unfolding try_all
  first_unreachable ask fuel attempt addr [] after h listed fails = rw listed (rw fails refl)
  first_unreachable ask fuel attempt addr (other ∷ before) after h listed fails =
      rw h.0 (first_unreachable ask fuel attempt addr before after h.1 listed fails)

  by_number-unreachable {ℓ} :
      {A : Type ℓ} (path : Bytes) (unmarshal : Bytes → Option A) (attempt height : ℕ) (url : Bytes)
      → ((u : Bytes) → lib.get attempt u ≡ no_response)
      → by_number lib path unmarshal attempt url height ≡ panic runtime_error
  unfolding by_number answer_of
  by_number-unreachable path unmarshal attempt height url down =
      ap (answer_of lib.unmarshal_rpc unmarshal)
        (down (url ++ (path ++ (height_query ++ digits 20 height))))

  -- Where the first address with "8545" in it cannot be reached at the first attempt, each of the
  -- three loops panics, whichever servers follow: the nil response is used before its error.
  pub unreachable_panics :
      (fuel attempt height : ℕ) (addr : Bytes) (before after : List Bytes)
      → All Unlisted before
      → contains rpc_port addr ≡ true
      → ((url : Bytes) → lib.get attempt url ≡ no_response)
      → let addrs = before ++ (addr ∷ after) in
        (get_signed_header lib (suc fuel) attempt addrs height ≡ panic runtime_error)
        × (get_validators lib (suc fuel) attempt addrs height ≡ panic runtime_error)
        × (get_block lib (suc fuel) attempt addrs height ≡ panic runtime_error)
  unfolding get_signed_header get_validators get_block ask_until get_signed_header_by_number
      get_validators_by_number get_block_by_number
  unreachable_panics fuel attempt height addr before after h listed down = (
    rw
        (first_unreachable (get_signed_header_by_number lib height) fuel attempt addr before after h
          listed
          (by_number-unreachable commit_path lib.unmarshal_commit attempt height
            (replace_all rpc_port tm_port addr) down))
        refl,
    rw
        (first_unreachable (get_validators_by_number lib height) fuel attempt addr before after h
          listed
          (by_number-unreachable validators_path lib.unmarshal_validators attempt height
            (replace_all rpc_port tm_port addr) down))
        refl,
    rw
        (first_unreachable (get_block_by_number lib height) fuel attempt addr before after h listed
          (by_number-unreachable block_path lib.unmarshal_block attempt height
            (replace_all rpc_port tm_port addr) down))
        refl,
  )

  -- At every attempt a request to the server at this address gives a value.
  abbrev pub IsHealthy {ℓ} : {A : Type ℓ} → (ℕ → Bytes → Outcome (Option A)) → Bytes → Type ℓ
  IsHealthy {A} ask addr =
      (attempt : ℕ) → (a : A) × (ask attempt (replace_all rpc_port tm_port addr) ≡ ok (some a))

  abbrev NeverPanics {ℓ} : {A : Type ℓ} → (ℕ → Bytes → Outcome (Option A)) → Type ℓ
  NeverPanics {A} ask = (attempt : ℕ) (url : Bytes) → (r : Option A) × (ask attempt url ≡ ok r)

  try_all-IsHealthy {ℓ} :
      {A : Type ℓ} (ask : ℕ → Bytes → Outcome (Option A)) (addr : Bytes) (before after : List Bytes)
      (attempt : ℕ)
      → NeverPanics ask
      → contains rpc_port addr ≡ true
      → IsHealthy ask addr
      → (a : A) × (next : ℕ) × (try_all lib ask attempt (before ++ (addr ∷ after))
          ≡ ok (some a, next))
  unfolding try_all
  try_all-IsHealthy ask addr [] after attempt calm listed healthy =
      let (a, e) = healthy attempt in (a, attempt + 1, rw listed (rw e refl))
  try_all-IsHealthy ask addr (other ∷ before) after attempt calm listed healthy =
      elim (Bool-cases (contains rpc_port other)) [
        | inr skip ↦
            let (a, next, e) =
              try_all-IsHealthy ask addr before after attempt calm listed healthy in
            (a, next, rw skip e)
        | inl ask_it ↦
            let (r, e) = calm attempt (replace_all rpc_port tm_port other) in
            elim (Option-cases r) [
              | inl none_e ↦
                  let (a, next, e') =
                    try_all-IsHealthy ask addr before after (attempt + 1) calm listed healthy in
                  (a, next, rw ask_it (rw (e ∙ ap ok none_e) e'))
              | inr (a, some_e) ↦ (a, attempt + 1, rw ask_it (rw (e ∙ ap ok some_e) refl))
            ]
      ]

  ask_until-IsHealthy {ℓ} :
      {A : Type ℓ} (ask : ℕ → Bytes → Outcome (Option A)) (addr : Bytes) (before after : List Bytes)
      (fuel attempt : ℕ)
      → NeverPanics ask
      → contains rpc_port addr ≡ true
      → IsHealthy ask addr
      → (a : A) × (ask_until lib ask (suc fuel) attempt (before ++ (addr ∷ after)) ≡ ok (some a))
  unfolding ask_until
  ask_until-IsHealthy ask addr before after fuel attempt calm listed healthy =
      let (a, next, e) = try_all-IsHealthy ask addr before after attempt calm listed healthy in
      (a, rw e refl)

  by_number-NeverPanics {ℓ} :
      {A : Type ℓ} (path : Bytes) (unmarshal : Bytes → Option A) (height : ℕ)
      → ((attempt : ℕ) (url : Bytes) → lib.get attempt url ≢ no_response)
      → NeverPanics (λ attempt url. by_number lib path unmarshal attempt url height)
  unfolding by_number
  by_number-NeverPanics path unmarshal height up attempt url =
      answer_of-response lib.unmarshal_rpc unmarshal _ (up attempt _)

  -- Where every request gets some response, one pass is enough: if a server of the list, with
  -- "8545" in its address, gives a value at each attempt, then each of the three loops returns one,
  -- whatever the servers in front of it answer.
  pub healthy_server_ends :
      (fuel attempt height : ℕ) (addr : Bytes) (before after : List Bytes)
      → ((t : ℕ) (url : Bytes) → lib.get t url ≢ no_response)
      → contains rpc_port addr ≡ true
      → IsHealthy (get_signed_header_by_number lib height) addr
      → IsHealthy (get_validators_by_number lib height) addr
      → IsHealthy (get_block_by_number lib height) addr
      → let addrs = before ++ (addr ∷ after) in
        (header : lib.SignedHeader) × (validators : lib.Validators) × (blk : lib.TmBlock)
        × (get_signed_header lib (suc fuel) attempt addrs height ≡ ok (some header))
        × (get_validators lib (suc fuel) attempt addrs height ≡ ok (some validators))
        × (get_block lib (suc fuel) attempt addrs height ≡ ok (some blk))
  unfolding get_signed_header get_validators get_block get_signed_header_by_number
      get_validators_by_number get_block_by_number
  healthy_server_ends fuel attempt height addr before after up listed hh hv hb =
      let (header, eh) =
        ask_until-IsHealthy (get_signed_header_by_number lib height) addr before after fuel attempt
          (by_number-NeverPanics commit_path lib.unmarshal_commit height up) listed hh in
      let (validators, ev) =
        ask_until-IsHealthy (get_validators_by_number lib height) addr before after fuel attempt
          (by_number-NeverPanics validators_path lib.unmarshal_validators height up) listed hv in
      let (blk, eb) =
        ask_until-IsHealthy (get_block_by_number lib height) addr before after fuel attempt
          (by_number-NeverPanics block_path lib.unmarshal_block height up) listed hb in
      (header, validators, blk, eh, ev, eb)
