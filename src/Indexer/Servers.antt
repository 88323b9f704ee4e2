-- ===== src/Indexer/Servers.antt =====
-- indexer/tm.go: asking a list of servers for a header, for validators or for a block until one
-- answers. HTTP and Tendermint's decoders come from packages that are not part of the repository;
-- they are parameters. An attempt is numbered, since a server may answer each one differently.
pub mod Attempts
use egvm.Prelude.{
  ℕ, zero, suc, ◌+◌, ◌-◌, ◌/◌, ◌%◌, ◌≡◌, Bool, true, false, not, Option, none, some, List, [], ◌∷◌,
  ◌++◌, length, ltb, ◌==◌, if◌then◌else◌,
}
use egvm.Outcome.{Outcome, ok, panic, ◌>>=◌, runtime_error}
use egvm.Bytes.{Bytes}
use egvm.Decimal.{digits}
use egvm.Http.{Response, no_response, response}

pub record RpcLib : Type 1 where
  pub get : ℕ → Bytes → Response
  -- UnmarshalJSON of an RPCResponse: its field Result
  pub unmarshal_rpc : Bytes → Option Bytes
  -- tmjson.Unmarshal of a ResultCommit, a ResultValidators and a ResultBlock
  pub SignedHeader : Type 0
  pub Validators : Type 0
  pub TmBlock : Type 0
  pub unmarshal_commit : Bytes → Option SignedHeader
  pub unmarshal_validators : Bytes → Option Validators
  pub unmarshal_block : Bytes → Option TmBlock

-- strings.HasPrefix, strings.Contains and strings.ReplaceAll of a string that is not empty
unfoldable pub has_prefix : Bytes → Bytes → Bool
has_prefix [] s = true
has_prefix (p ∷ ps) [] = false
has_prefix (p ∷ ps) (c ∷ s) = let rest = has_prefix ps s in if p == c then rest else false

unfoldable pub contains : Bytes → Bytes → Bool
unfolding has_prefix
contains sub [] = has_prefix sub []
contains sub (c ∷ s) = let rest = contains sub s in if has_prefix sub (c ∷ s) then true else rest

-- From behind the next `skip` bytes on.
unfoldable pub replace_from : Bytes → Bytes → ℕ → Bytes → Bytes
unfolding has_prefix
replace_from old new skip [] = []
replace_from old new (suc skip) (c ∷ s) = replace_from old new skip s
replace_from old new zero (c ∷ s) =
    let behind = replace_from old new (length old - 1) s in
    let rest = replace_from old new 0 s in
    if has_prefix old (c ∷ s) then new ++ behind else c ∷ rest

unfoldable pub replace_all : Bytes → Bytes → Bytes → Bytes
unfolding replace_from
replace_all old new s = replace_from old new 0 s

-- "8545" and "26657"
abbrev pub rpc_port : Bytes
rpc_port = 56 ∷ 53 ∷ 52 ∷ 53 ∷ []

abbrev pub tm_port : Bytes
tm_port = 50 ∷ 54 ∷ 54 ∷ 53 ∷ 55 ∷ []

-- "?height="
abbrev pub height_query : Bytes
height_query = 63 ∷ 104 ∷ 101 ∷ 105 ∷ 103 ∷ 104 ∷ 116 ∷ 61 ∷ []

-- "/commit", "/validators" and "/block"
abbrev pub commit_path : Bytes
commit_path = 47 ∷ 99 ∷ 111 ∷ 109 ∷ 109 ∷ 105 ∷ 116 ∷ []

abbrev pub validators_path : Bytes
validators_path = 47 ∷ 118 ∷ 97 ∷ 108 ∷ 105 ∷ 100 ∷ 97 ∷ 116 ∷ 111 ∷ 114 ∷ 115 ∷ []

abbrev pub block_path : Bytes
block_path = 47 ∷ 98 ∷ 108 ∷ 111 ∷ 99 ∷ 107 ∷ []

-- Decoding a body: `none` where either decoder fails.
abbrev pub decoded {ℓ} :
    {A : Type ℓ} → (Bytes → Option Bytes) → (Bytes → Option A) → Option Bytes → Option A
decoded first second none = none
decoded first second (some body) = elim (first body) [ none ↦ none | some r ↦ second r ]

-- What the three functions …ByNumber make of a response: `resp.Body` of a nil response is a panic,
-- since the error of http.Get is not looked at before it; another error is `none`.
unfoldable pub answer_of {ℓ} :
    {A : Type ℓ} → (Bytes → Option Bytes) → (Bytes → Option A) → Response → Outcome (Option A)
answer_of first second no_response = panic runtime_error
answer_of first second (response status body) =
    if not (status == 200) then ok none else ok (decoded first second body)

module _ (lib : RpcLib) where
  unfoldable pub by_number {ℓ} :
      {A : Type ℓ} → Bytes → (Bytes → Option A) → ℕ → Bytes → ℕ → Outcome (Option A)
  unfolding digits answer_of
  by_number path unmarshal attempt url height =
      answer_of lib.unmarshal_rpc unmarshal
        (lib.get attempt (url ++ (path ++ (height_query ++ digits 20 height))))

  -- A pass over the servers: what the first success gave, and the number of the next attempt.
  unfoldable pub try_all {ℓ} :
      {A : Type ℓ} → (ℕ → Bytes → Outcome (Option A)) → ℕ → List Bytes → Outcome (Option A × ℕ)
  unfolding contains replace_all
  try_all ask attempt [] = ok (none, attempt)
  try_all ask attempt (addr ∷ addrs) =
      let skipped = try_all ask attempt addrs in
      let failed = try_all ask (attempt + 1) addrs in
      if not (contains rpc_port addr)
      then skipped
      else (ask attempt (replace_all rpc_port tm_port addr) >>= λ r. elim r [
        | some a ↦ ok (some a, attempt + 1)
        | none ↦ failed
      ])

  -- Passes, as many as the fuel: `none` means that it ran out.
  unfoldable pub ask_until {ℓ} :
      {A : Type ℓ} → (ℕ → Bytes → Outcome (Option A)) → ℕ → ℕ → List Bytes → Outcome (Option A)
  unfolding try_all
  ask_until ask zero attempt addrs = ok none
  ask_until ask (suc fuel) attempt addrs = try_all ask attempt addrs >>= λ (r, next). elim r [
    | some a ↦ ok (some a)
    | none ↦ ask_until ask fuel next addrs
  ]

  -- getSignedHeaderByNumber, getValidatorsByNumber and getBlockByNumber
  unfoldable pub get_signed_header_by_number : ℕ → ℕ → Bytes → Outcome (Option lib.SignedHeader)
  unfolding by_number
  get_signed_header_by_number height attempt url =
      by_number commit_path lib.unmarshal_commit attempt url height

  unfoldable pub get_validators_by_number : ℕ → ℕ → Bytes → Outcome (Option lib.Validators)
  unfolding by_number
  get_validators_by_number height attempt url =
      by_number validators_path lib.unmarshal_validators attempt url height

  unfoldable pub get_block_by_number : ℕ → ℕ → Bytes → Outcome (Option lib.TmBlock)
  unfolding by_number
  get_block_by_number height attempt url =
      by_number block_path lib.unmarshal_block attempt url height

  -- getSignedHeader, getValidators and getBlock, with fuel, from an attempt on
  unfoldable pub get_signed_header : ℕ → ℕ → List Bytes → ℕ → Outcome (Option lib.SignedHeader)
  unfolding ask_until
  get_signed_header fuel attempt addrs height =
      ask_until (get_signed_header_by_number height) fuel attempt addrs

  unfoldable pub get_validators : ℕ → ℕ → List Bytes → ℕ → Outcome (Option lib.Validators)
  unfolding ask_until
  get_validators fuel attempt addrs height =
      ask_until (get_validators_by_number height) fuel attempt addrs

  unfoldable pub get_block : ℕ → ℕ → List Bytes → ℕ → Outcome (Option lib.TmBlock)
  unfolding ask_until
  get_block fuel attempt addrs height = ask_until (get_block_by_number height) fuel attempt addrs
