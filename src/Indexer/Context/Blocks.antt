-- ===== src/Indexer/Context/Blocks.antt =====
-- The blocks that getBlockForContract of indexer/context.go makes.
use egvm.Prelude.{
  ◌≡◌, refl, sym, ap, ◌∙◌, Bool, true, false, Option, none, some, List, [], ◌∷◌, ◌++◌, All,
  if◌then◌else◌,
}
use egvm.Outcome.{Outcome, ok, panic, outcome_of, ◌>>=◌, runtime_error}
use egvm.Bytes.{Bytes, equal_bytes}
use egvm.Indexer.Context.{
  SimpleTx, Block, Transaction, ContextLib, add_tx, select_txs, get_block_for_contract,
}

-- The values that are there, in order.
unfoldable pub collect_some {ℓ κ} : {A : Type ℓ} {B : Type κ} → (A → Option B) → List A → List B
collect_some f [] = []
collect_some f (a ∷ rest) = elim (f a) [
  | none ↦ collect_some f rest
  | some b ↦ b ∷ collect_some f rest
]

module _ (lib : ContextLib) where
  -- A transaction that decodes is a call of a contract or a transfer, not a contract's creation.
  abbrev pub HasReceiver : Option Transaction → Type 0
  HasReceiver none = Unit
  HasReceiver (some tx) = (to : Bytes) × (tx.to ≡ some to)

  -- A decoded transaction as the contract's script sees it: with its sender, where its receiver
  -- is the contract.
  abbrev pub simple_if : Option Bytes → Bytes → Bool → Option SimpleTx
  simple_if sender payload false = none
  simple_if none payload true = none
  simple_if (some s) payload true = some (record { sender = s; tx_data = payload })

  abbrev pub seen_of : Bytes → Transaction → Option Bytes → Option SimpleTx
  seen_of contract tx none = none
  seen_of contract tx (some to) = simple_if (lib.sender tx) tx.tx_data (equal_bytes to contract)

  abbrev pub seen : Bytes → Option Transaction → Option SimpleTx
  seen contract none = none
  seen contract (some tx) = seen_of contract tx tx.to

  -- The two halves of a step of the loop, on what the parameters gave.
  add_or_not : Option Bytes → Bytes → Bool → Outcome (List SimpleTx) → Outcome (List SimpleTx)
  add_or_not sender payload mine rest = if mine then add_tx sender payload rest else rest

  abbrev add_seen : Option SimpleTx → List SimpleTx → List SimpleTx
  add_seen none txs = txs
  add_seen (some s) txs = s ∷ txs

  add_or_not-seen :
      (sender : Option Bytes) (payload : Bytes) (mine : Bool) (txs : List SimpleTx)
      → add_or_not sender payload mine (ok txs) ≡ ok (add_seen (simple_if sender payload mine) txs)
  unfolding add_or_not add_tx
  add_or_not-seen sender payload false txs = refl
  add_or_not-seen none payload true txs = refl
  add_or_not-seen (some s) payload true txs = refl

  add_or_not-panic :
      (sender : Option Bytes) (payload : Bytes) (mine : Bool)
      → add_or_not sender payload mine (panic runtime_error) ≡ panic runtime_error
  unfolding add_or_not add_tx
  add_or_not-panic sender payload false = refl
  add_or_not-panic none payload true = refl
  add_or_not-panic (some s) payload true = refl

  unfoldable step : Bytes → Option Transaction → Outcome (List SimpleTx) → Outcome (List SimpleTx)
  unfolding add_or_not
  step contract none rest = rest
  step contract (some tx) rest = do
    to ← outcome_of runtime_error tx.to
    add_or_not (lib.sender tx) tx.tx_data (equal_bytes to contract) rest

  select_txs-step :
      (contract raw : Bytes) (raws : List Bytes)
      → select_txs lib contract (raw ∷ raws)
        ≡ step contract (lib.decode_rlp raw) (select_txs lib contract raws)
  unfolding select_txs step
  select_txs-step contract raw raws =
      elim (lib.decode_rlp raw)
        as (λ o.
          elim o [
            | none ↦ select_txs lib contract raws
            | some tx ↦
                (outcome_of runtime_error tx.to >>= λ to.
                if equal_bytes to contract
                then add_tx (lib.sender tx) tx.tx_data (select_txs lib contract raws)
                else select_txs lib contract raws)
          ]
          ≡ step contract o (select_txs lib contract raws)) [ none ↦ refl | some tx ↦ refl ]

  step-seen :
      (contract : Bytes) (o : Option Transaction) (txs : List SimpleTx)
      → HasReceiver o
      → step contract o (ok txs) ≡ ok (add_seen (seen contract o) txs)
  unfolding step
  step-seen contract none txs h = refl
  step-seen contract (some tx) txs (to, e) =
      ap
        (λ o. outcome_of runtime_error o >>= λ t.
          add_or_not (lib.sender tx) tx.tx_data (equal_bytes t contract) (ok txs))
        e
      ∙ add_or_not-seen (lib.sender tx) tx.tx_data (equal_bytes to contract) txs
      ∙ sym (ap (λ o. ok (add_seen (seen_of contract tx o) txs)) e)

  step-panic :
      (contract : Bytes) (o : Option Transaction)
      → step contract o (panic runtime_error) ≡ panic runtime_error
  unfolding step
  step-panic contract none = refl
  step-panic contract (some tx) =
      elim tx.to
        as (λ to.
          (outcome_of runtime_error to >>= λ t.
          add_or_not (lib.sender tx) tx.tx_data (equal_bytes t contract) (panic runtime_error))
          ≡ panic runtime_error) [
            | none ↦ refl
            | some to ↦ add_or_not-panic (lib.sender tx) tx.tx_data (equal_bytes to contract)
          ]

  collect_some-add :
      (f : Bytes → Option SimpleTx) (raw : Bytes) (raws : List Bytes)
      → collect_some f (raw ∷ raws) ≡ add_seen (f raw) (collect_some f raws)
  unfolding collect_some
  collect_some-add f raw raws =
      elim (f raw)
        as (λ o.
          elim o [ none ↦ collect_some f raws | some b ↦ b ∷ collect_some f raws ]
          ≡ add_seen o (collect_some f raws)) [ none ↦ refl | some b ↦ refl ]

  select_txs-seen :
      (contract : Bytes) (raws : List Bytes)
      → All (λ raw. HasReceiver (lib.decode_rlp raw)) raws
      → select_txs lib contract raws
        ≡ ok (collect_some (λ raw. seen contract (lib.decode_rlp raw)) raws)
  unfolding select_txs collect_some
  select_txs-seen contract [] h = refl
  select_txs-seen contract (raw ∷ raws) h =
      select_txs-step contract raw raws
      ∙ ap (step contract (lib.decode_rlp raw)) (select_txs-seen contract raws h.1)
      ∙ step-seen contract (lib.decode_rlp raw) _ h.0
      ∙ ap ok (sym (collect_some-add (λ r. seen contract (lib.decode_rlp r)) raw raws))

  -- In a block none of whose transactions creates a contract, the contract's block has the height
  -- and the time of the block, and exactly the transactions that decode, go to the contract and
  -- have a sender, in their order, each with its sender and its data.
  pub get_block_for_contract_exact :
      (contract : Bytes) (blk : Block)
      → All (λ raw. HasReceiver (lib.decode_rlp raw)) blk.txs
      → get_block_for_contract lib contract blk
        ≡ ok (record {
          height = blk.height;
          timestamp = blk.unix_milli;
          tx_list = collect_some (λ raw. seen contract (lib.decode_rlp raw)) blk.txs;
        })
  unfolding get_block_for_contract
  get_block_for_contract_exact contract blk h = rw (select_txs-seen contract blk.txs h) refl

  select_txs-creation :
      (contract raw : Bytes) (tx : Transaction) (before after : List Bytes)
      → lib.decode_rlp raw ≡ some tx
      → tx.to ≡ none
      → select_txs lib contract (before ++ (raw ∷ after)) ≡ panic runtime_error
  unfolding step
  select_txs-creation contract raw tx [] after d e =
      select_txs-step contract raw after ∙ rw (d, e) refl
  select_txs-creation contract raw tx (other ∷ before) after d e =
      select_txs-step contract other (before ++ (raw ∷ after))
      ∙ ap (step contract (lib.decode_rlp other))
          (select_txs-creation contract raw tx before after d e)
      ∙ step-panic contract (lib.decode_rlp other)

  -- A block with a transaction that creates a contract, wherever it stands and whichever contract
  -- is followed, makes getBlockForContract panic.
  pub creation_panics :
      (contract raw : Bytes) (tx : Transaction) (blk : Block) (before after : List Bytes)
      → lib.decode_rlp raw ≡ some tx
      → tx.to ≡ none
      → blk.txs ≡ before ++ (raw ∷ after)
      → get_block_for_contract lib contract blk ≡ panic runtime_error
  unfolding get_block_for_contract
  creation_panics contract raw tx blk before after d e same =
      rw (same, select_txs-creation contract raw tx before after d e) refl
