-- ===== src/Indexer/Context/Logs.antt =====
-- What HandleBlock of indexer/context.go does to a context that NewContext made.
use egvm.Prelude.{
  ◌≡◌, refl, ap, Bool-cases, Option, Option-cases, inl, inr, none, some, List, [], ◌∷◌,
}
use egvm.Outcome.{Outcome, ok, panic, ◌>>=◌, runtime_error}
use egvm.Bytes.{Bytes, equal_bytes}
use egvm.Indexer.Context.{
  Block, ContextLib, Context, SimpleTx, add_tx, select_txs, get_block_for_contract, new_context,
  write_hasher, handle_block, dump_recovery,
}

-- A result, or a panic of the runtime.
abbrev Runs {ℓ} : {A : Type ℓ} → Outcome A → Type 0
Runs (ok a) = Unit
Runs (panic p) = p ≡ runtime_error

Runs-bind {ℓ κ} :
    {A : Type ℓ} {B : Type κ} (o : Outcome A) (go : A → Outcome B)
    → Runs o
    → ((a : A) → Runs (go a))
    → Runs (o >>= go)
Runs-bind (ok a) go r later = later a
Runs-bind (panic p) go r later = r

panics_later {ℓ κ} :
    {A : Type ℓ} {B : Type κ} (o : Outcome A) (go : A → Outcome B)
    → Runs o
    → ((a : A) → go a ≡ panic runtime_error)
    → (o >>= go) ≡ panic runtime_error
panics_later (ok a) go r later = later a
panics_later (panic p) go r later = ap panic r

add_tx-Runs :
    (sender : Option Bytes) (payload : Bytes) (rest : Outcome (List SimpleTx))
    → Runs rest
    → Runs (add_tx sender payload rest)
unfolding add_tx
add_tx-Runs none payload rest r = r
add_tx-Runs (some s) payload rest r = Runs-bind rest _ r (λ txs. tt)

module _ (lib : ContextLib) where
  select_txs-Runs : (contract : Bytes) (txs : List Bytes) → Runs (select_txs lib contract txs)
  unfolding select_txs
  select_txs-Runs contract [] = tt
  select_txs-Runs contract (raw ∷ raws) =
      let rest = select_txs-Runs contract raws in
      elim (Option-cases (lib.decode_rlp raw)) [
        | inl skipped ↦ rw (skipped, select_txs) rest
        | inr (tx, decoded) ↦ elim (Option-cases tx.to) [
          | inl creation ↦ rw (decoded, select_txs) (rw creation refl)
          | inr (to, called) ↦ elim (Bool-cases (equal_bytes to contract)) [
            | inl same ↦ rw (decoded, select_txs) (rw called (rw same (add_tx-Runs _ _ _ rest)))
            | inr differs ↦ rw (decoded, select_txs) (rw called (rw differs rest))
          ]
        ]
      ]

  get_block_for_contract-Runs :
      (contract : Bytes) (blk : Block) → Runs (get_block_for_contract lib contract blk)
  unfolding get_block_for_contract
  get_block_for_contract-Runs contract blk =
      Runs-bind (select_txs lib contract blk.txs) _ (select_txs-Runs contract blk.txs) (λ txs. tt)

  -- A context made by NewContext cannot handle any block, nor can its recovery file be written:
  -- both end in a panic of the runtime, whatever the block, the contract and the log files are,
  -- because the hashers are nil.
  pub new_context_panics :
      (vm : lib.VM) (contract input output : Bytes) (blk : Block)
      → (handle_block lib (new_context lib vm input output) contract blk ≡ panic runtime_error)
        × (dump_recovery lib (new_context lib vm input output) ≡ panic runtime_error)
  unfolding handle_block new_context write_hasher dump_recovery
  new_context_panics vm contract input output blk = (
    panics_later (get_block_for_contract lib contract blk) _
        (get_block_for_contract-Runs contract blk) (λ b. refl),
    refl,
  )

  -- The blocks handled one after the other.
  unfoldable pub handle_blocks : Context lib → Bytes → List Block → Outcome (Context lib)
  handle_blocks c contract [] = ok c
  handle_blocks c contract (blk ∷ blks) = do
    c' ← handle_block lib c contract blk
    handle_blocks c' contract blks
