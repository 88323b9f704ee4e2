-- ===== src/ChainIndexer/Blocks/Trust.antt =====
-- What the loop of egvm-indexer/indexer.go trusts, and what a restart makes of it.
use egvm.Indexer.DataFetcher.{trusting_period, max_clock_drift}
use egvm.Prelude.{
  ℕ, ◌+◌, ◌≡◌, refl, sym, ◌∙◌, subst, true, inl, inr, not, List, [], ◌∷◌, ◌==◌, arith,
  if◌then◌else◌, ◌⊎◌, pos,
}
use egvm.Outcome.{Outcome, ok, panic, >>=-eq-ok, error_of_db}
use egvm.Bytes.{equal_bytes, equal_bytes_sound}
use egvm.Indexer.DataFetcher.{ChainLib, Answers, tendermint_chain_id}
use egvm.Indexer.DataFetcher.Trust.{guarded, Extends, IsChain, here, beyond}
use egvm.ChainIndexer.{
  StoreLib, store_txs_by_height, store_latest_trusted_header, init_latest_trusted_header,
}
use egvm.ChainIndexer.Store.{init-stored}
use egvm.ChainIndexer.Blocks.{Indexer, rotate_smart_bch_addr_list, rotate, accept, round, start}

module _ (chain : ChainLib) (lib : StoreLib chain) where
  abbrev init : Indexer chain → Outcome chain.SignedHeader
  init i = init_latest_trusted_header chain lib i.db

  -- A round either changes only the servers, or extends the trusted header and stores it.
  data Step (i i' : Indexer chain) : Type 0 where
    kept :
        i'.latest_trusted_header ≡ i.latest_trusted_header
        → i'.db ≡ i.db
        → i'.chain_id ≡ i.chain_id
        → Step i i'
    extended :
        (blk : chain.TmBlock)
        → Extends chain i.latest_trusted_header i'.latest_trusted_header blk
        → init i' ≡ panic error_of_db
        → i'.chain_id ≡ i.chain_id
        → Step i i'

  rotate-Step : (i i' : Indexer chain) → rotate chain lib i ≡ ok i' → Step i i'
  unfolding rotate
  rotate-Step i i' e =
      let (addrs, _, e₁) = >>=-eq-ok (rotate_smart_bch_addr_list i.smart_bch_addr_list) e in
      kept (cc e₁) (cc e₁) (cc e₁)

  accept-Step :
      (i i' : Indexer chain) (height : ℕ) (header : chain.SignedHeader) (blk : chain.TmBlock)
      → accept chain lib i height header blk ≡ ok i'
      → Extends chain i.latest_trusted_header header blk
      → Step i i'
  unfolding accept
  accept-Step i i' height header blk e extends =
      let (db, _, e₁) =
        >>=-eq-ok (store_txs_by_height chain lib i.db (pos height) (lib.txs_of blk)) e in
      let (db', wrote, e₂) = >>=-eq-ok (store_latest_trusted_header chain lib db header) e₁ in
      let trusted : i'.latest_trusted_header ≡ header = cc e₂ in
      let same_db : db' ≡ i'.db = cc e₂ in
      extended blk (subst (λ h. Extends chain i.latest_trusted_header h blk) (sym trusted) extends)
        (subst (λ d. init_latest_trusted_header chain lib d ≡ panic error_of_db) same_db
          (init-stored chain lib db db' header wrote))
        (cc e₂)

  -- The rest of a round, whose header has the next height and is valid.
  checked-Step :
      (i i' : Indexer chain) (net : Answers chain)
      → i.chain_id ≡ tendermint_chain_id
      → let height = chain.height_of i.latest_trusted_header + 1 in
        let addrs = i.smart_bch_addr_list in
        let header = net.get_signed_header addrs height in
        let val_set = chain.validator_set (net.get_validators addrs height) in
        let blk = net.get_block addrs height in
        (chain.height_of header == height) ≡ true
        → chain.validate_basic i.chain_id header val_set ≡ true
        → (if not (
              chain.verify_adjacent i.latest_trusted_header header val_set trusting_period net.now
                max_clock_drift)
            then rotate chain lib i
            else if not (equal_bytes (chain.block_hash blk) (chain.light_hash header val_set))
            then rotate chain lib i
            else accept chain lib i height header blk)
          ≡ ok i'
        → Step i i'
  checked-Step i i' net named same valid e =
      let height = chain.height_of i.latest_trusted_header + 1 in
      let addrs = i.smart_bch_addr_list in
      let header = net.get_signed_header addrs height in
      let val_set = chain.validator_set (net.get_validators addrs height) in
      let blk = net.get_block addrs height in
      let rotated = rotate chain lib i in
      let adjacent =
        chain.verify_adjacent i.latest_trusted_header header val_set trusting_period net.now
          max_clock_drift in
      let hashed = equal_bytes (chain.block_hash blk) (chain.light_hash header val_set) in
      elim (guarded adjacent rotated _ e) [
        | inl e₁ ↦ rotate-Step i i' e₁
        | inr (near, e₁) ↦ elim (guarded hashed rotated _ e₁) [
          | inl e₂ ↦ rotate-Step i i' e₂
          | inr (equal, e₂) ↦ accept-Step i i' height header blk e₂ (record {
            validators = val_set;
            now = net.now;
            next_height = ground (arith, same);
            valid = subst (λ c. chain.validate_basic c header val_set ≡ true) named valid;
            adjacent = near;
            hashed = equal_bytes_sound _ _ equal;
          })
        ]
      ]

  round-Step :
      (i i' : Indexer chain) (net : Answers chain)
      → i.chain_id ≡ tendermint_chain_id
      → round chain lib i net ≡ ok i'
      → Step i i'
  unfolding round
  round-Step i i' net named e =
      let height = chain.height_of i.latest_trusted_header + 1 in
      let addrs = i.smart_bch_addr_list in
      let header = net.get_signed_header addrs height in
      let val_set = chain.validator_set (net.get_validators addrs height) in
      let rotated = rotate chain lib i in
      elim (guarded (chain.height_of header == height) rotated _ e) [
        | inl e₁ ↦ rotate-Step i i' e₁
        | inr (same, e₁) ↦
            elim (guarded (chain.validate_basic i.chain_id header val_set) rotated _ e₁) [
              | inl e₂ ↦ rotate-Step i i' e₂
              | inr (valid, e₂) ↦ checked-Step i i' net named same valid e₂
            ]
      ]

  -- Whatever the servers answer, after any number of rounds the program trusts a header that a chain
  -- of checked headers links to the one that it started from; and where this chain has a block, the
  -- next start of the program panics.
  pub start-restart :
      (i i' : Indexer chain) (nets : List (Answers chain))
      → i.chain_id ≡ tendermint_chain_id
      → start chain lib i nets ≡ ok i'
      → (blks : List chain.TmBlock) × IsChain chain i.latest_trusted_header blks
          i'.latest_trusted_header
        × (((blks ≡ []) × (i'.db ≡ i.db))
            ⊎ (init_latest_trusted_header chain lib i'.db ≡ panic error_of_db))
  unfolding start
  start-restart i i' [] named e =
      let same : i ≡ i' = cc e in
      (
        [],
        subst
            (λ (x : Indexer chain).
              IsChain chain i.latest_trusted_header [] x.latest_trusted_header)
            same here,
        inl (refl, cc e),
      )
  start-restart i i' (net ∷ nets) named e =
      let (next, went, e₁) = >>=-eq-ok (round chain lib i net) e in
      elim (round-Step i next net named went) [
        | kept trusted db chain_id ↦
            let (blks, linked, ending) = start-restart next i' nets (chain_id ∙ named) e₁ in
            (
              blks,
              subst (λ h. IsChain chain h blks i'.latest_trusted_header) trusted linked,
              elim ending [ inl (none, same) ↦ inl (none, same ∙ db) | inr panics ↦ inr panics ],
            )
        | extended blk extends panics chain_id ↦
            let (blks, linked, ending) = start-restart next i' nets (chain_id ∙ named) e₁ in
            (
              blk ∷ blks,
              beyond extends linked,
              elim ending [
                | inl (none, same) ↦ inr (
                    subst (λ d. init_latest_trusted_header chain lib d ≡ panic error_of_db)
                      (sym same) panics)
                | inr later ↦ inr later
              ],
            )
      ]
