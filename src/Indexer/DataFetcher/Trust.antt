-- ===== src/Indexer/DataFetcher/Trust.antt =====
-- What the loop of indexer/datafetcher.go trusts.
use mathlib.Core.List.{map}
use egvm.Prelude.{
  ℕ, ◌+◌, ◌≡◌, refl, sym, ap, ◌∙◌, subst, Bool, true, false, inl, inr, not, List, [], ◌∷◌, ◌==◌,
  arith, if◌then◌else◌, ◌⊎◌,
}
use egvm.Outcome.{Outcome, ok, ◌>>=◌, >>=-eq-ok}
use egvm.Bytes.{equal_bytes, equal_bytes_sound}
use egvm.Indexer.Context.{ContextLib, handle_block}
use egvm.Indexer.Context.Logs.{handle_blocks}
use egvm.Indexer.DataFetcher.{
  ChainLib, Answers, DataFetcher, rotate_list, rotate, dump_if_due, accept, round, start,
  tendermint_chain_id, trusting_period, max_clock_drift,
}

-- Which way a guard `if !b { … }` went.
pub guarded {ℓ} :
    {A : Type ℓ} {r : A} (b : Bool) (early later : Outcome A)
    → (if not b then early else later) ≡ ok r
    → (early ≡ ok r) ⊎ ((b ≡ true) × (later ≡ ok r))
guarded false early later e = inl e
guarded true early later e = inr (refl, e)

module _ (chain : ChainLib) where
  -- A header and a block that extend a trusted header: the height is the next one, the light block
  -- is valid for the chain and adjacent at some time, and the block has its hash.
  pub record Extends (trusted header : chain.SignedHeader) (blk : chain.TmBlock) : Type 0 where
    pub validators : chain.ValidatorSet
    pub now : ℕ
    pub next_height : chain.height_of header ≡ chain.height_of trusted + 1
    pub valid : chain.validate_basic tendermint_chain_id header validators ≡ true
    pub adjacent :
        chain.verify_adjacent trusted header validators trusting_period now max_clock_drift ≡ true
    pub hashed : chain.block_hash blk ≡ chain.light_hash header validators

  -- A chain of headers and blocks from one trusted header to another.
  pub data IsChain : chain.SignedHeader → List chain.TmBlock → chain.SignedHeader → Type 0 where
    here : {h : chain.SignedHeader} → IsChain h [] h
    beyond :
        {h m n : chain.SignedHeader} {blk : chain.TmBlock} {blks : List chain.TmBlock}
        → Extends h m blk
        → IsChain m blks n
        → IsChain h (blk ∷ blks) n

module _ (chain : ChainLib) (lib : ContextLib) where
  -- A round either keeps the trusted header and the context, or extends the header by a block
  -- that the context handles.
  data Step (df df' : DataFetcher chain lib) : Type 0 where
    kept : df'.latest_trusted_header ≡ df.latest_trusted_header → df'.ctx ≡ df.ctx → Step df df'
    extended :
        (blk : chain.TmBlock)
        → Extends chain df.latest_trusted_header df'.latest_trusted_header blk
        → handle_block lib df.ctx df.contract_address (chain.view blk) ≡ ok df'.ctx
        → Step df df'

  rotate-kept :
      (df df' : DataFetcher chain lib)
      → rotate chain lib df ≡ ok df'
      → (Step df df') × (df'.contract_address ≡ df.contract_address)
  unfolding rotate
  rotate-kept df df' e =
      let (addrs, _, e₁) = >>=-eq-ok (rotate_list df.tm_server_addr_list) e in
      (kept (cc e₁) (cc e₁), cc e₁)

  accept-extended :
      (df df' : DataFetcher chain lib) (header : chain.SignedHeader) (blk : chain.TmBlock)
      → accept chain lib df header blk ≡ ok df'
      → (df'.latest_trusted_header ≡ header)
        × (handle_block lib df.ctx df.contract_address (chain.view blk) ≡ ok df'.ctx)
        × (df'.contract_address ≡ df.contract_address)
  unfolding accept
  accept-extended df df' header blk e =
      let (ctx, handled, e₁) =
        >>=-eq-ok (handle_block lib df.ctx df.contract_address (chain.view blk)) e in
      let (_, _, e₂) = >>=-eq-ok (dump_if_due chain lib (chain.view blk).height ctx) e₁ in
      (cc e₂, handled ∙ cc e₂, cc e₂)

  -- The rest of a round, whose header has the next height and is valid.
  checked-Step :
      (df df' : DataFetcher chain lib) (net : Answers chain)
      → let height = chain.height_of df.latest_trusted_header + 1 in
        let addrs = df.tm_server_addr_list in
        let header = net.get_signed_header addrs height in
        let validators = chain.validator_set (net.get_validators addrs height) in
        let blk = net.get_block addrs height in
        (chain.height_of header == height) ≡ true
        → chain.validate_basic tendermint_chain_id header validators ≡ true
        → (if not (
              chain.verify_adjacent df.latest_trusted_header header validators trusting_period
                net.now max_clock_drift)
            then rotate chain lib df
            else if not (equal_bytes (chain.block_hash blk) (chain.light_hash header validators))
            then rotate chain lib df
            else accept chain lib df header blk)
          ≡ ok df'
        → (Step df df') × (df'.contract_address ≡ df.contract_address)
  checked-Step df df' net same valid e =
      let height = chain.height_of df.latest_trusted_header + 1 in
      let addrs = df.tm_server_addr_list in
      let header = net.get_signed_header addrs height in
      let validators = chain.validator_set (net.get_validators addrs height) in
      let blk = net.get_block addrs height in
      let rotated = rotate chain lib df in
      let adjacent =
        chain.verify_adjacent df.latest_trusted_header header validators trusting_period net.now
          max_clock_drift in
      let hashed = equal_bytes (chain.block_hash blk) (chain.light_hash header validators) in
      elim (guarded adjacent rotated _ e) [
        | inl e₁ ↦ rotate-kept df df' e₁
        | inr (near, e₁) ↦ elim (guarded hashed rotated _ e₁) [
          | inl e₂ ↦ rotate-kept df df' e₂
          | inr (equal, e₂) ↦
              let (trusted, handled, kept_address) = accept-extended df df' header blk e₂ in
              let extends : Extends chain df.latest_trusted_header header blk = record {
                validators = validators;
                now = net.now;
                next_height = ground (arith, same);
                valid = valid;
                adjacent = near;
                hashed = equal_bytes_sound _ _ equal;
              } in
              (
                extended blk
                    (subst (λ h. Extends chain df.latest_trusted_header h blk) (sym trusted)
                      extends)
                    handled,
                kept_address,
              )
        ]
      ]

  round-Step :
      (df df' : DataFetcher chain lib) (net : Answers chain)
      → round chain lib df net ≡ ok df'
      → (Step df df') × (df'.contract_address ≡ df.contract_address)
  unfolding round
  round-Step df df' net e =
      let height = chain.height_of df.latest_trusted_header + 1 in
      let addrs = df.tm_server_addr_list in
      let header = net.get_signed_header addrs height in
      let validators = chain.validator_set (net.get_validators addrs height) in
      let blk = net.get_block addrs height in
      let rotated = rotate chain lib df in
      elim (guarded (chain.height_of header == height) rotated _ e) [
        | inl e₁ ↦ rotate-kept df df' e₁
        | inr (same, e₁) ↦
            elim (guarded (chain.validate_basic tendermint_chain_id header validators) rotated _
              e₁) [
                | inl e₂ ↦ rotate-kept df df' e₂
                | inr (valid, e₂) ↦ checked-Step df df' net same valid e₂
              ]
      ]

  -- Whatever the servers answer, after any number of rounds the fetcher trusts a header that a chain
  -- of checked headers, each at the next height and adjacent to the one before it, links to the
  -- header that it started from; and the contract was given exactly the blocks with the hashes of
  -- these headers, in their order, and no others.
  pub start-IsChain :
      (df df' : DataFetcher chain lib) (nets : List (Answers chain))
      → start chain lib df nets ≡ ok df'
      → (blks : List chain.TmBlock) × IsChain chain df.latest_trusted_header blks
          df'.latest_trusted_header
        × (handle_blocks lib df.ctx df.contract_address (map chain.view blks) ≡ ok df'.ctx)
  unfolding start handle_blocks
  start-IsChain df df' [] e =
      let same : df ≡ df' = cc e in
      (
        [],
        subst
            (λ (d : DataFetcher chain lib).
              IsChain chain df.latest_trusted_header [] d.latest_trusted_header)
            same here,
        ap (λ (d : DataFetcher chain lib). ok d.ctx) same,
      )
  start-IsChain df df' (net ∷ nets) e =
      let (next, went, e₁) = >>=-eq-ok (round chain lib df net) e in
      let (step, same) = round-Step df next net went in
      let (blks, linked, handled) = start-IsChain next df' nets e₁ in
      let at_address : handle_blocks lib next.ctx df.contract_address (map chain.view blks)
          ≡ ok df'.ctx =
        ap (λ a. handle_blocks lib next.ctx a (map chain.view blks)) (sym same) ∙ handled in
      elim step [
        | kept trusted ctx ↦ (
          blks,
          subst (λ h. IsChain chain h blks df'.latest_trusted_header) trusted linked,
          ap (λ c. handle_blocks lib c df.contract_address (map chain.view blks)) (sym ctx)
              ∙ at_address,
        )
        | extended blk extends run ↦ (
          blk ∷ blks,
          beyond extends linked,
          ap (λ o. o >>= λ c. handle_blocks lib c df.contract_address (map chain.view blks)) run
              ∙ at_address,
        )
      ]
