-- ===== src/Indexer/DataFetcher/Fresh.antt =====
-- How far the loop of indexer/datafetcher.go gets from a context that NewContext of
-- indexer/context.go made.
use mathlib.Core.List.{map}
use egvm.Prelude.{◌≡◌, refl, sym, ap, ◌∙◌, subst, List, [], ◌∷◌}
use egvm.Outcome.{ok, panic, ◌>>=◌, runtime_error}
use egvm.Bytes.{Bytes}
use egvm.Indexer.Context.{Block, ContextLib, Context, new_context, handle_block}
use egvm.Indexer.Context.Logs.{handle_blocks, new_context_panics}
use egvm.Indexer.DataFetcher.{ChainLib, Answers, DataFetcher, start}
use egvm.Indexer.DataFetcher.Trust.{IsChain, start-IsChain}

IsChain-nil : (chain : ChainLib) {h n : chain.SignedHeader} → IsChain chain h [] n → n ≡ h
IsChain-nil chain (IsChain.here) = refl

module _ (chain : ChainLib) (lib : ContextLib) where
  handle_blocks-nil :
      (vm : lib.VM) (input output contract : Bytes) (ctx ctx' : Context lib) (blks : List Block)
      → ctx ≡ new_context lib vm input output
      → handle_blocks lib ctx contract blks ≡ ok ctx'
      → (blks ≡ []) × (ctx' ≡ ctx)
  unfolding handle_blocks
  handle_blocks-nil vm input output contract ctx ctx' [] fresh e = (refl, cc e)
  handle_blocks-nil vm input output contract ctx ctx' (blk ∷ blks) fresh e =
      let fails : handle_block lib ctx contract blk ≡ panic runtime_error =
        ap (λ c. handle_block lib c contract blk) fresh
        ∙ (new_context_panics lib vm contract input output blk).0 in
      let both = sym e ∙ ap (λ o. o >>= λ c. handle_blocks lib c contract blks) fails in cc both

  map-nil : (blks : List chain.TmBlock) → map chain.view blks ≡ [] → blks ≡ []
  map-nil [] e = refl
  map-nil (b ∷ blks) e = cc e

  -- From a context that NewContext made, the loop never gets past the header that it starts from:
  -- whatever the servers answer, as long as it has not panicked it trusts that header, and the
  -- context is as it was.
  pub start-new_context :
      (vm : lib.VM) (input output : Bytes) (df df' : DataFetcher chain lib)
      (nets : List (Answers chain))
      → df.ctx ≡ new_context lib vm input output
      → start chain lib df nets ≡ ok df'
      → (df'.latest_trusted_header ≡ df.latest_trusted_header) × (df'.ctx ≡ df.ctx)
  start-new_context vm input output df df' nets fresh e =
      let (blks, linked, handled) = start-IsChain chain lib df df' nets e in
      let (none_left, kept) =
        handle_blocks-nil vm input output df.contract_address df.ctx df'.ctx (map chain.view blks)
          fresh handled in
      let no_blocks = map-nil blks none_left in
      (IsChain-nil chain (subst_blocks blks no_blocks linked), kept)
    where
      subst_blocks :
          {h n : chain.SignedHeader} (blks : List chain.TmBlock)
          → blks ≡ []
          → IsChain chain h blks n
          → IsChain chain h [] n
      subst_blocks {h} {n} blks same linked = subst (λ bs. IsChain chain h bs n) same linked
