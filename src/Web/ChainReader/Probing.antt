-- ===== src/Web/ChainReader/Probing.antt =====
-- web/src/lib/chain.ts, `listAuctions`: which auctions are in the list.
use sealedstellar.Common.{
  ℕ, zero, suc, ◌+◌, ◌<◌, ◌≡◌, ap, ◌∙◌, String, List, [], ◌∷◌, Option, ok, err, arith, length,
}
use sealedstellar.Common.Dict.{Dict}
use sealedstellar.Indexer.Value.{Value}
use sealedstellar.Indexer.Chain.{Simulation}
use sealedstellar.Web.Errors.{contract_error}
use sealedstellar.Web.ChainReader.{
  ChainView, get_auction, max_auction_probes, probe, go_on, put_first, list_auctions,
}

-- The auctions from a number on are read, one after the other, with the cache that each leaves.
pub data Reads (show : Option Value → String) (symbol_call : String → Simulation)
    (auction_call : ℕ → Simulation) : ℕ → Dict String → List ChainView → Dict String → Type 0 where
  reads_none :
      (id : ℕ) (cache : Dict String) → Reads show symbol_call auction_call id cache [] cache
  reads_one :
      (id : ℕ) (view : ChainView) (views : List ChainView) (cache after last : Dict String)
      → get_auction show symbol_call auction_call id cache ≡ (ok view, after)
      → Reads show symbol_call auction_call (suc id) after views last
      → Reads show symbol_call auction_call id cache (view ∷ views) last

module _ (show : Option Value → String) (symbol_call : String → Simulation)
    (auction_call : ℕ → Simulation) where
  probe-Reads :
      (left id : ℕ) (cache last after : Dict String) (views : List ChainView) (code : ℕ)
      → Reads show symbol_call auction_call id cache views last
      → length views < left
      → get_auction show symbol_call auction_call (id + length views) last
        ≡ (err (contract_error code), after)
      → probe show symbol_call auction_call left id cache ≡ (ok views, after)
  unfolding probe go_on
  probe-Reads zero id cache last after views code r l h = absurd (omega arith)
  probe-Reads (suc left) id cache _ after _ code (reads_none _ _) l h =
      let here : id + 0 ≡ id = omega arith in
      let stopped = rw here at h in
      ap (go_on (probe show symbol_call auction_call left (suc id))) stopped
  probe-Reads (suc left) id cache last after _ code (reads_one _ view views _ next _ got more) l h =
      let there : id + suc (length views) ≡ suc id + length views = omega arith in
      let rest =
        probe-Reads left (suc id) next last after views code more (omega arith) (rw there at h) in
      ap (go_on (probe show symbol_call auction_call left (suc id))) got ∙ ap (put_first view) rest

  -- The list from the chain holds the auctions from number 1 up to the first one whose reading ends in an error
  -- of a contract, if that is among the first 50, whichever contract's error that is: the auction contract's,
  -- for a number that is not in use, or that of one of the auction's two tokens when asked for its symbol.
  pub list_auctions-Reads :
      (cache last after : Dict String) (views : List ChainView) (code : ℕ)
      → Reads show symbol_call auction_call 1 cache views last
      → length views < max_auction_probes
      → get_auction show symbol_call auction_call (1 + length views) last
        ≡ (err (contract_error code), after)
      → list_auctions show symbol_call auction_call cache ≡ (ok views, after)
  unfolding list_auctions
  list_auctions-Reads cache last after views code reads few stopped =
      probe-Reads max_auction_probes 1 cache last after views code reads few stopped
