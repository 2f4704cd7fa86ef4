-- ===== src/Tests/Ingestion.antt =====
-- Runs of the ingestion: indexer/src/ingest.ts and indexer/src/store.ts.
use sealedstellar.Common.{List, [], ◌∷◌, none, ok, err, ◌≡◌}
use sealedstellar.Common.Int.{pos}
use sealedstellar.Indexer.Store.{empty_store, bids_at, refunds, Write, write}
use sealedstellar.Indexer.Store.Replay.{write-again}
use sealedstellar.Indexer.Store.Keys.{IsValid}
use sealedstellar.Indexer.Chain.{Chain, ChainError}
use sealedstellar.Indexer.Ingest.Validity.{ingest, ingest-IsValid}
use sealedstellar.Indexer.Value.{Value, Fields}
use sealedstellar.Indexer.Runtime.{integer}
use sealedstellar.Tests.Fixtures.{unary_runtime, three_auctions}

-- A chain with one bid and no auction that it would show.
abbrev one_bid : Chain
one_bid = record {
  get_auction = λ id. err (ChainError.contract_error (integer (pos 1)));
  get_token_symbol = λ id. ok "tUSDC";
  latest_ledger = ok 7;
  contract_events = λ from. ok (
    record {
      name = "bid_placed";
      auction_id = 1;
      payload =
          Fields.field "slot_index" (Value.num (integer (pos 0)))
            (Fields.field "bidder" (Value.text "bob") Fields.end);
      tx_hash = none;
    }
        ∷ [],
    7,
  );
}

empty_store-IsValid : IsValid empty_store
empty_store-IsValid = record { ids = tt; slots = tt; statuses = tt; flags = tt }

ingest-IsValid_example : IsValid (ingest unary_runtime 3 one_bid (one_bid ∷ []) empty_store)
ingest-IsValid_example =
    ingest-IsValid unary_runtime 3 one_bid (one_bid ∷ []) empty_store empty_store-IsValid

abbrev few_writes : List Write
few_writes = bids_at 1 0 "bob" ∷ bids_at 1 0 "eve" ∷ refunds 1 ∷ []

write-again_example :
    write (refunds 1) (write (refunds 1) three_auctions) ≡ write (refunds 1) three_auctions
write-again_example = write-again (refunds 1) three_auctions
