-- ===== src/Indexer/Ingest.antt =====
-- indexer/src/ingest.ts: the backfill over the auction ids and the event sync. Log lines are left out;
-- what the chain answers during a run is an argument.
pub mod Validity
use sealedstellar.Common.{
  ℕ, zero, suc, ◌+◌, ◌-◌, max, Bool, true, false, ◌&&◌, String, List, [], ◌∷◌, Option, none, some,
  str_eq, Result, ok, err, if◌then◌else◌,
}
use sealedstellar.Common.Int.{ℤ, pos, negsuc}
use sealedstellar.Indexer.Runtime.{JsNumber, integer, fraction, not_finite, Runtime}
use sealedstellar.Indexer.Types.{Core}
use sealedstellar.Indexer.Value.{Value, text, big, num, get}
use sealedstellar.Indexer.Chain.{
  ChainError, contract_error, rpc_unreachable, DecodedBid, DecodedAuction, IndexedEvent, Chain,
}
use sealedstellar.Indexer.Store.{
  Store, Progress, has_auction, upsert_core, record_bid, mark_settled, mark_refunded,
  set_lot_reclaimed, get_cursor, set_cursor,
}

-- `'indexed' | 'not_found' | 'skipped'`
pub data Enriched : Type 0 where
  indexed not_found skipped : Enriched

abbrev pub is_not_found_code : JsNumber → Bool
is_not_found_code (integer (pos (suc zero))) = true
is_not_found_code _ = false

unfoldable pub core_of : ℕ → DecodedAuction → String → String → Core
core_of id a lot_symbol payment_symbol = record {
  id = id;
  seller = a.seller;
  rwa_token = a.rwa_token;
  lot_symbol = lot_symbol;
  lot_amount = a.lot_amount;
  payment_token = a.payment_token;
  payment_symbol = payment_symbol;
  max_price = a.max_price;
  commit_deadline = a.commit_deadline;
  grace_period = a.grace_period;
  status = a.status;
  lot_reclaimed = a.lot_reclaimed;
}

-- The loop over `auction.bids`.
unfoldable pub record_bids : ℕ → List DecodedBid → Store → Store
record_bids id [] s = s
record_bids id (b ∷ bs) s = record_bids id bs (record_bid id b.slot_index b.bidder s)

-- The write of a decoded auction, once both symbols are read.
unfoldable pub upsert_auction : ℕ → DecodedAuction → String → String → Store → Store
unfolding core_of record_bids
upsert_auction id a lot_symbol payment_symbol s =
    record_bids id a.bids (upsert_core (core_of id a lot_symbol payment_symbol) s)

abbrev failed_read : ChainError → Enriched
failed_read (contract_error code) = if is_not_found_code code then not_found else skipped
failed_read _ = skipped

abbrev continue_backfill : (Store → Store) → Enriched × Store → Store
continue_backfill rest (not_found, s) = s
continue_backfill rest (indexed, s) = rest s
continue_backfill rest (skipped, s) = rest s

module _ (chain : Chain) where
  unfoldable pub enrich_symbols : ℕ → DecodedAuction → Store → Enriched × Store
  enrich_symbols id a s = elim (chain.get_token_symbol a.rwa_token) [
    | err _ ↦ (skipped, s)
    | ok lot_symbol ↦ elim (chain.get_token_symbol a.payment_token) [
      | err _ ↦ (skipped, s)
      | ok payment_symbol ↦ (indexed, upsert_auction id a lot_symbol payment_symbol s)
    ]
  ]

  -- `enrichAndUpsert`
  unfoldable pub enrich_and_upsert : ℕ → Store → Enriched × Store
  unfolding enrich_symbols
  enrich_and_upsert id s = elim (chain.get_auction id) [
    | err e ↦ (failed_read e, s)
    | ok a ↦ enrich_symbols id a s
  ]

  -- `backfill`: ids left up to the cap, and the next id.
  unfoldable pub backfill_from : ℕ → ℕ → Store → Store
  unfolding enrich_and_upsert
  backfill_from zero id s = s
  backfill_from (suc left) id s =
      continue_backfill (backfill_from left (suc id)) (enrich_and_upsert id s)

-- A slot index of the contract is an unsigned integer, as `bigint` or `number`.
abbrev pub slot_of : Option Value → Option ℕ
slot_of (some (big (pos n))) = some n
slot_of (some (num (integer (pos n)))) = some n
slot_of _ = none

unfoldable pub apply_bid : ℕ → Option ℕ → Option Value → Store → Store
apply_bid id (some slot) (some (text bidder)) s = record_bid id slot bidder s
apply_bid id _ _ s = s

unfoldable pub apply_settled :
    Runtime → ℕ → Option Value → Option Value → Option String → Store → Store
apply_settled rt id (some (text winner)) (some (big price)) tx s =
    mark_settled id (rt.to_text (integer price)) winner tx s
apply_settled rt id _ _ tx s = s

-- Which case of the `switch` an event's name selects.
pub data EventKind : Type 0 where
  created bid_placed settled refunded return_failed reclaimed unknown : EventKind

unfoldable pub event_kind : String → EventKind
event_kind name =
    if str_eq name "auction_created"
    then created
    else if str_eq name "bid_placed"
    then bid_placed
    else if str_eq name "auction_settled"
    then settled
    else if str_eq name "auction_refunded"
    then refunded
    else if str_eq name "lot_return_failed"
    then return_failed
    else if str_eq name "lot_reclaimed"
    then reclaimed
    else unknown

module _ (rt : Runtime) (chain : Chain) where
  unfoldable pub apply_kind : EventKind → IndexedEvent → Store → Store
  unfolding apply_bid apply_settled
  apply_kind created e s =
      if has_auction e.auction_id s then s else (enrich_and_upsert chain e.auction_id s).1
  apply_kind bid_placed e s =
      apply_bid e.auction_id (slot_of (get "slot_index" e.payload)) (get "bidder" e.payload) s
  apply_kind settled e s =
      apply_settled rt e.auction_id (get "winner" e.payload) (get "winning_price" e.payload)
        e.tx_hash s
  apply_kind refunded e s = mark_refunded e.auction_id s
  apply_kind return_failed e s = set_lot_reclaimed e.auction_id false s
  apply_kind reclaimed e s = set_lot_reclaimed e.auction_id true s
  apply_kind unknown e s = s

  -- `applyEvent`
  unfoldable pub apply_event : IndexedEvent → Store → Store
  unfolding apply_kind
  apply_event e s = apply_kind (event_kind e.name) e s

  unfoldable pub apply_events : List IndexedEvent → Store → Store
  unfolding apply_event
  apply_events [] s = s
  apply_events (e ∷ es) s = apply_events es (apply_event e s)

abbrev pub event_lookback_ledgers : ℕ
event_lookback_ledgers = 100_000

-- `saved.lastLedger ?? Math.max(1, latest - EVENT_LOOKBACK_LEDGERS)`
abbrev pub start_ledger : Option ℕ → ℕ → ℕ
start_ledger (some saved) latest = saved
start_ledger none latest = max 1 (latest - event_lookback_ledgers)

module _ (rt : Runtime) (chain : Chain) where
  -- `syncEvents`
  unfoldable pub sync_events : Store → Store
  sync_events s = elim (chain.latest_ledger) [
    | err _ ↦ s
    | ok latest ↦ elim (chain.contract_events (start_ledger (get_cursor s).last_ledger latest)) [
      | err _ ↦ s
      | ok (events, ledger) ↦ set_cursor (some ledger) none (apply_events rt chain events s)
    ]
  ]

  -- `startIngestion` up to the timer: the backfill and the first sync.
  unfoldable pub start_ingestion : ℕ → Store → Store
  unfolding sync_events
  start_ingestion backfill_max_id s = sync_events (backfill_from chain backfill_max_id 1 s)
