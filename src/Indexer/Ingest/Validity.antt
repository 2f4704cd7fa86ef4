-- ===== src/Indexer/Ingest/Validity.antt =====
-- indexer/src/ingest.ts: what every write keeps true, the backfill and the event sync keep true.
use sealedstellar.Common.{
  ℕ, zero, suc, true, false, String, List, [], ◌∷◌, Option, none, some, inl, inr, Bool-cases,
  Result-cases, if◌then◌else◌,
}
use sealedstellar.Indexer.Runtime.{Runtime}
use sealedstellar.Indexer.Value.{Value, text, big}
use sealedstellar.Indexer.Chain.{DecodedBid, DecodedAuction, IndexedEvent, Chain}
use sealedstellar.Indexer.Store.{
  Store, has_auction, get_cursor, Write, upserts, bids_at, settles, refunds, reclaims, moves_to,
  write,
}
use sealedstellar.Indexer.Store.Keys.{IsValid, write-IsValid}
use sealedstellar.Indexer.Ingest.{
  Enriched, indexed, not_found, skipped, core_of, record_bids, upsert_auction, enrich_symbols,
  enrich_and_upsert, continue_backfill, backfill_from, apply_bid, apply_settled, EventKind, created,
  bid_placed, settled, refunded, return_failed, reclaimed, unknown, event_kind, apply_kind,
  apply_events, start_ledger, sync_events, start_ingestion,
}

module _ (P : Store → Type 0) (kept : (w : Write) (s : Store) → P s → P (write w s)) where
  record_bids-keeps :
      (id : ℕ) (bids : List DecodedBid) (s : Store) → P s → P (record_bids id bids s)
  unfolding record_bids write
  record_bids-keeps id [] s p = p
  record_bids-keeps id (b ∷ bs) s p =
      record_bids-keeps id bs _ (kept (bids_at id b.slot_index b.bidder) s p)

  upsert_auction-keeps :
      (id : ℕ) (a : DecodedAuction) (lot payment : String) (s : Store)
      → P s
      → P (upsert_auction id a lot payment s)
  unfolding upsert_auction write
  upsert_auction-keeps id a lot payment s p =
      record_bids-keeps id a.bids _ (kept (upserts (core_of id a lot payment)) s p)

  module _ (chain : Chain) where
    enrich_symbols-keeps :
        (id : ℕ) (a : DecodedAuction) (s : Store) → P s → P (enrich_symbols chain id a s).1
    unfolding enrich_symbols
    enrich_symbols-keeps id a s p = elim (Result-cases (chain.get_token_symbol a.rwa_token)) [
      | inr (e, lot) ↦ rw (lot, enrich_symbols) p
      | inl (x, lot) ↦ elim (Result-cases (chain.get_token_symbol a.payment_token)) [
        | inr (e, payment) ↦ rw (lot, payment, enrich_symbols) p
        | inl (y, payment) ↦ rw (lot, payment, enrich_symbols) (upsert_auction-keeps id a x y s p)
      ]
    ]

    pub enrich_and_upsert-keeps : (id : ℕ) (s : Store) → P s → P (enrich_and_upsert chain id s).1
    unfolding enrich_and_upsert
    enrich_and_upsert-keeps id s p = elim (Result-cases (chain.get_auction id)) [
      | inr (e, got) ↦ rw (got, enrich_and_upsert) p
      | inl (a, got) ↦ rw (got, enrich_and_upsert) (enrich_symbols-keeps id a s p)
    ]

    continue-keeps :
        (rest : Store → Store) (r : Enriched × Store)
        → ((s : Store) → P s → P (rest s))
        → P r.1
        → P (continue_backfill rest r)
    continue-keeps rest (not_found, s) k p = p
    continue-keeps rest (indexed, s) k p = k s p
    continue-keeps rest (skipped, s) k p = k s p

    pub backfill_from-keeps : (left id : ℕ) (s : Store) → P s → P (backfill_from chain left id s)
    unfolding backfill_from
    backfill_from-keeps zero id s p = p
    backfill_from-keeps (suc left) id s p =
        continue-keeps (backfill_from chain left (suc id)) (enrich_and_upsert chain id s)
          (λ t. backfill_from-keeps left (suc id) t) (enrich_and_upsert-keeps id s p)

    module _ (rt : Runtime) where
      apply_bid-keeps :
          (id : ℕ) (slot : Option ℕ) (bidder : Option Value) (s : Store)
          → P s
          → P (apply_bid id slot bidder s)
      unfolding apply_bid write
      apply_bid-keeps id (some slot) (some (text bidder)) s p = kept (bids_at id slot bidder) s p
      apply_bid-keeps id _ _ s p = p

      apply_settled-keeps :
          (id : ℕ) (winner price : Option Value) (tx : Option String) (s : Store)
          → P s
          → P (apply_settled rt id winner price tx s)
      unfolding apply_settled write
      apply_settled-keeps id (some (text winner)) (some (big price)) tx s p =
          kept (settles id _ winner tx) s p
      apply_settled-keeps id _ _ tx s p = p

      apply_kind-keeps :
          (k : EventKind) (e : IndexedEvent) (s : Store) → P s → P (apply_kind rt chain k e s)
      unfolding apply_kind write
      apply_kind-keeps created e s p = elim (Bool-cases (has_auction e.auction_id s)) [
        | inl old ↦ rw (old, if◌then◌else◌) p
        | inr new ↦ rw (new, if◌then◌else◌) (enrich_and_upsert-keeps e.auction_id s p)
      ]
      apply_kind-keeps bid_placed e s p = apply_bid-keeps e.auction_id _ _ s p
      apply_kind-keeps settled e s p = apply_settled-keeps e.auction_id _ _ e.tx_hash s p
      apply_kind-keeps refunded e s p = kept (refunds e.auction_id) s p
      apply_kind-keeps return_failed e s p = kept (reclaims e.auction_id false) s p
      apply_kind-keeps reclaimed e s p = kept (reclaims e.auction_id true) s p
      apply_kind-keeps unknown e s p = p

      pub apply_events-keeps :
          (es : List IndexedEvent) (s : Store) → P s → P (apply_events rt chain es s)
      unfolding apply_events
      apply_events-keeps [] s p = p
      apply_events-keeps (e ∷ es) s p =
          apply_events-keeps es _ (apply_kind-keeps (event_kind e.name) e s p)

      pub sync_events-keeps : (s : Store) → P s → P (sync_events rt chain s)
      unfolding sync_events write
      sync_events-keeps s p = elim (Result-cases (chain.latest_ledger)) [
        | inr (e, got) ↦ rw (got, sync_events) p
        | inl (latest, got) ↦
            elim (Result-cases
              (chain.contract_events (start_ledger (get_cursor s).last_ledger latest))) [
                | inr (e, page) ↦ rw (got, page, sync_events) p
                | inl ((events, ledger), page) ↦
                    rw (got, page, sync_events)
                      (kept (moves_to (some ledger) none) _ (apply_events-keeps events s p))
              ]
      ]

-- A run of the indexer on a fresh database: the backfill and first sync, then syncs against whatever
-- the chain answers at each tick.
pub ingest : Runtime → ℕ → Chain → List Chain → Store → Store
unfolding start_ingestion
ingest rt cap first [] s = start_ingestion rt first cap s
ingest rt cap first (c ∷ cs) s = sync_events rt c (ingest rt cap first cs s)

-- Whatever the chain answers and however often it is asked, the tables keep unique keys, known
-- statuses and flags of 0 or 1.
pub ingest-IsValid :
    (rt : Runtime) (cap : ℕ) (first : Chain) (later : List Chain) (s : Store)
    → IsValid s
    → IsValid (ingest rt cap first later s)
unfolding ingest
ingest-IsValid rt cap first [] s v =
    sync_events-keeps IsValid write-IsValid first rt _
      (backfill_from-keeps IsValid write-IsValid first cap 1 s v)
ingest-IsValid rt cap first (c ∷ cs) s v =
    sync_events-keeps IsValid write-IsValid c rt _ (ingest-IsValid rt cap first cs s v)
