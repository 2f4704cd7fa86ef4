-- ===== src/Indexer/Store.antt =====
-- indexer/src/store.ts, the writes of `AuctionStore` and its reads by id. The database is its three
-- tables; a SQL statement is the function that its text describes.
pub mod Keys
pub mod Replay
use sealedstellar.Common.{
  ℕ, suc, ◌≢◌, Bool, true, false, ◌&&◌, String, List, [], ◌∷◌, ◌++◌, map, Option, none, some,
  str_eq, length, keep, any, ◌≡◌, ◌==◌, if◌then◌else◌,
}
use sealedstellar.Indexer.Types.{
  AuctionStatus, opened, settled, refunded, status_text, Core, Row, ListRow, Bid,
}

-- The row of the table `ingest_cursor`
pub record Progress : Type 0 where
  pub last_ledger : Option ℕ
  pub last_cursor : Option String

pub record Store : Type 0 where
  pub auctions : List Row
  pub bids : List Bid
  pub ingest_cursor : Option Progress

-- `new AuctionStore(path)` on a fresh file: the schema's empty tables
abbrev pub empty_store : Store
empty_store = record { auctions = []; bids = []; ingest_cursor = none }

abbrev pub flag : Bool → ℕ
flag b = if b then 1 else 0

-- The row that the INSERT makes; the columns that it leaves out get the schema's defaults.
unfoldable pub fresh_row : Core → Row
fresh_row core = record {
  id = core.id;
  seller = core.seller;
  rwa_token = core.rwa_token;
  lot_symbol = core.lot_symbol;
  lot_amount = core.lot_amount;
  payment_token = core.payment_token;
  payment_symbol = core.payment_symbol;
  max_price = core.max_price;
  commit_deadline = core.commit_deadline;
  grace_period = core.grace_period;
  status = status_text core.status;
  filled_slots = 0;
  lot_reclaimed = flag core.lot_reclaimed;
  clearing_price = none;
  winner = none;
  settle_tx = none;
}

-- ON CONFLICT(id) DO UPDATE SET: all but the id, the count and the settlement columns.
unfoldable pub refresh_row : Core → Row → Row
refresh_row core row = record row {
  seller = core.seller;
  rwa_token = core.rwa_token;
  lot_symbol = core.lot_symbol;
  lot_amount = core.lot_amount;
  payment_token = core.payment_token;
  payment_symbol = core.payment_symbol;
  max_price = core.max_price;
  commit_deadline = core.commit_deadline;
  grace_period = core.grace_period;
  status = status_text core.status;
  lot_reclaimed = flag core.lot_reclaimed;
}

-- UPDATE auctions SET … WHERE id = @id
unfoldable pub update_rows : ℕ → (Row → Row) → List Row → List Row
update_rows id f [] = []
update_rows id f (r ∷ rs) = (if r.id == id then f r else r) ∷ update_rows id f rs

-- SELECT … WHERE id = @id, the first row
unfoldable pub find_row : ℕ → List Row → Option Row
find_row id [] = none
find_row id (r ∷ rs) = if r.id == id then some r else find_row id rs

abbrev pub update : ℕ → (Row → Row) → Store → Store
update id f s = record s { auctions = update_rows id f s.auctions }

unfoldable pub has_auction : ℕ → Store → Bool
unfolding find_row
has_auction id s = elim (find_row id s.auctions) [ none ↦ false | some row ↦ true ]

unfoldable pub upsert_core : Core → Store → Store
upsert_core core s =
    if has_auction core.id s
    then update core.id (refresh_row core) s
    else record s { auctions = s.auctions ++ fresh_row core ∷ [] }

-- The primary key (auction_id, slot_index) is taken.
abbrev pub is_slot : ℕ → ℕ → Bid → Bool
is_slot auction_id slot_index b = b.auction_id == auction_id && b.slot_index == slot_index

-- INSERT OR IGNORE INTO bids
unfoldable pub insert_bid : ℕ → ℕ → String → List Bid → List Bid
insert_bid auction_id slot_index bidder bids =
    if any (is_slot auction_id slot_index) bids
    then bids
    else bids ++ record { auction_id = auction_id; slot_index = slot_index; bidder = bidder } ∷ []

-- SELECT COUNT(*) FROM bids WHERE auction_id = @auctionId
abbrev pub count_bids : ℕ → List Bid → ℕ
count_bids auction_id bids = length (keep (λ b. b.auction_id == auction_id) bids)

abbrev pub set_count : ℕ → Row → Row
set_count n row = record row { filled_slots = n }

-- One transaction: the insert and then the count.
unfoldable pub record_bid : ℕ → ℕ → String → Store → Store
unfolding insert_bid
record_bid auction_id slot_index bidder s =
    let bids : List Bid = insert_bid auction_id slot_index bidder s.bids in
    update auction_id (set_count (count_bids auction_id bids)) (record s { bids = bids })

unfoldable pub mark_settled : ℕ → String → String → Option String → Store → Store
mark_settled auction_id price winner tx s =
    update auction_id
      (λ row. record row {
        status = "Settled";
        clearing_price = some price;
        winner = some winner;
        settle_tx = tx;
      })
      s

unfoldable pub mark_refunded : ℕ → Store → Store
mark_refunded auction_id s = update auction_id (λ row. record row { status = "Refunded" }) s

unfoldable pub set_lot_reclaimed : ℕ → Bool → Store → Store
set_lot_reclaimed auction_id reclaimed s =
    update auction_id (λ row. record row { lot_reclaimed = flag reclaimed }) s

unfoldable pub get_cursor : Store → Progress
get_cursor s = elim s.ingest_cursor [
  | none ↦ record { last_ledger = none; last_cursor = none }
  | some p ↦ p
]

unfoldable pub set_cursor : Option ℕ → Option String → Store → Store
set_cursor ledger cursor s = record s {
  ingest_cursor = some (record { last_ledger = ledger; last_cursor = cursor });
}

unfoldable pub auction_count : Store → ℕ
auction_count s = length s.auctions

-- An unknown text reads as Open.
unfoldable pub parse_status : String → AuctionStatus
parse_status raw =
    if str_eq raw "Open"
    then opened
    else if str_eq raw "Settled"
    then settled
    else if str_eq raw "Refunded"
    then refunded
    else opened

unfoldable pub to_list_row : Row → ListRow
unfolding parse_status
to_list_row row = record {
  id = row.id;
  seller = row.seller;
  rwa_token = row.rwa_token;
  lot_symbol = row.lot_symbol;
  lot_amount = row.lot_amount;
  payment_token = row.payment_token;
  payment_symbol = row.payment_symbol;
  max_price = row.max_price;
  commit_deadline_seconds = row.commit_deadline;
  grace_period_seconds = row.grace_period;
  status = parse_status row.status;
  filled_slots = row.filled_slots;
  lot_reclaimed = row.lot_reclaimed == 1;
  clearing_price = row.clearing_price;
  winner = row.winner;
  settle_tx_hash = row.settle_tx;
}

unfoldable pub get_by_id : ℕ → Store → Option ListRow
unfolding find_row to_list_row
get_by_id id s = elim (find_row id s.auctions) [ none ↦ none | some row ↦ some (to_list_row row) ]

-- Two rows under different keys: `id`, and (auction_id, slot_index).
abbrev pub OtherId : Row → Row → Type 0
OtherId a b = a.id ≢ b.id

abbrev pub OtherSlot : Bid → Bid → Type 0
OtherSlot a b = is_slot a.auction_id a.slot_index b ≡ false

-- The calls that write.
pub data Write : Type 0 where
  upserts : Core → Write
  bids_at : ℕ → ℕ → String → Write
  settles : ℕ → String → String → Option String → Write
  refunds : ℕ → Write
  reclaims : ℕ → Bool → Write
  moves_to : Option ℕ → Option String → Write

unfoldable pub write : Write → Store → Store
write (upserts core) s = upsert_core core s
write (bids_at id slot bidder) s = record_bid id slot bidder s
write (settles id price winner tx) s = mark_settled id price winner tx s
write (refunds id) s = mark_refunded id s
write (reclaims id reclaimed) s = set_lot_reclaimed id reclaimed s
write (moves_to ledger cursor) s = set_cursor ledger cursor s

unfoldable pub write_all : List Write → Store → Store
write_all [] s = s
write_all (w ∷ ws) s = write_all ws (write w s)
