-- ===== src/Web/IndexerClient.antt =====
-- web/src/lib/indexer.ts: the page's client of the indexer. The parameters of the query are a list of names
-- and values, whose text in the URL is URLSearchParams's; the network's answer is an argument, and `big` is `BigInt(text)`, none where it throws.
pub mod Queries
mod Sent
pub mod Reading
use sealedstellar.Common.{
  ℕ, Bool, String, List, [], ◌∷◌, map, replicate, Option, none, some, str_eq, Result, ok, err,
  if◌then◌else◌,
}
use sealedstellar.Common.Int.{ℤ, pos, pos_part}
use sealedstellar.Common.Text.{trim}
use sealedstellar.Indexer.Runtime.{integer, Runtime}
use sealedstellar.Indexer.Api.{Params}
use sealedstellar.Web.ListView.{
  Segment, all, live, closing, awaiting, settled, yours, ListSort, closing_first, newest, bids,
  ListView, StatusName, AuctionView,
}

-- `IndexerError`
pub data ClientError : Type 0 where
  indexer_unreachable bad_response : String → ClientError

-- `IndexerRow`
pub record IndexerRow : Type 0 where
  pub id : ℕ
  pub seller : String
  pub rwa_token : String
  pub lot_symbol : String
  pub lot_amount : String
  pub payment_token : String
  pub payment_symbol : String
  pub max_price : String
  pub commit_deadline_seconds : ℕ
  pub grace_period_seconds : ℕ
  pub status : StatusName
  pub filled_slots : ℤ
  pub lot_reclaimed : Bool
  pub clearing_price : Option String

-- `IndexerPageResponse`, whose rows may be missing
pub record PageResponse : Type 0 where
  pub rows : Option (List IndexerRow)
  pub next_cursor : Option String
  pub total_count : ℕ

-- The adapted row: what the list reads of an auction, its amounts, and the clearing price.
pub record ListItem : Type 0 where
  pub view : AuctionView
  pub seller : String
  pub rwa_token : String
  pub lot_amount : ℤ
  pub payment_token : String
  pub max_price : ℤ
  pub grace_period_seconds : ℕ
  pub lot_reclaimed : Bool
  pub clearing_price : Option ℤ

pub record IndexerPage : Type 0 where
  pub items : List ListItem
  pub next_cursor : Option String
  pub total_count : ℕ

-- What `fetch` and the decoding of the body give.
pub data Fetched : Type 0 where
  unreachable : String → Fetched
  refused : String → Fetched
  unreadable : String → Fetched
  answered : PageResponse → Fetched

-- `SEGMENT_STATUS`
unfoldable pub segment_status : Segment → List String
segment_status all = []
segment_status live = "Open" ∷ []
segment_status closing = "Open" ∷ []
segment_status awaiting = "Open" ∷ []
segment_status settled = "Settled" ∷ "Refunded" ∷ []
segment_status yours = []

unfoldable pub map_sort : ListSort → String
map_sort newest = "newest"
map_sort bids = "mostBids"
map_sort closing_first = "closingSoonest"

abbrev pub bidder_of : Segment → Option String → Option String
bidder_of yours connected = connected
bidder_of _ connected = none

-- `params.append('status', …)` for each status, before the later parameters.
unfoldable pub append_statuses : List String → Params → Params
append_statuses [] later = later
append_statuses (s ∷ ss) later = ("status", s) ∷ append_statuses ss later

-- `params.set(name, …)` of a new name, where there is a value, before the later parameters.
abbrev pub set_param : String → Option String → Params → Params
set_param name none later = later
set_param name (some value) later = (name, value) ∷ later

-- `buildAuctionQuery`
unfoldable pub build_auction_query : Runtime → ListView → Option String → Option String → ℕ → Params
unfolding append_statuses
build_auction_query rt view connected cursor limit = append_statuses (segment_status view.segment) (
    set_param "search" (if str_eq (trim view.search) "" then none else some (trim view.search)) (
      set_param "assetSymbol" view.asset_symbol (
        set_param "bidder" (bidder_of view.segment connected) (
          set_param "sort" (some (map_sort view.sort)) (
            set_param "limit" (some (rt.to_text (integer (pos limit))))
              (set_param "cursor" cursor []))))))

module _ (big : String → Option ℤ) where
  -- `parseBigIntOrZero`
  unfoldable pub parse_big_or_zero : String → ℤ
  parse_big_or_zero s = elim (big s) [ none ↦ pos 0 | some z ↦ z ]

  unfoldable pub parse_clearing_price : Option String → Option ℤ
  parse_clearing_price none = none
  parse_clearing_price (some raw) = big raw

  -- `rowToView`, with the clearing price; every filled slot is a bid of no bidder.
  unfoldable pub row_to_view : IndexerRow → ListItem
  row_to_view row = record {
    view = record {
      id = row.id;
      commit_deadline_seconds = row.commit_deadline_seconds;
      status = row.status;
      bidders = replicate (pos_part row.filled_slots) "";
      lot_symbol = row.lot_symbol;
      payment_symbol = row.payment_symbol;
    };
    seller = row.seller;
    rwa_token = row.rwa_token;
    lot_amount = parse_big_or_zero row.lot_amount;
    payment_token = row.payment_token;
    max_price = parse_big_or_zero row.max_price;
    grace_period_seconds = row.grace_period_seconds;
    lot_reclaimed = row.lot_reclaimed;
    clearing_price = parse_clearing_price row.clearing_price;
  }

  abbrev pub page_of : PageResponse → Result IndexerPage ClientError
  page_of payload = elim payload.rows [
    | none ↦ err (bad_response "indexer response is missing rows")
    | some rows ↦ ok (record {
      items = map row_to_view rows;
      next_cursor = payload.next_cursor;
      total_count = payload.total_count;
    })
  ]

  -- `fetchAuctionPage`
  unfoldable pub fetch_auction_page : Fetched → Result IndexerPage ClientError
  fetch_auction_page (unreachable detail) = err (indexer_unreachable detail)
  fetch_auction_page (refused detail) = err (bad_response detail)
  fetch_auction_page (unreadable detail) = err (bad_response detail)
  fetch_auction_page (answered payload) = page_of payload
