-- ===== src/Indexer/Types.antt =====
-- indexer/src/types.ts and the row types of indexer/src/store.ts. Ids, slot indices and times are
-- natural numbers; amounts are decimal texts, as in the source.
use sealedstellar.Common.{ℕ, String, List, Option, Bool}
use sealedstellar.Indexer.Runtime.{JsNumber}

-- `AuctionStatus`: 'Open', 'Settled', 'Refunded'
pub data AuctionStatus : Type 0 where
  opened settled refunded : AuctionStatus

abbrev pub status_text : AuctionStatus → String
status_text opened = "Open"
status_text settled = "Settled"
status_text refunded = "Refunded"

pub data AuctionSort : Type 0 where
  closing_soonest newest most_bids : AuctionSort

-- `AuctionCore`
pub record Core : Type 0 where
  pub id : ℕ
  pub seller : String
  pub rwa_token : String
  pub lot_symbol : String
  pub lot_amount : String
  pub payment_token : String
  pub payment_symbol : String
  pub max_price : String
  pub commit_deadline : ℕ
  pub grace_period : ℕ
  pub status : AuctionStatus
  pub lot_reclaimed : Bool

-- `AuctionDbRow`: a row of the table `auctions`
pub record Row : Type 0 where
  pub id : ℕ
  pub seller : String
  pub rwa_token : String
  pub lot_symbol : String
  pub lot_amount : String
  pub payment_token : String
  pub payment_symbol : String
  pub max_price : String
  pub commit_deadline : ℕ
  pub grace_period : ℕ
  pub status : String
  pub filled_slots : ℕ
  pub lot_reclaimed : ℕ
  pub clearing_price : Option String
  pub winner : Option String
  pub settle_tx : Option String

-- `AuctionListRow`: what the API serves
pub record ListRow : Type 0 where
  pub id : ℕ
  pub seller : String
  pub rwa_token : String
  pub lot_symbol : String
  pub lot_amount : String
  pub payment_token : String
  pub payment_symbol : String
  pub max_price : String
  pub commit_deadline_seconds : ℕ
  pub grace_period_seconds : ℕ
  pub status : AuctionStatus
  pub filled_slots : ℕ
  pub lot_reclaimed : Bool
  pub clearing_price : Option String
  pub winner : Option String
  pub settle_tx_hash : Option String

-- A row of the table `bids`
pub record Bid : Type 0 where
  pub auction_id : ℕ
  pub slot_index : ℕ
  pub bidder : String

-- `AuctionCursor`
pub record Cursor : Type 0 where
  pub sort_value : JsNumber
  pub id : ℕ

-- `AuctionQuery`
pub record AuctionQuery : Type 0 where
  pub statuses : List AuctionStatus
  pub asset_symbol : Option String
  pub search : Option String
  pub bidder : Option String
  pub sort : AuctionSort
  pub limit : ℕ
  pub cursor : Option Cursor

-- `AuctionPage`
pub record AuctionPage : Type 0 where
  pub rows : List ListRow
  pub next_cursor : Option String
  pub total_count : ℕ
