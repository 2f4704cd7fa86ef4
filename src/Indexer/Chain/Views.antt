-- ===== src/Indexer/Chain/Views.antt =====
-- indexer/src/chain.ts: getAuction, getTokenSymbol with its cache, and getLatestLedger. What the calls answer
-- is an argument, and so are the conversions of the fields that isRawAuctionRecord does not check.
use sealedstellar.Common.{
  ℕ, suc, Bool, String, List, [], ◌∷◌, Option, none, some, Result, ok, err, and_then,
}
use sealedstellar.Common.Int.{ℤ}
use sealedstellar.Common.Text.{append}
use sealedstellar.Common.Dict.{Dict, lookup, insert}
use sealedstellar.Indexer.Types.{AuctionStatus}
use sealedstellar.Indexer.Runtime.{JsNumber}
use sealedstellar.Indexer.Value.{Value, obj, Fields, get, as_text, as_big, as_items}
use sealedstellar.Indexer.Chain.{
  ChainError, rpc_unreachable, decode_failed, Simulation, simulate_view, DecodedBid, DecodedAuction,
  decode_status,
}

-- `String(value)`, `value.toString()`, `Number(value)`, `bid.bidder` and a Boolean field.
pub record Conversions : Type 0 where
  pub show : Option Value → String
  pub to_text : ℤ → String
  pub number_of : Option Value → ℕ
  pub bidder_of : Value → String
  pub flag_of : Option Value → Bool

-- `isRawAuctionRecord`, with the record's checked fields
pub record RawAuctionRecord : Type 0 where
  pub seller : String
  pub rwa_token : String
  pub lot_amount : ℤ
  pub payment_token : String
  pub max_price : ℤ
  pub bids : List Value
  pub fields : Fields

abbrev require {ℓ κ} : {A : Type ℓ} {B : Type κ} → Option A → (A → Option B) → Option B
require none f = none
require (some a) f = f a

unfoldable pub raw_auction_record : Value → Option RawAuctionRecord
raw_auction_record (obj fs) = require (as_text (get "seller" fs)) (λ seller.
    require (as_text (get "rwa_token" fs)) (λ rwa_token.
      require (as_big (get "lot_amount" fs)) (λ lot_amount.
        require (as_text (get "payment_token" fs)) (λ payment_token.
          require (as_big (get "max_price" fs)) (λ max_price.
            require (as_big (get "commit_deadline" fs)) (λ deadline.
              require (as_items (get "bids" fs)) (λ bids. some (record {
                seller = seller;
                rwa_token = rwa_token;
                lot_amount = lot_amount;
                payment_token = payment_token;
                max_price = max_price;
                bids = bids;
                fields = fs;
              }))))))))
raw_auction_record _ = none

-- The bids with their slots, from the given slot.
unfoldable pub number_bids : (Value → String) → ℕ → List Value → List DecodedBid
number_bids bidder_of slot [] = []
number_bids bidder_of slot (v ∷ vs) =
    record { slot_index = slot; bidder = bidder_of v } ∷ number_bids bidder_of (suc slot) vs

abbrev pub or_failed {ℓ} : {A : Type ℓ} → Option A → String → Result A ChainError
or_failed none detail = err (decode_failed detail)
or_failed (some a) detail = ok a

module _ (contract_code : String → Option JsNumber) where
  module _ (c : Conversions) where
    abbrev pub decoded : RawAuctionRecord → AuctionStatus → DecodedAuction
    decoded raw status = record {
      seller = raw.seller;
      rwa_token = raw.rwa_token;
      lot_amount = c.to_text raw.lot_amount;
      payment_token = raw.payment_token;
      max_price = c.to_text raw.max_price;
      commit_deadline = c.number_of (get "commit_deadline" raw.fields);
      grace_period = c.number_of (get "grace_period" raw.fields);
      status = status;
      bids = number_bids c.bidder_of 0 raw.bids;
      lot_reclaimed = c.flag_of (get "lot_reclaimed" raw.fields);
    }

    -- `getAuction`, after the call
    unfoldable pub get_auction : Simulation → Result DecodedAuction ChainError
    unfolding raw_auction_record number_bids simulate_view
    get_auction answer = and_then (simulate_view contract_code answer) (λ value.
        and_then (or_failed (raw_auction_record value) "auction record shape mismatch") (λ raw.
          and_then
            (or_failed (decode_status (get "status" raw.fields))
              (append "unknown status: " (c.show (get "status" raw.fields))))
            (λ status. ok (decoded raw status))))

  -- The end of `getTokenSymbol`: only a symbol is kept.
  abbrev pub keep_symbol :
      String → Result Value ChainError → Dict String → Result String ChainError × Dict String
  keep_symbol token (err e) cache = (err e, cache)
  keep_symbol token (ok value) cache = elim (as_text (some value)) [
    | none ↦ (err (decode_failed "token symbol is not a string"), cache)
    | some symbol ↦ (ok symbol, insert token symbol cache)
  ]

  -- `getTokenSymbol`, with the cache after it; the answer is used where the cache has none.
  unfoldable pub get_token_symbol :
      String → Simulation → Dict String → Result String ChainError × Dict String
  unfolding simulate_view
  get_token_symbol token answer cache = elim (lookup token cache) [
    | some symbol ↦ (ok symbol, cache)
    | none ↦ keep_symbol token (simulate_view contract_code answer) cache
  ]

-- `getLatestLedger`, after the call: the sequence, or the detail of a failure
unfoldable pub get_latest_ledger : Result ℕ String → Result ℕ ChainError
get_latest_ledger (ok sequence) = ok sequence
get_latest_ledger (err detail) = err (rpc_unreachable detail)
