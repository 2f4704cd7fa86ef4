-- ===== src/Web/Submit/Mapping.antt =====
-- web/src/lib/transactions.ts and web/src/lib/errors.ts: what each flow reports when the preparation of
-- its transaction fails, by the error of the contract.
use sealedstellar.Common.{ℕ, ◌≡◌, refl, true, false, String, Option, some, arith}
use sealedstellar.Web.Errors.{
  AuctionError, code_of, is_lot_transfer_failure, classify_place_bid_chain_error,
  classify_settle_contract_error, classify_create_auction_contract_error, BidFailure, SettleFailure,
  CreateAuctionFailure, deposit_uncovered, lot_uncovered,
}
use sealedstellar.Common.Text.{append}
use sealedstellar.Web.Submit.{
  prepare_failed, map_to_bid_failure, prepare_to_bid_failure, map_to_settle_failure,
  map_to_create_failure,
}

-- What the bidder learns, by the contract's error; the text is the fallback.
abbrev pub bid_report : (ℕ → String) → AuctionError → BidFailure
bid_report to_text AuctionError.bid_after_deadline = BidFailure.deadline_passed
bid_report to_text AuctionError.bids_full = BidFailure.slots_full
bid_report to_text AuctionError.duplicate_commitment = BidFailure.duplicate_commitment
bid_report to_text e = BidFailure.submission_failed (append "contract error " (to_text (code_of e)))

abbrev pub settle_report : String → AuctionError → SettleFailure
settle_report detail AuctionError.settle_before_deadline = SettleFailure.deadline_not_reached
settle_report detail AuctionError.already_settled = SettleFailure.already_finalized
settle_report detail AuctionError.already_refunded = SettleFailure.already_finalized
settle_report detail AuctionError.winner_index_out_of_range = SettleFailure.winner_index_invalid
settle_report detail AuctionError.winning_price_not_positive = SettleFailure.price_not_positive
settle_report detail AuctionError.winning_price_exceeds_max = SettleFailure.price_exceeds_max
settle_report detail AuctionError.winner_address_mismatch = SettleFailure.winner_mismatch
settle_report detail AuctionError.proof_invalid = SettleFailure.proof_invalid
settle_report detail AuctionError.verifier_call_failed = SettleFailure.verifier_failed
settle_report detail e = SettleFailure.submission_failed detail

abbrev pub create_report : String → AuctionError → CreateAuctionFailure
create_report detail AuctionError.lot_amount_not_positive = CreateAuctionFailure.lot_not_positive
create_report detail AuctionError.max_price_not_positive = CreateAuctionFailure.price_not_positive
create_report detail AuctionError.max_price_exceeds_64_bits = CreateAuctionFailure.price_too_large
create_report detail AuctionError.deadline_not_in_future = CreateAuctionFailure.deadline_not_future
create_report detail AuctionError.grace_period_zero = CreateAuctionFailure.grace_zero
create_report detail e = CreateAuctionFailure.submission_failed detail

-- A failed preparation of a bid is reported as an uncovered deposit wherever its text names one, even
-- if a contract code stands in it; otherwise by the contract's error.
pub map_to_bid_failure-prepare_failed :
    (to_lower : String → String) (to_text : ℕ → String) (detail : String) (e : AuctionError)
    → (is_lot_transfer_failure to_lower to_text detail ≡ true
        → (code : Option ℕ)
        → map_to_bid_failure to_lower to_text (prepare_failed detail code) ≡ deposit_uncovered)
      × (is_lot_transfer_failure to_lower to_text detail ≡ false
          → map_to_bid_failure to_lower to_text (prepare_failed detail (some (code_of e)))
            ≡ bid_report to_text e)
unfolding map_to_bid_failure prepare_to_bid_failure classify_place_bid_chain_error
map_to_bid_failure-prepare_failed to_lower to_text detail e = (
  λ h code. rw (h, prepare_to_bid_failure, classify_place_bid_chain_error) refl,
  λ h. by_error e h,
)
  where
    by_error :
        (e : AuctionError)
        → is_lot_transfer_failure to_lower to_text detail ≡ false
        → map_to_bid_failure to_lower to_text (prepare_failed detail (some (code_of e)))
          ≡ bid_report to_text e
    by_error e h = ground arith

-- A failed preparation of a settlement is reported by the contract's error.
pub map_to_settle_failure-prepare_failed :
    (detail : String) (e : AuctionError)
    → map_to_settle_failure (prepare_failed detail (some (code_of e))) ≡ settle_report detail e
unfolding map_to_settle_failure classify_settle_contract_error
map_to_settle_failure-prepare_failed detail e = ground arith

-- A failed preparation of an auction is reported as an uncovered lot wherever its text names one, and
-- otherwise by the contract's error.
pub map_to_create_failure-prepare_failed :
    (to_lower : String → String) (to_text : ℕ → String) (detail : String) (e : AuctionError)
    → (is_lot_transfer_failure to_lower to_text detail ≡ true
        → (code : Option ℕ)
        → map_to_create_failure to_lower to_text (prepare_failed detail code) ≡ lot_uncovered)
      × (is_lot_transfer_failure to_lower to_text detail ≡ false
          → map_to_create_failure to_lower to_text (prepare_failed detail (some (code_of e)))
            ≡ create_report detail e)
unfolding map_to_create_failure classify_create_auction_contract_error
map_to_create_failure-prepare_failed to_lower to_text detail e =
    (λ h code. rw h refl, λ h. rw h (ground arith))
