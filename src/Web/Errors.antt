-- ===== src/Web/Errors.antt =====
-- web/src/lib/errors.ts: contract error codes and the failure vocabularies of the three flows.
pub mod Code
use Prim.Native.Char.{code}
use sealedstellar.Common.{
  ℕ, zero, suc, ◌+◌, ◌-◌, ◌*◌, Bool, true, false, ◌&&◌, String, List, [], ◌∷◌, Option, none, some,
  any, leb, ◌==◌, if◌then◌else◌, ◌>>=◌,
}
use sealedstellar.Common.Text.{append, includes}

-- `ChainError`; a contract code is the number that the pattern below reads.
pub data ChainError : Type 0 where
  rpc_unreachable simulation_failed : String → ChainError
  contract_error : ℕ → ChainError
  decode_failed : String → ChainError

-- `AUCTION_ERROR_CODES`
pub data AuctionError : Type 0 where
  auction_not_found lot_amount_not_positive max_price_not_positive max_price_exceeds_64_bits :
      AuctionError
  deadline_not_in_future grace_period_zero already_settled already_refunded : AuctionError
  bid_after_deadline bids_full duplicate_commitment commitment_is_empty_marker : AuctionError
  encrypted_bid_too_large settle_before_deadline winner_index_out_of_range : AuctionError
  winning_price_not_positive winning_price_exceeds_max winner_address_mismatch : AuctionError
  proof_invalid verifier_call_failed refund_too_early reclaim_requires_refunded_auction :
      AuctionError
  lot_already_reclaimed lot_transfer_failed : AuctionError

abbrev pub code_of : AuctionError → ℕ
code_of auction_not_found = 1
code_of lot_amount_not_positive = 2
code_of max_price_not_positive = 3
code_of max_price_exceeds_64_bits = 4
code_of deadline_not_in_future = 5
code_of grace_period_zero = 6
code_of already_settled = 7
code_of already_refunded = 8
code_of bid_after_deadline = 9
code_of bids_full = 10
code_of duplicate_commitment = 11
code_of commitment_is_empty_marker = 12
code_of encrypted_bid_too_large = 13
code_of settle_before_deadline = 14
code_of winner_index_out_of_range = 15
code_of winning_price_not_positive = 16
code_of winning_price_exceeds_max = 17
code_of winner_address_mismatch = 18
code_of proof_invalid = 19
code_of verifier_call_failed = 20
code_of refund_too_early = 21
code_of reclaim_requires_refunded_auction = 22
code_of lot_already_reclaimed = 23
code_of lot_transfer_failed = 24

-- `CONTRACT_ERROR_PATTERN`: the fixed text, one or more digits, a closing parenthesis.
abbrev pub opening : String
opening = "Error(Contract, #"

unfoldable pub strip : String → String → Option String
strip String.[] s = some s
strip (String.◌∷◌ d q) String.[] = none
strip (String.◌∷◌ d q) (String.◌∷◌ c s) = if code d == code c then strip q s else none

abbrev pub is_digit : ℕ → Bool
is_digit c = leb b'0' c && leb c b'9'

-- The rest of the digits and the parenthesis, after a first digit.
unfoldable pub read_digits : ℕ → String → Option ℕ
read_digits n String.[] = none
read_digits n (String.◌∷◌ c s) =
    let more : Option ℕ = read_digits (n * 10 + (code c - b'0')) s in
    if is_digit (code c) then more else if code c == b')' then some n else none

unfoldable pub read_code : String → Option ℕ
unfolding read_digits
read_code String.[] = none
read_code (String.◌∷◌ c s) = if is_digit (code c) then read_digits (code c - b'0') s else none

unfoldable pub match_here : String → Option ℕ
unfolding strip read_code
match_here s = strip opening s >>= read_code

-- `parseContractErrorCode`: the leftmost match.
unfoldable pub parse_contract_error_code : String → Option ℕ
parse_contract_error_code String.[] = match_here ""
parse_contract_error_code (String.◌∷◌ c s) = elim (match_here (String.◌∷◌ c s)) [
  | some n ↦ some n
  | none ↦ parse_contract_error_code s
]

unfoldable pub is_auction_not_found : ChainError → Bool
is_auction_not_found (contract_error n) = n == code_of auction_not_found
is_auction_not_found _ = false

-- `BidFailure`
pub data BidFailure : Type 0 where
  wallet_declined deadline_passed slots_full duplicate_commitment : BidFailure
  deposit_uncovered rpc_unreachable : BidFailure
  sealing_failed submission_failed : String → BidFailure

-- `SettleFailure`
pub data SettleFailure : Type 0 where
  wallet_declined deadline_not_reached already_finalized winner_index_invalid : SettleFailure
  price_not_positive price_exceeds_max winner_mismatch proof_invalid : SettleFailure
  verifier_failed rpc_unreachable : SettleFailure
  submission_failed : String → SettleFailure

-- `CreateAuctionFailure`
pub data CreateAuctionFailure : Type 0 where
  wallet_declined rpc_unreachable lot_uncovered lot_not_positive : CreateAuctionFailure
  price_not_positive price_too_large deadline_not_future grace_zero : CreateAuctionFailure
  submission_failed : String → CreateAuctionFailure

abbrev pub deposit_failure_markers : List String
deposit_failure_markers =
    "trustline entry is missing" ∷ "balance is not sufficient"
    ∷ "resulting balance is not within the allowed range" ∷ []

-- `classifySettleContractError`
unfoldable pub classify_settle_contract_error : ℕ → Option SettleFailure
classify_settle_contract_error n =
    if n == code_of settle_before_deadline
    then some deadline_not_reached
    else if n == code_of already_settled
    then some already_finalized
    else if n == code_of already_refunded
    then some already_finalized
    else if n == code_of winner_index_out_of_range
    then some winner_index_invalid
    else if n == code_of winning_price_not_positive
    then some SettleFailure.price_not_positive
    else if n == code_of winning_price_exceeds_max
    then some price_exceeds_max
    else if n == code_of winner_address_mismatch
    then some winner_mismatch
    else if n == code_of AuctionError.proof_invalid
    then some SettleFailure.proof_invalid
    else if n == code_of verifier_call_failed
    then some verifier_failed
    else none

-- `classifyCreateAuctionContractError`
unfoldable pub classify_create_auction_contract_error : ℕ → Option CreateAuctionFailure
classify_create_auction_contract_error n =
    if n == code_of lot_amount_not_positive
    then some lot_not_positive
    else if n == code_of max_price_not_positive
    then some CreateAuctionFailure.price_not_positive
    else if n == code_of max_price_exceeds_64_bits
    then some price_too_large
    else if n == code_of deadline_not_in_future
    then some deadline_not_future
    else if n == code_of grace_period_zero
    then some grace_zero
    else none

-- `to_lower` is `toLowerCase()`, and `to_text` the template's text of a code.
module _ (to_lower : String → String) (to_text : ℕ → String) where
  -- Some marker occurs in the text: `isLotTransferFailure`, and the test of the bid flow.
  unfoldable pub is_lot_transfer_failure : String → Bool
  is_lot_transfer_failure detail =
      any (λ marker. includes marker (to_lower detail)) deposit_failure_markers

  -- `classifyPlaceBidChainError`
  unfoldable pub classify_place_bid_chain_error : ChainError → BidFailure
  classify_place_bid_chain_error (rpc_unreachable detail) = BidFailure.rpc_unreachable
  classify_place_bid_chain_error (contract_error n) =
      if n == code_of bid_after_deadline
      then deadline_passed
      else if n == code_of bids_full
      then slots_full
      else if n == code_of AuctionError.duplicate_commitment
      then BidFailure.duplicate_commitment
      else BidFailure.submission_failed (append "contract error " (to_text n))
  classify_place_bid_chain_error (simulation_failed detail) =
      if is_lot_transfer_failure detail
      then deposit_uncovered
      else BidFailure.submission_failed detail
  classify_place_bid_chain_error (decode_failed detail) = BidFailure.submission_failed detail
