-- ===== src/Web/Reveal/Handler.antt =====
-- web/api/reveal.ts: the request's handler.
use sealedstellar.Common.{
  ℕ, suc, Bool, not, String, List, [], ◌∷◌, Option, none, some, ◌>>=◌, str_eq, if◌then◌else◌,
  Result, ok, err, and_then,
}
use sealedstellar.Common.Int.{ℤ, pos, ltbℤ}
use sealedstellar.Common.Text.{append}
use sealedstellar.Indexer.Runtime.{JsNumber, integer}
use sealedstellar.Indexer.Value.{Value, text, obj, get}
use sealedstellar.Indexer.Chain.{Simulation}
use sealedstellar.Operator.Settle.{RevealedBid}
use sealedstellar.Web.Reveal.{
  bad_request, not_closed, not_settleable, reveal_failed, RevealError, status_for_error, fails,
  check, load_box_secret, BoxOpen, decrypt_bid, AuctionState, get_auction_state,
  get_registry_members, BidEvent, EventPage, fetch_bid_events,
}

-- What the handler takes from its surroundings.
pub record Host : Type 0 where
  pub is_testnet : Bool
  pub secret_text : Option String
  pub box_open : BoxOpen
  pub parse_json : String → Option Value
  pub number_of : Value → JsNumber
  pub to_text : ℤ → String
  pub now_seconds : ℤ
  pub auction_call : ℕ → Simulation
  pub latest_ledger : Result ℕ String
  pub get_events : ℕ → ℕ → Option String → Result EventPage String
  pub members_call : ℤ → Simulation

-- What is answered with status 200.
pub data Revealed : Type 0 where
  already_settled : ℕ → Revealed
  reveals : ℕ → ℤ → List String → List RevealedBid → Revealed

pub record Reply : Type 0 where
  pub status : ℕ
  pub body : Result Revealed RevealError

abbrev pub positive : JsNumber → Option ℕ
positive (integer (pos (suc n))) = some (suc n)
positive _ = none

abbrev pub auction_id_of : (Value → JsNumber) → Option Value → Option ℕ
auction_id_of number_of (some (obj fs)) =
    get "auctionId" fs >>= λ candidate. positive (number_of candidate)
auction_id_of number_of _ = none

-- `readAuctionId`
unfoldable pub read_auction_id : (String → Option Value) → (Value → JsNumber) → Value → Option ℕ
read_auction_id parse_json number_of (text body) = auction_id_of number_of (parse_json body)
read_auction_id parse_json number_of body = auction_id_of number_of (some body)

abbrev pub or_bad_request : Option ℕ → Result ℕ RevealError
or_bad_request none = fails bad_request "auctionId must be a positive integer"
or_bad_request (some id) = ok id

abbrev pub or_unopened : String → Option (ℕ × ℕ) → Result (ℕ × ℕ) RevealError
or_unopened slot none =
    fails reveal_failed (append "slot " (append slot ": could not decrypt (wrong operator key?)"))
or_unopened slot (some opened) = ok opened

abbrev pub revealed_bid : (ℤ → String) → BidEvent → ℕ × ℕ → RevealedBid
revealed_bid to_text event opened = record {
  slot_index = integer event.slot_index;
  bidder = event.bidder;
  price = to_text (pos opened.0);
  salt = to_text (pos opened.1);
  commitment = to_text event.commitment;
}

abbrev pub some_bids : List BidEvent → Result (List BidEvent) RevealError
some_bids [] = fails not_settleable "no sealed bids found on chain for this auction"
some_bids (event ∷ events) = ok (event ∷ events)

abbrev pub reply_of : Result Revealed RevealError → Reply
reply_of (ok revealed) = record { status = 200; body = ok revealed }
reply_of (err e) = record { status = status_for_error e.kind; body = err e }

module _ (host : Host) where
  -- The loop over the sealed bids.
  unfoldable pub open_bids : List ℕ → List BidEvent → Result (List RevealedBid) RevealError
  open_bids secret [] = ok []
  open_bids secret (event ∷ events) =
      and_then
        (or_unopened (host.to_text event.slot_index)
          (decrypt_bid host.box_open event.encrypted_bid secret))
        (λ opened.
          and_then (open_bids secret events)
            (λ bids. ok (revealed_bid host.to_text event opened ∷ bids)))

  -- The bids of an open auction.
  unfoldable pub reveal_open : List ℕ → ℕ → AuctionState → Result Revealed RevealError
  reveal_open secret id auction =
      and_then
        (check (not (ltbℤ host.now_seconds auction.commit_deadline_seconds)) not_closed
          "the bid window has not closed yet")
        (λ _. and_then (fetch_bid_events host.latest_ledger (host.get_events id)) (λ found.
          and_then (some_bids found) (λ events. and_then (open_bids secret events) (λ bids. ok (
            reveals id auction.whitelist_root
              (get_registry_members (host.members_call auction.whitelist_root)) bids)))))

  -- What follows the reading of the auction.
  unfoldable pub reveal_auction : List ℕ → ℕ → AuctionState → Result Revealed RevealError
  reveal_auction secret id auction =
      if str_eq auction.status "Settled"
      then ok (already_settled id)
      else and_then
          (check (str_eq auction.status "Open") not_settleable
            (append "auction status is " (append auction.status "; there is nothing to reveal")))
          (λ _. reveal_open secret id auction)

  unfoldable pub reveal : Value → Result Revealed RevealError
  reveal body = and_then (load_box_secret host.is_testnet host.secret_text) (λ secret.
      and_then (or_bad_request (read_auction_id host.parse_json host.number_of body)) (λ id.
        and_then (get_auction_state (host.auction_call id))
          (λ auction. reveal_auction secret id auction)))

  -- `handler`: the method and the body of the request.
  unfoldable pub handler : String → Value → Reply
  handler method body = if str_eq method "POST" then reply_of (reveal body) else record {
    status = 405;
    body = err (record { kind = bad_request; message = "POST only" });
  }
