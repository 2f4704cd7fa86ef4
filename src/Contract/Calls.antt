-- ===== src/Contract/Calls.antt =====
-- contracts/auction/src/lib.rs: the calls of the auction contract.
use sealedstellar.Common.{
  ℕ, zero, suc, ◌-◌, Bool, true, false, not, String, List, [], ◌∷◌, ◌++◌, none, some, ok, err,
  and_then, ltb, leb, str_eq, ◌==◌, if◌then◌else◌, length, any, get_elem?,
}
use sealedstellar.Common.Int.{ℤ, pos, pos_part, ltbℤ}
use sealedstellar.Common.Table.{get_at, put_at}
use sealedstellar.Indexer.Types.{AuctionStatus, opened, settled, refunded}
use sealedstellar.Whitelist.{compute_address_leaf}
use sealedstellar.Web.Errors.{
  auction_not_found, lot_amount_not_positive, max_price_not_positive, max_price_exceeds_64_bits,
  deadline_not_in_future, grace_period_zero, bid_after_deadline, bids_full, duplicate_commitment,
  commitment_is_empty_marker, encrypted_bid_too_large, settle_before_deadline,
  winner_index_out_of_range, winning_price_not_positive, winning_price_exceeds_max,
  winner_address_mismatch, proof_invalid, verifier_call_failed, refund_too_early,
  reclaim_requires_refunded_auction, lot_already_reclaimed, lot_transfer_failed,
}
use sealedstellar.Contract.{
  Bid, Auction, Movement, into_escrow, out_of_escrow, Event, State, Verdict, Host, rejects, traps,
  Call, ensure, ensure_open, u64_max, max_bid_slots, max_encrypted_bid_bytes, refund_unlock_time,
  transfer,
}

-- The arguments of `create_auction`.
pub record NewAuction : Type 0 where
  pub seller : String
  pub rwa_token : String
  pub lot_amount : ℤ
  pub payment_token : String
  pub max_price : ℤ
  pub commit_deadline : ℕ
  pub grace_period : ℕ
  pub whitelist_root : ℕ
  pub operator_enc_pubkey : List ℕ

abbrev pub opened_auction : NewAuction → Auction
opened_auction p = record {
  seller = p.seller;
  rwa_token = p.rwa_token;
  lot_amount = pos_part p.lot_amount;
  payment_token = p.payment_token;
  max_price = pos_part p.max_price;
  commit_deadline = p.commit_deadline;
  grace_period = p.grace_period;
  whitelist_root = p.whitelist_root;
  operator_enc_pubkey = p.operator_enc_pubkey;
  status = opened;
  bids = [];
  lot_reclaimed = false;
}

abbrev pub lot_in : ℕ → Auction → Movement
lot_in id a = record {
  auction_id = id;
  direction = into_escrow;
  token = a.rwa_token;
  party = a.seller;
  amount = a.lot_amount;
}

abbrev pub lot_out : ℕ → Auction → String → Movement
lot_out id a party = record {
  auction_id = id;
  direction = out_of_escrow;
  token = a.rwa_token;
  party = party;
  amount = a.lot_amount;
}

abbrev pub deposit : ℕ → Auction → String → Movement
deposit id a bidder = record {
  auction_id = id;
  direction = into_escrow;
  token = a.payment_token;
  party = bidder;
  amount = a.max_price;
}

abbrev pub payout : ℕ → Auction → String → ℕ → Movement
payout id a party amount = record {
  auction_id = id;
  direction = out_of_escrow;
  token = a.payment_token;
  party = party;
  amount = amount;
}

-- Storing an auction.
abbrev pub store : ℕ → Auction → State → State
store id a c = record c { auctions = put_at id a c.auctions }

abbrev pub load : ℕ → State → Call Auction
load id c = elim (get_at id c.auctions) [ none ↦ err (rejects auction_not_found) | some a ↦ ok a ]

-- The commitments of the slots, from slot `i` on, with 0 for an empty one.
unfoldable pub slot_commitments : List Bid → ℕ → List ℕ
slot_commitments bids zero = []
slot_commitments [] (suc left) = 0 ∷ slot_commitments [] left
slot_commitments (b ∷ bids) (suc left) = b.commitment ∷ slot_commitments bids left

abbrev pub is_refunded : AuctionStatus → Bool
is_refunded refunded = true
is_refunded _ = false

abbrev pub check_proof : Verdict → Call (Unit {0})
check_proof Verdict.verified = ok tt
check_proof Verdict.rejected = err (rejects proof_invalid)
check_proof Verdict.call_failed = err (rejects verifier_call_failed)

abbrev pub bid_at : List Bid → ℕ → Call Bid
bid_at bids i = elim (get_elem? bids i) [
  | none ↦ err (rejects winner_index_out_of_range)
  | some b ↦ ok b
]

abbrev pub get_auction : ℕ → State → Call Auction
get_auction id c = load id c

module _ {Proof : Type 0} (host : Host Proof) where
  abbrev pub require_auth : String → Call (Unit {0})
  require_auth party = if host.has_auth party then ok tt else err traps

  unfoldable pub create_auction : NewAuction → State → Call (ℕ × State)
  create_auction p c =
      let id : ℕ = c.next_auction_id in
      let a : Auction = opened_auction p in
      and_then (require_auth p.seller) (λ _.
        and_then (ensure (ltbℤ (pos 0) p.lot_amount) lot_amount_not_positive) (λ _.
          and_then (ensure (ltbℤ (pos 0) p.max_price) max_price_not_positive) (λ _.
            and_then (ensure (not (ltbℤ (pos u64_max) p.max_price)) max_price_exceeds_64_bits) (λ _.
              and_then (ensure (ltb host.now p.commit_deadline) deadline_not_in_future) (λ _.
                and_then (ensure (not (p.grace_period == 0)) grace_period_zero) (λ _.
                  and_then (transfer host (lot_in id a) c.moved) (λ moved. ok (
                    id,
                    record {
                      next_auction_id = suc id;
                      auctions = put_at id a c.auctions;
                      moved = moved;
                      events =
                          Event.auction_created id p.seller a.max_price a.commit_deadline
                          ∷ c.events;
                    },
                  ))))))))

  unfoldable pub place_bid : ℕ → String → ℕ → List ℕ → State → Call State
  place_bid id bidder commitment encrypted_bid c = and_then (require_auth bidder) (λ _.
      and_then (load id c) (λ a. and_then (ensure_open a) (λ _.
        and_then (ensure (ltb host.now a.commit_deadline) bid_after_deadline) (λ _.
          and_then (ensure (ltb (length a.bids) max_bid_slots) bids_full) (λ _.
            and_then (ensure (not (commitment == 0)) commitment_is_empty_marker) (λ _.
              and_then
                (ensure (not (any (λ b. b.commitment == commitment) a.bids)) duplicate_commitment)
                (λ _.
                  and_then
                    (ensure (leb (length encrypted_bid) max_encrypted_bid_bytes)
                      encrypted_bid_too_large)
                    (λ _. and_then (transfer host (deposit id a bidder) c.moved) (λ moved.
                      let bid : Bid = record { bidder = bidder; commitment = commitment } in
                      ok (record c {
                        auctions = put_at id (record a { bids = a.bids ++ bid ∷ [] }) c.auctions;
                        moved = moved;
                        events =
                            Event.bid_placed id (length a.bids) bidder commitment encrypted_bid
                            ∷ c.events;
                      }))))))))))

  abbrev pub address_leaf : String → ℕ
  address_leaf address = compute_address_leaf host.poseidon (host.key_bytes address)

  -- The 13 public signals, in their frozen order.
  unfoldable pub build_public_signals : Auction → ℕ → ℕ → ℕ → String → List ℕ
  build_public_signals a id winner_index winning_price winner_address =
      id ∷ slot_commitments a.bids max_bid_slots
      ++ winner_index ∷ winning_price ∷ a.whitelist_root ∷ address_leaf winner_address ∷ []

  -- The deposits of the losers, from slot `i` on.
  unfoldable pub pay_losers : ℕ → Auction → ℕ → ℕ → List Bid → List Movement → Call (List Movement)
  pay_losers id a winner_index i [] moved = ok moved
  pay_losers id a winner_index i (b ∷ bids) moved =
      let rest : List Movement → Call (List Movement) = pay_losers id a winner_index (suc i) bids in
      if i == winner_index
      then rest moved
      else and_then (transfer host (payout id a b.bidder a.max_price) moved) rest

  abbrev pub pay_difference : ℕ → Auction → String → ℕ → List Movement → Call (List Movement)
  pay_difference id a winner amount moved =
      if ltb 0 amount then transfer host (payout id a winner amount) moved else ok moved

  -- The transfers of `settle`: the price, the rest of the winner's deposit, the losers', the lot.
  unfoldable pub pay_settlement :
      ℕ → Auction → ℕ → ℕ → String → List Movement → Call (List Movement)
  pay_settlement id a winner_index price winner moved =
      and_then (transfer host (payout id a a.seller price) moved) (λ paid.
        and_then (pay_difference id a winner (a.max_price - price) paid) (λ returned.
          and_then (pay_losers id a winner_index 0 a.bids returned)
            (λ refunds. transfer host (lot_out id a winner) refunds)))

  unfoldable pub settle : ℕ → ℕ → ℤ → String → Proof → State → Call State
  settle id winner_index winning_price winner_address proof c =
      let price : ℕ = pos_part winning_price in
      and_then (load id c) (λ a. and_then (ensure_open a) (λ _.
        and_then (ensure (leb a.commit_deadline host.now) settle_before_deadline) (λ _.
          and_then (ensure (ltb winner_index (length a.bids)) winner_index_out_of_range) (λ _.
            and_then (ensure (ltbℤ (pos 0) winning_price) winning_price_not_positive) (λ _.
              and_then
                (ensure (not (ltbℤ (pos a.max_price) winning_price)) winning_price_exceeds_max)
                (λ _. and_then (bid_at a.bids winner_index) (λ b.
                  and_then (ensure (str_eq b.bidder winner_address) winner_address_mismatch) (λ _.
                    and_then
                      (check_proof (
                        host.verify proof
                          (build_public_signals a id winner_index price winner_address)))
                      (λ _.
                        and_then (pay_settlement id a winner_index price winner_address c.moved)
                          (λ moved. ok (record c {
                            auctions = put_at id (record a { status = settled }) c.auctions;
                            moved = moved;
                            events = Event.auction_settled id winner_address price ∷ c.events;
                          })))))))))))

  unfoldable pub refund_bids : ℕ → Auction → List Bid → List Movement → Call (List Movement)
  refund_bids id a [] moved = ok moved
  refund_bids id a (b ∷ bids) moved =
      and_then (transfer host (payout id a b.bidder a.max_price) moved) (refund_bids id a bids)

  -- The end of `refund_all`: a lot that its token keeps back stays in escrow.
  unfoldable pub return_lot : ℕ → Auction → List Movement → State → State
  return_lot id a moved c =
      let refund : Event = Event.auction_refunded id (length a.bids) in
      if host.accepts moved (lot_out id a a.seller)
      then record c {
        auctions = put_at id (record a { status = refunded; lot_reclaimed = true }) c.auctions;
        moved = lot_out id a a.seller ∷ moved;
        events = refund ∷ c.events;
      }
      else record c {
        auctions = put_at id (record a { status = refunded }) c.auctions;
        moved = moved;
        events = refund ∷ Event.lot_return_failed id a.seller a.lot_amount ∷ c.events;
      }

  unfoldable pub refund_all : ℕ → State → Call State
  refund_all id c = and_then (load id c) (λ a. and_then (ensure_open a) (λ _.
      and_then (ensure (leb (refund_unlock_time a) host.now) refund_too_early)
        (λ _. and_then (refund_bids id a a.bids c.moved) (λ moved. ok (return_lot id a moved c)))))

  unfoldable pub reclaim_lot : ℕ → State → Call State
  reclaim_lot id c = and_then (load id c) (λ a.
      and_then (ensure (is_refunded a.status) reclaim_requires_refunded_auction) (λ _.
        and_then (ensure (not a.lot_reclaimed) lot_already_reclaimed) (λ _.
          and_then (ensure (host.accepts c.moved (lot_out id a a.seller)) lot_transfer_failed) (λ _.
            ok (record c {
              auctions = put_at id (record a { lot_reclaimed = true }) c.auctions;
              moved = lot_out id a a.seller ∷ c.moved;
              events = Event.lot_reclaimed id a.seller a.lot_amount ∷ c.events;
            })))))
