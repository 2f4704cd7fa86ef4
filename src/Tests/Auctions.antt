-- ===== src/Tests/Auctions.antt =====
-- Runs of the auction contract of contracts/auction/src/lib.rs.
use sealedstellar.Common.{
  not, str_eq, ℕ, ◌+◌, ◌-◌, ◌*◌, ◌≤◌, ◌≡◌, refl, true, String, [], ◌∷◌, some, ok, arith,
}
use sealedstellar.Common.Int.{pos}
use sealedstellar.Common.Table.{get_at, put_at}
use sealedstellar.Indexer.Types.{settled, refunded}
use sealedstellar.Contract.{
  Auction, Event, State, Host, Verdict, deployed, lifetime_ledgers, transfer,
}
use sealedstellar.Contract.Calls.{
  NewAuction, opened_auction, lot_in, lot_out, deposit, payout, create_auction, place_bid,
  pay_losers, pay_settlement, settle, refund_all,
}
use sealedstellar.Contract.Machine.{Step, creates, places_bid, settles, Steps, rests, then_calls}
use sealedstellar.Contract.Invariant.{IsSound, Steps-IsSound}
use sealedstellar.Contract.Life.{Follows, IsLast, Step-Follows, Steps-IsLast}
use sealedstellar.Contract.Settlement.{
  IsSettleable, AcceptsAll, settlement, deposits_back, settle-settles, settle-succeeds,
}
use sealedstellar.Contract.Lifetime.{lifetime_ledgers-covers}
use sealedstellar.Contract.Refunds.{PaysDeposits, refund_all-refunds}

-- A host whose tokens carry everything out, or everything but the lot, with a verifier that says yes.
abbrev willing_host : ℕ → Host String
willing_host now = record {
  now = now;
  has_auth = λ party. true;
  accepts = λ moved m. true;
  verify = λ proof signals. Verdict.verified;
  key_bytes = λ address. [];
  poseidon = λ inputs. 0;
}

abbrev stubborn_host : ℕ → Host String
stubborn_host now = record (willing_host now) { accepts = λ moved m. not (str_eq m.token "lots") }

abbrev new_auction : NewAuction
new_auction = record {
  seller = "ann";
  rwa_token = "lots";
  lot_amount = pos 50;
  payment_token = "cash";
  max_price = pos 100;
  commit_deadline = 20;
  grace_period = 10;
  whitelist_root = 0;
  operator_enc_pubkey = [];
}

abbrev bare : Auction
bare = opened_auction new_auction

abbrev created : State
created = record {
  next_auction_id = 2;
  auctions = (1, bare) ∷ [];
  moved = lot_in 1 bare ∷ [];
  events = Event.auction_created 1 "ann" 100 20 ∷ [];
}

abbrev one_bid : Auction
one_bid = record bare { bids = record { bidder = "bob"; commitment = 7 } ∷ [] }

abbrev first_bid : State
first_bid = record {
  next_auction_id = 2;
  auctions = (1, one_bid) ∷ [];
  moved = deposit 1 bare "bob" ∷ created.moved;
  events = Event.bid_placed 1 0 "bob" 7 [] ∷ created.events;
}

abbrev two_bids : Auction
two_bids = record bare {
  bids = record { bidder = "bob"; commitment = 7 } ∷ record { bidder = "eve"; commitment = 5 } ∷ [];
}

abbrev second_bid : State
second_bid = record {
  next_auction_id = 2;
  auctions = (1, two_bids) ∷ [];
  moved = deposit 1 one_bid "eve" ∷ first_bid.moved;
  events = Event.bid_placed 1 1 "eve" 5 [] ∷ first_bid.events;
}

abbrev paid_out : State
paid_out = record {
  next_auction_id = 2;
  auctions = (1, record two_bids { status = settled }) ∷ [];
  moved =
      lot_out 1 two_bids "bob"
      ∷ payout 1 two_bids "eve" 100
      ∷ payout 1 two_bids "bob" 60
      ∷ payout 1 two_bids "ann" 40
      ∷ second_bid.moved;
  events = Event.auction_settled 1 "bob" 40 ∷ second_bid.events;
}

create_runs : create_auction (willing_host 3) new_auction deployed ≡ ok (1, created)
unfolding create_auction transfer put_at
create_runs = refl

bid_runs : place_bid (willing_host 4) 1 "bob" 7 [] created ≡ ok first_bid
unfolding place_bid transfer put_at get_at
bid_runs = refl

bid_runs_again : place_bid (willing_host 5) 1 "eve" 5 [] first_bid ≡ ok second_bid
unfolding place_bid transfer put_at get_at
bid_runs_again = refl

settle_runs : settle (willing_host 20) 1 0 (pos 40) "bob" "proof" second_bid ≡ ok paid_out
unfolding settle pay_settlement pay_losers transfer put_at get_at
settle_runs = refl

up_to_bids : Steps String deployed second_bid
up_to_bids =
    then_calls first_bid second_bid
      (then_calls created first_bid
        (then_calls deployed created rests
          (creates (willing_host 3) new_auction 1 created create_runs))
        (places_bid (willing_host 4) 1 "bob" 7 [] first_bid bid_runs))
      (places_bid (willing_host 5) 1 "eve" 5 [] second_bid bid_runs_again)

settling : Step String second_bid paid_out
settling = settles (willing_host 20) 1 0 (pos 40) "bob" "proof" paid_out settle_runs

Steps-IsSound_example : IsSound paid_out
Steps-IsSound_example = Steps-IsSound paid_out (then_calls second_bid paid_out up_to_bids settling)

stored_bids : get_at 1 second_bid.auctions ≡ some two_bids
unfolding get_at
stored_bids = refl

stored_end : get_at 1 paid_out.auctions ≡ some (record two_bids { status = settled })
unfolding get_at
stored_end = refl

Step-Follows_example : (a : Auction) × (get_at 1 paid_out.auctions ≡ some a) × Follows two_bids a
Step-Follows_example = Step-Follows second_bid paid_out up_to_bids settling 1 two_bids stored_bids

Steps-IsLast_example :
    (a : Auction) × (get_at 1 paid_out.auctions ≡ some a)
    × IsLast (record two_bids { status = settled }) a
Steps-IsLast_example =
    Steps-IsLast paid_out paid_out (then_calls second_bid paid_out up_to_bids settling) rests 1
      (record two_bids { status = settled }) stored_end (λ e. absurd (cc))

settle-settles_example :
    (a : Auction) × IsSettleable (willing_host 20) 1 0 (pos 40) "bob" "proof" second_bid a
    × (paid_out.moved ≡ settlement 1 a 0 40 "bob" second_bid.moved)
    × (get_at 1 paid_out.auctions ≡ some (record a { status = settled }))
settle-settles_example =
    settle-settles (willing_host 20) second_bid 1 0 (pos 40) "bob" "proof" paid_out settle_runs

willing : AcceptsAll (willing_host 20)
unfolding AcceptsAll
willing moved m = refl

ready : IsSettleable (willing_host 20) 1 0 (pos 40) "bob" "proof" second_bid two_bids
ready = record {
  stored = stored_bids;
  is_open = refl;
  late = omega arith;
  positive = omega arith;
  within = omega arith;
  winner_bid = (record { bidder = "bob"; commitment = 7 }, refl, refl);
  proved = refl;
}

settle-succeeds_example :
    (c : State) × (settle (willing_host 20) 1 0 (pos 40) "bob" "proof" second_bid ≡ ok c)
settle-succeeds_example =
    settle-succeeds (willing_host 20) willing second_bid 1 0 (pos 40) "bob" "proof" two_bids ready

stubborn_pays : PaysDeposits (stubborn_host 30) 1 two_bids
unfolding PaysDeposits
stubborn_pays moved party = refl

refund_all-refunds_example :
    (c : State) × (refund_all (stubborn_host 30) 1 second_bid ≡ ok c)
    × ((a : Auction) × (get_at 1 c.auctions ≡ some a)
        × (a.status ≡ refunded)
        × (c.moved ≡ deposits_back 1 two_bids two_bids.bids second_bid.moved))
refund_all-refunds_example =
    refund_all-refunds (stubborn_host 30) 1 two_bids stubborn_pays second_bid stored_bids refl
      (omega arith)

lifetime_ledgers-covers_example :
    (20 - 3 + 10 + 86_396 ≤ lifetime_ledgers 3 20 10 * 5) × (lifetime_ledgers 3 20 10 ≤ 3_000_000)
lifetime_ledgers-covers_example = lifetime_ledgers-covers 3 20 10 (omega arith) (omega arith)
