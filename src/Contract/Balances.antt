-- ===== src/Contract/Balances.antt =====
-- contracts/auction/src/lib.rs: the books of each call, against what the escrow is to hold before and after it.
use sealedstellar.Common.{
  ℕ, ◌*◌, ◌≡◌, true, false, String, [], ◌∷◌, ◌++◌, none, some, length, length-append, arith,
}
use sealedstellar.Indexer.Types.{opened, settled, refunded}
use sealedstellar.Contract.{Bid, Auction}
use sealedstellar.Contract.Calls.{lot_in, lot_out, deposit}
use sealedstellar.Contract.Escrow.{of, pays, ◌⊕◌, one_fewer}
use sealedstellar.Contract.Machine.{held, lot_held, deposits_held, Balances}

pub lot_in-Balances :
    (id : ℕ) (a : Auction)
    → a.status ≡ opened
    → a.bids ≡ []
    → Balances (of (lot_in id a)) id none (some a)
unfolding held lot_held deposits_held
lot_in-Balances id a o e = record {
  balanced = λ l. rw (o, e) (ground arith);
  apart = λ d l other h. ground (arith, h);
}

pub deposit-Balances :
    (id : ℕ) (a : Auction) (bidder : String) (b : Bid)
    → a.status ≡ opened
    → Balances (of (deposit id a bidder)) id (some a) (some (record a { bids = a.bids ++ b ∷ [] }))
unfolding held lot_held deposits_held
deposit-Balances id a bidder b o = record {
  balanced = λ l.
      rw (o, length-append a.bids (b ∷ []))
        (let e = one_fewer (length a.bids) a.max_price in ground (arith, e));
  apart = λ d l other h. ground (arith, h);
}

pub settlement-Balances :
    (id : ℕ) (a : Auction) (party : String)
    → a.status ≡ opened
    → Balances
        (pays id a.payment_token (length a.bids * a.max_price) ⊕ of (lot_out id a party))
        id
        (some a)
        (some (record a { status = settled }))
unfolding held lot_held deposits_held
settlement-Balances id a party o = record {
  balanced = λ l. rw o (ground arith);
  apart = λ d l other h. ground (arith, h);
}

pub refund-Balances :
    (id : ℕ) (a : Auction) (party : String)
    → a.status ≡ opened
    → Balances
        (pays id a.payment_token (length a.bids * a.max_price) ⊕ of (lot_out id a party))
        id
        (some a)
        (some (record a { status = refunded; lot_reclaimed = true }))
unfolding held lot_held deposits_held
refund-Balances id a party o = record {
  balanced = λ l. rw o (ground arith);
  apart = λ d l other h. ground (arith, h);
}

pub kept_lot-Balances :
    (id : ℕ) (a : Auction)
    → a.status ≡ opened
    → a.lot_reclaimed ≡ false
    → Balances
        (pays id a.payment_token (length a.bids * a.max_price))
        id
        (some a)
        (some (record a { status = refunded }))
unfolding held lot_held deposits_held
kept_lot-Balances id a o k = record {
  balanced = λ l. rw (o, k) (ground arith);
  apart = λ d l other h. ground (arith, h);
}

pub reclaim-Balances :
    (id : ℕ) (a : Auction)
    → a.status ≡ refunded
    → a.lot_reclaimed ≡ false
    → Balances (of (lot_out id a a.seller)) id (some a) (some (record a { lot_reclaimed = true }))
unfolding held lot_held deposits_held
reclaim-Balances id a r k = record {
  balanced = λ l. rw (r, k) (ground arith);
  apart = λ d l other h. ground (arith, h);
}
