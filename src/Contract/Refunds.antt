-- ===== src/Contract/Refunds.antt =====
-- contracts/auction/src/lib.rs, `refund_all`: no token of the seller's can keep the deposits back.
use sealedstellar.Common.{
  ℕ, ◌≤◌, ◌≡◌, refl, true, String, List, [], ◌∷◌, some, ok, leb, arith, Bool-cases, inl, inr,
  if◌then◌else◌,
}
use sealedstellar.Common.Table.{get_at, get_at-put_at_same}
use sealedstellar.Indexer.Types.{opened, refunded}
use sealedstellar.Contract.{Bid, Auction, Movement, State, Host, transfer, refund_unlock_time}
use sealedstellar.Contract.Calls.{lot_out, payout, refund_bids, return_lot, refund_all}
use sealedstellar.Contract.Effects.{past, ensure-true, load-some, ensure_open-opened}
use sealedstellar.Contract.Settlement.{deposits_back}

-- The payment token carries out every payment of a deposit of the auction.
unfoldable pub PaysDeposits : {Proof : Type 0} → Host Proof → ℕ → Auction → Type 0
PaysDeposits host id a =
    (moved : List Movement) (party : String)
    → host.accepts moved (payout id a party a.max_price) ≡ true

module _ {Proof : Type 0} (host : Host Proof) (id : ℕ) (a : Auction)
    (willing : PaysDeposits host id a) where
  refund_bids-deposits_back :
      (bids : List Bid) (ms : List Movement)
      → refund_bids host id a bids ms ≡ ok (deposits_back id a bids ms)
  unfolding refund_bids deposits_back transfer PaysDeposits
  refund_bids-deposits_back [] ms = refl
  refund_bids-deposits_back (b ∷ bids) ms =
      rw (willing ms b.bidder)
        (refund_bids-deposits_back bids (payout id a b.bidder a.max_price ∷ ms))

  -- The storage after a refund, whether the lot's token returned the lot or not.
  return_lot-refunded :
      (moved : List Movement) (c : State)
      → (a' : Auction) × (get_at id (return_lot host id a moved c).auctions ≡ some a')
        × (a'.status ≡ refunded)
        × ((return_lot host id a moved c).moved ≡ (
            if host.accepts moved (lot_out id a a.seller)
            then lot_out id a a.seller ∷ moved
            else moved))
  unfolding return_lot
  return_lot-refunded moved c = elim (Bool-cases (host.accepts moved (lot_out id a a.seller))) [
    | inl returned ↦
        let after : Auction = record a { status = refunded; lot_reclaimed = true } in
        rw returned (after, get_at-put_at_same id after c.auctions, refl, refl)
    | inr kept ↦
        let after : Auction = record a { status = refunded } in
        rw kept (after, get_at-put_at_same id after c.auctions, refl, refl)
  ]

  -- From its unlock time on, an open auction whose payment token pays deposits out can be refunded, also
  -- when the lot's token refuses: `refund_all` gives a result, every bidder is paid the deposit once, the lot
  -- goes back to the seller if its token carries that out, and the stored auction is refunded.
  pub refund_all-refunds :
      (c : State)
      → get_at id c.auctions ≡ some a
      → a.status ≡ opened
      → refund_unlock_time a ≤ host.now
      → (c' : State) × (refund_all host id c ≡ ok c')
        × ((a' : Auction) × (get_at id c'.auctions ≡ some a')
            × (a'.status ≡ refunded)
            × (c'.moved ≡ (
                let paid = deposits_back id a a.bids c.moved in
                if host.accepts paid (lot_out id a a.seller)
                then lot_out id a a.seller ∷ paid
                else paid)))
  unfolding refund_all
  refund_all-refunds c stored o late =
      let ready : leb (refund_unlock_time a) host.now ≡ true = ground arith in
      let paid : List Movement = deposits_back id a a.bids c.moved in
      (
        return_lot host id a paid c,
        past _ _ a (load-some id c a stored) (
            past _ _ tt (ensure_open-opened a o) (
              past _ _ tt (ensure-true _ _ ready)
                (past _ _ paid (refund_bids-deposits_back a.bids c.moved) refl))),
        return_lot-refunded paid c,
      )
