-- ===== src/Contract/Invariant.antt =====
-- contracts/auction/src/lib.rs: what holds in every state that calls lead to, and the life of an auction.
use sealedstellar.Common.{
  ℕ, ◌+◌, ◌≤◌, ◌≡◌, ◌≢◌, refl, subst, true, false, String, List, [], ◌∷◌, ◌++◌, none, some, ◌==◌,
  if◌then◌else◌, length, length-append, arith, Bool-cases, inl, inr,
}
use sealedstellar.Common.Table.{get_at, put_at, get_at-put_at}
use sealedstellar.Indexer.Types.{refunded}
use sealedstellar.Contract.{
  Bid, Auction, into_escrow, out_of_escrow, State, deployed, max_bid_slots,
}
use sealedstellar.Contract.Escrow.{Books, Adds, total}
use sealedstellar.Contract.Machine.{
  held, is_taken, IsDistinct, IsMarked, IsWellFormed, IsWellKept, Evolves, takes_bid, ends_settled,
  ends_refunded, keeps_lot, returns_lot, Balances, Effect, adds_auction, changes_auction, Step,
  creates, places_bid, settles, refunds, reclaims, Steps, rests, then_calls,
}
use sealedstellar.Contract.Effects.{
  create_auction-Effect, place_bid-Effect, settle-Effect, refund_all-Effect, reclaim_lot-Effect,
}

-- The books of the escrow agree with the auctions: of every token, all that came in for an auction went
-- out or is held for it.
pub record IsSound (c : State) : Type 0 where
  pub conserved :
      (id : ℕ) (l : String)
      → total into_escrow l id c.moved
        ≡ total out_of_escrow l id c.moved + held l (get_at id c.auctions)
  pub well_kept : (id : ℕ) (a : Auction) → get_at id c.auctions ≡ some a → IsWellFormed a
  pub fresh : (id : ℕ) → c.next_auction_id ≤ id → get_at id c.auctions ≡ none

taken_snoc :
    (bids : List Bid) (b : Bid) (n : ℕ)
    → b.commitment == n ≡ false
    → is_taken n bids ≡ false
    → is_taken n (bids ++ b ∷ []) ≡ false
taken_snoc [] b n h k = ground (arith, h)
taken_snoc (x ∷ bids) b n h k = let rest = taken_snoc bids b n h in ground (arith, k, rest)

IsDistinct-snoc :
    (bids : List Bid) (b : Bid)
    → is_taken b.commitment bids ≡ false
    → IsDistinct bids
    → IsDistinct (bids ++ b ∷ [])
unfolding IsDistinct
IsDistinct-snoc [] b h d = (refl, tt)
IsDistinct-snoc (x ∷ bids) b h (new, d) = (
  taken_snoc bids b x.commitment (ground (arith, h)) new,
  IsDistinct-snoc bids b (ground (arith, h)) d,
)

IsMarked-snoc :
    (bids : List Bid) (b : Bid) → b.commitment ≢ 0 → IsMarked bids → IsMarked (bids ++ b ∷ [])
unfolding IsMarked
IsMarked-snoc [] b h m = (h, tt)
IsMarked-snoc (x ∷ bids) b h (mark, m) = (mark, IsMarked-snoc bids b h m)

-- A change of the bids, the status and the place of the lot keeps the rest.
reshaped :
    (a a' : Auction)
    → a' ≡ record a { status = a'.status; bids = a'.bids; lot_reclaimed = a'.lot_reclaimed }
    → IsWellFormed a
    → length a'.bids ≤ max_bid_slots
    → IsDistinct a'.bids
    → IsMarked a'.bids
    → (a'.lot_reclaimed ≡ true → a'.status ≡ refunded)
    → IsWellFormed a'
reshaped a a' same f few distinct marked kept = record {
  some_lot = rw same f.some_lot;
  some_price = rw same f.some_price;
  small_price = rw same f.small_price;
  some_grace = rw same f.some_grace;
  few_bids = few;
  distinct = distinct;
  marked = marked;
  kept_lot = kept;
}

pub Evolves-IsWellFormed : (a a' : Auction) → Evolves a a' → IsWellFormed a → IsWellFormed a'
Evolves-IsWellFormed a _ (takes_bid o b room mark new) f =
    reshaped a _ refl f (rw (length-append a.bids (b ∷ [])) (omega arith))
      (IsDistinct-snoc a.bids b new f.distinct) (IsMarked-snoc a.bids b mark f.marked) f.kept_lot
Evolves-IsWellFormed a _ (ends_settled o) f =
    reshaped a _ refl f f.few_bids f.distinct f.marked (λ e. absurd (let r = f.kept_lot e in cc))
Evolves-IsWellFormed a _ (ends_refunded o) f =
    reshaped a _ refl f f.few_bids f.distinct f.marked (λ e. refl)
Evolves-IsWellFormed a _ (keeps_lot o) f =
    reshaped a _ refl f f.few_bids f.distinct f.marked (λ e. refl)
Evolves-IsWellFormed a _ (returns_lot r k) f =
    reshaped a _ refl f f.few_bids f.distinct f.marked (λ e. r)

pub Step-Effect : {Proof : Type 0} (c c' : State) → IsWellKept c → Step Proof c c' → Effect c c'
Step-Effect c _ well_kept (creates host p id c' h) = create_auction-Effect host c p id c' h
Step-Effect c _ well_kept (places_bid host id bidder commitment encrypted_bid c' h) =
    place_bid-Effect host c id bidder commitment encrypted_bid c' h
Step-Effect c _ well_kept (settles host id i price winner proof c' h) =
    settle-Effect host c id i price winner proof c' h
Step-Effect c _ well_kept (refunds host id c' h) = refund_all-Effect host c well_kept id c' h
Step-Effect c _ well_kept (reclaims host id c' h) = reclaim_lot-Effect host c id c' h

pub same_id : (n m : ℕ) → n == m ≡ true → n ≡ m
same_id n m h = ground (arith, h)

some_inj : {x y : Auction} → some x ≡ some y → x ≡ y
some_inj e = cc

-- Books that balance for an auction keep the escrow's books in agreement.
conserved_put :
    (c c' : State) (id : ℕ) (a : Auction) (w : Books)
    → IsSound c
    → c'.auctions ≡ put_at id a c.auctions
    → Adds w c.moved c'.moved
    → Balances w id (get_at id c.auctions) (some a)
    → (other : ℕ) (l : String)
    → total into_escrow l other c'.moved
      ≡ total out_of_escrow l other c'.moved + held l (get_at other c'.auctions)
conserved_put c c' id a w sound stored adds balances other l =
    let before = sound.conserved other l in
    let come = adds into_escrow l other in
    let gone = adds out_of_escrow l other in
    elim (Bool-cases (id == other)) [
      | inl same ↦
          let balanced = rw (same_id id other same) at (balances.balanced l) in
          rw (stored, get_at-put_at id other a c.auctions, same)
            (omega (arith, before, come, gone, balanced))
      | inr apart ↦
          let none_in = balances.apart into_escrow l other apart in
          let none_out = balances.apart out_of_escrow l other apart in
          rw (stored, get_at-put_at id other a c.auctions, apart)
            (omega (arith, before, come, gone, none_in, none_out))
    ]

pub found_put :
    (c c' : State) (id : ℕ) (a : Auction)
    → c'.auctions ≡ put_at id a c.auctions
    → (other : ℕ)
    → get_at other c'.auctions ≡ (if id == other then some a else get_at other c.auctions)
found_put c c' id a stored other = rw stored (get_at-put_at id other a c.auctions)

IsWellKept-put :
    (c c' : State) (id : ℕ) (a : Auction)
    → IsWellKept c
    → IsWellFormed a
    → c'.auctions ≡ put_at id a c.auctions
    → IsWellKept c'
IsWellKept-put c c' id a well_kept fit stored other b h = elim (Bool-cases (id == other)) [
  | inl same ↦
      let e = rw (found_put c c' id a stored other, same) at h in
      subst IsWellFormed (some_inj e) fit
  | inr apart ↦ well_kept other b (rw (found_put c c' id a stored other, apart) at h)
]

pub Effect-IsSound : (c c' : State) → IsSound c → Effect c c' → IsSound c'
Effect-IsSound c c' sound (adds_auction a w o none_yet fit next stored adds balances) =
    let unused = sound.fresh c.next_auction_id (omega arith) in
    record {
      conserved = conserved_put c c' c.next_auction_id a w sound stored adds (rw unused balances);
      well_kept = IsWellKept-put c c' c.next_auction_id a sound.well_kept fit stored;
      fresh = λ id h.
          rw (found_put c c' _ a stored id)
            (let e = sound.fresh id (omega (arith, h, next)) in ground (arith, h, next, e));
    }
Effect-IsSound c c' sound (changes_auction key a a' w found evolves next stored adds balances) =
    record {
      conserved = conserved_put c c' key a' w sound stored adds (rw found balances);
      well_kept =
          IsWellKept-put c c' key a' sound.well_kept
            (Evolves-IsWellFormed a a' evolves (sound.well_kept key a found)) stored;
      fresh = λ id h. rw (found_put c c' key a' stored id) (elim (Bool-cases (key == id)) [
        | inl same ↦ absurd (
            let e = same_id key id same in
            let unused = sound.fresh id (omega (arith, h, next)) in cc)
        | inr apart ↦ rw apart (sound.fresh id (omega (arith, h, next)))
      ]);
    }

deployed-IsSound : IsSound deployed
unfolding held get_at
deployed-IsSound = record {
  conserved = λ id l. omega arith;
  well_kept = λ id a h. absurd (cc);
  fresh = λ id h. refl;
}

-- After any calls on a new contract, under any hosts: for every auction and every token, what came into the
-- escrow of the token for the auction is what went out of it and what is to be held for the auction: its
-- lot in the lot's token while it is open, or refunded without the lot, and one deposit of its maximal price for
-- each bid in the payment token while it is open; the stored auctions have at most 8 bids, of distinct commitments other than 0, a positive
-- lot, price and grace, and a price below 2^64; and no number from the next one on is in use.
pub Steps-IsSound : {Proof : Type 0} (c : State) → Steps Proof deployed c → IsSound c
Steps-IsSound c rests = deployed-IsSound
Steps-IsSound c (then_calls c' _ before step) =
    let sound = Steps-IsSound c' before in
    Effect-IsSound c' c sound (Step-Effect c' c sound.well_kept step)
