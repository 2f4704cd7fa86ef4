-- ===== src/Contract/Effects.antt =====
-- contracts/auction/src/lib.rs: each call that gives a result changes one auction and its books alike.
use sealedstellar.Common.{
  ℕ, ◌*◌, ◌≤◌, ◌<◌, ◌≡◌, ◌≢◌, refl, ap, Bool, true, false, not, String, List, ◌∷◌, Option, none,
  some, ok, err, and_then, and_then-eq-ok, ltb, leb, ◌==◌, if◌then◌else◌, length, arith, ltb→lt,
  subst, str_eq, Bool-cases, inl, inr, ◌⊎◌,
}
use sealedstellar.Common.Int.{ℤ, pos, pos_part, ltbℤ}
use sealedstellar.Common.Table.{get_at, put_at}
use sealedstellar.Indexer.Types.{AuctionStatus, opened, settled, refunded}
use sealedstellar.Web.Errors.{AuctionError, auction_not_found}
use sealedstellar.Contract.{
  Bid, Auction, Movement, Event, State, Host, Failure, rejects, Call, ensure, ensure_open, u64_max,
  max_bid_slots, max_encrypted_bid_bytes, refund_unlock_time, transfer,
}
use sealedstellar.Contract.Calls.{
  NewAuction, opened_auction, lot_in, lot_out, deposit, load, bid_at, check_proof,
  build_public_signals, create_auction, place_bid, pay_settlement, settle, refund_bids, return_lot,
  refund_all, reclaim_lot, is_refunded,
}
use sealedstellar.Contract.Escrow.{
  Books, Adds, of, pays, transfer-Adds, refund_bids-Adds, pay_settlement-Adds, Adds-both,
}
use sealedstellar.Contract.Machine.{
  IsWellKept, is_taken, IsDistinct, IsMarked, IsWellFormed, Evolves, takes_bid, ends_settled,
  ends_refunded, keeps_lot, returns_lot, Balances, Effect, adds_auction, changes_auction,
}
use sealedstellar.Contract.Balances.{
  lot_in-Balances, deposit-Balances, settlement-Balances, refund-Balances, kept_lot-Balances,
  reclaim-Balances,
}

-- A call that got past a test, and past the loading of an open auction.
pub passed :
    {A : Type 0} {y : A} (b : Bool) (f : Failure) (k : Unit {0} → Call A)
    → and_then (if b then ok tt else err f) k ≡ ok y
    → (b ≡ true) × (k tt ≡ ok y)
passed true f k h = (refl, h)
passed false f k h = absurd (cc)

pub load-ok : (id : ℕ) (c : State) (a : Auction) → load id c ≡ ok a → get_at id c.auctions ≡ some a
load-ok id c a h = go (get_at id c.auctions) refl h
  where
    go :
        (found : Option Auction)
        → get_at id c.auctions ≡ found
        → (elim found [ none ↦ err (rejects auction_not_found) | some a ↦ ok a ]) ≡ ok a
        → get_at id c.auctions ≡ some a
    go none e k = absurd (cc)
    go (some b) e k = cc

status_cases : (s : AuctionStatus) → (s ≡ opened) ⊎ ((s ≡ settled) ⊎ (s ≡ refunded))
status_cases opened = inl refl
status_cases settled = inr (inl refl)
status_cases refunded = inr (inr refl)

pub passed_open :
    {A : Type 0} {y : A} (a : Auction) (k : Unit {0} → Call A)
    → and_then (ensure_open a) k ≡ ok y
    → (a.status ≡ opened) × (k tt ≡ ok y)
passed_open a k h = elim (status_cases a.status) [
  | inl o ↦ (o, rw o at h)
  | inr (inl e) ↦ absurd (let h' = rw e at h in cc)
  | inr (inr e) ↦ absurd (let h' = rw e at h in cc)
]

-- And a call that does get past them.
pub past :
    {A B : Type 0} {y : Call B} (r : Call A) (k : A → Call B) (x : A)
    → r ≡ ok x
    → k x ≡ y
    → and_then r k ≡ y
past r k x e h = rw e h

pub ensure-true : (b : Bool) (e : AuctionError) → b ≡ true → ensure b e ≡ ok tt
ensure-true b e h = rw h refl

pub load-some :
    (id : ℕ) (c : State) (a : Auction) → get_at id c.auctions ≡ some a → load id c ≡ ok a
load-some id c a h = rw (h, load) refl

pub ensure_open-opened : (a : Auction) → a.status ≡ opened → ensure_open a ≡ ok tt
ensure_open-opened a o = rw o refl

pub refunded_status : (s : AuctionStatus) → is_refunded s ≡ true → s ≡ refunded
refunded_status opened h = absurd (cc)
refunded_status settled h = absurd (cc)
refunded_status refunded h = refl

not-zero : (n : ℕ) → not (n == 0) ≡ true → n ≢ 0
not-zero n h e = ground (arith, h, e)

at_most : (p : ℤ) (bound : ℕ) → not (ltbℤ (pos bound) p) ≡ true → pos_part p ≤ bound
at_most p bound h = ground (arith, h)

positive : (p : ℤ) → ltbℤ (pos 0) p ≡ true → 0 < pos_part p
positive p h = ground (arith, h)

open_lot : (a : Auction) → a.status ≡ opened → IsWellFormed a → a.lot_reclaimed ≡ false
open_lot a o fit = elim (Bool-cases a.lot_reclaimed) [
  | inl e ↦ absurd (let r = fit.kept_lot e in cc)
  | inr e ↦ e
]

not-true : (b : Bool) → not b ≡ true → b ≡ false
not-true b h = ground arith

pub ok_inj : {A : Type 0} {x y : A} → ◌≡◌ {A = Call A} (ok x) (ok y) → x ≡ y
ok_inj e = cc

-- A call that ends in the change of one auction.
changes :
    (c c' : State) (id : ℕ) (a a' : Auction) (w : Books) (moved : List Movement)
    (events : List Event)
    → load id c ≡ ok a
    → Evolves a a'
    → Adds w c.moved moved
    → Balances w id (some a) (some a')
    → ◌≡◌ {A = Call State}
        (ok (record c { auctions = put_at id a' c.auctions; moved = moved; events = events }))
        (ok c')
    → Effect c c'
changes c c' id a a' w moved events found evolves adds balances done =
    subst (Effect c) (ok_inj done)
      (changes_auction id a a' w (load-ok id c a found) evolves refl refl adds balances)

carried : (m : Movement) (ms : List Movement) → Adds (of m) ms (m ∷ ms)
carried m ms d l id = refl

module _ {Proof : Type 0} (host : Host Proof) (c : State) where
  pub reclaim_lot-Effect : (id : ℕ) (c' : State) → reclaim_lot host id c ≡ ok c' → Effect c c'
  unfolding reclaim_lot
  reclaim_lot-Effect id c' h =
      let (a, found, r1) = and_then-eq-ok (load id c) _ h in
      let (at_end, r2) = passed (is_refunded a.status) _ _ r1 in
      let (kept, r3) = passed (not a.lot_reclaimed) _ _ r2 in
      let (sent, r4) = passed (host.accepts c.moved (lot_out id a a.seller)) _ _ r3 in
      let status = refunded_status a.status at_end in
      let lot_left = not-true a.lot_reclaimed kept in
      changes c c' id a _ (of (lot_out id a a.seller)) _ _ found (returns_lot status lot_left)
        (carried (lot_out id a a.seller) c.moved) (reclaim-Balances id a status lot_left) r4

  pub place_bid-Effect :
      (id : ℕ) (bidder : String) (commitment : ℕ) (encrypted_bid : List ℕ) (c' : State)
      → place_bid host id bidder commitment encrypted_bid c ≡ ok c'
      → Effect c c'
  unfolding place_bid
  place_bid-Effect id bidder commitment encrypted_bid c' h =
      let (_, r0) = passed (host.has_auth bidder) _ _ h in
      let (a, found, r1) = and_then-eq-ok (load id c) _ r0 in
      let (o, r2) = passed_open a _ r1 in
      let (_, r3) = passed (ltb host.now a.commit_deadline) _ _ r2 in
      let (room, r4) = passed (ltb (length a.bids) max_bid_slots) _ _ r3 in
      let (filled, r5) = passed (not (commitment == 0)) _ _ r4 in
      let (new, r6) = passed (not (is_taken commitment a.bids)) _ _ r5 in
      let (_, r7) = passed (leb (length encrypted_bid) max_encrypted_bid_bytes) _ _ r6 in
      let (moved, sent, r8) = and_then-eq-ok (transfer host (deposit id a bidder) c.moved) _ r7 in
      let b : Bid = record { bidder = bidder; commitment = commitment } in
      changes c c' id a _ (of (deposit id a bidder)) moved _ found
        (takes_bid o b (ltb→lt _ _ room) (not-zero commitment filled) (not-true _ new))
        (transfer-Adds host _ c.moved moved sent) (deposit-Balances id a bidder b o) r8

  pub settle-Effect :
      (id winner_index : ℕ) (winning_price : ℤ) (winner_address : String) (proof : Proof)
      (c' : State)
      → settle host id winner_index winning_price winner_address proof c ≡ ok c'
      → Effect c c'
  unfolding settle
  settle-Effect id winner_index winning_price winner_address proof c' h =
      let (a, found, r1) = and_then-eq-ok (load id c) _ h in
      let (o, r2) = passed_open a _ r1 in
      let (_, r3) = passed (leb a.commit_deadline host.now) _ _ r2 in
      let (inside, r4) = passed (ltb winner_index (length a.bids)) _ _ r3 in
      let (_, r5) = passed (ltbℤ (pos 0) winning_price) _ _ r4 in
      let (within, r6) = passed (not (ltbℤ (pos a.max_price) winning_price)) _ _ r5 in
      let (b, _, r7) = and_then-eq-ok (bid_at a.bids winner_index) _ r6 in
      let (_, r8) = passed (str_eq b.bidder winner_address) _ _ r7 in
      let (_, _, r9) =
        and_then-eq-ok
          (check_proof (
            host.verify proof (
              build_public_signals host a id winner_index (pos_part winning_price) winner_address)))
          _ r8 in
      let (moved, sent, r10) =
        and_then-eq-ok
          (pay_settlement host id a winner_index (pos_part winning_price) winner_address c.moved) _
          r9 in
      changes c c' id a _ _ moved _ found (ends_settled o)
        (pay_settlement-Adds host id a winner_index _ winner_address c.moved moved
          (at_most winning_price a.max_price within) (ltb→lt _ _ inside) sent)
        (settlement-Balances id a winner_address o) r10

  pub refund_all-Effect :
      IsWellKept c → (id : ℕ) (c' : State) → refund_all host id c ≡ ok c' → Effect c c'
  unfolding refund_all return_lot
  refund_all-Effect well_kept id c' h =
      let (a, found, r1) = and_then-eq-ok (load id c) _ h in
      let (o, r2) = passed_open a _ r1 in
      let (_, r3) = passed (leb (refund_unlock_time a) host.now) _ _ r2 in
      let (moved, sent, r4) = and_then-eq-ok (refund_bids host id a a.bids c.moved) _ r3 in
      let paid = refund_bids-Adds host id a a.bids c.moved moved sent in
      let lot_left = open_lot a o (well_kept id a (load-ok id c a found)) in
      let out : Movement = lot_out id a a.seller in
      elim (Bool-cases (host.accepts moved out)) [
        | inl returned ↦
            changes c c' id a _ _ (out ∷ moved) _ found (ends_refunded o)
              (Adds-both (pays id a.payment_token (length a.bids * a.max_price)) (of out) c.moved
                moved (out ∷ moved) paid (carried out moved))
              (refund-Balances id a a.seller o) (rw returned at r4)
        | inr kept ↦
            changes c c' id a _ _ _ _ found (keeps_lot o) paid (kept_lot-Balances id a o lot_left)
              (rw kept at r4)
      ]

  pub create_auction-Effect :
      (p : NewAuction) (id : ℕ) (c' : State) → create_auction host p c ≡ ok (id, c') → Effect c c'
  unfolding create_auction IsDistinct IsMarked
  create_auction-Effect p id c' h =
      let (_, r0) = passed (host.has_auth p.seller) _ _ h in
      let (some_lot, r1) = passed (ltbℤ (pos 0) p.lot_amount) _ _ r0 in
      let (some_price, r2) = passed (ltbℤ (pos 0) p.max_price) _ _ r1 in
      let (small_price, r3) = passed (not (ltbℤ (pos u64_max) p.max_price)) _ _ r2 in
      let (_, r4) = passed (ltb host.now p.commit_deadline) _ _ r3 in
      let (some_grace, r5) = passed (not (p.grace_period == 0)) _ _ r4 in
      let a : Auction = opened_auction p in
      let (moved, sent, r6) =
        and_then-eq-ok (transfer host (lot_in c.next_auction_id a) c.moved) _ r5 in
      let fit : IsWellFormed a = record {
        some_lot = positive p.lot_amount some_lot;
        some_price = positive p.max_price some_price;
        small_price = at_most p.max_price u64_max small_price;
        some_grace = ground (arith, some_grace);
        few_bids = omega arith;
        distinct = tt;
        marked = tt;
        kept_lot = λ e. absurd (cc);
      } in
      subst (Effect c) (ap (λ r. r.1) (ok_inj r6)) (
        adds_auction a (of (lot_in c.next_auction_id a)) refl refl fit refl refl
          (transfer-Adds host _ c.moved moved sent) (lot_in-Balances c.next_auction_id a refl refl))
