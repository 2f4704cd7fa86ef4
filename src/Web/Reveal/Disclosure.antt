-- ===== src/Web/Reveal/Disclosure.antt =====
-- web/api/reveal.ts: when bids are revealed, and what one bid that does not open does to the others.
use sealedstellar.Common.{
  ℕ, ◌≡◌, refl, Bool, true, false, not, String, List, [], ◌∷◌, Option, none, some, str_eq, eq_iff,
  Result, ok, err, and_then, and_then-eq-ok, arith, Bool-cases, Option-cases, inl, inr, In, here,
  there,
}
use sealedstellar.Common.Int.{ℤ, ltbℤ, ◌≤ℤ◌}
use sealedstellar.Common.Text.{append}
use sealedstellar.Indexer.Value.{Value}
use sealedstellar.Operator.Settle.{RevealedBid}
use sealedstellar.Web.Reveal.{
  RevealKind, reveal_failed, RevealError, status_for_error, fails, check, load_box_secret,
  decrypt_bid, AuctionState, get_auction_state, get_registry_members, BidEvent, start_ledger,
  fetch_bid_events,
}
use sealedstellar.Web.Reveal.Found.{AreFound, fetch_bid_events-AreFound}
use sealedstellar.Web.Reveal.Handler.{
  Host, Revealed, reveals, or_bad_request, or_unopened, read_auction_id, revealed_bid, open_bids,
  some_bids, reveal_open, reveal_auction, reveal, reply_of, handler,
}

-- Each revealed bid is the event's, opened.
unfoldable pub AreOpened : Host → List ℕ → List BidEvent → List RevealedBid → Type 0
AreOpened host secret [] [] = Unit
AreOpened host secret (e ∷ es) (b ∷ bs) =
    ((opened : ℕ × ℕ) × (decrypt_bid host.box_open e.encrypted_bid secret ≡ some opened)
      × (b ≡ revealed_bid host.to_text e opened))
    × AreOpened host secret es bs
AreOpened host secret _ _ = ⊥

-- The bids are those of an open auction whose window has closed, all of them, opened with the secret.
pub record IsDisclosed (host : Host) (id : ℕ) (root : ℤ) (members : List String)
    (bids : List RevealedBid) : Type 0 where
  pub auction : AuctionState
  pub read : get_auction_state (host.auction_call id) ≡ ok auction
  pub is_open : auction.status ≡ "Open"
  pub closed : auction.commit_deadline_seconds ≤ℤ host.now_seconds
  pub same_root : root ≡ auction.whitelist_root
  pub same_members : members ≡ get_registry_members (host.members_call root)
  pub events : List BidEvent
  pub ledger : ℕ
  pub latest : host.latest_ledger ≡ ok ledger
  pub all_found : AreFound (host.get_events id (start_ledger ledger)) events
  pub secret : List ℕ
  pub own_secret : load_box_secret host.is_testnet host.secret_text ≡ ok secret
  pub opened : AreOpened host secret events bids

checked :
    {A : Type 0} {y : A} (b : Bool) (kind : RevealKind) (message : String)
    (k : Unit {0} → Result A RevealError)
    → and_then (check b kind message) k ≡ ok y
    → (b ≡ true) × (k tt ≡ ok y)
checked true kind message k h = (refl, h)
checked false kind message k h = absurd (cc)

or_unopened-ok :
    (slot : String) (o : Option (ℕ × ℕ)) (opened : ℕ × ℕ)
    → or_unopened slot o ≡ ok opened
    → o ≡ some opened
or_unopened-ok slot none opened h = absurd (cc)
or_unopened-ok slot (some p) opened h = cc

some_bids-ok : (events found : List BidEvent) → some_bids events ≡ ok found → events ≡ found
some_bids-ok [] found h = absurd (cc)
some_bids-ok (e ∷ es) found h = cc

bids_inj :
    {x y : List RevealedBid} → ◌≡◌ {A = Result (List RevealedBid) RevealError} (ok x) (ok y) → x ≡ y
bids_inj e = cc

open_bids-AreOpened :
    (host : Host) (secret : List ℕ) (events : List BidEvent) (bids : List RevealedBid)
    → open_bids host secret events ≡ ok bids
    → AreOpened host secret events bids
unfolding open_bids AreOpened
open_bids-AreOpened host secret [] bids h = rw (← bids_inj h) tt
open_bids-AreOpened host secret (e ∷ es) bids h =
    let (opened, h1, r1) =
      and_then-eq-ok
        (or_unopened (host.to_text e.slot_index) (decrypt_bid host.box_open e.encrypted_bid secret))
        _ h in
    let (rest, h2, r2) = and_then-eq-ok (open_bids host secret es) _ r1 in
    rw (← bids_inj r2)
      ((opened, or_unopened-ok _ _ opened h1, refl), open_bids-AreOpened host secret es rest h2)

reply_of-ok : (r : Result Revealed RevealError) (v : Revealed) → (reply_of r).body ≡ ok v → r ≡ ok v
reply_of-ok (ok w) v h = h
reply_of-ok (err e) v h = h

posted :
    (host : Host) (method : String) (body : Value) (v : Revealed)
    → (handler host method body).body ≡ ok v
    → reveal host body ≡ ok v
unfolding handler
posted host method body v h = elim (Bool-cases (str_eq method "POST")) [
  | inl post ↦ reply_of-ok (reveal host body) v (rw (post, handler) at h)
  | inr other ↦ absurd (let h' = rw (other, handler) at h in cc)
]

open_auction :
    (host : Host) (secret : List ℕ) (id number : ℕ) (root : ℤ) (members : List String)
    (bids : List RevealedBid) (auction : AuctionState)
    → reveal_auction host secret id auction ≡ ok (reveals number root members bids)
    → (auction.status ≡ "Open")
      × (reveal_open host secret id auction ≡ ok (reveals number root members bids))
unfolding reveal_auction
open_auction host secret id number root members bids auction h =
    elim (Bool-cases (str_eq auction.status "Settled")) [
      | inl settled ↦ absurd (let h' = rw settled at h in cc)
      | inr not_settled ↦
          let (is_open, more) =
            checked (str_eq auction.status "Open") _ _ _ (rw not_settled at h) in
          ((eq_iff auction.status "Open").0 is_open, more)
    ]

revealed_inj :
    {i j : ℕ} {r s : ℤ} {m n : List String} {b c : List RevealedBid}
    → ◌≡◌ {A = Result Revealed RevealError} (ok (reveals i r m b)) (ok (reveals j s n c))
    → (j ≡ i) × (s ≡ r) × (n ≡ m) × (c ≡ b)
revealed_inj e = (cc, cc, cc, cc)

reveal_open-IsDisclosed :
    (host : Host) (secret : List ℕ) (id number : ℕ) (root : ℤ) (members : List String)
    (bids : List RevealedBid) (auction : AuctionState)
    → load_box_secret host.is_testnet host.secret_text ≡ ok secret
    → get_auction_state (host.auction_call number) ≡ ok auction
    → auction.status ≡ "Open"
    → reveal_open host secret number auction ≡ ok (reveals id root members bids)
    → IsDisclosed host id root members bids
unfolding reveal_open
reveal_open-IsDisclosed host secret id number root members bids auction own read is_open h =
    let (late, r1) =
      checked (not (ltbℤ host.now_seconds auction.commit_deadline_seconds)) _ _ _ h in
    let (events, found, r2) =
      and_then-eq-ok (fetch_bid_events host.latest_ledger (host.get_events number)) _ r1 in
    let (same, some_found, r3) = and_then-eq-ok (some_bids events) _ r2 in
    let (opened, all_opened, r4) = and_then-eq-ok (open_bids host secret same) _ r3 in
    let (same_id, same_root, same_members, same_bids) = revealed_inj r4 in
    let (ledger, latest, all_found) =
      fetch_bid_events-AreFound host.latest_ledger (host.get_events number) events found in
    record {
      auction = auction;
      read = rw same_id read;
      is_open = is_open;
      closed = ground (arith, late);
      same_root = same_root;
      same_members = rw same_root same_members;
      events = events;
      ledger = ledger;
      latest = latest;
      all_found = rw same_id all_found;
      secret = secret;
      own_secret = own;
      opened =
          rw (same_bids, some_bids-ok events same some_found)
            (open_bids-AreOpened host secret same opened all_opened);
    }

-- Where the handler reveals bids, the auction was read from the chain as open, its bid window had closed by
-- the server's clock, and the reply holds the bids among the events of all the pages that the chain gives for
-- the auction with that number (30 pages at most, from as many ledgers before the latest one as the server looks
-- back), each as often as it stands there, in the order of the slots, each opened with the server's own secret,
-- with the auction's whitelist root and the members registered for it.
pub handler-IsDisclosed :
    (host : Host) (method : String) (body : Value) (id : ℕ) (root : ℤ) (members : List String)
    (bids : List RevealedBid)
    → (handler host method body).body ≡ ok (reveals id root members bids)
    → IsDisclosed host id root members bids
unfolding reveal
handler-IsDisclosed host method body id root members bids h =
    let h0 = posted host method body _ h in
    let (secret, own, r1) =
      and_then-eq-ok (load_box_secret host.is_testnet host.secret_text) _ h0 in
    let (number, asked, r2) =
      and_then-eq-ok (or_bad_request (read_auction_id host.parse_json host.number_of body)) _ r1 in
    let (auction, read, r3) = and_then-eq-ok (get_auction_state (host.auction_call number)) _ r2 in
    let (is_open, r4) = open_auction host secret number id root members bids auction r3 in
    reveal_open-IsDisclosed host secret id number root members bids auction own read is_open r4

open_bids-unopened :
    (host : Host) (secret : List ℕ) (events : List BidEvent) (e : BidEvent)
    → In e events
    → decrypt_bid host.box_open e.encrypted_bid secret ≡ none
    → (message : String) × (open_bids host secret events ≡ fails reveal_failed message)
unfolding open_bids
open_bids-unopened host secret [] e at h = elim at [ ]
open_bids-unopened host secret (x ∷ es) e at h =
    elim (Option-cases (decrypt_bid host.box_open x.encrypted_bid secret)) [
      | inl unopened ↦ (
        append "slot "
            (append (host.to_text x.slot_index) ": could not decrypt (wrong operator key?)"),
        rw unopened refl,
      )
      | inr (opened, good) ↦ elim at [
        | here same ↦ absurd (let h' = rw same at h in cc)
        | there more ↦
            let (message, failed) = open_bids-unopened host secret es e more h in
            (message, rw (good, failed) refl)
      ]
    ]

-- One bid among those of a closed auction that does not open with the server's secret, whatever its bidder
-- sent, makes the reply an error of status 502: none of the auction's bids is revealed.
pub handler-unopened :
    (host : Host) (body : Value) (id : ℕ) (secret : List ℕ) (auction : AuctionState)
    (events : List BidEvent) (e : BidEvent)
    → load_box_secret host.is_testnet host.secret_text ≡ ok secret
    → read_auction_id host.parse_json host.number_of body ≡ some id
    → get_auction_state (host.auction_call id) ≡ ok auction
    → auction.status ≡ "Open"
    → auction.commit_deadline_seconds ≤ℤ host.now_seconds
    → fetch_bid_events host.latest_ledger (host.get_events id) ≡ ok events
    → In e events
    → decrypt_bid host.box_open e.encrypted_bid secret ≡ none
    → (message : String) × (handler host "POST" body
        ≡ record { status = 502; body = err (record { kind = reveal_failed; message = message }) })
unfolding handler reveal reveal_auction reveal_open status_for_error
handler-unopened host body id secret auction [] e own asked read is_open closed found at unopened =
    elim at [ ]
handler-unopened host body id secret auction (x ∷ es) e own asked read is_open closed found at
      unopened =
    let (message, failed) = open_bids-unopened host secret (x ∷ es) e at unopened in
    let late : not (ltbℤ host.now_seconds auction.commit_deadline_seconds) ≡ true =
      ground (arith, closed) in
    (message, rw (own, asked, read, is_open, late, found, failed) refl)
