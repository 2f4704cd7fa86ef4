-- ===== src/Contract/Settlement.antt =====
-- contracts/auction/src/lib.rs, `settle`: when it settles an auction, and whom it pays.
use sealedstellar.Common.{
  ℕ, zero, suc, ◌+◌, ◌-◌, ◌≤◌, ◌<◌, ◌≡◌, refl, sym, ap, ◌∙◌, true, false, not, String, List, [],
  ◌∷◌, ◌++◌, some, ok, and_then-eq-ok, ltb, leb, ◌==◌, if◌then◌else◌, length, arith, Bool-cases,
  inl, inr, lt→ltb, str_eq, eq_iff, take, drop, get_elem?, get_elem?-lt,
}
use sealedstellar.Common.Int.{ℤ, pos, pos_part, ltbℤ, ◌<ℤ◌, ◌≤ℤ◌}
use sealedstellar.Common.Table.{get_at, put_at, get_at-put_at_same}
use sealedstellar.Indexer.Types.{opened, settled}
use sealedstellar.Contract.{Bid, Auction, Movement, Event, State, Host, Verdict, transfer}
use sealedstellar.Contract.Calls.{
  lot_out, payout, load, bid_at, check_proof, build_public_signals, pay_losers, pay_difference,
  pay_settlement, settle,
}
use sealedstellar.Contract.Effects.{
  passed, passed_open, load-ok, ok_inj, past, ensure-true, load-some, ensure_open-opened,
}

-- The contract may settle the auction with this winner, price and proof.
pub record IsSettleable {Proof : Type 0} (host : Host Proof) (id winner : ℕ) (price : ℤ)
    (address : String) (proof : Proof) (c : State) (a : Auction) : Type 0 where
  pub stored : get_at id c.auctions ≡ some a
  pub is_open : a.status ≡ opened
  pub late : a.commit_deadline ≤ host.now
  pub positive : pos 0 <ℤ price
  pub within : price ≤ℤ pos a.max_price
  pub winner_bid : (b : Bid) × (get_elem? a.bids winner ≡ some b) × (b.bidder ≡ address)
  pub proved :
      host.verify proof (build_public_signals host a id winner (pos_part price) address)
      ≡ Verdict.verified

-- The payments of the deposits of some bids, the last one first.
unfoldable pub deposits_back : ℕ → Auction → List Bid → List Movement → List Movement
deposits_back id a [] moved = moved
deposits_back id a (b ∷ bids) moved =
    deposits_back id a bids (payout id a b.bidder a.max_price ∷ moved)

pub others : ℕ → List Bid → List Bid
others winner bids = take winner bids ++ drop (suc winner) bids

-- The price to the seller, the rest of the winner's deposit, the others' deposits, and the lot.
unfoldable pub settlement : ℕ → Auction → ℕ → ℕ → String → List Movement → List Movement
settlement id a winner price address moved =
    let paid : List Movement = payout id a a.seller price ∷ moved in
    let rest : ℕ = a.max_price - price in
    let returned : List Movement = if ltb 0 rest then payout id a address rest ∷ paid else paid in
    lot_out id a address ∷ deposits_back id a (others winner a.bids) returned

module _ {Proof : Type 0} (host : Host Proof) where
  carried_out : (m : Movement) (ms ms' : List Movement) → transfer host m ms ≡ ok ms' → ms' ≡ m ∷ ms
  unfolding transfer
  carried_out m ms ms' h = elim (Bool-cases (host.accepts ms m)) [
    | inl done ↦ let e = rw done at h in cc
    | inr kept ↦ absurd (let e = rw kept at h in cc)
  ]

  pay_losers-outside :
      (id : ℕ) (a : Auction) (winner i : ℕ) (bids : List Bid) (ms ms' : List Movement)
      → winner < i
      → pay_losers host id a winner i bids ms ≡ ok ms'
      → ms' ≡ deposits_back id a bids ms
  unfolding pay_losers deposits_back
  pay_losers-outside id a winner i [] ms ms' l h = cc
  pay_losers-outside id a winner i (b ∷ bids) ms ms' l h =
      let other : i == winner ≡ false = ground arith in
      let (next, sent, more) =
        and_then-eq-ok (transfer host (payout id a b.bidder a.max_price) ms) _ (rw other at h) in
      let first = carried_out _ ms next sent in
      pay_losers-outside id a winner (suc i) bids next ms' (omega arith) more
      ∙ ap (deposits_back id a bids) first

  pay_losers-others :
      (id : ℕ) (a : Auction) (winner i k : ℕ) (bids : List Bid) (ms ms' : List Movement)
      → winner ≡ i + k
      → pay_losers host id a winner i bids ms ≡ ok ms'
      → ms' ≡ deposits_back id a (others k bids) ms
  unfolding pay_losers deposits_back others
  pay_losers-others id a winner i zero [] ms ms' e h = cc
  pay_losers-others id a winner i (suc k) [] ms ms' e h = cc
  pay_losers-others id a winner i zero (b ∷ bids) ms ms' e h =
      let here : i == winner ≡ true = ground arith in
      pay_losers-outside id a winner (suc i) bids ms ms' (omega arith) (rw here at h)
  pay_losers-others id a winner i (suc k) (b ∷ bids) ms ms' e h =
      let other : i == winner ≡ false = ground arith in
      let (next, sent, more) =
        and_then-eq-ok (transfer host (payout id a b.bidder a.max_price) ms) _ (rw other at h) in
      let first = carried_out _ ms next sent in
      pay_losers-others id a winner (suc i) k bids next ms' (omega arith) more
      ∙ ap (deposits_back id a (others k bids)) first

  pay_settlement-settlement :
      (id : ℕ) (a : Auction) (winner price : ℕ) (address : String) (ms ms' : List Movement)
      → pay_settlement host id a winner price address ms ≡ ok ms'
      → ms' ≡ settlement id a winner price address ms
  unfolding pay_settlement settlement
  pay_settlement-settlement id a winner price address ms ms' h =
      let (paid, h1, r1) = and_then-eq-ok (transfer host (payout id a a.seller price) ms) _ h in
      let (returned, h2, r2) =
        and_then-eq-ok (pay_difference host id a address (a.max_price - price) paid) _ r1 in
      let (refunds, h3, r3) = and_then-eq-ok (pay_losers host id a winner 0 a.bids returned) _ r2 in
      let p1 = carried_out _ ms paid h1 in
      let p2 = difference address (a.max_price - price) id a paid returned h2 in
      let p3 = pay_losers-others id a winner 0 winner a.bids returned refunds (omega arith) h3 in
      let p4 = carried_out _ refunds ms' r3 in rw (p4, p3, p2, p1) refl
    where
      difference :
          (address : String) (rest id : ℕ) (a : Auction) (paid returned : List Movement)
          → pay_difference host id a address rest paid ≡ ok returned
          → returned ≡ (if ltb 0 rest then payout id a address rest ∷ paid else paid)
      difference address rest id a paid returned h = elim (Bool-cases (ltb 0 rest)) [
        | inl left ↦ rw left (carried_out _ paid returned (rw left at h))
        | inr none_left ↦ rw none_left (let e = rw none_left at h in cc)
      ]

bid_at-some : (bids : List Bid) (i : ℕ) (b : Bid) → get_elem? bids i ≡ some b → bid_at bids i ≡ ok b
bid_at-some bids i b h = rw (h, bid_at) refl

bid_at-ok : (bids : List Bid) (i : ℕ) (b : Bid) → bid_at bids i ≡ ok b → get_elem? bids i ≡ some b
bid_at-ok [] i b h = absurd (cc)
bid_at-ok (x ∷ bids) zero b h = cc
bid_at-ok (x ∷ bids) (suc i) b h = bid_at-ok bids i b h

check_proof-ok : {x : Unit {0}} (v : Verdict) → check_proof v ≡ ok x → v ≡ Verdict.verified
check_proof-ok Verdict.verified h = refl
check_proof-ok Verdict.rejected h = absurd (cc)
check_proof-ok Verdict.call_failed h = absurd (cc)

positive_price : (p : ℤ) → ltbℤ (pos 0) p ≡ true → pos 0 <ℤ p
positive_price p h = ground (arith, h)

price_within : (p : ℤ) (m : ℕ) → not (ltbℤ (pos m) p) ≡ true → p ≤ℤ pos m
price_within p m h = ground (arith, h)

module _ {Proof : Type 0} (host : Host Proof) (c : State) (id winner : ℕ) (price : ℤ)
    (address : String) (proof : Proof) where
  -- Where `settle` gives a result, the auction was open and its deadline past, the price was positive and at
  -- most the maximal one, the winner was the bidder of the given slot, and the verifier had verified the
  -- proof for the signals that the contract built itself; and then it carried out exactly these transfers:
  -- the price to the seller, what is left of the winner's deposit, if any, to the winner, every other
  -- bidder's deposit back, and the lot to the winner; and the stored auction is settled.
  pub settle-settles :
      (c' : State)
      → settle host id winner price address proof c ≡ ok c'
      → (a : Auction) × IsSettleable host id winner price address proof c a
        × (c'.moved ≡ settlement id a winner (pos_part price) address c.moved)
        × (get_at id c'.auctions ≡ some (record a { status = settled }))
  unfolding settle
  settle-settles c' h =
      let (a, found, r1) = and_then-eq-ok (load id c) _ h in
      let (o, r2) = passed_open a _ r1 in
      let (late, r3) = passed (leb a.commit_deadline host.now) _ _ r2 in
      let (_, r4) = passed (ltb winner (length a.bids)) _ _ r3 in
      let (positive, r5) = passed (ltbℤ (pos 0) price) _ _ r4 in
      let (within, r6) = passed (not (ltbℤ (pos a.max_price) price)) _ _ r5 in
      let (b, at, r7) = and_then-eq-ok (bid_at a.bids winner) _ r6 in
      let (owner, r8) = passed (str_eq b.bidder address) _ _ r7 in
      let signals : List ℕ = build_public_signals host a id winner (pos_part price) address in
      let (_, checked, r9) = and_then-eq-ok (check_proof (host.verify proof signals)) _ r8 in
      let (moved, sent, r10) =
        and_then-eq-ok (pay_settlement host id a winner (pos_part price) address c.moved) _ r9 in
      let done = ok_inj r10 in
      (
        a,
        record {
          stored = load-ok id c a found;
          is_open = o;
          late = ground (arith, late);
          positive = positive_price price positive;
          within = price_within price a.max_price within;
          winner_bid = (b, bid_at-ok a.bids winner b at, (eq_iff b.bidder address).0 owner);
          proved = check_proof-ok _ checked;
        },
        ap (λ s. s.moved) (sym done)
            ∙ pay_settlement-settlement host id a winner _ address c.moved moved sent,
        ap (λ s. get_at id s.auctions) (sym done)
            ∙ get_at-put_at_same id (record a { status = settled }) c.auctions,
      )

-- The tokens carry out every transfer.
unfoldable pub AcceptsAll : {Proof : Type 0} → Host Proof → Type 0
AcceptsAll host = (moved : List Movement) (m : Movement) → host.accepts moved m ≡ true

module _ {Proof : Type 0} (host : Host Proof) (willing : AcceptsAll host) where
  pub transfer-willing : (m : Movement) (ms : List Movement) → transfer host m ms ≡ ok (m ∷ ms)
  unfolding transfer AcceptsAll
  transfer-willing m ms = rw (willing ms m) refl

  pay_losers-willing :
      (id : ℕ) (a : Auction) (winner i : ℕ) (bids : List Bid) (ms : List Movement)
      → (ms' : List Movement) × (pay_losers host id a winner i bids ms ≡ ok ms')
  unfolding pay_losers
  pay_losers-willing id a winner i [] ms = (ms, refl)
  pay_losers-willing id a winner i (b ∷ bids) ms = elim (Bool-cases (i == winner)) [
    | inl here ↦ rw here (pay_losers-willing id a winner (suc i) bids ms)
    | inr other ↦
        let paid : Movement = payout id a b.bidder a.max_price in
        rw (other, transfer-willing paid ms)
          (pay_losers-willing id a winner (suc i) bids (paid ∷ ms))
  ]

  pay_settlement-willing :
      (id : ℕ) (a : Auction) (winner price : ℕ) (address : String) (ms : List Movement)
      → (ms' : List Movement) × (pay_settlement host id a winner price address ms ≡ ok ms')
  unfolding pay_settlement
  pay_settlement-willing id a winner price address ms =
      let paid : List Movement = payout id a a.seller price ∷ ms in
      let (returned, h2) = difference (a.max_price - price) paid in
      let (refunds, h3) = pay_losers-willing id a winner 0 a.bids returned in
      (
        lot_out id a address ∷ refunds,
        rw (transfer-willing (payout id a a.seller price) ms, h2, h3)
            (transfer-willing (lot_out id a address) refunds),
      )
    where
      difference :
          (rest : ℕ) (paid : List Movement)
          → (returned : List Movement) × (pay_difference host id a address rest paid ≡ ok returned)
      difference rest paid = elim (Bool-cases (ltb 0 rest)) [
        | inl left ↦ (
          payout id a address rest ∷ paid,
          rw left (transfer-willing (payout id a address rest) paid),
        )
        | inr none_left ↦ (paid, rw none_left refl)
      ]

  -- When the tokens carry out every transfer, `settle` settles every auction that is open and past its
  -- deadline, for a positive price up to the maximal one, for the bidder of the given slot, with a proof
  -- that the verifier verifies for the signals that the contract builds.
  pub settle-succeeds :
      (c : State) (id winner : ℕ) (price : ℤ) (address : String) (proof : Proof) (a : Auction)
      → IsSettleable host id winner price address proof c a
      → (c' : State) × (settle host id winner price address proof c ≡ ok c')
  unfolding settle
  settle-succeeds c id winner price address proof a s =
      let (b, at, owner) = s.winner_bid in
      let (moved, sent) = pay_settlement-willing id a winner (pos_part price) address c.moved in
      let late : leb a.commit_deadline host.now ≡ true = (let l = s.late in ground (arith, l)) in
      let inside : ltb winner (length a.bids) ≡ true =
        lt→ltb _ _ (get_elem?-lt a.bids winner b at) in
      let positive : ltbℤ (pos 0) price ≡ true = (let l = s.positive in ground (arith, l)) in
      let within : not (ltbℤ (pos a.max_price) price) ≡ true =
        (let l = s.within in ground (arith, l)) in
      let same : str_eq b.bidder address ≡ true = (eq_iff b.bidder address).1 owner in
      (
        record c {
          auctions = put_at id (record a { status = settled }) c.auctions;
          moved = moved;
          events = Event.auction_settled id address (pos_part price) ∷ c.events;
        },
        past _ _ a (load-some id c a s.stored) (
            past _ _ tt (ensure_open-opened a s.is_open) (
              past _ _ tt (ensure-true _ _ late) (
                past _ _ tt (ensure-true _ _ inside) (
                  past _ _ tt (ensure-true _ _ positive) (
                    past _ _ tt (ensure-true _ _ within) (
                      past _ _ b (bid_at-some a.bids winner b at) (
                        past _ _ tt (ensure-true _ _ same)
                          (past _ _ tt (ap check_proof s.proved) (past _ _ moved sent refl))))))))),
      )
