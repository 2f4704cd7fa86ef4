-- ===== src/Contract/Escrow.antt =====
-- contracts/auction/src/lib.rs: what the transfers of a call add to the books of the escrow.
use sealedstellar.Common.{
  ℕ, suc, ◌+◌, ◌-◌, ◌*◌, ◌≤◌, ◌<◌, ◌≡◌, refl, ap, Bool, true, false, ◌&&◌, String, List, [], ◌∷◌,
  Result, ok, and_then-eq-ok, str_eq, ltb, ◌==◌, if◌then◌else◌, length, arith, Bool-cases, inl, inr,
}
use sealedstellar.Contract.{
  Bid, Auction, Direction, Movement, into_escrow, out_of_escrow, Host, Failure, Call, transfer,
}
use sealedstellar.Contract.Calls.{
  lot_out, payout, pay_losers, pay_difference, pay_settlement, refund_bids,
}

abbrev same_direction : Direction → Direction → Bool
same_direction into_escrow into_escrow = true
same_direction out_of_escrow out_of_escrow = true
same_direction _ _ = false

-- What a movement counts for in the books of an auction: one direction of one token.
abbrev pub counts : Direction → String → ℕ → Movement → ℕ
counts d l id m =
    if same_direction d m.direction && str_eq m.token l && m.auction_id == id then m.amount else 0

abbrev pub total : Direction → String → ℕ → List Movement → ℕ
total d l id [] = 0
total d l id (m ∷ ms) = counts d l id m + total d l id ms

-- The later list of movements adds these amounts to the books.
abbrev pub Books : Type 0
Books = Direction → String → ℕ → ℕ

abbrev pub Adds : Books → List Movement → List Movement → Type 0
Adds w moved moved' =
    (d : Direction) (l : String) (id : ℕ) → total d l id moved' ≡ w d l id + total d l id moved

abbrev pub of : Movement → Books
of m d l id = counts d l id m

abbrev pub nothing : Books
nothing d l id = 0

infixl 20 ◌⊕◌
abbrev pub ◌⊕◌ : Books → Books → Books
(v ⊕ w) d l id = v d l id + w d l id

pub Adds-nothing : (ms : List Movement) → Adds nothing ms ms
Adds-nothing ms d l id = omega arith

pub Adds-both : (v w : Books) (a b c : List Movement) → Adds v a b → Adds w b c → Adds (v ⊕ w) a c
Adds-both v w a b c p q d l id = omega (arith, p d l id, q d l id)

module _ {Proof : Type 0} (host : Host Proof) where
  pub transfer-Adds :
      (m : Movement) (ms ms' : List Movement) → transfer host m ms ≡ ok ms' → Adds (of m) ms ms'
  unfolding transfer
  transfer-Adds m ms ms' h d l id = elim (Bool-cases (host.accepts ms m)) [
    | inl carried ↦ let e : m ∷ ms ≡ ms' = ok_inj (rw carried at h) in rw (← e) refl
    | inr kept ↦ absurd (let h' = rw kept at h in cc)
  ]
    where
      ok_inj : {a b : List Movement} → ◌≡◌ {A = Call (List Movement)} (ok a) (ok b) → a ≡ b
      ok_inj e = cc

-- A payment of an amount of a token out of the escrow of an auction.
abbrev pub pays : ℕ → String → ℕ → Books
pays id token n d l j = if same_direction d out_of_escrow && str_eq token l && id == j then n else 0

-- The bids of the losers, from slot `i` on.
pub losers : ℕ → ℕ → List Bid → ℕ
losers winner i [] = 0
losers winner i (b ∷ bids) =
    let rest : ℕ = losers winner (suc i) bids in if i == winner then rest else suc rest

losers-outside : (winner i : ℕ) (bids : List Bid) → winner < i → losers winner i bids ≡ length bids
unfolding losers
losers-outside winner i [] h = refl
losers-outside winner i (b ∷ bids) h =
    let rest = losers-outside winner (suc i) bids (omega arith) in ground arith

pub losers-inside :
    (winner i : ℕ) (bids : List Bid)
    → i ≤ winner
    → winner < i + length bids
    → losers winner i bids + 1 ≡ length bids
unfolding losers
losers-inside winner i [] h k = absurd (omega arith)
losers-inside winner i (b ∷ bids) h k = elim (Bool-cases (i == winner)) [
  | inl here ↦ rw here (let rest = losers-outside winner (suc i) bids (ground arith) in omega arith)
  | inr other ↦
      rw other
        (let rest = losers-inside winner (suc i) bids (ground arith) (omega arith) in omega arith)
]

-- A payment to one party, and then payments of so much more.
more-pays :
    (id : ℕ) (a : Auction) (party : String) (amount n m : ℕ)
    → amount + n ≡ m
    → (d : Direction) (l : String) (j : ℕ)
    → (of (payout id a party amount) ⊕ pays id a.payment_token n) d l j
      ≡ pays id a.payment_token m d l j
more-pays id a party amount n m e d l j = ground arith

-- The payments out of an escrow and then more of them.
pays-both :
    (id n m k : ℕ) (token : String)
    → n + m ≡ k
    → (d : Direction) (l : String) (j : ℕ)
    → (pays id token n ⊕ pays id token m) d l j ≡ pays id token k d l j
pays-both id n m k token e d l j = ground arith

one_more : (n k : ℕ) → k + n * k ≡ suc n * k
one_more n k = grind arith

pub one_fewer : (n k : ℕ) → k + n * k ≡ (n + 1) * k
one_fewer n k = grind arith

ok_inj {ℓ} : {A : Type ℓ} {x y : A} → ◌≡◌ {A = Result A Failure} (ok x) (ok y) → x ≡ y
ok_inj e = cc

same_books :
    (id n : ℕ) (token : String) (ms ms' : List Movement)
    → n ≡ 0
    → ms ≡ ms'
    → Adds (pays id token n) ms ms'
same_books id n token ms ms' none_paid same d l j =
    let e = ap (total d l j) same in ground (arith, none_paid, e)

module _ {Proof : Type 0} (host : Host Proof) (id : ℕ) (a : Auction) where
  Adds-more :
      (party : String) (amount n m : ℕ) (x y z : List Movement)
      → amount + n ≡ m
      → Adds (of (payout id a party amount)) x y
      → Adds (pays id a.payment_token n) y z
      → Adds (pays id a.payment_token m) x z
  Adds-more party amount n m x y z e p q d l j =
      omega (arith, more-pays id a party amount n m e d l j, p d l j, q d l j)

  pub refund_bids-Adds :
      (bids : List Bid) (ms ms' : List Movement)
      → refund_bids host id a bids ms ≡ ok ms'
      → Adds (pays id a.payment_token (length bids * a.max_price)) ms ms'
  unfolding refund_bids
  refund_bids-Adds [] ms ms' h = same_books id _ a.payment_token ms ms' (omega arith) (ok_inj h)
  refund_bids-Adds (b ∷ bids) ms ms' h =
      let (next, first, more) =
        and_then-eq-ok (transfer host (payout id a b.bidder a.max_price) ms) _ h in
      Adds-more b.bidder a.max_price (length bids * a.max_price) _ ms next ms'
        (one_more (length bids) a.max_price) (transfer-Adds host _ ms next first)
        (refund_bids-Adds bids next ms' more)

  pub pay_losers-Adds :
      (winner i : ℕ) (bids : List Bid) (ms ms' : List Movement)
      → pay_losers host id a winner i bids ms ≡ ok ms'
      → Adds (pays id a.payment_token (losers winner i bids * a.max_price)) ms ms'
  unfolding pay_losers losers
  pay_losers-Adds winner i [] ms ms' h =
      same_books id _ a.payment_token ms ms' (omega arith) (ok_inj h)
  pay_losers-Adds winner i (b ∷ bids) ms ms' h = elim (Bool-cases (i == winner)) [
    | inl here ↦ rw here (pay_losers-Adds winner (suc i) bids ms ms' (rw here at h))
    | inr other ↦
        let (next, first, more) =
          and_then-eq-ok (transfer host (payout id a b.bidder a.max_price) ms) _ (rw other at h) in
        rw other (
          Adds-more b.bidder a.max_price (losers winner (suc i) bids * a.max_price) _ ms next ms'
            (one_more (losers winner (suc i) bids) a.max_price) (transfer-Adds host _ ms next first)
            (pay_losers-Adds winner (suc i) bids next ms' more))
  ]

  pub pay_difference-Adds :
      (winner : String) (amount : ℕ) (ms ms' : List Movement)
      → pay_difference host id a winner amount ms ≡ ok ms'
      → Adds (pays id a.payment_token amount) ms ms'
  pay_difference-Adds winner amount ms ms' h = elim (Bool-cases (ltb 0 amount)) [
    | inl some_left ↦
        Adds-more winner amount 0 amount ms ms' ms' (omega arith)
          (transfer-Adds host _ ms ms' (rw some_left at h))
          (same_books id 0 a.payment_token ms' ms' refl refl)
    | inr none_left ↦
        same_books id amount a.payment_token ms ms' (ground arith) (ok_inj (rw none_left at h))
  ]

  -- The payments of `settle` and its lot.
  pub pay_settlement-Adds :
      (winner price : ℕ) (party : String) (ms ms' : List Movement)
      → price ≤ a.max_price
      → winner < length a.bids
      → pay_settlement host id a winner price party ms ≡ ok ms'
      → Adds
          (pays id a.payment_token (length a.bids * a.max_price) ⊕ of (lot_out id a party))
          ms
          ms'
  unfolding pay_settlement
  pay_settlement-Adds winner price party ms ms' within inside h =
      let (paid, h1, r1) = and_then-eq-ok (transfer host (payout id a a.seller price) ms) _ h in
      let (returned, h2, r2) =
        and_then-eq-ok (pay_difference host id a party (a.max_price - price) paid) _ r1 in
      let (refunds, h3, r3) = and_then-eq-ok (pay_losers host id a winner 0 a.bids returned) _ r2 in
      let all_paid = losers-inside winner 0 a.bids (omega arith) (omega arith) in
      let winner_paid =
        Adds-more a.seller price (a.max_price - price) a.max_price ms paid returned (omega arith)
          (transfer-Adds host _ ms paid h1) (pay_difference-Adds party _ paid returned h2) in
      let losers_paid = pay_losers-Adds winner 0 a.bids returned refunds h3 in
      let lot_paid = transfer-Adds host _ refunds ms' r3 in
      let k : ℕ = losers winner 0 a.bids * a.max_price in
      let sum : a.max_price + k ≡ length a.bids * a.max_price =
        rw (← all_paid) (one_fewer (losers winner 0 a.bids) a.max_price) in
      λ d l j. omega (
        arith,
        winner_paid d l j,
        losers_paid d l j,
        lot_paid d l j,
        pays-both id a.max_price k _ a.payment_token sum d l j,
      )
