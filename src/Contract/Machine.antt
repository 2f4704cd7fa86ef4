-- ===== src/Contract/Machine.antt =====
-- contracts/auction/src/lib.rs: the life of an auction, the calls as steps between states, and what
-- the escrow is to hold for an auction in each status.
use sealedstellar.Common.{
  ℕ, suc, ◌+◌, ◌*◌, ◌≤◌, ◌<◌, ◌≡◌, ◌≢◌, Bool, true, false, String, List, [], ◌∷◌, ◌++◌, Option,
  none, some, ok, ◌==◌, length, any, str_eq, if◌then◌else◌,
}
use sealedstellar.Common.Int.{ℤ}
use sealedstellar.Common.Table.{get_at, put_at}
use sealedstellar.Indexer.Types.{AuctionStatus, opened, settled, refunded}
use sealedstellar.Contract.{
  Bid, Auction, Direction, into_escrow, out_of_escrow, State, Host, u64_max, max_bid_slots,
}
use sealedstellar.Contract.Calls.{
  NewAuction, create_auction, place_bid, settle, refund_all, reclaim_lot,
}
use sealedstellar.Contract.Escrow.{Books, Adds}

-- The lot is in escrow until the auction is settled or the lot went back, by status and that.
unfoldable pub lot_held : AuctionStatus → Bool → ℕ → ℕ
lot_held opened _ lot_amount = lot_amount
lot_held refunded false lot_amount = lot_amount
lot_held _ _ _ = 0

-- The deposits are in escrow while the auction is open.
unfoldable pub deposits_held : AuctionStatus → ℕ → ℕ
deposits_held opened deposits = deposits
deposits_held _ _ = 0

-- What the escrow is to hold of a token for an auction, whose two tokens may be the same one.
unfoldable pub held : String → Option Auction → ℕ
held token none = 0
held token (some a) =
    (if str_eq a.rwa_token token then lot_held a.status a.lot_reclaimed a.lot_amount else 0)
    + (if str_eq a.payment_token token
        then deposits_held a.status (length a.bids * a.max_price)
        else 0)

abbrev pub is_taken : ℕ → List Bid → Bool
is_taken commitment bids = any (λ b. b.commitment == commitment) bids

-- No two bids have the same commitment.
unfoldable pub IsDistinct : List Bid → Type 0
IsDistinct [] = Unit
IsDistinct (b ∷ bids) = is_taken b.commitment bids ≡ false × IsDistinct bids

unfoldable pub IsMarked : List Bid → Type 0
IsMarked [] = Unit
IsMarked (b ∷ bids) = b.commitment ≢ 0 × IsMarked bids

-- What holds of every auction in the storage.
pub record IsWellFormed (a : Auction) : Type 0 where
  pub some_lot : 0 < a.lot_amount
  pub some_price : 0 < a.max_price
  pub small_price : a.max_price ≤ u64_max
  pub some_grace : 0 < a.grace_period
  pub few_bids : length a.bids ≤ max_bid_slots
  pub distinct : IsDistinct a.bids
  pub marked : IsMarked a.bids
  pub kept_lot : a.lot_reclaimed ≡ true → a.status ≡ refunded

-- Every auction in the storage is so.
abbrev pub IsWellKept : State → Type 0
IsWellKept c = (id : ℕ) (a : Auction) → get_at id c.auctions ≡ some a → IsWellFormed a

-- The life of an auction: bids, then one of two ends, and the lot that is left after a refund.
pub data Evolves (a : Auction) : Auction → Type 0 where
  takes_bid :
      a.status ≡ opened
      → (b : Bid) → length a.bids < max_bid_slots
      → b.commitment ≢ 0
      → is_taken b.commitment a.bids ≡ false
      → Evolves a (record a { bids = a.bids ++ b ∷ [] })
  ends_settled : a.status ≡ opened → Evolves a (record a { status = settled })
  ends_refunded :
      a.status ≡ opened → Evolves a (record a { status = refunded; lot_reclaimed = true })
  keeps_lot : a.status ≡ opened → Evolves a (record a { status = refunded })
  returns_lot :
      a.status ≡ refunded → a.lot_reclaimed ≡ false → Evolves a (record a { lot_reclaimed = true })

-- The books of one auction's calls, and how they go with what the escrow is to hold.
pub record Balances (w : Books) (id : ℕ) (before after : Option Auction) : Type 0 where
  pub balanced :
      (l : String) → w into_escrow l id + held l before ≡ w out_of_escrow l id + held l after
  pub apart : (d : Direction) (l : String) (other : ℕ) → id == other ≡ false → w d l other ≡ 0

-- What a call does to the storage and to the escrow.
pub data Effect (c c' : State) : Type 0 where
  adds_auction :
      (a : Auction) (w : Books)
      → a.status ≡ opened
      → a.bids ≡ []
      → IsWellFormed a
      → c'.next_auction_id ≡ suc c.next_auction_id
      → c'.auctions ≡ put_at c.next_auction_id a c.auctions
      → Adds w c.moved c'.moved
      → Balances w c.next_auction_id none (some a)
      → Effect c c'
  changes_auction :
      (id : ℕ) (a a' : Auction) (w : Books)
      → get_at id c.auctions ≡ some a
      → Evolves a a'
      → c'.next_auction_id ≡ c.next_auction_id
      → c'.auctions ≡ put_at id a' c.auctions
      → Adds w c.moved c'.moved
      → Balances w id (some a) (some a')
      → Effect c c'

-- A call that gives a result, under any host.
pub data Step (Proof : Type 0) (c : State) : State → Type 0 where
  creates :
      (host : Host Proof) (p : NewAuction) (id : ℕ) (c' : State)
      → create_auction host p c ≡ ok (id, c')
      → Step Proof c c'
  places_bid :
      (host : Host Proof) (id : ℕ) (bidder : String) (commitment : ℕ) (encrypted_bid : List ℕ)
      (c' : State)
      → place_bid host id bidder commitment encrypted_bid c ≡ ok c'
      → Step Proof c c'
  settles :
      (host : Host Proof) (id winner_index : ℕ) (winning_price : ℤ) (winner_address : String)
      (proof : Proof) (c' : State)
      → settle host id winner_index winning_price winner_address proof c ≡ ok c'
      → Step Proof c c'
  refunds :
      (host : Host Proof) (id : ℕ) (c' : State) → refund_all host id c ≡ ok c' → Step Proof c c'
  reclaims :
      (host : Host Proof) (id : ℕ) (c' : State) → reclaim_lot host id c ≡ ok c' → Step Proof c c'

-- Any number of calls, one after the other.
pub data Steps (Proof : Type 0) (c : State) : State → Type 0 where
  rests : Steps Proof c c
  then_calls : (c' c'' : State) → Steps Proof c c' → Step Proof c' c'' → Steps Proof c c''
