-- ===== src/Contract.antt =====
-- contracts/auction/src/lib.rs: the auction contract. The host and the token contracts are arguments;
-- storage is a table of auctions, and the transfers that the tokens carried out and the events that
-- were published are kept as lists, newest first. An invocation that fails or traps changes nothing.
-- Amounts are naturals once they are checked; the errors and the statuses are those of
-- web/src/lib/errors.ts and indexer/src/types.ts, which list the contract's.
pub mod Calls
mod Escrow
pub mod Machine
mod Balances
pub mod Invariant
pub mod Life
pub mod Refunds
pub mod Lifetime
pub mod Settlement
mod Effects
use sealedstellar.Common.{
  ℕ, ◌+◌, ◌-◌, ◌*◌, ◌^◌, ◌/◌, min, Bool, true, false, String, List, [], ◌∷◌, Option, none, some,
  Result, ok, err, and_then, ltb, leb, str_eq, if◌then◌else◌,
}
use sealedstellar.Common.Table.{Table}
use sealedstellar.Indexer.Types.{AuctionStatus, opened, settled, refunded}
use sealedstellar.Web.Errors.{AuctionError, already_settled, already_refunded}

-- `Bid`
pub record Bid : Type 0 where
  pub bidder : String
  pub commitment : ℕ

-- `Auction`
pub record Auction : Type 0 where
  pub seller : String
  pub rwa_token : String
  pub lot_amount : ℕ
  pub payment_token : String
  pub max_price : ℕ
  pub commit_deadline : ℕ
  pub grace_period : ℕ
  pub whitelist_root : ℕ
  pub operator_enc_pubkey : List ℕ
  pub status : AuctionStatus
  pub bids : List Bid
  pub lot_reclaimed : Bool

-- A transfer between a party and the escrow, of an amount of a token, for an auction.
pub data Direction : Type 0 where
  into_escrow out_of_escrow : Direction

pub record Movement : Type 0 where
  pub auction_id : ℕ
  pub direction : Direction
  pub token : String
  pub party : String
  pub amount : ℕ

-- The `#[contractevent]` structs
pub data Event : Type 0 where
  auction_created : ℕ → String → ℕ → ℕ → Event
  bid_placed : ℕ → ℕ → String → ℕ → List ℕ → Event
  auction_settled : ℕ → String → ℕ → Event
  auction_refunded : ℕ → ℕ → Event
  lot_return_failed lot_reclaimed : ℕ → String → ℕ → Event

-- The contract's storage, what the tokens carried out for it, and what it published.
pub record State : Type 0 where
  pub next_auction_id : ℕ
  pub auctions : Table Auction
  pub moved : List Movement
  pub events : List Event

-- `__constructor`
abbrev pub deployed : State
deployed = record { next_auction_id = 1; auctions = []; moved = []; events = [] }

-- What the verifier's call gives: `Ok(Ok(true))`, `Ok(Ok(false))` or anything else.
pub data Verdict : Type 0 where
  verified rejected call_failed : Verdict

-- One invocation's host: the ledger's time, who signed, whether a token carries out a transfer after
-- the earlier ones, the verifier, and the key bytes and the Poseidon hash of the leaf of an address.
pub record Host (Proof : Type 0) : Type 0 where
  pub now : ℕ
  pub has_auth : String → Bool
  pub accepts : List Movement → Movement → Bool
  pub verify : Proof → List ℕ → Verdict
  pub key_bytes : String → List ℕ
  pub poseidon : List ℕ → ℕ

-- An error of the contract, or a trap of the host or of a token.
pub data Failure : Type 0 where
  rejects : AuctionError → Failure
  traps : Failure

abbrev pub Call : Type 0 → Type 0
Call A = Result A Failure

abbrev pub ensure : Bool → AuctionError → Call (Unit {0})
ensure b e = if b then ok tt else err (rejects e)

-- `ensure_open`
abbrev pub ensure_open : Auction → Call (Unit {0})
ensure_open a = elim a.status [
  | opened ↦ ok tt
  | settled ↦ err (rejects already_settled)
  | refunded ↦ err (rejects already_refunded)
]

abbrev pub u64_max : ℕ
u64_max = 2 ^ 64 - 1

abbrev pub saturating_add : ℕ → ℕ → ℕ
saturating_add a b = min (a + b) u64_max

abbrev pub max_bid_slots : ℕ
max_bid_slots = 8

abbrev pub max_encrypted_bid_bytes : ℕ
max_encrypted_bid_bytes = 256

abbrev pub seconds_per_ledger : ℕ
seconds_per_ledger = 5

abbrev pub ledgers_per_day : ℕ
ledgers_per_day = 17_280

abbrev pub max_ttl_extension_ledgers : ℕ
max_ttl_extension_ledgers = 3_000_000

-- `lifetime_ledgers` of `create_auction`
unfoldable pub lifetime_ledgers : ℕ → ℕ → ℕ → ℕ
lifetime_ledgers now commit_deadline grace_period =
    let lifetime_seconds : ℕ = saturating_add (commit_deadline - now) grace_period in
    let ledgers : ℕ = saturating_add (lifetime_seconds / seconds_per_ledger) ledgers_per_day in
    if ltb max_ttl_extension_ledgers ledgers then max_ttl_extension_ledgers else ledgers

-- The time from which `refund_all` runs.
abbrev pub refund_unlock_time : Auction → ℕ
refund_unlock_time a = saturating_add a.commit_deadline a.grace_period

module _ {Proof : Type 0} (host : Host Proof) where
  -- `token::Client::transfer`: a refused transfer traps the invocation.
  unfoldable pub transfer : Movement → List Movement → Call (List Movement)
  transfer m moved = if host.accepts moved m then ok (m ∷ moved) else err traps
