-- ===== src/Indexer/Chain.antt =====
-- indexer/src/chain.ts: what the indexer reads from chain. The RPC server and the XDR decoder of the
-- Stellar SDK are arguments; their answers are decoded values.
pub mod Views
pub mod Symbols
use sealedstellar.Common.{
  ℕ, zero, suc, Bool, String, List, [], ◌∷◌, ◌++◌, Option, none, some, str_eq, Result, ok, err,
  if◌then◌else◌, ◌>>=◌,
}
use sealedstellar.Common.Int.{pos}
use sealedstellar.Indexer.Runtime.{JsNumber, integer}
use sealedstellar.Indexer.Types.{AuctionStatus, opened, settled, refunded}
use sealedstellar.Indexer.Value.{Value, text, arr, obj, other, nil, cons, Fields, end, as_text}

-- `ChainError`
pub data ChainError : Type 0 where
  rpc_unreachable simulation_failed : String → ChainError
  contract_error : JsNumber → ChainError
  decode_failed : String → ChainError

-- The answer of `simulateTransaction`: a network failure, a simulation error, one without a result,
-- or the decoded return value.
pub data Simulation : Type 0 where
  network_failure failure : String → Simulation
  no_result : Simulation
  returned : Value → Simulation

module _ (contract_code : String → Option JsNumber) where
  -- `simulateView` after the call; `contract_code` is `parseContractErrorCode`.
  unfoldable pub simulate_view : Simulation → Result Value ChainError
  simulate_view (network_failure detail) = err (rpc_unreachable detail)
  simulate_view (failure message) = elim (contract_code message) [
    | some code ↦ err (contract_error code)
    | none ↦ err (simulation_failed message)
  ]
  simulate_view no_result = err (simulation_failed "simulation returned no result")
  simulate_view (returned v) = ok v

pub record DecodedBid : Type 0 where
  pub slot_index : ℕ
  pub bidder : String

-- `DecodedAuction`; the amounts are decimal texts.
pub record DecodedAuction : Type 0 where
  pub seller : String
  pub rwa_token : String
  pub lot_amount : String
  pub payment_token : String
  pub max_price : String
  pub commit_deadline : ℕ
  pub grace_period : ℕ
  pub status : AuctionStatus
  pub bids : List DecodedBid
  pub lot_reclaimed : Bool

-- The enum decodes as a text or as a list that begins with it.
unfoldable pub status_value : Option Value → Option Value
status_value (some (arr nil)) = none
status_value (some (arr (cons v vs))) = some v
status_value v = v

abbrev status_of_text : String → Option AuctionStatus
status_of_text s =
    if str_eq s "Open"
    then some opened
    else if str_eq s "Settled"
    then some settled
    else if str_eq s "Refunded"
    then some refunded
    else none

unfoldable pub decode_status : Option Value → Option AuctionStatus
unfolding status_value
decode_status raw = as_text (status_value raw) >>= status_of_text

-- `IndexedEvent`
pub record IndexedEvent : Type 0 where
  pub name : String
  pub auction_id : ℕ
  pub payload : Fields
  pub tx_hash : Option String

-- What `toIndexedEvent` does: it throws, skips the event, or gives it.
pub data Indexed : Type 0 where
  thrown skipped : Indexed
  indexed : IndexedEvent → Indexed

pub record RawEvent (Raw : Type 0) : Type 0 where
  pub topic : Option (List Raw)
  pub value : Raw
  pub tx_hash : Option String

pub record EventsResponse (Raw : Type 0) : Type 0 where
  pub latest_ledger : Option ℕ
  pub events : List (RawEvent Raw)
  pub cursor : Option String

-- A safe positive integer.
abbrev positive : JsNumber → Option ℕ
positive (integer (pos (suc n))) = some (suc n)
positive _ = none

abbrev as_object : Value → Option Fields
as_object (obj fs) = some fs
as_object _ = none

abbrev pub max_event_pages : ℕ
max_event_pages = 60

-- `decode` is `decodeScVal`, none where it throws; `number_of` is `Number(value)`.
module _ {Raw : Type 0} (decode : Raw → Option Value) (number_of : Value → JsNumber) where
  -- The checks after the three values are decoded. (An array is an object without named fields.)
  unfoldable pub check_event : Value → Value → Value → Option String → Indexed
  check_event (text name) id (obj fs) tx = elim (positive (number_of id)) [
    | none ↦ skipped
    | some n ↦ indexed (record { name = name; auction_id = n; payload = fs; tx_hash = tx })
  ]
  check_event (text name) id (arr vs) tx = elim (positive (number_of id)) [
    | none ↦ skipped
    | some n ↦ indexed (record { name = name; auction_id = n; payload = end; tx_hash = tx })
  ]
  check_event (text name) id other tx = elim (positive (number_of id)) [
    | none ↦ skipped
    | some n ↦ indexed (record { name = name; auction_id = n; payload = end; tx_hash = tx })
  ]
  check_event _ _ _ _ = skipped

  abbrev or_thrown : Option Value → (Value → Indexed) → Indexed
  or_thrown none f = thrown
  or_thrown (some v) f = f v

  unfoldable pub to_indexed_event : Option (List Raw) → Raw → Option String → Indexed
  unfolding check_event
  to_indexed_event (some (name ∷ id ∷ more)) value tx =
      or_thrown (decode name)
        λ n. or_thrown (decode id) (λ i. or_thrown (decode value) (λ v. check_event n i v tx))
  to_indexed_event _ value tx = skipped

  -- The loop over a page's events; none where one throws.
  unfoldable pub collect : List (RawEvent Raw) → List IndexedEvent → Option (List IndexedEvent)
  unfolding to_indexed_event
  collect [] out = some out
  collect (e ∷ es) out = elim (to_indexed_event e.topic e.value e.tx_hash) [
    | thrown ↦ none
    | skipped ↦ collect es out
    | indexed event ↦ collect es (out ++ event ∷ [])
  ]

  -- `response.cursor` where it is not empty
  abbrev next_page : Option String → Option String
  next_page none = none
  next_page (some c) = if str_eq c "" then none else some c

  abbrev or_else : Option ℕ → ℕ → ℕ
  or_else none d = d
  or_else (some n) d = n

  module _ (get_events : Option String → Option (EventsResponse Raw)) where
    -- The loop over the pages: pages left, cursor, latest ledger seen, events collected. `get_events`
    -- answers a request at a cursor, or at the start ledger where there is none; none is a failure.
    unfoldable pub follow_pages :
        ℕ → Option String → ℕ → List IndexedEvent → Option (List IndexedEvent × ℕ)
    unfolding collect
    follow_pages zero cursor latest out = some (out, latest)
    follow_pages (suc left) cursor latest out = do
      response ← get_events cursor
      out' ← collect response.events out
      elim (next_page response.cursor) [
        | none ↦ some (out', or_else response.latest_ledger latest)
        | some c ↦ follow_pages left (some c) (or_else response.latest_ledger latest) out'
      ]

    unfoldable pub fetch_contract_events : ℕ → Result (List IndexedEvent × ℕ) ChainError
    unfolding follow_pages
    fetch_contract_events start = elim (follow_pages max_event_pages none start []) [
      | some page ↦ ok page
      | none ↦ err (rpc_unreachable "")
    ]

-- What the ingester reads: the answers of `getAuction`, `getTokenSymbol`, `getLatestLedger` and, for a
-- start ledger, `fetchContractEvents`.
pub record Chain : Type 0 where
  pub get_auction : ℕ → Result DecodedAuction ChainError
  pub get_token_symbol : String → Result String ChainError
  pub latest_ledger : Result ℕ ChainError
  pub contract_events : ℕ → Result (List IndexedEvent × ℕ) ChainError
