-- ===== src/Web/ChainReader.antt =====
-- web/src/lib/chain.ts: what the page reads from the chain itself. The RPC server and its decoders are
-- arguments, the two caches are states that are passed on, and the operator's key is left out. A field that
-- the source does not check is as it was decoded.
pub mod Events
pub mod Probing
use sealedstellar.Common.{
  ℕ, zero, suc, ◌+◌, Bool, true, false, not, ◌&&◌, String, List, [], ◌∷◌, ◌++◌, Option, none, some,
  str_eq, if◌then◌else◌, Result, ok, err, and_then,
}
use sealedstellar.Common.Int.{ℤ, ltbℤ}
use sealedstellar.Common.Text.{append}
use sealedstellar.Common.Dict.{Dict, lookup, insert}
use sealedstellar.Common.Table.{Table, get_at, put_at}
use sealedstellar.Common.Sorting.{sort}
use sealedstellar.Indexer.Value.{Value, obj, Fields, get, as_text, as_big, as_items}
use sealedstellar.Indexer.Chain.{
  Simulation, network_failure, failure, no_result, returned, status_value,
}
use sealedstellar.Web.Errors.{
  ChainError, rpc_unreachable, simulation_failed, contract_error, decode_failed,
  parse_contract_error_code,
}
use sealedstellar.Web.ListView.{StatusName, is_open, is_settled, is_refunded}
use sealedstellar.Web.Reveal.{BidEvent, earlier_slot, bids_among}

-- `simulateContractView`, after the call
unfoldable pub simulate_contract_view : Simulation → Result Value ChainError
simulate_contract_view (network_failure detail) = err (rpc_unreachable detail)
simulate_contract_view (failure message) = elim (parse_contract_error_code message) [
  | some code ↦ err (contract_error code)
  | none ↦ err (simulation_failed message)
]
simulate_contract_view no_result = err (simulation_failed "simulation returned no result")
simulate_contract_view (returned value) = ok value

abbrev pub status_named : String → Option StatusName
status_named s =
    if str_eq s "Open"
    then some is_open
    else if str_eq s "Settled"
    then some is_settled
    else if str_eq s "Refunded"
    then some is_refunded
    else none

abbrev pub or_decode_failed {ℓ} : {A : Type ℓ} → Option A → String → Result A ChainError
or_decode_failed none detail = err (decode_failed detail)
or_decode_failed (some a) detail = ok a

abbrev pub named : Option String → Option StatusName
named none = none
named (some s) = status_named s

-- `decodeStatus`; `show` is `String(value)`.
unfoldable pub decode_status : (Option Value → String) → Option Value → Result StatusName ChainError
decode_status show raw =
    or_decode_failed (named (as_text (status_value raw)))
      (append "unknown auction status: " (show (status_value raw)))

-- `RawAuctionRecord`, where the shape is checked
pub record RawAuctionRecord : Type 0 where
  pub seller : String
  pub rwa_token : String
  pub lot_amount : ℤ
  pub payment_token : String
  pub max_price : ℤ
  pub commit_deadline : ℤ
  pub bids : List Value
  pub fields : Fields

abbrev pub require {ℓ κ} : {A : Type ℓ} {B : Type κ} → Option A → (A → Option B) → Option B
require none f = none
require (some a) f = f a

-- `isRawAuctionRecord`, with the record
unfoldable pub raw_auction_record : Value → Option RawAuctionRecord
raw_auction_record (obj fs) = require (as_text (get "seller" fs)) (λ seller.
    require (as_text (get "rwa_token" fs)) (λ rwa_token.
      require (as_big (get "lot_amount" fs)) (λ lot_amount.
        require (as_text (get "payment_token" fs)) (λ payment_token.
          require (as_big (get "max_price" fs)) (λ max_price.
            require (as_big (get "commit_deadline" fs)) (λ commit_deadline.
              require (as_items (get "bids" fs)) (λ bids. some (record {
                seller = seller;
                rwa_token = rwa_token;
                lot_amount = lot_amount;
                payment_token = payment_token;
                max_price = max_price;
                commit_deadline = commit_deadline;
                bids = bids;
                fields = fs;
              }))))))))
raw_auction_record _ = none

-- `AuctionView`, with the record that it is made of
pub record ChainView : Type 0 where
  pub id : ℕ
  pub raw : RawAuctionRecord
  pub status : StatusName
  pub lot_symbol : String
  pub payment_symbol : String

-- A read with a cache.
abbrev pub Cached : Type 0 → Type 0 → Type 0
Cached Cache A = Cache → Result A ChainError × Cache

abbrev pub then_read : {Cache A B : Type 0} → Cached Cache A → (A → Cached Cache B) → Cached Cache B
then_read first next cache =
    let (result, after) = first cache in
    elim result [ err e ↦ (err e, after) | ok a ↦ next a after ]

abbrev pub uncached : {Cache A : Type 0} → Result A ChainError → Cached Cache A
uncached result cache = (result, cache)

-- The end of `getTokenSymbol`: only a symbol is kept.
abbrev pub keep_symbol : String → Result Value ChainError → Cached (Dict String) String
keep_symbol token (err e) cache = (err e, cache)
keep_symbol token (ok value) cache = elim (as_text (some value)) [
  | none ↦ (err (decode_failed "token symbol is not a string"), cache)
  | some symbol ↦ (ok symbol, insert token symbol cache)
]

abbrev pub put_first :
    ChainView
    → Result (List ChainView) ChainError × Dict String
    → Result (List ChainView) ChainError × Dict String
put_first view (err e, last) = (err e, last)
put_first view (ok views, last) = (ok (view ∷ views), last)

-- What a probe's outcome does to the list; `rest` reads the later auctions.
unfoldable pub go_on :
    Cached (Dict String) (List ChainView)
    → Result ChainView ChainError × Dict String
    → Result (List ChainView) ChainError × Dict String
go_on rest (ok view, after) = put_first view (rest after)
go_on rest (err (contract_error code), after) = (ok [], after)
go_on rest (err (rpc_unreachable detail), after) = (err (rpc_unreachable detail), after)
go_on rest (err (simulation_failed detail), after) = (err (simulation_failed detail), after)
go_on rest (err (decode_failed detail), after) = (err (decode_failed detail), after)

abbrev pub max_auction_probes : ℕ
max_auction_probes = 50

-- `symbol_call` and `auction_call` are the simulations of `symbol` and `get_auction`.
module _ (show : Option Value → String) (symbol_call : String → Simulation)
    (auction_call : ℕ → Simulation) where
  -- `getTokenSymbol`
  unfoldable pub get_token_symbol : String → Cached (Dict String) String
  get_token_symbol token cache = elim (lookup token cache) [
    | some symbol ↦ (ok symbol, cache)
    | none ↦ keep_symbol token (simulate_contract_view (symbol_call token)) cache
  ]

  -- `getAuction`
  unfoldable pub get_auction : ℕ → Cached (Dict String) ChainView
  get_auction id = then_read (uncached (simulate_contract_view (auction_call id))) (λ value.
      then_read
        (uncached (or_decode_failed (raw_auction_record value) "auction record shape mismatch"))
        (λ raw. then_read (uncached (decode_status show (get "status" raw.fields))) (λ status.
          then_read (get_token_symbol raw.rwa_token) (λ lot_symbol.
            then_read (get_token_symbol raw.payment_token) (λ payment_symbol. uncached (
              ok (record {
                id = id;
                raw = raw;
                status = status;
                lot_symbol = lot_symbol;
                payment_symbol = payment_symbol;
              })))))))

  -- The loop of `listAuctions`: probes left, the next id. A contract's error ends the list.
  unfoldable pub probe : ℕ → ℕ → Cached (Dict String) (List ChainView)
  probe zero id cache = (ok [], cache)
  probe (suc left) id cache = go_on (probe left (suc id)) (get_auction id cache)

  -- `listAuctions`
  unfoldable pub list_auctions : Cached (Dict String) (List ChainView)
  list_auctions cache = probe max_auction_probes 1 cache
