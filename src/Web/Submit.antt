-- ===== src/Web/Submit.antt =====
-- web/src/lib/transactions.ts, `submitInvocation` and the three mappings of its failures. What the
-- RPC server and the wallet answer is an argument; each call that leaves the tab is an action.
pub mod Confirmation
pub mod Mapping
use sealedstellar.Common.{
  ℕ, zero, suc, ◌+◌, Bool, true, false, String, List, [], ◌∷◌, ◌++◌, Option, none, some, str_eq,
  Result, ok, err, leb, if◌then◌else◌,
}
use sealedstellar.Common.Text.{append, includes}
use sealedstellar.Web.Errors.{
  ChainError, contract_error, simulation_failed, BidFailure, SettleFailure, CreateAuctionFailure,
  deposit_uncovered, lot_uncovered, parse_contract_error_code, classify_place_bid_chain_error,
  is_lot_transfer_failure, classify_settle_contract_error, classify_create_auction_contract_error,
}

-- `InvocationFailure`
pub data InvocationFailure : Type 0 where
  account_missing : String → InvocationFailure
  rpc_unreachable : InvocationFailure
  prepare_failed : String → Option ℕ → InvocationFailure
  wallet_declined : InvocationFailure
  submission_failed : String → InvocationFailure

-- The calls that leave the tab.
pub data Action : Type 0 where
  looks_up prepares asks_wallet sends polls : Action

-- The answers: an error carries its message. `statuses` are those of `fetchTransactionStatus`.
pub record Answers : Type 0 where
  pub account : Result (Unit {0}) String
  pub prepared : Result (Unit {0}) String
  pub signed : Bool
  pub sent : Result (String × String) String
  pub statuses : ℕ → Result String String

abbrev pub confirm_poll_limit : ℕ
confirm_poll_limit = 30

abbrev pub max_poll_failures : ℕ
max_poll_failures = 5

abbrev Confirmed : Type 0
Confirmed = Result String InvocationFailure × List Action

abbrev after_poll : Confirmed → Confirmed
after_poll (r, actions) = (r, polls ∷ actions)

-- The confirmation loop: polls left, the poll's number, consecutive failures.
unfoldable pub confirm : (ℕ → Result String String) → String → ℕ → ℕ → ℕ → Confirmed
confirm statuses hash zero i failures =
    (err (submission_failed "confirmation timed out; check the explorer"), [])
confirm statuses hash (suc left) i failures =
    let retry : Confirmed = confirm statuses hash left (suc i) (suc failures) in
    let wait : Confirmed = confirm statuses hash left (suc i) 0 in
    elim (statuses i) [
      | err message ↦
          if leb max_poll_failures (suc failures)
          then (
            err (submission_failed (append "confirmation polling failed: " message)),
            polls ∷ [],
          )
          else after_poll retry
      | ok status ↦
          if str_eq status "SUCCESS"
          then (ok hash, polls ∷ [])
          else if str_eq status "FAILED"
          then (
            err (submission_failed "transaction failed on chain; retry for the reason"),
            polls ∷ [],
          )
          else after_poll wait
    ]

abbrev then_actions : List Action → Confirmed → Confirmed
then_actions before (r, actions) = (r, before ++ actions)

-- From the signed transaction on.
unfoldable pub send_signed : Answers → Confirmed
unfolding confirm
send_signed a = elim a.sent [
  | err message ↦ (err rpc_unreachable, sends ∷ [])
  | ok (status, hash) ↦
      if str_eq status "ERROR"
      then (err (submission_failed (append "send status " status)), sends ∷ [])
      else then_actions (sends ∷ []) (confirm a.statuses hash confirm_poll_limit 0 0)
]

-- `submitInvocation`
unfoldable pub submit_invocation : (String → String) → Answers → Confirmed
unfolding send_signed
submit_invocation to_lower a = elim a.account [
  | err detail ↦ (
    err (
        if includes "not found" (to_lower detail) then account_missing detail else rpc_unreachable),
    looks_up ∷ [],
  )
  | ok _ ↦ elim a.prepared [
    | err detail ↦
        (err (prepare_failed detail (parse_contract_error_code detail)), looks_up ∷ prepares ∷ [])
    | ok _ ↦
        if a.signed
        then then_actions (looks_up ∷ prepares ∷ asks_wallet ∷ []) (send_signed a)
        else (err wallet_declined, looks_up ∷ prepares ∷ asks_wallet ∷ [])
  ]
]

abbrev or_failed {ℓ} : {F : Type ℓ} → Option F → F → F
or_failed none f = f
or_failed (some g) f = g

abbrev settle_code : Option ℕ → Option SettleFailure
settle_code none = none
settle_code (some n) = classify_settle_contract_error n

abbrev create_code : Option ℕ → Option CreateAuctionFailure
create_code none = none
create_code (some n) = classify_create_auction_contract_error n

-- `mapInvocationToSettleFailure`
unfoldable pub map_to_settle_failure : InvocationFailure → SettleFailure
unfolding classify_settle_contract_error
map_to_settle_failure (account_missing detail) =
    SettleFailure.submission_failed "the settling account does not exist on testnet"
map_to_settle_failure rpc_unreachable = SettleFailure.rpc_unreachable
map_to_settle_failure wallet_declined = SettleFailure.wallet_declined
map_to_settle_failure (prepare_failed detail code) =
    or_failed (settle_code code) (SettleFailure.submission_failed detail)
map_to_settle_failure (submission_failed detail) = SettleFailure.submission_failed detail

module _ (to_lower : String → String) (to_text : ℕ → String) where
  -- The text is classified first; a code counts only where the text names no deposit failure.
  unfoldable pub prepare_to_bid_failure : String → Option ℕ → BidFailure
  unfolding classify_place_bid_chain_error
  prepare_to_bid_failure detail code =
      elim (classify_place_bid_chain_error to_lower to_text (simulation_failed detail)) [
        | deposit_uncovered ↦ deposit_uncovered
        | other ↦ elim code [
          | none ↦ other
          | some n ↦ classify_place_bid_chain_error to_lower to_text (contract_error n)
        ]
      ]

  -- `mapInvocationToBidFailure`
  unfoldable pub map_to_bid_failure : InvocationFailure → BidFailure
  unfolding prepare_to_bid_failure
  map_to_bid_failure (account_missing detail) =
      BidFailure.submission_failed "bidder account does not exist on testnet"
  map_to_bid_failure rpc_unreachable = BidFailure.rpc_unreachable
  map_to_bid_failure wallet_declined = BidFailure.wallet_declined
  map_to_bid_failure (prepare_failed detail code) = prepare_to_bid_failure detail code
  map_to_bid_failure (submission_failed detail) = BidFailure.submission_failed detail

  -- `mapInvocationToCreateFailure`
  unfoldable pub map_to_create_failure : InvocationFailure → CreateAuctionFailure
  unfolding is_lot_transfer_failure classify_create_auction_contract_error
  map_to_create_failure (account_missing detail) =
      CreateAuctionFailure.submission_failed "the seller account does not exist on testnet"
  map_to_create_failure rpc_unreachable = CreateAuctionFailure.rpc_unreachable
  map_to_create_failure wallet_declined = CreateAuctionFailure.wallet_declined
  map_to_create_failure (prepare_failed detail code) =
      if is_lot_transfer_failure to_lower to_text detail
      then lot_uncovered
      else or_failed (create_code code) (CreateAuctionFailure.submission_failed detail)
  map_to_create_failure (submission_failed detail) = CreateAuctionFailure.submission_failed detail
