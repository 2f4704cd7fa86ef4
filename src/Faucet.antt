-- ===== src/Faucet.antt =====
-- faucet/src/api.ts, faucet/src/mint.ts and `mintToken` of faucet/src/chain.ts: one grant of the two mock
-- assets to an address. What the stellar command line answers is an argument; the rate limit is
-- RateLimit.antt. The clock is read once for the cooldown and once for its record.
pub mod Grants
use sealedstellar.Common.{
  ℕ, ◌+◌, ◌-◌, ◌*◌, ◌/◌, Bool, true, false, String, List, [], ◌∷◌, ◌++◌, Option, none, some, leb,
  ltb, if◌then◌else◌, Result, ok, err, str_eq,
}
use sealedstellar.Common.Text.{append, trim, includes, split}
use sealedstellar.Common.Dict.{Dict, lookup, insert}
use sealedstellar.RateLimit.{Bucket, faucet_limit, take_token}

-- `FaucetError`
pub data FaucetError : Type 0 where
  bad_request rate_limited no_trustline mint_failed chain_unreachable : String → FaucetError

-- `httpStatusForError`
abbrev pub http_status_for_error : FaucetError → ℕ
http_status_for_error (bad_request detail) = 400
http_status_for_error (no_trustline detail) = 400
http_status_for_error (rate_limited detail) = 429
http_status_for_error (mint_failed detail) = 502
http_status_for_error (chain_unreachable detail) = 502

-- `describeFaucetError`
abbrev pub describe_faucet_error : FaucetError → String
describe_faucet_error (bad_request detail) = detail
describe_faucet_error (rate_limited detail) = detail
describe_faucet_error (no_trustline detail) =
    "the destination has no trustline for the asset; add it before requesting tokens"
describe_faucet_error (mint_failed detail) = append "mint failed: " detail
describe_faucet_error (chain_unreachable detail) = "testnet rpc is not answering; retry shortly"

-- What a run of the command line ends with; `hash_in` finds the transaction's hash in its output
-- (`TX_HASH_PATTERN`).
pub data Run : Type 0 where
  done : String → Run
  missing_cli timed_out : Run
  exited : String → Run

pub record Cli : Type 0 where
  pub invoke : String → String → ℕ → Run
  pub hash_in : String → Option String
  pub to_lower : String → String
  pub is_account : String → Bool
  pub to_text : ℕ → String
  pub stellar_bin : String

-- The configuration.
pub record Config : Type 0 where
  pub tusdc_contract : String
  pub tbenji_contract : String
  pub tusdc_amount : ℕ
  pub tbenji_amount : ℕ
  pub cooldown_ms : ℕ

pub record TokenGrant : Type 0 where
  pub symbol : String
  pub contract_id : String
  pub amount_base_units : String
  pub tx_hash : String

-- A mint: the contract, the address and the amount.
pub record Mint : Type 0 where
  pub contract_id : String
  pub to_address : String
  pub amount : ℕ

abbrev pub hash_or_empty : Option String → String
hash_or_empty none = ""
hash_or_empty (some h) = h

-- The loop over the planned grants: its answer, and the mints that were confirmed until then: those
-- whose run of the command line ended well. Whether one that failed, such as by a time-out after it was sent,
-- was carried out on chain is not known, here as in the source.
pub record Planned : Type 0 where
  pub symbol : String
  pub contract_id : String
  pub amount : ℕ

-- A failure's body is the error's kind and its description.
pub data Response : Type 0 where
  grants_tokens : String → List TokenGrant → Response
  failed : ℕ → FaucetError → Response

-- `lastGrantMsByAddress` and the mints confirmed so far
pub record Faucet : Type 0 where
  pub last_grant_ms : Dict ℕ
  pub confirmed : List Mint

-- The body of a request: no JSON, an object whose `address` is a text, or any other JSON.
pub data Body : Type 0 where
  no_json : Body
  with_address : String → Body
  other_json : Body

unfoldable pub first_not_blank : List String → String
unfolding trim
first_not_blank [] = "mint failed"
first_not_blank (line ∷ lines) =
    let entry : String = trim line in if str_eq entry "" then first_not_blank lines else entry

-- `firstMeaningfulLine`
unfoldable pub first_meaningful_line : String → String
unfolding first_not_blank split
first_meaningful_line text = first_not_blank (split 10 text)

module _ (cli : Cli) where
  unfoldable pub read_run : Run → Result String FaucetError
  read_run (done stderr) = ok (hash_or_empty (cli.hash_in stderr))
  read_run missing_cli = err (
      mint_failed (
        append "the \""
          (append cli.stellar_bin "\" CLI is not on PATH; the faucet needs it to mint")))
  read_run timed_out = err (chain_unreachable "the mint timed out talking to testnet")
  read_run (exited stderr) =
      if includes "trustline" (cli.to_lower stderr)
      then err (no_trustline "destination has no trustline for the asset")
      else err (mint_failed (first_meaningful_line stderr))

  -- `mintToken`
  unfoldable pub mint_token : String → String → ℕ → Result String FaucetError
  unfolding read_run
  mint_token contract_id to_address amount = read_run (cli.invoke contract_id to_address amount)

  unfoldable pub grant_all :
      String → List Planned → List TokenGrant → Result (List TokenGrant) FaucetError × List Mint
  grant_all address [] grants = (ok grants, [])
  grant_all address (p ∷ planned) grants = elim (mint_token p.contract_id address p.amount) [
    | err e ↦ (err e, [])
    | ok hash ↦
        let (granted, mints) = grant_all address planned (
          grants
          ++ record {
            symbol = p.symbol;
            contract_id = p.contract_id;
            amount_base_units = cli.to_text p.amount;
            tx_hash = hash;
          }
            ∷ []) in
        (
          granted,
          record { contract_id = p.contract_id; to_address = address; amount = p.amount } ∷ mints,
        )
  ]

  -- `grantTestTokens`
  unfoldable pub grant_test_tokens :
      Config → String → Result (List TokenGrant) FaucetError × List Mint
  unfolding grant_all
  grant_test_tokens config address =
      grant_all address
        (record {
          symbol = "tUSDC";
          contract_id = config.tusdc_contract;
          amount = config.tusdc_amount;
        }
          ∷ record {
            symbol = "tBENJI";
            contract_id = config.tbenji_contract;
            amount = config.tbenji_amount;
          }
          ∷ [])
        []

  -- `cooldownRemainingMs`. The clock may go back, and then the rest is longer than the cooldown.
  unfoldable pub cooldown_remaining_ms : Config → Option ℕ → ℕ → ℕ
  cooldown_remaining_ms config none now = 0
  cooldown_remaining_ms config (some last) now =
      if leb (last + config.cooldown_ms) now then 0 else last + config.cooldown_ms - now

  -- The end of a grant: it is recorded only if both legs succeeded.
  unfoldable pub finish_grant :
      String → ℕ → Result (List TokenGrant) FaucetError × List Mint → Faucet → Response × Faucet
  finish_grant address now (ok gs, mints) f = (
    grants_tokens address gs,
    record { last_grant_ms = insert address now f.last_grant_ms; confirmed = mints ++ f.confirmed },
  )
  finish_grant address now (err e, mints) f =
      (failed (http_status_for_error e) e, record f { confirmed = mints ++ f.confirmed })

  abbrev pub too_soon : ℕ → FaucetError
  too_soon remaining = rate_limited (
      append "already funded; wait "
        (append (cli.to_text ((remaining + 999) / 1000)) "s before requesting again"))

  -- POST /faucet at an address; the times at which the cooldown is tested and the grant is recorded.
  unfoldable pub request_at : Config → String → ℕ → ℕ → Faucet → Response × Faucet
  unfolding cooldown_remaining_ms finish_grant
  request_at config address now later f =
      let remaining : ℕ = cooldown_remaining_ms config (lookup address f.last_grant_ms) now in
      if cli.is_account address
      then if ltb 0 remaining
        then (failed 429 (too_soon remaining), f)
        else finish_grant address later (grant_test_tokens config address) f
      else (failed 400 (bad_request "address must be a valid Stellar account (G...)"), f)

  -- `readAddress`, and the route
  unfoldable pub request_grant : Config → Body → ℕ → ℕ → Faucet → Response × Faucet
  unfolding request_at
  request_grant config no_json now later f =
      (failed 400 (bad_request "body must be JSON: { \"address\": \"G...\" }"), f)
  request_grant config (with_address raw) now later f = request_at config (trim raw) now later f
  request_grant config other_json now later f = request_at config "" now later f

  -- The rate limit, then the route.
  unfoldable pub handle :
      Config → String → Body → ℕ → ℕ → Faucet × Dict Bucket → Response × Faucet × Dict Bucket
  unfolding request_grant
  handle config ip body now later (f, buckets) =
      let (taken, after) = take_token faucet_limit ip now buckets in
      if taken
      then (let (answer, f') = request_grant config body now later f in (answer, f', after))
      else (failed 429 (rate_limited "too many requests; slow down"), f, after)
