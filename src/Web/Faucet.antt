-- ===== src/Web/Faucet.antt =====
-- web/api/faucet.ts: the function that mints the two test tokens, which replaces the service of Faucet.antt
-- on the web app's host. The environment, the JSON parser and the RPC server are arguments, with its answers to
-- the account read, the preparation, the submission and each poll of the status. The clock is read once for
-- the cooldown and once for its record, and the amounts and the cooldown of the environment are natural.
pub mod Replaces
use sealedstellar.Common.{
  ℕ, zero, suc, ◌+◌, ◌-◌, ◌/◌, Bool, true, false, String, List, [], ◌∷◌, ◌++◌, Option, none, some,
  ltb, if◌then◌else◌, Result, ok, err, and_then, str_eq,
}
use sealedstellar.Common.Text.{append, trim, includes}
use sealedstellar.Common.Dict.{lookup, insert}
use sealedstellar.Indexer.Value.{Value, text, obj, get, as_text}
use sealedstellar.Faucet.{Config, TokenGrant, Mint, Planned, Faucet}

-- `GrantError`, by its kind
pub data GrantKind : Type 0 where
  bad_request rate_limited no_trustline mint_failed server_misconfigured : GrantKind

pub record GrantError : Type 0 where
  pub kind : GrantKind
  pub message : String

-- `statusForError`
unfoldable pub status_for_error : GrantKind → ℕ
status_for_error bad_request = 400
status_for_error no_trustline = 400
status_for_error rate_limited = 429
status_for_error mint_failed = 502
status_for_error server_misconfigured = 503

abbrev pub fails {ℓ} : {A : Type ℓ} → GrantKind → String → Result A GrantError
fails kind message = err (record { kind = kind; message = message })

-- The answers of the RPC server to one mint: the details of a failed account read and of a failed preparation,
-- and the status and the hash of the submission, or the detail of its failure.
pub record Answers : Type 0 where
  pub account_failure : Option String
  pub prepare_failure : Option String
  pub sent : Result (String × String) String

pub record Host : Type 0 where
  pub rpc_url : String
  pub issuer_secret : Option String
  pub expected_issuer : String
  pub public_key_of : String → Option String
  pub parse_json : String → Option Value
  pub is_account : String → Bool
  pub to_lower : String → String
  pub to_text : ℕ → String
  pub answers_of : String → String → ℕ → Answers
  pub status_at : String → ℕ → Option String

abbrev pub confirm_poll_limit : ℕ
confirm_poll_limit = 12

abbrev address_in : Value → String
address_in (obj fs) = elim (as_text (get "address" fs)) [ none ↦ "" | some s ↦ trim s ]
address_in _ = ""

abbrev parsed_address : Option Value → String
parsed_address none = ""
parsed_address (some v) = address_in v

abbrev refused_kind : Option String → (String → GrantError) → Result (Unit {0}) GrantError
refused_kind none f = ok tt
refused_kind (some detail) f = err (f detail)

module _ (host : Host) where
  -- `loadIssuer`, with the issuer's public key
  unfoldable pub load_issuer : Result String GrantError
  load_issuer =
      if includes "testnet" host.rpc_url
      then elim host.issuer_secret [
        | none ↦ fails server_misconfigured "faucet is missing ISSUER_SECRET"
        | some secret ↦
            if str_eq (trim secret) ""
            then fails server_misconfigured "faucet is missing ISSUER_SECRET"
            else elim (host.public_key_of (trim secret)) [
              | none ↦ fails server_misconfigured "ISSUER_SECRET is not a valid secret seed"
              | some key ↦
                  if str_eq key host.expected_issuer
                  then ok key
                  else fails server_misconfigured "ISSUER_SECRET does not match the expected issuer"
            ]
      ]
      else fails server_misconfigured "faucet RPC must target testnet"

  -- `readAddress`
  unfoldable pub read_address : Value → String
  read_address (text s) = parsed_address (host.parse_json s)
  read_address body = address_in body

  -- What a poll's status does: it ends the mint, or `rest` goes on.
  unfoldable pub polled :
      String → Option String → Result String GrantError → Result String GrantError
  polled hash none rest = rest
  polled hash (some status) rest =
      if str_eq status "SUCCESS"
      then ok hash
      else if str_eq status "FAILED"
      then fails mint_failed "the mint failed on chain"
      else rest

  -- The polls that are left, from the given index.
  unfoldable pub poll : String → ℕ → ℕ → Result String GrantError
  unfolding polled
  poll hash zero index = fails mint_failed "mint confirmation timed out"
  poll hash (suc left) index = polled hash (host.status_at hash index) (poll hash left (suc index))

  unfoldable pub prepare_error : String → GrantError
  prepare_error detail =
      if includes "trustline" (host.to_lower detail)
      then record { kind = no_trustline; message = "destination has no trustline for the asset" }
      else record { kind = mint_failed; message = detail }

  unfoldable pub confirm_sent : Result (String × String) String → Result String GrantError
  unfolding poll
  confirm_sent (err detail) = fails mint_failed detail
  confirm_sent (ok (status, hash)) =
      if str_eq status "ERROR"
      then fails mint_failed "the network rejected the mint"
      else poll hash confirm_poll_limit 0

  -- `mintToken`, with the transaction's hash
  unfoldable pub mint_token : String → String → ℕ → Result String GrantError
  unfolding prepare_error confirm_sent
  mint_token contract_id to_address amount =
      let answers : Answers = host.answers_of contract_id to_address amount in
      and_then
        (refused_kind answers.account_failure (λ detail. record {
          kind = mint_failed;
          message = append "cannot load issuer account: " detail;
        }))
        (λ _.
          and_then (refused_kind answers.prepare_failure prepare_error)
            (λ _. confirm_sent answers.sent))

  -- What one mint's outcome does to the loop; `rest` mints the later grants.
  unfoldable pub after_leg :
      Mint
      → Result String GrantError
      → (String → Result (List TokenGrant) GrantError × List Mint)
      → Result (List TokenGrant) GrantError × List Mint
  after_leg mint (err e) rest = (err e, [])
  after_leg mint (ok hash) rest = let (granted, mints) = rest hash in (granted, mint ∷ mints)

  -- The loop over the planned grants: its answer, and the mints that were confirmed until then; one that
  -- timed out may still be carried out on chain.
  unfoldable pub mint_all :
      String → List Planned → List TokenGrant → Result (List TokenGrant) GrantError × List Mint
  unfolding after_leg
  mint_all address [] grants = (ok grants, [])
  mint_all address (p ∷ planned) grants =
      after_leg (record { contract_id = p.contract_id; to_address = address; amount = p.amount })
        (mint_token p.contract_id address p.amount)
        (λ hash. mint_all address planned (
          grants
          ++ record {
            symbol = p.symbol;
            contract_id = p.contract_id;
            amount_base_units = host.to_text p.amount;
            tx_hash = hash;
          }
            ∷ []))

-- The answer: its status with the error, or the grants.
pub data Reply : Type 0 where
  granted : String → List TokenGrant → Reply
  refused : ℕ → GrantError → Reply

abbrev pub planned_grants : Config → List Planned
planned_grants config =
    record { symbol = "tUSDC"; contract_id = config.tusdc_contract; amount = config.tusdc_amount }
    ∷ record {
      symbol = "tBENJI";
      contract_id = config.tbenji_contract;
      amount = config.tbenji_amount;
    }
    ∷ []

-- `lastMs !== undefined && Date.now() - lastMs < COOLDOWN_MS`, with the time that is left
unfoldable pub wait_ms : ℕ → Option ℕ → ℕ → Option ℕ
wait_ms cooldown none now = none
wait_ms cooldown (some last) now =
    if ltb now (last + cooldown) then some (last + cooldown - now) else none

-- The end of the handler: a failed mint is answered, and only a full grant is recorded.
unfoldable pub answer :
    String → ℕ → Result (List TokenGrant) GrantError × List Mint → Faucet → Reply × Faucet
answer address later (ok grants, mints) f = (
  granted address grants,
  record { last_grant_ms = insert address later f.last_grant_ms; confirmed = mints ++ f.confirmed },
)
answer address later (err e, mints) f =
    (refused (status_for_error e.kind) e, record f { confirmed = mints ++ f.confirmed })

module _ (host : Host) (config : Config) where
  abbrev pub too_early : ℕ → GrantError
  too_early wait = record {
    kind = rate_limited;
    message =
        append "already funded; wait "
          (append (host.to_text ((wait + 999) / 1000)) "s before requesting again");
  }

  -- The handler after the address is read.
  unfoldable pub grant_to : String → ℕ → ℕ → Faucet → Reply × Faucet
  unfolding wait_ms mint_all answer
  grant_to address now later f =
      if host.is_account address
      then elim (wait_ms config.cooldown_ms (lookup address f.last_grant_ms) now) [
        | some wait ↦ (refused 429 (too_early wait), f)
        | none ↦ answer address later (mint_all host address (planned_grants config) []) f
      ]
      else (
        refused 400 (record {
          kind = bad_request;
          message = "address must be a valid Stellar account (G...)";
        }),
        f,
      )

  -- `handler`, at a method, a body and the two times
  unfoldable pub handler : String → Value → ℕ → ℕ → Faucet → Reply × Faucet
  unfolding load_issuer read_address grant_to status_for_error
  handler method body now later f =
      if str_eq method "POST"
      then elim (load_issuer host) [
        | err e ↦ (refused (status_for_error e.kind) e, f)
        | ok key ↦ grant_to (read_address host body) now later f
      ]
      else (refused 405 (record { kind = bad_request; message = "POST only" }), f)
