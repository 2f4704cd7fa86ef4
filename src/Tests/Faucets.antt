-- ===== src/Tests/Faucets.antt =====
-- Runs of faucet/src and of the token buckets.
use sealedstellar.Common.{
  ◌+◌, ◌-◌, ℕ, Bool-cases, inl, inr, ◌*◌, ◌≤◌, ◌≡◌, refl, true, String, [], ◌∷◌, ◌++◌, none, some,
  arith, ok, err, replicate, if◌then◌else◌, str_eq,
}
use sealedstellar.Common.Text.{includes}
use sealedstellar.Common.Dict.{lookup}
use sealedstellar.RateLimit.{faucet_limit, bucket_or_full}
use sealedstellar.RateLimit.Budget.{serve, serve_budget}
use sealedstellar.Faucet.{
  Run, Cli, Config, Faucet, FaucetError, mint_token, read_run, request_at, failed, too_soon,
  grants_tokens, cooldown_remaining_ms, finish_grant, grant_test_tokens, grant_all,
}
use sealedstellar.Web.Faucet.{
  Host, Answers, mint_token as web_mint, confirm_sent, prepare_error, poll, polled,
  status_for_error, grant_to,
}
use sealedstellar.Web.Faucet.Replaces.{IsSameMint, IsSameAnswer, grant_to-IsSameAnswer}
use sealedstellar.Faucet.Grants.{
  tusdc_mint, both, RequestEnds, request_at-RequestEnds, request_at-cooldown, request_all,
  request_all-half,
}

-- A command line at which the mint of the second asset fails.
abbrev half_cli : Cli
half_cli = record {
  invoke = λ contract to_address amount. if_first contract;
  hash_in = λ s. some s;
  to_lower = λ s. s;
  is_account = λ s. true;
  to_text = λ n. "n";
  stellar_bin = "stellar";
}
  where
    if_first : String → Run
    if_first contract =
        if str_eq contract "tusdc" then Run.done "hash" else Run.exited "no trustline"

abbrev small_config : Config
small_config = record {
  tusdc_contract = "tusdc";
  tbenji_contract = "tbenji";
  tusdc_amount = 100;
  tbenji_amount = 5;
  cooldown_ms = 1000;
}

abbrev fresh_faucet : Faucet
fresh_faucet = record { last_grant_ms = []; confirmed = [] }

first_leg : mint_token half_cli "tusdc" "alice" 100 ≡ ok "hash"
unfolding mint_token read_run
first_leg = refl

second_leg :
    mint_token half_cli "tbenji" "alice" 5
    ≡ err (FaucetError.no_trustline "destination has no trustline for the asset")
unfolding mint_token read_run includes
second_leg = refl

no_grant : lookup "alice" fresh_faucet.last_grant_ms ≡ none
unfolding lookup
no_grant = refl

request_all-half_example :
    (request_all half_cli small_config "alice" ((1, 2) ∷ (3, 4) ∷ []) fresh_faucet).confirmed
    ≡ replicate 2 (tusdc_mint small_config "alice") ++ []
request_all-half_example =
    request_all-half half_cli small_config "alice" "hash"
      (FaucetError.no_trustline "destination has no trustline for the asset") ((1, 2) ∷ (3, 4) ∷ [])
      fresh_faucet refl no_grant first_leg second_leg

request_at-RequestEnds_example :
    RequestEnds half_cli small_config "alice" 1 2 fresh_faucet
      (request_at half_cli small_config "alice" 1 2 fresh_faucet)
request_at-RequestEnds_example =
    request_at-RequestEnds half_cli small_config "alice" 1 2 fresh_faucet

-- A command line at which every mint is confirmed.
abbrev whole_cli : Cli
whole_cli = record half_cli { invoke = λ contract to_address amount. Run.done "hash" }

whole_grant :
    (request_at whole_cli small_config "alice" 1 2 fresh_faucet).0
    ≡ grants_tokens "alice" (both whole_cli small_config "hash" "hash")
unfolding request_at cooldown_remaining_ms finish_grant grant_test_tokens grant_all mint_token
    read_run lookup
whole_grant = refl

request_at-cooldown_example :
    request_at whole_cli small_config "alice" 60 70
      (request_at whole_cli small_config "alice" 1 2 fresh_faucet).1
    ≡ (
      failed 429 (too_soon whole_cli (2 + 1000 - 60)),
      (request_at whole_cli small_config "alice" 1 2 fresh_faucet).1,
    )
request_at-cooldown_example =
    request_at-cooldown whole_cli small_config "alice" 1 2 60 70 fresh_faucet
      (both whole_cli small_config "hash" "hash") whole_grant (omega arith)

serve_budget_example :
    (serve faucet_limit (3 ∷ 5 ∷ 5 ∷ []) (bucket_or_full faucet_limit 3 none)).0 * 5_000 + 1 * 3
    ≤ 50_000 + 1 * 5
serve_budget_example =
    serve_budget faucet_limit 3 (3 ∷ 5 ∷ 5 ∷ []) (omega arith, (omega arith, (omega arith, tt)))

-- The web function at a server that refuses the second asset in the same way.
abbrev half_host : Host
half_host = record {
  rpc_url = "https://soroban-testnet";
  issuer_secret = some "secret";
  expected_issuer = "issuer";
  public_key_of = λ s. some "issuer";
  parse_json = λ s. none;
  is_account = λ s. true;
  to_lower = λ s. s;
  to_text = λ n. "n";
  answers_of = λ contract address amount. if_first contract;
  status_at = λ hash index. some "SUCCESS";
}
  where
    if_first : String → Answers
    if_first contract =
        if str_eq contract "tusdc"
        then record {
          account_failure = none;
          prepare_failure = none;
          sent = ok ("PENDING", "hash");
        }
        else record {
          account_failure = none;
          prepare_failure = some "no trustline";
          sent = err "not sent";
        }

half_mints :
    (contract address : String) (amount : ℕ)
    → IsSameMint
        (mint_token half_cli contract address amount)
        (web_mint half_host contract address amount)
unfolding mint_token read_run includes web_mint confirm_sent prepare_error poll polled
    status_for_error
half_mints contract address amount = elim (Bool-cases (str_eq contract "tusdc")) [
  | inl first ↦ rw (first, if◌then◌else◌) refl
  | inr second ↦ rw (second, if◌then◌else◌) refl
]

grant_to-IsSameAnswer_example :
    IsSameAnswer
      (request_at half_cli small_config "alice" 60 60 fresh_faucet)
      (grant_to half_host small_config "alice" 60 60 fresh_faucet)
grant_to-IsSameAnswer_example =
    grant_to-IsSameAnswer half_cli half_host (λ n. refl) half_mints small_config "alice" 60 60
      fresh_faucet refl
