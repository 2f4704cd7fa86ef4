-- ===== src/Faucet/Grants.antt =====
-- faucet/src/api.ts and faucet/src/mint.ts: which mints are confirmed, and the cooldown.
use sealedstellar.Common.{
  ℕ, zero, suc, ◌+◌, ◌-◌, ◌<◌, ◌≡◌, refl, ap, ◌∙◌, true, false, String, List, [], ◌∷◌, ◌++◌, none,
  some, ltb, ok, err, inl, inr, arith, Bool-cases, Result-cases, Option-cases, ◌≤◌, leb,
  if◌then◌else◌, replicate, length,
}
use sealedstellar.Common.Dict.{lookup, insert, lookup-insert_self}
use sealedstellar.Faucet.{
  Cli, Config, TokenGrant, Mint, FaucetError, bad_request, mint_token, grant_all, grant_test_tokens,
  cooldown_remaining_ms, Response, grants_tokens, failed, Faucet, finish_grant, request_at,
  too_soon, http_status_for_error,
}

abbrev pub tusdc_mint : Config → String → Mint
tusdc_mint config address = record {
  contract_id = config.tusdc_contract;
  to_address = address;
  amount = config.tusdc_amount;
}

abbrev pub tbenji_mint : Config → String → Mint
tbenji_mint config address = record {
  contract_id = config.tbenji_contract;
  to_address = address;
  amount = config.tbenji_amount;
}

-- The grants that are answered, with the hashes of the two transactions.
abbrev pub both : Cli → Config → String → String → List TokenGrant
both cli config h k =
    record {
      symbol = "tUSDC";
      contract_id = config.tusdc_contract;
      amount_base_units = cli.to_text config.tusdc_amount;
      tx_hash = h;
    }
    ∷ record {
      symbol = "tBENJI";
      contract_id = config.tbenji_contract;
      amount_base_units = cli.to_text config.tbenji_amount;
      tx_hash = k;
    }
    ∷ []

-- The address has no grant whose cooldown goes on.
abbrev pub IsIdle : Config → String → ℕ → Faucet → Type 0
IsIdle config address now f =
    (t : ℕ) → lookup address f.last_grant_ms ≡ some t → t + config.cooldown_ms ≤ now

-- How a request ends, with the state after it, by what the command line answered to the two mints.
pub data RequestEnds (cli : Cli) (config : Config) (address : String) (now later : ℕ) (f : Faucet)
    : Response × Faucet → Type 0 where
  not_account :
      cli.is_account address ≡ false
      → RequestEnds cli config address now later f
          (failed 400 (bad_request "address must be a valid Stellar account (G...)"), f)
  too_early :
      cli.is_account address ≡ true
      → (t : ℕ) → lookup address f.last_grant_ms ≡ some t
      → now < t + config.cooldown_ms
      → RequestEnds cli config address now later f
          (failed 429 (too_soon cli (t + config.cooldown_ms - now)), f)
  first_fails :
      cli.is_account address ≡ true
      → IsIdle config address now f
      → (e : FaucetError) → mint_token cli config.tusdc_contract address config.tusdc_amount ≡ err e
      → RequestEnds cli config address now later f (failed (http_status_for_error e) e, f)
  second_fails :
      cli.is_account address ≡ true
      → IsIdle config address now f
      → (h : String) (e : FaucetError)
      → mint_token cli config.tusdc_contract address config.tusdc_amount ≡ ok h
      → mint_token cli config.tbenji_contract address config.tbenji_amount ≡ err e
      → RequestEnds cli config address now later f (
        failed (http_status_for_error e) e,
        record f { confirmed = tusdc_mint config address ∷ f.confirmed },
      )
  grants_both :
      cli.is_account address ≡ true
      → IsIdle config address now f
      → (h k : String) → mint_token cli config.tusdc_contract address config.tusdc_amount ≡ ok h
      → mint_token cli config.tbenji_contract address config.tbenji_amount ≡ ok k
      → RequestEnds cli config address now later f (
        grants_tokens address (both cli config h k),
        record {
          last_grant_ms = insert address later f.last_grant_ms;
          confirmed = tusdc_mint config address ∷ tbenji_mint config address ∷ f.confirmed;
        },
      )

module _ (cli : Cli) (config : Config) (address : String) where
  -- A request that is not refused at once.
  minting-RequestEnds :
      (now later : ℕ) (f : Faucet)
      → cli.is_account address ≡ true
      → IsIdle config address now f
      → RequestEnds cli config address now later f
          (finish_grant cli address later (grant_test_tokens cli config address) f)
  unfolding finish_grant grant_test_tokens grant_all
  minting-RequestEnds now later f good idle =
      elim (Result-cases (mint_token cli config.tusdc_contract address config.tusdc_amount)) [
        | inr (e, first) ↦ rw (first, grant_all) (first_fails good idle e first)
        | inl (h, first) ↦
            elim (Result-cases
              (mint_token cli config.tbenji_contract address config.tbenji_amount)) [
                | inr (e, second) ↦
                    rw (first, grant_all, second) (second_fails good idle h e first second)
                | inl (k, second) ↦
                    rw (first, grant_all, second) (grants_both good idle h k first second)
              ]
      ]

  -- A request ends in one of five ways. An address that is no account is refused, and so is one whose cooldown
  -- goes on, with nothing asked of the command line; a first mint that fails, or a second one after a first
  -- that was confirmed, is answered with its error, and no grant is recorded; and after two mints that were
  -- confirmed, in the configured amounts, the grant is answered with their hashes and recorded. What a
  -- mint did that failed, such as one that timed out, is not known.
  pub request_at-RequestEnds :
      (now later : ℕ) (f : Faucet)
      → RequestEnds cli config address now later f (request_at cli config address now later f)
  unfolding request_at cooldown_remaining_ms
  request_at-RequestEnds now later f = elim (Bool-cases (cli.is_account address)) [
    | inr bad ↦ rw bad (not_account bad)
    | inl good ↦ elim (Option-cases (lookup address f.last_grant_ms)) [
      | inl new ↦ rw (good, new) (minting-RequestEnds now later f good (λ t e. absurd (cc)))
      | inr (t, last) ↦ elim (Bool-cases (leb (t + config.cooldown_ms) now)) [
        | inl over ↦
            rw (good, last, over)
              (minting-RequestEnds now later f good
                (λ t' e. let same : t ≡ t' = cc in rw (← same) (ground (arith, over))))
        | inr soon ↦
            let early : now < t + config.cooldown_ms = ground (arith, soon) in
            let wait : ltb 0 (t + config.cooldown_ms - now) ≡ true = ground (arith, early) in
            rw (good, last, soon, if◌then◌else◌, wait) (too_early good t last early)
      ]
    ]
  ]

  granted_before :
      (now later : ℕ) (f : Faucet) (r : Response × Faucet) (gs : List TokenGrant)
      → RequestEnds cli config address now later f r
      → r.0 ≡ grants_tokens address gs
      → (cli.is_account address ≡ true) × (lookup address r.1.last_grant_ms ≡ some later)
  granted_before now later f _ gs (not_account bad) h = absurd (cc)
  granted_before now later f _ gs (too_early good t last early) h = absurd (cc)
  granted_before now later f _ gs (first_fails good idle e first) h = absurd (cc)
  granted_before now later f _ gs (second_fails good idle k e first second) h = absurd (cc)
  granted_before now later f _ gs (grants_both good idle k l first second) h =
      (good, lookup-insert_self address later f.last_grant_ms)

  refused_soon :
      (t now later : ℕ) (f : Faucet)
      → cli.is_account address ≡ true
      → lookup address f.last_grant_ms ≡ some t
      → now < t + config.cooldown_ms
      → request_at cli config address now later f
        ≡ (failed 429 (too_soon cli (t + config.cooldown_ms - now)), f)
  unfolding request_at cooldown_remaining_ms
  refused_soon t now later f good last soon = ground arith

  -- After a request that was granted, the next request of the address within the cooldown from the time at
  -- which the grant was recorded is refused with status 429 and the time that is left, and changes nothing.
  pub request_at-cooldown :
      (now later now' later' : ℕ) (f : Faucet) (gs : List TokenGrant)
      → (request_at cli config address now later f).0 ≡ grants_tokens address gs
      → now' < later + config.cooldown_ms
      → request_at cli config address now' later' (request_at cli config address now later f).1 ≡ (
        failed 429 (too_soon cli (later + config.cooldown_ms - now')),
        (request_at cli config address now later f).1,
      )
  request_at-cooldown now later now' later' f gs granted soon =
      let (good, last) =
        granted_before now later f (request_at cli config address now later f) gs
          (request_at-RequestEnds now later f) granted in
      refused_soon later now' later' (request_at cli config address now later f).1 good last soon

  -- Requests of one address at the given times.
  pub request_all : List (ℕ × ℕ) → Faucet → Faucet
  request_all [] f = f
  request_all ((now, later) ∷ times) f =
      request_all times (request_at cli config address now later f).1

  request_at-half :
      (h : String) (e : FaucetError) (now later : ℕ) (f : Faucet)
      → cli.is_account address ≡ true
      → lookup address f.last_grant_ms ≡ none
      → mint_token cli config.tusdc_contract address config.tusdc_amount ≡ ok h
      → mint_token cli config.tbenji_contract address config.tbenji_amount ≡ err e
      → (request_at cli config address now later f).1
        ≡ record f { confirmed = tusdc_mint config address ∷ f.confirmed }
  unfolding request_at cooldown_remaining_ms grant_test_tokens grant_all finish_grant
  request_at-half h e now later f good new first second =
      rw (good, new, first, grant_all, second, grant_all, finish_grant) refl

  replicate-shift {ℓ} :
      {A : Type ℓ} (n : ℕ) (a : A) (xs : List A)
      → replicate n a ++ a ∷ xs ≡ a ∷ (replicate n a ++ xs)
  replicate-shift zero a xs = refl
  replicate-shift (suc n) a xs = ap (◌∷◌ a) (replicate-shift n a xs)

  -- While the first mint succeeds and the second fails, a valid account without a grant gets the first
  -- asset at every request: the cooldown never starts, however many requests are made and whenever.
  pub request_all-half :
      (h : String) (e : FaucetError) (times : List (ℕ × ℕ)) (f : Faucet)
      → cli.is_account address ≡ true
      → lookup address f.last_grant_ms ≡ none
      → mint_token cli config.tusdc_contract address config.tusdc_amount ≡ ok h
      → mint_token cli config.tbenji_contract address config.tbenji_amount ≡ err e
      → (request_all times f).confirmed
        ≡ replicate (length times) (tusdc_mint config address) ++ f.confirmed
  unfolding request_all
  request_all-half h e [] f good new first second = refl
  request_all-half h e ((now, later) ∷ times) f good new first second =
      let f' : Faucet = record f { confirmed = tusdc_mint config address ∷ f.confirmed } in
      rw (request_all, request_at-half h e now later f good new first second)
        (request_all-half h e times f' good new first second
          ∙ replicate-shift (length times) (tusdc_mint config address) f.confirmed)
