-- ===== src/Web/Faucet/Replaces.antt =====
-- The web function against the service of faucet/src that it replaces.
use sealedstellar.Common.{
  inl, inr, ltb, ℕ, ◌+◌, ◌-◌, ◌⊎◌, ◌≡◌, refl, ap, arith, true, false, String, List, [], ◌∷◌, ◌++◌,
  Option, none, some, Result, ok, err, Bool-cases, Result-cases, if◌then◌else◌,
}
use sealedstellar.Common.Dict.{lookup}
use sealedstellar.Faucet as Service
use sealedstellar.Faucet.{
  Cli, Config, TokenGrant, Mint, Planned, Faucet, FaucetError, http_status_for_error, Response,
  grants_tokens, failed, request_at, finish_grant, grant_test_tokens, grant_all,
  cooldown_remaining_ms, too_soon,
}
use sealedstellar.Web.Faucet.{
  GrantError, status_for_error, Host, mint_token, after_leg, mint_all, Reply, granted, refused,
  planned_grants, wait_ms, answer, grant_to,
}

-- Two outcomes of a mint with the same hash, or with errors of the same HTTP status.
abbrev pub IsSameMint : Result String FaucetError → Result String GrantError → Type 0
IsSameMint (ok h) (ok h') = h ≡ h'
IsSameMint (err e) (err e') = http_status_for_error e ≡ status_for_error e'.kind
IsSameMint _ _ = ⊥

-- The same for the outcomes of the loop, with the same mints confirmed.
abbrev pub IsSameGrant :
    Result (List TokenGrant) FaucetError × List Mint
    → Result (List TokenGrant) GrantError × List Mint
    → Type 0
IsSameGrant (ok gs, ms) (ok gs', ms') = (gs ≡ gs') × (ms ≡ ms')
IsSameGrant (err e, ms) (err e', ms') =
    (http_status_for_error e ≡ status_for_error e'.kind) × (ms ≡ ms')
IsSameGrant _ _ = ⊥

-- The same for two answers, with the states after them.
abbrev pub IsSameAnswer : Response × Faucet → Reply × Faucet → Type 0
IsSameAnswer (grants_tokens a gs, f) (granted a' gs', f') = (a ≡ a') × (gs ≡ gs') × (f ≡ f')
IsSameAnswer (failed code e, f) (refused code' e', f') = (code ≡ code') × (f ≡ f')
IsSameAnswer _ _ = ⊥

add_mint :
    (m : Mint) (x : Result (List TokenGrant) FaucetError × List Mint)
    (y : Result (List TokenGrant) GrantError × List Mint)
    → IsSameGrant x y
    → IsSameGrant (x.0, m ∷ x.1) (y.0, m ∷ y.1)
add_mint m (ok gs, ms) (ok gs', ms') (same, mints) = (same, ap (λ l. m ∷ l) mints)
add_mint m (err e, ms) (err e', ms') (same, mints) = (same, ap (λ l. m ∷ l) mints)
add_mint m (ok gs, ms) (err e', ms') h = absurd h
add_mint m (err e, ms) (ok gs', ms') h = absurd h

finish_grant-answer :
    (cli : Cli) (address : String) (later : ℕ) (f : Faucet)
    (x : Result (List TokenGrant) FaucetError × List Mint)
    (y : Result (List TokenGrant) GrantError × List Mint)
    → IsSameGrant x y
    → IsSameAnswer (finish_grant cli address later x f) (answer address later y f)
unfolding finish_grant answer
finish_grant-answer cli address later f (ok gs, ms) (ok gs', ms') (same, mints) =
    (refl, same, rw mints refl)
finish_grant-answer cli address later f (err e, ms) (err e', ms') (same, mints) =
    (same, rw mints refl)
finish_grant-answer cli address later f (ok gs, ms) (err e', ms') h = absurd h
finish_grant-answer cli address later f (err e, ms) (ok gs', ms') h = absurd h

module _ (cli : Cli) (host : Host) (same_text : (n : ℕ) → cli.to_text n ≡ host.to_text n)
    (same_mint : (contract_id address : String) (amount : ℕ)
      → IsSameMint
          (Service.mint_token cli contract_id address amount)
          (mint_token host contract_id address amount)) where
  abbrev extended : Planned → List TokenGrant → String → List TokenGrant
  extended p grants hash =
      grants
      ++ record {
        symbol = p.symbol;
        contract_id = p.contract_id;
        amount_base_units = host.to_text p.amount;
        tx_hash = hash;
      }
        ∷ []

  mint_all-IsSameGrant :
      (address : String) (planned : List Planned) (grants : List TokenGrant)
      → IsSameGrant (grant_all cli address planned grants) (mint_all host address planned grants)
  unfolding grant_all mint_all after_leg
  mint_all-IsSameGrant address [] grants = (refl, refl)
  mint_all-IsSameGrant address (p ∷ planned) grants =
      let same = same_mint p.contract_id address p.amount in
      elim (Result-cases (Service.mint_token cli p.contract_id address p.amount)) [
        | inl (h, a) ↦ elim (Result-cases (mint_token host p.contract_id address p.amount)) [
          | inl (h', b) ↦
              let same_hash = rw (a, b) at same in
              rw (a, grant_all, b, same_hash, same_text, after_leg)
                (add_mint
                  record { contract_id = p.contract_id; to_address = address; amount = p.amount }
                  (grant_all cli address planned (extended p grants h'))
                  (mint_all host address planned (extended p grants h'))
                  (mint_all-IsSameGrant address planned (extended p grants h')))
          | inr (e', b) ↦ (let both = rw (a, b) at same in absurd both)
        ]
        | inr (e, a) ↦ elim (Result-cases (mint_token host p.contract_id address p.amount)) [
          | inl (h', b) ↦ (let both = rw (a, b) at same in absurd both)
          | inr (e', b) ↦
              let codes = rw (a, b) at same in rw (a, grant_all, b, after_leg) (codes, refl)
        ]
      ]

  waits :
      (config : Config) (last : Option ℕ) (now : ℕ)
      → ((wait_ms config.cooldown_ms last now ≡ none)
          × (ltb 0 (cooldown_remaining_ms cli config last now) ≡ false))
        ⊎ ((w : ℕ) × (wait_ms config.cooldown_ms last now ≡ some w)
            × (ltb 0 (cooldown_remaining_ms cli config last now) ≡ true))
  unfolding wait_ms cooldown_remaining_ms
  waits config none now = inl (refl, refl)
  waits config (some last) now = elim (Bool-cases (ltb now (last + config.cooldown_ms))) [
    | inl soon ↦ inr (last + config.cooldown_ms - now, rw (soon, if◌then◌else◌) refl, ground arith)
    | inr free ↦ inl (rw (free, if◌then◌else◌) refl, ground arith)
  ]

  -- Where the two mint alike, have the same test of an account and print numbers alike, a request at one
  -- address is answered by both with the same grants or with errors of the same HTTP status, and
  -- leaves the same confirmed mints and recorded grants.
  pub grant_to-IsSameAnswer :
      (config : Config) (address : String) (now later : ℕ) (f : Faucet)
      → cli.is_account address ≡ host.is_account address
      → IsSameAnswer
          (request_at cli config address now later f)
          (grant_to host config address now later f)
  unfolding request_at grant_to grant_test_tokens
  grant_to-IsSameAnswer config address now later f same_account =
      elim (Bool-cases (host.is_account address)) [
        | inr bad ↦ rw (same_account, bad) (refl, refl)
        | inl good ↦ elim (waits config (lookup address f.last_grant_ms) now) [
          | inl (free, idle) ↦
              rw (same_account, good, free, idle)
                (finish_grant-answer cli address later f
                  (grant_all cli address (planned_grants config) [])
                  (mint_all host address (planned_grants config) [])
                  (mint_all-IsSameGrant address (planned_grants config) []))
          | inr (w, wait, busy) ↦ rw (same_account, good, wait, busy) (refl, refl)
        ]
      ]
