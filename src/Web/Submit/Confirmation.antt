-- ===== src/Web/Submit/Confirmation.antt =====
-- web/src/lib/transactions.ts, `submitInvocation`: when a transaction is sent, and how the polling ends.
use sealedstellar.Common.{
  ℕ, zero, suc, ◌+◌, ◌≤◌, ◌<◌, ◌≡◌, refl, sym, ap, ◌∙◌, Bool, true, false, String, [], ◌∷◌, str_eq,
  Result, ok, err, leb, replicate, any, ◌⊎◌, inl, inr, arith, eq_iff, Bool-cases, Result-cases,
}
use sealedstellar.Common.Text.{append}
use sealedstellar.Web.Submit.{
  Answers, Action, looks_up, prepares, asks_wallet, sends, polls, InvocationFailure,
  submission_failed, confirm, send_signed, submit_invocation, confirm_poll_limit, max_poll_failures,
  after_poll,
}

-- An answer on which the loop goes on: the transaction is not yet final, or the poll failed.
abbrev pub IsOpen : Result String String → Type 0
IsOpen (ok status) = (str_eq status "SUCCESS" ≡ false) × (str_eq status "FAILED" ≡ false)
IsOpen (err message) = Unit {0}

abbrev pub failures_next : Result String String → ℕ → ℕ
failures_next (ok status) n = 0
failures_next (err message) n = suc n

-- The failed polls in a row just before poll `i`.
unfoldable pub failures_before : (ℕ → Result String String) → ℕ → ℕ
failures_before statuses zero = 0
failures_before statuses (suc i) = failures_next (statuses i) (failures_before statuses i)

module _ (statuses : ℕ → Result String String) (hash : String) where
  confirm-open :
      (left i failures : ℕ)
      → IsOpen (statuses i)
      → failures_next (statuses i) failures < max_poll_failures
      → confirm statuses hash (suc left) i failures
        ≡ after_poll (confirm statuses hash left (suc i) (failures_next (statuses i) failures))
  unfolding confirm
  confirm-open left i failures o few = ground arith

  confirm-success :
      (left i failures : ℕ)
      → statuses i ≡ ok "SUCCESS"
      → confirm statuses hash (suc left) i failures ≡ (ok hash, polls ∷ [])
  unfolding confirm
  confirm-success left i failures e = rw (e, confirm) refl

  confirm-reaches :
      (k left i p : ℕ)
      → p ≡ i + k
      → k < left
      → ((j : ℕ)
          → j < p
          → IsOpen (statuses j) × (failures_before statuses (suc j) < max_poll_failures))
      → statuses p ≡ ok "SUCCESS"
      → confirm statuses hash left i (failures_before statuses i)
        ≡ (ok hash, replicate (suc k) polls)
  unfolding failures_before
  confirm-reaches k zero i p at l h e = absurd (omega arith)
  confirm-reaches zero (suc left) i p at l h e =
      confirm-success left i (failures_before statuses i) (let q : i ≡ p = omega arith in rw q e)
  confirm-reaches (suc k) (suc left) i p at l h e =
      let (o, few) = h i (omega arith) in
      confirm-open left i (failures_before statuses i) o few
      ∙ ap after_poll (confirm-reaches k left (suc i) p (omega arith) (omega arith) h e)

  -- One poll: the loop goes on, or it ends with the success that it read, or it fails.
  confirm-cases :
      (left i failures : ℕ)
      → ((n : ℕ) × (confirm statuses hash (suc left) i failures
            ≡ after_poll (confirm statuses hash left (suc i) n)))
        ⊎ ((statuses i ≡ ok "SUCCESS")
            × (confirm statuses hash (suc left) i failures ≡ (ok hash, polls ∷ [])))
        ⊎ ((message : String) × (confirm statuses hash (suc left) i failures
              ≡ (err (submission_failed message), polls ∷ [])))
  unfolding confirm
  confirm-cases left i failures = elim (Result-cases (statuses i)) [
    | inl (status, got) ↦ elim (Bool-cases (str_eq status "SUCCESS")) [
      | inl done ↦
          inr (inl (got ∙ ap ok ((eq_iff status "SUCCESS").0 done), rw (got, confirm, done) refl))
      | inr other ↦ elim (Bool-cases (str_eq status "FAILED")) [
        | inl failed ↦ inr (
            inr (
              "transaction failed on chain; retry for the reason",
              rw (got, confirm, other, failed) refl,
            ))
        | inr running ↦ inl (0, rw (got, confirm, other, running) refl)
      ]
    ]
    | inr (message, got) ↦ elim (Bool-cases (leb max_poll_failures (suc failures))) [
      | inl many ↦
          inr (inr (append "confirmation polling failed: " message, rw (got, confirm, many) refl))
      | inr few ↦ inl (suc failures, rw (got, confirm, few) refl)
    ]
  ]

  confirm-none :
      (i failures : ℕ)
      → confirm statuses hash zero i failures
        ≡ (err (submission_failed "confirmation timed out; check the explorer"), [])
  unfolding confirm
  confirm-none i failures = refl

  -- A confirmed transaction was reported as a success by some poll.
  confirm-final :
      (left i failures : ℕ) (h : String)
      → (confirm statuses hash left i failures).0 ≡ ok h
      → (h ≡ hash) × (j : ℕ) × (statuses j ≡ ok "SUCCESS") × (j < i + left)
  confirm-final zero i failures h e = absurd (let e' = rw (confirm-none i failures) at e in cc)
  confirm-final (suc left) i failures h e = elim (confirm-cases left i failures) [
    | inl (n, step) ↦
        let (same, j, final, few) = confirm-final left (suc i) n h (rw step at e) in
        (same, j, final, omega arith)
    | inr (inl (final, step)) ↦ (ok_inj (rw step at e), i, final, omega arith)
    | inr (inr (message, step)) ↦ absurd (let e' = rw step at e in cc)
  ]
    where
      ok_inj : ◌≡◌ {A = Result String InvocationFailure} (ok hash) (ok h) → h ≡ hash
      ok_inj q = cc

  confirm-polls :
      (left i failures : ℕ)
      → (n : ℕ) × ((confirm statuses hash left i failures).1 ≡ replicate n polls) × (n ≤ left)
  confirm-polls zero i failures = (0, rw (confirm-none i failures) refl, omega arith)
  confirm-polls (suc left) i failures = elim (confirm-cases left i failures) [
    | inl (m, step) ↦
        let (n, e, few) = confirm-polls left (suc i) m in
        (suc n, rw step (ap (◌∷◌ polls) e), omega arith)
    | inr (inl (final, step)) ↦ (1, rw step refl, omega arith)
    | inr (inr (message, step)) ↦ (1, rw step refl, omega arith)
  ]

-- A transaction whose account is found, which is prepared and signed and which the network takes, is
-- reported with its hash, if a poll among the first thirty answers SUCCESS, no earlier poll answers
-- SUCCESS or FAILED, and no five polls in a row fail before it.
pub submit_invocation-confirms :
    (to_lower : String → String) (a : Answers) (status hash : String) (k : ℕ)
    → a.account ≡ ok tt
    → a.prepared ≡ ok tt
    → a.signed ≡ true
    → a.sent ≡ ok (status, hash)
    → str_eq status "ERROR" ≡ false
    → k < confirm_poll_limit
    → ((j : ℕ)
        → j < k
        → IsOpen (a.statuses j) × (failures_before a.statuses (suc j) < max_poll_failures))
    → a.statuses k ≡ ok "SUCCESS"
    → submit_invocation to_lower a
      ≡ (ok hash, looks_up ∷ prepares ∷ asks_wallet ∷ sends ∷ replicate (suc k) polls)
unfolding submit_invocation send_signed failures_before
submit_invocation-confirms to_lower a status hash k found made signed sent good l h e =
    let waits : confirm a.statuses hash confirm_poll_limit 0 0
        ≡ (ok hash, replicate (suc k) polls) =
      confirm-reaches a.statuses hash k confirm_poll_limit 0 k (omega arith) l h e in
    rw (found, made, signed, sent, good, submit_invocation, send_signed, waits) refl

abbrev pub is_send : Action → Bool
is_send sends = true
is_send _ = false

-- The transaction leaves the tab at most once, only signed, after its account was read, it was
-- prepared and the wallet was asked; at most thirty polls follow, and nothing else.
pub submit_invocation-sends :
    (to_lower : String → String) (a : Answers)
    → (any is_send (submit_invocation to_lower a).1 ≡ false)
      ⊎ ((a.signed ≡ true)
          × (n : ℕ) × (n ≤ confirm_poll_limit)
          × ((submit_invocation to_lower a).1
              ≡ looks_up ∷ prepares ∷ asks_wallet ∷ sends ∷ replicate n polls))
unfolding submit_invocation send_signed
submit_invocation-sends to_lower a = elim (Result-cases a.account) [
  | inr (detail, found) ↦ inl (rw (found, submit_invocation) refl)
  | inl (_, found) ↦ elim (Result-cases a.prepared) [
    | inr (detail, made) ↦ inl (rw (found, made, submit_invocation) refl)
    | inl (_, made) ↦ elim (Bool-cases a.signed) [
      | inr declined ↦ inl (rw (found, made, declined, submit_invocation) refl)
      | inl signed ↦ elim (Result-cases a.sent) [
        | inr (message, sent) ↦ inr (
          signed,
          0,
          omega arith,
          rw (found, made, signed, sent, submit_invocation, send_signed) refl,
        )
        | inl ((status, hash), sent) ↦ elim (Bool-cases (str_eq status "ERROR")) [
          | inl bad ↦ inr (
            signed,
            0,
            omega arith,
            rw (found, made, signed, sent, bad, submit_invocation, send_signed) refl,
          )
          | inr good ↦
              let (n, e, few) = confirm-polls a.statuses hash confirm_poll_limit 0 0 in
              inr (
                signed,
                n,
                few,
                rw (found, made, signed, sent, good, submit_invocation, send_signed, e) refl,
              )
        ]
      ]
    ]
  ]
]

-- A reported success is the hash that the network gave for the signed transaction, and one of the
-- thirty polls answered SUCCESS.
pub submit_invocation-success :
    (to_lower : String → String) (a : Answers) (h : String)
    → (submit_invocation to_lower a).0 ≡ ok h
    → (a.signed ≡ true)
      × ((status : String) × (a.sent ≡ ok (status, h)))
      × ((j : ℕ) × (a.statuses j ≡ ok "SUCCESS") × (j < confirm_poll_limit))
unfolding submit_invocation send_signed
submit_invocation-success to_lower a h e = elim (Result-cases a.account) [
  | inr (detail, found) ↦ absurd (let e' = rw (found, submit_invocation) at e in cc)
  | inl (_, found) ↦ elim (Result-cases a.prepared) [
    | inr (detail, made) ↦ absurd (let e' = rw (found, made, submit_invocation) at e in cc)
    | inl (_, made) ↦ elim (Bool-cases a.signed) [
      | inr declined ↦ absurd (let e' = rw (found, made, declined, submit_invocation) at e in cc)
      | inl signed ↦ elim (Result-cases a.sent) [
        | inr (message, sent) ↦
            absurd
              (let e' = rw (found, made, signed, sent, submit_invocation, send_signed) at e in cc)
        | inl ((status, hash), sent) ↦ elim (Bool-cases (str_eq status "ERROR")) [
          | inl bad ↦ absurd (
              let e' = rw (found, made, signed, sent, bad, submit_invocation, send_signed) at e in
              cc)
          | inr good ↦
              let e' = rw (found, made, signed, sent, good, submit_invocation, send_signed) at e in
              let (same, j, final, few) =
                confirm-final a.statuses hash confirm_poll_limit 0 0 h e' in
              (
                signed,
                (status, sent ∙ ap (λ q. ok (status, q)) (sym same)),
                (j, final, omega arith),
              )
        ]
      ]
    ]
  ]
]
