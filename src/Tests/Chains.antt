-- ===== src/Tests/Chains.antt =====
-- Runs of web/src/lib/operator.ts, whitelist-tree.ts, errors.ts and transactions.ts.
use sealedstellar.Common.{
  ℕ, zero, suc, ◌≤◌, ◌<◌, ◌≡◌, ◌⊎◌, refl, true, false, String, List, [], ◌∷◌, Option, some, arith,
  Result, ok, err, get_elem?, any, replicate, ◌+◌, ◌*◌,
}
use sealedstellar.Common.Int.{ℤ, pos}
use sealedstellar.Common.Text.{append}
use sealedstellar.Operator.Vickrey.{select_vickrey_outcome, find_winner, challenge}
use sealedstellar.Operator.Vickrey.Laws.{IsVickrey, select_vickrey_outcome-IsVickrey}
use sealedstellar.Whitelist.{
  Tree, build_tree, root, climb, path_for, compute_whitelist_root, merkle_depth, member_leaves,
  compute_address_leaf,
}
use sealedstellar.Whitelist.Membership.{compute_whitelist_root-total}
use sealedstellar.Web.Errors.{
  opening, parse_contract_error_code, AuctionError, code_of, is_lot_transfer_failure,
  deposit_uncovered,
}
use sealedstellar.Web.Errors.Code.{parse_contract_error_code-reads}
use sealedstellar.Web.Submit.{
  Answers, looks_up, prepares, asks_wallet, sends, polls, submit_invocation, confirm_poll_limit,
  max_poll_failures, map_to_bid_failure, prepare_failed,
}
use sealedstellar.Web.Submit.Confirmation.{
  IsOpen, failures_before, is_send, submit_invocation-confirms, submit_invocation-sends,
  submit_invocation-success,
}
use sealedstellar.Web.Submit.Mapping.{bid_report, map_to_bid_failure-prepare_failed}

abbrev three_prices : List ℤ
three_prices = pos 4 ∷ pos 9 ∷ pos 7 ∷ []

outcome_runs : (select_vickrey_outcome three_prices).winner_index ≡ pos 1
unfolding select_vickrey_outcome find_winner challenge
outcome_runs = refl

select_vickrey_outcome-IsVickrey_example :
    IsVickrey three_prices 1
      (select_vickrey_outcome three_prices).winner_price
      (select_vickrey_outcome three_prices).clearing_price
select_vickrey_outcome-IsVickrey_example =
    select_vickrey_outcome-IsVickrey three_prices 1 outcome_runs

abbrev ones : List ℕ
ones = replicate 32 1

-- A hash that a run can compute.
sum_hash : List ℕ → ℕ
sum_hash [] = 7
sum_hash (x ∷ xs) = 31 * x + sum_hash xs

abbrev three_leaves : List ℕ
three_leaves = 5 ∷ 6 ∷ 8 ∷ []

decode_key : String → Option (List ℕ)
decode_key s = some (ones)

abbrev two_members : List String
two_members = "alice" ∷ "bob" ∷ []

abbrev two_leaves : List ℕ
two_leaves = compute_address_leaf sum_hash (ones) ∷ compute_address_leaf sum_hash (ones) ∷ []

two_members-leaves : member_leaves sum_hash decode_key two_members ≡ ok two_leaves
unfolding member_leaves decode_key
two_members-leaves = refl

compute_whitelist_root-total_example :
    (t : Tree) × (r : ℕ) × (compute_whitelist_root sum_hash decode_key two_members ≡ ok r)
    × (build_tree sum_hash merkle_depth two_leaves ≡ some t)
    × (root t ≡ some r)
    × ((index leaf : ℕ)
        → get_elem? two_leaves index ≡ some leaf
        → climb sum_hash leaf (path_for t index).elements (path_for t index).index_bits ≡ some r)
compute_whitelist_root-total_example =
    compute_whitelist_root-total sum_hash decode_key two_members two_leaves (omega arith)
      (omega arith) two_members-leaves

parse_contract_error_code-reads_example :
    parse_contract_error_code
      (append "host: " (append opening (String.◌∷◌ "1" (append "0" (String.◌∷◌ ")" "")))))
    ≡ some 10
parse_contract_error_code-reads_example =
    parse_contract_error_code-reads "host: " "1" "0" ""
      (refl, (refl, (refl, (refl, (refl, (refl, tt)))))) (refl, (refl, tt))

abbrev statuses : ℕ → Result String String
statuses zero = err "no answer"
statuses (suc zero) = ok "PENDING"
statuses (suc (suc i)) = ok "SUCCESS"

abbrev answers : Answers
answers = record {
  account = ok tt;
  prepared = ok tt;
  signed = true;
  sent = ok ("PENDING", "hash");
  statuses = statuses;
}

IsOpen-before :
    (j : ℕ) → j < 2 → IsOpen (statuses j) × (failures_before statuses (suc j) < max_poll_failures)
unfolding failures_before
IsOpen-before zero h = (tt, omega arith)
IsOpen-before (suc zero) h = ((refl, refl), omega arith)
IsOpen-before (suc (suc j)) h = absurd (omega arith)

submit_invocation-confirms_example :
    submit_invocation (λ s. s) answers
    ≡ (ok "hash", looks_up ∷ prepares ∷ asks_wallet ∷ sends ∷ replicate 3 polls)
submit_invocation-confirms_example =
    submit_invocation-confirms (λ s. s) answers "PENDING" "hash" 2 refl refl refl refl refl
      (omega arith) IsOpen-before refl

submit_invocation-sends_example :
    (any is_send (submit_invocation (λ s. s) answers).1 ≡ false)
    ⊎ ((answers.signed ≡ true)
        × (n : ℕ) × (n ≤ confirm_poll_limit)
        × ((submit_invocation (λ s. s) answers).1
            ≡ looks_up ∷ prepares ∷ asks_wallet ∷ sends ∷ replicate n polls))
submit_invocation-sends_example = submit_invocation-sends (λ s. s) answers

submit_runs : (submit_invocation (λ s. s) answers).0 ≡ ok "hash"
unfolding submit_invocation
submit_runs = refl

submit_invocation-success_example :
    (answers.signed ≡ true)
    × ((status : String) × (answers.sent ≡ ok (status, "hash")))
    × ((j : ℕ) × (answers.statuses j ≡ ok "SUCCESS") × (j < confirm_poll_limit))
submit_invocation-success_example = submit_invocation-success (λ s. s) answers "hash" submit_runs

abbrev no_text : ℕ → String
no_text n = "n"

map_to_bid_failure-prepare_failed_example :
    (is_lot_transfer_failure (λ s. s) no_text "host" ≡ true
      → (code : Option ℕ)
      → map_to_bid_failure (λ s. s) no_text (prepare_failed "host" code) ≡ deposit_uncovered)
    × (is_lot_transfer_failure (λ s. s) no_text "host" ≡ false
        → map_to_bid_failure
            (λ s. s)
            no_text
            (prepare_failed "host" (some (code_of AuctionError.bids_full)))
          ≡ bid_report no_text AuctionError.bids_full)
map_to_bid_failure-prepare_failed_example =
    map_to_bid_failure-prepare_failed (λ s. s) no_text "host" AuctionError.bids_full
