-- ===== src/Operator/Settle.antt =====
-- web/src/lib/operator.ts, `assembleAndProve` and `proveSettleFromRevealedBids`: from the revealed bids
-- to a settlement's proof. The prover, Poseidon and the decoders of texts and addresses are arguments;
-- a failure is a constructor for its message, and the progress reports are left out.
pub mod Soundness
pub mod Slots
pub mod OnChain
use sealedstellar.Common.{
  ℕ, zero, suc, ◌+◌, Bool, true, false, not, ◌||◌, String, List, [], ◌∷◌, Option, none, some,
  str_eq, Result, ok, err, and_then, get_or, set, replicate, if◌then◌else◌, ◌==◌,
}
use sealedstellar.Common.Int.{ℤ, pos, negsuc, pos_part, ltbℤ, eqbℤ}
use sealedstellar.Indexer.Runtime.{JsNumber, integer, fraction, not_finite}
use sealedstellar.Operator.Vickrey.{Outcome, select_vickrey_outcome}
use sealedstellar.Whitelist.{
  Tree, build_tree, root, MerklePath, path_for, merkle_depth, member_leaves,
}

abbrev pub max_bid_slots : ℕ
max_bid_slots = 8

-- `RevealedBid`: the amounts come as texts, and the slot is a number of the reply's JSON.
pub record RevealedBid : Type 0 where
  pub slot_index : JsNumber
  pub bidder : String
  pub price : String
  pub salt : String
  pub commitment : String

-- `SlotData`
pub record SlotData : Type 0 where
  pub prices : List ℤ
  pub salts : List ℤ
  pub commitments : List ℤ
  pub bidders : List (Option String)

pub data SettleError : Type 0 where
  no_revealed_bids not_numeric no_positive_price no_second_price no_bidder : SettleError
  not_whitelisted wrong_root tree_fault : SettleError
  slot_out_of_range : JsNumber → SettleError
  commitment_mismatch : ℕ → SettleError
  invalid_member proving_failed : String → SettleError

-- What the circuit is given.
pub record CircuitInput : Type 0 where
  pub auction_id : ℕ
  pub commitments : List ℤ
  pub winner_index : ℕ
  pub winning_price : ℤ
  pub whitelist_root : ℕ
  pub winner_addr_hash : ℕ
  pub bid_prices : List ℤ
  pub bid_salts : List ℤ
  pub merkle_path : MerklePath

-- `SettleBundle`, with the input that its proof is about
pub record SettleBundle (Proof : Type 0) : Type 0 where
  pub auction_id : ℕ
  pub winner_index : ℕ
  pub winning_price : ℤ
  pub winner_address : String
  pub input : CircuitInput
  pub proof : Proof

-- The auction's fields that the pipeline reads.
pub record SettledAuction : Type 0 where
  pub id : ℕ
  pub whitelist_root : ℕ

abbrev pub require : Bool → SettleError → Result (Unit {0}) SettleError
require b e = if b then ok tt else err e

abbrev pub or_fail {ℓ} : {A : Type ℓ} → Option A → SettleError → Result A SettleError
or_fail none e = err e
or_fail (some a) e = ok a

-- `winnerIndex < 0` is the only case without a slot.
abbrev pub natural : ℤ → Option ℕ
natural (pos n) = some n
natural (negsuc n) = none

-- The last member that is the winner: `winnerMemberIndex`.
unfoldable pub member_index : String → ℕ → List String → Option ℕ → Option ℕ
member_index winner i [] found = found
member_index winner i (m ∷ ms) found =
    member_index winner (suc i) ms (if str_eq m winner then some i else found)

abbrev pub leaves_or_fail : Result (List ℕ) String → Result (List ℕ) SettleError
leaves_or_fail (ok leaves) = ok leaves
leaves_or_fail (err m) = err (invalid_member m)

abbrev pub proof_or_fail {ℓ} : {A : Type ℓ} → Result A String → Result A SettleError
proof_or_fail (ok proof) = ok proof
proof_or_fail (err detail) = err (proving_failed detail)

abbrev pub has_root : Option ℕ → ℕ → Bool
has_root none r = false
has_root (some s) r = s == r

-- `slotIndex < 0 || slotIndex >= MAX_BID_SLOTS`. (A number of JSON is never NaN.)
abbrev pub is_outside : JsNumber → Bool
is_outside (integer z) = ltbℤ z (pos 0) || not (ltbℤ z (pos max_bid_slots))
is_outside (fraction z) = ltbℤ z (pos 0) || not (ltbℤ z (pos max_bid_slots))
is_outside not_finite = true

-- `values[slotIndex] = value`: at a fraction it sets a property that is no element.
abbrev pub set_slot {ℓ} : {A : Type ℓ} → List A → JsNumber → A → List A
set_slot values (integer z) value = set values (pos_part z) value
set_slot values (fraction z) value = values
set_slot values not_finite value = values

-- `big` is `BigInt(text)`, none where it throws.
module _ (big : String → Option ℤ) where
  unfoldable pub fill_slots : List RevealedBid → SlotData → Result SlotData SettleError
  fill_slots [] slots = ok slots
  fill_slots (b ∷ bs) slots =
      and_then (require (not (is_outside b.slot_index)) (slot_out_of_range b.slot_index)) (λ _.
        and_then (or_fail (big b.price) not_numeric) (λ price.
          and_then (or_fail (big b.salt) not_numeric) (λ salt.
            and_then (or_fail (big b.commitment) not_numeric) (λ commitment. fill_slots bs (record {
              prices = set_slot slots.prices b.slot_index price;
              salts = set_slot slots.salts b.slot_index salt;
              commitments = set_slot slots.commitments b.slot_index commitment;
              bidders = set_slot slots.bidders b.slot_index (some b.bidder);
            })))))

abbrev pub empty_slots : SlotData
empty_slots = record {
  prices = replicate max_bid_slots (pos 0);
  salts = replicate max_bid_slots (pos 0);
  commitments = replicate max_bid_slots (pos 0);
  bidders = replicate max_bid_slots none;
}

-- `commit` is the hash of a price, a salt and the auction's id.
module _ (commit : ℤ → ℤ → ℕ → ℤ) where
  abbrev pub slot_matches : ℕ → SlotData → ℕ → Option String → Bool
  slot_matches id slots i none = true
  slot_matches id slots i (some bidder) =
      eqbℤ (commit (get_or slots.prices i (pos 0)) (get_or slots.salts i (pos 0)) id)
        (get_or slots.commitments i (pos 0))

  -- The loop over the slots: slots left, slot.
  unfoldable pub check_commitments : ℕ → SlotData → ℕ → ℕ → Result (Unit {0}) SettleError
  check_commitments id slots zero i = ok tt
  check_commitments id slots (suc left) i =
      and_then
        (require (slot_matches id slots i (get_or slots.bidders i none)) (commitment_mismatch i))
        (λ _. check_commitments id slots left (suc i))

  module _ {Proof : Type 0} (hash : List ℕ → ℕ) (decode_key : String → Option (List ℕ))
      (prove : CircuitInput → Result Proof String) where
    -- The end of the pipeline, once the winner's slot, address and place in the whitelist are known.
    unfoldable pub prove_winner :
        SettledAuction
        → SlotData
        → ℕ
        → ℤ
        → String
        → List ℕ
        → ℕ
        → Tree
        → Result (SettleBundle Proof) SettleError
    prove_winner auction slots winner price address leaves index tree =
        let input : CircuitInput = record {
          auction_id = auction.id;
          commitments = slots.commitments;
          winner_index = winner;
          winning_price = price;
          whitelist_root = auction.whitelist_root;
          winner_addr_hash = get_or leaves index 0;
          bid_prices = slots.prices;
          bid_salts = slots.salts;
          merkle_path = path_for tree index;
        } in
        and_then (proof_or_fail (prove input)) (λ proof. ok (record {
          auction_id = auction.id;
          winner_index = winner;
          winning_price = price;
          winner_address = address;
          input = input;
          proof = proof;
        }))

    -- `assembleAndProve`
    unfoldable pub assemble_and_prove :
        SettledAuction → SlotData → List String → Result (SettleBundle Proof) SettleError
    assemble_and_prove auction slots members =
        let outcome : Outcome = select_vickrey_outcome slots.prices in
        and_then (check_commitments auction.id slots max_bid_slots 0) (λ _.
          and_then (or_fail (natural outcome.winner_index) no_positive_price) (λ winner.
            and_then (require (ltbℤ (pos 0) outcome.winner_price) no_positive_price) (λ _.
              and_then (require (ltbℤ (pos 0) outcome.clearing_price) no_second_price) (λ _.
                and_then (or_fail (get_or slots.bidders winner none) no_bidder) (λ address.
                  and_then (leaves_or_fail (member_leaves hash decode_key members)) (λ leaves.
                    and_then (or_fail (member_index address 0 members none) not_whitelisted)
                      (λ index.
                        and_then (or_fail (build_tree hash merkle_depth leaves) tree_fault) (λ tree.
                          and_then
                            (require (has_root (root tree) auction.whitelist_root) wrong_root)
                            (λ _.
                              prove_winner auction slots winner outcome.clearing_price address
                                leaves index tree)))))))))

    -- `proveSettleFromRevealedBids`; `big` is `BigInt(text)`.
    unfoldable pub prove_settle :
        (String → Option ℤ)
        → SettledAuction
        → List RevealedBid
        → List String
        → Result (SettleBundle Proof) SettleError
    unfolding assemble_and_prove
    prove_settle big auction [] members = err no_revealed_bids
    prove_settle big auction (b ∷ bs) members =
        and_then (fill_slots big (b ∷ bs) empty_slots)
          (λ slots. assemble_and_prove auction slots members)
