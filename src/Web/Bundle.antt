-- ===== src/Web/Bundle.antt =====
-- web/src/lib/transactions.ts: the bundle of a settlement that the operator pastes. `parse_json` is
-- `JSON.parse`, `number_of` is `Number(value)`, `big_of` is `BigInt(String(value))`, none where they throw.
use sealedstellar.Common.{
  ℕ, Bool, String, List, Option, none, some, if◌then◌else◌, Result, ok, err, and_then,
}
use sealedstellar.Common.Int.{ℤ, pos, ltbℤ, eqbℤ}
use sealedstellar.Indexer.Runtime.{JsNumber, integer}
use sealedstellar.Indexer.Value.{Value, obj, arr, Fields, end, get, as_text}
use sealedstellar.Web.Reveal.{is_hex_text, hex_to_bytes}

pub record ProofBytes : Type 0 where
  pub a : List ℕ
  pub b : List ℕ
  pub c : List ℕ

-- `SettleBundle`
pub record SettleBundle : Type 0 where
  pub auction_id : ℤ
  pub winner_index : ℕ
  pub winning_price : ℤ
  pub winner_address : String
  pub proof : ProofBytes

-- The reasons that are shown.
pub data BundleError : Type 0 where
  not_json not_an_object no_auction_id other_auction no_winner_index no_winner_address
        no_winning_price :
      BundleError
  price_not_positive no_proof wrong_proof_fields : BundleError

abbrev pub proof_g1_hex_length : ℕ
proof_g1_hex_length = 128

abbrev pub proof_g2_hex_length : ℕ
proof_g2_hex_length = 256

-- `hexToBytes`
unfoldable pub hex_to_bytes_of : ℕ → String → Option (List ℕ)
hex_to_bytes_of expected s = if is_hex_text expected s then some (hex_to_bytes s) else none

abbrev pub require : Bool → BundleError → Result (Unit {0}) BundleError
require b e = if b then ok tt else err e

abbrev pub or_error {ℓ} : {A : Type ℓ} → Option A → BundleError → Result A BundleError
or_error none e = err e
or_error (some a) e = ok a

-- An object; an array is one without the named fields.
abbrev pub as_object : Option Value → Option Fields
as_object (some (obj fs)) = some fs
as_object (some (arr vs)) = some end
as_object _ = none

abbrev pub as_integer : JsNumber → Option ℤ
as_integer (integer z) = some z
as_integer _ = none

abbrev pub as_natural : JsNumber → Option ℕ
as_natural (integer (pos n)) = some n
as_natural _ = none

unfoldable pub proof_field : ℕ → String → Fields → Option (List ℕ)
proof_field expected name fs = elim (as_text (get name fs)) [
  | none ↦ none
  | some s ↦ hex_to_bytes_of expected s
]

abbrev pub proof_of :
    Option (List ℕ) → Option (List ℕ) → Option (List ℕ) → Result ProofBytes BundleError
proof_of (some a) (some b) (some c) = ok (record { a = a; b = b; c = c })
proof_of _ _ _ = err wrong_proof_fields

module _ (parse_json : String → Option Value) (number_of : Option Value → JsNumber)
    (big_of : Option Value → Option ℤ) (is_account : String → Bool) where
  -- The end of the parser: the price and the proof.
  unfoldable pub parse_outcome : Fields → ℤ → ℕ → String → Result SettleBundle BundleError
  parse_outcome fs id winner address =
      and_then (or_error (big_of (get "winningPrice" fs)) no_winning_price) (λ price.
        and_then (require (ltbℤ (pos 0) price) price_not_positive) (λ _.
          and_then (or_error (as_object (get "proof" fs)) no_proof) (λ proof.
            and_then
              (proof_of (proof_field proof_g1_hex_length "a" proof)
                (proof_field proof_g2_hex_length "b" proof)
                (proof_field proof_g1_hex_length "c" proof))
              (λ bytes. ok (record {
                auction_id = id;
                winner_index = winner;
                winning_price = price;
                winner_address = address;
                proof = bytes;
              })))))

  -- `parseSettleBundle`
  unfoldable pub parse_settle_bundle : String → ℤ → Result SettleBundle BundleError
  parse_settle_bundle raw expected = and_then (or_error (parse_json raw) not_json) (λ parsed.
      and_then (or_error (as_object (some parsed)) not_an_object) (λ fs.
        and_then (or_error (as_integer (number_of (get "auctionId" fs))) no_auction_id) (λ id.
          and_then (require (eqbℤ id expected) other_auction) (λ _.
            and_then (or_error (as_natural (number_of (get "winnerIndex" fs))) no_winner_index)
              (λ winner.
                and_then (or_error (as_text (get "winnerAddress" fs)) no_winner_address) (λ address.
                  and_then (require (is_account address) no_winner_address)
                    (λ _. parse_outcome fs id winner address)))))))
