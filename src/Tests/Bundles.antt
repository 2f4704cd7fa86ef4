-- ===== src/Tests/Bundles.antt =====
-- A proof that prover/format-args.js packs and web/src/lib/transactions.ts reads.
use sealedstellar.Common.{◌≡◌, refl, true, String, Option, some, ok}
use sealedstellar.Common.Int.{ℤ, pos}
use sealedstellar.Common.Text.{append}
use sealedstellar.Indexer.Runtime.{integer}
use sealedstellar.Indexer.Value.{Value, text, arr, obj, nil, cons, Fields, end, field, get}
use sealedstellar.Web.Bundle.{ProofBytes, parse_settle_bundle}
use sealedstellar.Prover.Hex.{to_big_endian_hex32}
use sealedstellar.Prover.{ProofArg, parse_field_element, pack_g1, pack_g2, build_proof_arg}
use sealedstellar.Prover.Pasted.{IsProof, IsBundleText, parse_settle_bundle-build_proof_arg}

-- Every text is read as 5.
abbrev five : String → Option ℤ
five s = some (pos 5)

abbrev pair : Value → Value
pair v = arr (cons v (cons v nil))

abbrev proof_json : Fields
proof_json = field "protocol" (text "groth16") (
    field "curve" (text "bn128") (
      field "pi_a" (pair (text "5"))
        (field "pi_b" (pair (pair (text "5"))) (field "pi_c" (pair (text "5")) end))))

abbrev hex5 : String
hex5 = to_big_endian_hex32 5

abbrev packed_proof : ProofArg
packed_proof = record {
  a = append hex5 hex5;
  b = append hex5 (append hex5 (append hex5 hex5));
  c = append hex5 hex5;
}

abbrev proof_fields : Fields
proof_fields =
    field "a" (text packed_proof.a)
      (field "b" (text packed_proof.b) (field "c" (text packed_proof.c) end))

abbrev bundle_json : Fields
bundle_json = field "winnerAddress" (text "bob") (field "proof" (obj proof_fields) end)

packing_runs : build_proof_arg five proof_json ≡ ok packed_proof
unfolding build_proof_arg pack_g1 pack_g2 parse_field_element get
packing_runs = refl

pasted :
    IsBundleText
      (λ s. some (obj bundle_json))
      (λ v. integer (pos 3))
      (λ v. some (pos 5))
      (λ s. true)
      "{}"
      3
      3
      4
      "bob"
      packed_proof
unfolding get
pasted = record {
  fs = bundle_json;
  proof = proof_fields;
  is_json = refl;
  has_id = refl;
  has_winner = refl;
  has_price = refl;
  has_address = refl;
  valid = refl;
  has_proof = refl;
  has_a = refl;
  has_b = refl;
  has_c = refl;
}

parse_settle_bundle-build_proof_arg_example :
    (bytes : ProofBytes) × (parse_settle_bundle
        (λ s. some (obj bundle_json))
        (λ v. integer (pos 3))
        (λ v. some (pos 5))
        (λ s. true)
        "{}"
        (pos 3)
      ≡ ok (record {
        auction_id = pos 3;
        winner_index = 3;
        winning_price = pos 5;
        winner_address = "bob";
        proof = bytes;
      }))
    × IsProof five proof_json bytes
parse_settle_bundle-build_proof_arg_example =
    parse_settle_bundle-build_proof_arg five (λ s. some (obj bundle_json)) (λ v. integer (pos 3))
      (λ v. some (pos 5)) (λ s. true) proof_json packed_proof "{}" 3 3 4 "bob" packing_runs pasted
