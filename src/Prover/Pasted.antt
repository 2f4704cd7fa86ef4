-- ===== src/Prover/Pasted.antt =====
-- prover/format-args.js and web/src/lib/transactions.ts together: the page reads the proof that the tool packs.
use sealedstellar.Common.{
  ℕ, suc, ◌≡◌, refl, ap, ◌∙◌, Bool, true, String, List, Option, some, Result, ok, and_then-eq-ok,
  arith,
}
use sealedstellar.Common.Int.{ℤ, pos, ltbℤ, eqbℤ}
use sealedstellar.Indexer.Runtime.{JsNumber, integer}
use sealedstellar.Indexer.Value.{Value, text, obj, Fields as JsonFields, get}
use sealedstellar.Web.Bundle.{
  ProofBytes, hex_to_bytes_of, proof_field, parse_outcome, parse_settle_bundle,
}
use sealedstellar.Prover.{pack_g1, pack_g2, ProofArg, is_groth16, build_proof_arg}
use sealedstellar.Prover.Fields.{IsPoint1, IsPoint2, pack_g1-IsPoint1, pack_g2-IsPoint2, passes}

-- The bytes are the points of the proof, in the verifier's layout.
pub record IsProof (big : String → Option ℤ) (proof_json : JsonFields) (bytes : ProofBytes)
    : Type 0 where
  pub a : IsPoint1 big (get "pi_a" proof_json) bytes.a
  pub b : IsPoint2 big (get "pi_b" proof_json) bytes.b
  pub c : IsPoint1 big (get "pi_c" proof_json) bytes.c

-- A pasted text is a bundle with these values and the fields of a packed proof.
pub record IsBundleText (parse_json : String → Option Value) (number_of : Option Value → JsNumber)
    (big_of : Option Value → Option ℤ) (is_account : String → Bool) (raw : String)
    (id winner price : ℕ) (address : String) (arg : ProofArg) : Type 0 where
  pub fs : JsonFields
  pub proof : JsonFields
  pub is_json : parse_json raw ≡ some (obj fs)
  pub has_id : number_of (get "auctionId" fs) ≡ integer (pos id)
  pub has_winner : number_of (get "winnerIndex" fs) ≡ integer (pos winner)
  pub has_price : big_of (get "winningPrice" fs) ≡ some (pos (suc price))
  pub has_address : get "winnerAddress" fs ≡ some (text address)
  pub valid : is_account address ≡ true
  pub has_proof : get "proof" fs ≡ some (obj proof)
  pub has_a : get "a" proof ≡ some (text arg.a)
  pub has_b : get "b" proof ≡ some (text arg.b)
  pub has_c : get "c" proof ≡ some (text arg.c)

build_proof_arg-IsProof :
    (big : String → Option ℤ) (json : JsonFields) (arg : ProofArg)
    → build_proof_arg big json ≡ ok arg
    → (bytes : ProofBytes) × (hex_to_bytes_of 128 arg.a ≡ some bytes.a)
      × (hex_to_bytes_of 256 arg.b ≡ some bytes.b)
      × (hex_to_bytes_of 128 arg.c ≡ some bytes.c)
      × IsProof big json bytes
unfolding build_proof_arg
build_proof_arg-IsProof big json arg h =
    let r0 = passes (is_groth16 json) _ _ h in
    let (a, h1, r1) = and_then-eq-ok (pack_g1 big (get "pi_a" json)) _ r0 in
    let (b, h2, r2) = and_then-eq-ok (pack_g2 big (get "pi_b" json)) _ r1 in
    let (c, h3, r3) = and_then-eq-ok (pack_g1 big (get "pi_c" json)) _ r2 in
    let (a_bytes, a_read, a_point) = pack_g1-IsPoint1 big _ a h1 in
    let (b_bytes, b_read, b_point) = pack_g2-IsPoint2 big _ b h2 in
    let (c_bytes, c_read, c_point) = pack_g1-IsPoint1 big _ c h3 in
    let made = arg_inj r3 in
    (
      record { a = a_bytes; b = b_bytes; c = c_bytes },
      ap (λ p. hex_to_bytes_of 128 p.a) made ∙ a_read,
      ap (λ p. hex_to_bytes_of 256 p.b) made ∙ b_read,
      ap (λ p. hex_to_bytes_of 128 p.c) made ∙ c_read,
      record { a = a_point; b = b_point; c = c_point },
    )
  where
    arg_inj : {x y : ProofArg} → ◌≡◌ {A = Result ProofArg String} (ok x) (ok y) → y ≡ x
    arg_inj e = cc

same_number : (n : ℕ) → eqbℤ (pos n) (pos n) ≡ true
same_number n = ground arith

positive_price : (n : ℕ) → ltbℤ (pos 0) (pos (suc n)) ≡ true
positive_price n = ground arith

field_read :
    (n : ℕ) (name : String) (fs : JsonFields) (s : String) (bytes : List ℕ)
    → get name fs ≡ some (text s)
    → hex_to_bytes_of n s ≡ some bytes
    → proof_field n name fs ≡ some bytes
unfolding proof_field
field_read n name fs s bytes h k = rw (h, proof_field) k

-- A proof that the command-line tool packs is the proof that the page reads from a bundle with the packed
-- texts: the bundle is accepted for its auction, with its winner, price and address, and its bytes hold the
-- coordinates of the proof's three points, those of the second group with their limbs exchanged.
pub parse_settle_bundle-build_proof_arg :
    (big : String → Option ℤ) (parse_json : String → Option Value)
    (number_of : Option Value → JsNumber) (big_of : Option Value → Option ℤ)
    (is_account : String → Bool) (json : JsonFields) (arg : ProofArg) (raw : String)
    (id winner price : ℕ) (address : String)
    → build_proof_arg big json ≡ ok arg
    → IsBundleText parse_json number_of big_of is_account raw id winner price address arg
    → (bytes : ProofBytes) × (parse_settle_bundle parse_json number_of big_of is_account raw
          (pos id)
        ≡ ok (record {
          auction_id = pos id;
          winner_index = winner;
          winning_price = pos (suc price);
          winner_address = address;
          proof = bytes;
        }))
      × IsProof big json bytes
unfolding parse_settle_bundle parse_outcome
parse_settle_bundle-build_proof_arg big parse_json number_of big_of is_account json arg raw id
      winner price address packed t =
    let (bytes, a, b, c, is_proof) = build_proof_arg-IsProof big json arg packed in
    (
      bytes,
      rw
          (
            t.is_json,
            t.has_id,
            same_number id,
            t.has_winner,
            t.has_address,
            t.valid,
            t.has_price,
            positive_price price,
            t.has_proof,
            field_read 128 "a" t.proof arg.a bytes.a t.has_a a,
            field_read 256 "b" t.proof arg.b bytes.b t.has_b b,
            field_read 128 "c" t.proof arg.c bytes.c t.has_c c,
          )
          refl,
      is_proof,
    )
