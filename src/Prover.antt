-- ===== src/Prover.antt =====
-- prover/format-args.js: the texts that the verifier's arguments are made of. A file is its JSON value;
-- `big` is `BigInt(text)`, none where it throws; the reasons of a refusal are left out of the labels.
pub mod Hex
pub mod Fields
pub mod Pasted
use sealedstellar.Common.{
  ℕ, zero, suc, ◌+◌, Bool, true, false, not, ◌&&◌, ◌||◌, String, List, [], ◌∷◌, Option, none, some,
  ◌>>=◌, str_eq, ltb, ◌==◌, if◌then◌else◌, length, get_elem?, Result, ok, err, and_then,
}
use sealedstellar.Common.Int.{ℤ, pos, negsuc}
use sealedstellar.Common.Text.{append}
use sealedstellar.Indexer.Value.{
  Value, text, arr, items, obj, Fields as JsonFields, get, as_text, as_items,
}
use sealedstellar.Prover.Hex.{to_big_endian_hex32}

abbrev pub bn254_base_field_modulus : ℕ
bn254_base_field_modulus =
    21888242871839275222246405745257275088696311157297823662689037894645226208583

abbrev pub bn254_scalar_field_modulus : ℕ
bn254_scalar_field_modulus =
    21888242871839275222246405745257275088548364400416034343698204186575808495617

-- The character at a place of a text, as a text. (Characters stand for code units.)
abbrev pub char_at : String → ℕ → Option Value
char_at String.[] i = none
char_at (String.◌∷◌ c s) zero = some (text (String.◌∷◌ c ""))
char_at (String.◌∷◌ c s) (suc i) = char_at s i

-- `coordinates[i]` of a JSON array or text; none is `undefined`. A value that cannot be indexed gives none, and
-- then a refusal, where the source throws.
abbrev pub at : Option Value → ℕ → Option Value
at (some (arr vs)) i = get_elem? (items vs) i
at (some (text s)) i = char_at s i
at _ i = none

-- The same of an array only: `Array.isArray(v)` and `v[i]`.
abbrev pub item_at : Option Value → ℕ → Option Value
item_at (some (arr vs)) i = get_elem? (items vs) i
item_at _ i = none

abbrev pub is_text : String → Option Value → Bool
is_text s v = elim (as_text v) [ none ↦ false | some t ↦ str_eq t s ]

abbrev pub shorter_than : ℕ → Option Value → Bool
shorter_than n v = elim (as_items v) [ none ↦ true | some vs ↦ ltb (length vs) n ]

abbrev pub require : Bool → String → Result (Unit {0}) String
require b reason = if b then ok tt else err reason

-- An integer that is not negative and below the modulus.
abbrev pub below : ℕ → Option ℤ → Result ℕ String
below modulus none = err "not a decimal integer"
below modulus (some (negsuc n)) = err "negative value rejected"
below modulus (some (pos n)) =
    if ltb n modulus then ok n else err "value is not below the field modulus"

pub record ProofArg : Type 0 where
  pub a : String
  pub b : String
  pub c : String

pub record VerificationKeyArg : Type 0 where
  pub alpha : String
  pub beta : String
  pub gamma : String
  pub delta : String
  pub ic : List String

abbrev pub is_groth16 : JsonFields → Bool
is_groth16 json = is_text "groth16" (get "protocol" json) && is_text "bn128" (get "curve" json)

module _ (big : String → Option ℤ) where
  abbrev pub parse_text : ℕ → Option String → Result ℕ String
  parse_text modulus none = err "missing decimal string"
  parse_text modulus (some s) =
      if str_eq s "" then err "missing decimal string" else below modulus (big s)

  -- `parseFieldElement`
  unfoldable pub parse_field_element : ℕ → Option Value → Result ℕ String
  parse_field_element modulus v = parse_text modulus (as_text v)

  -- `packG1`
  unfoldable pub pack_g1 : Option Value → Result String String
  pack_g1 coordinates =
      and_then (require (not (shorter_than 2 coordinates)) "expected [x, y, z] decimal array") (λ _.
        and_then
          (require (shorter_than 3 coordinates || is_text "1" (at coordinates 2))
            "expected affine z == \"1\"")
          (λ _. and_then (parse_field_element bn254_base_field_modulus (at coordinates 0)) (λ x.
            and_then (parse_field_element bn254_base_field_modulus (at coordinates 1))
              (λ y. ok (append (to_big_endian_hex32 x) (to_big_endian_hex32 y))))))

  -- `packG2`: the two limbs of a coordinate change places.
  unfoldable pub pack_g2 : Option Value → Result String String
  pack_g2 coordinates =
      let z : Option Value = at coordinates 2 in
      and_then
        (require (not (shorter_than 2 coordinates))
          "expected [[x_c0, x_c1], [y_c0, y_c1], z] array")
        (λ _.
          and_then
            (require
              (shorter_than 3 coordinates
                || (is_text "1" (item_at z 0) && is_text "0" (item_at z 1)))
              "expected affine z == [\"1\", \"0\"]")
            (λ _.
              and_then (parse_field_element bn254_base_field_modulus (at (at coordinates 0) 0))
                (λ x_c0.
                  and_then (parse_field_element bn254_base_field_modulus (at (at coordinates 0) 1))
                    (λ x_c1.
                      and_then
                        (parse_field_element bn254_base_field_modulus (at (at coordinates 1) 0))
                        (λ y_c0.
                          and_then
                            (parse_field_element bn254_base_field_modulus (at (at coordinates 1) 1))
                            (λ y_c1. ok (
                              append (to_big_endian_hex32 x_c1) (
                                append (to_big_endian_hex32 x_c0) (
                                  append (to_big_endian_hex32 y_c1)
                                    (to_big_endian_hex32 y_c0))))))))))

  -- `buildProofArg`
  unfoldable pub build_proof_arg : JsonFields → Result ProofArg String
  build_proof_arg json =
      and_then (require (is_groth16 json) "proof: expected protocol groth16 over bn128") (λ _.
        and_then (pack_g1 (get "pi_a" json)) (λ a.
          and_then (pack_g2 (get "pi_b" json))
            (λ b. and_then (pack_g1 (get "pi_c" json)) (λ c. ok (record { a = a; b = b; c = c })))))

  -- The loop over the entries of IC.
  unfoldable pub pack_all_g1 : List Value → Result (List String) String
  pack_all_g1 [] = ok []
  pack_all_g1 (v ∷ vs) =
      and_then (pack_g1 (some v)) (λ hex. and_then (pack_all_g1 vs) (λ hexes. ok (hex ∷ hexes)))

  abbrev pub some_ic : Option (List Value) → Result (List Value) String
  some_ic none = err "vkey: IC array missing or empty"
  some_ic (some []) = err "vkey: IC array missing or empty"
  some_ic (some (v ∷ vs)) = ok (v ∷ vs)

  -- `buildVerificationKeyArg`
  unfoldable pub build_verification_key_arg : JsonFields → Result VerificationKeyArg String
  build_verification_key_arg json =
      and_then (require (is_groth16 json) "vkey: expected protocol groth16 over bn128") (λ _.
        and_then (pack_g1 (get "vk_alpha_1" json)) (λ alpha.
          and_then (pack_g2 (get "vk_beta_2" json)) (λ beta.
            and_then (pack_g2 (get "vk_gamma_2" json)) (λ gamma.
              and_then (pack_g2 (get "vk_delta_2" json)) (λ delta.
                and_then (some_ic (as_items (get "IC" json))) (λ entries.
                  and_then (pack_all_g1 entries) (λ ic. ok (record {
                    alpha = alpha;
                    beta = beta;
                    gamma = gamma;
                    delta = delta;
                    ic = ic;
                  }))))))))

  abbrev pub text_or_empty : Option String → String
  text_or_empty none = ""
  text_or_empty (some s) = s

  -- The loop over the signals: a text that passes is kept as it is.
  unfoldable pub check_signals : List Value → Result (List String) String
  check_signals [] = ok []
  check_signals (v ∷ vs) = and_then (parse_field_element bn254_scalar_field_modulus (some v)) (λ _.
      and_then (check_signals vs) (λ signals. ok (text_or_empty (as_text (some v)) ∷ signals)))

  -- `buildPubSignalsArg`
  unfoldable pub build_pub_signals_arg : Value → Result (List String) String
  build_pub_signals_arg json = elim (as_items (some json)) [
    | none ↦ err "public.json: expected an array of decimal strings"
    | some vs ↦ check_signals vs
  ]
