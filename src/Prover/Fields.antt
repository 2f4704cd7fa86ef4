-- ===== src/Prover/Fields.antt =====
-- prover/format-args.js and `hexToBytes` of web/src/lib/transactions.ts: a packed point is read back.
use sealedstellar.Common.{
  ℕ, zero, suc, ◌+◌, ◌<◌, ◌^◌, ◌≡◌, refl, sym, ap, ◌∙◌, Bool, true, false, not, ◌&&◌, ◌||◌, String,
  List, [], ◌∷◌, ◌++◌, Option, none, some, str_eq, ltb, Result, ok, and_then, and_then-eq-ok,
  length, take, drop, arith, Bool-cases, inl, inr, All, ◌*◌,
}
use sealedstellar.Common.Int.{ℤ, pos, negsuc}
use sealedstellar.Common.Text.{append}
use sealedstellar.Indexer.Value.{Value, as_text}
use sealedstellar.Web.Reveal.{is_hex_text, hex_to_bytes, read_big_endian}
use sealedstellar.Web.Bundle.{hex_to_bytes_of}
use sealedstellar.Prover.Hex.{
  digits, to_big_endian_hex32, be_bytes, append-digits, is_hex_text-digits, hex_to_bytes-digits,
  read_big_endian-be_bytes, be_bytes-append, length-be_bytes,
}
use sealedstellar.Prover.{
  require, shorter_than, is_text, bn254_base_field_modulus, at, item_at, below, parse_text,
  parse_field_element, pack_g1, pack_g2,
}

-- The numbers of 32 bytes each that the bytes hold.
unfoldable pub limbs : ℕ → List ℕ → List ℕ
limbs zero bytes = []
limbs (suc k) bytes = read_big_endian 0 (take 32 bytes) ∷ limbs k (drop 32 bytes)

take-length : (xs ys : List ℕ) (n : ℕ) → length xs ≡ n → take n (xs ++ ys) ≡ xs
take-length [] ys zero e = refl
take-length [] ys (suc n) e = absurd (omega arith)
take-length (x ∷ xs) ys zero e = absurd (omega arith)
take-length (x ∷ xs) ys (suc n) e = ap (◌∷◌ x) (take-length xs ys n (omega arith))

drop-length : (xs ys : List ℕ) (n : ℕ) → length xs ≡ n → drop n (xs ++ ys) ≡ ys
drop-length [] ys zero e = refl
drop-length [] ys (suc n) e = absurd (omega arith)
drop-length (x ∷ xs) ys zero e = absurd (omega arith)
drop-length (x ∷ xs) ys (suc n) e = drop-length xs ys n (omega arith)

alone : (v : ℕ) → read_big_endian (0 * 256 ^ 32 + v) [] ≡ v
unfolding read_big_endian
alone v = omega arith

limbs-be_bytes :
    (k v : ℕ) (rest : List ℕ) → v < 256 ^ 32 → limbs (suc k) (be_bytes 32 v rest) ≡ v ∷ limbs k rest
unfolding limbs
limbs-be_bytes k v rest h =
    let split = be_bytes-append 32 v [] rest in
    let size : length (be_bytes 32 v []) ≡ 32 =
      (let e = length-be_bytes 32 v [] in omega (arith, e)) in
    rw
      (
        split,
        take-length (be_bytes 32 v []) rest 32 size,
        drop-length (be_bytes 32 v []) rest 32 size,
      )
      (ap (λ n. n ∷ limbs k rest) (read_big_endian-be_bytes 32 v 0 [] h ∙ alone v))

-- Numbers as one text of 64 digits each.
packed : List ℕ → String
packed [] = ""
packed (v ∷ vs) = digits 64 v (packed vs)

abbrev Small : List ℕ → Type 0
Small vs = All (λ v. v < 256 ^ 32) vs

no_digits : is_hex_text 0 "" ≡ true
unfolding is_hex_text
no_digits = refl

packed-IsHex : (vs : List ℕ) (n : ℕ) → n ≡ length vs * 64 → is_hex_text n (packed vs) ≡ true
unfolding packed
packed-IsHex [] n e = let none_left : n ≡ 0 = omega arith in rw none_left no_digits
packed-IsHex (v ∷ vs) n e =
    is_hex_text-digits 64 v (length vs * 64) n (packed vs) (omega arith) (packed-IsHex vs _ refl)

limbs-packed : (vs : List ℕ) → Small vs → limbs (length vs) (hex_to_bytes (packed vs)) ≡ vs
unfolding limbs packed
limbs-packed [] h = refl
limbs-packed (v ∷ vs) (small, h) =
    rw (hex_to_bytes-digits 32 v (packed vs)) (
      limbs-be_bytes (length vs) v (hex_to_bytes (packed vs)) small
      ∙ ap (◌∷◌ v) (limbs-packed vs h))

hex_to_bytes_of-packed :
    (vs : List ℕ) (n : ℕ)
    → n ≡ length vs * 64
    → hex_to_bytes_of n (packed vs) ≡ some (hex_to_bytes (packed vs))
unfolding hex_to_bytes_of
hex_to_bytes_of-packed vs n e = rw (packed-IsHex vs n e) refl

text_inj : {s t : String} → ◌≡◌ {A = Result String String} (ok s) (ok t) → s ≡ t
text_inj e = cc

below-lt : (m n : ℕ) (o : Option ℤ) → below m o ≡ ok n → n < m
below-lt m n none h = absurd (cc)
below-lt m n (some (negsuc k)) h = absurd (cc)
below-lt m n (some (pos k)) h = elim (Bool-cases (ltb k m)) [
  | inl small ↦ let e : k ≡ n = number_inj k n (rw small at h) in ground (arith, small, e)
  | inr large ↦ absurd (let e = rw large at h in cc)
]
  where
    number_inj : (a b : ℕ) → ◌≡◌ {A = Result ℕ String} (ok a) (ok b) → a ≡ b
    number_inj a b e = cc

parse_text-lt :
    (big : String → Option ℤ) (m n : ℕ) (o : Option String) → parse_text big m o ≡ ok n → n < m
parse_text-lt big m n none h = absurd (cc)
parse_text-lt big m n (some s) h = elim (Bool-cases (str_eq s "")) [
  | inl blank ↦ absurd (let e = rw blank at h in cc)
  | inr given ↦ below-lt m n (big s) (rw given at h)
]

parse_field_element-lt :
    (big : String → Option ℤ) (n : ℕ) (v : Option Value)
    → parse_field_element big bn254_base_field_modulus v ≡ ok n
    → n < 256 ^ 32
unfolding parse_field_element
parse_field_element-lt big n v h =
    let small = parse_text-lt big bn254_base_field_modulus n (as_text v) h in omega (arith, small)

-- The bytes are those of the coordinates of a point of the first or the second group.
pub record IsPoint1 (big : String → Option ℤ) (v : Option Value) (bytes : List ℕ) : Type 0 where
  pub x : ℕ
  pub y : ℕ
  pub x_read : parse_field_element big bn254_base_field_modulus (at v 0) ≡ ok x
  pub y_read : parse_field_element big bn254_base_field_modulus (at v 1) ≡ ok y
  pub held : limbs 2 bytes ≡ x ∷ y ∷ []

pub record IsPoint2 (big : String → Option ℤ) (v : Option Value) (bytes : List ℕ) : Type 0 where
  pub x_c0 : ℕ
  pub x_c1 : ℕ
  pub y_c0 : ℕ
  pub y_c1 : ℕ
  pub x_c0_read : parse_field_element big bn254_base_field_modulus (at (at v 0) 0) ≡ ok x_c0
  pub x_c1_read : parse_field_element big bn254_base_field_modulus (at (at v 0) 1) ≡ ok x_c1
  pub y_c0_read : parse_field_element big bn254_base_field_modulus (at (at v 1) 0) ≡ ok y_c0
  pub y_c1_read : parse_field_element big bn254_base_field_modulus (at (at v 1) 1) ≡ ok y_c1
  pub held : limbs 4 bytes ≡ x_c1 ∷ x_c0 ∷ y_c1 ∷ y_c0 ∷ []

two_packed :
    (x y : ℕ) → append (to_big_endian_hex32 x) (to_big_endian_hex32 y) ≡ packed (x ∷ y ∷ [])
unfolding to_big_endian_hex32 packed append
two_packed x y = append-digits 64 x "" (digits 64 y "")

four_packed :
    (x y z w : ℕ)
    → append
        (to_big_endian_hex32 x)
        (append (to_big_endian_hex32 y) (append (to_big_endian_hex32 z) (to_big_endian_hex32 w)))
      ≡ packed (x ∷ y ∷ z ∷ w ∷ [])
unfolding to_big_endian_hex32 packed append
four_packed x y z w =
    ap (λ t. append (digits 64 x "") (append (digits 64 y "") t))
      (append-digits 64 z "" (digits 64 w ""))
    ∙ ap (append (digits 64 x "")) (append-digits 64 y "" _)
    ∙ append-digits 64 x "" _

pub passes :
    {A : Type 0} {y : A} (b : Bool) (e : String) (k : Unit {0} → Result A String)
    → and_then (require b e) k ≡ ok y
    → k tt ≡ ok y
passes true e k h = h
passes false e k h = absurd (cc)

module _ (big : String → Option ℤ) where
  pub pack_g1-IsPoint1 :
      (v : Option Value) (hex : String)
      → pack_g1 big v ≡ ok hex
      → (bytes : List ℕ) × (hex_to_bytes_of 128 hex ≡ some bytes) × IsPoint1 big v bytes
  unfolding pack_g1
  pack_g1-IsPoint1 v hex h =
      let r1 = passes (not (shorter_than 2 v)) _ _ h in
      let r2 = passes (shorter_than 3 v || is_text "1" (at v 2)) _ _ r1 in
      let (x, x_read, r3) =
        and_then-eq-ok (parse_field_element big bn254_base_field_modulus (at v 0)) _ r2 in
      let (y, y_read, r4) =
        and_then-eq-ok (parse_field_element big bn254_base_field_modulus (at v 1)) _ r3 in
      let made : hex ≡ packed (x ∷ y ∷ []) = sym (text_inj r4) ∙ two_packed x y in
      let small : Small (x ∷ y ∷ []) = (
        parse_field_element-lt big x (at v 0) x_read,
        (parse_field_element-lt big y (at v 1) y_read, tt),
      ) in
      (
        hex_to_bytes (packed (x ∷ y ∷ [])),
        ap (hex_to_bytes_of 128) made ∙ hex_to_bytes_of-packed (x ∷ y ∷ []) 128 refl,
        record {
          x = x;
          y = y;
          x_read = x_read;
          y_read = y_read;
          held = limbs-packed (x ∷ y ∷ []) small;
        },
      )

  pub pack_g2-IsPoint2 :
      (v : Option Value) (hex : String)
      → pack_g2 big v ≡ ok hex
      → (bytes : List ℕ) × (hex_to_bytes_of 256 hex ≡ some bytes) × IsPoint2 big v bytes
  unfolding pack_g2
  pack_g2-IsPoint2 v hex h =
      let r1 = passes (not (shorter_than 2 v)) _ _ h in
      let r2 =
        passes
          (shorter_than 3 v
            || (is_text "1" (item_at (at v 2) 0) && is_text "0" (item_at (at v 2) 1)))
          _ _ r1 in
      let (x0, x0_read, r3) =
        and_then-eq-ok (parse_field_element big bn254_base_field_modulus (at (at v 0) 0)) _ r2 in
      let (x1, x1_read, r4) =
        and_then-eq-ok (parse_field_element big bn254_base_field_modulus (at (at v 0) 1)) _ r3 in
      let (y0, y0_read, r5) =
        and_then-eq-ok (parse_field_element big bn254_base_field_modulus (at (at v 1) 0)) _ r4 in
      let (y1, y1_read, r6) =
        and_then-eq-ok (parse_field_element big bn254_base_field_modulus (at (at v 1) 1)) _ r5 in
      let made : hex ≡ packed (x1 ∷ x0 ∷ y1 ∷ y0 ∷ []) =
        sym (text_inj r6) ∙ four_packed x1 x0 y1 y0 in
      let small : Small (x1 ∷ x0 ∷ y1 ∷ y0 ∷ []) = (
        parse_field_element-lt big x1 _ x1_read,
        (
          parse_field_element-lt big x0 _ x0_read,
          (parse_field_element-lt big y1 _ y1_read, (parse_field_element-lt big y0 _ y0_read, tt)),
        ),
      ) in
      (
        hex_to_bytes (packed (x1 ∷ x0 ∷ y1 ∷ y0 ∷ [])),
        ap (hex_to_bytes_of 256) made ∙ hex_to_bytes_of-packed (x1 ∷ x0 ∷ y1 ∷ y0 ∷ []) 256 refl,
        record {
          x_c0 = x0;
          x_c1 = x1;
          y_c0 = y0;
          y_c1 = y1;
          x_c0_read = x0_read;
          x_c1_read = x1_read;
          y_c0_read = y0_read;
          y_c1_read = y1_read;
          held = limbs-packed (x1 ∷ x0 ∷ y1 ∷ y0 ∷ []) small;
        },
      )
