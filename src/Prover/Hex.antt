-- ===== src/Prover/Hex.antt =====
-- prover/format-args.js and web/src/lib/operator.ts, `toBigEndianHex32`: a number as 64 hexadecimal digits.
use Prim.Native.Char.{Char, code}
use native.Mathlib.Nat.{pow-succ'}
use sealedstellar.Common.{
  ℕ, zero, suc, some, ◌+◌, ◌*◌, ◌/◌, ◌%◌, ◌^◌, ◌<◌, ◌≡◌, refl, ap, ◌∙◌, true, String, List, ◌∷◌,
  ◌++◌, arith, length,
}
use sealedstellar.Common.Text.{append}
use sealedstellar.Web.Reveal.{hex_value, is_hex_text, hex_to_bytes, read_big_endian}

-- The digit of a number below 16.
abbrev pub digit : ℕ → Char
digit zero = "0"
digit (suc zero) = "1"
digit (suc (suc zero)) = "2"
digit (suc (suc (suc zero))) = "3"
digit (suc (suc (suc (suc zero)))) = "4"
digit (suc (suc (suc (suc (suc zero))))) = "5"
digit (suc (suc (suc (suc (suc (suc zero)))))) = "6"
digit (suc (suc (suc (suc (suc (suc (suc zero))))))) = "7"
digit (suc (suc (suc (suc (suc (suc (suc (suc zero)))))))) = "8"
digit (suc (suc (suc (suc (suc (suc (suc (suc (suc zero))))))))) = "9"
digit (suc (suc (suc (suc (suc (suc (suc (suc (suc (suc zero)))))))))) = "a"
digit (suc (suc (suc (suc (suc (suc (suc (suc (suc (suc (suc zero))))))))))) = "b"
digit (suc (suc (suc (suc (suc (suc (suc (suc (suc (suc (suc (suc zero)))))))))))) = "c"
digit (suc (suc (suc (suc (suc (suc (suc (suc (suc (suc (suc (suc (suc zero))))))))))))) = "d"
digit (suc (suc (suc (suc (suc (suc (suc (suc (suc (suc (suc (suc (suc (suc zero)))))))))))))) = "e"
digit _ = "f"

-- The last digits of a number, before a text.
unfoldable pub digits : ℕ → ℕ → String → String
digits zero v rest = rest
digits (suc width) v rest = digits width (v / 16) (String.◌∷◌ (digit (v % 16)) rest)

-- `value.toString(16).padStart(64, '0')`, of a number below 2^256
unfoldable pub to_big_endian_hex32 : ℕ → String
to_big_endian_hex32 v = digits 64 v ""

hex_value-digit : (d : ℕ) → d < 16 → hex_value (code (digit d)) ≡ some d
hex_value-digit zero h = refl
hex_value-digit (suc zero) h = refl
hex_value-digit (suc (suc zero)) h = refl
hex_value-digit (suc (suc (suc zero))) h = refl
hex_value-digit (suc (suc (suc (suc zero)))) h = refl
hex_value-digit (suc (suc (suc (suc (suc zero))))) h = refl
hex_value-digit (suc (suc (suc (suc (suc (suc zero)))))) h = refl
hex_value-digit (suc (suc (suc (suc (suc (suc (suc zero))))))) h = refl
hex_value-digit (suc (suc (suc (suc (suc (suc (suc (suc zero)))))))) h = refl
hex_value-digit (suc (suc (suc (suc (suc (suc (suc (suc (suc zero))))))))) h = refl
hex_value-digit (suc (suc (suc (suc (suc (suc (suc (suc (suc (suc zero)))))))))) h = refl
hex_value-digit (suc (suc (suc (suc (suc (suc (suc (suc (suc (suc (suc zero))))))))))) h = refl
hex_value-digit (suc (suc (suc (suc (suc (suc (suc (suc (suc (suc (suc (suc zero)))))))))))) h =
    refl
hex_value-digit (suc (suc (suc (suc (suc (suc (suc (suc (suc (suc (suc (suc (suc zero)))))))))))))
      h =
    refl
hex_value-digit
      (suc (suc (suc (suc (suc (suc (suc (suc (suc (suc (suc (suc (suc (suc zero)))))))))))))) h =
    refl
hex_value-digit
      (suc (suc (suc (suc (suc (suc (suc (suc (suc (suc (suc (suc (suc (suc (suc zero)))))))))))))))
      h =
    refl
hex_value-digit
      (suc
        (suc (suc (suc (suc (suc (suc (suc (suc (suc (suc (suc (suc (suc (suc (suc d))))))))))))))))
      h =
    absurd (omega arith)

-- The last bytes of a number, before others.
pub be_bytes : ℕ → ℕ → List ℕ → List ℕ
be_bytes zero v rest = rest
be_bytes (suc n) v rest = be_bytes n (v / 256) (v % 256 ∷ rest)

pub append-digits : (w v : ℕ) (s t : String) → append (digits w v s) t ≡ digits w v (append s t)
unfolding append digits
append-digits zero v s t = refl
append-digits (suc w) v s t = append-digits w (v / 16) (String.◌∷◌ (digit (v % 16)) s) t

digit-IsHex :
    (v m : ℕ) (s : String)
    → is_hex_text m s ≡ true
    → is_hex_text (suc m) (String.◌∷◌ (digit (v % 16)) s) ≡ true
unfolding is_hex_text
digit-IsHex v m s h = rw (hex_value-digit (v % 16) (omega arith)) h

pub is_hex_text-digits :
    (w v m n : ℕ) (s : String)
    → n ≡ w + m
    → is_hex_text m s ≡ true
    → is_hex_text n (digits w v s) ≡ true
unfolding digits
is_hex_text-digits zero v m n s e h = let same : n ≡ m = omega arith in rw same h
is_hex_text-digits (suc w) v m n s e h =
    is_hex_text-digits w (v / 16) (suc m) n (String.◌∷◌ (digit (v % 16)) s) (omega arith)
      (digit-IsHex v m s h)

abbrev pub twice : ℕ → ℕ
twice zero = zero
twice (suc n) = suc (suc (twice n))

byte_of :
    (v : ℕ) (s : String)
    → hex_to_bytes (String.◌∷◌ (digit (v / 16 % 16)) (String.◌∷◌ (digit (v % 16)) s))
      ≡ v % 256 ∷ hex_to_bytes s
unfolding hex_to_bytes
byte_of v s =
    let byte : v / 16 % 16 * 16 + v % 16 ≡ v % 256 = omega arith in
    rw (hex_value-digit (v / 16 % 16) (omega arith), hex_value-digit (v % 16) (omega arith))
      (ap (λ b. b ∷ hex_to_bytes s) byte)

pub hex_to_bytes-digits :
    (n v : ℕ) (s : String) → hex_to_bytes (digits (twice n) v s) ≡ be_bytes n v (hex_to_bytes s)
unfolding digits be_bytes
hex_to_bytes-digits zero v s = refl
hex_to_bytes-digits (suc n) v s =
    let high : v / 16 / 16 ≡ v / 256 = omega arith in
    hex_to_bytes-digits n (v / 16 / 16) _
    ∙ ap (be_bytes n (v / 16 / 16)) (byte_of v s)
    ∙ ap (λ w. be_bytes n w (v % 256 ∷ hex_to_bytes s)) high

moved_in : (a p : ℕ) → a * (256 * p) ≡ 256 * (a * p)
moved_in a p = grind arith

pub read_big_endian-be_bytes :
    (n v acc : ℕ) (rest : List ℕ)
    → v < 256 ^ n
    → read_big_endian acc (be_bytes n v rest) ≡ read_big_endian (acc * 256 ^ n + v) rest
unfolding read_big_endian be_bytes
read_big_endian-be_bytes zero v acc rest h = ap (λ a. read_big_endian a rest) (omega arith)
read_big_endian-be_bytes (suc n) v acc rest h =
    let p = pow-succ' 256 n in
    let shifted = moved_in acc (256 ^ n) in
    let total : (acc * 256 ^ n + v / 256) * 256 + v % 256 ≡ acc * 256 ^ suc n + v =
      rw p (omega (arith, shifted)) in
    read_big_endian-be_bytes n (v / 256) acc (v % 256 ∷ rest) (omega (arith, h, p))
    ∙ ap (λ a. read_big_endian a rest) total

pub be_bytes-append : (n v : ℕ) (xs ys : List ℕ) → be_bytes n v (xs ++ ys) ≡ be_bytes n v xs ++ ys
unfolding be_bytes
be_bytes-append zero v xs ys = refl
be_bytes-append (suc n) v xs ys = be_bytes-append n (v / 256) (v % 256 ∷ xs) ys

pub length-be_bytes : (n v : ℕ) (xs : List ℕ) → length (be_bytes n v xs) ≡ n + length xs
unfolding be_bytes
length-be_bytes zero v xs = omega arith
length-be_bytes (suc n) v xs =
    let e = length-be_bytes n (v / 256) (v % 256 ∷ xs) in omega (arith, e)
