-- ===== src/Indexer/Runtime.antt =====
-- What indexer/src takes from the JavaScript runtime, Node, the Stellar SDK and SQLite.
use sealedstellar.Common.{List, ℕ, ◌<◌, ◌^◌, ◌≡◌, Bool, false, not, String, Option, some}
use sealedstellar.Common.Int.{ℤ, pos, ltbℤ, eqbℤ}
use sealedstellar.Common.Text.{Lacks}

-- A `number`: an integer, a fraction between an integer and its successor, or NaN and the infinities.
pub data JsNumber : Type 0 where
  integer : ℤ → JsNumber
  fraction : ℤ → JsNumber
  not_finite : JsNumber

-- `n < x`, `n > x` and `n = x` at an integer column `n`
abbrev pub is_below : ℕ → JsNumber → Bool
is_below n (integer z) = ltbℤ (pos n) z
is_below n (fraction z) = not (ltbℤ z (pos n))
is_below n not_finite = false

abbrev pub is_above : ℕ → JsNumber → Bool
is_above n (integer z) = ltbℤ z (pos n)
is_above n (fraction z) = ltbℤ z (pos n)
is_above n not_finite = false

abbrev pub is_equal : ℕ → JsNumber → Bool
is_equal n (integer z) = eqbℤ (pos n) z
is_equal n (fraction z) = false
is_equal n not_finite = false

-- `to_text` is `${x}`; `number` is `Number(text)`; `of_base64url` is none where it throws;
-- `is_account` is `StrKey.isValidEd25519PublicKey`; `like pattern text` is `text LIKE pattern` of SQLite, at
-- code points.
pub record Runtime : Type 0 where
  pub to_text : JsNumber → String
  pub number : String → JsNumber
  pub to_lower : String → String
  pub to_base64url : String → String
  pub of_base64url : String → Option String
  pub is_account : String → Bool
  pub like : List ℕ → List ℕ → Bool

-- Documented behaviour: a safe natural number is printed in digits and read back, and base64url
-- decodes what it encoded.
pub record IsRuntime (rt : Runtime) : Type 0 where
  pub number-to_text :
      (n : ℕ) → n < 2 ^ 53 → rt.number (rt.to_text (integer (pos n))) ≡ integer (pos n)
  pub to_text-Lacks : (n : ℕ) → n < 2 ^ 53 → Lacks b':' (rt.to_text (integer (pos n)))
  pub of-to_base64url : (s : String) → rt.of_base64url (rt.to_base64url s) ≡ some s
