-- ===== src/Web/Errors/Code.antt =====
-- web/src/lib/errors.ts, `parseContractErrorCode`: what the pattern reads from an error's text.
use Prim.Native.Char.{Char, code}
use sealedstellar.Common.{
  ℕ, ◌+◌, ◌-◌, ◌*◌, ◌≡◌, refl, ap, ◌∙◌, true, false, String, none, some, arith, ◌==◌, if◌then◌else◌,
  ◌>>=◌,
}
use sealedstellar.Common.Text.{append, Lacks}
use sealedstellar.Web.Errors.{
  opening, strip, is_digit, read_digits, read_code, match_here, parse_contract_error_code,
}

-- The number that a text of digits stands for, after the digits of `n`.
abbrev pub decimal : ℕ → String → ℕ
decimal n String.[] = n
decimal n (String.◌∷◌ c s) = decimal (n * 10 + (code c - b'0')) s

abbrev pub AreDigits : String → Type 0
AreDigits String.[] = Unit {0}
AreDigits (String.◌∷◌ c s) = (is_digit (code c) ≡ true) × AreDigits s

strip-append : (p s : String) → strip p (append p s) ≡ some s
unfolding strip append
strip-append String.[] s = refl
strip-append (String.◌∷◌ c p) s = ground (arith, strip-append p s)

read_digits-append :
    (n : ℕ) (ds rest : String)
    → AreDigits ds
    → read_digits n (append ds (String.◌∷◌ ")" rest)) ≡ some (decimal n ds)
unfolding read_digits append
read_digits-append n String.[] rest h = refl
read_digits-append n (String.◌∷◌ c ds) rest (d, h) =
    rw (d, if◌then◌else◌) (read_digits-append (n * 10 + (code c - b'0')) ds rest h)

match_here-opening :
    (c : Char) (ds rest : String)
    → AreDigits (String.◌∷◌ c ds)
    → match_here (append opening (String.◌∷◌ c (append ds (String.◌∷◌ ")" rest))))
      ≡ some (decimal 0 (String.◌∷◌ c ds))
unfolding match_here read_code
match_here-opening c ds rest (d, h) =
    rw
      (
        strip-append opening (String.◌∷◌ c (append ds (String.◌∷◌ ")" rest))),
        d,
        ◌>>=◌,
        if◌then◌else◌,
      )
      (read_digits-append (code c - b'0') ds rest h ∙ ap (λ n. some (decimal n ds)) (omega arith))

parse-here : (s : String) (n : ℕ) → match_here s ≡ some n → parse_contract_error_code s ≡ some n
unfolding parse_contract_error_code
parse-here String.[] n h = h
parse-here (String.◌∷◌ c s) n h = rw (h, parse_contract_error_code) refl

match_here-other :
    (c : Char) (s : String) → (code c == b'E') ≡ false → match_here (String.◌∷◌ c s) ≡ none
unfolding match_here strip
match_here-other c s h = ground arith

-- The code that the host writes as `Error(Contract, #`, one or more decimal digits and `)` is read
-- from the text around it, if no capital E stands before it.
pub parse_contract_error_code-reads :
    (front : String) (c : Char) (ds rest : String)
    → Lacks b'E' front
    → AreDigits (String.◌∷◌ c ds)
    → parse_contract_error_code
        (append front (append opening (String.◌∷◌ c (append ds (String.◌∷◌ ")" rest)))))
      ≡ some (decimal 0 (String.◌∷◌ c ds))
unfolding parse_contract_error_code append
parse_contract_error_code-reads String.[] c ds rest l d =
    parse-here _ _ (match_here-opening c ds rest d)
parse_contract_error_code-reads (String.◌∷◌ f front) c ds rest (e, l) d =
    rw
      (
        match_here-other f
            (append front (append opening (String.◌∷◌ c (append ds (String.◌∷◌ ")" rest))))) e,
        parse_contract_error_code,
      )
      (parse_contract_error_code-reads front c ds rest l d)
