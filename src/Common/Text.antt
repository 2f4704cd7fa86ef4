-- ===== src/Common/Text.antt =====
-- The operations on texts that the sources use, over native strings.
pub mod Trimmed
use Prim.Native.Nat.{ℕ, ◌+◌}
use Prim.Native.Char.{Char, code}
use Prim.Native.String.{String}
use mathlib.Core.Path.{◌≡◌, refl}
use mathlib.Core.Bool.{Bool, true, false, ◌&&◌, ◌||◌}
use mathlib.Core.List.{List, [], ◌∷◌}
use sealedstellar.Common.Tests.{leb, ltb, ◌==◌, if◌then◌else◌}

-- `text.length`: UTF-16 units, so a code point past the first plane counts twice.
abbrev pub utf16_length : String → ℕ
utf16_length String.[] = 0
utf16_length (String.◌∷◌ c s) = (if ltb (code c) 0x10000 then 1 else 2) + utf16_length s

-- The white space and line ends that `trim` removes.
unfoldable pub is_space : ℕ → Bool
is_space c =
    (leb 9 c && leb c 13)
    || c == 32
    || c == 160
    || c == 5760
    || (leb 8192 c && leb c 8202)
    || c == 8232
    || c == 8233
    || c == 8239
    || c == 8287
    || c == 12288
    || c == 65279

unfoldable pub trim_start : String → String
unfolding is_space
trim_start String.[] = ""
trim_start (String.◌∷◌ c s) = if is_space (code c) then trim_start s else String.◌∷◌ c s

unfoldable pub trim_end_step : Char → String → String
unfolding is_space
trim_end_step c String.[] = if is_space (code c) then "" else String.◌∷◌ c ""
trim_end_step c (String.◌∷◌ d s) = String.◌∷◌ c (String.◌∷◌ d s)

unfoldable pub trim_end : String → String
unfolding trim_end_step
trim_end String.[] = ""
trim_end (String.◌∷◌ c s) = trim_end_step c (trim_end s)

-- `text.trim()`
unfoldable pub trim : String → String
unfolding trim_start trim_end
trim s = trim_end (trim_start s)

-- `text.startsWith(q)` and `text.includes(q)`
unfoldable pub starts_with : String → String → Bool
starts_with String.[] s = true
starts_with (String.◌∷◌ d q) String.[] = false
starts_with (String.◌∷◌ d q) (String.◌∷◌ c s) = code d == code c && starts_with q s

unfoldable pub includes : String → String → Bool
unfolding starts_with
includes q String.[] = starts_with q ""
includes q (String.◌∷◌ c s) = starts_with q (String.◌∷◌ c s) || includes q s

trim_runs : trim "  a b \n" ≡ "a b"
unfolding trim
trim_runs = refl

includes_runs : includes "bc" "abcd" ≡ true
unfolding includes
includes_runs = refl

-- The pieces of a template: `${a}:${b}` is `append a (append ":" b)`.
unfoldable pub append : String → String → String
append String.[] t = t
append (String.◌∷◌ c s) t = String.◌∷◌ c (append s t)

abbrev on_first : (String → String) → List String → List String
on_first f [] = []
on_first f (p ∷ ps) = f p ∷ ps

-- `text.split(separator)` at a separator of one character
unfoldable pub split : ℕ → String → List String
split sep String.[] = "" ∷ []
split sep (String.◌∷◌ c s) =
    if code c == sep then "" ∷ split sep s else on_first (String.◌∷◌ c) (split sep s)

-- The character does not occur in the text.
abbrev pub Lacks : ℕ → String → Type 0
Lacks sep String.[] = Unit {0}
Lacks sep (String.◌∷◌ c s) = ((code c == sep) ≡ false) × Lacks sep s

pub split-Lacks : (sep : ℕ) (s : String) → Lacks sep s → split sep s ≡ s ∷ []
unfolding split
split-Lacks sep String.[] h = refl
split-Lacks sep (String.◌∷◌ c s) h = rw (h.0, split-Lacks sep s h.1)

-- A text of two parts splits into them.
pub split-append :
    (sep : ℕ) (c : Char) (s t : String)
    → (code c == sep) ≡ true
    → Lacks sep s
    → Lacks sep t
    → split sep (append s (String.◌∷◌ c t)) ≡ s ∷ t ∷ []
unfolding split append
split-append sep c String.[] t e h k = rw (e, split-Lacks sep t k)
split-append sep c (String.◌∷◌ d s) t e h k = rw (h.0, split-append sep c s t e h.1 k)
