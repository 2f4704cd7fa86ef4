-- ===== src/Common/Text/Trimmed.antt =====
-- `text.trim()`: trimming again changes nothing.
use Prim.Native.Char.{Char, code}
use Prim.Native.String.{String}
use mathlib.Core.Path.{◌≡◌, refl, ap, ◌∙◌}
use mathlib.Core.Bool.{false}
use mathlib.Core.Logic.{inl, inr}
use sealedstellar.Common.Tests.{Bool-cases}
use sealedstellar.Common.Text.{is_space, trim_start, trim_end, trim_end_step, trim}

-- The text is empty or begins with something else than a space.
StartsFirm : String → Type 0
StartsFirm String.[] = Unit
StartsFirm (String.◌∷◌ c s) = is_space (code c) ≡ false

trim_start-StartsFirm : (s : String) → StartsFirm (trim_start s)
unfolding trim_start StartsFirm
trim_start-StartsFirm String.[] = tt
trim_start-StartsFirm (String.◌∷◌ c s) = elim (Bool-cases (is_space (code c))) [
  | inl space ↦ rw space (trim_start-StartsFirm s)
  | inr firm ↦ rw firm firm
]

trim_start-firm : (s : String) → StartsFirm s → trim_start s ≡ s
unfolding trim_start StartsFirm
trim_start-firm String.[] h = refl
trim_start-firm (String.◌∷◌ c s) h = rw h refl

trim_end_step-firm :
    (c : Char) (s : String) → is_space (code c) ≡ false → StartsFirm (trim_end_step c s)
unfolding trim_end_step StartsFirm
trim_end_step-firm c String.[] h = rw h h
trim_end_step-firm c (String.◌∷◌ d s) h = h

trim_end-StartsFirm : (s : String) → StartsFirm s → StartsFirm (trim_end s)
unfolding trim_end StartsFirm
trim_end-StartsFirm String.[] h = tt
trim_end-StartsFirm (String.◌∷◌ c s) h = trim_end_step-firm c (trim_end s) h

trim_end_step-again :
    (c : Char) (t : String) → trim_end t ≡ t → trim_end (trim_end_step c t) ≡ trim_end_step c t
unfolding trim_end trim_end_step
trim_end_step-again c String.[] h = elim (Bool-cases (is_space (code c))) [
  | inl space ↦ rw space refl
  | inr firm ↦ rw firm (rw firm refl)
]
trim_end_step-again c (String.◌∷◌ d s) h = ap (trim_end_step c) h

trim_end-again : (s : String) → trim_end (trim_end s) ≡ trim_end s
unfolding trim_end
trim_end-again String.[] = refl
trim_end-again (String.◌∷◌ c s) = trim_end_step-again c (trim_end s) (trim_end-again s)

pub trim-trim : (s : String) → trim (trim s) ≡ trim s
unfolding trim
trim-trim s =
    ap trim_end
      (trim_start-firm (trim_end (trim_start s)) (trim_end-StartsFirm _ (trim_start-StartsFirm s)))
    ∙ trim_end-again (trim_start s)
