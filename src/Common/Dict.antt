-- ===== src/Common/Dict.antt =====
-- A `Map` under text keys, as an association list.
use mathlib.Core.Path.{◌≡◌, refl}
use mathlib.Core.List.{List, [], ◌∷◌}
use mathlib.Core.Option.{Option, none, some}
use Prim.Native.String.{String}
use native.Mathlib.Omega.{arith}
use text.Mathlib.Text.{◌==◌ as str_eq}
use text.Mathlib.TextEquality.{eq_iff}
use sealedstellar.Common.Tests.{if◌then◌else◌}

abbrev pub Dict {ℓ} : Type ℓ → Type ℓ
Dict V = List (String × V)

module _ {ℓ} {V : Type ℓ} where
  unfoldable pub lookup : String → Dict V → Option V
  lookup name [] = none
  lookup name ((key, value) ∷ others) = if str_eq key name then some value else lookup name others

  -- The value of a key is replaced where the key stands; a new key comes last.
  unfoldable pub insert : String → V → Dict V → Dict V
  insert name new [] = (name, new) ∷ []
  insert name new ((key, value) ∷ others) =
      if str_eq key name then (name, new) ∷ others else (key, value) ∷ insert name new others

  pub lookup-insert :
      (name other : String) (new : V) (dict : Dict V)
      → lookup other (insert name new dict)
        ≡ (if str_eq name other then some new else lookup other dict)
  unfolding insert lookup
  lookup-insert name other new [] = refl
  lookup-insert name other new ((key, value) ∷ others) =
      let later = lookup-insert name other new others in
      ground (arith, eq_iff name other, eq_iff key name, eq_iff key other, later)

  pub lookup-insert_self :
      (name : String) (new : V) (dict : Dict V) → lookup name (insert name new dict) ≡ some new
  lookup-insert_self name new dict =
      ground (arith, lookup-insert name name new dict, eq_iff name name)
