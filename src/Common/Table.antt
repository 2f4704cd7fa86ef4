-- ===== src/Common/Table.antt =====
-- A map under numbers, as an association list: the storage of a contract, and caches by id.
use Prim.Native.Nat.{ℕ}
use mathlib.Core.Path.{◌≡◌, refl, ◌∙◌}
use mathlib.Core.Bool.{true}
use mathlib.Core.List.{List, [], ◌∷◌}
use mathlib.Core.Option.{Option, none, some}
use native.Mathlib.Omega.{arith}
use sealedstellar.Common.Tests.{◌==◌, if◌then◌else◌}

abbrev pub Table {ℓ} : Type ℓ → Type ℓ
Table V = List (ℕ × V)

module _ {ℓ} {V : Type ℓ} where
  unfoldable pub get_at : ℕ → Table V → Option V
  get_at id [] = none
  get_at id ((key, value) ∷ more) = if key == id then some value else get_at id more

  unfoldable pub put_at : ℕ → V → Table V → Table V
  put_at id v [] = (id, v) ∷ []
  put_at id v ((key, value) ∷ more) =
      if key == id then (key, v) ∷ more else (key, value) ∷ put_at id v more

  pub get_at-put_at :
      (id other : ℕ) (v : V) (t : Table V)
      → get_at other (put_at id v t) ≡ (if id == other then some v else get_at other t)
  unfolding get_at put_at
  get_at-put_at id other v [] = refl
  get_at-put_at id other v ((key, value) ∷ more) =
      let rest = get_at-put_at id other v more in ground (arith, rest)

  pub get_at-put_at_same : (id : ℕ) (v : V) (t : Table V) → get_at id (put_at id v t) ≡ some v
  get_at-put_at_same id v t =
      let here : id == id ≡ true = ground arith in get_at-put_at id id v t ∙ rw here refl
