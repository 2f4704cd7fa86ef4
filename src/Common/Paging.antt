-- ===== src/Common/Paging.antt =====
-- Keyset pages of a sorted list: what lies after a row is the rest of the list.
use sealedstellar.Common.Tests.{Bool-cases, ltb}
use sealedstellar.Common.Lists.{All, keep, take, drop, length, last?, keep-all, All_middle}
use sealedstellar.Common.Sorting.{IsOrder, Sorted, Pairwise}
use Prim.Native.Nat.{ℕ, zero, suc, ◌+◌, ◌≤◌, ◌<◌}
use mathlib.Core.Path.{◌≡◌, refl, ap}
use mathlib.Core.Bool.{Bool, true, false}
use mathlib.Core.Logic.{inl, inr}
use mathlib.Core.List.{List, [], ◌∷◌, ◌++◌}
use mathlib.Core.Option.{some}
use native.Mathlib.Omega.{arith}

module _ {ℓ} {A : Type ℓ} where
  pub take-take : (n : ℕ) (xs : List A) → take n (take (n + 1) xs) ≡ take n xs
  take-take zero xs = refl
  take-take (suc n) [] = let e : suc n + 1 ≡ suc (n + 1) = omega arith in rw e refl
  take-take (suc n) (x ∷ xs) =
      let e : suc n + 1 ≡ suc (n + 1) = omega arith in rw e (ap (◌∷◌ x) (take-take n xs))

  pub length-take_suc : (n : ℕ) (xs : List A) → ltb n (length (take (n + 1) xs)) ≡ ltb n (length xs)
  length-take_suc zero [] = refl
  length-take_suc zero (x ∷ xs) = ground arith
  length-take_suc (suc n) [] = let e : suc n + 1 ≡ suc (n + 1) = omega arith in rw e refl
  length-take_suc (suc n) (x ∷ xs) =
      let e : suc n + 1 ≡ suc (n + 1) = omega arith in rw e (ground (arith, length-take_suc n xs))

  pub take-all : (n : ℕ) (xs : List A) → length xs ≤ n → take n xs ≡ xs
  take-all zero [] h = refl
  take-all zero (x ∷ xs) h = absurd (omega arith)
  take-all (suc n) [] h = refl
  take-all (suc n) (x ∷ xs) h = ap (◌∷◌ x) (take-all n xs (omega arith))

  pub length-drop_lt :
      (n : ℕ) (xs : List A) → 0 < n → n < length xs → length (drop n xs) < length xs
  length-drop_lt zero xs p h = absurd (omega arith)
  length-drop_lt (suc n) [] p h = absurd (omega arith)
  length-drop_lt (suc zero) (x ∷ xs) p h = omega arith
  length-drop_lt (suc (suc n)) (x ∷ xs) p h =
      omega (arith, length-drop_lt (suc n) xs (omega arith) (omega arith))

  -- A full page ends in a row, and the page's other rows come before it.
  pub take-last :
      (n : ℕ) (xs : List A)
      → 0 < n
      → n < length xs
      → (front : List A) × (r : A) × (take n xs ≡ front ++ r ∷ []) × (last? (take n xs) ≡ some r)
  take-last zero xs p h = absurd (omega arith)
  take-last (suc n) [] p h = absurd (omega arith)
  take-last (suc zero) (x ∷ xs) p h = ([], x, refl, refl)
  take-last (suc (suc n)) (x ∷ []) p h = absurd (omega arith)
  take-last (suc (suc n)) (x ∷ y ∷ xs) p h =
      let (front, r, e, l) = take-last (suc n) (y ∷ xs) (omega arith) (omega arith) in
      (x ∷ front, r, ap (◌∷◌ x) e, l)

  module _ (before : A → A → Bool) where
    -- Every row comes strictly before all later ones.
    abbrev pub Ordered : List A → Type 0
    Ordered [] = Unit {0}
    Ordered (x ∷ xs) = All (λ y. before x y ≡ true) xs × Ordered xs

    -- In an ordered list, the rows after a row are those that stand behind it.
    pub keep-after :
        (o : IsOrder before) (front : List A) (r : A) (rest : List A)
        → Ordered (front ++ r ∷ rest)
        → keep (before r) (front ++ r ∷ rest) ≡ rest
    keep-after o [] r rest h =
        let self : before r r ≡ false = elim (Bool-cases (before r r)) [
          | inl e ↦ o.asym r r e
          | inr e ↦ e
        ] in
        rw (self, keep) (keep-all (before r) rest h.0)
    keep-after o (x ∷ front) r rest h =
        let earlier : before r x ≡ false = o.asym x r (All_middle _ front r rest h.0) in
        rw (earlier, keep) (keep-after o front r rest h.1)

    -- A sorted list whose entries the test can tell apart is strictly ordered.
    pub Sorted-Ordered :
        (R : A → A → Type 0)
        → ((x y : A) → R x y → before y x ≡ false → before x y ≡ true)
        → (xs : List A) → Sorted before xs
        → Pairwise R xs
        → Ordered xs
    Sorted-Ordered R total [] s d = tt
    Sorted-Ordered R total (x ∷ xs) s d = (strict x xs s.0 d.0, Sorted-Ordered R total xs s.1 d.1)
      where
        strict :
            (y : A) (ys : List A)
            → All (λ z. before z y ≡ false) ys
            → All (R y) ys
            → All (λ z. before y z ≡ true) ys
        strict y [] a b = tt
        strict y (z ∷ ys) a b = (total y z b.0 a.0, strict y ys a.1 b.1)
