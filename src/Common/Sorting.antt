-- ===== src/Common/Sorting.antt =====
-- A stable sort by a strict order given as a test: `ORDER BY` and `Array.prototype.sort`.
use mathlib.Core.List.{Perm}
use mathlib.Core.List.Perm
use sealedstellar.Common.Tests.{Bool-cases}
use sealedstellar.Common.Lists.{All, All-keep, keep, length}
use Prim.Native.Nat.{suc}
use mathlib.Core.Path.{◌≡◌, refl, ap, ◌∙◌}
use mathlib.Core.Bool.{Bool, true, false}
use mathlib.Core.Logic.{inl, inr}
use mathlib.Core.List.{List, [], ◌∷◌}
use native.Mathlib.Omega.{arith}

module _ {ℓ} {A : Type ℓ} (before : A → A → Bool) where
  unfoldable pub insert : A → List A → List A
  insert x [] = x ∷ []
  insert x (y ∷ ys) = elim (before y x) [ true ↦ y ∷ insert x ys | false ↦ x ∷ y ∷ ys ]

  unfoldable pub sort : List A → List A
  unfolding insert
  sort [] = []
  sort (x ∷ xs) = insert x (sort xs)

  -- Nothing later comes before anything earlier.
  abbrev pub Sorted : List A → Type ℓ
  Sorted [] = Unit
  Sorted (x ∷ xs) = All (λ y. before y x ≡ false) xs × Sorted xs

  pub insert-perm : (x : A) (ys : List A) → Perm (insert x ys) (x ∷ ys)
  unfolding insert
  insert-perm x [] = Perm.refl (x ∷ [])
  insert-perm x (y ∷ ys) = elim (Bool-cases (before y x)) [
    | inl e ↦ rw (e, insert) (Perm.trans (Perm.cons y (insert-perm x ys)) (Perm.swap x y ys))
    | inr e ↦ rw (e, insert) (Perm.refl (x ∷ y ∷ ys))
  ]

  -- Sorting loses nothing and adds nothing.
  pub sort-perm : (xs : List A) → Perm (sort xs) xs
  unfolding sort
  sort-perm [] = Perm.nil
  sort-perm (x ∷ xs) = Perm.trans (insert-perm x (sort xs)) (Perm.cons x (sort-perm xs))

  insert-length : (x : A) (ys : List A) → length (insert x ys) ≡ suc (length ys)
  unfolding insert
  insert-length x [] = refl
  insert-length x (y ∷ ys) = elim (Bool-cases (before y x)) [
    | inl e ↦ rw (e, insert) (ap suc (insert-length x ys))
    | inr e ↦ rw (e, insert) refl
  ]

  pub sort-length : (xs : List A) → length (sort xs) ≡ length xs
  unfolding sort
  sort-length [] = refl
  sort-length (x ∷ xs) = insert-length x (sort xs) ∙ ap suc (sort-length xs)

  pub insert-front : (x : A) (ys : List A) → All (λ y. before y x ≡ false) ys → insert x ys ≡ x ∷ ys
  unfolding insert
  insert-front x [] h = refl
  insert-front x (y ∷ ys) h = rw (h.0, insert)

  pub All-insert {κ} : (P : A → Type κ) (x : A) (ys : List A) → P x → All P ys → All P (insert x ys)
  unfolding insert
  All-insert P x [] px h = (px, tt)
  All-insert P x (y ∷ ys) px h = elim (Bool-cases (before y x)) [
    | inl e ↦ rw (e, insert) (h.0, All-insert P x ys px h.1)
    | inr e ↦ rw (e, insert) (px, h)
  ]

  pub All-sort {κ} : (P : A → Type κ) (xs : List A) → All P xs → All P (sort xs)
  unfolding sort
  All-sort P [] h = tt
  All-sort P (x ∷ xs) h = All-insert P x (sort xs) h.0 (All-sort P xs h.1)

  -- What the test must satisfy: a strict weak order.
  pub record IsOrder : Type ℓ where
    pub asym : (x y : A) → before x y ≡ true → before y x ≡ false
    pub later : (x y z : A) → before y x ≡ false → before z y ≡ false → before z x ≡ false

  module _ (o : IsOrder) where
    pub All-later :
        (x y : A) (zs : List A)
        → before y x ≡ false
        → All (λ z. before z y ≡ false) zs
        → All (λ z. before z x ≡ false) zs
    All-later x y [] e h = tt
    All-later x y (z ∷ zs) e h = (o.later x y z e h.0, All-later x y zs e h.1)

    pub insert-Sorted : (x : A) (ys : List A) → Sorted ys → Sorted (insert x ys)
    unfolding insert
    insert-Sorted x [] s = (tt, tt)
    insert-Sorted x (y ∷ ys) s = elim (Bool-cases (before y x)) [
      | inl e ↦ rw (e, insert) (All-insert _ x ys (o.asym y x e) s.0, insert-Sorted x ys s.1)
      | inr e ↦ rw (e, insert) ((e, All-later x y ys e s.0), s)
    ]

    pub sort-Sorted : (xs : List A) → Sorted (sort xs)
    unfolding sort
    sort-Sorted [] = tt
    sort-Sorted (x ∷ xs) = insert-Sorted x (sort xs) (sort-Sorted xs)

    keep-insert_taken :
        (p : A → Bool) (x : A) (ys : List A)
        → p x ≡ true
        → Sorted ys
        → keep p (insert x ys) ≡ insert x (keep p ys)
    unfolding insert
    keep-insert_taken p x [] e s = rw e
    keep-insert_taken p x (y ∷ ys) e s = elim (Bool-cases (before y x)) [
      | inl b ↦ ground (arith, keep-insert_taken p x ys e s.1)
      | inr b ↦
          let front =
            insert-front x (keep p (y ∷ ys)) (All-keep _ p (y ∷ ys) (b, All-later x y ys b s.0)) in
          ground (arith, front)
    ]

    keep-insert_dropped :
        (p : A → Bool) (x : A) (ys : List A) → p x ≡ false → keep p (insert x ys) ≡ keep p ys
    unfolding insert
    keep-insert_dropped p x [] e = rw e
    keep-insert_dropped p x (y ∷ ys) e = ground (arith, keep-insert_dropped p x ys e)

    -- To filter the sorted list is to sort the filtered list.
    pub keep-sort : (p : A → Bool) (xs : List A) → keep p (sort xs) ≡ sort (keep p xs)
    unfolding sort
    keep-sort p [] = refl
    keep-sort p (x ∷ xs) = elim (Bool-cases (p x)) [
      | inl e ↦
          rw (e, keep)
            (keep-insert_taken p x (sort xs) e (sort-Sorted xs) ∙ ap (insert x) (keep-sort p xs))
      | inr e ↦ rw (e, keep) (keep-insert_dropped p x (sort xs) e ∙ keep-sort p xs)
    ]

-- A relation between any two entries, the earlier one first.
module _ {ℓ} {A : Type ℓ} (R : A → A → Type 0) where
  abbrev pub Pairwise : List A → Type 0
  Pairwise [] = Unit {0}
  Pairwise (x ∷ xs) = All (R x) xs × Pairwise xs

  pub Pairwise-keep : (p : A → Bool) (xs : List A) → Pairwise xs → Pairwise (keep p xs)
  Pairwise-keep p [] h = tt
  Pairwise-keep p (x ∷ xs) h = elim (Bool-cases (p x)) [
    | inl e ↦ rw (e, keep) (All-keep (R x) p xs h.0, Pairwise-keep p xs h.1)
    | inr e ↦ rw (e, keep) (Pairwise-keep p xs h.1)
  ]

  module _ (before : A → A → Bool) (flip : (x y : A) → R x y → R y x) where
    flip-All : (x : A) (ys : List A) → All (R x) ys → All (λ y. R y x) ys
    flip-All x [] h = tt
    flip-All x (y ∷ ys) h = (flip x y h.0, flip-All x ys h.1)

    Pairwise-insert :
        (x : A) (ys : List A) → All (R x) ys → Pairwise ys → Pairwise (insert before x ys)
    unfolding insert
    Pairwise-insert x [] h k = (tt, tt)
    Pairwise-insert x (y ∷ ys) h k = elim (Bool-cases (before y x)) [
      | inl e ↦
          rw (e, insert)
            (All-insert before (R y) x ys (flip x y h.0) k.0, Pairwise-insert x ys h.1 k.1)
      | inr e ↦ rw (e, insert) (h, k)
    ]

    pub Pairwise-sort : (xs : List A) → Pairwise xs → Pairwise (sort before xs)
    unfolding sort
    Pairwise-sort [] h = tt
    Pairwise-sort (x ∷ xs) h =
        Pairwise-insert x (sort before xs) (All-sort before (R x) xs h.0) (Pairwise-sort xs h.1)
