-- ===== src/Whitelist/Levels.antt =====
-- web/src/lib/whitelist-tree.ts: the levels that the tree's constructor builds.
use native.Mathlib.Nat.{two-pow-succ}
use sealedstellar.Common.{
  ℕ, zero, suc, ◌+◌, ◌-◌, ◌^◌, ◌≤◌, ◌≡◌, refl, ◌∙◌, List, [], ◌∷◌, some, arith, length, get_elem?,
  replicate, length-append, length-replicate, get_elem?-append, >>=-eq-some,
}
use sealedstellar.Whitelist.{next_level, levels_from, pad_leaves, node_at}

module _ (hash : List ℕ → ℕ) where
  -- A level of even length has a next one, of half the length.
  pub next_level-total :
      (xs : List ℕ) (n : ℕ)
      → length xs ≡ n + n
      → (next : List ℕ) × (next_level hash xs ≡ some next) × (length next ≡ n)
  unfolding next_level
  next_level-total [] n h = ([], refl, omega arith)
  next_level-total (x ∷ []) n h = absurd (omega arith)
  next_level-total (x ∷ y ∷ xs) zero h = absurd (omega arith)
  next_level-total (x ∷ y ∷ xs) (suc n) h =
      let (next, e, l) = next_level-total xs n (omega arith) in
      (hash (x ∷ y ∷ []) ∷ next, rw e, omega arith)

  -- Each entry of the next level is the hash of its two children.
  pub next_level-pair :
      (xs next : List ℕ) (i j x y : ℕ)
      → next_level hash xs ≡ some next
      → j ≡ i + i
      → get_elem? xs j ≡ some x
      → get_elem? xs (suc j) ≡ some y
      → get_elem? next i ≡ some (hash (x ∷ y ∷ []))
  unfolding next_level
  next_level-pair [] next i j x y e h p q = absurd (cc)
  next_level-pair (a ∷ []) next i j x y e h p q = absurd (cc)
  next_level-pair (a ∷ b ∷ xs) next zero zero x y e h p q =
      let (rest, e', f) = >>=-eq-some (next_level hash xs) _ e in
      let g : hash (a ∷ b ∷ []) ∷ rest ≡ next = cc in
      let p' : a ≡ x = cc in let q' : b ≡ y = cc in rw (← g, p', q')
  next_level-pair (a ∷ b ∷ xs) next zero (suc j) x y e h p q = absurd (omega arith)
  next_level-pair (a ∷ b ∷ xs) next (suc i) zero x y e h p q = absurd (omega arith)
  next_level-pair (a ∷ b ∷ xs) next (suc i) (suc zero) x y e h p q = absurd (omega arith)
  next_level-pair (a ∷ b ∷ xs) next (suc i) (suc (suc j)) x y e h p q =
      let (rest, e', f) = >>=-eq-some (next_level hash xs) _ e in
      let g : hash (a ∷ b ∷ []) ∷ rest ≡ next = cc in
      rw (← g) (next_level-pair xs rest i j x y e' (omega arith) p q)

  -- A level of length 2 ^ d has all levels above it, and a single root.
  pub levels_from-total :
      (d : ℕ) (xs : List ℕ)
      → length xs ≡ 2 ^ d
      → (levels : List (List ℕ)) × (r : ℕ) × (levels_from hash d xs ≡ some levels)
        × (node_at levels d 0 ≡ some r)
  unfolding levels_from
  levels_from-total zero [] h = absurd (omega arith)
  levels_from-total zero (x ∷ xs) h = ((x ∷ xs) ∷ [], x, refl, refl)
  levels_from-total (suc d) xs h =
      let (next, e, l) = next_level-total xs (2 ^ d) (h ∙ two-pow-succ d) in
      let (levels, r, e', at) = levels_from-total d next l in (xs ∷ levels, r, rw (e, e'), at)

pub length-pad_leaves :
    (d : ℕ) (leaves : List ℕ) → length leaves ≤ 2 ^ d → length (pad_leaves d leaves) ≡ 2 ^ d
unfolding pad_leaves
length-pad_leaves d leaves h = omega (
  arith,
  length-append leaves (replicate (2 ^ d - length leaves) 0),
  length-replicate {A = ℕ} (2 ^ d - length leaves) 0,
)

pub get_elem?-pad_leaves :
    (d : ℕ) (leaves : List ℕ) (i leaf : ℕ)
    → get_elem? leaves i ≡ some leaf
    → get_elem? (pad_leaves d leaves) i ≡ some leaf
unfolding pad_leaves
get_elem?-pad_leaves d leaves i leaf e = get_elem?-append leaves _ i leaf e
