-- ===== src/Whitelist/Membership.antt =====
-- web/src/lib/whitelist-tree.ts and circuits/lib/merkle.circom: a path that the tree gives out leads
-- the circuit's check from the leaf to the tree's root.
use native.Mathlib.Nat.{two-pow-succ}
use sealedstellar.Common.{
  ℕ, zero, suc, ◌+◌, ◌-◌, ◌/◌, ◌%◌, ◌^◌, ◌≤◌, ◌<◌, ◌≡◌, refl, sym, subst, ◌∙◌, inl, inr, String,
  List, [], ◌∷◌, Option, some, ok, arith, length, get_elem?, get_elem?-total, get_elem?-lt,
  >>=-eq-some, ltb, ◌==◌, Bool-cases, Result-cases, false,
}
use sealedstellar.Whitelist.{
  next_level, levels_from, pad_leaves, build_tree, Tree, node_at, root, MerklePath, path_from,
  path_for, climb, merkle_depth, max_whitelist_members, member_leaves, root_of_leaves,
  compute_whitelist_root,
}
use sealedstellar.Whitelist.Levels.{
  next_level-total, next_level-pair, levels_from-total, length-pad_leaves, get_elem?-pad_leaves,
}

path_from-suc :
    (l : List ℕ) (levels : List (List ℕ)) (level left index : ℕ)
    → path_from (l ∷ levels) (suc level) left index ≡ path_from levels level left index
unfolding path_from
path_from-suc l levels level zero index = refl
path_from-suc l levels level (suc left) index =
    rw (path_from-suc l levels (suc level) left (index / 2))

module _ (hash : List ℕ → ℕ) where
  abbrev climbs : ℕ → MerklePath → Option ℕ
  climbs leaf p = climb hash leaf p.elements p.index_bits

  -- One level: the parent of an entry, whichever child it is.
  climb_step :
      (d index leaf : ℕ) (xs next : List ℕ) (rest : List (List ℕ)) (goal : Option ℕ)
      → next_level hash xs ≡ some next
      → length xs ≡ 2 ^ suc d
      → get_elem? xs index ≡ some leaf
      → ((parent : ℕ)
          → get_elem? next (index / 2) ≡ some parent
          → climbs parent (path_from rest 0 d (index / 2)) ≡ goal)
      → climbs leaf (path_from (xs ∷ rest) 0 (suc d) index) ≡ goal
  unfolding path_from climb
  climb_step d index leaf xs next rest goal e l at ih =
      let even : length xs ≡ 2 ^ d + 2 ^ d = l ∙ two-pow-succ d in
      let inside = get_elem?-lt xs index leaf at in
      elim (Bool-cases (index % 2 == 0)) [
        | inl left ↦
            let half : index ≡ index / 2 + index / 2 = ground arith in
            let next_index : index + 1 ≡ suc index = omega arith in
            let (sib, got) = get_elem?-total xs (suc index) (ground (arith, half)) in
            rw (left, path_from-suc xs rest 0 d (index / 2), next_index, got, left, climb)
              (ih _ (next_level-pair hash xs next (index / 2) index leaf sib e half at got))
        | inr right ↦
            let half : index - 1 ≡ index / 2 + index / 2 = ground arith in
            let back : suc (index - 1) ≡ index = ground arith in
            let (sib, got) = get_elem?-total xs (index - 1) (omega arith) in
            rw (right, path_from-suc xs rest 0 d (index / 2), got, right, climb)
              (ih _ (
                next_level-pair hash xs next (index / 2) (index - 1) sib leaf e half got
                  (rw back at)))
      ]

  climb-levels_from :
      (d index leaf : ℕ) (xs : List ℕ) (levels : List (List ℕ))
      → levels_from hash d xs ≡ some levels
      → length xs ≡ 2 ^ d
      → get_elem? xs index ≡ some leaf
      → climbs leaf (path_from levels 0 d index) ≡ node_at levels d 0
  unfolding levels_from path_from climb
  climb-levels_from zero index leaf xs levels e l at =
      let inside = get_elem?-lt xs index leaf at in
      let first : index ≡ 0 = omega arith in
      let same : xs ∷ [] ≡ levels = cc in rw (← same) (rw first at (sym at))
  climb-levels_from (suc d) index leaf xs levels e l at =
      let (next, e₁, f) = >>=-eq-some (next_level hash xs) _ e in
      let (rest, e₂, g) = >>=-eq-some (levels_from hash d next) _ f in
      let (next', e₃, half) = next_level-total hash xs (2 ^ d) (l ∙ two-pow-succ d) in
      let same : next' ≡ next = cc in
      let same_levels : xs ∷ rest ≡ levels = cc in
      subst (λ ls. climbs leaf (path_from ls 0 (suc d) index) ≡ node_at ls (suc d) 0) same_levels
        (climb_step d index leaf xs next rest _ e₁ l at (λ parent got.
          climb-levels_from d (index / 2) parent next rest e₂ (rw (← same) half) got))

  -- With at most 2 ^ depth leaves the tree is built and has a root, and for every leaf the path that
  -- `pathFor` gives leads the circuit's check from that leaf to that root.
  pub climb-path_for :
      (depth : ℕ) (leaves : List ℕ)
      → length leaves ≤ 2 ^ depth
      → (t : Tree) × (r : ℕ) × (build_tree hash depth leaves ≡ some t)
        × (root t ≡ some r)
        × ((index leaf : ℕ)
            → get_elem? leaves index ≡ some leaf
            → climb hash leaf (path_for t index).elements (path_for t index).index_bits ≡ some r)
  unfolding build_tree root path_for
  climb-path_for depth leaves h =
      let full = length-pad_leaves depth leaves h in
      let (levels, r, e, top) = levels_from-total hash depth (pad_leaves depth leaves) full in
      (
        record { levels = levels; depth = depth },
        r,
        rw e,
        top,
        λ index leaf at.
            climb-levels_from depth index leaf (pad_leaves depth leaves) levels e full
              (get_elem?-pad_leaves depth leaves index leaf at)
            ∙ top,
      )

pub length-member_leaves :
    (hash : List ℕ → ℕ) (decode : String → Option (List ℕ)) (members : List String)
    (leaves : List ℕ)
    → member_leaves hash decode members ≡ ok leaves
    → length leaves ≡ length members
unfolding member_leaves
length-member_leaves hash decode [] leaves e = ground arith
length-member_leaves hash decode (m ∷ ms) leaves e =
    elim (Result-cases (member_leaves hash decode ms)) [
      | inl (rest, f) ↦ ground (arith, length-member_leaves hash decode ms rest f)
      | inr (bad, f) ↦ ground arith
    ]

root_of_leaves-built :
    (hash : List ℕ → ℕ) (decode : String → Option (List ℕ)) (leaves : List ℕ) (t : Tree) (r : ℕ)
    → build_tree hash merkle_depth leaves ≡ some t
    → root t ≡ some r
    → root_of_leaves hash decode leaves ≡ ok r
unfolding root_of_leaves
root_of_leaves-built hash decode leaves t r built top = ground arith

-- A list of one to 1024 members that all decode has a root, and each member's leaf has a path to it
-- in the tree over the same leaves: the tree that gives the root when the auction is created is the
-- tree that gives the path when it is settled.
pub compute_whitelist_root-total :
    (hash : List ℕ → ℕ) (decode : String → Option (List ℕ)) (members : List String)
    (leaves : List ℕ)
    → 0 < length members
    → length members ≤ max_whitelist_members
    → member_leaves hash decode members ≡ ok leaves
    → (t : Tree) × (r : ℕ) × (compute_whitelist_root hash decode members ≡ ok r)
      × (build_tree hash merkle_depth leaves ≡ some t)
      × (root t ≡ some r)
      × ((index leaf : ℕ)
          → get_elem? leaves index ≡ some leaf
          → climb hash leaf (path_for t index).elements (path_for t index).index_bits ≡ some r)
unfolding compute_whitelist_root
compute_whitelist_root-total hash decode members leaves some_member few e =
    let size = length-member_leaves hash decode members leaves e in
    let (t, r, built, top, paths) = climb-path_for hash merkle_depth leaves (omega arith) in
    let filled : (length members == 0) ≡ false = ground arith in
    let fits : ltb max_whitelist_members (length members) ≡ false = ground arith in
    (
      t,
      r,
      rw (filled, fits, e) (root_of_leaves-built hash decode leaves t r built top),
      built,
      top,
      paths,
    )
