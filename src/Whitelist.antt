-- ===== src/Whitelist.antt =====
-- web/src/lib/whitelist-tree.ts: the Merkle tree over the whitelist members' address leaves, and
-- circuits/lib/merkle.circom, the check that the proof makes of a path. Field elements are naturals.
-- Poseidon and the address decoder of the Stellar SDK are arguments.
pub mod Levels
pub mod Membership
pub mod Leaf
use sealedstellar.Common.{
  ℕ, zero, suc, ◌+◌, ◌-◌, ◌*◌, ◌/◌, ◌%◌, ◌^◌, String, List, [], ◌∷◌, ◌++◌, Option, none, some,
  Result, ok, err, length, get_elem?, get_or, replicate, ltb, ◌==◌, if◌then◌else◌, ◌>>=◌,
}

-- `MERKLE_DEPTH` and `MAX_WHITELIST_MEMBERS`
abbrev pub merkle_depth : ℕ
merkle_depth = 10

abbrev pub max_whitelist_members : ℕ
max_whitelist_members = 2 ^ merkle_depth

-- `this.levels` and `this.depth`
pub record Tree : Type 0 where
  pub levels : List (List ℕ)
  pub depth : ℕ

-- The `while` loop of the constructor: zeros up to the capacity.
unfoldable pub pad_leaves : ℕ → List ℕ → List ℕ
pad_leaves depth leaves = leaves ++ replicate (2 ^ depth - length leaves) 0

module _ (hash : List ℕ → ℕ) where
  -- One level from the one below. A lone last entry would hash `undefined`: `none` is that fault.
  unfoldable pub next_level : List ℕ → Option (List ℕ)
  next_level [] = some []
  next_level (x ∷ []) = none
  next_level (x ∷ y ∷ xs) = do rest ← next_level xs; some (hash (x ∷ y ∷ []) ∷ rest)

  -- The levels from the given one up, for the levels that are left to build.
  unfoldable pub levels_from : ℕ → List ℕ → Option (List (List ℕ))
  levels_from zero level = some (level ∷ [])
  levels_from (suc d) level = do
    next ← next_level level
    rest ← levels_from d next
    some (level ∷ rest)

  -- `new PoseidonMerkleTree(hash, depth, leaves)`
  unfoldable pub build_tree : ℕ → List ℕ → Option Tree
  unfolding pad_leaves
  build_tree depth leaves = do
    levels ← levels_from depth (pad_leaves depth leaves)
    some (record { levels = levels; depth = depth })

-- `levels[level][index]`
abbrev pub node_at : List (List ℕ) → ℕ → ℕ → Option ℕ
node_at levels level index = get_elem? levels level >>= λ nodes. get_elem? nodes index

-- `get root()`
unfoldable pub root : Tree → Option ℕ
root t = node_at t.levels t.depth 0

pub record MerklePath : Type 0 where
  pub elements : List (Option ℕ)
  pub index_bits : List ℕ

abbrev pub sibling : ℕ → ℕ
sibling index = if index % 2 == 0 then index + 1 else index - 1

-- The loop of `pathFor`: level, levels left, running index.
unfoldable pub path_from : List (List ℕ) → ℕ → ℕ → ℕ → MerklePath
path_from levels level zero index = record { elements = []; index_bits = [] }
path_from levels level (suc left) index =
    let rest : MerklePath = path_from levels (suc level) left (index / 2) in
    record {
      elements = node_at levels level (sibling index) ∷ rest.elements;
      index_bits = index % 2 ∷ rest.index_bits;
    }

unfoldable pub path_for : Tree → ℕ → MerklePath
unfolding path_from
path_for t leaf_index = path_from t.levels 0 t.depth leaf_index

module _ (hash : List ℕ → ℕ) where
  -- `MerkleTreeChecker`: the node that the path leads to; bit 0 means a left child.
  unfoldable pub climb : ℕ → List (Option ℕ) → List ℕ → Option ℕ
  climb node [] bits = some node
  climb node (e ∷ es) [] = none
  climb node (none ∷ es) (b ∷ bits) = none
  climb node (some e ∷ es) (b ∷ bits) =
      climb (if b == 0 then hash (node ∷ e ∷ []) else hash (e ∷ node ∷ [])) es bits

-- The loop of `computeAddressLeaf`: byte index, bytes left, the two halves so far.
unfoldable pub fold_halves : List ℕ → ℕ → ℕ → ℕ → ℕ → ℕ × ℕ
fold_halves key i zero high low = (high, low)
fold_halves key i (suc left) high low =
    fold_halves key (suc i) left (high * 256 + get_or key i 0) (low * 256 + get_or key (i + 16) 0)

module _ (hash : List ℕ → ℕ) where
  -- `computeAddressLeaf`; the decoder gives 32 bytes, so no index is out of range.
  unfoldable pub compute_address_leaf : List ℕ → ℕ
  unfolding fold_halves
  compute_address_leaf key = let (high, low) = fold_halves key 0 16 0 0 in hash (high ∷ low ∷ [])

pub data RootError : Type 0 where
  no_members too_many_members fault : RootError
  invalid_address : String → RootError

module _ (hash : List ℕ → ℕ) (decode_key : String → Option (List ℕ)) where
  -- The loop over the members; the first address that does not decode ends it.
  unfoldable pub member_leaves : List String → Result (List ℕ) String
  unfolding compute_address_leaf
  member_leaves [] = ok []
  member_leaves (m ∷ ms) = elim (decode_key m) [
    | none ↦ err m
    | some key ↦ elim (member_leaves ms) [
      | ok rest ↦ ok (compute_address_leaf hash key ∷ rest)
      | err bad ↦ err bad
    ]
  ]

  -- The tree's root, or `fault` where the constructor throws.
  unfoldable pub root_of_leaves : List ℕ → Result ℕ RootError
  root_of_leaves leaves = elim (build_tree hash merkle_depth leaves >>= root) [
    | none ↦ err fault
    | some r ↦ ok r
  ]

  unfoldable pub compute_whitelist_root : List String → Result ℕ RootError
  compute_whitelist_root members =
      if length members == 0
      then err no_members
      else if ltb max_whitelist_members (length members)
      then err too_many_members
      else elim (member_leaves members) [
        | err bad ↦ err (invalid_address bad)
        | ok leaves ↦ root_of_leaves leaves
      ]
