-- ===== src/Whitelist/Leaf.antt =====
-- web/src/lib/whitelist-tree.ts, `computeAddressLeaf`: a leaf binds its address.
use sealedstellar.Common.{
  ℕ, zero, suc, ◌+◌, ◌*◌, ◌<◌, ◌≡◌, refl, ap, ◌∙◌, inl, inr, String, List, [], ◌∷◌, Option, some,
  ok, Option-cases, Result-cases, get_elem?, arith, length, get_or,
}
use sealedstellar.Whitelist.{fold_halves, compute_address_leaf, member_leaves}

-- The bytes of a decoded account key.
pub record IsKey (key : List ℕ) : Type 0 where
  pub size : length key ≡ 32
  pub bytes : (j : ℕ) → get_or key j 0 < 256

-- Two keys agree at `left` bytes of both halves, from byte `i` on.
abbrev Agree : List ℕ → List ℕ → ℕ → ℕ → Type 0
Agree key other i left =
    (j : ℕ)
    → j < left
    → (get_or key (i + j) 0 ≡ get_or other (i + j) 0)
      × (get_or key (i + j + 16) 0 ≡ get_or other (i + j + 16) 0)

-- A half of a key as a number: the `left` bytes from byte `i` on, the first the highest, after `acc`.
pub half : List ℕ → ℕ → ℕ → ℕ → ℕ
half key i zero acc = acc
half key i (suc left) acc = half key (suc i) left (acc * 256 + get_or key i 0)

fold_halves-half :
    (key : List ℕ) (i left high low : ℕ)
    → fold_halves key i left high low ≡ (half key i left high, half key (i + 16) left low)
unfolding fold_halves half
fold_halves-half key i zero high low = refl
fold_halves-half key i (suc left) high low =
    let e : suc i + 16 ≡ suc (i + 16) = omega arith in
    fold_halves-half key (suc i) left _ _ ∙ rw e refl

-- What is hashed for a key: the numbers of its first 16 bytes and of its last 16.
pub halves : List ℕ → List ℕ
halves key = half key 0 16 0 ∷ half key 16 16 0 ∷ []

pub compute_address_leaf-halves :
    (hash : List ℕ → ℕ) (key : List ℕ) → compute_address_leaf hash key ≡ hash (halves key)
unfolding compute_address_leaf halves
compute_address_leaf-halves hash key =
    ap (λ p. hash (p.0 ∷ p.1 ∷ [])) (fold_halves-half key 0 16 0 0)

member_leaves-cons :
    (hash : List ℕ → ℕ) (decode : String → Option (List ℕ)) (m : String) (ms : List String)
    (leaves : List ℕ)
    → member_leaves hash decode (m ∷ ms) ≡ ok leaves
    → (key : List ℕ) × (rest : List ℕ) × (decode m ≡ some key)
      × (member_leaves hash decode ms ≡ ok rest)
      × (leaves ≡ compute_address_leaf hash key ∷ rest)
unfolding member_leaves
member_leaves-cons hash decode m ms leaves h = elim (Option-cases (decode m)) [
  | inl undecoded ↦ absurd (let e = rw (undecoded, member_leaves) at h in cc)
  | inr (key, decoded) ↦ elim (Result-cases (member_leaves hash decode ms)) [
    | inl (rest, f) ↦ (key, rest, decoded, f, (let e = rw (decoded, f, member_leaves) at h in cc))
    | inr (bad, f) ↦ absurd (let e = rw (decoded, f, member_leaves) at h in cc)
  ]
]

-- The leaf of a listed member is that of the key that its address decodes to.
pub member_leaves-leaf :
    (hash : List ℕ → ℕ) (decode : String → Option (List ℕ)) (members : List String)
    (leaves : List ℕ) (index : ℕ) (address : String)
    → member_leaves hash decode members ≡ ok leaves
    → get_elem? members index ≡ some address
    → (key : List ℕ) × (decode address ≡ some key)
      × (get_or leaves index 0 ≡ compute_address_leaf hash key)
member_leaves-leaf hash decode [] leaves index address h at = absurd (cc)
member_leaves-leaf hash decode (m ∷ ms) leaves zero address h at =
    let (key, rest, decoded, _, made) = member_leaves-cons hash decode m ms leaves h in
    let same : m ≡ address = cc in (key, rw (← same) decoded, rw made refl)
member_leaves-leaf hash decode (m ∷ ms) leaves (suc i) address h at =
    let (_, rest, _, more, made) = member_leaves-cons hash decode m ms leaves h in
    let (key, decoded, leaf) = member_leaves-leaf hash decode ms rest i address more at in
    (key, decoded, rw made leaf)
