-- ===== src/Operator/Settle/Soundness.antt =====
-- web/src/lib/operator.ts, `assembleAndProve`: what a settlement's proof is about.
use sealedstellar.Common.{
  ℕ, zero, suc, ◌+◌, ◌≤◌, ◌<◌, ◌≡◌, refl, sym, ap, ◌∙◌, subst, Bool, true, false, String, List, [],
  ◌∷◌, Option, none, some, str_eq, eq_iff, Result, ok, err, and_then-eq-ok, get_elem?, get_or,
  length, ◌==◌, ==_iff, arith, Bool-cases, inl, inr, ◌⊎◌, get_elem?-total, get_elem?-lt,
}
use sealedstellar.Common.Int.{ℤ, pos, negsuc, ltbℤ, ◌<ℤ◌, eqbℤ→eq}
use sealedstellar.Operator.Vickrey.{select_vickrey_outcome}
use sealedstellar.Operator.Vickrey.Laws.{IsVickrey, select_vickrey_outcome-IsVickrey}
use sealedstellar.Whitelist.{
  build_tree, root, path_for, climb, merkle_depth, max_whitelist_members, member_leaves, Tree,
  compute_address_leaf,
}
use sealedstellar.Whitelist.Leaf.{member_leaves-leaf}
use sealedstellar.Whitelist.Membership.{climb-path_for, length-member_leaves}
use sealedstellar.Operator.Settle.{
  SlotData, SettleError, CircuitInput, SettleBundle, SettledAuction, require, or_fail, natural,
  member_index, leaves_or_fail, proof_or_fail, check_commitments, slot_matches, prove_winner,
  has_root, assemble_and_prove, max_bid_slots,
}

pub ok_inj {ℓ κ} : {A : Type ℓ} {E : Type κ} {a b : A} → ◌≡◌ {A = Result A E} (ok a) (ok b) → a ≡ b
ok_inj h = cc

some_inj {ℓ} : {A : Type ℓ} {a b : A} → some a ≡ some b → a ≡ b
some_inj h = cc

pub require-true : (b : Bool) (e : SettleError) → require b e ≡ ok tt → b ≡ true
require-true true e h = refl
require-true false e h = absurd (cc)

pub or_fail-some {ℓ} :
    {A : Type ℓ} (o : Option A) (e : SettleError) {a : A} → or_fail o e ≡ ok a → o ≡ some a
or_fail-some none e h = absurd (cc)
or_fail-some (some b) e h = cc

member_index-member :
    (winner : String) (i : ℕ) (ms : List String) (found : Option ℕ) {k : ℕ}
    → member_index winner i ms found ≡ some k
    → (found ≡ some k) ⊎ ((j : ℕ) × (k ≡ i + j) × (get_elem? ms j ≡ some winner))
unfolding member_index
member_index-member winner i [] found h = inl h
member_index-member winner i (m ∷ ms) found h = elim (Bool-cases (str_eq m winner)) [
  | inl same ↦ elim (member_index-member winner (suc i) ms (some i) (rw same at h)) [
    | inl e ↦ inr (0, (let q = some_inj e in omega (arith, q)), ap some ((eq_iff m winner).0 same))
    | inr (j, e, got) ↦ inr (suc j, omega arith, got)
  ]
  | inr other ↦ elim (member_index-member winner (suc i) ms found (rw other at h)) [
    | inl e ↦ inl e
    | inr (j, e, got) ↦ inr (suc j, omega arith, got)
  ]
]

check_commitments-matches :
    (commit : ℤ → ℤ → ℕ → ℤ) (id : ℕ) (slots : SlotData) (left i j : ℕ)
    → check_commitments commit id slots left i ≡ ok tt
    → i ≤ j
    → j < i + left
    → slot_matches commit id slots j (get_or slots.bidders j none) ≡ true
unfolding check_commitments
check_commitments-matches commit id slots zero i j h l k = absurd (omega arith)
check_commitments-matches commit id slots (suc left) i j h l k =
    let (_, first, more) =
      and_then-eq-ok
        (require (slot_matches commit id slots i (get_or slots.bidders i none))
          (SettleError.commitment_mismatch i))
        _ h in
    elim (Bool-cases (i == j)) [
      | inl here ↦
          let e : i ≡ j = (==_iff i j).0 here in
          subst (λ n. slot_matches commit id slots n (get_or slots.bidders n none) ≡ true) e
            (require-true _ (SettleError.commitment_mismatch i) first)
      | inr other ↦
          check_commitments-matches commit id slots left (suc i) j more (ground arith) (omega arith)
    ]

-- What holds of the bundle that the pipeline gives.
pub record IsSettlement {Proof : Type 0} (commit : ℤ → ℤ → ℕ → ℤ) (hash : List ℕ → ℕ)
    (decode_key : String → Option (List ℕ)) (prove : CircuitInput → Result Proof String)
    (auction : SettledAuction) (slots : SlotData) (members : List String) (b : SettleBundle Proof)
    : Type 0 where
  pub commitments :
      (j : ℕ) (bidder : String)
      → j < max_bid_slots
      → get_or slots.bidders j none ≡ some bidder
      → commit (get_or slots.prices j (pos 0)) (get_or slots.salts j (pos 0)) auction.id
        ≡ get_or slots.commitments j (pos 0)
  pub outcome : (top : ℤ) × IsVickrey slots.prices b.winner_index top b.winning_price
  pub pays : pos 0 <ℤ b.winning_price
  pub winner : get_or slots.bidders b.winner_index none ≡ some b.winner_address
  pub listed : (index : ℕ) × (get_elem? members index ≡ some b.winner_address)
  pub input_id : b.input.auction_id ≡ auction.id
  pub input_commitments : b.input.commitments ≡ slots.commitments
  pub input_leaf :
      (key : List ℕ) × (decode_key b.winner_address ≡ some key)
      × (b.input.winner_addr_hash ≡ compute_address_leaf hash key)
  pub input_index : b.input.winner_index ≡ b.winner_index
  pub input_price : b.input.winning_price ≡ b.winning_price
  pub input_root : b.input.whitelist_root ≡ auction.whitelist_root
  pub membership :
      climb hash b.input.winner_addr_hash b.input.merkle_path.elements
        b.input.merkle_path.index_bits
      ≡ some auction.whitelist_root
  pub proved : prove b.input ≡ ok b.proof

natural-pos : (z : ℤ) (w : ℕ) → natural z ≡ some w → z ≡ pos w
natural-pos (pos n) w h = cc
natural-pos (negsuc n) w h = absurd (cc)

leaves_or_fail-ok :
    (r : Result (List ℕ) String) (leaves : List ℕ) → leaves_or_fail r ≡ ok leaves → r ≡ ok leaves
leaves_or_fail-ok (ok xs) leaves h = cc
leaves_or_fail-ok (err m) leaves h = absurd (cc)

proof_or_fail-ok {ℓ} :
    {A : Type ℓ} (r : Result A String) (a : A) → proof_or_fail r ≡ ok a → r ≡ ok a
proof_or_fail-ok (ok b) a h = cc
proof_or_fail-ok (err m) a h = absurd (cc)

has_root-eq : (o : Option ℕ) (r s : ℕ) → has_root o r ≡ true → o ≡ some s → s ≡ r
has_root-eq none r s h e = absurd (cc)
has_root-eq (some t) r s h e =
    let q : t ≡ s = some_inj e in let p : t ≡ r = (==_iff t r).0 h in sym q ∙ p

get_or-get_elem? {ℓ} :
    {A : Type ℓ} (xs : List A) (i : ℕ) (d a : A) → get_elem? xs i ≡ some a → get_or xs i d ≡ a
get_or-get_elem? [] i d a h = absurd (cc)
get_or-get_elem? (x ∷ xs) zero d a h = cc
get_or-get_elem? (x ∷ xs) (suc i) d a h = get_or-get_elem? xs i d a h

-- The path of a listed member leads from its leaf to the root that the tree was compared with.
membership_of :
    (hash : List ℕ → ℕ) (leaves : List ℕ) (tree : Tree) (index goal : ℕ)
    → length leaves ≤ max_whitelist_members
    → index < length leaves
    → build_tree hash merkle_depth leaves ≡ some tree
    → has_root (root tree) goal ≡ true
    → climb hash
        (get_or leaves index 0)
        (path_for tree index).elements
        (path_for tree index).index_bits
      ≡ some goal
membership_of hash leaves tree index goal few inside built rooted =
    let (t, r, built', top, paths) = climb-path_for hash merkle_depth leaves (omega arith) in
    let same : t ≡ tree = some_inj (sym built' ∙ built) in
    let (leaf, got) = get_elem?-total leaves index inside in
    let is_leaf = get_or-get_elem? leaves index 0 leaf got in
    let is_goal = has_root-eq (root tree) goal r rooted (ap root (sym same) ∙ top) in
    let p = rw (same, is_goal) at (paths index leaf got) in rw is_leaf p

module _ {Proof : Type 0} (commit : ℤ → ℤ → ℕ → ℤ) (hash : List ℕ → ℕ)
    (decode_key : String → Option (List ℕ)) (prove : CircuitInput → Result Proof String) where
  -- The end of the pipeline, from what its checks established.
  prove_winner-IsSettlement :
      (auction : SettledAuction) (slots : SlotData) (members : List String) (leaves : List ℕ)
      (tree : Tree) (winner index : ℕ) (address : String) (b : SettleBundle Proof)
      → length members ≤ max_whitelist_members
      → check_commitments commit auction.id slots max_bid_slots 0 ≡ ok tt
      → (select_vickrey_outcome slots.prices).winner_index ≡ pos winner
      → ltbℤ (pos 0) (select_vickrey_outcome slots.prices).clearing_price ≡ true
      → get_or slots.bidders winner none ≡ some address
      → member_leaves hash decode_key members ≡ ok leaves
      → get_elem? members index ≡ some address
      → build_tree hash merkle_depth leaves ≡ some tree
      → has_root (root tree) auction.whitelist_root ≡ true
      → prove_winner commit hash decode_key prove auction slots winner
          (select_vickrey_outcome slots.prices).clearing_price
          address
          leaves
          index
          tree
        ≡ ok b
      → IsSettlement commit hash decode_key prove auction slots members b
  unfolding prove_winner
  prove_winner-IsSettlement auction slots members leaves tree winner index address b few checked led
        pays who decoded at built rooted h =
      let (proof, proved, made) = and_then-eq-ok (proof_or_fail (prove _)) _ h in
      let size = length-member_leaves hash decode_key members leaves decoded in
      let inside = get_elem?-lt members index address at in
      subst (IsSettlement commit hash decode_key prove auction slots members) (ok_inj made)
        (record {
          commitments = λ j bidder l e. eqbℤ→eq _ _ (
              rw e at (
                check_commitments-matches commit auction.id slots max_bid_slots 0 j checked
                  (omega arith) (omega arith)));
          outcome = (_, select_vickrey_outcome-IsVickrey slots.prices winner led);
          pays = ground arith;
          winner = who;
          listed = (index, at);
          input_id = refl;
          input_commitments = refl;
          input_leaf = member_leaves-leaf hash decode_key members leaves index address decoded at;
          input_index = refl;
          input_price = refl;
          input_root = refl;
          membership =
              membership_of hash leaves tree index auction.whitelist_root (omega arith)
                (omega arith) built rooted;
          proved = proof_or_fail-ok _ proof proved;
        })

  -- A bundle that the pipeline gives for a whitelist of at most 1024 members is a settlement: every
  -- filled slot matches its commitment, the slot and the price are the second-price outcome with a
  -- positive price, the address is the slot's bidder and a listed member, and the proof is for an
  -- input with the auction's number and root, the slots' commitments, that slot and that price, and the
  -- leaf of the address's key, whose path leads from it to the root.
  pub assemble_and_prove-IsSettlement :
      (auction : SettledAuction) (slots : SlotData) (members : List String) (b : SettleBundle Proof)
      → length members ≤ max_whitelist_members
      → assemble_and_prove commit hash decode_key prove auction slots members ≡ ok b
      → IsSettlement commit hash decode_key prove auction slots members b
  unfolding assemble_and_prove
  assemble_and_prove-IsSettlement auction slots members b few h =
      let outcome = select_vickrey_outcome slots.prices in
      let (_, checked, h1) =
        and_then-eq-ok (check_commitments commit auction.id slots max_bid_slots 0) _ h in
      let (winner, h2', h2) =
        and_then-eq-ok (or_fail (natural outcome.winner_index) SettleError.no_positive_price) _
          h1 in
      let (_, h3', h3) =
        and_then-eq-ok (require (ltbℤ (pos 0) outcome.winner_price) SettleError.no_positive_price) _
          h2 in
      let (_, h4', h4) =
        and_then-eq-ok (require (ltbℤ (pos 0) outcome.clearing_price) SettleError.no_second_price) _
          h3 in
      let (address, h5', h5) =
        and_then-eq-ok (or_fail (get_or slots.bidders winner none) SettleError.no_bidder) _ h4 in
      let (leaves, h6', h6) =
        and_then-eq-ok (leaves_or_fail (member_leaves hash decode_key members)) _ h5 in
      let (index, h7', h7) =
        and_then-eq-ok (or_fail (member_index address 0 members none) SettleError.not_whitelisted) _
          h6 in
      let (tree, h8', h8) =
        and_then-eq-ok (or_fail (build_tree hash merkle_depth leaves) SettleError.tree_fault) _
          h7 in
      let (_, h9', h9) =
        and_then-eq-ok
          (require (has_root (root tree) auction.whitelist_root) SettleError.wrong_root) _ h8 in
      let place : get_elem? members index ≡ some address =
        elim (member_index-member address 0 members none
          (or_fail-some _ SettleError.not_whitelisted h7')) [
            | inl e ↦ absurd (cc)
            | inr (j, e, got) ↦ the_index index j e got
          ] in
      prove_winner-IsSettlement auction slots members leaves tree winner index address b few checked
        (natural-pos _ winner (or_fail-some _ SettleError.no_positive_price h2'))
        (require-true _ SettleError.no_second_price h4') (or_fail-some _ SettleError.no_bidder h5')
        (leaves_or_fail-ok _ leaves h6') place (or_fail-some _ SettleError.tree_fault h8')
        (require-true _ SettleError.wrong_root h9') h9
    where
      the_index :
          (k j : ℕ) {a : String}
          → k ≡ 0 + j
          → get_elem? members j ≡ some a
          → get_elem? members k ≡ some a
      the_index k j e got = let q : j ≡ k = omega arith in rw (← q) got
