-- ===== src/Operator/Settle/Slots.antt =====
-- web/src/lib/operator.ts, `proveSettleFromRevealedBids`: the slots that the revealed bids fill.
use sealedstellar.Common.{
  Bool, ℕ, zero, suc, ◌<◌, ◌≡◌, refl, sym, ap, ◌∙◌, true, false, not, ◌||◌, String, List, [], ◌∷◌,
  Option, none, some, ok, and_then-eq-ok, get_or, set, length, length-set, arith, Bool-cases,
  Option-cases, inl, inr, if◌then◌else◌, subst,
}
use sealedstellar.Common.Int.{ℤ, pos, pos_part, eqbℤ, ltbℤ, eqbℤ→eq}
use sealedstellar.Indexer.Runtime.{JsNumber, integer, fraction, not_finite}
use sealedstellar.Operator.Settle.{
  is_outside, set_slot, RevealedBid, SlotData, SettleError, require, or_fail, fill_slots,
  empty_slots, max_bid_slots,
}
use sealedstellar.Operator.Settle.Soundness.{ok_inj, require-true, or_fail-some}

-- The number of a slot.
abbrev pub is_slot : JsNumber → ℕ → Bool
is_slot (integer z) i = eqbℤ z (pos i)
is_slot _ i = false

-- The last bid that was revealed for a slot.
pub last_bid : ℕ → List RevealedBid → Option RevealedBid
last_bid i [] = none
last_bid i (b ∷ bs) = elim (last_bid i bs) [
  | some c ↦ some c
  | none ↦ if is_slot b.slot_index i then some b else none
]

-- Slot `i` holds the bid, with its texts read as numbers, or is as it was.
pub record HoldsBid (big : String → Option ℤ) (out : SlotData) (i : ℕ) (b : RevealedBid)
    : Type 0 where
  pub bidder : get_or out.bidders i none ≡ some b.bidder
  pub price : big b.price ≡ some (get_or out.prices i (pos 0))
  pub salt : big b.salt ≡ some (get_or out.salts i (pos 0))
  pub commitment : big b.commitment ≡ some (get_or out.commitments i (pos 0))

pub record IsSame (base out : SlotData) (i : ℕ) : Type 0 where
  pub bidder : get_or out.bidders i none ≡ get_or base.bidders i none
  pub price : get_or out.prices i (pos 0) ≡ get_or base.prices i (pos 0)
  pub salt : get_or out.salts i (pos 0) ≡ get_or base.salts i (pos 0)
  pub commitment : get_or out.commitments i (pos 0) ≡ get_or base.commitments i (pos 0)

record IsSized (s : SlotData) : Type 0 where
  prices : length s.prices ≡ max_bid_slots
  salts : length s.salts ≡ max_bid_slots
  commitments : length s.commitments ≡ max_bid_slots
  bidders : length s.bidders ≡ max_bid_slots

get_or-set_same {ℓ} :
    {A : Type ℓ} (xs : List A) (i : ℕ) (v d : A) → i < length xs → get_or (set xs i v) i d ≡ v
get_or-set_same [] i v d h = absurd (omega arith)
get_or-set_same (x ∷ xs) zero v d h = refl
get_or-set_same (x ∷ xs) (suc i) v d h = get_or-set_same xs i v d (omega arith)

get_or-set_other {ℓ} :
    {A : Type ℓ} (xs : List A) (k i : ℕ) (v d : A)
    → (k ≡ i → ⊥)
    → get_or (set xs k v) i d ≡ get_or xs i d
get_or-set_other [] k i v d h = refl
get_or-set_other (x ∷ xs) zero zero v d h = absurd (h refl)
get_or-set_other (x ∷ xs) zero (suc i) v d h = refl
get_or-set_other (x ∷ xs) (suc k) zero v d h = refl
get_or-set_other (x ∷ xs) (suc k) (suc i) v d h = get_or-set_other xs k i v d (λ e. h (ap suc e))

get_or-set_at {ℓ} :
    {A : Type ℓ} (xs : List A) (k i : ℕ) (v d : A)
    → k ≡ i
    → length xs ≡ max_bid_slots
    → i < max_bid_slots
    → get_or (set xs k v) i d ≡ v
get_or-set_at xs k i v d e z l = rw e (get_or-set_same xs i v d (omega arith))

-- A step of the loop.
abbrev placed : JsNumber → String → ℤ → ℤ → ℤ → SlotData → SlotData
placed at bidder price salt commitment slots = record {
  prices = set_slot slots.prices at price;
  salts = set_slot slots.salts at salt;
  commitments = set_slot slots.commitments at commitment;
  bidders = set_slot slots.bidders at (some bidder);
}

length-set_slot {ℓ} :
    {A : Type ℓ} (xs : List A) (at : JsNumber) (v : A) → length (set_slot xs at v) ≡ length xs
length-set_slot xs (integer z) v = length-set xs (pos_part z) v
length-set_slot xs (fraction z) v = refl
length-set_slot xs not_finite v = refl

placed-IsSized :
    (at : JsNumber) (bidder : String) (p s c : ℤ) (slots : SlotData)
    → IsSized slots
    → IsSized (placed at bidder p s c slots)
placed-IsSized at bidder p s c slots z = record {
  prices = length-set_slot slots.prices at p ∙ z.prices;
  salts = length-set_slot slots.salts at s ∙ z.salts;
  commitments = length-set_slot slots.commitments at c ∙ z.commitments;
  bidders = length-set_slot slots.bidders at (some bidder) ∙ z.bidders;
}

module _ (big : String → Option ℤ) where
  -- What a slot holds at the end, by the last bid revealed for it: that bid, or what it held before.
  pub Holds : SlotData → SlotData → ℕ → Option RevealedBid → Type 0
  Holds base out i none = IsSame base out i
  Holds base out i (some b) = HoldsBid big out i b

  not_here : (z : ℤ) (i : ℕ) → z ≡ pos (pos_part z) → pos_part z ≡ i → eqbℤ z (pos i) ≡ false → ⊥
  not_here z i at e other = ground arith

  in_range :
      (z : ℤ)
      → not (ltbℤ z (pos 0) || not (ltbℤ z (pos max_bid_slots))) ≡ true
      → z ≡ pos (pos_part z)
  in_range z h = ground arith

  placed-Holds :
      (at : JsNumber) (b : RevealedBid) (p s c : ℤ) (slots out : SlotData) (i : ℕ)
      → IsSized slots
      → i < max_bid_slots
      → not (is_outside at) ≡ true
      → big b.price ≡ some p
      → big b.salt ≡ some s
      → big b.commitment ≡ some c
      → IsSame (placed at b.bidder p s c slots) out i
      → Holds slots out i (if is_slot at i then some b else none)
  unfolding Holds
  placed-Holds not_finite b p s c slots out i z l inside ep es ec same = same
  placed-Holds (fraction k) b p s c slots out i z l inside ep es ec same = same
  placed-Holds (integer k) b p s c slots out i z l inside ep es ec same =
      let at : k ≡ pos (pos_part k) = in_range k inside in
      elim (Bool-cases (eqbℤ k (pos i))) [
        | inl here ↦
            let here_at : pos_part k ≡ i = ap pos_part (eqbℤ→eq k (pos i) here) in
            rw here (record {
              bidder =
                  same.bidder
                  ∙ get_or-set_at slots.bidders _ i (some b.bidder) none here_at z.bidders l;
              price =
                  ep
                  ∙ ap some (
                      sym
                        (same.price ∙ get_or-set_at slots.prices _ i p (pos 0) here_at z.prices l));
              salt =
                  es
                  ∙ ap some
                      (sym (same.salt ∙ get_or-set_at slots.salts _ i s (pos 0) here_at z.salts l));
              commitment =
                  ec
                  ∙ ap some (
                      sym (
                        same.commitment
                        ∙ get_or-set_at slots.commitments _ i c (pos 0) here_at z.commitments l));
            })
        | inr other ↦
            let n : pos_part k ≡ i → ⊥ = λ e. not_here k i at e other in
            rw other (record {
              bidder = same.bidder ∙ get_or-set_other slots.bidders _ i (some b.bidder) none n;
              price = same.price ∙ get_or-set_other slots.prices _ i p (pos 0) n;
              salt = same.salt ∙ get_or-set_other slots.salts _ i s (pos 0) n;
              commitment = same.commitment ∙ get_or-set_other slots.commitments _ i c (pos 0) n;
            })
      ]

  fill_slots-Holds :
      (bs : List RevealedBid) (slots out : SlotData) (i : ℕ)
      → IsSized slots
      → i < max_bid_slots
      → fill_slots big bs slots ≡ ok out
      → Holds slots out i (last_bid i bs)
  unfolding fill_slots Holds last_bid
  fill_slots-Holds [] slots out i z l h =
      subst (λ o. IsSame slots o i) (ok_inj h)
        (record { bidder = refl; price = refl; salt = refl; commitment = refl })
  fill_slots-Holds (b ∷ bs) slots out i z l h =
      let (_, ranged, h1) =
        and_then-eq-ok
          (require (not (is_outside b.slot_index)) (SettleError.slot_out_of_range b.slot_index)) _
          h in
      let (p, ep, h2) = and_then-eq-ok (or_fail (big b.price) SettleError.not_numeric) _ h1 in
      let (s, es, h3) = and_then-eq-ok (or_fail (big b.salt) SettleError.not_numeric) _ h2 in
      let (c, ec, h4) = and_then-eq-ok (or_fail (big b.commitment) SettleError.not_numeric) _ h3 in
      let rest =
        fill_slots-Holds bs (placed b.slot_index b.bidder p s c slots) out i
          (placed-IsSized b.slot_index b.bidder p s c slots z) l h4 in
      elim (Option-cases (last_bid i bs)) [
        | inr (later, e) ↦ rw (e, Holds, last_bid) (rw e at rest)
        | inl e ↦
            rw (e, last_bid)
              (placed-Holds b.slot_index b p s c slots out i z l
                (require-true _ (SettleError.slot_out_of_range b.slot_index) ranged)
                (or_fail-some _ SettleError.not_numeric ep)
                (or_fail-some _ SettleError.not_numeric es)
                (or_fail-some _ SettleError.not_numeric ec) (rw e at rest))
      ]

-- The slots that the proof starts from: each of the eight holds the last bid that was revealed for it,
-- its three texts read as numbers, and a slot without a bid is empty.
pub fill_slots-empty :
    (big : String → Option ℤ) (bs : List RevealedBid) (out : SlotData) (i : ℕ)
    → i < max_bid_slots
    → fill_slots big bs empty_slots ≡ ok out
    → Holds big empty_slots out i (last_bid i bs)
fill_slots-empty big bs out i l h =
    fill_slots-Holds big bs empty_slots out i
      (record { prices = refl; salts = refl; commitments = refl; bidders = refl }) l h
