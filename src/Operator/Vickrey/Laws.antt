-- ===== src/Operator/Vickrey/Laws.antt =====
-- web/src/lib/operator.ts, `selectVickreyOutcome`: what the two passes find.
use sealedstellar.Common.{
  ℕ, zero, suc, ◌+◌, ◌<◌, ◌≡◌, ◌≢◌, ◌↔◌, refl, ◌⊎◌, inl, inr, true, List, [], ◌∷◌, some, arith,
  get_elem?, Bool-cases,
}
use sealedstellar.Common.Int.{ℤ, pos, negsuc, ltbℤ, eqbℤ, ◌≤ℤ◌, ◌<ℤ◌, eqbℤ→eq, ℤ_eq_of_parts}
use sealedstellar.Operator.Vickrey.{
  Leader, no_leader, challenge, find_winner, raise, find_clearing, select_vickrey_outcome,
}

-- No price of the list exceeds the bound.
abbrev pub AtMost : ℤ → List ℤ → Type 0
AtMost top ps = (j : ℕ) (p : ℤ) → get_elem? ps j ≡ some p → p ≤ℤ top

-- Every price before the position lies strictly below the bound.
abbrev pub BelowBefore : ℤ → ℕ → List ℤ → Type 0
BelowBefore top k ps = (j : ℕ) (p : ℤ) → j < k → get_elem? ps j ≡ some p → p <ℤ top

-- The state after the first loop: the leader it started with, or the first highest price.
abbrev Leads : ℕ → Leader → List ℤ → Leader → Type 0
Leads i b ps r =
    ((r ≡ b) × AtMost b.price ps)
    ⊎ ((k : ℕ) × (r.index ≡ pos (i + k))
        × (get_elem? ps k ≡ some r.price)
        × (b.price <ℤ r.price)
        × AtMost r.price ps
        × BelowBefore r.price k ps)

AtMost-cons : (top p : ℤ) (ps : List ℤ) → p ≤ℤ top → AtMost top ps → AtMost top (p ∷ ps)
AtMost-cons top p ps h t zero q e = ground arith
AtMost-cons top p ps h t (suc j) q e = t j q e

BelowBefore-cons :
    (top p : ℤ) (k : ℕ) (ps : List ℤ)
    → p <ℤ top
    → BelowBefore top k ps
    → BelowBefore top (suc k) (p ∷ ps)
BelowBefore-cons top p k ps h t zero q l e = ground arith
BelowBefore-cons top p k ps h t (suc j) q l e = t j q (omega arith) e

module _ (i : ℕ) (b : Leader) (p : ℤ) (ps : List ℤ) (r : Leader) where
  Leads-taken :
      b.price <ℤ p → Leads (suc i) (record { index = pos i; price = p }) ps r → Leads i b (p ∷ ps) r
  Leads-taken h (inl (e, t)) = inr (
    0,
    ground arith,
    ground arith,
    ground arith,
    AtMost-cons r.price p ps (ground arith) (rw e t),
    λ j q l e'. absurd (omega arith),
  )
  Leads-taken h (inr (k, at, got, up, t, before)) = inr (
    suc k,
    ground arith,
    got,
    omega arith,
    AtMost-cons r.price p ps (omega arith) t,
    BelowBefore-cons r.price p k ps up before,
  )

  Leads-kept : ¬ (b.price <ℤ p) → Leads (suc i) b ps r → Leads i b (p ∷ ps) r
  Leads-kept h (inl (e, t)) = inl (e, AtMost-cons b.price p ps (omega arith) t)
  Leads-kept h (inr (k, at, got, up, t, before)) = inr (
    suc k,
    ground arith,
    got,
    up,
    AtMost-cons r.price p ps (omega arith) t,
    BelowBefore-cons r.price p k ps (omega arith) before,
  )

find_winner-Leads : (i : ℕ) (b : Leader) (ps : List ℤ) → Leads i b ps (find_winner i b ps)
unfolding find_winner challenge
find_winner-Leads i b [] = inl (refl, λ j p e. absurd (cc))
find_winner-Leads i b (p ∷ ps) = elim (Bool-cases (ltbℤ b.price p)) [
  | inl up ↦
      rw (up, find_winner, challenge)
        (Leads-taken i b p ps _ (ground arith) (find_winner-Leads (suc i) _ ps))
  | inr no_more ↦
      rw (no_more, find_winner, challenge)
        (Leads-kept i b p ps _ (ground arith) (find_winner-Leads (suc i) b ps))
]

-- The second loop: an upper bound of the other slots, which one of them reaches.
abbrev OthersAtMost : ℤ → ℕ → ℤ → List ℤ → Type 0
OthersAtMost w i top ps = (j : ℕ) (p : ℤ) → get_elem? ps j ≡ some p → pos (i + j) ≢ w → p ≤ℤ top

abbrev Clears : ℤ → ℕ → ℤ → List ℤ → ℤ → Type 0
Clears w i best ps r =
    (best ≤ℤ r)
    × OthersAtMost w i r ps
    × ((r ≡ best) ⊎ ((k : ℕ) × (get_elem? ps k ≡ some r) × (pos (i + k) ≢ w) × (best <ℤ r)))

OthersAtMost-cons :
    (w : ℤ) (i : ℕ) (top p : ℤ) (ps : List ℤ)
    → (pos i ≢ w → p ≤ℤ top)
    → OthersAtMost w (suc i) top ps
    → OthersAtMost w i top (p ∷ ps)
OthersAtMost-cons w i top p ps h t zero q e n = ground (arith, h (λ e'. n (ground arith)))
OthersAtMost-cons w i top p ps h t (suc j) q e n = t j q e (λ e'. n (ground arith))

eqbℤ_refl : (a : ℤ) → eqbℤ a a ≡ true
eqbℤ_refl (pos n) = ground arith
eqbℤ_refl (negsuc n) = ground arith

-- One round of the second loop.
raise_cases :
    (w : ℤ) (i : ℕ) (p best : ℤ)
    → (best ≤ℤ raise w i p best)
      × (pos i ≢ w → p ≤ℤ raise w i p best)
      × ((raise w i p best ≡ best) ⊎ ((raise w i p best ≡ p) × (pos i ≢ w) × (best <ℤ p)))
unfolding raise
raise_cases w i p best = elim (Bool-cases (eqbℤ (pos i) w)) [
  | inl own ↦ rw own (omega arith, λ n. absurd (n (eqbℤ→eq _ _ own)), inl refl)
  | inr other ↦ elim (Bool-cases (ltbℤ best p)) [
    | inl up ↦
        rw (other, up)
          (
            ground arith,
            λ n. omega arith,
            inr (refl, λ e. absurd (ground (arith, eqbℤ_refl (pos i))), ground arith),
          )
    | inr no_more ↦ rw (other, no_more) (omega arith, λ n. ground arith, inl refl)
  ]
]

Clears-cons :
    (w : ℤ) (i : ℕ) (best p : ℤ) (ps : List ℤ) (r : ℤ)
    → Clears w (suc i) (raise w i p best) ps r
    → Clears w i best (p ∷ ps) r
Clears-cons w i best p ps r (grown, others, inl e) =
    let (up, own, from) = raise_cases w i p best in
    (
      omega arith,
      OthersAtMost-cons w i r p ps (λ n. let h = own n in omega arith) others,
      elim from [
        | inl same ↦ inl (ground arith)
        | inr (new, n, h) ↦ inr (0, ground arith, λ e'. n (ground arith), ground arith)
      ],
    )
Clears-cons w i best p ps r (grown, others, inr (k, got, n, h)) =
    let (up, own, from) = raise_cases w i p best in
    (
      omega arith,
      OthersAtMost-cons w i r p ps (λ m. let h' = own m in omega arith) others,
      inr (suc k, got, λ e'. n (ground arith), omega arith),
    )

find_clearing-Clears :
    (w : ℤ) (i : ℕ) (best : ℤ) (ps : List ℤ) → Clears w i best ps (find_clearing w i best ps)
unfolding find_clearing
find_clearing-Clears w i best [] = (omega arith, λ j p e n. absurd (cc), inl refl)
find_clearing-Clears w i best (p ∷ ps) =
    Clears-cons w i best p ps _ (find_clearing-Clears w (suc i) (raise w i p best) ps)

-- A second-price outcome, described without the loops: slot `w` holds the highest price and is the
-- first to do so, and the clearing price is the highest of the other slots' prices and zero.
pub record IsVickrey (prices : List ℤ) (w : ℕ) (top clearing : ℤ) : Type 0 where
  pub holds : get_elem? prices w ≡ some top
  pub highest : AtMost top prices
  pub first : BelowBefore top w prices
  pub not_negative : pos 0 ≤ℤ clearing
  pub others : (j : ℕ) (p : ℤ) → get_elem? prices j ≡ some p → j ≢ w → p ≤ℤ clearing
  pub reached : (clearing ≡ pos 0) ⊎ ((k : ℕ) × (get_elem? prices k ≡ some clearing) × (k ≢ w))

IsVickrey-of :
    (prices : List ℤ) (w : ℕ) (r : Leader) (clearing : ℤ)
    → r.index ≡ pos w
    → Leads 0 no_leader prices r
    → Clears r.index 0 (pos 0) prices clearing
    → IsVickrey prices w r.price clearing
IsVickrey-of prices w r clearing e (inl (none_led, t)) c = absurd (ground arith)
IsVickrey-of prices w r clearing e (inr (k, at, got, up, t, before)) (grown, others, from) =
    let same : k ≡ w = ground arith in
    record {
      holds = rw (← same) got;
      highest = t;
      first = rw (← same) before;
      not_negative = grown;
      others = λ j p e' n. others j p e' (λ e''. n (ground arith));
      reached = elim from [
        | inl zero_left ↦ inl zero_left
        | inr (j, got', n, h) ↦ inr (j, got', λ e'. n (ground arith))
      ];
    }

-- When the code names a winning slot, its outcome is the second-price outcome of the prices.
pub select_vickrey_outcome-IsVickrey :
    (prices : List ℤ) (w : ℕ)
    → (select_vickrey_outcome prices).winner_index ≡ pos w
    → IsVickrey prices w
        (select_vickrey_outcome prices).winner_price
        (select_vickrey_outcome prices).clearing_price
unfolding select_vickrey_outcome
select_vickrey_outcome-IsVickrey prices w e =
    IsVickrey-of prices w (find_winner 0 no_leader prices) _ e
      (find_winner-Leads 0 no_leader prices) (find_clearing-Clears _ 0 (pos 0) prices)

-- The code names a winning slot as soon as some price is not negative, and only then.
pub winner_index_iff :
    (prices : List ℤ)
    → ((w : ℕ) × ((select_vickrey_outcome prices).winner_index ≡ pos w))
      ↔ ((j : ℕ) × (p : ℤ) × (get_elem? prices j ≡ some p) × (pos 0 ≤ℤ p))
unfolding select_vickrey_outcome
winner_index_iff prices = elim (find_winner-Leads 0 no_leader prices) [
  | inl (e, t) ↦ (
    λ (w, at). absurd (ground arith),
    λ (j, p, got, h). absurd (let h' = t j p got in omega arith),
  )
  | inr (k, at, got, up, t, before) ↦ (
    λ led. (k, (find_winner 0 no_leader prices).price, got, omega arith),
    λ some_price. (k, ground arith),
  )
]

clearing-le :
    (prices : List ℤ) (w : ℕ) (top high clearing second : ℤ)
    → IsVickrey prices w top clearing
    → IsVickrey prices w high second
    → clearing ≤ℤ second
clearing-le prices w top high clearing second p q = elim p.reached [
  | inl e ↦ rw e q.not_negative
  | inr (k, got, n) ↦ q.others k clearing got n
]

-- The description leaves no freedom: two second-price outcomes of the same prices are equal.
pub IsVickrey-unique :
    (prices : List ℤ) (w v : ℕ) (top high clearing second : ℤ)
    → IsVickrey prices w top clearing
    → IsVickrey prices v high second
    → (w ≡ v) × (top ≡ high) × (clearing ≡ second)
IsVickrey-unique prices w v top high clearing second p q =
    let a = p.highest v high q.holds in
    let b = q.highest w top p.holds in
    let same : w ≡ v = ground (arith, p.first v high, q.first w top) in
    let q' : IsVickrey prices w high second = rw same q in
    let c = clearing-le prices w top high clearing second p q' in
    let d = clearing-le prices w high top second clearing q' p in
    (same, ℤ_eq_of_parts top high (omega arith), ℤ_eq_of_parts clearing second (omega arith))
