-- ===== src/Contract/Life.antt =====
-- contracts/auction/src/lib.rs: every call moves each stored auction along its life.
use sealedstellar.Common.{
  ℕ, ◌≡◌, ◌≢◌, refl, subst, ◌∙◌, true, false, some, ◌==◌, arith, Bool-cases, inl, inr, ◌⊎◌,
}
use sealedstellar.Common.Table.{get_at}
use sealedstellar.Indexer.Types.{opened, refunded}
use sealedstellar.Contract.{Auction, State, deployed}
use sealedstellar.Contract.Machine.{
  Evolves, takes_bid, ends_settled, ends_refunded, keeps_lot, returns_lot, Effect, adds_auction,
  changes_auction, Step, Steps, rests, then_calls,
}
use sealedstellar.Contract.Invariant.{IsSound, Step-Effect, Steps-IsSound, found_put, same_id}

-- The auction is as before, or one event of its life later.
pub Follows : Auction → Auction → Type 0
Follows a a' = (a' ≡ a) ⊎ Evolves a a'

pub Effect-Follows :
    (c c' : State)
    → IsSound c
    → Effect c c'
    → (id : ℕ) (a : Auction) → get_at id c.auctions ≡ some a
    → (a' : Auction) × (get_at id c'.auctions ≡ some a') × Follows a a'
unfolding Follows
Effect-Follows c c' sound (adds_auction new w _ _ _ _ stored _ _) id a found =
    elim (Bool-cases (c.next_auction_id == id)) [
      | inl same ↦ absurd (let unused = sound.fresh id (ground (arith, same)) in cc)
      | inr apart ↦ (a, rw (found_put c c' _ new stored id, apart) found, inl refl)
    ]
Effect-Follows c c' sound (changes_auction key b b' w here evolves _ stored _ _) id a found =
    elim (Bool-cases (key == id)) [
      | inl same ↦
          let here' = rw (same_id key id same) at here in
          let same_auction : b ≡ a = cc in
          (
            b',
            rw (found_put c c' key b' stored id, same) refl,
            inr (subst (λ x. Evolves x b') same_auction evolves),
          )
      | inr apart ↦ (a, rw (found_put c c' key b' stored id, apart) found, inl refl)
    ]

-- After any calls on a new contract, one more call, of any kind and for any auction, leaves each stored
-- auction in the storage, as it was or one event of its life later: an open auction takes a bid, with a
-- new commitment in a free slot, is settled, or is refunded with its lot or without it, and a refunded
-- auction whose lot was kept has it returned.
pub Step-Follows :
    {Proof : Type 0} (c c' : State)
    → Steps Proof deployed c
    → Step Proof c c'
    → (id : ℕ) (a : Auction) → get_at id c.auctions ≡ some a
    → (a' : Auction) × (get_at id c'.auctions ≡ some a') × Follows a a'
Step-Follows c c' before step =
    let sound = Steps-IsSound c before in
    Effect-Follows c c' sound (Step-Effect c c' sound.well_kept step)

-- An auction that ended stays as it is, up to the return of a refunded auction's lot.
pub IsLast : Auction → Auction → Type 0
IsLast a a' =
    (a' ≡ a)
    ⊎ ((a.status ≡ refunded) × (a.lot_reclaimed ≡ false) × (a' ≡ record a { lot_reclaimed = true }))

Follows-IsLast : (a a' : Auction) → a.status ≢ opened → Follows a a' → IsLast a a'
unfolding Follows IsLast
Follows-IsLast a a' ended (inl same) = inl same
Follows-IsLast a _ ended (inr (takes_bid o _ _ _ _)) = absurd (ended o)
Follows-IsLast a _ ended (inr (ends_settled o)) = absurd (ended o)
Follows-IsLast a _ ended (inr (ends_refunded o)) = absurd (ended o)
Follows-IsLast a _ ended (inr (keeps_lot o)) = absurd (ended o)
Follows-IsLast a _ ended (inr (returns_lot r k)) = inr (r, k, refl)

joined :
    {Proof : Type 0} (c c' c'' : State) → Steps Proof c c' → Steps Proof c' c'' → Steps Proof c c''
joined c c' c'' before rests = before
joined c c' c'' before (then_calls d _ more step) =
    then_calls d c'' (joined c c' d before more) step

IsLast-trans : (a b d : Auction) → IsLast a b → IsLast b d → IsLast a d
unfolding IsLast
IsLast-trans a b d (inl p) q = subst (λ x. IsLast x d) p q
IsLast-trans a b d (inr (r, k, p)) (inl q) = inr (r, k, q ∙ p)
IsLast-trans a b d (inr (r, k, p)) (inr (_, k', _)) = absurd (let k'' = rw p at k' in cc)

IsLast-ended : (a b : Auction) → a.status ≢ opened → IsLast a b → b.status ≢ opened
unfolding IsLast
IsLast-ended a b ended (inl p) = rw p ended
IsLast-ended a b ended (inr (r, k, p)) = rw p ended

-- An auction that was settled or refunded after some calls on a new contract is the same after any further
-- calls, but for the lot of a refunded auction, which may be returned once.
pub Steps-IsLast :
    {Proof : Type 0} (c c' : State)
    → Steps Proof deployed c
    → Steps Proof c c'
    → (id : ℕ) (a : Auction) → get_at id c.auctions ≡ some a
    → a.status ≢ opened
    → (a' : Auction) × (get_at id c'.auctions ≡ some a') × IsLast a a'
unfolding IsLast
Steps-IsLast c c' before rests id a found ended = (a, found, inl refl)
Steps-IsLast c c' before (then_calls d _ more step) id a found ended =
    let (b, there, last) = Steps-IsLast c d before more id a found ended in
    let (e, after, follows) = Step-Follows d c' (joined deployed c d before more) step id b there in
    (e, after, IsLast-trans a b e last (Follows-IsLast b e (IsLast-ended a b ended last) follows))
