-- ===== src/Indexer/Store/Replay.antt =====
-- indexer/src/store.ts: writes that are repeated, as when `syncEvents` reads a ledger again, and the
-- count that `recordBid` stores.
use sealedstellar.Common.{
  ℕ, ◌≡◌, refl, sym, ap, ◌∙◌, Bool, true, false, ◌||◌, String, List, [], ◌∷◌, ◌++◌, none, some,
  arith, any, ◌==◌, Bool-cases, inl, inr,
}
use sealedstellar.Indexer.Types.{Core, Row, Bid}
use sealedstellar.Indexer.Store.{
  Store, fresh_row, refresh_row, update_rows, update, find_row, has_auction, upsert_core, is_slot,
  insert_bid, count_bids, set_count, record_bid, mark_settled, mark_refunded, set_lot_reclaimed,
  set_cursor, Write, upserts, bids_at, settles, refunds, reclaims, moves_to, write,
}
use sealedstellar.Indexer.Store.Keys.{KeepsId}

update_rows-again :
    (id : ℕ) (f : Row → Row) (rs : List Row)
    → KeepsId f
    → ((r : Row) → f (f r) ≡ f r)
    → update_rows id f (update_rows id f rs) ≡ update_rows id f rs
unfolding update_rows
update_rows-again id f [] k h = refl
update_rows-again id f (r ∷ rs) k h = elim (Bool-cases (r.id == id)) [
  | inl here ↦
      let again : ((f r).id == id) ≡ true = ap (λ n. n == id) (k r) ∙ here in
      rw (here, again, h r, update_rows-again id f rs k h) refl
  | inr other ↦ rw (other, other, update_rows-again id f rs k h) refl
]

update-again :
    (id : ℕ) (f : Row → Row) (s : Store)
    → KeepsId f
    → ((r : Row) → f (f r) ≡ f r)
    → update id f (update id f s) ≡ update id f s
update-again id f s k h =
    ap (λ rows. record s { auctions = rows }) (update_rows-again id f s.auctions k h)

any-snoc {ℓ} :
    {A : Type ℓ} (p : A → Bool) (xs : List A) (x : A) → p x ≡ true → any p (xs ++ x ∷ []) ≡ true
any-snoc p [] x h = rw h refl
any-snoc p (y ∷ ys) x h = rw (any-snoc p ys x h) (or_true (p y))
  where
    or_true : (b : Bool) → (b || true) ≡ true
    or_true true = refl
    or_true false = refl

==-self : (n : ℕ) → (n == n) ≡ true
==-self n = ground arith

-- The slot is taken after a bid was inserted, whoever holds it.
insert_bid-again :
    (id slot : ℕ) (bidder other : String) (bids : List Bid)
    → insert_bid id slot other (insert_bid id slot bidder bids) ≡ insert_bid id slot bidder bids
unfolding insert_bid
insert_bid-again id slot bidder other bids = elim (Bool-cases (any (is_slot id slot) bids)) [
  | inl taken ↦ rw (taken, taken) refl
  | inr free ↦
      let new : Bid = record { auction_id = id; slot_index = slot; bidder = bidder } in
      let taken = any-snoc (is_slot id slot) bids new (rw (==-self id, ==-self slot) refl) in
      rw (free, taken) refl
]

-- The first bid of a slot stands: recording the slot again, for whichever bidder, changes nothing.
pub record_bid-again :
    (id slot : ℕ) (bidder other : String) (s : Store)
    → record_bid id slot other (record_bid id slot bidder s) ≡ record_bid id slot bidder s
unfolding record_bid
record_bid-again id slot bidder other s =
    let bids : List Bid = insert_bid id slot bidder s.bids in
    rw (insert_bid-again id slot bidder other s.bids) (
      update-again id (set_count (count_bids id bids)) (record s { bids = bids }) (λ r. refl)
        (λ r. refl))

has_id : ℕ → Row → Bool
has_id id r = r.id == id

find_row-any :
    (id : ℕ) (rows : List Row)
    → elim (find_row id rows) as (λ o. Bool) [ none ↦ false | some row ↦ true ]
      ≡ any (has_id id) rows
unfolding find_row has_id
find_row-any id [] = refl
find_row-any id (r ∷ rs) = elim (Bool-cases (r.id == id)) [
  | inl here ↦ rw (here, find_row) refl
  | inr other ↦ rw (other, find_row) (find_row-any id rs)
]

has_auction-any : (id : ℕ) (s : Store) → has_auction id s ≡ any (has_id id) s.auctions
unfolding has_auction
has_auction-any id s = find_row-any id s.auctions

any-update_rows :
    (id : ℕ) (f : Row → Row) (rs : List Row)
    → KeepsId f
    → any (has_id id) (update_rows id f rs) ≡ any (has_id id) rs
unfolding update_rows has_id
any-update_rows id f [] k = refl
any-update_rows id f (r ∷ rs) k = elim (Bool-cases (r.id == id)) [
  | inl here ↦
      let again : ((f r).id == id) ≡ true = ap (λ n. n == id) (k r) ∙ here in rw (here, again) refl
  | inr other ↦ rw (other, other) (any-update_rows id f rs k)
]

update_rows-absent :
    (id : ℕ) (f : Row → Row) (rs : List Row) (x : Row)
    → any (has_id id) rs ≡ false
    → (x.id == id) ≡ true
    → f x ≡ x
    → update_rows id f (rs ++ x ∷ []) ≡ rs ++ x ∷ []
unfolding update_rows has_id
update_rows-absent id f [] x h e k = rw (e, k) refl
update_rows-absent id f (r ∷ rs) x h e k = elim (Bool-cases (r.id == id)) [
  | inl here ↦ absurd (let h' = rw here at h in cc)
  | inr other ↦ rw other (ap (◌∷◌ r) (update_rows-absent id f rs x (rw other at h) e k))
]

upsert_core-again :
    (core : Core) (s : Store) → upsert_core core (upsert_core core s) ≡ upsert_core core s
unfolding upsert_core refresh_row fresh_row has_id
upsert_core-again core s =
    let here_id : (core.id == core.id) ≡ true = ==-self core.id in
    elim (Bool-cases (has_auction core.id s)) [
      | inl old ↦
          let still : has_auction core.id (update core.id (refresh_row core) s) ≡ true =
            has_auction-any core.id _
            ∙ any-update_rows core.id (refresh_row core) s.auctions (λ r. refl)
            ∙ sym (has_auction-any core.id s)
            ∙ old in
          rw (old, upsert_core, still)
            (update-again core.id (refresh_row core) s (λ r. refl) (λ r. refl))
      | inr new ↦
          let absent = sym (has_auction-any core.id s) ∙ new in
          let here : has_auction core.id (record s { auctions = s.auctions ++ fresh_row core ∷ [] })
              ≡ true =
            has_auction-any core.id _
            ∙ any-snoc (has_id core.id) s.auctions (fresh_row core) here_id in
          rw (new, upsert_core, here)
            (ap (λ rows. record s { auctions = rows })
              (update_rows-absent core.id (refresh_row core) s.auctions (fresh_row core) absent
                here_id refl))
    ]

-- Every write can be repeated: done twice in a row, it leaves what it left the first time.
pub write-again : (w : Write) (s : Store) → write w (write w s) ≡ write w s
unfolding write mark_settled mark_refunded set_lot_reclaimed set_cursor
write-again (upserts core) s = upsert_core-again core s
write-again (bids_at id slot bidder) s = record_bid-again id slot bidder bidder s
write-again (settles id price winner tx) s = update-again id _ s (λ r. refl) (λ r. refl)
write-again (refunds id) s = update-again id _ s (λ r. refl) (λ r. refl)
write-again (reclaims id reclaimed) s = update-again id _ s (λ r. refl) (λ r. refl)
write-again (moves_to ledger cursor) s = refl
