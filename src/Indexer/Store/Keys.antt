-- ===== src/Indexer/Store/Keys.antt =====
-- indexer/src/store.ts: what the writes keep true of the tables: unique keys, known statuses, flags.
use sealedstellar.Common.{
  ℕ, ◌≤◌, ◌≡◌, ◌≢◌, refl, sym, subst, Bool, true, false, String, List, [], ◌∷◌, ◌++◌, none, inl,
  inr, arith, any, All, All_mono, ◌==◌, if◌then◌else◌, Bool-cases, Option-cases,
}
use sealedstellar.Common.Sorting.{Pairwise}
use sealedstellar.Indexer.Types.{
  AuctionStatus, opened, settled, refunded, status_text, Core, Row, Bid,
}
use sealedstellar.Indexer.Store.{
  Store, empty_store, flag, fresh_row, refresh_row, update_rows, update, find_row, has_auction,
  upsert_core, is_slot, insert_bid, record_bid, mark_settled, mark_refunded, set_lot_reclaimed,
  set_cursor, parse_status, OtherId, OtherSlot, Write, upserts, bids_at, settles, refunds, reclaims,
  moves_to, write, write_all,
}

abbrev pub HasStatus : Row → Type 0
HasStatus row = (st : AuctionStatus) × (row.status ≡ status_text st)

abbrev pub HasFlag : Row → Type 0
HasFlag row = row.lot_reclaimed ≤ 1

-- Primary keys are unique, and every row holds a known status and a 0 or 1.
pub record IsValid (s : Store) : Type 0 where
  pub ids : Pairwise OtherId s.auctions
  pub slots : Pairwise OtherSlot s.bids
  pub statuses : All HasStatus s.auctions
  pub flags : All HasFlag s.auctions

module _ {ℓ} {A : Type ℓ} where
  pub All-snoc {κ} : (P : A → Type κ) (xs : List A) (x : A) → All P xs → P x → All P (xs ++ x ∷ [])
  All-snoc P [] x h p = (p, tt)
  All-snoc P (y ∷ xs) x h p = (h.0, All-snoc P xs x h.1 p)

  pub Pairwise-snoc :
      (R : A → A → Type 0) (xs : List A) (x : A)
      → Pairwise R xs
      → All (λ y. R y x) xs
      → Pairwise R (xs ++ x ∷ [])
  Pairwise-snoc R [] x h k = (tt, tt)
  Pairwise-snoc R (y ∷ xs) x h k = (All-snoc (R y) xs x h.0 k.0, Pairwise-snoc R xs x h.1 k.1)

pub All-update_rows :
    (P : Row → Type 0) (id : ℕ) (f : Row → Row) (rows : List Row)
    → ((r : Row) → P r → P (f r))
    → All P rows
    → All P (update_rows id f rows)
unfolding update_rows
All-update_rows P id f [] k h = tt
All-update_rows P id f (r ∷ rows) k h = elim (Bool-cases (r.id == id)) [
  | inl hit ↦ rw (hit, if◌then◌else◌) (k r h.0, All-update_rows P id f rows k h.1)
  | inr miss ↦ rw (miss, if◌then◌else◌) (h.0, All-update_rows P id f rows k h.1)
]

-- An update leaves the ids alone.
abbrev pub KeepsId : (Row → Row) → Type 0
KeepsId f = (r : Row) → (f r).id ≡ r.id

OtherId-update :
    (id : ℕ) (f : Row → Row) (r : Row) (rows : List Row)
    → KeepsId f
    → All (OtherId r) rows
    → All (OtherId r) (update_rows id f rows)
OtherId-update id f r rows k h = All-update_rows (OtherId r) id f rows (λ b n. rw (k b) n) h

pub Pairwise-update_rows :
    (id : ℕ) (f : Row → Row) (rows : List Row)
    → KeepsId f
    → Pairwise OtherId rows
    → Pairwise OtherId (update_rows id f rows)
unfolding update_rows
Pairwise-update_rows id f [] k h = tt
Pairwise-update_rows id f (r ∷ rows) k h =
    let rest = OtherId-update id f r rows k h.0 in
    elim (Bool-cases (r.id == id)) [
      | inl hit ↦
          rw (hit, if◌then◌else◌)
            (
              subst (λ i. All (λ (b : Row). i ≢ b.id) (update_rows id f rows)) (sym (k r)) rest,
              Pairwise-update_rows id f rows k h.1,
            )
      | inr miss ↦ rw (miss, if◌then◌else◌) (rest, Pairwise-update_rows id f rows k h.1)
    ]

update-IsValid :
    (id : ℕ) (f : Row → Row) (s : Store)
    → KeepsId f
    → ((r : Row) → HasStatus r → HasStatus (f r))
    → ((r : Row) → HasFlag r → HasFlag (f r))
    → IsValid s
    → IsValid (update id f s)
update-IsValid id f s k st fl v = record {
  ids = Pairwise-update_rows id f s.auctions k v.ids;
  slots = v.slots;
  statuses = All-update_rows HasStatus id f s.auctions st v.statuses;
  flags = All-update_rows HasFlag id f s.auctions fl v.flags;
}

pub has_auction-false :
    (id : ℕ) (rows : List Row) → find_row id rows ≡ none → All (λ r. r.id ≢ id) rows
unfolding find_row
has_auction-false id [] e = tt
has_auction-false id (r ∷ rows) e = elim (Bool-cases (r.id == id)) [
  | inl hit ↦ ground arith
  | inr miss ↦ (ground arith, has_auction-false id rows (ground arith))
]

any-All : (p : Bid → Bool) (bids : List Bid) → any p bids ≡ false → All (λ b. p b ≡ false) bids
any-All p [] e = tt
any-All p (b ∷ bids) e = (ground arith, any-All p bids (ground arith))

flag-le : (b : Bool) → flag b ≤ 1
flag-le true = omega arith
flag-le false = omega arith

insert_bid-slots :
    (id slot : ℕ) (bidder : String) (bids : List Bid)
    → Pairwise OtherSlot bids
    → Pairwise OtherSlot (insert_bid id slot bidder bids)
unfolding insert_bid
insert_bid-slots id slot bidder bids h = elim (Bool-cases (any (is_slot id slot) bids)) [
  | inl taken ↦ rw (taken, if◌then◌else◌) h
  | inr free ↦
      rw (free, if◌then◌else◌)
        (Pairwise-snoc OtherSlot bids _ h (
          All_mono (λ b. is_slot id slot b ≡ false) _ bids (λ b e. ground arith)
            (any-All (is_slot id slot) bids free)))
]

upsert_core-IsValid : (core : Core) (s : Store) → IsValid s → IsValid (upsert_core core s)
unfolding upsert_core has_auction refresh_row fresh_row
upsert_core-IsValid core s v = elim (Option-cases (find_row core.id s.auctions)) [
  | inl new ↦
      rw (new, has_auction)
        (record {
          ids =
              Pairwise-snoc OtherId s.auctions (fresh_row core) v.ids
                (has_auction-false core.id s.auctions new);
          slots = v.slots;
          statuses = All-snoc HasStatus s.auctions (fresh_row core) v.statuses (core.status, refl);
          flags = All-snoc HasFlag s.auctions (fresh_row core) v.flags (flag-le core.lot_reclaimed);
        })
  | inr (row, old) ↦
      rw (old, has_auction)
        (update-IsValid core.id (refresh_row core) s (λ r. refl) (λ r h. (core.status, refl))
          (λ r h. flag-le core.lot_reclaimed) v)
]

record_bid-IsValid :
    (id slot : ℕ) (bidder : String) (s : Store) → IsValid s → IsValid (record_bid id slot bidder s)
unfolding record_bid
record_bid-IsValid id slot bidder s v = record {
  ids = Pairwise-update_rows id _ s.auctions (λ r. refl) v.ids;
  slots = insert_bid-slots id slot bidder s.bids v.slots;
  statuses = All-update_rows HasStatus id _ s.auctions (λ r h. h) v.statuses;
  flags = All-update_rows HasFlag id _ s.auctions (λ r h. h) v.flags;
}

-- Every write keeps the keys unique, the statuses known and the flags 0 or 1.
pub write-IsValid : (w : Write) (s : Store) → IsValid s → IsValid (write w s)
unfolding write mark_settled mark_refunded set_lot_reclaimed set_cursor
write-IsValid (upserts core) s v = upsert_core-IsValid core s v
write-IsValid (bids_at id slot bidder) s v = record_bid-IsValid id slot bidder s v
write-IsValid (settles id price winner tx) s v =
    update-IsValid id _ s (λ r. refl) (λ r h. (settled, refl)) (λ r h. h) v
write-IsValid (refunds id) s v =
    update-IsValid id _ s (λ r. refl) (λ r h. (refunded, refl)) (λ r h. h) v
write-IsValid (reclaims id reclaimed) s v =
    update-IsValid id _ s (λ r. refl) (λ r h. h) (λ r h. flag-le reclaimed) v
write-IsValid (moves_to ledger cursor) s v = record {
  ids = v.ids;
  slots = v.slots;
  statuses = v.statuses;
  flags = v.flags;
}

write_all-IsValid : (ws : List Write) (s : Store) → IsValid s → IsValid (write_all ws s)
unfolding write_all
write_all-IsValid [] s v = v
write_all-IsValid (w ∷ ws) s v = write_all-IsValid ws (write w s) (write-IsValid w s v)

-- Any history of writes on a fresh database leaves unique keys in both tables, known statuses and flags
-- of 0 or 1.
pub write_all-empty-IsValid : (ws : List Write) → IsValid (write_all ws empty_store)
write_all-empty-IsValid ws =
    write_all-IsValid ws empty_store (record { ids = tt; slots = tt; statuses = tt; flags = tt })

-- A stored status is read back as it was written: the default of the parser is never used.
pub parse_status-status_text : (st : AuctionStatus) → parse_status (status_text st) ≡ st
unfolding parse_status
parse_status-status_text opened = refl
parse_status-status_text settled = refl
parse_status-status_text refunded = refl
