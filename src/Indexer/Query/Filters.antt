-- ===== src/Indexer/Query/Filters.antt =====
-- indexer/src/store.ts, `query`: the status filter and the total count.
use sealedstellar.Common.{
  ◌<◌, ltb, ◌≡◌, ◌≢◌, refl, sym, ◌↔◌, ◌⊎◌, inl, inr, Bool, true, false, ◌&&◌, List, [], ◌∷◌, arith,
  length, In, any, str_eq, keep,
}
use sealedstellar.Common.Sorting.{Pairwise, sort-length}
use sealedstellar.Indexer.Types.{
  AuctionStatus, opened, settled, refunded, status_text, Row, AuctionQuery,
}
use sealedstellar.Indexer.Runtime.{Runtime}
use sealedstellar.Indexer.Store.{Store}
use sealedstellar.Indexer.Query.{matches_status, query, listing, matches, comes_before}

is_status : (st x : AuctionStatus) → (st ≡ x) ⊎ (str_eq (status_text st) (status_text x) ≡ false)
is_status opened opened = inl refl
is_status settled settled = inl refl
is_status refunded refunded = inl refl
is_status opened settled = inr refl
is_status opened refunded = inr refl
is_status settled opened = inr refl
is_status settled refunded = inr refl
is_status refunded opened = inr refl
is_status refunded settled = inr refl

is_status_self : (st : AuctionStatus) → str_eq (status_text st) (status_text st) ≡ true
is_status_self opened = refl
is_status_self settled = refl
is_status_self refunded = refl

any_status-In :
    (st : AuctionStatus) (statuses : List AuctionStatus)
    → any (λ s. str_eq (status_text st) (status_text s)) statuses ≡ true
    → In st statuses
any_status-In st [] h = absurd (cc)
any_status-In st (x ∷ xs) h = elim (is_status st x) [
  | inl same ↦ In.here same
  | inr other ↦ In.there (any_status-In st xs (rw other at h))
]

In-any_status :
    (st : AuctionStatus) (statuses : List AuctionStatus)
    → In st statuses
    → any (λ s. str_eq (status_text st) (status_text s)) statuses ≡ true
In-any_status st [] i = elim i [ ]
In-any_status st (x ∷ xs) (In.here e) = rw (sym e, is_status_self st) refl
In-any_status st (x ∷ xs) (In.there i) = elim (is_status st x) [
  | inl same ↦ rw (sym same, is_status_self st) refl
  | inr other ↦ rw other (In-any_status st xs i)
]

-- Three different statuses are all of them.
all_statuses : (st a b c : AuctionStatus) → a ≢ b → a ≢ c → b ≢ c → (st ≡ a) ⊎ (st ≡ b) ⊎ (st ≡ c)
all_statuses st a b c p q r = ground arith

&&-false : (b : Bool) → (b && false) ≡ false
&&-false true = refl
&&-false false = refl

-- Three names or more are no condition.
three_names :
    (a b c : AuctionStatus) (more : List AuctionStatus) (row : Row)
    → matches_status (a ∷ b ∷ c ∷ more) row ≡ true
unfolding matches_status
three_names a b c more row =
    let many : ltb (length (a ∷ b ∷ c ∷ more)) 3 ≡ false = ground arith in
    rw (many, &&-false (ltb 0 (length (a ∷ b ∷ c ∷ more)))) refl

-- A status filter that names no status twice lets exactly the rows of the named statuses through.
pub matches_status_iff :
    (statuses : List AuctionStatus) (st : AuctionStatus) (row : Row)
    → 0 < length statuses
    → Pairwise ◌≢◌ statuses
    → row.status ≡ status_text st
    → (matches_status statuses row ≡ true) ↔ In st statuses
unfolding matches_status
matches_status_iff [] st row l d e = absurd (omega arith)
matches_status_iff (a ∷ []) st row l d e =
    rw e (any_status-In st (a ∷ []), In-any_status st (a ∷ []))
matches_status_iff (a ∷ b ∷ []) st row l d e =
    rw e (any_status-In st (a ∷ b ∷ []), In-any_status st (a ∷ b ∷ []))
matches_status_iff (a ∷ b ∷ c ∷ more) st row l ((p, (q, _)), ((r, _), _)) e = (
  λ h. elim (all_statuses st a b c p q r) [
    | inl x ↦ In.here x
    | inr (inl x) ↦ In.there (In.here x)
    | inr (inr x) ↦ In.there (In.there (In.here x))
  ],
  λ i. three_names a b c more row,
)

-- The total count of a page is the number of rows that all the pages together serve.
pub query-total_count :
    (rt : Runtime) (q : AuctionQuery) (s : Store)
    → (query rt q s).total_count ≡ length (listing rt q s)
unfolding query listing
query-total_count rt q s =
    sym (sort-length (comes_before q.sort) (keep (matches rt q s.bids) s.auctions))
