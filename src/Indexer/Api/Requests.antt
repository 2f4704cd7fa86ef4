-- ===== src/Indexer/Api/Requests.antt =====
-- indexer/src/api.ts: what the parser lets through, and what the routes answer.
use sealedstellar.Common.{
  ℕ, zero, suc, ◌≤◌, ◌≡◌, ◌⊎◌, refl, ap, subst, true, List, [], ◌∷◌, map, ltb, ok, and_then-eq-ok,
  inl, inr, arith, Bool-cases, Result-cases, length, take,
}
use sealedstellar.Common.Text.{trim, utf16_length}
use sealedstellar.Indexer.Runtime.{Runtime}
use sealedstellar.Indexer.Types.{status_text, AuctionQuery, AuctionPage}
use sealedstellar.Indexer.Store.{Store, to_list_row}
use sealedstellar.Indexer.Query.{query, fetch_rows}
use sealedstellar.Indexer.Api.{
  IndexerError, read_statuses, read_text, no_longer, read_sort, check_bidder, read_limit,
  read_cursor, RawQuery, parse_auction_query, list_auctions, max_limit, max_search_length,
  max_symbol_length, serves_page, failed,
}
use sealedstellar.Indexer.Api.Reading.{
  IsRead, IsSort, IsFrom, ok_inj, read_statuses-texts, read_text-IsRead, read_limit-le,
  no_longer-le, check_bidder-is_account, read_sort-IsSort, read_cursor-IsFrom,
}

-- What the store is asked for, against the raw parameters.
pub record IsServable (rt : Runtime) (raw : RawQuery) (q : AuctionQuery) : Type 0 where
  pub statuses : map status_text q.statuses ≡ raw.statuses
  pub asset_symbol :
      IsRead (λ r. utf16_length r ≤ max_symbol_length) raw.asset_symbol q.asset_symbol
  pub search : IsRead (λ r. utf16_length r ≤ max_search_length) raw.search q.search
  pub bidder : IsRead (λ r. rt.is_account (trim r) ≡ true) raw.bidder q.bidder
  pub sort : IsSort raw.sort q.sort
  pub limit : (1 ≤ q.limit) × (q.limit ≤ max_limit)
  pub cursor : IsFrom rt raw.cursor q.cursor

-- A query that the parser accepts has exactly the statuses asked for; each of its three texts is none where
-- the raw one is missing or blank, and else the trimmed raw one; where they are set, the raw asset symbol and
-- the raw search are within their lengths and the trimmed bidder is an account; its order is the one that
-- is named, or closing soonest where none is; its limit is from 1 to 100; and its cursor is the decoded one, or none
-- where none is given.
pub parse_auction_query-IsServable :
    (rt : Runtime) (raw : RawQuery) (q : AuctionQuery)
    → parse_auction_query rt raw ≡ ok q
    → IsServable rt raw q
unfolding parse_auction_query
parse_auction_query-IsServable rt raw q h =
    let (statuses, a, h1) = and_then-eq-ok (read_statuses raw.statuses) _ h in
    let (asset, b, h2) =
      and_then-eq-ok
        (read_text (no_longer max_symbol_length "assetSymbol is too long") raw.asset_symbol) _ h1 in
    let (search, c, h3) =
      and_then-eq-ok (read_text (no_longer max_search_length "search is too long") raw.search) _
        h2 in
    let (bidder, d, h4) = and_then-eq-ok (read_text (check_bidder rt) raw.bidder) _ h3 in
    let (sort, e, h5) = and_then-eq-ok (read_sort raw.sort) _ h4 in
    let (limit, f, h6) = and_then-eq-ok (read_limit rt raw.limit) _ h5 in
    let (cursor, g, h7) = and_then-eq-ok (read_cursor rt raw.cursor) _ h6 in
    subst (IsServable rt raw) (ok_inj h7) (record {
      statuses = read_statuses-texts raw.statuses statuses a;
      asset_symbol =
          read_text-IsRead _ _ (no_longer-le max_symbol_length "assetSymbol is too long")
            raw.asset_symbol asset b;
      search =
          read_text-IsRead _ _ (no_longer-le max_search_length "search is too long") raw.search
            search c;
      bidder = read_text-IsRead _ _ (check_bidder-is_account rt) raw.bidder bidder d;
      sort = read_sort-IsSort raw.sort sort e;
      limit = read_limit-le rt raw.limit limit f;
      cursor = read_cursor-IsFrom rt raw.cursor cursor g;
    })

length-take_le {ℓ} : {A : Type ℓ} (n : ℕ) (xs : List A) → length (take n xs) ≤ n
length-take_le zero xs = omega arith
length-take_le (suc n) [] = omega arith
length-take_le (suc n) (x ∷ xs) = omega (arith, length-take_le n xs)

length-map {ℓ κ} :
    {A : Type ℓ} {B : Type κ} (f : A → B) (xs : List A) → length (map f xs) ≡ length xs
length-map f [] = refl
length-map f (x ∷ xs) = ap suc (length-map f xs)

query-length : (rt : Runtime) (q : AuctionQuery) (s : Store) → length (query rt q s).rows ≤ q.limit
unfolding query
query-length rt q s = elim (Bool-cases (ltb q.limit (length (fetch_rows rt q s)))) [
  | inl more ↦ rw more (
      omega (
        arith,
        length-map to_list_row (take q.limit (fetch_rows rt q s)),
        length-take_le q.limit (fetch_rows rt q s),
      ))
  | inr all ↦ rw all (
      let few : length (fetch_rows rt q s) ≤ q.limit = ground arith in
      omega (arith, length-map to_list_row (fetch_rows rt q s)))
]

-- Whatever the parameters, the list's route answers 400 or a page of at most 100 auctions.
pub list_auctions-bounded :
    (rt : Runtime) (raw : RawQuery) (s : Store)
    → ((e : IndexerError) × (list_auctions rt raw s ≡ failed 400 e))
      ⊎ ((page : AuctionPage) × (list_auctions rt raw s ≡ serves_page page)
          × (length page.rows ≤ max_limit))
unfolding list_auctions
list_auctions-bounded rt raw s = elim (Result-cases (parse_auction_query rt raw)) [
  | inr (e, h) ↦ inl (e, rw (h, list_auctions) refl)
  | inl (q, h) ↦
      let (low, high) = (parse_auction_query-IsServable rt raw q h).limit in
      inr (query rt q s, rw (h, list_auctions) refl, omega (arith, query-length rt q s))
]
