-- ===== src/Indexer/Api.antt =====
-- indexer/src/api.ts: the parser of the list's query and the three routes, behind the rate limit. Hono,
-- the CORS header and the JSON texts are left out.
mod Reading
pub mod Requests
use sealedstellar.Common.{
  ℕ, ◌≤◌, ◌<◌, Bool, true, false, ◌&&◌, String, List, [], ◌∷◌, Option, none, some, str_eq, ltb, leb,
  if◌then◌else◌, Result, ok, err, and_then,
}
use sealedstellar.Common.Int.{pos}
use sealedstellar.Common.Text.{append, trim, utf16_length}
use sealedstellar.Common.Dict.{Dict}
use sealedstellar.RateLimit.{Bucket, indexer_limit, take_token}
use sealedstellar.Indexer.Runtime.{JsNumber, integer, Runtime}
use sealedstellar.Indexer.Types.{
  AuctionStatus, opened, settled, refunded, AuctionSort, closing_soonest, newest, most_bids,
  ListRow, Cursor, AuctionQuery, AuctionPage,
}
use sealedstellar.Indexer.Store.{Store, get_cursor, auction_count, get_by_id}
use sealedstellar.Indexer.Cursor.{decode_cursor}
use sealedstellar.Indexer.Query.{query}

-- `IndexerError`
pub data IndexerError : Type 0 where
  bad_request not_found rate_limited : String → IndexerError

abbrev pub default_limit : ℕ
default_limit = 24

abbrev pub max_limit : ℕ
max_limit = 100

abbrev pub max_search_length : ℕ
max_search_length = 64

abbrev pub max_symbol_length : ℕ
max_symbol_length = 24

-- `VALID_STATUSES` and `VALID_SORTS`
unfoldable pub read_status : String → Result AuctionStatus IndexerError
read_status raw =
    if str_eq raw "Open"
    then ok opened
    else if str_eq raw "Settled"
    then ok settled
    else if str_eq raw "Refunded"
    then ok refunded
    else err (
        bad_request
          (append "unknown status \"" (append raw "\"; expected Open, Settled, or Refunded")))

unfoldable pub read_statuses : List String → Result (List AuctionStatus) IndexerError
unfolding read_status
read_statuses [] = ok []
read_statuses (raw ∷ raws) =
    and_then (read_status raw) (λ st. and_then (read_statuses raws) (λ sts. ok (st ∷ sts)))

-- A parameter that is missing or blank is none; `check` refuses the raw text or lets it through.
unfoldable pub read_text :
    (String → Result (Unit {0}) IndexerError) → Option String → Result (Option String) IndexerError
read_text check none = ok none
read_text check (some raw) =
    if str_eq (trim raw) "" then ok none else and_then (check raw) (λ _. ok (some (trim raw)))

abbrev pub no_longer : ℕ → String → String → Result (Unit {0}) IndexerError
no_longer bound message raw =
    if ltb bound (utf16_length raw) then err (bad_request message) else ok tt

unfoldable pub read_sort : Option String → Result AuctionSort IndexerError
read_sort none = ok closing_soonest
read_sort (some raw) =
    if str_eq raw ""
    then ok closing_soonest
    else if str_eq raw "closingSoonest"
    then ok closing_soonest
    else if str_eq raw "newest"
    then ok newest
    else if str_eq raw "mostBids"
    then ok most_bids
    else err (
        bad_request (
          append "unknown sort \"" (append raw "\"; expected closingSoonest, newest, or mostBids")))

-- An integer between 1 and the greatest limit.
unfoldable pub check_limit : JsNumber → Result ℕ IndexerError
check_limit (integer (pos n)) =
    if leb 1 n && leb n max_limit
    then ok n
    else err (bad_request "limit must be an integer between 1 and 100")
check_limit _ = err (bad_request "limit must be an integer between 1 and 100")

-- The raw parameters of the list's query.
pub record RawQuery : Type 0 where
  pub statuses : List String
  pub asset_symbol : Option String
  pub search : Option String
  pub bidder : Option String
  pub sort : Option String
  pub limit : Option String
  pub cursor : Option String

-- The names and values of a URL's query, in their order.
abbrev pub Params : Type 0
Params = List (String × String)

-- `c.req.queries(name) ?? []`: every value of a name.
unfoldable pub values_of : String → Params → List String
values_of name [] = []
values_of name ((key, value) ∷ params) =
    if str_eq key name then value ∷ values_of name params else values_of name params

-- `c.req.query(name)`: its first value.
unfoldable pub first_of : String → Params → Option String
first_of name [] = none
first_of name ((key, value) ∷ params) = if str_eq key name then some value else first_of name params

-- The parameters that the route of the list reads.
unfoldable pub raw_query : Params → RawQuery
unfolding values_of first_of
raw_query params = record {
  statuses = values_of "status" params;
  asset_symbol = first_of "assetSymbol" params;
  search = first_of "search" params;
  bidder = first_of "bidder" params;
  sort = first_of "sort" params;
  limit = first_of "limit" params;
  cursor = first_of "cursor" params;
}

-- What a route answers; `failed` carries the HTTP status.
pub data Response : Type 0 where
  serves_page : AuctionPage → Response
  serves_auction : ListRow → Response
  is_healthy : ℕ → Option ℕ → Response
  failed : ℕ → IndexerError → Response

pub data Request : Type 0 where
  asks_health : Request
  asks_list : Params → Request
  asks_auction : String → Request

module _ (rt : Runtime) where
  unfoldable pub check_bidder : String → Result (Unit {0}) IndexerError
  check_bidder raw =
      if rt.is_account (trim raw)
      then ok tt
      else err (bad_request "bidder must be a valid Stellar account address")

  unfoldable pub read_limit : Option String → Result ℕ IndexerError
  unfolding check_limit
  read_limit none = ok default_limit
  read_limit (some raw) = if str_eq raw "" then ok default_limit else check_limit (rt.number raw)

  unfoldable pub check_cursor_text : Option Cursor → Result (Option Cursor) IndexerError
  check_cursor_text none = err (bad_request "cursor is malformed")
  check_cursor_text (some c) = ok (some c)

  unfoldable pub read_cursor : Option String → Result (Option Cursor) IndexerError
  unfolding check_cursor_text
  read_cursor none = ok none
  read_cursor (some raw) =
      if str_eq raw "" then ok none else check_cursor_text (decode_cursor rt raw)

  -- `parseAuctionQuery`
  unfoldable pub parse_auction_query : RawQuery → Result AuctionQuery IndexerError
  parse_auction_query raw = and_then (read_statuses raw.statuses) (λ statuses.
      and_then (read_text (no_longer max_symbol_length "assetSymbol is too long") raw.asset_symbol)
        (λ asset.
          and_then (read_text (no_longer max_search_length "search is too long") raw.search)
            (λ search. and_then (read_text check_bidder raw.bidder) (λ bidder.
              and_then (read_sort raw.sort) (λ sort. and_then (read_limit raw.limit) (λ limit.
                and_then (read_cursor raw.cursor) (λ cursor. ok (record {
                  statuses = statuses;
                  asset_symbol = asset;
                  search = search;
                  bidder = bidder;
                  sort = sort;
                  limit = limit;
                  cursor = cursor;
                }))))))))

  -- GET /auctions
  unfoldable pub list_auctions : RawQuery → Store → Response
  list_auctions raw s = elim (parse_auction_query raw) [
    | err e ↦ failed 400 e
    | ok q ↦ serves_page (query rt q s)
  ]

  abbrev found_auction : ℕ → Option ListRow → Response
  found_auction id none =
      failed 404
        (not_found (append "auction " (append (rt.to_text (integer (pos id))) " not indexed")))
  found_auction id (some row) = serves_auction row

  abbrev pub get_by_number : JsNumber → Store → Response
  get_by_number (integer (pos id)) s =
      if leb 1 id
      then found_auction id (get_by_id id s)
      else failed 400 (bad_request "id must be a positive integer")
  get_by_number _ s = failed 400 (bad_request "id must be a positive integer")

  -- GET /auctions/:id
  unfoldable pub get_auction : String → Store → Response
  get_auction id_text s = get_by_number (rt.number id_text) s

  -- GET /healthz
  unfoldable pub healthz : Store → Response
  healthz s = is_healthy (auction_count s) (get_cursor s).last_ledger

  unfoldable pub route : Request → Store → Response
  unfolding list_auctions get_auction healthz raw_query
  route asks_health s = healthz s
  route (asks_list params) s = list_auctions (raw_query params) s
  route (asks_auction id_text) s = get_auction id_text s

  -- A request of a client: the token bucket first, then its route.
  unfoldable pub handle : String → ℕ → Request → Store → Dict Bucket → Response × Dict Bucket
  unfolding route
  handle ip now request s buckets =
      let (taken, after) = take_token indexer_limit ip now buckets in
      ((if taken then route request s else failed 429 (rate_limited "too many requests")), after)
