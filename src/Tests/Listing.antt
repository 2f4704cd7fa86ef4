-- ===== src/Tests/Listing.antt =====
-- Runs of the list of auctions: indexer/src/store.ts and indexer/src/api.ts.
use sealedstellar.Common.{
  ◌≤◌, ◌<◌, ◌≡◌, ◌↔◌, refl, ap, true, [], ◌∷◌, map, none, some, arith, length, All, ok, ◌⊎◌,
}
use sealedstellar.Common.Int.{pos}
use sealedstellar.Common.Sorting.{Pairwise, sort}
use sealedstellar.Common.Text.{trim}
use sealedstellar.Indexer.Runtime.{integer}
use sealedstellar.Indexer.Types.{opened, newest, AuctionQuery, AuctionPage}
use sealedstellar.Indexer.Store.{OtherId, to_list_row}
use sealedstellar.Indexer.Cursor.{encode_cursor, decode_cursor, decode-encode_cursor}
use sealedstellar.Indexer.Query.{
  matches, matches_search, sql_lower, surround, listing, comes_before, matches_status, codes,
  sort_value_of,
}
use sealedstellar.Indexer.Query.Pages.{pages, IsSafe, pages-listing}
use sealedstellar.Indexer.Query.Search.{Occurs, matches_search_iff}
use sealedstellar.Tests.Like.{like, like-IsLike}
use sealedstellar.Indexer.Api.{
  IndexerError, RawQuery, parse_auction_query, list_auctions, failed, serves_page, max_limit,
  read_statuses, read_text, read_sort, read_limit, read_cursor,
}
use sealedstellar.Indexer.Api.Requests.{
  IsServable, parse_auction_query-IsServable, list_auctions-bounded,
}
use sealedstellar.Tests.Fixtures.{
  unary_runtime, unary_runtime-IsRuntime, count, small_row, three_auctions, by_newest,
}

three_auctions-OtherId : Pairwise OtherId three_auctions.auctions
three_auctions-OtherId = (
  (λ e. absurd (omega arith), (λ e. absurd (omega arith), tt)),
  ((λ e. absurd (omega arith), tt), (tt, tt)),
)

three_auctions-IsSafe : All (IsSafe newest) three_auctions.auctions
unfolding sort_value_of
three_auctions-IsSafe =
    ((omega arith, omega arith), ((omega arith, omega arith), ((omega arith, omega arith), tt)))

listing_runs :
    listing unary_runtime by_newest three_auctions
    ≡ small_row 3 10 "Open" ∷ small_row 2 20 "Open" ∷ small_row 1 30 "Settled" ∷ []
unfolding listing matches comes_before sort
listing_runs = refl

pages-listing_example :
    pages unary_runtime 4 (record by_newest { cursor = none }) three_auctions
    ≡ map to_list_row (listing unary_runtime by_newest three_auctions)
pages-listing_example =
    pages-listing unary_runtime by_newest three_auctions 4 unary_runtime-IsRuntime
      three_auctions-OtherId three_auctions-IsSafe (omega arith) few
  where
    few : length (listing unary_runtime by_newest three_auctions) < 4
    few = let three = ap length listing_runs in omega arith

decode-encode_cursor_example :
    decode_cursor unary_runtime
      (encode_cursor unary_runtime (record { sort_value = integer (pos 5); id = 3 }))
    ≡ some (record { sort_value = integer (pos 5); id = 3 })
decode-encode_cursor_example =
    decode-encode_cursor unary_runtime unary_runtime-IsRuntime 5 3 (omega arith) (omega arith)

-- The second row's symbol has the search in it.
matches_search_iff_example :
    (matches_search unary_runtime (some "benj") (small_row 2 20 "Open") ≡ true) ↔ (
      (unary_runtime.to_text (integer (pos 2)) ≡ "benj")
      ⊎ (Occurs (codes "benj") (sql_lower (codes "tBENJI"))
          ⊎ Occurs (codes "benj") (sql_lower (codes "tUSDC"))))
matches_search_iff_example =
    matches_search_iff unary_runtime "benj" (small_row 2 20 "Open") like-IsLike
      ((refl, refl), ((refl, refl), ((refl, refl), ((refl, refl), tt))))

like_runs : like (surround (codes "ben")) (codes "tBENJI") ≡ true
unfolding like
like_runs = refl

-- `%` in a search is any run of characters.
like-wildcard_runs : like (surround (codes "t%c")) (codes "tUSDC") ≡ true
unfolding like
like-wildcard_runs = refl

-- One status asked for three times is no filter.
matches_status_runs :
    matches_status (opened ∷ opened ∷ opened ∷ []) (small_row 1 30 "Settled") ≡ true
unfolding matches_status
matches_status_runs = refl

abbrev raw_query : RawQuery
raw_query = record {
  statuses = "Open" ∷ [];
  asset_symbol = some " tUSDC ";
  search = none;
  bidder = none;
  sort = some "newest";
  limit = some "111";
  cursor = none;
}

abbrev parsed_query : AuctionQuery
parsed_query = record {
  statuses = opened ∷ [];
  asset_symbol = some "tUSDC";
  search = none;
  bidder = none;
  sort = newest;
  limit = 3;
  cursor = none;
}

parse_auction_query_runs : parse_auction_query unary_runtime raw_query ≡ ok parsed_query
unfolding parse_auction_query read_statuses read_text trim read_sort read_limit count read_cursor
parse_auction_query_runs = refl

parse_auction_query-IsServable_example : IsServable unary_runtime raw_query parsed_query
parse_auction_query-IsServable_example =
    parse_auction_query-IsServable unary_runtime raw_query parsed_query parse_auction_query_runs

list_auctions-bounded_example :
    ((e : IndexerError) × (list_auctions unary_runtime raw_query three_auctions ≡ failed 400 e))
    ⊎ ((page : AuctionPage) × (list_auctions unary_runtime raw_query three_auctions
          ≡ serves_page page)
        × (length page.rows ≤ max_limit))
list_auctions-bounded_example = list_auctions-bounded unary_runtime raw_query three_auctions
