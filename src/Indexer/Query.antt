-- ===== src/Indexer/Query.antt =====
-- indexer/src/store.ts, `AuctionStore.query`: the filter, the order, the keyset page. A SQL condition
-- is a test on a row; texts are compared by their code points, and LIKE is the runtime's.
pub mod Search
pub mod Order
pub mod Pages
pub mod Filters
use Prim.Native.Char.{code}
use sealedstellar.Common.{
  ℕ, zero, suc, ◌+◌, ◌*◌, Bool, true, false, ◌&&◌, ◌||◌, String, List, [], ◌∷◌, ◌++◌, map, Option,
  none, some, str_eq, length, keep, take, any, last?, ltb, leb, ◌==◌, if◌then◌else◌,
}
use sealedstellar.Common.Int.{pos}
use sealedstellar.Common.Sorting.{sort}
use sealedstellar.Indexer.Runtime.{integer, Runtime, is_below, is_above, is_equal}
use sealedstellar.Indexer.Types.{
  AuctionStatus, status_text, AuctionSort, closing_soonest, newest, most_bids, Row, ListRow, Bid,
  Cursor, AuctionQuery, AuctionPage,
}
use sealedstellar.Indexer.Store.{Store, to_list_row}
use sealedstellar.Indexer.Cursor.{encode_cursor}

abbrev pub codes : String → List ℕ
codes String.[] = []
codes (String.◌∷◌ c s) = code c ∷ codes s

abbrev pub eq_codes : List ℕ → List ℕ → Bool
eq_codes [] [] = true
eq_codes (c ∷ s) (d ∷ t) = c == d && eq_codes s t
eq_codes _ _ = false

-- `lower(x)` of SQLite: ASCII letters only.
abbrev pub fold_case : ℕ → ℕ
fold_case c = if leb b'A' c && leb c b'Z' then c + 32 else c

abbrev pub sql_lower : List ℕ → List ℕ
sql_lower s = map fold_case s

-- `%${search}%`
abbrev pub surround : List ℕ → List ℕ
surround q = b'%' ∷ (q ++ b'%' ∷ [])

-- `status IN (…)`, only when one or two statuses are asked for.
unfoldable pub matches_status : List AuctionStatus → Row → Bool
matches_status statuses row =
    if ltb 0 (length statuses) && ltb (length statuses) 3
    then any (λ s. str_eq row.status (status_text s)) statuses
    else true

module _ (rt : Runtime) where
  unfoldable pub matches_asset : Option String → Row → Bool
  matches_asset none row = true
  matches_asset (some asset) row =
      eq_codes (sql_lower (codes row.lot_symbol)) (codes (rt.to_lower asset))
      || eq_codes (sql_lower (codes row.payment_symbol)) (codes (rt.to_lower asset))

  unfoldable pub matches_search : Option String → Row → Bool
  matches_search none row = true
  matches_search (some search) row =
      str_eq (rt.to_text (integer (pos row.id))) search
      || rt.like (surround (codes (rt.to_lower search))) (sql_lower (codes row.lot_symbol))
      || rt.like (surround (codes (rt.to_lower search))) (sql_lower (codes row.payment_symbol))

-- EXISTS (SELECT 1 FROM bids …)
unfoldable pub matches_bidder : Option String → List Bid → Row → Bool
matches_bidder none bids row = true
matches_bidder (some bidder) bids row =
    any (λ b. b.auction_id == row.id && str_eq b.bidder bidder) bids

-- The conditions, joined by AND.
unfoldable pub matches : Runtime → AuctionQuery → List Bid → Row → Bool
unfolding matches_status matches_asset matches_search matches_bidder
matches rt q bids row =
    matches_status q.statuses row
    && matches_asset rt q.asset_symbol row
    && matches_search rt q.search row
    && matches_bidder q.bidder bids row

abbrev pub open_rank_multiplier : ℕ
open_rank_multiplier = 10_000_000_000_000

-- `CLOSING_SORT_EXPR`
unfoldable pub closing_key : Row → ℕ
closing_key row =
    (if str_eq row.status "Open" then 0 else 1) * open_rank_multiplier + row.commit_deadline

-- `sortValueOf`
unfoldable pub sort_value_of : AuctionSort → Row → ℕ
unfolding closing_key
sort_value_of most_bids row = row.filled_slots
sort_value_of closing_soonest row = closing_key row
sort_value_of newest row = row.id

-- `planOrder`, `orderBy`: the first row comes before the second.
unfoldable pub comes_before : AuctionSort → Row → Row → Bool
comes_before most_bids a b =
    ltb b.filled_slots a.filled_slots || (a.filled_slots == b.filled_slots && ltb b.id a.id)
comes_before closing_soonest a b =
    ltb (closing_key a) (closing_key b) || (closing_key a == closing_key b && ltb a.id b.id)
comes_before newest a b = ltb b.id a.id

-- `planOrder`, `cursorClause`
unfoldable pub after_cursor : AuctionSort → Cursor → Row → Bool
after_cursor most_bids c row =
    is_below row.filled_slots c.sort_value
    || (is_equal row.filled_slots c.sort_value && ltb row.id c.id)
after_cursor closing_soonest c row =
    is_above (closing_key row) c.sort_value
    || (is_equal (closing_key row) c.sort_value && ltb c.id row.id)
after_cursor newest c row = ltb row.id c.id

abbrev pub passes_cursor : AuctionSort → Option Cursor → Row → Bool
passes_cursor order none row = true
passes_cursor order (some c) row = after_cursor order c row

-- The filtered rows in the order asked for, of which a page is a part.
unfoldable pub listing : Runtime → AuctionQuery → Store → List Row
listing rt q s = sort (comes_before q.sort) (keep (matches rt q s.bids) s.auctions)

-- SELECT * … WHERE … ORDER BY … LIMIT @pageLimit, with one row more than the page.
unfoldable pub fetch_rows : Runtime → AuctionQuery → Store → List Row
fetch_rows rt q s = take (q.limit + 1) (
    sort (comes_before q.sort)
      (keep (λ r. matches rt q s.bids r && passes_cursor q.sort q.cursor r) s.auctions))

-- `nextCursor`, before it is encoded
abbrev pub cursor_at : AuctionSort → Row → Cursor
cursor_at order row = record { sort_value = integer (pos (sort_value_of order row)); id = row.id }

unfoldable pub next_cursor_of : AuctionSort → Bool → Option Row → Option Cursor
next_cursor_of order true (some last) = some (cursor_at order last)
next_cursor_of order _ _ = none

abbrev encode_next : Runtime → Option Cursor → Option String
encode_next rt none = none
encode_next rt (some c) = some (encode_cursor rt c)

unfoldable pub query : Runtime → AuctionQuery → Store → AuctionPage
query rt q s =
    let rows : List Row = fetch_rows rt q s in
    let has_more : Bool = ltb q.limit (length rows) in
    let page_rows : List Row = if has_more then take q.limit rows else rows in
    record {
      rows = map to_list_row page_rows;
      next_cursor = encode_next rt (next_cursor_of q.sort has_more (last? page_rows));
      total_count = length (keep (matches rt q s.bids) s.auctions);
    }
