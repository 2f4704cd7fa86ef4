-- ===== src/Web/IndexerClient/Reading.antt =====
-- indexer/src/api.ts: how the service's parser reads the parameters that the page sends.
use sealedstellar.Common.{
  ℕ, ◌≤◌, ◌≡◌, ◌≢◌, refl, sym, ap, ◌∙◌, true, false, ◌&&◌, String, List, [], ◌∷◌, Option, none,
  some, str_eq, eq_iff, Result, ok, ◌>>=◌, ltb, leb, if◌then◌else◌, arith, Bool-cases, inl, inr,
}
use sealedstellar.Common.Int.{pos}
use sealedstellar.Common.Text.{trim, utf16_length}
use sealedstellar.Common.Text.Trimmed.{trim-trim}
use sealedstellar.Indexer.Runtime.{integer, Runtime, IsRuntime}
use sealedstellar.Indexer.Types.{
  AuctionStatus, opened, AuctionSort, closing_soonest, Cursor, AuctionQuery,
}
use sealedstellar.Indexer.Types
use sealedstellar.Indexer.Cursor.{decode_cursor}
use sealedstellar.Indexer.Api.{
  IndexerError, read_status, read_statuses, read_text, no_longer, check_bidder, read_sort,
  check_limit, read_limit, check_cursor_text, read_cursor, parse_auction_query, max_search_length,
  max_symbol_length, max_limit,
}
use sealedstellar.Web.ListView.{
  Segment, all, live, closing, awaiting, settled, yours, ListSort, closing_first, newest, bids,
  ListView,
}
use sealedstellar.Web.IndexerClient.{segment_status, map_sort, bidder_of}

-- What the service reads for a segment and an order of the list.
unfoldable pub statuses_of : Segment → List AuctionStatus
statuses_of all = []
statuses_of live = opened ∷ []
statuses_of closing = opened ∷ []
statuses_of awaiting = opened ∷ []
statuses_of settled = Types.settled ∷ Types.refunded ∷ []
statuses_of yours = []

unfoldable pub sort_of : ListSort → AuctionSort
sort_of newest = Types.newest
sort_of bids = Types.most_bids
sort_of closing_first = closing_soonest

unfoldable pub asked_text : String → Option String
asked_text s = if str_eq s "" then none else some s

read_statuses-segment_status : (s : Segment) → read_statuses (segment_status s) ≡ ok (statuses_of s)
unfolding read_statuses read_status segment_status statuses_of
read_statuses-segment_status all = refl
read_statuses-segment_status live = refl
read_statuses-segment_status closing = refl
read_statuses-segment_status awaiting = refl
read_statuses-segment_status settled = refl
read_statuses-segment_status yours = refl

read_sort-map_sort : (s : ListSort) → read_sort (some (map_sort s)) ≡ ok (sort_of s)
unfolding read_sort map_sort sort_of
read_sort-map_sort newest = refl
read_sort-map_sort bids = refl
read_sort-map_sort closing_first = refl

-- A text that is trimmed, not blank and passes the check is read as it is.
read_text-some :
    (check : String → Result (Unit {0}) IndexerError) (t : String)
    → trim t ≡ t
    → t ≢ ""
    → check t ≡ ok tt
    → read_text check (some t) ≡ ok (some t)
unfolding read_text
read_text-some check t trimmed given passes =
    let filled : str_eq (trim t) "" ≡ false = elim (Bool-cases (str_eq (trim t) "")) [
      | inl blank ↦ absurd (given (sym trimmed ∙ (eq_iff (trim t) "").0 blank))
      | inr e ↦ e
    ] in
    rw (filled, passes, trimmed) refl

-- The service takes the texts, the cursor and the limit.
pub record IsAskable (rt : Runtime) (view : ListView) (connected cursor : Option String) (limit : ℕ)
    : Type 0 where
  pub search : utf16_length (trim view.search) ≤ max_search_length
  pub asset :
      (a : String)
      → view.asset_symbol ≡ some a
      → (trim a ≡ a) × (a ≢ "") × (utf16_length a ≤ max_symbol_length)
  pub bidder :
      (b : String) → connected ≡ some b → (trim b ≡ b) × (b ≢ "") × (rt.is_account b ≡ true)
  pub page :
      (raw : String)
      → cursor ≡ some raw
      → (raw ≢ "") × ((c : Cursor) × (decode_cursor rt raw ≡ some c))
  pub some_row : 1 ≤ limit
  pub few_rows : limit ≤ max_limit

no_longer-short :
    (bound : ℕ) (message t : String) → utf16_length t ≤ bound → no_longer bound message t ≡ ok tt
no_longer-short bound message t h =
    let short : ltb bound (utf16_length t) ≡ false = ground arith in rw short refl

read_text-asked :
    (check : String → Result (Unit {0}) IndexerError) (t : String)
    → trim t ≡ t
    → check t ≡ ok tt
    → read_text check (if str_eq t "" then none else some t) ≡ ok (asked_text t)
unfolding read_text asked_text
read_text-asked check t trimmed passes = elim (Bool-cases (str_eq t "")) [
  | inl blank ↦ rw blank refl
  | inr given ↦
      rw given
        (read_text-some check t trimmed (λ e. let same = (eq_iff t "").1 e in absurd (cc)) passes)
]

read_text-option :
    (check : String → Result (Unit {0}) IndexerError) (o : Option String)
    → ((t : String) → o ≡ some t → (trim t ≡ t) × (t ≢ "") × (check t ≡ ok tt))
    → read_text check o ≡ ok o
unfolding read_text
read_text-option check none h = refl
read_text-option check (some t) h =
    let (trimmed, given, passes) = h t refl in read_text-some check t trimmed given passes

check_bidder-account :
    (rt : Runtime) (b : String) → trim b ≡ b → rt.is_account b ≡ true → check_bidder rt b ≡ ok tt
unfolding check_bidder
check_bidder-account rt b trimmed valid = rw (trimmed, valid) refl

bidder_of-some :
    (s : Segment) (connected : Option String) (t : String)
    → bidder_of s connected ≡ some t
    → connected ≡ some t
bidder_of-some yours connected t e = e
bidder_of-some all connected t e = absurd (cc)
bidder_of-some live connected t e = absurd (cc)
bidder_of-some closing connected t e = absurd (cc)
bidder_of-some awaiting connected t e = absurd (cc)
bidder_of-some settled connected t e = absurd (cc)

read_bidder :
    (rt : Runtime) (s : Segment) (connected : Option String)
    → ((b : String) → connected ≡ some b → (trim b ≡ b) × (b ≢ "") × (rt.is_account b ≡ true))
    → read_text (check_bidder rt) (bidder_of s connected) ≡ ok (bidder_of s connected)
read_bidder rt s connected h = read_text-option (check_bidder rt) (bidder_of s connected) (λ t e.
    let (trimmed, given, valid) = h t (bidder_of-some s connected t e) in
    (trimmed, given, check_bidder-account rt t trimmed valid))

integer_inj : (m n : ℕ) → integer (pos m) ≡ integer (pos n) → m ≡ n
integer_inj m n e = cc

read_limit-to_text :
    (rt : Runtime) (limit : ℕ)
    → IsRuntime rt
    → rt.number "" ≡ integer (pos 0)
    → 1 ≤ limit
    → limit ≤ max_limit
    → read_limit rt (some (rt.to_text (integer (pos limit)))) ≡ ok limit
unfolding read_limit check_limit
read_limit-to_text rt limit laws empty low high =
    let back = laws.number-to_text limit (omega arith) in
    elim (Bool-cases (str_eq (rt.to_text (integer (pos limit))) "")) [
      | inl blank ↦
          let no_text = (eq_iff (rt.to_text (integer (pos limit))) "").0 blank in
          let no_limit = integer_inj limit 0 (sym back ∙ ap rt.number no_text ∙ empty) in
          absurd (omega arith)
      | inr given ↦
          let inside : (leb 1 limit && leb limit max_limit) ≡ true = ground arith in
          rw (given, back) (rw inside refl)
    ]

read_cursor-page :
    (rt : Runtime) (cursor : Option String)
    → ((raw : String)
        → cursor ≡ some raw
        → (raw ≢ "") × ((c : Cursor) × (decode_cursor rt raw ≡ some c)))
    → read_cursor rt cursor ≡ ok (cursor >>= decode_cursor rt)
unfolding read_cursor check_cursor_text
read_cursor-page rt none h = refl
read_cursor-page rt (some raw) h =
    let (given, (c, decoded)) = h raw refl in
    elim (Bool-cases (str_eq raw "")) [
      | inl blank ↦ absurd (given ((eq_iff raw "").0 blank))
      | inr filled ↦ rw (filled, decoded) refl
    ]

-- The parameters of a view's query are read as what the view asks for.
pub asked_query :
    (rt : Runtime) (view : ListView) (connected cursor : Option String) (limit : ℕ)
    → IsRuntime rt
    → rt.number "" ≡ integer (pos 0)
    → IsAskable rt view connected cursor limit
    → parse_auction_query rt (record {
      statuses = segment_status view.segment;
      search = if str_eq (trim view.search) "" then none else some (trim view.search);
      asset_symbol = view.asset_symbol;
      bidder = bidder_of view.segment connected;
      sort = some (map_sort view.sort);
      limit = some (rt.to_text (integer (pos limit)));
      cursor = cursor;
    })
      ≡ ok (record {
        statuses = statuses_of view.segment;
        asset_symbol = view.asset_symbol;
        search = asked_text (trim view.search);
        bidder = bidder_of view.segment connected;
        sort = sort_of view.sort;
        limit = limit;
        cursor = cursor >>= decode_cursor rt;
      })
unfolding parse_auction_query
asked_query rt view connected cursor limit laws empty h =
    let searched =
      read_text-asked (no_longer max_search_length "search is too long") (trim view.search)
        (trim-trim view.search) (no_longer-short max_search_length _ (trim view.search) h.search) in
    let asset =
      read_text-option (no_longer max_symbol_length "assetSymbol is too long") view.asset_symbol
        (λ a e.
          let (trimmed, given, short) = h.asset a e in
          (trimmed, given, no_longer-short max_symbol_length _ a short)) in
    rw
      (
        read_statuses-segment_status view.segment,
        asset,
        searched,
        read_bidder rt view.segment connected h.bidder,
        read_sort-map_sort view.sort,
        read_limit-to_text rt limit laws empty h.some_row h.few_rows,
        read_cursor-page rt cursor h.page,
      )
      refl
