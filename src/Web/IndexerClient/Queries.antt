-- ===== src/Web/IndexerClient/Queries.antt =====
-- web/src/lib/indexer.ts and indexer/src/api.ts together: what the page asks for is what the service reads.
use sealedstellar.Common.{
  ℕ, ◌≡◌, refl, ap, ◌∙◌, Bool, true, ◌||◌, ◌⊎◌, String, [], ◌∷◌, any, Option, none, some, str_eq,
  ok, ◌>>=◌, ltb, if◌then◌else◌, arith, &&-eq-true, Bool-cases, inl, inr,
}
use sealedstellar.Common.Int.{pos}
use sealedstellar.Common.Text.{trim}
use sealedstellar.Indexer.Runtime.{integer, Runtime, IsRuntime}
use sealedstellar.Indexer.Cursor.{decode_cursor}
use sealedstellar.Indexer.Api.{Params, raw_query, parse_auction_query}
use sealedstellar.Web.ListView.{
  Segment, all, live, closing, awaiting, settled, yours, ListView, StatusName, is_open, is_settled,
  is_refunded, AuctionView, matches_segment, is_closing_soon, derive_auction_tone, has_tone,
  open_tone, awaiting_tone, settled_tone, refunded_tone,
}
use sealedstellar.Web.IndexerClient.Sent.{raw_query-sent}
use sealedstellar.Web.IndexerClient.{segment_status, map_sort, bidder_of, build_auction_query}
use sealedstellar.Web.IndexerClient.Reading.{
  statuses_of, sort_of, asked_text, IsAskable, asked_query,
}

-- The query that the page builds from a view, written into the URL and read from it by name, is accepted by the
-- service and read as what the view asks for: the statuses of the segment, its order, the trimmed search, the
-- asset, the wallet's address for the segment of one's own auctions, the limit and the place of the
-- cursor. This is so where the URL's text gives back the names and values that it was made of, the runtime
-- prints and reads numbers as documented (an empty text as 0), the trimmed search has at most 64 characters,
-- the asset is trimmed, not blank and of at most 24, the wallet's address is a valid account, the cursor is
-- one that decodes, and the limit is 1 to 100.
pub parse-build_auction_query :
    (rt : Runtime) (to_url : Params → String) (of_url : String → Params) (view : ListView)
    (connected cursor : Option String) (limit : ℕ)
    → ((params : Params) → of_url (to_url params) ≡ params)
    → IsRuntime rt
    → rt.number "" ≡ integer (pos 0)
    → IsAskable rt view connected cursor limit
    → parse_auction_query rt
        (raw_query (of_url (to_url (build_auction_query rt view connected cursor limit))))
      ≡ ok (record {
        statuses = statuses_of view.segment;
        asset_symbol = view.asset_symbol;
        search = asked_text (trim view.search);
        bidder = bidder_of view.segment connected;
        sort = sort_of view.sort;
        limit = limit;
        cursor = cursor >>= decode_cursor rt;
      })
unfolding build_auction_query
parse-build_auction_query rt to_url of_url view connected cursor limit url laws empty h =
    ap (λ params. parse_auction_query rt (raw_query params))
      (url (build_auction_query rt view connected cursor limit))
    ∙ ap (parse_auction_query rt) (
        raw_query-sent (segment_status view.segment)
          (if str_eq (trim view.search) "" then none else some (trim view.search)) view.asset_symbol
          (bidder_of view.segment connected) (some (map_sort view.sort))
          (some (rt.to_text (integer (pos limit)))) cursor)
    ∙ asked_query rt view connected cursor limit laws empty h

abbrev pub name_of : StatusName → String
name_of is_open = "Open"
name_of is_settled = "Settled"
name_of is_refunded = "Refunded"

named_open :
    (view : AuctionView) (now : ℕ) (s : StatusName)
    → view.status ≡ s
    → (has_tone open_tone view now || has_tone awaiting_tone view now) ≡ true
    → any (λ t. str_eq t (name_of view.status)) ("Open" ∷ []) ≡ true
unfolding derive_auction_tone
named_open view now is_open e h = rw e refl
named_open view now is_settled e h = absurd (let h' = rw e at h in cc)
named_open view now is_refunded e h = absurd (let h' = rw e at h in cc)

named_final :
    (view : AuctionView) (now : ℕ) (s : StatusName)
    → view.status ≡ s
    → (has_tone settled_tone view now || has_tone refunded_tone view now) ≡ true
    → any (λ t. str_eq t (name_of view.status)) ("Settled" ∷ "Refunded" ∷ []) ≡ true
unfolding derive_auction_tone
named_final view now is_open e h = elim (Bool-cases (ltb now view.commit_deadline_seconds)) [
  | inl early ↦ absurd (let h' = rw (e, early) at h in cc)
  | inr late ↦ absurd (let h' = rw (e, late) at h in cc)
]
named_final view now is_settled e h = rw e refl
named_final view now is_refunded e h = rw e refl

or_true : (b : Bool) → (b || true) ≡ true
or_true b = ground arith

-- No auction that belongs to a segment of the list, by its tone and the wallet's bids, is left out by the
-- statuses that the page asks the service for: they name its status, or there are none and all are served.
pub segment_status-matches_segment :
    (view : AuctionView) (segment : Segment) (now : ℕ) (connected : Option String)
    → matches_segment view segment now connected ≡ true
    → (segment_status segment ≡ [])
      ⊎ (any (λ s. str_eq s (name_of view.status)) (segment_status segment) ≡ true)
unfolding matches_segment segment_status is_closing_soon derive_auction_tone
segment_status-matches_segment view all now connected h = inl refl
segment_status-matches_segment view yours now connected h = inl refl
segment_status-matches_segment view live now connected h =
    inr (named_open view now view.status refl (rw h refl))
segment_status-matches_segment view closing now connected h = inr (
    named_open view now view.status refl
      (let (early, _) = &&-eq-true (has_tone open_tone view now) _ h in rw early refl))
segment_status-matches_segment view awaiting now connected h =
    inr (named_open view now view.status refl (rw h (or_true (has_tone open_tone view now))))
segment_status-matches_segment view settled now connected h =
    inr (named_final view now view.status refl h)
