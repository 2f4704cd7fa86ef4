-- ===== src/Web/ChainReader/Events.antt =====
-- web/src/lib/chain.ts: the events of an auction, page by page, and the cache of the settlements.
use sealedstellar.Common.{
  ℕ, zero, suc, Bool, false, not, String, List, [], ◌∷◌, ◌++◌, Option, none, some, str_eq,
  if◌then◌else◌, Result, ok, err, and_then,
}
use sealedstellar.Common.Int.{ℤ}
use sealedstellar.Common.Table.{Table, get_at, put_at}
use sealedstellar.Common.Sorting.{sort}
use sealedstellar.Web.Errors.{ChainError, rpc_unreachable}
use sealedstellar.Web.Reveal.{BidEvent, earlier_slot, bids_among}
use sealedstellar.Web.ChainReader.{Cached}

-- `SettlementInfo`
pub record SettlementInfo : Type 0 where
  pub winner : String
  pub winning_price : ℤ
  pub tx_hash : Option String

-- A page of events, each decoded as far as it is read, and the cursor of the next page.
pub record Page (E : Type 0) : Type 0 where
  pub events : List E
  pub cursor : Option String

abbrev pub max_event_pages : ℕ
max_event_pages = 30

abbrev pub goes_on : Option String → Bool
goes_on none = false
goes_on (some cursor) = not (str_eq cursor "")

-- The loop over the pages: pages left, cursor. The first page has no cursor.
unfoldable pub follow_pages :
    {E : Type 0}
    → (Option String → Result (Page E) String)
    → ℕ
    → Option String
    → List E
    → Result (List E) String
follow_pages get_events zero cursor matched = ok matched
follow_pages {E} get_events (suc left) cursor matched = and_then (get_events cursor) (λ page.
    let rest : Result (List E) String =
      follow_pages get_events left page.cursor (matched ++ page.events) in
    if goes_on page.cursor then rest else ok (matched ++ page.events))

abbrev pub or_unreachable : {A : Type 0} → Result A String → Result A ChainError
or_unreachable (ok a) = ok a
or_unreachable (err detail) = err (rpc_unreachable detail)

-- The latest ledger, and the pages of an auction's events from it.
abbrev pub EventSource : Type 0 → Type 0
EventSource E = Result ℕ String × (ℕ → Option String → Result (Page E) String)

unfoldable pub matched_events : {E : Type 0} → EventSource E → Result (List E) ChainError
matched_events source =
    and_then (or_unreachable source.0)
      (λ ledger. or_unreachable (follow_pages (source.1 ledger) max_event_pages none []))

-- The first event of the settlement's shape.
unfoldable pub first_settlement : List (Option SettlementInfo) → Option SettlementInfo
first_settlement [] = none
first_settlement (none ∷ es) = first_settlement es
first_settlement (some info ∷ es) = some info

abbrev pub keep_settlement :
    ℕ
    → Result (List (Option SettlementInfo)) ChainError
    → Cached (Table (Option SettlementInfo)) (Option SettlementInfo)
keep_settlement id (err e) cache = (err e, cache)
keep_settlement id (ok events) cache =
    (ok (first_settlement events), put_at id (first_settlement events) cache)

-- `getSettlementInfo`: what was found is kept, and that nothing was found too.
unfoldable pub get_settlement_info :
    EventSource (Option SettlementInfo)
    → ℕ
    → Cached (Table (Option SettlementInfo)) (Option SettlementInfo)
get_settlement_info source id cache = elim (get_at id cache) [
  | some info ↦ (ok info, cache)
  | none ↦ keep_settlement id (matched_events source) cache
]

-- `fetchBidEvents`
unfoldable pub fetch_bid_events : EventSource (Option BidEvent) → Result (List BidEvent) ChainError
fetch_bid_events source =
    and_then (matched_events source) (λ matched. ok (sort earlier_slot (bids_among matched)))
