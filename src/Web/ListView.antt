-- ===== src/Web/ListView.antt =====
-- web/src/lib/auctions-list-view.ts, with `deriveAuctionTone` and `countFilledSlots` of
-- web/src/lib/chain.ts: the state of the auctions list in the URL, and what the list shows. Times are
-- whole seconds. `URLSearchParams` is a map of texts; the symbols of the filter chips are left out.
pub mod Codec
pub mod Visible
use sealedstellar.Common.{
  ℕ, ◌+◌, Bool, true, false, not, ◌&&◌, ◌||◌, String, List, [], ◌∷◌, Option, none, some, str_eq,
  ◌==◌, ltb, leb, length, keep, any, min, if◌then◌else◌,
}
use sealedstellar.Common.Int.{ℤ, pos, sub_ℕ, ltbℤ}
use sealedstellar.Common.Text.{trim, includes}
use sealedstellar.Common.Dict.{Dict, lookup, insert}
use sealedstellar.Common.Sorting.{sort}

pub data Segment : Type 0 where
  all live closing awaiting settled yours : Segment

-- `AuctionSort`
pub data ListSort : Type 0 where
  closing_first newest bids : ListSort

pub data Density : Type 0 where
  comfortable compact : Density

-- `AuctionsListView`
pub record ListView : Type 0 where
  pub segment : Segment
  pub search : String
  pub asset_symbol : Option String
  pub sort : ListSort
  pub density : Density

-- `DEFAULT_VIEW`
abbrev pub default_view : ListView
default_view = record {
  segment = all;
  search = "";
  asset_symbol = none;
  sort = closing_first;
  density = comfortable;
}

abbrev pub segment_text : Segment → String
segment_text all = "all"
segment_text live = "live"
segment_text closing = "closing"
segment_text awaiting = "awaiting"
segment_text settled = "settled"
segment_text yours = "yours"

abbrev pub sort_text : ListSort → String
sort_text closing_first = "closing"
sort_text newest = "newest"
sort_text bids = "bids"

abbrev pub density_text : Density → String
density_text comfortable = "comfortable"
density_text compact = "compact"

-- `VALUES.find((value) => value === raw) ?? default`
unfoldable pub find_text {ℓ} : {A : Type ℓ} → (A → String) → List A → A → Option String → A
find_text show values default none = default
find_text show [] default (some raw) = default
find_text show (v ∷ vs) default (some raw) =
    if str_eq (show v) raw then v else find_text show vs default (some raw)

unfoldable pub parse_segment : Option String → Segment
unfolding find_text
parse_segment raw =
    find_text segment_text (all ∷ live ∷ closing ∷ awaiting ∷ settled ∷ yours ∷ []) all raw

unfoldable pub parse_sort : Option String → ListSort
unfolding find_text
parse_sort raw = find_text sort_text (closing_first ∷ newest ∷ bids ∷ []) closing_first raw

unfoldable pub parse_density : Option String → Density
unfolding find_text
parse_density raw = find_text density_text (comfortable ∷ compact ∷ []) comfortable raw

-- `get(…)?.trim() ?? ''`
abbrev pub trim_or_empty : Option String → String
trim_or_empty none = ""
trim_or_empty (some raw) = trim raw

unfoldable pub asset_or_none : String → Option String
asset_or_none value = if str_eq value "" then none else some value

-- `readListView`
unfoldable pub read_list_view : Dict String → ListView
read_list_view params = record {
  segment = parse_segment (lookup "seg" params);
  search = trim_or_empty (lookup "q" params);
  asset_symbol = asset_or_none (trim_or_empty (lookup "asset" params));
  sort = parse_sort (lookup "sort" params);
  density = parse_density (lookup "density" params);
}

-- A change of the view: the fields that are given.
pub record Change : Type 0 where
  pub segment : Option Segment
  pub search : Option String
  pub asset_symbol : Option (Option String)
  pub sort : Option ListSort
  pub density : Option Density

abbrev pub or_old {ℓ} : {A : Type ℓ} → Option A → A → A
or_old none a = a
or_old (some b) a = b

-- `{ ...readListView(current), ...next }`
unfoldable pub merge : ListView → Change → ListView
merge v c = record {
  segment = or_old c.segment v.segment;
  search = or_old c.search v.search;
  asset_symbol = or_old c.asset_symbol v.asset_symbol;
  sort = or_old c.sort v.sort;
  density = or_old c.density v.density;
}

abbrev pub put : Bool → String → String → Dict String → Dict String
put b key value params = if b then insert key value params else params

abbrev pub put_asset : Option String → Dict String → Dict String
put_asset none params = params
put_asset (some a) params = insert "asset" a params

-- The parameters of a view, defaults left out.
unfoldable pub params_of : ListView → Dict String
params_of v =
    put (not (str_eq (density_text v.density) "comfortable")) "density" (density_text v.density) (
      put (not (str_eq (sort_text v.sort) "closing")) "sort" (sort_text v.sort) (
        put_asset v.asset_symbol (
          put (not (str_eq v.search "")) "q" v.search
            (put (not (str_eq (segment_text v.segment) "all")) "seg" (segment_text v.segment) []))))

-- `writeListView`
unfoldable pub write_list_view : Dict String → Change → Dict String
unfolding read_list_view merge params_of
write_list_view current next = params_of (merge (read_list_view current) next)

-- `AuctionView`, as far as the list reads it; of a bid, its bidder.
pub data StatusName : Type 0 where
  is_open is_settled is_refunded : StatusName

pub record AuctionView : Type 0 where
  pub id : ℕ
  pub commit_deadline_seconds : ℕ
  pub status : StatusName
  pub bidders : List String
  pub lot_symbol : String
  pub payment_symbol : String

pub data Tone : Type 0 where
  open_tone awaiting_tone settled_tone refunded_tone : Tone

-- `deriveAuctionTone`
unfoldable pub derive_auction_tone : AuctionView → ℕ → Tone
derive_auction_tone view now = elim view.status [
  | is_settled ↦ settled_tone
  | is_refunded ↦ refunded_tone
  | is_open ↦ if ltb now view.commit_deadline_seconds then open_tone else awaiting_tone
]

-- `TONE_ORDER`
abbrev pub tone_order : Tone → ℕ
tone_order open_tone = 0
tone_order awaiting_tone = 1
tone_order settled_tone = 2
tone_order refunded_tone = 3

abbrev pub has_tone : Tone → AuctionView → ℕ → Bool
has_tone t view now = tone_order (derive_auction_tone view now) == tone_order t

abbrev pub closing_soon_threshold_seconds : ℕ
closing_soon_threshold_seconds = 3600

-- `isClosingSoon`
unfoldable pub is_closing_soon : AuctionView → ℕ → Bool
is_closing_soon view now =
    has_tone open_tone view now
    && leb view.commit_deadline_seconds (now + closing_soon_threshold_seconds)

abbrev pub is_bidder : Option String → List String → Bool
is_bidder none bidders = false
is_bidder (some address) bidders = any (λ b. str_eq b address) bidders

-- `matchesSegment`
unfoldable pub matches_segment : AuctionView → Segment → ℕ → Option String → Bool
unfolding is_closing_soon
matches_segment view all now connected = true
matches_segment view live now connected = has_tone open_tone view now
matches_segment view closing now connected = is_closing_soon view now
matches_segment view awaiting now connected = has_tone awaiting_tone view now
matches_segment view settled now connected =
    has_tone settled_tone view now || has_tone refunded_tone view now
matches_segment view yours now connected = is_bidder connected view.bidders

abbrev pub max_bid_slots : ℕ
max_bid_slots = 8

abbrev pub count_filled_slots : AuctionView → ℕ
count_filled_slots view = min (length view.bidders) max_bid_slots

-- `compareForSort`: negative where the first auction comes first.
unfoldable pub compare_for_sort : ListSort → ℕ → AuctionView → AuctionView → ℤ
compare_for_sort newest now a b = sub_ℕ b.id a.id
compare_for_sort bids now a b =
    if count_filled_slots a == count_filled_slots b
    then sub_ℕ b.id a.id
    else sub_ℕ (count_filled_slots b) (count_filled_slots a)
compare_for_sort closing_first now a b =
    let first : Tone = derive_auction_tone a now in
    let second : Tone = derive_auction_tone b now in
    if tone_order first == tone_order second
    then if tone_order first == 0
      then sub_ℕ a.commit_deadline_seconds b.commit_deadline_seconds
      else sub_ℕ b.id a.id
    else sub_ℕ (tone_order first) (tone_order second)

unfoldable pub comes_first : ListSort → ℕ → AuctionView → AuctionView → Bool
unfolding compare_for_sort
comes_first order now a b = ltbℤ (compare_for_sort order now a b) (pos 0)

-- `to_lower` is `toLowerCase()`, and `to_text` is `String(view.id)`.
module _ (to_lower : String → String) (to_text : ℕ → String) where
  -- `matchesSearch`
  unfoldable pub matches_search : AuctionView → String → Bool
  matches_search view query =
      let trimmed : String = to_lower (trim query) in
      str_eq trimmed ""
      || str_eq (to_text view.id) trimmed
      || includes trimmed (to_lower view.lot_symbol)
      || includes trimmed (to_lower view.payment_symbol)

  -- `matchesAssetChip`
  unfoldable pub matches_asset_chip : AuctionView → Option String → Bool
  matches_asset_chip view none = true
  matches_asset_chip view (some asset) =
      str_eq (to_lower view.lot_symbol) (to_lower asset)
      || str_eq (to_lower view.payment_symbol) (to_lower asset)

  unfoldable pub is_visible : ListView → ℕ → Option String → AuctionView → Bool
  is_visible view now connected auction =
      matches_segment auction view.segment now connected
      && matches_search auction view.search
      && matches_asset_chip auction view.asset_symbol

  -- `selectVisibleAuctions`
  unfoldable pub select_visible_auctions :
      List AuctionView → ListView → ℕ → Option String → List AuctionView
  select_visible_auctions auctions view now connected =
      sort (comes_first view.sort now) (keep (is_visible view now connected) auctions)
