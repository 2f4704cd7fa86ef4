-- ===== src/Tests/Views.antt =====
-- Runs of web/src/lib/auctions-list-view.ts.
use mathlib.Core.List.{Perm}
use sealedstellar.Common.{
  ℕ, ◌≡◌, true, false, String, List, [], ◌∷◌, Option, none, some, keep, ◌&&◌, ◌⊎◌,
}
use sealedstellar.Common.Sorting.{Sorted}
use sealedstellar.Web.ListView.{
  live, awaiting, settled, closing, newest, closing_first, Change, default_view, AuctionView,
  is_open, select_visible_auctions, matches_segment, matches_search, matches_asset_chip,
}
use sealedstellar.Web.ListView.Visible.{
  precedes, select_visible_auctions-Sorted, matches_segment-partition,
}

abbrev sort_newest : Change
sort_newest = record {
  segment = some live;
  search = some "fund";
  asset_symbol = none;
  sort = some newest;
  density = none;
}

abbrev small_view : ℕ → ℕ → AuctionView
small_view id deadline = record {
  id = id;
  commit_deadline_seconds = deadline;
  status = is_open;
  bidders = "bob" ∷ [];
  lot_symbol = "tBENJI";
  payment_symbol = "tUSDC";
}

abbrev some_auctions : List AuctionView
some_auctions = small_view 1 90 ∷ small_view 2 80 ∷ []

select_visible_auctions-Sorted_example :
    Sorted
      (precedes closing_first 70)
      (select_visible_auctions (λ s. s) (λ n. "n") some_auctions default_view 70 none)
    × Perm (select_visible_auctions (λ s. s) (λ n. "n") some_auctions default_view 70 none) (
        keep
          (λ a.
            matches_segment a default_view.segment 70 none
            && matches_search (λ s. s) (λ n. "n") a default_view.search
            && matches_asset_chip (λ s. s) (λ n. "n") a default_view.asset_symbol)
          some_auctions)
select_visible_auctions-Sorted_example =
    select_visible_auctions-Sorted (λ s. s) (λ n. "n") some_auctions default_view 70 none

abbrev Partition : AuctionView → ℕ → Option String → Type 0
Partition view now connected =
    (((matches_segment view live now connected ≡ true)
        × (matches_segment view awaiting now connected ≡ false)
        × (matches_segment view settled now connected ≡ false))
      ⊎ ((matches_segment view live now connected ≡ false)
          × (matches_segment view awaiting now connected ≡ true)
          × (matches_segment view settled now connected ≡ false))
      ⊎ ((matches_segment view live now connected ≡ false)
          × (matches_segment view awaiting now connected ≡ false)
          × (matches_segment view settled now connected ≡ true)))
    × (matches_segment view closing now connected ≡ true
        → matches_segment view live now connected ≡ true)

matches_segment-partition_example : Partition (small_view 1 90) 70 none
matches_segment-partition_example = matches_segment-partition (small_view 1 90) 70 none
