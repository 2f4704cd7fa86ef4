-- ===== src/Web/ListView/Codec.antt =====
-- web/src/lib/auctions-list-view.ts, `readListView` and `writeListView`: the view through the URL.
use sealedstellar.Common.{◌≡◌, ◌≢◌, not, String, some, str_eq, []}
use sealedstellar.Common.Text.{trim}
use sealedstellar.Common.Dict.{Dict}
use sealedstellar.Web.ListView.{segment_text, sort_text, ListView, put, put_asset}

-- The texts of the view are trimmed, and its asset is not blank.
pub record IsNormal (v : ListView) : Type 0 where
  pub search : trim v.search ≡ v.search
  pub asset : (a : String) → v.asset_symbol ≡ some a → (trim a ≡ a) × (a ≢ "")

module _ (v : ListView) where
  with_segment : Dict String
  with_segment = put (not (str_eq (segment_text v.segment) "all")) "seg" (segment_text v.segment) []

  with_search : Dict String
  with_search = put (not (str_eq v.search "")) "q" v.search with_segment

  with_asset : Dict String
  with_asset = put_asset v.asset_symbol with_search

  with_sort : Dict String
  with_sort = put (not (str_eq (sort_text v.sort) "closing")) "sort" (sort_text v.sort) with_asset
