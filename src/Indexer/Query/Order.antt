-- ===== src/Indexer/Query/Order.antt =====
-- indexer/src/store.ts, `planOrder`: the order of the list and the keyset test agree.
use sealedstellar.Common.{◌≡◌, refl, sym, true, false, arith}
use sealedstellar.Common.Sorting.{IsOrder, Pairwise, sort-Sorted, Pairwise-sort, Pairwise-keep}
use sealedstellar.Common.Paging.{Ordered, Sorted-Ordered}
use sealedstellar.Indexer.Types.{AuctionSort, closing_soonest, newest, most_bids, Row, AuctionQuery}
use sealedstellar.Indexer.Store.{Store, OtherId}
use sealedstellar.Indexer.Runtime.{Runtime}
use sealedstellar.Indexer.Query.{
  comes_before, after_cursor, cursor_at, sort_value_of, listing, matches,
}

comes_before-asym :
    (o : AuctionSort) (a b : Row) → comes_before o a b ≡ true → comes_before o b a ≡ false
unfolding comes_before
comes_before-asym most_bids a b h = ground arith
comes_before-asym closing_soonest a b h = ground arith
comes_before-asym newest a b h = ground arith

comes_before-later :
    (o : AuctionSort) (a b c : Row)
    → comes_before o b a ≡ false
    → comes_before o c b ≡ false
    → comes_before o c a ≡ false
unfolding comes_before
comes_before-later most_bids a b c h k = ground arith
comes_before-later closing_soonest a b c h k = ground arith
comes_before-later newest a b c h k = ground arith

pub comes_before-IsOrder : (o : AuctionSort) → IsOrder (comes_before o)
comes_before-IsOrder o = record { asym = comes_before-asym o; later = comes_before-later o }

comes_before-total :
    (o : AuctionSort) (a b : Row)
    → OtherId a b
    → comes_before o b a ≡ false
    → comes_before o a b ≡ true
unfolding comes_before
comes_before-total most_bids a b h k = ground arith
comes_before-total closing_soonest a b h k = ground arith
comes_before-total newest a b h k = ground arith

-- The cursor clause at the cursor of a row selects exactly the rows that the order puts behind it.
pub after_cursor-cursor_at :
    (o : AuctionSort) (a b : Row) → after_cursor o (cursor_at o a) b ≡ comes_before o a b
unfolding after_cursor comes_before sort_value_of
after_cursor-cursor_at most_bids a b = ground arith
after_cursor-cursor_at closing_soonest a b = ground arith
after_cursor-cursor_at newest a b = refl

-- With unique ids the listing is strictly ordered.
pub listing-Ordered :
    (rt : Runtime) (q : AuctionQuery) (s : Store)
    → Pairwise OtherId s.auctions
    → Ordered (comes_before q.sort) (listing rt q s)
unfolding listing
listing-Ordered rt q s d =
    let o = comes_before-IsOrder q.sort in
    Sorted-Ordered (comes_before q.sort) OtherId (comes_before-total q.sort) _
      (sort-Sorted (comes_before q.sort) o _)
      (Pairwise-sort OtherId (comes_before q.sort) (λ a b h e. h (sym e)) _
        (Pairwise-keep OtherId (matches rt q s.bids) s.auctions d))
