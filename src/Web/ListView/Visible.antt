-- ===== src/Web/ListView/Visible.antt =====
-- web/src/lib/auctions-list-view.ts, `selectVisibleAuctions`: the order of the list and its segments.
use mathlib.Core.List.{Perm}
use sealedstellar.Common.{
  ℕ, ◌≡◌, refl, sym, ◌∙◌, Bool, true, false, String, List, Option, arith, ltb, ◌==◌, if◌then◌else◌,
  keep, All_mono, [], ◌∷◌, ◌&&◌, ◌⊎◌, inl, inr, Bool-cases,
}
use sealedstellar.Common.Int.{pos, ltbℤ, sub_ℕ}
use sealedstellar.Common.Sorting.{IsOrder, Sorted, sort-Sorted, sort-perm}
use sealedstellar.Web.ListView.{
  ListSort, newest, bids, closing_first, ListView, AuctionView, comes_first, compare_for_sort,
  derive_auction_tone, tone_order, count_filled_slots, is_visible, select_visible_auctions,
  matches_search, matches_asset_chip, matches_segment, is_closing_soon, live, closing, awaiting,
  settled,
}

-- The order by tone: at the ranks of two tones, two deadlines and two ids.
by_tone : ℕ → ℕ → ℕ → ℕ → ℕ → ℕ → Bool
by_tone s t d e i j = if s == t then if s == 0 then ltb d e else ltb j i else ltb s t

by_tone-asym : (s t d e i j : ℕ) → by_tone s t d e i j ≡ true → by_tone t s e d j i ≡ false
unfolding by_tone
by_tone-asym s t d e i j h = ground arith

by_tone-later :
    (s t u d e f i j k : ℕ)
    → by_tone t s e d j i ≡ false
    → by_tone u t f e k j ≡ false
    → by_tone u s f d k i ≡ false
unfolding by_tone
by_tone-later s t u d e f i j k p q = ground arith

sub_ℕ-negative : (a b : ℕ) → ltbℤ (sub_ℕ a b) (pos 0) ≡ ltb a b
sub_ℕ-negative a b = ground arith

rank : AuctionView → ℕ → ℕ
rank view now = tone_order (derive_auction_tone view now)

comes_first-by_tone :
    (now : ℕ) (a b : AuctionView)
    → comes_first closing_first now a b
      ≡ by_tone
          (rank a now)
          (rank b now)
          a.commit_deadline_seconds
          b.commit_deadline_seconds
          a.id
          b.id
unfolding comes_first compare_for_sort rank by_tone
comes_first-by_tone now a b = elim (Bool-cases (rank a now == rank b now)) [
  | inl same ↦ elim (Bool-cases (rank a now == 0)) [
    | inl first ↦ rw (same, first, sub_ℕ-negative) refl
    | inr later ↦ rw (same, later, sub_ℕ-negative) refl
  ]
  | inr other ↦ rw (other, sub_ℕ-negative) refl
]

-- The order by bids: at two counts and two ids.
by_count : ℕ → ℕ → ℕ → ℕ → Bool
by_count m n i j = if m == n then ltb j i else ltb n m

by_count-later :
    (m n o i j k : ℕ)
    → by_count n m j i ≡ false
    → by_count o n k j ≡ false
    → by_count o m k i ≡ false
unfolding by_count
by_count-later m n o i j k p q = ground arith

comes_first-by_count :
    (now : ℕ) (a b : AuctionView)
    → comes_first bids now a b ≡ by_count (count_filled_slots a) (count_filled_slots b) a.id b.id
unfolding comes_first compare_for_sort by_count
comes_first-by_count now a b = elim (Bool-cases (count_filled_slots a == count_filled_slots b)) [
  | inl same ↦ rw (same, sub_ℕ-negative) refl
  | inr other ↦ rw (other, sub_ℕ-negative) refl
]

comes_first-asym :
    (order : ListSort) (now : ℕ) (a b : AuctionView)
    → comes_first order now a b ≡ true
    → comes_first order now b a ≡ false
unfolding comes_first compare_for_sort
comes_first-asym newest now a b h = ground arith
comes_first-asym bids now a b h = ground arith
comes_first-asym closing_first now a b h =
    comes_first-by_tone now b a
    ∙ by_tone-asym (rank a now) (rank b now) _ _ _ _ (sym (comes_first-by_tone now a b) ∙ h)

comes_first-later :
    (order : ListSort) (now : ℕ) (a b c : AuctionView)
    → comes_first order now b a ≡ false
    → comes_first order now c b ≡ false
    → comes_first order now c a ≡ false
unfolding comes_first compare_for_sort
comes_first-later newest now a b c h k = ground arith
comes_first-later bids now a b c h k =
    comes_first-by_count now c a
    ∙ by_count-later (count_filled_slots a) (count_filled_slots b) (count_filled_slots c) _ _ _
        (sym (comes_first-by_count now b a) ∙ h) (sym (comes_first-by_count now c b) ∙ k)
comes_first-later closing_first now a b c h k =
    comes_first-by_tone now c a
    ∙ by_tone-later (rank a now) (rank b now) (rank c now) _ _ _ _ _ _
        (sym (comes_first-by_tone now b a) ∙ h) (sym (comes_first-by_tone now c b) ∙ k)

comes_first-IsOrder : (order : ListSort) (now : ℕ) → IsOrder (comes_first order now)
comes_first-IsOrder order now = record {
  asym = comes_first-asym order now;
  later = comes_first-later order now;
}

-- The order that each sort is for: the newest first; the most bids first, and of as many the newest first;
-- by tone, and of one tone the earlier deadline first where the bid window is open, else the newest.
pub precedes : ListSort → ℕ → AuctionView → AuctionView → Bool
precedes newest now a b = ltb b.id a.id
precedes bids now a b = by_count (count_filled_slots a) (count_filled_slots b) a.id b.id
precedes closing_first now a b =
    by_tone (rank a now) (rank b now) a.commit_deadline_seconds b.commit_deadline_seconds a.id b.id

comes_first-precedes :
    (order : ListSort) (now : ℕ) (a b : AuctionView)
    → comes_first order now a b ≡ precedes order now a b
unfolding comes_first compare_for_sort precedes
comes_first-precedes newest now a b = sub_ℕ-negative b.id a.id
comes_first-precedes bids now a b = comes_first-by_count now a b
comes_first-precedes closing_first now a b = comes_first-by_tone now a b

Sorted-precedes :
    (order : ListSort) (now : ℕ) (views : List AuctionView)
    → Sorted (comes_first order now) views
    → Sorted (precedes order now) views
Sorted-precedes order now [] s = tt
Sorted-precedes order now (x ∷ xs) (first, s) = (
  All_mono (λ y. comes_first order now y x ≡ false) (λ y. precedes order now y x ≡ false) xs
      (λ y h. sym (comes_first-precedes order now y x) ∙ h) first,
  Sorted-precedes order now xs s,
)

-- The visible auctions are the loaded ones that belong to the view's segment, match its search and match its
-- asset, each as often as it was loaded. No auction stands after one that it should come before: in the order
-- of newest first that is one of a lower number; in that of bids, one with fewer filled slots, or as many and a
-- lower number; in that of closing first, one of a later tone, or of the same tone with a later deadline where
-- the bid window is open and a lower number where it is not.
pub select_visible_auctions-Sorted :
    (to_lower : String → String) (to_text : ℕ → String) (auctions : List AuctionView)
    (view : ListView) (now : ℕ) (connected : Option String)
    → Sorted
        (precedes view.sort now)
        (select_visible_auctions to_lower to_text auctions view now connected)
      × Perm (select_visible_auctions to_lower to_text auctions view now connected) (
          keep
            (λ a.
              matches_segment a view.segment now connected
              && matches_search to_lower to_text a view.search
              && matches_asset_chip to_lower to_text a view.asset_symbol)
            auctions)
unfolding select_visible_auctions is_visible
select_visible_auctions-Sorted to_lower to_text auctions view now connected = (
  Sorted-precedes view.sort now _
      (sort-Sorted (comes_first view.sort now) (comes_first-IsOrder view.sort now) _),
  sort-perm (comes_first view.sort now) _,
)

-- Each auction is in exactly one of the segments live, awaiting and settled, and one that closes soon
-- is live.
pub matches_segment-partition :
    (view : AuctionView) (now : ℕ) (connected : Option String)
    → (((matches_segment view live now connected ≡ true)
          × (matches_segment view awaiting now connected ≡ false)
          × (matches_segment view settled now connected ≡ false))
        ⊎ ((matches_segment view live now connected ≡ false)
            × (matches_segment view awaiting now connected ≡ true)
            × (matches_segment view settled now connected ≡ false))
        ⊎ ((matches_segment view live now connected ≡ false)
            × (matches_segment view awaiting now connected ≡ false)
            × (matches_segment view settled now connected ≡ true)))
      × (matches_segment view closing now connected ≡ true
          → matches_segment view live now connected ≡ true)
unfolding matches_segment is_closing_soon derive_auction_tone
matches_segment-partition view now connected = ground arith
