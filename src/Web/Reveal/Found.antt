-- ===== src/Web/Reveal/Found.antt =====
-- web/api/reveal.ts, `fetchBidEvents`: which of the chain's events are found, and in which order.
use mathlib.Core.List.{Perm}
use sealedstellar.Common.{
  ℕ, zero, suc, ◌≡◌, ◌≢◌, refl, sym, ap, ◌∙◌, Bool, true, false, String, List, [], ◌∷◌, ◌++◌, map,
  Option, none, some, str_eq, eq_iff, Result, ok, err, and_then-eq-ok, arith, Bool-cases, inl, inr,
  ◌⊎◌, keep, All,
}
use sealedstellar.Common.Int.{◌≤ℤ◌}
use sealedstellar.Common.Sorting.{IsOrder, sort, sort-perm, sort-Sorted, Sorted}
use sealedstellar.Web.Reveal.{
  BidEvent, earlier_slot, EventPage, bids_among, has_next, collect_pages, or_unreachable,
  fetch_bid_events, start_ledger,
}

-- No further page: the cursor is missing or empty.
abbrev pub IsLast : EventPage → Type 0
IsLast page = (page.cursor ≡ none) ⊎ (page.cursor ≡ some "")

-- The pages from a cursor, each asked for with the cursor of the one before, up to the last one or the
-- number of pages.
pub data ArePages (get_events : Option String → Result EventPage String)
    : ℕ → Option String → List EventPage → Type 0 where
  no_more : (cursor : Option String) → ArePages get_events 0 cursor []
  last :
      (left : ℕ) (cursor : Option String) (page : EventPage)
      → get_events cursor ≡ ok page
      → IsLast page
      → ArePages get_events (suc left) cursor (page ∷ [])
  next :
      (left : ℕ) (cursor : Option String) (page : EventPage) (c : String) (pages : List EventPage)
      → get_events cursor ≡ ok page
      → page.cursor ≡ some c
      → c ≢ ""
      → ArePages get_events left (some c) pages
      → ArePages get_events (suc left) cursor (page ∷ pages)

abbrev pub all_found : List EventPage → List (Option BidEvent)
all_found [] = []
all_found (page ∷ pages) = page.found ++ all_found pages

abbrev pub is_bid : Option BidEvent → Bool
is_bid none = false
is_bid (some b) = true

abbrev pub SlotsAscend : List BidEvent → Type 0
SlotsAscend [] = Unit
SlotsAscend (b ∷ bs) = All (λ c. b.slot_index ≤ℤ c.slot_index) bs × SlotsAscend bs

-- The events are the bids of all the pages, each as often as it is there, in the order of their slots.
pub record AreFound (get_events : Option String → Result EventPage String) (events : List BidEvent)
    : Type 0 where
  pub pages : List EventPage
  pub read : ArePages get_events 30 none pages
  pub bids : List BidEvent
  pub all_bids : map some bids ≡ keep is_bid (all_found pages)
  pub reordered : Perm events bids
  pub ascend : SlotsAscend events

next_cursor :
    (page : EventPage)
    → has_next page.cursor ≡ true
    → (c : String) × (page.cursor ≡ some c) × (c ≢ "")
next_cursor page h = go page.cursor refl h
  where
    go :
        (cursor : Option String)
        → page.cursor ≡ cursor
        → has_next cursor ≡ true
        → (c : String) × (page.cursor ≡ some c) × (c ≢ "")
    go none e k = absurd (cc)
    go (some c) e k = (c, e, λ empty. absurd (let k' = rw ((eq_iff c "").1 empty) at k in cc))

cursor-IsLast : (page : EventPage) → has_next page.cursor ≡ false → IsLast page
cursor-IsLast page h = go page.cursor refl h
  where
    go : (cursor : Option String) → page.cursor ≡ cursor → has_next cursor ≡ false → IsLast page
    go none e k = inl e
    go (some c) e k = elim (Bool-cases (str_eq c "")) [
      | inl empty ↦ inr (e ∙ ap some ((eq_iff c "").0 empty))
      | inr other ↦ absurd (let k' = rw other at k in cc)
    ]

append_one_more : {A : Type 0} (xs ys zs : List A) → (xs ++ ys) ++ zs ≡ xs ++ (ys ++ zs)
append_one_more [] ys zs = refl
append_one_more (x ∷ xs) ys zs = ap (◌∷◌ x) (append_one_more xs ys zs)

append_nothing : {A : Type 0} (xs : List A) → xs ≡ xs ++ []
append_nothing [] = refl
append_nothing (x ∷ xs) = ap (◌∷◌ x) (append_nothing xs)

ok_inj {ℓ κ} : {A : Type ℓ} {E : Type κ} {x y : A} → ◌≡◌ {A = Result A E} (ok x) (ok y) → x ≡ y
ok_inj e = cc

collect_pages-ArePages :
    (get_events : Option String → Result EventPage String) (left : ℕ) (cursor : Option String)
    (matched all : List (Option BidEvent))
    → collect_pages get_events left cursor matched ≡ ok all
    → (pages : List EventPage) × ArePages get_events left cursor pages
      × (all ≡ matched ++ all_found pages)
unfolding collect_pages
collect_pages-ArePages get_events zero cursor matched all h =
    ([], no_more cursor, sym (ok_inj h) ∙ append_nothing matched)
collect_pages-ArePages get_events (suc left) cursor matched all h =
    let (page, answered, more) = and_then-eq-ok (get_events cursor) _ h in
    elim (Bool-cases (has_next page.cursor)) [
      | inl goes_on ↦
          let (c, at, given) = next_cursor page goes_on in
          let (pages, read, e) =
            collect_pages-ArePages get_events left page.cursor (matched ++ page.found) all
              (rw goes_on at more) in
          (
            page ∷ pages,
            next left cursor page c pages answered at given (rw at at read),
            e ∙ append_one_more matched page.found (all_found pages),
          )
      | inr ends ↦ (
        page ∷ [],
        last left cursor page answered (cursor-IsLast page ends),
        sym (ok_inj (rw ends at more)) ∙ ap (◌++◌ matched) (append_nothing page.found),
      )
    ]

bids_among-keep : (es : List (Option BidEvent)) → map some (bids_among es) ≡ keep is_bid es
unfolding bids_among
bids_among-keep [] = refl
bids_among-keep (none ∷ es) = bids_among-keep es
bids_among-keep (some b ∷ es) = ap (◌∷◌ (some b)) (bids_among-keep es)

earlier_slot-IsOrder : IsOrder earlier_slot
earlier_slot-IsOrder = record {
  asym = λ x y h. ground (arith, h);
  later = λ x y z h k. ground (arith, h, k);
}

not_earlier :
    (b : BidEvent) (bs : List BidEvent)
    → All (λ c. earlier_slot c b ≡ false) bs
    → All (λ c. b.slot_index ≤ℤ c.slot_index) bs
not_earlier b [] h = tt
not_earlier b (c ∷ bs) (h, more) = (ground (arith, h), not_earlier b bs more)

Sorted-SlotsAscend : (bs : List BidEvent) → Sorted earlier_slot bs → SlotsAscend bs
Sorted-SlotsAscend [] s = tt
Sorted-SlotsAscend (b ∷ bs) (h, s) = (not_earlier b bs h, Sorted-SlotsAscend bs s)

reached :
    {A : Type 0} (call : String) (r : Result A String) (a : A)
    → or_unreachable call r ≡ ok a
    → r ≡ ok a
reached call (ok b) a h = cc
reached call (err detail) a h = absurd (cc)

-- The events that are found are read from the pages that the chain gives from the start ledger on.
pub fetch_bid_events-AreFound :
    (latest : Result ℕ String) (get_events : ℕ → Option String → Result EventPage String)
    (events : List BidEvent)
    → fetch_bid_events latest get_events ≡ ok events
    → (ledger : ℕ) × (latest ≡ ok ledger) × AreFound (get_events (start_ledger ledger)) events
unfolding fetch_bid_events
fetch_bid_events-AreFound latest get_events events h =
    let (ledger, known, r1) = and_then-eq-ok (or_unreachable "getLatestLedger" latest) _ h in
    let (matched, read, r2) =
      and_then-eq-ok
        (or_unreachable "getEvents" (collect_pages (get_events (start_ledger ledger)) 30 none [])) _
        r1 in
    let (pages, are_pages, all) =
      collect_pages-ArePages (get_events (start_ledger ledger)) 30 none [] matched (
        reached "getEvents" (collect_pages (get_events (start_ledger ledger)) 30 none []) matched
          read) in
    let same : sort earlier_slot (bids_among matched) ≡ events = ok_inj r2 in
    (
      ledger,
      reached "getLatestLedger" latest ledger known,
      record {
        pages = pages;
        read = are_pages;
        bids = bids_among matched;
        all_bids = bids_among-keep matched ∙ ap (keep is_bid) all;
        reordered = rw (← same) (sort-perm earlier_slot (bids_among matched));
        ascend = rw (← same) (
            Sorted-SlotsAscend _
              (sort-Sorted earlier_slot earlier_slot-IsOrder (bids_among matched)));
      },
    )
