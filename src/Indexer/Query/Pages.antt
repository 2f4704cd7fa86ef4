-- ===== src/Indexer/Query/Pages.antt =====
-- indexer/src/store.ts, `query`, and indexer/src/api.ts, which decodes the cursor of the next request:
-- a client that follows `nextCursor` to its end.
use mathlib.Core.List.{map-append, append-nil, append_assoc}
use sealedstellar.Common.{
  ℕ, zero, suc, ◌+◌, ◌<◌, ◌^◌, ◌≡◌, refl, sym, ap, ◌∙◌, Bool, true, false, String, List, [], ◌∷◌,
  ◌++◌, map, Option, none, some, inl, inr, arith, ltb, if◌then◌else◌, All, All-keep, All_middle,
  keep, keep-&&, keep-all, take, drop, length, last?, take-append-drop, Bool-cases, ltb→lt,
}
use mathlib.Core.Path.{fun_ext}
use sealedstellar.Common.Sorting.{Pairwise, sort, keep-sort, All-sort}
use sealedstellar.Common.Paging.{
  take-take, length-take_suc, take-all, take-last, length-drop_lt, Ordered, keep-after,
}
use sealedstellar.Indexer.Runtime.{Runtime, IsRuntime}
use sealedstellar.Indexer.Types.{Row, ListRow, Cursor, AuctionSort, AuctionQuery, AuctionPage}
use sealedstellar.Indexer.Store.{Store, OtherId, to_list_row}
use sealedstellar.Indexer.Cursor.{encode_cursor, decode_cursor, decode-encode_cursor}
use sealedstellar.Indexer.Query.{
  matches, sort_value_of, comes_before, passes_cursor, listing, fetch_rows, cursor_at,
  next_cursor_of, encode_next, query,
}
use sealedstellar.Indexer.Query.Order.{
  comes_before-IsOrder, after_cursor-cursor_at, listing-Ordered,
}

abbrev at_cursor : AuctionQuery → Option Cursor → AuctionQuery
at_cursor q c = record q { cursor = c }

follow : Runtime → (Cursor → List ListRow) → Option String → List ListRow
follow rt next none = []
follow rt next (some text) = elim (decode_cursor rt text) [ none ↦ [] | some c ↦ next c ]

follow-none : (rt : Runtime) (next : Cursor → List ListRow) → follow rt next none ≡ []
unfolding follow
follow-none rt next = refl

follow-some :
    (rt : Runtime) (next : Cursor → List ListRow) (text : String) (c : Cursor)
    → decode_cursor rt text ≡ some c
    → follow rt next (some text) ≡ next c
unfolding follow
follow-some rt next text c e = ground arith

-- All rows of the pages from the query's cursor on; the fuel bounds the number of requests.
pub pages : Runtime → ℕ → AuctionQuery → Store → List ListRow
pages rt zero q s = []
pages rt (suc fuel) q s =
    let page : AuctionPage = query rt q s in
    page.rows ++ follow rt (λ c. pages rt fuel (record q { cursor = some c }) s) page.next_cursor

-- The row's id and sort value are safe integers.
abbrev pub IsSafe : AuctionSort → Row → Type 0
IsSafe o r = (r.id < 2 ^ 53) × (sort_value_of o r < 2 ^ 53)

page_rows-take :
    {A : Type 0} (n : ℕ) (xs : List A)
    → (if ltb n (length (take (n + 1) xs)) then take n (take (n + 1) xs) else take (n + 1) xs)
      ≡ take n xs
page_rows-take n xs = elim (Bool-cases (ltb n (length xs))) [
  | inl more ↦ rw (length-take_suc n xs, more, if◌then◌else◌) (take-take n xs)
  | inr done ↦
      rw (length-take_suc n xs, done, if◌then◌else◌)
        (take-all (n + 1) xs (ground arith) ∙ sym (take-all n xs (ground arith)))
]

module _ (rt : Runtime) (q : AuctionQuery) (s : Store) where
  abbrev remaining : Option Cursor → List Row
  remaining c = keep (passes_cursor q.sort c) (listing rt q s)

  fetch_rows-remaining :
      (c : Option Cursor) → fetch_rows rt (at_cursor q c) s ≡ take (q.limit + 1) (remaining c)
  unfolding fetch_rows listing matches
  fetch_rows-remaining c = ap (take (q.limit + 1)) (
      ap (sort (comes_before q.sort))
        (keep-&& (matches rt q s.bids) (passes_cursor q.sort c) s.auctions)
      ∙ sym (
          keep-sort (comes_before q.sort) (comes_before-IsOrder q.sort) (passes_cursor q.sort c)
            (keep (matches rt q s.bids) s.auctions)))

  query-remaining :
      (c : Option Cursor)
      → ((query rt (at_cursor q c) s).rows ≡ map to_list_row (take q.limit (remaining c)))
        × ((query rt (at_cursor q c) s).next_cursor
            ≡ encode_next rt (
                next_cursor_of q.sort
                  (ltb q.limit (length (remaining c)))
                  (last? (take q.limit (remaining c)))))
  unfolding query
  query-remaining c = (
    rw (fetch_rows-remaining c, page_rows-take q.limit (remaining c)),
    rw (
      fetch_rows-remaining c,
      page_rows-take q.limit (remaining c),
      length-take_suc q.limit (remaining c),
    ),
  )

  -- The last page, and a page that another follows.
  page_done :
      (c : Option Cursor) (rest : List Row)
      → remaining c ≡ rest
      → ltb q.limit (length rest) ≡ false
      → ((query rt (at_cursor q c) s).rows ≡ map to_list_row rest)
        × ((query rt (at_cursor q c) s).next_cursor ≡ none)
  unfolding next_cursor_of
  page_done c rest left done =
      let (rows, next) = query-remaining c in
      (
        rows
            ∙ ap (λ xs. map to_list_row (take q.limit xs)) left
            ∙ ap (map to_list_row) (take-all q.limit rest (ground arith)),
        rw (next, left) (ground arith),
      )

  page_more :
      (c : Option Cursor) (rest : List Row) (r : Row)
      → remaining c ≡ rest
      → ltb q.limit (length rest) ≡ true
      → last? (take q.limit rest) ≡ some r
      → ((query rt (at_cursor q c) s).rows ≡ map to_list_row (take q.limit rest))
        × ((query rt (at_cursor q c) s).next_cursor ≡ some (encode_cursor rt (cursor_at q.sort r)))
  unfolding next_cursor_of
  page_more c rest r left more at =
      let (rows, next) = query-remaining c in
      (rows ∙ ap (λ xs. map to_list_row (take q.limit xs)) left, rw (next, left) (ground arith))

  -- Once the listing is `front ++ r ∷ rest`, what remains after the cursor of `r` is `rest`.
  remaining-cursor :
      (front : List Row) (r : Row) (rest : List Row)
      → Pairwise OtherId s.auctions
      → listing rt q s ≡ front ++ r ∷ rest
      → remaining (some (cursor_at q.sort r)) ≡ rest
  remaining-cursor front r rest d e =
      let o : Ordered (comes_before q.sort) (front ++ r ∷ rest) =
        rw e at (listing-Ordered rt q s d) in
      ap (λ p. keep p (listing rt q s)) (fun_ext (after_cursor-cursor_at q.sort r))
      ∙ ap (keep (comes_before q.sort r)) e
      ∙ keep-after (comes_before q.sort) (comes_before-IsOrder q.sort) front r rest o

  listing-IsSafe : All (IsSafe q.sort) s.auctions → All (IsSafe q.sort) (listing rt q s)
  unfolding listing
  listing-IsSafe h =
      All-sort (comes_before q.sort) (IsSafe q.sort) _
        (All-keep (IsSafe q.sort) (matches rt q s.bids) s.auctions h)

  module _ (ok : IsRuntime rt) (d : Pairwise OtherId s.auctions)
      (safe : All (IsSafe q.sort) s.auctions) (pos_limit : 0 < q.limit) where
    pages-remaining :
        (fuel : ℕ) (c : Option Cursor) (front rest : List Row)
        → listing rt q s ≡ front ++ rest
        → remaining c ≡ rest
        → length rest < fuel
        → pages rt fuel (at_cursor q c) s ≡ map to_list_row rest
    unfolding pages
    pages-remaining zero c front rest e left h = absurd (omega arith)
    pages-remaining (suc fuel) c front rest e left h =
        elim (Bool-cases (ltb q.limit (length rest))) [
          | inr done ↦
              let (rows, next) = page_done c rest left done in
              rw (rows, next, follow-none) (append-nil (map to_list_row rest))
          | inl more ↦
              let (front', r, page, last_row) = take-last q.limit rest pos_limit (ground arith) in
              let (rows, next) = page_more c rest r left more last_row in
              let rest' : List Row = drop q.limit rest in
              let cut : rest ≡ front' ++ r ∷ rest' =
                sym (take-append-drop q.limit rest)
                ∙ ap (λ xs. xs ++ rest') page
                ∙ append_assoc front' (r ∷ []) rest' in
              let e' : listing rt q s ≡ (front ++ front') ++ r ∷ rest' =
                e ∙ ap (◌++◌ front) cut ∙ sym (append_assoc front front' (r ∷ rest')) in
              let (small_id, small_value) =
                All_middle (IsSafe q.sort) (front ++ front') r rest'
                  (rw e' at (listing-IsSafe safe)) in
              let back =
                decode-encode_cursor rt ok (sort_value_of q.sort r) r.id small_value small_id in
              let later =
                pages-remaining fuel (some (cursor_at q.sort r)) ((front ++ front') ++ r ∷ []) rest'
                  (e' ∙ sym (append_assoc (front ++ front') (r ∷ []) rest'))
                  (remaining-cursor (front ++ front') r rest' d e')
                  (omega (arith, length-drop_lt q.limit rest, ltb→lt q.limit (length rest) more)) in
              rw (rows, next, follow-some rt _ _ _ back, later)
                (sym (map-append to_list_row (take q.limit rest) rest')
                  ∙ ap (map to_list_row) (take-append-drop q.limit rest))
        ]

-- Following `nextCursor` from the first page to the end serves every matching auction exactly once,
-- in the order asked for: the pages together are the filtered table sorted. This supposes unique ids
-- (the table's primary key), safe integers, a positive limit, and as many requests as rows and one.
pub pages-listing :
    (rt : Runtime) (q : AuctionQuery) (s : Store) (fuel : ℕ)
    → IsRuntime rt
    → Pairwise OtherId s.auctions
    → All (IsSafe q.sort) s.auctions
    → 0 < q.limit
    → length (listing rt q s) < fuel
    → pages rt fuel (record q { cursor = none }) s ≡ map to_list_row (listing rt q s)
pages-listing rt q s fuel ok d safe pos_limit h =
    pages-remaining rt q s ok d safe pos_limit fuel none [] (listing rt q s) refl
      (keep-all (λ r. true) (listing rt q s) (All_true (listing rt q s))) h
  where
    All_true : (xs : List Row) → All (λ r. ◌≡◌ {A = Bool} true true) xs
    All_true [] = tt
    All_true (x ∷ xs) = (refl, All_true xs)
