-- ===== src/Web/IndexerClient/Sent.antt =====
-- web/src/lib/indexer.ts and indexer/src/api.ts: the parameters of the URL, as the page sets them and as the
-- service reads them.
use sealedstellar.Common.{
  ◌≡◌, refl, ap, false, true, String, List, [], ◌∷◌, Option, none, some, str_eq,
}
use sealedstellar.Indexer.Api.{Params, values_of, first_of, raw_query}
use sealedstellar.Web.IndexerClient.{append_statuses, set_param}

or_else : Option String → Option String → Option String
or_else none other = other
or_else (some value) other = some value

or_else-none : (o : Option String) → or_else o none ≡ o
unfolding or_else
or_else-none none = refl
or_else-none (some value) = refl

first_of-same :
    (name : String) (o : Option String) (later : Params)
    → str_eq name name ≡ true
    → first_of name (set_param name o later) ≡ or_else o (first_of name later)
unfolding first_of or_else
first_of-same name none later h = refl
first_of-same name (some value) later h = rw h refl

first_of-other :
    (name other : String) (o : Option String) (later : Params)
    → str_eq other name ≡ false
    → first_of name (set_param other o later) ≡ first_of name later
unfolding first_of
first_of-other name other none later h = refl
first_of-other name other (some value) later h = rw h refl

values_of-other :
    (name other : String) (o : Option String) (later : Params)
    → str_eq other name ≡ false
    → values_of name (set_param other o later) ≡ values_of name later
unfolding values_of
values_of-other name other none later h = refl
values_of-other name other (some value) later h = rw h refl

first_of-append_statuses :
    (name : String) (statuses : List String) (later : Params)
    → str_eq "status" name ≡ false
    → first_of name (append_statuses statuses later) ≡ first_of name later
unfolding first_of append_statuses
first_of-append_statuses name [] later h = refl
first_of-append_statuses name (s ∷ ss) later h = rw h (first_of-append_statuses name ss later h)

values_of-append_statuses :
    (statuses : List String) (later : Params)
    → values_of "status" later ≡ []
    → values_of "status" (append_statuses statuses later) ≡ statuses
unfolding values_of append_statuses
values_of-append_statuses [] later h = h
values_of-append_statuses (s ∷ ss) later h = ap (◌∷◌ s) (values_of-append_statuses ss later h)

module _ (statuses : List String) (search asset bidder sort limit cursor : Option String) where
  abbrev pub sent : Params
  sent = append_statuses statuses (
      set_param "search" search (
        set_param "assetSymbol" asset (
          set_param "bidder" bidder
            (set_param "sort" sort (set_param "limit" limit (set_param "cursor" cursor []))))))

  abbrev later : Params
  later = set_param "search" search (
      set_param "assetSymbol" asset (
        set_param "bidder" bidder
          (set_param "sort" sort (set_param "limit" limit (set_param "cursor" cursor [])))))

  no_status : values_of "status" later ≡ []
  unfolding values_of
  no_status = simp (values_of-other)

  -- The service reads each parameter under the name under which the page sets it.
  pub raw_query-sent : raw_query sent ≡ record {
    statuses = statuses;
    asset_symbol = asset;
    search = search;
    bidder = bidder;
    sort = sort;
    limit = limit;
    cursor = cursor;
  }
  unfolding raw_query first_of
  raw_query-sent = simp (
    values_of-append_statuses statuses later no_status,
    first_of-append_statuses,
    first_of-other,
    first_of-same,
    or_else-none,
  )
