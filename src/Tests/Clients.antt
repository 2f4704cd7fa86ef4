-- ===== src/Tests/Clients.antt =====
-- Runs of the page's clients of the services: web/src/lib/indexer.ts and web/api/reveal.ts.
use Prim.Native.Char.{Char, code}
use sealedstellar.Common.{
  if◌then◌else◌, ap, ◌∙◌, ◌==◌, ℕ, ◌≡◌, ◌⊎◌, refl, true, String, List, [], ◌∷◌, Option, none, some,
  str_eq, any, ok, err, arith, replicate, here,
}
use sealedstellar.Common.Text.{trim, trim_start, trim_end, trim_end_step, is_space}
use sealedstellar.Indexer.Api.{Params, raw_query, parse_auction_query}
use sealedstellar.Web.ListView.{
  ListView, AuctionView, live, closing_first, comfortable, is_open, matches_segment,
  derive_auction_tone,
}
use sealedstellar.Web.IndexerClient.{segment_status, build_auction_query}
use sealedstellar.Web.IndexerClient.Queries.{
  parse-build_auction_query, segment_status-matches_segment, name_of,
}
use sealedstellar.Web.IndexerClient.Reading.{IsAskable, asked_text, statuses_of, sort_of}
use sealedstellar.Common.Int.{pos}
use sealedstellar.Common.Sorting.{sort, insert}
use sealedstellar.Indexer.Runtime.{integer}
use sealedstellar.Indexer.Value.{Value, text, big, obj, field, end, get}
use sealedstellar.Indexer.Chain.{returned, no_result, status_value}
use sealedstellar.Operator.Settle.{RevealedBid}
use sealedstellar.Web.Reveal.{
  reveal_failed, load_box_secret, is_hex_text, hex_to_bytes, decrypt_bid, read_big_endian,
  get_auction_state, get_registry_members, BidEvent, bids_among, collect_pages, fetch_bid_events,
}
use sealedstellar.Web.Reveal.Handler.{
  Host, reveals, read_auction_id, open_bids, reveal_open, reveal_auction, reveal, handler,
}
use sealedstellar.Web.Reveal.Disclosure.{IsDisclosed, handler-IsDisclosed, handler-unopened}
use sealedstellar.Tests.Fixtures.{unary_runtime, unary_runtime-IsRuntime, count}

abbrev live_view : ListView
live_view = record {
  segment = live;
  search = " ben ";
  asset_symbol = some "tBENJI";
  sort = closing_first;
  density = comfortable;
}

-- A text of parameters: each character after a "c", each end of a name or a value an "e".
text_to_url : String → String → String
text_to_url String.[] later = String.◌∷◌ "e" later
text_to_url (String.◌∷◌ c s) later = String.◌∷◌ "c" (String.◌∷◌ c (text_to_url s later))

to_url : Params → String
to_url [] = ""
to_url ((name, value) ∷ params) = text_to_url name (text_to_url value (to_url params))

push : Char → List String → List String
push c [] = []
push c (s ∷ ss) = String.◌∷◌ c s ∷ ss

texts_of : String → List String
texts_of String.[] = []
texts_of (String.◌∷◌ mark String.[]) = "" ∷ []
texts_of (String.◌∷◌ mark (String.◌∷◌ c s)) =
    if code mark == 99 then push c (texts_of s) else "" ∷ texts_of (String.◌∷◌ c s)

paired : List String → Params
paired (name ∷ value ∷ texts) = (name, value) ∷ paired texts
paired _ = []

of_url : String → Params
of_url s = paired (texts_of s)

texts_of-text_to_url : (s later : String) → texts_of (text_to_url s later) ≡ s ∷ texts_of later
unfolding texts_of text_to_url push
texts_of-text_to_url String.[] String.[] = refl
texts_of-text_to_url String.[] (String.◌∷◌ c later) = refl
texts_of-text_to_url (String.◌∷◌ c s) later = ap (push c) (texts_of-text_to_url s later)

of-to_url : (params : Params) → of_url (to_url params) ≡ params
unfolding of_url to_url paired texts_of
of-to_url [] = refl
of-to_url ((name, value) ∷ params) =
    ap paired (
      texts_of-text_to_url name (text_to_url value (to_url params))
      ∙ ap (◌∷◌ name) (texts_of-text_to_url value (to_url params)))
    ∙ ap (◌∷◌ (name, value)) (of-to_url params)

some_inj : {a b : String} → some a ≡ some b → a ≡ b
some_inj e = cc

askable : IsAskable unary_runtime live_view none none 24
unfolding trim trim_start trim_end trim_end_step is_space
askable = record {
  search = omega arith;
  asset = λ a e. rw (← some_inj e) (refl, (λ h. absurd (cc)), omega arith);
  bidder = λ b e. absurd (cc);
  page = λ raw e. absurd (cc);
  some_row = omega arith;
  few_rows = omega arith;
}

parse-build_auction_query_example :
    parse_auction_query unary_runtime
      (raw_query (of_url (to_url (build_auction_query unary_runtime live_view none none 24))))
    ≡ ok (record {
      statuses = statuses_of live;
      asset_symbol = some "tBENJI";
      search = asked_text (trim " ben ");
      bidder = none;
      sort = sort_of closing_first;
      limit = 24;
      cursor = none;
    })
unfolding count
parse-build_auction_query_example =
    parse-build_auction_query unary_runtime to_url of_url live_view none none 24 of-to_url
      unary_runtime-IsRuntime refl askable

abbrev early_auction : AuctionView
early_auction = record {
  id = 3;
  commit_deadline_seconds = 20;
  status = is_open;
  bidders = [];
  lot_symbol = "tBENJI";
  payment_symbol = "tUSDC";
}

belongs : matches_segment early_auction live 10 none ≡ true
unfolding matches_segment derive_auction_tone
belongs = refl

segment_status-matches_segment_example :
    (segment_status live ≡ [])
    ⊎ (any (λ s. str_eq s (name_of is_open)) (segment_status live) ≡ true)
segment_status-matches_segment_example =
    segment_status-matches_segment early_auction live 10 none belongs

-- A server whose box opens every bid that is long enough, and an auction with one bid.
abbrev ones : List ℕ
ones = replicate 39 1

abbrev stored_auction : Value
stored_auction = obj (
    field "status" (text "Open")
      (field "commit_deadline" (big (pos 20)) (field "whitelist_root" (big (pos 7)) end)))

abbrev sealed : BidEvent
sealed = record {
  slot_index = pos 0;
  bidder = "bob";
  commitment = pos 5;
  encrypted_bid = replicate 95 1;
}

abbrev garbage : BidEvent
garbage = record { slot_index = pos 1; bidder = "eve"; commitment = pos 6; encrypted_bid = [] }

abbrev server : List (Option BidEvent) → Host
server found = record {
  is_testnet = true;
  secret_text = some "0101010101010101010101010101010101010101010101010101010101010101";
  box_open = λ box nonce public_key secret. some ones;
  parse_json = λ s. none;
  number_of = λ v. integer (pos 3);
  to_text = λ z. "n";
  now_seconds = pos 30;
  auction_call = λ id. returned stored_auction;
  latest_ledger = ok 100;
  get_events = λ id ledger cursor. ok (record { found = found; cursor = none });
  members_call = λ root. no_result;
}

abbrev asking : Value
asking = obj (field "auctionId" (text "3") end)

abbrev shown : List RevealedBid
shown =
    record {
      slot_index = integer (pos 0);
      bidder = "bob";
      price = "n";
      salt = "n";
      commitment = "n";
    }
    ∷ []

abbrev secret_bytes : List ℕ
secret_bytes = replicate 32 1

loads : load_box_secret true (server []).secret_text ≡ ok secret_bytes
unfolding load_box_secret is_hex_text hex_to_bytes trim trim_start trim_end trim_end_step is_space
loads = refl

reads :
    get_auction_state (returned stored_auction)
    ≡ ok (record { status = "Open"; commit_deadline_seconds = pos 20; whitelist_root = pos 7 })
unfolding get_auction_state get status_value
reads = refl

finds :
    (e : BidEvent) → fetch_bid_events (ok 100) ((server (some e ∷ [])).get_events 3) ≡ ok (e ∷ [])
unfolding fetch_bid_events collect_pages bids_among sort insert
finds e = refl

asks : read_auction_id (server []).parse_json (server []).number_of asking ≡ some 3
unfolding read_auction_id get
asks = refl

reveal_runs :
    (handler (server (some sealed ∷ [])) "POST" asking).body ≡ ok (reveals 3 (pos 7) [] shown)
unfolding handler reveal reveal_auction reveal_open open_bids decrypt_bid read_big_endian
    get_registry_members
reveal_runs = rw (loads, asks, reads, finds sealed) refl

handler-IsDisclosed_example : IsDisclosed (server (some sealed ∷ [])) 3 (pos 7) [] shown
handler-IsDisclosed_example =
    handler-IsDisclosed (server (some sealed ∷ [])) "POST" asking 3 (pos 7) [] shown reveal_runs

unopened : decrypt_bid (server []).box_open [] secret_bytes ≡ none
unfolding decrypt_bid
unopened = refl

handler-unopened_example :
    (message : String) × (handler (server (some garbage ∷ [])) "POST" asking
      ≡ record { status = 502; body = err (record { kind = reveal_failed; message = message }) })
handler-unopened_example =
    handler-unopened (server (some garbage ∷ [])) asking 3 secret_bytes
      (record { status = "Open"; commit_deadline_seconds = pos 20; whitelist_root = pos 7 })
      (garbage ∷ []) garbage loads asks reads refl (omega arith) (finds garbage) (here refl)
      unopened
