-- ===== src/Tests/Readers.antt =====
-- A list from the chain, web/src/lib/chain.ts, in which a token's error hides the auctions that follow.
use sealedstellar.Common.{
  ℕ, ◌≡◌, refl, String, [], ◌∷◌, Option, ok, err, str_eq, ◌==◌, if◌then◌else◌, arith,
}
use sealedstellar.Common.Int.{pos}
use sealedstellar.Common.Dict.{Dict, lookup, insert}
use sealedstellar.Indexer.Value.{Value, text, big, arr, obj, nil, Fields, end, field, get}
use sealedstellar.Indexer.Chain.{Simulation, failure, returned, status_value}
use sealedstellar.Web.Errors.{
  contract_error, parse_contract_error_code, match_here, read_code, read_digits, strip,
}
use sealedstellar.Web.ListView.{is_open}
use sealedstellar.Web.ChainReader.{
  ChainView, simulate_contract_view, raw_auction_record, decode_status, get_token_symbol,
  get_auction, list_auctions,
}
use sealedstellar.Web.ChainReader.Probing.{reads_none, reads_one, list_auctions-Reads}

abbrev auction_fields : String → Fields
auction_fields token = field "seller" (text "ann") (
    field "rwa_token" (text token) (
      field "lot_amount" (big (pos 5)) (
        field "payment_token" (text "usd") (
          field "max_price" (big (pos 9)) (
            field "commit_deadline" (big (pos 20))
              (field "bids" (arr nil) (field "status" (text "Open") end)))))))

-- The second auction's lot is in a token whose `symbol` fails.
abbrev auction_call : ℕ → Simulation
auction_call id = returned (obj (auction_fields (if id == 1 then "good" else "bad")))

abbrev symbol_call : String → Simulation
symbol_call token =
    if str_eq token "bad" then failure "Error(Contract, #3)" else returned (text "TOK")

abbrev shown : Option Value → String
shown v = ""

abbrev first_view : ChainView
first_view = record {
  id = 1;
  raw = record {
    seller = "ann";
    rwa_token = "good";
    lot_amount = pos 5;
    payment_token = "usd";
    max_price = pos 9;
    commit_deadline = pos 20;
    bids = [];
    fields = auction_fields "good";
  };
  status = is_open;
  lot_symbol = "TOK";
  payment_symbol = "TOK";
}

abbrev symbols : Dict String
symbols = ("good", "TOK") ∷ ("usd", "TOK") ∷ []

first_read : get_auction shown symbol_call auction_call 1 [] ≡ (ok first_view, symbols)
unfolding get_auction simulate_contract_view raw_auction_record get decode_status status_value
    get_token_symbol lookup insert
first_read = refl

second_read :
    get_auction shown symbol_call auction_call 2 symbols ≡ (err (contract_error 3), symbols)
unfolding get_auction simulate_contract_view raw_auction_record get decode_status status_value
    get_token_symbol lookup insert parse_contract_error_code match_here read_code read_digits strip
second_read = refl

list_auctions-Reads_example :
    list_auctions shown symbol_call auction_call [] ≡ (ok (first_view ∷ []), symbols)
list_auctions-Reads_example =
    list_auctions-Reads shown symbol_call auction_call [] symbols symbols (first_view ∷ []) 3
      (reads_one 1 first_view [] [] symbols symbols first_read (reads_none 2 symbols)) (omega arith)
      second_read
