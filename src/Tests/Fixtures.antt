-- ===== src/Tests/Fixtures.antt =====
-- A runtime that writes numbers in unary, two auctions and a store for the runs of indexer/src.
use sealedstellar.Common.{ℕ, zero, suc, ◌≡◌, refl, ap, true, String, [], ◌∷◌, none, some}
use sealedstellar.Common.Int.{pos}
use sealedstellar.Common.Text.{Lacks}
use sealedstellar.Indexer.Runtime.{JsNumber, integer, Runtime, IsRuntime}
use sealedstellar.Indexer.Types.{Row, newest, AuctionQuery}
use sealedstellar.Indexer.Store.{Store}
use sealedstellar.Tests.Like.{like}

unfoldable pub unary : ℕ → String
unary zero = ""
unary (suc n) = String.◌∷◌ "1" (unary n)

unfoldable pub count : String → ℕ
count String.[] = 0
count (String.◌∷◌ c s) = suc (count s)

unfoldable pub show_number : JsNumber → String
unfolding unary
show_number (integer (pos n)) = unary n
show_number _ = "?"

abbrev pub unary_runtime : Runtime
unary_runtime = record {
  to_text = show_number;
  number = λ s. integer (pos (count s));
  to_lower = λ s. s;
  to_base64url = λ s. s;
  of_base64url = some;
  is_account = λ s. true;
  like = like;
}

count-unary : (n : ℕ) → count (unary n) ≡ n
unfolding count unary
count-unary zero = refl
count-unary (suc n) = ap suc (count-unary n)

unary-Lacks : (n : ℕ) → Lacks b':' (unary n)
unfolding unary
unary-Lacks zero = tt
unary-Lacks (suc n) = (refl, unary-Lacks n)

pub unary_runtime-IsRuntime : IsRuntime unary_runtime
unfolding show_number
unary_runtime-IsRuntime = record {
  number-to_text = λ n h. ap (λ m. integer (pos m)) (count-unary n);
  to_text-Lacks = λ n h. unary-Lacks n;
  of-to_base64url = λ s. refl;
}

abbrev pub small_row : ℕ → ℕ → String → Row
small_row id deadline status = record {
  id = id;
  seller = "seller";
  rwa_token = "rwa";
  lot_symbol = "tBENJI";
  lot_amount = "5";
  payment_token = "usd";
  payment_symbol = "tUSDC";
  max_price = "9";
  commit_deadline = deadline;
  grace_period = 60;
  status = status;
  filled_slots = 1;
  lot_reclaimed = 0;
  clearing_price = none;
  winner = none;
  settle_tx = none;
}

abbrev pub three_auctions : Store
three_auctions = record {
  auctions = small_row 1 30 "Settled" ∷ small_row 2 20 "Open" ∷ small_row 3 10 "Open" ∷ [];
  bids = record { auction_id = 2; slot_index = 0; bidder = "bob" } ∷ [];
  ingest_cursor = none;
}

abbrev pub by_newest : AuctionQuery
by_newest = record {
  statuses = [];
  asset_symbol = none;
  search = none;
  bidder = none;
  sort = newest;
  limit = 2;
  cursor = none;
}
