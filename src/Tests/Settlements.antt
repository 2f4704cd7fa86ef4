-- ===== src/Tests/Settlements.antt =====
-- A run of the settlement pipeline of web/src/lib/operator.ts.
use sealedstellar.Common.{
  ℕ, zero, suc, ◌≡◌, refl, true, false, get_or, get_elem?, String, List, [], ◌∷◌, Option, none,
  some, Result, ok, replicate, arith,
}
use sealedstellar.Common.Int.{ℤ, pos}
use sealedstellar.Operator.Vickrey.{
  select_vickrey_outcome, find_winner, find_clearing, challenge, raise,
}
use sealedstellar.Indexer.Runtime.{integer}
use sealedstellar.Operator.Settle.{
  SlotData, RevealedBid, fill_slots, empty_slots, CircuitInput, SettleBundle, SettledAuction,
  check_commitments, member_index, prove_winner, assemble_and_prove,
}
use sealedstellar.Operator.Settle.Soundness.{IsSettlement, assemble_and_prove-IsSettlement}
use sealedstellar.Common.Table.{get_at}
use sealedstellar.Indexer.Types.{opened}
use sealedstellar.Contract.{Bid, Auction, State, Host, Verdict}
use sealedstellar.Contract.Calls.{settle, slot_commitments}
use sealedstellar.Contract.Settlement.{AcceptsAll}
use sealedstellar.Operator.Settle.OnChain.{Matches, Shows, settle-assemble_and_prove}
use sealedstellar.Operator.Settle.Slots.{Holds, last_bid, fill_slots-empty}
use sealedstellar.Whitelist.{
  build_tree, levels_from, next_level, pad_leaves, root, path_for, path_from, member_leaves,
  compute_address_leaf, fold_halves,
}

-- A commitment that is the price, a hash that is always 0, and a prover that proves everything.
abbrev price_itself : ℤ → ℤ → ℕ → ℤ
price_itself price salt id = price

abbrev zero_hash : List ℕ → ℕ
zero_hash xs = 0

abbrev any_key : String → Option (List ℕ)
any_key s = some (replicate 32 1)

abbrev always : CircuitInput → Result String String
always input = ok "proof"

abbrev auction : SettledAuction
auction = record { id = 4; whitelist_root = 0 }

abbrev two_bids : SlotData
two_bids = record {
  prices = pos 7 ∷ pos 5 ∷ replicate 6 (pos 0);
  salts = replicate 8 (pos 0);
  commitments = pos 7 ∷ pos 5 ∷ replicate 6 (pos 0);
  bidders = some "bob" ∷ some "eve" ∷ replicate 6 none;
}

abbrev bundle : SettleBundle String
bundle = record {
  auction_id = 4;
  winner_index = 0;
  winning_price = pos 5;
  winner_address = "bob";
  input = record {
    auction_id = 4;
    commitments = two_bids.commitments;
    winner_index = 0;
    winning_price = pos 5;
    whitelist_root = 0;
    winner_addr_hash = 0;
    bid_prices = two_bids.prices;
    bid_salts = two_bids.salts;
    merkle_path = record { elements = replicate 10 (some 0); index_bits = replicate 10 0 };
  };
  proof = "proof";
}

pipeline_runs :
    assemble_and_prove price_itself zero_hash any_key always auction two_bids ("bob" ∷ [])
    ≡ ok bundle
unfolding assemble_and_prove check_commitments member_index prove_winner select_vickrey_outcome
    find_winner find_clearing challenge raise build_tree levels_from next_level pad_leaves root
    path_for path_from member_leaves compute_address_leaf fold_halves
pipeline_runs = refl

assemble_and_prove-IsSettlement_example :
    IsSettlement price_itself zero_hash any_key always auction two_bids ("bob" ∷ []) bundle
assemble_and_prove-IsSettlement_example =
    assemble_and_prove-IsSettlement price_itself zero_hash any_key always auction two_bids
      ("bob" ∷ []) bundle (omega arith) pipeline_runs

abbrev seven : String → Option ℤ
seven text = some (pos 7)

abbrev one_bid : List RevealedBid
one_bid =
    record {
      slot_index = integer (pos 1);
      bidder = "bob";
      price = "7";
      salt = "7";
      commitment = "7";
    }
    ∷ []

abbrev one_filled : SlotData
one_filled = record {
  prices = pos 0 ∷ pos 7 ∷ replicate 6 (pos 0);
  salts = pos 0 ∷ pos 7 ∷ replicate 6 (pos 0);
  commitments = pos 0 ∷ pos 7 ∷ replicate 6 (pos 0);
  bidders = none ∷ some "bob" ∷ replicate 6 none;
}

filling_runs : fill_slots seven one_bid empty_slots ≡ ok one_filled
unfolding fill_slots
filling_runs = refl

fill_slots-empty_example : Holds seven empty_slots one_filled 1 (last_bid 1 one_bid)
fill_slots-empty_example = fill_slots-empty seven one_bid one_filled 1 (omega arith) filling_runs

-- The contract's state with the same auction, and a host whose verifier takes every proof.
abbrev on_chain : Auction
on_chain = record {
  seller = "ann";
  rwa_token = "lots";
  lot_amount = 50;
  payment_token = "cash";
  max_price = 100;
  commit_deadline = 20;
  grace_period = 10;
  whitelist_root = 0;
  operator_enc_pubkey = [];
  status = opened;
  bids = record { bidder = "bob"; commitment = 7 } ∷ record { bidder = "eve"; commitment = 5 } ∷ [];
  lot_reclaimed = false;
}

abbrev contract : State
contract = record { next_auction_id = 5; auctions = (4, on_chain) ∷ []; moved = []; events = [] }

abbrev host : Host String
host = record {
  now = 20;
  has_auth = λ party. true;
  accepts = λ moved m. true;
  verify = λ proof signals. Verdict.verified;
  key_bytes = λ address. replicate 32 1;
  poseidon = zero_hash;
}

stored : get_at 4 contract.auctions ≡ some on_chain
unfolding get_at
stored = refl

willing : AcceptsAll host
unfolding AcceptsAll
willing moved m = refl

matching : Matches host always any_key
matching = record { complete = λ input proof h. refl; decodes = λ address key h. cc }

shown : Shows 4 on_chain auction two_bids
unfolding slot_commitments
shown = record { same_id = refl; same_root = refl; commitments = refl; bidders = showing }
  where
    showing :
        (j : ℕ) (bidder : String)
        → get_or two_bids.bidders j none ≡ some bidder
        → (b : Bid) × (get_elem? on_chain.bids j ≡ some b) × (b.bidder ≡ bidder)
    showing zero bidder h = (record { bidder = "bob"; commitment = 7 }, refl, cc)
    showing (suc zero) bidder h = (record { bidder = "eve"; commitment = 5 }, refl, cc)
    showing (suc (suc zero)) bidder h = absurd (cc)
    showing (suc (suc (suc zero))) bidder h = absurd (cc)
    showing (suc (suc (suc (suc zero)))) bidder h = absurd (cc)
    showing (suc (suc (suc (suc (suc zero))))) bidder h = absurd (cc)
    showing (suc (suc (suc (suc (suc (suc zero)))))) bidder h = absurd (cc)
    showing (suc (suc (suc (suc (suc (suc (suc zero))))))) bidder h = absurd (cc)
    showing (suc (suc (suc (suc (suc (suc (suc (suc j)))))))) bidder h = absurd (cc)

settle-assemble_and_prove_example :
    (c : State) × (settle host 4 0 (pos 5) "bob" "proof" contract ≡ ok c)
settle-assemble_and_prove_example =
    settle-assemble_and_prove price_itself host any_key always contract 4 on_chain auction two_bids
      ("bob" ∷ []) bundle stored refl (omega arith) (omega arith) (omega arith) willing matching
      shown pipeline_runs
