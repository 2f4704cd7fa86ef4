-- ===== src/Operator/Settle/OnChain.antt =====
-- web/src/lib/operator.ts and contracts/auction/src/lib.rs together: what the pipeline proves is what the
-- contract has verified. The public signals of circuits/auction_winner.circom are in the circuit's order.
use sealedstellar.Common.{
  ℕ, ◌≤◌, ◌≡◌, refl, sym, ap, ◌∙◌, String, List, [], ◌∷◌, ◌++◌, map, Option, none, some, Result, ok,
  length, get_elem?, get_or,
}
use sealedstellar.Common.Int.{ℤ, pos, pos_part, ◌≤ℤ◌}
use sealedstellar.Common.Table.{get_at}
use sealedstellar.Indexer.Types.{opened}
use sealedstellar.Whitelist.{compute_address_leaf, max_whitelist_members}
use sealedstellar.Contract.{Bid, Auction, State, Host, Verdict, max_bid_slots}
use sealedstellar.Contract.Calls.{slot_commitments, build_public_signals, settle}
use sealedstellar.Contract.Settlement.{AcceptsAll, settle-succeeds}
use sealedstellar.Operator.Settle.{
  SlotData, SettledAuction, CircuitInput, SettleBundle, assemble_and_prove,
}
use sealedstellar.Operator.Settle.Soundness.{IsSettlement, assemble_and_prove-IsSettlement}

-- The public signals of a circuit's input.
unfoldable pub public_signals : CircuitInput → List ℕ
public_signals input =
    input.auction_id ∷ map pos_part input.commitments
    ++ input.winner_index
      ∷ pos_part input.winning_price
      ∷ input.whitelist_root
      ∷ input.winner_addr_hash
      ∷ []

-- The pipeline's view of the auction is the contract's.
pub record Shows (id : ℕ) (a : Auction) (auction : SettledAuction) (slots : SlotData) : Type 0 where
  pub same_id : auction.id ≡ id
  pub same_root : auction.whitelist_root ≡ a.whitelist_root
  pub commitments : map pos_part slots.commitments ≡ slot_commitments a.bids max_bid_slots
  pub bidders :
      (j : ℕ) (bidder : String)
      → get_or slots.bidders j none ≡ some bidder
      → (b : Bid) × (get_elem? a.bids j ≡ some b) × (b.bidder ≡ bidder)

-- The prover and the verifier are of one circuit: a proof that is given for an input verifies for the
-- input's signals; and the page decodes an address to the bytes that the contract reads.
pub record Matches {Proof : Type 0} (host : Host Proof) (prove : CircuitInput → Result Proof String)
    (decode_key : String → Option (List ℕ)) : Type 0 where
  pub complete :
      (input : CircuitInput) (proof : Proof)
      → prove input ≡ ok proof
      → host.verify proof (public_signals input) ≡ Verdict.verified
  pub decodes :
      (address : String) (key : List ℕ)
      → decode_key address ≡ some key
      → host.key_bytes address ≡ key

module _ {Proof : Type 0} (commit : ℤ → ℤ → ℕ → ℤ) (host : Host Proof)
    (decode_key : String → Option (List ℕ)) (prove : CircuitInput → Result Proof String) where
  signals_match :
      (id : ℕ) (a : Auction) (auction : SettledAuction) (slots : SlotData) (members : List String)
      (b : SettleBundle Proof)
      → Shows id a auction slots
      → Matches host prove decode_key
      → IsSettlement commit host.poseidon decode_key prove auction slots members b
      → public_signals b.input
        ≡ build_public_signals host a id b.winner_index (pos_part b.winning_price) b.winner_address
  unfolding public_signals build_public_signals
  signals_match id a auction slots members b shows matches s =
      let (key, decoded, leaf) = s.input_leaf in
      let same_leaf =
        leaf
        ∙ ap (compute_address_leaf host.poseidon)
            (sym (matches.decodes b.winner_address key decoded)) in
      let all_commitments = ap (map pos_part) s.input_commitments ∙ shows.commitments in
      rw
        (
          s.input_id ∙ shows.same_id,
          all_commitments,
          s.input_index,
          s.input_price,
          s.input_root ∙ shows.same_root,
          same_leaf,
        )
        refl

  -- A bundle that the pipeline gives, for a whitelist of at most 1024 members, from slots that show the
  -- contract's bids and for the auction's number and root, is accepted by the contract: if the auction is open
  -- and past its deadline, its maximal price is at least the clearing price, the tokens carry out every
  -- transfer, and the prover and the decoder match the verifier and the contract, then `settle` with the
  -- bundle's winner, price, address and proof gives a result.
  pub settle-assemble_and_prove :
      (c : State) (id : ℕ) (a : Auction) (auction : SettledAuction) (slots : SlotData)
      (members : List String) (b : SettleBundle Proof)
      → get_at id c.auctions ≡ some a
      → a.status ≡ opened
      → a.commit_deadline ≤ host.now
      → b.winning_price ≤ℤ pos a.max_price
      → length members ≤ max_whitelist_members
      → AcceptsAll host
      → Matches host prove decode_key
      → Shows id a auction slots
      → assemble_and_prove commit host.poseidon decode_key prove auction slots members ≡ ok b
      → (c' : State) × (settle host id b.winner_index b.winning_price b.winner_address b.proof c
          ≡ ok c')
  settle-assemble_and_prove c id a auction slots members b stored o late within few willing matches
        shows h =
      let s =
        assemble_and_prove-IsSettlement commit host.poseidon decode_key prove auction slots members
          b few h in
      let signals = signals_match id a auction slots members b shows matches s in
      settle-succeeds host willing c id b.winner_index b.winning_price b.winner_address b.proof a
        (record {
          stored = stored;
          is_open = o;
          late = late;
          positive = s.pays;
          within = within;
          winner_bid = shows.bidders b.winner_index b.winner_address s.winner;
          proved =
              ap (host.verify b.proof) (sym signals) ∙ matches.complete b.input b.proof s.proved;
        })
