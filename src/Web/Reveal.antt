-- ===== src/Web/Reveal.antt =====
-- web/api/reveal.ts: the function that opens the sealed bids of a closed auction. The environment, the
-- clock, the RPC server with its decoders, and tweetnacl are arguments; log lines and
-- the exception of an event that its decoder refuses are left out.
pub mod Handler
pub mod Disclosure
pub mod Found
use Prim.Native.Char.{Char, code}
use sealedstellar.Common.{
  ℕ, zero, suc, ◌+◌, ◌-◌, ◌*◌, Bool, true, false, not, ◌&&◌, ◌||◌, String, List, [], ◌∷◌, ◌++◌,
  Option, none, some, ◌>>=◌, str_eq, ltb, leb, ◌==◌, if◌then◌else◌, length, take, drop, Result, ok,
  err, and_then,
}
use sealedstellar.Common.Int.{ℤ, pos, ltbℤ}
use sealedstellar.Common.Text.{trim, append}
use sealedstellar.Common.Sorting.{sort}
use sealedstellar.Indexer.Runtime.{JsNumber, integer}
use sealedstellar.Indexer.Value.{Value, text, arr, obj, Fields, end, get, items, as_text, as_big}
use sealedstellar.Indexer.Chain.{
  Simulation, network_failure, failure, no_result, returned, status_value,
}
use sealedstellar.Operator.Settle.{RevealedBid}

-- `RevealError`, by its kind
pub data RevealKind : Type 0 where
  bad_request server_misconfigured not_closed not_settleable chain_unreachable reveal_failed :
      RevealKind

pub record RevealError : Type 0 where
  pub kind : RevealKind
  pub message : String

-- `statusForError`
unfoldable pub status_for_error : RevealKind → ℕ
status_for_error bad_request = 400
status_for_error not_closed = 409
status_for_error not_settleable = 409
status_for_error chain_unreachable = 502
status_for_error reveal_failed = 502
status_for_error server_misconfigured = 503

abbrev pub fails {ℓ} : {A : Type ℓ} → RevealKind → String → Result A RevealError
fails kind message = err (record { kind = kind; message = message })

abbrev pub check : Bool → RevealKind → String → Result (Unit {0}) RevealError
check b kind message = if b then ok tt else fails kind message

-- The value of a hexadecimal digit, by its code.
abbrev pub hex_value : ℕ → Option ℕ
hex_value c =
    if leb 48 c && leb c 57
    then some (c - 48)
    else if leb 65 c && leb c 70
    then some (c - 55)
    else if leb 97 c && leb c 102
    then some (c - 87)
    else none

abbrev pub is_hex : Option ℕ → Bool
is_hex none = false
is_hex (some n) = true

-- The rest of a text that is matched by [0-9a-fA-F]{n}$
unfoldable pub is_hex_text : ℕ → String → Bool
is_hex_text zero String.[] = true
is_hex_text (suc n) (String.◌∷◌ c s) = is_hex (hex_value (code c)) && is_hex_text n s
is_hex_text _ _ = false

abbrev pub digit_of : Option ℕ → ℕ
digit_of none = 0
digit_of (some n) = n

-- `hexToBytes`, of hexadecimal digits
unfoldable pub hex_to_bytes : String → List ℕ
hex_to_bytes (String.◌∷◌ c (String.◌∷◌ d s)) =
    (digit_of (hex_value (code c)) * 16 + digit_of (hex_value (code d))) ∷ hex_to_bytes s
hex_to_bytes _ = []

-- `loadBoxSecret`: whether the RPC's address is the testnet's, and the secret of the environment.
unfoldable pub load_box_secret : Bool → Option String → Result (List ℕ) RevealError
load_box_secret is_testnet secret_text =
    and_then (check is_testnet server_misconfigured "reveal RPC must target testnet") (λ _.
      elim secret_text [
        | none ↦ fails server_misconfigured "OPERATOR_BOX_SECRET must be a 32-byte hex string"
        | some s ↦
            if is_hex_text 64 (trim s)
            then ok (hex_to_bytes (trim s))
            else fails server_misconfigured "OPERATOR_BOX_SECRET must be a 32-byte hex string"
      ])

abbrev pub nonce_bytes : ℕ
nonce_bytes = 24

abbrev pub ephemeral_pub_bytes : ℕ
ephemeral_pub_bytes = 32

abbrev pub price_bytes : ℕ
price_bytes = 8

abbrev pub salt_bytes : ℕ
salt_bytes = 31

-- Bytes as a number, the first the highest.
unfoldable pub read_big_endian : ℕ → List ℕ → ℕ
read_big_endian acc [] = acc
read_big_endian acc (b ∷ bs) = read_big_endian (acc * 256 + b) bs

-- A box's content: the price and the salt.
abbrev pub opened_bid : Option (List ℕ) → Option (ℕ × ℕ)
opened_bid none = none
opened_bid (some bytes) =
    if length bytes == price_bytes + salt_bytes
    then some
        (read_big_endian 0 (take price_bytes bytes), read_big_endian 0 (drop price_bytes bytes))
    else none

-- `nacl.box.open` of a box, a nonce, a public and a secret key
abbrev pub BoxOpen : Type 0
BoxOpen = List ℕ → List ℕ → List ℕ → List ℕ → Option (List ℕ)

-- `decryptBid`
unfoldable pub decrypt_bid : BoxOpen → List ℕ → List ℕ → Option (ℕ × ℕ)
decrypt_bid box_open encrypted secret =
    if ltb (length encrypted) (nonce_bytes + ephemeral_pub_bytes + price_bytes + salt_bytes)
    then none
    else opened_bid (
        box_open (drop (nonce_bytes + ephemeral_pub_bytes) encrypted) (take nonce_bytes encrypted)
          (take ephemeral_pub_bytes (drop nonce_bytes encrypted)) secret)

pub record AuctionState : Type 0 where
  pub status : String
  pub commit_deadline_seconds : ℤ
  pub whitelist_root : ℤ

abbrev pub fields_of : Value → Fields
fields_of (obj fs) = fs
fields_of _ = end

abbrev pub or_fails {ℓ} : {A : Type ℓ} → Option A → RevealKind → String → Result A RevealError
or_fails none kind message = fails kind message
or_fails (some a) kind message = ok a

-- `getAuctionState`, after the call
unfoldable pub get_auction_state : Simulation → Result AuctionState RevealError
get_auction_state (network_failure detail) =
    fails chain_unreachable (append "get_auction simulate failed: " detail)
get_auction_state (failure detail) = fails not_settleable "auction not found on chain"
get_auction_state no_result = fails chain_unreachable "get_auction returned no result"
get_auction_state (returned value) =
    let record_fields : Fields = fields_of value in
    and_then
      (or_fails (as_text (status_value (get "status" record_fields))) chain_unreachable
        "get_auction status decode failed")
      (λ status.
        and_then
          (or_fails (as_big (get "commit_deadline" record_fields)) chain_unreachable
            "get_auction record shape mismatch")
          (λ deadline.
            and_then
              (or_fails (as_big (get "whitelist_root" record_fields)) chain_unreachable
                "get_auction record shape mismatch")
              (λ root. ok (record {
                status = status;
                commit_deadline_seconds = deadline;
                whitelist_root = root;
              }))))

unfoldable pub keep_texts : List Value → List String
keep_texts [] = []
keep_texts (text s ∷ vs) = s ∷ keep_texts vs
keep_texts (_ ∷ vs) = keep_texts vs

-- `getRegistryMembers`, after the call: every failure gives no members.
unfoldable pub get_registry_members : Simulation → List String
get_registry_members (returned (arr vs)) = keep_texts (items vs)
get_registry_members _ = []

-- `BidEvent`
pub record BidEvent : Type 0 where
  pub slot_index : ℤ
  pub bidder : String
  pub commitment : ℤ
  pub encrypted_bid : List ℕ

abbrev pub earlier_slot : BidEvent → BidEvent → Bool
earlier_slot a b = ltbℤ a.slot_index b.slot_index

abbrev pub max_pages : ℕ
max_pages = 30

-- A page of events, and the cursor of the next one.
pub record EventPage : Type 0 where
  pub found : List (Option BidEvent)
  pub cursor : Option String

-- The bids among a page's events; an event of another shape is none.
unfoldable pub bids_among : List (Option BidEvent) → List BidEvent
bids_among [] = []
bids_among (none ∷ es) = bids_among es
bids_among (some b ∷ es) = b ∷ bids_among es

abbrev pub has_next : Option String → Bool
has_next none = false
has_next (some cursor) = not (str_eq cursor "")

-- The loop over the pages: pages left, cursor. `get_events` gives the first page without a cursor.
unfoldable pub collect_pages :
    (Option String → Result EventPage String)
    → ℕ
    → Option String
    → List (Option BidEvent)
    → Result (List (Option BidEvent)) String
collect_pages get_events zero cursor matched = ok matched
collect_pages get_events (suc left) cursor matched = and_then (get_events cursor) (λ page.
    let rest : Result (List (Option BidEvent)) String =
      collect_pages get_events left page.cursor (matched ++ page.found) in
    if has_next page.cursor then rest else ok (matched ++ page.found))

abbrev pub or_unreachable {ℓ} : {A : Type ℓ} → String → Result A String → Result A RevealError
or_unreachable call (ok a) = ok a
or_unreachable call (err detail) = fails chain_unreachable (append call (append " failed: " detail))

abbrev pub event_lookback_ledgers : ℕ
event_lookback_ledgers = 100_000

-- `Math.max(1, latest - EVENT_LOOKBACK_LEDGERS)`
abbrev pub start_ledger : ℕ → ℕ
start_ledger latest =
    if ltb event_lookback_ledgers latest then latest - event_lookback_ledgers else 1

-- `fetchBidEvents`: the latest ledger's answer, then the pages from the first ledger that is looked at.
unfoldable pub fetch_bid_events :
    Result ℕ String
    → (ℕ → Option String → Result EventPage String)
    → Result (List BidEvent) RevealError
fetch_bid_events latest get_events = and_then (or_unreachable "getLatestLedger" latest) (λ ledger.
    and_then
      (or_unreachable "getEvents"
        (collect_pages (get_events (start_ledger ledger)) max_pages none []))
      (λ matched. ok (sort earlier_slot (bids_among matched))))
