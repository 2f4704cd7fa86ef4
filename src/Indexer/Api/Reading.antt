-- ===== src/Indexer/Api/Reading.antt =====
-- indexer/src/api.ts, `parseAuctionQuery`: how each parameter is read.
use sealedstellar.Common.{
  ℕ, ◌≤◌, ◌≡◌, ◌≢◌, refl, ap, sym, ◌∙◌, subst, true, String, List, [], ◌∷◌, map, Option, none, some,
  str_eq, eq_iff, Result, ok, and_then-eq-ok, inl, inr, arith, Bool-cases, Option-cases,
}
use sealedstellar.Common.Int.{pos, negsuc}
use sealedstellar.Common.Text.{trim, utf16_length}
use sealedstellar.Indexer.Runtime.{JsNumber, integer, fraction, not_finite, Runtime}
use sealedstellar.Indexer.Types.{
  AuctionStatus, opened, settled, refunded, status_text, AuctionSort, closing_soonest, newest,
  most_bids, Cursor,
}
use sealedstellar.Indexer.Cursor.{decode_cursor}
use sealedstellar.Indexer.Api.{
  IndexerError, read_status, read_statuses, read_text, no_longer, read_sort, check_limit,
  check_bidder, check_cursor_text, read_limit, read_cursor, max_limit,
}

-- How a text parameter is read: a missing or blank one is none, and any other is the trimmed raw text, which
-- passed the check.
pub data IsRead (P : String → Type 0) : Option String → Option String → Type 0 where
  missing : IsRead P none none
  blank : (raw : String) → trim raw ≡ "" → IsRead P (some raw) none
  given : (raw : String) → trim raw ≢ "" → P raw → IsRead P (some raw) (some (trim raw))

pub ok_inj {ℓ κ} : {A : Type ℓ} {E : Type κ} {a b : A} → ◌≡◌ {A = Result A E} (ok a) (ok b) → a ≡ b
ok_inj h = cc

read_status-text :
    (raw : String) (st : AuctionStatus) → read_status raw ≡ ok st → status_text st ≡ raw
unfolding read_status
read_status-text raw st h = elim (Bool-cases (str_eq raw "Open")) [
  | inl e ↦
      let q : opened ≡ st = ok_inj (rw (e, read_status) at h) in
      rw (← q) (sym ((eq_iff raw "Open").0 e))
  | inr e ↦ elim (Bool-cases (str_eq raw "Settled")) [
    | inl f ↦
        let q : settled ≡ st = ok_inj (rw (e, f, read_status) at h) in
        rw (← q) (sym ((eq_iff raw "Settled").0 f))
    | inr f ↦ elim (Bool-cases (str_eq raw "Refunded")) [
      | inl g ↦
          let q : refunded ≡ st = ok_inj (rw (e, f, g, read_status) at h) in
          rw (← q) (sym ((eq_iff raw "Refunded").0 g))
      | inr g ↦ absurd (let h' = rw (e, f, g, read_status) at h in cc)
    ]
  ]
]

pub read_statuses-texts :
    (raws : List String) (sts : List AuctionStatus)
    → read_statuses raws ≡ ok sts
    → map status_text sts ≡ raws
unfolding read_statuses
read_statuses-texts [] sts h = let q : [] ≡ sts = ok_inj h in rw (sym q) refl
read_statuses-texts (raw ∷ raws) sts h =
    let (st, first, more) = and_then-eq-ok (read_status raw) _ h in
    let (rest, second, made) = and_then-eq-ok (read_statuses raws) _ more in
    let q : st ∷ rest ≡ sts = ok_inj made in
    ap (map status_text) (sym q)
    ∙ ap (λ t. t ∷ map status_text rest) (read_status-text raw st first)
    ∙ ap (◌∷◌ raw) (read_statuses-texts raws rest second)

some_inj {ℓ} : {A : Type ℓ} {a b : A} → some a ≡ some b → a ≡ b
some_inj h = cc

pub read_text-IsRead :
    (check : String → Result (Unit {0}) IndexerError) (P : String → Type 0)
    → ((r : String) → check r ≡ ok tt → P r)
    → (raw read : Option String) → read_text check raw ≡ ok read
    → IsRead P raw read
unfolding read_text
read_text-IsRead check P f none read h = subst (IsRead P none) (ok_inj h) missing
read_text-IsRead check P f (some raw) read h = elim (Bool-cases (str_eq (trim raw) "")) [
  | inl empty ↦
      subst (IsRead P (some raw)) (ok_inj (rw (empty, read_text) at h))
        (blank raw ((eq_iff (trim raw) "").0 empty))
  | inr filled ↦
      let (_, passed, made) = and_then-eq-ok (check raw) _ (rw (filled, read_text) at h) in
      let not_empty : trim raw ≢ "" =
        λ e. absurd (let b = rw ((eq_iff (trim raw) "").1 e) at filled in cc) in
      subst (IsRead P (some raw)) (ok_inj made) (given raw not_empty (f raw passed))
]

check_limit-le : (x : JsNumber) (n : ℕ) → check_limit x ≡ ok n → (1 ≤ n) × (n ≤ max_limit)
unfolding check_limit
check_limit-le (integer (pos m)) n h = ground arith
check_limit-le (integer (negsuc m)) n h = absurd (cc)
check_limit-le (fraction z) n h = absurd (cc)
check_limit-le not_finite n h = absurd (cc)

pub read_limit-le :
    (rt : Runtime) (raw : Option String) (n : ℕ)
    → read_limit rt raw ≡ ok n
    → (1 ≤ n) × (n ≤ max_limit)
unfolding read_limit
read_limit-le rt none n h = ground arith
read_limit-le rt (some raw) n h = elim (Bool-cases (str_eq raw "")) [
  | inl e ↦ let h' = rw e at h in ground arith
  | inr e ↦ check_limit-le (rt.number raw) n (rw e at h)
]

pub no_longer-le :
    (bound : ℕ) (message r : String) → no_longer bound message r ≡ ok tt → utf16_length r ≤ bound
no_longer-le bound message r h = ground arith

pub check_bidder-is_account :
    (rt : Runtime) (r : String) → check_bidder rt r ≡ ok tt → rt.is_account (trim r) ≡ true
unfolding check_bidder
check_bidder-is_account rt r h = ground arith

-- How the order and the cursor are read: by default the auctions that close soonest, from the start.
pub data IsSort : Option String → AuctionSort → Type 0 where
  no_sort : IsSort none closing_soonest
  blank_sort : IsSort (some "") closing_soonest
  soonest : IsSort (some "closingSoonest") closing_soonest
  newest_first : IsSort (some "newest") newest
  most_bids_first : IsSort (some "mostBids") most_bids

pub data IsFrom (rt : Runtime) : Option String → Option Cursor → Type 0 where
  no_cursor : IsFrom rt none none
  blank_cursor : IsFrom rt (some "") none
  cursor_at :
      (raw : String) (c : Cursor) → decode_cursor rt raw ≡ some c → IsFrom rt (some raw) (some c)

pub read_sort-IsSort :
    (raw : Option String) (sort : AuctionSort) → read_sort raw ≡ ok sort → IsSort raw sort
unfolding read_sort
read_sort-IsSort none sort h = subst (IsSort none) (ok_inj h) no_sort
read_sort-IsSort (some raw) sort h = elim (Bool-cases (str_eq raw "")) [
  | inl e ↦
      rw ((eq_iff raw "").0 e)
        (subst (IsSort (some "")) (ok_inj (rw (e, read_sort) at h)) blank_sort)
  | inr a ↦ elim (Bool-cases (str_eq raw "closingSoonest")) [
    | inl e ↦
        rw ((eq_iff raw "closingSoonest").0 e)
          (subst (IsSort (some "closingSoonest")) (ok_inj (rw (a, e, read_sort) at h)) soonest)
    | inr b ↦ elim (Bool-cases (str_eq raw "newest")) [
      | inl e ↦
          rw ((eq_iff raw "newest").0 e)
            (subst (IsSort (some "newest")) (ok_inj (rw (a, b, e, read_sort) at h)) newest_first)
      | inr c ↦ elim (Bool-cases (str_eq raw "mostBids")) [
        | inl e ↦ rw ((eq_iff raw "mostBids").0 e) (
            subst (IsSort (some "mostBids")) (ok_inj (rw (a, b, c, e, read_sort) at h))
              most_bids_first)
        | inr d ↦ absurd (let h' = rw (a, b, c, d, read_sort) at h in cc)
      ]
    ]
  ]
]

pub read_cursor-IsFrom :
    (rt : Runtime) (raw : Option String) (cursor : Option Cursor)
    → read_cursor rt raw ≡ ok cursor
    → IsFrom rt raw cursor
unfolding read_cursor check_cursor_text
read_cursor-IsFrom rt none cursor h = subst (IsFrom rt none) (ok_inj h) no_cursor
read_cursor-IsFrom rt (some raw) cursor h = elim (Bool-cases (str_eq raw "")) [
  | inl e ↦
      rw ((eq_iff raw "").0 e)
        (subst (IsFrom rt (some "")) (ok_inj (rw (e, read_cursor) at h)) blank_cursor)
  | inr filled ↦ elim (Option-cases (decode_cursor rt raw)) [
    | inl bad ↦ absurd (let h' = rw (filled, read_cursor, bad) at h in cc)
    | inr (c, decoded) ↦
        subst (IsFrom rt (some raw)) (ok_inj (rw (filled, read_cursor, decoded) at h))
          (cursor_at raw c decoded)
  ]
]
