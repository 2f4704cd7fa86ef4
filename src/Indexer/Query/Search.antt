-- ===== src/Indexer/Query/Search.antt =====
-- indexer/src/store.ts, the search condition of `query`: which rows it finds.
use sealedstellar.Common.{
  ℕ, ◌≡◌, refl, ◌↔◌, ◌⊎◌, inl, inr, Bool, true, false, String, List, ◌++◌, map, some, str_eq,
  eq_iff, ◌==◌, Bool-cases, All, arith,
}
use sealedstellar.Common.Int.{pos}
use sealedstellar.Indexer.Runtime.{integer, Runtime}
use sealedstellar.Indexer.Types.{Row}
use sealedstellar.Indexer.Query.{codes, fold_case, sql_lower, surround, matches_search}

-- Neither `%` nor `_`.
abbrev pub IsPlain : ℕ → Type 0
IsPlain c = ((c == b'%') ≡ false) × ((c == b'_') ≡ false)

-- The text is a part of the other one, in either case.
unfoldable pub Occurs : List ℕ → List ℕ → Type 0
Occurs q s =
    (front : List ℕ) × (part : List ℕ) × (rest : List ℕ) × (s ≡ front ++ (part ++ rest))
    × (map fold_case part ≡ map fold_case q)

-- Documented behaviour of LIKE: a plain text between two `%` matches the texts in which it occurs.
pub record IsLike (like : List ℕ → List ℕ → Bool) : Type 0 where
  pub finds : (q s : List ℕ) → All IsPlain q → (like (surround q) s ≡ true) ↔ Occurs q s

-- A search whose lower-case form has neither `%` nor `_` finds a row exactly if it is the row's number, as
-- it stands, or its lower-case form (of JavaScript) occurs in the lot's symbol or in the payment's, each with
-- its ASCII letters in lower case, up to the case of ASCII letters. LIKE is as documented.
pub matches_search_iff :
    (rt : Runtime) (search : String) (row : Row)
    → IsLike rt.like
    → All IsPlain (codes (rt.to_lower search))
    → (matches_search rt (some search) row ≡ true) ↔ (
        (rt.to_text (integer (pos row.id)) ≡ search)
        ⊎ (Occurs (codes (rt.to_lower search)) (sql_lower (codes row.lot_symbol))
            ⊎ Occurs (codes (rt.to_lower search)) (sql_lower (codes row.payment_symbol))))
unfolding matches_search
matches_search_iff rt search row l plain =
    let q : List ℕ = codes (rt.to_lower search) in
    let lot = l.finds q (sql_lower (codes row.lot_symbol)) plain in
    let paid = l.finds q (sql_lower (codes row.payment_symbol)) plain in
    let number = eq_iff (rt.to_text (integer (pos row.id))) search in
    (
      λ e. elim (Bool-cases (str_eq (rt.to_text (integer (pos row.id))) search)) [
        | inl same ↦ inl (number.0 same)
        | inr other ↦ elim (Bool-cases (rt.like (surround q) (sql_lower (codes row.lot_symbol)))) [
          | inl in_lot ↦ inr (inl (lot.0 in_lot))
          | inr not_lot ↦ inr (inr (paid.0 (rw (other, not_lot) at e)))
        ]
      ],
      λ d. elim d [
        | inl same ↦ let e = number.1 same in rw e refl
        | inr (inl occurs) ↦ let e = lot.1 occurs in ground arith
        | inr (inr occurs) ↦ let e = paid.1 occurs in ground arith
      ],
    )
