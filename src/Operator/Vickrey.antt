-- ===== src/Operator/Vickrey.antt =====
-- web/src/lib/operator.ts, `selectVickreyOutcome`: the two passes over the slot prices.
use sealedstellar.Common.{ℕ, suc, Bool, true, false, List, [], ◌∷◌, if◌then◌else◌, not, ◌&&◌}
use sealedstellar.Common.Int.{ℤ, pos, negsuc, ltbℤ, eqbℤ}
pub mod Laws

-- `{ winnerIndex, winnerPrice, clearingPrice }`; the index is -1 when no slot was taken.
pub record Outcome : Type 0 where
  pub winner_index : ℤ
  pub winner_price : ℤ
  pub clearing_price : ℤ

-- The variables of the first loop.
pub record Leader : Type 0 where
  pub index : ℤ
  pub price : ℤ

abbrev pub no_leader : Leader
no_leader = record { index = negsuc 0; price = negsuc 0 }

-- The body of the first `forEach`: only a strictly higher price takes the lead.
unfoldable pub challenge : ℕ → ℤ → Leader → Leader
challenge i p b = if ltbℤ b.price p then record { index = pos i; price = p } else b

unfoldable pub find_winner : ℕ → Leader → List ℤ → Leader
find_winner i b [] = b
find_winner i b (p ∷ ps) = find_winner (suc i) (challenge i p b) ps

-- The body of the second `forEach`: the winner's own slot is skipped.
unfoldable pub raise : ℤ → ℕ → ℤ → ℤ → ℤ
raise w i p best = if not (eqbℤ (pos i) w) && ltbℤ best p then p else best

unfoldable pub find_clearing : ℤ → ℕ → ℤ → List ℤ → ℤ
find_clearing w i best [] = best
find_clearing w i best (p ∷ ps) = find_clearing w (suc i) (raise w i p best) ps

unfoldable pub select_vickrey_outcome : List ℤ → Outcome
select_vickrey_outcome prices =
    let winner : Leader = find_winner 0 no_leader prices in
    record {
      winner_index = winner.index;
      winner_price = winner.price;
      clearing_price = find_clearing winner.index 0 (pos 0) prices;
    }
