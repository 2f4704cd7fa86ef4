-- ===== src/RateLimit.antt =====
-- `takeToken` of indexer/src/api.ts and faucet/src/api.ts: a token bucket for each client address.
-- Tokens are counted in a unit in which the refill per millisecond is whole, so that the arithmetic is
-- exact; the rounding of floating-point numbers is left out. The clock may go back.
pub mod Budget
use sealedstellar.Common.{
  ℕ, ◌+◌, ◌-◌, ◌*◌, Bool, true, false, String, List, [], ◌∷◌, Option, none, some, if◌then◌else◌,
}
use sealedstellar.Common.Int.{ℤ, pos, negsuc, pos_part, neg_part, sub_ℕ, ltbℤ}
use sealedstellar.Common.Dict.{Dict, lookup, insert}

-- The full bucket, one request and one millisecond, in units.
pub record Limit : Type 0 where
  pub capacity : ℕ
  pub token : ℕ
  pub per_ms : ℕ

-- 60 requests, 30 a second: thousandths of a request
abbrev pub indexer_limit : Limit
indexer_limit = record { capacity = 60_000; token = 1_000; per_ms = 30 }

-- 10 requests, one in five seconds: five-thousandths of a request
abbrev pub faucet_limit : Limit
faucet_limit = record { capacity = 50_000; token = 5_000; per_ms = 1 }

pub record Bucket : Type 0 where
  pub tokens : ℤ
  pub last_refill_ms : ℕ

-- Math.min(capacity, tokens + elapsed * rate)
unfoldable pub refill : Limit → ℕ → Bucket → ℤ
refill l now b =
    let total : ℤ =
      sub_ℕ (pos_part b.tokens + l.per_ms * now)
        (neg_part b.tokens + l.per_ms * b.last_refill_ms) in
    if ltbℤ (pos l.capacity) total then pos l.capacity else total

-- A bucket's answer to a request, and the bucket after it.
unfoldable pub take_from : Limit → ℕ → Bucket → Bool × Bucket
unfolding refill
take_from l now b =
    let tokens : ℤ = refill l now b in
    if ltbℤ tokens (pos l.token)
    then (false, record { tokens = tokens; last_refill_ms = now })
    else (
      true,
      record { tokens = sub_ℕ (pos_part tokens) (neg_part tokens + l.token); last_refill_ms = now },
    )

abbrev pub bucket_or_full : Limit → ℕ → Option Bucket → Bucket
bucket_or_full l now none = record { tokens = pos l.capacity; last_refill_ms = now }
bucket_or_full l now (some b) = b

unfoldable pub take_token : Limit → String → ℕ → Dict Bucket → Bool × Dict Bucket
unfolding take_from
take_token l ip now buckets =
    let (taken, b) = take_from l now (bucket_or_full l now (lookup ip buckets)) in
    (taken, insert ip b buckets)
