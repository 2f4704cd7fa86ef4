-- ===== src/RateLimit/Budget.antt =====
-- `takeToken`: how many requests a client can make.
use sealedstellar.Common.{
  ℕ, suc, ◌+◌, ◌*◌, ◌≤◌, ◌≡◌, ◌≢◌, refl, Bool, String, List, [], ◌∷◌, none, inl, inr, arith,
  if◌then◌else◌, Bool-cases, eq_iff,
}
use sealedstellar.Common.Int.{pos, pos_part, neg_part, ◌≤ℤ◌}
use sealedstellar.Common.Dict.{Dict, lookup, lookup-insert}
use sealedstellar.RateLimit.{Limit, Bucket, take_from, bucket_or_full, take_token}

-- The requests of one client at the given times: how many of them are let through, and the bucket.
pub serve : Limit → List ℕ → Bucket → ℕ × Bucket
serve l [] b = (0, b)
serve l (now ∷ later) b =
    let (taken, b') = take_from l now b in
    let (n, end_bucket) = serve l later b' in ((if taken then suc n else n), end_bucket)

-- The times do not go back, from the first one on.
abbrev pub Runs : ℕ → List ℕ → Type 0
Runs t [] = Unit {0}
Runs t (now ∷ later) = (t ≤ now) × Runs now later

abbrev pub last_time : ℕ → List ℕ → ℕ
last_time t [] = t
last_time t (now ∷ later) = last_time now later

-- A bucket never holds more than its capacity, in units of 1.
abbrev pub IsCapped : Limit → Bucket → Type 0
IsCapped l b = b.tokens ≤ℤ pos l.capacity

pub take_from-IsCapped : (l : Limit) (now : ℕ) (b : Bucket) → IsCapped l (take_from l now b).1
unfolding take_from
take_from-IsCapped l now b = ground arith

abbrev IsNotNegative : Bucket → Type 0
IsNotNegative b = neg_part b.tokens ≡ 0

abbrev pub spent : Limit → Bool → ℕ
spent l taken = if taken then l.token else 0

-- One request: what it takes and what is left come from what was there and the refill since.
take_from-balance :
    (l : Limit) (now : ℕ) (b : Bucket)
    → (pos_part (take_from l now b).1.tokens
          + neg_part b.tokens
          + spent l (take_from l now b).0
          + l.per_ms * b.last_refill_ms
        ≤ pos_part b.tokens + neg_part (take_from l now b).1.tokens + l.per_ms * now)
      × ((take_from l now b).1.last_refill_ms ≡ now)
unfolding take_from
take_from-balance l now b = ground arith

mul_mono : (k m n : ℕ) → m ≤ n → k * m ≤ k * n
mul_mono k m n h = grind arith

take_from-IsNotNegative :
    (l : Limit) (now : ℕ) (b : Bucket)
    → b.last_refill_ms ≤ now
    → IsNotNegative b
    → IsNotNegative (take_from l now b).1
unfolding take_from
take_from-IsNotNegative l now b h k = ground (arith, mul_mono l.per_ms b.last_refill_ms now)

serve-balance :
    (l : Limit) (times : List ℕ) (b : Bucket)
    → Runs b.last_refill_ms times
    → IsNotNegative b
    → (serve l times b).0 * l.token + l.per_ms * b.last_refill_ms
      ≤ pos_part b.tokens + l.per_ms * last_time b.last_refill_ms times
unfolding serve
serve-balance l [] b r k = omega arith
serve-balance l (now ∷ later) b r k =
    let (balance, at) = take_from-balance l now b in
    let kept = take_from-IsNotNegative l now b r.0 k in
    let rest : (serve l later (take_from l now b).1).0 * l.token + l.per_ms * now
        ≤ pos_part (take_from l now b).1.tokens + l.per_ms * last_time now later =
      rw at at (serve-balance l later (take_from l now b).1 (rw at r.1) kept) in
    elim (Bool-cases (take_from l now b).0) [
      | inl taken ↦ let due = rw taken at balance in rw (taken, if◌then◌else◌) (omega arith)
      | inr refused ↦ let due = rw refused at balance in rw (refused, if◌then◌else◌) (omega arith)
    ]

-- A client that starts with a full bucket gets at most the bucket's capacity and the refill of the
-- time between its first and last request, if the clock does not go back.
pub serve_budget :
    (l : Limit) (first : ℕ) (times : List ℕ)
    → Runs first times
    → (serve l times (bucket_or_full l first none)).0 * l.token + l.per_ms * first
      ≤ l.capacity + l.per_ms * last_time first times
serve_budget l first times r = serve-balance l times (bucket_or_full l first none) r refl

-- A request of one client leaves the buckets of the others alone.
pub take_token-others :
    (l : Limit) (ip other : String) (now : ℕ) (buckets : Dict Bucket)
    → ip ≢ other
    → lookup other (take_token l ip now buckets).1 ≡ lookup other buckets
unfolding take_token
take_token-others l ip other now buckets h = ground (
  arith,
  eq_iff ip other,
  lookup-insert ip other (take_from l now (bucket_or_full l now (lookup ip buckets))).1 buckets,
)
