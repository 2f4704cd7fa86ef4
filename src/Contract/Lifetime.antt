-- ===== src/Contract/Lifetime.antt =====
-- contracts/auction/src/lib.rs, `create_auction`: how long an auction's entry is kept alive.
use sealedstellar.Common.{ℕ, ◌+◌, ◌-◌, ◌*◌, ◌≤◌, ◌<◌, arith}
use sealedstellar.Contract.{lifetime_ledgers, max_ttl_extension_ledgers, seconds_per_ledger}

-- For an auction whose bids and grace take at most 14,913,600 seconds, about 172 days, the ledgers for which
-- its entry is kept alive, of 5 seconds each, last for that time and one more day, less than a ledger aside,
-- and are at most 3,000,000.
pub lifetime_ledgers-covers :
    (now commit_deadline grace_period : ℕ)
    → now < commit_deadline
    → commit_deadline - now + grace_period ≤ 14_913_600
    → (commit_deadline - now + grace_period + 86_396
        ≤ lifetime_ledgers now commit_deadline grace_period * seconds_per_ledger)
      × (lifetime_ledgers now commit_deadline grace_period ≤ max_ttl_extension_ledgers)
unfolding lifetime_ledgers
lifetime_ledgers-covers now commit_deadline grace_period later short = (ground arith, ground arith)
