-- ===== src/Protocol/InvokeId.antt =====
-- The invoke ids that `generate_invokeid` of muxer/protocol.c hands out, call after call.
use muxer.Base.{ℕ, zero, suc, ◌+◌, ◌%◌, ◌≤◌, ◌<◌, ◌≡◌, ◌≢◌, arith}
use muxer.Protocol.{next_invokeid, max_invokeid}

-- The counter after a number of calls.
unfoldable pub invokeid_after : ℕ → ℕ → ℕ
unfolding next_invokeid
invokeid_after zero counter = counter
invokeid_after (suc n) counter = next_invokeid (invokeid_after n counter)

invokeid_closed :
    (n counter : ℕ) → invokeid_after (suc n) counter ≡ (counter + n) % max_invokeid + 1
unfolding invokeid_after
invokeid_closed zero counter = omega arith
invokeid_closed (suc n) counter = omega (arith, invokeid_closed n counter)

-- Every generated id is between 1 and 32767, and any two of 32767 calls in a row, from any value of
-- the counter, give different ids.
pub invokeid_after_distinct :
    (counter i j : ℕ)
    → i < j
    → j < i + max_invokeid
    → (1 ≤ invokeid_after (suc i) counter)
      × (invokeid_after (suc i) counter ≤ max_invokeid)
      × (invokeid_after (suc i) counter ≢ invokeid_after (suc j) counter)
invokeid_after_distinct counter i j lt near =
    let a = invokeid_closed i counter in
    let b = invokeid_closed j counter in (omega arith, omega arith, omega arith)
