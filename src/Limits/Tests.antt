-- ===== src/Limits/Tests.antt =====
-- Runs of the rate limiter, and its theorems at concrete limiters.
use iroh_drop.Prelude.{ℕ, ◌+◌, ◌-◌, ◌*◌, ◌≤◌, ◌≡◌, refl, List, [], ◌∷◌, arith, ℕ_discrete}
use iroh_drop.Map.{get, put, remove}
use iroh_drop.Limits.{PeerRateLimiter, new, allow_at, token}
use iroh_drop.Limits.Buckets.{IsValid, new-IsValid, available}
use iroh_drop.Limits.Budget.{Call, newcomers, allowed, allowed-le}

-- Three at once, one more each second.
abbrev three : PeerRateLimiter
three = record { rate = record { burst = 3; per_second = 1 }; buckets = []; order = [] }

program : Unit {0}
unfolding get put remove allowed allow_at ℕ_discrete
program = tt

three-IsValid : IsValid three
unfolding new
three-IsValid = new-IsValid (record { burst = 3; per_second = 1 })

abbrev call : ℕ → ℕ → Call
call peer now = record { peer = peer; now = now }

-- The test `allows_a_burst_then_throttles`, and a second peer of its own.
abbrev calls : List Call
calls =
    call 1 0
    ∷ call 1 0
    ∷ call 1 0
    ∷ call 1 0
    ∷ call 2 0
    ∷ call 1 1_000_000_000
    ∷ call 1 1_000_000_000
    ∷ []

allows_a_burst_then_throttles : allowed 1 three calls ≡ 4
unfolding program
allows_a_burst_then_throttles = refl

peers_are_independent : allowed 2 three calls ≡ 1
unfolding program
peers_are_independent = refl

allowed-le_example :
    allowed 1 three calls * token
    ≤ (available three 1 0).tokens + (1_000_000_000 - 0) * three.rate.per_second
unfolding program newcomers
allowed-le_example = allowed-le 1 0 1_000_000_000 three calls (omega arith) (omega arith)
