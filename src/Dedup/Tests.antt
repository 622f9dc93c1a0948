-- ===== src/Dedup/Tests.antt =====
-- Runs of the dedup cache, and its theorems at concrete caches.
use iroh_drop.Prelude.{ℕ, ◌≡◌, refl, true, false, [], ◌∷◌, arith, ℕ_discrete}
use iroh_drop.Map.{nat_key, get, put, remove}
use iroh_drop.Dedup.{DedupCache, new, check_and_insert}
use iroh_drop.Dedup.Validity.{IsValid, new-IsValid}
use iroh_drop.Dedup.Window.{Check, run, replay_refused}

-- Two entries, a time to live of 100.
abbrev cache : DedupCache ℕ
cache = record { capacity = 2; ttl = 100; entries = []; order = [] }

cache-IsValid : IsValid 5 cache
unfolding new
cache-IsValid = new-IsValid 2 100 5

program : Unit {0}
unfolding get put remove run check_and_insert ℕ_discrete
program = tt

abbrev first : Check ℕ
first = record { now = 5; inserted = 6; key = 7 }

abbrev other : Check ℕ
other = record { now = 50; inserted = 50; key = 8 }

abbrev again : Check ℕ
again = record { now = 106; inserted = 106; key = 7 }

accepts_new : (check_and_insert 5 6 7 cache).1 ≡ true
unfolding program
accepts_new = refl

-- One nanosecond past the time to live the key is new again.
accepts_expired : (check_and_insert 107 107 7 (check_and_insert 5 6 7 cache).0).1 ≡ true
unfolding program
accepts_expired = refl

-- The third key pushes the first one out.
evicts_oldest :
    (run (first ∷ other ∷ record { now = 60; inserted = 60; key = 9 } ∷ []) cache).order
    ≡ 8 ∷ 9 ∷ []
unfolding program
evicts_oldest = refl

replay_refused_example :
    (check_and_insert 106 106 7 (run (other ∷ []) (check_and_insert 5 6 7 cache).0)).1 ≡ false
replay_refused_example =
    replay_refused 5 first cache (other ∷ []) again cache-IsValid (omega arith) accepts_new
      (omega arith) (omega arith) refl (omega arith)
