-- ===== src/Dedup.antt =====
-- `DedupCache` of crates/iroh-drop/src/state.rs: which message ids were seen recently. A key is
-- the author with the message id; any type of keys with a decidable equality will do. Instants
-- are numbers of one unit, and each call is given the clock readings that it makes.
pub mod Validity
pub mod Window
mod Tests
use iroh_drop.Prelude.{
  ℕ, ◌-◌, ◌*◌, Bool, true, false, Option, none, some, List, [], ◌∷◌, ◌++◌, length, ltb, leb,
  if◌then◌else◌, not,
}
use iroh_drop.Map.{Key, get, contains, put, remove}

pub record DedupCache (K : Type 0) : Type 0 where
  pub capacity : ℕ
  pub ttl : ℕ
  pub entries : List (K × ℕ)
  pub order : List K

abbrev pub dedup_capacity : ℕ
dedup_capacity = 10_000

-- Ten minutes, in nanoseconds.
abbrev pub dedup_ttl : ℕ
dedup_ttl = 10 * 60 * 1_000_000_000

unfoldable pub new : {K : Type 0} → ℕ → ℕ → DedupCache K
new capacity ttl = record { capacity = capacity; ttl = ttl; entries = []; order = [] }

abbrev pub default_cache : {K : Type 0} → DedupCache K
unfolding new
default_cache = new dedup_capacity dedup_ttl

-- A queued key with no entry counts as expired. `duration_since` is 0 for an earlier instant.
unfoldable pub is_expired : ℕ → ℕ → Option ℕ → Bool
is_expired now ttl none = true
is_expired now ttl (some t) = ltb ttl (now - t)

module _ {K : Type 0} ⦃key : Key K⦄ where
  -- The loop of `evict_expired`, over the queue.
  unfoldable pub evict_loop : ℕ → ℕ → List (K × ℕ) → List K → List (K × ℕ) × List K
  unfolding is_expired
  evict_loop now ttl entries [] = (entries, [])
  evict_loop now ttl entries (front ∷ order) =
      let rest = evict_loop now ttl (remove front entries) order in
      if is_expired now ttl (get front entries) then rest else (entries, front ∷ order)

  unfoldable pub evict_expired : ℕ → DedupCache K → DedupCache K
  unfolding evict_loop
  evict_expired now c =
      let (entries, order) = evict_loop now c.ttl c.entries c.order in
      record c { entries = entries; order = order }

  -- The `while self.entries.len() >= self.capacity` loop, over the queue.
  unfoldable pub make_room : ℕ → List (K × ℕ) → List K → List (K × ℕ) × List K
  make_room capacity entries [] = (entries, [])
  make_room capacity entries (oldest ∷ order) =
      let rest = make_room capacity (remove oldest entries) order in
      if leb capacity (length entries) then rest else (entries, oldest ∷ order)

  -- The clock is read twice: for the eviction, and for the new entry.
  unfoldable pub check_and_insert : ℕ → ℕ → K → DedupCache K → DedupCache K × Bool
  unfolding evict_expired make_room
  check_and_insert now inserted k c =
      let c' = evict_expired now c in
      if contains k c'.entries
      then (c', false)
      else let (entries, order) = make_room c'.capacity c'.entries c'.order in
        (record c' { entries = put k inserted entries; order = order ++ k ∷ [] }, true)

pub len : {K : Type 0} → DedupCache K → ℕ
len c = length c.entries
