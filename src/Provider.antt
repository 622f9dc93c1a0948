-- ===== src/Provider.antt =====
-- crates/iroh-drop/src/provider.rs: which peers serve a blob, and in what order they are tried.
pub mod Order
pub mod Bounds
pub mod Newest
mod Tests
use Prim.Native.Nat.{Ordering, compare}
use iroh_drop.Prelude.{
  ℕ, ◌+◌, ◌-◌, ◌^◌, Bool, true, false, not, ◌&&◌, ◌||◌, Option, none, some, List, [], ◌∷◌, length,
  map, take, leb, ltb, min, ◌==◌, if◌then◌else◌, is_some_eq,
}
use iroh_drop.Map.{nat_key, get, put, remove}
use iroh_drop.Sort.{sort_by, then_with, cmp_bool}
use iroh_drop.Message.{EndpointId, FrameId}

abbrev pub max_providers_per_blob : ℕ
max_providers_per_blob = 64

abbrev pub u32_max : ℕ
u32_max = 2 ^ 32 - 1

abbrev pub u64_max : ℕ
u64_max = 2 ^ 64 - 1

-- The frame id of 16 bytes 0xFF.
abbrev pub frame_id_max : ℕ
frame_id_max = 2 ^ 128 - 1

pub record ProviderInfo : Type 0 where
  pub failures : ℕ
  pub last_failure : Option ℕ
  pub announced : Bool
  pub announced_at_ms : ℕ
  pub last_frame_id : FrameId
  pub withdrawn : Bool

abbrev pub default_info : ProviderInfo
default_info = record {
  failures = 0;
  last_failure = none;
  announced = false;
  announced_at_ms = 0;
  last_frame_id = 0;
  withdrawn = false;
}

pub record ProviderSet : Type 0 where
  pub original : Option EndpointId
  pub providers : List (EndpointId × ProviderInfo)

abbrev pub empty : ProviderSet
empty = record { original = none; providers = [] }

-- `entry(id).or_default()`
unfoldable pub entry : EndpointId → ProviderSet → ProviderInfo
entry id s = elim (get id s.providers) [ none ↦ default_info | some info ↦ info ]

-- `original == Some(id)`
abbrev pub is_original : EndpointId → ProviderSet → Bool
is_original id s = is_some_eq id s.original

unfoldable pub add : EndpointId → Bool → ProviderSet → ProviderSet
unfolding entry
add id original s = record {
  original =
      if original then (elim s.original [ none ↦ some id | some o ↦ some o ]) else s.original;
  providers = put id (entry id s) s.providers;
}

unfoldable pub remove_provider : EndpointId → ProviderSet → ProviderSet
remove_provider id s = record {
  original = if is_original id s then none else s.original;
  providers = remove id s.providers;
}

-- Withdrawn first, then most failures, then oldest, then by id.
unfoldable pub worse_first : EndpointId × ProviderInfo → EndpointId × ProviderInfo → Ordering
worse_first a b = then_with (cmp_bool b.1.withdrawn a.1.withdrawn) (
    then_with (compare b.1.failures a.1.failures)
      (then_with (compare a.1.announced_at_ms b.1.announced_at_ms) (compare a.0 b.0)))

unfoldable pub remove_all : List EndpointId → ProviderSet → ProviderSet
unfolding remove_provider
remove_all [] s = s
remove_all (id ∷ ids) s = remove_all ids (remove_provider id s)

unfoldable pub enforce_cap : ProviderSet → ProviderSet
unfolding worse_first remove_all sort_by
enforce_cap s =
    let ranked = sort_by worse_first s.providers in
    if leb (length s.providers) max_providers_per_blob
    then s
    else remove_all (map (λ e. e.0) (take (length s.providers - max_providers_per_blob) ranked)) s

-- `(a, x) < (b, y)` on pairs.
abbrev pub pair_lt : ℕ → ℕ → ℕ → ℕ → Bool
pair_lt a x b y = ltb a b || ((a == b) && ltb x y)

abbrev pub bool_ne : Bool → Bool → Bool
bool_ne true b = not b
bool_ne false b = b

unfoldable pub record_claim : EndpointId → ℕ → FrameId → Bool → ProviderSet → ProviderSet × Bool
unfolding entry enforce_cap
record_claim id announced_at_ms frame_id withdrawn s =
    let old = entry id s in
    let changed = bool_ne old.withdrawn withdrawn || not old.announced in
    let new = record old {
      announced = true;
      announced_at_ms = announced_at_ms;
      last_frame_id = frame_id;
      withdrawn = withdrawn;
    } in
    if pair_lt announced_at_ms frame_id old.announced_at_ms old.last_frame_id
    then (record s { providers = put id old s.providers }, false)
    else (
      enforce_cap (record {
        original = if withdrawn && is_original id s then none else s.original;
        providers = put id new s.providers;
      }),
      changed,
    )

unfoldable pub mark_announced : EndpointId → ProviderSet → ProviderSet
unfolding record_claim
mark_announced id s = (record_claim id u64_max frame_id_max false s).0

unfoldable pub mark_failure : ℕ → EndpointId → ProviderSet → ProviderSet
unfolding entry
mark_failure now id s =
    let info = entry id s in
    record s {
      providers =
          put id
            (record info { failures = min (info.failures + 1) u32_max; last_failure = some now })
            s.providers;
    }

unfoldable pub mark_success : EndpointId → ProviderSet → ProviderSet
mark_success id s = elim (get id s.providers) [
  | none ↦ s
  | some info ↦ record s {
    providers = put id (record info { failures = 0; last_failure = none }) s.providers;
  }
]

-- The comparison of `ordered`: fewest failures, then the original offerer, then by id.
unfoldable pub better_first :
    Option EndpointId → EndpointId × ProviderInfo → EndpointId × ProviderInfo → Ordering
better_first original a b =
    then_with (compare a.1.failures b.1.failures)
      (then_with (cmp_bool (is_some_eq b.0 original) (is_some_eq a.0 original)) (compare a.0 b.0))

unfoldable pub live_providers : List (EndpointId × ProviderInfo) → List (EndpointId × ProviderInfo)
live_providers [] = []
live_providers ((id, info) ∷ m) =
    let rest = live_providers m in if info.withdrawn then rest else (id, info) ∷ rest

unfoldable pub ordered : ProviderSet → List EndpointId
unfolding better_first live_providers sort_by
ordered s = map (λ e. e.0) (sort_by (better_first s.original) (live_providers s.providers))

unfoldable pub without : EndpointId → List EndpointId → List EndpointId
without id [] = []
without id (p ∷ ps) = let rest = without id ps in if p == id then rest else p ∷ rest

unfoldable pub ordered_excluding : EndpointId → ProviderSet → List EndpointId
unfolding ordered without
ordered_excluding id s = without id (ordered s)

unfoldable pub len : ProviderSet → ℕ
unfolding live_providers
len s = length (live_providers s.providers)
