-- ===== src/Fetch.antt =====
-- How a session fetches a blob: `fetch` of crates/iroh-drop/src/session.rs. The blob store, the downloader,
-- the disk and the sending of a message are arguments. Where the fetch waits or downloads, other handlers
-- may change the state: each such place has a function for what they do.
pub mod Effect
pub mod Download
pub mod Weights
pub mod Outcome
pub mod Table
pub mod Valid
pub mod Success
pub mod Sending
pub mod Budget
mod Tests
use iroh_drop.Prelude.{
  ℕ, zero, suc, ◌+◌, Bool, true, false, Option, none, some, List, [], ◌∷◌, ◌++◌, if◌then◌else◌,
}
use iroh_drop.Text.{Text, codes, text_key}
use iroh_drop.Map.{get, put, is_some}
use iroh_drop.Error.{Result, ok, err, ProtocolError}
use iroh_drop.Message.{OfferV1, MessageBodyV1, provider, request, available, BlobHash, EndpointId}
use iroh_drop.Hash.{HexLower, to_hex}
use iroh_drop.Name.{Directory, validate_name, collision_safe_path}
use iroh_drop.Provider.{ProviderSet, add, mark_failure, mark_success, ordered_excluding}
use iroh_drop.State.{
  DropState, Inventory, OfferRecord, LocalBlobStatus, complete, fetching, failed, providers_of,
  record_offer,
}
use iroh_drop.Run.{fail_if, or_fail, bind_result, ◌>>=◌, ◌>>◌, return, fail, emit, modify, read}
use iroh_drop.Fetch.Effect.{
  DropError, protocol, no_providers, transfer, hash_mismatch, incomplete_blob, export_failed,
  bad_export_name, store_failed, FetchEvent, fetch_started, provider_failed, fetch_progress,
  fetch_completed, fetch_failed, M, broadcast, put_status, set_status, change_providers,
}
use iroh_drop.Fetch.Download.{
  DownloadItem, try_provider, provider_fails, progress, part_complete, download_error, error_item,
  Round, advertised, report, reports, streamed, download_attempt,
}

pub data FetchOutput : Type 0 where
  directory exact : Text → FetchOutput
  store_only : FetchOutput

pub record FetchResult : Type 0 where
  pub hash : BlobHash
  pub size : ℕ
  pub path : Option Text
  pub provider : Option EndpointId
  pub already_local : Bool

-- The outside: the size of the blob, if it is complete, before the rounds, again when a blob that is there
-- is marked, and after the rounds, the naming of the tag,
-- the directories and the export, and the wall clock and the instants.
pub record Outside : Type 0 where
  pub size_before : Option ℕ
  pub size_again : Option ℕ
  pub size_after : Option ℕ
  pub set_tag : Option Text
  pub create_dir_all : Text → Option Text
  pub children : Text → Directory
  pub join : Text → Text → Text
  pub parent : Text → Option Text
  pub absolute : Text → Result Text Text
  pub export_to : Text → Option Text
  pub now_ms : ℕ
  pub now : ℕ

abbrev pub is_valid_name : Text → Bool
is_valid_name name = elim (validate_name name) [ ok t ↦ true | err e ↦ false ]

unfoldable pub known_remote_providers : BlobHash → DropState → List EndpointId
known_remote_providers hash s = elim (get hash s.inventory.providers) [
  | none ↦ []
  | some set ↦ ordered_excluding s.self_endpoint_id set
]

-- The record of a blob that is complete, which is made if there is none.
unfoldable pub own_blob : HexLower → ℕ → BlobHash → ℕ → DropState → DropState
unfolding put_status record_offer providers_of add to_hex
own_blob hex now hash size s =
    let credited = record s {
      inventory = record s.inventory {
        providers =
            put hash (add s.self_endpoint_id false (providers_of hash s.inventory))
              s.inventory.providers;
      };
    } in
    elim (get hash s.inventory.offers) [
      | some r ↦ put_status hash complete credited
      | none ↦
          put_status hash complete
            (record_offer now s.self_endpoint_id
              (record {
                blob_hash = hash;
                name = to_hex hex hash;
                size = size;
                media_type = none;
                created_at_ms = none;
                metadata = [];
              })
              credited).0
    ]

abbrev pub size_or_fail : Option ℕ → M ℕ
size_or_fail none = fail incomplete_blob
size_or_fail (some size) = return size

-- `send` is `broadcast`: the state after it, and its error, if any.
module _ (hex : HexLower) (send : MessageBodyV1 → DropState → DropState × Option DropError)
    (outside : Outside) where
  unfoldable pub mark_complete : BlobHash → Option ℕ → M ℕ
  mark_complete hash known_size = do
    size ← size_or_fail known_size
    modify (own_blob hex outside.now hash size)
    fail_if outside.set_tag store_failed
    broadcast send (
        provider
          (record { blob_hash = hash; state = available; announced_at_ms = some outside.now_ms }))
    return size

  -- The name for a directory: the offered name if it is valid, else the hash.
  unfoldable pub export_name : BlobHash → DropState → Text
  unfolding to_hex
  export_name hash s = elim (get hash s.inventory.offers) [
    | none ↦ to_hex hex hash
    | some r ↦ if is_valid_name r.offer.name then r.offer.name else to_hex hex hash
  ]

  unfoldable pub export_path : BlobHash → FetchOutput → M (Option Text)
  export_path hash store_only = return none
  export_path hash (exact path) = return (some path)
  export_path hash (directory dir) = do
    name ← read (export_name hash)
    fail_if (outside.create_dir_all dir) export_failed
    file ← or_fail (collision_safe_path hex (outside.children dir) name hash) bad_export_name
    return (some (outside.join dir file))

  abbrev pub create_parent : Option Text → M (Unit {0})
  create_parent none = return tt
  create_parent (some dir) = fail_if (outside.create_dir_all dir) export_failed

  unfoldable pub export_file : Option Text → M (Option Text)
  export_file none = return none
  export_file (some path) = do
    create_parent (outside.parent path)
    absolute ← or_fail (outside.absolute path) export_failed
    fail_if (outside.export_to absolute) export_failed
    return (some absolute)

  unfoldable pub export : BlobHash → FetchOutput → M (Option Text)
  export hash output = export_path hash output >>= export_file

  -- The providers for a round, after a request for more if none is known.
  unfoldable pub find_providers : BlobHash → Round → List EndpointId → M (List EndpointId)
  find_providers hash round (p ∷ ps) = return (p ∷ ps)
  find_providers hash round [] = do
    broadcast send (request (record { blob_hash = hash }))
    modify round.waited
    read (known_remote_providers hash)

  -- What follows a download: nothing, or a request and a wait.
  unfoldable pub after_attempt :
      BlobHash
      → Round
      → Option EndpointId × Option DropError
      → M (Bool × Option EndpointId × Option DropError)
  after_attempt hash round (current, none) = return (true, current, none)
  after_attempt hash round (current, some e) = do
    broadcast send (request (record { blob_hash = hash }))
    modify round.waited_again
    return (false, current, some e)

  unfoldable pub with_providers :
      BlobHash
      → Round
      → Option EndpointId
      → List EndpointId
      → M (Bool × Option EndpointId × Option DropError)
  with_providers hash round current [] = return (false, current, some (no_providers hash))
  with_providers hash round current (p ∷ ps) =
      download_attempt hash round.stream current >>= after_attempt hash round

  -- One round: whether it ended the loop, the provider, and the last error.
  unfoldable pub attempt :
      BlobHash → Round → Option EndpointId → M (Bool × Option EndpointId × Option DropError)
  attempt hash round current =
      read (known_remote_providers hash)
      >>= find_providers hash round
      >>= with_providers hash round current

  -- `break` after a download without an error.
  abbrev pub unless_done :
      Bool × Option EndpointId × Option DropError
      → M (Option EndpointId × Option DropError)
      → M (Option EndpointId × Option DropError)
  unless_done (true, current, error) rest = return (current, none)
  unless_done (false, current, error) rest = rest

  -- The `for` loop over the rounds.
  unfoldable pub attempts :
      BlobHash
      → List Round
      → Option EndpointId × Option DropError
      → M (Option EndpointId × Option DropError)
  attempts hash [] acc = return acc
  attempts hash (round ∷ rounds) acc =
      attempt hash round acc.0 >>= λ r. unless_done r (attempts hash rounds (r.1, r.2))

  abbrev pub mark_winner : BlobHash → Option EndpointId → M (Unit {0})
  mark_winner hash none = return tt
  mark_winner hash (some p) = modify (change_providers hash (mark_success p))

  abbrev pub unwrap_or : Option EndpointId → DropState → EndpointId
  unwrap_or none s = s.self_endpoint_id
  unwrap_or (some p) s = p

  abbrev pub fail_with : Option DropError → M (Unit {0})
  fail_with none = return tt
  fail_with (some e) = fail e

  abbrev pub checked_size : BlobHash → Option ℕ → M ℕ
  checked_size hash none = fail (hash_mismatch hash)
  checked_size hash (some size) = return size

  -- After the rounds, with the confirmed size.
  unfoldable pub finish : BlobHash → FetchOutput → Option EndpointId → ℕ → M FetchResult
  finish hash output current size = do
    mark_winner hash current
    mark_complete hash (some size)
    path ← export hash output
    winner ← read (unwrap_or current)
    emit (fetch_completed hash winner)
    return (record {
      hash = hash;
      size = size;
      path = path;
      provider = current;
      already_local = false;
    })

  unfoldable pub download : BlobHash → FetchOutput → List Round → M FetchResult
  download hash output rounds = do
    (current, error) ← attempts hash rounds (none, none)
    fail_with error
    size ← checked_size hash outside.size_after
    finish hash output current size

  unfoldable pub fetch_local : BlobHash → FetchOutput → M FetchResult
  fetch_local hash output = do
    size ← mark_complete hash outside.size_again
    path ← export hash output
    return (record { hash = hash; size = size; path = path; provider = none; already_local = true })

  unfoldable pub fetch_inner_impl : BlobHash → FetchOutput → List Round → M FetchResult
  fetch_inner_impl hash output rounds =
      if is_some outside.size_before then fetch_local hash output else download hash output rounds

  -- What `fetch_inner` does with the outcome; `describe` is the text of an error.
  unfoldable pub closed :
      (DropError → Text)
      → BlobHash
      → DropState × List FetchEvent × Result DropError FetchResult
      → DropState × List FetchEvent × Result DropError FetchResult
  closed describe hash (s, events, ok result) = (s, events, ok result)
  closed describe hash (s, events, err e) =
      (put_status hash (failed true (describe e)) s, events ++ fetch_failed hash e ∷ [], err e)

  unfoldable pub fetch_inner :
      (DropError → Text) → BlobHash → FetchOutput → List Round → M FetchResult
  unfolding closed
  fetch_inner describe hash output rounds s =
      closed describe hash (fetch_inner_impl hash output rounds s)

  -- Three rounds.
  unfoldable pub fetch :
      (DropError → Text) → BlobHash → FetchOutput → Round → Round → Round → M FetchResult
  unfolding fetch_inner
  fetch describe hash output first second third =
      fetch_inner describe hash output (first ∷ second ∷ third ∷ [])
