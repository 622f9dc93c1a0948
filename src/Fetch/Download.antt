-- ===== src/Fetch/Download.antt =====
-- One download of a blob: what the downloader reports, and how the session follows it.
use iroh_drop.Prelude.{ℕ, Option, none, some, List, [], ◌∷◌}
use iroh_drop.Text.{Text, codes, text_key}
use iroh_drop.Map.{get}
use iroh_drop.Error.{Result, ok, err}
use iroh_drop.Message.{BlobHash, EndpointId}
use iroh_drop.Provider.{mark_failure}
use iroh_drop.State.{DropState, fetching}
use iroh_drop.Run.{◌>>=◌, ◌>>◌, return, emit, modify, read}
use iroh_drop.Fetch.Effect.{
  M, DropError, transfer, fetch_started, provider_failed, fetch_progress, set_status,
  change_providers,
}

-- What the downloader reports; a failure comes with the clock.
pub data DownloadItem : Type 0 where
  try_provider : EndpointId → DownloadItem
  provider_fails : EndpointId → ℕ → DownloadItem
  progress : ℕ → DownloadItem
  part_complete download_error : DownloadItem
  error_item : Text → DownloadItem

-- What one round of a fetch meets: what the others do while it waits for providers, the reports of the
-- download, each after what the others do before it, or the error of its start, and what the others do while
-- it waits again.
pub record Round : Type 0 where
  pub waited : DropState → DropState
  pub stream : Result Text (List ((DropState → DropState) × DownloadItem))
  pub waited_again : DropState → DropState

abbrev pub advertised : BlobHash → DropState → Option ℕ
advertised hash s = elim (get hash s.inventory.offers) [ none ↦ none | some r ↦ some r.offer.size ]

-- One report of the download: the provider that is being tried, and the outcome so far.
unfoldable pub report :
    BlobHash
    → Option ℕ
    → DownloadItem
    → Option EndpointId × Option DropError
    → M (Option EndpointId × Option DropError)
report hash total (try_provider id) (current, outcome) = do
  emit (fetch_started hash id)
  return (some id, outcome)
report hash total (provider_fails id now) (current, outcome) = do
  modify (change_providers hash (mark_failure now id))
  emit (provider_failed hash id)
  return (current, outcome)
report hash total (progress n) (current, outcome) = do
  set_status hash (fetching n total)
  emit (fetch_progress hash n total)
  return (current, outcome)
report hash total part_complete (current, outcome) = return (current, outcome)
report hash total download_error (current, outcome) =
    return (current, some (transfer (codes "all providers failed")))
report hash total (error_item text) (current, outcome) = return (current, some (transfer text))

-- The `while let Some(item)` loop.
unfoldable pub reports :
    BlobHash
    → Option ℕ
    → List ((DropState → DropState) × DownloadItem)
    → Option EndpointId × Option DropError
    → M (Option EndpointId × Option DropError)
reports hash total [] acc = return acc
reports hash total ((others, item) ∷ items) acc =
    modify others >> (report hash total item acc >>= λ acc'. reports hash total items acc')

-- The reports of a stream that starts.
unfoldable pub streamed :
    BlobHash
    → Option ℕ
    → Result Text (List ((DropState → DropState) × DownloadItem))
    → Option EndpointId
    → M (Option EndpointId × Option DropError)
streamed hash total (err text) current = return (current, some (transfer text))
streamed hash total (ok items) current = reports hash total items (current, none)

unfoldable pub download_attempt :
    BlobHash
    → Result Text (List ((DropState → DropState) × DownloadItem))
    → Option EndpointId
    → M (Option EndpointId × Option DropError)
download_attempt hash stream current = do
  total ← read (advertised hash)
  set_status hash (fetching 0 total)
  streamed hash total stream current
