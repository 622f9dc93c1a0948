-- ===== src/Fetch/Tests.antt =====
-- A fetch that finds a provider while it waits, loses it, and succeeds in the second round; and one that
-- finds nobody.
use iroh_drop.Prelude.{
  ◌≤◌, ◌≡◌, refl, true, false, Option, none, some, List, [], ◌∷◌, ◌++◌, ℕ_discrete,
}
use iroh_drop.Text.{Text, codes, text_key, text_discrete}
use iroh_drop.Map.{get, put, remove}
use iroh_drop.Map.Queue.{erase}
use iroh_drop.Error.{Result, ok}
use iroh_drop.Message.{MessageBodyV1, BlobHash}
use iroh_drop.Hash.{to_hex}
use iroh_drop.Hash.Digits.{hex_digits}
use iroh_drop.Policy.{default_policy}
use iroh_drop.Provider.{add, mark_failure, mark_success, record_claim, ordered_excluding}
use iroh_drop.State
use iroh_drop.State.{
  DropState, LocalBlobStatus, failed, record_provider, record_offer, record_offer_bounded,
  record_offer_inner, author_has_quota, providers_of, touch_offer, first_record, enforce_offer_cap,
  enforce_loop, note_peer,
}
use iroh_drop.Run.{◌>>=◌, ◌>>◌, return, fail, emit, modify, read}
use iroh_drop.Fetch.Effect.{
  broadcast, DropError, FetchEvent, fetch_failed, no_providers, put_status, set_status,
  change_providers,
}
use iroh_drop.Fetch.Download.{
  try_provider, provider_fails, progress, download_error, Round, report, reports, streamed,
  download_attempt,
}
use iroh_drop.Fetch.{
  store_only, FetchResult, Outside, known_remote_providers, own_blob, mark_complete, export_path,
  export_file, export, find_providers, after_attempt, with_providers, attempt, attempts, finish,
  download, fetch_local, fetch_inner_impl, closed, fetch_inner, fetch,
}
use iroh_drop.Run.Steps.{total}
use iroh_drop.Fetch.Budget.{
  request_weight, failure_weight, with_status, HasOnlyStatus, requests-le, fails_once,
}
use iroh_drop.Fetch.Outcome.{IsSending}
use iroh_drop.State.Bookkeeping.{IsValid, no_offers-IsValid}
use iroh_drop.State.Recorded.{with_providers-IsValid}
use iroh_drop.Fetch.Table.{IsCalm}
use iroh_drop.Fetch.Valid.{IsCalmRound}
use iroh_drop.Fetch.Success.{IsFetched, fetch-IsFetched}

program : Unit {0}
unfolding get put remove erase ℕ_discrete text_discrete default_policy to_hex hex_digits add
    mark_failure mark_success record_claim ordered_excluding State.new record_provider record_offer
    record_offer_bounded record_offer_inner author_has_quota providers_of touch_offer first_record
    enforce_offer_cap enforce_loop note_peer ◌>>=◌ ◌>>◌ return fail emit modify read put_status
    set_status change_providers known_remote_providers report reports streamed download_attempt
    own_blob broadcast mark_complete export_path export_file export find_providers after_attempt
    with_providers attempt attempts finish download fetch_local fetch_inner_impl closed fetch_inner
    fetch
program = tt

abbrev hash : BlobHash
hash = 6 ∷ 7 ∷ []

abbrev nobody : DropState → DropState
nobody s = s

unfoldable heard : DropState → DropState
unfolding program
heard s = record s { inventory = (record_provider hash 8 100 1 s.inventory).0 }

unfoldable first : Round
unfolding heard
first = record {
  waited = heard;
  stream =
      ok ((nobody, try_provider 8) ∷ (nobody, provider_fails 8 50) ∷ (nobody, download_error) ∷ []);
  waited_again = nobody;
}

abbrev second : Round
second = record {
  waited = nobody;
  stream = ok ((nobody, try_provider 8) ∷ (nobody, progress 30) ∷ []);
  waited_again = nobody;
}

abbrev silent : Round
silent = record { waited = nobody; stream = ok []; waited_again = nobody }

abbrev outside : Outside
outside = record {
  size_before = none;
  size_again = none;
  size_after = some 30;
  set_tag = none;
  create_dir_all = λ d. none;
  children = λ d. record { is_child = λ n. true; exists_there = λ n. false };
  join = λ d n. d ++ 47 ∷ n;
  parent = λ p. none;
  absolute = λ p. ok p;
  export_to = λ p. none;
  now_ms = 200;
  now = 60;
}

unfoldable send : MessageBodyV1 → DropState → DropState × Option DropError
send body s = (s, none)

send-IsSending : IsSending hex_digits send outside
unfolding send
send-IsSending = record { inventory-send = λ body s. refl; self-send = λ body s. refl }

abbrev describe : DropError → Text
describe e = codes "failed"

unfoldable before : DropState
unfolding program
before = State.new (7 ∷ []) 5 (default_policy 4)

abbrev Fetched : Type 0
Fetched = DropState × List FetchEvent × Result DropError FetchResult

unfoldable fetched : Fetched
unfolding program before first send
fetched = fetch hex_digits send outside describe hash store_only first second silent before

-- The session's own offer of the blob is in the table, without a provider.
unfoldable offered : DropState
unfolding program before
offered =
    (record_offer 1 5
      (record {
        blob_hash = hash;
        name = codes "a.txt";
        size = 30;
        media_type = none;
        created_at_ms = none;
        metadata = [];
      })
      before).0

unfoldable abandoned : Fetched
unfolding program before offered send
abandoned = fetch hex_digits send outside describe hash store_only silent silent silent offered

abbrev result : FetchResult
result = record { hash = hash; size = 30; path = none; provider = some 8; already_local = false }

three_rounds_of_requests :
    total request_weight
      (fetch hex_digits send outside describe hash store_only first second silent before).1
    ≤ 6
three_rounds_of_requests =
    requests-le hex_digits send outside describe hash store_only first second silent before

-- Three rounds without a provider are three requests.
asks_in_each_round : total request_weight abandoned.1 ≡ 3
unfolding program before offered send abandoned total
asks_in_each_round = refl

heard-IsCalm : IsCalm heard
unfolding heard record_provider
heard-IsCalm s v = with_providers-IsValid s.inventory _ v

nobody-IsCalm : IsCalm nobody
nobody-IsCalm s v = v

first-IsCalmRound : IsCalmRound first
unfolding first
first-IsCalmRound = record {
  waited = heard-IsCalm;
  stream = (nobody-IsCalm, (nobody-IsCalm, (nobody-IsCalm, tt)));
  waited_again = nobody-IsCalm;
}

second-IsCalmRound : IsCalmRound second
second-IsCalmRound = record {
  waited = nobody-IsCalm;
  stream = (nobody-IsCalm, (nobody-IsCalm, tt));
  waited_again = nobody-IsCalm;
}

silent-IsCalmRound : IsCalmRound silent
silent-IsCalmRound = record { waited = nobody-IsCalm; stream = tt; waited_again = nobody-IsCalm }

before-IsValid : IsValid before.inventory
unfolding before State.new
before-IsValid = no_offers-IsValid

fetch-IsFetched_example : IsFetched hex_digits send outside hash fetched.0 fetched.1 result
unfolding program before first send fetched
fetch-IsFetched_example =
    fetch-IsFetched hex_digits send outside hash send-IsSending describe store_only first second
      silent before fetched.0 fetched.1 result first-IsCalmRound second-IsCalmRound
      silent-IsCalmRound before-IsValid refl

fails_once_example :
    (total failure_weight abandoned.1 ≡ 1)
    × ((front : List FetchEvent) × (abandoned.1
          ≡ front ++ fetch_failed hash (no_providers hash) ∷ []))
    × HasOnlyStatus hash
        (failed true (describe (no_providers hash)))
        (fetch_inner_impl hex_digits send outside hash store_only
          (silent ∷ silent ∷ silent ∷ [])
          offered).0
        abandoned.0
unfolding program before offered send abandoned
fails_once_example =
    fails_once hex_digits send outside describe hash store_only silent silent silent offered
      abandoned.0 abandoned.1 (no_providers hash) refl

-- The record is there, and failed.
abandoned_is_failed :
    with_status (failed true (codes "failed")) (get hash offered.inventory.offers)
    ≡ get hash abandoned.0.inventory.offers
unfolding program before offered send abandoned
abandoned_is_failed = refl
