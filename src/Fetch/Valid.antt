-- ===== src/Fetch/Valid.antt =====
-- The rounds of a fetch keep the table of offers valid, if what runs in between does.
use iroh_drop.Prelude.{
  ℕ, ◌≡◌, sym, subst, Bool, true, false, Option, none, some, List, [], ◌∷◌, All,
}
use iroh_drop.Text.{Text}
use iroh_drop.Error.{Result, ok, err}
use iroh_drop.Message.{MessageBodyV1, BlobHash, EndpointId}
use iroh_drop.Hash.{HexLower}
use iroh_drop.Provider.{mark_failure, mark_success}
use iroh_drop.State.{DropState, LocalBlobStatus, fetching}
use iroh_drop.State.Bookkeeping.{IsValid}
use iroh_drop.Run.{bind_result, ◌>>=◌, ◌>>◌, return, fail, emit, modify, read}
use iroh_drop.Fetch.Effect.{
  DropError, FetchEvent, M, sending, broadcast, put_status, set_status, change_providers,
}
use iroh_drop.Fetch.Download.{
  DownloadItem, try_provider, provider_fails, progress, part_complete, download_error, error_item,
  Round, advertised, report, reports, streamed, download_attempt,
}
use iroh_drop.Fetch.{
  Outside, find_providers, after_attempt, with_providers, attempt, attempts, unless_done,
  known_remote_providers, mark_winner, fail_with, checked_size,
}
use iroh_drop.Fetch.Outcome.{IsSending}
use iroh_drop.Fetch.Table.{IsCalm, put_status-IsCalm, change_providers-IsCalm}

-- A step that keeps the table of offers valid.
abbrev pub Preserves : {A : Type 0} → M A → Type 0
Preserves m = (s : DropState) → IsValid s.inventory → IsValid (m s).0.inventory

pub Preserved :
    {A : Type 0} (m : M A) (s t : DropState) (es : List FetchEvent) (r : Result DropError A)
    → Preserves m
    → IsValid s.inventory
    → m s ≡ (t, es, r)
    → IsValid t.inventory
Preserved {A} m s t es r p v h =
    subst (λ (x : DropState × List FetchEvent × Result DropError A). IsValid x.0.inventory) h
      (p s v)

bind-Preserves :
    {A B : Type 0} (m : M A) (f : A → M B)
    → Preserves m
    → ((a : A) → Preserves (f a))
    → Preserves (m >>= f)
unfolding ◌>>=◌
bind-Preserves {A} m f pm pf s v = by_result (m s) (pm s v)
  where
    by_result :
        (r : DropState × List FetchEvent × Result DropError A)
        → IsValid r.0.inventory
        → IsValid (bind_result r f).0.inventory
    by_result (t, es, err e) w = w
    by_result (t, es, ok a) w = pf a t w

then-Preserves : {A B : Type 0} (m : M A) (k : M B) → Preserves m → Preserves k → Preserves (m >> k)
unfolding ◌>>◌
then-Preserves m k pm pk = bind-Preserves m (λ x. k) pm (λ x. pk)

return-Preserves : {A : Type 0} (a : A) → Preserves (return a)
unfolding return
return-Preserves a s v = v

read-Preserves : {A : Type 0} (f : DropState → A) → Preserves (read f)
unfolding read
read-Preserves f s v = v

modify-Preserves : (f : DropState → DropState) → IsCalm f → Preserves (modify f)
unfolding modify
modify-Preserves f c = c

-- What runs while a round waits and downloads keeps the table valid.
abbrev pub IsCalmStream : Result Text (List ((DropState → DropState) × DownloadItem)) → Type 0
IsCalmStream (err text) = Unit
IsCalmStream (ok items) = All (λ (p : (DropState → DropState) × DownloadItem). IsCalm p.0) items

pub record IsCalmRound (round : Round) : Type 0 where
  pub waited : IsCalm round.waited
  pub stream : IsCalmStream round.stream
  pub waited_again : IsCalm round.waited_again

report-Preserves :
    (hash : BlobHash) (size : Option ℕ) (item : DownloadItem)
    (acc : Option EndpointId × Option DropError)
    → Preserves (report hash size item acc)
unfolding report ◌>>=◌ ◌>>◌ emit return modify set_status
report-Preserves hash size (try_provider id) (current, outcome) s v = v
report-Preserves hash size (provider_fails id now) (current, outcome) s v =
    change_providers-IsCalm hash (mark_failure now id) s v
report-Preserves hash size (progress n) (current, outcome) s v =
    put_status-IsCalm hash (fetching n size) s v
report-Preserves hash size part_complete (current, outcome) s v = v
report-Preserves hash size download_error (current, outcome) s v = v
report-Preserves hash size (error_item text) (current, outcome) s v = v

reports-Preserves :
    (hash : BlobHash) (size : Option ℕ) (items : List ((DropState → DropState) × DownloadItem))
    (acc : Option EndpointId × Option DropError)
    → IsCalmStream (ok items)
    → Preserves (reports hash size items acc)
unfolding reports
reports-Preserves hash size [] acc calm = return-Preserves acc
reports-Preserves hash size ((others, item) ∷ items) acc calm =
    then-Preserves (modify others) _ (modify-Preserves others calm.0) (
      bind-Preserves (report hash size item acc) _ (report-Preserves hash size item acc)
        (λ acc'. reports-Preserves hash size items acc' calm.1))

streamed-Preserves :
    (hash : BlobHash) (size : Option ℕ)
    (stream : Result Text (List ((DropState → DropState) × DownloadItem)))
    (current : Option EndpointId)
    → IsCalmStream stream
    → Preserves (streamed hash size stream current)
unfolding streamed
streamed-Preserves hash size (err text) current calm = return-Preserves _
streamed-Preserves hash size (ok items) current calm =
    reports-Preserves hash size items (current, none) calm

set_status-Preserves :
    (hash : BlobHash) (status : LocalBlobStatus) → Preserves (set_status hash status)
unfolding set_status
set_status-Preserves hash status =
    modify-Preserves (put_status hash status) (put_status-IsCalm hash status)

download_attempt-Preserves :
    (hash : BlobHash) (stream : Result Text (List ((DropState → DropState) × DownloadItem)))
    (current : Option EndpointId)
    → IsCalmStream stream
    → Preserves (download_attempt hash stream current)
unfolding download_attempt
download_attempt-Preserves hash stream current calm =
    bind-Preserves _ _ (read-Preserves (advertised hash)) (λ size.
      then-Preserves _ _ (set_status-Preserves hash (fetching 0 size))
        (streamed-Preserves hash size stream current calm))

module _ (hex : HexLower) (send : MessageBodyV1 → DropState → DropState × Option DropError)
    (outside : Outside) (quiet : IsSending hex send outside) (hash : BlobHash) where
  broadcast-Preserves : (body : MessageBodyV1) → Preserves (broadcast send body)
  unfolding broadcast
  broadcast-Preserves body s v =
      by_result (send body s) (subst IsValid (sym (quiet.inventory-send body s)) v)
    where
      by_result :
          (r : DropState × Option DropError)
          → IsValid r.0.inventory
          → IsValid (sending body r).0.inventory
      by_result (t, none) w = w
      by_result (t, some e) w = w

  find_providers-Preserves :
      (round : Round)
      → IsCalmRound round
      → (known : List EndpointId) → Preserves (find_providers hex send outside hash round known)
  unfolding find_providers
  find_providers-Preserves round calm (p ∷ ps) = return-Preserves (p ∷ ps)
  find_providers-Preserves round calm [] = then-Preserves _ _ (broadcast-Preserves _) (
      then-Preserves _ _ (modify-Preserves round.waited calm.waited)
        (read-Preserves (known_remote_providers hash)))

  after_attempt-Preserves :
      (round : Round)
      → IsCalmRound round
      → (acc : Option EndpointId × Option DropError)
      → Preserves (after_attempt hex send outside hash round acc)
  unfolding after_attempt
  after_attempt-Preserves round calm (current, none) = return-Preserves _
  after_attempt-Preserves round calm (current, some e) =
      then-Preserves _ _ (broadcast-Preserves _) (
        then-Preserves _ _ (modify-Preserves round.waited_again calm.waited_again)
          (return-Preserves _))

  with_providers-Preserves :
      (round : Round)
      → IsCalmRound round
      → (current : Option EndpointId) (known : List EndpointId)
      → Preserves (with_providers hex send outside hash round current known)
  unfolding with_providers
  with_providers-Preserves round calm current [] = return-Preserves _
  with_providers-Preserves round calm current (p ∷ ps) =
      bind-Preserves _ _ (download_attempt-Preserves hash round.stream current calm.stream)
        (after_attempt-Preserves round calm)

  attempt-Preserves :
      (round : Round)
      → IsCalmRound round
      → (current : Option EndpointId) → Preserves (attempt hex send outside hash round current)
  unfolding attempt
  attempt-Preserves round calm current =
      bind-Preserves _ _
        (bind-Preserves _ _ (read-Preserves (known_remote_providers hash))
          (find_providers-Preserves round calm))
        (with_providers-Preserves round calm current)

  unless_done-Preserves :
      (d : Bool × Option EndpointId × Option DropError)
      (rest : M (Option EndpointId × Option DropError))
      → Preserves rest
      → Preserves (unless_done hex send outside d rest)
  unless_done-Preserves (true, current, error) rest p = return-Preserves _
  unless_done-Preserves (false, current, error) rest p = p

  pub attempts-Preserves :
      (rounds : List Round) (acc : Option EndpointId × Option DropError)
      → All IsCalmRound rounds
      → Preserves (attempts hex send outside hash rounds acc)
  unfolding attempts
  attempts-Preserves [] acc calm = return-Preserves acc
  attempts-Preserves (round ∷ rounds) acc calm =
      bind-Preserves _ _ (attempt-Preserves round calm.0 acc.0)
        (λ d. unless_done-Preserves d _ (attempts-Preserves rounds (d.1, d.2) calm.1))

  pub fail_with-Preserves : (o : Option DropError) → Preserves (fail_with hex send outside o)
  unfolding return fail
  fail_with-Preserves none s v = v
  fail_with-Preserves (some e) s v = v

  pub checked_size-Preserves : (o : Option ℕ) → Preserves (checked_size hex send outside hash o)
  unfolding return fail
  checked_size-Preserves none s v = v
  checked_size-Preserves (some n) s v = v

  pub mark_winner-Preserves :
      (o : Option EndpointId) → Preserves (mark_winner hex send outside hash o)
  unfolding return
  mark_winner-Preserves none s v = v
  mark_winner-Preserves (some p) s v =
      modify-Preserves (change_providers hash (mark_success p))
        (change_providers-IsCalm hash (mark_success p)) s v
