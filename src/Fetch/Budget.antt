-- ===== src/Fetch/Budget.antt =====
-- How often a fetch asks, and that it reports a failure once.
use iroh_drop.Prelude.{
  ℕ, ◌+◌, ◌*◌, ◌≤◌, ◌≡◌, refl, ap, sym, subst, Bool, true, false, Option, none, some, List, [], ◌∷◌,
  ◌++◌, arith, length, Option-cases, inl, inr, if◌then◌else◌, ite, ◌∙◌,
}
use iroh_drop.Text.{Text, text_key}
use iroh_drop.Map.{get, is_some, get-put}
use iroh_drop.Error.{Result, ok, err}
use iroh_drop.Message.{MessageBodyV1, offer, provider, request, extension, BlobHash, EndpointId}
use iroh_drop.Hash.{HexLower}
use iroh_drop.State.{DropState, OfferRecord, LocalBlobStatus, failed}
use iroh_drop.Provider.{mark_success}
use iroh_drop.Fetch.Effect.{
  DropError, FetchEvent, fetch_started, provider_failed, fetch_progress, fetch_completed,
  fetch_failed, sent, M, put_status, change_providers, hash_mismatch,
}
use iroh_drop.Fetch.Download.{Round}
use iroh_drop.Fetch.{
  FetchOutput, FetchResult, Outside, find_providers, after_attempt, with_providers, attempt,
  attempts, finish, download, fetch_local, fetch_inner_impl, closed, fetch_inner, fetch,
  known_remote_providers, mark_winner, fail_with, unless_done, checked_size, unwrap_or,
}
use iroh_drop.Run.Steps.{
  total, total-append, Costs, bind-Costs, then-Costs, return-Costs, fail-Costs, modify-Costs,
  read-Costs, emit-Costs,
}
use iroh_drop.Fetch.Weights.{
  IsWeight, download_attempt-Costs, broadcast-Costs, mark_complete-Costs, export-Costs,
}

module _ (weight : FetchEvent → ℕ) (r : ℕ) (w : IsWeight weight r) where
  module _ (hex : HexLower) (send : MessageBodyV1 → DropState → DropState × Option DropError)
      (outside : Outside) where
    find_providers-Costs :
        (hash : BlobHash) (round : Round) (known : List EndpointId)
        → Costs weight r (find_providers hex send outside hash round known)
    unfolding find_providers
    find_providers-Costs hash round (p ∷ ps) = return-Costs DropError weight r (p ∷ ps)
    find_providers-Costs hash round [] =
        then-Costs DropError weight r 0 r _ _
          (broadcast-Costs weight r w hex send outside r _ (w.asked hash))
          (then-Costs DropError weight 0 0 0 _ _ (modify-Costs DropError weight 0 round.waited)
            (read-Costs DropError weight 0 (known_remote_providers hash)) (omega arith))
          (omega arith)

    after_attempt-Costs :
        (hash : BlobHash) (round : Round) (acc : Option EndpointId × Option DropError)
        → Costs weight r (after_attempt hex send outside hash round acc)
    unfolding after_attempt
    after_attempt-Costs hash round (current, none) = return-Costs DropError weight r _
    after_attempt-Costs hash round (current, some e) =
        then-Costs DropError weight r 0 r _ _
          (broadcast-Costs weight r w hex send outside r _ (w.asked hash))
          (then-Costs DropError weight 0 0 0 _ _
            (modify-Costs DropError weight 0 round.waited_again) (return-Costs DropError weight 0 _)
            (omega arith))
          (omega arith)

    with_providers-Costs :
        (hash : BlobHash) (round : Round) (current : Option EndpointId) (known : List EndpointId)
        → Costs weight r (with_providers hex send outside hash round current known)
    unfolding with_providers
    with_providers-Costs hash round current [] = return-Costs DropError weight r _
    with_providers-Costs hash round current (p ∷ ps) =
        bind-Costs DropError weight 0 r r _ _
          (download_attempt-Costs weight r w hash round.stream current)
          (after_attempt-Costs hash round) (omega arith)

    attempt-Costs :
        (hash : BlobHash) (round : Round) (current : Option EndpointId)
        → Costs weight (r + r) (attempt hex send outside hash round current)
    unfolding attempt
    attempt-Costs hash round current =
        bind-Costs DropError weight r r (r + r) _ _
          (bind-Costs DropError weight 0 r r _ _
            (read-Costs DropError weight 0 (known_remote_providers hash))
            (find_providers-Costs hash round) (omega arith))
          (with_providers-Costs hash round current) (omega arith)

    unless_done-Costs :
        (n : ℕ) (d : Bool × Option EndpointId × Option DropError)
        (rest : M (Option EndpointId × Option DropError))
        → Costs weight n rest
        → Costs weight n (unless_done hex send outside d rest)
    unless_done-Costs n (true, current, error) rest c = return-Costs DropError weight n _
    unless_done-Costs n (false, current, error) rest c = c

    attempts-Costs :
        (n : ℕ) (hash : BlobHash) (rounds : List Round) (acc : Option EndpointId × Option DropError)
        → length rounds * (r + r) ≤ n
        → Costs weight n (attempts hex send outside hash rounds acc)
    unfolding attempts
    attempts-Costs n hash [] acc le = return-Costs DropError weight n acc
    attempts-Costs n hash (round ∷ rounds) acc le =
        bind-Costs DropError weight (r + r) (length rounds * (r + r)) n _ _
          (attempt-Costs hash round acc.0)
          (λ d.
            unless_done-Costs (length rounds * (r + r)) d _
              (attempts-Costs (length rounds * (r + r)) hash rounds (d.1, d.2) (omega arith)))
          (grind arith)

    fail_with-Costs : (o : Option DropError) → Costs weight 0 (fail_with hex send outside o)
    fail_with-Costs none = return-Costs DropError weight 0 tt
    fail_with-Costs (some e) = fail-Costs DropError weight (Unit {0}) 0 e

    checked_size-Costs :
        (hash : BlobHash) (o : Option ℕ) → Costs weight 0 (checked_size hex send outside hash o)
    checked_size-Costs hash none = fail-Costs DropError weight ℕ 0 (hash_mismatch hash)
    checked_size-Costs hash (some n) = return-Costs DropError weight 0 n

    mark_winner-Costs :
        (hash : BlobHash) (o : Option EndpointId)
        → Costs weight 0 (mark_winner hex send outside hash o)
    mark_winner-Costs hash none = return-Costs DropError weight 0 tt
    mark_winner-Costs hash (some p) =
        modify-Costs DropError weight 0 (change_providers hash (mark_success p))

    finish-Costs :
        (hash : BlobHash) (output : FetchOutput) (current : Option EndpointId) (size : ℕ)
        → Costs weight 0 (finish hex send outside hash output current size)
    unfolding finish
    finish-Costs hash output current size =
        then-Costs DropError weight 0 0 0 _ _ (mark_winner-Costs hash current)
          (then-Costs DropError weight 0 0 0 _ _
            (mark_complete-Costs weight r w hex send outside hash (some size))
            (bind-Costs DropError weight 0 0 0 _ _
              (export-Costs weight r w hex send outside hash output)
              (λ path.
                bind-Costs DropError weight 0 0 0 _ _
                  (read-Costs DropError weight 0 (unwrap_or hex send outside current))
                  (λ winner.
                    then-Costs DropError weight 0 0 0 _ _
                      (emit-Costs DropError weight 0 _ (omega (arith, w.completed hash winner)))
                      (return-Costs DropError weight 0 _) (omega arith))
                  (omega arith))
              (omega arith))
            (omega arith))
          (omega arith)

    download-Costs :
        (hash : BlobHash) (output : FetchOutput) (rounds : List Round)
        → Costs weight (length rounds * (r + r)) (download hex send outside hash output rounds)
    unfolding download
    download-Costs hash output rounds =
        let n = length rounds * (r + r) in
        bind-Costs DropError weight n 0 n _ _
          (attempts-Costs n hash rounds (none, none) (omega arith))
          (λ acc.
            then-Costs DropError weight 0 0 0 _ _ (fail_with-Costs acc.1)
              (bind-Costs DropError weight 0 0 0 _ _ (checked_size-Costs hash outside.size_after)
                (finish-Costs hash output acc.0) (omega arith))
              (omega arith))
          (omega arith)

    fetch_local-Costs :
        (n : ℕ) (hash : BlobHash) (output : FetchOutput)
        → Costs weight n (fetch_local hex send outside hash output)
    unfolding fetch_local
    fetch_local-Costs n hash output =
        bind-Costs DropError weight 0 0 n _ _
          (mark_complete-Costs weight r w hex send outside hash outside.size_again)
          (λ size.
            bind-Costs DropError weight 0 0 0 _ _
              (export-Costs weight r w hex send outside hash output)
              (λ path. return-Costs DropError weight 0 _) (omega arith))
          (omega arith)

    fetch_inner_impl-Costs :
        (hash : BlobHash) (output : FetchOutput) (rounds : List Round)
        → Costs weight
            (length rounds * (r + r))
            (fetch_inner_impl hex send outside hash output rounds)
    unfolding fetch_inner_impl
    fetch_inner_impl-Costs hash output rounds = by_case (is_some outside.size_before)
      where
        by_case :
            (b : Bool)
            → Costs weight (length rounds * (r + r)) (
                if b
                then fetch_local hex send outside hash output
                else download hex send outside hash output rounds)
        by_case true = fetch_local-Costs (length rounds * (r + r)) hash output
        by_case false = download-Costs hash output rounds

abbrev pub request_weight : FetchEvent → ℕ
request_weight (sent (request q)) = 1
request_weight (sent (offer o)) = 0
request_weight (sent (provider p)) = 0
request_weight (sent (extension e)) = 0
request_weight (fetch_started h p) = 0
request_weight (provider_failed h p) = 0
request_weight (fetch_progress h n t) = 0
request_weight (fetch_completed h p) = 0
request_weight (fetch_failed h e) = 0

abbrev pub failure_weight : FetchEvent → ℕ
failure_weight (fetch_failed h e) = 1
failure_weight (sent body) = 0
failure_weight (fetch_started h p) = 0
failure_weight (provider_failed h p) = 0
failure_weight (fetch_progress h n t) = 0
failure_weight (fetch_completed h p) = 0

requests-IsWeight : IsWeight request_weight 1
requests-IsWeight = record {
  started = λ h p. refl;
  lost = λ h p. refl;
  progressed = λ h n t. refl;
  completed = λ h p. refl;
  announced = λ h t. refl;
  asked = λ h. omega arith;
}

failures-IsWeight : IsWeight failure_weight 0
failures-IsWeight = record {
  started = λ h p. refl;
  lost = λ h p. refl;
  progressed = λ h n t. refl;
  completed = λ h p. refl;
  announced = λ h t. refl;
  asked = λ h. omega arith;
}

-- The record, if there is one, with another status.
abbrev pub with_status : LocalBlobStatus → Option OfferRecord → Option OfferRecord
with_status status none = none
with_status status (some r) = some (record r { local_status = status })

-- The offers of a state are those of another, but for the status of one of them.
abbrev pub HasOnlyStatus : BlobHash → LocalBlobStatus → DropState → DropState → Type 0
HasOnlyStatus hash status t s' =
    (q : BlobHash)
    → get q s'.inventory.offers
      ≡ ite (text_key.dec hash q) (with_status status (get q t.inventory.offers))
          (get q t.inventory.offers)

put_status-HasOnlyStatus :
    (hash : BlobHash) (status : LocalBlobStatus) (t : DropState)
    → HasOnlyStatus hash status t (put_status hash status t)
unfolding put_status
put_status-HasOnlyStatus hash status t q = elim (Option-cases (get hash t.inventory.offers)) [
  | inl absent ↦ ground arith
  | inr (r, there) ↦
      ground (arith, get-put hash q (record r { local_status = status }) t.inventory.offers)
]

module _ (hex : HexLower) (send : MessageBodyV1 → DropState → DropState × Option DropError)
    (outside : Outside) (describe : DropError → Text) (hash : BlobHash) (output : FetchOutput)
    (first second third : Round) (s : DropState) where
  -- A fetch asks for providers six times at most, whatever its three rounds meet.
  pub requests-le :
      total request_weight (fetch hex send outside describe hash output first second third s).1 ≤ 6
  unfolding fetch fetch_inner total
  requests-le =
      by_result (fetch_inner_impl hex send outside hash output (first ∷ second ∷ third ∷ []) s) (
        fetch_inner_impl-Costs request_weight 1 requests-IsWeight hex send outside hash output
          (first ∷ second ∷ third ∷ []) s)
    where
      by_result :
          (r : DropState × List FetchEvent × Result DropError FetchResult)
          → total request_weight r.1 ≤ 6
          → total request_weight (closed hex send outside describe hash r).1 ≤ 6
      by_result (t, es, ok a) c = c
      by_result (t, es, err e) c =
          omega (arith, total-append request_weight es (fetch_failed hash e ∷ []))

  -- A fetch that fails says so once, as its last event. The offers are those that its steps left, every one,
  -- but that the record of the blob, if it was there, is failed, with the text of the error.
  pub fails_once :
      (s' : DropState) (events : List FetchEvent) (e : DropError)
      → fetch hex send outside describe hash output first second third s ≡ (s', events, err e)
      → (total failure_weight events ≡ 1)
        × ((before : List FetchEvent) × (events ≡ before ++ fetch_failed hash e ∷ []))
        × HasOnlyStatus hash
            (failed true (describe e))
            (fetch_inner_impl hex send outside hash output (first ∷ second ∷ third ∷ []) s).0
            s'
  unfolding fetch fetch_inner total
  fails_once s' events e h =
      by_result (fetch_inner_impl hex send outside hash output (first ∷ second ∷ third ∷ []) s)
        (fetch_inner_impl-Costs failure_weight 0 failures-IsWeight hex send outside hash output
          (first ∷ second ∷ third ∷ []) s)
        h
    where
      by_result :
          (r : DropState × List FetchEvent × Result DropError FetchResult)
          → total failure_weight r.1 ≤ 0
          → closed hex send outside describe hash r ≡ (s', events, err e)
          → (total failure_weight events ≡ 1)
            × ((before : List FetchEvent) × (events ≡ before ++ fetch_failed hash e ∷ []))
            × HasOnlyStatus hash (failed true (describe e)) r.0 s'
      by_result (t, es, ok a) c k = absurd (ground arith)
      by_result (t, es, err f) c k =
          let same : f ≡ e = ground arith in
          let all : es ++ fetch_failed hash f ∷ [] ≡ events = ground arith in
          let last : put_status hash (failed true (describe f)) t ≡ s' = ground arith in
          (
            omega (
              arith,
              total-append failure_weight es (fetch_failed hash f ∷ []),
              ap (total failure_weight) all,
            ),
            (es, rw (← same) (sym all)),
            subst (HasOnlyStatus hash (failed true (describe e)) t)
                (ap (λ x. put_status hash (failed true (describe x)) t) (sym same) ∙ last)
                (put_status-HasOnlyStatus hash (failed true (describe e)) t),
          )
